-- ===== src/Ws/Refs/Laws.antt =====
-- What the loops do to the counts, and which ids they report.
use polymarket_go_sdk.Base.{
  ℕ, suc, ◌+◌, ◌-◌, ◌≡◌, refl, ◌&&◌, not, List, [], ◌∷◌, is_empty, arith, leb, ltb, ◌==◌,
  if◌then◌else◌,
}
use polymarket_go_sdk.Base.Text.{Text, text_eq, text_eq_iff}
use polymarket_go_sdk.Ws.Refs.{Refs, get, put, delete, add_refs, remove_ref, remove_refs, occurs}

pub get-put :
    (r : Refs) (k : Text) (n : ℕ) (x : Text)
    → get (put r k n) x ≡ (if text_eq k x then n else get r x)
unfolding get put
get-put [] k n x = refl
get-put ((j, m) ∷ r) k n x =
    ground (arith, text_eq_iff j k, text_eq_iff j x, text_eq_iff k x, get-put r k n x)

pub get-delete : (r : Refs) (k x : Text) → get (delete r k) x ≡ (if text_eq k x then 0 else get r x)
unfolding get delete
get-delete [] k x = ground arith
get-delete ((j, m) ∷ r) k x =
    ground (arith, text_eq_iff j k, text_eq_iff j x, text_eq_iff k x, get-delete r k x)

get-remove_ref :
    (r : Refs) (k x : Text)
    → get (remove_ref r k) x ≡ (if text_eq k x then get r x - 1 else get r x)
unfolding remove_ref
get-remove_ref r k x =
    ground (arith, text_eq_iff k x, get-put r k (get r k - 1) x, get-delete r k x)

-- Adding counts every occurrence of an id that is not blank.
pub get-add_refs :
    (r : Refs) (ids : List Text) (x : Text)
    → get (add_refs r ids).0 x ≡ get r x + (if is_empty x then 0 else occurs x ids)
unfolding add_refs occurs
get-add_refs r [] x = ground arith
get-add_refs r (id ∷ ids) x = ground (
  arith,
  text_eq_iff id x,
  get-put r id (suc (get r id)) x,
  get-add_refs (if is_empty id then r else put r id (suc (get r id))) ids x,
)

-- Removing takes off every occurrence, and stops at none.
pub get-remove_refs :
    (r : Refs) (ids : List Text) (x : Text) → get (remove_refs r ids).0 x ≡ get r x - occurs x ids
unfolding remove_refs occurs
get-remove_refs r [] x = omega arith
get-remove_refs r (id ∷ ids) x =
    ground (arith, text_eq_iff id x, get-remove_ref r id x, get-remove_refs (remove_ref r id) ids x)

-- The ids that adding reports are those that gained their first reference, each once.
pub occurs-fresh :
    (r : Refs) (ids : List Text) (x : Text)
    → occurs x (add_refs r ids).1
      ≡ (if get r x == 0 && not (is_empty x) && ltb 0 (occurs x ids) then 1 else 0)
unfolding add_refs occurs
occurs-fresh r [] x = ground arith
occurs-fresh r (id ∷ ids) x = ground (
  arith,
  text_eq_iff id x,
  get-put r id (suc (get r id)) x,
  occurs-fresh (if is_empty id then r else put r id (suc (get r id))) ids x,
)

-- The ids that removing reports are those that lost their last reference, each once.
pub occurs-gone :
    (r : Refs) (ids : List Text) (x : Text)
    → occurs x (remove_refs r ids).1
      ≡ (if ltb 0 (get r x) && leb (get r x) (occurs x ids) then 1 else 0)
unfolding remove_refs occurs
occurs-gone r [] x = ground arith
occurs-gone r (id ∷ ids) x =
    ground (arith, text_eq_iff id x, get-remove_ref r id x, occurs-gone (remove_ref r id) ids x)
