-- ===== src/Ws/Refs/Keys.antt =====
-- The keys of the reference counts: each id that is counted, once.
use polymarket_go_sdk.Base.{
  ℕ, suc, ◌-◌, ◌<◌, ◌≡◌, Bool, true, false, List, [], ◌∷◌, is_empty, arith, ltb, ◌==◌,
  if◌then◌else◌,
}
use polymarket_go_sdk.Base.Text.{Text, text_eq, text_eq_iff}
use polymarket_go_sdk.Ws.Refs.{
  Refs, get, put, delete, keys, add_refs, remove_ref, remove_refs, occurs,
}
use polymarket_go_sdk.Ws.Refs.Laws.{get-put, get-delete}

occurs-keys-put :
    (r : Refs) (k : Text) (n : ℕ) (x : Text)
    → occurs x (keys (put r k n)) ≡ (
        if text_eq k x
        then (if occurs x (keys r) == 0 then 1 else occurs x (keys r))
        else occurs x (keys r))
unfolding put occurs
occurs-keys-put [] k n x = ground arith
occurs-keys-put ((j, m) ∷ r) k n x =
    ground (arith, text_eq_iff j k, text_eq_iff j x, text_eq_iff k x, occurs-keys-put r k n x)

occurs-keys-delete :
    (r : Refs) (k x : Text)
    → occurs x (keys (delete r k)) ≡ (if text_eq k x then 0 else occurs x (keys r))
unfolding delete occurs
occurs-keys-delete [] k x = ground arith
occurs-keys-delete ((j, m) ∷ r) k x =
    ground (arith, text_eq_iff j k, text_eq_iff j x, text_eq_iff k x, occurs-keys-delete r k x)

-- The map holds an id exactly if it counts it.
abbrev pub IsProper : Refs → Type 0
IsProper r = (x : Text) → occurs x (keys r) ≡ (if ltb 0 (get r x) then 1 else 0)

put-IsProper : (r : Refs) (k : Text) (n : ℕ) → 0 < n → IsProper r → IsProper (put r k n)
put-IsProper r k n h p x =
    ground (arith, p x, text_eq_iff k x, get-put r k n x, occurs-keys-put r k n x)

delete-IsProper : (r : Refs) (k : Text) → IsProper r → IsProper (delete r k)
delete-IsProper r k p x =
    ground (arith, p x, text_eq_iff k x, get-delete r k x, occurs-keys-delete r k x)

remove_ref-IsProper : (r : Refs) (k : Text) → IsProper r → IsProper (remove_ref r k)
unfolding remove_ref
remove_ref-IsProper r k p x = ground (
  arith,
  p x,
  text_eq_iff k x,
  get-put r k (get r k - 1) x,
  get-delete r k x,
  occurs-keys-put r k (get r k - 1) x,
  occurs-keys-delete r k x,
)

pub remove_refs-IsProper :
    (r : Refs) (ids : List Text) → IsProper r → IsProper (remove_refs r ids).0
unfolding remove_refs
remove_refs-IsProper r [] p = p
remove_refs-IsProper r (id ∷ ids) p =
    remove_refs-IsProper (remove_ref r id) ids (remove_ref-IsProper r id p)

pub add_refs-IsProper : (r : Refs) (ids : List Text) → IsProper r → IsProper (add_refs r ids).0
unfolding add_refs
add_refs-IsProper r [] p = p
add_refs-IsProper r (id ∷ ids) p =
    add_refs-IsProper (if is_empty id then r else put r id (suc (get r id))) ids
      (step (is_empty id))
  where
    step : (b : Bool) → IsProper (if b then r else put r id (suc (get r id)))
    step true = p
    step false = put-IsProper r id (suc (get r id)) (omega arith) p
