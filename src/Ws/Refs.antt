-- ===== src/Ws/Refs.antt =====
-- The reference counts of subscriptions.go: marketRefs and userRefs, a map[string]int each, and the
-- loops that add to them and take from them. A map is an association list; a missing key counts 0.
pub mod Laws
pub mod Keys
use polymarket_go_sdk.Base.{
  ℕ, zero, suc, ◌-◌, Bool, true, false, List, [], ◌∷◌, is_empty, leb, ltb, ◌==◌, if◌then◌else◌, map,
}
use polymarket_go_sdk.Base.Text.{Text, text_eq}

abbrev pub Refs : Type 0
Refs = List (Text × ℕ)

-- refs[id]
unfoldable pub get : Refs → Text → ℕ
get [] id = 0
get ((k, n) ∷ r) id = if text_eq k id then n else get r id

-- refs[id] = n
unfoldable pub put : Refs → Text → ℕ → Refs
put [] id n = (id, n) ∷ []
put ((k, m) ∷ r) id n = if text_eq k id then (k, n) ∷ r else (k, m) ∷ put r id n

-- delete(refs, id)
unfoldable pub delete : Refs → Text → Refs
delete [] id = []
delete ((k, m) ∷ r) id = let rest = delete r id in if text_eq k id then rest else (k, m) ∷ rest

-- The keys, as ranging over the map gives them; the order is the representation's.
abbrev pub keys : Refs → List Text
keys = map (λ e. e.0)

-- The loop of addMarketRefs and addUserRefs: the counts, and the ids that had none.
unfoldable pub add_refs : Refs → List Text → Refs × List Text
add_refs r [] = (r, [])
add_refs r (id ∷ ids) =
    let (done, fresh) = add_refs (if is_empty id then r else put r id (suc (get r id))) ids in
    (done, if is_empty id then fresh else if get r id == 0 then id ∷ fresh else fresh)

-- One round of the loop of removeMarketRefs and removeUserRefs.
unfoldable pub remove_ref : Refs → Text → Refs
remove_ref r id =
    if leb (get r id) 1
    then (if ltb 0 (get r id) then delete r id else r)
    else put r id (get r id - 1)

-- The counts, and the ids whose last reference went.
unfoldable pub remove_refs : Refs → List Text → Refs × List Text
unfolding remove_ref
remove_refs r [] = (r, [])
remove_refs r (id ∷ ids) =
    let (done, gone) = remove_refs (remove_ref r id) ids in
    (done, if get r id == 1 then id ∷ gone else gone)

-- How often an id stands in a list.
unfoldable pub occurs : Text → List Text → ℕ
occurs id [] = 0
occurs id (x ∷ xs) = let rest = occurs id xs in if text_eq x id then suc rest else rest
