-- ===== src/Ws/Buffers/Matches.antt =====
-- What the filter of a stream lets through.
use polymarket_go_sdk.Base.{
  ◌≡◌, refl, ap, ◌⊎◌, ◌↔◌, Bool, true, false, ◌||◌, List, [], ◌∷◌, is_empty, arith,
}
use polymarket_go_sdk.Base.Text.{Text, text_eq}
use polymarket_go_sdk.Ws.Buffers.{make_id_set, in_set, matches}

in_set-make_id_set :
    (ids : List Text) (id : Text)
    → is_empty id ≡ false
    → in_set (make_id_set ids) id ≡ in_set ids id
unfolding make_id_set in_set text_eq
in_set-make_id_set [] id h = refl
in_set-make_id_set ([] ∷ ids) [] h = cc
in_set-make_id_set ([] ∷ ids) (c ∷ id) h = in_set-make_id_set ids (c ∷ id) h
in_set-make_id_set ((d ∷ x) ∷ ids) id h =
    ap (λ b. text_eq (d ∷ x) id || b) (in_set-make_id_set ids id h)

-- Are all ids of a list empty?
abbrev all_blank : List Text → Bool
all_blank [] = true
all_blank (id ∷ ids) = elim (is_empty id) [ true ↦ all_blank ids | false ↦ false ]

make_id_set-blank : (ids : List Text) → is_empty (make_id_set ids) ≡ all_blank ids
unfolding make_id_set
make_id_set-blank [] = refl
make_id_set-blank (x ∷ ids) = ground (arith, make_id_set-blank ids)

-- A stream of a list of ids takes the events of an id that is not empty exactly if the id is in the
-- list, or the list has nothing but empty ids: then it takes those of every id.
pub matches_iff :
    (ids : List Text) (id : Text)
    → is_empty id ≡ false
    → (matches (make_id_set ids) id ≡ true) ↔ ((all_blank ids ≡ true) ⊎ (in_set ids id ≡ true))
unfolding matches
matches_iff ids id h = ground (arith, make_id_set-blank ids, in_set-make_id_set ids id h)
