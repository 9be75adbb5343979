-- ===== src/Clob/Examples.antt =====
-- The theorems on pkg/clob at concrete inputs.
use polymarket_go_sdk.Base.{
  ℕ, ◌≤◌, ◌<◌, ◌≡◌, refl, false, none, some, List, [], ◌∷◌, arith, if◌then◌else◌,
}
use polymarket_go_sdk.Base.Text.{Text, codes, text_eq, text_eq_iff}
use polymarket_go_sdk.Base.Result.{Result, ok}
use polymarket_go_sdk.Clob.Pagination.{initial_cursor, end_cursor, Page, page_loop, is_last}
use polymarket_go_sdk.Clob.Pagination.Collect.{
  Walk, page_loop_iff, page_loop_total, page_loop_cycles,
}

-- Two pages: the first links to the end cursor.
abbrev two_pages : Text → Result ℕ (Page ℕ)
two_pages c =
    if text_eq c initial_cursor
    then ok (record { items = 1 ∷ 2 ∷ []; next_cursor = codes "NEXT" })
    else ok (record { items = 3 ∷ []; next_cursor = end_cursor })

-- Pages that link to each other.
abbrev two_cycle : Text → Result ℕ (Page ℕ)
two_cycle c =
    if text_eq c (codes "A")
    then ok (record { items = 1 ∷ []; next_cursor = codes "B" })
    else ok (record { items = 2 ∷ []; next_cursor = codes "A" })

page_loop_iff_example : (k : ℕ) × (k ≤ 5) × Walk two_pages k initial_cursor (ok (1 ∷ 2 ∷ 3 ∷ []))
unfolding page_loop text_eq
page_loop_iff_example = (page_loop_iff two_pages 5 initial_cursor (ok (1 ∷ 2 ∷ 3 ∷ []))).0 refl

abbrev rank : Text → ℕ
rank c = if text_eq c end_cursor then 0 else if text_eq c initial_cursor then 2 else 1

next_rank : rank (codes "NEXT") ≡ 1
unfolding text_eq
next_rank = refl

end_rank : rank end_cursor ≡ 0
unfolding text_eq
end_rank = refl

end_ne_initial : text_eq initial_cursor end_cursor ≡ false
unfolding text_eq
end_ne_initial = refl

rank_falls :
    (c : Text) (p : Page ℕ)
    → two_pages c ≡ ok p
    → is_last p.next_cursor c ≡ false
    → rank p.next_cursor < rank c
rank_falls c p e l = ground (
  arith,
  text_eq_iff c initial_cursor,
  text_eq_iff c end_cursor,
  text_eq_iff end_cursor c,
  end_ne_initial,
  next_rank,
  end_rank,
)

page_loop_total_example :
    (r : Result ℕ (List ℕ)) × (page_loop two_pages 3 initial_cursor [] ≡ some r)
unfolding text_eq
page_loop_total_example =
    page_loop_total two_pages rank rank_falls 3 initial_cursor [] (omega arith)

page_loop_cycles_example : page_loop two_cycle 7 (codes "A") [] ≡ none
unfolding text_eq
page_loop_cycles_example =
    page_loop_cycles two_cycle 7 (codes "A") (codes "B")
      (record { items = 1 ∷ []; next_cursor = codes "B" })
      (record { items = 2 ∷ []; next_cursor = codes "A" }) [] refl refl refl refl refl refl refl
      refl
