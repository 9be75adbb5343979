-- ===== src/Clob/Pagination/Stream.antt =====
-- StreamData and StreamDataWithCursor of stream.go: what the goroutine sends on its channel before it
-- closes it. Where the source looks at the context or selects on it, the schedule says what happens;
-- a schedule that has run out is a context that is never done.
use polymarket_go_sdk.Base.{
  ℕ, zero, suc, true, false, Option, none, some, List, [], ◌∷◌, ◌++◌, is_empty, if◌then◌else◌,
}
use polymarket_go_sdk.Base.Text.{Text, text_eq}
use polymarket_go_sdk.Base.Result.{Result, ok, err}
use polymarket_go_sdk.Clob.Pagination.{initial_cursor, end_cursor, Page, is_last}

-- At a check `live` is ctx.Err() == nil, and the others are a done context whose select then sends or
-- gives up. At a select on a send, `live` and `done_sent` send, `done_silent` gives up.
pub data Choice : Type 0 where
  live done_sent done_silent : Choice

pub data StreamResult {ℓ κ} (E : Type ℓ) (A : Type κ) : Type (ℓ ⊔ κ) where
  item : A → StreamResult E A
  failure : E → StreamResult E A

abbrev pub head_choice : List Choice → Choice
head_choice [] = live
head_choice (c ∷ cs) = c

abbrev pub rest_choices : List Choice → List Choice
rest_choices [] = []
rest_choices (c ∷ cs) = cs

module _ {ℓ κ} {E : Type ℓ} {A : Type κ} (context_error : E) where
  -- What is sent of a page's items, and the schedule left, or none if the goroutine returned.
  unfoldable pub send_items : List Choice → List A → List (StreamResult E A) × Option (List Choice)
  send_items cs [] = ([], some cs)
  send_items cs (x ∷ xs) =
      let rest = send_items (rest_choices (rest_choices cs)) xs in
      elim (head_choice cs) [
        | done_sent ↦ (failure context_error ∷ [], none)
        | done_silent ↦ ([], none)
        | live ↦ elim (head_choice (rest_choices cs)) [
          | done_silent ↦ ([], none)
          | _ ↦ (item x ∷ rest.0, rest.1)
        ]
      ]

  -- `select { case out <- StreamResult[T]{Err: err}: case <-ctx.Done(): }`
  unfoldable pub send_error : Choice → E → List (StreamResult E A)
  send_error done_silent e = []
  send_error live e = failure e ∷ []
  send_error done_sent e = failure e ∷ []

  module _ (fetch : Text → Result E (Page A)) where
    -- The loop on fuel, which counts fetches; `none` is a stream that is still open.
    unfoldable pub stream_from : ℕ → List Choice → Text → Option (List (StreamResult E A))
    unfolding send_error
    stream_from zero cs cursor = if text_eq cursor end_cursor then some [] else none
    stream_from (suc n) cs cursor = elim (text_eq cursor end_cursor) [
      | true ↦ some []
      | false ↦ elim (head_choice cs) [
        | done_sent ↦ some (failure context_error ∷ [])
        | done_silent ↦ some []
        | live ↦ elim (fetch cursor) [
          | err e ↦ some (send_error (head_choice (rest_choices cs)) e)
          | ok page ↦ elim (send_items (rest_choices cs) page.items).1 [
            | none ↦ some (send_items (rest_choices cs) page.items).0
            | some ds ↦ elim (is_last page.next_cursor cursor) [
              | true ↦ some (send_items (rest_choices cs) page.items).0
              | false ↦ elim (stream_from n ds page.next_cursor) [
                | none ↦ none
                | some outs ↦ some ((send_items (rest_choices cs) page.items).0 ++ outs)
              ]
            ]
          ]
        ]
      ]
    ]

    unfoldable stream_data_with_cursor : ℕ → List Choice → Text → Option (List (StreamResult E A))
    stream_data_with_cursor n cs cursor =
        stream_from n cs (if is_empty cursor then initial_cursor else cursor)

    unfoldable stream_data : ℕ → List Choice → Option (List (StreamResult E A))
    unfolding stream_data_with_cursor
    stream_data n cs = stream_data_with_cursor n cs initial_cursor
