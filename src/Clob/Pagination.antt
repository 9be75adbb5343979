-- ===== src/Clob/Pagination.antt =====
-- The cursor loops of pkg/clob: MarketsAll, OrdersAll, TradesAll, BuilderTradesAll and the stream of
-- stream.go. What fetches a page is a parameter.
pub mod Queries
pub mod Collect
pub mod All
pub mod Stream
pub mod Sends
pub mod StreamSteps
pub mod Streamed
use polymarket_go_sdk.Base.{
  ℕ, zero, suc, Bool, true, false, ◌||◌, Option, none, some, List, [], ◌∷◌, ◌++◌, is_empty,
  if◌then◌else◌,
}
use polymarket_go_sdk.Base.Text.{Text, codes, text_eq}
use polymarket_go_sdk.Base.Result.{Result, ok, err}

abbrev pub initial_cursor : Text
initial_cursor = codes "MA=="

abbrev pub end_cursor : Text
end_cursor = codes "LTE="

pub record Page {ℓ} (A : Type ℓ) : Type ℓ where
  pub items : List A
  pub next_cursor : Text

-- `next == "" || next == cursor`
abbrev pub is_last : Text → Text → Bool
is_last next cursor = is_empty next || text_eq next cursor

module _ {ℓ κ} {E : Type ℓ} {A : Type κ} (fetch : Text → Result E (Page A)) where
  -- The loop `for cursor != EndCursor` on fuel, which counts fetches; `none` is a loop that still
  -- runs when the fuel is gone.
  unfoldable pub page_loop : ℕ → Text → List A → Option (Result E (List A))
  page_loop zero cursor results = if text_eq cursor end_cursor then some (ok results) else none
  page_loop (suc n) cursor results = elim (text_eq cursor end_cursor) [
    | true ↦ some (ok results)
    | false ↦ elim (fetch cursor) [
      | err e ↦ some (err e)
      | ok page ↦ elim (is_last page.next_cursor cursor) [
        | true ↦ some (ok (results ++ page.items))
        | false ↦ page_loop n page.next_cursor (results ++ page.items)
      ]
    ]
  ]
