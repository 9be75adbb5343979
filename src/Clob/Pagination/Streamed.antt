-- ===== src/Clob/Pagination/Streamed.antt =====
-- What a stream delivers: the walk over the pages when the context is never done, and a part of it
-- from the start otherwise.
use polymarket_go_sdk.Base.{ℕ, ◌≡◌, some, List, [], ◌∷◌, ◌++◌, map}
use polymarket_go_sdk.Base.Text.{Text}
use polymarket_go_sdk.Base.Result.{Result, ok, err}
use polymarket_go_sdk.Clob.Pagination.{Page}
use polymarket_go_sdk.Clob.Pagination.Stream.{Choice, StreamResult, item, failure, stream_from}
use polymarket_go_sdk.Clob.Pagination.Sends.{Cut, Sends}

module _ {ℓ κ} {E : Type ℓ} {A : Type κ} (context_error : E) where
  module _ (fetch : Text → Result E (Page A)) where
    -- The stream closes under the schedule `cs`, having sent a start of `full`.
    abbrev pub Closes : ℕ → List Choice → Text → List (StreamResult E A) → Type (ℓ ⊔ κ)
    Closes n cs c full =
        (outs : List (StreamResult E A)) × (stream_from context_error fetch n cs c ≡ some outs)
        × Cut context_error full outs

    -- What an uninterrupted stream sends for a walk: its items in order, and then the error with
    -- which it ended, if any.
    abbrev pub Delivers : Result E (List A) → List (StreamResult E A) → Type (ℓ ⊔ κ)
    Delivers (ok xs) outs = outs ≡ map item xs
    Delivers (err e) outs = (ys : List A) × (outs ≡ map item ys ++ failure e ∷ [])
