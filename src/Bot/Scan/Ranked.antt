-- ===== src/Bot/Scan/Ranked.antt =====
-- What a scan returns: the best of what passes its filters.
use polymarket_go_sdk.Base.{ℕ, zero, suc, ◌≡◌, false, List, [], ◌∷◌, All}
use mathlib.Core.List.{Perm}
use mathlib.Core.List.Perm
use mathlib.Core.Logic.Or
use polymarket_go_sdk.Base.Text.{Text}
use polymarket_go_sdk.Base.Result.{Result}
use polymarket_go_sdk.Decimal.{Decimals}
use polymarket_go_sdk.Bot.{Opportunity}

-- No opportunity has a higher score than one before it.
abbrev pub Descending {ℓ} : {D : Type ℓ} → Decimals D → List (Opportunity D) → Type 0
Descending d [] = Unit
Descending d (o ∷ os) =
    All (λ x. d.greater_than x.signal_score o.signal_score ≡ false) os × Descending d os

-- What sort.Slice leaves of a list: the same elements, in order.
pub record Sorted {ℓ} {D : Type ℓ} (d : Decimals D) (opps sorted : List (Opportunity D))
    : Type ℓ where
  pub same : Perm sorted opps
  pub descending : Descending d sorted

module _ {ℓ} {A : Type ℓ} where
  drop : ℕ → List A → List A
  drop zero xs = xs
  drop (suc n) [] = []
  drop (suc n) (x ∷ xs) = drop n xs
