-- ===== src/Clob/Orders/Signing/Steps.antt =====
-- A logic of the steps that sign an order: what they keep of it, on every path, and what they return.
use polymarket_go_sdk.Base.{◌≡◌}
use polymarket_go_sdk.Base.Result.{Result, ok, err}
use polymarket_go_sdk.Clob.Orders.{Order}
use polymarket_go_sdk.Clob.Orders.Signing.{SignError, Step, ◌>>◌}

-- What holds of the order that a step leaves, and of a value that it returns.
abbrev pub Outcome {ℓ κ μ ν ξ} :
    {D : Type ℓ} {E : Type κ} {A : Type μ}
    → (Order D → Type ν)
    → (A → Order D → Type ξ)
    → Order D × Result (SignError E) A
    → Type (κ ⊔ μ ⊔ ν ⊔ ξ)
Outcome {A} P Q r = P r.0 × ((a : A) → r.1 ≡ ok a → Q a r.0)

-- A step that keeps a property of the order, whatever it returns.
abbrev pub Keeps {ℓ κ μ ν} :
    {D : Type ℓ} {E : Type κ} {A : Type μ} → (Order D → Type ν) → Step D E A → Type (ℓ ⊔ ν)
Keeps {D} P m = (o : Order D) → P o → P (m o).0

module _ {ℓ κ μ ν ξ} {D : Type ℓ} {E : Type κ} {B : Type μ} (P : Order D → Type ν)
    (Q : B → Order D → Type ξ) where
  abbrev pub Triple : Step D E B → Type (ℓ ⊔ κ ⊔ μ ⊔ ν ⊔ ξ)
  Triple m = (o : Order D) → P o → Outcome P Q (m o)

  then_outcome :
      (f : Step D E B) (r : Order D × Result (SignError E) (Unit {0}))
      → P r.0
      → Triple f
      → Outcome P Q (((λ o. r) >> f) r.0)
  then_outcome f (o, ok a) h k = k o h
  then_outcome f (o, err e) h k = (h, λ a q. cc)

  pub then-Triple :
      (m : Step D E (Unit {0})) (f : Step D E B) → Keeps P m → Triple f → Triple (m >> f)
  then-Triple m f h k o p = then_outcome f (m o) (h o p) k
