-- ===== src/Clob/Orders/Posting/Kept.antt =====
-- What an order keeps while a client signs and posts it, at one exchange or at both.
use polymarket_go_sdk.Base.{
  ℕ, ◌≡◌, refl, sym, ap, subst, ◌∙◌, ◌⊎◌, inl, inr, Bool, true, false, Option, none, some, arith,
  if◌then◌else◌,
}
use polymarket_go_sdk.Base.Int.{ℤ, pos, ltb_ℤ}
use polymarket_go_sdk.Base.Text.{Text, codes, contains}
use polymarket_go_sdk.Base.Result.{Result, ok, err}
use polymarket_go_sdk.Decimal.{Decimals}
use polymarket_go_sdk.Clob.Orders.{Order, Signer, TypedData}
use polymarket_go_sdk.Clob.Orders.Payload.{Printer}
use polymarket_go_sdk.Clob.Orders.Typed.{typed_data_v1, typed_data_v2}
use polymarket_go_sdk.Clob.Orders.Signing.{Signing, no_salt}
use polymarket_go_sdk.Clob.Orders.Signing.Steps.{Outcome}
use polymarket_go_sdk.Clob.Orders.Signing.Kept.{Kept, Kept-refl}
use polymarket_go_sdk.Clob.Orders.Signing.Signed.{
  SignedAs, sign_order_v1-outcome, sign_order_v2-outcome,
}
use polymarket_go_sdk.Clob.Orders.Posting.{
  Exchange, OrderOptions, PostError, is_v2, contract_of, new_fee, is_zero_decimal, ask_fee,
  sign_for, sign_order_with_context, create_order_once, create_order_with_options, alt_base,
}

module _ {ℓ κ} {D : Type ℓ} (d : Decimals D) {E : Type κ} where
  new_fee-same :
      (fee : Result E ℤ) (o : Order D) → (x : D) × (new_fee d fee o ≡ record o { fee_rate_bps = x })
  unfolding new_fee
  new_fee-same (err e) o = (o.fee_rate_bps, refl)
  new_fee-same (ok fee) o =
      elim (ltb_ℤ (pos 0) fee)
        as (λ b.
          (x : D) × ((if b then record o { fee_rate_bps = d.from_int fee } else o)
            ≡ record o { fee_rate_bps = x })) [ true ↦ (_, refl) | false ↦ (_, refl) ]

  -- Only the fee is changed.
  ask_fee-same :
      (fee : Result E ℤ) (o : Order D) → (x : D) × (ask_fee d fee o ≡ record o { fee_rate_bps = x })
  unfolding ask_fee
  ask_fee-same fee o =
      elim (o.token_id)
        as (λ t.
          (x : D) × ((elim t [
            | none ↦ o
            | some token ↦ if is_zero_decimal d o.fee_rate_bps then new_fee d fee o else o
          ])
            ≡ record o { fee_rate_bps = x })) [
              | none ↦ (_, refl)
              | some token ↦
                  elim (is_zero_decimal d o.fee_rate_bps)
                    as (λ b.
                      (x : D) × ((if b then new_fee d fee o else o)
                        ≡ record o { fee_rate_bps = x })) [
                          | true ↦ new_fee-same fee o
                          | false ↦ (_, refl)
                        ]
            ]

  ask_fee-Kept :
      (salt : Result E ℤ) (fee : Result E ℤ) (o : Order D) → Kept salt o (ask_fee d fee o)
  ask_fee-Kept salt fee o =
      let (x, e) = ask_fee-same fee o in subst (Kept salt o) (sym e) (Kept-refl salt o)

maker_trans : {m₁ m₂ m₃ : ℕ} → (m₁ ≡ 0) ⊎ (m₂ ≡ m₁) → (m₂ ≡ 0) ⊎ (m₃ ≡ m₂) → (m₁ ≡ 0) ⊎ (m₃ ≡ m₁)
maker_trans h k = ground arith

abbrev SaltKept {κ} : {E : Type κ} → Result E ℤ → Option ℤ → Option ℤ → Type κ
SaltKept salt was now =
    (now ≡ was) ⊎ ((z : ℤ) × (no_salt was ≡ true) × (salt ≡ ok z) × (now ≡ some z))

salt_trans {κ} :
    {E : Type κ} {salt : Result E ℤ} {z₁ z₂ z₃ : Option ℤ}
    → SaltKept salt z₁ z₂
    → SaltKept salt z₂ z₃
    → SaltKept salt z₁ z₃
salt_trans (inl e) (inl f) = inl (f ∙ e)
salt_trans (inl e) (inr (z, a, b, c)) = inr (z, ap no_salt (sym e) ∙ a, b, c)
salt_trans (inr (z, a, b, c)) (inl f) = inr (z, a, b, f ∙ c)
salt_trans (inr (z, a, b, c)) (inr (y, _, e, f)) = inr (y, a, e, f)

chosen_cases {ℓ κ μ} :
    {X : Type ℓ} {E : Type κ} {R : Type μ} (text_of : E → Text) (first second : X) (r : Result E R)
    → ((elim r as (λ _. X) [
      | ok a ↦ first
      | err e ↦ elim (contains (text_of e) (codes "order_version_mismatch")) as (λ _. X) [
        | true ↦ second
        | false ↦ first
      ]
    ])
        ≡ first)
      ⊎ ((elim r as (λ _. X) [
        | ok a ↦ first
        | err e ↦ elim (contains (text_of e) (codes "order_version_mismatch")) as (λ _. X) [
          | true ↦ second
          | false ↦ first
        ]
      ])
          ≡ second)
chosen_cases text_of first second r = ground arith

Kept-trans {ℓ κ} :
    {D : Type ℓ} {E : Type κ} (salt : Result E ℤ) (o₁ o₂ o₃ : Order D)
    → Kept salt o₁ o₂
    → Kept salt o₂ o₃
    → Kept salt o₁ o₃
Kept-trans salt o₁ o₂ o₃ h k =
    (k.0 ∙ h.0, k.1 ∙ h.1, k.2 ∙ h.2, k.3 ∙ h.3, k.4 ∙ h.4, maker_trans h.5 k.5, salt_trans h.6 k.6)

module _ {ℓ κ μ} {D : Type ℓ} (d : Decimals D) (p : Printer D) {E : Type κ} {R : Type μ}
    (c : Signing E) (exchange_at : Text → Exchange E R) where
  -- The data that is signed for an exchange.
  abbrev pub typed_data_for : Text → Option ℤ → Signer E → Order D → TypedData
  typed_data_for base token s =
      let contract = contract_of (exchange_at base) (is_v2 base) token in
      if is_v2 base then typed_data_v2 d s contract else typed_data_v1 d s contract

  sign_for_outcome :
      (v2 : Bool) (contract : Text) (was o : Order D)
      → Kept c.salt was o
      → Outcome
          (Kept c.salt was)
          (SignedAs p c
            (λ s. if v2 then typed_data_v2 d s contract else typed_data_v1 d s contract))
          (sign_for d p c exchange_at v2 contract o)
  unfolding sign_for
  sign_for_outcome true contract was o kept = sign_order_v2-outcome d p c contract was o kept
  sign_for_outcome false contract was o kept = sign_order_v1-outcome d p c contract was o kept

  pub sign_order_with_context-outcome :
      (base : Text) (o : Order D)
      → Outcome
          (Kept c.salt o)
          (SignedAs p c (typed_data_for base o.token_id))
          (sign_order_with_context d p c exchange_at base o)
  unfolding sign_order_with_context
  sign_order_with_context-outcome base o =
      let x = exchange_at base in
      sign_for_outcome (is_v2 base) (contract_of x (is_v2 base) o.token_id) o
        (ask_fee d x.base_fee o) (ask_fee-Kept d c.salt x.base_fee o)

  -- There are one or two attempts.
  pub create_order-cases :
      (text_of : PostError E → Text) (base : Text) (opts : Option OrderOptions) (o : Order D)
      → (create_order_with_options d p c exchange_at text_of base opts o
          ≡ create_order_once d p c exchange_at base opts o)
        ⊎ (create_order_with_options d p c exchange_at text_of base opts o
            ≡ create_order_once d p c exchange_at
                (alt_base base)
                opts
                (create_order_once d p c exchange_at base opts o).0)
  unfolding create_order_with_options
  create_order-cases text_of base opts o = chosen_cases text_of _ _ _

  create_order_once-Kept :
      (base : Text) (opts : Option OrderOptions) (o : Order D)
      → Kept c.salt o (create_order_once d p c exchange_at base opts o).0
  unfolding create_order_once
  create_order_once-Kept base opts o = (sign_order_with_context-outcome base o).0

  -- Whatever the exchanges answer, and also over a second attempt at the other exchange, an order keeps
  -- its token, its amounts, its side and its signer; its maker too if it has one; and its salt, or
  -- where that is zero the salt generator's, also if both attempts sign it.
  pub create_order-Kept :
      (text_of : PostError E → Text) (base : Text) (opts : Option OrderOptions) (o : Order D)
      → Kept c.salt o (create_order_with_options d p c exchange_at text_of base opts o).0
  create_order-Kept text_of base opts o =
      let first = create_order_once d p c exchange_at base opts o in
      let second = create_order_once d p c exchange_at (alt_base base) opts first.0 in
      let kept = create_order_once-Kept base opts o in
      elim (create_order-cases text_of base opts o) [
        | inl e ↦ subst (λ r. Kept c.salt o r.0) (sym e) kept
        | inr e ↦
            subst (λ r. Kept c.salt o r.0) (sym e)
              (Kept-trans c.salt o first.0 second.0 kept
                (create_order_once-Kept (alt_base base) opts first.0))
      ]
