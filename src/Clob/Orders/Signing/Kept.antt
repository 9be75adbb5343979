-- ===== src/Clob/Orders/Signing/Kept.antt =====
-- What each step keeps of the order.
use polymarket_go_sdk.Base.{
  ℕ, ◌≡◌, ◌⊎◌, inl, inr, ◌==◌, if◌then◌else◌, refl, Bool, true, false, Option, none, some, arith,
}
use polymarket_go_sdk.Base.Int.{ℤ}
use polymarket_go_sdk.Base.Result.{Result, ok, err}
use polymarket_go_sdk.Clob.Orders.{Order, Signer}
use polymarket_go_sdk.Clob.Orders.Typed.{type_of}
use polymarket_go_sdk.Clob.Orders.Signing.{
  SignError, salt_failed, settle_type, settle_maker, new_maker, settle_salt, settle_timestamp,
  clear_unsigned, no_salt,
}
use polymarket_go_sdk.Clob.Orders.Signing.Steps.{Keeps}

-- What the steps leave alone: all but the signature type, a zero maker, a zero salt, which becomes the
-- new one, the fee, the timestamp, and what the second version clears.
abbrev pub Kept {ℓ κ} : {D : Type ℓ} {E : Type κ} → Result E ℤ → Order D → Order D → Type (ℓ ⊔ κ)
Kept {E} salt was o =
    (o.signer ≡ was.signer)
    × (o.token_id ≡ was.token_id)
    × (o.maker_amount ≡ was.maker_amount)
    × (o.taker_amount ≡ was.taker_amount)
    × (o.side ≡ was.side)
    × ((was.maker ≡ 0) ⊎ (o.maker ≡ was.maker))
    × ((o.salt ≡ was.salt)
        ⊎ ((z : ℤ) × (no_salt was.salt ≡ true) × (salt ≡ ok z) × (o.salt ≡ some z)))

pub Kept-refl {ℓ κ} : {D : Type ℓ} {E : Type κ} (salt : Result E ℤ) (o : Order D) → Kept salt o o
Kept-refl salt o = (refl, refl, refl, refl, refl, inr refl, inl refl)

zero_of : {m n : ℕ} → (m ≡ 0) ⊎ (n ≡ m) → (n == 0) ≡ true → m ≡ 0
zero_of h e = ground arith

was_none {κ} :
    {E : Type κ} {salt : Result E ℤ} {was now : Option ℤ}
    → (now ≡ was) ⊎ ((z : ℤ) × (no_salt was ≡ true) × (salt ≡ ok z) × (now ≡ some z))
    → no_salt now ≡ true
    → no_salt was ≡ true
was_none (inl e) h = cc
was_none (inr p) h = p.1

module _ {ℓ κ} {D : Type ℓ} {E : Type κ} (salt : Result E ℤ) (was : Order D) where
  pub settle_type-Kept :
      (t : Option ℤ) (o : Order D) → Kept salt was o → Kept salt was (settle_type t o)
  unfolding settle_type
  settle_type-Kept t o h =
      elim (o.signature_type)
        as (λ x. Kept salt was (elim x [ some y ↦ o | none ↦ record o { signature_type = t } ])) [
          | some y ↦ h
          | none ↦ h
        ]

  pub settle_timestamp-Kept :
      (t : ℤ) (o : Order D) → Kept salt was o → Kept salt was (settle_timestamp t o)
  unfolding settle_timestamp
  settle_timestamp-Kept t o h =
      elim (no_salt o.timestamp)
        as (λ b. Kept salt was (if b then record o { timestamp = some t } else o)) [
          | true ↦ h
          | false ↦ h
        ]

  pub clear_unsigned-Kept : (o : Order D) → Kept salt was o → Kept salt was (clear_unsigned o)
  unfolding clear_unsigned
  clear_unsigned-Kept o h = h

  maker_outcome :
      (o : Order D)
      → Kept salt was o
      → (b : Bool) → (o.maker == 0) ≡ b
      → (r : Result (SignError E) ℕ)
      → Kept salt was
          (if b
            then elim r as (λ x. Order D × Result (SignError E) (Unit {0})) [
              | ok m ↦ (record o { maker = m }, ok tt)
              | err e ↦ (o, err e)
            ]
            else (o, ok tt)).0
  maker_outcome o h true e (ok m) = (h.0, h.1, h.2, h.3, h.4, inl (zero_of h.5 e), h.6)
  maker_outcome o h true e (err x) = h
  maker_outcome o h false e r = h

  pub settle_maker-Kept :
      (s : Signer E) (t : Option ℕ) → Keeps (Kept salt was) (settle_maker {D = D} s t)
  unfolding settle_maker
  settle_maker-Kept s t o h = maker_outcome o h _ refl (new_maker s t (type_of o))

  salt_outcome :
      (o : Order D)
      → Kept salt was o
      → (b : Bool) → no_salt o.salt ≡ b
      → (r : Result E ℤ) → salt ≡ r
      → Kept salt was
          (if b
            then elim r as (λ x. Order D × Result (SignError E) (Unit {0})) [
              | ok z ↦ (record o { salt = some z }, ok tt)
              | err x ↦ (o, err (salt_failed x))
            ]
            else (o, ok tt)).0
  salt_outcome o h true e (ok z) f =
      (h.0, h.1, h.2, h.3, h.4, h.5, inr (z, was_none h.6 e, f, refl))
  salt_outcome o h true e (err x) f = h
  salt_outcome o h false e r f = h

  pub settle_salt-Kept : Keeps (Kept salt was) (settle_salt {D = D} salt)
  unfolding settle_salt
  settle_salt-Kept o h = salt_outcome o h _ refl salt refl
