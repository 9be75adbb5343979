-- ===== src/Clob/Orders/Signing/Cleared.antt =====
-- What the second version of the exchange does not sign is cleared in what is posted.
use polymarket_go_sdk.Base.{◌≡◌, sym, subst, refl, Option, none, some, arith}
use polymarket_go_sdk.Base.Int.{ℤ, pos}
use polymarket_go_sdk.Base.Text.{Text}
use polymarket_go_sdk.Base.Result.{Result, ok}
use polymarket_go_sdk.Decimal.{Decimals}
use polymarket_go_sdk.Clob.Orders.{Order, Signer, TypedData}
use polymarket_go_sdk.Clob.Orders.Payload.{SignedOrder, Printer}
use polymarket_go_sdk.Clob.Orders.Typed.{typed_data_v2}
use polymarket_go_sdk.Clob.Orders.Signing.{
  Signing, Step, settle_type, settle_maker, settle_salt, settle_timestamp, clear_unsigned, sign,
  guarded, steps_v2, sign_order_v2, ◌>>◌, modify,
}
use polymarket_go_sdk.Clob.Orders.Signing.Steps.{Keeps, Triple, then-Triple}
use polymarket_go_sdk.Clob.Orders.Signing.Signed.{sign-SignedBy}

abbrev pub Cleared {ℓ} : {D : Type ℓ} → Order D → Type 0
Cleared o = (o.taker ≡ 0) × (o.expiration ≡ some (pos 0)) × (o.nonce ≡ some (pos 0))

module _ {ℓ κ} {D : Type ℓ} {E : Type κ} where
  settle_salt-Cleared : (salt : Result E ℤ) → Keeps (Cleared {D = D}) (settle_salt salt)
  unfolding settle_salt
  settle_salt-Cleared salt o h = ground arith

settle_timestamp-Cleared {ℓ} :
    {D : Type ℓ} (now : ℤ) (o : Order D) → Cleared o → Cleared (settle_timestamp now o)
unfolding settle_timestamp
settle_timestamp-Cleared now o h = ground arith

module _ {ℓ κ} {D : Type ℓ} (d : Decimals D) (p : Printer D) {E : Type κ} (c : Signing E) where
  sign-Cleared :
      (s : Signer E) (key : Text) (t : Order D → TypedData)
      → Triple Cleared (λ a o. Cleared a.order) (sign p c s key t)
  sign-Cleared s key t o h =
      let signed = sign-SignedBy p c s key t Cleared o h in
      (signed.0, λ a q. subst Cleared (sym (signed.1 a q).0) signed.0)

  steps_v2-Cleared :
      (s : Signer E) (key contract : Text)
      → Triple (λ o. Unit {0}) (λ a o. Cleared a.order) (steps_v2 d p c s key contract)
  unfolding steps_v2 clear_unsigned
  steps_v2-Cleared s key contract =
      let Q = λ (a : SignedOrder D) (o : Order D). Cleared a.order in
      let last : Step D E (SignedOrder D) = sign p c s key (typed_data_v2 d s contract) in
      let timed = modify (settle_timestamp c.now) >> last in
      let salted = settle_salt {D = D} c.salt >> timed in
      let cleared : Step D E (SignedOrder D) = modify clear_unsigned >> salted in
      let made = settle_maker s c.funder >> cleared in
      let after = then-Triple Cleared Q (settle_salt c.salt) timed (settle_salt-Cleared c.salt) (
        then-Triple Cleared Q (modify (settle_timestamp c.now)) last
          (settle_timestamp-Cleared c.now) (sign-Cleared s key (typed_data_v2 d s contract))) in
      then-Triple (λ o. Unit) Q (modify (settle_type c.signature_type)) made (λ o u. tt)
        (then-Triple (λ o. Unit) Q (settle_maker s c.funder) cleared (λ o u. tt)
          (λ o u. (tt, (after (clear_unsigned o) (refl, refl, refl)).1)))

  guarded-Cleared :
      (contract : Text) (o : Order D) (a : SignedOrder D)
      → (s : Option (Signer E)) (key : Option Text)
      → (guarded (λ s key. steps_v2 d p c s key contract) s key o).1 ≡ ok a
      → Cleared a.order
  unfolding guarded
  guarded-Cleared contract o a none key h = cc
  guarded-Cleared contract o a (some s) none h = cc
  guarded-Cleared contract o a (some s) (some key) h = (steps_v2-Cleared s key contract o tt).1 a h

  -- An order that the second version signs is posted with no taker, and with a zero expiration and nonce.
  pub sign_order_v2-Cleared :
      (contract : Text) (o : Order D) (a : SignedOrder D)
      → (sign_order_v2 d p c contract o).1 ≡ ok a
      → Cleared a.order
  unfolding sign_order_v2
  sign_order_v2-Cleared contract o a h = guarded-Cleared contract o a c.signer c.api_key h
