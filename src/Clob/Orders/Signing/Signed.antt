-- ===== src/Clob/Orders/Signing/Signed.antt =====
-- What the signing of an order keeps of it, and what the signed order is.
use polymarket_go_sdk.Base.{
  ℕ, ◌≡◌, sym, ap, subst, if◌then◌else◌, refl, Option, none, some, List, is_empty,
}
use polymarket_go_sdk.Base.Text.{Text}
use polymarket_go_sdk.Base.Result.{Result, ok, err}
use polymarket_go_sdk.Decimal.{Decimals}
use polymarket_go_sdk.Clob.Orders.{Order, Signer, TypedData}
use polymarket_go_sdk.Clob.Orders.Build.Accepts.{ok_injective}
use polymarket_go_sdk.Clob.Orders.Payload.{SignedOrder, Printer}
use polymarket_go_sdk.Clob.Orders.Typed.{typed_data_v1, typed_data_v2}
use polymarket_go_sdk.Clob.Orders.Signing.{
  Signing, Step, settle_type, settle_maker, settle_salt, settle_timestamp, signed_with,
  clear_unsigned, sign, guarded, steps_v1, steps_v2, sign_order_v1, sign_order_v2, ◌>>◌, modify,
}
use polymarket_go_sdk.Clob.Orders.Signing.Steps.{Outcome, Triple, then-Triple}
use polymarket_go_sdk.Clob.Orders.Signing.Kept.{
  Kept, settle_type-Kept, settle_timestamp-Kept, clear_unsigned-Kept, settle_maker-Kept,
  settle_salt-Kept,
}

-- A signed order that has the signature of its own data, and an owner.
abbrev SignedBy {ℓ κ} :
    {D : Type ℓ} {E : Type κ}
    → Printer D
    → Signing E
    → Signer E
    → Text
    → (Order D → TypedData)
    → SignedOrder D
    → Order D
    → Type (ℓ ⊔ κ)
SignedBy p c s key typed_data a o =
    (a.order ≡ o)
    × ((bytes : List ℕ) × (s.sign_typed_data (typed_data o) ≡ ok bytes)
        × (a.signature ≡ c.hex_encode bytes))
    × (a.owner ≡ (if is_empty key then p.address_hex s.address else key))

module _ {ℓ κ} {D : Type ℓ} (p : Printer D) {E : Type κ} (c : Signing E) (s : Signer E) (key : Text)
    (typed_data : Order D → TypedData) where
  signed_with-SignedBy :
      (o : Order D) (r : Result E (List ℕ)) (a : SignedOrder D)
      → s.sign_typed_data (typed_data o) ≡ r
      → (signed_with p c s key r o).1 ≡ ok a
      → SignedBy p c s key typed_data a (signed_with p c s key r o).0
  unfolding signed_with
  signed_with-SignedBy o (ok bytes) a e q =
      let same = sym (ok_injective q) in
      (ap (λ x. x.order) same, (bytes, e, ap (λ x. x.signature) same), ap (λ x. x.owner) same)
  signed_with-SignedBy o (err x) a e q = cc

  signed_with-order : (o : Order D) (r : Result E (List ℕ)) → (signed_with p c s key r o).0 ≡ o
  unfolding signed_with
  signed_with-order o (ok bytes) = refl
  signed_with-order o (err x) = refl

  pub sign-SignedBy {ν} :
      (P : Order D → Type ν) → Triple P (SignedBy p c s key typed_data) (sign p c s key typed_data)
  unfolding sign
  sign-SignedBy P o h =
      (subst P (sym (signed_with-order o _)) h, λ a q. signed_with-SignedBy o _ a refl q)

module _ {ℓ κ} {D : Type ℓ} (d : Decimals D) (p : Printer D) {E : Type κ} (c : Signing E)
    (s : Signer E) (key contract : Text) (was : Order D) where
  steps_v1-Triple :
      Triple
        (Kept c.salt was)
        (SignedBy p c s key (typed_data_v1 d s contract))
        (steps_v1 d p c s key contract)
  unfolding steps_v1
  steps_v1-Triple =
      let typed_data = typed_data_v1 d s contract in
      let Q = SignedBy p c s key typed_data in
      let last : Step D E (SignedOrder D) = sign p c s key typed_data in
      let salted = settle_salt {D = D} c.salt >> last in
      let made = settle_maker s c.funder >> salted in
      then-Triple (Kept c.salt was) Q (modify (settle_type c.signature_type)) made
        (settle_type-Kept c.salt was c.signature_type)
        (then-Triple (Kept c.salt was) Q (settle_maker s c.funder) salted
          (settle_maker-Kept c.salt was s c.funder)
          (then-Triple (Kept c.salt was) Q (settle_salt c.salt) last (settle_salt-Kept c.salt was)
            (sign-SignedBy p c s key typed_data (Kept c.salt was))))

  steps_v2-Triple :
      Triple
        (Kept c.salt was)
        (SignedBy p c s key (typed_data_v2 d s contract))
        (steps_v2 d p c s key contract)
  unfolding steps_v2
  steps_v2-Triple =
      let typed_data = typed_data_v2 d s contract in
      let Q = SignedBy p c s key typed_data in
      let last : Step D E (SignedOrder D) = sign p c s key typed_data in
      let timed = modify (settle_timestamp c.now) >> last in
      let salted = settle_salt {D = D} c.salt >> timed in
      let cleared = modify clear_unsigned >> salted in
      let made = settle_maker s c.funder >> cleared in
      then-Triple (Kept c.salt was) Q (modify (settle_type c.signature_type)) made
        (settle_type-Kept c.salt was c.signature_type)
        (then-Triple (Kept c.salt was) Q (settle_maker s c.funder) cleared
          (settle_maker-Kept c.salt was s c.funder)
          (then-Triple (Kept c.salt was) Q (modify clear_unsigned) salted
            (clear_unsigned-Kept c.salt was)
            (then-Triple (Kept c.salt was) Q (settle_salt c.salt) timed
              (settle_salt-Kept c.salt was)
              (then-Triple (Kept c.salt was) Q (modify (settle_timestamp c.now)) last
                (settle_timestamp-Kept c.salt was c.now)
                (sign-SignedBy p c s key typed_data (Kept c.salt was))))))

-- Signed by the signer of the client, in the name of its key.
abbrev pub SignedAs {ℓ κ} :
    {D : Type ℓ} {E : Type κ}
    → Printer D
    → Signing E
    → (Signer E → Order D → TypedData)
    → SignedOrder D
    → Order D
    → Type (ℓ ⊔ κ)
SignedAs {E} p c typed_data a o =
    (s : Signer E) × (key : Text) × (c.signer ≡ some s)
    × (c.api_key ≡ some key)
    × SignedBy p c s key (typed_data s) a o

module _ {ℓ κ} {D : Type ℓ} (d : Decimals D) (p : Printer D) {E : Type κ} (c : Signing E) where
  guarded_outcome :
      (typed_data : Signer E → Order D → TypedData)
      (steps : Signer E → Text → Step D E (SignedOrder D)) (was o : Order D)
      → Kept c.salt was o
      → ((s : Signer E) (key : Text)
          → Triple (Kept c.salt was) (SignedBy p c s key (typed_data s)) (steps s key))
      → (s : Option (Signer E)) (key : Option Text) → c.signer ≡ s
      → c.api_key ≡ key
      → Outcome (Kept c.salt was) (SignedAs p c typed_data) (guarded steps s key o)
  unfolding guarded
  guarded_outcome t steps was o kept h none key e f = (kept, λ a q. cc)
  guarded_outcome t steps was o kept h (some s) none e f = (kept, λ a q. cc)
  guarded_outcome t steps was o kept h (some s) (some key) e f =
      let outcome = h s key o kept in (outcome.0, λ a q. (s, key, e, f, outcome.1 a q))

  pub sign_order_v1-outcome :
      (contract : Text) (was o : Order D)
      → Kept c.salt was o
      → Outcome
          (Kept c.salt was)
          (SignedAs p c (λ s. typed_data_v1 d s contract))
          (sign_order_v1 d p c contract o)
  unfolding sign_order_v1
  sign_order_v1-outcome contract was o kept =
      guarded_outcome (λ s. typed_data_v1 d s contract) _ was o kept
        (λ s key. steps_v1-Triple d p c s key contract was) c.signer c.api_key refl refl

  pub sign_order_v2-outcome :
      (contract : Text) (was o : Order D)
      → Kept c.salt was o
      → Outcome
          (Kept c.salt was)
          (SignedAs p c (λ s. typed_data_v2 d s contract))
          (sign_order_v2 d p c contract o)
  unfolding sign_order_v2
  sign_order_v2-outcome contract was o kept =
      guarded_outcome (λ s. typed_data_v2 d s contract) _ was o kept
        (λ s key. steps_v2-Triple d p c s key contract was) c.signer c.api_key refl refl
