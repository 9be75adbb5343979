-- ===== src/Clob/Orders/Signing.antt =====
-- impl_orders.go: the signatures of an order, for the two versions of the exchange. The order is
-- behind a pointer, so a step returns it as it leaves it, also where it fails.
pub mod Steps
pub mod Kept
pub mod Signed
pub mod Cleared
use polymarket_go_sdk.Base.{
  ℕ, Bool, true, false, Option, none, some, List, [], ◌∷◌, is_empty, ◌==◌, if◌then◌else◌,
}
use polymarket_go_sdk.Base.Int.{ℤ, pos}
use polymarket_go_sdk.Base.Text.{Text, codes, text_eq, to_upper}
use polymarket_go_sdk.Base.Result.{Result, ok, err}
use polymarket_go_sdk.Decimal.{Decimals}
use polymarket_go_sdk.Clob.Orders.{
  BuildError, sell, Entry, number, address_entry, hash_entry, TypedData, Signer, Order,
}
use polymarket_go_sdk.Clob.Orders.Typed.{type_of, typed_data_v1, typed_data_v2}
use polymarket_go_sdk.Clob.Orders.Resolve.{derive_maker_from_signature, is_zero}
use polymarket_go_sdk.Clob.Orders.Payload.{SignedOrder, Printer}

pub data SignError {ℓ} (E : Type ℓ) : Type ℓ where
  missing_signer missing_creds order_required funder_needs_proxy zero_funder : SignError E
  no_maker : BuildError E → SignError E
  salt_failed signing_failed : E → SignError E

-- What signs: the signer, the key of the API credentials, and the defaults of the client.
pub record Signing {ℓ} (E : Type ℓ) : Type ℓ where
  pub signer : Option (Signer E)
  pub api_key : Option Text
  pub signature_type : Option ℤ
  pub funder : Option ℕ
  -- What the salt generator returns, the one that is set or the default one.
  pub salt : Result E ℤ
  -- time.Now().UnixMilli()
  pub now : ℤ
  -- hexutil.Encode
  pub hex_encode : List ℕ → Text

abbrev pub no_salt : Option ℤ → Bool
no_salt none = true
no_salt (some z) = is_zero z

-- What returns an `A`, or an error, and the order as it leaves it.
abbrev pub Step {ℓ κ μ} : Type ℓ → Type κ → Type μ → Type (ℓ ⊔ κ ⊔ μ)
Step D E A = Order D → Order D × Result (SignError E) A

infixl 5 ◌>>◌
abbrev pub ◌>>◌ {ℓ κ μ} :
    {D : Type ℓ} {E : Type κ} {B : Type μ} → Step D E (Unit {0}) → Step D E B → Step D E B
(m >> k) o = elim ((m o).1) [ ok u ↦ k (m o).0 | err e ↦ ((m o).0, err e) ]

abbrev pub modify {ℓ κ} : {D : Type ℓ} {E : Type κ} → (Order D → Order D) → Step D E (Unit {0})
modify f o = (f o, ok tt)

module _ {ℓ} {D : Type ℓ} where
  -- The signature type: the order's, the client's, or that of an EOA.
  pub settle_type : Option ℤ → Order D → Order D
  settle_type fallback o = elim o.signature_type [
    | some t ↦ o
    | none ↦ record o { signature_type = fallback }
  ]

  pub settle_timestamp : ℤ → Order D → Order D
  settle_timestamp now o = if no_salt o.timestamp then record o { timestamp = some now } else o

  -- What the second version does not sign is cleared.
  pub clear_unsigned : Order D → Order D
  clear_unsigned o = record o { taker = 0; expiration = some (pos 0); nonce = some (pos 0) }

new_maker {κ} : {E : Type κ} → Signer E → Option ℕ → ℤ → Result (SignError E) ℕ
new_maker s none sig_type = elim (derive_maker_from_signature (some s) sig_type) [
  | ok maker ↦ ok maker
  | err e ↦ err (no_maker e)
]
new_maker s (some funder) sig_type =
    if is_zero sig_type
    then err funder_needs_proxy
    else if funder == 0
    then err zero_funder
    else ok funder

module _ {ℓ κ} {D : Type ℓ} {E : Type κ} where
  pub settle_maker : Signer E → Option ℕ → Step D E (Unit {0})
  unfolding new_maker
  settle_maker s funder o =
      if o.maker == 0
      then elim (new_maker s funder (type_of o)) [
        | ok maker ↦ (record o { maker = maker }, ok tt)
        | err e ↦ (o, err e)
      ]
      else (o, ok tt)

  pub settle_salt : Result E ℤ → Step D E (Unit {0})
  settle_salt salt o =
      if no_salt o.salt
      then elim salt [
        | ok z ↦ (record o { salt = some z }, ok tt)
        | err e ↦ (o, err (salt_failed e))
      ]
      else (o, ok tt)

module _ {ℓ κ} {D : Type ℓ} (p : Printer D) {E : Type κ} where
  signed_with : Signing E → Signer E → Text → Result E (List ℕ) → Step D E (SignedOrder D)
  signed_with c s key (err e) o = (o, err (signing_failed e))
  signed_with c s key (ok bytes) o = (
    o,
    ok (record {
      order = o;
      signature = c.hex_encode bytes;
      owner = if is_empty key then p.address_hex s.address else key;
      order_type = [];
      post_only = none;
      defer_exec = none;
    }),
  )

  -- The signature of the order as it stands, and the order with it.
  pub sign : Signing E → Signer E → Text → (Order D → TypedData) → Step D E (SignedOrder D)
  unfolding signed_with
  sign c s key typed_data o = signed_with c s key (s.sign_typed_data (typed_data o)) o

-- The guards of both: a signer, a key.
pub guarded {ℓ κ} :
    {D : Type ℓ} {E : Type κ}
    → (Signer E → Text → Step D E (SignedOrder D))
    → Option (Signer E)
    → Option Text
    → Step D E (SignedOrder D)
guarded steps none key = λ o. (o, err missing_signer)
guarded steps (some s) none = λ o. (o, err missing_creds)
guarded steps (some s) (some key) = steps s key

module _ {ℓ κ} {D : Type ℓ} (d : Decimals D) (p : Printer D) {E : Type κ} where
  -- signOrderV2WithCreds, of an order, a signer and a key that are not nil.
  steps_v2 : Signing E → Signer E → Text → Text → Step D E (SignedOrder D)
  unfolding sign settle_type settle_maker settle_salt settle_timestamp clear_unsigned
  steps_v2 c s key contract = do
    modify (settle_type c.signature_type)
    settle_maker s c.funder
    modify clear_unsigned
    settle_salt c.salt
    modify (settle_timestamp c.now)
    sign p c s key (typed_data_v2 d s contract)

  -- signOrderV1WithCreds, likewise.
  steps_v1 : Signing E → Signer E → Text → Text → Step D E (SignedOrder D)
  unfolding sign settle_type settle_maker settle_salt
  steps_v1 c s key contract = do
    modify (settle_type c.signature_type)
    settle_maker s c.funder
    settle_salt c.salt
    sign p c s key (typed_data_v1 d s contract)

  unfoldable pub sign_order_v2 : Signing E → Text → Step D E (SignedOrder D)
  unfolding steps_v2 guarded
  sign_order_v2 c contract = guarded (λ s key. steps_v2 c s key contract) c.signer c.api_key

  unfoldable pub sign_order_v1 : Signing E → Text → Step D E (SignedOrder D)
  unfolding steps_v1 guarded
  sign_order_v1 c contract = guarded (λ s key. steps_v1 c s key contract) c.signer c.api_key
