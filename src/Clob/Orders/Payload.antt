-- ===== src/Clob/Orders/Payload.antt =====
-- order_payload.go: the payload of a signed order. The texts of numbers are a parameter.
pub mod Composed
use polymarket_go_sdk.Base.{
  ℕ, ◌^◌, Bool, true, false, ◌&&◌, not, Option, none, some, List, [], ◌∷◌, is_empty, leb, ◌==◌,
  if◌then◌else◌,
}
use polymarket_go_sdk.Base.Int.{ℤ, pos, negsuc, ltb_ℤ}
use polymarket_go_sdk.Base.Text.{Text, codes, text_eq, to_upper}
use polymarket_go_sdk.Base.Result.{Result, ok, err, ◌>>=◌}
use polymarket_go_sdk.Clob.Orders.{
  OrderType, gtc, gtd, Order, is_set, normalize_order_type, is_side,
}

-- clobtypes.SignedOrder
pub record SignedOrder {ℓ} (D : Type ℓ) : Type ℓ where
  pub order : Order D
  pub signature : Text
  pub owner : Text
  pub order_type : OrderType
  pub post_only : Option Bool
  pub defer_exec : Option Bool

pub data PayloadError : Type 0 where
  orders_required order_required post_only_not_limit signature_required owner_required :
      PayloadError
  bad_side negative_salt salt_too_large : PayloadError

-- The String and Hex methods, of an integer, a decimal, an address and a hash.
pub record Printer {ℓ} (D : Type ℓ) : Type ℓ where
  pub int_text : ℤ → Text
  pub decimal_text : D → Text
  pub address_hex : ℕ → Text
  pub hash_hex : ℕ → Text

pub data Value : Type 0 where
  text : Text → Value
  number : ℤ → Value
  flag : Bool → Value

-- A map[string]interface{}, and the payload around it.
pub record Payload : Type 0 where
  pub order : List (Text × Value)
  pub owner : Text
  pub order_type : OrderType
  pub options : List (Text × Value)

-- An optional entry.
abbrev entry_if : Bool → Text → Value → List (Text × Value) → List (Text × Value)
entry_if true k v rest = (k, v) ∷ rest
entry_if false k v rest = rest

unfoldable pub salt_to_json : Option ℤ → Result PayloadError ℕ
salt_to_json none = ok 0
salt_to_json (some (negsuc n)) = err negative_salt
salt_to_json (some (pos n)) = if leb (2 ^ 53) n then err salt_too_large else ok n

abbrev pub is_positive : Option ℤ → Bool
is_positive none = false
is_positive (some z) = ltb_ℤ (pos 0) z

module _ {ℓ} {D : Type ℓ} (p : Printer D) where
  abbrev u256_string : Option ℤ → Text
  u256_string none = codes "0"
  u256_string (some z) = p.int_text z

  order_entries : Order D → Text → ℕ → Text → List (Text × Value)
  order_entries o side salt signature =
      (codes "salt", number (pos salt))
      ∷ (codes "maker", text (p.address_hex o.maker))
      ∷ (codes "signer", text (p.address_hex o.signer))
      ∷ (codes "taker", text (p.address_hex o.taker))
      ∷ (codes "tokenId", text (u256_string o.token_id))
      ∷ (codes "makerAmount", text (p.decimal_text o.maker_amount))
      ∷ (codes "takerAmount", text (p.decimal_text o.taker_amount))
      ∷ (codes "side", text side)
      ∷ (codes "expiration", text (u256_string o.expiration))
      ∷ (codes "nonce", text (u256_string o.nonce))
      ∷ (codes "feeRateBps", text (p.decimal_text o.fee_rate_bps))
      ∷ (codes "signatureType", number (elim o.signature_type [ none ↦ pos 0 | some t ↦ t ]))
      ∷ (codes "signature", text signature)
      ∷ entry_if (is_positive o.timestamp) (codes "timestamp") (text (u256_string o.timestamp)) (
          entry_if (not (o.metadata == 0)) (codes "metadata") (text (p.hash_hex o.metadata))
            (entry_if (not (o.builder == 0)) (codes "builder") (text (p.hash_hex o.builder)) []))

  unfoldable pub order_with_signature : SignedOrder D → Result PayloadError (List (Text × Value))
  unfolding order_entries
  order_with_signature s =
      if is_empty s.signature
      then err signature_required
      else if is_empty s.owner
      then err owner_required
      else if not (is_side (to_upper s.order.side))
      then err bad_side
      else salt_to_json s.order.salt >>= λ salt.
          ok (order_entries s.order (to_upper s.order.side) salt s.signature)

  option_entry : Text → Option Bool → List (Text × Value) → List (Text × Value)
  option_entry k none rest = rest
  option_entry k (some b) rest = (k, flag b) ∷ rest

  unfoldable pub build_order_payload : SignedOrder D → Result PayloadError Payload
  unfolding option_entry
  build_order_payload s =
      let order_type = normalize_order_type s.order_type gtc in
      if is_set s.post_only && not (text_eq order_type gtc) && not (text_eq order_type gtd)
      then err post_only_not_limit
      else order_with_signature s >>= λ entries. ok (record {
        order = entries;
        owner = s.owner;
        order_type = order_type;
        options =
            option_entry (codes "postOnly") s.post_only
              (option_entry (codes "deferExec") s.defer_exec []);
      })

  payloads_of : List (SignedOrder D) → Result PayloadError (List Payload)
  unfolding build_order_payload
  payloads_of [] = ok []
  payloads_of (s ∷ ss) =
      let rest = payloads_of ss in build_order_payload s >>= λ x. rest >>= λ xs. ok (x ∷ xs)

  unfoldable pub build_orders_payload :
      Option (List (SignedOrder D)) → Result PayloadError (List Payload)
  unfolding payloads_of
  build_orders_payload none = err orders_required
  build_orders_payload (some orders) = payloads_of orders
