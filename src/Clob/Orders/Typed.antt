-- ===== src/Clob/Orders/Typed.antt =====
-- impl_orders.go: the EIP-712 data of an order, for the two versions of the exchange.
use polymarket_go_sdk.Base.{none, some, List, [], ◌∷◌, if◌then◌else◌}
use polymarket_go_sdk.Base.Int.{ℤ, pos}
use polymarket_go_sdk.Base.Text.{Text, codes, text_eq, to_upper}
use polymarket_go_sdk.Decimal.{Decimals}
use polymarket_go_sdk.Clob.Orders.{
  sell, Entry, number, address_entry, hash_entry, TypedData, Signer, Order,
}

module _ {ℓ} {D : Type ℓ} where
  abbrev pub type_of : Order D → ℤ
  type_of o = elim o.signature_type [ none ↦ pos 0 | some t ↦ t ]

abbrev side_number : Text → ℤ
side_number side = if text_eq (to_upper side) sell then pos 1 else pos 0

abbrev types_v2 : List (Text × Text)
types_v2 =
    (codes "salt", codes "uint256")
    ∷ (codes "maker", codes "address")
    ∷ (codes "signer", codes "address")
    ∷ (codes "tokenId", codes "uint256")
    ∷ (codes "makerAmount", codes "uint256")
    ∷ (codes "takerAmount", codes "uint256")
    ∷ (codes "side", codes "uint8")
    ∷ (codes "signatureType", codes "uint8")
    ∷ (codes "timestamp", codes "uint256")
    ∷ (codes "metadata", codes "bytes32")
    ∷ (codes "builder", codes "bytes32")
    ∷ []

abbrev types_v1 : List (Text × Text)
types_v1 =
    (codes "salt", codes "uint256")
    ∷ (codes "maker", codes "address")
    ∷ (codes "signer", codes "address")
    ∷ (codes "taker", codes "address")
    ∷ (codes "tokenId", codes "uint256")
    ∷ (codes "makerAmount", codes "uint256")
    ∷ (codes "takerAmount", codes "uint256")
    ∷ (codes "expiration", codes "uint256")
    ∷ (codes "nonce", codes "uint256")
    ∷ (codes "feeRateBps", codes "uint256")
    ∷ (codes "side", codes "uint8")
    ∷ (codes "signatureType", codes "uint8")
    ∷ []

module _ {ℓ κ} {D : Type ℓ} (d : Decimals D) {E : Type κ} where
  unfoldable message_v2 : Signer E → Order D → List (Text × Entry)
  message_v2 s o =
      (codes "salt", number o.salt)
      ∷ (codes "maker", address_entry o.maker)
      ∷ (codes "signer", address_entry s.address)
      ∷ (codes "tokenId", number o.token_id)
      ∷ (codes "makerAmount", number (some (d.big_int o.maker_amount)))
      ∷ (codes "takerAmount", number (some (d.big_int o.taker_amount)))
      ∷ (codes "side", number (some (side_number o.side)))
      ∷ (codes "signatureType", number (some (type_of o)))
      ∷ (codes "timestamp", number o.timestamp)
      ∷ (codes "metadata", hash_entry o.metadata)
      ∷ (codes "builder", hash_entry o.builder)
      ∷ []

  unfoldable message_v1 : Signer E → Order D → List (Text × Entry)
  message_v1 s o =
      (codes "salt", number o.salt)
      ∷ (codes "maker", address_entry o.maker)
      ∷ (codes "signer", address_entry s.address)
      ∷ (codes "taker", address_entry o.taker)
      ∷ (codes "tokenId", number o.token_id)
      ∷ (codes "makerAmount", number (some (d.big_int o.maker_amount)))
      ∷ (codes "takerAmount", number (some (d.big_int o.taker_amount)))
      ∷ (codes "expiration", number o.expiration)
      ∷ (codes "nonce", number o.nonce)
      ∷ (codes "feeRateBps", number (some (d.big_int o.fee_rate_bps)))
      ∷ (codes "side", number (some (side_number o.side)))
      ∷ (codes "signatureType", number (some (type_of o)))
      ∷ []

  unfoldable pub typed_data_v2 : Signer E → Text → Order D → TypedData
  unfolding message_v2
  typed_data_v2 s contract o = record {
    version = codes "2";
    chain_id = s.chain_id;
    verifying_contract = contract;
    types = types_v2;
    message = message_v2 s o;
  }

  unfoldable pub typed_data_v1 : Signer E → Text → Order D → TypedData
  unfolding message_v1
  typed_data_v1 s contract o = record {
    version = codes "1";
    chain_id = s.chain_id;
    verifying_contract = contract;
    types = types_v1;
    message = message_v1 s o;
  }
