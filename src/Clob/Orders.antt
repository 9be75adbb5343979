-- ===== src/Clob/Orders.antt =====
-- The orders of pkg/clob: the data of order_builder.go and clobtypes/types.go. `D` is the type of
-- decimals, `E` that of the errors of the client, the signer and the salt generator. An address and
-- a hash are numbers, a big.Int an integer, and a nil one none. A decimal that a setter makes of a
-- float64 is the argument of the model.
pub mod Setters
pub mod Resolve
pub mod Build
pub mod Market
pub mod Payload
pub mod Typed
pub mod Signing
pub mod Posting
mod Examples
use polymarket_go_sdk.Base.{
  ℕ, Bool, true, false, ◌||◌, Option, none, some, List, [], is_empty, if◌then◌else◌,
}
use polymarket_go_sdk.Base.Int.{ℤ, pos}
use polymarket_go_sdk.Base.Text.{Text, codes, text_eq, to_upper, trim_space}
use polymarket_go_sdk.Base.Result.{Result, ok, err}

pub data BuildError {ℓ} (E : Type ℓ) : Type ℓ where
  token_id_required bad_side price_not_positive size_not_positive bad_token_id : BuildError E
  price_too_precise price_out_of_bounds size_too_precise : BuildError E
  tick_size_too_small tick_size_required bad_fee_rate bad_fee_response wrong_fee_rate : BuildError E
  funder_needs_proxy zero_funder signer_required negative_expiration : BuildError E
  expiration_not_gtd gtd_needs_expiration post_only_not_limit post_only_market : BuildError E
  amount_required amount_not_positive amount_too_precise unsupported_amount : BuildError E
  bad_market_type sell_in_usdc : BuildError E
  client_required no_opposing_orders bad_level insufficient_liquidity : BuildError E
  lookup_failed salt_failed derive_failed : E → BuildError E
  -- A call of a method on a nil interface.
  nil_panic : BuildError E

-- clobtypes.OrderType, and auth.SignatureType
abbrev pub OrderType : Type 0
OrderType = Text

abbrev pub gtc : OrderType
gtc = codes "GTC"

abbrev pub gtd : OrderType
gtd = codes "GTD"

abbrev pub fak : OrderType
fak = codes "FAK"

abbrev pub fok : OrderType
fok = codes "FOK"

abbrev pub buy : Text
buy = codes "BUY"

abbrev pub sell : Text
sell = codes "SELL"

pub data AmountKind : Type 0 where
  usdc shares other_kind : AmountKind

pub record MarketAmount {ℓ} (D : Type ℓ) : Type ℓ where
  pub kind : AmountKind
  pub amount : D

-- The EIP-712 data of an order, of which the domain's name and the domain's own types are fixed: the
-- types of its fields and their values, a *big.Int, an address or a hash.
pub data Entry : Type 0 where
  number : Option ℤ → Entry
  address_entry : ℕ → Entry
  hash_entry : ℕ → Entry

pub record TypedData : Type 0 where
  pub version : Text
  pub chain_id : Option ℤ
  pub verifying_contract : Text
  pub types : List (Text × Text)
  pub message : List (Text × Entry)

-- auth.Signer, with what pkg/auth derives of its address: the wallets of a chain, and those of the
-- default one.
pub record Signer {ℓ} (E : Type ℓ) : Type ℓ where
  pub address : ℕ
  pub chain_id : Option ℤ
  pub proxy_for_chain : ℤ → Result E ℕ
  pub proxy : Result E ℕ
  pub safe_for_chain : ℤ → Result E ℕ
  pub safe : Result E ℕ
  -- SignTypedData, of the primary type Order.
  pub sign_typed_data : TypedData → Result E (List ℕ)

pub record PriceLevel : Type 0 where
  pub price : Text
  pub size : Text

pub record Book : Type 0 where
  pub bids : List PriceLevel
  pub asks : List PriceLevel

-- What the builder asks of a client that has a transport, of the token that it is for.
pub record Lookup {ℓ κ} (D : Type ℓ) (E : Type κ) : Type (ℓ ⊔ κ) where
  pub minimum_tick_size : Result E D
  -- BaseFee and FeeRate
  pub fee_rate : Result E (ℤ × Text)
  pub order_book : Result E Book

pub record OrderBuilder {ℓ κ} (D : Type ℓ) (E : Type κ) : Type (ℓ ⊔ κ) where
  -- None where the client is nil or has no transport.
  pub client : Option (Lookup D E)
  pub signer : Option (Signer E)
  pub token_id : Text
  pub side : Text
  pub price : D
  pub size : D
  pub fee_rate_bps : D
  -- None for the float 0.
  pub tick_size : Option D
  pub order_type : OrderType
  pub maker : Option ℕ
  pub funder : Option ℕ
  pub taker : Option ℕ
  pub nonce : Option ℤ
  pub expiration : Option ℤ
  pub signature_type : Option ℤ
  pub post_only : Option Bool
  -- What the salt generator returns, the one that is set or the default one.
  pub salt : Result E ℤ
  pub amount : Option (MarketAmount D)

pub record Order {ℓ} (D : Type ℓ) : Type ℓ where
  pub salt : Option ℤ
  pub signer : ℕ
  pub maker : ℕ
  pub taker : ℕ
  pub token_id : Option ℤ
  pub maker_amount : D
  pub taker_amount : D
  pub expiration : Option ℤ
  pub side : Text
  pub fee_rate_bps : D
  pub nonce : Option ℤ
  pub signature_type : Option ℤ
  pub timestamp : Option ℤ
  pub metadata : ℕ
  pub builder : ℕ

pub record SignableOrder {ℓ} (D : Type ℓ) : Type ℓ where
  pub order : Order D
  pub order_type : OrderType
  pub post_only : Option Bool

-- A *bool that is set and true.
abbrev pub is_set : Option Bool → Bool
is_set none = false
is_set (some b) = b

unfoldable pub normalize_order_type : OrderType → OrderType → OrderType
normalize_order_type order_type fallback =
    let trimmed = trim_space order_type in if is_empty trimmed then fallback else to_upper trimmed

unfoldable pub normalize_side : Text → Text
normalize_side side = to_upper (trim_space side)

unfoldable pub is_side : Text → Bool
is_side side = text_eq side buy || text_eq side sell
