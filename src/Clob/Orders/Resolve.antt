-- ===== src/Clob/Orders/Resolve.antt =====
-- order_builder_resolve.go: the tick size, the fee and the price that a builder asks for, the maker's
-- address and the salt.
pub mod Cutoff
use polymarket_go_sdk.Base.{
  ℕ, zero, suc, ◌%◌, ◌^◌, Bool, true, false, ◌&&◌, ◌||◌, not, Option, none, some, List, [], ◌∷◌,
  is_empty, if◌then◌else◌,
}
use mathlib.Core.List.{reverse}
use polymarket_go_sdk.Base.Int.{ℤ, pos, negsuc, ltb_ℤ}
use polymarket_go_sdk.Base.Text.{Text, text_eq}
use polymarket_go_sdk.Base.Result.{Result, ok, err, ◌>>=◌}
use polymarket_go_sdk.Decimal.{Decimals}
use polymarket_go_sdk.Clob.Orders.{
  BuildError, tick_size_too_small, tick_size_required, bad_fee_rate, bad_fee_response,
  wrong_fee_rate, client_required, no_opposing_orders, bad_level, insufficient_liquidity,
  lookup_failed, signer_required, derive_failed, OrderType, fok, buy, AmountKind, usdc, shares,
  other_kind, MarketAmount, Signer, PriceLevel, Book, Lookup,
}

abbrev is_pos : ℤ → Bool
is_pos z = ltb_ℤ (pos 0) z

abbrev pub is_zero : ℤ → Bool
is_zero z = not (ltb_ℤ (pos 0) z) && not (ltb_ℤ z (pos 0))

-- What a level adds to the sum: its value in USDC, or its shares.
unfoldable pub level_amount {ℓ} : {D : Type ℓ} → Decimals D → AmountKind → D × D → D
level_amount d usdc (price, size) = d.mul size price
level_amount d shares (price, size) = size
level_amount d other_kind (price, size) = size

module _ {ℓ κ} {D : Type ℓ} (d : Decimals D) {E : Type κ} where
  minimum_tick : Option D → Result E D → Result (BuildError E) D
  minimum_tick none (err e) = err (lookup_failed e)
  minimum_tick (some override) (err e) = ok override
  minimum_tick none (ok min_tick) = ok min_tick
  minimum_tick (some override) (ok min_tick) =
      if d.less_than override min_tick then err tick_size_too_small else ok override

  -- Of the builder's tick size and client.
  unfoldable pub resolve_tick_size : Option D → Option (Lookup D E) → Result (BuildError E) D
  unfolding minimum_tick
  resolve_tick_size override (some client) = minimum_tick override client.minimum_tick_size
  resolve_tick_size (some override) none = ok override
  resolve_tick_size none none = err tick_size_required

  unfoldable pub parse_fee_rate_bps : D → Result (BuildError E) ℤ
  parse_fee_rate_bps x =
      let int_part = d.truncate x 0 in
      if not (d.is_positive x)
      then ok (pos 0)
      else if not (d.equal int_part x)
      then err bad_fee_rate
      else ok (d.int_part int_part)

  -- BaseFee, or FeeRate where BaseFee is zero.
  market_fee : ℤ × Text → Result (BuildError E) ℤ
  market_fee (base_fee, fee_rate) =
      if is_zero base_fee && not (is_empty fee_rate)
      then elim (d.parse fee_rate) [
        | none ↦ err bad_fee_response
        | some parsed ↦ ok (d.int_part parsed)
      ]
      else ok base_fee

  agreed_fee : ℤ → ℤ → Result (BuildError E) ℤ
  agreed_fee user_fee fee =
      if is_pos fee && is_pos user_fee && (ltb_ℤ user_fee fee || ltb_ℤ fee user_fee)
      then err wrong_fee_rate
      else if is_pos fee
      then ok fee
      else ok user_fee

  response_fee : ℤ → Result E (ℤ × Text) → Result (BuildError E) ℤ
  unfolding market_fee agreed_fee
  response_fee user_fee (err e) = if is_pos user_fee then ok user_fee else err (lookup_failed e)
  response_fee user_fee (ok r) = market_fee r >>= agreed_fee user_fee

  client_fee : Option (Lookup D E) → ℤ → Result (BuildError E) ℤ
  unfolding response_fee
  client_fee none user_fee = ok user_fee
  client_fee (some client) user_fee = response_fee user_fee client.fee_rate

  unfoldable pub resolve_fee_rate_bps : D → Option (Lookup D E) → Result (BuildError E) ℤ
  unfolding parse_fee_rate_bps client_fee
  resolve_fee_rate_bps fee client = parse_fee_rate_bps fee >>= client_fee client

  unfoldable pub parse_level : PriceLevel → Result (BuildError E) (D × D)
  parse_level level = elim (d.parse level.price) [
    | none ↦ err bad_level
    | some price ↦ elim (d.parse level.size) [ none ↦ err bad_level | some size ↦ ok (price, size) ]
  ]

  -- The loop from the last level to the first: the price at which the sum reaches the amount.
  unfoldable pub cutoff : MarketAmount D → D → List PriceLevel → Result (BuildError E) (Option D)
  unfolding level_amount
  cutoff amount sum [] = ok none
  cutoff amount sum (level ∷ levels) = elim (parse_level level) [
    | err e ↦ err e
    | ok (price, size) ↦
        let total : D = d.add sum (level_amount d amount.kind (price, size)) in
        elim (d.less_than total amount.amount) [
          | true ↦ cutoff amount total levels
          | false ↦ ok (some price)
        ]
  ]

  price_of_cutoff : OrderType → D → Option D → Result (BuildError E) D
  price_of_cutoff order_type first (some price) = ok price
  price_of_cutoff order_type first none =
      if text_eq order_type fok then err insufficient_liquidity else ok first

  unfoldable pub price_in : OrderType → MarketAmount D → List PriceLevel → Result (BuildError E) D
  unfolding price_of_cutoff
  price_in order_type amount [] = err no_opposing_orders
  price_in order_type amount (level ∷ levels) = elim (d.parse level.price) [
    | none ↦ err bad_level
    | some first ↦
        cutoff amount (d.from_int (pos 0)) (reverse (level ∷ levels))
        >>= price_of_cutoff order_type first
  ]

  market_price : Text → OrderType → MarketAmount D → Result E Book → Result (BuildError E) D
  unfolding price_in
  market_price side order_type amount (err e) = err (lookup_failed e)
  market_price side order_type amount (ok book) =
      price_in order_type amount (if text_eq side buy then book.asks else book.bids)

  -- Of a side that is BUY or SELL.
  unfoldable pub resolve_market_price :
      Option (Lookup D E) → Text → OrderType → MarketAmount D → Result (BuildError E) D
  unfolding market_price
  resolve_market_price none side order_type amount = err client_required
  resolve_market_price (some client) side order_type amount =
      market_price side order_type amount client.order_book

module _ {κ} {E : Type κ} where
  -- A wallet of the signer's chain, or for chain 0 that of the default chain if there is none.
  wallet : ℤ → Result E ℕ → Result E ℕ → Result (BuildError E) ℕ
  wallet chain (ok address) default = ok address
  wallet (pos zero) (err e) (ok address) = ok address
  wallet (pos zero) (err e) (err f) = err (derive_failed f)
  wallet (pos (suc n)) (err e) default = err (derive_failed e)
  wallet (negsuc n) (err e) default = err (derive_failed e)

  abbrev chain_of : Signer E → ℤ
  chain_of s = elim s.chain_id [ none ↦ pos 0 | some z ↦ z ]

  wallet_of_type : ℤ → Signer E → Result (BuildError E) ℕ
  unfolding wallet
  wallet_of_type (pos (suc zero)) s = wallet (chain_of s) (s.proxy_for_chain (chain_of s)) s.proxy
  wallet_of_type (pos (suc (suc zero))) s =
      wallet (chain_of s) (s.safe_for_chain (chain_of s)) s.safe
  wallet_of_type _ s = ok s.address

  -- SignatureProxy is 1 and SignatureGnosisSafe is 2.
  unfoldable pub derive_maker_from_signature : Option (Signer E) → ℤ → Result (BuildError E) ℕ
  unfolding wallet_of_type
  derive_maker_from_signature none sig_type = err signer_required
  derive_maker_from_signature (some s) sig_type = wallet_of_type sig_type s

-- The default salt: 53 bits of a random uint64.
unfoldable generate_salt {κ} : {E : Type κ} → Result E ℕ → Result E ℤ
generate_salt (err e) = err e
generate_salt (ok raw) = ok (pos (raw % 2 ^ 53))
