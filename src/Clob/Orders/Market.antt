-- ===== src/Clob/Orders/Market.antt =====
-- order_builder.go: market orders.
use polymarket_go_sdk.Base.{
  ℕ, ◌+◌, Bool, true, false, ◌&&◌, not, Option, none, some, is_empty, ltb, if◌then◌else◌,
}
use polymarket_go_sdk.Base.Int.{pos}
use polymarket_go_sdk.Base.Text.{Text, text_eq}
use polymarket_go_sdk.Base.Result.{Result, ok, err, ◌>>=◌, ◌>>◌}
use polymarket_go_sdk.Decimal.{Decimals, decimal_places}
use polymarket_go_sdk.Clob.Orders.{
  BuildError, token_id_required, bad_side, price_not_positive, price_too_precise,
  price_out_of_bounds, post_only_market, amount_required, amount_not_positive, amount_too_precise,
  unsupported_amount, bad_market_type, sell_in_usdc, OrderType, fak, fok, buy, sell, AmountKind,
  usdc, shares, other_kind, MarketAmount, OrderBuilder, SignableOrder, is_set, normalize_order_type,
  normalize_side, is_side,
}
use polymarket_go_sdk.Clob.Orders.Resolve.{
  resolve_tick_size, resolve_fee_rate_bps, resolve_market_price,
}
use polymarket_go_sdk.Clob.Orders.Build.{
  refuse_if, lot_size_scale, usdc_decimals, Parser, sig_type_of, or_zero, or_zero_address,
  out_of_bounds, to_fixed_decimal, resolve_maker, signer_address, salt_of, parse_token_id,
}

abbrev is_usdc : AmountKind → Bool
is_usdc usdc = true
is_usdc _ = false

module _ {ℓ κ} {D : Type ℓ} (d : Decimals D) {E : Type κ} where
  amount_of : Option (MarketAmount D) → Result (BuildError E) (MarketAmount D)
  amount_of none = err amount_required
  amount_of (some a) = if d.is_positive a.amount then ok a else err amount_not_positive

  -- The decimal places of an amount, by its kind.
  check_scale : AmountKind → D → Result (BuildError E) (Unit {0})
  check_scale shares x = refuse_if (ltb lot_size_scale (decimal_places d x)) amount_too_precise
  check_scale usdc x = refuse_if (ltb usdc_decimals (decimal_places d x)) amount_too_precise
  check_scale other_kind x = err unsupported_amount

  -- The checks of BuildMarket before it asks for anything: the side, the amount and the type.
  unfoldable pub check_market :
      OrderBuilder D E → Result (BuildError E) (Text × MarketAmount D × OrderType)
  unfolding amount_of check_scale
  check_market b = do
    refuse_if (is_empty b.token_id) token_id_required
    let side = normalize_side b.side
    refuse_if (not (is_side side)) bad_side
    amount ← amount_of b.amount
    check_scale amount.kind amount.amount
    let order_type = normalize_order_type b.order_type fak
    refuse_if (not (text_eq order_type fak) && not (text_eq order_type fok)) bad_market_type
    refuse_if (is_set b.post_only) post_only_market
    refuse_if (text_eq side sell && is_usdc amount.kind) sell_in_usdc
    ok (side, amount, order_type)

  -- The builder's price, or where it has none that of the order book.
  unfoldable pub chosen_price :
      OrderBuilder D E → Text → MarketAmount D → OrderType → D → Result (BuildError E) D
  chosen_price b side amount order_type tick =
      if d.is_negative b.price
      then err price_not_positive
      else if d.is_positive b.price
      then (if ltb (decimal_places d tick) (decimal_places d b.price)
          then err price_too_precise
          else ok b.price)
      else resolve_market_price d b.client side order_type amount

  -- The maker's and the taker's amount, as decimals.
  unfoldable pub market_amounts : Text → MarketAmount D → D → ℕ → Result (BuildError E) (D × D)
  market_amounts side amount price scale = elim amount.kind [
    | usdc ↦
        if text_eq side buy
        then ok (amount.amount, d.truncate (d.div amount.amount price) scale)
        else err unsupported_amount
    | shares ↦
        if text_eq side buy
        then ok (d.truncate (d.mul amount.amount price) scale, amount.amount)
        else ok (amount.amount, d.truncate (d.mul amount.amount price) scale)
    | other_kind ↦ err unsupported_amount
  ]

  unfoldable pub build_market : Parser → OrderBuilder D E → Result (BuildError E) (SignableOrder D)
  build_market p b = do
    checked ← check_market b
    let side = checked.0
    let amount = checked.1
    let order_type = checked.2
    token_id ← parse_token_id p b.token_id
    tick ← resolve_tick_size d b.tick_size b.client
    chosen ← chosen_price b side amount order_type tick
    let price = d.truncate chosen (decimal_places d tick)
    refuse_if (out_of_bounds d price tick) price_out_of_bounds
    fee ← resolve_fee_rate_bps d b.fee_rate_bps b.client
    amounts ← market_amounts side amount price (decimal_places d tick + lot_size_scale)
    maker ← resolve_maker b.maker b.funder (sig_type_of b.signature_type) b.signer
    salt ← salt_of b.salt
    signer ← signer_address b.signer
    ok (record {
      order = record {
        salt = some salt;
        signer = signer;
        maker = maker;
        taker = or_zero_address b.taker;
        token_id = some token_id;
        maker_amount = to_fixed_decimal d amounts.0;
        taker_amount = to_fixed_decimal d amounts.1;
        expiration = some (pos 0);
        side = side;
        fee_rate_bps = d.from_int fee;
        nonce = some (or_zero b.nonce);
        signature_type = some (sig_type_of b.signature_type);
        timestamp = none;
        metadata = 0;
        builder = 0;
      };
      order_type = order_type;
      post_only = none;
    })
