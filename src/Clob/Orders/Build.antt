-- ===== src/Clob/Orders/Build.antt =====
-- order_builder.go: limit orders, plain and signable.
pub mod Amounts
pub mod Accepts
pub mod Signable
use polymarket_go_sdk.Base.{
  ℕ, zero, ◌+◌, Bool, true, false, ◌&&◌, ◌||◌, not, Option, none, some, is_empty, leb, ltb, ◌==◌,
  if◌then◌else◌,
}
use polymarket_go_sdk.Base.Int.{ℤ, pos, ltb_ℤ}
use polymarket_go_sdk.Base.Text.{Text, text_eq}
use polymarket_go_sdk.Base.Result.{Result, ok, err, ◌>>=◌, ◌>>◌}
use polymarket_go_sdk.Decimal.{Decimals, decimal_places}
use polymarket_go_sdk.Clob.Orders.{
  BuildError, token_id_required, bad_side, price_not_positive, size_not_positive, bad_token_id,
  price_too_precise, price_out_of_bounds, size_too_precise, funder_needs_proxy, zero_funder,
  negative_expiration, expiration_not_gtd, gtd_needs_expiration, post_only_not_limit, salt_failed,
  nil_panic, OrderType, gtc, gtd, buy, Signer, OrderBuilder, Order, SignableOrder, is_set,
  normalize_order_type, normalize_side, is_side,
}
use polymarket_go_sdk.Clob.Orders.Resolve.{
  resolve_tick_size, resolve_fee_rate_bps, derive_maker_from_signature,
}

-- `if cond { return nil, e }`
abbrev pub refuse_if {κ} : {E : Type κ} → Bool → BuildError E → Result (BuildError E) (Unit {0})
refuse_if true e = err e
refuse_if false e = ok tt

abbrev pub lot_size_scale : ℕ
lot_size_scale = 2

abbrev pub usdc_decimals : ℕ
usdc_decimals = 6

-- new(big.Int).SetString(s, 10)
pub record Parser : Type 0 where
  pub big_int : Text → Option ℤ

abbrev pub sig_type_of : Option ℤ → ℤ
sig_type_of none = pos 0
sig_type_of (some t) = t

abbrev pub or_zero : Option ℤ → ℤ
or_zero none = pos 0
or_zero (some z) = z

abbrev pub or_zero_address : Option ℕ → ℕ
or_zero_address none = 0
or_zero_address (some a) = a

abbrev pub has_expiration : Option ℤ → Bool
has_expiration none = false
has_expiration (some z) = ltb_ℤ (pos 0) z

abbrev pub no_expiration : Option ℤ → Bool
no_expiration none = true
no_expiration (some z) = not (ltb_ℤ (pos 0) z) && not (ltb_ℤ z (pos 0))

module _ {ℓ} {D : Type ℓ} (d : Decimals D) where
  -- Is a price below the tick size, or above one less the tick size?
  unfoldable pub out_of_bounds : D → D → Bool
  out_of_bounds price tick =
      d.less_than price tick || d.greater_than price (d.sub (d.from_int (pos 1)) tick)

  unfoldable pub to_fixed_decimal : D → D
  to_fixed_decimal x = d.truncate (d.shift (d.truncate x usdc_decimals) usdc_decimals) 0

  -- The maker's and the taker's amount of a limit order, as decimals.
  unfoldable pub limit_amounts : Text → D → D → ℕ → D × D
  limit_amounts side price size tick_scale =
      let value = d.truncate (d.mul size price) (tick_scale + lot_size_scale) in
      if text_eq side buy then (value, size) else (size, value)

module _ {κ} {E : Type κ} where
  funder_maker : ℤ → ℕ → Result (BuildError E) ℕ
  funder_maker (pos zero) funder = err funder_needs_proxy
  funder_maker sig_type funder = if funder == 0 then err zero_funder else ok funder

  unfoldable pub resolve_maker :
      Option ℕ → Option ℕ → ℤ → Option (Signer E) → Result (BuildError E) ℕ
  unfolding funder_maker
  resolve_maker (some maker) funder sig_type signer = ok maker
  resolve_maker none (some funder) sig_type signer = funder_maker sig_type funder
  resolve_maker none none sig_type signer = derive_maker_from_signature signer sig_type

  -- b.signer.Address()
  unfoldable pub signer_address : Option (Signer E) → Result (BuildError E) ℕ
  signer_address none = err nil_panic
  signer_address (some s) = ok s.address

  unfoldable pub salt_of : Result E ℤ → Result (BuildError E) ℤ
  salt_of (ok salt) = ok salt
  salt_of (err e) = err (salt_failed e)

  unfoldable pub parse_token_id : Parser → Text → Result (BuildError E) ℤ
  parse_token_id p token_id = elim (p.big_int token_id) [ none ↦ err bad_token_id | some z ↦ ok z ]

  unfoldable pub expiration_of : Option ℤ → Result (BuildError E) ℤ
  expiration_of none = ok (pos 0)
  expiration_of (some z) = if ltb_ℤ z (pos 0) then err negative_expiration else ok z

-- The checks of BuildSignable after the order is built.
unfoldable pub check_signable {ℓ κ} :
    {D : Type ℓ} {E : Type κ} → OrderBuilder D E → OrderType → Result (BuildError E) (Unit {0})
check_signable b order_type = do
  refuse_if (has_expiration b.expiration && not (text_eq order_type gtd)) expiration_not_gtd
  refuse_if (text_eq order_type gtd && no_expiration b.expiration) gtd_needs_expiration
  refuse_if (is_set b.post_only && not (text_eq order_type gtc) && not (text_eq order_type gtd))
      post_only_not_limit

module _ {ℓ κ} {D : Type ℓ} (d : Decimals D) {E : Type κ} where
  -- The checks of buildLimit before it asks for anything: the side.
  unfoldable pub check_limit : OrderBuilder D E → Result (BuildError E) Text
  check_limit b = do
    refuse_if (is_empty b.token_id) token_id_required
    refuse_if (not (is_side (normalize_side b.side))) bad_side
    refuse_if (not (d.is_positive b.price)) price_not_positive
    refuse_if (not (d.is_positive b.size)) size_not_positive
    ok (normalize_side b.side)

  -- The checks of the price and the size against the tick size.
  unfoldable pub check_tick : OrderBuilder D E → D → Result (BuildError E) (Unit {0})
  unfolding out_of_bounds
  check_tick b tick = do
    refuse_if (ltb (decimal_places d tick) (decimal_places d b.price)) price_too_precise
    refuse_if (out_of_bounds d b.price tick) price_out_of_bounds
    refuse_if (ltb lot_size_scale (decimal_places d b.size)) size_too_precise
    refuse_if (not (d.is_positive b.size)) size_not_positive

  unfoldable pub build_limit : Parser → OrderBuilder D E → Result (BuildError E) (Order D)
  build_limit p b = do
    side ← check_limit b
    token_id ← parse_token_id p b.token_id
    tick ← resolve_tick_size d b.tick_size b.client
    check_tick b tick
    fee ← resolve_fee_rate_bps d b.fee_rate_bps b.client
    let amounts = limit_amounts d side b.price b.size (decimal_places d tick)
    maker ← resolve_maker b.maker b.funder (sig_type_of b.signature_type) b.signer
    salt ← salt_of b.salt
    expiration ← expiration_of b.expiration
    signer ← signer_address b.signer
    ok (record {
      salt = some salt;
      signer = signer;
      maker = maker;
      taker = or_zero_address b.taker;
      token_id = some token_id;
      maker_amount = to_fixed_decimal d amounts.0;
      taker_amount = to_fixed_decimal d amounts.1;
      expiration = some expiration;
      side = side;
      fee_rate_bps = d.from_int fee;
      nonce = some (or_zero b.nonce);
      signature_type = some (sig_type_of b.signature_type);
      timestamp = none;
      metadata = 0;
      builder = 0;
    })

  unfoldable pub build_signable :
      Parser → OrderBuilder D E → Result (BuildError E) (SignableOrder D)
  unfolding build_limit check_signable
  build_signable p b = do
    order ← build_limit p b
    check_signable b (normalize_order_type b.order_type gtc)
    ok (record {
      order = order;
      order_type = normalize_order_type b.order_type gtc;
      post_only = b.post_only;
    })
