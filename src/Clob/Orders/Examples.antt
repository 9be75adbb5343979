-- ===== src/Clob/Orders/Examples.antt =====
-- The theorems on orders at concrete inputs.
use polymarket_go_sdk.Base.{
  ℕ, zero, suc, ◌+◌, ◌*◌, ◌/◌, ◌^◌, ◌≤◌, ◌≡◌, ◌≢◌, ◌⊎◌, refl, true, false, none, some, List, [],
  ◌∷◌, ◌++◌, arith, if◌then◌else◌,
}
use polymarket_go_sdk.Base.Int.{pos, pos_part}
use polymarket_go_sdk.Base.Text.{
  Text, codes, text_eq, to_upper, upper, trim_space, trim_left, is_space, contains, starts_with,
}
use polymarket_go_sdk.Base.Result.{ok, err}
use polymarket_go_sdk.Decimal.{decimal_places}
use polymarket_go_sdk.Decimal.Fixed.{
  Fixed, fixed, parse_fixed, exponent_of, below, difference, cut, shifted, divide, scale, units_of,
  product, sum_of,
}
use polymarket_go_sdk.Decimal.Fixed.Lawful.{fixed_laws, fixed_units}
use polymarket_go_sdk.Clob.Orders.{
  OrderBuilder, Order, SignableOrder, Signer, TypedData, number, PriceLevel, MarketAmount, usdc,
  gtd, fok, is_side, normalize_side, normalize_order_type,
}
use polymarket_go_sdk.Clob.Orders.Resolve.{
  resolve_tick_size, parse_level, level_amount, cutoff, price_in, resolve_fee_rate_bps,
  parse_fee_rate_bps, derive_maker_from_signature,
}
use polymarket_go_sdk.Clob.Orders.Build.{
  Parser, build_limit, build_signable, check_limit, check_tick, check_signable, parse_token_id,
  resolve_maker, expiration_of, limit_amounts, out_of_bounds, has_expiration, salt_of,
  signer_address, to_fixed_decimal,
}
use polymarket_go_sdk.Clob.Orders.Build.Amounts.{limit_price_bounds, limit_order_amounts}
use polymarket_go_sdk.Clob.Orders.Payload.{Printer, SignedOrder, signature_required}
use polymarket_go_sdk.Clob.Orders.Signing.{Signing, sign_order_v2}
use polymarket_go_sdk.Clob.Orders.Signing.Kept.{Kept}
use polymarket_go_sdk.Clob.Orders.Posting.{
  Exchange, PostError, refused, bad_payload, contract_of, ask_fee, url_v1, url_v2, is_v2,
  sign_order_with_context, create_order_from_signable, create_order_with_options,
}
use polymarket_go_sdk.Clob.Orders.Resolve.Cutoff.{
  Parsed, parsed_none, parsed_one, ReachedAt, AllBelow, price_in-reached,
}
use polymarket_go_sdk.Clob.Orders.Posting.Kept.{create_order-Kept}
use polymarket_go_sdk.Clob.Orders.Posting.Refused.{built_order_is_posted}
use polymarket_go_sdk.Clob.Orders.Posting.SignedAmounts.{entry_of, signed_limit_amounts}
use polymarket_go_sdk.Clob.Orders.Posting.Expires.{gtd_expiration_lost}
use mathlib.Core.List.{reverse}

abbrev dec : ℕ → ℕ → Fixed
dec n p = record { value = pos n; places = p }

abbrev number_parser : Parser
number_parser = record {
  big_int = λ t. elim (parse_fixed t) [ none ↦ none | some x ↦ some x.value ];
}

abbrev one_printer : Printer Fixed
one_printer = record {
  int_text = λ z. (48 + pos_part z) ∷ [];
  decimal_text = λ x. (48 + pos_part x.value) ∷ [];
  address_hex = λ a. codes "0x" ++ a ∷ [];
  hash_hex = λ h. codes "0x" ++ h ∷ [];
}

abbrev eoa : Signer ℕ
eoa = record {
  address = 5;
  chain_id = some (pos 137);
  proxy_for_chain = λ c. err 1;
  proxy = err 1;
  safe_for_chain = λ c. err 1;
  safe = err 1;
  sign_typed_data = λ t. ok (7 ∷ 8 ∷ []);
}

abbrev signing : Signing ℕ
signing = record {
  signer = some eoa;
  api_key = some (codes "key");
  signature_type = some (pos 0);
  funder = none;
  salt = ok (pos 9);
  now = pos 1700000000000;
  hex_encode = λ bytes. codes "0x" ++ bytes;
}

-- 10.5 shares at 0.53, good till a date, with the default salt 42.
abbrev limit_builder : OrderBuilder Fixed ℕ
limit_builder = record {
  client = none;
  signer = some eoa;
  token_id = codes "123";
  side = codes " buy";
  price = dec 53 2;
  size = dec 105 1;
  fee_rate_bps = dec 0 0;
  tick_size = some (dec 1 2);
  order_type = codes "gtd";
  maker = none;
  funder = none;
  taker = none;
  nonce = none;
  expiration = some (pos 1800000000);
  signature_type = some (pos 0);
  post_only = none;
  salt = ok (pos 42);
  amount = none;
}

abbrev limit_order : Order Fixed
limit_order = record {
  salt = some (pos 42);
  signer = 5;
  maker = 5;
  taker = 0;
  token_id = some (pos 123);
  maker_amount = dec 5565000 0;
  taker_amount = dec 10500000 0;
  expiration = some (pos 1800000000);
  side = codes "BUY";
  fee_rate_bps = dec 0 0;
  nonce = some (pos 0);
  signature_type = some (pos 0);
  timestamp = none;
  metadata = 0;
  builder = 0;
}

abbrev limit_signable : SignableOrder Fixed
limit_signable = record { order = limit_order; order_type = gtd; post_only = none }

limit_tick : resolve_tick_size fixed limit_builder.tick_size limit_builder.client ≡ ok (dec 1 2)
unfolding resolve_tick_size
limit_tick = refl

limit_built : build_limit fixed number_parser limit_builder ≡ ok limit_order
unfolding build_limit check_limit is_side text_eq normalize_side to_upper upper trim_space trim_left
    is_space parse_token_id parse_fixed resolve_tick_size check_tick exponent_of below difference
    resolve_fee_rate_bps parse_fee_rate_bps resolve_maker derive_maker_from_signature expiration_of
    limit_amounts out_of_bounds salt_of signer_address to_fixed_decimal cut shifted divide scale
    units_of product
limit_built = refl

limit_signable_built : build_signable fixed number_parser limit_builder ≡ ok limit_signable
unfolding build_signable build_limit check_signable normalize_order_type check_limit is_side text_eq
    normalize_side to_upper upper trim_space trim_left is_space parse_token_id parse_fixed
    resolve_tick_size check_tick exponent_of below difference resolve_fee_rate_bps
    parse_fee_rate_bps resolve_maker derive_maker_from_signature expiration_of limit_amounts
    out_of_bounds salt_of signer_address to_fixed_decimal cut shifted divide scale units_of product
limit_signable_built = refl

tick_units : fixed_laws.units 2 (dec 1 2) ≡ pos 1
unfolding units_of scale
tick_units = fixed_units 2 (dec 1 2)

limit_price_bounds_example :
    (decimal_places fixed (dec 53 2) ≤ 2)
    × (1 ≤ pos_part (fixed_laws.units 2 (dec 53 2)))
    × (pos_part (fixed_laws.units 2 (dec 53 2)) + 1 ≤ 100)
unfolding exponent_of
limit_price_bounds_example =
    limit_price_bounds fixed fixed_laws number_parser limit_builder limit_order (dec 1 2) 1
      limit_tick tick_units limit_built

limit_order_amounts_example :
    (fixed_laws.units 0 (dec 5565000 0)
      ≡ pos (
          pos_part (fixed_laws.units 4 (dec 105 1))
          * pos_part (fixed_laws.units 2 (dec 53 2))
          / 10 ^ 0))
    × (fixed_laws.units 0 (dec 10500000 0) ≡ fixed_laws.units 6 (dec 105 1))
unfolding exponent_of text_eq
limit_order_amounts_example =
    limit_order_amounts fixed fixed_laws number_parser limit_builder limit_order (dec 1 2) 4 0
      limit_tick (omega arith) refl limit_built

-- An exchange that takes no order, in the words of a version mismatch or in others.
abbrev refusing : Text → Exchange ℕ ℕ
refusing base = record {
  neg_risk = ok true;
  base_fee = ok (pos 0);
  post_order = λ payload. err (if is_v2 base then 2 else 1);
  post_orders = λ payloads. err 3;
}

abbrev refusal_text : PostError ℕ → Text
refusal_text (refused (suc zero)) = codes "400: order_version_mismatch"
refusal_text _ = codes "400"

built_order_is_posted_example :
    create_order_from_signable fixed one_printer signing refusing refusal_text url_v1
      (some limit_signable)
    ≢ err (bad_payload signature_required)
built_order_is_posted_example =
    built_order_is_posted fixed one_printer signing refusing refl (λ bytes. refl) (λ a. refl)
      number_parser limit_builder limit_signable refusal_text url_v1 signature_required
      limit_signable_built refl

create_order-Kept_example :
    Kept signing.salt limit_order
      (create_order_with_options fixed one_printer signing refusing refusal_text url_v1 none
        limit_order).0
create_order-Kept_example =
    create_order-Kept fixed one_printer signing refusing refusal_text url_v1 none limit_order

abbrev signed_v2 : SignedOrder Fixed
signed_v2 = record {
  order = record limit_order { expiration = some (pos 0); timestamp = some (pos 1700000000000) };
  signature = codes "0x" ++ 7 ∷ 8 ∷ [];
  owner = codes "key";
  order_type = [];
  post_only = none;
  defer_exec = none;
}

limit_signed :
    (sign_order_with_context fixed one_printer signing refusing url_v2 limit_order).1 ≡ ok signed_v2
unfolding sign_order_with_context sign_order_v2 contains starts_with contract_of ask_fee
limit_signed = refl

signed_limit_amounts_example :
    (s : Signer ℕ) × (t : TypedData) × (bytes : List ℕ) × (some eoa ≡ some s)
    × (s.sign_typed_data t ≡ ok bytes)
    × (codes "0x" ++ 7 ∷ 8 ∷ [] ≡ codes "0x" ++ bytes)
    × (entry_of (codes "makerAmount") t.message
        ≡ some (
            number (
              some (
                pos (
                  pos_part (fixed_laws.units 4 (dec 105 1))
                  * pos_part (fixed_laws.units 2 (dec 53 2))
                  / 10 ^ 0)))))
    × (entry_of (codes "takerAmount") t.message
        ≡ some (number (some (fixed_laws.units 6 (dec 105 1)))))
unfolding exponent_of text_eq
signed_limit_amounts_example =
    signed_limit_amounts fixed one_printer signing refusing fixed_laws number_parser limit_builder
      limit_order (dec 1 2) 4 0 url_v2 signed_v2 limit_tick (omega arith) refl limit_built
      limit_signed

gtd_expiration_lost_example :
    (has_expiration (some (pos 1800000000)) ≡ true) × (some (pos 0) ≡ some (pos 0))
unfolding contains starts_with
gtd_expiration_lost_example =
    gtd_expiration_lost fixed one_printer signing refusing number_parser limit_builder
      limit_signable url_v2 signed_v2 limit_signable_built refl refl limit_signed

-- Asks of 40 shares at 0.6 and 30 at 0.5, the best, for an order of 25 USDC.
abbrev asks : List PriceLevel
asks =
    record { price = codes "0.6"; size = codes "40" }
    ∷ record { price = codes "0.5"; size = codes "30" }
    ∷ []

abbrev usdc_25 : MarketAmount Fixed
usdc_25 = record { kind = usdc; amount = dec 25 0 }

asks-Parsed : Parsed fixed (reverse asks) ((dec 5 1, dec 30 0) ∷ (dec 6 1, dec 40 0) ∷ [])
unfolding parse_fixed
asks-Parsed = parsed_one refl refl (parsed_one refl refl parsed_none)

asks_price : price_in fixed {E = ℕ} fok usdc_25 asks ≡ ok (dec 6 1)
unfolding price_in cutoff parse_level parse_fixed level_amount sum_of below units_of scale divide
    product
asks_price = refl

price_in-reached_example :
    ReachedAt fixed usdc_25 ((dec 5 1, dec 30 0) ∷ (dec 6 1, dec 40 0) ∷ []) (dec 6 1)
    ⊎ (AllBelow fixed usdc_25 [] ((dec 5 1, dec 30 0) ∷ (dec 6 1, dec 40 0) ∷ [])
        × (parse_fixed (codes "0.6") ≡ some (dec 6 1))
        × (text_eq fok fok ≡ false))
price_in-reached_example =
    price_in-reached fixed {E = ℕ} usdc_25 fok (record { price = codes "0.6"; size = codes "40" })
      (record { price = codes "0.5"; size = codes "30" } ∷ [])
      ((dec 5 1, dec 30 0) ∷ (dec 6 1, dec 40 0) ∷ []) (dec 6 1) asks-Parsed asks_price
