-- ===== src/Clob/Orders/Setters.antt =====
-- order_builder.go: a new builder and its setters. A setter of a float64 and that of a decimal are
-- one function of the decimal.
use polymarket_go_sdk.Base.{ℕ, Bool, Option, none, some, []}
use polymarket_go_sdk.Base.Int.{ℤ, pos}
use polymarket_go_sdk.Base.Text.{Text}
use polymarket_go_sdk.Base.Result.{Result}
use polymarket_go_sdk.Decimal.{Decimals}
use polymarket_go_sdk.Clob.Orders.{OrderType, Signer, Lookup, OrderBuilder, usdc, shares}

-- What a client gives to the builders that it is passed to.
pub record OrderDefaults {κ} (E : Type κ) : Type κ where
  pub signature_type : ℤ
  pub funder : Option ℕ
  -- What its salt generator returns, or the default one where it has none.
  pub salt : Result E ℤ

module _ {ℓ κ} {D : Type ℓ} (d : Decimals D) {E : Type κ} where
  new_builder :
      Option (Lookup D E) → Option (Signer E) → Option ℤ → Option ℕ → Result E ℤ → OrderBuilder D E
  new_builder client signer signature_type funder salt = record {
    client = client;
    signer = signer;
    token_id = [];
    side = [];
    price = d.from_int (pos 0);
    size = d.from_int (pos 0);
    fee_rate_bps = d.from_int (pos 0);
    tick_size = none;
    order_type = [];
    maker = none;
    funder = funder;
    taker = none;
    nonce = none;
    expiration = none;
    signature_type = signature_type;
    post_only = none;
    salt = salt;
    amount = none;
  }

  -- Of a client with defaults or without; `salt` is what the default salt generator returns.
  unfoldable pub new_order_builder :
      Option (Lookup D E)
      → Option (Signer E)
      → Option (OrderDefaults E)
      → Result E ℤ
      → OrderBuilder D E
  unfolding new_builder
  new_order_builder client signer none salt = new_builder client signer none none salt
  new_order_builder client signer (some defaults) salt =
      new_builder client signer (some defaults.signature_type) defaults.funder defaults.salt

module _ {ℓ κ} {D : Type ℓ} {E : Type κ} where
  unfoldable pub set_token_id : Text → OrderBuilder D E → OrderBuilder D E
  set_token_id x b = record b { token_id = x }

  unfoldable pub set_side : Text → OrderBuilder D E → OrderBuilder D E
  set_side x b = record b { side = x }

  unfoldable pub set_price : D → OrderBuilder D E → OrderBuilder D E
  set_price x b = record b { price = x }

  unfoldable set_size : D → OrderBuilder D E → OrderBuilder D E
  set_size x b = record b { size = x }

  unfoldable set_fee_rate_bps : D → OrderBuilder D E → OrderBuilder D E
  set_fee_rate_bps x b = record b { fee_rate_bps = x }

  unfoldable set_nonce : Option ℤ → OrderBuilder D E → OrderBuilder D E
  set_nonce x b = record b { nonce = x }

  unfoldable set_maker : ℕ → OrderBuilder D E → OrderBuilder D E
  set_maker x b = record b { maker = some x }

  unfoldable set_taker : ℕ → OrderBuilder D E → OrderBuilder D E
  set_taker x b = record b { taker = some x }

  unfoldable pub set_order_type : OrderType → OrderBuilder D E → OrderBuilder D E
  set_order_type x b = record b { order_type = x }

  unfoldable set_post_only : Bool → OrderBuilder D E → OrderBuilder D E
  set_post_only x b = record b { post_only = some x }

  unfoldable set_expiration_unix : ℤ → OrderBuilder D E → OrderBuilder D E
  set_expiration_unix x b = record b { expiration = some x }

  unfoldable pub set_amount_usdc : D → OrderBuilder D E → OrderBuilder D E
  set_amount_usdc x b = record b { amount = some (record { kind = usdc; amount = x }) }

  unfoldable set_amount_shares : D → OrderBuilder D E → OrderBuilder D E
  set_amount_shares x b = record b { amount = some (record { kind = shares; amount = x }) }

  -- The override of a float that is not 0.
  unfoldable set_tick_size : Option D → OrderBuilder D E → OrderBuilder D E
  set_tick_size x b = record b { tick_size = x }

  unfoldable pub use_proxy : OrderBuilder D E → OrderBuilder D E
  use_proxy b = record b { signature_type = some (pos 1) }

  unfoldable pub use_safe : OrderBuilder D E → OrderBuilder D E
  use_safe b = record b { signature_type = some (pos 2) }
