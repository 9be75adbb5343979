-- ===== src/Bot/Config.antt =====
-- config.go: the defaults, the checks and the environment. `getenv` is os.Getenv and `atoi`
-- strconv.Atoi; a duration is in nanoseconds.
pub mod Valid
use polymarket_go_sdk.Base.{
  ℕ, ◌*◌, ◌^◌, ◌≡◌, refl, Bool, true, false, ◌||◌, not, Option, none, some, is_empty, if◌then◌else◌,
  arith,
}
use polymarket_go_sdk.Base.Int.{ℤ, pos, is_nonpos, ltb_ℤ}
use polymarket_go_sdk.Base.Text.{Text, codes, trim_space, text_eq, to_lower}
use polymarket_go_sdk.Base.Result.{Result, ok, err, ◌>>◌}
use polymarket_go_sdk.Decimal.{Decimals}
use polymarket_go_sdk.Bot.{BotConfig, equal_fold}

pub data ConfigError : Type 0 where
  bad_scan_limit bad_top_n bad_default_amount bad_max_per_trade bad_max_daily_loss : ConfigError
  bad_max_open_trades bad_max_slippage bad_min_confidence : ConfigError

abbrev check : Bool → ConfigError → Result ConfigError (Unit {0})
check true e = err e
check false e = ok tt

module _ {ℓ} {D : Type ℓ} (d : Decimals D) where
  -- The zero of the library.
  abbrev pub zero_decimal : D
  zero_decimal = d.from_int (pos 0)

  -- `imbalance` is the decimal 0.08, which is parsed.
  unfoldable pub default_bot_config : D → BotConfig D
  default_bot_config imbalance = record {
    scan_limit = pos 60;
    top_n = pos 8;
    min_spread_bps = d.from_int (pos 15);
    min_book_depth_shares = d.from_int (pos 100);
    min_imbalance = imbalance;
    default_amount_usdc = d.from_int (pos 25);
    max_per_trade_usdc = d.from_int (pos 100);
    max_daily_loss_usdc = d.from_int (pos 150);
    max_open_trades = pos 5;
    max_slippage_bps = d.from_int (pos 25);
    min_confidence_bps = d.from_int (pos 25);
    request_timeout = 12 * 10 ^ 9;
    dry_run = true;
    allow_execution = false;
    require_explicit_confirm = true;
  }

  unfoldable pub validate : BotConfig D → Result ConfigError (Unit {0})
  validate c = do
    check (is_nonpos c.scan_limit) bad_scan_limit
    check (is_nonpos c.top_n) bad_top_n
    check (d.at_most c.default_amount_usdc zero_decimal) bad_default_amount
    check (d.at_most c.max_per_trade_usdc zero_decimal) bad_max_per_trade
    check (d.less_than c.max_daily_loss_usdc zero_decimal) bad_max_daily_loss
    check (is_nonpos c.max_open_trades) bad_max_open_trades
    check (d.at_most c.max_slippage_bps zero_decimal) bad_max_slippage
    check (d.less_than c.min_confidence_bps zero_decimal) bad_min_confidence

  module _ (getenv : Text → Text) (atoi : Text → Option ℤ) where
    -- A positive number of the environment, or the one before.
    env_int : Text → ℤ → ℤ
    env_int name was =
        let v = trim_space (getenv name) in
        if is_empty v
        then was
        else elim (atoi v) [ none ↦ was | some n ↦ if ltb_ℤ (pos 0) n then n else was ]

    env_decimal : Text → D → D
    env_decimal name was =
        let v = trim_space (getenv name) in
        if is_empty v then was else elim (d.parse v) [
          | none ↦ was
          | some x ↦ if d.greater_than x zero_decimal then x else was
        ]

    env_flag : Text → Bool → Bool
    env_flag name was =
        let v = trim_space (getenv name) in
        if is_empty v
        then was
        else equal_fold v (codes "1") || equal_fold v (codes "true") || equal_fold v (codes "yes")

    unfoldable pub merge_env : BotConfig D → BotConfig D
    unfolding env_int env_decimal env_flag
    merge_env c = record c {
      scan_limit = env_int (codes "BOT_SCAN_LIMIT") c.scan_limit;
      top_n = env_int (codes "BOT_TOP_N") c.top_n;
      default_amount_usdc = env_decimal (codes "BOT_DEFAULT_AMOUNT_USDC") c.default_amount_usdc;
      max_per_trade_usdc = env_decimal (codes "BOT_MAX_PER_TRADE_USDC") c.max_per_trade_usdc;
      max_slippage_bps = env_decimal (codes "BOT_MAX_SLIPPAGE_BPS") c.max_slippage_bps;
      dry_run = env_flag (codes "BOT_DRY_RUN") c.dry_run;
    }

    -- NewEngine, of whose engine only the configuration is kept.
    unfoldable pub new_engine : BotConfig D → Result ConfigError (BotConfig D)
    new_engine c = do validate (merge_env c); ok (merge_env c)
