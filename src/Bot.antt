-- ===== src/Bot.antt =====
-- The bot of pkg/bot: its configuration, what it knows of a token and what it plans. `D` is the type of
-- decimals.
pub mod Config
pub mod Scan
pub mod Plan
mod Examples
use polymarket_go_sdk.Base.{ℕ, Bool}
use polymarket_go_sdk.Base.Int.{ℤ}
use polymarket_go_sdk.Base.Text.{Text, text_eq, to_lower}

pub record BotConfig {ℓ} (D : Type ℓ) : Type ℓ where
  pub scan_limit : ℤ
  pub top_n : ℤ
  pub min_spread_bps : D
  pub min_book_depth_shares : D
  pub min_imbalance : D
  pub default_amount_usdc : D
  pub max_per_trade_usdc : D
  pub max_daily_loss_usdc : D
  pub max_open_trades : ℤ
  pub max_slippage_bps : D
  pub min_confidence_bps : D
  pub request_timeout : ℕ
  pub dry_run : Bool
  pub allow_execution : Bool
  pub require_explicit_confirm : Bool

pub record Opportunity {ℓ} (D : Type ℓ) : Type ℓ where
  pub market_id : Text
  pub question : Text
  pub token_id : Text
  pub outcome : Text
  pub bid : D
  pub ask : D
  pub mid : D
  pub spread : D
  pub spread_bps : D
  pub bid_depth : D
  pub ask_depth : D
  pub imbalance : D
  pub signal_score : D
  pub recommended : Text
  pub confidence_bps : D

-- The reason, which is a text for people, is left out.
pub record TradePlan {ℓ} (D : Type ℓ) : Type ℓ where
  pub token_id : Text
  pub side : Text
  pub amount_usdc : D
  pub max_accepted_price : D
  pub expected_mid : D
  pub max_slippage_bps : D
  pub opportunity_source : Opportunity D

-- strings.EqualFold, of ASCII.
abbrev pub equal_fold : Text → Text → Bool
equal_fold s t = text_eq (to_lower s) (to_lower t)
