-- ===== src/Bot/Plan.antt =====
-- engine.go and risk.go: the limits of risk, the plan of an opportunity and its execution. What the
-- clob client gives, a builder of the bot's signer and the answer to an order, is a parameter.
pub mod Limits
pub mod Sells
use polymarket_go_sdk.Base.{
  ℕ, Bool, true, false, ◌||◌, ◌&&◌, not, Option, none, some, List, is_empty, if◌then◌else◌,
}
use polymarket_go_sdk.Base.Int.{ℤ, pos, leb_ℤ}
use polymarket_go_sdk.Base.Text.{Text, codes, to_upper, text_eq}
use polymarket_go_sdk.Base.Result.{Result, ok, err}
use polymarket_go_sdk.Decimal.{Decimals}
use polymarket_go_sdk.Clob.Orders.{BuildError, fak, OrderBuilder, SignableOrder}
use polymarket_go_sdk.Clob.Orders.Setters.{
  set_token_id, set_side, set_amount_usdc, set_price, set_order_type,
}
use polymarket_go_sdk.Clob.Orders.Build.{Parser}
use polymarket_go_sdk.Clob.Orders.Market.{build_market}
use polymarket_go_sdk.Clob.Orders.Posting.{PostError}
use polymarket_go_sdk.Bot.{BotConfig, Opportunity, TradePlan, equal_fold}
use polymarket_go_sdk.Bot.Config.{zero_decimal}

pub data RiskReason : Type 0 where
  no_reason max_open_trades_reached : RiskReason

pub record RiskSnapshot {ℓ} (D : Type ℓ) : Type ℓ where
  pub open_orders : ℕ
  pub daily_pnl_usdc : D
  pub can_trade : Bool
  pub reason : RiskReason

pub data PlanError : Type 0 where
  plan_required : PlanError
  risk_blocked : RiskReason → PlanError
  exceeds_cap unsupported_side bad_price_guard confidence_too_low invalid_amount : PlanError

module _ {ℓ} {D : Type ℓ} (d : Decimals D) (c : BotConfig D) where
  snapshot : ℕ → RiskSnapshot D
  snapshot n =
      if leb_ℤ c.max_open_trades (pos n)
      then record {
        open_orders = n;
        daily_pnl_usdc = zero_decimal d;
        can_trade = false;
        reason = max_open_trades_reached;
      }
      else record {
        open_orders = n;
        daily_pnl_usdc = zero_decimal d;
        can_trade = true;
        reason = no_reason;
      }

  -- Of the number of open orders that the client answers, of 200 at most.
  unfoldable evaluate_risk {κ} : {E : Type κ} → Result E ℕ → Result E (RiskSnapshot D)
  unfolding snapshot
  evaluate_risk (err e) = err e
  evaluate_risk (ok n) = ok (snapshot n)

  unfoldable pub validate_plan_against_risk :
      Option (TradePlan D) → RiskSnapshot D → Result PlanError (Unit {0})
  validate_plan_against_risk none risk = err plan_required
  validate_plan_against_risk (some plan) risk =
      if not risk.can_trade
      then err (risk_blocked risk.reason)
      else if d.greater_than plan.amount_usdc c.max_per_trade_usdc
      then err exceeds_cap
      else if not (equal_fold plan.side (codes "BUY")) && not (equal_fold plan.side (codes "SELL"))
      then err unsupported_side
      else if d.at_most plan.max_accepted_price (zero_decimal d)
      then err bad_price_guard
      else ok tt

  -- `cent` is the decimal 0.01, which is parsed.
  unfoldable slippage_guard_price : D → Opportunity D → D → D
  slippage_guard_price cent op max_slippage_bps =
      let delta = d.div (d.mul op.mid max_slippage_bps) (d.from_int (pos 10000)) in
      let guard = d.sub op.mid delta in
      if equal_fold op.recommended (codes "BUY")
      then d.add op.mid delta
      else if d.at_most guard (zero_decimal d)
      then cent
      else guard

  unfoldable pub build_trade_plan : D → Opportunity D → Result PlanError (TradePlan D)
  unfolding slippage_guard_price
  build_trade_plan cent op =
      let amount = d.min c.default_amount_usdc c.max_per_trade_usdc in
      if d.less_than op.confidence_bps c.min_confidence_bps
      then err confidence_too_low
      else if d.at_most amount (zero_decimal d)
      then err invalid_amount
      else ok (record {
        token_id = op.token_id;
        side = to_upper op.recommended;
        amount_usdc = amount;
        max_accepted_price = slippage_guard_price cent op c.max_slippage_bps;
        expected_mid = op.mid;
        max_slippage_bps = c.max_slippage_bps;
        opportunity_source = op;
      })

pub data ExecuteError {κ} (E : Type κ) : Type κ where
  no_plan execution_disabled : ExecuteError E
  build_failed : BuildError E → ExecuteError E
  post_failed : PostError E → ExecuteError E

module _ {ℓ κ} {D : Type ℓ} (d : Decimals D) {E : Type κ} where
  -- The builder of a plan, from a new one of its token.
  unfoldable pub plan_builder : TradePlan D → OrderBuilder D E → OrderBuilder D E
  unfolding set_token_id set_side set_amount_usdc set_price set_order_type
  plan_builder plan b = set_order_type fak (
      set_price plan.max_accepted_price (
        set_amount_usdc (d.through_float plan.amount_usdc)
          (set_side plan.side (set_token_id plan.token_id b))))

module _ {ℓ κ μ} {D : Type ℓ} (d : Decimals D) {E : Type κ} {R : Type μ} (p : Parser) where
  unfoldable pub execute_plan :
      BotConfig D
      → (Text → OrderBuilder D E)
      → (SignableOrder D → Result (PostError E) R)
      → Option (TradePlan D)
      → Result (ExecuteError E) R
  unfolding plan_builder
  execute_plan c new_builder create_order none = err no_plan
  execute_plan c new_builder create_order (some plan) =
      if c.dry_run || not c.allow_execution
      then err execution_disabled
      else elim (build_market d p (plan_builder d plan (new_builder plan.token_id))) [
        | err e ↦ err (build_failed e)
        | ok so ↦ elim (create_order so) [ err e ↦ err (post_failed e) | ok r ↦ ok r ]
      ]
