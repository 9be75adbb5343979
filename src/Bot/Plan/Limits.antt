-- ===== src/Bot/Plan/Limits.antt =====
-- What a plan keeps of the configuration's limits.
use polymarket_go_sdk.Base.{◌≡◌, ◌≢◌, ap, ◌∙◌, ◌⊎◌, inl, inr, false, some, arith}
use polymarket_go_sdk.Base.Result.{ok, err}
use polymarket_go_sdk.Decimal.{Decimals}
use polymarket_go_sdk.Decimal.Laws.{Laws}
use polymarket_go_sdk.Bot.{BotConfig, Opportunity, TradePlan}
use polymarket_go_sdk.Bot.Config.{zero_decimal}
use polymarket_go_sdk.Bot.Plan.{
  RiskSnapshot, exceeds_cap, validate_plan_against_risk, build_trade_plan,
}

module _ {ℓ} {D : Type ℓ} (d : Decimals D) where
  build_trade_plan-ok :
      (c : BotConfig D) (cent : D) (op : Opportunity D) (plan : TradePlan D)
      → build_trade_plan d c cent op ≡ ok plan
      → (d.at_most (d.min c.default_amount_usdc c.max_per_trade_usdc) (zero_decimal d) ≡ false)
        × (plan.amount_usdc ≡ d.min c.default_amount_usdc c.max_per_trade_usdc)
  unfolding build_trade_plan
  build_trade_plan-ok c cent op plan h = ground arith

  not_exceeding :
      (c : BotConfig D) (plan : TradePlan D) (risk : RiskSnapshot D)
      → d.greater_than plan.amount_usdc c.max_per_trade_usdc ≡ false
      → validate_plan_against_risk d c (some plan) risk ≢ err exceeds_cap
  unfolding validate_plan_against_risk
  not_exceeding c plan risk h = ground arith

module _ {ℓ} {D : Type ℓ} (d : Decimals D) (laws : Laws d) where
  -- A plan's amount is positive and at most the cap, so the check against the risk never refuses the
  -- plan for its amount.
  pub plan_within_cap :
      (c : BotConfig D) (cent : D) (op : Opportunity D) (plan : TradePlan D) (risk : RiskSnapshot D)
      → build_trade_plan d c cent op ≡ ok plan
      → (d.at_most plan.amount_usdc (zero_decimal d) ≡ false)
        × ((plan.amount_usdc ≡ c.default_amount_usdc) ⊎ (plan.amount_usdc ≡ c.max_per_trade_usdc))
        × (validate_plan_against_risk d c (some plan) risk ≢ err exceeds_cap)
  plan_within_cap c cent op plan risk h =
      let (positive, amount) = build_trade_plan-ok d c cent op plan h in
      let x = c.default_amount_usdc in
      let y = c.max_per_trade_usdc in
      let cases = laws.min-cases x y in
      (
        ap (λ z. d.at_most z (zero_decimal d)) amount ∙ positive,
        elim cases [ inl e ↦ inl (amount ∙ e) | inr e ↦ inr (amount ∙ e) ],
        not_exceeding d c plan risk
            (ap (λ z. d.greater_than z y) amount ∙ laws.min-not_greater x y),
      )
