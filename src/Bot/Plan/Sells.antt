-- ===== src/Bot/Plan/Sells.antt =====
-- Plans that the builder of market orders refuses: those to sell, which the bot gives an amount in
-- USDC, and those whose price is more precise than the tick size.
use polymarket_go_sdk.Base.{
  ◌<◌, ◌≡◌, ◌≢◌, ltb, lt→ltb, refl, sym, subst, ◌∙◌, ◌⊎◌, inl, inr, true, not, ◌||◌, some, arith,
  Bool-cases,
}
use polymarket_go_sdk.Base.Text.{Text, text_eq}
use polymarket_go_sdk.Base.Result.{Result, ok, err, Result-cases}
use polymarket_go_sdk.Decimal.{Decimals, decimal_places}
use polymarket_go_sdk.Clob.Orders.{
  BuildError, OrderBuilder, SignableOrder, MarketAmount, usdc, normalize_side, sell,
}
use polymarket_go_sdk.Clob.Orders.Build.{Parser, parse_token_id}
use polymarket_go_sdk.Clob.Orders.Resolve.{resolve_tick_size}
use polymarket_go_sdk.Clob.Orders.Build.Accepts.{>>=-eq-ok, ok_injective}
use polymarket_go_sdk.Clob.Orders.Market.{check_market, chosen_price, build_market}
use polymarket_go_sdk.Clob.Orders.Posting.{PostError}
use polymarket_go_sdk.Bot.{BotConfig, TradePlan}
use polymarket_go_sdk.Bot.Plan.{execution_disabled, build_failed, plan_builder, execute_plan}

module _ {ℓ κ} {D : Type ℓ} (d : Decimals D) {E : Type κ} where
  sells_no_usdc :
      (b : OrderBuilder D E) (x : D)
      → b.amount ≡ some (record { kind = usdc; amount = x })
      → text_eq (normalize_side b.side) sell ≡ true
      → (a : Text × MarketAmount D × Text) → check_market d b ≢ ok a
  unfolding check_market
  sells_no_usdc b x e f a h = ground arith

  build_market-sells_no_usdc :
      (p : Parser) (b : OrderBuilder D E) (x : D)
      → b.amount ≡ some (record { kind = usdc; amount = x })
      → text_eq (normalize_side b.side) sell ≡ true
      → (so : SignableOrder D) → build_market d p b ≢ ok so
  unfolding build_market
  build_market-sells_no_usdc p b x e f so h =
      let (a, g, _) = >>=-eq-ok (check_market d b) _ h in sells_no_usdc b x e f a g

  -- A positive price with more decimal places than the tick size is not taken.
  too_precise :
      (b : OrderBuilder D E) (side : Text) (amount : MarketAmount D) (order_type : Text) (tick : D)
      → d.is_positive b.price ≡ true
      → ltb (decimal_places d tick) (decimal_places d b.price) ≡ true
      → (x : D) → chosen_price d b side amount order_type tick ≢ ok x
  unfolding chosen_price
  too_precise b side amount order_type tick positive precise x h = ground arith

  build_market-too_precise :
      (p : Parser) (b : OrderBuilder D E) (tick : D)
      → resolve_tick_size d b.tick_size b.client ≡ ok tick
      → d.is_positive b.price ≡ true
      → ltb (decimal_places d tick) (decimal_places d b.price) ≡ true
      → (so : SignableOrder D) → build_market d p b ≢ ok so
  unfolding build_market
  build_market-too_precise p b tick known positive precise so h =
      let (checked, _, h) = >>=-eq-ok (check_market d b) _ h in
      let (token, _, h) = >>=-eq-ok (parse_token_id p b.token_id) _ h in
      let (at, found, h) = >>=-eq-ok (resolve_tick_size d b.tick_size b.client) _ h in
      let (x, e, h) = >>=-eq-ok (chosen_price d b checked.0 checked.1 checked.2 at) _ h in
      let same = ok_injective (sym found ∙ known) in
      too_precise b checked.0 checked.1 checked.2 tick positive precise x
        (subst (λ t. chosen_price d b checked.0 checked.1 checked.2 t ≡ ok x) same e)

  never_ok :
      (p : Parser) (b : OrderBuilder D E)
      → ((so : SignableOrder D) → build_market d p b ≢ ok so)
      → (e : BuildError E) × (build_market d p b ≡ err e)
  never_ok p b h = elim (Result-cases (build_market d p b)) [
    | inl (so, e) ↦ absurd (h so e)
    | inr (x, e) ↦ (x, e)
  ]

module _ {ℓ κ μ} {D : Type ℓ} (d : Decimals D) {E : Type κ} {R : Type μ} (p : Parser)
    (c : BotConfig D) (new_builder : Text → OrderBuilder D E)
    (create_order : SignableOrder D → Result (PostError E) R) where
  -- The order of a plan was not created: execution is disabled, or the builder refused the plan.
  abbrev pub NotExecuted : TradePlan D → Type (κ ⊔ μ)
  NotExecuted plan =
      (execute_plan d p c new_builder create_order (some plan) ≡ err execution_disabled)
      ⊎ ((e : BuildError E) × (execute_plan d p c new_builder create_order (some plan)
            ≡ err (build_failed e)))

  not_executed :
      (plan : TradePlan D)
      → ((so : SignableOrder D)
          → build_market d p (plan_builder d plan (new_builder plan.token_id)) ≢ ok so)
      → NotExecuted plan
  unfolding execute_plan
  not_executed plan h =
      let (e, f) = never_ok d p (plan_builder d plan (new_builder plan.token_id)) h in
      elim (Bool-cases (c.dry_run || not c.allow_execution)) [
        | inl g ↦ inl (rw g refl)
        | inr g ↦ inr (e, rw (g, f) refl)
      ]

  -- A plan to sell is never executed: if execution is enabled, the builder of market orders refuses the
  -- plan, and no order is created.
  pub sell_plan_is_refused :
      (plan : TradePlan D) → text_eq (normalize_side plan.side) sell ≡ true → NotExecuted plan
  unfolding plan_builder
  sell_plan_is_refused plan side = not_executed plan (
      build_market-sells_no_usdc d p (plan_builder d plan (new_builder plan.token_id))
        (d.through_float plan.amount_usdc) refl side)

  -- A plan whose price is positive and has more decimal places than the tick size is never executed
  -- either, to buy or to sell.
  pub precise_plan_is_refused :
      (plan : TradePlan D) (tick : D)
      → resolve_tick_size d (new_builder plan.token_id).tick_size (new_builder plan.token_id).client
        ≡ ok tick
      → d.is_positive plan.max_accepted_price ≡ true
      → decimal_places d tick < decimal_places d plan.max_accepted_price
      → NotExecuted plan
  unfolding plan_builder
  precise_plan_is_refused plan tick known positive precise = not_executed plan (
      build_market-too_precise d p (plan_builder d plan (new_builder plan.token_id)) tick known
        positive (lt→ltb _ _ precise))
