-- ===== src/Bot/Examples.antt =====
-- The theorems on the bot at concrete inputs.
use polymarket_go_sdk.Base.{ℕ, ◌≡◌, ◌≢◌, ◌⊎◌, refl, true, false, none, some, List, [], ◌∷◌, arith}
use mathlib.Core.List.{Perm}
use mathlib.Core.List.Perm
use polymarket_go_sdk.Base.Int.{pos}
use polymarket_go_sdk.Base.Text.{
  Text, codes, text_eq, to_upper, upper, to_lower, lower, trim_space, trim_left, is_space,
}
use polymarket_go_sdk.Base.Result.{Result, ok, err}
use polymarket_go_sdk.Decimal.Fixed.{
  Fixed, fixed, exponent_of, below, not_above, scale, divide, units_of, sum_of, difference, product,
}
use polymarket_go_sdk.Decimal.Fixed.Lawful.{fixed_laws}
use polymarket_go_sdk.Clob.Orders.{OrderBuilder, SignableOrder, Book, normalize_side}
use polymarket_go_sdk.Clob.Orders.Setters.{new_order_builder}
use polymarket_go_sdk.Clob.Orders.Build.{Parser}
use polymarket_go_sdk.Clob.Orders.Posting.{PostError}
use polymarket_go_sdk.Bot.{BotConfig, Opportunity, TradePlan}
use polymarket_go_sdk.Bot.Config.{default_bot_config, validate, merge_env, new_engine}
use polymarket_go_sdk.Bot.Config.Valid.{new_engine-valid}
use polymarket_go_sdk.Bot.Scan.{Market}
use polymarket_go_sdk.Bot.Plan.{
  RiskSnapshot, no_reason, exceeds_cap, validate_plan_against_risk, build_trade_plan,
}
use polymarket_go_sdk.Bot.Plan.Limits.{plan_within_cap}
use polymarket_go_sdk.Bot.Plan.Sells.{NotExecuted, sell_plan_is_refused, precise_plan_is_refused}
use polymarket_go_sdk.Clob.Orders.Resolve.{resolve_tick_size}

abbrev dec : ℕ → ℕ → Fixed
dec n p = record { value = pos n; places = p }

abbrev config : BotConfig Fixed
config = default_bot_config fixed (dec 8 2)

-- An environment that sets one amount.
abbrev amount_env : Text → Text
amount_env name = elim (text_eq name (codes "BOT_DEFAULT_AMOUNT_USDC")) [
  | true ↦ codes " 40"
  | false ↦ []
]

config_valid : validate fixed config ≡ ok tt
unfolding validate default_bot_config not_above below units_of scale
config_valid = refl

new_engine-valid_example :
    new_engine fixed amount_env (λ t. none) config
    ≡ ok (merge_env fixed amount_env (λ t. none) config)
new_engine-valid_example =
    (new_engine-valid fixed fixed_laws amount_env (λ t. none) config config_valid).0

abbrev market : Market
market = record {
  id = codes "m";
  question = codes "q";
  tokens = record { token_id = codes "t"; outcome = codes "Yes" } ∷ [];
}

-- Bids for 900 shares at 0.4 and asks for 100 at 0.5.
abbrev book_of : Text → Result ℕ Book
book_of t = ok (record {
  bids = record { price = codes "0.4"; size = codes "900" } ∷ [];
  asks = record { price = codes "0.5"; size = codes "100" } ∷ [];
})

abbrev best : Opportunity Fixed
best = record {
  market_id = codes "m";
  question = codes "q";
  token_id = codes "t";
  outcome = codes "Yes";
  bid = dec 4 1;
  ask = dec 5 1;
  mid = dec 4500000000000000 16;
  spread = dec 1 1;
  spread_bps = dec 22222222222222220000 16;
  bid_depth = dec 900 0;
  ask_depth = dec 100 0;
  imbalance = dec 8000000000000000 16;
  signal_score = dec 17777777777777776000000000000000000000 32;
  recommended = codes "BUY";
  confidence_bps = dec 17777777777777776000000000000000000000 32;
}

abbrev buy_plan : TradePlan Fixed
buy_plan = record {
  token_id = codes "t";
  side = codes "BUY";
  amount_usdc = dec 25 0;
  max_accepted_price = dec 4511250000000000 16;
  expected_mid = dec 4500000000000000 16;
  max_slippage_bps = dec 25 0;
  opportunity_source = best;
}

buy_planned : build_trade_plan fixed config (dec 1 2) best ≡ ok buy_plan
unfolding build_trade_plan default_bot_config below not_above units_of scale divide sum_of
    difference product to_upper upper to_lower lower text_eq
buy_planned = refl

abbrev free_to_trade : RiskSnapshot Fixed
free_to_trade = record {
  open_orders = 0;
  daily_pnl_usdc = dec 0 0;
  can_trade = true;
  reason = no_reason;
}

plan_within_cap_example :
    (not_above (dec 25 0) (dec 0 0) ≡ false)
    × ((dec 25 0 ≡ dec 25 0) ⊎ (dec 25 0 ≡ dec 100 0))
    × (validate_plan_against_risk fixed config (some buy_plan) free_to_trade ≢ err exceeds_cap)
unfolding default_bot_config
plan_within_cap_example =
    plan_within_cap fixed fixed_laws config (dec 1 2) best buy_plan free_to_trade buy_planned

abbrev sell_plan : TradePlan Fixed
sell_plan = record {
  token_id = codes "t";
  side = codes "SELL";
  amount_usdc = dec 25 0;
  max_accepted_price = dec 44 2;
  expected_mid = dec 45 2;
  max_slippage_bps = dec 25 0;
  opportunity_source = best;
}

abbrev fresh : Text → OrderBuilder Fixed ℕ
fresh token = new_order_builder fixed none none none (ok (pos 42))

abbrev live_config : BotConfig Fixed
live_config = record config { dry_run = false; allow_execution = true }

abbrev no_parser : Parser
no_parser = record { big_int = λ t. none }

abbrev accepting : SignableOrder Fixed → Result (PostError ℕ) ℕ
accepting so = ok 1

sell_plan_is_refused_example : NotExecuted fixed no_parser live_config fresh accepting sell_plan
unfolding text_eq normalize_side to_upper upper trim_space trim_left is_space
sell_plan_is_refused_example =
    sell_plan_is_refused fixed no_parser live_config fresh accepting sell_plan refl

abbrev cent_builder : Text → OrderBuilder Fixed ℕ
cent_builder token = record (fresh token) { tick_size = some (dec 1 2) }

cent_known :
    resolve_tick_size fixed (cent_builder (codes "t")).tick_size (cent_builder (codes "t")).client
    ≡ ok (dec 1 2)
unfolding resolve_tick_size new_order_builder
cent_known = refl

precise_plan_is_refused_example :
    NotExecuted fixed no_parser live_config cent_builder accepting buy_plan
unfolding exponent_of
precise_plan_is_refused_example =
    precise_plan_is_refused fixed no_parser live_config cent_builder accepting buy_plan (dec 1 2)
      cent_known refl (omega arith)
