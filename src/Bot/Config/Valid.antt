-- ===== src/Bot/Config/Valid.antt =====
-- What the checks of a configuration keep, whatever the environment has.
use polymarket_go_sdk.Base.{
  ◌+◌, ◌≡◌, refl, inl, inr, Bool, true, false, Option, none, some, arith, is_empty, Bool-cases,
  if◌then◌else◌,
}
use polymarket_go_sdk.Base.Int.{ℤ, pos, negsuc, is_nonpos, ltb_ℤ}
use polymarket_go_sdk.Base.Text.{Text, trim_space}
use polymarket_go_sdk.Base.Result.{ok}
use polymarket_go_sdk.Decimal.{Decimals, decimal_places}
use polymarket_go_sdk.Decimal.Laws.{Laws}
use polymarket_go_sdk.Bot.{BotConfig}
use polymarket_go_sdk.Bot.Config.{
  zero_decimal, validate, merge_env, new_engine, env_int, env_decimal,
}

-- The checks, as one condition.
abbrev pub IsValid {ℓ} : {D : Type ℓ} → Decimals D → BotConfig D → Type 0
IsValid d c =
    (is_nonpos c.scan_limit ≡ false)
    × (is_nonpos c.top_n ≡ false)
    × (d.at_most c.default_amount_usdc (zero_decimal d) ≡ false)
    × (d.at_most c.max_per_trade_usdc (zero_decimal d) ≡ false)
    × (d.less_than c.max_daily_loss_usdc (zero_decimal d) ≡ false)
    × (is_nonpos c.max_open_trades ≡ false)
    × (d.at_most c.max_slippage_bps (zero_decimal d) ≡ false)
    × (d.less_than c.min_confidence_bps (zero_decimal d) ≡ false)

module _ {ℓ} {D : Type ℓ} (d : Decimals D) where
  validate-IsValid : (c : BotConfig D) → validate d c ≡ ok tt → IsValid d c
  unfolding validate
  validate-IsValid c h = ground arith

  IsValid-validate : (c : BotConfig D) → IsValid d c → validate d c ≡ ok tt
  unfolding validate
  IsValid-validate c h = ground arith

  env_number :
      (r : Option ℤ) (absent : Bool) (was : ℤ)
      → is_nonpos was ≡ false
      → is_nonpos (
          if absent
          then was
          else elim r as (λ x. ℤ) [ none ↦ was | some n ↦ if ltb_ℤ (pos 0) n then n else was ])
        ≡ false
  env_number r true was h = h
  env_number none false was h = h
  env_number (some (pos n)) false was h = ground arith
  env_number (some (negsuc n)) false was h = ground arith

  env_int-positive :
      (getenv : Text → Text) (atoi : Text → Option ℤ) (name : Text) (was : ℤ)
      → is_nonpos was ≡ false
      → is_nonpos (env_int d getenv atoi name was) ≡ false
  unfolding env_int
  env_int-positive getenv atoi name was h =
      env_number (atoi (trim_space (getenv name))) (is_empty (trim_space (getenv name))) was h

module _ {ℓ} {D : Type ℓ} (d : Decimals D) (laws : Laws d) where
  greater-not_at_most : (x y : D) → d.greater_than x y ≡ true → d.at_most x y ≡ false
  greater-not_at_most x y h =
      let k = decimal_places d x + decimal_places d y in
      let greater = laws.greater_than-units k x y (omega arith) (omega arith) in
      let most = laws.at_most-units k x y (omega arith) (omega arith) in ground arith

  env_amount :
      (r : Option D) (absent : Bool) (was : D)
      → d.at_most was (zero_decimal d) ≡ false
      → d.at_most
          (if absent then was else elim r as (λ x. D) [
            | none ↦ was
            | some x ↦ if d.greater_than x (zero_decimal d) then x else was
          ])
          (zero_decimal d)
        ≡ false
  env_amount r true was h = h
  env_amount none false was h = h
  env_amount (some x) false was h = elim (Bool-cases (d.greater_than x (zero_decimal d))) [
    | inl e ↦ rw e (greater-not_at_most x (zero_decimal d) e)
    | inr e ↦ rw e h
  ]

  env_decimal-positive :
      (getenv : Text → Text) (atoi : Text → Option ℤ) (name : Text) (was : D)
      → d.at_most was (zero_decimal d) ≡ false
      → d.at_most (env_decimal d getenv atoi name was) (zero_decimal d) ≡ false
  unfolding env_decimal
  env_decimal-positive getenv atoi name was h =
      env_amount (d.parse (trim_space (getenv name))) (is_empty (trim_space (getenv name))) was h

  merge_env-valid :
      (getenv : Text → Text) (atoi : Text → Option ℤ) (c : BotConfig D)
      → validate d c ≡ ok tt
      → validate d (merge_env d getenv atoi c) ≡ ok tt
  unfolding merge_env
  merge_env-valid getenv atoi c h =
      let v = validate-IsValid d c h in
      IsValid-validate d (merge_env d getenv atoi c) (
        env_int-positive d getenv atoi _ c.scan_limit v.0,
        env_int-positive d getenv atoi _ c.top_n v.1,
        env_decimal-positive getenv atoi _ c.default_amount_usdc v.2,
        env_decimal-positive getenv atoi _ c.max_per_trade_usdc v.3,
        v.4,
        v.5,
        env_decimal-positive getenv atoi _ c.max_slippage_bps v.6,
        v.7,
      )

  -- Of a configuration that passes the checks an engine is always made, whatever the environment says,
  -- and the configuration that it has, which the environment changed, passes the checks too.
  pub new_engine-valid :
      (getenv : Text → Text) (atoi : Text → Option ℤ) (c : BotConfig D)
      → validate d c ≡ ok tt
      → (new_engine d getenv atoi c ≡ ok (merge_env d getenv atoi c))
        × (validate d (merge_env d getenv atoi c) ≡ ok tt)
  unfolding new_engine
  new_engine-valid getenv atoi c h =
      let valid = merge_env-valid getenv atoi c h in (rw valid refl, valid)
