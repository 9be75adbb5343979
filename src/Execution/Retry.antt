-- ===== src/Execution/Retry.antt =====
-- pkg/execution/retry_policy.go. A time.Duration is an int64 of nanoseconds and wraps.
pub mod Errors
pub mod Backoff
pub mod Decisions
use polymarket_go_sdk.Base.{
  ℕ, zero, suc, ◌+◌, ◌-◌, Bool, true, false, ◌||◌, ◌&&◌, List, [], ◌∷◌, leb, ltb, ◌==◌,
  if◌then◌else◌,
}
use polymarket_go_sdk.Base.Int.{ℤ, pos, negsuc, is_nonpos, pos_part, ltb_ℤ, leb_ℤ, double, wrap64}
use Errors.{Node, is_retryable_error}

pub record RetryPolicy : Type 0 where
  pub max_attempts : ℤ
  pub base_backoff : ℤ
  pub max_backoff : ℤ

pub data Reason : Type 0 where
  max_attempts_reached retryable_error retryable_status non_retryable : Reason

pub record RetryDecision : Type 0 where
  pub retry : Bool
  pub delay : ℤ
  pub reason : Reason

abbrev pub default_retry_policy : RetryPolicy
default_retry_policy = record {
  max_attempts = pos 3;
  base_backoff = pos 150000000;
  max_backoff = pos 2000000000;
}

with_max_backoff : RetryPolicy → RetryPolicy
with_max_backoff p =
    if ltb_ℤ p.max_backoff p.base_backoff then record p { max_backoff = p.base_backoff } else p

unfoldable pub with_defaults : RetryPolicy → RetryPolicy
unfolding with_max_backoff
with_defaults p = with_max_backoff (record {
  max_attempts =
      if ltb_ℤ p.max_attempts (pos 2) then default_retry_policy.max_attempts else p.max_attempts;
  base_backoff =
      if is_nonpos p.base_backoff then default_retry_policy.base_backoff else p.base_backoff;
  max_backoff = if is_nonpos p.max_backoff then default_retry_policy.max_backoff else p.max_backoff;
})

-- `if attempt <= 0 { attempt = 1 }`
abbrev pub clamp_attempt : ℤ → ℤ
clamp_attempt a = if is_nonpos a then pos 1 else a

-- The loop of ComputeBackoff with n rounds left.
unfoldable pub backoff_loop : ℕ → ℤ → ℤ → ℤ
backoff_loop zero delay limit = delay
backoff_loop (suc n) delay limit = elim (leb_ℤ limit delay) [
  | true ↦ limit
  | false ↦ elim (ltb_ℤ limit (wrap64 (double delay))) [
    | true ↦ limit
    | false ↦ backoff_loop n (wrap64 (double delay)) limit
  ]
]

unfoldable pub compute_backoff : RetryPolicy → ℤ → ℤ
compute_backoff p attempt =
    let n = with_defaults p in
    backoff_loop (pos_part (clamp_attempt attempt) - 1) n.base_backoff n.max_backoff

unfoldable pub is_retryable_status_code : ℤ → Bool
is_retryable_status_code (pos c) = c == 408 || (leb 500 c && leb c 599)
is_retryable_status_code (negsuc c) = false

abbrev refuse : Reason → RetryDecision
refuse r = record { retry = false; delay = pos 0; reason = r }

-- An error is the chain that errors.Is and errors.As walk; a nil error is the empty one.
unfoldable pub decide : RetryPolicy → ℤ → List Node → ℤ → RetryDecision
decide p attempt err status_code =
    let n = with_defaults p in
    let a = clamp_attempt attempt in
    if leb_ℤ n.max_attempts a
    then refuse max_attempts_reached
    else if is_retryable_error err
    then record { retry = true; delay = compute_backoff n a; reason = retryable_error }
    else if is_retryable_status_code status_code
    then record { retry = true; delay = compute_backoff n a; reason = retryable_status }
    else refuse non_retryable
