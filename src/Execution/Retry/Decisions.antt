-- ===== src/Execution/Retry/Decisions.antt =====
-- When a failure is retried.
use polymarket_go_sdk.Base.{◌≡◌, true, false, ◌||◌, ◌↔◌, List, [], ◌∷◌, arith}
use polymarket_go_sdk.Base.Int.{ℤ, pos, ltb_ℤ}
use polymarket_go_sdk.Execution.Retry.Errors.{
  Node, any, is_canceled, is_deadline, is_eof, is_reset, is_unknown_network, is_op_error,
  first_timeout, is_retryable_error,
}
use polymarket_go_sdk.Execution.Retry.{
  RetryPolicy, with_defaults, clamp_attempt, compute_backoff, is_retryable_status_code, decide,
}
use polymarket_go_sdk.Execution.Retry.Backoff.{with_defaults-IsNormal, with_defaults_idem}

-- A retryable error is one whose chain holds no context.Canceled, and that times out, ends a stream,
-- or comes from a connection that was reset, refused or broken, an unknown network or a net.OpError.
is_retryable_error_iff :
    (err : List Node)
    → (is_retryable_error err ≡ true) ↔ (
        (any is_canceled err ≡ false)
        × ((any is_deadline err
              || any is_eof err
              || any is_reset err
              || any is_unknown_network err
              || first_timeout err
              || any is_op_error err)
            ≡ true))
unfolding is_retryable_error
is_retryable_error_iff [] = ground arith
is_retryable_error_iff (x ∷ xs) = ground arith

compute_backoff-with_defaults :
    (p : RetryPolicy) (a : ℤ) → compute_backoff (with_defaults p) a ≡ compute_backoff p a
unfolding compute_backoff
compute_backoff-with_defaults p a =
    rw (with_defaults_idem (with_defaults p) (with_defaults-IsNormal p))

-- Decide retries exactly the failures before the last attempt of the policy (its defaults put in)
-- that have a retryable error or a retryable status, with the backoff of that attempt as the delay;
-- every other decision has no delay.
pub decide_iff :
    (p : RetryPolicy) (attempt : ℤ) (err : List Node) (status : ℤ)
    → let d = decide p attempt err status in
      ((d.retry ≡ true) ↔ (
        (ltb_ℤ (clamp_attempt attempt) (with_defaults p).max_attempts ≡ true)
        × ((is_retryable_error err || is_retryable_status_code status) ≡ true)))
      × (d.retry ≡ true → d.delay ≡ compute_backoff p (clamp_attempt attempt))
      × (d.retry ≡ false → d.delay ≡ pos 0)
unfolding decide
decide_iff p attempt err status =
    ground (arith, compute_backoff-with_defaults p (clamp_attempt attempt))
