-- ===== src/Transport/Examples.antt =====
-- The theorems on pkg/transport at concrete inputs.
use polymarket_go_sdk.Base.{◌+◌, ◌*◌, ◌≤◌, ◌≡◌, refl, true, false, [], ◌∷◌, arith}
use polymarket_go_sdk.Transport.CircuitBreaker.{
  open_state, half_open, Breaker, before, after, resets, default_config, new_circuit_breaker, step,
  run,
}
use polymarket_go_sdk.Transport.CircuitBreaker.Invariant.{Inv, run-Inv, Edge, step-Edge}
use polymarket_go_sdk.Transport.RateLimit.{
  Limiter, token, new_rate_limiter, wait_round, sleep, granted, wait, stop, stopped_error, timer,
}
use polymarket_go_sdk.Transport.RateLimit

abbrev probing : Breaker
probing = record {
  max_failures = 5;
  reset_timeout = 60;
  half_open_max_reqs = 3;
  state = half_open;
  failures = 5;
  last_fail_time = 10;
  half_open_reqs = 1;
  half_open_success = 0;
  half_open_failure = 0;
}

abbrev tripped : Breaker
tripped = record probing { state = open_state }

tripped-Inv : Inv tripped
tripped-Inv = ground arith

run-Inv_example :
    Inv (run (new_circuit_breaker default_config) (before 3 ∷ after 4 true true ∷ resets ∷ []))
run-Inv_example = run-Inv default_config (before 3 ∷ after 4 true true ∷ resets ∷ [])

step-Edge_example : Edge tripped (before 80) (step tripped (before 80)).state
step-Edge_example = step-Edge tripped (before 80) tripped-Inv

abbrev bucket : Limiter
bucket = record {
  capacity = 2;
  tokens_per_sec = 2;
  tokens = 300000000;
  last_refill = 0;
  stopped = false;
}

bucket-Inv : RateLimit.Bounds.Inv bucket
bucket-Inv = ground arith

run_rate_example :
    (RateLimit.run bucket (RateLimit.tries 5 ∷ RateLimit.rounds 500000000 ∷ [])).1 * token
    ≤ 2 * token + 499999999 * 2
run_rate_example =
    RateLimit.Bounds.run_rate bucket 1 (RateLimit.tries 5 ∷ RateLimit.rounds 500000000 ∷ [])
      bucket-Inv (omega arith) (omega arith)

stop_ends_example : (wait bucket 0 (timer stop 350000001 ∷ [])).1 ≡ stopped_error
unfolding wait_round RateLimit.refill_tokens
stop_ends_example = (RateLimit.Waiting.stop_ends bucket [] 5 0 350000001 350000000 [] refl).2
