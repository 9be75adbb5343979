-- ===== src/Transport/CircuitBreaker/Invariant.antt =====
-- The well-formedness of a circuit breaker, and the edges of its state diagram.
use polymarket_go_sdk.Base.{
  ℕ, suc, ◌-◌, ◌≤◌, ◌<◌, ◌≡◌, refl, ◌⊎◌, Bool, true, false, ◌&&◌, List, [], ◌∷◌, arith,
}
use polymarket_go_sdk.Transport.CircuitBreaker.{
  CircuitState, closed, open_state, half_open, Config, Breaker, Op, before, after, resets,
  new_circuit_breaker, before_request, after_request_with_policy, reset, step, run,
}

-- `failures` is below the limit while closed and at it otherwise, and the half-open counters stay
-- within the quota, with a success short of it and no failure while probing.
pub record Inv (b : Breaker) : Type 0 where
  pub limit_pos : 0 < b.max_failures
  pub timeout_pos : 0 < b.reset_timeout
  pub quota_pos : 0 < b.half_open_max_reqs
  pub closed_below : b.state ≡ closed → b.failures < b.max_failures
  pub open_at : b.state ≡ open_state → b.failures ≡ b.max_failures
  pub half_open_at : b.state ≡ half_open → b.failures ≡ b.max_failures
  pub reqs_within : b.half_open_reqs ≤ b.half_open_max_reqs
  pub success_short : b.state ≡ half_open → b.half_open_success < b.half_open_max_reqs
  pub no_failure : b.state ≡ half_open → b.half_open_failure ≡ 0

-- A breaker made from any configuration, out-of-range values included, is well formed and closed.
pub new-Inv : (c : Config) → Inv (new_circuit_breaker c) × ((new_circuit_breaker c).state ≡ closed)
unfolding new_circuit_breaker
new-Inv c = ground arith

before_request-Inv : (b : Breaker) (now : ℕ) → Inv b → Inv (before_request b now).0
unfolding before_request
before_request-Inv b now v = ground arith

after_request-Inv :
    (b : Breaker) (now : ℕ) (failed count_failure : Bool)
    → Inv b
    → Inv (after_request_with_policy b now failed count_failure)
unfolding after_request_with_policy
after_request-Inv b now failed count_failure v = ground arith

pub step-Inv : (b : Breaker) (o : Op) → Inv b → Inv (step b o)
unfolding step reset
step-Inv b (before now) v = before_request-Inv b now v
step-Inv b (after now failed count_failure) v = after_request-Inv b now failed count_failure v
step-Inv b resets v = ground arith

run_from-Inv : (b : Breaker) (os : List Op) → Inv b → Inv (run b os)
unfolding run
run_from-Inv b [] v = v
run_from-Inv b (o ∷ os) v = run_from-Inv (step b o) os (step-Inv b o v)

-- From any configuration, after any interleaving of admissions, results and resets, the breaker is
-- well formed.
pub run-Inv : (c : Config) (os : List Op) → Inv (run (new_circuit_breaker c) os)
run-Inv c os = run_from-Inv _ os (new-Inv c).0

-- How one operation may leave the breaker `b` in the state `s`.
abbrev pub Edge : Breaker → Op → CircuitState → Type 0
Edge b (before now) s =
    (s ≡ b.state)
    ⊎ ((b.state ≡ open_state) × (b.reset_timeout < now - b.last_fail_time) × (s ≡ half_open))
Edge b (after now failed count_failure) s =
    (s ≡ b.state)
    ⊎ (((failed && count_failure) ≡ true)
        × (b.state ≡ closed)
        × (suc b.failures ≡ b.max_failures)
        × (s ≡ open_state))
    ⊎ (((failed && count_failure) ≡ true) × (b.state ≡ half_open) × (s ≡ open_state))
    ⊎ (((failed && count_failure) ≡ false)
        × (b.state ≡ half_open)
        × (suc b.half_open_success ≡ b.half_open_max_reqs)
        × (s ≡ closed))
Edge b resets s = s ≡ closed

before-Edge : (b : Breaker) (now : ℕ) → Edge b (before now) (before_request b now).0.state
unfolding before_request
before-Edge b now = ground arith

after-Edge :
    (b : Breaker) (now : ℕ) (failed count_failure : Bool)
    → Inv b
    → Edge b
        (after now failed count_failure)
        (after_request_with_policy b now failed count_failure).state
unfolding after_request_with_policy
after-Edge b now failed count_failure v = ground arith

-- Every change of state has one of the reasons above: a closed breaker opens only at the failure
-- that reaches the limit, an open one probes only after the timeout, a probing one closes only at
-- the success that fills the quota, and nothing else moves but `Reset`.
pub step-Edge : (b : Breaker) (o : Op) → Inv b → Edge b o (step b o).state
unfolding step reset
step-Edge b (before now) v = before-Edge b now
step-Edge b (after now failed count_failure) v = after-Edge b now failed count_failure v
step-Edge b resets v = refl
