-- ===== src/Transport/CircuitBreaker.antt =====
-- pkg/transport/circuitbreaker.go. A method returns the new breaker; the mutex makes each one atomic.
-- Times are nanoseconds on the monotonic clock and arguments of the operations that read it.
pub mod Invariant
pub mod Trips
pub mod Probes
pub mod Calls
use polymarket_go_sdk.Base.{
  ℕ, suc, ◌+◌, ◌-◌, Bool, true, false, Option, none, some, List, [], ◌∷◌, leb, if◌then◌else◌,
}
use polymarket_go_sdk.Base.Int.{ℤ, pos, is_nonpos, pos_part}

pub data CircuitState : Type 0 where
  closed open_state half_open : CircuitState

pub data Denied : Type 0 where
  circuit_open too_many_requests : Denied

pub record Config : Type 0 where
  pub max_failures : ℤ
  pub reset_timeout : ℤ
  pub half_open_max_reqs : ℤ

pub record Breaker : Type 0 where
  pub max_failures : ℕ
  pub reset_timeout : ℕ
  pub half_open_max_reqs : ℕ
  pub state : CircuitState
  pub failures : ℕ
  -- Read in the open state only, which is entered by a failure that sets it.
  pub last_fail_time : ℕ
  pub half_open_reqs : ℕ
  pub half_open_success : ℕ
  pub half_open_failure : ℕ

abbrev pub default_config : Config
default_config = record {
  max_failures = pos 5;
  reset_timeout = pos 60000000000;
  half_open_max_reqs = pos 3;
}

-- `if v <= 0 { v = d }`
abbrev or_default : ℤ → ℤ → ℤ
or_default v d = if is_nonpos v then d else v

unfoldable pub new_circuit_breaker : Config → Breaker
new_circuit_breaker c = record {
  max_failures = pos_part (or_default c.max_failures default_config.max_failures);
  reset_timeout = pos_part (or_default c.reset_timeout default_config.reset_timeout);
  half_open_max_reqs = pos_part (or_default c.half_open_max_reqs default_config.half_open_max_reqs);
  state = closed;
  failures = 0;
  last_fail_time = 0;
  half_open_reqs = 0;
  half_open_success = 0;
  half_open_failure = 0;
}

-- The case StateHalfOpen of beforeRequest, which the case StateOpen falls through to.
enter_half_open : Breaker → Breaker × Option Denied
enter_half_open b =
    if leb b.half_open_max_reqs b.half_open_reqs
    then (b, some too_many_requests)
    else (record b { half_open_reqs = suc b.half_open_reqs }, none)

before_open : Breaker → ℕ → Breaker × Option Denied
unfolding enter_half_open
before_open b now =
    if leb (now - b.last_fail_time) b.reset_timeout
    then (b, some circuit_open)
    else enter_half_open (record b {
      state = half_open;
      half_open_reqs = 0;
      half_open_success = 0;
      half_open_failure = 0;
    })

before_in : CircuitState → Breaker → ℕ → Breaker × Option Denied
unfolding before_open
before_in closed b now = (b, none)
before_in open_state b now = before_open b now
before_in half_open b now = enter_half_open b

unfoldable pub before_request : Breaker → ℕ → Breaker × Option Denied
unfolding before_in
before_request b now = before_in b.state b now

failure_in : CircuitState → Breaker → Breaker
failure_in closed b =
    let counted = record b { failures = suc b.failures } in
    if leb b.max_failures (suc b.failures) then record counted { state = open_state } else counted
failure_in open_state b = b
failure_in half_open b = record b {
  half_open_failure = suc b.half_open_failure;
  state = open_state;
  failures = b.max_failures;
}

unfoldable pub record_failure : Breaker → ℕ → Breaker
unfolding failure_in
record_failure b now = failure_in b.state (record b { last_fail_time = now })

success_in : CircuitState → Breaker → Breaker
success_in closed b = record b { failures = 0 }
success_in open_state b = b
success_in half_open b =
    let counted = record b { half_open_success = suc b.half_open_success } in
    if leb b.half_open_max_reqs (suc b.half_open_success)
    then record counted { state = closed; failures = 0 }
    else counted

unfoldable pub record_success : Breaker → Breaker
unfolding success_in
record_success b = success_in b.state b

-- `failed` is `err != nil`.
unfoldable pub after_request_with_policy : Breaker → ℕ → Bool → Bool → Breaker
unfolding record_failure record_success
after_request_with_policy b now failed count_failure =
    if failed
    then (if count_failure then record_failure b now else record_success b)
    else record_success b

unfoldable pub after_request : Breaker → ℕ → Bool → Breaker
unfolding after_request_with_policy
after_request b now failed = after_request_with_policy b now failed true

unfoldable pub reset : Breaker → Breaker
reset b = record b {
  state = closed;
  failures = 0;
  half_open_reqs = 0;
  half_open_success = 0;
  half_open_failure = 0;
}

-- What goroutines that share a breaker do to it, one critical section at a time.
pub data Op : Type 0 where
  before : ℕ → Op
  after : ℕ → Bool → Bool → Op
  resets : Op

unfoldable pub step : Breaker → Op → Breaker
unfolding before_request after_request_with_policy reset
step b (before now) = (before_request b now).0
step b (after now failed count_failure) = after_request_with_policy b now failed count_failure
step b resets = reset b

unfoldable pub run : Breaker → List Op → Breaker
unfolding step
run b [] = b
run b (o ∷ os) = run (step b o) os
