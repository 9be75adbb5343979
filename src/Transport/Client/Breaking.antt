-- ===== src/Transport/Client/Breaking.antt =====
-- Call: the circuit breaker around the rate limiter and doCall, and the errors that the breaker
-- counts.
use polymarket_go_sdk.Base.{ℕ, Bool, false, Option, none, some, List, [], ◌||◌, ◌&&◌, not, leb, ltb}
use polymarket_go_sdk.Transport.CircuitBreaker.{Breaker, Denied, before_request}
use polymarket_go_sdk.Transport.CircuitBreaker.Calls.{
  CallError, to_error, call_with_failure_predicate,
}
use polymarket_go_sdk.Transport.Client.{
  Body, Client, Event, Failure, marshal_failed, context_error, create_failed, sign_failed,
  builder_failed, request_failed, read_failed, unmarshal_failed, limiter_failed, time_failed,
  http_status, api_error, Job, TimeFailure, time_create, time_request, time_read, time_status,
  time_invalid, World,
}
use polymarket_go_sdk.Transport.Client.Attempts.{do_call}

-- What errors.Is and errors.As find in the chain of an error: context.Canceled, or
-- context.DeadlineExceeded, a *types.Error and its status, a StatusCode method and its result, a
-- net.Error and whether it timed out.
pub record Facts : Type 0 where
  pub canceled : Bool
  pub deadline : Bool
  pub api_status : Option ℕ
  pub status_code : Option ℕ
  pub timeout : Option Bool

abbrev pub no_facts : Facts
no_facts = record {
  canceled = false;
  deadline = false;
  api_status = none;
  status_code = none;
  timeout = none;
}

-- 400 <= status && status < 500
abbrev is_client_error : Option ℕ → Bool
is_client_error none = false
is_client_error (some s) = leb 400 s && ltb s 500

abbrev is_timeout : Option Bool → Bool
is_timeout none = false
is_timeout (some b) = b

module _ {ℓ} {E : Type ℓ} (facts : E → Facts) where
  abbrev time_facts : TimeFailure E → Facts
  time_facts (time_create e) = facts e
  time_facts (time_request e) = facts e
  time_facts (time_read e) = facts e
  time_facts (time_status s) = no_facts
  time_facts time_invalid = no_facts

  -- Each error of doCall wraps its cause.
  unfoldable pub failure_facts : Failure E → Facts
  failure_facts (marshal_failed e) = facts e
  failure_facts (context_error e) = facts e
  failure_facts (create_failed e) = facts e
  failure_facts (sign_failed e) = facts e
  failure_facts (builder_failed e) = facts e
  failure_facts (request_failed e) = facts e
  failure_facts (read_failed e) = facts e
  failure_facts (unmarshal_failed e) = facts e
  failure_facts (limiter_failed e) = facts e
  failure_facts (time_failed t) = time_facts t
  failure_facts (http_status s body) = record no_facts { status_code = some s }
  failure_facts (api_error a) = record no_facts { api_status = some a.status }

  -- shouldCountCircuitBreakerFailure of an error that is not nil.
  unfoldable pub should_count : Failure E → Bool
  unfolding failure_facts
  should_count f =
      let x = failure_facts f in
      not (
        x.canceled
        || x.deadline
        || is_client_error x.api_status
        || is_client_error x.status_code
        || is_timeout x.timeout)

-- What Call leaves and returns: the breaker, the log, the error, and what dest gets.
pub record Reply {ℓ κ} (E : Type ℓ) (D : Type κ) : Type (ℓ ⊔ κ) where
  pub breaker : Option Breaker
  pub log : List Event
  pub error : Option (CallError (Failure E))
  pub dest : Option D

-- Other goroutines' changes of the breaker while the request runs, and the time of its end.
pub record Meanwhile : Type 0 where
  pub others : Breaker → Breaker
  pub finish : ℕ

module _ {ℓ κ μ} {E : Type ℓ} {D : Type κ} {V : Type μ} (w : World E D V) (c : Client E) where
  -- The request that the breaker guards. `limit` is what the rate limiter's Wait returns, where
  -- there is one.
  unfoldable pub limited_call :
      Option (Option E) → Job → Body V → List Event × Option (Failure E) × Option D
  limited_call none j body = do_call w c j body
  limited_call (some none) j body = do_call w c j body
  limited_call (some (some e)) j body = ([], some (limiter_failed e), none)

  unfoldable pub reply_of :
      Option Denied
      → List Event × Option (Failure E) × Option D
      → Breaker × Option (CallError (Failure E))
      → Reply E D
  reply_of none (log, e, d) (b, error) = record {
    breaker = some b;
    log = log;
    error = error;
    dest = d;
  }
  reply_of (some x) (log, e, d) (b, error) = record {
    breaker = some b;
    log = [];
    error = error;
    dest = none;
  }

  unfoldable pub guarded :
      (E → Facts) → ℕ → Meanwhile → Breaker → List Event × Option (Failure E) × Option D → Reply E D
  unfolding reply_of
  guarded facts now m b (log, e, d) =
      reply_of (before_request b now).1 (log, e, d)
        (call_with_failure_predicate b now (λ a. (m.others a, m.finish, e))
          (some (should_count facts)))

  unfoldable pub unguarded : List Event × Option (Failure E) × Option D → Reply E D
  unguarded (log, e, d) = record { breaker = none; log = log; error = to_error e; dest = d }

  unfoldable pub call_client :
      (E → Facts) → Option Breaker → ℕ → Meanwhile → Option (Option E) → Job → Body V → Reply E D
  unfolding guarded unguarded
  call_client facts none now m limit j body = unguarded (limited_call limit j body)
  call_client facts (some b) now m limit j body = guarded facts now m b (limited_call limit j body)
