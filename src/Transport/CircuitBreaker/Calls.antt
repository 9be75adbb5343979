-- ===== src/Transport/CircuitBreaker/Calls.antt =====
-- `Call` and `CallWithFailurePredicate`. The lock is free while the request runs, so the request is
-- a function on the breaker: what other goroutines do to it meanwhile, the time of its end, and its
-- error.
use polymarket_go_sdk.Base.{ℕ, ◌≡◌, Bool, true, false, Option, none, some, arith, is_some}
use polymarket_go_sdk.Transport.CircuitBreaker.{
  Breaker, Denied, before_request, after_request, after_request_with_policy, record_success,
  record_failure,
}

pub data CallError {ℓ} (E : Type ℓ) : Type ℓ where
  denied : Denied → CallError E
  failed : E → CallError E

abbrev Request {ℓ} : Type ℓ → Type ℓ
Request E = Breaker → Breaker × ℕ × Option E

module _ {ℓ} {E : Type ℓ} where
  abbrev pub to_error : Option E → Option (CallError E)
  to_error none = none
  to_error (some e) = some (failed e)

  -- `err != nil`, and the predicate, where there is one, on the error.
  abbrev pub counts : Option (E → Bool) → Option E → Bool
  counts should_count none = false
  counts none (some e) = true
  counts (some p) (some e) = p e

  unfoldable pub run_admitted :
      Request E
      → (Breaker → ℕ → Option E → Breaker)
      → Breaker × Option Denied
      → Breaker × Option (CallError E)
  run_admitted fn finish (b, some d) = (b, some (denied d))
  run_admitted fn finish (b, none) = let (c, now, err) = fn b in (finish c now err, to_error err)

  unfoldable pub call : Breaker → ℕ → Request E → Breaker × Option (CallError E)
  unfolding run_admitted
  call b now fn =
      run_admitted fn (λ c t err. after_request c t (is_some err)) (before_request b now)

  unfoldable pub call_with_failure_predicate :
      Breaker → ℕ → Request E → Option (E → Bool) → Breaker × Option (CallError E)
  unfolding run_admitted
  call_with_failure_predicate b now fn should_count =
      run_admitted fn
        (λ c t err. after_request_with_policy c t (is_some err) (counts should_count err))
        (before_request b now)

  -- What a call does, by the breaker's answer. A refused one does not run the request and reports
  -- the refusal; an admitted one reports the request's own error and records a failure exactly if
  -- there is an error that the predicate counts, and a success otherwise.
  call_cases :
      (b : Breaker) (now : ℕ) (fn : Request E) (should_count : Option (E → Bool))
      → let (a, r) = before_request b now in
        let (c, t, err) = fn a in
        let result = call_with_failure_predicate b now fn should_count in
        ((d : Denied) → r ≡ some d → result ≡ (a, some (denied d)))
        × (r ≡ none
            → (result.1 ≡ to_error err)
              × (counts should_count err ≡ true → result.0 ≡ record_failure c t)
              × (counts should_count err ≡ false → result.0 ≡ record_success c))
  unfolding call_with_failure_predicate after_request_with_policy
  call_cases b now fn should_count = ground arith

  -- `Call` is `CallWithFailurePredicate` with no predicate.
  call-eq :
      (b : Breaker) (now : ℕ) (fn : Request E)
      → call b now fn ≡ call_with_failure_predicate b now fn none
  unfolding call call_with_failure_predicate after_request
  call-eq b now fn = ground arith
