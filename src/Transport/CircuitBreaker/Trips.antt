-- ===== src/Transport/CircuitBreaker/Trips.antt =====
-- When a closed breaker opens, and how long an open one refuses.
use polymarket_go_sdk.Base.{
  ℕ, suc, ◌+◌, ◌-◌, ◌≤◌, ◌<◌, ◌≡◌, refl, true, none, some, List, [], ◌∷◌, arith, ◌++◌, length, ◌↔◌,
  ◌≢◌,
}
use polymarket_go_sdk.Transport.CircuitBreaker.{
  closed, open_state, half_open, Breaker, Op, before, after, before_request,
  after_request_with_policy, step, run, circuit_open, too_many_requests,
}
use polymarket_go_sdk.Transport.CircuitBreaker.Invariant.{Inv}

-- One failing request, admitted and finished at the given times.
abbrev failing : List ℕ → List Op
failing [] = []
failing (t ∷ ts) = before t ∷ after t true true ∷ failing ts

abbrev last_or : ℕ → List ℕ → ℕ
last_or d [] = d
last_or d (t ∷ ts) = last_or t ts

closed_failure :
    (b : Breaker) (t : ℕ)
    → b.state ≡ closed
    → suc b.failures < b.max_failures
    → let c = step (step b (before t)) (after t true true) in
      (c.state ≡ closed) × (c.failures ≡ suc b.failures) × (c.max_failures ≡ b.max_failures)
unfolding step before_request after_request_with_policy
closed_failure b t s h = ground arith

closed_last_failure :
    (b : Breaker) (t : ℕ)
    → b.state ≡ closed
    → suc b.failures ≡ b.max_failures
    → let c = step (step b (before t)) (after t true true) in
      (c.state ≡ open_state) × (c.last_fail_time ≡ t)
unfolding step before_request after_request_with_policy
closed_last_failure b t s h = ground arith

-- A closed breaker bears failures short of its limit: it stays closed and has counted them.
failures_below :
    (b : Breaker) (ts : List ℕ)
    → b.state ≡ closed
    → b.failures + length ts < b.max_failures
    → ((run b (failing ts)).state ≡ closed)
      × ((run b (failing ts)).failures ≡ b.failures + length ts)
      × ((run b (failing ts)).max_failures ≡ b.max_failures)
unfolding run
failures_below b [] s h = ground arith
failures_below b (t ∷ ts) s h =
    let (s', f', m') = closed_failure b t s (omega arith) in
    let (u, v, w) =
      failures_below (step (step b (before t)) (after t true true)) ts s' (omega arith) in
    (u, omega arith, omega arith)

run-append : (b : Breaker) (os ps : List Op) → run b (os ++ ps) ≡ run (run b os) ps
unfolding run
run-append b [] ps = refl
run-append b (o ∷ os) ps = run-append (step b o) os ps

-- A breaker opens at exactly the limit: from a closed breaker whose last result was a success,
-- fewer consecutive failures than `MaxFailures` leave it closed, and the failure that reaches the
-- limit opens it, with that failure's time.
opens_at_limit :
    (b : Breaker) (ts : List ℕ) (t : ℕ)
    → b.state ≡ closed
    → b.failures ≡ 0
    → suc (length ts) ≡ b.max_failures
    → ((run b (failing ts)).state ≡ closed)
      × ((run b (failing ts ++ before t ∷ after t true true ∷ [])).state ≡ open_state)
      × ((run b (failing ts ++ before t ∷ after t true true ∷ [])).last_fail_time ≡ t)
unfolding run
opens_at_limit b ts t s f h =
    let (u, v, w) = failures_below b ts s (omega arith) in
    let (x, y) = closed_last_failure (run b (failing ts)) t u (omega arith) in
    (
      u,
      rw (run-append b (failing ts) (before t ∷ after t true true ∷ [])) x,
      rw (run-append b (failing ts) (before t ∷ after t true true ∷ [])) y,
    )

-- The admission test of a breaker, for every state: exactly when it refuses with which error, and
-- that a refusal leaves the breaker as it was.
before_request_refuses :
    (b : Breaker) (now : ℕ)
    → Inv b
    → (((before_request b now).1 ≡ some circuit_open)
        ↔ ((b.state ≡ open_state) × (now - b.last_fail_time ≤ b.reset_timeout)))
      × (((before_request b now).1 ≡ some too_many_requests)
          ↔ ((b.state ≡ half_open) × (b.half_open_reqs ≡ b.half_open_max_reqs)))
      × ((before_request b now).1 ≢ none → (before_request b now).0 ≡ b)
unfolding before_request
before_request_refuses b now v = ground arith
