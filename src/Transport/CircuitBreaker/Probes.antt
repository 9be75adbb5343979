-- ===== src/Transport/CircuitBreaker/Probes.antt =====
-- The half-open state: how many probes it admits, and how it is left.
use Prim.Native.Nat.{min}
use polymarket_go_sdk.Base.{
  ℕ, suc, ◌+◌, ◌-◌, ◌≤◌, ◌<◌, ◌≡◌, true, false, Option, none, some, List, [], ◌∷◌, arith, length,
}
use polymarket_go_sdk.Transport.CircuitBreaker.{
  closed, open_state, half_open, Breaker, Op, after, before_request, after_request_with_policy,
  step, run, Denied, circuit_open,
}
use polymarket_go_sdk.Transport.CircuitBreaker.Invariant.{Inv}

abbrev pub admitted : Option Denied → ℕ
admitted none = 1
admitted (some d) = 0

-- How many of the requests that arrive at the given times are admitted, none of them finishing.
abbrev pub admissions : Breaker → List ℕ → ℕ
admissions b [] = 0
admissions b (t ∷ ts) = admitted (before_request b t).1 + admissions (before_request b t).0 ts

half_open_admits :
    (b : Breaker) (t : ℕ)
    → b.state ≡ half_open
    → let (c, r) = before_request b t in
      (c.state ≡ half_open)
      × (c.half_open_max_reqs ≡ b.half_open_max_reqs)
      × (c.half_open_reqs ≡ b.half_open_reqs + admitted r)
      × (admitted r ≡ min 1 (b.half_open_max_reqs - b.half_open_reqs))
unfolding before_request
half_open_admits b t s = ground arith

-- While it probes and nothing finishes, the breaker admits what is left of its quota and refuses
-- all else, at any time: with no slot left it admits nothing ever again.
pub half_open_quota :
    (b : Breaker) (ts : List ℕ)
    → b.state ≡ half_open
    → admissions b ts ≡ min (length ts) (b.half_open_max_reqs - b.half_open_reqs)
half_open_quota b [] s = omega arith
half_open_quota b (t ∷ ts) s =
    let (u, v, w, x) = half_open_admits b t s in
    omega (arith, half_open_quota (before_request b t).0 ts u, v, w, x)

open_expires :
    (b : Breaker) (t : ℕ)
    → Inv b
    → b.state ≡ open_state
    → b.reset_timeout < t - b.last_fail_time
    → let (c, r) = before_request b t in
      (c.state ≡ half_open)
      × (c.half_open_max_reqs ≡ b.half_open_max_reqs)
      × (c.half_open_reqs ≡ 1)
      × (r ≡ none)
unfolding before_request
open_expires b t v s h = ground arith

-- An open breaker whose timeout has passed admits the first request and then, while nothing
-- finishes, as many in all as its quota.
open_quota :
    (b : Breaker) (t : ℕ) (ts : List ℕ)
    → Inv b
    → b.state ≡ open_state
    → b.reset_timeout < t - b.last_fail_time
    → admissions b (t ∷ ts) ≡ min (suc (length ts)) b.half_open_max_reqs
open_quota b t ts v s h =
    let (u, q, w, x) = open_expires b t v s h in
    ground (arith, half_open_quota (before_request b t).0 ts u, v.quota_pos)

-- n results at the given times, none of them a counted failure.
abbrev succeeding : List ℕ → List Op
succeeding [] = []
succeeding (t ∷ ts) = after t false true ∷ succeeding ts

success_counts :
    (b : Breaker) (t : ℕ)
    → b.state ≡ half_open
    → suc b.half_open_success < b.half_open_max_reqs
    → let c = step b (after t false true) in
      (c.state ≡ half_open)
      × (c.half_open_success ≡ suc b.half_open_success)
      × (c.half_open_max_reqs ≡ b.half_open_max_reqs)
unfolding step after_request_with_policy
success_counts b t s h = ground arith

success_closes :
    (b : Breaker) (t : ℕ)
    → b.state ≡ half_open
    → suc b.half_open_success ≡ b.half_open_max_reqs
    → let c = step b (after t false true) in (c.state ≡ closed) × (c.failures ≡ 0)
unfolding step after_request_with_policy
success_closes b t s h = ground arith

-- A probing breaker recovers: the successes that its quota still wants close it and clear the
-- failures, and one fewer leaves it probing.
probes_recover :
    (b : Breaker) (ts : List ℕ) (t : ℕ)
    → b.state ≡ half_open
    → suc (b.half_open_success + length ts) ≡ b.half_open_max_reqs
    → ((run b (succeeding ts)).state ≡ half_open)
      × ((run b (succeeding (t ∷ ts))).state ≡ closed)
      × ((run b (succeeding (t ∷ ts))).failures ≡ 0)
unfolding run
probes_recover b [] t s h = let (u, v) = success_closes b t s (omega arith) in (s, u, v)
probes_recover b (r ∷ ts) t s h =
    let (u, v, w) = success_counts b r s (omega arith) in
    let (u', v', w') = success_counts b t s (omega arith) in
    let (x, y, z) = probes_recover (step b (after r false true)) ts r u (omega arith) in
    let (x', y', z') = probes_recover (step b (after t false true)) ts r u' (omega arith) in
    (x, y', z')

-- One counted failure while probing reopens the breaker, with the count of failures at the limit
-- and the clock of the timeout restarted; so the next admission waits for the timeout again.
probe_failure_reopens :
    (b : Breaker) (now later : ℕ)
    → b.state ≡ half_open
    → let c = after_request_with_policy b now true true in
      (c.state ≡ open_state)
      × (c.failures ≡ b.max_failures)
      × (later - now ≤ b.reset_timeout → before_request c later ≡ (c, some circuit_open))
unfolding after_request_with_policy before_request
probe_failure_reopens b now later s = ground arith
