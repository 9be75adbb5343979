-- ===== src/Transport/RateLimit/Bounds.antt =====
-- How many tokens a limiter gives out.
use polymarket_go_sdk.Base.{
  ℕ, ◌+◌, ◌-◌, ◌*◌, ◌≤◌, ◌<◌, ◌≡◌, refl, ◌⊎◌, inl, true, List, [], ◌∷◌, arith,
}
use polymarket_go_sdk.Base.Int.{ℤ}
use polymarket_go_sdk.Transport.RateLimit.{
  token, Limiter, new_rate_limiter, refill_tokens, stop, Op, tries, rounds, asks, stops, time_of,
  step, run,
}

-- The bucket is never over its capacity, which holds a token at least, and fills at its rate.
pub record Inv (l : Limiter) : Type 0 where
  pub capacity_pos : 0 < l.capacity
  pub rate_capacity : l.tokens_per_sec ≡ l.capacity
  pub within : l.tokens ≤ l.capacity * token

pub new-Inv : (rps : ℤ) (now : ℕ) → Inv (new_rate_limiter rps now)
unfolding new_rate_limiter
new-Inv rps now = ground arith

refill-Inv : (l : Limiter) (now : ℕ) → Inv l → Inv (refill_tokens l now)
unfolding refill_tokens
refill-Inv l now v = ground arith

refill_rest :
    (l : Limiter) (now : ℕ)
    → let r = refill_tokens l now in
      (r.capacity ≡ l.capacity) × (r.tokens_per_sec ≡ l.tokens_per_sec) × (r.stopped ≡ l.stopped)
unfolding refill_tokens
refill_rest l now = ground arith

pub step-Inv : (l : Limiter) (o : Op) → Inv l → Inv (step l o).0
unfolding step
step-Inv l (tries t) v = ground (arith, refill-Inv l t v)
step-Inv l (rounds t) v = ground (arith, refill-Inv l t v)
step-Inv l (asks t) v = refill-Inv l t v
step-Inv l (stops t) v = ground arith

-- The times of the operations do not fall.
abbrev Ordered : ℕ → List Op → Type 0
Ordered t [] = Unit {0}
Ordered t (o ∷ os) = (t ≤ time_of o) × Ordered (time_of o) os

abbrev last_time : ℕ → List Op → ℕ
last_time t [] = t
last_time t (o ∷ os) = last_time (time_of o) os

elapsed : (a b c : ℕ) → a ≤ b → (b - a) * c + a * c ≡ b * c
elapsed a b c h = grind arith

-- The tokens at hand at a time, and how they grow until a later one.
refill_later :
    (l : Limiter) (t u : ℕ)
    → Inv l
    → l.last_refill ≤ t
    → t ≤ u
    → ((refill_tokens l u).tokens ≤ (refill_tokens l t).tokens + (u - t) * l.capacity)
      × (l.tokens ≤ (refill_tokens l t).tokens)
      × ((refill_tokens l u).last_refill ≤ u)
unfolding refill_tokens
refill_later l t u v h k = rw v.rate_capacity (
    ground (
      arith,
      elapsed l.last_refill t l.capacity h,
      elapsed l.last_refill u l.capacity (omega arith),
      elapsed t u l.capacity k,
    ))

-- A bucket that was refilled at a time is not filled again at that time.
refill_again :
    (l : Limiter) (u : ℕ)
    → Inv l
    → (l.stopped ≡ true) ⊎ (l.last_refill ≡ u)
    → (refill_tokens l u).tokens ≡ l.tokens
unfolding refill_tokens
refill_again l u v h = ground arith

refill_mark :
    (l : Limiter) (u : ℕ)
    → ((refill_tokens l u).stopped ≡ true) ⊎ ((refill_tokens l u).last_refill ≡ u)
unfolding refill_tokens
refill_mark l u = ground arith

after_take :
    (l r : Limiter) (u : ℕ)
    → Inv r
    → (r.stopped ≡ true) ⊎ (r.last_refill ≡ u)
    → token ≤ r.tokens
    → token + (refill_tokens (record r { tokens = r.tokens - token }) u).tokens ≡ r.tokens
unfolding refill_tokens
after_take l r u v m h = ground arith

step_window :
    (l : Limiter) (t : ℕ) (o : Op)
    → Inv l
    → l.last_refill ≤ t
    → t ≤ time_of o
    → let (m, n) = step l o in
      (n * token + (refill_tokens m (time_of o)).tokens
        ≤ (refill_tokens l t).tokens + (time_of o - t) * l.capacity)
      × (m.last_refill ≤ time_of o)
      × (m.capacity ≡ l.capacity)
unfolding step
step_window l t (tries u) v h k = ground (
  arith,
  refill_later l t u v h k,
  refill_rest l u,
  refill_again (refill_tokens l u) u (refill-Inv l u v) (refill_mark l u),
  after_take l (refill_tokens l u) u (refill-Inv l u v) (refill_mark l u),
)
step_window l t (rounds u) v h k = ground (
  arith,
  refill_later l t u v h k,
  refill_rest l u,
  refill_again (refill_tokens l u) u (refill-Inv l u v) (refill_mark l u),
  refill_again l u v,
  after_take l (refill_tokens l u) u (refill-Inv l u v) (refill_mark l u),
)
step_window l t (asks u) v h k = ground (
  arith,
  refill_later l t u v h k,
  refill_rest l u,
  refill_again (refill_tokens l u) u (refill-Inv l u v) (refill_mark l u),
)
step_window l t (stops u) v h k =
    ground
      (arith, refill_later l t u v h k, refill_again (stop l) u (step-Inv l (stops u) v) (inl refl))

scale : (a b c x : ℕ) → a ≤ b → b ≤ c → (b - a) * x + (c - b) * x ≡ (c - a) * x
scale a b c x h k = grind (arith, elapsed a b x h, elapsed b c x k, elapsed a c x)

last_time-le : (t : ℕ) (os : List Op) → Ordered t os → t ≤ last_time t os
last_time-le t [] h = omega arith
last_time-le t (o ∷ os) h = omega (arith, last_time-le (time_of o) os h.1)

run_window :
    (l : Limiter) (t : ℕ) (os : List Op)
    → Inv l
    → l.last_refill ≤ t
    → Ordered t os
    → (run l os).1 * token ≤ (refill_tokens l t).tokens + (last_time t os - t) * l.capacity
unfolding run
run_window l t [] v h k = omega arith
run_window l t (o ∷ os) v h k =
    let (m, n) = step l o in
    let (u, w, c) = step_window l t o v h k.0 in
    let rest = rw c at (run_window m (time_of o) os (step-Inv l o v) w k.1) in
    omega (
      arith,
      rest,
      scale t (time_of o) (last_time (time_of o) os) l.capacity k.0 (last_time-le _ os k.1),
    )

-- The rate limit. Over any window, whatever the operations in it and however they interleave, the
-- number of tokens given out is at most the capacity plus the rate times the length of the window;
-- the window may start at any time after the last refill, and its operations' times do not fall.
pub run_rate :
    (l : Limiter) (t : ℕ) (os : List Op)
    → Inv l
    → l.last_refill ≤ t
    → Ordered t os
    → (run l os).1 * token ≤ l.capacity * token + (last_time t os - t) * l.tokens_per_sec
run_rate l t os v h k =
    rw v.rate_capacity (ground (arith, run_window l t os v h k, refill-Inv l t v, refill_rest l t))
