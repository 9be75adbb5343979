-- ===== src/Transport/RateLimit.antt =====
-- pkg/transport/ratelimit.go. `tokens` and `tokensPerSec` are float64 in the source; here a token is
-- 10^9 units and a time is in nanoseconds, so that the refill is exact integer arithmetic and float
-- rounding is left out. Times are arguments; the mutex makes each critical section atomic.
pub mod Bounds
pub mod Waiting
use polymarket_go_sdk.Base.{
  ℕ, zero, suc, ◌+◌, ◌-◌, ◌*◌, ◌/◌, Bool, true, false, List, [], ◌∷◌, leb, ltb, if◌then◌else◌,
}
use polymarket_go_sdk.Base.Int.{ℤ, pos, is_nonpos, pos_part}

abbrev pub token : ℕ
token = 1000000000

pub record Limiter : Type 0 where
  pub capacity : ℕ
  pub tokens_per_sec : ℕ
  -- in units of 10^-9 token
  pub tokens : ℕ
  pub last_refill : ℕ
  pub stopped : Bool

unfoldable pub new_rate_limiter : ℤ → ℕ → Limiter
new_rate_limiter requests_per_second now =
    let n = if is_nonpos requests_per_second then 10 else pos_part requests_per_second in
    record {
      capacity = n;
      tokens_per_sec = n;
      tokens = n * token;
      last_refill = now;
      stopped = false;
    }

unfoldable pub refill_tokens : Limiter → ℕ → Limiter
refill_tokens l now =
    let added = l.tokens + (now - l.last_refill) * l.tokens_per_sec in
    if l.stopped then l else record l {
      tokens = if ltb (l.capacity * token) added then l.capacity * token else added;
      last_refill = now;
    }

-- `if rl.tokens >= 1.0 { rl.tokens -= 1.0; return true }`
take_token : Limiter → Limiter × Bool
take_token l =
    if leb token l.tokens then (record l { tokens = l.tokens - token }, true) else (l, false)

unfoldable try_acquire : Limiter → ℕ → Limiter × Bool
unfolding take_token
try_acquire l now = take_token (refill_tokens l now)

unfoldable pub stop : Limiter → Limiter
stop l = record l { stopped = true }

unfoldable available : Limiter → ℕ → Limiter × ℕ
available l now = let r = refill_tokens l now in (r, r.tokens / token)

pub data Round : Type 0 where
  canceled granted : Round
  sleep : ℕ → Round

-- The nanoseconds until the next token, as time.Duration truncates them.
unfoldable wait_duration : Limiter → ℕ
wait_duration l = (token - l.tokens) / l.tokens_per_sec

-- One pass of the loop of Wait, up to the select.
unfoldable pub wait_round : Limiter → ℕ → Limiter × Round
unfolding wait_duration
wait_round l now =
    let r = refill_tokens l now in
    if l.stopped
    then (l, canceled)
    else if leb token r.tokens
    then (record r { tokens = r.tokens - token }, granted)
    else (r, sleep (wait_duration r))

pub data WaitResult : Type 0 where
  acquired stopped_error context_error still_waiting : WaitResult

-- How a select ends: the timer fires at a time, after what other goroutines did to the limiter
-- meanwhile, or the context is done.
pub data Wake : Type 0 where
  timer : (Limiter → Limiter) → ℕ → Wake
  done : Wake

-- The loop of Wait over the wake-ups that it meets.
unfoldable pub wait : Limiter → ℕ → List Wake → Limiter × WaitResult
unfolding wait_round
wait l now [] = elim (wait_round l now).1 [
  | canceled ↦ ((wait_round l now).0, stopped_error)
  | granted ↦ ((wait_round l now).0, acquired)
  | sleep d ↦ ((wait_round l now).0, still_waiting)
]
wait l now (done ∷ ws) = elim (wait_round l now).1 [
  | canceled ↦ ((wait_round l now).0, stopped_error)
  | granted ↦ ((wait_round l now).0, acquired)
  | sleep d ↦ ((wait_round l now).0, context_error)
]
wait l now (timer others later ∷ ws) = elim (wait_round l now).1 [
  | canceled ↦ ((wait_round l now).0, stopped_error)
  | granted ↦ ((wait_round l now).0, acquired)
  | sleep d ↦ wait (others (wait_round l now).0) later ws
]

-- The critical sections that goroutines enter, each at a time.
pub data Op : Type 0 where
  tries rounds asks stops : ℕ → Op

abbrev pub time_of : Op → ℕ
time_of (tries t) = t
time_of (rounds t) = t
time_of (asks t) = t
time_of (stops t) = t

abbrev grants_of_bool : Bool → ℕ
grants_of_bool true = 1
grants_of_bool false = 0

abbrev grants_of_round : Round → ℕ
grants_of_round canceled = 0
grants_of_round granted = 1
grants_of_round (sleep d) = 0

-- The new limiter, and how many tokens the section took.
unfoldable pub step : Limiter → Op → Limiter × ℕ
unfolding try_acquire wait_round available stop
step l (tries t) = let (r, b) = try_acquire l t in (r, grants_of_bool b)
step l (rounds t) = let (r, o) = wait_round l t in (r, grants_of_round o)
step l (asks t) = ((available l t).0, 0)
step l (stops t) = (stop l, 0)

unfoldable pub run : Limiter → List Op → Limiter × ℕ
unfolding step
run l [] = (l, 0)
run l (o ∷ os) = let (m, n) = step l o in let (k, rest) = run m os in (k, n + rest)
