-- ===== src/Transport/RateLimit/Waiting.antt =====
-- How long `Wait` sleeps, and what stopping does.
use native.Mathlib.Nat.{div-mul-le_self, div-lt_iff_lt-mul}
use polymarket_go_sdk.Base.{
  ℕ, suc, ◌+◌, ◌-◌, ◌*◌, ◌/◌, ◌≤◌, ◌<◌, ◌≡◌, refl, true, false, List, [], ◌∷◌, arith, ◌≢◌, ◌⊎◌, inl,
  inr, ◌↔◌, ◌∙◌, sym,
}
use polymarket_go_sdk.Transport.RateLimit.{
  token, Limiter, refill_tokens, stop, wait_round, granted, sleep, wait, Wake, timer, done,
  stopped_error, Op, tries, rounds, asks, stops, step, run,
}
use polymarket_go_sdk.Transport.RateLimit.Bounds.{Inv}

mul_mono : (a b c : ℕ) → a ≤ b → a * c ≤ b * c
mul_mono a b c h = grind arith

-- d = (token - k) / c is the number of whole nanoseconds that the missing units take.
duration_bounds :
    (k c : ℕ) → 0 < c → ((token - k) / c * c ≤ token - k) × (token - k < ((token - k) / c + 1) * c)
duration_bounds k c h = (div-mul-le_self (token - k) c, (div-lt_iff_lt-mul h).0 (omega arith))

round_at :
    (l : Limiter) (now d : ℕ)
    → Inv l
    → (wait_round l now).1 ≡ sleep d
    → let r = (wait_round l now).0 in
      (r.last_refill ≡ now)
      × (r.tokens < token)
      × (r.stopped ≡ false)
      × (r.capacity ≡ l.capacity)
      × (r.tokens_per_sec ≡ l.capacity)
      × (d ≡ (token - r.tokens) / l.capacity)
unfolding wait_round refill_tokens
round_at l now d v h = ground arith

early :
    (k c d e : ℕ) → 0 < c → d * c ≤ token - k → k < token → (e ≡ 0) ⊎ (e < d) → k + e * c < token
early k c d e h b n (inl z) = rw z (omega arith)
early k c d e h b n (inr lt) = grind (arith, mul_mono (suc e) d c lt)

late : (k c d e : ℕ) → token - k < (d + 1) * c → d < e → token ≤ k + e * c
late k c d e b lt = grind (arith, mul_mono (suc d) e c lt)

granted_iff :
    (r : Limiter) (later : ℕ)
    → r.stopped ≡ false
    → 0 < r.capacity
    → r.tokens_per_sec ≡ r.capacity
    → ((wait_round r later).1 ≡ granted) ↔ (token ≤ r.tokens + (later - r.last_refill) * r.capacity)
unfolding wait_round refill_tokens
granted_iff r later s c e = ground arith

idle : (later last d : ℕ) → later < last + d → (later - last ≡ 0) ⊎ (later - last < d)
idle later last d h = grind arith

asleep :
    (r : Limiter) (later d : ℕ)
    → r.stopped ≡ false
    → 0 < r.capacity
    → r.tokens_per_sec ≡ r.capacity
    → r.tokens < token
    → d ≡ (token - r.tokens) / r.capacity
    → (later < r.last_refill + d → (wait_round r later).1 ≢ granted)
      × (r.last_refill + d < later → (wait_round r later).1 ≡ granted)
asleep r later d s p rt lt e =
    let (lo, hi) = duration_bounds r.tokens r.capacity p in
    let (to, from) = granted_iff r later s p rt in
    (
      λ h g. absurd (
          omega (
            arith,
            to g,
            early r.tokens r.capacity d (later - r.last_refill) p (rw e lo) lt
                (idle later r.last_refill d h),
          )),
      λ h. from (late r.tokens r.capacity d (later - r.last_refill) (rw e hi) (omega arith)),
    )

-- The sleep of `Wait` is exact to the nanosecond: a round that was told to sleep d is granted at
-- any time later than d after, if no one else took a token, and at no time sooner than d.
sleep_exact :
    (l : Limiter) (now d later : ℕ)
    → Inv l
    → (wait_round l now).1 ≡ sleep d
    → let r = (wait_round l now).0 in
      (later < now + d → (wait_round r later).1 ≢ granted)
      × (now + d < later → (wait_round r later).1 ≡ granted)
sleep_exact l now d later v h =
    let (at, lt, s, c, rt, e) = round_at l now d v h in
    ground
      (arith, asleep (wait_round l now).0 later d s (rw c v.capacity_pos) (rt ∙ sym c) lt (rw c e))

stopped_step :
    (l : Limiter) (o : Op)
    → l.stopped ≡ true
    → let (m, n) = step l o in (n * token + m.tokens ≡ l.tokens) × (m.stopped ≡ true)
unfolding step refill_tokens
stopped_step l (tries t) s = ground arith
stopped_step l (rounds t) s = ground arith
stopped_step l (asks t) s = ground arith
stopped_step l (stops t) s = ground arith

stopped_run :
    (l : Limiter) (os : List Op)
    → l.stopped ≡ true
    → (run l os).1 * token + (run l os).0.tokens ≡ l.tokens
unfolding run
stopped_run l [] s = omega arith
stopped_run l (o ∷ os) s =
    let (e, s') = stopped_step l o s in omega (arith, e, stopped_run (step l o).0 os s')

wait_stopped :
    (l : Limiter) (now : ℕ) (ws : List Wake) → l.stopped ≡ true → (wait l now ws).1 ≡ stopped_error
unfolding wait
wait_stopped l now [] s = ground arith
wait_stopped l now (done ∷ ws) s = ground arith
wait_stopped l now (timer others u ∷ ws) s = ground arith

-- `Stop` ends the refill and fails every wait: whatever is done at whatever times after it, the
-- tokens given out are paid for by those at hand, a new Wait reports the stop at once, and one that
-- was asleep reports it at its next wake-up, wherever it was in its loop.
pub stop_ends :
    (l : Limiter) (os : List Op) (now t u : ℕ) (d : ℕ) (ws : List Wake)
    → (wait_round l t).1 ≡ sleep d
    → ((run (stop l) os).1 * token + (run (stop l) os).0.tokens ≡ l.tokens)
      × ((wait (stop l) now ws).1 ≡ stopped_error)
      × ((wait l t (timer stop u ∷ ws)).1 ≡ stopped_error)
unfolding stop wait
stop_ends l os now t u d ws h = (
  stopped_run (record l { stopped = true }) os refl,
  wait_stopped _ now ws refl,
  rw (h, wait) (wait_stopped _ u ws refl),
)
