-- ===== src/Execution/Retry/Backoff.antt =====
-- ComputeBackoff against its closed form.
use Prim.Native.Nat.{min}
use native.Mathlib.Nat.{pow-suc}
use polymarket_go_sdk.Base.{ℕ, zero, suc, ◌+◌, ◌-◌, ◌*◌, ◌^◌, ◌≤◌, ◌<◌, ◌≡◌, ap, true, false, arith}
use polymarket_go_sdk.Base.Int.{
  ℤ, pos, negsuc, pos_part, ltb_ℤ, leb_ℤ, wrap64, wrap64_small, int64_bound, is_nonpos,
}
use polymarket_go_sdk.Execution.Retry.{
  RetryPolicy, with_defaults, clamp_attempt, backoff_loop, compute_backoff,
}

-- A policy with defaults has at least two attempts and 0 < BaseBackoff <= MaxBackoff.
pub record IsNormal (p : RetryPolicy) : Type 0 where
  pub attempts : ltb_ℤ p.max_attempts (pos 2) ≡ false
  pub base_pos : is_nonpos p.base_backoff ≡ false
  pub base_le : leb_ℤ p.base_backoff p.max_backoff ≡ true

pub with_defaults-IsNormal : (p : RetryPolicy) → IsNormal (with_defaults p)
unfolding with_defaults
with_defaults-IsNormal p = ground arith

-- Normalising is idempotent: Decide and ComputeBackoff both do it, and agree.
pub with_defaults_idem : (p : RetryPolicy) → IsNormal p → with_defaults p ≡ p
unfolding with_defaults
with_defaults_idem p v = ground arith

pow_double : (b n : ℕ) → b * 2 ^ suc n ≡ (b + b) * 2 ^ n
pow_double b n = rw pow-suc (omega arith)

pow_pos : (n : ℕ) → 1 ≤ 2 ^ n
pow_pos zero = omega arith
pow_pos (suc n) = rw pow-suc (omega (arith, pow_pos n))

le-pow : (b n : ℕ) → b ≤ b * 2 ^ n
le-pow b n = grind (arith, pow_pos n)

-- The loop, whose doubling cannot wrap under a limit of half the int64 range.
loop_min :
    (n b m : ℕ)
    → 0 < b
    → b ≤ m
    → m + m ≤ int64_bound
    → backoff_loop n (pos b) (pos m) ≡ pos (min (b * 2 ^ n) m)
unfolding backoff_loop
loop_min zero b m p le h = ap pos (omega arith)
loop_min (suc n) b m p le h = ground (
  arith,
  wrap64_small (b + b),
  loop_min n (b + b) m,
  pow_double b n,
  le-pow (b + b) n,
  le-pow b (suc n),
)

-- The doublings made before the given attempt's delay.
abbrev doublings : ℤ → ℕ
doublings attempt = pos_part (clamp_attempt attempt) - 1

normal_loop :
    (k : ℕ) (q : RetryPolicy)
    → IsNormal q
    → pos_part q.max_backoff + pos_part q.max_backoff ≤ int64_bound
    → backoff_loop k q.base_backoff q.max_backoff
      ≡ pos (min (pos_part q.base_backoff * 2 ^ k) (pos_part q.max_backoff))
normal_loop k q v h = parts q.base_backoff q.max_backoff v.base_pos v.base_le h
  where
    parts :
        (b m : ℤ)
        → is_nonpos b ≡ false
        → leb_ℤ b m ≡ true
        → pos_part m + pos_part m ≤ int64_bound
        → backoff_loop k b m ≡ pos (min (pos_part b * 2 ^ k) (pos_part m))
    parts (pos b) (pos m) p le h = loop_min k b m (ground arith) (ground arith) h
    parts (pos b) (negsuc m) p le h = absurd (ground arith)
    parts (negsuc b) m p le h = cc

-- ComputeBackoff is BaseBackoff doubled once for each attempt before, and at most MaxBackoff, for
-- every policy (its defaults put in) whose MaxBackoff is at most half of what a time.Duration holds.
pub compute_backoff_closed :
    (p : RetryPolicy) (attempt : ℤ)
    → let q = with_defaults p in
      pos_part q.max_backoff + pos_part q.max_backoff ≤ int64_bound
      → compute_backoff p attempt
        ≡ pos (min (pos_part q.base_backoff * 2 ^ doublings attempt) (pos_part q.max_backoff))
unfolding compute_backoff
compute_backoff_closed p attempt h =
    normal_loop (doublings attempt) (with_defaults p) (with_defaults-IsNormal p) h

times_mono : (b n : ℕ) → b * 2 ^ n ≤ b * 2 ^ suc n
times_mono b n = rw pow-suc (omega arith)

doublings-suc : (n : ℕ) → doublings (pos (suc n)) ≡ n
doublings-suc n = ground arith

between :
    (b m : ℤ) (n : ℕ) (x y : ℤ)
    → is_nonpos b ≡ false
    → leb_ℤ b m ≡ true
    → x ≡ pos (min (pos_part b * 2 ^ n) (pos_part m))
    → y ≡ pos (min (pos_part b * 2 ^ suc n) (pos_part m))
    → (leb_ℤ b x ≡ true) × (leb_ℤ x y ≡ true) × (leb_ℤ y m ≡ true)
between (pos b) (pos m) n x y p q e f = rw (e, f) (ground (arith, le-pow b n, times_mono b n))
between (pos b) (negsuc m) n x y p q e f = absurd (ground arith)
between (negsuc b) m n x y p q e f = cc

-- So the delays stay between BaseBackoff and MaxBackoff and do not fall from one attempt to the next.
compute_backoff_mono :
    (p : RetryPolicy) (attempt : ℕ)
    → let q = with_defaults p in
      pos_part q.max_backoff + pos_part q.max_backoff ≤ int64_bound
      → 0 < attempt
      → (leb_ℤ q.base_backoff (compute_backoff p (pos attempt)) ≡ true)
        × (leb_ℤ (compute_backoff p (pos attempt)) (compute_backoff p (pos (suc attempt))) ≡ true)
        × (leb_ℤ (compute_backoff p (pos (suc attempt))) q.max_backoff ≡ true)
compute_backoff_mono p zero h a = absurd (omega arith)
compute_backoff_mono p (suc n) h a =
    let q = with_defaults p in
    let v = with_defaults-IsNormal p in
    between q.base_backoff q.max_backoff n (compute_backoff p (pos (suc n)))
      (compute_backoff p (pos (suc (suc n)))) v.base_pos v.base_le
      (rw (doublings-suc n) at (compute_backoff_closed p (pos (suc n)) h))
      (rw (doublings-suc (suc n)) at (compute_backoff_closed p (pos (suc (suc n))) h))

-- Beyond that half the doubling wraps: where BaseBackoff is at least 2^62 ns and MaxBackoff is more, the delay after the second attempt is negative.
pub compute_backoff_wraps :
    (n : ℤ) (b m : ℕ)
    → int64_bound ≤ b + b
    → b < m
    → m < int64_bound
    → let p : RetryPolicy = record {
      max_attempts = n;
      base_backoff = pos b;
      max_backoff = pos m;
    } in
      ltb_ℤ (compute_backoff p (pos 2)) (pos 0) ≡ true
unfolding compute_backoff with_defaults backoff_loop wrap64
compute_backoff_wraps n b m h k l = ground arith
