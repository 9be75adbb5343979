-- ===== src/Execution/WsPolicy/Attempts.antt =====
-- Which attempts to reconnect a policy allows, and which the client makes that it configures.
use polymarket_go_sdk.Base.{
  ℕ, suc, ◌-◌, ◌≡◌, ap, sym, subst, ◌∙◌, refl, ◌⊎◌, inl, inr, Bool, true, false, ◌||◌, ◌&&◌, not,
  arith, if◌then◌else◌,
}
use polymarket_go_sdk.Base.Int.{ℤ, pos, negsuc, is_nonpos, pos_part, ltb_ℤ, leb_ℤ}
use polymarket_go_sdk.Ws.Config.{Multipliers, is_negative, positive_or, normalize, tries_again}
use polymarket_go_sdk.Execution.WsPolicy.{
  WsPolicy, with_ws_defaults, settle_delay, next_reconnect_delay, to_clob_config,
}

abbrev is_nought : ℤ → Bool
is_nought z = is_nonpos z && not (is_negative z)

-- The limit of a policy, with its default.
abbrev attempt_limit : ℤ → ℤ
attempt_limit z = if is_negative z then pos 5 else z

abbrev answer : Bool → Bool → ℤ → ℤ × Bool
answer enabled over delay =
    if not enabled then (pos 0, false) else if over then (pos 0, false) else (delay, true)

answer-made :
    (enabled over : Bool) (delay : ℤ) → enabled ≡ true → (answer enabled over delay).1 ≡ not over
answer-made false over delay e = cc
answer-made true true delay e = refl
answer-made true false delay e = refl

over_eq :
    (z : ℤ) (k : ℕ)
    → not (not (is_negative (attempt_limit z)) && ltb_ℤ (attempt_limit z) (pos (suc k)))
      ≡ ltb_ℤ (pos k) (attempt_limit z)
over_eq (pos n) k = ground arith
over_eq (negsuc n) k = ground arith

limits_eq :
    (z : ℤ) (k : ℕ)
    → (is_nonpos (attempt_limit (attempt_limit z))
        || ltb_ℤ (pos k) (attempt_limit (attempt_limit z)))
      ≡ (is_nought z || ltb_ℤ (pos k) (attempt_limit z))
limits_eq (pos n) k = ground arith
limits_eq (negsuc n) k = ground arith

module _ {ℓ} {M : Type ℓ} (m : Multipliers M) (backoff : ℤ → M → ℕ → ℤ) (p : WsPolicy M)
    (enabled : p.reconnect_enabled ≡ true) where
  next-over :
      (a : ℤ)
      → is_nonpos a ≡ false
      → (next_reconnect_delay m backoff p a).1
        ≡ not (
            not (is_negative (attempt_limit p.reconnect_max_attempts))
            && ltb_ℤ (attempt_limit p.reconnect_max_attempts) a)
  unfolding next_reconnect_delay with_ws_defaults
  next-over a h =
      let n = with_ws_defaults m p in
      let delay =
        settle_delay m n (backoff n.reconnect_base_delay n.reconnect_multiplier (pos_part a - 1)) in
      rw h (answer-made p.reconnect_enabled _ delay enabled)

  next-allowed :
      (k : ℕ)
      → (next_reconnect_delay m backoff p (pos (suc k))).1
        ≡ ltb_ℤ (pos k) (attempt_limit p.reconnect_max_attempts)
  next-allowed k = next-over (pos (suc k)) (ground arith) ∙ over_eq p.reconnect_max_attempts k

  -- A policy that reconnects allows the attempts up to its limit, which is 5 where it is negative; and
  -- the client that the policy configures makes just these, except that it makes every attempt where
  -- the policy's limit is 0.
  pub policy_attempts :
      (k : ℕ)
      → ((next_reconnect_delay m backoff p (pos (suc k))).1
          ≡ ltb_ℤ (pos k) (attempt_limit p.reconnect_max_attempts))
        × (tries_again (normalize m (to_clob_config m p)) k ≡ (
            is_nought p.reconnect_max_attempts
            || (next_reconnect_delay m backoff p (pos (suc k))).1))
  unfolding tries_again normalize to_clob_config with_ws_defaults
  policy_attempts k = (
    next-allowed k,
    limits_eq p.reconnect_max_attempts k
        ∙ ap (λ b. is_nought p.reconnect_max_attempts || b) (sym (next-allowed k)),
  )

-- A positive delay that is at most the greatest one, or is the base.
abbrev pub Within : ℤ → ℤ → ℤ → Type 0
Within base max delay = (is_nonpos delay ≡ false) × ((leb_ℤ delay max ≡ true) ⊎ (delay ≡ base))

capped-Within :
    (base max capped : ℤ) (none_left : Bool)
    → is_nonpos base ≡ false
    → leb_ℤ capped max ≡ true
    → is_nonpos capped ≡ none_left
    → Within base max (if none_left then base else capped)
capped-Within base max capped true h g e = (h, inr refl)
capped-Within base max capped false h g e = (e, inl g)

cap_at_most :
    (max delay : ℤ) (over : Bool)
    → ltb_ℤ max delay ≡ over
    → leb_ℤ (if over then max else delay) max ≡ true
cap_at_most max delay true e = ground arith
cap_at_most max delay false e = ground arith

base_positive : (z : ℤ) (n : ℕ) → is_nonpos (positive_or z (pos (suc n))) ≡ false
base_positive (pos z) n = ground arith
base_positive (negsuc z) n = ground arith

module _ {ℓ} {M : Type ℓ} (m : Multipliers M) where
  settle_delay-Within :
      (n : WsPolicy M) (delay : ℤ)
      → is_nonpos n.reconnect_base_delay ≡ false
      → Within n.reconnect_base_delay n.reconnect_max_delay (settle_delay m n delay)
  unfolding settle_delay
  settle_delay-Within n delay h =
      let max = n.reconnect_max_delay in
      capped-Within n.reconnect_base_delay max (if ltb_ℤ max delay then max else delay) _ h
        (cap_at_most max delay _ refl) refl

  next-Within :
      (p : WsPolicy M) (enabled over : Bool) (delay d : ℤ)
      → answer enabled over (settle_delay m (with_ws_defaults m p) delay) ≡ (d, true)
      → Within
          (with_ws_defaults m p).reconnect_base_delay
          (with_ws_defaults m p).reconnect_max_delay
          d
  unfolding with_ws_defaults
  next-Within p false over delay d h = cc
  next-Within p true true delay d h = cc
  next-Within p true false delay d h =
      subst (Within (with_ws_defaults m p).reconnect_base_delay _) (ap (λ r. r.0) h) (
        settle_delay-Within (with_ws_defaults m p) delay
          (base_positive p.reconnect_base_delay 1999999999))

  -- Whatever the floating point arithmetic gives, the delay of an attempt that a policy allows is
  -- positive, and at most the greatest delay, or else the base delay.
  next_delay_bounds :
      (backoff : ℤ → M → ℕ → ℤ) (p : WsPolicy M) (attempt d : ℤ)
      → next_reconnect_delay m backoff p attempt ≡ (d, true)
      → Within
          (with_ws_defaults m p).reconnect_base_delay
          (with_ws_defaults m p).reconnect_max_delay
          d
  unfolding next_reconnect_delay
  next_delay_bounds backoff p attempt d h = next-Within p _ _ _ d h
