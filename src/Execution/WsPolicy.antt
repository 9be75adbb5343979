-- ===== src/Execution/WsPolicy.antt =====
-- pkg/execution/ws_policy.go. `backoff` is time.Duration(float64(base) * math.Pow(multiplier, n)), of
-- a duration and the multiplier, in floating point.
pub mod Attempts
use polymarket_go_sdk.Base.{
  ℕ, ◌-◌, Bool, true, false, ◌&&◌, not, Option, none, some, leb, if◌then◌else◌,
}
use polymarket_go_sdk.Base.Int.{ℤ, pos, negsuc, is_nonpos, pos_part, ltb_ℤ, sub_ℕ, int64_bound}
use polymarket_go_sdk.Ws.Config.{
  Multipliers, ClientConfig, seconds, positive_or, is_negative, three_times,
}

pub record WsPolicy {ℓ} (M : Type ℓ) : Type ℓ where
  pub disable_ping : Bool
  pub reconnect_enabled : Bool
  pub reconnect_base_delay : ℤ
  pub reconnect_max_delay : ℤ
  pub reconnect_multiplier : M
  pub reconnect_max_attempts : ℤ
  pub heartbeat_interval : ℤ
  pub heartbeat_timeout : ℤ

-- time.Time.Sub, of times in nanoseconds, which stops at the bounds of an int64.
abbrev time_sub : ℕ → ℕ → ℤ
time_sub later earlier = elim (sub_ℕ later earlier) [
  | pos n ↦ if leb int64_bound n then pos (int64_bound - 1) else pos n
  | negsuc n ↦ if leb int64_bound n then negsuc (int64_bound - 1) else negsuc n
]

module _ {ℓ} {M : Type ℓ} (m : Multipliers M) where
  unfoldable pub default_ws_policy : WsPolicy M
  default_ws_policy = record {
    disable_ping = false;
    reconnect_enabled = true;
    reconnect_base_delay = seconds 2;
    reconnect_max_delay = seconds 30;
    reconnect_multiplier = m.two;
    reconnect_max_attempts = pos 5;
    heartbeat_interval = seconds 10;
    heartbeat_timeout = seconds 30;
  }

  settle_timeout : ℤ → ℤ → ℤ
  settle_timeout interval timeout = if ltb_ℤ timeout interval then three_times interval else timeout

  unfoldable pub with_ws_defaults : WsPolicy M → WsPolicy M
  unfolding settle_timeout
  with_ws_defaults p =
      let interval = positive_or p.heartbeat_interval (seconds 10) in
      record p {
        reconnect_base_delay = positive_or p.reconnect_base_delay (seconds 2);
        reconnect_max_delay = positive_or p.reconnect_max_delay (seconds 30);
        reconnect_multiplier =
            if m.is_nonpositive p.reconnect_multiplier then m.two else p.reconnect_multiplier;
        reconnect_max_attempts =
            if is_negative p.reconnect_max_attempts then pos 5 else p.reconnect_max_attempts;
        heartbeat_interval = interval;
        heartbeat_timeout = settle_timeout interval (positive_or p.heartbeat_timeout (seconds 30));
      }

  -- The delay, within its bounds.
  settle_delay : WsPolicy M → ℤ → ℤ
  settle_delay n delay =
      let capped = if ltb_ℤ n.reconnect_max_delay delay then n.reconnect_max_delay else delay in
      if is_nonpos capped then n.reconnect_base_delay else capped

  -- The delay before an attempt, from 1 on, and whether it is made.
  unfoldable pub next_reconnect_delay : (ℤ → M → ℕ → ℤ) → WsPolicy M → ℤ → ℤ × Bool
  unfolding settle_delay
  next_reconnect_delay backoff p attempt =
      let n = with_ws_defaults p in
      let k = if is_nonpos attempt then pos 1 else attempt in
      if not n.reconnect_enabled
      then (pos 0, false)
      else if not (is_negative n.reconnect_max_attempts) && ltb_ℤ n.reconnect_max_attempts k
      then (pos 0, false)
      else (
        settle_delay n (backoff n.reconnect_base_delay n.reconnect_multiplier (pos_part k - 1)),
        true,
      )

  -- `clock` is time.Now(), which stands for a time that is not given.
  unfoldable is_heartbeat_expired : WsPolicy M → Option ℕ → Option ℕ → ℕ → Bool
  is_heartbeat_expired p none now clock = true
  is_heartbeat_expired p (some last_pong) none clock =
      ltb_ℤ (with_ws_defaults p).heartbeat_timeout (time_sub clock last_pong)
  is_heartbeat_expired p (some last_pong) (some now) clock =
      ltb_ℤ (with_ws_defaults p).heartbeat_timeout (time_sub now last_pong)

  unfoldable pub to_clob_config : WsPolicy M → ClientConfig M
  to_clob_config p =
      let n = with_ws_defaults p in
      record {
        debug = false;
        disable_ping = n.disable_ping;
        reconnect = n.reconnect_enabled;
        reconnect_delay = n.reconnect_base_delay;
        reconnect_max_delay = n.reconnect_max_delay;
        reconnect_multiplier = n.reconnect_multiplier;
        reconnect_max = n.reconnect_max_attempts;
        heartbeat_interval = n.heartbeat_interval;
        heartbeat_timeout = n.heartbeat_timeout;
        read_timeout = pos 0;
      }
