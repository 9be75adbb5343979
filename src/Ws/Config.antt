-- ===== src/Ws/Config.antt =====
-- pkg/clob/ws/config.go, and the bound of the loop in lifecycle.go that reconnects. Durations are
-- int64 nanoseconds. The multiplier is a float64, of which a test and the number 2 are needed.
use polymarket_go_sdk.Base.{ℕ, ◌+◌, ◌*◌, Bool, true, false, ◌||◌, if◌then◌else◌}
use polymarket_go_sdk.Base.Int.{ℤ, pos, negsuc, is_nonpos, ltb_ℤ, wrap64}

pub record Multipliers {ℓ} (M : Type ℓ) : Type ℓ where
  pub is_nonpositive : M → Bool
  pub two : M

pub record ClientConfig {ℓ} (M : Type ℓ) : Type ℓ where
  pub debug : Bool
  pub disable_ping : Bool
  pub reconnect : Bool
  pub reconnect_delay : ℤ
  pub reconnect_max_delay : ℤ
  pub reconnect_multiplier : M
  pub reconnect_max : ℤ
  pub heartbeat_interval : ℤ
  pub heartbeat_timeout : ℤ
  pub read_timeout : ℤ

abbrev pub seconds : ℕ → ℤ
seconds n = pos (n * 1000000000)

abbrev pub positive_or : ℤ → ℤ → ℤ
positive_or z fallback = if is_nonpos z then fallback else z

-- z < 0
abbrev pub is_negative : ℤ → Bool
is_negative (pos n) = false
is_negative (negsuc n) = true

-- z * 3
unfoldable pub three_times : ℤ → ℤ
three_times (pos n) = wrap64 (pos (n * 3))
three_times (negsuc n) = wrap64 (negsuc (n * 3 + 2))

module _ {ℓ} {M : Type ℓ} (m : Multipliers M) where
  unfoldable default_client_config : ClientConfig M
  default_client_config = record {
    debug = false;
    disable_ping = false;
    reconnect = true;
    reconnect_delay = seconds 2;
    reconnect_max_delay = seconds 30;
    reconnect_multiplier = m.two;
    reconnect_max = pos 5;
    heartbeat_interval = seconds 10;
    heartbeat_timeout = seconds 30;
    read_timeout = seconds 60;
  }

  unfoldable pub normalize : ClientConfig M → ClientConfig M
  normalize c =
      let interval = positive_or c.heartbeat_interval (seconds 10) in
      record c {
        reconnect_delay = positive_or c.reconnect_delay (seconds 2);
        reconnect_max_delay = positive_or c.reconnect_max_delay (seconds 30);
        reconnect_multiplier =
            if m.is_nonpositive c.reconnect_multiplier then m.two else c.reconnect_multiplier;
        reconnect_max = if is_negative c.reconnect_max then pos 5 else c.reconnect_max;
        heartbeat_interval = interval;
        heartbeat_timeout = positive_or c.heartbeat_timeout (three_times interval);
        read_timeout = positive_or c.read_timeout (seconds 60);
      }

-- Does the loop that reconnects try once more, after some attempts?
unfoldable pub tries_again {ℓ} : {M : Type ℓ} → ClientConfig M → ℕ → Bool
tries_again c attempts = is_nonpos c.reconnect_max || ltb_ℤ (pos attempts) c.reconnect_max
