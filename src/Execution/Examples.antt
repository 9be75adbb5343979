-- ===== src/Execution/Examples.antt =====
-- The theorems on pkg/execution at concrete inputs.
use Prim.Native.Nat.{min}
use polymarket_go_sdk.Base.{ℕ, ◌==◌, ◌*◌, ◌^◌, ◌≡◌, refl, true, [], ◌∷◌, arith}
use polymarket_go_sdk.Base.Int.{pos, ltb_ℤ}
use polymarket_go_sdk.Base.Text.{Text, codes, to_lower, lower, trim_space, trim_left, is_space}
use polymarket_go_sdk.Base.Text.Split.{has}
use polymarket_go_sdk.Base.Result.{ok, err}
use polymarket_go_sdk.Execution.Idempotency.{
  Parts, IdempotencyKey, normalized, normalize_scope_part, canonical_of, key_of,
  build_idempotency_key, checked, check_parts, parse_idempotency_canonical,
}
use polymarket_go_sdk.Execution.Idempotency.RoundTrip.{Free, parse-build, build_collides}
use polymarket_go_sdk.Ws.Config.{Multipliers, normalize, tries_again}
use polymarket_go_sdk.Execution.WsPolicy.{
  WsPolicy, default_ws_policy, with_ws_defaults, next_reconnect_delay, to_clob_config,
}
use polymarket_go_sdk.Execution.WsPolicy.Attempts.{policy_attempts}
use polymarket_go_sdk.Execution.Engine.{Attribution, ExecutionClient}
use polymarket_go_sdk.Execution.Retry.{default_retry_policy, with_defaults, compute_backoff, decide}
use polymarket_go_sdk.Execution.Retry.Errors.{other, eof, is_retryable_error}
use polymarket_go_sdk.Execution.Retry.Backoff.{compute_backoff_closed, compute_backoff_wraps}
use polymarket_go_sdk.Execution.Retry.Decisions.{decide_iff}

compute_backoff_closed_example :
    compute_backoff default_retry_policy (pos 3) ≡ pos (min (150000000 * 2 ^ 2) 2000000000)
unfolding with_defaults
compute_backoff_closed_example = compute_backoff_closed default_retry_policy (pos 3) (omega arith)

compute_backoff_wraps_example :
    ltb_ℤ
      (compute_backoff
        (record {
          max_attempts = pos 3;
          base_backoff = pos 4611686018427387904;
          max_backoff = pos 9000000000000000000;
        })
        (pos 2))
      (pos 0)
    ≡ true
compute_backoff_wraps_example =
    compute_backoff_wraps (pos 3) 4611686018427387904 9000000000000000000 (omega arith)
      (omega arith) (omega arith)

decide_iff_example : (decide default_retry_policy (pos 2) (other ∷ eof ∷ []) (pos 0)).retry ≡ true
unfolding is_retryable_error with_defaults
decide_iff_example =
    (decide_iff default_retry_policy (pos 2) (other ∷ eof ∷ []) (pos 0)).0.1 (refl, refl)

abbrev hash : Text → Text
hash s = codes "00"

abbrev scope : Parts
scope = record { tenant = codes " Acme"; strategy = codes "mm"; client_order_id = codes "7" }

abbrev key : IdempotencyKey
unfolding normalized normalize_scope_part to_lower lower trim_space trim_left is_space canonical_of
    key_of
key = key_of hash (canonical_of (normalized scope))

scope-Free : Free (normalized scope)
unfolding normalized normalize_scope_part to_lower lower trim_space trim_left is_space has
scope-Free = record { tenant_free = refl; strategy_free = refl; id_free = refl }

parse-build_example : parse_idempotency_canonical key.canonical ≡ ok (normalized scope)
unfolding normalized normalize_scope_part to_lower lower trim_space trim_left is_space canonical_of
    key_of build_idempotency_key checked check_parts
parse-build_example = parse-build hash scope key scope-Free refl

abbrev long_tenant : Parts
long_tenant = record {
  tenant = codes "a;strategy=b";
  strategy = codes "c";
  client_order_id = codes "d";
}

abbrev long_strategy : Parts
long_strategy = record {
  tenant = codes "a";
  strategy = codes "b;strategy=c";
  client_order_id = codes "d";
}

build_collides_example :
    build_idempotency_key hash long_tenant ≡ build_idempotency_key hash long_strategy
unfolding normalized normalize_scope_part to_lower lower trim_space trim_left is_space check_parts
build_collides_example =
    build_collides hash long_tenant long_strategy (codes "a") (codes "b") (codes "c") (codes "d")
      refl refl refl refl

abbrev floats : Multipliers ℕ
floats = record { is_nonpositive = λ x. x == 0; two = 2 }

-- A policy of no attempts.
abbrev patient : WsPolicy ℕ
patient = record (default_ws_policy floats) { reconnect_max_attempts = pos 0 }

policy_attempts_example : tries_again (normalize floats (to_clob_config floats patient)) 7 ≡ true
unfolding next_reconnect_delay default_ws_policy with_ws_defaults
policy_attempts_example = (policy_attempts floats (λ d x n. d) patient refl 7).1

abbrev exchange : ExecutionClient ℕ ℕ ℕ
exchange = record {
  create_order = λ o. ok o;
  cancel_order = λ id. err 404;
  order = λ id. ok 3;
  orders = λ req.
      ok (record { orders = 1 ∷ 2 ∷ []; next_cursor = []; limit = req.limit; count = pos 2 });
}

abbrev from_desk : Attribution
from_desk = record { builder = codes " Acme "; funder = []; source = codes "Desk" }
