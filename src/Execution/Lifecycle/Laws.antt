-- ===== src/Execution/Lifecycle/Laws.antt =====
-- Events that are replayed from what they keep, and the words that decide a state.
use polymarket_go_sdk.Base.{ℕ, ◌≡◌, refl, sym, ◌↔◌, true, false, is_empty, arith}
use polymarket_go_sdk.Base.Text.{
  Text, codes, contains, starts_with, text_eq, to_lower, trim_space, trim_left, is_space, lower,
}
use polymarket_go_sdk.Base.Text.Trimmed.{normalized_again, trim_space-Trimmed, Trimmed-trim_space}
use polymarket_go_sdk.Base.Result.{Result, ok, err}
use polymarket_go_sdk.Execution.Lifecycle.{
  LifecycleState, created, accepted, partial, filled, canceled, rejected, state_name,
  LifecycleSource, LifecycleError, LifecycleEvent, is_failure, is_partial, is_fill, classify,
  normalize_lifecycle_state, event_from_order_response, event_from_cancel_response, with_state,
}

trim_space_again : (s : Text) → trim_space (trim_space s) ≡ trim_space s
trim_space_again s = Trimmed-trim_space (trim_space s) (trim_space-Trimmed s)

with_state-ok :
    (id : Text) (source : LifecycleSource) (raw : Text) (at : ℕ)
    (r : Result LifecycleError LifecycleState) (e : LifecycleEvent)
    → with_state id source raw at r ≡ ok e
    → (r ≡ ok e.state)
      × (e.order_id ≡ id)
      × (e.raw_status ≡ raw)
      × (e.occurred_at ≡ at)
      × (e.source ≡ source)
unfolding with_state
with_state-ok id source raw at (err x) e h = cc
with_state-ok id source raw at (ok s) e h =
    let p : record { order_id = id; state = s; source = source; raw_status = raw; occurred_at = at }
        ≡ e =
      cc (h) in
    rw (sym p) (refl, refl, refl, refl, refl)

-- The name of a state is a status of that state.
normalize-state_name : (s : LifecycleState) → normalize_lifecycle_state (state_name s) ≡ ok s
unfolding normalize_lifecycle_state classify contains starts_with text_eq to_lower trim_space
    trim_left is_space lower
normalize-state_name created = refl
normalize-state_name accepted = refl
normalize-state_name partial = refl
normalize-state_name filled = refl
normalize-state_name canceled = refl
normalize-state_name rejected = refl

response_fields :
    (now : ℕ) (order_id status : Text) (source : LifecycleSource) (e : LifecycleEvent)
    → event_from_order_response now order_id status source ≡ ok e
    → (is_empty (trim_space order_id) ≡ false)
      × (normalize_lifecycle_state status ≡ ok e.state)
      × (e.order_id ≡ trim_space order_id)
      × (e.raw_status ≡ to_lower (trim_space status))
unfolding event_from_order_response
response_fields now order_id status source e h = ground (
  arith,
  with_state-ok (trim_space order_id) source (to_lower (trim_space status)) now
      (normalize_lifecycle_state status) e,
)

response_of :
    (now : ℕ) (id raw : Text) (source : LifecycleSource) (s : LifecycleState)
    → trim_space id ≡ id
    → is_empty id ≡ false
    → to_lower (trim_space raw) ≡ raw
    → classify raw ≡ ok s
    → event_from_order_response now id raw source
      ≡ ok (record {
        order_id = id;
        state = s;
        source = source;
        raw_status = raw;
        occurred_at = now;
      })
unfolding event_from_order_response with_state normalize_lifecycle_state
response_of now id raw source s t n l c = rw t (rw n (rw l (rw c refl)))

-- An event of an order response, made again from the id and the status that it keeps, is the same,
-- but for the source and the time given.
event_replays :
    (now later : ℕ) (order_id status : Text) (source : LifecycleSource) (e : LifecycleEvent)
    → event_from_order_response now order_id status source ≡ ok e
    → event_from_order_response later e.order_id e.raw_status e.source
      ≡ ok (record e { occurred_at = later })
unfolding normalize_lifecycle_state
event_replays now later order_id status source e h =
    let (n, c, i, r) = response_fields now order_id status source e h in
    response_of later e.order_id e.raw_status e.source e.state (rw i (trim_space_again order_id))
      (rw i n) (rw r (normalized_again status)) (rw r c)

pub normalize_rejected_iff :
    (status : Text)
    → let s = to_lower (trim_space status) in
      (normalize_lifecycle_state status ≡ ok rejected) ↔ (
        (is_failure s ≡ true)
        × (is_empty s ≡ false)
        × (contains s (codes "create") ≡ false)
        × (is_partial s ≡ false)
        × (is_fill s ≡ false)
        × (contains s (codes "cancel") ≡ false))
unfolding normalize_lifecycle_state classify
normalize_rejected_iff status = ground arith

-- A status that rejects an order also makes its cancellation rejected.
rejected_alike :
    (now at : ℕ) (order_id status : Text) (source : LifecycleSource) (e : LifecycleEvent)
    → normalize_lifecycle_state status ≡ ok rejected
    → event_from_cancel_response now order_id status source at ≡ ok e
    → e.state ≡ rejected
unfolding event_from_cancel_response
rejected_alike now at order_id status source e n h =
    ground (arith, (normalize_rejected_iff status).0 n)
