-- ===== src/Execution/Lifecycle.antt =====
-- pkg/execution/lifecycle.go. A time is a number of nanoseconds, with zero for the zero time.Time;
-- time.Now is an argument.
pub mod Laws
use polymarket_go_sdk.Base.{
  ℕ, Bool, true, false, ◌||◌, Option, none, some, is_empty, if◌then◌else◌, ◌==◌,
}
use polymarket_go_sdk.Base.Text.{Text, codes, contains, text_eq, to_lower, trim_space}
use polymarket_go_sdk.Base.Result.{Result, ok, err}

pub data LifecycleState : Type 0 where
  created accepted partial filled canceled rejected : LifecycleState

-- The string of the constant.
abbrev pub state_name : LifecycleState → Text
state_name created = codes "created"
state_name accepted = codes "accepted"
state_name partial = codes "partial"
state_name filled = codes "filled"
state_name canceled = codes "canceled"
state_name rejected = codes "rejected"

pub data LifecycleSource : Type 0 where
  place cancel query replay : LifecycleSource

pub data LifecycleError : Type 0 where
  order_id_required : LifecycleError
  unknown_status : Text → LifecycleError

pub record LifecycleEvent : Type 0 where
  pub order_id : Text
  pub state : LifecycleState
  pub source : LifecycleSource
  pub raw_status : Text
  pub occurred_at : ℕ

abbrev pub is_failure : Text → Bool
is_failure s =
    contains s (codes "reject") || contains s (codes "fail") || contains s (codes "error")

abbrev pub is_partial : Text → Bool
is_partial s =
    contains s (codes "partial") || contains s (codes "partially") || text_eq s (codes "matched")

abbrev pub is_fill : Text → Bool
is_fill s =
    contains s (codes "fill") || contains s (codes "complete") || contains s (codes "execut")

abbrev is_accept : Text → Bool
is_accept s =
    contains s (codes "accept")
    || contains s (codes "open")
    || contains s (codes "live")
    || contains s (codes "submit")
    || contains s (codes "queue")
    || contains s (codes "post")

-- The switch of NormalizeLifecycleState.
unfoldable pub classify : Text → Result LifecycleError LifecycleState
classify s =
    if is_empty s
    then err (unknown_status s)
    else if contains s (codes "create")
    then ok created
    else if is_partial s
    then ok partial
    else if is_fill s
    then ok filled
    else if contains s (codes "cancel")
    then ok canceled
    else if is_failure s
    then ok rejected
    else if is_accept s
    then ok accepted
    else err (unknown_status s)

unfoldable pub normalize_lifecycle_state : Text → Result LifecycleError LifecycleState
normalize_lifecycle_state raw = classify (to_lower (trim_space raw))

unfoldable pub normalize_event_time : ℕ → ℕ → ℕ
normalize_event_time now at = if at == 0 then now else at

unfoldable new_created_event : ℕ → Text → ℕ → LifecycleSource → Result LifecycleError LifecycleEvent
new_created_event now order_id at source =
    let id = trim_space order_id in
    if is_empty id
    then err order_id_required
    else ok (record {
      order_id = id;
      state = created;
      source = source;
      raw_status = state_name created;
      occurred_at = normalize_event_time now at;
    })

unfoldable pub with_state :
    Text
    → LifecycleSource
    → Text
    → ℕ
    → Result LifecycleError LifecycleState
    → Result LifecycleError LifecycleEvent
with_state id source raw at (err e) = err e
with_state id source raw at (ok state) =
    ok
      (record { order_id = id; state = state; source = source; raw_status = raw; occurred_at = at })

-- The fields ID and Status of clobtypes.OrderResponse.
unfoldable pub event_from_order_response :
    ℕ → Text → Text → LifecycleSource → Result LifecycleError LifecycleEvent
unfolding with_state
event_from_order_response now order_id status source =
    let id = trim_space order_id in
    if is_empty id
    then err order_id_required
    else with_state id source (to_lower (trim_space status)) now (normalize_lifecycle_state status)

-- The field Status of clobtypes.CancelResponse.
unfoldable pub event_from_cancel_response :
    ℕ → Text → Text → LifecycleSource → ℕ → Result LifecycleError LifecycleEvent
event_from_cancel_response now order_id status source at =
    let id = trim_space order_id in
    let raw = to_lower (trim_space status) in
    if is_empty id
    then err order_id_required
    else ok (record {
      order_id = id;
      state = if is_failure raw then rejected else canceled;
      source = source;
      raw_status = raw;
      occurred_at = normalize_event_time now at;
    })
