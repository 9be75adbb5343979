-- ===== src/Execution/Retry/Errors.antt =====
-- IsRetryableError, over the chain of an error: the errors that errors.Is and errors.As meet, the
-- outermost first.
use polymarket_go_sdk.Base.{
  Bool, true, false, ◌||◌, Option, none, some, List, [], ◌∷◌, if◌then◌else◌,
}

-- What a link of the chain is; the Boolean is its Timeout().
pub data Node : Type 0 where
  canceled deadline_exceeded eof econnreset econnrefused epipe unknown_network_error other : Node
  net_error op_error : Bool → Node

-- Timeout() of a link that implements net.Error: context.DeadlineExceeded times out; the three
-- errno values and net.UnknownNetworkError do not.
abbrev pub timeout : Node → Option Bool
timeout canceled = none
timeout deadline_exceeded = some true
timeout eof = none
timeout econnreset = some false
timeout econnrefused = some false
timeout epipe = some false
timeout unknown_network_error = some false
timeout other = none
timeout (net_error t) = some t
timeout (op_error t) = some t

abbrev pub is_canceled : Node → Bool
is_canceled canceled = true
is_canceled _ = false

abbrev pub is_deadline : Node → Bool
is_deadline deadline_exceeded = true
is_deadline _ = false

abbrev pub is_eof : Node → Bool
is_eof eof = true
is_eof _ = false

abbrev pub is_reset : Node → Bool
is_reset econnreset = true
is_reset econnrefused = true
is_reset epipe = true
is_reset _ = false

abbrev pub is_unknown_network : Node → Bool
is_unknown_network unknown_network_error = true
is_unknown_network _ = false

abbrev pub is_op_error : Node → Bool
is_op_error (op_error t) = true
is_op_error _ = false

-- errors.Is, and errors.As where only the fact of a match is used.
abbrev pub any : (Node → Bool) → List Node → Bool
any p [] = false
any p (x ∷ xs) = p x || any p xs

-- errors.As into a net.Error, then its Timeout(): the first link that is one decides.
abbrev pub first_timeout : List Node → Bool
first_timeout [] = false
first_timeout (x ∷ xs) =
    let rest = first_timeout xs in elim (timeout x) [ none ↦ rest | some t ↦ t ]

unfoldable pub is_retryable_error : List Node → Bool
is_retryable_error [] = false
is_retryable_error (x ∷ xs) =
    let err = x ∷ xs in
    if any is_canceled err
    then false
    else if any is_deadline err
    then true
    else if any is_eof err
    then true
    else if any is_reset err
    then true
    else if any is_unknown_network err
    then true
    else if first_timeout err
    then true
    else any is_op_error err
