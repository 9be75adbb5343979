-- ===== src/Transport/Client.antt =====
-- pkg/transport/transport.go: doCall, serverTime and Call of the HTTP client, and MarshalBody of
-- pkg/transport/body.go. What net/http, encoding/json and pkg/auth do is the record `World`; its
-- functions take the number of the attempt, since each attempt may be answered otherwise. `E` is
-- the type of their errors, `D` of the decoded answer, `V` of the values that are sent as JSON.
pub mod Auth
pub mod Attempts
pub mod Headers
pub mod Loop
pub mod Settles
pub mod Breaking
pub mod Counting
mod Examples
use polymarket_go_sdk.Base.{
  ℕ, zero, suc, ◌+◌, ◌*◌, ◌/◌, ◌%◌, ◌^◌, Bool, true, false, Option, none, some, List, [], ◌∷◌, ◌++◌,
  ◌||◌, ◌&&◌, not, leb, ltb, ◌==◌, is_empty, is_some, if◌then◌else◌,
}
use polymarket_go_sdk.Base.Int.{ℤ, pos, negsuc, is_nonpos, ltb_ℤ}
use polymarket_go_sdk.Base.Text.{Text, codes, text_eq, to_lower}
use polymarket_go_sdk.Base.Result.{Result, ok, err}

-- An http.Header by the first value of each name, empty where there is none. Names are compared
-- without regard to case, as net/http does.
abbrev pub Header : Type 0
Header = Text → Text

unfoldable pub header_set : Header → Text → Text → Header
header_set h name value n = if text_eq (to_lower n) (to_lower name) then value else h n

-- `for k, v := range headers`, in the order of the iteration.
unfoldable pub set_all : Header → List (Text × Text) → Header
unfolding header_set
set_all h [] = h
set_all h ((name, value) ∷ rest) = set_all (header_set h name value) rest

-- The first values of the builder's headers, where the request has none yet.
unfoldable pub add_builder : Header → List (Text × List Text) → Header
unfolding header_set
add_builder h [] = h
add_builder h ((name, []) ∷ rest) = add_builder h rest
add_builder h ((name, v ∷ vs) ∷ rest) =
    add_builder (if is_empty (h name) then header_set h name v else h) rest

pub record HttpRequest : Type 0 where
  pub method : Text
  pub url : Text
  pub header : Header
  pub body : Text

pub record Response {ℓ} (E : Type ℓ) : Type ℓ where
  pub status : ℕ
  -- What io.ReadAll gives.
  pub body : Result E Text

-- types.Error
pub record ApiError : Type 0 where
  pub status : ℕ
  pub code : Text
  pub message : Text
  pub path : Text

pub data TimeFailure {ℓ} (E : Type ℓ) : Type ℓ where
  time_create time_request time_read : E → TimeFailure E
  time_status : ℕ → TimeFailure E
  time_invalid : TimeFailure E

pub data Failure {ℓ} (E : Type ℓ) : Type ℓ where
  marshal_failed context_error create_failed sign_failed builder_failed : E → Failure E
  request_failed read_failed unmarshal_failed limiter_failed : E → Failure E
  time_failed : TimeFailure E → Failure E
  http_status : ℕ → Text → Failure E
  api_error : ApiError → Failure E

pub data Body {ℓ} (V : Type ℓ) : Type ℓ where
  no_body : Body V
  -- A []byte, a json.RawMessage or a string.
  raw : Text → Body V
  value : V → Body V

pub record ApiKey : Type 0 where
  pub key : Text
  pub secret : Text
  pub passphrase : Text

-- BuilderConfig.Headers, of a method, a path, a body and a time.
abbrev pub BuilderHeaders {ℓ} : Type ℓ → Type ℓ
BuilderHeaders E = Text → Text → Option Text → ℤ → Result E (List (Text × List Text))

-- The fields of the client that doCall reads. The signer is its address, and the builder is what
-- its Headers returns, with IsValid.
pub record Client {ℓ} (E : Type ℓ) : Type ℓ where
  pub base_url : Text
  pub user_agent : Text
  pub signer : Option Text
  pub api_key : Option ApiKey
  pub use_server_time : Bool
  pub builder : Option (BuilderHeaders E)
  pub builder_valid : Bool

pub record World {ℓ κ μ} (E : Type ℓ) (D : Type κ) (V : Type μ) : Type (ℓ ⊔ κ ⊔ μ) where
  -- ctx.Err(), where the context ends the wait before an attempt.
  pub done : ℕ → Option E
  -- The error of http.NewRequestWithContext for a method and a URL.
  pub new_request : Text → Text → Option E
  -- time.Now().Unix()
  pub clock : ℕ → ℤ
  -- Doer.Do
  pub send : ℕ → HttpRequest → Result E (Response E)
  -- json.Marshal
  pub marshal : V → Result E Text
  -- json.Unmarshal into dest, into a types.Error, into an int64 and into the payload of the time.
  pub decode : Text → Result E D
  pub decode_error : Text → Option ApiError
  pub decode_int : Text → Option ℤ
  pub decode_time : Text → Option (ℤ × Text)
  -- strconv.ParseInt(s, 10, 64)
  pub parse_int : Text → Option ℤ
  -- auth.SignHMAC
  pub sign : Text → Text → Result E Text

-- The digits of a number, of which there are at most as many as the first argument.
unfoldable pub digits : ℕ → ℕ → Text
digits zero n = []
digits (suc f) n =
    let rest = digits f (n / 10) in if ltb n 10 then (48 + n) ∷ [] else rest ++ (48 + n % 10) ∷ []

-- `%d` of an int64, which has at most 19 digits.
unfoldable pub format_int : ℤ → Text
unfolding digits
format_int (pos n) = digits 19 n
format_int (negsuc n) = 45 ∷ digits 19 (suc n)

-- strings.TrimLeft(s, "/")
unfoldable pub trim_slashes : Text → Text
trim_slashes [] = []
trim_slashes (c ∷ s) = let rest = trim_slashes s in if c == 47 then rest else c ∷ s

-- strings.ReplaceAll(s, "'", "\"")
unfoldable pub replace_quotes : Text → Text
replace_quotes [] = []
replace_quotes (c ∷ s) = (if c == 39 then 34 else c) ∷ replace_quotes s

-- The wait before an attempt, in nanoseconds.
unfoldable pub retry_wait : ℕ → ℕ
retry_wait zero = 0
retry_wait (suc a) = let w = 100000000 * 2 ^ a in if ltb 2000000000 w then 2000000000 else w

pub data Event : Type 0 where
  waited : ℕ → Event
  sent : HttpRequest → Event

-- How an attempt ends: doCall returns an error or what it stored in dest, or tries again.
pub data Outcome {ℓ κ} (E : Type ℓ) (D : Type κ) : Type (ℓ ⊔ κ) where
  returned : Option (Failure E) → Option D → Outcome E D
  again : Failure E → Outcome E D

pub data Signed {ℓ} (E : Type ℓ) : Type ℓ where
  header_ready : Header → Signed E
  retry_later fatal : Failure E → Signed E

-- One call of Call: its arguments and the payload.
pub record Job : Type 0 where
  pub method : Text
  pub path : Text
  pub query : Text
  pub headers : List (Text × Text)
  -- Is dest not nil?
  pub wants : Bool
