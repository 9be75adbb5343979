-- ===== src/Transport/Client/Examples.antt =====
-- The theorems on the HTTP client at concrete inputs: a server that is busy for the first attempt,
-- asked for its time before each.
use polymarket_go_sdk.Base.{ℕ, zero, suc, ◌≡◌, refl, ◌↔◌, true, false, none, some, [], arith}
use polymarket_go_sdk.Base.Int.{ℤ, pos}
use polymarket_go_sdk.Base.Text.{Text, codes}
use polymarket_go_sdk.Base.Result.{Result, ok}
use polymarket_go_sdk.Transport.CircuitBreaker.{Breaker, default_config, new_circuit_breaker}
use polymarket_go_sdk.Transport.Client
use polymarket_go_sdk.Transport.Client.{
  Header, HttpRequest, Response, ApiKey, Job, World, Body, raw, TimeFailure, set_all, Outcome,
  returned, again, header_ready, http_status,
}
use polymarket_go_sdk.Transport.Client.Auth.{
  marshal_body, authenticate, auth_header, signed_message, sign_at, sign_with, with_builder,
  add_from,
}
use polymarket_go_sdk.Transport.Client.Attempts.{
  do_call, response_outcome, send_signed, decoded, attempt, waits, body_outcome,
}
use polymarket_go_sdk.Transport.Client.Breaking.{Facts, no_facts, Meanwhile}
use polymarket_go_sdk.Transport.Client.Headers.{Carries, sign_at_headers}
use polymarket_go_sdk.Transport.Client.Settles.{
  RetriedTo, Succeeds, Gives, do_call_nil, do_call_decides,
}

abbrev answer : ℕ → Result ℕ (Response ℕ)
answer zero = ok (record { status = 503; body = ok (codes "busy") })
answer (suc a) = ok (record { status = 200; body = ok (codes "done") })

-- Busy before attempt 1, and well from there on; the time is 7.
abbrev busy_once : World ℕ Text Text
busy_once = record {
  done = λ a. none;
  new_request = λ m u. none;
  clock = λ a. pos 7;
  send = λ a r. answer a;
  marshal = λ v. ok v;
  decode = λ b. ok b;
  decode_error = λ b. none;
  decode_int = λ b. some (pos 7);
  decode_time = λ b. none;
  parse_int = λ s. none;
  sign = λ secret message. ok (codes "sig");
}

abbrev plain_client : Client.Client ℕ
plain_client = record {
  base_url = codes "https://x";
  user_agent = codes "ua";
  signer = none;
  api_key = none;
  use_server_time = false;
  builder = none;
  builder_valid = false;
}

abbrev job : Job
job = record {
  method = codes "GET";
  path = codes "/orders";
  query = [];
  headers = [];
  wants = true;
}

do_call_nil_example :
    Gives busy_once plain_client
      (do_call busy_once plain_client job (raw []))
      none
      (some (codes "done"))
    ↔ Succeeds busy_once plain_client job (some []) 4 0 (some (codes "done"))
unfolding marshal_body
do_call_nil_example =
    do_call_nil busy_once plain_client job (raw []) (some []) (some (codes "done")) refl

busy-Retried : RetriedTo busy_once plain_client job (some []) 0 1
unfolding waits attempt authenticate send_signed response_outcome body_outcome
busy-Retried zero h k = (http_status 503 (codes "busy"), (refl, refl))
busy-Retried (suc i) h k = absurd (omega arith)

do_call_decides_example :
    Gives busy_once plain_client
      (do_call busy_once plain_client job (raw []))
      none
      (some (codes "done"))
unfolding marshal_body waits attempt authenticate send_signed response_outcome body_outcome decoded
do_call_decides_example =
    (do_call_decides busy_once plain_client job (raw []) (some []) refl).0 1 none
      (some (codes "done")) (omega arith) busy-Retried (refl, refl)

abbrev no_cause : ℕ → Facts
no_cause e = no_facts

abbrev key : ApiKey
key = record { key = codes "k"; secret = codes "s"; passphrase = codes "p" }

abbrev signed_header : Header
signed_header = auth_header busy_once plain_client (λ n. []) (codes "0x1") key (pos 7) (codes "sig")

abbrev seven : Result (TimeFailure ℕ) ℤ
seven = ok (pos 7)

sign_at_headers_example :
    (ts : ℤ) × (sig : Text) × (seven ≡ ok ts)
    × (busy_once.sign key.secret (signed_message busy_once plain_client job (some []) ts) ≡ ok sig)
    × Carries signed_header (codes "0x1") key ts sig
unfolding sign_at sign_with with_builder add_from
sign_at_headers_example =
    sign_at_headers busy_once plain_client job (some []) (λ n. []) signed_header (codes "0x1") key
      seven (λ m n e. refl) refl

abbrev breaker : Breaker
unfolding new_circuit_breaker
breaker = new_circuit_breaker default_config

abbrev alone : Meanwhile
alone = record { others = λ b. b; finish = 12 }
