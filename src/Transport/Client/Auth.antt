-- ===== src/Transport/Client/Auth.antt =====
-- The requests of doCall: the address, the server's time, and the headers with the signature.
use polymarket_go_sdk.Base.{
  ℕ, Option, none, some, List, [], ◌∷◌, ◌++◌, not, leb, is_empty, if◌then◌else◌,
}
use polymarket_go_sdk.Base.Int.{ℤ, is_nonpos}
use polymarket_go_sdk.Base.Text.{Text, codes}
use polymarket_go_sdk.Base.Result.{Result, ok, err}
use polymarket_go_sdk.Transport.Client.{
  Header, header_set, set_all, add_builder, HttpRequest, Response, TimeFailure, time_create,
  time_request, time_read, time_status, time_invalid, sign_failed, builder_failed, time_failed,
  Body, no_body, raw, value, ApiKey, BuilderHeaders, Client, World, format_int, trim_slashes,
  replace_quotes, Event, sent, Signed, header_ready, retry_later, fatal, Job,
}

module _ {ℓ κ μ} {E : Type ℓ} {D : Type κ} {V : Type μ} (w : World E D V) (c : Client E) where
  unfoldable pub marshal_body : Body V → Result E (Option Text)
  marshal_body no_body = ok none
  marshal_body (raw s) = ok (some s)
  marshal_body (value v) = elim (w.marshal v) [ ok s ↦ ok (some s) | err e ↦ err e ]

  abbrev pub payload_of : Option Text → Text
  payload_of none = []
  payload_of (some s) = s

  abbrev plain_header : Header
  plain_header =
      set_all (λ n. [])
        ((codes "User-Agent", c.user_agent) ∷ (codes "Accept", codes "application/json") ∷ [])

  abbrev time_request_of : HttpRequest
  time_request_of = record {
    method = codes "GET";
    url = c.base_url ++ codes "/time";
    header = plain_header;
    body = [];
  }

  -- The second format of the answer.
  time_payload : Option (ℤ × Text) → Result (TimeFailure E) ℤ
  time_payload none = err time_invalid
  time_payload (some (timestamp, server_time)) =
      if not (is_nonpos timestamp)
      then ok timestamp
      else if is_empty server_time
      then err time_invalid
      else elim (w.parse_int server_time) [ some t ↦ ok t | none ↦ err time_invalid ]

  time_body : Text → Option ℤ → Result (TimeFailure E) ℤ
  unfolding time_payload
  time_body body none = time_payload (w.decode_time body)
  time_body body (some t) = if is_nonpos t then time_payload (w.decode_time body) else ok t

  time_answer : ℕ → Result E Text → Result (TimeFailure E) ℤ
  unfolding time_body
  time_answer status (err e) = err (time_read e)
  time_answer status (ok body) =
      if leb 400 status then err (time_status status) else time_body body (w.decode_int body)

  time_response : Result E (Response E) → Result (TimeFailure E) ℤ
  unfolding time_answer
  time_response (err e) = err (time_request e)
  time_response (ok r) = time_answer r.status r.body

  unfoldable pub server_time : ℕ → List Event × Result (TimeFailure E) ℤ
  unfolding time_response
  server_time a = elim (w.new_request (codes "GET") (c.base_url ++ codes "/time")) [
    | some e ↦ ([], err (time_create e))
    | none ↦ (sent time_request_of ∷ [], time_response (w.send a time_request_of))
  ]

  abbrev pub url_of : Job → Text
  url_of j =
      let u = c.base_url ++ codes "/" ++ trim_slashes j.path in
      if is_empty j.query then u else u ++ codes "?" ++ j.query

  abbrev pub sign_path : Job → Text
  sign_path j = codes "/" ++ trim_slashes j.path

  -- The header before any signature.
  unfoldable pub base_header : Job → Option Text → Header
  base_header j serialized =
      let h = plain_header in
      set_all
        (if is_empty (payload_of serialized)
          then h
          else header_set h (codes "Content-Type") (codes "application/json"))
        j.headers

  -- What is signed at a time.
  unfoldable pub signed_message : Job → Option Text → ℤ → Text
  signed_message j serialized ts =
      format_int ts ++ j.method ++ sign_path j ++ replace_quotes (payload_of serialized)

  unfoldable pub auth_header : Header → Text → ApiKey → ℤ → Text → Header
  auth_header h address key ts sig = set_all h (
      (codes "POLY_ADDRESS", address)
      ∷ (codes "POLY_API_KEY", key.key)
      ∷ (codes "POLY_PASSPHRASE", key.passphrase)
      ∷ (codes "POLY_TIMESTAMP", format_int ts)
      ∷ (codes "POLY_SIGNATURE", sig)
      ∷ [])

  unfoldable pub with_builder_headers : Header → Result E (List (Text × List Text)) → Signed E
  with_builder_headers h (err e) = fatal (builder_failed e)
  with_builder_headers h (ok hs) = header_ready (add_builder h hs)

  unfoldable pub add_from : Option (BuilderHeaders E) → Job → Option Text → ℤ → Header → Signed E
  unfolding with_builder_headers
  add_from none j serialized ts h = header_ready h
  add_from (some headers) j serialized ts h =
      if c.builder_valid
      then with_builder_headers h (headers j.method (sign_path j) serialized ts)
      else header_ready h

  unfoldable pub with_builder : Job → Option Text → ℤ → Header → Signed E
  unfolding add_from
  with_builder j serialized ts h = add_from c.builder j serialized ts h

  unfoldable pub sign_with :
      Job → Option Text → ℤ → Header → Text → ApiKey → Result E Text → Signed E
  sign_with j serialized ts h address key (err e) = fatal (sign_failed e)
  sign_with j serialized ts h address key (ok sig) =
      with_builder j serialized ts (auth_header h address key ts sig)

  unfoldable pub sign_at :
      Job → Option Text → Header → Text → ApiKey → Result (TimeFailure E) ℤ → Signed E
  unfolding sign_with
  sign_at j serialized h address key (err e) = retry_later (time_failed e)
  sign_at j serialized h address key (ok ts) =
      sign_with j serialized ts h address key (w.sign key.secret (signed_message j serialized ts))

  unfoldable pub sign_now : ℕ → Job → Option Text → Header → Text → ApiKey → List Event × Signed E
  sign_now a j serialized h address key =
      let (log, ts) = server_time a in
      if c.use_server_time
      then (log, sign_at j serialized h address key ts)
      else ([], sign_at j serialized h address key (ok (w.clock a)))

  -- L2 authentication: only with a key and a signer, and not over a signature of the caller's.
  unfoldable pub authenticate : ℕ → Job → Option Text → Header → List Event × Signed E
  unfolding sign_now
  authenticate a j serialized h = elim c.api_key [
    | none ↦ ([], header_ready h)
    | some key ↦ elim c.signer [
      | none ↦ ([], header_ready h)
      | some address ↦
          if is_empty (h (codes "POLY_SIGNATURE"))
          then sign_now a j serialized h address key
          else ([], header_ready h)
    ]
  ]
