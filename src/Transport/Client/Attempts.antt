-- ===== src/Transport/Client/Attempts.antt =====
-- The attempts of doCall: what an answer leads to, the waits, and the loop.
use polymarket_go_sdk.Base.{
  ℕ, zero, suc, Option, none, some, List, [], ◌∷◌, ◌++◌, ◌||◌, not, leb, ◌==◌, is_empty,
  if◌then◌else◌,
}
use polymarket_go_sdk.Base.Text.{Text}
use polymarket_go_sdk.Base.Result.{Result, ok, err}
use polymarket_go_sdk.Transport.Client.{
  Header, HttpRequest, Response, ApiError, Failure, marshal_failed, context_error, create_failed,
  request_failed, read_failed, unmarshal_failed, http_status, api_error, Body, Client, World,
  retry_wait, Event, waited, sent, Outcome, returned, again, Signed, header_ready, retry_later,
  fatal, Job,
}
use polymarket_go_sdk.Transport.Client.Auth.{
  marshal_body, payload_of, url_of, base_header, authenticate,
}

module _ {ℓ κ μ} {E : Type ℓ} {D : Type κ} {V : Type μ} (w : World E D V) (c : Client E) where
  -- A types.Error of the answer's own, where it says anything.
  unfoldable pub status_error : Job → ℕ → Text → Option ApiError → Failure E
  status_error j status body none =
      api_error (record { status = status; code = []; message = body; path = j.path })
  status_error j status body (some e) =
      if not (is_empty e.message) || not (is_empty e.code)
      then api_error (record e { status = status; path = j.path })
      else api_error (record { status = status; code = []; message = body; path = j.path })

  unfoldable pub decoded : Job → Text → Outcome E D
  decoded j body =
      if j.wants
      then elim (w.decode body) [
        | ok d ↦ returned none (some d)
        | err e ↦ returned (some (unmarshal_failed e)) none
      ]
      else returned none none

  unfoldable pub body_outcome : Job → ℕ → Result E Text → Outcome E D
  unfolding status_error decoded
  body_outcome j status (err e) = again (read_failed e)
  body_outcome j status (ok body) =
      if leb 400 status
      then (if status == 429 || leb 500 status
          then again (http_status status body)
          else returned (some (status_error j status body (w.decode_error body))) none)
      else decoded j body

  unfoldable pub response_outcome : Job → Result E (Response E) → Outcome E D
  unfolding body_outcome
  response_outcome j (err e) = again (request_failed e)
  response_outcome j (ok r) = body_outcome j r.status r.body

  abbrev pub request_of : Job → Option Text → Header → HttpRequest
  request_of j serialized h = record {
    method = j.method;
    url = url_of w c j;
    header = h;
    body = payload_of w c serialized;
  }

  unfoldable pub send_signed :
      ℕ → Job → Option Text → List Event × Signed E → List Event × Outcome E D
  unfolding response_outcome
  send_signed a j serialized (log, retry_later f) = (log, again f)
  send_signed a j serialized (log, fatal f) = (log, returned (some f) none)
  send_signed a j serialized (log, header_ready h) =
      let r = request_of j serialized h in (log ++ sent r ∷ [], response_outcome j (w.send a r))

  -- An attempt, after its wait.
  unfoldable pub attempt : ℕ → Job → Option Text → List Event × Outcome E D
  unfolding send_signed
  attempt a j serialized = elim (w.new_request j.method (url_of w c j)) [
    | some e ↦ ([], returned (some (create_failed e)) none)
    | none ↦
        send_signed a j serialized (authenticate w c a j serialized (base_header w c j serialized))
  ]

  -- The wait before an attempt, which the first one has not.
  unfoldable pub waits : ℕ → List Event × Option E
  waits zero = ([], none)
  waits (suc a) = (waited (retry_wait (suc a)) ∷ [], w.done (suc a))

  unfoldable pub follow :
      (Failure E → List Event × Option (Failure E) × Option D)
      → List Event × Outcome E D
      → List Event × Option (Failure E) × Option D
  follow rest (log, returned e d) = (log, e, d)
  follow rest (log, again f) = let (more, error, dest) = rest f in (log ++ more, error, dest)

  unfoldable pub after_wait :
      (Failure E → List Event × Option (Failure E) × Option D)
      → List Event × Outcome E D
      → List Event × Option E
      → List Event × Option (Failure E) × Option D
  unfolding follow
  after_wait rest tried (log, some e) = (log, some (context_error e), none)
  after_wait rest tried (log, none) =
      let (more, error, dest) = follow rest tried in (log ++ more, error, dest)

  -- The loop from an attempt on, with a number of attempts left and lastErr.
  unfoldable pub attempts :
      ℕ → ℕ → Job → Option Text → Option (Failure E) → List Event × Option (Failure E) × Option D
  unfolding after_wait attempt waits
  attempts zero a j serialized last = ([], last, none)
  attempts (suc n) a j serialized last =
      after_wait (λ f. attempts n (suc a) j serialized (some f)) (attempt a j serialized) (waits a)

  abbrev default_max_retries : ℕ
  default_max_retries = 3

  unfoldable pub do_marshalled :
      Job → Result E (Option Text) → List Event × Option (Failure E) × Option D
  unfolding attempts
  do_marshalled j (err e) = ([], some (marshal_failed e), none)
  do_marshalled j (ok serialized) = attempts (suc default_max_retries) 0 j serialized none

  -- What is waited for and sent, the error, and what dest gets.
  unfoldable pub do_call : Job → Body V → List Event × Option (Failure E) × Option D
  unfolding do_marshalled
  do_call j body = do_marshalled j (marshal_body w c body)
