-- ===== src/Transport/Client/Loop.antt =====
-- doCall: how many requests it sends and how long it waits, which answers it tries again, and which
-- attempt decides its result.
use polymarket_go_sdk.Base.{
  ℕ, zero, suc, ◌+◌, ◌≤◌, ◌≡◌, refl, ◌⊎◌, inl, inr, ◌↔◌, ◌≢◌, Bool, true, false, List, [], ◌∷◌,
  arith,
}
use polymarket_go_sdk.Base.Text.{Text}
use polymarket_go_sdk.Base.Result.{Result, ok, err}
use polymarket_go_sdk.Transport.Client.{
  Response, Failure, http_status, retry_wait, Event, waited, sent, again, Job, Client, World,
}
use polymarket_go_sdk.Transport.Client.Attempts.{response_outcome, body_outcome, decoded}

-- How many requests a log holds.
abbrev pub requests : List Event → ℕ
requests [] = 0
requests (waited d ∷ es) = requests es
requests (sent r ∷ es) = suc (requests es)

-- The sum of its waits.
abbrev pub slept : List Event → ℕ
slept [] = 0
slept (waited d ∷ es) = d + slept es
slept (sent r ∷ es) = slept es

-- The most that an attempt sends: with the server's time it asks for that first.
abbrev per_attempt : Bool → ℕ
per_attempt false = 1
per_attempt true = 2

-- The sum of a number of waits, from that before an attempt on.
abbrev total_wait : ℕ → ℕ → ℕ
total_wait zero a = 0
total_wait (suc n) a = retry_wait a + total_wait n (suc a)

abbrev Broken {ℓ κ} : {E : Type ℓ} {A : Type κ} → Result E A → Type 0
Broken (err e) = Unit
Broken (ok a) = ⊥

-- An answer that is tried again: none, one that cannot be read, 429, or from 500 on.
abbrev Transient {ℓ} : {E : Type ℓ} → Result E (Response E) → Type 0
Transient (err e) = Unit
Transient (ok r) = Broken r.body ⊎ ((r.status ≡ 429) ⊎ (500 ≤ r.status))

module _ {ℓ κ μ} {E : Type ℓ} {D : Type κ} {V : Type μ} (w : World E D V) (c : Client E) where
  decoded-ends : (j : Job) (b : Text) (f : Failure E) → decoded w c j b ≢ again f
  unfolding decoded
  decoded-ends j b f = ground arith

  body_again :
      (j : Job) (s : ℕ) (b : Text) (f : Failure E)
      → body_outcome w c j s (ok b) ≡ again f
      → (s ≡ 429) ⊎ (500 ≤ s)
  unfolding body_outcome
  body_again j s b f h = ground (arith, decoded-ends j b f)

  body_retry :
      (j : Job) (s : ℕ) (b : Text)
      → (s ≡ 429) ⊎ (500 ≤ s)
      → body_outcome w c j s (ok b) ≡ again (http_status s b)
  unfolding body_outcome
  body_retry j s b h = ground arith

  body_iff :
      (j : Job) (s : ℕ) (r : Result E Text)
      → ((f : Failure E) × (body_outcome w c j s r ≡ again f))
        ↔ (Broken r ⊎ ((s ≡ 429) ⊎ (500 ≤ s)))
  unfolding body_outcome
  body_iff j s (err e) = ((λ x. inl _), (λ x. (_, refl)))
  body_iff j s (ok b) = (
    (λ x. inr (body_again j s b x.0 x.1)),
    (λ x. elim x [ inl e ↦ absurd e | inr h ↦ (_, body_retry j s b h) ]),
  )

  -- An answer leads to another attempt exactly if there was none, or it cannot be read, or its
  -- status is 429 or from 500 on; and the result is returned at once otherwise.
  retries_iff :
      (j : Job) (r : Result E (Response E))
      → ((f : Failure E) × (response_outcome w c j r ≡ again f)) ↔ Transient r
  unfolding response_outcome
  retries_iff j (err e) = ((λ x. _), (λ x. (_, refl)))
  retries_iff j (ok r) = body_iff j r.status r.body
