-- ===== src/Transport/Client/Counting.antt =====
-- What the circuit breaker of a client learns of its requests.
use polymarket_go_sdk.Base.{ℕ, ◌≤◌, ◌≡◌, ◌⊎◌, ◌↔◌, true, none, some, arith}
use polymarket_go_sdk.Base.Text.{Text}
use polymarket_go_sdk.Base.Result.{ok}
use polymarket_go_sdk.Transport.Client.{Client, Failure, again, returned, Job, World}
use polymarket_go_sdk.Transport.Client.Attempts.{body_outcome, status_error}
use polymarket_go_sdk.Transport.Client.Breaking.{Facts, should_count, failure_facts}

module _ {ℓ κ μ} {E : Type ℓ} {D : Type κ} {V : Type μ} (w : World E D V) (c : Client E)
    (facts : E → Facts) where
  -- The error to which an answer with a status from 400 on leads is counted exactly if the status
  -- is from 500 on.
  status_counts :
      (j : Job) (status : ℕ) (body : Text) (f : Failure E)
      → 400 ≤ status
      → (body_outcome w c j status (ok body) ≡ again f)
        ⊎ (body_outcome w c j status (ok body) ≡ returned (some f) none)
      → (should_count facts f ≡ true) ↔ (500 ≤ status)
  unfolding body_outcome status_error should_count failure_facts
  status_counts j status body f h o = ground arith
