-- ===== src/Transport/Client/Settles.antt =====
-- Which attempt decides the result of doCall.
use polymarket_go_sdk.Base.{
  ℕ, zero, suc, ◌+◌, ◌≤◌, ◌<◌, ◌≡◌, refl, subst, ◌⊎◌, inl, inr, ◌↔◌, Option, none, some, List,
  arith,
}
use polymarket_go_sdk.Base.Text.{Text}
use polymarket_go_sdk.Base.Result.{ok}
use polymarket_go_sdk.Transport.Client.{
  Failure, Event, Outcome, returned, again, Job, Client, World, Body,
}
use polymarket_go_sdk.Transport.Client.Auth.{marshal_body}
use polymarket_go_sdk.Transport.Client.Attempts.{
  attempt, waits, attempts, follow, after_wait, do_call, do_marshalled,
}

le_cases : {a k : ℕ} → a ≤ k → (a ≡ k) ⊎ (a < k)
le_cases {a = a} {k = k} h = ground arith

module _ {ℓ κ μ} {E : Type ℓ} {D : Type κ} {V : Type μ} (w : World E D V) (c : Client E) where
  -- The context lets an attempt start, and it ends with an outcome.
  abbrev Ends : Job → Option Text → ℕ → Outcome E D → Type (ℓ ⊔ κ)
  Ends j s a o = ((waits w c a).1 ≡ none) × ((attempt w c a j s).1 ≡ o)

  abbrev Retried : Job → Option Text → ℕ → Type (ℓ ⊔ κ)
  Retried j s a = (f : Failure E) × Ends j s a (again f)

  -- doCall returns the error, and has stored the value in dest.
  abbrev pub Gives :
      List Event × Option (Failure E) × Option D → Option (Failure E) → Option D → Type (ℓ ⊔ κ)
  Gives r e d = (r.1 ≡ e) × (r.2 ≡ d)

  after_wait-returned :
      (rest : Failure E → List Event × Option (Failure E) × Option D)
      (tried : List Event × Outcome E D) (waiting : List Event × Option E) (e : Option (Failure E))
      (d : Option D)
      → waiting.1 ≡ none
      → tried.1 ≡ returned e d
      → Gives (after_wait w c rest tried waiting) e d
  unfolding after_wait follow
  after_wait-returned rest (more, o) (log, none) e d h k = rw k (refl, refl)
  after_wait-returned rest tried (log, some x) e d h k = cc

  after_wait-again :
      (rest : Failure E → List Event × Option (Failure E) × Option D)
      (tried : List Event × Outcome E D) (waiting : List Event × Option E) (f : Failure E)
      (e : Option (Failure E)) (d : Option D)
      → waiting.1 ≡ none
      → tried.1 ≡ again f
      → Gives (rest f) e d
      → Gives (after_wait w c rest tried waiting) e d
  unfolding after_wait follow
  after_wait-again rest (more, o) (log, none) f e d h k g = rw k g
  after_wait-again rest tried (log, some x) f e d h k g = cc

  after_wait-nil :
      (rest : Failure E → List Event × Option (Failure E) × Option D)
      (tried : List Event × Outcome E D) (waiting : List Event × Option E) (d : Option D)
      → Gives (after_wait w c rest tried waiting) none d
      → (waiting.1 ≡ none)
        × ((tried.1 ≡ returned none d)
            ⊎ ((f : Failure E) × (tried.1 ≡ again f) × Gives (rest f) none d))
  unfolding after_wait follow
  after_wait-nil rest (more, returned e x) (log, none) d h = (refl, inl (rw (h.0, h.1) refl))
  after_wait-nil rest (more, again f) (log, none) d h = (refl, inr (f, refl, h))
  after_wait-nil rest tried (log, some x) d h = cc (h.0)

  -- From an attempt on, all those before another are to be retried.
  abbrev pub RetriedTo : Job → Option Text → ℕ → ℕ → Type (ℓ ⊔ κ)
  RetriedTo j s a k = (i : ℕ) → a ≤ i → i < k → Retried j s i

  attempts-settled :
      (n a k : ℕ) (j : Job) (s : Option Text) (last : Option (Failure E)) (e : Option (Failure E))
      (d : Option D)
      → a ≤ k
      → k < a + n
      → RetriedTo j s a k
      → Ends j s k (returned e d)
      → Gives (attempts w c n a j s last) e d
  unfolding attempts
  attempts-settled zero a k j s last e d h b r o = absurd (omega arith)
  attempts-settled (suc n) a k j s last e d h b r o = elim (le_cases h) [
    | inl p ↦
        after_wait-returned (λ f. attempts w c n (suc a) j s (some f)) (attempt w c a j s)
          (waits w c a) e d (rw p o.0) (rw p o.1)
    | inr p ↦
        let t : Retried j s a = r a (omega arith) p in
        after_wait-again (λ f. attempts w c n (suc a) j s (some f)) (attempt w c a j s)
          (waits w c a) t.0 e d t.1.0 t.1.1
          (attempts-settled n (suc a) k j s (some t.0) e d p (omega arith)
            (λ i u v. r i (omega arith) v) o)
  ]

  attempts-exhausted :
      (n a k : ℕ) (j : Job) (s : Option Text) (last : Option (Failure E)) (f : Failure E)
      → k ≡ a + n
      → RetriedTo j s a k
      → Ends j s k (again f)
      → Gives (attempts w c (suc n) a j s last) (some f) none
  unfolding attempts
  attempts-exhausted zero a k j s last f h r o =
      let p : a ≡ k = omega (arith, h) in
      after_wait-again (λ x. attempts w c 0 (suc a) j s (some x)) (attempt w c a j s) (waits w c a)
        f (some f) none (rw p o.0) (rw p o.1) (refl, refl)
  attempts-exhausted (suc n) a k j s last f h r o =
      let t : Retried j s a = r a (omega arith) (omega arith) in
      after_wait-again (λ x. attempts w c (suc n) (suc a) j s (some x)) (attempt w c a j s)
        (waits w c a) t.0 (some f) none t.1.0 t.1.1
        (attempts-exhausted n (suc a) k j s (some t.0) f (omega arith)
          (λ i u v. r i (omega arith) v) o)

  -- Within a number of attempts from one on, one succeeds and those before it are to be retried.
  abbrev pub Succeeds : Job → Option Text → ℕ → ℕ → Option D → Type (ℓ ⊔ κ)
  Succeeds j s n a d =
      (k : ℕ) × (a ≤ k) × (k < a + n) × RetriedTo j s a k × Ends j s k (returned none d)

  Succeeds-later :
      (n a : ℕ) (j : Job) (s : Option Text) (d : Option D)
      → Retried j s a
      → Succeeds j s n (suc a) d
      → Succeeds j s (suc n) a d
  Succeeds-later n a j s d t (k, h, b, r, o) = (
    k,
    omega arith,
    omega arith,
    (λ i u v. elim (le_cases u) [ inl p ↦ subst (λ i. Retried j s i) p t | inr p ↦ r i p v ]),
    o,
  )

  step_nil :
      (n a : ℕ) (j : Job) (s : Option Text) (last : Option (Failure E)) (d : Option D)
      → ((f : Failure E)
          → Gives (attempts w c n (suc a) j s (some f)) none d
          → Succeeds j s n (suc a) d)
      → Gives (attempts w c (suc n) a j s last) none d
      → Succeeds j s (suc n) a d
  unfolding attempts
  step_nil n a j s last d rec g =
      let (h, r) =
        after_wait-nil (λ f. attempts w c n (suc a) j s (some f)) (attempt w c a j s) (waits w c a)
          d g in
      elim r [
        | inl o ↦ (a, omega arith, omega arith, (λ i u v. absurd (omega arith)), (h, o))
        | inr (f, o, g) ↦ Succeeds-later n a j s d (f, (h, o)) (rec f g)
      ]

  attempts-nil :
      (n a : ℕ) (j : Job) (s : Option Text) (last : Failure E) (d : Option D)
      → Gives (attempts w c n a j s (some last)) none d
      → Succeeds j s n a d
  unfolding attempts
  attempts-nil zero a j s last d g = cc (g.0)
  attempts-nil (suc n) a j s last d g =
      step_nil n a j s (some last) d (λ f. attempts-nil n (suc a) j s f d) g

  -- doCall, with a body that can be marshalled, returns no error exactly if one of its four
  -- attempts succeeds and all those before it are to be retried, none of them stopped by the
  -- context; what it stores is then that attempt's.
  pub do_call_nil :
      (j : Job) (body : Body V) (s : Option Text) (d : Option D)
      → marshal_body w c body ≡ ok s
      → Gives (do_call w c j body) none d ↔ Succeeds j s 4 0 d
  unfolding do_call do_marshalled
  do_call_nil j body s d h = rw h (
    step_nil 3 0 j s none d (λ f. attempts-nil 3 1 j s f d),
    (λ x. attempts-settled 4 0 x.0 j s none none d x.1 x.2 x.3 x.4),
  )

  -- With a body that can be marshalled, where all the attempts before one are to be retried, doCall
  -- returns what that one returns; and where all four are to be retried, it returns the error of
  -- the last.
  pub do_call_decides :
      (j : Job) (body : Body V) (s : Option Text)
      → marshal_body w c body ≡ ok s
      → ((k : ℕ) (e : Option (Failure E)) (d : Option D)
          → k < 4
          → RetriedTo j s 0 k
          → Ends j s k (returned e d)
          → Gives (do_call w c j body) e d)
        × ((f : Failure E)
            → RetriedTo j s 0 3
            → Ends j s 3 (again f)
            → Gives (do_call w c j body) (some f) none)
  unfolding do_call do_marshalled
  do_call_decides j body s h = rw h (
    (λ k e d b r o. attempts-settled 4 0 k j s none e d (omega arith) b r o),
    (λ f r o. attempts-exhausted 3 0 3 j s none f refl r o),
  )
