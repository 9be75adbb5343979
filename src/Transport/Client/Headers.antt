-- ===== src/Transport/Client/Headers.antt =====
-- The headers of a signed request of doCall.
use polymarket_go_sdk.Base.{
  ◌≡◌, refl, sym, ◌∙◌, inl, inr, ◌≢◌, true, Option, none, some, List, [], ◌∷◌, is_empty,
  if◌then◌else◌, arith, Bool-cases,
}
use polymarket_go_sdk.Base.Int.{ℤ}
use polymarket_go_sdk.Base.Text.{Text, codes, text_eq, text_eq_sound, to_lower, lower}
use polymarket_go_sdk.Base.Result.{Result, ok, err}
use polymarket_go_sdk.Transport.Client.{
  Header, header_set, set_all, add_builder, TimeFailure, ApiKey, BuilderHeaders, header_ready, Job,
  Client, World, format_int,
}
use polymarket_go_sdk.Transport.Client.Auth.{
  sign_path, add_from, sign_at, sign_with, with_builder, with_builder_headers, auth_header,
  signed_message,
}

is_empty_sound : (s : Text) → is_empty s ≡ true → s ≡ []
is_empty_sound [] h = refl
is_empty_sound (x ∷ s) h = cc

-- The header gives names that differ in case only the same value.
abbrev Respects : Header → Type 0
Respects h = (m n : Text) → to_lower m ≡ to_lower n → h m ≡ h n

header_set-Respects :
    (h : Header) (name value : Text) → Respects h → Respects (header_set h name value)
unfolding header_set
header_set-Respects h name value r m n e = rw e (rw (r m n e) refl)

set_all-Respects :
    (h : Header) (values : List (Text × Text)) → Respects h → Respects (set_all h values)
unfolding set_all
set_all-Respects h [] r = r
set_all-Respects h ((name, value) ∷ rest) r =
    set_all-Respects (header_set h name value) rest (header_set-Respects h name value r)

set_new_keeps :
    (h : Header) (name value n : Text)
    → Respects h
    → h n ≢ []
    → is_empty (h name) ≡ true
    → header_set h name value n ≡ h n
unfolding header_set
set_new_keeps h name value n r k e = elim (Bool-cases (text_eq (to_lower n) (to_lower name))) [
  | inl p ↦ absurd (k (r n name (text_eq_sound _ _ p) ∙ is_empty_sound (h name) e))
  | inr p ↦ rw p refl
]

-- One step of add_builder.
set_first : Header → Text → Text → Header
set_first h name v = if is_empty (h name) then header_set h name v else h

set_first_keeps :
    (h : Header) (name v n : Text) → Respects h → h n ≢ [] → set_first h name v n ≡ h n
unfolding set_first
set_first_keeps h name v n r k = elim (Bool-cases (is_empty (h name))) [
  | inl p ↦ rw p (set_new_keeps h name v n r k p)
  | inr p ↦ rw p refl
]

set_first-Respects : (h : Header) (name v : Text) → Respects h → Respects (set_first h name v)
unfolding set_first
set_first-Respects h name v r = elim (Bool-cases (is_empty (h name))) [
  | inl p ↦ rw p (header_set-Respects h name v r)
  | inr p ↦ rw p r
]

-- The builder's headers change no name that has a value.
add_builder_keeps :
    (h : Header) (hs : List (Text × List Text)) (n : Text)
    → Respects h
    → h n ≢ []
    → add_builder h hs n ≡ h n
unfolding add_builder set_first
add_builder_keeps h [] n r k = refl
add_builder_keeps h ((name, []) ∷ rest) n r k = add_builder_keeps h rest n r k
add_builder_keeps h ((name, v ∷ vs) ∷ rest) n r k =
    let first = set_first_keeps h name v n r k in
    add_builder_keeps (set_first h name v) rest n (set_first-Respects h name v r)
      (λ e. k (sym first ∙ e))
    ∙ first

-- What a request shows of its signature, each part that is not empty.
abbrev pub Carries : Header → Text → ApiKey → ℤ → Text → Type 0
Carries g address key ts sig =
    (sig ≢ [] → g (codes "POLY_SIGNATURE") ≡ sig)
    × (address ≢ [] → g (codes "POLY_ADDRESS") ≡ address)
    × (key.key ≢ [] → g (codes "POLY_API_KEY") ≡ key.key)
    × (key.passphrase ≢ [] → g (codes "POLY_PASSPHRASE") ≡ key.passphrase)
    × (format_int ts ≢ [] → g (codes "POLY_TIMESTAMP") ≡ format_int ts)

kept :
    (g a : Header) → ((n : Text) → a n ≢ [] → g n ≡ a n) → (n v : Text) → a n ≡ v → v ≢ [] → g n ≡ v
kept g a keeps n v e k = keeps n (λ z. k (sym e ∙ z)) ∙ e

module _ {ℓ κ μ} {E : Type ℓ} {D : Type κ} {V : Type μ} (w : World E D V) (c : Client E) where
  auth_header-Respects :
      (h : Header) (address : Text) (key : ApiKey) (ts : ℤ) (sig : Text)
      → Respects h
      → Respects (auth_header w c h address key ts sig)
  unfolding auth_header
  auth_header-Respects h address key ts sig r = set_all-Respects h _ r

  auth_header_values :
      (h : Header) (address : Text) (key : ApiKey) (ts : ℤ) (sig : Text)
      → let a = auth_header w c h address key ts sig in
        (a (codes "POLY_SIGNATURE") ≡ sig)
        × (a (codes "POLY_ADDRESS") ≡ address)
        × (a (codes "POLY_API_KEY") ≡ key.key)
        × (a (codes "POLY_PASSPHRASE") ≡ key.passphrase)
        × (a (codes "POLY_TIMESTAMP") ≡ format_int ts)
  unfolding auth_header set_all header_set text_eq to_lower lower
  auth_header_values h address key ts sig = (refl, refl, refl, refl, refl)

  with_builder_headers_keeps :
      (h g : Header) (n : Text) (hs : Result E (List (Text × List Text)))
      → with_builder_headers w c h hs ≡ header_ready g
      → Respects h
      → h n ≢ []
      → g n ≡ h n
  unfolding with_builder_headers
  with_builder_headers_keeps h g n (err x) e r k = cc
  with_builder_headers_keeps h g n (ok hs) e r k =
      let p : add_builder h hs ≡ g = cc (e) in rw (sym p) (add_builder_keeps h hs n r k)

  add_from_keeps :
      (b : Option (BuilderHeaders E)) (j : Job) (s : Option Text) (ts : ℤ) (h g : Header) (n : Text)
      → add_from w c b j s ts h ≡ header_ready g
      → Respects h
      → h n ≢ []
      → g n ≡ h n
  unfolding add_from
  add_from_keeps none j s ts h g n e r k = let p : h ≡ g = cc (e) in rw p refl
  add_from_keeps (some f) j s ts h g n e r k =
      ground (arith, with_builder_headers_keeps h g n (f j.method (sign_path w c j) s ts), r, k)

  sign_with_headers :
      (j : Job) (s : Option Text) (ts : ℤ) (h g : Header) (address : Text) (key : ApiKey)
      (r : Result E Text)
      → Respects h
      → sign_with w c j s ts h address key r ≡ header_ready g
      → (sig : Text) × (r ≡ ok sig) × Carries g address key ts sig
  unfolding sign_with with_builder
  sign_with_headers j s ts h g address key (err x) r e = cc
  sign_with_headers j s ts h g address key (ok sig) r e =
      let a : Header = auth_header w c h address key ts sig in
      let keeps : (n : Text) → a n ≢ [] → g n ≡ a n = λ n k.
        add_from_keeps c.builder j s ts a g n e (auth_header-Respects h address key ts sig r) k in
      let (u, v, x, y, z) = auth_header_values h address key ts sig in
      (
        sig,
        refl,
        (
          kept g a keeps (codes "POLY_SIGNATURE") sig u,
          kept g a keeps (codes "POLY_ADDRESS") address v,
          kept g a keeps (codes "POLY_API_KEY") key.key x,
          kept g a keeps (codes "POLY_PASSPHRASE") key.passphrase y,
          kept g a keeps (codes "POLY_TIMESTAMP") (format_int ts) z,
        ),
      )

  -- A request that is signed with the server's time or the local one carries, whatever the
  -- builder's headers are, the signature of its message at that time, and the address, the key, the
  -- passphrase and the time, each that is not empty.
  pub sign_at_headers :
      (j : Job) (s : Option Text) (h g : Header) (address : Text) (key : ApiKey)
      (time : Result (TimeFailure E) ℤ)
      → Respects h
      → sign_at w c j s h address key time ≡ header_ready g
      → (ts : ℤ) × (sig : Text) × (time ≡ ok ts)
        × (w.sign key.secret (signed_message w c j s ts) ≡ ok sig)
        × Carries g address key ts sig
  unfolding sign_at
  sign_at_headers j s h g address key (err x) r e = cc
  sign_at_headers j s h g address key (ok ts) r e =
      let (sig, p, q) =
        sign_with_headers j s ts h g address key (w.sign key.secret (signed_message w c j s ts)) r
          e in
      (ts, sig, refl, p, q)
