-- ===== src/Execution/Idempotency/RoundTrip.antt =====
-- What is built is parsed back, and what a key tells apart.
use polymarket_go_sdk.Base.{
  ◌≡◌, refl, sym, ap, ◌∙◌, false, Option, none, some, is_empty, arith, [], ◌∷◌, ◌++◌,
}
use mathlib.Core.List.{append_assoc}
use polymarket_go_sdk.Base.Text.{Text, codes, is_space, text_eq, trim_space}
use polymarket_go_sdk.Base.Text.Trimmed.{
  Trimmed, Trimmed-append, Trimmed-to_lower, trim_space-Trimmed, Trimmed-trim_space,
}
use polymarket_go_sdk.Base.Text.Split.{has, split, split_free, split-append, cut}
use polymarket_go_sdk.Base.Result.{ok}
use polymarket_go_sdk.Execution.Idempotency.{
  Parts, IdempotencyKey, KeyError, normalize_scope_part, normalized, canonical_of, check_parts,
  key_of, checked, build_idempotency_key, lookup, entry, parse_part, parse_parts, required, collect,
  parse_idempotency_canonical,
}

-- Parts as a key holds them: trimmed, with something in each, and no ";".
pub record Clean (p : Parts) : Type 0 where
  pub tenant_trimmed : Trimmed p.tenant
  pub strategy_trimmed : Trimmed p.strategy
  pub id_trimmed : Trimmed p.client_order_id
  pub tenant_there : is_empty p.tenant ≡ false
  pub strategy_there : is_empty p.strategy ≡ false
  pub id_there : is_empty p.client_order_id ≡ false
  pub tenant_free : has 59 p.tenant ≡ false
  pub strategy_free : has 59 p.strategy ≡ false
  pub id_free : has 59 p.client_order_id ≡ false

parse_labelled :
    (part label s : Text)
    → Trimmed part
    → cut 61 part ≡ some (label, s)
    → Trimmed label
    → is_empty label ≡ false
    → Trimmed s
    → is_empty s ≡ false
    → parse_part part ≡ some (label, s)
unfolding parse_part entry
parse_labelled part label s hp hc hl nl hs ns =
    rw (Trimmed-trim_space part hp)
      (rw hc (rw (Trimmed-trim_space label hl) (rw (Trimmed-trim_space s hs) (rw nl (rw ns refl)))))

tenant-Trimmed : (s : Text) → Trimmed s → Trimmed (codes "tenant=" ++ s)
unfolding is_space
tenant-Trimmed s h = Trimmed-append (codes "tenant=") s (refl, refl) h

strategy-Trimmed : (s : Text) → Trimmed s → Trimmed (codes "strategy=" ++ s)
unfolding is_space
strategy-Trimmed s h = Trimmed-append (codes "strategy=") s (refl, refl) h

id-Trimmed : (s : Text) → Trimmed s → Trimmed (codes "client_order_id=" ++ s)
unfolding is_space
id-Trimmed s h = Trimmed-append (codes "client_order_id=") s (refl, refl) h

joined-Trimmed : (x y : Text) → Trimmed x → Trimmed y → Trimmed (x ++ (codes ";" ++ y))
unfolding is_space
joined-Trimmed x y h k =
    Trimmed-append x (codes ";" ++ y) h (Trimmed-append (codes ";") y (refl, refl) k)

canonical-split :
    (p : Parts)
    → Clean p
    → split 59 (canonical_of p)
      ≡ (codes "tenant=" ++ p.tenant)
        ∷ (codes "strategy=" ++ p.strategy)
        ∷ (codes "client_order_id=" ++ p.client_order_id)
        ∷ []
unfolding canonical_of has
canonical-split p c =
    let a : Text = codes "tenant=" ++ p.tenant in
    let b : Text = codes "strategy=" ++ p.strategy in
    let d : Text = codes "client_order_id=" ++ p.client_order_id in
    split-append 59 a (b ++ (59 ∷ d)) c.tenant_free
    ∙ ap (λ l. a ∷ l)
        (split-append 59 b d c.strategy_free ∙ ap (λ l. b ∷ l) (split_free 59 d c.id_free))

canonical-Trimmed : (p : Parts) → Clean p → Trimmed (canonical_of p)
unfolding canonical_of
canonical-Trimmed p c =
    let b : Text = codes "strategy=" ++ p.strategy in
    let d : Text = codes "client_order_id=" ++ p.client_order_id in
    joined-Trimmed (codes "tenant=" ++ p.tenant) (b ++ (codes ";" ++ d))
      (tenant-Trimmed p.tenant c.tenant_trimmed)
      (joined-Trimmed b d (strategy-Trimmed p.strategy c.strategy_trimmed)
        (id-Trimmed p.client_order_id c.id_trimmed))

canonical-parse_parts :
    (p : Parts)
    → Clean p
    → parse_parts (
        (codes "tenant=" ++ p.tenant)
        ∷ (codes "strategy=" ++ p.strategy)
        ∷ (codes "client_order_id=" ++ p.client_order_id)
        ∷ [])
      ≡ some (
          (codes "tenant", p.tenant)
          ∷ (codes "strategy", p.strategy)
          ∷ (codes "client_order_id", p.client_order_id)
          ∷ [])
unfolding parse_parts cut is_space trim_space
canonical-parse_parts p c =
    rw
      (parse_labelled (codes "tenant=" ++ p.tenant) (codes "tenant") p.tenant
        (tenant-Trimmed p.tenant c.tenant_trimmed) refl (refl, refl) refl c.tenant_trimmed
        c.tenant_there)
      (rw
        (parse_labelled (codes "strategy=" ++ p.strategy) (codes "strategy") p.strategy
          (strategy-Trimmed p.strategy c.strategy_trimmed) refl (refl, refl) refl c.strategy_trimmed
          c.strategy_there)
        (rw
          (parse_labelled (codes "client_order_id=" ++ p.client_order_id) (codes "client_order_id")
            p.client_order_id (id-Trimmed p.client_order_id c.id_trimmed) refl (refl, refl) refl
            c.id_trimmed c.id_there)
          refl))

canonical_there : (p : Parts) → is_empty (canonical_of p) ≡ false
unfolding canonical_of
canonical_there p = refl

lookups :
    (p : Parts)
    → Clean p
    → collect (
        some (
          (codes "tenant", p.tenant)
          ∷ (codes "strategy", p.strategy)
          ∷ (codes "client_order_id", p.client_order_id)
          ∷ []))
      ≡ ok p
unfolding collect required lookup text_eq
lookups p c = rw c.id_there (
    rw c.strategy_there
      (rw c.tenant_there (rw c.id_there (rw c.strategy_there (rw c.id_there refl)))))

-- The canonical text of clean parts is parsed to those parts.
parse-canonical_of : (p : Parts) → Clean p → parse_idempotency_canonical (canonical_of p) ≡ ok p
unfolding parse_idempotency_canonical
parse-canonical_of p c = rw (Trimmed-trim_space (canonical_of p) (canonical-Trimmed p c)) (
    rw (canonical-split p c)
      (rw (canonical-parse_parts p c) (rw (canonical_there p) (lookups p c))))

-- No part holds a ";".
pub record Free (p : Parts) : Type 0 where
  pub tenant_free : has 59 p.tenant ≡ false
  pub strategy_free : has 59 p.strategy ≡ false
  pub id_free : has 59 p.client_order_id ≡ false

checked-ok :
    (key key' : IdempotencyKey) (o : Option KeyError)
    → checked key o ≡ ok key'
    → (o ≡ none) × (key' ≡ key)
unfolding checked
checked-ok key key' none h = (refl, sym (cc (h)))
checked-ok key key' (some e) h = cc

build-canonical :
    (hash : Text → Text) (input : Parts) (key : IdempotencyKey)
    → build_idempotency_key hash input ≡ ok key
    → (check_parts (normalized input) ≡ none) × (key.canonical ≡ canonical_of (normalized input))
unfolding build_idempotency_key key_of
build-canonical hash input key h =
    let (n, e) =
      checked-ok (key_of hash (canonical_of (normalized input))) key
        (check_parts (normalized input)) h in
    (n, ap (λ k. k.canonical) e)

check_parts-there :
    (p : Parts)
    → check_parts p ≡ none
    → (is_empty p.tenant ≡ false)
      × (is_empty p.strategy ≡ false)
      × (is_empty p.client_order_id ≡ false)
unfolding check_parts
check_parts-there p h = ground arith

normalized-Clean :
    (input : Parts)
    → check_parts (normalized input) ≡ none
    → Free (normalized input)
    → Clean (normalized input)
unfolding normalized normalize_scope_part
normalized-Clean input h f =
    let (t, s, i) = check_parts-there (normalized input) h in
    record {
      tenant_trimmed = Trimmed-to_lower (trim_space input.tenant) (trim_space-Trimmed input.tenant);
      strategy_trimmed =
          Trimmed-to_lower (trim_space input.strategy) (trim_space-Trimmed input.strategy);
      id_trimmed = trim_space-Trimmed input.client_order_id;
      tenant_there = t;
      strategy_there = s;
      id_there = i;
      tenant_free = f.tenant_free;
      strategy_free = f.strategy_free;
      id_free = f.id_free;
    }

-- The canonical form of a key that is built of parts with no ";" is parsed to those parts, the
-- tenant and the strategy in lower case and all three without the spaces around them.
pub parse-build :
    (hash : Text → Text) (input : Parts) (key : IdempotencyKey)
    → Free (normalized input)
    → build_idempotency_key hash input ≡ ok key
    → parse_idempotency_canonical key.canonical ≡ ok (normalized input)
parse-build hash input key f h =
    let (n, c) = build-canonical hash input key h in
    rw c (parse-canonical_of (normalized input) (normalized-Clean input n f))

-- Two keys that are built of parts with no ";" have the same canonical form only if the parts are
-- the same, up to case and spaces around them.
build-injective :
    (hash : Text → Text) (one other : Parts) (key key' : IdempotencyKey)
    → Free (normalized one)
    → Free (normalized other)
    → build_idempotency_key hash one ≡ ok key
    → build_idempotency_key hash other ≡ ok key'
    → key.canonical ≡ key'.canonical
    → normalized one ≡ normalized other
build-injective hash one other key key' f g h k e =
    let p = parse-build hash one key f h in let q = parse-build hash other key' g k in cc (p, q, e)

canonical_collides :
    (a b c d : Text)
    → canonical_of
        (record { tenant = a ++ (codes ";strategy=" ++ b); strategy = c; client_order_id = d })
      ≡ canonical_of
          (record { tenant = a; strategy = b ++ (codes ";strategy=" ++ c); client_order_id = d })
unfolding canonical_of
canonical_collides a b c d =
    let label : Text = codes ";strategy=" in
    let rest : Text = codes ";client_order_id=" ++ d in
    ap (λ x. codes "tenant=" ++ x)
      (append_assoc a (label ++ b) (label ++ (c ++ rest))
        ∙ ap (λ x. a ++ (label ++ x)) (sym (append_assoc b (label ++ c) rest)))

-- With a ";" other parts may give the same key: a tenant that goes on with ";strategy=b" before a
-- strategy c, and a strategy that is b and goes on with ";strategy=c", do, if both are accepted.
pub build_collides :
    (hash : Text → Text) (one other : Parts) (a b c d : Text)
    → normalized one
      ≡ record { tenant = a ++ (codes ";strategy=" ++ b); strategy = c; client_order_id = d }
    → normalized other
      ≡ record { tenant = a; strategy = b ++ (codes ";strategy=" ++ c); client_order_id = d }
    → check_parts (normalized one) ≡ none
    → check_parts (normalized other) ≡ none
    → build_idempotency_key hash one ≡ build_idempotency_key hash other
unfolding build_idempotency_key
build_collides hash one other a b c d n m h k =
    let same : canonical_of (normalized one) ≡ canonical_of (normalized other) =
      ap canonical_of n ∙ canonical_collides a b c d ∙ sym (ap canonical_of m) in
    rw h (rw k (rw same refl))
