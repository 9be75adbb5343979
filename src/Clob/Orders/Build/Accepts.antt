-- ===== src/Clob/Orders/Build/Accepts.antt =====
-- What a limit order that is built has passed.
use polymarket_go_sdk.Base.{◌≤◌, ◌≡◌, refl, sym, ap, subst, ◌∙◌, true, false, some, arith}
use polymarket_go_sdk.Base.Int.{ℤ}
use polymarket_go_sdk.Base.Text.{Text}
use polymarket_go_sdk.Base.Result.{Result, ok, err, ◌>>=◌, ◌>>◌}
use polymarket_go_sdk.Decimal.{Decimals, decimal_places}
use polymarket_go_sdk.Clob.Orders.{OrderBuilder, Order, normalize_side, is_side}
use polymarket_go_sdk.Clob.Orders.Resolve.{resolve_tick_size, resolve_fee_rate_bps}
use polymarket_go_sdk.Clob.Orders.Build.{
  Parser, check_limit, check_tick, out_of_bounds, limit_amounts, to_fixed_decimal, build_limit,
  parse_token_id, resolve_maker, salt_of, expiration_of, signer_address, sig_type_of,
}

-- The first of two parts that succeed together has a value, and so does the rest at it.
pub >>=-eq-ok {ℓ κ μ} :
    {E : Type ℓ} {A : Type κ} {B : Type μ} {y : B} (first : Result E A) (rest : A → Result E B)
    → (first >>= rest) ≡ ok y
    → (x : A) × (first ≡ ok x) × (rest x ≡ ok y)
>>=-eq-ok (err reason) rest both = cc
>>=-eq-ok (ok x) rest both = (x, refl, both)

pub >>-eq-ok {ℓ κ} :
    {E : Type ℓ} {B : Type κ} (m : Result E (Unit {0})) (r : Result E B) {b : B}
    → (m >> r) ≡ ok b
    → (u : Unit {0}) × (m ≡ ok u) × (r ≡ ok b)
>>-eq-ok (ok u) r h = (u, refl, h)
>>-eq-ok (err e) r h = cc

pub ok_injective {ℓ κ} :
    {E : Type ℓ} {A : Type κ} {a b : A} → (let r : Result E A = ok a in r) ≡ ok b → a ≡ b
ok_injective h = cc

salt_of-ok {κ} : {E : Type κ} (r : Result E ℤ) (z : ℤ) → salt_of r ≡ ok z → r ≡ ok z
unfolding salt_of
salt_of-ok r z h = ground arith

module _ {ℓ κ} {D : Type ℓ} (d : Decimals D) {E : Type κ} where
  pub record Accepted (b : OrderBuilder D E) (tick : D) (o : Order D) : Type (ℓ ⊔ κ) where
    tick_known : resolve_tick_size d b.tick_size b.client ≡ ok tick
    pub side_known : is_side (normalize_side b.side) ≡ true
    pub price_positive : d.is_positive b.price ≡ true
    pub size_positive : d.is_positive b.size ≡ true
    pub price_scale : decimal_places d b.price ≤ decimal_places d tick
    pub size_scale : decimal_places d b.size ≤ 2
    pub in_bounds : out_of_bounds d b.price tick ≡ false
    pub same_side : o.side ≡ normalize_side b.side
    pub salt : ℤ
    pub salt_known : b.salt ≡ ok salt
    pub same_salt : o.salt ≡ some salt
    pub expiration : ℤ
    pub expiration_known : expiration_of {E = E} b.expiration ≡ ok expiration
    pub same_expiration : o.expiration ≡ some expiration
    pub maker_fixed :
        o.maker_amount
        ≡ to_fixed_decimal d
            (limit_amounts d (normalize_side b.side) b.price b.size (decimal_places d tick)).0
    pub taker_fixed :
        o.taker_amount
        ≡ to_fixed_decimal d
            (limit_amounts d (normalize_side b.side) b.price b.size (decimal_places d tick)).1

  check_limit-ok :
      (b : OrderBuilder D E) (side : Text)
      → check_limit d b ≡ ok side
      → (side ≡ normalize_side b.side)
        × (is_side (normalize_side b.side) ≡ true)
        × (d.is_positive b.price ≡ true)
        × (d.is_positive b.size ≡ true)
  unfolding check_limit
  check_limit-ok b side h = ground arith

  check_tick-ok :
      (b : OrderBuilder D E) (tick : D) (u : Unit {0})
      → check_tick d b tick ≡ ok u
      → (decimal_places d b.price ≤ decimal_places d tick)
        × (decimal_places d b.size ≤ 2)
        × (out_of_bounds d b.price tick ≡ false)
  unfolding check_tick
  check_tick-ok b tick u h = ground arith

  pub build_limit-Accepted :
      (p : Parser) (b : OrderBuilder D E) (o : Order D)
      → build_limit d p b ≡ ok o
      → (tick : D) × Accepted b tick o
  unfolding build_limit
  build_limit-Accepted p b o h =
      let (side, h₀, h) = >>=-eq-ok (check_limit d b) _ h in
      let (token_id, h₁, h) = >>=-eq-ok (parse_token_id p b.token_id) _ h in
      let (tick, h₂, h) = >>=-eq-ok (resolve_tick_size d b.tick_size b.client) _ h in
      let (u, h₃, h) = >>-eq-ok (check_tick d b tick) _ h in
      let (fee, h₄, h) = >>=-eq-ok (resolve_fee_rate_bps d b.fee_rate_bps b.client) _ h in
      let (maker, h₅, h) =
        >>=-eq-ok (resolve_maker b.maker b.funder (sig_type_of b.signature_type) b.signer) _ h in
      let (salt, h₆, h) = >>=-eq-ok (salt_of b.salt) _ h in
      let (expiration, h₇, h) = >>=-eq-ok (expiration_of b.expiration) _ h in
      let (signer, h₈, h) = >>=-eq-ok (signer_address b.signer) _ h in
      let e = ok_injective h in
      let checked = check_limit-ok b side h₀ in
      let ticked = check_tick-ok b tick u h₃ in
      (
        tick,
        record {
          tick_known = h₂;
          side_known = checked.1;
          price_positive = checked.2;
          size_positive = checked.3;
          price_scale = ticked.0;
          size_scale = ticked.1;
          in_bounds = ticked.2;
          same_side = sym (ap (λ x. x.side) e) ∙ checked.0;
          salt = salt;
          salt_known = salt_of-ok b.salt salt h₆;
          same_salt = sym (ap (λ x. x.salt) e);
          expiration = expiration;
          expiration_known = h₇;
          same_expiration = sym (ap (λ x. x.expiration) e);
          maker_fixed = rw (sym checked.0) (sym (ap (λ x. x.maker_amount) e));
          taker_fixed = rw (sym checked.0) (sym (ap (λ x. x.taker_amount) e));
        },
      )

  -- Where the tick size is known, the order is accepted at that one.
  pub build_limit-Accepted_at :
      (p : Parser) (b : OrderBuilder D E) {tick : D} {o : Order D}
      → resolve_tick_size d b.tick_size b.client ≡ ok tick
      → build_limit d p b ≡ ok o
      → Accepted b tick o
  build_limit-Accepted_at p b {tick} {o} known built =
      let (tick', accepted) = build_limit-Accepted p b o built in
      subst (λ t. Accepted b t o) (ok_injective (sym accepted.tick_known ∙ known)) accepted
