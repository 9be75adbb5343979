-- ===== src/Clob/Orders/Build/Amounts.antt =====
-- What a limit order that is built asks for: its price between the tick size and one less the tick
-- size, and its amounts in millionths of a USDC and of a share.
use polymarket_go_sdk.Base.{
  ℕ, ◌+◌, ◌*◌, ◌/◌, ◌^◌, ◌≤◌, ◌<◌, ◌≡◌, sym, ap, subst, ◌∙◌, ◌||◌, Bool, true, false, arith,
  if◌then◌else◌,
}
use mathlib.Core.Path.{◌≡⟨◌⟩◌, ◌∎}
use polymarket_go_sdk.Base.Int.{ℤ, pos, pos_part, neg_part, sub_ℕ, ltb_ℤ}
use polymarket_go_sdk.Base.Text.{text_eq}
use polymarket_go_sdk.Base.Result.{ok}
use polymarket_go_sdk.Decimal.{Decimals, decimal_places}
use polymarket_go_sdk.Decimal.Laws.{Laws}
use polymarket_go_sdk.Clob.Orders.{buy, OrderBuilder, Order}
use polymarket_go_sdk.Clob.Orders.Resolve.{resolve_tick_size}
use polymarket_go_sdk.Clob.Orders.Build.{
  Parser, out_of_bounds, to_fixed_decimal, limit_amounts, build_limit,
}
use polymarket_go_sdk.Clob.Orders.Build.Accepts.{build_limit-Accepted_at}

-- The side of an order that is in USDC, and the side that is in shares.
abbrev pub value_amount {ℓ} : {D : Type ℓ} → Order D → D
value_amount o = if text_eq o.side buy then o.maker_amount else o.taker_amount

abbrev pub share_amount {ℓ} : {D : Type ℓ} → Order D → D
share_amount o = if text_eq o.side buy then o.taker_amount else o.maker_amount

eq_pos_part : (z : ℤ) → 0 < pos_part z → z ≡ pos (pos_part z)
eq_pos_part z h = ground arith

-- The tests of a price of `x` units against a tick size of t, and one of b.
bounds_of_tests :
    (x y limit : ℤ) (below above : Bool) (t b : ℕ)
    → 0 < pos_part x
    → y ≡ pos t
    → limit ≡ sub_ℕ (b + neg_part y) (pos_part y)
    → below ≡ ltb_ℤ x y
    → above ≡ ltb_ℤ limit x
    → (below || above) ≡ false
    → (t ≤ pos_part x) × (pos_part x + t ≤ b)
bounds_of_tests x y limit below above t b h u e low high tests = ground arith

sub_of_pos :
    (x y : ℤ) (b : ℕ)
    → x ≡ pos (1 * b)
    → sub_ℕ (pos_part x + neg_part y) (neg_part x + pos_part y)
      ≡ sub_ℕ (b + neg_part y) (pos_part y)
sub_of_pos x y b h = ground arith

module _ {ℓ} {D : Type ℓ} (d : Decimals D) (laws : Laws d) where
  -- A positive decimal has a positive number of units.
  positive-units :
      (k : ℕ) (x : D)
      → decimal_places d x ≤ k
      → d.is_positive x ≡ true
      → (laws.units k x ≡ pos (pos_part (laws.units k x))) × (0 < pos_part (laws.units k x))
  positive-units k x h pos_x =
      let positive = (laws.positive_iff k x h).0 pos_x in (eq_pos_part _ positive, positive)

  -- Millionths, where digits beyond them are dropped.
  to_fixed-units :
      (k n : ℕ) (x : D)
      → decimal_places d x ≤ 6 + k
      → laws.units (6 + k) x ≡ pos n
      → laws.units 0 (to_fixed_decimal d x) ≡ pos (n / 10 ^ k)
  unfolding to_fixed_decimal
  to_fixed-units k n x h u =
      laws.units 0 (d.truncate (d.shift (d.truncate x 6) 6) 0)
      ≡⟨ ap (laws.units 0)
          (laws.truncate-enough 0 _ (laws.shift-places 0 6 _ (laws.truncate-places 6 x))) ⟩
        laws.units 0 (d.shift (d.truncate x 6) 6)
      ≡⟨ laws.shift-units 0 6 _ (laws.truncate-places 6 x) ⟩ laws.units 6 (d.truncate x 6)
      ≡⟨ laws.truncate-units 6 k n x h u ⟩ pos (n / 10 ^ k) ∎

  pub to_fixed-places : (x : D) → decimal_places d (to_fixed_decimal d x) ≤ 0
  unfolding to_fixed_decimal
  to_fixed-places x = laws.truncate-places 0 _

  -- No digit is dropped where there are at most six.
  to_fixed-exact :
      (x : D)
      → decimal_places d x ≤ 6
      → d.is_positive x ≡ true
      → laws.units 0 (to_fixed_decimal d x) ≡ laws.units 6 x
  to_fixed-exact x h pos_x =
      let e = (positive-units 6 x h pos_x).0 in
      to_fixed-units 0 _ x h e ∙ ap pos (omega arith) ∙ sym e

  in_bounds-units :
      (k t : ℕ) (price tick : D)
      → decimal_places d price ≤ k
      → decimal_places d tick ≤ k
      → d.is_positive price ≡ true
      → laws.units k tick ≡ pos t
      → out_of_bounds d price tick ≡ false
      → (t ≤ pos_part (laws.units k price)) × (pos_part (laws.units k price) + t ≤ 10 ^ k)
  unfolding out_of_bounds
  in_bounds-units k t price tick hp ht pos_price u inside =
      let one = d.from_int (pos 1) in
      let one_places : decimal_places d one ≤ k = omega (arith, laws.from_int-places 1) in
      let bound_places = laws.sub-places k one tick one_places ht in
      let limit =
        laws.sub-units k one tick one_places ht
        ∙ sub_of_pos _ (laws.units k tick) (10 ^ k) (laws.from_int-units k 1) in
      bounds_of_tests _ _ _ _ _ t (10 ^ k) (positive-units k price hp pos_price).1 u limit
        (laws.less_than-units k price tick hp ht)
        (laws.greater_than-units k price (d.sub one tick) hp bound_places) inside

  -- A price that is a multiple of the tick size's unit, and lies between the tick size and one less
  -- the tick size.
  pub limit_price_bounds {κ} :
      {E : Type κ} (p : Parser) (b : OrderBuilder D E) (o : Order D) (tick : D) (t : ℕ)
      → resolve_tick_size d b.tick_size b.client ≡ ok tick
      → laws.units (decimal_places d tick) tick ≡ pos t
      → build_limit d p b ≡ ok o
      → (decimal_places d b.price ≤ decimal_places d tick)
        × (t ≤ pos_part (laws.units (decimal_places d tick) b.price))
        × (pos_part (laws.units (decimal_places d tick) b.price) + t ≤ 10 ^ decimal_places d tick)
  limit_price_bounds p b o tick t known u built =
      let a = build_limit-Accepted_at d p b known built in
      let bounds =
        in_bounds-units _ t b.price tick a.price_scale (omega arith) a.price_positive u
          a.in_bounds in
      (a.price_scale, bounds.0, bounds.1)

  limit_amounts-units :
      (price size : D) (scale j k : ℕ)
      → 2 ≤ j
      → j + scale ≡ 6 + k
      → decimal_places d price ≤ scale
      → decimal_places d size ≤ 2
      → d.is_positive price ≡ true
      → d.is_positive size ≡ true
      → laws.units 0 (to_fixed_decimal d (d.truncate (d.mul size price) (scale + 2)))
        ≡ pos (pos_part (laws.units j size) * pos_part (laws.units scale price) / 10 ^ k)
  limit_amounts-units price size scale j k hj e hp hs pp ps =
      let places : decimal_places d (d.mul size price) ≤ scale + 2 =
        omega (arith, laws.mul-places size price) in
      let product =
        laws.mul-units j scale _ _ size price (omega arith) hp
          (positive-units j size (omega arith) ps).0 (positive-units scale price hp pp).0 in
      let at_six_k =
        subst
          (λ u.
            laws.units u (d.mul size price)
            ≡ pos (pos_part (laws.units j size) * pos_part (laws.units scale price)))
          e product in
      rw (laws.truncate-enough (scale + 2) _ places) (
        to_fixed-units k (pos_part (laws.units j size) * pos_part (laws.units scale price))
          (d.mul size price) (omega arith) at_six_k)

  sides_of :
      (o : Order D) (price size : D) (scale : ℕ)
      → o.maker_amount ≡ to_fixed_decimal d (limit_amounts d o.side price size scale).0
      → o.taker_amount ≡ to_fixed_decimal d (limit_amounts d o.side price size scale).1
      → (value_amount o ≡ to_fixed_decimal d (d.truncate (d.mul size price) (scale + 2)))
        × (share_amount o ≡ to_fixed_decimal d size)
  unfolding limit_amounts
  sides_of o price size scale maker taker = ground arith

  -- The side of a limit order that is in USDC is its price times its size, in millionths and rounded
  -- down, and the other side is its size, exactly.
  pub limit_order_amounts {κ} :
      {E : Type κ} (p : Parser) (b : OrderBuilder D E) (o : Order D) (tick : D) (j k : ℕ)
      → resolve_tick_size d b.tick_size b.client ≡ ok tick
      → 2 ≤ j
      → j + decimal_places d tick ≡ 6 + k
      → build_limit d p b ≡ ok o
      → (laws.units 0 (value_amount o)
          ≡ pos (
              pos_part (laws.units j b.size)
              * pos_part (laws.units (decimal_places d tick) b.price)
              / 10 ^ k))
        × (laws.units 0 (share_amount o) ≡ laws.units 6 b.size)
  limit_order_amounts p b o tick j k known hj e built =
      let a = build_limit-Accepted_at d p b known built in
      let sides =
        sides_of o b.price b.size (decimal_places d tick) (rw a.same_side a.maker_fixed)
          (rw a.same_side a.taker_fixed) in
      (
        ap (laws.units 0) sides.0
            ∙ limit_amounts-units b.price b.size (decimal_places d tick) j k hj e a.price_scale
                a.size_scale a.price_positive a.size_positive,
        ap (laws.units 0) sides.1
            ∙ to_fixed-exact b.size (omega (arith, a.size_scale)) a.size_positive,
      )
