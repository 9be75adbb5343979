-- ===== src/Decimal/Fixed/Lawful.antt =====
-- The decimals of Fixed.antt do what is asked of the library's.
use polymarket_go_sdk.Base.{
  ℕ, zero, suc, ◌+◌, ◌-◌, ◌*◌, ◌^◌, ◌≤◌, ◌<◌, ◌≡◌, ◌↔◌, ◌⊎◌, refl, ap, ◌∙◌, true, false, arith, ltb,
  ltb→lt, if◌then◌else◌, Bool-cases, inl, inr,
}
use native.Mathlib.Nat.{mul-pos}
use polymarket_go_sdk.Base.Int.{pos, pos_part}
use polymarket_go_sdk.Decimal.{decimal_places}
use polymarket_go_sdk.Decimal.Laws.{Laws}
use polymarket_go_sdk.Decimal.Fixed.{
  Fixed, fixed, product, cut, shifted, below, not_above, difference, units_of, larger,
}
use polymarket_go_sdk.Decimal.Fixed.Scaled.{ten_pos, scale_parts, places_lem, units_of-at}
use polymarket_go_sdk.Decimal.Fixed.Compared.{
  larger_both, below_lem, not_above_lem, difference_lem, larger-le,
}
use polymarket_go_sdk.Decimal.Fixed.Moved.{product_lem, cut-units, shifted_lem}

-- The places of a decimal are its places.
places_of : (x : Fixed) (k : ℕ) → decimal_places fixed x ≤ k → x.places ≤ k
places_of x k h = omega (arith, places_lem x.places)

from_places : (x : Fixed) (k : ℕ) → x.places ≤ k → decimal_places fixed x ≤ k
from_places x k h = omega (arith, places_lem x.places)

positive_factor : (a c : ℕ) → 0 < a * c → ltb 0 a ≡ true
positive_factor zero c h = absurd (omega arith)
positive_factor (suc a) c h = ground arith

positive_lem :
    (k : ℕ) (x : Fixed)
    → x.places ≤ k
    → (ltb 0 (pos_part x.value) ≡ true) ↔ (0 < pos_part (units_of k x))
positive_lem k x h =
    let c = 10 ^ (k - x.places) in
    let e = ap pos_part (units_of-at k x h) ∙ (scale_parts c x.value (ten_pos (k - x.places))).0 in
    (
      λ p. omega (arith, mul-pos (ltb→lt 0 (pos_part x.value) p) (ten_pos (k - x.places))),
      λ p. positive_factor (pos_part x.value) c (omega arith),
    )

cut-places : (m : ℕ) (x : Fixed) → (cut x m).places ≤ m
unfolding cut
cut-places m x = ground arith

cut-enough : (m : ℕ) (x : Fixed) → x.places ≤ m → cut x m ≡ x
unfolding cut
cut-enough m x h = ground arith

shifted-places : (j k : ℕ) (x : Fixed) → x.places ≤ j + k → (shifted x k).places ≤ j
unfolding shifted
shifted-places j k x h = ground arith

difference-places :
    (k : ℕ) (x y : Fixed) → x.places ≤ k → y.places ≤ k → (difference x y).places ≤ k
unfolding difference
difference-places k x y h g = larger-le k x.places y.places h g

min_lem : (x y : Fixed) → below y (if not_above x y then x else y) ≡ false
min_lem x y =
    let k = larger x.places y.places in
    let both = larger_both x.places y.places in
    let at = not_above_lem k x y both.0 both.1 in
    let under = below_lem k y x both.1 both.0 in
    let self = below_lem k y y both.1 both.1 in
    elim (Bool-cases (not_above x y)) [ inl e ↦ rw e (ground arith) | inr e ↦ rw e (ground arith) ]

min_cases_lem :
    (x y : Fixed) → ((if not_above x y then x else y) ≡ x) ⊎ ((if not_above x y then x else y) ≡ y)
min_cases_lem x y = ground arith

from_int_lem : (k n : ℕ) → units_of k (record { value = pos n; places = 0 }) ≡ pos (n * 10 ^ k)
unfolding units_of
from_int_lem k n = let same : k - 0 ≡ k = omega arith in rw (same) (ground arith)

product-places :
    (x y : Fixed)
    → decimal_places fixed
        (record { value = product x.value y.value; places = x.places + y.places })
      ≤ decimal_places fixed x + decimal_places fixed y
product-places x y =
    omega (arith, places_lem (x.places + y.places), places_lem x.places, places_lem y.places)

pub fixed_laws : Laws fixed
fixed_laws = record {
  units = units_of;
  positive_iff = λ k x h. positive_lem k x (places_of x k h);
  less_than-units = λ k x y h g. below_lem k x y (places_of x k h) (places_of y k g);
  greater_than-units = λ k x y h g. below_lem k y x (places_of y k g) (places_of x k h);
  from_int-units = λ k n. from_int_lem k n;
  from_int-places = λ n. places_lem 0;
  sub-units = λ k x y h g. difference_lem k x y (places_of x k h) (places_of y k g);
  sub-places = λ k x y h g.
      from_places (difference x y) k (difference-places k x y (places_of x k h) (places_of y k g));
  mul-units = λ j k m n x y h g. product_lem j k m n x y (places_of x j h) (places_of y k g);
  mul-places = λ x y. product-places x y;
  truncate-enough = λ m x h. cut-enough m x (places_of x m h);
  truncate-places = λ m x. from_places (cut x m) m (cut-places m x);
  truncate-units = λ m k n x h. cut-units m k n x (places_of x (m + k) h);
  shift-units = λ j k x h. shifted_lem j k x (places_of x (j + k) h);
  shift-places =
      λ j k x h. from_places (shifted x k) j (shifted-places j k x (places_of x (j + k) h));
  big_int-units = λ x h. refl;
  at_most-units = λ k x y h g. not_above_lem k x y (places_of x k h) (places_of y k g);
  min-cases = λ x y. min_cases_lem x y;
  min-not_greater = λ x y. min_lem x y;
}

pub fixed_units : (k : ℕ) (x : Fixed) → fixed_laws.units k x ≡ units_of k x
unfolding fixed_laws
fixed_units k x = refl
