-- ===== src/Decimal/Fixed.antt =====
-- Decimals as a number of units of 10^-places, an instance of what is asked of the library's. The
-- quotient has 16 decimal places and is that of decimals which are not negative.
pub mod Scaled
pub mod Compared
pub mod Moved
pub mod Lawful
use polymarket_go_sdk.Base.{
  ℕ, zero, suc, ◌+◌, ◌-◌, ◌*◌, ◌/◌, ◌^◌, Bool, true, false, ◌&&◌, not, Option, none, some, [], ◌∷◌,
  leb, ltb, ◌==◌, if◌then◌else◌,
}
use polymarket_go_sdk.Base.Int.{ℤ, pos, negsuc, pos_part, neg_part, ltb_ℤ, leb_ℤ, sub_ℕ}
use polymarket_go_sdk.Base.Text.{Text}
use polymarket_go_sdk.Decimal.{Decimals}

pub record Fixed : Type 0 where
  pub value : ℤ
  pub places : ℕ

unfoldable pub scale : ℕ → ℤ → ℤ
scale c (pos n) = pos (n * c)
scale c (negsuc n) = negsuc (suc n * c - 1)

unfoldable pub divide : ℕ → ℤ → ℤ
divide c (pos n) = pos (n / c)
divide c (negsuc n) = sub_ℕ 0 (suc n / c)

unfoldable pub units_of : ℕ → Fixed → ℤ
unfolding scale divide
units_of k x =
    if leb x.places k
    then scale (10 ^ (k - x.places)) x.value
    else divide (10 ^ (x.places - k)) x.value

abbrev pub larger : ℕ → ℕ → ℕ
larger a b = if leb a b then b else a

unfoldable pub product : ℤ → ℤ → ℤ
product (pos a) (pos b) = pos (a * b)
product (pos a) (negsuc b) = sub_ℕ 0 (a * suc b)
product (negsuc a) (pos b) = sub_ℕ 0 (suc a * b)
product (negsuc a) (negsuc b) = pos (suc a * suc b)

unfoldable pub exponent_of : ℕ → ℤ
exponent_of zero = pos 0
exponent_of (suc n) = negsuc n

-- The difference and the sum at the larger number of places.
unfoldable pub difference : Fixed → Fixed → Fixed
unfolding units_of
difference x y =
    let k = larger x.places y.places in
    let a = units_of k x in
    let b = units_of k y in
    record { value = sub_ℕ (pos_part a + neg_part b) (neg_part a + pos_part b); places = k }

unfoldable pub sum_of : Fixed → Fixed → Fixed
unfolding units_of
sum_of x y =
    let k = larger x.places y.places in
    let a = units_of k x in
    let b = units_of k y in
    record { value = sub_ℕ (pos_part a + pos_part b) (neg_part a + neg_part b); places = k }

unfoldable pub cut : Fixed → ℕ → Fixed
unfolding divide
cut x m =
    if leb x.places m
    then x
    else record { value = divide (10 ^ (x.places - m)) x.value; places = m }

unfoldable pub shifted : Fixed → ℕ → Fixed
unfolding scale
shifted x k =
    if leb x.places k
    then record { value = scale (10 ^ (k - x.places)) x.value; places = 0 }
    else record { value = x.value; places = x.places - k }

unfoldable pub below : Fixed → Fixed → Bool
unfolding units_of
below x y = let k = larger x.places y.places in ltb_ℤ (units_of k x) (units_of k y)

unfoldable pub not_above : Fixed → Fixed → Bool
unfolding units_of
not_above x y = let k = larger x.places y.places in leb_ℤ (units_of k x) (units_of k y)

-- Digits, with a point or without.
parse_digits : Bool → ℕ → ℕ → Text → Option Fixed
parse_digits point n places [] = some (record { value = pos n; places = places })
parse_digits point n places (c ∷ t) =
    let whole = parse_digits false (n * 10 + (c - 48)) 0 t in
    let part = parse_digits true (n * 10 + (c - 48)) (suc places) t in
    let after = parse_digits true n 0 t in
    if leb 48 c && leb c 57
    then (if point then part else whole)
    else if c == 46 && not point
    then after
    else none

unfoldable pub parse_fixed : Text → Option Fixed
unfolding parse_digits
parse_fixed [] = none
parse_fixed (c ∷ t) = parse_digits false 0 0 (c ∷ t)

abbrev pub fixed : Decimals Fixed
fixed = record {
  is_positive = λ x. ltb 0 (pos_part x.value);
  is_negative = λ x. ltb 0 (neg_part x.value);
  exponent = λ x. exponent_of x.places;
  add = sum_of;
  sub = difference;
  mul = λ x y. record { value = product x.value y.value; places = x.places + y.places };
  div = λ x y. record {
    value = pos (pos_part (units_of (16 + y.places) x) / pos_part y.value);
    places = 16;
  };
  abs = λ x. record { value = pos (pos_part x.value + neg_part x.value); places = x.places };
  truncate = cut;
  shift = shifted;
  less_than = below;
  greater_than = λ x y. below y x;
  at_most = not_above;
  min = λ x y. if not_above x y then x else y;
  equal = λ x y. not_above x y && not_above y x;
  from_int = λ z. record { value = z; places = 0 };
  int_part = λ x. units_of 0 x;
  big_int = λ x. units_of 0 x;
  parse = parse_fixed;
  through_float = λ x. x;
}
