-- ===== src/Decimal/Fixed/Compared.antt =====
-- Comparisons and differences, at any number of places that serves both decimals.
use polymarket_go_sdk.Base.{ℕ, ◌+◌, ◌-◌, ◌^◌, ◌≤◌, ◌≡◌, sym, ap, subst, ◌∙◌, arith}
use native.Mathlib.Nat.{add-mul}
use polymarket_go_sdk.Base.Int.{pos_part, neg_part, ltb_ℤ, leb_ℤ, sub_ℕ}
use polymarket_go_sdk.Decimal.Fixed.{Fixed, scale, below, not_above, difference, units_of, larger}
use polymarket_go_sdk.Decimal.Fixed.Scaled.{
  ten_pos, scale_parts, ltb-scale, leb-scale, scale-sub_ℕ, units_of-at, units_of-more,
}

-- A number of places that serves both is the larger one, or more.
more_than_larger : (k a b : ℕ) → a ≤ k → b ≤ k → larger a b + (k - larger a b) ≡ k
more_than_larger k a b h g = ground arith

pub larger_both : (a b : ℕ) → (a ≤ larger a b) × (b ≤ larger a b)
larger_both a b = ground arith

-- The units at k places, by those at the larger of two numbers of places.
units_from_larger :
    (k : ℕ) (x y : Fixed)
    → x.places ≤ k
    → y.places ≤ k
    → (units_of k x
        ≡ scale (10 ^ (k - larger x.places y.places)) (units_of (larger x.places y.places) x))
      × (units_of k y
          ≡ scale (10 ^ (k - larger x.places y.places)) (units_of (larger x.places y.places) y))
units_from_larger k x y h g =
    let m = larger x.places y.places in
    let same = more_than_larger k x.places y.places h g in
    let both = larger_both x.places y.places in
    (
      subst (λ n. units_of n x ≡ scale (10 ^ (k - m)) (units_of m x)) same
          (units_of-more m (k - m) x both.0),
      subst (λ n. units_of n y ≡ scale (10 ^ (k - m)) (units_of m y)) same
          (units_of-more m (k - m) y both.1),
    )

pub below_lem :
    (k : ℕ) (x y : Fixed)
    → x.places ≤ k
    → y.places ≤ k
    → below x y ≡ ltb_ℤ (units_of k x) (units_of k y)
unfolding below
below_lem k x y h g =
    let m = larger x.places y.places in
    let both = units_from_larger k x y h g in
    let a = units_of m x in
    let b = units_of m y in
    let c = 10 ^ (k - m) in
    sym (
      ap (λ z. ltb_ℤ z (units_of k y)) both.0
      ∙ ap (λ z. ltb_ℤ (scale c a) z) both.1
      ∙ ltb-scale c a b (ten_pos (k - m)))

pub not_above_lem :
    (k : ℕ) (x y : Fixed)
    → x.places ≤ k
    → y.places ≤ k
    → not_above x y ≡ leb_ℤ (units_of k x) (units_of k y)
unfolding not_above
not_above_lem k x y h g =
    let m = larger x.places y.places in
    let both = units_from_larger k x y h g in
    let a = units_of m x in
    let b = units_of m y in
    let c = 10 ^ (k - m) in
    sym (
      ap (λ z. leb_ℤ z (units_of k y)) both.0
      ∙ ap (λ z. leb_ℤ (scale c a) z) both.1
      ∙ leb-scale c a b (ten_pos (k - m)))

pub larger-le : (k a b : ℕ) → a ≤ k → b ≤ k → larger a b ≤ k
larger-le k a b h g = ground arith

sub_ℕ_cong : {a a' b b' : ℕ} → a ≡ a' → b ≡ b' → sub_ℕ a b ≡ sub_ℕ a' b'
sub_ℕ_cong e f = cc

pub difference_lem :
    (k : ℕ) (x y : Fixed)
    → x.places ≤ k
    → y.places ≤ k
    → units_of k (difference x y)
      ≡ sub_ℕ
          (pos_part (units_of k x) + neg_part (units_of k y))
          (neg_part (units_of k x) + pos_part (units_of k y))
unfolding difference
difference_lem k x y h g =
    let m = larger x.places y.places in
    let both = units_from_larger k x y h g in
    let a = units_of m x in
    let b = units_of m y in
    let c = 10 ^ (k - m) in
    let p = scale_parts c a (ten_pos (k - m)) in
    let q = scale_parts c b (ten_pos (k - m)) in
    let pa = ap pos_part both.0 ∙ p.0 in
    let na = ap neg_part both.0 ∙ p.1 in
    let pb = ap pos_part both.1 ∙ q.0 in
    let nb = ap neg_part both.1 ∙ q.1 in
    units_of-at k (difference x y) (larger-le k x.places y.places h g)
    ∙ scale-sub_ℕ c (pos_part a + neg_part b) (neg_part a + pos_part b) (ten_pos (k - m))
    ∙ sub_ℕ_cong (omega (arith, add-mul (pos_part a) (neg_part b) c))
        (omega (arith, add-mul (neg_part a) (pos_part b) c))
