-- ===== src/Decimal/Fixed/Scaled.antt =====
-- Scaling by a power of ten.
use polymarket_go_sdk.Base.{
  ℕ, zero, suc, ◌+◌, ◌-◌, ◌*◌, ◌^◌, ◌≤◌, ◌<◌, ◌≡◌, refl, sym, ap, ◌∙◌, true, false, arith, leb, ltb,
  Bool-cases, ◌≢◌, not, lt→ltb, ltb→lt, leb→le, inl, inr,
}
use native.Mathlib.Nat.{
  one-le-pow, pow-suc, mul_assoc, mul-lt-mul_of_pos_right, lt_of_mul-lt-mul_right, mul-pos, add-mul,
  mul-le-mul_right,
}
use polymarket_go_sdk.Base.Int.{ℤ, pos, negsuc, pos_part, neg_part, ltb_ℤ, leb_ℤ, sub_ℕ}
use polymarket_go_sdk.Decimal.Fixed.{Fixed, scale, units_of, exponent_of}

pub ten_pos : (k : ℕ) → 0 < 10 ^ k
ten_pos k = one-le-pow k 10 (omega arith)

pub pow_add : (a b : ℕ) → 10 ^ (a + b) ≡ 10 ^ a * 10 ^ b
pow_add a zero = let same : a + 0 ≡ a = omega arith in ap (λ n. 10 ^ n) same ∙ omega arith
pow_add a (suc b) =
    let same : a + suc b ≡ suc (a + b) = omega arith in
    ap (λ n. 10 ^ n) same
    ∙ pow-suc 10 (a + b)
    ∙ ap (λ x. x * 10) (pow_add a b)
    ∙ mul_assoc (10 ^ a) (10 ^ b) 10
    ∙ ap (λ x. 10 ^ a * x) (sym (pow-suc 10 b))

pub places_lem : (p : ℕ) → neg_part (exponent_of p) ≡ p
unfolding exponent_of
places_lem zero = refl
places_lem (suc n) = refl

parts_equal : (a b : ℤ) → pos_part a + neg_part b ≡ pos_part b + neg_part a → a ≡ b
parts_equal a b h = ground arith

pub scale_parts :
    (c : ℕ) (z : ℤ)
    → 0 < c
    → (pos_part (scale c z) ≡ pos_part z * c) × (neg_part (scale c z) ≡ neg_part z * c)
unfolding scale
scale_parts c (pos n) h = (refl, omega arith)
scale_parts c (negsuc n) h = (omega arith, omega (arith, mul-pos {m = suc n} (omega arith) h))

pub scale-scale : (a b : ℕ) (z : ℤ) → 0 < a → 0 < b → scale b (scale a z) ≡ scale (a * b) z
scale-scale a b z h k =
    let inner = scale_parts a z h in
    let outer = scale_parts b (scale a z) k in
    let whole = scale_parts (a * b) z (mul-pos h k) in
    let p : pos_part (scale b (scale a z)) ≡ pos_part (scale (a * b) z) =
      outer.0 ∙ ap (λ x. x * b) inner.0 ∙ mul_assoc (pos_part z) a b ∙ sym whole.0 in
    let n : neg_part (scale b (scale a z)) ≡ neg_part (scale (a * b) z) =
      outer.1 ∙ ap (λ x. x * b) inner.1 ∙ mul_assoc (neg_part z) a b ∙ sym whole.1 in
    parts_equal _ _ (omega arith)

true-ne-false : true ≢ false
true-ne-false h = cc

ltb-mul : (c x y : ℕ) → 0 < c → ltb (x * c) (y * c) ≡ ltb x y
ltb-mul c x y h = elim (Bool-cases (ltb x y)) [
  | inl e ↦ lt→ltb _ _ (mul-lt-mul_of_pos_right (ltb→lt x y e) h) ∙ sym e
  | inr e ↦ elim (Bool-cases (ltb (x * c) (y * c))) [
    | inl f ↦ absurd (
        let less = lt_of_mul-lt-mul_right c (ltb→lt (x * c) (y * c) f) in
        true-ne-false (sym (lt→ltb x y less) ∙ e))
    | inr f ↦ f ∙ sym e
  ]
]

ltb_cong : {x x' y y' : ℕ} → x ≡ x' → y ≡ y' → ltb x y ≡ ltb x' y'
ltb_cong e f = cc

leb-not : (x y : ℕ) → leb x y ≡ not (ltb y x)
leb-not x y = ground arith

pub ltb-scale : (c : ℕ) (a b : ℤ) → 0 < c → ltb_ℤ (scale c a) (scale c b) ≡ ltb_ℤ a b
ltb-scale c a b h =
    let p = scale_parts c a h in
    let q = scale_parts c b h in
    ltb_cong (omega (arith, p.0, q.1, add-mul (pos_part a) (neg_part b) c))
      (omega (arith, q.0, p.1, add-mul (pos_part b) (neg_part a) c))
    ∙ ltb-mul c (pos_part a + neg_part b) (pos_part b + neg_part a) h

pub leb-scale : (c : ℕ) (a b : ℤ) → 0 < c → leb_ℤ (scale c a) (scale c b) ≡ leb_ℤ a b
leb-scale c a b h = leb-not _ _ ∙ ap not (ltb-scale c b a h) ∙ sym (leb-not _ _)

le→leb : (a b : ℕ) → a ≤ b → leb a b ≡ true
le→leb a b h = ground arith

sub_mul : (a b c : ℕ) → (a - b) * c ≡ a * c - b * c
sub_mul a b c = elim (Bool-cases (leb b a)) [
  | inl e ↦
      let le = leb→le b a e in
      let same : a - b + b ≡ a = omega arith in
      let whole = ap (λ x. x * c) same in omega (arith, add-mul (a - b) b c)
  | inr e ↦
      let le : a ≤ b = ground arith in
      let same : a - b ≡ 0 = omega arith in
      let none_left = ap (λ x. x * c) same in let more = mul-le-mul_right c le in omega arith
]

sub_ℕ_parts : (a b : ℕ) → (pos_part (sub_ℕ a b) ≡ a - b) × (neg_part (sub_ℕ a b) ≡ b - a)
sub_ℕ_parts a b = ground arith

pub scale-sub_ℕ : (c a b : ℕ) → 0 < c → scale c (sub_ℕ a b) ≡ sub_ℕ (a * c) (b * c)
scale-sub_ℕ c a b h =
    let outer = scale_parts c (sub_ℕ a b) h in
    let inner = sub_ℕ_parts a b in
    let whole = sub_ℕ_parts (a * c) (b * c) in
    let p = outer.0 ∙ ap (λ x. x * c) inner.0 ∙ sub_mul a b c in
    let n = outer.1 ∙ ap (λ x. x * c) inner.1 ∙ sub_mul b a c in parts_equal _ _ (omega arith)

pub units_of-at :
    (k : ℕ) (x : Fixed) → x.places ≤ k → units_of k x ≡ scale (10 ^ (k - x.places)) x.value
unfolding units_of
units_of-at k x h = rw (le→leb x.places k h) refl

-- More places scale the units.
pub units_of-more :
    (k e : ℕ) (x : Fixed) → x.places ≤ k → units_of (k + e) x ≡ scale (10 ^ e) (units_of k x)
units_of-more k e x h =
    let p = x.places in
    let same : k + e - p ≡ k - p + e = omega arith in
    units_of-at (k + e) x (omega arith)
    ∙ ap (λ n. scale n x.value) (ap (λ n. 10 ^ n) same ∙ pow_add (k - p) e)
    ∙ sym (scale-scale (10 ^ (k - p)) (10 ^ e) x.value (ten_pos (k - p)) (ten_pos e))
    ∙ ap (scale (10 ^ e)) (sym (units_of-at k x h))
