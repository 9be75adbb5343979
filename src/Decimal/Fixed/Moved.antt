-- ===== src/Decimal/Fixed/Moved.antt =====
-- Products, truncation and shifts.
use polymarket_go_sdk.Base.{
  ℕ, ◌+◌, ◌-◌, ◌*◌, ◌/◌, ◌^◌, ◌≤◌, ◌<◌, ◌≡◌, refl, sym, ap, ◌∙◌, arith, leb, leb→le, Bool-cases,
  inl, inr,
}
use native.Mathlib.Nat.{mul-div_cancel, mul-div-mul_right}
use polymarket_go_sdk.Base.Int.{ℤ, pos, negsuc, pos_part}
use polymarket_go_sdk.Decimal.Fixed.{Fixed, scale, divide, product, cut, shifted, units_of}
use polymarket_go_sdk.Decimal.Fixed.Scaled.{
  ten_pos, pow_add, scale-scale, units_of-at, units_of-more,
}

scale-eq-pos : (c : ℕ) (z : ℤ) {m : ℕ} → scale c z ≡ pos m → (n : ℕ) × (z ≡ pos n) × (n * c ≡ m)
unfolding scale
scale-eq-pos c (pos n) h = (n, refl, ap pos_part h)
scale-eq-pos c (negsuc n) h = cc

regroup : (a b c d : ℕ) → a * b * (c * d) ≡ a * c * (b * d)
regroup a b c d = grind arith

pub product_lem :
    (j k m n : ℕ) (x y : Fixed)
    → x.places ≤ j
    → y.places ≤ k
    → units_of j x ≡ pos m
    → units_of k y ≡ pos n
    → units_of (j + k) (record { value = product x.value y.value; places = x.places + y.places })
      ≡ pos (m * n)
unfolding product scale
product_lem j k m n x y h g e f =
    let (a, ea, fa) = scale-eq-pos _ x.value (sym (units_of-at j x h) ∙ e) in
    let (b, eb, fb) = scale-eq-pos _ y.value (sym (units_of-at k y g) ∙ f) in
    let p = x.places in
    let q = y.places in
    let same : j + k - (p + q) ≡ (j - p) + (k - q) = omega arith in
    let values : product x.value y.value ≡ pos (a * b) = cc in
    let amounts : a * 10 ^ (j - p) * (b * 10 ^ (k - q)) ≡ m * n = cc in
    units_of-at (j + k) (record { value = product x.value y.value; places = p + q }) (omega arith)
    ∙ ap (scale (10 ^ (j + k - (p + q)))) values
    ∙ ap (λ c. scale c (pos (a * b))) (ap (λ n. 10 ^ n) same ∙ pow_add (j - p) (k - q))
    ∙ ap pos (regroup a b (10 ^ (j - p)) (10 ^ (k - q)) ∙ amounts)

unscaled : (m a : ℕ) → scale (10 ^ (m - m)) (pos a) ≡ pos a
unfolding scale
unscaled m a =
    let same : m - m ≡ 0 = omega arith in ap (λ e. pos (a * 10 ^ e)) same ∙ ap pos (omega arith)

pub cut-units :
    (m k n : ℕ) (x : Fixed)
    → x.places ≤ m + k
    → units_of (m + k) x ≡ pos n
    → units_of m (cut x m) ≡ pos (n / 10 ^ k)
unfolding cut divide
cut-units m k n x h e = elim (Bool-cases (leb x.places m)) [
  | inl small ↦
      let le = leb→le x.places m small in
      let (a, ea, fa) = scale-eq-pos _ _ (sym (units_of-more m k x le) ∙ e) in
      rw small (ea ∙ ap pos (sym (ap (λ z. z / 10 ^ k) (sym fa) ∙ mul-div_cancel a (ten_pos k))))
  | inr large ↦
      let p = x.places in
      let lt : m < p = ground arith in
      let (a, ea, fa) = scale-eq-pos _ x.value (sym (units_of-at (m + k) x h) ∙ e) in
      let same : k ≡ (p - m) + (m + k - p) = omega arith in
      let power = ap (λ n. 10 ^ n) same ∙ pow_add (p - m) (m + k - p) in
      rw large (
        units_of-at m (record { value = divide (10 ^ (p - m)) x.value; places = m }) (omega arith)
        ∙ ap (λ z. scale (10 ^ (m - m)) (divide (10 ^ (p - m)) z)) ea
        ∙ unscaled m (a / 10 ^ (p - m))
        ∙ ap pos (
            sym (mul-div-mul_right a (10 ^ (p - m)) (ten_pos (m + k - p)))
            ∙ ap (λ z. z / (10 ^ (p - m) * 10 ^ (m + k - p))) fa
            ∙ ap (λ z. n / z) (sym power)))
]

pub shifted_lem :
    (j k : ℕ) (x : Fixed) → x.places ≤ j + k → units_of j (shifted x k) ≡ units_of (j + k) x
unfolding shifted
shifted_lem j k x h = elim (Bool-cases (leb x.places k)) [
  | inl small ↦
      let p = x.places in
      let le = leb→le p k small in
      let same : (k - p) + (j - 0) ≡ j + k - p = omega arith in
      rw small (
        units_of-at j (record { value = scale (10 ^ (k - p)) x.value; places = 0 }) (omega arith)
        ∙ scale-scale (10 ^ (k - p)) (10 ^ (j - 0)) x.value (ten_pos (k - p)) (ten_pos (j - 0))
        ∙ ap (λ c. scale c x.value) (sym (pow_add (k - p) (j - 0)) ∙ ap (λ n. 10 ^ n) same)
        ∙ sym (units_of-at (j + k) x h))
  | inr large ↦
      let p = x.places in
      let lt : k < p = ground arith in
      let same : j - (p - k) ≡ j + k - p = omega arith in
      rw large (
        units_of-at j (record { value = x.value; places = p - k }) (omega arith)
        ∙ ap (λ n. scale (10 ^ n) x.value) same
        ∙ sym (units_of-at (j + k) x h))
]
