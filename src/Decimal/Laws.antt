-- ===== src/Decimal/Laws.antt =====
-- What the library documents of its decimals, by the value that a decimal stands for: `units k x` is
-- the number of units of 10^-k in `x`, where it has at most k decimal places.
use polymarket_go_sdk.Base.{ℕ, ◌+◌, ◌*◌, ◌/◌, ◌^◌, ◌≤◌, ◌<◌, ◌≡◌, ◌↔◌, ◌⊎◌, true, false}
use polymarket_go_sdk.Base.Int.{ℤ, pos, pos_part, neg_part, ltb_ℤ, leb_ℤ, sub_ℕ}
use polymarket_go_sdk.Decimal.{Decimals, decimal_places}

pub record Laws {ℓ} {D : Type ℓ} (d : Decimals D) : Type ℓ where
  pub units : ℕ → D → ℤ
  pub positive_iff :
      (k : ℕ) (x : D)
      → decimal_places d x ≤ k
      → (d.is_positive x ≡ true) ↔ (0 < pos_part (units k x))
  pub less_than-units :
      (k : ℕ) (x y : D)
      → decimal_places d x ≤ k
      → decimal_places d y ≤ k
      → d.less_than x y ≡ ltb_ℤ (units k x) (units k y)
  pub greater_than-units :
      (k : ℕ) (x y : D)
      → decimal_places d x ≤ k
      → decimal_places d y ≤ k
      → d.greater_than x y ≡ ltb_ℤ (units k y) (units k x)
  pub from_int-units : (k n : ℕ) → units k (d.from_int (pos n)) ≡ pos (n * 10 ^ k)
  pub from_int-places : (n : ℕ) → decimal_places d (d.from_int (pos n)) ≡ 0
  pub sub-units :
      (k : ℕ) (x y : D)
      → decimal_places d x ≤ k
      → decimal_places d y ≤ k
      → units k (d.sub x y)
        ≡ sub_ℕ
            (pos_part (units k x) + neg_part (units k y))
            (neg_part (units k x) + pos_part (units k y))
  pub sub-places :
      (k : ℕ) (x y : D)
      → decimal_places d x ≤ k
      → decimal_places d y ≤ k
      → decimal_places d (d.sub x y) ≤ k
  -- The product of two decimals that are not negative.
  pub mul-units :
      (j k m n : ℕ) (x y : D)
      → decimal_places d x ≤ j
      → decimal_places d y ≤ k
      → units j x ≡ pos m
      → units k y ≡ pos n
      → units (j + k) (d.mul x y) ≡ pos (m * n)
  pub mul-places :
      (x y : D) → decimal_places d (d.mul x y) ≤ decimal_places d x + decimal_places d y
  -- Truncation to a precision that is enough changes nothing, and otherwise drops digits.
  pub truncate-enough : (m : ℕ) (x : D) → decimal_places d x ≤ m → d.truncate x m ≡ x
  pub truncate-places : (m : ℕ) (x : D) → decimal_places d (d.truncate x m) ≤ m
  pub truncate-units :
      (m k n : ℕ) (x : D)
      → decimal_places d x ≤ m + k
      → units (m + k) x ≡ pos n
      → units m (d.truncate x m) ≡ pos (n / 10 ^ k)
  pub shift-units :
      (j k : ℕ) (x : D) → decimal_places d x ≤ j + k → units j (d.shift x k) ≡ units (j + k) x
  pub shift-places :
      (j k : ℕ) (x : D) → decimal_places d x ≤ j + k → decimal_places d (d.shift x k) ≤ j
  pub big_int-units : (x : D) → decimal_places d x ≤ 0 → d.big_int x ≡ units 0 x
  pub at_most-units :
      (k : ℕ) (x y : D)
      → decimal_places d x ≤ k
      → decimal_places d y ≤ k
      → d.at_most x y ≡ leb_ℤ (units k x) (units k y)
  pub min-cases : (x y : D) → (d.min x y ≡ x) ⊎ (d.min x y ≡ y)
  pub min-not_greater : (x y : D) → d.greater_than (d.min x y) y ≡ false
