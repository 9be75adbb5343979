-- ===== src/Decimal.antt =====
-- The decimals of github.com/shopspring/decimal, of which the source uses the operations of this
-- record: `exponent` is Exponent, `truncate` and `shift` take the precision, and `parse` is
-- NewFromString, `at_most` is LessThanOrEqual. Decimal/Laws.antt says what is asked of them.
pub mod Laws
pub mod Fixed
use polymarket_go_sdk.Base.{ℕ, Bool, Option}
use polymarket_go_sdk.Base.Int.{ℤ, neg_part}
use polymarket_go_sdk.Base.Text.{Text}

pub record Decimals {ℓ} (D : Type ℓ) : Type ℓ where
  -- Sign() > 0 and Sign() < 0
  pub is_positive : D → Bool
  pub is_negative : D → Bool
  pub exponent : D → ℤ
  pub add : D → D → D
  pub sub : D → D → D
  pub mul : D → D → D
  pub div : D → D → D
  pub abs : D → D
  pub truncate : D → ℕ → D
  pub shift : D → ℕ → D
  pub less_than : D → D → Bool
  pub greater_than : D → D → Bool
  pub at_most : D → D → Bool
  pub min : D → D → D
  pub equal : D → D → Bool
  pub from_int : ℤ → D
  -- IntPart, an int64.
  pub int_part : D → ℤ
  -- BigInt
  pub big_int : D → ℤ
  pub parse : Text → Option D
  -- The decimal of the nearest float64.
  pub through_float : D → D

module _ {ℓ} {D : Type ℓ} (d : Decimals D) where
  -- decimalPlaces of pkg/clob/order_builder_resolve.go
  abbrev pub decimal_places : D → ℕ
  decimal_places x = neg_part (d.exponent x)
