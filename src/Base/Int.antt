-- ===== src/Base/Int.antt =====
-- Signed integers over the native numbers, by their two parts.
use Prim.Native.Nat.{ℕ, suc, ◌+◌, ◌-◌, ◌*◌, ◌%◌, ◌<◌}
use mathlib.Core.Path.{◌≡◌}
use native.Mathlib.Omega.{arith}
use mathlib.Core.Bool.{Bool, true}
use polymarket_go_sdk.Base.Tests.{ltb, leb, ◌==◌, if◌then◌else◌}

-- `negsuc n` is -(n + 1).
pub data ℤ : Type 0 where
  pos : ℕ → ℤ
  negsuc : ℕ → ℤ

abbrev pub pos_part : ℤ → ℕ
pos_part (pos n) = n
pos_part (negsuc n) = 0

abbrev pub neg_part : ℤ → ℕ
neg_part (pos n) = 0
neg_part (negsuc n) = suc n

abbrev pub ltb_ℤ : ℤ → ℤ → Bool
ltb_ℤ a b = ltb (pos_part a + neg_part b) (pos_part b + neg_part a)

abbrev pub leb_ℤ : ℤ → ℤ → Bool
leb_ℤ a b = leb (pos_part a + neg_part b) (pos_part b + neg_part a)

-- a - b, as an integer.
abbrev pub sub_ℕ : ℕ → ℕ → ℤ
sub_ℕ a b = if leb b a then pos (a - b) else negsuc (b - a - 1)

-- x <= 0
abbrev pub is_nonpos : ℤ → Bool
is_nonpos (pos n) = n == 0
is_nonpos (negsuc n) = true

abbrev pub double : ℤ → ℤ
double (pos n) = pos (n + n)
double (negsuc n) = negsuc (suc (n + n))

abbrev pub int64_bound : ℕ
int64_bound = 9223372036854775808

-- The bits of an int64, as an unsigned number.
abbrev to_word : ℤ → ℕ
to_word (pos n) = n % (2 * int64_bound)
to_word (negsuc n) = 2 * int64_bound - 1 - n % (2 * int64_bound)

-- The int64 with the given bits.
abbrev from_word : ℕ → ℤ
from_word u = if ltb u int64_bound then pos u else negsuc (2 * int64_bound - 1 - u)

-- The result of an int64 operation whose exact result is the argument.
unfoldable pub wrap64 : ℤ → ℤ
wrap64 z = from_word (to_word z)

pub wrap64_small : (n : ℕ) → n < int64_bound → wrap64 (pos n) ≡ pos n
unfolding wrap64
wrap64_small n h = ground arith
