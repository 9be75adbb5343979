-- ===== src/Base/Text/Split.antt =====
-- strings.Split and strings.SplitN(s, sep, 2) at a separator of one byte.
use Prim.Native.Nat.{ℕ}
use mathlib.Core.Path.{◌≡◌, refl}
use mathlib.Core.Bool.{Bool, false, ◌||◌}
use mathlib.Core.Option.{Option, none, some}
use mathlib.Core.List.{List, [], ◌∷◌, ◌++◌}
use native.Mathlib.Omega.{arith}
use polymarket_go_sdk.Base.Tests.{◌==◌, if◌then◌else◌}
use polymarket_go_sdk.Base.Text.{Text}

-- Is a byte in a text?
unfoldable pub has : ℕ → Text → Bool
has c [] = false
has c (x ∷ s) = x == c || has c s

abbrev cons_first : ℕ → List Text → List Text
cons_first x [] = (x ∷ []) ∷ []
cons_first x (s ∷ rest) = (x ∷ s) ∷ rest

unfoldable pub split : ℕ → Text → List Text
split c [] = [] ∷ []
split c (x ∷ s) = let rest = split c s in if x == c then [] ∷ rest else cons_first x rest

-- What stands before the first separator and after it, if there is one.
unfoldable pub cut : ℕ → Text → Option (Text × Text)
cut c [] = none
cut c (x ∷ s) =
    let rest = cut c s in
    if x == c then some ([], s) else elim rest [ none ↦ none | some r ↦ some (x ∷ r.0, r.1) ]

has-append : (c : ℕ) (s t : Text) → has c s ≡ false → has c t ≡ false → has c (s ++ t) ≡ false
unfolding has
has-append c [] t h k = k
has-append c (x ∷ s) t h k = ground (arith, has-append c s t)

pub split_free : (c : ℕ) (s : Text) → has c s ≡ false → split c s ≡ s ∷ []
unfolding has split
split_free c [] h = refl
split_free c (x ∷ s) h = ground (arith, split_free c s)

pub split-append : (c : ℕ) (s t : Text) → has c s ≡ false → split c (s ++ (c ∷ t)) ≡ s ∷ split c t
unfolding has split
split-append c [] t h = ground arith
split-append c (x ∷ s) t h = ground (arith, split-append c s t)
