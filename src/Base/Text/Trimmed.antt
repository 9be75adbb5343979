-- ===== src/Base/Text/Trimmed.antt =====
-- Texts with no space at their ends, which strings.TrimSpace leaves as they are.
use mathlib.Core.Path.{◌≡◌, refl, sym, ap, ◌∙◌, subst}
use mathlib.Core.Logic.{inl, inr}
use mathlib.Core.Bool.{false}
use mathlib.Core.List.{[], ◌∷◌, ◌++◌, reverse, reverse-cons, reverse-reverse, reverse-append}
use polymarket_go_sdk.Base.Tests.{Bool-cases}
use polymarket_go_sdk.Base.Text.{Text, is_space, trim_left, trim_space, lower, to_lower}
use native.Mathlib.Omega.{arith}
use Prim.Native.Nat.{ℕ}

-- No space at the front.
abbrev Solid : Text → Type 0
Solid [] = Unit
Solid (c ∷ s) = is_space c ≡ false

abbrev pub Trimmed : Text → Type 0
Trimmed s = Solid s × Solid (reverse s)

trim_left-Solid : (s : Text) → Solid (trim_left s)
unfolding trim_left
trim_left-Solid [] = _
trim_left-Solid (c ∷ s) = elim (Bool-cases (is_space c)) [
  | inl p ↦ rw p (trim_left-Solid s)
  | inr p ↦ rw p p
]

Solid-trim_left : (s : Text) → Solid s → trim_left s ≡ s
unfolding trim_left
Solid-trim_left [] h = refl
Solid-trim_left (c ∷ s) h = rw h refl

Solid-append : (x y : Text) → Solid (x ++ y) → Solid x
Solid-append [] y h = _
Solid-append (c ∷ x) y h = h

reverse-trim_left-Solid : (w : Text) → Solid (reverse w) → Solid (reverse (trim_left w))
unfolding trim_left
reverse-trim_left-Solid [] h = h
reverse-trim_left-Solid (c ∷ w) h = elim (Bool-cases (is_space c)) [
  | inl p ↦ rw p (
      reverse-trim_left-Solid w
        (Solid-append (reverse w) (c ∷ []) (subst Solid (reverse-cons c w) h)))
  | inr p ↦ rw p h
]

pub trim_space-Trimmed : (s : Text) → Trimmed (trim_space s)
unfolding trim_space
trim_space-Trimmed s =
    let u : Text = trim_left s in
    let v : Text = trim_left (reverse u) in
    (
      reverse-trim_left-Solid (reverse u)
          (subst Solid (sym (reverse-reverse u)) (trim_left-Solid s)),
      subst Solid (sym (reverse-reverse v)) (trim_left-Solid (reverse u)),
    )

pub Trimmed-trim_space : (s : Text) → Trimmed s → trim_space s ≡ s
unfolding trim_space
Trimmed-trim_space s h =
    rw (Solid-trim_left s h.0) (rw (Solid-trim_left (reverse s) h.1) (reverse-reverse s))

is_space-lower : (c : ℕ) → is_space (lower c) ≡ is_space c
unfolding is_space lower
is_space-lower c = ground arith

lower-lower : (c : ℕ) → lower (lower c) ≡ lower c
unfolding lower
lower-lower c = ground arith

Solid-to_lower : (s : Text) → Solid s → Solid (to_lower s)
unfolding to_lower
Solid-to_lower [] h = _
Solid-to_lower (c ∷ s) h = is_space-lower c ∙ h

to_lower-to_lower : (s : Text) → to_lower (to_lower s) ≡ to_lower s
unfolding to_lower
to_lower-to_lower [] = refl
to_lower-to_lower (c ∷ s) = rw (lower-lower c) (ap (λ t. lower c ∷ t) (to_lower-to_lower s))

to_lower-append : (s t : Text) → to_lower (s ++ t) ≡ to_lower s ++ to_lower t
unfolding to_lower
to_lower-append [] t = refl
to_lower-append (c ∷ s) t = ap (λ x. lower c ∷ x) (to_lower-append s t)

to_lower-reverse : (s : Text) → to_lower (reverse s) ≡ reverse (to_lower s)
unfolding to_lower
to_lower-reverse [] = refl
to_lower-reverse (c ∷ s) =
    ap to_lower (reverse-cons c s)
    ∙ to_lower-append (reverse s) (c ∷ [])
    ∙ ap (λ x. x ++ (lower c ∷ [])) (to_lower-reverse s)
    ∙ sym (reverse-cons (lower c) (to_lower s))

pub Trimmed-to_lower : (s : Text) → Trimmed s → Trimmed (to_lower s)
unfolding to_lower
Trimmed-to_lower s h =
    (Solid-to_lower s h.0, subst Solid (to_lower-reverse s) (Solid-to_lower (reverse s) h.1))

-- strings.ToLower(strings.TrimSpace(s)), done twice, is done once.
pub normalized_again :
    (s : Text) → to_lower (trim_space (to_lower (trim_space s))) ≡ to_lower (trim_space s)
normalized_again s =
    rw
      (Trimmed-trim_space (to_lower (trim_space s))
        (Trimmed-to_lower (trim_space s) (trim_space-Trimmed s)))
      (to_lower-to_lower (trim_space s))

Solid-join : (x y : Text) → Solid x → Solid y → Solid (x ++ y)
Solid-join [] y h k = k
Solid-join (c ∷ x) y h k = h

pub Trimmed-append : (x y : Text) → Trimmed x → Trimmed y → Trimmed (x ++ y)
Trimmed-append x y h k = (
  Solid-join x y h.0 k.0,
  subst Solid (sym (reverse-append x y)) (Solid-join (reverse y) (reverse x) k.1 h.1),
)
