-- ===== src/Common/Trim.antt =====
-- `strings.TrimSpace` trims once and for all.
use Prim.Native.Nat.{ℕ}
use mathlib.Core.Path.{◌≡◌, refl, ap, ◌∙◌}
use mathlib.Core.Bool.{false}
use mathlib.Core.List.{List, [], ◌∷◌}
use mathlib.Core.Logic.{inl, inr}
use mini_paa_s.Common.Tests.{Bool-cases}
use mini_paa_s.Common.Text.{is_space}
use mini_paa_s.Common.Chars.{space_left, space_right, trim_space, trimmed_cons}

-- The text does not begin with white space.
abbrev pub BeginsSolid : List ℕ → Type 0
BeginsSolid [] = Unit
BeginsSolid (c ∷ s) = is_space c ≡ false

space_left-BeginsSolid : (s : List ℕ) → BeginsSolid (space_left s)
unfolding space_left
space_left-BeginsSolid [] = tt
space_left-BeginsSolid (c ∷ s) = elim (Bool-cases (is_space c)) [
  | inl y ↦ rw y (space_left-BeginsSolid s)
  | inr n ↦ rw n n
]

space_left-eq : (s : List ℕ) → BeginsSolid s → space_left s ≡ s
unfolding space_left
space_left-eq [] h = refl
space_left-eq (c ∷ s) h = rw h refl

trimmed_cons-BeginsSolid :
    (c : ℕ) (s : List ℕ) → is_space c ≡ false → BeginsSolid (trimmed_cons c s)
trimmed_cons-BeginsSolid c [] h = rw h h
trimmed_cons-BeginsSolid c (d ∷ s) h = h

space_right-BeginsSolid : (s : List ℕ) → BeginsSolid s → BeginsSolid (space_right s)
unfolding space_right
space_right-BeginsSolid [] h = tt
space_right-BeginsSolid (c ∷ s) h = trimmed_cons-BeginsSolid c (space_right s) h

space_right-trimmed_cons :
    (c : ℕ) (s : List ℕ) → space_right s ≡ s → space_right (trimmed_cons c s) ≡ trimmed_cons c s
unfolding space_right
space_right-trimmed_cons c [] h = elim (Bool-cases (is_space c)) [
  | inl y ↦ rw y refl
  | inr n ↦ rw n (rw n refl)
]
space_right-trimmed_cons c (d ∷ s) h = ap (trimmed_cons c) h

space_right_idem : (s : List ℕ) → space_right (space_right s) ≡ space_right s
unfolding space_right
space_right_idem [] = refl
space_right_idem (c ∷ s) = space_right-trimmed_cons c (space_right s) (space_right_idem s)

pub trim_space_idem : (s : List ℕ) → trim_space (trim_space s) ≡ trim_space s
unfolding trim_space
trim_space_idem s =
    ap space_right (
      space_left-eq (space_right (space_left s))
        (space_right-BeginsSolid (space_left s) (space_left-BeginsSolid s)))
    ∙ space_right_idem (space_left s)
