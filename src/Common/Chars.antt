-- ===== src/Common/Chars.antt =====
-- Go's `strings` on texts as lists of code points, where a program walks them.
use Prim.Native.Char.{code}
use Prim.Native.Nat.{ℕ, ◌-◌}
use Prim.Native.String.{String}
use mathlib.Core.Path.{◌≡◌, refl, ap}
use mathlib.Core.Bool.{Bool, true, false, ◌&&◌, ◌||◌}
use mathlib.Core.List.{List, [], ◌∷◌, ◌++◌}
use native.Mathlib.Omega.{arith}
use mathlib.Core.Logic.{inl, inr}
use mini_paa_s.Common.Tests.{◌==◌, if◌then◌else◌, Bool-cases}
use mini_paa_s.Common.Lists.{length, take, drop, All}
use mini_paa_s.Common.Text.{is_space}

-- The code points of a literal
abbrev pub codes : String → List ℕ
codes String.[] = []
codes (String.◌∷◌ c s) = code c ∷ codes s

abbrev pub text_eq : List ℕ → List ℕ → Bool
text_eq [] [] = true
text_eq [] (y ∷ ys) = false
text_eq (x ∷ xs) [] = false
text_eq (x ∷ xs) (y ∷ ys) = x == y && text_eq xs ys

-- `strings.HasPrefix s prefix`
abbrev pub has_prefix : List ℕ → List ℕ → Bool
has_prefix s [] = true
has_prefix [] (p ∷ ps) = false
has_prefix (c ∷ s) (p ∷ ps) = c == p && has_prefix s ps

-- `strings.HasSuffix s suffix`
abbrev pub has_suffix : List ℕ → List ℕ → Bool
has_suffix [] suffix = text_eq [] suffix
has_suffix (c ∷ s) suffix = text_eq (c ∷ s) suffix || has_suffix s suffix

-- `strings.Contains s part`
abbrev pub has_part : List ℕ → List ℕ → Bool
has_part [] part = has_prefix [] part
has_part (c ∷ s) part = has_prefix (c ∷ s) part || has_part s part

abbrev pub has_code : ℕ → List ℕ → Bool
has_code x [] = false
has_code x (c ∷ s) = c == x || has_code x s

-- `strings.TrimPrefix`, `strings.TrimSuffix`
abbrev pub trim_prefix : List ℕ → List ℕ → List ℕ
trim_prefix s prefix = if has_prefix s prefix then drop (length prefix) s else s

abbrev pub trim_suffix : List ℕ → List ℕ → List ℕ
trim_suffix s suffix = if has_suffix s suffix then take (length s - length suffix) s else s

-- `strings.TrimSpace`
unfoldable pub space_left : List ℕ → List ℕ
unfolding is_space
space_left [] = []
space_left (c ∷ s) = let rest = space_left s in if is_space c then rest else c ∷ s

abbrev pub trimmed_cons : ℕ → List ℕ → List ℕ
trimmed_cons c [] = if is_space c then [] else c ∷ []
trimmed_cons c (d ∷ rest) = c ∷ d ∷ rest

unfoldable pub space_right : List ℕ → List ℕ
unfolding is_space
space_right [] = []
space_right (c ∷ s) = trimmed_cons c (space_right s)

unfoldable pub trim_space : List ℕ → List ℕ
unfolding space_left space_right
trim_space s = space_right (space_left s)

-- `strings.Split s sep`, for a separator of one code point
abbrev pub cons_first : ℕ → List (List ℕ) → List (List ℕ)
cons_first c [] = (c ∷ []) ∷ []
cons_first c (p ∷ ps) = (c ∷ p) ∷ ps

abbrev pub split : ℕ → List ℕ → List (List ℕ)
split sep [] = [] ∷ []
split sep (c ∷ s) = let rest = split sep s in if c == sep then [] ∷ rest else cons_first c rest

-- `strings.Join parts sep`
abbrev pub join : ℕ → List (List ℕ) → List ℕ
join sep [] = []
join sep (p ∷ []) = p
join sep (p ∷ q ∷ ps) = p ++ (sep ∷ join sep (q ∷ ps))

-- `strings.ReplaceAll`, from one code point to another
abbrev pub replace_all : ℕ → ℕ → List ℕ → List ℕ
replace_all from to [] = []
replace_all from to (c ∷ s) = (if c == from then to else c) ∷ replace_all from to s

pub text_eq_refl : (s : List ℕ) → text_eq s s ≡ true
text_eq_refl [] = refl
text_eq_refl (c ∷ s) = ground (arith, text_eq_refl s)

pub text_eq_path : (s t : List ℕ) → text_eq s t ≡ true → s ≡ t
text_eq_path [] [] h = refl
text_eq_path [] (y ∷ ys) h = cc
text_eq_path (x ∷ xs) [] h = cc
text_eq_path (x ∷ xs) (y ∷ ys) h = ground (arith, text_eq_path xs ys)

-- The text has no separator.
abbrev pub IsPart : ℕ → List ℕ → Type 0
IsPart sep s = has_code sep s ≡ false

pub split-IsPart_one : (sep : ℕ) (s : List ℕ) → IsPart sep s → split sep s ≡ s ∷ []
split-IsPart_one sep [] h = refl
split-IsPart_one sep (c ∷ s) h = ground (arith, split-IsPart_one sep s)

pub split-append :
    (sep : ℕ) (s t : List ℕ) → IsPart sep s → split sep (s ++ (sep ∷ t)) ≡ s ∷ split sep t
split-append sep [] t h = ground arith
split-append sep (c ∷ s) t h = ground (arith, split-append sep s t)

-- Splitting undoes joining, for parts without the separator.
pub split-join :
    (sep : ℕ) (p : List ℕ) (ps : List (List ℕ))
    → All (IsPart sep) (p ∷ ps)
    → split sep (join sep (p ∷ ps)) ≡ p ∷ ps
split-join sep p [] h = split-IsPart_one sep p h.0
split-join sep p (q ∷ ps) h =
    rw (split-append sep p (join sep (q ∷ ps)) h.0) (ap (λ r. p ∷ r) (split-join sep q ps h.1))

cons_first-IsPart :
    (sep c : ℕ) (ps : List (List ℕ))
    → (c == sep) ≡ false
    → All (IsPart sep) ps
    → All (IsPart sep) (cons_first c ps)
cons_first-IsPart sep c [] n h = ground arith
cons_first-IsPart sep c (p ∷ ps) n h = (ground arith, h.1)

split_cons-IsPart :
    (sep c : ℕ) (s : List ℕ) → All (IsPart sep) (split sep s) → All (IsPart sep) (split sep (c ∷ s))
split_cons-IsPart sep c s h = elim (Bool-cases (c == sep)) [
  | inl y ↦ rw y (refl, h)
  | inr n ↦ rw n (cons_first-IsPart sep c (split sep s) n h)
]

pub split-IsPart : (sep : ℕ) (s : List ℕ) → All (IsPart sep) (split sep s)
split-IsPart sep [] = (refl, tt)
split-IsPart sep (c ∷ s) = split_cons-IsPart sep c s (split-IsPart sep s)
