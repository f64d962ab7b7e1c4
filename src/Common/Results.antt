-- ===== src/Common/Results.antt =====
-- What fallible code answers: a value, or an error of the component's own type.
use mathlib.Core.Path.{◌≡◌, refl, subst}
use mathlib.Core.Bool.{Bool, true, false}
use mathlib.Core.Option.{Option, none, some}
use mini_paa_s.Common.Tests.{if◌then◌else◌}

pub data Result (E A : Type 0) : Type 0 where
  err : E → Result E A
  ok : A → Result E A

module _ {E A B : Type 0} where
  infixl 5 ◌>>=◌
  abbrev pub ◌>>=◌ : Result E A → (A → Result E B) → Result E B
  err problem >>= next = err problem
  ok value >>= next = next value

module _ {E : Type 0} where
  infixl 5 ◌>>◌
  abbrev pub ◌>>◌ : {B : Type 0} → Result E (Unit {0}) → Result E B → Result E B
  check >> next = check >>= λ _. next

  -- The code goes on only if the test holds.
  abbrev pub guard : Bool → E → Result E (Unit {0})
  guard passes problem = elim passes [ true ↦ ok tt | false ↦ err problem ]

  abbrev pub or_err : {A : Type 0} → Option A → E → Result E A
  or_err found problem = elim found [ some value ↦ ok value | none ↦ err problem ]

-- How a chain that answers `ok` went through its first step.
module _ {E B : Type 0} {b : B} where
  pub guard-eq-ok :
      (passes : Bool) (problem : E) (next : Result E B)
      → (guard passes problem >> next) ≡ ok b
      → (passes ≡ true) × (next ≡ ok b)
  guard-eq-ok false problem next h = cc
  guard-eq-ok true problem next h = (refl, h)

  pub or_err-eq-ok :
      {A : Type 0} (found : Option A) (problem : E) (next : A → Result E B)
      → (or_err found problem >>= next) ≡ ok b
      → (value : A) × (found ≡ some value) × (next value ≡ ok b)
  or_err-eq-ok none problem next h = cc
  or_err-eq-ok (some value) problem next h = (value, refl, h)

-- A property of the value of a chain that answers `ok`
abbrev pub Satisfies : {E A : Type 0} → (A → Type 0) → Result E A → Type 0
Satisfies P (ok value) = P value
Satisfies P (err problem) = Unit

module _ {E B : Type 0} (P : B → Type 0) where
  pub satisfied : {m : Result E B} {value : B} → m ≡ ok value → Satisfies P m → P value
  satisfied h s = subst (Satisfies P) h s

  pub guard-Satisfies :
      (passes : Bool) (problem : E) (next : Result E B)
      → (passes ≡ true → Satisfies P next)
      → Satisfies P (guard passes problem >> next)
  guard-Satisfies true problem next h = h refl
  guard-Satisfies false problem next h = tt

  pub or_err-Satisfies :
      {A : Type 0} (found : Option A) (problem : E) (next : A → Result E B)
      → ((value : A) → found ≡ some value → Satisfies P (next value))
      → Satisfies P (or_err found problem >>= next)
  or_err-Satisfies none problem next h = tt
  or_err-Satisfies (some value) problem next h = h value refl

  pub map-Satisfies :
      {A : Type 0} (f : A → B) (m : Result E A)
      → Satisfies (λ a. P (f a)) m
      → Satisfies P (m >>= λ a. ok (f a))
  map-Satisfies f (ok value) h = h
  map-Satisfies f (err problem) h = tt

  pub if-Satisfies :
      (b : Bool) (m next : Result E B)
      → Satisfies P m
      → Satisfies P next
      → Satisfies P (if b then m else next)
  if-Satisfies true m next h k = h
  if-Satisfies false m next h k = k
