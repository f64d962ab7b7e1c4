-- ===== src/GitDeployments/Origins.antt =====
-- What a row of the deployments repeats, and how writes to the table keep it.
use mini_paa_s.Common.{
  ℕ, suc, ◌≤◌, ◌<◌, ◌≡◌, refl, sym, ◌∙◌, ap, subst, true, false, List, [], ◌∷◌, Option, none, some,
  ◌==◌, if◌then◌else◌, arith, Bool-cases, inl, inr, All, length, find_by-cases,
}
use mini_paa_s.Domain.{DeploymentStatus}
use mini_paa_s.GitDeployments.{Row, find, has_id, next_attempt, update_status}

-- A row is the first attempt, or the one after a Git deployment of the same app in the table.
abbrev pub IsAttempt : List Row → Row → Option ℕ → Type 0
IsAttempt t r none = r.attempt ≡ 1
IsAttempt t r (some id) =
    (target : Row) × (find id t ≡ some target)
    × (target.app ≡ r.app)
    × (target.is_git ≡ true)
    × (r.is_git ≡ true)
    × (r.attempt ≡ suc target.attempt)

abbrev pub IsRecorded : List Row → Row → Type 0
IsRecorded t r = IsAttempt t r r.retry_of × (r.attempt ≤ length t)

has_id-found : (id : ℕ) (x : Row) (t : List Row) → find id t ≡ some x → has_id id t ≡ true
unfolding find has_id
has_id-found id x [] e = cc
has_id-found id x (r ∷ rs) e = elim (find_by-cases (λ y. y.id == id) x r rs e) [
  | inl (same, t) ↦ rw same refl
  | inr (other, later) ↦ rw other (has_id-found id x rs later)
]

find-id : (id : ℕ) (x : Row) (t : List Row) → find id t ≡ some x → x.id ≡ id
unfolding find
find-id id x [] e = cc
find-id id x (r ∷ rs) e = elim (find_by-cases (λ y. y.id == id) x r rs e) [
  | inl (same, t) ↦ sym (ap (λ y. y.id) t) ∙ ground (arith, same)
  | inr (other, later) ↦ find-id id x rs later
]

-- A row is found by its own id.
pub find-own : (id : ℕ) (x : Row) (t : List Row) → find id t ≡ some x → find x.id t ≡ some x
find-own id x t e = subst (λ i. find i t ≡ some x) (sym (find-id id x t e)) e

-- A new row hides no other.
pub find-insert :
    (r x : Row) (id : ℕ) (t : List Row)
    → has_id r.id t ≡ false
    → find id t ≡ some x
    → find id (r ∷ t) ≡ some x
unfolding find
find-insert r x id t free e = elim (Bool-cases (r.id == id)) [
  | inr other ↦ rw other e
  | inl same ↦
      let k : r.id ≡ id = ground (arith, same) in
      absurd (cc (free, ap (λ i. has_id i t) k, has_id-found id x t e))
]

abbrev with_status : ℕ → DeploymentStatus → Row → Row
with_status id status r = if r.id == id then record r { status = status } else r

find-update_status :
    (own : ℕ) (status : DeploymentStatus) (x : Row) (id : ℕ) (t : List Row)
    → find id t ≡ some x
    → find id (update_status own status t) ≡ some (with_status own status x)
unfolding find update_status
find-update_status own status x id [] e = cc
find-update_status own status x id (r ∷ rs) e = elim (find_by-cases (λ y. y.id == id) x r rs e) [
  | inl (same, t) ↦ elim (Bool-cases (r.id == own)) [
    | inl mine ↦ rw (sym t, mine, same) refl
    | inr foreign ↦ rw (sym t, foreign, same) refl
  ]
  | inr (other, later) ↦
      let rest = find-update_status own status x id rs later in
      elim (Bool-cases (r.id == own)) [
        | inl mine ↦ rw (mine, other) rest
        | inr foreign ↦ rw (foreign, other) rest
      ]
]

-- What a row repeats does not depend on its status.
status-kept :
    {A : Type 0} (f : Row → A) (own : ℕ) (status : DeploymentStatus) (r : Row)
    → f (record r { status = status }) ≡ f r
    → f (with_status own status r) ≡ f r
status-kept f own status r e = elim (Bool-cases (r.id == own)) [
  | inl mine ↦ rw mine e
  | inr foreign ↦ rw foreign refl
]

pub length-update_status :
    (own : ℕ) (status : DeploymentStatus) (t : List Row)
    → length (update_status own status t) ≡ length t
unfolding update_status
length-update_status own status [] = refl
length-update_status own status (r ∷ rs) = ap suc (length-update_status own status rs)

insert-IsRecorded :
    (x r : Row) (t : List Row) → has_id x.id t ≡ false → IsRecorded t r → IsRecorded (x ∷ t) r
insert-IsRecorded x r t free (a, b) = (by_origin r.retry_of a, omega (arith, b))
  where
    by_origin : (o : Option ℕ) → IsAttempt t r o → IsAttempt (x ∷ t) r o
    by_origin none h = h
    by_origin (some id) (target, found, app, git, own, next) =
        (target, find-insert x target id t free found, app, git, own, next)

status-IsRecorded :
    (own : ℕ) (status : DeploymentStatus) (r : Row) (t : List Row)
    → IsRecorded t r
    → IsRecorded (update_status own status t) (with_status own status r)
status-IsRecorded own status r t (a, b) = elim (Bool-cases (r.id == own)) [
  | inl mine ↦ rw mine (by_origin r.retry_of a, rw (length-update_status own status t) b)
  | inr foreign ↦ rw foreign (by_origin r.retry_of a, rw (length-update_status own status t) b)
]
  where
    by_origin : (o : Option ℕ) → IsAttempt t r o → IsAttempt (update_status own status t) r o
    by_origin none h = h
    by_origin (some id) (x, found, app, git, is_own, next) = (
      with_status own status x,
      find-update_status own status x id t found,
      status-kept (λ y. y.app) own status x refl ∙ app,
      status-kept (λ y. y.is_git) own status x refl ∙ git,
      is_own,
      next ∙ sym (ap suc (status-kept (λ y. y.attempt) own status x refl)),
    )

pub All-IsRecorded-insert :
    (x : Row) (t rs : List Row)
    → has_id x.id t ≡ false
    → All (IsRecorded t) rs
    → All (IsRecorded (x ∷ t)) rs
All-IsRecorded-insert x t [] free h = tt
All-IsRecorded-insert x t (r ∷ rs) free h =
    (insert-IsRecorded x r t free h.0, All-IsRecorded-insert x t rs free h.1)

abbrev pub Recorded : List Row → Type 0
Recorded t = All (IsRecorded t) t

pub All-IsRecorded-status :
    (own : ℕ) (status : DeploymentStatus) (t rs : List Row)
    → All (IsRecorded t) rs
    → All (IsRecorded (update_status own status t)) (update_status own status rs)
unfolding update_status
All-IsRecorded-status own status t [] h = tt
All-IsRecorded-status own status t (r ∷ rs) h =
    (status-IsRecorded own status r t h.0, All-IsRecorded-status own status t rs h.1)

-- The attempt that a retry is stored with, short of the bound of the counter
pub next_attempt_lem : (n : ℕ) → 1 ≤ n → n < 2147483647 → next_attempt n ≡ suc n
next_attempt_lem n l h = ground (arith, l, h)

pub found-IsRecorded :
    (id : ℕ) (x : Row) (t rs : List Row)
    → find id rs ≡ some x
    → All (IsRecorded t) rs
    → IsRecorded t x
unfolding find
found-IsRecorded id x t [] e h = cc
found-IsRecorded id x t (r ∷ rs) e h = elim (find_by-cases (λ y. y.id == id) x r rs e) [
  | inl (same, is) ↦ subst (IsRecorded t) is h.0
  | inr (other, later) ↦ found-IsRecorded id x t rs later h.1
]

-- Attempts count from one.
pub attempt-positive : (t : List Row) (r : Row) → IsRecorded t r → 1 ≤ r.attempt
attempt-positive t r (a, b) = by_origin r.retry_of a
  where
    by_origin : (o : Option ℕ) → IsAttempt t r o → 1 ≤ r.attempt
    by_origin none h = omega (arith, h)
    by_origin (some id) (x, found, app, git, own, next) = omega (arith, next)
