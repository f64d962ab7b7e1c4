-- ===== src/SourceGit/Branches.antt =====
-- The names of branches that a deployment is made from.
use mini_paa_s.Common.{
  ℕ, ◌≡◌, refl, subst, false, List, [], ◌∷◌, some, arith, codes, has_prefix, trim_space,
  trim_space_idem, Bool-cases, inl, inr,
}
use mini_paa_s.SourceGit.{checked_branch, is_bad_branch, normalize_branch}

-- The branch is not refused, and is trimmed.
abbrev Accepted : List ℕ → Type 0
Accepted b = (is_bad_branch b ≡ false) × (trim_space b ≡ b) × (checked_branch b ≡ some b)

checked : (s b : List ℕ) → trim_space s ≡ s → checked_branch s ≡ some b → Accepted b
unfolding trim_space
checked [] b t h =
    let e : codes "main" ≡ b = cc h in
    let main : Accepted (codes "main") = (refl, refl, refl) in subst Accepted e main
checked (c ∷ s) b t h = elim (Bool-cases (is_bad_branch (c ∷ s))) [
  | inl y ↦ absurd (cc (rw y at h))
  | inr n ↦
      let e : c ∷ s ≡ b = cc (rw n at h) in
      let kept : Accepted (c ∷ s) = (n, t, rw n refl) in subst Accepted e kept
]

-- A branch that `NormalizeBranch` accepts, or the default `main`, is accepted unchanged when it is
-- normalised again, as `Prepare` does with the branch of a deployment; and it does not begin with a
-- dash, so that Git cannot take it for an option.
pub normalize_branch-stable :
    (raw b : List ℕ)
    → normalize_branch raw ≡ some b
    → (normalize_branch b ≡ some b) × (has_prefix b (codes "-") ≡ false)
unfolding normalize_branch
normalize_branch-stable raw b h =
    let c = checked (trim_space raw) b (trim_space_idem raw) h in (rw c.1 c.2, ground (arith, c.0))
