-- ===== src/Apps/Creation.antt =====
-- What a creation comes to: nothing, or one row more.
use mini_paa_s.Common.{
  ℕ, ◌≡◌, refl, ◌⊎◌, Bool, true, false, ◌||◌, not, List, [], ◌∷◌, Option, ltb, Bool-cases, inl, inr,
}
use mini_paa_s.Common.Results.{Result, ◌>>◌, guard}
use mini_paa_s.Domain.{AppStatus}
use mini_paa_s.Apps.{Row, Table, Error, count, has_name, create, is_limited, after, matches_name}

abbrev pub new_row : Option ℕ → ℕ → List ℕ → Row
new_row user id name = record {
  id = id;
  name = name;
  owner = user;
  status = AppStatus.idle;
  public_url = [];
}

-- The tests that a new row has passed
pub record Passed (maximum : ℕ) (user : Option ℕ) (name : List ℕ) (t : Table) : Type 0 where
  pub valid : matches_name name ≡ true
  pub fresh : has_name name t ≡ false
  pub within : (not (is_limited maximum user) || ltb (count user t) maximum) ≡ true

abbrev pub Comes : ℕ → Option ℕ → ℕ → List ℕ → Table → Table → Type 0
Comes maximum user id name t t' =
    (t' ≡ t) ⊎ ((t' ≡ new_row user id name ∷ t) × Passed maximum user name t)

refused :
    (b : Bool) (e : Error) (m : Result Error Table) (t : Table) (P : Table → Type 0)
    → P t
    → (b ≡ true → P (after t m))
    → P (after t (guard b e >> m))
refused true e m t P p q = q refl
refused false e m t P p q = p

pub create-Comes :
    (maximum id : ℕ) (counts writes : Bool) (user : Option ℕ) (name : List ℕ) (t : Table)
    → Comes maximum user id name t (after t (create maximum counts writes user id name t))
unfolding create
create-Comes maximum id counts writes user name t =
    refused (matches_name name) _ _ t (Comes maximum user id name t) (inl refl) λ v.
      refused (not (is_limited maximum user) || counts) _ _ t (Comes maximum user id name t)
        (inl refl)
        λ c.
          refused (not (is_limited maximum user) || ltb (count user t) maximum) _ _ t
            (Comes maximum user id name t) (inl refl)
            λ w. refused writes _ _ t (Comes maximum user id name t) (inl refl) λ s.
              elim (Bool-cases (has_name name t)) [
                | inl taken ↦ rw taken (inl refl)
                | inr free ↦ rw free (inr (refl, record { valid = v; fresh = free; within = w }))
              ]
