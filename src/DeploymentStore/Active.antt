-- ===== src/DeploymentStore/Active.antt =====
-- Which rows the queries for the active deployment and for the candidates answer.
use mini_paa_s.Common.{
  ℕ, ◌≤◌, ◌≡◌, refl, ap, subst, Bool, true, false, ◌&&◌, ◌||◌, String, List, [], ◌∷◌, Option, none,
  some, ltb, ◌==◌, arith, Bool-cases, inl, inr, Elem,
}
use mini_paa_s.Domain.{Deployment}
use mini_paa_s.DeploymentStore.{
  Row, Table, get_active, newer, is_running, list_candidates, promote_candidate,
}

-- Whether a deployment of this id stands in the list.
abbrev pub lists_id : ℕ → List Deployment → Bool
lists_id id [] = false
lists_id id (d ∷ ds) = d.id == id || lists_id id ds

-- Whatever the table holds, a deployment that was just promoted is not listed as a candidate.
pub promoted_no_candidate :
    (id container port : ℕ) (tag : String) (duration : ℕ) (rows : Table)
    → lists_id id (list_candidates (promote_candidate id container port tag duration rows)) ≡ false
unfolding promote_candidate list_candidates
promoted_no_candidate id container port tag duration [] = refl
promoted_no_candidate id container port tag duration (r ∷ rs) =
    ground (arith, promoted_no_candidate id container port tag duration rs)

abbrev serves : ℕ → Row → Bool
serves app r = r.deployment.app_id == app && is_running r.deployment.status

-- The row is a running one of the app, and none of them was created later; without a row there is
-- no running one.
abbrev pub Newest : ℕ → Table → Option Row → Type 0
Newest app rows none = (r : Row) → Elem r rows → serves app r ≡ false
Newest app rows (some s) =
    Elem s rows
    × (serves app s ≡ true)
    × ((r : Row) → Elem r rows → serves app r ≡ true → r.created_at ≤ s.created_at)

kept-Newest :
    (app : ℕ) (r : Row) (rs : Table) (o : Option Row)
    → serves app r ≡ false
    → Newest app rs o
    → Newest app (r ∷ rs) o
kept-Newest app r rs none n h =
    λ x m. elim m [ inl e ↦ subst (λ y. serves app y ≡ false) e n | inr k ↦ h x k ]
kept-Newest app r rs (some s) n (m, v, all) = (
  inr m,
  v,
  λ x k w. elim k [ inl e ↦ absurd (cc (n, w, ap (serves app) e)) | inr k' ↦ all x k' w ],
)

newer-Newest :
    (app : ℕ) (r : Row) (rs : Table) (o : Option Row)
    → serves app r ≡ true
    → Newest app rs o
    → Newest app (r ∷ rs) (newer r o)
newer-Newest app r rs none y h = (
  inl refl,
  y,
  λ x k w. elim k [
    | inl e ↦ omega (arith, ap (λ z. z.created_at) e)
    | inr k' ↦ absurd (cc (w, h x k'))
  ],
)
newer-Newest app r rs (some s) y (m, v, all) = elim (Bool-cases (ltb r.created_at s.created_at)) [
  | inl l ↦ rw l (
    inr m,
    v,
    λ x k w. elim k [ inl e ↦ ground (arith, l, ap (λ z. z.created_at) e) | inr k' ↦ all x k' w ],
  )
  | inr l ↦ rw l (
    inl refl,
    y,
    λ x k w. elim k [
      | inl e ↦ omega (arith, ap (λ z. z.created_at) e)
      | inr k' ↦ let h = all x k' w in ground (arith, l, h)
    ],
  )
]

-- For any table, the active deployment of an app is a running one of it that no other running one
-- of it was created after, and there is none only where none of its deployments runs.
pub get_active-Newest : (app : ℕ) (rows : Table) → Newest app rows (get_active app rows)
get_active-Newest app [] = λ r m. absurd m
get_active-Newest app (r ∷ rs) = elim (Bool-cases (serves app r)) [
  | inl y ↦ rw y (newer-Newest app r rs (get_active app rs) y (get_active-Newest app rs))
  | inr n ↦ rw n (kept-Newest app r rs (get_active app rs) n (get_active-Newest app rs))
]
