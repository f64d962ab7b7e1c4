-- ===== src/DeploymentStore/Cancellation.antt =====
-- How cancellation and promotion of a deployment exclude each other in the store.
use mini_paa_s.Common.{
  ℕ, ◌≡◌, refl, ap, Bool, true, false, String, [], ◌∷◌, none, some, ◌==◌, if◌then◌else◌, arith,
  Bool-cases, inl, inr,
}
use mini_paa_s.Domain.{DeploymentStatus, Deployment}
use mini_paa_s.DeploymentStore.{
  Table, update_where, get_by_id, is_open, is_cancellable, any_row, request_cancel, mark_cancelled,
  promote_candidate,
}

-- An update that no row meets changes nothing.
update_where-none :
    (p : Deployment → Bool) (f : Deployment → Deployment) (rows : Table)
    → any_row p rows ≡ false
    → update_where p f rows ≡ rows
update_where-none p f [] h = refl
update_where-none p f (r ∷ rs) h = elim (Bool-cases (p r.deployment)) [
  | inl y ↦ absurd (ground (arith, h, y))
  | inr n ↦ rw n (ap (λ x. r ∷ x) (update_where-none p f rs (ground (arith, h, n))))
]

-- No row is cancellable any more once its candidate is promoted.
promoted_closed :
    (id container port : ℕ) (tag : String) (duration : ℕ) (rows : Table)
    → any_row (is_cancellable id) (promote_candidate id container port tag duration rows) ≡ false
unfolding promote_candidate
promoted_closed id container port tag duration [] = refl
promoted_closed id container port tag duration (r ∷ rs) =
    elim (Bool-cases (r.deployment.id == id)) [
      | inl y ↦ rw y (rw y (promoted_closed id container port tag duration rs))
      | inr n ↦ rw n (rw n (promoted_closed id container port tag duration rs))
    ]

-- Once a deployment is promoted, a request to cancel it is refused and changes nothing, and marking
-- it as cancelled changes nothing either.
pub promotion_final :
    (id container port : ℕ) (tag : String) (duration : ℕ) (rows : Table)
    → let t = promote_candidate id container port tag duration rows in
      (request_cancel id t ≡ (t, false)) × (mark_cancelled id t ≡ t)
unfolding request_cancel mark_cancelled
promotion_final id container port tag duration rows =
    let t : Table = promote_candidate id container port tag duration rows in
    let c : any_row (is_cancellable id) t ≡ false =
      promoted_closed id container port tag duration rows in
    (
      rw c (ap (λ u. (u, false)) (update_where-none (is_cancellable id) _ t c)),
      update_where-none (is_cancellable id) _ t c,
    )

-- What `MarkCancelled` makes of a deployment
abbrev pub closed : Deployment → Deployment
closed d =
    if is_open d.status
    then record d { status = DeploymentStatus.cancelled; cancel_requested = true }
    else d

-- Marking a deployment as cancelled closes it where it is pending, building or asked to be
-- cancelled, and changes no other row and no other status.
pub mark_cancelled_lem :
    (id j : ℕ) (rows : Table)
    → get_by_id j (mark_cancelled id rows) ≡ (
        if j == id
        then elim (get_by_id j rows) [ none ↦ none | some d ↦ some (closed d) ]
        else get_by_id j rows)
unfolding mark_cancelled
mark_cancelled_lem id j [] = ground arith
mark_cancelled_lem id j (r ∷ rs) = elim (Bool-cases (r.deployment.id == j)) [
  | inl at ↦ elim (Bool-cases (is_open r.deployment.status)) [
    | inl o ↦ ground (arith, at, o)
    | inr o ↦ ground (arith, at, o)
  ]
  | inr n ↦ elim (Bool-cases (is_cancellable id r.deployment)) [
    | inl c ↦ rw (c, n) (mark_cancelled_lem id j rs)
    | inr c ↦ rw (c, n) (mark_cancelled_lem id j rs)
  ]
]
