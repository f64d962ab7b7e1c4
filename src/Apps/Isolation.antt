-- ===== src/Apps/Isolation.antt =====
-- The users do not reach each other's apps.
use mini_paa_s.Common.{
  ℕ, ◌≡◌, refl, ◌∙◌, true, false, ◌&&◌, List, [], ◌∷◌, Option, none, some, ◌==◌, arith, Bool-cases,
  inl, inr, All,
}
use mini_paa_s.Apps.Creation.{create-Comes}
use mini_paa_s.Apps.{
  Row, Table, is_owner, list, update, delete, Op, creates, deletes, sets_status, sets_url, step,
  run,
}

-- A request that comes from another user than `v`
abbrev pub IsOther : ℕ → Option ℕ × Op → Type 0
IsOther v (none, op) = ⊥
IsOther v (some w, op) = (w == v) ≡ false

unreached :
    (owner : Option ℕ) (w v : ℕ)
    → (w == v) ≡ false
    → is_owner owner v ≡ true
    → is_owner owner w ≡ false
unreached none w v n o = refl
unreached (some x) w v n o = ground arith

list-delete :
    (w v id : ℕ) (t : Table)
    → (w == v) ≡ false
    → list (some v) (delete (some w) id t) ≡ list (some v) t
list-delete w v id [] n = refl
list-delete w v id (r ∷ rs) n = elim (Bool-cases (is_owner r.owner v)) [
  | inl mine ↦ ground (arith, mine, unreached r.owner w v n mine, list-delete w v id rs n)
  | inr other ↦ ground (arith, other, list-delete w v id rs n)
]

module _ (f : Row → Row) (keeps : (r : Row) → (f r).owner ≡ r.owner) where
  list-update :
      (w v id : ℕ) (t : Table)
      → (w == v) ≡ false
      → list (some v) (update (some w) id f t) ≡ list (some v) t
  list-update w v id [] n = refl
  list-update w v id (r ∷ rs) n = elim (Bool-cases (is_owner r.owner v)) [
    | inl mine ↦ ground (arith, mine, unreached r.owner w v n mine, list-update w v id rs n)
    | inr other ↦ elim (Bool-cases (r.id == id && is_owner r.owner w)) [
      | inl y ↦ rw (y, keeps r, other) (list-update w v id rs n)
      | inr m ↦ rw (m, other) (list-update w v id rs n)
    ]
  ]

step-list :
    (maximum w v : ℕ) (op : Op) (t : Table)
    → (w == v) ≡ false
    → list (some v) (step maximum (some w) op t) ≡ list (some v) t
unfolding step
step-list maximum w v (creates id name counts writes) t n =
    elim (create-Comes maximum id counts writes (some w) name t) [
      | inl same ↦ rw same refl
      | inr (grown, passed) ↦ rw (grown, n) refl
    ]
step-list maximum w v (deletes id) t n = list-delete w v id t n
step-list maximum w v (sets_status id status) t n =
    list-update (λ r. record r { status = status }) (λ r. refl) w v id t n
step-list maximum w v (sets_url id url) t n =
    list-update (λ r. record r { public_url = url }) (λ r. refl) w v id t n

-- Whatever requests come from other users: the list of a user's apps, with their names, statuses and
-- addresses, is what it was.
pub run-list :
    (maximum v : ℕ) (ops : List (Option ℕ × Op)) (t : Table)
    → All (IsOther v) ops
    → list (some v) (run maximum ops t) ≡ list (some v) t
unfolding run
run-list maximum v [] t h = refl
run-list maximum v ((none, op) ∷ ops) t h = absurd h.0
run-list maximum v ((some w, op) ∷ ops) t h =
    run-list maximum v ops (step maximum (some w) op t) h.1 ∙ step-list maximum w v op t h.0
