-- ===== src/Apps/Quota.antt =====
-- No user has more apps than the quota.
use mini_paa_s.Common.{
  ℕ, ◌≤◌, ◌<◌, ◌≡◌, refl, Bool, true, ◌&&◌, ◌||◌, not, List, [], ◌∷◌, Option, none, some, ltb, ◌==◌,
  arith, Bool-cases, inl, inr,
}
use mini_paa_s.Apps.Creation.{create-Comes, new_row}
use mini_paa_s.Apps.{
  Row, Table, reaches, count, update, delete, create, is_limited, Op, creates, deletes, sets_status,
  sets_url, after, step, run,
}

count-delete :
    (user : Option ℕ) (id u : ℕ) (t : Table) → count (some u) (delete user id t) ≤ count (some u) t
count-delete user id u [] = omega arith
count-delete user id u (r ∷ rs) = ground (arith, count-delete user id u rs)

module _ (f : Row → Row) (keeps : (r : Row) → (f r).owner ≡ r.owner) where
  count-update :
      (user : Option ℕ) (id u : ℕ) (t : Table)
      → count (some u) (update user id f t) ≡ count (some u) t
  count-update user id u [] = refl
  count-update user id u (r ∷ rs) = elim (Bool-cases (r.id == id && reaches user r)) [
    | inl y ↦ rw (y, keeps r) (ground (arith, count-update user id u rs))
    | inr n ↦ rw n (ground (arith, count-update user id u rs))
  ]

create-count :
    (maximum id u : ℕ) (counts writes : Bool) (user : Option ℕ) (name : List ℕ) (t : Table)
    → 0 < maximum
    → count (some u) t ≤ maximum
    → count (some u) (after t (create maximum counts writes user id name t)) ≤ maximum
create-count maximum id u counts writes user name t p h =
    elim (create-Comes maximum id counts writes user name t) [
      | inl same ↦ rw same h
      | inr (grown, passed) ↦ rw grown (one_more user passed.within)
    ]
  where
    one_more :
        (user : Option ℕ)
        → (not (is_limited maximum user) || ltb (count user t) maximum) ≡ true
        → count (some u) (new_row user id name ∷ t) ≤ maximum
    one_more none w = h
    one_more (some v) w = ground (arith, w, h, p)

step-count :
    (maximum u : ℕ) (user : Option ℕ) (op : Op) (t : Table)
    → 0 < maximum
    → count (some u) t ≤ maximum
    → count (some u) (step maximum user op t) ≤ maximum
unfolding step
step-count maximum u user (creates id name counts writes) t p h =
    create-count maximum id u counts writes user name t p h
step-count maximum u user (deletes id) t p h = omega (arith, count-delete user id u t)
step-count maximum u user (sets_status id status) t p h =
    omega (arith, count-update (λ r. record r { status = status }) (λ r. refl) user id u t)
step-count maximum u user (sets_url id url) t p h =
    omega (arith, count-update (λ r. record r { public_url = url }) (λ r. refl) user id u t)

-- With a quota, and whatever creations, deletions and updates come in from whatever users, in any
-- order and with any failures of the store: a user who has no more apps than the quota never comes to
-- have more.
pub run-count :
    (maximum u : ℕ) (ops : List (Option ℕ × Op)) (t : Table)
    → 0 < maximum
    → count (some u) t ≤ maximum
    → count (some u) (run maximum ops t) ≤ maximum
unfolding run
run-count maximum u [] t p h = h
run-count maximum u ((user, op) ∷ ops) t p h =
    run-count maximum u ops (step maximum user op t) p (step-count maximum u user op t p h)
