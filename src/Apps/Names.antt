-- ===== src/Apps/Names.antt =====
-- The names that apps have.
use mini_paa_s.Common.{
  ℕ, ◌≤◌, ◌≡◌, refl, ◌∙◌, true, false, ◌&&◌, ◌||◌, List, [], ◌∷◌, Option, ◌==◌, arith, Bool-cases,
  inl, inr, All, length, has_prefix, has_suffix, text_eq, codes,
}
use mini_paa_s.Apps.Creation.{create-Comes}
use mini_paa_s.Apps.{
  Row, Table, reaches, has_name, update, delete, is_alnum, matches_end, matches_name, Op, creates,
  deletes, sets_status, sets_url, step, run,
}

-- A label of a host name: 1 to 63 of `a-z`, `0-9` and `-`, with no dash at an end.
pub record IsLabel (s : List ℕ) : Type 0 where
  pub not_empty : text_eq s [] ≡ false
  pub short : length s ≤ 63
  pub code : All (λ c. (is_alnum c || c == b'-') ≡ true) s
  pub first : has_prefix s (codes "-") ≡ false
  pub last : has_suffix s (codes "-") ≡ false

end_codes : (s : List ℕ) → matches_end s ≡ true → All (λ c. (is_alnum c || c == b'-') ≡ true) s
end_codes [] h = cc
end_codes (c ∷ []) h = (ground arith, tt)
end_codes (c ∷ d ∷ s) h = (ground arith, end_codes (d ∷ s) (ground arith))

end_last : (s : List ℕ) → matches_end s ≡ true → has_suffix s (codes "-") ≡ false
end_last [] h = refl
end_last (c ∷ []) h = ground arith
end_last (c ∷ d ∷ s) h = ground (arith, end_last (d ∷ s))

pub matches_name-IsLabel : (s : List ℕ) → matches_name s ≡ true → IsLabel s
matches_name-IsLabel [] h = cc
matches_name-IsLabel (c ∷ []) h = record {
  not_empty = refl;
  short = omega arith;
  code = (ground arith, tt);
  first = ground arith;
  last = ground arith;
}
matches_name-IsLabel (c ∷ d ∷ s) h =
    let e : matches_end (d ∷ s) ≡ true = ground arith in
    record {
      not_empty = refl;
      short = ground arith;
      code = (ground arith, end_codes (d ∷ s) e);
      first = ground arith;
      last = ground (arith, end_last (d ∷ s) e);
    }

-- Every name is a label, and no two apps share one.
abbrev pub IsNamed : Table → Type 0
IsNamed [] = Unit
IsNamed (r ∷ rs) = IsLabel r.name × (has_name r.name rs ≡ false) × IsNamed rs

has_name-delete :
    (user : Option ℕ) (id : ℕ) (name : List ℕ) (t : Table)
    → has_name name t ≡ false
    → has_name name (delete user id t) ≡ false
has_name-delete user id name [] h = refl
has_name-delete user id name (r ∷ rs) h = ground (arith, has_name-delete user id name rs)

delete-IsNamed : (user : Option ℕ) (id : ℕ) (t : Table) → IsNamed t → IsNamed (delete user id t)
delete-IsNamed user id [] h = tt
delete-IsNamed user id (r ∷ rs) h = elim (Bool-cases (r.id == id && reaches user r)) [
  | inl y ↦ rw y (delete-IsNamed user id rs h.2)
  | inr n ↦ rw n (h.0, has_name-delete user id r.name rs h.1, delete-IsNamed user id rs h.2)
]

module _ (f : Row → Row) (keeps : (r : Row) → (f r).name ≡ r.name) where
  has_name-update :
      (user : Option ℕ) (id : ℕ) (name : List ℕ) (t : Table)
      → has_name name (update user id f t) ≡ has_name name t
  has_name-update user id name [] = refl
  has_name-update user id name (r ∷ rs) = elim (Bool-cases (r.id == id && reaches user r)) [
    | inl y ↦ rw (y, keeps r, has_name-update user id name rs) refl
    | inr n ↦ rw (n, has_name-update user id name rs) refl
  ]

  update-IsNamed : (user : Option ℕ) (id : ℕ) (t : Table) → IsNamed t → IsNamed (update user id f t)
  update-IsNamed user id [] h = tt
  update-IsNamed user id (r ∷ rs) h =
      let rest = update-IsNamed user id rs h.2 in
      elim (Bool-cases (r.id == id && reaches user r)) [
        | inl y ↦ rw (y, keeps r) (h.0, has_name-update user id r.name rs ∙ h.1, rest)
        | inr n ↦ rw n (h.0, has_name-update user id r.name rs ∙ h.1, rest)
      ]

step-IsNamed :
    (maximum : ℕ) (user : Option ℕ) (op : Op) (t : Table)
    → IsNamed t
    → IsNamed (step maximum user op t)
unfolding step
step-IsNamed maximum user (creates id name counts writes) t h =
    elim (create-Comes maximum id counts writes user name t) [
      | inl same ↦ rw same h
      | inr (grown, passed) ↦ rw grown (matches_name-IsLabel name passed.valid, passed.fresh, h)
    ]
step-IsNamed maximum user (deletes id) t h = delete-IsNamed user id t h
step-IsNamed maximum user (sets_status id status) t h =
    update-IsNamed (λ r. record r { status = status }) (λ r. refl) user id t h
step-IsNamed maximum user (sets_url id url) t h =
    update-IsNamed (λ r. record r { public_url = url }) (λ r. refl) user id t h

-- Whatever creations, deletions and updates come in, from whatever users and with any quota: every
-- name in the table is a label that can stand in a host name, and no two apps have the same one, so
-- that no two apps share a route.
pub run-IsNamed :
    (maximum : ℕ) (ops : List (Option ℕ × Op)) (t : Table) → IsNamed t → IsNamed (run maximum ops t)
unfolding run
run-IsNamed maximum [] t h = h
run-IsNamed maximum ((user, op) ∷ ops) t h =
    run-IsNamed maximum ops (step maximum user op t) (step-IsNamed maximum user op t h)
