-- ===== src/Users/Table.antt =====
-- What a lookup by the name answers after a write to the table of the users.
use mini_paa_s.Common.{
  ℕ, ◌≡◌, refl, sym, ◌∙◌, ap, true, false, List, [], ◌∷◌, some, ◌==◌, if◌then◌else◌, arith,
  Bool-cases, inl, inr, text_eq, text_eq_path, text_eq_refl, find_by-cases,
}
use mini_paa_s.Users.{User, get_by_username, is_taken, is_held, rename_rows, set_hash}

module _ {Hash : Type 0} where
  is_taken-found :
      (id : ℕ) (n : List ℕ) (u : User Hash) (t : List (User Hash))
      → get_by_username n t ≡ some u
      → is_taken id n t ≡ true
  unfolding is_taken get_by_username
  is_taken-found id n u [] e = cc
  is_taken-found id n u (x ∷ xs) e = elim (find_by-cases (λ y. text_eq y.name n) u x xs e) [
    | inl (same, t) ↦ ground (same, arith)
    | inr (other, later) ↦ ground (is_taken-found id n u xs later, arith)
  ]

  is_held-found :
      (id : ℕ) (n : List ℕ) (u : User Hash) (t : List (User Hash))
      → get_by_username n t ≡ some u
      → (u.id == id) ≡ false
      → is_held id n t ≡ true
  unfolding is_held get_by_username
  is_held-found id n u [] e f = cc
  is_held-found id n u (x ∷ xs) e f = elim (find_by-cases (λ y. text_eq y.name n) u x xs e) [
    | inl (same, t) ↦ rw (same, ap (λ y. y.id == id) t ∙ f) refl
    | inr (other, later) ↦ rw other (ground (is_held-found id n u xs later f, arith))
  ]

  -- A user is found by the own name where its row stands first.
  pub get_by_username-first :
      (u : User Hash) (t : List (User Hash)) → get_by_username u.name (u ∷ t) ≡ some u
  unfolding get_by_username
  get_by_username-first u t = rw (text_eq_refl u.name) refl

  pub get_by_username-insert :
      (u x : User Hash) (n : List ℕ) (t : List (User Hash))
      → is_taken x.id x.name t ≡ false
      → get_by_username n t ≡ some u
      → get_by_username n (x ∷ t) ≡ some u
  unfolding get_by_username
  get_by_username-insert u x n t free e = elim (Bool-cases (text_eq x.name n)) [
    | inr other ↦ rw other e
    | inl same ↦
        let k : x.name ≡ n = text_eq_path x.name n same in
        let m : is_taken x.id n t ≡ false = sym (ap (λ y. is_taken x.id y t) k) ∙ free in
        absurd (cc (m, is_taken-found x.id n u t e))
  ]

  -- A name that another user takes is not the name of the user that is found.
  other_name :
      (id : ℕ) (m n : List ℕ) (u : User Hash) (t : List (User Hash))
      → get_by_username n t ≡ some u
      → (u.id == id) ≡ false
      → is_held id m t ≡ false
      → text_eq m n ≡ false
  other_name id m n u t e f free = elim (Bool-cases (text_eq m n)) [
    | inr other ↦ other
    | inl same ↦
        let k : is_held id n t ≡ false =
          sym (ap (λ y. is_held id y t) (text_eq_path m n same)) ∙ free in
        absurd (cc (k, is_held-found id n u t e f))
  ]

  get_by_username-renamed :
      (id : ℕ) (m n : List ℕ) (u : User Hash) (t : List (User Hash))
      → get_by_username n t ≡ some u
      → (u.id == id) ≡ false
      → text_eq m n ≡ false
      → get_by_username n (rename_rows id m t) ≡ some u
  unfolding get_by_username rename_rows
  get_by_username-renamed id m n u [] e f d = cc
  get_by_username-renamed id m n u (x ∷ xs) e f d =
      elim (find_by-cases (λ y. text_eq y.name n) u x xs e) [
        | inl (same, t) ↦ rw (ap (λ y. y.id == id) t ∙ f, same) (ap some t)
        | inr (other, later) ↦
            let rest = get_by_username-renamed id m n u xs later f d in
            elim (Bool-cases (x.id == id)) [
              | inl own ↦ rw (own, d) rest
              | inr foreign ↦ rw (foreign, other) rest
            ]
      ]

  -- Another user who takes a free name
  pub get_by_username-rename_rows :
      (id : ℕ) (m n : List ℕ) (u : User Hash) (t : List (User Hash))
      → get_by_username n t ≡ some u
      → (u.id == id) ≡ false
      → is_held id m t ≡ false
      → get_by_username n (rename_rows id m t) ≡ some u
  get_by_username-rename_rows id m n u t e f free =
      get_by_username-renamed id m n u t e f (other_name id m n u t e f free)

  -- A write of a password hash
  pub get_by_username-set_hash :
      (id : ℕ) (hash : Hash) (n : List ℕ) (u : User Hash) (t : List (User Hash))
      → get_by_username n t ≡ some u
      → get_by_username n (set_hash id hash t)
        ≡ some (if u.id == id then record u { password_hash = hash } else u)
  unfolding get_by_username set_hash
  get_by_username-set_hash id hash n u [] e = cc
  get_by_username-set_hash id hash n u (x ∷ xs) e =
      elim (find_by-cases (λ y. text_eq y.name n) u x xs e) [
        | inl (same, t) ↦ elim (Bool-cases (x.id == id)) [
          | inl own ↦ rw (sym t, own, same) refl
          | inr foreign ↦ rw (sym t, foreign, same) refl
        ]
        | inr (other, later) ↦
            let rest = get_by_username-set_hash id hash n u xs later in
            elim (Bool-cases (x.id == id)) [
              | inl own ↦ rw (own, other) rest
              | inr foreign ↦ rw (foreign, other) rest
            ]
      ]
