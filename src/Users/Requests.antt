-- ===== src/Users/Requests.antt =====
-- Requests on the users, and a user who is found by a name through those of other users.
use mini_paa_s.Common.{
  ℕ, ◌≡◌, refl, ◌∙◌, Bool, false, ◌||◌, not, List, [], ◌∷◌, Option, some, ◌==◌, arith, trim_space,
  length, ltb, All,
}
use mini_paa_s.Common.Results.{
  Result, ok, err, Satisfies, guard-Satisfies, or_err-Satisfies, map-Satisfies, if-Satisfies,
}
use mini_paa_s.Users.{
  Error, User, get_by_username, get_by_id, is_taken, is_held, insert, rename, update_username,
  register, update_password, seed_admin, is_weak, matches_username, is_empty_text,
}
use mini_paa_s.Users.Table.{
  get_by_username-insert, get_by_username-rename_rows, get_by_username-set_hash,
}

-- Requests, with what the stores, the database and the random source answer
pub data Op : Type 0 where
  registers : ℕ → Option ℕ → List ℕ → List ℕ → Op
  renames : Bool → ℕ → List ℕ → Op
  changes_password : Bool → Bool → ℕ → ℕ → List ℕ → List ℕ → Op
  seeds : Bool → ℕ → Option ℕ → List ℕ → List ℕ → Op

-- The request is not one to rename the user or to change the password of the user.
abbrev pub IsOther : ℕ → Op → Type 0
IsOther id (renames writes own name) = (id == own) ≡ false
IsOther id (changes_password reads writes salt own current password) = (id == own) ≡ false
IsOther id _ = Unit

module _ {Hash : Type 0} where
  abbrev pub after : List (User Hash) → Result Error (List (User Hash)) → List (User Hash)
  after t (ok t') = t'
  after t (err e) = t

  abbrev pub table_of :
      List (User Hash) → Result Error (User Hash × List (User Hash)) → List (User Hash)
  table_of t (ok made) = made.1
  table_of t (err e) = t

  -- The user is found by the name.
  abbrev pub Finds : List ℕ → User Hash → List (User Hash) → Type 0
  Finds n u t = get_by_username n t ≡ some u

  after-Finds :
      (n : List ℕ) (u : User Hash) (t : List (User Hash)) (m : Result Error (List (User Hash)))
      → Finds n u t
      → Satisfies (Finds n u) m
      → Finds n u (after t m)
  after-Finds n u t (ok t') e s = s
  after-Finds n u t (err problem) e s = e

  table_of-Finds :
      (n : List ℕ) (u : User Hash) (t : List (User Hash))
      (m : Result Error (User Hash × List (User Hash)))
      → Finds n u t
      → Satisfies (λ made. Finds n u made.1) m
      → Finds n u (table_of t m)
  table_of-Finds n u t (ok made) e s = s
  table_of-Finds n u t (err problem) e s = e

  insert-Finds :
      (n : List ℕ) (u : User Hash) (t : List (User Hash)) (stored : Option ℕ) (name : List ℕ)
      (hash : Hash)
      → Finds n u t
      → Satisfies (λ made. Finds n u made.1) (insert stored name hash t)
  unfolding insert
  insert-Finds n u t stored name hash e = or_err-Satisfies _ stored _ _ λ id s.
      guard-Satisfies _ (not (is_taken id name t)) _ _ λ free.
        get_by_username-insert u (record { id = id; name = name; password_hash = hash }) n t
          (ground (arith, free)) e

  update_username-Finds :
      (n : List ℕ) (u : User Hash) (t : List (User Hash)) (writes : Bool) (id : ℕ) (name : List ℕ)
      → Finds n u t
      → (u.id == id) ≡ false
      → Satisfies (λ made. Finds n u made.1) (update_username writes id name t)
  unfolding update_username rename
  update_username-Finds n u t writes id name e f =
      guard-Satisfies _ (matches_username (trim_space name)) _ _ λ valid.
        guard-Satisfies _ writes _ _ λ w. or_err-Satisfies _ (get_by_id id t) _ _ λ user s.
          guard-Satisfies _ (not (is_held id (trim_space name) t)) _ _ λ free.
            get_by_username-rename_rows id (trim_space name) n u t e f (ground (arith, free))

module _ {Hash : Type 0} (generate : ℕ → List ℕ → Option Hash)
    (compare : Hash → List ℕ → Bool) where
  unfoldable pub serve : Op → List (User Hash) → List (User Hash)
  unfolding register update_username update_password seed_admin
  serve (registers salt stored name password) t =
      table_of t (register generate compare salt stored name password t)
  serve (renames writes id name) t = table_of t (update_username writes id name t)
  serve (changes_password reads writes salt id current password) t =
      after t (update_password generate compare reads writes salt id current password t)
  serve (seeds counts salt stored name password) t =
      after t (seed_admin generate compare counts salt stored name password t)

  unfoldable pub run : List Op → List (User Hash) → List (User Hash)
  unfolding serve
  run [] t = t
  run (op ∷ ops) t = run ops (serve op t)

  register-Finds :
      (n : List ℕ) (u : User Hash) (t : List (User Hash)) (salt : ℕ) (stored : Option ℕ)
      (name password : List ℕ)
      → Finds n u t
      → Satisfies (λ made. Finds n u made.1) (register generate compare salt stored name password t)
  unfolding register
  register-Finds n u t salt stored name password e =
      guard-Satisfies _ (matches_username (trim_space name)) _ _ λ valid.
        guard-Satisfies _ (not (is_weak password)) _ _ λ strong.
          or_err-Satisfies _ (generate salt password) _ _
            λ hash s. insert-Finds n u t stored (trim_space name) hash e

  update_password-Finds :
      (n : List ℕ) (u : User Hash) (t : List (User Hash)) (reads writes : Bool) (salt id : ℕ)
      (current password : List ℕ)
      → Finds n u t
      → (u.id == id) ≡ false
      → Satisfies
          (Finds n u)
          (update_password generate compare reads writes salt id current password t)
  unfolding update_password
  update_password-Finds n u t reads writes salt id current password e f =
      guard-Satisfies _ (not (is_weak password)) _ _ λ strong. guard-Satisfies _ reads _ _ λ r.
        or_err-Satisfies _ (get_by_id id t) _ _ λ user s.
          guard-Satisfies _ (compare user.password_hash current) _ _ λ same.
            or_err-Satisfies _ (generate salt password) _ _ λ hash g.
              guard-Satisfies _ writes _ _ λ w. get_by_username-set_hash id hash n u t e ∙ rw f refl

  seed_admin-Finds :
      (n : List ℕ) (u : User Hash) (t : List (User Hash)) (counts : Bool) (salt : ℕ)
      (stored : Option ℕ) (name password : List ℕ)
      → Finds n u t
      → Satisfies (Finds n u) (seed_admin generate compare counts salt stored name password t)
  unfolding seed_admin
  seed_admin-Finds n u t counts salt stored name password e =
      let kept = guard-Satisfies (Finds n u) counts Error.store_failed (ok t) (λ c. e) in
      let seeded = guard-Satisfies (Finds n u) counts Error.store_failed _ λ c.
        or_err-Satisfies (Finds n u) (generate salt password) Error.hash_failed _ λ hash g.
          map-Satisfies (Finds n u) (λ made. made.1) (insert stored name hash t)
            (insert-Finds n u t stored name hash e) in
      if-Satisfies (Finds n u) (is_empty_text name || is_empty_text password) _ _ e
        (if-Satisfies (Finds n u) (ltb 0 (length t)) _ _ kept seeded)

  serve-Finds :
      (n : List ℕ) (u : User Hash) (t : List (User Hash)) (op : Op)
      → Finds n u t
      → IsOther u.id op
      → Finds n u (serve op t)
  unfolding serve
  serve-Finds n u t (registers salt stored name password) e o =
      table_of-Finds n u t _ e (register-Finds n u t salt stored name password e)
  serve-Finds n u t (renames writes id name) e o =
      table_of-Finds n u t _ e (update_username-Finds n u t writes id name e o)
  serve-Finds n u t (changes_password reads writes salt id current password) e o =
      after-Finds n u t _ e (update_password-Finds n u t reads writes salt id current password e o)
  serve-Finds n u t (seeds counts salt stored name password) e o =
      after-Finds n u t _ e (seed_admin-Finds n u t counts salt stored name password e)

  -- Whatever the requests of others, the user is found as before.
  pub run-Finds :
      (n : List ℕ) (u : User Hash) (t : List (User Hash)) (ops : List Op)
      → Finds n u t
      → All (IsOther u.id) ops
      → Finds n u (run ops t)
  unfolding run
  run-Finds n u t [] e o = e
  run-Finds n u t (op ∷ ops) e o = run-Finds n u (serve op t) ops (serve-Finds n u t op e o.0) o.1
