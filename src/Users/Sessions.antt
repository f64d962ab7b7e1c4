-- ===== src/Users/Sessions.antt =====
-- From a password to a session, and from the session to the user.
use mini_paa_s.Common.{
  ℕ, ◌+◌, ◌<◌, ◌≡◌, refl, ◌∙◌, subst, Bool, true, not, List, Option, some, ◌==◌, arith, trim_space,
  All,
}
use mini_paa_s.Common.Results.{ok, Satisfies, guard-Satisfies, or_err-Satisfies, satisfied}
use mini_paa_s.Users.{
  User, Claims, get_by_id, is_taken, insert, register, update_password, is_weak, matches_username,
  issue_token, login, parse_token,
}
use mini_paa_s.Users.Table.{get_by_username-first, get_by_username-set_hash}
use mini_paa_s.Users.Requests.{Op, IsOther, Finds, run, run-Finds}

==-refl : (n : ℕ) → (n == n) ≡ true
==-refl n = ground arith

module _ {Hash Token : Type 0} (generate : ℕ → List ℕ → Option Hash)
    (compare : Hash → List ℕ → Bool) (sign : Claims → Option Token)
    (parse : ℕ → Token → Option Claims) where
  -- The password opens a session at the time `now`, which is taken for the user at any time before it
  -- expires, where claims can be signed.
  abbrev pub OpensSession : Hash → ℕ → ℕ → ℕ → List ℕ → ℕ → List ℕ → List (User Hash) → Type 0
  OpensSession dummy ttl now later name id password t =
      (raw : Token) × (login generate compare sign parse dummy true ttl now name password t
        ≡ ok (raw, now + ttl))
      × (parse_token generate compare sign parse later raw ≡ ok (id, name))

  -- bcrypt accepts the password that it hashed, and JWT reads the claims that it signed until they
  -- expire.
  module _
      (opens : (salt : ℕ) (password : List ℕ) (hash : Hash)
        → generate salt password ≡ some hash
        → compare hash password ≡ true)
      (signs : (c : Claims) → (raw : Token) × (sign c ≡ some raw))
      (parses : (c : Claims) (raw : Token) (time : ℕ)
        → sign c ≡ some raw
        → time < c.exp
        → parse time raw ≡ some c) where
    found-OpensSession :
        (dummy : Hash) (ttl now later : ℕ) (password : List ℕ) (u : User Hash)
        (t : List (User Hash))
        → Finds u.name u t
        → compare u.password_hash password ≡ true
        → later < now + ttl
        → OpensSession dummy ttl now later u.name u.id password t
    unfolding login issue_token parse_token
    found-OpensSession dummy ttl now later password u t e c l =
        let claims : Claims = record {
          sub = some u.id;
          usr = u.name;
          exp = now + ttl;
          iat = now;
        } in
        let (raw, s) = signs claims in
        (raw, rw (e, c, s) refl, rw (parses claims raw later s l) refl)

    -- A registration that succeeds stores a row under the name without spaces around it.
    register-Satisfies :
        (salt : ℕ) (stored : Option ℕ) (name password : List ℕ) (t : List (User Hash))
        → Satisfies
            (λ made.
              Finds made.0.name made.0 made.1
              × (made.0.name ≡ trim_space name)
              × (compare made.0.password_hash password ≡ true))
            (register generate compare salt stored name password t)
    unfolding register insert
    register-Satisfies salt stored name password t =
        guard-Satisfies _ (matches_username (trim_space name)) _ _ λ valid.
          guard-Satisfies _ (not (is_weak password)) _ _ λ strong.
            or_err-Satisfies _ (generate salt password) _ _ λ hash g.
              or_err-Satisfies _ stored _ _ λ id s.
                guard-Satisfies _ (not (is_taken id (trim_space name) t)) _ _
                  λ free. (get_by_username-first _ t, refl, opens salt password hash g)

    update_password-Satisfies :
        (n : List ℕ) (u : User Hash) (reads writes : Bool) (salt : ℕ) (current password : List ℕ)
        (t : List (User Hash))
        → Finds n u t
        → Satisfies
            (λ t'.
              (hash : Hash) × Finds n (record u { password_hash = hash }) t'
              × (compare hash password ≡ true))
            (update_password generate compare reads writes salt u.id current password t)
    unfolding update_password
    update_password-Satisfies n u reads writes salt current password t e =
        guard-Satisfies _ (not (is_weak password)) _ _ λ strong. guard-Satisfies _ reads _ _ λ r.
          or_err-Satisfies _ (get_by_id u.id t) _ _ λ user s.
            guard-Satisfies _ (compare user.password_hash current) _ _ λ same.
              or_err-Satisfies _ (generate salt password) _ _ λ hash g.
                guard-Satisfies _ writes _ _ λ w. (
                  hash,
                  get_by_username-set_hash u.id hash n u t e ∙ rw (==-refl u.id) refl,
                  opens salt password hash g,
                )

    -- Where bcrypt accepts the password that it hashed, and JWT signs all claims and reads them until
    -- they expire: once a user is registered, and whatever requests of others follow, the trimmed
    -- name and the password log in, and the token that is answered is taken for this user, with this
    -- name, at any time before it expires.
    pub register-OpensSession :
        (dummy : Hash) (ttl now later salt : ℕ) (stored : Option ℕ) (name password : List ℕ)
        (t t' : List (User Hash)) (u : User Hash) (ops : List Op)
        → register generate compare salt stored name password t ≡ ok (u, t')
        → All (IsOther u.id) ops
        → later < now + ttl
        → OpensSession dummy ttl now later
            (trim_space name)
            u.id
            password
            (run generate compare ops t')
    register-OpensSession dummy ttl now later salt stored name password t t' u ops h others l =
        let (found, named, compared) =
          satisfied _ h (register-Satisfies salt stored name password t) in
        subst (λ n. OpensSession dummy ttl now later n u.id password (run generate compare ops t'))
          named
          (found-OpensSession dummy ttl now later password u (run generate compare ops t')
            (run-Finds generate compare u.name u t' ops found others) compared l)

    -- Under the same conditions: once a change of the password of a user succeeds, who is found by
    -- the own name, the new password logs this user in after any requests of others.
    pub update_password-OpensSession :
        (dummy : Hash) (ttl now later salt : ℕ) (reads writes : Bool) (current password : List ℕ)
        (t t' : List (User Hash)) (u : User Hash) (ops : List Op)
        → Finds u.name u t
        → update_password generate compare reads writes salt u.id current password t ≡ ok t'
        → All (IsOther u.id) ops
        → later < now + ttl
        → OpensSession dummy ttl now later u.name u.id password (run generate compare ops t')
    update_password-OpensSession dummy ttl now later salt reads writes current password t t' u ops e
          h others l =
        let (hash, found, compared) =
          satisfied _ h
            (update_password-Satisfies u.name u reads writes salt current password t e) in
        let v = record u { password_hash = hash } in
        found-OpensSession dummy ttl now later password v (run generate compare ops t')
          (run-Finds generate compare u.name v t' ops found others) compared l
