-- ===== src/ApiTokens/Lookup.antt =====
-- What a lookup by the hash answers after a write to the table of the tokens.
use text.Mathlib.Text.{◌==◌ as str_eq}
use text.Mathlib.TextEquality.{eq_iff}
use mini_paa_s.Common.{
  ℕ, ◌≡◌, refl, sym, ◌∙◌, ap, Bool, true, false, ◌&&◌, String, List, [], ◌∷◌, Option, none, some,
  ◌==◌, if◌then◌else◌, arith, Bool-cases, inl, inr, ◌⊎◌, ltb,
}
use mini_paa_s.Auth.{ApiToken, TokenRow, token_row, is_usable}
use mini_paa_s.ApiTokens.{
  Row, is_taken, get_by_hash, is_own, count_own, revoke_rows, touch, is_future,
}

-- Whether the user is the owner of the token that has the id.
abbrev pub owns : ℕ → ℕ → ApiToken → Bool
owns user id token = token.id == id && token.user_id == user

abbrev pub revoked_token : ApiToken → ApiToken
revoked_token token = record token { revoked = true }

-- A token that is not revoked is good until it expires.
pub is_usable-unrevoked :
    (now : ℕ) (token : ApiToken)
    → token.revoked ≡ false
    → is_usable now token ≡ is_future now token.expires_at
unfolding is_usable
is_usable-unrevoked now token u = rw u (by_expiry token.expires_at)
  where
    by_expiry : (e : Option ℕ) → elim e [ none ↦ true | some time ↦ ltb now time ] ≡ is_future now e
    by_expiry none = refl
    by_expiry (some time) = refl

found_or : ApiToken → TokenRow → ApiToken
found_or default (token_row token) = token
found_or default _ = default

-- A token that is found is the one of the first row, or found in the others.
found-cases :
    (h : String) (token : ApiToken) (r : Row) (rs : List Row)
    → get_by_hash (r ∷ rs) h ≡ token_row token
    → ((str_eq r.hash h ≡ true) × (r.token ≡ token))
      ⊎ ((str_eq r.hash h ≡ false) × (get_by_hash rs h ≡ token_row token))
unfolding get_by_hash found_or
found-cases h token r rs e = elim (Bool-cases (str_eq r.hash h)) [
  | inl same ↦ inl (same, ap (found_or token) (by_test same e))
  | inr other ↦ inr (other, by_test other e)
]
  where
    by_test :
        {b : Bool}
        → str_eq r.hash h ≡ b
        → (if str_eq r.hash h then token_row r.token else get_by_hash rs h) ≡ token_row token
        → (if b then token_row r.token else get_by_hash rs h) ≡ token_row token
    by_test q x = sym (ap (λ c. if c then token_row r.token else get_by_hash rs h) q) ∙ x

-- What is found is taken.
is_taken-found :
    (id : ℕ) (h : String) (token : ApiToken) (t : List Row)
    → get_by_hash t h ≡ token_row token
    → is_taken id h t ≡ true
unfolding is_taken get_by_hash
is_taken-found id h token [] e = cc
is_taken-found id h token (r ∷ rs) e = elim (found-cases h token r rs e) [
  | inl (same, t) ↦ ground (same, arith)
  | inr (other, later) ↦ ground (is_taken-found id h token rs later, arith)
]

pub get_by_hash-insert :
    (r : Row) (h : String) (token : ApiToken) (t : List Row)
    → is_taken r.token.id r.hash t ≡ false
    → get_by_hash t h ≡ token_row token
    → get_by_hash (r ∷ t) h ≡ token_row token
unfolding get_by_hash
get_by_hash-insert r h token t free e = elim (Bool-cases (str_eq r.hash h)) [
  | inr other ↦ rw other e
  | inl same ↦
      let k : r.hash ≡ h = (eq_iff r.hash h).0 same in
      let m : is_taken r.token.id h t ≡ false = sym (ap (λ x. is_taken r.token.id x t) k) ∙ free in
      absurd (cc (m, is_taken-found r.token.id h token t e))
]

pub get_by_hash-first : (r : Row) (t : List Row) → get_by_hash (r ∷ t) r.hash ≡ token_row r.token
unfolding get_by_hash
get_by_hash-first r t = rw ((eq_iff r.hash r.hash).1 refl) refl

pub get_by_hash-touch :
    (now id : ℕ) (h : String) (t : List Row) → get_by_hash (touch now id t) h ≡ get_by_hash t h
unfolding get_by_hash touch
get_by_hash-touch now id h [] = refl
get_by_hash-touch now id h (r ∷ rs) =
    elim (Bool-cases (r.token.id == id && is_usable now r.token)) [
      | inl y ↦ rw (y, get_by_hash-touch now id h rs) refl
      | inr n ↦ rw (n, get_by_hash-touch now id h rs) refl
    ]

-- A lookup after a revocation
pub get_by_hash-revoke_rows :
    (user id : ℕ) (h : String) (token : ApiToken) (t : List Row)
    → get_by_hash t h ≡ token_row token
    → get_by_hash (revoke_rows user id t) h
      ≡ token_row (if owns user id token then revoked_token token else token)
unfolding get_by_hash revoke_rows
get_by_hash-revoke_rows user id h token [] e = cc
get_by_hash-revoke_rows user id h token (r ∷ rs) e = elim (found-cases h token r rs e) [
  | inl (same, t) ↦ elim (Bool-cases (is_own user id r)) [
    | inl own ↦ rw (sym t, own, same) refl
    | inr foreign ↦ rw (sym t, foreign, same) refl
  ]
  | inr (other, later) ↦
      let rest = get_by_hash-revoke_rows user id h token rs later in
      elim (Bool-cases (is_own user id r)) [
        | inl own ↦ rw (own, other) rest
        | inr foreign ↦ rw (foreign, other) rest
      ]
]

-- A revocation by the owner of a token that is found updates a row.
pub count_own-found :
    (user id : ℕ) (h : String) (token : ApiToken) (t : List Row)
    → get_by_hash t h ≡ token_row token
    → owns user id token ≡ true
    → (count_own user id t == 0) ≡ false
unfolding get_by_hash count_own
count_own-found user id h token [] e o = cc
count_own-found user id h token (r ∷ rs) e o = elim (Bool-cases (is_own user id r)) [
  | inl own ↦ ground (own, arith)
  | inr foreign ↦ elim (found-cases h token r rs e) [
    | inl (same, t) ↦ absurd (cc (foreign, ap (owns user id) t, o))
    | inr (other, later) ↦ rw foreign (count_own-found user id h token rs later o)
  ]
]
