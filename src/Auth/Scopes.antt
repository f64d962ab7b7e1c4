-- ===== src/Auth/Scopes.antt =====
-- The scopes that a token may be created with.
use text.Mathlib.Text.{◌==◌ as str_eq}
use text.Mathlib.TextEquality.{eq_iff}
use mini_paa_s.Common.{
  ◌≡◌, refl, true, false, String, List, [], ◌∷◌, inl, inr, trim, Elem, Bool-cases, subst,
}
use mini_paa_s.Auth.{
  AuthResult, granted, denied, scope_invalid, has, valid_api_token_scope, normalize_loop,
  normalize_scopes, non_empty,
}

-- All scopes are valid, and none stands twice.
abbrev pub Normal : List String → Type 0
Normal [] = Unit
Normal (x ∷ xs) = (valid_api_token_scope x ≡ true) × (has xs x ≡ false) × Normal xs

has_self : (x : String) (xs : List String) → has (x ∷ xs) x ≡ true
has_self x xs = rw ((eq_iff x x).1 refl) refl

has_later : (x y : String) (xs : List String) → has xs x ≡ true → has (y ∷ xs) x ≡ true
has_later x y xs h = elim (Bool-cases (str_eq y x)) [ inl e ↦ rw e refl | inr e ↦ rw e h ]

module _ (lower : String → String) where
  abbrev name_of : String → String
  name_of raw = lower (trim raw)

  -- What the loop makes of the scopes that are left, after those in `normalized`.
  abbrev Loops : List String → List String → AuthResult (List String) → Type 0
  Loops scopes normalized (granted ns) =
      Normal ns
      × ((x : String) → has normalized x ≡ true → has ns x ≡ true)
      × ((raw : String) → Elem raw scopes → has ns (name_of raw) ≡ true)
  Loops scopes normalized (denied e) =
      (e ≡ scope_invalid)
      × ((raw : String) × Elem raw scopes × (valid_api_token_scope (name_of raw) ≡ false))

  -- The rest of the loop, seen from one scope earlier.
  earlier :
      (s : String) (scopes normalized next : List String) (r : AuthResult (List String))
      → ((x : String) → has normalized x ≡ true → has next x ≡ true)
      → has next (name_of s) ≡ true
      → Loops scopes next r
      → Loops (s ∷ scopes) normalized r
  earlier s scopes normalized next (granted ns) sub here (n, kept, all) =
      (n, λ x h. kept x (sub x h), every)
    where
      every : (raw : String) → Elem raw (s ∷ scopes) → has ns (name_of raw) ≡ true
      every raw (inl e) = subst (λ y. has ns (name_of y) ≡ true) e (kept (name_of s) here)
      every raw (inr m) = all raw m
  earlier s scopes normalized next (denied e) sub here (i, (raw, m, bad)) = (i, (raw, inr m, bad))

  normalize_loop-Loops :
      (scopes normalized : List String)
      → Normal normalized
      → Loops scopes normalized (normalize_loop lower scopes normalized)
  unfolding normalize_loop
  normalize_loop-Loops [] normalized n = (n, λ x h. h, λ raw m. absurd m)
  normalize_loop-Loops (s ∷ scopes) normalized n =
      elim (Bool-cases (valid_api_token_scope (name_of s))) [
        | inl valid ↦ elim (Bool-cases (has normalized (name_of s))) [
          | inl seen ↦
              rw (valid, seen, normalize_loop)
                (earlier s scopes normalized normalized (normalize_loop lower scopes normalized)
                  (λ x h. h) seen (normalize_loop-Loops scopes normalized n))
          | inr fresh ↦
              rw (valid, fresh, normalize_loop)
                (earlier s scopes normalized (name_of s ∷ normalized)
                  (normalize_loop lower scopes (name_of s ∷ normalized))
                  (λ x h. has_later x (name_of s) normalized h) (has_self (name_of s) normalized)
                  (normalize_loop-Loops scopes (name_of s ∷ normalized) (valid, fresh, n)))
        ]
        | inr bad ↦ rw (bad, normalize_loop) (refl, (s, inl refl, bad))
      ]

  -- What `normalize_scopes` answers for a list of scopes.
  abbrev pub Normalizes : List String → AuthResult (List String) → Type 0
  Normalizes scopes (granted []) = ⊥
  Normalizes scopes (granted (n ∷ ns)) =
      Normal (n ∷ ns) × ((raw : String) → Elem raw scopes → has (n ∷ ns) (name_of raw) ≡ true)
  Normalizes scopes (denied e) =
      (e ≡ scope_invalid)
      × ((raw : String) × Elem raw scopes × (valid_api_token_scope (name_of raw) ≡ false))

  non_empty-Normalizes :
      (s : String) (scopes : List String) (r : AuthResult (List String))
      → Loops (s ∷ scopes) [] r
      → Normalizes (s ∷ scopes) (non_empty lower r)
  unfolding non_empty
  non_empty-Normalizes s scopes (denied e) h = h
  non_empty-Normalizes s scopes (granted []) (n, kept, all) = absurd (cc (all s (inl refl)))
  non_empty-Normalizes s scopes (granted (x ∷ xs)) (n, kept, all) = (n, all)

  -- Whatever lower case is, the scopes of a new token are never empty, each of them is valid and
  -- stands once, and every scope that was asked for is among them, trimmed and in lower case; they
  -- are refused only where one that was asked for is not valid.
  pub normalize_scopes-Normalizes :
      (scopes : List String) → Normalizes scopes (normalize_scopes lower scopes)
  unfolding normalize_scopes valid_api_token_scope
  normalize_scopes-Normalizes [] = ((refl, refl, tt), λ raw m. absurd m)
  normalize_scopes-Normalizes (s ∷ scopes) =
      non_empty-Normalizes s scopes (normalize_loop lower (s ∷ scopes) [])
        (normalize_loop-Loops (s ∷ scopes) [] tt)
