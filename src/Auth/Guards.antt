-- ===== src/Auth/Guards.antt =====
-- What a credential allows, from the middleware that accepts it to the guards of the routes.
use text.Mathlib.Text.{starts_with}
use mini_paa_s.Common.{
  ℕ, ◌<◌, ltb, arith, none, ◌≡◌, refl, sym, ap, ◌∙◌, Bool, true, false, String, Option, some, ◌==◌,
  if◌then◌else◌, Bool-cases, Option-cases, [], inl, inr,
}
use mini_paa_s.Auth.{
  session, api_token, Identity, ApiToken, unauthorized, token_not_found, name_invalid,
  scope_invalid, expiry_invalid, lookup_failed, AuthResult, granted, denied, next, abort, has,
  has_scope, identity_from_context, require_scope, require_session, api_token_prefix, TokenRow,
  token_row, no_token, store_error, is_usable, valid_raw_api_token, token_of, authenticate_token,
  token_identity, session_identity, by_session, authenticate, auth_response, auth,
}

-- The identity that a token stands for.
abbrev pub identity_of : ApiToken → Identity
identity_of t = record {
  user_id = t.user_id;
  username = "";
  method = api_token;
  token_id = t.id;
  scopes = t.scopes;
}

-- The identity that a session stands for.
abbrev pub session_of : ℕ → String → Identity
session_of id username = record {
  user_id = id;
  username = username;
  method = session;
  token_id = 0;
  scopes = [];
}

-- A token without an expiry date does not expire; another one lives until that date.
abbrev pub IsLive : ℕ → Option ℕ → Type 0
IsLive now none = Unit
IsLive now (some e) = now < e

usable-IsLive :
    (now : ℕ) (t : ApiToken)
    → is_usable now t ≡ true
    → (t.revoked ≡ false) × IsLive now t.expires_at
unfolding is_usable
usable-IsLive now t h = elim (Bool-cases t.revoked) [
  | inl r ↦ absurd (cc (r, h))
  | inr r ↦ (r, live_until t.expires_at (cc (r, h)))
]
  where
    live_until :
        (o : Option ℕ) → (elim o [ none ↦ true | some e ↦ ltb now e ]) ≡ true → IsLive now o
    live_until none h = tt
    live_until (some e) h = ground (arith, h)

module _ (hash : String → String) (decoded : String → Option ℕ) (row : String → TokenRow)
    (has_tokens : Bool) (sessions : Option (String → AuthResult (ℕ × String))) where
  accepted_token :
      (r : AuthResult ApiToken) (i : Identity)
      → auth_response hash decoded row has_tokens sessions
          (token_identity hash decoded row has_tokens sessions r)
        ≡ next i
      → (t : ApiToken) × (r ≡ granted t) × (i ≡ identity_of t) × ((t.user_id == 0) ≡ false)
  unfolding auth_response token_identity
  accepted_token (denied unauthorized) i e = absurd (cc e)
  accepted_token (denied token_not_found) i e = absurd (cc e)
  accepted_token (denied name_invalid) i e = absurd (cc e)
  accepted_token (denied scope_invalid) i e = absurd (cc e)
  accepted_token (denied expiry_invalid) i e = absurd (cc e)
  accepted_token (denied lookup_failed) i e = absurd (cc e)
  accepted_token (granted t) i e = elim (Bool-cases (t.user_id == 0)) [
    | inl z ↦ absurd (cc (z, e))
    | inr z ↦ (t, refl, cc (z, e), z)
  ]

  usable_row :
      (now : ℕ) (rv : TokenRow) (t : ApiToken)
      → token_of hash decoded row now rv ≡ granted t
      → (rv ≡ token_row t) × (is_usable now t ≡ true)
  unfolding token_of
  usable_row now (token_row u) t e = elim (Bool-cases (is_usable now u)) [
    | inl y ↦ let same : u ≡ t = cc (y, e) in (ap token_row same, rw⁻¹ same y)
    | inr n ↦ absurd (cc (n, e))
  ]
  usable_row now no_token t e = absurd (cc e)
  usable_row now store_error t e = absurd (cc e)

  from_store :
      (now : ℕ) (raw : String) (t : ApiToken)
      → authenticate_token hash decoded row now raw ≡ granted t
      → (row (hash raw) ≡ token_row t) × (is_usable now t ≡ true)
  unfolding authenticate_token
  from_store now raw t e = elim (Bool-cases (valid_raw_api_token hash decoded row raw)) [
    | inl v ↦ usable_row now (row (hash raw)) t (cc (v, e))
    | inr n ↦ absurd (cc (n, e))
  ]

  -- A credential with the prefix goes to the tokens only.
  token_path :
      (now : ℕ) (raw : String)
      → starts_with raw api_token_prefix ≡ true
      → auth hash decoded row has_tokens sessions now (some raw)
        ≡ auth_response hash decoded row has_tokens sessions (
            if has_tokens
            then token_identity hash decoded row has_tokens sessions
                (authenticate_token hash decoded row now raw)
            else denied unauthorized)
  unfolding auth authenticate
  token_path now raw p =
      ap
        (λ b. auth_response hash decoded row has_tokens sessions (elim b [
          | true ↦
              if has_tokens
              then token_identity hash decoded row has_tokens sessions
                  (authenticate_token hash decoded row now raw)
              else denied unauthorized
          | false ↦ by_session hash decoded row has_tokens sessions sessions raw
        ]))
        p

  by_token :
      (now : ℕ) (raw : String) (i : Identity)
      → starts_with raw api_token_prefix ≡ true
      → auth hash decoded row has_tokens sessions now (some raw) ≡ next i
      → (t : ApiToken) × (authenticate_token hash decoded row now raw ≡ granted t)
        × (i ≡ identity_of t)
        × ((t.user_id == 0) ≡ false)
  unfolding auth_response
  by_token now raw i p e = elim (Bool-cases has_tokens) [
    | inl y ↦
        accepted_token (authenticate_token hash decoded row now raw) i
          (cc (y, sym (token_path now raw p) ∙ e))
    | inr n ↦ absurd (cc (n, sym (token_path now raw p) ∙ e))
  ]

  -- What the guards answer for the identity of a token.
  token_guards :
      (t : ApiToken)
      → (t.user_id == 0) ≡ false
      → (require_session (some (identity_of t)) ≡ abort 403)
        × ((scope : String)
            → require_scope scope (some (identity_of t))
              ≡ (if has t.scopes scope then next (identity_of t) else abort 403))
  unfolding require_session require_scope identity_from_context has_scope
  token_guards t z = (rw (z, require_session) refl, λ scope. rw (z, require_scope) refl)

  -- If the middleware accepts a credential that starts with `mpat_`, then the store holds a token
  -- for its hash that is not revoked and whose expiry date, if it has one, lies ahead, the identity is that token's user, no route
  -- that requires a session lets it pass, and a route that requires a scope lets it pass exactly
  -- where the token has that scope.
  pub token_power :
      (now : ℕ) (raw : String) (i : Identity)
      → starts_with raw api_token_prefix ≡ true
      → auth hash decoded row has_tokens sessions now (some raw) ≡ next i
      → (t : ApiToken) × (row (hash raw) ≡ token_row t)
        × (t.revoked ≡ false)
        × IsLive now t.expires_at
        × (i.user_id ≡ t.user_id)
        × (require_session (some i) ≡ abort 403)
        × ((scope : String)
            → require_scope scope (some i) ≡ (if has t.scopes scope then next i else abort 403))
  token_power now raw i p e =
      let (t, ok, same, z) = by_token now raw i p e in
      let (held, usable) = from_store now raw t ok in
      let (no_session, scoped) = token_guards t z in
      let (kept, live) = usable-IsLive now t usable in
      (t, held, kept, live, ap (λ j. j.user_id) same, rw same no_session, rw same scoped)

  -- A credential without the prefix goes to the sessions only.
  session_path :
      (now : ℕ) (raw : String)
      → starts_with raw api_token_prefix ≡ false
      → auth hash decoded row has_tokens sessions now (some raw)
        ≡ auth_response hash decoded row has_tokens sessions
            (by_session hash decoded row has_tokens sessions sessions raw)
  unfolding auth authenticate
  session_path now raw p =
      ap
        (λ b. auth_response hash decoded row has_tokens sessions (elim b [
          | true ↦
              if has_tokens
              then token_identity hash decoded row has_tokens sessions
                  (authenticate_token hash decoded row now raw)
              else denied unauthorized
          | false ↦ by_session hash decoded row has_tokens sessions sessions raw
        ]))
        p

  session_guards :
      (id : ℕ) (username : String)
      → (id == 0) ≡ false
      → let i = session_of id username in
        (require_session (some i) ≡ next i)
        × ((scope : String) → require_scope scope (some i) ≡ next i)
  unfolding require_session require_scope identity_from_context has_scope
  session_guards id username z = (rw (z, require_session) refl, λ scope. rw (z, require_scope) refl)

  parsed :
      (r : AuthResult (ℕ × String)) (i : Identity)
      → auth_response hash decoded row has_tokens sessions
          (session_identity hash decoded row has_tokens sessions r)
        ≡ next i
      → (id : ℕ) × (username : String) × (r ≡ granted (id, username))
        × (i ≡ session_of id username)
        × ((id == 0) ≡ false)
  unfolding auth_response session_identity
  parsed (denied x) i e = absurd (cc e)
  parsed (granted (id, username)) i e = elim (Bool-cases (id == 0)) [
    | inl z ↦ absurd (cc (z, e))
    | inr z ↦ (id, username, refl, cc (z, e), z)
  ]

  -- If the middleware accepts a credential that does not start with `mpat_`, then the session
  -- service is configured and parsed it to that user and name, and every guard lets it pass.
  pub session_power :
      (now : ℕ) (raw : String) (i : Identity)
      → starts_with raw api_token_prefix ≡ false
      → auth hash decoded row has_tokens sessions now (some raw) ≡ next i
      → ((parse : String → AuthResult (ℕ × String)) × (sessions ≡ some parse)
          × (parse raw ≡ granted (i.user_id, i.username)))
        × (require_session (some i) ≡ next i)
        × ((scope : String) → require_scope scope (some i) ≡ next i)
  unfolding auth_response by_session
  session_power now raw i p e = elim (Option-cases sessions) [
    | inl n ↦ absurd (cc (n, sym (session_path now raw p) ∙ e))
    | inr (parse, y) ↦
        let (id, username, ok, same, z) = parsed (parse raw) i (
          ap
            (λ s.
              auth_response hash decoded row has_tokens sessions
                (by_session hash decoded row has_tokens sessions s raw))
            (sym y)
          ∙ sym (session_path now raw p)
          ∙ e) in
        let (any, scoped) = session_guards id username z in rw same ((parse, y, ok), any, scoped)
  ]
