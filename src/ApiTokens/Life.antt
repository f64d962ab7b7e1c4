-- ===== src/ApiTokens/Life.antt =====
-- The life of an API token: it is good from its creation until it expires or its owner revokes it.
use Prim.Native.String.{◌++◌}
use text.Mathlib.TextPositions.{starts_with-append, slice-append_right, len-append}
use mini_paa_s.Common.{
  ℕ, ◌≡◌, refl, ◌∙◌, ap, subst, Bool, true, false, ◌&&◌, ◌||◌, not, String, List, [], ◌∷◌, Option,
  some, ◌==◌, if◌then◌else◌, Bool-cases, inl, inr, trim,
}
use mini_paa_s.Common.Results.{Result, ok, err, ◌>>◌, guard}
use mini_paa_s.Auth.{
  ApiToken, AuthResult, granted, denied, unauthorized, TokenRow, token_row, is_usable,
  token_not_found, authenticate_token, valid_raw_api_token, token_of, api_token_prefix,
}
use mini_paa_s.ApiTokens.{
  Row, Error, is_future, get_by_hash, raw_token, new_row, create, revoke, authenticated, touched,
  revoke_rows, found, count_own,
}
use mini_paa_s.ApiTokens.Requests.{
  Op, creates, revokes, uses, ends, is_ended, table_of, after, serve, run, create-Creates,
}
use mini_paa_s.ApiTokens.Lookup.{
  owns, revoked_token, get_by_hash-first, is_usable-unrevoked, get_by_hash-insert,
  get_by_hash-touch, get_by_hash-revoke_rows, count_own-found,
}

module _ (hash : String → String) (encode : ℕ → String) (decoded : String → Option ℕ)
    (lower : String → String) where
  -- The token, revoked if the test says so.
  abbrev ended_if : Bool → ApiToken → ApiToken
  ended_if b token = if b then revoked_token token else token

  -- What one request does to a token that is found.
  create-get_by_hash :
      (now : ℕ) (random stored : Option ℕ) (user : ℕ) (name : String) (scopes : List String)
      (expires : Option ℕ) (h : String) (token : ApiToken) (t : List Row)
      (m : Result Error (ApiToken × String × List Row))
      → create hash encode lower now random stored user name scopes expires t ≡ m
      → get_by_hash t h ≡ token_row token
      → get_by_hash (table_of t m) h ≡ token_row token
  create-get_by_hash now random stored user name scopes expires h token t (err problem) q e = e
  create-get_by_hash now random stored user name scopes expires h token t (ok made) q e =
      let c =
        create-Creates hash encode decoded lower now random stored user name scopes expires t made
          q in
      subst (λ m. get_by_hash m.2 h ≡ token_row token) c.value
        (get_by_hash-insert _ h token t c.fresh e)

  revoke-get_by_hash :
      (writes : Bool) (user id : ℕ) (h : String) (token : ApiToken) (t : List Row)
      → get_by_hash t h ≡ token_row token
      → get_by_hash (after t (revoke writes user id t)) h
        ≡ token_row (ended_if (ends token (revokes writes user id)) token)
  unfolding revoke
  revoke-get_by_hash writes user id h token t e =
      by_tests (user == 0) (id == 0) writes (count_own user id t == 0) (owns user id token)
        (count_own-found user id h token t e) (get_by_hash-revoke_rows user id h token t e)
    where
      by_tests :
          (u i w z o : Bool)
          → (o ≡ true → z ≡ false)
          → get_by_hash (revoke_rows user id t) h ≡ token_row (ended_if o token)
          → get_by_hash
              (after t (
                guard (not u) (Error.refused unauthorized)
                >> (guard (not i) (Error.refused token_not_found)
                    >> (guard w Error.store_failed
                        >> (guard (not z) (Error.refused token_not_found)
                            >> ok (revoke_rows user id t))))))
              h
            ≡ token_row (ended_if (w && not u && not i && o) token)
      by_tests true i true z o c r = e
      by_tests true i false z o c r = e
      by_tests false true true z o c r = e
      by_tests false true false z o c r = e
      by_tests false false false z o c r = e
      by_tests false false true false o c r = r
      by_tests false false true true true c r = absurd (cc (c refl))
      by_tests false false true true false c r = e

  touched-get_by_hash :
      (writes : Bool) (now : ℕ) (a : AuthResult ApiToken) (h : String) (t : List Row)
      → get_by_hash (touched hash decoded writes now a t) h ≡ get_by_hash t h
  unfolding touched
  touched-get_by_hash writes now (denied e) h t = refl
  touched-get_by_hash true now (granted token) h t = get_by_hash-touch now token.id h t
  touched-get_by_hash false now (granted token) h t = refl

  serve-get_by_hash :
      (op : Op) (h : String) (token : ApiToken) (t : List Row)
      → get_by_hash t h ≡ token_row token
      → get_by_hash (serve hash encode decoded lower op t) h
        ≡ token_row (ended_if (ends token op) token)
  unfolding serve
  serve-get_by_hash (creates now random stored user name scopes expires) h token t e =
      create-get_by_hash now random stored user name scopes expires h token t _ refl e
  serve-get_by_hash (revokes writes user id) h token t e =
      revoke-get_by_hash writes user id h token t e
  serve-get_by_hash (uses reads writes now raw) h token t e =
      touched-get_by_hash writes now _ h t ∙ e

  stays_ended :
      (b : Bool) (token : ApiToken) → ended_if b (revoked_token token) ≡ revoked_token token
  stays_ended true token = refl
  stays_ended false token = refl

  run-get_by_hash :
      (ops : List Op) (h : String) (token : ApiToken) (t : List Row)
      → get_by_hash t h ≡ token_row token
      → get_by_hash (run hash encode decoded lower ops t) h
        ≡ token_row (ended_if (is_ended token ops) token)
  unfolding run is_ended
  run-get_by_hash [] h token t e = e
  run-get_by_hash (op ∷ ops) h token t e = elim (Bool-cases (ends token op)) [
    | inl y ↦ rw y (
        run-get_by_hash ops h (revoked_token token) (serve hash encode decoded lower op t)
          (serve-get_by_hash op h token t e ∙ ap (λ b. token_row (ended_if b token)) y)
        ∙ ap token_row (stays_ended (is_ended (revoked_token token) ops) token))
    | inr n ↦ rw n (
        run-get_by_hash ops h token (serve hash encode decoded lower op t)
          (serve-get_by_hash op h token t e ∙ ap (λ b. token_row (ended_if b token)) n))
  ]

  raw_token-IsValid :
      (row : String → TokenRow) (text : String)
      → decoded text ≡ some 32
      → valid_raw_api_token hash decoded row (api_token_prefix ++ text) ≡ true
  unfolding valid_raw_api_token
  raw_token-IsValid row text d =
      rw
        (
          starts_with-append api_token_prefix text,
          len-append api_token_prefix text,
          slice-append_right api_token_prefix text,
          d,
        )
        refl

  -- What the middleware answers for the secret of a token that is found.
  abbrev pub AuthenticatesAs : ApiToken → List Op → ℕ → AuthResult ApiToken → Type 0
  AuthenticatesAs token ops time answer = answer ≡ (
      if is_ended token ops || not (is_future time token.expires_at)
      then denied unauthorized
      else granted token)

  authenticated-found :
      (secret time : ℕ) (b : Bool) (token : ApiToken) (t : List Row)
      → decoded (encode secret) ≡ some 32
      → token.revoked ≡ false
      → get_by_hash t (hash (raw_token hash encode lower secret)) ≡ token_row (ended_if b token)
      → authenticated hash decoded true t time (raw_token hash encode lower secret) ≡ (
          if b || not (is_future time token.expires_at) then denied unauthorized else granted token)
  unfolding authenticated authenticate_token token_of is_usable
  authenticated-found secret time b token t d u e =
      let raw = raw_token hash encode lower secret in
      rw (raw_token-IsValid (found hash decoded true t) (encode secret) d, e)
        (by_state b token (is_future time token.expires_at) u refl)
    where
      by_state :
          (b : Bool) (token : ApiToken) (f : Bool)
          → token.revoked ≡ false
          → is_future time token.expires_at ≡ f
          → (if is_usable time (ended_if b token)
              then granted (ended_if b token)
              else denied unauthorized)
            ≡ (if b || not f then denied unauthorized else granted token)
      by_state true token f u q = refl
      by_state false token true u q = rw (is_usable-unrevoked time token u, q) refl
      by_state false token false u q = rw (is_usable-unrevoked time token u, q) refl

  -- Where base64 decodes 32 bytes from what it encoded: once a token is created, then after any
  -- requests of any users, in which any store, random source and clock may fail or stand anywhere,
  -- its secret is accepted as long as the rows can be read, it has not expired and its owner has not
  -- revoked it; it answers the token as it was created. From the revocation on, or at its expiry, it
  -- is refused as unauthorized.
  pub create-AuthenticatesAs :
      (opens : (secret : ℕ) → decoded (encode secret) ≡ some 32) (now time : ℕ)
      (random stored : Option ℕ) (user : ℕ) (name : String) (scopes : List String)
      (expires : Option ℕ) (t t' : List Row) (token : ApiToken) (raw : String) (ops : List Op)
      → create hash encode lower now random stored user name scopes expires t ≡ ok (token, raw, t')
      → AuthenticatesAs token ops time
          (authenticated hash decoded true (run hash encode decoded lower ops t') time raw)
  create-AuthenticatesAs opens now time random stored user name scopes expires t t' token raw ops
        h =
      let c =
        create-Creates hash encode decoded lower now random stored user name scopes expires t
          (token, raw, t') h in
      let raw = raw_token hash encode lower c.secret in
      let row = new_row hash encode lower user (trim name) raw c.normal expires c.id in
      subst
        (λ m.
          AuthenticatesAs m.0 ops time
            (authenticated hash decoded true (run hash encode decoded lower ops m.2) time m.1))
        c.value
        (authenticated-found c.secret time (is_ended row.token ops) row.token
          (run hash encode decoded lower ops (row ∷ t)) (opens c.secret) refl
          (run-get_by_hash ops (hash raw) row.token (row ∷ t) (get_by_hash-first row t)))
