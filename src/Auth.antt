-- ===== src/Auth.antt =====
-- Who may call the API: authctx/context.go, handler/middleware/auth.go, service/authenticator.go and
-- the authentication of service/api_token.go. A response is either the next handler with the
-- identity of the request, or an HTTP status.
use Prim.Native.Char.{code}
use Prim.Native.String.{len, slice}
use text.Mathlib.Text.{◌==◌ as str_eq, starts_with}
use mini_paa_s.Common.{
  ℕ, ◌+◌, Bool, true, false, ◌&&◌, ◌||◌, not, String, List, [], ◌∷◌, Option, none, some, leb, ltb,
  ◌==◌, if◌then◌else◌, trim, is_space, is_blank,
}
pub mod Scopes
pub mod Guards
mod Tests

pub data AuthMethod : Type 0 where
  session api_token : AuthMethod

-- The set of scopes is a list; a user id of 0 is `uuid.Nil`.
pub record Identity : Type 0 where
  pub user_id : ℕ
  pub username : String
  pub method : AuthMethod
  pub token_id : ℕ
  pub scopes : List String

pub record ApiToken : Type 0 where
  pub id : ℕ
  pub user_id : ℕ
  pub scopes : List String
  pub expires_at : Option ℕ
  pub revoked : Bool

pub data AuthError : Type 0 where
  unauthorized token_not_found name_invalid scope_invalid expiry_invalid lookup_failed : AuthError

pub data AuthResult (A : Type 0) : Type 0 where
  granted : A → AuthResult A
  denied : AuthError → AuthResult A

pub data Response : Type 0 where
  next : Identity → Response
  abort : ℕ → Response

-- Whether the set has the text.
abbrev pub has : List String → String → Bool
has [] x = false
has (y ∷ ys) x = str_eq y x || has ys x

-- `HasScope`
unfoldable pub has_scope : Identity → String → Bool
has_scope i scope = elim i.method [ session ↦ true | api_token ↦ has i.scopes scope ]

-- `IdentityFromContext`
unfoldable pub identity_from_context : Option Identity → Option Identity
identity_from_context none = none
identity_from_context (some i) = if i.user_id == 0 then none else some i

-- `RequireScope`, on the identity that the context holds
unfoldable pub require_scope : String → Option Identity → Response
unfolding has_scope identity_from_context
require_scope scope ctx = elim (identity_from_context ctx) [
  | none ↦ abort 401
  | some i ↦ if has_scope i scope then next i else abort 403
]

-- `RequireSession`
unfoldable pub require_session : Option Identity → Response
unfolding identity_from_context
require_session ctx = elim (identity_from_context ctx) [
  | none ↦ abort 401
  | some i ↦ elim i.method [ session ↦ next i | api_token ↦ abort 403 ]
]

abbrev pub api_token_prefix : String
api_token_prefix = "mpat_"

-- `ValidAPITokenScope`
unfoldable pub valid_api_token_scope : String → Bool
valid_api_token_scope scope = str_eq scope "read" || str_eq scope "deploy" || str_eq scope "manage"

-- The loop of `normalizeAPITokenScopes`, with the set `seen` and the list `normalized` in one, the
-- newest first. `lower` is `strings.ToLower`.
module _ (lower : String → String) where
  unfoldable pub normalize_loop : List String → List String → AuthResult (List String)
  unfolding valid_api_token_scope
  normalize_loop [] normalized = granted normalized
  normalize_loop (raw ∷ scopes) normalized = elim (valid_api_token_scope (lower (trim raw))) [
    | false ↦ denied scope_invalid
    | true ↦ elim (has normalized (lower (trim raw))) [
      | true ↦ normalize_loop scopes normalized
      | false ↦ normalize_loop scopes (lower (trim raw) ∷ normalized)
    ]
  ]

  -- The check after the loop.
  unfoldable pub non_empty : AuthResult (List String) → AuthResult (List String)
  non_empty (denied e) = denied e
  non_empty (granted []) = denied scope_invalid
  non_empty (granted (x ∷ xs)) = granted (x ∷ xs)

  -- `normalizeAPITokenScopes`, up to the order of the result
  unfoldable pub normalize_scopes : List String → AuthResult (List String)
  unfolding normalize_loop non_empty
  normalize_scopes [] = granted ("read" ∷ [])
  normalize_scopes (s ∷ scopes) = non_empty (normalize_loop (s ∷ scopes) [])

-- What a lookup of a token by its hash answers.
pub data TokenRow : Type 0 where
  token_row : ApiToken → TokenRow
  no_token : TokenRow
  store_error : TokenRow

-- `token.RevokedAt == nil && (token.ExpiresAt == nil || token.ExpiresAt.After(now))`
unfoldable pub is_usable : ℕ → ApiToken → Bool
is_usable now t = not t.revoked && elim t.expires_at [ none ↦ true | some e ↦ ltb now e ]

-- `hash` is the SHA-256 digest in hexadecimal, `decoded` the length that base64 decodes to, and
-- `row` what the token store holds for a hash.
module _ (hash : String → String) (decoded : String → Option ℕ) (row : String → TokenRow) where
  -- `validRawAPIToken`
  unfoldable pub valid_raw_api_token : String → Bool
  valid_raw_api_token raw =
      starts_with raw api_token_prefix
      && elim (decoded (slice raw (len api_token_prefix) (len raw))) [
        | none ↦ false
        | some n ↦ n == 32
      ]

  unfoldable pub token_of : ℕ → TokenRow → AuthResult ApiToken
  unfolding is_usable
  token_of now (token_row t) = if is_usable now t then granted t else denied unauthorized
  token_of now no_token = denied unauthorized
  token_of now store_error = denied lookup_failed

  -- `APITokenService.Authenticate`; the write of the last use is ignored by the code.
  unfoldable pub authenticate_token : ℕ → String → AuthResult ApiToken
  unfolding valid_raw_api_token token_of
  authenticate_token now raw =
      if valid_raw_api_token raw then token_of now (row (hash raw)) else denied unauthorized

  -- `sessions` is `AuthService.ParseToken`, a JWT check, where the session service is configured.
  module _ (has_tokens : Bool) (sessions : Option (String → AuthResult (ℕ × String))) where
    unfoldable pub token_identity : AuthResult ApiToken → AuthResult Identity
    token_identity (denied token_not_found) = denied unauthorized
    token_identity (denied e) = denied e
    token_identity (granted t) = granted (record {
      user_id = t.user_id;
      username = "";
      method = api_token;
      token_id = t.id;
      scopes = t.scopes;
    })

    unfoldable pub session_identity : AuthResult (ℕ × String) → AuthResult Identity
    session_identity (denied e) = denied e
    session_identity (granted (id, username)) =
        granted (record {
          user_id = id;
          username = username;
          method = session;
          token_id = 0;
          scopes = [];
        })

    unfoldable pub by_session :
        Option (String → AuthResult (ℕ × String)) → String → AuthResult Identity
    unfolding session_identity
    by_session none raw = denied unauthorized
    by_session (some parse) raw = session_identity (parse raw)

    -- `Authenticator.Authenticate`
    unfoldable pub authenticate : ℕ → String → AuthResult Identity
    unfolding authenticate_token token_identity by_session
    authenticate now raw = elim (starts_with raw api_token_prefix) [
      | true ↦
          if has_tokens then token_identity (authenticate_token now raw) else denied unauthorized
      | false ↦ by_session sessions raw
    ]

    unfoldable pub auth_response : AuthResult Identity → Response
    auth_response (denied e) = abort 401
    auth_response (granted i) = if i.user_id == 0 then abort 401 else next i

    -- `Auth`, on the credential that the request has
    unfoldable pub auth : ℕ → Option String → Response
    unfolding authenticate auth_response
    auth now none = abort 401
    auth now (some raw) = auth_response (authenticate now raw)
