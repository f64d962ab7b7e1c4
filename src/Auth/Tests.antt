-- ===== src/Auth/Tests.antt =====
-- A read-only token and a session, and the theorems on credentials at them.
use text.Mathlib.Text.{◌==◌ as str_eq}
use mini_paa_s.Common.{
  ℕ, ◌≡◌, refl, true, false, String, [], ◌∷◌, Option, none, some, if◌then◌else◌,
}
use mini_paa_s.Auth.{
  ApiToken, AuthResult, granted, denied, unauthorized, next, abort, has, require_scope,
  require_session, TokenRow, token_row, no_token, is_usable, auth, authenticate, auth_response,
  authenticate_token, token_identity, valid_raw_api_token, token_of, session_identity, by_session,
  normalize_scopes,
}
use mini_paa_s.Auth.Guards.{identity_of, session_of, IsLive, token_power, session_power}
use mini_paa_s.Auth.Scopes.{Normalizes, normalize_scopes-Normalizes}

abbrev reader : ApiToken
reader = record {
  id = 3;
  user_id = 8;
  scopes = "read" ∷ [];
  expires_at = some 2000;
  revoked = false;
}

abbrev digest : String → String
digest raw = raw

abbrev decoded : String → Option ℕ
decoded text = if str_eq text "secret" then some 32 else none

abbrev row : String → TokenRow
row hash = if str_eq hash "mpat_secret" then token_row reader else no_token

abbrev parse : String → AuthResult (ℕ × String)
parse raw = if str_eq raw "jwt" then granted (8, "ana") else denied unauthorized

by_token :
    auth digest decoded row true (some parse) 1000 (some "mpat_secret") ≡ next (identity_of reader)
unfolding auth authenticate auth_response authenticate_token token_identity valid_raw_api_token
    token_of is_usable
by_token = refl

by_session_token :
    auth digest decoded row true (some parse) 1000 (some "jwt") ≡ next (session_of 8 "ana")
unfolding auth authenticate auth_response session_identity by_session
by_session_token = refl

token_power_example :
    (t : ApiToken) × (row (digest "mpat_secret") ≡ token_row t)
    × (t.revoked ≡ false)
    × IsLive 1000 t.expires_at
    × (8 ≡ t.user_id)
    × (require_session (some (identity_of reader)) ≡ abort 403)
    × ((scope : String)
        → require_scope scope (some (identity_of reader))
          ≡ (if has t.scopes scope then next (identity_of reader) else abort 403))
token_power_example =
    token_power digest decoded row true (some parse) 1000 "mpat_secret" (identity_of reader) refl
      by_token

session_power_example :
    ((p : String → AuthResult (ℕ × String)) × (some parse ≡ some p)
      × (p "jwt" ≡ granted (8, "ana")))
    × (require_session (some (session_of 8 "ana")) ≡ next (session_of 8 "ana"))
    × ((scope : String)
        → require_scope scope (some (session_of 8 "ana")) ≡ next (session_of 8 "ana"))
session_power_example =
    session_power digest decoded row true (some parse) 1000 "jwt" (session_of 8 "ana") refl
      by_session_token

normalize_scopes-Normalizes_example :
    Normalizes digest
      (" read" ∷ "deploy" ∷ "read" ∷ [])
      (normalize_scopes digest (" read" ∷ "deploy" ∷ "read" ∷ []))
normalize_scopes-Normalizes_example =
    normalize_scopes-Normalizes digest (" read" ∷ "deploy" ∷ "read" ∷ [])
