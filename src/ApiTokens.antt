-- ===== src/ApiTokens.antt =====
-- service/api_token.go and store/postgres/api_token.go: the API tokens of the users, from their
-- creation to their use and their revocation. Auth has the check of a token and the scopes.
use Prim.Native.String.{◌++◌, slice}
use text.Mathlib.Text.{◌==◌ as str_eq}
use mini_paa_s.Common.{
  ℕ, zero, suc, Bool, true, false, ◌&&◌, ◌||◌, not, String, List, [], ◌∷◌, Option, none, some, leb,
  ltb, ◌==◌, if◌then◌else◌, trim, is_empty,
}
use mini_paa_s.Common.Results.{Result, ok, err, ◌>>=◌, ◌>>◌, guard, or_err}
use mini_paa_s.Auth.{
  ApiToken, AuthError, AuthResult, granted, denied, unauthorized, token_not_found, name_invalid,
  expiry_invalid, TokenRow, token_row, no_token, store_error, api_token_prefix, normalize_scopes,
  is_usable, authenticate_token,
}
pub mod Lookup
pub mod Requests
pub mod Life
mod Tests

pub data Error : Type 0 where
  refused : AuthError → Error
  no_randomness store_failed : Error

-- A row of `api_tokens`
pub record Row : Type 0 where
  pub token : ApiToken
  pub name : String
  pub hash : String
  pub prefix : String
  pub last_used : Option ℕ

abbrev pub from_auth : {A : Type 0} → AuthResult A → Result Error A
from_auth (granted a) = ok a
from_auth (denied e) = err (Error.refused e)

-- `len([]rune(name))`
abbrev pub rune_count : String → ℕ
rune_count String.[] = 0
rune_count (String.◌∷◌ c s) = suc (rune_count s)

abbrev pub is_name : String → Bool
is_name name = not (is_empty name) && leb (rune_count name) 64

abbrev pub is_future : ℕ → Option ℕ → Bool
is_future now none = true
is_future now (some time) = ltb now time

-- The unique columns of the table: whether a row has the id or the hash.
pub is_taken : ℕ → String → List Row → Bool
is_taken id hash [] = false
is_taken id hash (r ∷ rs) = r.token.id == id || str_eq r.hash hash || is_taken id hash rs

-- `CreateAPIToken`; `stored` is the id that the database gives, where it answers.
pub insert : Option ℕ → (ℕ → Row) → List Row → Result Error (Row × List Row)
unfolding is_taken
insert stored row t = do
  id ← or_err stored Error.store_failed
  guard (not (is_taken id (row id).hash t)) Error.store_failed
  ok (row id, row id ∷ t)

-- `ListAPITokens`, the newest first
pub list_tokens : ℕ → List Row → List Row
list_tokens user [] = []
list_tokens user (r ∷ rs) =
    let rest = list_tokens user rs in if r.token.user_id == user then r ∷ rest else rest

-- `GetAPITokenByHash`
pub get_by_hash : List Row → String → TokenRow
get_by_hash [] hash = no_token
get_by_hash (r ∷ rs) hash =
    let rest = get_by_hash rs hash in if str_eq r.hash hash then token_row r.token else rest

abbrev pub is_own : ℕ → ℕ → Row → Bool
is_own user id r = r.token.id == id && r.token.user_id == user

-- `RevokeAPIToken`: the rows that it updates, and how it leaves them
pub count_own : ℕ → ℕ → List Row → ℕ
count_own user id [] = 0
count_own user id (r ∷ rs) =
    let rest = count_own user id rs in if is_own user id r then suc rest else rest

abbrev pub revoked_row : Row → Row
revoked_row r = record r { token = record r.token { revoked = true } }

pub revoke_rows : ℕ → ℕ → List Row → List Row
revoke_rows user id [] = []
revoke_rows user id (r ∷ rs) =
    let rest = revoke_rows user id rs in (if is_own user id r then revoked_row r else r) ∷ rest

-- `TouchAPIToken`
pub touch : ℕ → ℕ → List Row → List Row
unfolding is_usable
touch now id [] = []
touch now id (r ∷ rs) =
    let rest = touch now id rs in
    (if r.token.id == id && is_usable now r.token then record r { last_used = some now } else r)
    ∷ rest

-- `List`
pub list : Bool → ℕ → List Row → Result Error (List Row)
unfolding list_tokens
list reads user t = do
  guard (not (user == 0)) (Error.refused unauthorized)
  guard reads Error.store_failed
  ok (list_tokens user t)

-- `Revoke`
pub revoke : Bool → ℕ → ℕ → List Row → Result Error (List Row)
unfolding count_own revoke_rows
revoke writes user id t = do
  guard (not (user == 0)) (Error.refused unauthorized)
  guard (not (id == 0)) (Error.refused token_not_found)
  guard writes Error.store_failed
  guard (not (count_own user id t == 0)) (Error.refused token_not_found)
  ok (revoke_rows user id t)

-- `hash` is `HashAPIToken`, `encode` the base64 encoding of the 32 random bytes, given as a number,
-- and `lower` is `strings.ToLower`.
module _ (hash : String → String) (encode : ℕ → String) (lower : String → String) where
  abbrev pub raw_token : ℕ → String
  raw_token secret = api_token_prefix ++ encode secret

  -- The arguments that `Create` gives to the store
  abbrev pub new_row : ℕ → String → String → List String → Option ℕ → ℕ → Row
  new_row user name raw scopes expires id = record {
    token = record {
      id = id;
      user_id = user;
      scopes = scopes;
      expires_at = expires;
      revoked = false;
    };
    name = name;
    hash = hash raw;
    prefix = slice raw 0 16;
    last_used = none;
  }

  -- `Create`, which answers the row with the token, the secret text and the table.
  pub create :
      ℕ
      → Option ℕ
      → Option ℕ
      → ℕ
      → String
      → List String
      → Option ℕ
      → List Row
      → Result Error (ApiToken × String × List Row)
  unfolding insert
  create now random stored user name scopes expires t = do
    guard (not (user == 0)) (Error.refused unauthorized)
    guard (is_name (trim name)) (Error.refused name_invalid)
    normal ← from_auth (normalize_scopes lower scopes)
    guard (is_future now expires) (Error.refused expiry_invalid)
    secret ← or_err random Error.no_randomness
    made ← insert stored (new_row user (trim name) (raw_token secret) normal expires) t
    ok (made.0.token, raw_token secret, made.1)

-- `Authenticate` with its lookup and the write of the last use, which may fail.
module _ (hash : String → String) (decoded : String → Option ℕ) where
  abbrev pub found : Bool → List Row → String → TokenRow
  found reads t digest = if reads then get_by_hash t digest else store_error

  pub authenticated : Bool → List Row → ℕ → String → AuthResult ApiToken
  unfolding authenticate_token get_by_hash
  authenticated reads t now raw = authenticate_token hash decoded (found reads t) now raw

  pub touched : Bool → ℕ → AuthResult ApiToken → List Row → List Row
  unfolding touch
  touched writes now (denied e) t = t
  touched writes now (granted token) t = if writes then touch now token.id t else t
