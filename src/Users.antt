-- ===== src/Users.antt =====
-- service/auth.go and store/postgres/user.go: the users, their passwords and their sessions. Names
-- and passwords are lists of code points, times are seconds, and a user id of 0 is `uuid.Nil`.
use mini_paa_s.Common.{
  ℕ, ◌+◌, Bool, true, false, ◌&&◌, ◌||◌, not, List, [], ◌∷◌, Option, none, some, leb, ltb, ◌==◌,
  if◌then◌else◌, text_eq, length, trim_space, find_by,
}
use mini_paa_s.Common.Results.{Result, ok, err, ◌>>=◌, ◌>>◌, guard, or_err}
use mini_paa_s.SourceGit.{is_upper, is_lower, is_digit}
pub mod Table
pub mod Requests
pub mod Sessions
mod Tests

pub data Error : Type 0 where
  username_invalid password_weak username_taken invalid_credentials : Error
  user_not_found unauthorized hash_failed sign_failed store_failed : Error

-- `usernameRE`, `^[A-Za-z0-9][A-Za-z0-9_.-]{2,63}$`
abbrev pub is_alnum : ℕ → Bool
is_alnum c = is_upper c || is_lower c || is_digit c

abbrev pub is_name_code : ℕ → Bool
is_name_code c = is_alnum c || c == b'_' || c == b'.' || c == b'-'

abbrev pub all_name_codes : List ℕ → Bool
all_name_codes [] = true
all_name_codes (c ∷ s) = is_name_code c && all_name_codes s

abbrev pub matches_username : List ℕ → Bool
matches_username [] = false
matches_username (c ∷ s) = is_alnum c && all_name_codes s && leb 2 (length s) && leb (length s) 63

abbrev pub is_weak : List ℕ → Bool
is_weak password = ltb (length password) 8

abbrev pub is_empty_text : List ℕ → Bool
is_empty_text [] = true
is_empty_text (c ∷ s) = false

pub record User (Hash : Type 0) : Type 0 where
  pub id : ℕ
  pub name : List ℕ
  pub password_hash : Hash

-- The claims of a session; the subject is none where it is not a UUID.
pub record Claims : Type 0 where
  pub sub : Option ℕ
  pub usr : List ℕ
  pub exp : ℕ
  pub iat : ℕ

module _ {Hash : Type 0} where
  pub get_by_username : List ℕ → List (User Hash) → Option (User Hash)
  get_by_username name t = find_by (λ u. text_eq u.name name) t

  pub get_by_id : ℕ → List (User Hash) → Option (User Hash)
  get_by_id id t = find_by (λ u. u.id == id) t

  -- The unique columns: whether a row has the id or the name, and whether another row has the name.
  pub is_taken : ℕ → List ℕ → List (User Hash) → Bool
  is_taken id name [] = false
  is_taken id name (u ∷ us) = u.id == id || text_eq u.name name || is_taken id name us

  pub is_held : ℕ → List ℕ → List (User Hash) → Bool
  is_held id name [] = false
  is_held id name (u ∷ us) = not (u.id == id) && text_eq u.name name || is_held id name us

  -- `Create` of the store; `stored` is the id that the database gives, where it answers.
  pub insert :
      Option ℕ → List ℕ → Hash → List (User Hash) → Result Error (User Hash × List (User Hash))
  unfolding is_taken
  insert stored name hash t = do
    id ← or_err stored Error.store_failed
    guard (not (is_taken id name t)) Error.username_taken
    ok (
      record { id = id; name = name; password_hash = hash },
      record { id = id; name = name; password_hash = hash } ∷ t,
    )

  pub rename_rows : ℕ → List ℕ → List (User Hash) → List (User Hash)
  rename_rows id name [] = []
  rename_rows id name (u ∷ us) =
      let rest = rename_rows id name us in
      (if u.id == id then record u { name = name } else u) ∷ rest

  -- `UpdateUsername` of the store
  pub rename : Bool → ℕ → List ℕ → List (User Hash) → Result Error (User Hash × List (User Hash))
  unfolding get_by_id is_held rename_rows
  rename writes id name t = do
    guard writes Error.store_failed
    user ← or_err (get_by_id id t) Error.user_not_found
    guard (not (is_held id name t)) Error.username_taken
    ok (record user { name = name }, rename_rows id name t)

  -- `UpdatePassword` of the store
  pub set_hash : ℕ → Hash → List (User Hash) → List (User Hash)
  set_hash id hash [] = []
  set_hash id hash (u ∷ us) =
      let rest = set_hash id hash us in
      (if u.id == id then record u { password_hash = hash } else u) ∷ rest

  -- `UpdateUsername`
  pub update_username :
      Bool → ℕ → List ℕ → List (User Hash) → Result Error (User Hash × List (User Hash))
  unfolding rename
  update_username writes id name t = do
    guard (matches_username (trim_space name)) Error.username_invalid
    rename writes id (trim_space name) t

-- bcrypt: the hash of a password under a salt, which fails on long passwords, and the comparison.
module _ {Hash : Type 0} (generate : ℕ → List ℕ → Option Hash)
    (compare : Hash → List ℕ → Bool) where
  -- `Register`
  pub register :
      ℕ
      → Option ℕ
      → List ℕ
      → List ℕ
      → List (User Hash)
      → Result Error (User Hash × List (User Hash))
  unfolding insert
  register salt stored name password t = do
    guard (matches_username (trim_space name)) Error.username_invalid
    guard (not (is_weak password)) Error.password_weak
    hash ← or_err (generate salt password) Error.hash_failed
    insert stored (trim_space name) hash t

  -- `UpdatePassword`
  pub update_password :
      Bool → Bool → ℕ → ℕ → List ℕ → List ℕ → List (User Hash) → Result Error (List (User Hash))
  unfolding get_by_id set_hash
  update_password reads writes salt id current password t = do
    guard (not (is_weak password)) Error.password_weak
    guard reads Error.store_failed
    user ← or_err (get_by_id id t) Error.user_not_found
    guard (compare user.password_hash current) Error.invalid_credentials
    hash ← or_err (generate salt password) Error.hash_failed
    guard writes Error.store_failed
    ok (set_hash id hash t)

  -- `SeedAdmin`
  pub seed_admin :
      Bool → ℕ → Option ℕ → List ℕ → List ℕ → List (User Hash) → Result Error (List (User Hash))
  unfolding insert
  seed_admin counts salt stored name password t =
      let seeded = (do
        guard counts Error.store_failed
        hash ← or_err (generate salt password) Error.hash_failed
        made ← insert stored name hash t
        ok made.1) in
      let kept = (guard counts Error.store_failed >> ok t) in
      if is_empty_text name || is_empty_text password
      then ok t
      else (if ltb 0 (length t) then kept else seeded)

  -- JWT: a signature of claims, which may fail, and the claims of a text that is valid at a time
  module _ {Token : Type 0} (sign : Claims → Option Token) (parse : ℕ → Token → Option Claims) where
    -- `issueToken`
    pub issue_token : ℕ → ℕ → User Hash → Result Error (Token × ℕ)
    issue_token ttl now user = do
      token ←
          or_err (sign (record { sub = some user.id; usr = user.name; exp = now + ttl; iat = now }))
            Error.sign_failed
      ok (token, now + ttl)

    abbrev pub hash_or : Hash → Option (User Hash) → Hash
    hash_or dummy none = dummy
    hash_or dummy (some user) = user.password_hash

    -- `Login`; a name that nobody has is compared with `dummyPasswordHash`.
    pub login : Hash → Bool → ℕ → ℕ → List ℕ → List ℕ → List (User Hash) → Result Error (Token × ℕ)
    unfolding get_by_username issue_token
    login dummy reads ttl now name password t = do
      guard reads Error.store_failed
      guard (compare (hash_or dummy (get_by_username name t)) password) Error.invalid_credentials
      user ← or_err (get_by_username name t) Error.invalid_credentials
      issue_token ttl now user

    -- `RefreshToken`
    pub refresh_token : Bool → ℕ → ℕ → ℕ → List (User Hash) → Result Error (Token × ℕ)
    unfolding get_by_id issue_token
    refresh_token reads ttl now id t = do
      guard reads Error.store_failed
      user ← or_err (get_by_id id t) Error.user_not_found
      issue_token ttl now user

    -- `ParseToken`
    pub parse_token : ℕ → Token → Result Error (ℕ × List ℕ)
    parse_token now raw = do
      claims ← or_err (parse now raw) Error.unauthorized
      id ← or_err claims.sub Error.unauthorized
      ok (id, claims.usr)
