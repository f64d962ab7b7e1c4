-- ===== src/GitHubApp.antt =====
-- internal/githubapp/state.go, service/github_app.go and store/postgres/github_installation.go: how
-- a user connects an installation of the GitHub App. Texts are lists of code points; a user id of 0
-- is `uuid.Nil`, and times are in seconds.
use mini_paa_s.Common.{
  ℕ, ◌+◌, suc, zero, Bool, true, false, ◌&&◌, ◌||◌, not, List, [], ◌∷◌, ◌++◌, Option, none, some,
  ltb, ◌==◌, if◌then◌else◌, codes, text_eq, trim_space, length,
}
use mini_paa_s.Common.Results.{Result, ok, err, ◌>>=◌, ◌>>◌, guard, or_err}
pub mod States
pub mod Ownership
pub mod Pages
mod Tests

pub data Error : Type 0 where
  not_configured installation_invalid installation_owned installation_not_found
        repository_not_accessible app_not_found unauthorized unavailable :
      Error

pub record StateClaims : Type 0 where
  pub app_name : List ℕ
  -- `none` where the text is no UUID
  pub user_id : Option ℕ
  pub target : List ℕ
  pub issuer : List ℕ
  pub issued_at : ℕ
  pub expires_at : ℕ

abbrev pub is_blank : List ℕ → Bool
is_blank s = text_eq (trim_space s) []

abbrev pub is_app : List ℕ → Bool
is_app target = text_eq target (codes "app")

abbrev pub is_account : List ℕ → Bool
is_account target = text_eq target (codes "account")

abbrev pub issuer : List ℕ
issuer = codes "minipaas-github-app"

-- The claims of a new state, valid for ten minutes
abbrev pub claims_of : List ℕ → ℕ → List ℕ → ℕ → StateClaims
claims_of app user target now = record {
  app_name = app;
  user_id = some user;
  target = target;
  issuer = issuer;
  issued_at = now;
  expires_at = now + 600;
}

abbrev pub can_sign : ℕ → List ℕ → ℕ → List ℕ → Bool
can_sign secret_length app user target = not (
    secret_length == 0
    || user == 0
    || (is_app target && is_blank app)
    || (not (is_app target) && not (is_account target)))

-- A state that was issued before the target was recorded is for an app.
abbrev pub upgraded : StateClaims → StateClaims
upgraded c =
    if text_eq c.target [] && not (is_blank c.app_name)
    then record c { target = codes "app" }
    else c

abbrev pub is_consistent : StateClaims → Bool
is_consistent c = not (
    (not (is_app c.target) && not (is_account c.target))
    || (is_app c.target && is_blank c.app_name)
    || (is_account c.target && not (is_blank c.app_name)))

pub record Target : Type 0 where
  pub app_name : List ℕ
  pub user : ℕ
  pub target : List ℕ

abbrev pub accepted : StateClaims → ℕ → Result Error Target
accepted c user =
    if is_consistent c
    then ok (record { app_name = c.app_name; user = user; target = c.target })
    else err Error.installation_invalid

abbrev pub with_user : StateClaims → Option ℕ → Result Error Target
with_user c none = err Error.installation_invalid
with_user c (some user) =
    if user == 0 then err Error.installation_invalid else accepted (upgraded c) user

abbrev pub with_claims : Option StateClaims → Result Error Target
with_claims none = err Error.installation_invalid
with_claims (some c) = with_user c c.user_id

-- `encode` signs claims as a JWT with the secret; `parse` verifies a JWT at a time: the signature and
-- its method, the issuer and the expiry.
module _ {Token : Type 0} (encode : StateClaims → Token)
    (parse : ℕ → Token → Option StateClaims) where
  -- `sign`
  pub sign : ℕ → List ℕ → ℕ → List ℕ → ℕ → Result Error Token
  sign secret_length app user target now = do
    guard (can_sign secret_length app user target) Error.installation_invalid
    ok (encode (claims_of app user target now))

  -- `VerifyTarget`
  pub verify_target : ℕ → Token → Result Error Target
  verify_target now raw = with_claims (parse now raw)

pub record Installation : Type 0 where
  pub id : ℕ
  pub login : List ℕ
  pub owner : Option ℕ

abbrev pub Table : Type 0
Table = List Installation

abbrev pub may_take : Option ℕ → ℕ → Bool
may_take none user = true
may_take (some owner) user = owner == user

abbrev pub is_held : ℕ → ℕ → Table → Bool
is_held id user [] = false
is_held id user (r ∷ rs) = if r.id == id then not (may_take r.owner user) else is_held id user rs

-- `INSERT … ON CONFLICT (installation_id) DO UPDATE`
abbrev pub put : ℕ → List ℕ → ℕ → Table → Table
put id login user [] = record { id = id; login = login; owner = some user } ∷ []
put id login user (r ∷ rs) =
    let rest = put id login user rs in
    if r.id == id then record { id = id; login = login; owner = some user } ∷ rs else r ∷ rest

-- `Upsert`, for the user of the request; the conflict with another owner returns no row.
pub upsert : ℕ → List ℕ → ℕ → Table → Result Error Table
upsert id login user t = do
  guard (not (is_held id user t)) Error.installation_owned
  ok (put id login user t)

-- What a request for a connection meets: whether the integration is enabled, the user of the
-- context, the apps that the user has, and what GitHub answers about the installation.
pub record Request : Type 0 where
  pub enabled : Bool
  pub user : Option ℕ
  pub has_app : List ℕ → Bool
  pub github : ℕ → Result Error (List ℕ)

abbrev pub is_user : Option ℕ → ℕ → Bool
is_user none expected = false
is_user (some user) expected = user == expected

-- `Connect`, after the state was verified
pub connect_target : Request → ℕ → Target → Table → Result Error Table
unfolding upsert
connect_target r id t table = do
  guard (is_user r.user t.user) Error.installation_invalid
  guard (not (is_app t.target) || r.has_app t.app_name) Error.app_not_found
  login ← r.github id
  upsert id login t.user table

-- `Connect`: the new table, or an error that leaves the table alone
pub connect : Request → ℕ → Result Error Target → Table → Result Error Table
unfolding connect_target
connect r id verified table = do
  guard (r.enabled && ltb 0 id) Error.installation_invalid
  t ← verified
  connect_target r id t table

pub record Repository : Type 0 where
  pub id : ℕ
  pub full_name : List ℕ
  pub is_private : Bool
  pub default_branch : List ℕ

-- `ListRepositories` of the client: the loop over the pages, from page `n`, with the pages that
-- GitHub answers; `none` means that the fuel ran out.
pub pages_from :
    ℕ
    → ℕ
    → (ℕ → Result Error (List Repository))
    → List Repository
    → Option (Result Error (List Repository))
pages_from zero n page found = none
pages_from (suc fuel) n page found = elim (page n) [
  | err e ↦ some (err e)
  | ok items ↦
      let rest = pages_from fuel (suc n) page (found ++ items) in
      if ltb (length items) 100 then some (ok (found ++ items)) else rest
]

-- The loop of `Repository`
pub find_repository : ℕ → List Repository → Result Error Repository
find_repository id [] = err Error.repository_not_accessible
find_repository id (r ∷ rs) = if r.id == id then ok r else find_repository id rs

-- `Get` of the store, for the user of the context or for nobody in particular
abbrev pub is_visible : Option ℕ → ℕ → Table → Bool
is_visible user id [] = false
is_visible none id (r ∷ rs) = r.id == id || is_visible none id rs
is_visible (some u) id (r ∷ rs) = (r.id == id && is_user r.owner u) || is_visible (some u) id rs

-- `Repository` of the service, with the repositories that GitHub lists for an installation
pub repository :
    Request → Table → (ℕ → Result Error (List Repository)) → ℕ → ℕ → Result Error Repository
unfolding find_repository
repository r table lists id wanted = do
  guard r.enabled Error.not_configured
  guard (is_visible r.user id table) Error.installation_not_found
  items ← lists id
  find_repository wanted items
