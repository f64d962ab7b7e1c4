-- ===== src/GitSources.antt =====
-- service/git_source.go, `GitSourceService`, with store/postgres/git_source.go: the Git source that an
-- app is deployed from. The table has a row for an app at most.
use mini_paa_s.Common.{
  ℕ, Bool, true, false, ◌&&◌, ◌||◌, not, List, [], ◌∷◌, Option, none, some, ◌==◌, if◌then◌else◌,
  codes,
}
use mini_paa_s.Common.Results.{Result, ok, err, ◌>>=◌, ◌>>◌, guard, or_err}
use mini_paa_s.SourceGit.{normalize_repository, normalize_branch, normalize_relative_path}
use mini_paa_s.GitHubApp
use mini_paa_s.GitHubApp.{Repository}
pub mod Stored
pub mod Runs
pub mod AutoDeploy
mod Tests

pub data AccessMode : Type 0 where
  public github_app : AccessMode

pub record GitSource : Type 0 where
  pub app_id : ℕ
  pub repository : List ℕ
  pub branch : List ℕ
  pub build_context : List ℕ
  pub dockerfile_path : List ℕ
  pub access_mode : AccessMode
  pub installation_id : Option ℕ
  pub repository_id : Option ℕ
  pub is_private : Bool
  pub auto_deploy : Bool
  pub expected_commit_sha : List ℕ

pub data Error : Type 0 where
  app_not_found repository_invalid ref_invalid path_invalid source_not_found
        auto_deploy_requires_app not_configured store_failed :
      Error
  github : GitHubApp.Error → Error

abbrev pub is_public : AccessMode → Bool
is_public public = true
is_public github_app = false

abbrev pub Table : Type 0
Table = List GitSource

-- `Upsert`: `auto_deploy` stays as it is, unless the source is public; a new row has none.
abbrev pub merged : GitSource → Bool → GitSource
merged s auto = record s {
  auto_deploy = if is_public s.access_mode then false else auto;
  expected_commit_sha = [];
}

abbrev pub put : GitSource → Table → Table
put s [] = merged s false ∷ []
put s (r ∷ rs) =
    let rest = put s rs in if r.app_id == s.app_id then merged s r.auto_deploy ∷ rs else r ∷ rest

-- `Get`
abbrev pub get : ℕ → Table → Option GitSource
get app [] = none
get app (r ∷ rs) = if r.app_id == app then some r else get app rs

-- `Delete`
abbrev pub remove : ℕ → Table → Table
remove app [] = []
remove app (r ∷ rs) = let rest = remove app rs in if r.app_id == app then rest else r ∷ rest

-- `SetAutoDeploy`
abbrev pub set_auto : ℕ → Bool → Table → Table
set_auto app enabled [] = []
set_auto app enabled (r ∷ rs) =
    let rest = set_auto app enabled rs in
    if r.app_id == app then record r { auto_deploy = enabled } ∷ rs else r ∷ rest

-- The four normalisers, in the order of the code
pub normalized : GitSource → Result Error GitSource
normalized s = do
  repository ← or_err (normalize_repository s.repository) Error.repository_invalid
  branch ← or_err (normalize_branch s.branch) Error.ref_invalid
  build_context ← or_err (normalize_relative_path s.build_context (codes ".")) Error.path_invalid
  dockerfile_path ←
      or_err (normalize_relative_path s.dockerfile_path (codes "Dockerfile")) Error.path_invalid
  ok (record s {
    repository = repository;
    branch = branch;
    build_context = build_context;
    dockerfile_path = dockerfile_path;
  })

-- What a request meets: the app of a name, for its user, whether the store writes, and what the
-- GitHub service answers for an installation and a repository, `none` where it is not configured.
pub record Request : Type 0 where
  pub app_of : List ℕ → Result Error ℕ
  pub writes : Bool
  pub github : Option (ℕ → ℕ → Result GitHubApp.Error Repository)

pub store : Request → GitSource → Table → Result Error Table
unfolding normalized
store r source table = do s ← normalized source; guard r.writes Error.store_failed; ok (put s table)

-- `Configure`
pub configure : Request → List ℕ → GitSource → Table → Result Error Table
unfolding store
configure r name source table = do
  app ← r.app_of name
  store r
      (record source {
        app_id = app;
        access_mode = public;
        installation_id = none;
        repository_id = none;
        is_private = false;
      })
      table

abbrev pub answer_of :
    Option (ℕ → ℕ → Result GitHubApp.Error Repository) → ℕ → ℕ → Result Error Repository
answer_of none installation wanted = err Error.not_configured
answer_of (some repository) installation wanted = elim (repository installation wanted) [
  | ok found ↦ ok found
  | err e ↦ err (Error.github e)
]

abbrev pub is_configured : Option (ℕ → ℕ → Result GitHubApp.Error Repository) → Bool
is_configured none = false
is_configured (some repository) = true

abbrev pub or_branch : List ℕ → List ℕ → List ℕ
or_branch [] default = default
or_branch (c ∷ s) default = c ∷ s

-- The source that a repository of an installation gives
abbrev pub app_source : ℕ → ℕ → ℕ → List ℕ → List ℕ → List ℕ → Repository → GitSource
app_source app installation wanted branch build_context dockerfile_path found = record {
  app_id = app;
  repository = found.full_name;
  branch = or_branch branch found.default_branch;
  build_context = build_context;
  dockerfile_path = dockerfile_path;
  access_mode = github_app;
  installation_id = some installation;
  repository_id = some wanted;
  is_private = found.is_private;
  auto_deploy = false;
  expected_commit_sha = [];
}

-- `ConfigureGitHubApp`
pub configure_github_app :
    Request → List ℕ → ℕ → ℕ → List ℕ → List ℕ → List ℕ → Table → Result Error Table
unfolding store
configure_github_app r name installation wanted branch build_context dockerfile_path table = do
  guard (is_configured r.github) Error.not_configured
  app ← r.app_of name
  found ← answer_of r.github installation wanted
  store r (app_source app installation wanted branch build_context dockerfile_path found) table

-- `Delete`
pub delete : Request → List ℕ → Table → Result Error Table
delete r name table = do
  app ← r.app_of name
  s ← or_err (get app table) Error.source_not_found
  guard r.writes Error.store_failed
  ok (remove app table)

-- `SetAutoDeploy`
pub set_auto_deploy : Request → List ℕ → Bool → Table → Result Error Table
set_auto_deploy r name enabled table = do
  app ← r.app_of name
  s ← or_err (get app table) Error.source_not_found
  guard (not (enabled && is_public s.access_mode)) Error.auto_deploy_requires_app
  guard r.writes Error.store_failed
  ok (set_auto app enabled table)

-- The store's `ListAutoDeployByRepository`
abbrev pub is_repository : Option ℕ → ℕ → Bool
is_repository none wanted = false
is_repository (some id) wanted = id == wanted

pub list_auto_deploy : ℕ → Table → List GitSource
list_auto_deploy wanted [] = []
list_auto_deploy wanted (r ∷ rs) =
    let rest = list_auto_deploy wanted rs in
    if is_repository r.repository_id wanted && not (is_public r.access_mode) && r.auto_deploy
    then r ∷ rest
    else rest
