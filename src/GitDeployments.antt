-- ===== src/GitDeployments.antt =====
-- service/git_source.go, Create, CreateTriggered and Retry, with the creations of
-- service/deployment.go and store/postgres/deployment.go: the deployments that are asked for, and
-- which of them repeat others.
use mini_paa_s.Common.{
  ℕ, suc, ◌%◌, ◌^◌, Bool, true, false, ◌||◌, not, List, [], ◌∷◌, Option, none, some, leb, ltb, ◌==◌,
  if◌then◌else◌, find_by,
}
use mini_paa_s.Common.Results.{Result, ok, err, ◌>>=◌, ◌>>◌, guard, or_err}
use mini_paa_s.Domain.{DeploymentStatus}
use mini_paa_s.SourceGit.{normalize_branch}
use mini_paa_s.GitSources.{GitSource, get, or_branch, Table as Sources}
pub mod Origins
pub mod Attempts
mod Tests

pub data Error : Type 0 where
  app_not_found source_not_found deployment_not_found ref_invalid : Error
  retry_unavailable not_retryable store_failed : Error

-- A row of `deployments`, with the columns that tell where it comes from
pub record Row : Type 0 where
  pub id : ℕ
  pub app : ℕ
  pub is_git : Bool
  pub status : DeploymentStatus
  pub repository : List ℕ
  pub branch : List ℕ
  pub delivery : Option ℕ
  -- the bits of an `int32`
  pub attempt : ℕ
  pub retry_of : Option ℕ

pub find : ℕ → List Row → Option Row
find id t = find_by (λ r. r.id == id) t

pub has_id : ℕ → List Row → Bool
has_id id [] = false
has_id id (r ∷ rs) = r.id == id || has_id id rs

-- An insert; `stored` is the id that the database gives, where it answers.
pub insert : Option ℕ → (ℕ → Row) → List Row → Result Error (List Row)
unfolding has_id
insert stored row t = do
  id ← or_err stored Error.store_failed
  guard (not (has_id id t)) Error.store_failed
  ok (row id ∷ t)

-- `Create`, `CreateGit` and `CreateGitTriggered` of the store
abbrev pub upload_row : ℕ → ℕ → Row
upload_row app id = record {
  id = id;
  app = app;
  is_git = false;
  status = DeploymentStatus.pending;
  repository = [];
  branch = [];
  delivery = none;
  attempt = 1;
  retry_of = none;
}

abbrev pub git_row : ℕ → List ℕ → List ℕ → Option ℕ → ℕ → Row
git_row app repository branch delivery id = record (upload_row app id) {
  is_git = true;
  repository = repository;
  branch = branch;
  delivery = delivery;
}

-- The attempt after one, as `Retry` counts it and the store keeps it
abbrev pub next_attempt : ℕ → ℕ
next_attempt attempt =
    if leb (2 ^ 31) attempt then 2 else (if ltb (suc attempt) 2 then 2 else suc attempt % 2 ^ 32)

abbrev pub is_retryable : DeploymentStatus → Bool
is_retryable DeploymentStatus.failed = true
is_retryable DeploymentStatus.cancelled = true
is_retryable _ = false

-- `CreateGitRetry` of the store
abbrev pub retry_row : ℕ → List ℕ → List ℕ → Row → ℕ → Row
retry_row app repository branch target id = record (git_row app repository branch none id) {
  attempt = next_attempt target.attempt;
  retry_of = some target.id;
}

-- `Create` of DeploymentService; `app` is what the look-up of the app by its name answers.
pub create_upload : Option ℕ → Option ℕ → List Row → Result Error (List Row)
unfolding insert
create_upload app stored t = do id ← or_err app Error.app_not_found; insert stored (upload_row id) t

-- `Create` of GitDeploymentService
pub create_git : Option ℕ → Sources → List ℕ → Option ℕ → List Row → Result Error (List Row)
unfolding insert
create_git app sources branch stored t = do
  id ← or_err app Error.app_not_found
  source ← or_err (get id sources) Error.source_not_found
  chosen ← or_err (normalize_branch (or_branch branch source.branch)) Error.ref_invalid
  insert stored (git_row id source.repository chosen none) t

-- `CreateTriggered`, with the source that the webhook has listed
pub create_triggered :
    Option ℕ → GitSource → List ℕ → ℕ → Option ℕ → List Row → Result Error (List Row)
unfolding insert
create_triggered app source branch delivery stored t = do
  chosen ← or_err (normalize_branch (or_branch branch source.branch)) Error.ref_invalid
  id ← or_err app Error.app_not_found
  insert stored (git_row id source.repository chosen (some delivery)) t

-- `Retry`
pub retry : Option ℕ → ℕ → Sources → Option ℕ → List Row → Result Error (List Row)
unfolding insert find
retry app target_id sources stored t = do
  id ← or_err app Error.app_not_found
  target ← or_err (find target_id t) Error.deployment_not_found
  guard (target.app == id) Error.deployment_not_found
  guard target.is_git Error.retry_unavailable
  guard (is_retryable target.status) Error.not_retryable
  source ← or_err (get id sources) Error.source_not_found
  insert stored (retry_row id source.repository (or_branch target.branch source.branch) target) t

-- `UpdateStatus` of the store
pub update_status : ℕ → DeploymentStatus → List Row → List Row
update_status id status [] = []
update_status id status (r ∷ rs) =
    let rest = update_status id status rs in
    (if r.id == id then record r { status = status } else r) ∷ rest

-- Requests, with what the stores answer; the sources may have changed in between.
pub data Op : Type 0 where
  uploads : Option ℕ → Option ℕ → Op
  creates : Option ℕ → Sources → List ℕ → Option ℕ → Op
  triggers : Option ℕ → GitSource → List ℕ → ℕ → Option ℕ → Op
  retries : Option ℕ → ℕ → Sources → Option ℕ → Op
  updates : ℕ → DeploymentStatus → Op

abbrev pub after : List Row → Result Error (List Row) → List Row
after t (ok t') = t'
after t (err e) = t

pub serve : Op → List Row → List Row
unfolding create_upload create_git create_triggered retry update_status
serve (uploads app stored) t = after t (create_upload app stored t)
serve (creates app sources branch stored) t = after t (create_git app sources branch stored t)
serve (triggers app source branch delivery stored) t =
    after t (create_triggered app source branch delivery stored t)
serve (retries app target sources stored) t = after t (retry app target sources stored t)
serve (updates id status) t = update_status id status t

pub run : List Op → List Row → List Row
unfolding serve
run [] t = t
run (op ∷ ops) t = run ops (serve op t)
