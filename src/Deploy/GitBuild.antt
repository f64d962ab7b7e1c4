-- ===== src/Deploy/GitBuild.antt =====
-- service/git_source.go, `run` of GitDeploymentService: clone the source of the app and run the
-- pipeline on it.
use text.Mathlib.Text.{◌==◌ as str_eq}
use mini_paa_s.Common.{String, if◌then◌else◌}
use mini_paa_s.Domain.{App, Deployment, external, step_failed, Stage}
use mini_paa_s.Deploy.Effects.{
  Call, request, detached, Env, Service, Action, raise, ◌>>=◌, ◌>>◌, or_else, ignore, deferred,
  gets, perform, LogStage,
}
use mini_paa_s.Deploy.Steps.{event, mark_failed, finish_cancelled, check_cancelled}
use mini_paa_s.Deploy.Build.{build_broken}
use mini_paa_s.Deploy.Rollout.{run_build}
pub mod Guarantees

module _ (env : Env) (svc : Service) (dep : Deployment) (app : App) where
  -- An error of `Prepare`
  unfoldable pub clone_failed : Action (Unit {0})
  clone_failed = do
    done ← gets env.ctx_done
    if done
        then finish_cancelled env svc dep.id
        else build_broken env svc dep app Stage.prepare_source

  -- `UpdateGitMetadata` of DeploymentService
  unfoldable pub update_git_metadata : Action (Unit {0})
  update_git_metadata =
      if svc.has_git_store
      then perform env request (Call.update_git_metadata dep.id)
      else raise external

  -- An error of `UpdateGitMetadata`
  unfoldable pub metadata_failed : Action (Unit {0})
  metadata_failed = do
    done ← gets env.ctx_done
    if done
        then finish_cancelled env svc dep.id
        else mark_failed env svc request dep.id app.id >> raise (step_failed Stage.git_metadata)

  -- The commit of the prepared source is stored.
  unfoldable pub record_source : Action (Unit {0})
  unfolding update_git_metadata metadata_failed
  record_source = do
    event env svc dep.id LogStage.cloning
    or_else update_git_metadata metadata_failed

  -- What runs while the prepared source is open.
  unfoldable pub build_source : String → Action (Unit {0})
  unfolding record_source
  build_source dockerfile = do record_source; run_build env svc dep app dockerfile

  -- The clone, with the repository and the branch of the source and the branch of the request; the
  -- Dockerfile of the prepared source comes back.
  unfoldable pub fetch_source : String → String → String → Action String
  unfolding clone_failed
  fetch_source repository source_branch branch = do
    check_cancelled env svc dep.id
    event env svc dep.id LogStage.cloning
    or_else
        (perform env request
          (Call.prepare_source repository (if str_eq branch "" then source_branch else branch)))
        clone_failed
    gets env.snapshot_dockerfile

  -- `run`: the source is closed when it returns.
  unfoldable pub run_git : String → String → String → Action (Unit {0})
  unfolding fetch_source build_source
  run_git repository source_branch branch = do
    dockerfile ← fetch_source repository source_branch branch
    deferred (build_source dockerfile) (ignore (perform env detached Call.close_source))
