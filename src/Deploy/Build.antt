-- ===== src/Deploy/Build.antt =====
-- service/deployment.go, `runBuildWithDockerfile` up to the rollout: wait for a build slot, build
-- the image while holding it, and decrypt the environment.
use text.Mathlib.Text.{◌==◌ as str_eq}
use mini_paa_s.Common.{is_blank, Bool, ◌||◌, String, List, [], ◌∷◌, if◌then◌else◌}
use mini_paa_s.Domain.{
  App, DeploymentStatus, Deployment, external, build_timeout, step_failed, Stage,
}
use mini_paa_s.Deploy.Effects.{
  Call, request, detached, Env, Service, Action, pure, raise, ◌>>=◌, ◌>>◌, or_else, gets, perform,
  LogStage,
}
use mini_paa_s.Deploy.Steps.{event, error_event, mark_failed, finish_cancelled, check_cancelled}

module _ (env : Env) (svc : Service) (dep : Deployment) (app : App) where
  -- From the start to the build slot.
  unfoldable pub await_slot : Action (Unit {0})
  await_slot = do
    check_cancelled env svc dep.id
    event env svc dep.id LogStage.queued
    or_else (perform env request (Call.acquire_slot dep.id)) (finish_cancelled env svc dep.id)

  -- The loop of `persistBuildOutput` over the lines that the scanner yields, and whether the
  -- scanner then ends without an error. The context is that of the build.
  unfoldable pub persist_lines : List String → Bool → Action (Unit {0})
  persist_lines [] scan_ok = if scan_ok then pure tt else raise external
  persist_lines (line ∷ rest) scan_ok = do
    done ← gets (λ t. env.ctx_done t || env.build_expired t)
    if done then raise external else pure tt
    if is_blank line then pure tt else event env svc dep.id LogStage.building
    persist_lines rest scan_ok

  -- The branch that picks the build method by the Dockerfile's name.
  unfoldable pub start_build : String → Action (Unit {0})
  start_build dockerfile =
      if str_eq dockerfile "" || str_eq dockerfile "Dockerfile"
      then perform env request (Call.build_image dep.image_tag "Dockerfile")
      else if svc.has_dockerfile_builder
      then perform env request (Call.build_image dep.image_tag dockerfile)
      else raise external

  unfoldable pub build_timed_out : Action (Unit {0})
  build_timed_out = do
    event env svc dep.id LogStage.error
    mark_failed env svc detached dep.id app.id
    raise build_timeout

  unfoldable pub build_broken : Stage → Action (Unit {0})
  build_broken stage = do
    error_event env svc dep.id
    mark_failed env svc request dep.id app.id
    raise (step_failed stage)

  -- What follows an error of the build or of its log: a timeout, a cancellation or a failure.
  unfoldable pub build_failed : Stage → Action (Unit {0})
  unfolding build_timed_out build_broken
  build_failed stage = do
    late ← gets env.build_expired
    done ← gets env.ctx_done
    if late
        then build_timed_out
        else if done
        then finish_cancelled env svc dep.id
        else build_broken stage

  -- What runs while the build slot is held.
  unfoldable pub build_in_slot : String → Action (Unit {0})
  unfolding persist_lines start_build build_failed
  build_in_slot dockerfile = do
    or_else (perform env request (Call.update_status dep.id DeploymentStatus.building))
        (raise (step_failed Stage.mark_building))
    check_cancelled env svc dep.id
    event env svc dep.id LogStage.building
    or_else (start_build dockerfile) (build_failed Stage.build_image)
    lines ← gets env.build_lines
    scan_ok ← gets env.scan_ok
    or_else (persist_lines lines scan_ok) (build_failed Stage.read_build_log)

  -- A failed preparation is a cancellation if the context has ended.
  unfoldable pub prepare_failed : Action (Unit {0})
  unfolding build_broken
  prepare_failed = do
    done ← gets env.ctx_done
    if done then finish_cancelled env svc dep.id else build_broken Stage.decrypt_env

  -- From the built image to the rollout lock.
  unfoldable pub prepare : Action (Unit {0})
  unfolding prepare_failed
  prepare = do
    check_cancelled env svc dep.id
    event env svc dep.id LogStage.building
    or_else (perform env request (Call.decrypted app.id)) prepare_failed
    check_cancelled env svc dep.id
    or_else (perform env request (Call.acquire_rollout app.id)) (finish_cancelled env svc dep.id)
