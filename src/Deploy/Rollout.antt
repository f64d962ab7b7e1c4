-- ===== src/Deploy/Rollout.antt =====
-- service/deployment.go, the part of `runBuildWithDockerfile` that holds the rollout lock: start
-- the candidate, wait until it is ready, switch the routes, promote it and retire the previous
-- release.
use mini_paa_s.Common.{false, ◌&&◌, not, String, ◌==◌, if◌then◌else◌}
use mini_paa_s.Domain.{
  AppStatus, App, DeploymentStatus, Deployment, no_deployment, ContainerInfo, RunOptions,
  deployment_cancelled, step_failed, Stage,
}
use mini_paa_s.Deploy.Effects.{
  Call, request, detached, Lookup, found, missing, unavailable, Env, Service, Action, pure, raise,
  ◌>>=◌, ◌>>◌, or_else, ignore, deferred, when, gets, perform, asked, LogStage,
}
use mini_paa_s.Deploy.Steps.{
  event, error_event, mark_failed, finish_cancelled, check_cancelled, switch_route,
  cleanup_container, cleanup_candidate, restore_route, prune_images,
}
use mini_paa_s.Deploy.Build.{await_slot, build_in_slot, prepare}

module _ (env : Env) (svc : Service) (dep : Deployment) (app : App) where
  -- What every failed step of the rollout ends with.
  unfoldable pub fail_step : {A : Type 0} → Stage → Action A
  fail_step stage = do mark_failed env svc request dep.id app.id; raise (step_failed stage)

  unfoldable pub previous_of : Lookup Deployment → Action Deployment
  unfolding fail_step
  previous_of (found p) = pure p
  previous_of missing = pure no_deployment
  previous_of unavailable = fail_step Stage.get_active

  -- The active deployment, or the zero value where there is none.
  unfoldable pub find_previous : Action Deployment
  unfolding previous_of
  find_previous = do
    active ← asked env request (Call.get_active app.id) (λ t. env.active t app.id)
    previous ← previous_of active
    check_cancelled env svc dep.id
    event env svc dep.id LogStage.starting
    pure previous

  unfoldable pub run_options : RunOptions
  run_options = record {
    image = dep.image_tag;
    fresh = false;
    restart_policy = svc.restart_policy;
    restart_max_retries = svc.restart_max_retries;
    limits = svc.runtime_limits;
    label_app = app.name;
    label_deployment = dep.id;
  }

  unfoldable pub start_failed : {A : Type 0} → Action A
  unfolding fail_step
  start_failed = do
    done ← gets env.ctx_done
    if done
        then finish_cancelled env svc dep.id
        else error_event env svc dep.id >> fail_step Stage.run_container

  unfoldable pub persist_failed : ContainerInfo → Action (Unit {0})
  unfolding fail_step
  persist_failed info = do
    ignore (cleanup_container env svc detached info.id)
    fail_step Stage.persist_candidate

  -- Start the candidate container and store which it is.
  unfoldable pub start_candidate : Action ContainerInfo
  unfolding start_failed persist_failed run_options
  start_candidate = do
    info ← gets env.container
    or_else (perform env request (Call.run_container run_options info)) start_failed
    when svc.has_candidate_store
        (or_else (perform env request (Call.update_candidate dep.id info)) (persist_failed info))
    pure info

  -- The candidate goes, and the request ends as cancelled.
  unfoldable pub abandon : {A : Type 0} → ContainerInfo → Action A
  abandon info = do cleanup_candidate env svc dep.id info.id; finish_cancelled env svc dep.id

  -- The candidate goes, and the step is reported as failed.
  unfoldable pub give_up : {A : Type 0} → Stage → ContainerInfo → Action A
  unfolding fail_step
  give_up stage info = do
    cleanup_candidate env svc dep.id info.id
    event env svc dep.id LogStage.error
    fail_step stage

  -- A failure is a cancellation if the context has ended.
  unfoldable pub not_ready : ContainerInfo → Action (Unit {0})
  unfolding abandon give_up
  not_ready info = do
    done ← gets env.ctx_done
    if done then abandon info else give_up Stage.readiness info

  unfoldable pub await_ready : ContainerInfo → Action (Unit {0})
  unfolding not_ready abandon
  await_ready info = do
    event env svc dep.id LogStage.health_check
    when svc.has_readiness (or_else (perform env request (Call.wait_ready info)) (not_ready info))
    done ← gets env.ctx_done
    when done (abandon info)
    event env svc dep.id LogStage.publishing

  unfoldable pub switch_failed : {A : Type 0} → ContainerInfo → Action A
  unfolding abandon give_up
  switch_failed info = do
    done ← gets env.ctx_done
    if done then abandon info else give_up Stage.switch_route info

  unfoldable pub sync_failed : Deployment → ContainerInfo → Action (Unit {0})
  unfolding give_up
  sync_failed previous info = do
    restore_route env svc app previous
    give_up Stage.sync_custom_domains info

  unfoldable pub withdraw : Deployment → ContainerInfo → Action (Unit {0})
  withdraw previous info = do
    restore_route env svc app previous
    cleanup_candidate env svc dep.id info.id
    raise deployment_cancelled

  -- Point the routes at the candidate; a later failure points them back.
  unfoldable pub publish : Deployment → ContainerInfo → Action String
  unfolding switch_failed sync_failed withdraw
  publish previous info = do
    url ← or_else (switch_route env svc request app.name info.port) (switch_failed info)
    when svc.has_custom_domains (
        or_else (perform env request (Call.sync_routes app.id info.port))
          (sync_failed previous info))
    or_else (check_cancelled env svc dep.id) (withdraw previous info)
    pure url

  unfoldable pub promote_failed : Deployment → ContainerInfo → Action (Unit {0})
  unfolding abandon fail_step
  promote_failed previous info = do
    done ← gets env.ctx_done
    restore_route env svc app previous
    if done
        then abandon info
        else cleanup_candidate env svc dep.id info.id
          >> (error_event env svc dep.id >> fail_step Stage.mark_running)

  -- Commit the candidate as the running release.
  unfoldable pub promote : Deployment → ContainerInfo → Action (Unit {0})
  unfolding promote_failed
  promote previous info =
      or_else
        (perform env request (
          if svc.has_candidate_store
          then Call.promote_candidate dep.id info dep.image_tag
          else Call.update_running dep.id info dep.image_tag))
        (promote_failed previous info)

  -- Stop the release that was replaced. Nothing here fails the deployment any more.
  unfoldable pub retire : Deployment → String → Action (Unit {0})
  retire previous url = do
    ignore (perform env request (Call.update_app_status app.id AppStatus.running))
    ignore (perform env request (Call.update_public_url app.id url))
    when (not (previous.container_id == 0) && not (previous.id == dep.id)) (do
      event env svc dep.id LogStage.cleanup
      ignore (perform env request (Call.stop_container previous.container_id))
      ignore (perform env request (Call.remove_container previous.container_id))
      ignore (perform env request (Call.update_status previous.id DeploymentStatus.superseded)))
    prune_images env svc app.id
    event env svc dep.id LogStage.cleanup

  -- What runs while the rollout lock is held.
  unfoldable pub roll_out : Action (Unit {0})
  unfolding find_previous start_candidate await_ready publish promote retire
  roll_out = do
    previous ← find_previous
    info ← start_candidate
    await_ready info
    url ← publish previous info
    promote previous info
    retire previous url

  -- `runBuildWithDockerfile` up to the rollout lock. The build slot is released as soon as the
  -- image is built, and by `defer` on every other way out; the deferred second call finds it
  -- released.
  unfoldable pub reach_rollout : String → Action (Unit {0})
  reach_rollout dockerfile = do
    await_slot env svc dep app
    deferred (build_in_slot env svc dep app dockerfile)
        (perform env detached (Call.release_slot dep.id))
    prepare env svc dep app

  -- `runBuildWithDockerfile`
  unfoldable pub run_build : String → Action (Unit {0})
  unfolding reach_rollout roll_out
  run_build dockerfile = do
    reach_rollout dockerfile
    deferred roll_out (perform env detached (Call.release_rollout app.id))
