-- ===== src/Deploy/Rollback.antt =====
-- service/deployment.go, `Rollback`: an earlier release is started again as a candidate, and the
-- routes are switched to it before the release that is active now is stopped.
use text.Mathlib.Text.{◌==◌ as str_eq}
use mini_paa_s.Common.{ℕ, Bool, true, false, ◌&&◌, not, String, ◌==◌, if◌then◌else◌}
use mini_paa_s.Domain.{
  AppStatus, App, DeploymentStatus, Deployment, no_deployment, ContainerInfo, RunOptions, Error,
  deployment_not_found, deployment_active, deployment_not_rollbackable, app_not_found, no_image_tag,
  external, step_failed, Stage,
}
use mini_paa_s.Deploy.Effects.{
  Call, Ctx, request, detached, Lookup, found, missing, unavailable, Env, Service, Action, pure,
  raise, ◌>>=◌, ◌>>◌, or_else, ignore, deferred, when, gets, perform, asked, LogStage,
}
use mini_paa_s.Deploy.Steps.{event, switch_route, cleanup_container, cleanup_candidate}
pub mod Launch
pub mod Publish
pub mod Endings
pub mod Guarantees

module _ (env : Env) (svc : Service) where
  unfoldable pub app_of : Lookup App → Action App
  app_of (found app) = pure app
  app_of missing = raise app_not_found
  app_of unavailable = raise external

  -- `apps.GetByName`
  unfoldable pub find_app : String → Action App
  unfolding app_of
  find_app name = do
    row ← asked env request (Call.get_app_by_name name) (λ t. env.app_by_name t name)
    app_of row

  unfoldable pub deployment_of : Lookup Deployment → Action Deployment
  deployment_of (found d) = pure d
  deployment_of missing = raise deployment_not_found
  deployment_of unavailable = raise external

  -- `deps.GetByID`
  unfoldable pub find_deployment : Ctx → ℕ → Action Deployment
  unfolding deployment_of
  find_deployment ctx id = do
    row ← asked env ctx (Call.get_by_id id) (λ t. env.deployment t id)
    deployment_of row

  unfoldable pub is_rollbackable : DeploymentStatus → Bool
  is_rollbackable DeploymentStatus.superseded = true
  is_rollbackable DeploymentStatus.rolled_back = true
  is_rollbackable DeploymentStatus.stopped = true
  is_rollbackable _ = false

  -- The three refusals of a target.
  unfoldable pub check_target : App → Deployment → Action (Unit {0})
  unfolding is_rollbackable
  check_target app target =
      if not (target.app_id == app.id)
      then raise deployment_not_found
      else if str_eq target.image_tag ""
      then raise no_image_tag
      else if is_rollbackable target.status
      then pure tt
      else raise deployment_not_rollbackable

  module _ (app : App) (target : Deployment) where
    unfoldable pub current_of : Lookup Deployment → Action Deployment
    current_of (found current) =
        if current.id == target.id then raise deployment_active else pure current
    current_of missing = pure no_deployment
    current_of unavailable = raise (step_failed Stage.get_active)

    -- The release that is active now, which must not be the target.
    unfoldable pub find_current : Action Deployment
    unfolding current_of
    find_current = do
      active ← asked env request (Call.get_active app.id) (λ t. env.active t app.id)
      current_of active

    unfoldable pub candidate_options : RunOptions
    candidate_options = record {
      image = target.image_tag;
      fresh = true;
      restart_policy = svc.restart_policy;
      restart_max_retries = svc.restart_max_retries;
      limits = svc.runtime_limits;
      label_app = app.name;
      label_deployment = target.id;
    }

    -- With no release before, the app counts as failed.
    unfoldable pub note_failed : Deployment → Action (Unit {0})
    note_failed previous =
        when (previous.container_id == 0)
          (ignore (perform env detached (Call.update_app_status app.id AppStatus.failed)))

    unfoldable pub start_refused : {A : Type 0} → Deployment → Action A
    unfolding note_failed
    start_refused previous = do note_failed previous; raise (step_failed Stage.run_container)

    unfoldable pub store_refused : ContainerInfo → Action (Unit {0})
    store_refused info = do
      ignore (cleanup_container env svc detached info.id)
      raise (step_failed Stage.persist_candidate)

    -- Start the container of the target and store which it is.
    unfoldable pub start_target : Deployment → Action ContainerInfo
    unfolding start_refused store_refused candidate_options
    start_target previous = do
      info ← gets env.container
      or_else (perform env request (Call.run_container candidate_options info))
          (start_refused previous)
      when svc.has_candidate_store (
          or_else (perform env request (Call.update_candidate target.id info)) (store_refused info))
      pure info

    -- `restorePrevious`
    unfoldable pub restore_previous : Deployment → Action (Unit {0})
    restore_previous previous =
        if previous.container_id == 0
        then ignore (perform env detached (Call.remove_route app.name))
          >> when svc.has_custom_domains (ignore (perform env detached (Call.remove_routes app.id)))
        else ignore (switch_route env svc detached app.name previous.port)
          >> when svc.has_custom_domains
              (ignore (perform env detached (Call.sync_routes app.id previous.port)))

    -- The candidate goes before the routes were touched.
    unfoldable pub drop_target : {A : Type 0} → Stage → Deployment → ContainerInfo → Action A
    unfolding note_failed
    drop_target stage previous info = do
      cleanup_candidate env svc target.id info.id
      note_failed previous
      raise (step_failed stage)

    unfoldable pub target_cancelled : ContainerInfo → Action (Unit {0})
    target_cancelled info = do
      cleanup_candidate env svc target.id info.id
      raise (step_failed Stage.candidate_cancelled)

    unfoldable pub await_target : Deployment → ContainerInfo → Action (Unit {0})
    unfolding drop_target target_cancelled
    await_target previous info = do
      when svc.has_readiness (
          or_else (perform env request (Call.wait_ready info))
            (drop_target Stage.readiness previous info))
      done ← gets env.ctx_done
      when done (target_cancelled info)

    -- The routes go back to the previous release, then the candidate goes.
    unfoldable pub revert : Stage → Deployment → ContainerInfo → Action (Unit {0})
    unfolding restore_previous
    revert stage previous info = do
      restore_previous previous
      cleanup_candidate env svc target.id info.id
      raise (step_failed stage)

    unfoldable pub publish_target : Deployment → ContainerInfo → Action String
    unfolding drop_target revert
    publish_target previous info = do
      url ←
          or_else (switch_route env svc request app.name info.port)
            (drop_target Stage.switch_route previous info)
      when svc.has_custom_domains (
          or_else (perform env request (Call.sync_routes app.id info.port))
            (revert Stage.sync_custom_domains previous info))
      done ← gets env.ctx_done
      when done (revert Stage.publish_cancelled previous info)
      pure url

    unfoldable pub promote_target : Deployment → ContainerInfo → Action (Unit {0})
    unfolding revert
    promote_target previous info =
        or_else
          (perform env request (
            if svc.has_candidate_store
            then Call.promote_candidate target.id info target.image_tag
            else Call.update_running target.id info target.image_tag))
          (revert Stage.promote_candidate previous info)

    -- After the commit nothing fails but the last read.
    unfoldable pub finish_rollback : Deployment → String → Action Deployment
    unfolding find_deployment
    finish_rollback previous url = do
      ignore (perform env request (Call.update_app_status app.id AppStatus.running))
      ignore (perform env request (Call.update_public_url app.id url))
      when (not (previous.container_id == 0) && not (previous.id == target.id)) (do
        event env svc target.id LogStage.cleanup
        ignore (perform env request (Call.stop_container previous.container_id))
        ignore (perform env request (Call.remove_container previous.container_id))
        ignore (perform env request (Call.update_status previous.id DeploymentStatus.rolled_back)))
      ignore (perform env request (Call.record_rollback app.id previous.id target.id))
      find_deployment request target.id

    -- What runs while the rollout lock is held.
    unfoldable pub swap_back : Action Deployment
    unfolding find_current start_target await_target publish_target promote_target finish_rollback
    swap_back = do
      previous ← find_current
      info ← start_target previous
      await_target previous info
      url ← publish_target previous info
      promote_target previous info
      finish_rollback previous url

  -- From the target to the rollout lock
  unfoldable pub reach_swap : App → Deployment → Action (Unit {0})
  unfolding check_target
  reach_swap app target = do
    check_target app target
    or_else (perform env request (Call.decrypted app.id)) (raise (step_failed Stage.decrypt_env))
    or_else (perform env request (Call.acquire_rollout app.id))
        (raise (step_failed Stage.wait_for_rollout))

  -- The part of `Rollback` after the app and the target were found.
  unfoldable pub rollback_to : App → Deployment → Action Deployment
  unfolding reach_swap swap_back
  rollback_to app target = do
    reach_swap app target
    deferred (swap_back app target) (perform env detached (Call.release_rollout app.id))

  -- `Rollback`
  unfoldable pub rollback : String → ℕ → Action Deployment
  unfolding find_app find_deployment rollback_to
  rollback name target_id = do
    app ← find_app name
    target ← find_deployment request target_id
    rollback_to app target
