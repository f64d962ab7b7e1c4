-- ===== src/Deploy/Stop.antt =====
-- service/deployment.go, `StopApp`: the routes of an app go, then its container.
use mini_paa_s.Common.{ℕ, Bool, true, false, not, List, [], ◌∷◌, ◌==◌, ◌&&◌, if◌then◌else◌}
use mini_paa_s.Domain.{
  AppStatus, App, DeploymentStatus, Deployment, no_deployment, step_failed, Stage,
}
use mini_paa_s.Deploy.Effects.{
  Call, request, detached, Lookup, found, missing, unavailable, Env, Service, Action, pure, raise,
  ◌>>=◌, ◌>>◌, or_else, ignore, deferred, when, gets, perform, asked,
}
pub mod Guarantees

module _ (env : Env) (svc : Service) (app : App) where
  unfoldable pub is_failed : DeploymentStatus → Bool
  is_failed DeploymentStatus.failed = true
  is_failed _ = false

  -- Without an active deployment, the newest one counts if it failed and has a container.
  unfoldable pub newest_failed : List Deployment → Deployment
  unfolding is_failed
  newest_failed [] = no_deployment
  newest_failed (d ∷ _) =
      if not (d.container_id == 0) && is_failed d.status then d else no_deployment

  unfoldable pub stoppable : Lookup Deployment → Action Deployment
  unfolding newest_failed
  stoppable (found d) = pure d
  stoppable unavailable = raise (step_failed Stage.get_active)
  stoppable missing = do
    or_else (perform env request (Call.list_by_app app.id))
        (raise (step_failed Stage.list_deployments))
    deployments ← gets env.deployments_of
    pure (newest_failed deployments)

  unfoldable pub stop_deployment : Deployment → Action (Unit {0})
  stop_deployment dep = when (not (dep.container_id == 0)) (do
    ignore (perform env request (Call.stop_container dep.container_id))
    or_else (perform env request (Call.remove_container dep.container_id))
        (raise (step_failed Stage.remove_container))
    or_else (perform env request (Call.update_status dep.id DeploymentStatus.stopped))
        (raise (step_failed Stage.mark_stopped)))

  -- What runs while the rollout lock is held.
  unfoldable pub stop_locked : Action (Unit {0})
  unfolding stoppable stop_deployment
  stop_locked = do
    or_else (perform env request (Call.remove_route app.name))
        (raise (step_failed Stage.remove_route))
    when svc.has_custom_domains (
        or_else (perform env request (Call.remove_routes app.id))
          (raise (step_failed Stage.remove_custom_routes)))
    active ← asked env request (Call.get_active app.id) (λ t. env.active t app.id)
    dep ← stoppable active
    stop_deployment dep
    or_else (perform env request (Call.update_app_status app.id AppStatus.stopped))
        (raise (step_failed Stage.mark_app_stopped))
    or_else (perform env request (Call.update_public_url app.id ""))
        (raise (step_failed Stage.clear_public_url))

  -- `StopApp`
  unfoldable pub stop_app : Action (Unit {0})
  unfolding stop_locked
  stop_app = do
    or_else (perform env request (Call.acquire_rollout app.id))
        (raise (step_failed Stage.wait_for_rollout))
    deferred stop_locked (perform env detached (Call.release_rollout app.id))
