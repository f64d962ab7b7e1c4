-- ===== src/Deploy/Steps.antt =====
-- service/deployment.go: the helpers that the pipeline, the rollback and the recovery share.
use text.Mathlib.Text.{◌==◌ as str_eq}
use mini_paa_s.Common.{
  ℕ, Bool, true, false, ◌&&◌, ◌||◌, not, String, List, [], ◌∷◌, ◌==◌, if◌then◌else◌,
}
use mini_paa_s.Domain.{AppStatus, App, DeploymentStatus, Deployment, deployment_cancelled}
use mini_paa_s.Deploy.Effects.{
  Call, Ctx, request, detached, Lookup, found, missing, unavailable, Env, Service, Action, pure,
  raise, ◌>>=◌, ◌>>◌, ignore, joined, when, gets, perform, asked, LogStage,
}

-- Whether a tag was seen.
unfoldable pub contains : List String → String → Bool
contains [] tag = false
contains (x ∷ xs) tag = str_eq x tag || contains xs tag

module _ (env : Env) (svc : Service) where
  -- `event` with a message that is not blank
  unfoldable pub event : ℕ → LogStage → Action (Unit {0})
  event dep stage = when svc.has_logs (ignore (perform env detached (Call.append_log dep stage)))

  -- `event` with the text of an error
  unfoldable pub error_event : ℕ → Action (Unit {0})
  error_event dep = do
    blank ← gets env.blank_error
    when (svc.has_logs && not blank)
        (ignore (perform env detached (Call.append_log dep LogStage.error)))

  unfoldable pub status_after : {A : Type 0} → Lookup A → AppStatus
  status_after (found _) = AppStatus.running
  status_after missing = AppStatus.failed
  status_after unavailable = AppStatus.failed

  -- `markFailed`: the app counts as running while an older deployment of it is active.
  unfoldable pub mark_failed : Ctx → ℕ → ℕ → Action (Unit {0})
  unfolding status_after
  mark_failed ctx dep app = do
    ignore (perform env ctx (Call.update_status dep DeploymentStatus.failed))
    active ← asked env ctx (Call.get_active app) (λ t. env.active t app)
    ignore (perform env ctx (Call.update_app_status app (status_after active)))

  unfoldable pub record_cancelled : ℕ → Action (Unit {0})
  record_cancelled dep = ignore (
      perform env detached (
        if svc.has_canceller
        then Call.mark_cancelled dep
        else Call.update_status dep DeploymentStatus.cancelled))

  -- `finishCancelled`
  unfoldable pub finish_cancelled : {A : Type 0} → ℕ → Action A
  unfolding record_cancelled event
  finish_cancelled dep = do
    record_cancelled dep
    event dep LogStage.cleanup
    raise deployment_cancelled

  unfoldable pub wants_cancel : Lookup Deployment → Bool
  wants_cancel (found d) = d.cancel_requested
  wants_cancel missing = false
  wants_cancel unavailable = false

  -- The rest of `checkCancelled` where the context is alive: a request that another goroutine
  -- has stored counts too.
  unfoldable pub check_stored : ℕ → Action (Unit {0})
  unfolding wants_cancel
  check_stored dep = do
    current ← asked env detached (Call.get_by_id dep) (λ t. env.deployment t dep)
    if wants_cancel current then finish_cancelled dep else pure tt

  -- `checkCancelled`
  unfoldable pub check_cancelled : ℕ → Action (Unit {0})
  unfolding check_stored
  check_cancelled dep = do
    done ← gets env.ctx_done
    if done then finish_cancelled dep else check_stored dep

  -- `switchRoute`
  unfoldable pub switch_route : Ctx → String → ℕ → Action String
  switch_route ctx name port = do
    perform env ctx
        (if svc.has_atomic_router then Call.switch_route name port else Call.upsert_route name port)
    gets env.public_url

  -- `cleanupCandidate`
  unfoldable pub cleanup_container : Ctx → ℕ → Action (Unit {0})
  cleanup_container ctx id =
      if id == 0
      then pure tt
      else joined (perform env ctx (Call.stop_container id))
          (perform env ctx (Call.remove_container id))

  -- The closure `cleanupCandidate` of the pipeline and of the rollback; its errors are logged.
  unfoldable pub cleanup_candidate : ℕ → ℕ → Action (Unit {0})
  unfolding cleanup_container
  cleanup_candidate dep id = do
    ignore (cleanup_container detached id)
    when svc.has_candidate_store (ignore (perform env detached (Call.clear_candidate dep)))

  -- What the pipeline does to the routes when it gives up after the switch: back to the previous
  -- release, or no route where there was none.
  unfoldable pub restore_route : App → Deployment → Action (Unit {0})
  unfolding switch_route
  restore_route app previous =
      if previous.container_id == 0
      then ignore (perform env detached (Call.remove_route app.name))
      else ignore (switch_route detached app.name previous.port)
        >> when svc.has_custom_domains
            (ignore (perform env detached (Call.sync_routes app.id previous.port)))

  -- The images that are pruned, each once: the loop of `pruneImages`, with the tags seen so far.
  unfoldable pub prune_loop : List Deployment → List String → Action (Unit {0})
  unfolding contains
  prune_loop [] seen = pure tt
  prune_loop (d ∷ rest) seen = elim (str_eq d.image_tag "" || contains seen d.image_tag) [
    | true ↦ prune_loop rest seen
    | false ↦
        ignore (perform env request (Call.remove_image d.image_tag))
        >> prune_loop rest (d.image_tag ∷ seen)
  ]

  -- `pruneImages`
  unfoldable pub prune_images : ℕ → Action (Unit {0})
  unfolding prune_loop
  prune_images app =
      ignore (do
        perform env request (Call.list_retention app)
        old ← gets env.retained
        prune_loop old [])
