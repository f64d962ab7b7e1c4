-- ===== src/Deploy/Recovery.antt =====
-- service/deployment.go, `RecoverCandidates`: the candidates that an earlier process left behind
-- are removed when the server starts, after the routes were sent back to the active releases.
use mini_paa_s.Common.{ℕ, Bool, true, false, not, List, [], ◌∷◌, ◌==◌, if◌then◌else◌}
use mini_paa_s.Domain.{App, DeploymentStatus, Deployment, external}
use mini_paa_s.Deploy.Effects.{
  Call, request, Lookup, found, missing, unavailable, Env, Service, Action, pure, ◌>>=◌, ◌>>◌,
  ignore, when, gets, perform, asked, LogStage,
}
use mini_paa_s.Deploy.Steps.{event, switch_route, cleanup_container}
pub mod Guarantees

module _ (env : Env) (svc : Service) where
  unfoldable pub remove_orphan_route : Lookup App → Action (Unit {0})
  remove_orphan_route (found app) = ignore (perform env request (Call.remove_route app.name))
  remove_orphan_route missing = pure tt
  remove_orphan_route unavailable = pure tt

  -- The routes of a candidate's app, by what the two lookups answered.
  unfoldable pub reroute : Deployment → Lookup Deployment → Lookup App → Action (Unit {0})
  unfolding remove_orphan_route
  reroute candidate (found previous) (found app) =
      if previous.container_id == 0
      then remove_orphan_route (found app)
      else ignore (switch_route env svc request app.name previous.port)
        >> when svc.has_custom_domains
            (ignore (perform env request (Call.sync_routes candidate.app_id previous.port)))
  reroute candidate _ app = remove_orphan_route app

  -- One round of the loop.
  unfoldable pub recover_one : Deployment → Action (Unit {0})
  unfolding reroute
  recover_one candidate = do
    previous ←
        asked env request (Call.get_active candidate.app_id) (λ t. env.active t candidate.app_id)
    app ←
        asked env request (Call.get_app_by_id candidate.app_id)
          (λ t. env.app_by_id t candidate.app_id)
    reroute candidate previous app
    ignore (cleanup_container env svc request candidate.candidate_container_id)
    ignore (perform env request (Call.clear_candidate candidate.id))
    ignore (perform env request (Call.update_status candidate.id DeploymentStatus.failed))
    event env svc candidate.id LogStage.cleanup

  unfoldable pub recover_loop : List Deployment → Action (Unit {0})
  unfolding recover_one
  recover_loop [] = pure tt
  recover_loop (candidate ∷ rest) = do recover_one candidate; recover_loop rest

  -- `RecoverCandidates`
  unfoldable pub recover_candidates : Action (Unit {0})
  unfolding recover_loop
  recover_candidates =
      when svc.has_candidate_store (do
        perform env request Call.list_candidates
        items ← gets env.candidates
        recover_loop items)
