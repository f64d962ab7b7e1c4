-- ===== src/Deploy/RollbackTests.antt =====
-- A rollback, a stop and a recovery over concrete dependencies, and their guarantees at them.
use mini_paa_s.Common.{ℕ, ◌≡◌, refl, true, false, [], ◌∷◌, ◌⊎◌, inl, some, none, Bool}
use mini_paa_s.Domain.{DeploymentStatus, Deployment, no_deployment, Stage, step_failed}
use mini_paa_s.Deploy.Effects.{
  Call, Ctx, Trace, Env, found, ok, err, pure, raise, gets, ◌>>=◌, or_else, ignore, deferred,
  joined, perform, asked, request,
}
use mini_paa_s.Deploy.Steps.{event, switch_route, cleanup_container, cleanup_candidate}
use mini_paa_s.Deploy.Rollback.{
  app_of, find_app, deployment_of, find_deployment, is_rollbackable, check_target, current_of,
  find_current, candidate_options, start_target, restore_previous, await_target, revert,
  publish_target, promote_target, finish_rollback, swap_back, reach_swap, rollback_to, rollback,
}
use mini_paa_s.Deploy.Rollback.Launch.{RouteBack, CustomBack}
use mini_paa_s.Deploy.Rollback.Guarantees.{
  found_app, WasActive, view, answer, rollback_success, rollback_failure,
}
use mini_paa_s.Deploy.Stop.{stop_app, stop_locked, stoppable, stop_deployment}
use mini_paa_s.Deploy.Stop.Guarantees.{
  view as stop_view, answer as stop_answer, stop_removes_route_first, stop_unroutes,
}
use mini_paa_s.Deploy.Recovery.{recover_loop}
use mini_paa_s.Deploy.Recovery.Guarantees.{recovery_settles}
use mini_paa_s.Deploy.View.{targets, removed, observe}
use mini_paa_s.Deploy.Tests.{shop, healthy, full_service}

-- The release 5 was superseded by the release 1 that is active.
abbrev superseded_release : Deployment
superseded_release = record no_deployment {
  id = 5;
  app_id = 7;
  image_tag = "shop:0";
  status = DeploymentStatus.superseded;
}

abbrev store_of : (Trace → Ctx → Call → Bool) → Env
store_of succeeds = record (healthy succeeds) {
  deployment = λ t id. found (record superseded_release { id = id });
}

store_by_id :
    (succeeds : Trace → Ctx → Call → Bool) (t : Trace) (d : Deployment)
    → (store_of succeeds).deployment t 5 ≡ found d
    → d.id ≡ 5
store_by_id succeeds t d e = cc

abbrev answers : Trace → Ctx → Call → Bool
answers t ctx c = true

abbrev no_promotion : Trace → Ctx → Call → Bool
no_promotion t ctx (Call.promote_candidate dep info tag) = false
no_promotion t ctx c = true

rolled_back :
    answer (store_of answers) full_service "shop" 5 (store_by_id answers) ≡ ok superseded_release
unfolding pure raise gets ◌>>=◌ or_else ignore deferred joined perform asked event switch_route
    cleanup_container cleanup_candidate app_of find_app deployment_of find_deployment
    is_rollbackable check_target current_of find_current candidate_options start_target
    restore_previous await_target revert publish_target promote_target finish_rollback swap_back
    reach_swap rollback_to rollback
rolled_back = refl

not_rolled_back :
    answer (store_of no_promotion) full_service "shop" 5 (store_by_id no_promotion)
    ≡ err (step_failed Stage.promote_candidate)
unfolding pure raise gets ◌>>=◌ or_else ignore deferred joined perform asked event switch_route
    cleanup_container cleanup_candidate app_of find_app deployment_of find_deployment
    is_rollbackable check_target current_of find_current candidate_options start_target
    restore_previous await_target revert publish_target promote_target finish_rollback swap_back
    reach_swap rollback_to rollback
not_rolled_back = refl

rollback_success_example :
    let v = view (store_of answers) full_service "shop" 5 (store_by_id answers) in
    (v.committed ≡ true)
    × (v.verdict ≡ some DeploymentStatus.running)
    × (v.restore_failed ≡ false)
    × ((port : ℕ) × (v.route
          ≡ targets (found_app (store_of answers) full_service "shop").name port))
rollback_success_example =
    rollback_success (store_of answers) full_service "shop" 5 (store_by_id answers)
      superseded_release rolled_back

rollback_failure_example :
    let v = view (store_of no_promotion) full_service "shop" 5 (store_by_id no_promotion) in
    ((v.committed ≡ true)
      × (v.verdict ≡ some DeploymentStatus.running)
      × (v.restore_failed ≡ false)
      × ((port : ℕ) × (v.route
            ≡ targets (found_app (store_of no_promotion) full_service "shop").name port)))
    ⊎ ((v.committed ≡ false)
        × (v.verdict ≡ none)
        × RouteBack
            (WasActive (store_of no_promotion) full_service "shop" 5)
            full_service
            (found_app (store_of no_promotion) full_service "shop")
            v.route
            v.restore_failed
        × CustomBack
            (WasActive (store_of no_promotion) full_service "shop" 5)
            (found_app (store_of no_promotion) full_service "shop")
            v.custom)
rollback_failure_example =
    rollback_failure (store_of no_promotion) full_service "shop" 5 (store_by_id no_promotion)
      (step_failed Stage.promote_candidate) not_rolled_back

stopped : stop_answer (healthy answers) full_service shop 1 ≡ ok tt
unfolding pure raise gets ◌>>=◌ or_else ignore deferred perform asked stop_app stop_locked stoppable
    stop_deployment
stopped = refl

stop_removes_route_first_example :
    let v = stop_view (healthy answers) full_service shop 1 in
    (v.rollouts ≡ 0) × ((v.safe ≡ true) ⊎ (v.route ≡ removed shop.name))
stop_removes_route_first_example = stop_removes_route_first (healthy answers) full_service shop 1

stop_unroutes_example :
    let v = stop_view (healthy answers) full_service shop 1 in
    (v.route ≡ removed shop.name) × ((true ≡ false) ⊎ (v.custom ≡ removed shop.id))
stop_unroutes_example = stop_unroutes (healthy answers) full_service shop 1 stopped

abbrev orphan : Deployment
orphan = record no_deployment { id = 9; app_id = 7; candidate_container_id = 90 }

-- An earlier process started the candidate 90 and was killed.
abbrev left_behind : Trace
left_behind =
    record {
      call =
          Call.run_container (candidate_options (healthy answers) full_service shop orphan)
            (record { id = 90; port = 3009 });
      ctx = request;
      done = true;
    }
    ∷ []

recovery_settles_example :
    let (r, t) = recover_loop (healthy answers) full_service (orphan ∷ []) left_behind in
    (r ≡ ok tt)
    × ((observe 9 t).candidate ≡ 0)
    × ((observe 9 t).verdict ≡ some DeploymentStatus.failed)
recovery_settles_example =
    recovery_settles (healthy answers) full_service 9 (orphan ∷ []) orphan left_behind refl
      (inl refl) (inl refl)
