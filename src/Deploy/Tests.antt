-- ===== src/Deploy/Tests.antt =====
-- A service over concrete dependencies: runs of the pipeline, and the guarantees at them.
use mini_paa_s.Common.{is_space, is_blank, ◌≡◌, refl, Bool, true, false, [], ◌∷◌, some}
use mini_paa_s.Domain.{
  AppStatus, App, DeploymentStatus, Deployment, no_deployment, Stage, step_failed,
}
use mini_paa_s.Deploy.Effects.{
  Call, Ctx, Trace, found, missing, Env, Service, err, pure, raise, gets, ◌>>=◌, or_else, ignore,
  deferred, joined, perform, asked,
}
use mini_paa_s.Deploy.Steps.{
  contains, event, error_event, status_after, mark_failed, record_cancelled, finish_cancelled,
  wants_cancel, check_stored, check_cancelled, switch_route, cleanup_container, cleanup_candidate,
  restore_route, prune_loop, prune_images,
}
use mini_paa_s.Deploy.Build.{await_slot, persist_lines, start_build, build_in_slot, prepare}
use mini_paa_s.Deploy.Rollout.{
  fail_step, previous_of, find_previous, run_options, start_candidate, give_up, await_ready,
  sync_failed, publish, promote, promote_failed, retire, roll_out, reach_rollout, run_build,
}
use mini_paa_s.Deploy.Guarantees.{
  locks_returned, failure_recorded, failure_restores_route, IsPrevious, summary, result,
}
use mini_paa_s.Deploy.Outcome.{Lands}
use mini_paa_s.Deploy.View.{targets, removed}

abbrev pub shop : App
shop = record { id = 7; name = "shop"; status = AppStatus.running }

abbrev pub next_release : Deployment
next_release = record no_deployment { id = 2; app_id = 7; image_tag = "shop:2" }

abbrev pub old_release : Deployment
old_release = record no_deployment {
  id = 1;
  app_id = 7;
  image_tag = "shop:1";
  status = DeploymentStatus.running;
  container_id = 40;
  port = 3000;
}

-- Every dependency answers, and release 1 is the active one.
abbrev pub healthy : (Trace → Ctx → Call → Bool) → Env
healthy succeeds = record {
  succeeds = succeeds;
  ctx_done = λ t. false;
  build_expired = λ t. false;
  deployment = λ t id. found next_release;
  active = λ t app. found old_release;
  app_by_name = λ t name. found shop;
  app_by_id = λ t id. found shop;
  candidates = λ t. [];
  retained = λ t. [];
  deployments_of = λ t. [];
  container = λ t. record { id = 50; port = 3001 };
  public_url = λ t. "http://shop.localhost";
  build_lines = λ t. "Step 1/1" ∷ [];
  scan_ok = λ t. true;
  blank_error = λ t. false;
  snapshot_dockerfile = λ t. "docker/Dockerfile";
}

abbrev all_answer : Trace → Ctx → Call → Bool
all_answer t ctx c = true

-- The candidate cannot be stored as the running release.
abbrev no_promotion : Trace → Ctx → Call → Bool
no_promotion t ctx (Call.promote_candidate dep info tag) = false
no_promotion t ctx c = true

-- The same app without a release that is active.
abbrev first_release : (Trace → Ctx → Call → Bool) → Env
first_release succeeds = record (healthy succeeds) { active = λ t app. missing }

-- The domains of the app cannot be switched.
abbrev no_sync : Trace → Ctx → Call → Bool
no_sync t ctx (Call.sync_routes app port) = false
no_sync t ctx c = true

abbrev pub full_service : Service
full_service = record {
  has_logs = true;
  has_canceller = true;
  has_candidate_store = true;
  has_readiness = true;
  has_atomic_router = true;
  has_custom_domains = true;
  has_dockerfile_builder = true;
  has_git_store = true;
  restart_policy = "unless-stopped";
  restart_max_retries = 3;
  runtime_limits = record { memory_bytes = 0; nano_cpus = 0; pids_limit = 0 };
  image_retention = 3;
}

locks_returned_example :
    let v = summary (healthy no_sync) full_service next_release shop "" in
    (v.slots ≡ 0) × (v.rollouts ≡ 0)
locks_returned_example = locks_returned (healthy no_sync) full_service next_release shop ""

run_fails :
    result (healthy no_sync) full_service next_release shop ""
    ≡ err (step_failed Stage.sync_custom_domains)
unfolding pure raise gets ◌>>=◌ or_else ignore deferred joined perform asked is_space is_blank
    contains event error_event status_after mark_failed record_cancelled finish_cancelled
    wants_cancel check_stored check_cancelled switch_route cleanup_container cleanup_candidate
    restore_route prune_loop prune_images await_slot persist_lines start_build build_in_slot prepare
    fail_step previous_of find_previous run_options start_candidate give_up await_ready sync_failed
    publish promote retire roll_out reach_rollout run_build
run_fails = refl

failure_recorded_example :
    let v = summary (healthy no_sync) full_service next_release shop "" in
    (v.committed ≡ false) × (v.verdict ≡ some DeploymentStatus.failed)
failure_recorded_example =
    failure_recorded (healthy no_sync) full_service next_release shop ""
      (step_failed Stage.sync_custom_domains) run_fails

failure_restores_route_example :
    let v = summary (healthy no_sync) full_service next_release shop "" in
    Lands
      (IsPrevious (healthy no_sync) full_service next_release shop "")
      full_service
      shop
      v.route
      v.restore_failed
failure_restores_route_example =
    failure_restores_route (healthy no_sync) full_service next_release shop ""
      (step_failed Stage.sync_custom_domains) run_fails

-- After a first deployment that could not be promoted, the route of the app is gone, as the
-- candidate is, but the routes of its custom domains still point to the candidate's port.
domains_left_behind :
    let v = summary (first_release no_promotion) full_service next_release shop "" in
    (v.candidate ≡ 0) × (v.route ≡ removed "shop") × (v.custom ≡ targets 7 3001)
unfolding pure raise gets ◌>>=◌ or_else ignore deferred joined perform asked is_space is_blank
    contains event error_event status_after mark_failed record_cancelled finish_cancelled
    wants_cancel check_stored check_cancelled switch_route cleanup_container cleanup_candidate
    restore_route prune_loop prune_images await_slot persist_lines start_build build_in_slot prepare
    fail_step previous_of find_previous run_options start_candidate give_up await_ready sync_failed
    publish promote retire roll_out reach_rollout run_build promote_failed
domains_left_behind = (refl, refl, refl)
