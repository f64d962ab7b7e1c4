-- ===== src/Deploy/GitTests.antt =====
-- Deployments from Git over concrete dependencies, one with a source that cannot be cloned.
use mini_paa_s.Common.{◌≡◌, refl, true, false, [], Bool}
use mini_paa_s.Domain.{Stage, step_failed}
use mini_paa_s.Deploy.Effects.{
  Call, Ctx, Trace, err, pure, raise, gets, ◌>>=◌, or_else, ignore, perform, asked,
}
use mini_paa_s.Deploy.Steps.{
  event, error_event, status_after, mark_failed, record_cancelled, finish_cancelled, wants_cancel,
  check_stored, check_cancelled,
}
use mini_paa_s.Deploy.Build.{build_broken}
use mini_paa_s.Deploy.GitBuild.{clone_failed, fetch_source, run_git}
use mini_paa_s.Deploy.Tests.{shop, next_release, healthy, full_service}

abbrev no_clone : Trace → Ctx → Call → Bool
no_clone t ctx (Call.prepare_source repository branch) = false
no_clone t ctx c = true

clone_fails :
    (run_git (healthy no_clone) full_service next_release shop "acme/shop" "main" "" []).0
    ≡ err (step_failed Stage.prepare_source)
unfolding pure raise gets ◌>>=◌ or_else ignore perform asked event error_event status_after
    mark_failed record_cancelled finish_cancelled wants_cancel check_stored check_cancelled
    build_broken clone_failed fetch_source run_git
clone_fails = refl
