-- ===== src/HealthChecker/Tests.antt =====
-- A check that finds one deployment whose container ended and one that could not be inspected.
use mini_paa_s.Common.{◌≡◌, true, ◌&&◌, [], ◌∷◌, none, some, ◌==◌, if◌then◌else◌}
use mini_paa_s.Domain.{AppStatus, DeploymentStatus, no_deployment}
use mini_paa_s.DeploymentStore.{Table, get_by_id, list_running}
use mini_paa_s.DeploymentStore.Status.{failed_of}
use mini_paa_s.HealthChecker.{Answers, State, ContainerStatus, check}
use mini_paa_s.HealthChecker.Marking.{any_dep, marks_id, marks_app, check-table, check-apps}

abbrev rows : Table
rows =
    record {
      deployment = record no_deployment {
        id = 2;
        app_id = 7;
        status = DeploymentStatus.running;
        container_id = 50;
      };
      created_at = 20;
    }
    ∷ record {
      deployment = record no_deployment {
        id = 1;
        app_id = 8;
        status = DeploymentStatus.running;
        container_id = 40;
      };
      created_at = 10;
    }
    ∷ []

abbrev before : State
before = record { table = rows; apps = λ app. AppStatus.running }

abbrev answers : Answers
answers = record {
  lists = true;
  inspect = λ id. if id == 2 then some ContainerStatus.exited else none;
  writes = λ id. true;
  writes_app = λ id. true;
}

check-table_example : get_by_id 2 (check answers before).table ≡ (
    if true && any_dep (marks_id answers 2) (list_running rows)
    then failed_of (get_by_id 2 rows)
    else get_by_id 2 rows)
check-table_example = check-table answers 2 before

check-apps_example : (check answers before).apps 7 ≡ (
    if true && any_dep (marks_app answers 7) (list_running rows)
    then AppStatus.failed
    else AppStatus.running)
check-apps_example = check-apps answers 7 before
