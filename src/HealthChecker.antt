-- ===== src/HealthChecker.antt =====
-- internal/health/checker.go, `Check`: a deployment that runs and whose container is gone or ended is
-- marked as failed. The state is the table of the deployments and the status of each app;
-- no other request changes it during one check.
use mini_paa_s.Common.{ℕ, Bool, true, false, List, [], ◌∷◌, Option, none, some, ◌==◌, if◌then◌else◌}
use mini_paa_s.Domain.{AppStatus, Deployment, DeploymentStatus}
use mini_paa_s.DeploymentStore.{Table, update_status, list_running}
pub mod Marking
mod Tests

-- The status of a container, which is a string; `other` stands for all that the checker does not
-- compare it with.
pub data ContainerStatus : Type 0 where
  exited dead missing other : ContainerStatus

-- What the store and Docker answer during one check: whether the deployments are listed, the
-- container of a deployment, `none` being an error, and whether the status of a deployment and that
-- of its app are written.
pub record Answers : Type 0 where
  pub lists : Bool
  pub inspect : ℕ → Option ContainerStatus
  pub writes : ℕ → Bool
  pub writes_app : ℕ → Bool

pub record State : Type 0 where
  pub table : Table
  pub apps : ℕ → AppStatus

abbrev pub set_app : ℕ → AppStatus → (ℕ → AppStatus) → ℕ → AppStatus
set_app app status apps x = if app == x then status else apps x

-- `markFailed`
pub mark_failed : Answers → Deployment → State → State
mark_failed a dep w =
    if a.writes dep.id
    then record {
      table = update_status dep.id DeploymentStatus.failed w.table;
      apps = if a.writes_app dep.id then set_app dep.app_id AppStatus.failed w.apps else w.apps;
    }
    else w

abbrev pub is_ended : Option ContainerStatus → Bool
is_ended (some ContainerStatus.exited) = true
is_ended (some ContainerStatus.dead) = true
is_ended (some ContainerStatus.missing) = true
is_ended _ = false

-- `checkDeployment`
pub check_deployment : Answers → Deployment → State → State
unfolding mark_failed
check_deployment a dep w =
    if dep.container_id == 0
    then mark_failed a dep w
    else if is_ended (a.inspect dep.id)
    then mark_failed a dep w
    else w

pub check_loop : Answers → List Deployment → State → State
unfolding check_deployment
check_loop a [] w = w
check_loop a (dep ∷ deps) w = check_loop a deps (check_deployment a dep w)

-- `Check`
pub check : Answers → State → State
unfolding check_loop
check a w = if a.lists then check_loop a (list_running w.table) w else w
