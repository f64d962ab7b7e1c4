-- ===== src/HealthChecker/Marking.antt =====
-- Which deployments and apps a check marks as failed.
use mini_paa_s.Common.{
  ℕ, ◌≡◌, refl, ◌∙◌, Bool, true, false, ◌&&◌, ◌||◌, List, [], ◌∷◌, Option, ◌==◌, if◌then◌else◌,
  arith, Bool-cases, inl, inr,
}
use mini_paa_s.Domain.{AppStatus, Deployment, DeploymentStatus}
use mini_paa_s.DeploymentStore.{get_by_id, update_status, list_running}
use mini_paa_s.DeploymentStore.Status.{failed_of, failed_twice, get_by_id-update_status}
use mini_paa_s.HealthChecker.{
  Answers, State, set_app, mark_failed, is_ended, check_deployment, check_loop, check,
}

-- The deployment has no container, or an ended one, and its new status is written.
abbrev pub is_marked : Answers → Deployment → Bool
is_marked a dep = (dep.container_id == 0 || is_ended (a.inspect dep.id)) && a.writes dep.id

abbrev pub any_dep : (Deployment → Bool) → List Deployment → Bool
any_dep p [] = false
any_dep p (d ∷ ds) = p d || any_dep p ds

abbrev pub marks_id : Answers → ℕ → Deployment → Bool
marks_id a id dep = dep.id == id && is_marked a dep

abbrev pub marks_app : Answers → ℕ → Deployment → Bool
marks_app a app dep = dep.app_id == app && (is_marked a dep && a.writes_app dep.id)

check_deployment_lem :
    (a : Answers) (dep : Deployment) (w : State)
    → check_deployment a dep w ≡ (
        if is_marked a dep
        then record {
          table = update_status dep.id DeploymentStatus.failed w.table;
          apps = if a.writes_app dep.id then set_app dep.app_id AppStatus.failed w.apps else w.apps;
        }
        else w)
unfolding check_deployment mark_failed
check_deployment_lem a dep w = ground arith

merge_marks :
    (p q : Bool) (o : Option Deployment)
    → (if q then failed_of (if p then failed_of o else o) else (if p then failed_of o else o))
      ≡ (if p || q then failed_of o else o)
merge_marks true true o = failed_twice o
merge_marks true false o = refl
merge_marks false true o = refl
merge_marks false false o = refl

deployment_step :
    (a : Answers) (dep : Deployment) (id : ℕ) (w : State)
    → get_by_id id (check_deployment a dep w).table
      ≡ (if marks_id a id dep then failed_of (get_by_id id w.table) else get_by_id id w.table)
deployment_step a dep id w =
    let l = get_by_id-update_status id dep.id w.table in
    elim (Bool-cases (is_marked a dep)) [
      | inl y ↦ rw (check_deployment_lem a dep w, y) (l ∙ ground arith)
      | inr n ↦ rw (check_deployment_lem a dep w, n) (ground arith)
    ]

loop_table :
    (a : Answers) (deps : List Deployment) (id : ℕ) (w : State)
    → get_by_id id (check_loop a deps w).table ≡ (
        if any_dep (marks_id a id) deps
        then failed_of (get_by_id id w.table)
        else get_by_id id w.table)
unfolding check_loop
loop_table a [] id w = refl
loop_table a (dep ∷ deps) id w =
    let ih = loop_table a deps id (check_deployment a dep w) in
    ih
    ∙ rw (deployment_step a dep id w)
        (merge_marks (marks_id a id dep) (any_dep (marks_id a id) deps) (get_by_id id w.table))

app_step :
    (a : Answers) (dep : Deployment) (app : ℕ) (w : State)
    → (check_deployment a dep w).apps app
      ≡ (if marks_app a app dep then AppStatus.failed else w.apps app)
app_step a dep app w = rw (check_deployment_lem a dep w) (ground arith)

loop_apps :
    (a : Answers) (deps : List Deployment) (app : ℕ) (w : State)
    → (check_loop a deps w).apps app
      ≡ (if any_dep (marks_app a app) deps then AppStatus.failed else w.apps app)
unfolding check_loop
loop_apps a [] app w = refl
loop_apps a (dep ∷ deps) app w =
    let ih = loop_apps a deps app (check_deployment a dep w) in
    let s = app_step a dep app w in ground (arith, ih, s)

-- After a check, whatever the store and Docker answer, the deployment with a given id is what it was
-- before, with the status `failed` where the running deployments were listed, one of them with this
-- id has no container or one that is exited, dead or missing, and its status was written: a
-- container that runs, or that could not be inspected, fails no deployment.
pub check-table :
    (a : Answers) (id : ℕ) (w : State)
    → get_by_id id (check a w).table ≡ (
        if a.lists && any_dep (marks_id a id) (list_running w.table)
        then failed_of (get_by_id id w.table)
        else get_by_id id w.table)
unfolding check
check-table a id w = elim (Bool-cases a.lists) [
  | inl y ↦ rw y (loop_table a (list_running w.table) id w)
  | inr n ↦ rw n refl
]

-- A check gives an app the status `failed` where a running deployment of it was so marked and the
-- status of the app was written, and no other app changes its status.
pub check-apps :
    (a : Answers) (app : ℕ) (w : State)
    → (check a w).apps app ≡ (
        if a.lists && any_dep (marks_app a app) (list_running w.table)
        then AppStatus.failed
        else w.apps app)
unfolding check
check-apps a app w = elim (Bool-cases a.lists) [
  | inl y ↦ rw y (loop_apps a (list_running w.table) app w)
  | inr n ↦ rw n refl
]
