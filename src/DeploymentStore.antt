-- ===== src/DeploymentStore.antt =====
-- store/postgres/deployment.go with the queries of sql/queries/deployment.sql: the table of the
-- deployments, as the list of its rows in any order. A failing connection changes nothing and is
-- not modelled here; a NULL candidate is the id 0.
use mini_paa_s.Common.{
  ℕ, suc, Bool, true, false, ◌&&◌, ◌||◌, not, String, List, [], ◌∷◌, Option, none, some, ltb, leb,
  ◌==◌, if◌then◌else◌,
}
use mini_paa_s.Domain.{DeploymentStatus, Deployment, no_deployment}
pub mod Cancellation
pub mod Active
pub mod Status
mod Tests

pub record Row : Type 0 where
  pub deployment : Deployment
  pub created_at : ℕ

abbrev pub Table : Type 0
Table = List Row

-- `UPDATE deployments SET … WHERE id = @id AND …`
abbrev pub update_where : (Deployment → Bool) → (Deployment → Deployment) → Table → Table
update_where p f [] = []
update_where p f (r ∷ rs) =
    (if p r.deployment then record r { deployment = f r.deployment } else r) ∷ update_where p f rs

abbrev pub has_row_id : ℕ → Deployment → Bool
has_row_id id d = d.id == id

-- `Create`
pub create : ℕ → ℕ → String → ℕ → Table → Table
create id app image_tag now rows =
    record {
      deployment = record no_deployment { id = id; app_id = app; image_tag = image_tag };
      created_at = now;
    }
    ∷ rows

-- `GetByID`
abbrev pub get_by_id : ℕ → Table → Option Deployment
get_by_id id [] = none
get_by_id id (r ∷ rs) = if r.deployment.id == id then some r.deployment else get_by_id id rs

abbrev pub is_running : DeploymentStatus → Bool
is_running DeploymentStatus.running = true
is_running _ = false

-- The later of two rows of a query with `ORDER BY created_at DESC LIMIT 1`
abbrev pub newer : Row → Option Row → Option Row
newer r none = some r
newer r (some s) = if ltb r.created_at s.created_at then some s else some r

-- `GetActive`
abbrev pub get_active : ℕ → Table → Option Row
get_active app [] = none
get_active app (r ∷ rs) =
    let rest = get_active app rs in
    if r.deployment.app_id == app && is_running r.deployment.status then newer r rest else rest

-- `ListRunning`
pub list_running : Table → List Deployment
list_running [] = []
list_running (r ∷ rs) =
    let rest = list_running rs in
    if is_running r.deployment.status then r.deployment ∷ rest else rest

-- `ListCandidates`, up to order
pub list_candidates : Table → List Deployment
list_candidates [] = []
list_candidates (r ∷ rs) =
    let rest = list_candidates rs in
    if not (r.deployment.candidate_container_id == 0) && not (is_running r.deployment.status)
    then r.deployment ∷ rest
    else rest

-- `UpdateStatus`
pub update_status : ℕ → DeploymentStatus → Table → Table
update_status id status = update_where (has_row_id id) (λ d. record d { status = status })

-- `UpdateRunning`
pub update_running : ℕ → ℕ → ℕ → String → ℕ → Table → Table
update_running id container port image_tag duration = update_where (has_row_id id) (λ d. record d {
  status = DeploymentStatus.running;
  container_id = container;
  port = port;
  image_tag = image_tag;
  duration_ms = duration;
})

-- `UpdateCandidate`
pub update_candidate : ℕ → ℕ → ℕ → Table → Table
update_candidate id container port =
    update_where (has_row_id id)
      (λ d. record d { candidate_container_id = container; candidate_port = port })

-- `PromoteCandidate`
pub promote_candidate : ℕ → ℕ → ℕ → String → ℕ → Table → Table
promote_candidate id container port image_tag duration = update_where (has_row_id id) (λ d.
    record d {
      status = DeploymentStatus.running;
      container_id = container;
      port = port;
      image_tag = image_tag;
      duration_ms = duration;
      candidate_container_id = 0;
      candidate_port = 0;
    })

-- `ClearCandidate`
pub clear_candidate : ℕ → Table → Table
clear_candidate id =
    update_where (has_row_id id) (λ d. record d { candidate_container_id = 0; candidate_port = 0 })

abbrev pub is_open : DeploymentStatus → Bool
is_open DeploymentStatus.pending = true
is_open DeploymentStatus.building = true
is_open DeploymentStatus.cancel_requested = true
is_open _ = false

abbrev pub is_cancellable : ℕ → Deployment → Bool
is_cancellable id d = d.id == id && is_open d.status

abbrev pub any_row : (Deployment → Bool) → Table → Bool
any_row p [] = false
any_row p (r ∷ rs) = p r.deployment || any_row p rs

-- `RequestCancel`, with whether a row was updated; where none was, the store answers
-- `ErrDeploymentNotCancellable`.
pub request_cancel : ℕ → Table → Table × Bool
request_cancel id rows = (
  update_where (is_cancellable id)
      (λ d. record d { status = DeploymentStatus.cancel_requested; cancel_requested = true }) rows,
  any_row (is_cancellable id) rows,
)

-- `MarkCancelled`
pub mark_cancelled : ℕ → Table → Table
mark_cancelled id =
    update_where (is_cancellable id)
      (λ d. record d { status = DeploymentStatus.cancelled; cancel_requested = true })
