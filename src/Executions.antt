-- ===== src/Executions.antt =====
-- service/deployment.go, `beginExecution` and `Cancel`: the registry of the executions of this
-- process, by which a request cancels a deployment that runs. An execution is a number, as its
-- pointer is; an event is one of the calls, each of which holds the mutex while it reads or writes
-- the map, and what it cancels outside the mutex it cancels here at once.
use mini_paa_s.Common.{
  ℕ, Bool, true, false, ◌||◌, List, [], ◌∷◌, Option, none, some, ◌==◌, if◌then◌else◌,
}
use mini_paa_s.Domain.{DeploymentStatus}
pub mod Registered
mod Tests

pub record Registry : Type 0 where
  -- the map `executions`
  pub table : ℕ → Option ℕ
  -- the executions whose context was cancelled
  pub cancelled : List ℕ
  -- the deployments that `MarkCancelled` was asked for
  pub marked : List ℕ

pub empty_registry : Registry
empty_registry = record { table = λ dep. none; cancelled = []; marked = [] }

abbrev pub set_entry : ℕ → Option ℕ → (ℕ → Option ℕ) → ℕ → Option ℕ
set_entry dep e table d = if dep == d then e else table d

abbrev pub cancel_entry : Option ℕ → List ℕ → List ℕ
cancel_entry none cs = cs
cancel_entry (some e) cs = e ∷ cs

-- `beginExecution`: the previous execution of the deployment is cancelled, and the new one too
-- where the store says that the deployment was asked to be cancelled.
pub begin_execution : ℕ → ℕ → Bool → Registry → Registry
begin_execution dep e requested r = record r {
  table = set_entry dep (some e) r.table;
  cancelled = let cs = cancel_entry (r.table dep) r.cancelled in if requested then e ∷ cs else cs;
}

abbrev pub is_entry : ℕ → Option ℕ → Bool
is_entry e none = false
is_entry e (some x) = x == e

-- `done`: the entry goes only if it is still this execution's.
pub end_execution : ℕ → ℕ → Registry → Registry
end_execution dep e r = record r {
  table = if is_entry e (r.table dep) then set_entry dep none r.table else r.table;
  cancelled = e ∷ r.cancelled;
}

abbrev pub is_cancellable_status : DeploymentStatus → Bool
is_cancellable_status DeploymentStatus.pending = true
is_cancellable_status DeploymentStatus.building = true
is_cancellable_status DeploymentStatus.cancel_requested = true
is_cancellable_status _ = false

abbrev pub cancel_registered : ℕ → Option ℕ → Registry → Registry
cancel_registered dep none r = record r { marked = dep ∷ r.marked }
cancel_registered dep (some e) r = record r { cancelled = e ∷ r.cancelled }

-- What `Cancel` needs before it looks at the registry: the deployment is found with a status that
-- can be cancelled, and the request is stored.
abbrev pub is_accepted : Option DeploymentStatus → Bool → Bool
is_accepted none stored = false
is_accepted (some status) stored = if is_cancellable_status status then stored else false

-- `Cancel`, with the answers of `GetByID` and of `RequestCancel`: a registered execution is
-- cancelled, and a deployment without one is marked.
pub cancel : ℕ → Option DeploymentStatus → Bool → Registry → Registry
cancel dep found stored r =
    if is_accepted found stored then cancel_registered dep (r.table dep) r else r

pub data Event : Type 0 where
  begins : ℕ → ℕ → Bool → Event
  ends : ℕ → ℕ → Event
  cancels : ℕ → Option DeploymentStatus → Bool → Event

pub step : Registry → Event → Registry
unfolding begin_execution end_execution cancel
step r (begins dep e requested) = begin_execution dep e requested r
step r (ends dep e) = end_execution dep e r
step r (cancels dep found stored) = cancel dep found stored r

pub run : Registry → List Event → Registry
run r [] = r
run r (e ∷ es) = run (step r e) es
