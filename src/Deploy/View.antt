-- ===== src/Deploy/View.antt =====
-- What the calls of one deployment request amount to: a summary of its trace.
use mini_paa_s.Common.{
  ℕ, String, suc, ◌-◌, Bool, true, false, ◌&&◌, ◌||◌, [], ◌∷◌, Option, none, some, ◌==◌,
  if◌then◌else◌,
}
use mini_paa_s.Domain.{DeploymentStatus}
use mini_paa_s.Deploy.Effects.{Call, Ctx, request, detached, Trace}

-- Where this request has left a route, and whose route it is by its key: the name of the app for
-- the route of an app, its id for those of its custom domains.
pub data Route (K : Type 0) : Type 0 where
  untouched : Route K
  targets : K → ℕ → Route K
  removed : K → Route K
  -- a change was refused half way
  uncertain : Route K

pub record View : Type 0 where
  -- build slots and rollout locks taken and not given back
  pub slots : ℕ
  pub rollouts : ℕ
  -- the container that was started and neither promoted nor told to go, 0 if there is none
  pub candidate : ℕ
  -- whether a candidate was stored as the running release
  pub committed : Bool
  -- the route of the app, and those of its custom domains
  pub route : Route String
  pub custom : Route ℕ
  -- whether a change of the app's route under a detached context was refused
  pub restore_failed : Bool
  -- the status that was last written for the deployment
  pub verdict : Option DeploymentStatus
  -- whether so far every container that was stopped or removed was the candidate, or came after
  -- the commit, and the commit came after the route had been switched to the candidate
  pub safe : Bool

abbrev pub routed_to : Route String → ℕ → Bool
routed_to (targets _ p) port = p == port
routed_to untouched port = false
routed_to (removed _) port = false
routed_to uncertain port = false

abbrev halted : ℕ → View → View
halted c v = record v { safe = v.safe && (c == v.candidate || v.committed) }

abbrev commits : ℕ → View → View
commits port v = record v {
  candidate = 0;
  committed = true;
  verdict = some DeploymentStatus.running;
  safe = v.safe && routed_to v.route port;
}

abbrev refused : Ctx → View → View
refused request v = v
refused detached v = record v { restore_failed = true }

abbrev written : ℕ → ℕ → DeploymentStatus → View → View
written dep d s v = if d == dep then record v { verdict = some s } else v

-- The effect of one entry, for the request that deploys `dep`. A refused `SwitchRoute` leaves the
-- route as it is; a refused `UpsertRoute` may have deleted it before.
abbrev pub advance : ℕ → Call → Ctx → Bool → View → View
advance dep (Call.acquire_slot _) ctx true v = record v { slots = suc v.slots }
advance dep (Call.release_slot _) ctx b v = record v { slots = v.slots - 1 }
advance dep (Call.acquire_rollout _) ctx true v = record v { rollouts = suc v.rollouts }
advance dep (Call.release_rollout _) ctx b v = record v { rollouts = v.rollouts - 1 }
advance dep (Call.run_container _ info) ctx true v = record v { candidate = info.id }
advance dep (Call.stop_container c) ctx b v = halted c v
advance dep (Call.remove_container c) ctx b v = record (halted c v) {
  candidate = if c == v.candidate then 0 else v.candidate;
}
advance dep (Call.promote_candidate d info _) ctx true v =
    if d == dep then commits info.port v else v
advance dep (Call.update_running d info _) ctx true v = if d == dep then commits info.port v else v
advance dep (Call.switch_route name port) ctx true v = record v { route = targets name port }
advance dep (Call.switch_route _ port) ctx false v = refused ctx v
advance dep (Call.upsert_route name port) ctx true v = record v { route = targets name port }
advance dep (Call.upsert_route _ port) ctx false v = record (refused ctx v) { route = uncertain }
advance dep (Call.remove_route name) ctx true v = record v { route = removed name }
advance dep (Call.remove_route _) ctx false v = refused ctx v
advance dep (Call.sync_routes app port) ctx true v = record v { custom = targets app port }
advance dep (Call.sync_routes _ port) ctx false v = record v { custom = uncertain }
advance dep (Call.remove_routes app) ctx true v = record v { custom = removed app }
advance dep (Call.remove_routes _) ctx false v = record v { custom = uncertain }
advance dep (Call.update_status d s) ctx b v = written dep d s v
advance dep (Call.mark_cancelled d) ctx b v = written dep d DeploymentStatus.cancelled v
advance dep _ ctx b v = v

abbrev pub start : View
start = record {
  slots = 0;
  rollouts = 0;
  candidate = 0;
  committed = false;
  route = untouched;
  custom = untouched;
  restore_failed = false;
  verdict = none;
  safe = true;
}

abbrev pub observe : ℕ → Trace → View
observe dep [] = start
observe dep (e ∷ t) = advance dep e.call e.ctx e.done (observe dep t)
