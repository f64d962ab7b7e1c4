-- ===== src/Deploy/Outcome.antt =====
-- The ways in which a part of a deployment can end.
use mini_paa_s.Common.{String, ℕ, ◌≡◌, refl, ◌∙◌, Bool, true, false, Option, none, some, ◌⊎◌, inl}
use mini_paa_s.Domain.{
  App, DeploymentStatus, Deployment, no_deployment, Error, deployment_cancelled, step_failed, Stage,
}
use mini_paa_s.Deploy.Effects.{Result, ok, err, Env, Lookup, found, missing, unavailable, Service}
use mini_paa_s.Deploy.Steps.{finish_cancelled}
use mini_paa_s.Deploy.View.{View, Route, untouched, uncertain, start}
use mini_paa_s.Deploy.Runs.{Runs, Runs-weaken}
use mini_paa_s.Deploy.Helpers.{Leaves, Raises, finish_cancelled-Raises}
use mini_paa_s.Deploy.Restoring.{fallback}

-- The status that a deployment is left with, by the error that its run returns.
abbrev pub verdict_of : Error → Option DeploymentStatus
verdict_of deployment_cancelled = some DeploymentStatus.cancelled
verdict_of (step_failed Stage.mark_building) = some DeploymentStatus.building
verdict_of _ = some DeploymentStatus.failed

-- The release that a query for the active deployment stands for.
abbrev pub previous_row : Lookup Deployment → Option Deployment
previous_row (found p) = some p
previous_row missing = some no_deployment
previous_row unavailable = none

-- `P` says which releases the route may go back to.
module _ (P : Deployment → Type 0) (svc : Service) (app : App) where
  -- The route was left alone, or sent back to such a release, unless the router refused; a router
  -- that cannot switch at once may also have stopped half way.
  abbrev pub Lands : Route String → Bool → Type 0
  Lands route refused =
      (route ≡ untouched)
      ⊎ (refused ≡ true)
      ⊎ ((p : Deployment) × P p × (route ≡ fallback app.name p))
      ⊎ ((svc.has_atomic_router ≡ false) × (route ≡ uncertain))

  -- The summary of a request that failed with `e`, with so many slots and locks held.
  abbrev pub Failed : ℕ → ℕ → Error → View → Type 0
  Failed slots rollouts e w =
      (route : Route String) × (custom : Route ℕ) × (refused : Bool) × (w ≡ record start {
        slots = slots;
        rollouts = rollouts;
        route = route;
        custom = custom;
        restore_failed = refused;
        verdict = verdict_of e;
      })
      × Lands route refused

  -- On success the summary is `v`.
  abbrev pub Goes : {A : Type 0} → ℕ → ℕ → View → Result A → View → Type 0
  Goes slots rollouts v (ok _) w = w ≡ v
  Goes slots rollouts v (err e) w = Failed slots rollouts e w

module _ {A : Type 0} (P : Deployment → Type 0) (svc : Service) (app : App) (slots rollouts : ℕ)
    (v : View) where
  -- An error before the routes are touched.
  pub Raises-Goes :
      (x : Error) (u : View)
      → u ≡ record start { slots = slots; rollouts = rollouts; verdict = verdict_of x }
      → (r : Result A) (w : View) → Raises x u r w
      → Goes P svc app slots rollouts v r w
  Raises-Goes x u i (ok _) w h = absurd h
  Raises-Goes x u i (err e) w h = (untouched, untouched, false, rw h.0 (h.1 ∙ i), inl refl)

pub Leaves-Goes :
    (P : Deployment → Type 0) (svc : Service) (app : App) (slots rollouts : ℕ) (v : View)
    (r : Result (Unit {0})) (w : View)
    → Leaves v r w
    → Goes P svc app slots rollouts v r w
Leaves-Goes P svc app slots rollouts v (ok _) w h = h
Leaves-Goes P svc app slots rollouts v (err _) w h = absurd h

-- A summary in which nothing is routed yet, for a deployment with the status `verdict`.
abbrev pub phase : ℕ → ℕ → Option DeploymentStatus → View
phase slots rollouts verdict = record start {
  slots = slots;
  rollouts = rollouts;
  verdict = verdict;
}

-- One call that the summary reads only where it succeeds.
abbrev pub Moves : {A : Type 0} → View → View → Result A → View → Type 0
Moves v u (ok _) w = w ≡ u
Moves v u (err _) w = w ≡ v

module _ (env : Env) (svc : Service) (dep : Deployment) (app : App) (P : Deployment → Type 0) where
  module _ {A : Type 0} (slots rollouts : ℕ) (d : Option DeploymentStatus) (v : View) where
    pub cancel-Goes :
        Runs dep.id
          (finish_cancelled env svc {A = A} dep.id)
          (phase slots rollouts d)
          (Goes P svc app slots rollouts v)
    cancel-Goes =
        Runs-weaken dep.id
          (Raises deployment_cancelled (phase slots rollouts (some DeploymentStatus.cancelled)))
          (finish_cancelled-Raises env svc dep.id A (phase slots rollouts d))
          (Raises-Goes P svc app slots rollouts v deployment_cancelled _ refl)
