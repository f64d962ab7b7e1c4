-- ===== src/Deploy/GitBuild/Guarantees.antt =====
-- What a deployment from Git promises, whatever the clone and the other dependencies answer.
use mini_paa_s.Common.{ℕ, ◌≡◌, true, false, String, [], some}
use mini_paa_s.Domain.{App, DeploymentStatus, Deployment}
use mini_paa_s.Deploy.Effects.{Action, ◌>>=◌, ◌>>◌, Env, Service, Result, ok, err}
use mini_paa_s.Deploy.GitBuild.{record_source, fetch_source}
use mini_paa_s.Deploy.Rollout.{reach_rollout}
use mini_paa_s.Deploy.View.{View, targets, start}
use mini_paa_s.Deploy.Runs.{Runs}
use mini_paa_s.Deploy.Outcome.{previous_row, Failed, verdict_of, Lands}

-- A request up to the rollout lock of its pipeline
abbrev reach_git_rollout :
    Env → Service → Deployment → App → String → String → String → Action (Unit {0})
reach_git_rollout env svc dep app repository source_branch branch = do
  dockerfile ← fetch_source env svc dep app repository source_branch branch
  record_source env svc dep app
  reach_rollout env svc dep app dockerfile

-- `p` is the release that the query for the active one stands for once this very request has taken
-- the rollout lock: the row that it answers with, or no release where there is none.
abbrev pub WasPrevious :
    Env → Service → Deployment → App → String → String → String → Deployment → Type 0
WasPrevious env svc dep app repository source_branch branch p =
    let begin = (reach_git_rollout env svc dep app repository source_branch branch []).1 in
    previous_row (env.active begin app.id) ≡ some p

module _ (env : Env) (svc : Service) (dep : Deployment) (app : App) (P : Deployment → Type 0) where
  -- How a request ends: published and recorded as running, or not, with the status of its error and
  -- the route where it was; in both, nothing is held and no candidate is left.
  abbrev pub Settles : Result (Unit {0}) → View → Type 0
  Settles (ok _) w =
      (w.committed ≡ true)
      × (w.verdict ≡ some DeploymentStatus.running)
      × ((port : ℕ) × (w.route ≡ targets app.name port))
      × (w.slots ≡ 0)
      × (w.rollouts ≡ 0)
      × (w.candidate ≡ 0)
      × (w.safe ≡ true)
  Settles (err e) w =
      (w.committed ≡ false)
      × (w.verdict ≡ verdict_of e)
      × Lands P svc app w.route w.restore_failed
      × (w.slots ≡ 0)
      × (w.rollouts ≡ 0)
      × (w.candidate ≡ 0)
      × (w.safe ≡ true)

  -- The clone goes through, or the request ends.
  abbrev Fetches : Result String → View → Type 0
  Fetches (ok _) w = w ≡ start
  Fetches (err e) w = Failed P svc app 0 0 e w

module _ (env : Env) (svc : Service) (dep : Deployment) (app : App)
    (repository source_branch branch : String) where
  abbrev P : Deployment → Type 0
  P = WasPrevious env svc dep app repository source_branch branch
