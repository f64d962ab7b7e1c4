-- ===== src/Deploy/Endings.antt =====
-- How a whole deployment request can end.
use mini_paa_s.Common.{ℕ, ◌≡◌, refl, true, Option, none, some, String}
use mini_paa_s.Domain.{App, DeploymentStatus, Deployment, ContainerInfo}
use mini_paa_s.Deploy.Effects.{Trace, Call, detached, Result, ok, err, Env, perform, Service}
use mini_paa_s.Deploy.Rollout.{roll_out, reach_rollout, run_build}
use mini_paa_s.Deploy.View.{observe, View, Route, targets, start}
use mini_paa_s.Deploy.Runs.{
  Runs, RunsAt, RunsAt-bind, RunsAt-deferred, Runs-RunsAt, Runs-bind, Runs-deferred, Runs-weaken,
  Runs-from, Runs-perform,
}
use mini_paa_s.Deploy.Helpers.{Leaves}
use mini_paa_s.Deploy.Outcome.{previous_row, Failed, Goes, phase}
use mini_paa_s.Deploy.Stages.{await_slot-Goes, build_in_slot-Goes, prepare-Goes}
use mini_paa_s.Deploy.Candidate.{
  Finds, find_previous-Finds, started, Starts, start_candidate-Starts, await_ready-Goes,
}
use mini_paa_s.Deploy.Switchover.{
  Publishes, publish-Publishes, committed_view, promote-Goes, retire-Leaves,
}

module _ (env : Env) (svc : Service) (dep : Deployment) (app : App) (P : Deployment → Type 0) where
  -- The summary of the whole run, with so many rollout locks held.
  abbrev pub Ends : ℕ → Result (Unit {0}) → View → Type 0
  Ends rollouts (ok _) w =
      (port : ℕ) × (custom : Route ℕ) × (w ≡ record start {
        rollouts = rollouts;
        committed = true;
        route = targets app.name port;
        custom = custom;
        verdict = some DeploymentStatus.running;
      })
  Ends rollouts (err e) w = Failed P svc app 0 rollouts e w

  roll_out-Ends :
      (d : Option DeploymentStatus) (t : Trace)
      → observe dep.id t ≡ phase 0 1 d
      → ((p : Deployment) → previous_row (env.active t app.id) ≡ some p → P p)
      → RunsAt dep.id (roll_out env svc dep app) t (Ends 1)
  unfolding roll_out
  roll_out-Ends d t before was =
      RunsAt-bind dep.id (Finds env svc dep app P (phase 0 1 d))
        (find_previous-Finds env svc dep app P d t before was)
        (λ previous i h.
          Runs-RunsAt dep.id
            (Runs-bind dep.id (Starts env svc dep app P d)
              (start_candidate-Starts env svc dep app P d)
              (λ info w e. Runs-from dep.id e (
                Runs-bind dep.id (Goes P svc app 0 1 (started env svc dep app P d info))
                  (await_ready-Goes env svc dep app P d info)
                  (λ _ w e. Runs-from dep.id e (
                    Runs-bind dep.id (Publishes env svc dep app P d previous info)
                      (publish-Publishes env svc dep app P d previous info h.1)
                      (λ url w p. Runs-from dep.id p.1 (
                        Runs-bind dep.id
                          (Goes P svc app 0 1
                            (committed_view env svc dep app P d previous info p.0))
                          (promote-Goes env svc dep app P d previous info p.0 h.1)
                          (λ _ w e. Runs-from dep.id e (
                            Runs-weaken dep.id
                              (Leaves (committed_view env svc dep app P d previous info p.0))
                              (retire-Leaves env svc dep app P d previous info url p.0)
                              (retired d previous info p.0)))
                          (λ x w h. h)))
                      (λ x w h. h)))
                  (λ x w h. h)))
              (λ x w h. h))
            h.0)
        (λ x w h. h)
    where
      retired :
          (d : Option DeploymentStatus) (previous : Deployment) (info : ContainerInfo)
          (custom : Route ℕ) (r : Result (Unit {0})) (w : View)
          → Leaves (committed_view env svc dep app P d previous info custom) r w
          → Ends 1 r w
      retired d previous info custom (ok _) w e = (info.port, custom, e)
      retired d previous info custom (err _) w e = absurd e

  -- Giving the slot back, whatever the build came to.
  slot_given_back :
      (r : Result (Unit {0})) (w : View)
      → Goes P svc app 1 0 (phase 1 0 (some DeploymentStatus.building)) r w
      → Runs dep.id
          (perform env detached (Call.release_slot dep.id))
          w
          (λ _ w'. Goes P svc app 0 0 (phase 0 0 (some DeploymentStatus.building)) r w')
  slot_given_back (ok _) w e = Runs-from dep.id e (Runs-perform env dep.id _ _ refl refl)
  slot_given_back (err e) w (route, custom, refused, h, l) = Runs-from dep.id h (
      Runs-perform env dep.id _ _ (route, custom, refused, refl, l)
        (route, custom, refused, refl, l))

  -- Giving the rollout lock back, whatever the rollout came to.
  rollout_given_back :
      (r : Result (Unit {0})) (w : View)
      → Ends 1 r w
      → Runs dep.id (perform env detached (Call.release_rollout app.id)) w (λ _ w'. Ends 0 r w')
  rollout_given_back (ok _) w (port, custom, h) =
      Runs-from dep.id h (Runs-perform env dep.id _ _ (port, custom, refl) (port, custom, refl))
  rollout_given_back (err e) w (route, custom, refused, h, l) = Runs-from dep.id h (
      Runs-perform env dep.id _ _ (route, custom, refused, refl, l)
        (route, custom, refused, refl, l))

  -- What is held, and which status was written, when the rollout begins.
  reach_rollout-Goes :
      (dockerfile : String)
      → Runs dep.id
          (reach_rollout env svc dep app dockerfile)
          start
          (Goes P svc app 0 0 (phase 0 1 (some DeploymentStatus.building)))
  unfolding reach_rollout
  reach_rollout-Goes dockerfile =
      Runs-bind dep.id (Goes P svc app 0 0 (phase 1 0 none)) (await_slot-Goes env svc dep app P)
        (λ _ w e. Runs-from dep.id e (
          Runs-bind dep.id (Goes P svc app 0 0 (phase 0 0 (some DeploymentStatus.building)))
            (Runs-deferred dep.id (Goes P svc app 1 0 (phase 1 0 (some DeploymentStatus.building)))
              (build_in_slot-Goes env svc dep app P dockerfile) slot_given_back)
            (λ _ w e.
              Runs-from dep.id e (prepare-Goes env svc dep app P (some DeploymentStatus.building)))
            (λ x w h. h)))
        (λ x w h. h)

  -- Every way in which a deployment can end, where `P` holds of the release that the query for
  -- the active one stands for when the rollout begins.
  pub run_build-Ends :
      (dockerfile : String) (t : Trace)
      → observe dep.id t ≡ start
      → ((p : Deployment)
          → previous_row (env.active (reach_rollout env svc dep app dockerfile t).1 app.id) ≡ some p
          → P p)
      → RunsAt dep.id (run_build env svc dep app dockerfile) t (Ends 0)
  unfolding run_build
  run_build-Ends dockerfile t before was =
      RunsAt-bind dep.id (Goes P svc app 0 0 (phase 0 1 (some DeploymentStatus.building)))
        (Runs-RunsAt dep.id (reach_rollout-Goes dockerfile) before)
        (λ _ i e.
          RunsAt-deferred dep.id (Ends 1) (roll_out-Ends (some DeploymentStatus.building) _ e was)
            rollout_given_back)
        (λ x w h. h)
