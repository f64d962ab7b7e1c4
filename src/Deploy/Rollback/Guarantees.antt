-- ===== src/Deploy/Rollback/Guarantees.antt =====
-- What a rollback promises, whatever its dependencies answer.
use mini_paa_s.Common.{
  ℕ, ◌≡◌, refl, sym, ap, ◌∙◌, subst, true, false, String, [], some, none, ◌⊎◌, inl, inr,
}
use mini_paa_s.Domain.{AppStatus, App, DeploymentStatus, Deployment, Error}
use mini_paa_s.Deploy.Effects.{
  Action, pure, ◌>>=◌, ◌>>◌, Trace, Lookup, found, missing, unavailable, Env, Service, Result, ok,
  err, request,
}
use mini_paa_s.Deploy.Rollback.{
  find_app, app_of, find_deployment, deployment_of, reach_swap, rollback_to, rollback,
}
use mini_paa_s.Deploy.Rollback.Launch.{Undone, Done, RouteBack, CustomBack}
use mini_paa_s.Deploy.Rollback.Endings.{Ending, rollback_to-Ends}
use mini_paa_s.Deploy.View.{View, targets, untouched, start, observe}
use mini_paa_s.Deploy.Runs.{
  Runs, RunsAt, RunsAt-bind, Runs-RunsAt, bind_ok, Runs-bind, Runs-from, Runs-pure, Runs-raise,
  Runs-asked,
}
use mini_paa_s.Deploy.Outcome.{previous_row}
use mini_paa_s.Deploy.Helpers.{Runs-query}

abbrev named : Result App → App
named (ok app) = app
named (err _) = record { id = 0; name = ""; status = AppStatus.idle }

-- The app that this very rollback finds by its name, or the zero value where it finds none.
abbrev pub found_app : Env → Service → String → App
found_app env svc name = named (find_app env svc name []).0

-- A rollback up to the rollout lock, with the app that it has found.
abbrev reach_rollback : Env → Service → String → ℕ → Action App
reach_rollback env svc name target_id = do
  app ← find_app env svc name
  target ← find_deployment env svc request target_id
  reach_swap env svc app target
  pure app

-- `p` is the release that the query for the active one stands for once this very rollback has taken
-- the rollout lock of the app that it found: the row that it answers with, or no release where
-- there is none.
abbrev pub WasActive : Env → Service → String → ℕ → Deployment → Type 0
WasActive env svc name target_id p =
    let (r, t) = reach_rollback env svc name target_id [] in
    (app : App) × (r ≡ ok app) × (previous_row (env.active t app.id) ≡ some p)

module _ (env : Env) (svc : Service) (name : String) (target_id : ℕ) where
  abbrev the_app : App
  the_app = found_app env svc name

  abbrev P : Deployment → Type 0
  P = WasActive env svc name target_id

  abbrev Stays : {A : Type 0} → Result A → View → Type 0
  Stays r w = w ≡ start

  app_of-Stays : (l : Lookup App) → Runs target_id (app_of env svc l) start Stays
  unfolding app_of
  app_of-Stays (found app) = Runs-pure target_id _ refl
  app_of-Stays missing = Runs-raise target_id _ refl
  app_of-Stays unavailable = Runs-raise target_id _ refl

  find_app-Stays : Runs target_id (find_app env svc name) start Stays
  unfolding find_app
  find_app-Stays =
      Runs-query target_id (Runs-asked env target_id _ _ _ (λ b. refl) (λ l. refl)) app_of-Stays

  abbrev HasRow : Result Deployment → View → Type 0
  HasRow (ok d) w = (w ≡ start) × ((t : Trace) × (env.deployment t target_id ≡ found d))
  HasRow (err _) w = w ≡ start

  deployment_of-HasRow :
      (t : Trace) (l : Lookup Deployment)
      → env.deployment t target_id ≡ l
      → Runs target_id (deployment_of env svc l) start HasRow
  unfolding deployment_of
  deployment_of-HasRow t (found d) e = Runs-pure target_id _ (refl, (t, e))
  deployment_of-HasRow t missing e = Runs-raise target_id _ refl
  deployment_of-HasRow t unavailable e = Runs-raise target_id _ refl

  find_deployment-HasRow : Runs target_id (find_deployment env svc request target_id) start HasRow
  unfolding find_deployment
  find_deployment-HasRow =
      Runs-bind target_id Asked
        (Runs-asked env target_id _ _ _ (λ b. refl) (λ t. (refl, (t, refl))))
        (λ l w e. Runs-from target_id e.0 (deployment_of-HasRow e.1.0 l e.1.1)) (λ x w h. absurd h)
    where
      Asked : Result (Lookup Deployment) → View → Type 0
      Asked (ok l) w = (w ≡ start) × ((t : Trace) × (env.deployment t target_id ≡ l))
      Asked (err _) w = ⊥

  -- The release of the query, once the app, the target and the lock are there.
  reached :
      (app : App) (target : Deployment)
      → let t = (find_app env svc name []).1 in
        let t' = (find_deployment env svc request target_id t).1 in
        (find_app env svc name []).0 ≡ ok app
        → (find_deployment env svc request target_id t).0 ≡ ok target
        → (reach_swap env svc app target t').0 ≡ ok tt
        → (p : Deployment)
        → previous_row (env.active (reach_swap env svc app target t').1 app.id) ≡ some p
        → P p
  unfolding pure
  reached app target i j k p h =
      let path = bind_ok _ _ _ app i ∙ bind_ok _ _ _ target j ∙ bind_ok _ _ _ tt k in
      (
        app,
        ap (λ s. s.0) path,
        subst (λ t. previous_row (env.active t app.id) ≡ some p) (sym (ap (λ s. s.1) path)) h,
      )

  nothing_done : (app : App) (w : View) → w ≡ start → Undone P svc app 0 w
  nothing_done app w e = (untouched, untouched, false, e, inl refl, inl refl)

  module _
      (by_id : (t : Trace) (d : Deployment)
        → env.deployment t target_id ≡ found d
        → d.id ≡ target_id) where
    rollback-Ending : RunsAt target_id (rollback env svc name target_id) [] (Ending P svc the_app 0)
    unfolding rollback
    rollback-Ending =
        RunsAt-bind target_id Stays (Runs-RunsAt target_id find_app-Stays refl)
          (λ app i n.
            subst
              (λ a.
                RunsAt target_id
                  (find_deployment env svc request target_id >>= λ target.
                    rollback_to env svc app target)
                  (find_app env svc name []).1 (Ending P svc a 0))
              (sym (ap named i))
              (RunsAt-bind target_id HasRow (Runs-RunsAt target_id find_deployment-HasRow n)
                (λ target j h.
                  let same : target.id ≡ target_id = by_id h.1.0 target h.1.1 in
                  let t : Trace =
                    (find_deployment env svc request target_id (find_app env svc name []).1).1 in
                  subst (λ x. RunsAt x (rollback_to env svc app target) t (Ending P svc app 0)) same
                    (rollback_to-Ends env svc app target P t
                      (subst (λ x. observe x t ≡ start) (sym same) h.0) (reached app target i j)))
                (λ x w e. inl (nothing_done app w e))))
          (λ x w e. inl (nothing_done the_app w e))

    -- The summary of a whole rollback, and its result.
    abbrev pub view : View
    view = observe target_id (rollback env svc name target_id []).1

    abbrev pub answer : Result Deployment
    answer = (rollback env svc name target_id []).0

    ending : Ending P svc the_app 0 answer view
    ending = rollback-Ending.holds

    -- If a deployment is found under its own id only and `rollback` returns no error, then the
    -- target is stored as the running release, `running` is the status that was written for it, and
    -- the route of the app that was found by the name points to a port that it was switched to.
    pub rollback_success :
        (restored : Deployment)
        → answer ≡ ok restored
        → (view.committed ≡ true)
          × (view.verdict ≡ some DeploymentStatus.running)
          × (view.restore_failed ≡ false)
          × ((port : ℕ) × (view.route ≡ targets (found_app env svc name).name port))
    rollback_success restored h = at_ok (subst (λ r. Ending P svc the_app 0 r view) h ending)
      where
        at_ok :
            Done the_app 0 view
            → (view.committed ≡ true)
              × (view.verdict ≡ some DeploymentStatus.running)
              × (view.restore_failed ≡ false)
              × ((port : ℕ) × (view.route ≡ targets (found_app env svc name).name port))
        at_ok (port, custom, e) = rw e (refl, refl, refl, (port, refl))

    -- If a deployment is found under its own id only and `rollback` returns an error, then either
    -- the target is stored as the running release, with the status `running`, and the route of
    -- the app that was found by the name points to a port that it was switched to, a switch that was not undone; or nothing is committed and
    -- no status is written for the target. In the second case the route was left alone, or the
    -- router refused to restore it, or it went back to the release that the query for the active
    -- one answers at the moment at which this rollback has taken the rollout lock, or to no route
    -- where that release has no container or there is none; the routes of the custom domains were
    -- left alone, or a change of them was refused half way, or they went back in the same way.
    -- Where the router can only delete a route and set it anew, a switch that it refused may also
    -- have left the app's route in between.
    pub rollback_failure :
        (e : Error)
        → answer ≡ err e
        → ((view.committed ≡ true)
            × (view.verdict ≡ some DeploymentStatus.running)
            × (view.restore_failed ≡ false)
            × ((port : ℕ) × (view.route ≡ targets (found_app env svc name).name port)))
          ⊎ ((view.committed ≡ false)
              × (view.verdict ≡ none)
              × RouteBack
                  (WasActive env svc name target_id)
                  svc
                  (found_app env svc name)
                  view.route
                  view.restore_failed
              × CustomBack (WasActive env svc name target_id) (found_app env svc name) view.custom)
    rollback_failure e h = at_err (subst (λ r. Ending P svc the_app 0 r view) h ending)
      where
        at_err :
            Undone P svc the_app 0 view ⊎ Done the_app 0 view
            → ((view.committed ≡ true)
                × (view.verdict ≡ some DeploymentStatus.running)
                × (view.restore_failed ≡ false)
                × ((port : ℕ) × (view.route ≡ targets (found_app env svc name).name port)))
              ⊎ ((view.committed ≡ false)
                  × (view.verdict ≡ none)
                  × RouteBack
                      (WasActive env svc name target_id)
                      svc
                      (found_app env svc name)
                      view.route
                      view.restore_failed
                  × CustomBack
                      (WasActive env svc name target_id)
                      (found_app env svc name)
                      view.custom)
        at_err (inl (route, custom, refused, e, l, c)) = rw e (inr (refl, refl, l, c))
        at_err (inr (port, custom, e)) = rw e (inl (refl, refl, refl, (port, refl)))
