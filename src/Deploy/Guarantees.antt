-- ===== src/Deploy/Guarantees.antt =====
-- What a deployment promises, whatever its dependencies answer.
use mini_paa_s.Common.{◌≡◌, refl, subst, false, String, [], some}
use mini_paa_s.Domain.{App, Deployment, Error}
use mini_paa_s.Deploy.Effects.{Env, Service, Result, ok, err}
use mini_paa_s.Deploy.Rollout.{reach_rollout, run_build}
use mini_paa_s.Deploy.View.{View, observe}
use mini_paa_s.Deploy.Outcome.{previous_row, verdict_of, Lands}
use mini_paa_s.Deploy.Endings.{Ends, run_build-Ends}

-- The summary of a whole run of the pipeline, and its result.
abbrev pub summary : Env → Service → Deployment → App → String → View
summary env svc dep app dockerfile = observe dep.id (run_build env svc dep app dockerfile []).1

abbrev pub result : Env → Service → Deployment → App → String → Result (Unit {0})
result env svc dep app dockerfile = (run_build env svc dep app dockerfile []).0

-- `p` is the release that the query for the active one stands for once this very run has taken the
-- rollout lock: the row that it answers with, or no release where there is none.
abbrev pub IsPrevious : Env → Service → Deployment → App → String → Deployment → Type 0
IsPrevious env svc dep app dockerfile p =
    previous_row (env.active (reach_rollout env svc dep app dockerfile []).1 app.id) ≡ some p

module _ (env : Env) (svc : Service) (dep : Deployment) (app : App) (dockerfile : String) where
  abbrev Previous : Deployment → Type 0
  Previous = IsPrevious env svc dep app dockerfile

  ending :
      Ends env svc dep app Previous 0
        (result env svc dep app dockerfile)
        (summary env svc dep app dockerfile)
  ending = (run_build-Ends env svc dep app Previous dockerfile [] refl (λ p e. e)).holds

  -- What holds of the summary on success and on failure.
  by_ending :
      (P : Result (Unit {0}) → View → Type 0)
      → ((w : View) → Ends env svc dep app Previous 0 (ok tt) w → P (ok tt) w)
      → ((e : Error) (w : View) → Ends env svc dep app Previous 0 (err e) w → P (err e) w)
      → (r : Result (Unit {0})) (w : View) → Ends env svc dep app Previous 0 r w
      → P r w
  by_ending P p q (ok tt) w h = p w h
  by_ending P p q (err e) w h = q e w h

  -- Whatever the dependencies answer, when `run_build` returns it has given back every build slot
  -- and every rollout lock that it took.
  pub locks_returned :
      let v = summary env svc dep app dockerfile in (v.slots ≡ 0) × (v.rollouts ≡ 0)
  locks_returned =
      by_ending (λ r v. (v.slots ≡ 0) × (v.rollouts ≡ 0)) (λ w (port, custom, h). rw h (refl, refl))
        (λ e w (route, custom, refused, h, l). rw h (refl, refl)) _ _ ending

  -- If `run_build` returns an error, no candidate is stored as the running release, and the status
  -- that it last asked to store tells the error: `cancelled` for a cancellation, `building` where that
  -- status could not be written, `failed` for every other error.
  pub failure_recorded :
      (e : Error)
      → result env svc dep app dockerfile ≡ err e
      → let v = summary env svc dep app dockerfile in
        (v.committed ≡ false) × (v.verdict ≡ verdict_of e)
  failure_recorded e h = at_err (subst (λ r. Ends env svc dep app Previous 0 r w) h ending)
    where
      w : View
      w = summary env svc dep app dockerfile

      at_err :
          Ends env svc dep app Previous 0 (err e) w
          → (w.committed ≡ false) × (w.verdict ≡ verdict_of e)
      at_err (route, custom, refused, h, l) = rw h (refl, refl)

  -- If `run_build` returns an error, then the route of the app was left alone, or the router
  -- refused to restore it, or it was restored: to the port of the release that the query for the
  -- active one answers at the moment at which this run has taken the rollout lock, or to no route
  -- where that release has no container or there is none. Where the router can only delete a route
  -- and set it anew, a switch that it refused may also have left the route in between.
  pub failure_restores_route :
      (e : Error)
      → result env svc dep app dockerfile ≡ err e
      → let v = summary env svc dep app dockerfile in
        Lands (IsPrevious env svc dep app dockerfile) svc app v.route v.restore_failed
  failure_restores_route e h = at_err (subst (λ r. Ends env svc dep app Previous 0 r w) h ending)
    where
      w : View
      w = summary env svc dep app dockerfile

      at_err :
          Ends env svc dep app Previous 0 (err e) w
          → Lands Previous svc app w.route w.restore_failed
      at_err (route, custom, refused, h, l) = rw h l
