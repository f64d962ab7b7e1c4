-- ===== src/Deploy/Stop/Guarantees.antt =====
-- What stopping an app promises, whatever its dependencies answer.
use mini_paa_s.Common.{ℕ, ◌≡◌, refl, true, false, [], arith, ◌⊎◌, inl, inr, subst}
use mini_paa_s.Domain.{App, Deployment, Error}
use mini_paa_s.Deploy.Effects.{
  Call, detached, Lookup, found, missing, unavailable, Env, Service, Result, ok, err, Action,
  perform, or_else, raise,
}
use mini_paa_s.Deploy.Stop.{stoppable, stop_deployment, stop_locked, stop_app}
use mini_paa_s.Deploy.View.{View, removed, start, observe}
use mini_paa_s.Deploy.Runs.{
  Runs, Runs-bind, Runs-or_else, Runs-if, Runs-case, Runs-from, Runs-pure, Runs-raise, Runs-perform,
  Runs-ignore, Runs-asked, Runs-deferred, Runs-gets,
}

module _ (env : Env) (svc : Service) (app : App) (dep : ℕ) where
  -- All routes are gone, with so many rollout locks held.
  abbrev Unrouted : ℕ → View → Type 0
  Unrouted rollouts w =
      (w.rollouts ≡ rollouts)
      × (w.route ≡ removed app.name)
      × ((svc.has_custom_domains ≡ false) ⊎ (w.custom ≡ removed app.id))

  -- No container was touched before the route was removed.
  abbrev Careful : ℕ → View → Type 0
  Careful rollouts w = (w.rollouts ≡ rollouts) × ((w.safe ≡ true) ⊎ (w.route ≡ removed app.name))

  abbrev Stops : {A : Type 0} → ℕ → Result A → View → Type 0
  Stops rollouts (ok _) w = Unrouted rollouts w
  Stops rollouts (err _) w = Careful rollouts w

  Unrouted-Careful : (k : ℕ) (w : View) → Unrouted k w → Careful k w
  Unrouted-Careful k w h = (h.0, inr h.1)

  stoppable-Stops :
      (l : Lookup Deployment) (v : View)
      → Unrouted 1 v
      → Runs dep (stoppable env svc app l) v (Stops 1)
  unfolding stoppable
  stoppable-Stops (found d) v h = Runs-pure dep _ h
  stoppable-Stops unavailable v h = Runs-raise dep _ (Unrouted-Careful 1 v h)
  stoppable-Stops missing v h =
      Runs-bind dep (Stops 1)
        (Runs-or_else dep (λ r w. Unrouted 1 w) (Runs-perform env dep _ _ h h) (λ _ w h. h)
          (λ _ w h. Runs-raise dep _ (Unrouted-Careful 1 w h)))
        (λ _ w h.
          Runs-bind dep (Stops 1) (Runs-gets dep _ (λ _. h)) (λ _ w h. Runs-pure dep _ h)
            (λ x w h. h))
        (λ x w h. h)

  -- A call that leaves the routes alone; its failure ends the request.
  call-Stops :
      (m : Action (Unit {0})) (v : View) (x : Error)
      → Runs dep m v (λ r w. Unrouted 1 w)
      → Runs dep (or_else m (raise x)) v (Stops 1)
  call-Stops m v x r =
      Runs-or_else dep (λ r w. Unrouted 1 w) r (λ _ w h. h)
        (λ _ w h. Runs-raise dep _ (Unrouted-Careful 1 w h))

  stop_deployment-Stops :
      (d : Deployment) (v : View)
      → Unrouted 1 v
      → Runs dep (stop_deployment env svc app d) v (Stops 1)
  unfolding stop_deployment
  stop_deployment-Stops d v h =
      Runs-if dep _
        (Runs-bind dep (Stops 1) (Runs-ignore env dep _ _ h h)
          (λ _ w h.
            Runs-bind dep (Stops 1) (call-Stops _ w _ (Runs-perform env dep _ _ h h))
              (λ _ w h. call-Stops _ w _ (Runs-perform env dep _ _ (ground arith) (ground arith)))
              (λ x w h. h))
          (λ x w h. h))
        (Runs-pure dep _ h)

  stop_locked-Stops : Runs dep (stop_locked env svc app) (record start { rollouts = 1 }) (Stops 1)
  unfolding stop_locked
  stop_locked-Stops =
      Runs-bind dep Gone
        (Runs-or_else dep Tried (Runs-perform env dep _ _ refl refl) (λ _ w e. e)
          (λ _ w e. Runs-from dep e (Runs-raise dep _ (refl, inl refl))))
        (λ _ w e. Runs-from dep e (
          Runs-bind dep (Stops 1)
            (Runs-case dep svc.has_custom_domains
              (λ _.
                Runs-or_else dep Domains
                  (Runs-perform env dep _ _ (refl, refl, inr refl) (refl, inr refl)) (λ _ w h. h)
                  (λ _ w h. Runs-raise dep _ h))
              (λ no_domains. Runs-pure dep _ (refl, refl, inl no_domains)))
            (λ _ w h.
              Runs-bind dep (Stops 1) (Runs-asked env dep _ _ _ (λ b. refl) (λ t. h))
                (λ l w h.
                  Runs-bind dep (Stops 1) (stoppable-Stops l w h)
                    (λ d w h.
                      Runs-bind dep (Stops 1) (stop_deployment-Stops d w h)
                        (λ _ w h.
                          Runs-bind dep (Stops 1) (call-Stops _ w _ (Runs-perform env dep _ _ h h))
                            (λ _ w h. call-Stops _ w _ (Runs-perform env dep _ _ h h)) (λ x w h. h))
                        (λ x w h. h))
                    (λ x w h. h))
                (λ x w h. h))
            (λ x w h. h)))
        (λ x w h. h)
    where
      Tried : Result (Unit {0}) → View → Type 0
      Tried (ok _) w = w ≡ record start { rollouts = 1; route = removed app.name }
      Tried (err _) w = w ≡ record start { rollouts = 1 }

      Gone : Result (Unit {0}) → View → Type 0
      Gone (ok _) w = w ≡ record start { rollouts = 1; route = removed app.name }
      Gone (err _) w = Careful 1 w

      Domains : Result (Unit {0}) → View → Type 0
      Domains (ok _) w = Unrouted 1 w
      Domains (err _) w = Careful 1 w

  lock_given_back :
      (r : Result (Unit {0})) (w : View)
      → Stops 1 r w
      → Runs dep (perform env detached (Call.release_rollout app.id)) w (λ _ w'. Stops 0 r w')
  lock_given_back (ok _) w h =
      Runs-perform env dep _ _ (ground arith, h.1, h.2) (ground arith, h.1, h.2)
  lock_given_back (err _) w h = Runs-perform env dep _ _ (ground arith, h.1) (ground arith, h.1)

  stop_app-Stops : Runs dep (stop_app env svc app) start (Stops 0)
  unfolding stop_app
  stop_app-Stops =
      Runs-bind dep Held
        (Runs-or_else dep Tried (Runs-perform env dep _ _ refl refl) (λ _ w e. e)
          (λ _ w e. Runs-from dep e (Runs-raise dep _ (refl, inl refl))))
        (λ _ w e. Runs-from dep e (Runs-deferred dep (Stops 1) stop_locked-Stops lock_given_back))
        (λ x w h. h)
    where
      Tried : Result (Unit {0}) → View → Type 0
      Tried (ok _) w = w ≡ record start { rollouts = 1 }
      Tried (err _) w = w ≡ start

      Held : Result (Unit {0}) → View → Type 0
      Held (ok _) w = w ≡ record start { rollouts = 1 }
      Held (err _) w = Careful 0 w

  -- The summary of a whole stop, and its result.
  abbrev pub view : View
  view = observe dep (stop_app env svc app []).1

  abbrev pub answer : Result (Unit {0})
  answer = (stop_app env svc app []).0

  either_way :
      (r : Result (Unit {0})) (w : View)
      → Stops 0 r w
      → (w.rollouts ≡ 0) × ((w.safe ≡ true) ⊎ (w.route ≡ removed app.name))
  either_way (ok _) w h = Unrouted-Careful 0 w h
  either_way (err _) w h = h

  -- Whatever the dependencies answer, when `stop_app` returns it holds no rollout lock, and it has
  -- stopped or removed a container only if the route of the app was removed.
  pub stop_removes_route_first :
      (view.rollouts ≡ 0) × ((view.safe ≡ true) ⊎ (view.route ≡ removed app.name))
  stop_removes_route_first = either_way _ _ (stop_app-Stops.at [] refl)

  -- If `stop_app` returns no error, the route of the app was removed, and those of its custom
  -- domains too where the service has custom domains.
  pub stop_unroutes :
      answer ≡ ok tt
      → (view.route ≡ removed app.name)
        × ((svc.has_custom_domains ≡ false) ⊎ (view.custom ≡ removed app.id))
  stop_unroutes e =
      let h : Unrouted 0 view = subst (λ r. Stops 0 r view) e (stop_app-Stops.at [] refl) in
      (h.1, h.2)
