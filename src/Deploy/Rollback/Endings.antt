-- ===== src/Deploy/Rollback/Endings.antt =====
-- How a rollback can end.
use text.Mathlib.Text.{◌==◌ as str_eq}
use mini_paa_s.Common.{
  ℕ, ◌≡◌, refl, Bool, true, false, ◌&&◌, not, some, ◌==◌, if◌then◌else◌, arith, ◌⊎◌, inl, inr,
  String,
}
use mini_paa_s.Domain.{App, Deployment, Stage, ContainerInfo}
use mini_paa_s.Deploy.Effects.{
  Call, Ctx, request, detached, Trace, Lookup, found, missing, unavailable, Env, Service, Result,
  ok, err, perform,
}
use mini_paa_s.Deploy.Rollback.{
  promote_target, finish_rollback, swap_back, find_deployment, deployment_of, reach_swap,
  rollback_to, check_target, is_rollbackable,
}
use mini_paa_s.Deploy.Rollback.Launch.{
  Undone, Done, Backs, locked, launched, switched, promoted, FindsCurrent, find_current-Finds,
  Launches, start_target-Launches, await_target-Backs,
}
use mini_paa_s.Deploy.View.{observe, View, Route, untouched, start}
use mini_paa_s.Deploy.Runs.{
  Runs, RunsAt, RunsAt-bind, RunsAt-deferred, Runs-RunsAt, Runs-bind, Runs-or_else, Runs-if,
  Runs-case, Runs-weaken, Runs-from, Runs-pure, Runs-raise, Runs-perform, Runs-ignore, Runs-asked,
}
use mini_paa_s.Deploy.Helpers.{Runs-seq, Runs-query, event-Leaves}
use mini_paa_s.Deploy.Outcome.{previous_row, Moves}
use mini_paa_s.Deploy.Rollback.Publish.{Settled, Publishes, publish_target-Publishes, revert-Runs}

-- The two ways in which a rollback ends, with so many rollout locks held.
abbrev pub Ending : (Deployment → Type 0) → Service → App → ℕ → Result Deployment → View → Type 0
Ending P svc app rollouts (ok _) w = Done app rollouts w
Ending P svc app rollouts (err _) w = Undone P svc app rollouts w ⊎ Done app rollouts w

module _ (env : Env) (svc : Service) (app : App) (target : Deployment) (P : Deployment → Type 0)
    (begin : Trace)
    (was : (p : Deployment) → previous_row (env.active begin app.id) ≡ some p → P p) where
  -- One call that stores the candidate as the running release.
  commit-Moves :
      (b : Bool) (info : ContainerInfo) (custom : Route ℕ)
      → Runs target.id
          (perform env request (
            if b
            then Call.promote_candidate target.id info target.image_tag
            else Call.update_running target.id info target.image_tag))
          (switched env svc app target P begin was info custom)
          (Moves
            (switched env svc app target P begin was info custom)
            (promoted env svc app target P begin was info custom))
  commit-Moves true info custom = Runs-perform env target.id _ _ (ground arith) refl
  commit-Moves false info custom = Runs-perform env target.id _ _ (ground arith) refl

  promote_target-Backs :
      (previous : Deployment) (info : ContainerInfo) (custom : Route ℕ)
      → P previous
      → Settled env svc app target P begin was custom
      → Runs target.id
          (promote_target env svc app target previous info)
          (switched env svc app target P begin was info custom)
          (Backs P svc app 1 (promoted env svc app target P begin was info custom))
  unfolding promote_target
  promote_target-Backs previous info custom p s =
      Runs-or_else target.id
        (Moves (switched env svc app target P begin was info custom)
          (promoted env svc app target P begin was info custom))
        (commit-Moves svc.has_candidate_store info custom) (λ _ w e. e)
        (λ _ w e. Runs-from target.id e (
          revert-Runs env svc app target P begin was Stage.promote_candidate previous info custom _
            p s (λ x w h. h)))

  deployment_of-Runs :
      (l : Lookup Deployment) (v : View) → Runs target.id (deployment_of env svc l) v (λ r w. w ≡ v)
  unfolding deployment_of
  deployment_of-Runs (found d) v = Runs-pure target.id _ refl
  deployment_of-Runs missing v = Runs-raise target.id _ refl
  deployment_of-Runs unavailable v = Runs-raise target.id _ refl

  reread-Runs :
      (ctx : Ctx) (id : ℕ) (v : View)
      → Runs target.id (find_deployment env svc ctx id) v (λ r w. w ≡ v)
  unfolding find_deployment
  reread-Runs ctx id v =
      Runs-query target.id (Runs-asked env target.id _ _ _ (λ b. refl) (λ l. refl))
        (λ l. deployment_of-Runs l v)

  finish_rollback-Runs :
      (previous : Deployment) (info : ContainerInfo) (custom : Route ℕ) (url : String)
      → Runs target.id
          (finish_rollback env svc app target previous url)
          (promoted env svc app target P begin was info custom)
          (λ r w. w ≡ promoted env svc app target P begin was info custom)
  unfolding finish_rollback
  finish_rollback-Runs previous info custom url =
      Runs-seq target.id v (Runs-ignore env target.id _ _ refl refl) λ _.
        Runs-seq target.id v (Runs-ignore env target.id _ _ refl refl) λ _.
          Runs-seq target.id v
            (Runs-case target.id
              (not (previous.container_id == 0) && not (previous.id == target.id))
              (λ old. Runs-seq target.id v (event-Leaves env svc target.id _ v) λ _.
                Runs-seq target.id v (Runs-ignore env target.id _ _ (ground arith) (ground arith))
                  λ _.
                    Runs-seq target.id v
                      (Runs-ignore env target.id _ _ (ground arith) (ground arith))
                      λ _. Runs-ignore env target.id _ _ (ground arith) (ground arith))
              (λ _. Runs-pure target.id _ refl))
            λ _.
              Runs-seq target.id v (Runs-ignore env target.id _ _ refl refl)
                λ _. reread-Runs request target.id v
    where
      v : View
      v = promoted env svc app target P begin was info custom

  swap_back-Ends :
      observe target.id begin ≡ locked env svc app target P begin was
      → RunsAt target.id (swap_back env svc app target) begin (Ending P svc app 1)
  unfolding swap_back
  swap_back-Ends before =
      RunsAt-bind target.id (FindsCurrent env svc app target P begin was)
        (find_current-Finds env svc app target P begin was before)
        (λ previous i h.
          Runs-RunsAt target.id
            (Runs-bind target.id (Launches env svc app target P begin was)
              (start_target-Launches env svc app target P begin was previous)
              (λ info w e. Runs-from target.id e (
                Runs-bind target.id
                  (Backs P svc app 1 (launched env svc app target P begin was info))
                  (await_target-Backs env svc app target P begin was previous info)
                  (λ _ w e. Runs-from target.id e (
                    Runs-bind target.id (Publishes env svc app target P begin was info)
                      (publish_target-Publishes env svc app target P begin was previous info h.1)
                      (λ url w p. Runs-from target.id p.1 (
                        Runs-bind target.id
                          (Backs P svc app 1 (promoted env svc app target P begin was info p.0))
                          (promote_target-Backs previous info p.0 h.1 p.2)
                          (λ _ w e. Runs-from target.id e (
                            Runs-weaken target.id
                              (λ r w. w ≡ promoted env svc app target P begin was info p.0)
                              (finish_rollback-Runs previous info p.0 url) (finished info p.0)))
                          (λ x w h. inl h)))
                      (λ x w h. inl h)))
                  (λ x w h. inl h)))
              (λ x w h. inl h))
            h.0)
        (λ x w h. inl h)
    where
      finished :
          (info : ContainerInfo) (custom : Route ℕ) (r : Result Deployment) (w : View)
          → w ≡ promoted env svc app target P begin was info custom
          → Ending P svc app 1 r w
      finished info custom (ok _) w e = (info.port, custom, e)
      finished info custom (err _) w e = inr (info.port, custom, e)

  lock_given_back :
      (r : Result Deployment) (w : View)
      → Ending P svc app 1 r w
      → Runs target.id
          (perform env detached (Call.release_rollout app.id))
          w
          (λ _ w'. Ending P svc app 0 r w')
  lock_given_back (ok _) w (port, custom, h) =
      Runs-from target.id h
        (Runs-perform env target.id _ _ (port, custom, refl) (port, custom, refl))
  lock_given_back (err e) w (inr (port, custom, h)) =
      Runs-from target.id h
        (Runs-perform env target.id _ _ (inr (port, custom, refl)) (inr (port, custom, refl)))
  lock_given_back (err e) w (inl (route, custom, refused, h, l, c)) = Runs-from target.id h (
      Runs-perform env target.id _ _ (inl (route, custom, refused, refl, l, c))
        (inl (route, custom, refused, refl, l, c)))

module _ (env : Env) (svc : Service) (app : App) (target : Deployment) where
  check_target-Stays : Runs target.id (check_target env svc app target) start (λ r w. w ≡ start)
  unfolding check_target
  check_target-Stays =
      Runs-if target.id (not (target.app_id == app.id)) (Runs-raise target.id _ refl) (
        Runs-if target.id (str_eq target.image_tag "") (Runs-raise target.id _ refl) (
          Runs-if target.id (is_rollbackable env svc target.status) (Runs-pure target.id _ refl)
            (Runs-raise target.id _ refl)))

  -- The rollout lock is taken, or nothing was done.
  abbrev Locks : Result (Unit {0}) → View → Type 0
  Locks (ok _) w = w ≡ record start { rollouts = 1 }
  Locks (err _) w = w ≡ start

  reach_swap-Locks : Runs target.id (reach_swap env svc app target) start Locks
  unfolding reach_swap
  reach_swap-Locks =
      Runs-bind target.id Stays check_target-Stays
        (λ _ w e. Runs-from target.id e (
          Runs-bind target.id Stays
            (Runs-or_else target.id Stays (Runs-perform env target.id _ _ refl refl) (λ _ w e. e)
              (λ _ w e. Runs-raise target.id _ e))
            (λ _ w e. Runs-from target.id e (
              Runs-or_else target.id (Moves start (record start { rollouts = 1 }))
                (Runs-perform env target.id _ _ refl refl) (λ _ w e. e)
                (λ _ w e. Runs-raise target.id _ e)))
            (λ x w e. e)))
        (λ x w e. e)
    where
      Stays : Result (Unit {0}) → View → Type 0
      Stays r w = w ≡ start

  -- Every way in which a rollback to a given target can end, where `P` holds of the release that
  -- the query for the active one stands for when the rollout lock has been taken.
  pub rollback_to-Ends :
      (P : Deployment → Type 0) (t : Trace)
      → observe target.id t ≡ start
      → ((reach_swap env svc app target t).0 ≡ ok tt
          → (p : Deployment)
          → previous_row (env.active (reach_swap env svc app target t).1 app.id) ≡ some p
          → P p)
      → RunsAt target.id (rollback_to env svc app target) t (λ r w. Ending P svc app 0 r w)
  unfolding rollback_to
  rollback_to-Ends P t before was =
      RunsAt-bind target.id Locks (Runs-RunsAt target.id reach_swap-Locks before)
        (λ _ i e.
          RunsAt-deferred target.id (Ending P svc app 1)
            (swap_back-Ends env svc app target P _ (was i) e)
            (lock_given_back env svc app target P _ (was i)))
        (λ x w e. inl (unchanged w e))
    where
      unchanged : (w : View) → w ≡ start → Undone P svc app 0 w
      unchanged w e = (untouched, untouched, false, e, inl refl, inl refl)
