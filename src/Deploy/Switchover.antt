-- ===== src/Deploy/Switchover.antt =====
-- How the switch of the routes to a candidate and its commit can end.
use mini_paa_s.Common.{
  ℕ, ◌≡◌, refl, Bool, true, false, ◌&&◌, not, Option, some, ◌==◌, if◌then◌else◌, arith, ◌⊎◌, inl,
  inr, String,
}
use mini_paa_s.Domain.{App, DeploymentStatus, Deployment, Error, Stage, ContainerInfo}
use mini_paa_s.Deploy.Effects.{Call, request, Result, ok, err, Action, ◌>>=◌, Env, perform, Service}
use mini_paa_s.Deploy.Steps.{restore_route}
use mini_paa_s.Deploy.Rollout.{
  switch_failed, sync_failed, withdraw, publish, promote_failed, promote, retire,
}
use mini_paa_s.Deploy.View.{View, Route, targets, untouched, uncertain, start}
use mini_paa_s.Deploy.Runs.{
  Runs, Runs-bind, Runs-or_else, Runs-if, Runs-case, Runs-from, Runs-pure, Runs-raise, Runs-perform,
  Runs-ignore,
}
use mini_paa_s.Deploy.Helpers.{
  cancelled_view, Leaves, Checks, Switches, Runs-seq, Runs-read, event-Leaves, error_event-Leaves,
  check_cancelled-Checks, switch_route-Switches, cleanup_candidate-Leaves, prune_images-Leaves,
}
use mini_paa_s.Deploy.Restoring.{
  fallback, Restores, RestoredTo, restored_view, restore_route-Restores,
}
use mini_paa_s.Deploy.Outcome.{Lands, Failed, Goes, Moves}
use mini_paa_s.Deploy.Candidate.{fail_step-Runs, abandon-Runs, give_up-Runs, started, routed}

module _ (env : Env) (svc : Service) (dep : Deployment) (app : App) (P : Deployment → Type 0) where
  -- After the routes were sent back the request fails as it should.
  lands :
      (previous : Deployment) (route : Route String) (refused : Bool)
      → P previous
      → (refused ≡ true) ⊎ (route ≡ fallback app.name previous)
      → Lands P svc app route refused
  lands previous route refused i (inl e) = inr (inl e)
  lands previous route refused i (inr e) = inr (inr (inl (previous, i, e)))

  -- Restore the routes, then whatever follows from the restored summary.
  Runs-restore :
      {A : Type 0} (f : Unit {0} → Action A) (previous : Deployment) (v : View)
      {Q : Result A → View → Type 0}
      → ((route : Route String) (custom : Route ℕ) (refused : Bool)
          → RestoredTo app previous v route custom refused
          → Runs dep.id (f tt) (restored_view v route custom refused) Q)
      → Runs dep.id (restore_route env svc app previous >>= f) v Q
  Runs-restore f previous v k =
      Runs-bind dep.id (Restores app previous v)
        (restore_route-Restores env svc dep.id app previous v)
        (λ u w h. Runs-from dep.id h.3 (k h.0 h.1 h.2 h.4)) (λ e w x. absurd x)

  module _ (d : Option DeploymentStatus) (previous : Deployment) (info : ContainerInfo) where
    -- The failures of the rollout, for any postcondition that allows a failure.
    module _ {A : Type 0} (Q : Result A → View → Type 0)
        (q : (e : Error) (w : View) → Failed P svc app 0 1 e w → Q (err e) w) where
      switch_failed-Runs :
          (route : Route String)
          → Lands P svc app route false
          → Runs dep.id
              (switch_failed env svc dep app {A = A} info)
              (record (started env svc dep app P d info) { route = route })
              Q
      unfolding switch_failed
      switch_failed-Runs route l = Runs-read dep.id _ λ done.
          Runs-if dep.id done
            (abandon-Runs env svc dep app P _ info refl refl
              (q _ _ (route, untouched, false, refl, l)))
            (give_up-Runs env svc dep app P _ Stage.switch_route info refl refl
              (q _ _ (route, untouched, false, refl, l)))

    module _ (Q : Result (Unit {0}) → View → Type 0)
        (q : (e : Error) (w : View) → Failed P svc app 0 1 e w → Q (err e) w) (i : P previous)
        (custom : Route ℕ) where
      sync_failed-Runs :
          Runs dep.id
            (sync_failed env svc dep app previous info)
            (routed env svc dep app P d info custom)
            Q
      unfolding sync_failed
      sync_failed-Runs =
          Runs-restore _ previous (routed env svc dep app P d info custom)
            λ route custom' refused h.
              give_up-Runs env svc dep app P _ Stage.sync_custom_domains info refl refl
                (q _ _ (route, custom', refused, refl, lands previous route refused i h.0))

      withdraw-Runs :
          Runs dep.id
            (withdraw env svc dep app previous info)
            (cancelled_view (routed env svc dep app P d info custom))
            Q
      unfolding withdraw
      withdraw-Runs =
          Runs-restore _ previous (cancelled_view (routed env svc dep app P d info custom))
            λ route custom' refused h.
              Runs-seq dep.id _ (cleanup_candidate-Leaves env svc dep.id _ info.id refl refl) λ _.
                Runs-raise dep.id _
                  (q _ _ (route, custom', refused, refl, lands previous route refused i h.0))

      promote_failed-Runs :
          Runs dep.id
            (promote_failed env svc dep app previous info)
            (routed env svc dep app P d info custom)
            Q
      unfolding promote_failed
      promote_failed-Runs = Runs-read dep.id _ λ done.
          Runs-restore _ previous (routed env svc dep app P d info custom)
            λ route custom' refused h.
              Runs-if dep.id done
                (abandon-Runs env svc dep app P _ info refl refl
                  (q _ _ (route, custom', refused, refl, lands previous route refused i h.0)))
                (Runs-seq dep.id _ (cleanup_candidate-Leaves env svc dep.id _ info.id refl refl)
                  λ _. Runs-seq dep.id _ (error_event-Leaves env svc dep.id _) λ _.
                    fail_step-Runs env svc dep app P _ Stage.mark_running
                      (q _ _ (route, custom', refused, refl, lands previous route refused i h.0)))

    abbrev pub Publishes : {A : Type 0} → Result A → View → Type 0
    Publishes (ok _) w = (custom : Route ℕ) × (w ≡ routed env svc dep app P d info custom)
    Publishes (err e) w = Failed P svc app 0 1 e w

    abbrev Synced : Result (Unit {0}) → View → Type 0
    Synced r w = (custom : Route ℕ) × (w ≡ routed env svc dep app P d info custom)

    pub publish-Publishes :
        P previous
        → Runs dep.id
            (publish env svc dep app previous info)
            (started env svc dep app P d info)
            Publishes
    unfolding publish
    publish-Publishes i =
        Runs-bind dep.id Publishes
          (Runs-or_else dep.id
            (Switches svc.has_atomic_router app.name info.port (started env svc dep app P d info))
            (switch_route-Switches env svc dep.id app.name info.port _) (λ _ w e. (untouched, e))
            (λ _ w e. elim e [
              | inl same ↦
                  Runs-from dep.id same
                    (switch_failed-Runs Publishes (λ x w h. h) untouched (inl refl))
              | inr half ↦ Runs-from dep.id half.1 (
                  switch_failed-Runs Publishes (λ x w h. h) uncertain
                    (inr (inr (inr (half.0, refl)))))
            ]))
          (λ url w h. Runs-from dep.id h.1 (
            Runs-bind dep.id Publishes
              (Runs-if dep.id svc.has_custom_domains
                (Runs-or_else dep.id Synced
                  (Runs-perform env dep.id _ _ (targets app.id info.port, refl) (uncertain, refl))
                  (λ _ w e. e)
                  (λ _ w e. Runs-from dep.id e.1 (sync_failed-Runs Publishes (λ x w h. h) i e.0)))
                (Runs-pure dep.id _ (h.0, refl)))
              (λ _ w h. Runs-from dep.id h.1 (
                Runs-bind dep.id Publishes
                  (Runs-or_else dep.id (Checks (routed env svc dep app P d info h.0))
                    (check_cancelled-Checks env svc dep.id _) (λ _ w e. (h.0, e))
                    (λ _ w e. Runs-from dep.id e.1 (withdraw-Runs Publishes (λ x w h. h) i h.0)))
                  (λ _ w h. Runs-pure dep.id _ h) (λ x w h. h)))
              (λ x w h. h)))
          (λ x w h. h)

    -- The summary of a committed release.
    abbrev pub committed_view : Route ℕ → View
    committed_view custom = record start {
      rollouts = 1;
      committed = true;
      route = targets app.name info.port;
      custom = custom;
      verdict = some DeploymentStatus.running;
    }

    commit-Moves :
        (b : Bool) (custom : Route ℕ)
        → Runs dep.id
            (perform env request (
              if b
              then Call.promote_candidate dep.id info dep.image_tag
              else Call.update_running dep.id info dep.image_tag))
            (routed env svc dep app P d info custom)
            (Moves (routed env svc dep app P d info custom) (committed_view custom))
    commit-Moves true custom = Runs-perform env dep.id _ _ (ground arith) refl
    commit-Moves false custom = Runs-perform env dep.id _ _ (ground arith) refl

    pub promote-Goes :
        (custom : Route ℕ)
        → P previous
        → Runs dep.id
            (promote env svc dep app previous info)
            (routed env svc dep app P d info custom)
            (Goes P svc app 0 1 (committed_view custom))
    unfolding promote
    promote-Goes custom i =
        Runs-or_else dep.id (Moves (routed env svc dep app P d info custom) (committed_view custom))
          (commit-Moves svc.has_candidate_store custom) (λ _ w e. e)
          (λ _ w e. Runs-from dep.id e (promote_failed-Runs _ (λ x w h. h) i custom))

    pub retire-Leaves :
        (url : String) (custom : Route ℕ)
        → Runs dep.id
            (retire env svc dep app previous url)
            (committed_view custom)
            (Leaves (committed_view custom))
    unfolding retire
    retire-Leaves url custom = Runs-seq dep.id v (Runs-ignore env dep.id _ _ refl refl) λ _.
        Runs-seq dep.id v (Runs-ignore env dep.id _ _ refl refl) λ _.
          Runs-seq dep.id v
            (Runs-case dep.id (not (previous.container_id == 0) && not (previous.id == dep.id))
              (λ old. Runs-seq dep.id v (event-Leaves env svc dep.id _ v) λ _.
                Runs-seq dep.id v (Runs-ignore env dep.id _ _ (ground arith) (ground arith)) λ _.
                  Runs-seq dep.id v (Runs-ignore env dep.id _ _ (ground arith) (ground arith))
                    λ _. Runs-ignore env dep.id _ _ (ground arith) (ground arith))
              (λ _. Runs-pure dep.id _ refl))
            λ _.
              Runs-seq dep.id v (prune_images-Leaves env svc dep.id app.id v)
                λ _. event-Leaves env svc dep.id _ v
      where
        v : View
        v = committed_view custom
