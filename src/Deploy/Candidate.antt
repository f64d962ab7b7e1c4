-- ===== src/Deploy/Candidate.antt =====
-- How a request that rolls a deployment out can end before its candidate is published.
use mini_paa_s.Common.{ℕ, ◌≡◌, refl, some, ap, ◌∙◌, true, false, Option, inl}
use mini_paa_s.Domain.{
  App, DeploymentStatus, Deployment, deployment_cancelled, step_failed, Stage, ContainerInfo,
}
use mini_paa_s.Deploy.Effects.{
  Trace, Result, ok, err, Env, Lookup, found, missing, unavailable, Service,
}
use mini_paa_s.Deploy.Steps.{finish_cancelled}
use mini_paa_s.Deploy.Rollout.{
  fail_step, previous_of, find_previous, start_failed, persist_failed, start_candidate, abandon,
  give_up, not_ready, await_ready,
}
use mini_paa_s.Deploy.View.{observe, View, Route, targets, untouched, start}
use mini_paa_s.Deploy.Runs.{
  Runs, Runs-bind, Runs-or_else, Runs-if, Runs-weaken, Runs-from, Runs-pure, Runs-raise,
  Runs-perform, RunsAt, RunsAt-bind, RunsAt-asked, Runs-RunsAt,
}
use mini_paa_s.Deploy.Helpers.{
  cancelled_view, failed_view, cleaned_view, Leaves, Raises, Runs-seq, Runs-check, Runs-read,
  event-Leaves, error_event-Leaves, mark_failed-Leaves, finish_cancelled-Raises,
  check_cancelled-Checks, cleanup_container-Leaves, cleanup_candidate-Leaves,
}
use mini_paa_s.Deploy.Outcome.{previous_row, Failed, Goes, Leaves-Goes, phase, Moves}

module _ (env : Env) (svc : Service) (dep : Deployment) (app : App) (P : Deployment → Type 0) where
  -- The ways out, for any postcondition of the summary that they leave.
  module _ {A : Type 0} (v : View) {Q : Result A → View → Type 0} where
    pub finish_cancelled-Runs :
        Q (err deployment_cancelled) (cancelled_view v)
        → Runs dep.id (finish_cancelled env svc {A = A} dep.id) v Q
    finish_cancelled-Runs q =
        Runs-weaken dep.id (Raises deployment_cancelled (cancelled_view v))
          (finish_cancelled-Raises env svc dep.id A v) (ends q)
      where
        ends :
            Q (err deployment_cancelled) (cancelled_view v)
            → (r : Result A) (w : View) → Raises deployment_cancelled (cancelled_view v) r w
            → Q r w
        ends q (ok _) w h = absurd h
        ends q (err e) w h = rw (h.0, h.1) q

    pub fail_step-Runs :
        (stage : Stage)
        → Q (err (step_failed stage)) (failed_view v)
        → Runs dep.id (fail_step env svc dep app {A = A} stage) v Q
    unfolding fail_step
    fail_step-Runs stage q =
        Runs-seq dep.id (failed_view v) (mark_failed-Leaves env svc dep.id _ _ _)
          λ _. Runs-raise dep.id _ q

    pub abandon-Runs :
        (info : ContainerInfo)
        → info.id ≡ v.candidate
        → v.safe ≡ true
        → Q (err deployment_cancelled) (cancelled_view (cleaned_view v))
        → Runs dep.id (abandon env svc dep app {A = A} info) v Q
    unfolding abandon
    abandon-Runs info i s q =
        Runs-seq dep.id (cleaned_view v) (cleanup_candidate-Leaves env svc dep.id v info.id i s)
          λ _.
            Runs-weaken dep.id (Raises deployment_cancelled (cancelled_view (cleaned_view v)))
              (finish_cancelled-Raises env svc dep.id A _) (ends q)
      where
        ends :
            Q (err deployment_cancelled) (cancelled_view (cleaned_view v))
            → (r : Result A) (w : View)
            → Raises deployment_cancelled (cancelled_view (cleaned_view v)) r w
            → Q r w
        ends q (ok _) w h = absurd h
        ends q (err e) w h = rw (h.0, h.1) q

    pub give_up-Runs :
        (stage : Stage) (info : ContainerInfo)
        → info.id ≡ v.candidate
        → v.safe ≡ true
        → Q (err (step_failed stage)) (failed_view (cleaned_view v))
        → Runs dep.id (give_up env svc dep app {A = A} stage info) v Q
    unfolding give_up fail_step
    give_up-Runs stage info i s q =
        Runs-seq dep.id (cleaned_view v) (cleanup_candidate-Leaves env svc dep.id v info.id i s)
          λ _. Runs-seq dep.id (cleaned_view v) (event-Leaves env svc dep.id _ _) λ _.
            Runs-seq dep.id (failed_view (cleaned_view v)) (mark_failed-Leaves env svc dep.id _ _ _)
              λ _. Runs-raise dep.id _ q

  -- Found, with its row.
  abbrev pub Finds : View → Result Deployment → View → Type 0
  Finds v (ok p) w = (w ≡ v) × P p
  Finds v (err e) w = Failed P svc app 0 1 e w

  previous_of-Finds :
      (d : Option DeploymentStatus) (l : Lookup Deployment)
      → ((p : Deployment) → previous_row l ≡ some p → P p)
      → Runs dep.id (previous_of env svc dep app l) (phase 0 1 d) (Finds (phase 0 1 d))
  unfolding previous_of
  previous_of-Finds d (found p) was = Runs-pure dep.id _ (refl, was p refl)
  previous_of-Finds d missing was = Runs-pure dep.id _ (refl, was _ refl)
  previous_of-Finds d unavailable was =
      fail_step-Runs (phase 0 1 d) Stage.get_active (untouched, untouched, false, refl, inl refl)

  -- The release that the query at this very trace stands for.
  pub find_previous-Finds :
      (d : Option DeploymentStatus) (t : Trace)
      → observe dep.id t ≡ phase 0 1 d
      → ((p : Deployment) → previous_row (env.active t app.id) ≡ some p → P p)
      → RunsAt dep.id (find_previous env svc dep app) t (Finds (phase 0 1 d))
  unfolding find_previous
  find_previous-Finds d t before was =
      RunsAt-bind dep.id Asked (RunsAt-asked env dep.id _ _ _ before (λ b. refl) (refl, refl))
        (λ l i e.
          Runs-RunsAt dep.id
            (Runs-bind dep.id (Finds (phase 0 1 d))
              (previous_of-Finds d l (λ p h. was p (ap previous_row e.1 ∙ h)))
              (λ p w h. Runs-from dep.id h.0 (
                Runs-check dep.id (check_cancelled-Checks env svc dep.id _)
                  (λ _.
                    Runs-seq dep.id (phase 0 1 d) (event-Leaves env svc dep.id _ _)
                      λ _. Runs-pure dep.id _ (refl, h.1))
                  (untouched, untouched, false, refl, inl refl)))
              (λ x w h. h))
            e.0)
        (λ x w h. absurd h)
    where
      Asked : Result (Lookup Deployment) → View → Type 0
      Asked (ok l) w = (w ≡ phase 0 1 d) × (env.active t app.id ≡ l)
      Asked (err _) w = ⊥

  -- The summary with a candidate, and later with its routes.
  abbrev pub started : Option DeploymentStatus → ContainerInfo → View
  started d info = record start { rollouts = 1; verdict = d; candidate = info.id }

  abbrev pub routed : Option DeploymentStatus → ContainerInfo → Route ℕ → View
  routed d info custom = record start {
    rollouts = 1;
    verdict = d;
    candidate = info.id;
    route = targets app.name info.port;
    custom = custom;
  }

  abbrev pub Starts : Option DeploymentStatus → Result ContainerInfo → View → Type 0
  Starts d (ok info) w = w ≡ started d info
  Starts d (err e) w = Failed P svc app 0 1 e w

  start_failed-Goes :
      (d : Option DeploymentStatus) (v : View)
      → Runs dep.id
          (start_failed env svc dep app)
          (phase 0 1 d)
          (Goes P svc app {A = Unit {0}} 0 1 v)
  unfolding start_failed
  start_failed-Goes d v = Runs-read dep.id _ λ done.
      Runs-if dep.id done (finish_cancelled-Runs _ (untouched, untouched, false, refl, inl refl)) (
        Runs-seq dep.id (phase 0 1 d) (error_event-Leaves env svc dep.id _)
          λ _. fail_step-Runs _ Stage.run_container (untouched, untouched, false, refl, inl refl))

  persist_failed-Goes :
      (d : Option DeploymentStatus) (info : ContainerInfo)
      → Runs dep.id
          (persist_failed env svc dep app info)
          (started d info)
          (Goes P svc app 0 1 (started d info))
  unfolding persist_failed
  persist_failed-Goes d info =
      Runs-seq dep.id (phase 0 1 d) (cleanup_container-Leaves env svc dep.id _ info.id refl refl)
        λ _. fail_step-Runs _ Stage.persist_candidate (untouched, untouched, false, refl, inl refl)

  pub start_candidate-Starts :
      (d : Option DeploymentStatus)
      → Runs dep.id (start_candidate env svc dep app) (phase 0 1 d) (Starts d)
  unfolding start_candidate
  start_candidate-Starts d = Runs-read dep.id _ λ info.
      Runs-bind dep.id (Goes P svc app 0 1 (started d info))
        (Runs-or_else dep.id (Moves (phase 0 1 d) (started d info))
          (Runs-perform env dep.id _ _ refl refl) (λ _ w e. e)
          (λ _ w e. Runs-from dep.id e (start_failed-Goes d _)))
        (λ _ w e. Runs-from dep.id e (
          Runs-bind dep.id (Goes P svc app 0 1 (started d info))
            (Runs-if dep.id svc.has_candidate_store
              (Runs-or_else dep.id (λ r w. w ≡ started d info)
                (Runs-perform env dep.id _ _ refl refl) (λ _ w e. e)
                (λ _ w e. Runs-from dep.id e (persist_failed-Goes d info)))
              (Runs-pure dep.id _ refl))
            (λ _ w e. Runs-pure dep.id _ e) (λ x w h. h)))
        (λ x w h. h)

  not_ready-Goes :
      (d : Option DeploymentStatus) (info : ContainerInfo)
      → Runs dep.id
          (not_ready env svc dep app info)
          (started d info)
          (Goes P svc app 0 1 (started d info))
  unfolding not_ready
  not_ready-Goes d info = Runs-read dep.id _ λ done.
      Runs-if dep.id done
        (abandon-Runs _ info refl refl (untouched, untouched, false, refl, inl refl))
        (give_up-Runs _ Stage.readiness info refl refl
          (untouched, untouched, false, refl, inl refl))

  pub await_ready-Goes :
      (d : Option DeploymentStatus) (info : ContainerInfo)
      → Runs dep.id
          (await_ready env svc dep app info)
          (started d info)
          (Goes P svc app 0 1 (started d info))
  unfolding await_ready
  await_ready-Goes d info = Runs-seq dep.id v (event-Leaves env svc dep.id _ v) λ _.
      Runs-bind dep.id (Goes P svc app 0 1 v)
        (Runs-if dep.id svc.has_readiness
          (Runs-or_else dep.id (λ r w. w ≡ v) (Runs-perform env dep.id _ _ refl refl) (λ _ w e. e)
            (λ _ w e. Runs-from dep.id e (not_ready-Goes d info)))
          (Runs-pure dep.id _ refl))
        (λ _ w e. Runs-from dep.id e (
          Runs-read dep.id _ λ done.
            Runs-bind dep.id (Goes P svc app 0 1 v)
              (Runs-if dep.id done
                (abandon-Runs v info refl refl (untouched, untouched, false, refl, inl refl))
                (Runs-pure dep.id _ refl))
              (λ _ w e. Runs-from dep.id e (
                Runs-weaken dep.id (Leaves v) (event-Leaves env svc dep.id _ v)
                  (Leaves-Goes P svc app 0 1 v)))
              (λ x w h. h)))
        (λ x w h. h)
    where
      v : View
      v = started d info
