-- ===== src/Deploy/Stages.antt =====
-- How the part of a deployment before its rollout can end.
use mini_paa_s.Common.{
  is_blank, ℕ, ◌≡◌, refl, Bool, false, List, [], ◌∷◌, Option, none, some, arith, inl, String,
}
use mini_paa_s.Domain.{App, DeploymentStatus, Deployment, step_failed, Stage}
use mini_paa_s.Deploy.Effects.{Env, Service}
use mini_paa_s.Deploy.Build.{
  await_slot, persist_lines, start_build, build_timed_out, build_broken, build_failed,
  build_in_slot, prepare_failed, prepare,
}
use mini_paa_s.Deploy.View.{View, untouched, start}
use mini_paa_s.Deploy.Runs.{
  Runs, Runs-bind, Runs-or_else, Runs-if, Runs-from, Runs-pure, Runs-raise, Runs-perform,
}
use mini_paa_s.Deploy.Helpers.{
  Runs-seq, Runs-check, Runs-read, event-Leaves, error_event-Leaves, mark_failed-Leaves,
  check_cancelled-Checks,
}
use mini_paa_s.Deploy.Outcome.{verdict_of, Goes, phase, Moves, cancel-Goes}

module _ (env : Env) (svc : Service) (dep : Deployment) (app : App) (P : Deployment → Type 0) where
  pub await_slot-Goes :
      Runs dep.id (await_slot env svc dep app) start (Goes P svc app 0 0 (phase 1 0 none))
  unfolding await_slot
  await_slot-Goes =
      Runs-check dep.id (check_cancelled-Checks env svc dep.id start)
        (λ _. Runs-seq dep.id start (event-Leaves env svc dep.id _ start) λ _.
          Runs-or_else dep.id (Moves start (phase 1 0 none)) (Runs-perform env dep.id _ _ refl refl)
            (λ _ w e. e)
            (λ _ w e. Runs-from dep.id e (cancel-Goes env svc dep app P 0 0 none (phase 1 0 none))))
        (untouched, untouched, false, refl, inl refl)

  -- The build log is copied, or reading it failed; either way nothing else happened.
  persist_lines-Moves :
      (lines : List String) (scan_ok : Bool) (v : View)
      → Runs dep.id (persist_lines env svc dep app lines scan_ok) v (Moves v v)
  unfolding persist_lines
  persist_lines-Moves [] scan_ok v =
      Runs-if dep.id scan_ok (Runs-pure dep.id _ refl) (Runs-raise dep.id _ refl)
  persist_lines-Moves (line ∷ lines) scan_ok v = Runs-read dep.id _ λ done.
      Runs-bind dep.id (Moves v v)
        (Runs-if dep.id done (Runs-raise dep.id _ refl) (Runs-pure dep.id _ refl))
        (λ _ w e. Runs-from dep.id e (
          Runs-seq dep.id v
            (Runs-if dep.id (is_blank line) (Runs-pure dep.id _ refl)
              (event-Leaves env svc dep.id _ v))
            (λ _. persist_lines-Moves lines scan_ok v)))
        (λ _ w e. e)

  start_build-Moves :
      (dockerfile : String) (v : View)
      → Runs dep.id (start_build env svc dep app dockerfile) v (Moves v v)
  unfolding start_build
  start_build-Moves dockerfile v = Runs-if dep.id _ (Runs-perform env dep.id _ _ refl refl) (
      Runs-if dep.id svc.has_dockerfile_builder (Runs-perform env dep.id _ _ refl refl)
        (Runs-raise dep.id _ refl))

  build_timed_out-Goes :
      (slots rollouts : ℕ) (d : Option DeploymentStatus) (v : View)
      → Runs dep.id
          (build_timed_out env svc dep app)
          (phase slots rollouts d)
          (Goes P svc app slots rollouts v)
  unfolding build_timed_out
  build_timed_out-Goes slots rollouts d v =
      Runs-seq dep.id (phase slots rollouts d) (event-Leaves env svc dep.id _ _) λ _.
        Runs-seq dep.id (phase slots rollouts (some DeploymentStatus.failed))
          (mark_failed-Leaves env svc dep.id _ _ _)
          λ _. Runs-raise dep.id _ (untouched, untouched, false, refl, inl refl)

  pub build_broken-Goes :
      (slots rollouts : ℕ) (d : Option DeploymentStatus) (v : View) (stage : Stage)
      → verdict_of (step_failed stage) ≡ some DeploymentStatus.failed
      → Runs dep.id
          (build_broken env svc dep app stage)
          (phase slots rollouts d)
          (Goes P svc app slots rollouts v)
  unfolding build_broken
  build_broken-Goes slots rollouts d v stage e =
      Runs-seq dep.id (phase slots rollouts d) (error_event-Leaves env svc dep.id _) λ _.
        Runs-seq dep.id (phase slots rollouts (some DeploymentStatus.failed))
          (mark_failed-Leaves env svc dep.id _ _ _)
          λ _. Runs-raise dep.id _ (untouched, untouched, false, rw e, inl refl)

  build_failed-Goes :
      (d : Option DeploymentStatus) (v : View) (stage : Stage)
      → verdict_of (step_failed stage) ≡ some DeploymentStatus.failed
      → Runs dep.id (build_failed env svc dep app stage) (phase 1 0 d) (Goes P svc app 1 0 v)
  unfolding build_failed
  build_failed-Goes d v stage e = Runs-read dep.id _ λ late. Runs-read dep.id _ λ done.
      Runs-if dep.id late (build_timed_out-Goes 1 0 d v) (
        Runs-if dep.id done (cancel-Goes env svc dep app P 1 0 d v)
          (build_broken-Goes 1 0 d v stage e))

  pub build_in_slot-Goes :
      (dockerfile : String)
      → Runs dep.id
          (build_in_slot env svc dep app dockerfile)
          (phase 1 0 none)
          (Goes P svc app 1 0 (phase 1 0 (some DeploymentStatus.building)))
  unfolding build_in_slot
  build_in_slot-Goes dockerfile =
      Runs-bind dep.id (Goes P svc app 1 0 v)
        (Runs-or_else dep.id (λ r w. w ≡ v)
          (Runs-perform env dep.id _ _ (ground arith) (ground arith)) (λ _ w e. e)
          (λ _ w e. Runs-raise dep.id _ (untouched, untouched, false, e, inl refl)))
        (λ _ w e. Runs-from dep.id e (
          Runs-check dep.id (check_cancelled-Checks env svc dep.id v)
            (λ _. Runs-seq dep.id v (event-Leaves env svc dep.id _ v) λ _.
              Runs-bind dep.id (Goes P svc app 1 0 v)
                (Runs-or_else dep.id (Moves v v) (start_build-Moves dockerfile v) (λ _ w e. e)
                  (λ _ w e. Runs-from dep.id e (build_failed-Goes _ v Stage.build_image refl)))
                (λ _ w e. Runs-from dep.id e (
                  Runs-read dep.id _ λ lines. Runs-read dep.id _ λ scan_ok.
                    Runs-or_else dep.id (Moves v v) (persist_lines-Moves lines scan_ok v)
                      (λ _ w e. e)
                      (λ _ w e.
                        Runs-from dep.id e (build_failed-Goes _ v Stage.read_build_log refl))))
                (λ x w h. h))
            (untouched, untouched, false, refl, inl refl)))
        (λ x w h. h)
    where
      v : View
      v = phase 1 0 (some DeploymentStatus.building)

  prepare_failed-Goes :
      (d : Option DeploymentStatus) (v : View)
      → Runs dep.id (prepare_failed env svc dep app) (phase 0 0 d) (Goes P svc app 0 0 v)
  unfolding prepare_failed
  prepare_failed-Goes d v = Runs-read dep.id _ λ done.
      Runs-if dep.id done (cancel-Goes env svc dep app P 0 0 d v)
        (build_broken-Goes 0 0 d v Stage.decrypt_env refl)

  pub prepare-Goes :
      (d : Option DeploymentStatus)
      → Runs dep.id (prepare env svc dep app) (phase 0 0 d) (Goes P svc app 0 0 (phase 0 1 d))
  unfolding prepare
  prepare-Goes d =
      Runs-check dep.id (check_cancelled-Checks env svc dep.id _)
        (λ _. Runs-seq dep.id (phase 0 0 d) (event-Leaves env svc dep.id _ _) λ _.
          Runs-bind dep.id (Goes P svc app 0 0 (phase 0 0 d))
            (Runs-or_else dep.id (λ r w. w ≡ phase 0 0 d) (Runs-perform env dep.id _ _ refl refl)
              (λ _ w e. e) (λ _ w e. Runs-from dep.id e (prepare_failed-Goes d _)))
            (λ _ w e. Runs-from dep.id e (
              Runs-check dep.id (check_cancelled-Checks env svc dep.id _)
                (λ _.
                  Runs-or_else dep.id (Moves (phase 0 0 d) (phase 0 1 d))
                    (Runs-perform env dep.id _ _ refl refl) (λ _ w e. e)
                    (λ _ w e. Runs-from dep.id e (cancel-Goes env svc dep app P 0 0 d _)))
                (untouched, untouched, false, refl, inl refl)))
            (λ x w h. h))
        (untouched, untouched, false, refl, inl refl)
