-- ===== src/Deploy/Rollback/Launch.antt =====
-- How a rollback can end before its candidate is published.
use mini_paa_s.Common.{String, ℕ, ◌≡◌, refl, Bool, true, false, some, ◌==◌, ◌⊎◌, inl, inr}
use mini_paa_s.Domain.{App, Deployment, DeploymentStatus, Error, Stage, ContainerInfo}
use mini_paa_s.Deploy.Effects.{
  Trace, Lookup, found, missing, unavailable, Env, Service, Result, ok, err,
}
use mini_paa_s.Deploy.Rollback.{
  find_current, current_of, note_failed, start_refused, store_refused, start_target, drop_target,
  target_cancelled, await_target,
}
use mini_paa_s.Deploy.View.{observe, View, Route, targets, untouched, uncertain, start}
use mini_paa_s.Deploy.Runs.{
  Runs, Runs-bind, Runs-or_else, Runs-if, Runs-from, Runs-pure, Runs-raise, Runs-perform,
  Runs-ignore, RunsAt, RunsAt-bind, RunsAt-asked, Runs-RunsAt,
}
use mini_paa_s.Deploy.Helpers.{
  Leaves, Runs-seq, Runs-read, cleanup_container-Leaves, cleanup_candidate-Leaves,
}
use mini_paa_s.Deploy.Restoring.{fallback}
use mini_paa_s.Deploy.Outcome.{previous_row, Moves}

-- Where a failed rollback leaves a route of the app, and the routes of its custom domains, when
-- `P` holds of the release that was active before it. A router that cannot switch at once may have
-- stopped half way.
abbrev pub RouteBack : (Deployment → Type 0) → Service → App → Route String → Bool → Type 0
RouteBack P svc app route refused =
    (route ≡ untouched)
    ⊎ (refused ≡ true)
    ⊎ ((p : Deployment) × P p × (route ≡ fallback app.name p))
    ⊎ ((svc.has_atomic_router ≡ false) × (route ≡ uncertain))

abbrev pub CustomBack : (Deployment → Type 0) → App → Route ℕ → Type 0
CustomBack P app custom =
    (custom ≡ untouched)
    ⊎ (custom ≡ uncertain)
    ⊎ ((p : Deployment) × P p × (custom ≡ fallback app.id p))

-- The summary of a rollback that changed nothing for good.
abbrev pub Undone : (Deployment → Type 0) → Service → App → ℕ → View → Type 0
Undone P svc app rollouts w =
    (route : Route String) × (custom : Route ℕ) × (refused : Bool) × (w ≡ record start {
      rollouts = rollouts;
      route = route;
      custom = custom;
      restore_failed = refused;
    })
    × RouteBack P svc app route refused
    × CustomBack P app custom

-- The summary of a rollback that was committed.
abbrev pub Done : App → ℕ → View → Type 0
Done app rollouts w =
    (port : ℕ) × (custom : Route ℕ) × (w ≡ record start {
      rollouts = rollouts;
      committed = true;
      route = targets app.name port;
      custom = custom;
      verdict = some DeploymentStatus.running;
    })

abbrev pub Backs :
    {A : Type 0} → (Deployment → Type 0) → Service → App → ℕ → View → Result A → View → Type 0
Backs P svc app rollouts v (ok _) w = w ≡ v
Backs P svc app rollouts v (err _) w = Undone P svc app rollouts w

module _ (env : Env) (svc : Service) (app : App) (target : Deployment) (P : Deployment → Type 0)
    (begin : Trace)
    (was : (p : Deployment) → previous_row (env.active begin app.id) ≡ some p → P p) where
  abbrev pub locked : View
  locked = record start { rollouts = 1 }

  abbrev pub launched : ContainerInfo → View
  launched info = record start { rollouts = 1; candidate = info.id }

  abbrev pub switched : ContainerInfo → Route ℕ → View
  switched info custom = record start {
    rollouts = 1;
    candidate = info.id;
    route = targets app.name info.port;
    custom = custom;
  }

  abbrev pub promoted : ContainerInfo → Route ℕ → View
  promoted info custom = record start {
    rollouts = 1;
    committed = true;
    route = targets app.name info.port;
    custom = custom;
    verdict = some DeploymentStatus.running;
  }

  -- Nothing was routed yet.
  pub half_routed :
      svc.has_atomic_router ≡ false → Undone P svc app 1 (record locked { route = uncertain })
  half_routed h = (uncertain, untouched, false, refl, inr (inr (inr (h, refl))), inl refl)

  pub nothing_routed : Undone P svc app 1 locked
  nothing_routed = (untouched, untouched, false, refl, inl refl, inl refl)

  abbrev pub FindsCurrent : Result Deployment → View → Type 0
  FindsCurrent (ok p) w = (w ≡ locked) × P p
  FindsCurrent (err e) w = Undone P svc app 1 w

  current_of-Finds :
      (l : Lookup Deployment)
      → env.active begin app.id ≡ l
      → Runs target.id (current_of env svc app target l) locked FindsCurrent
  unfolding current_of
  current_of-Finds (found p) e =
      Runs-if target.id (p.id == target.id) (Runs-raise target.id _ nothing_routed)
        (Runs-pure target.id _ (refl, was p (rw e refl)))
  current_of-Finds missing e = Runs-pure target.id _ (refl, was _ (rw e refl))
  current_of-Finds unavailable e = Runs-raise target.id _ nothing_routed

  -- The release that the query at this very trace stands for.
  pub find_current-Finds :
      observe target.id begin ≡ locked
      → RunsAt target.id (find_current env svc app target) begin FindsCurrent
  unfolding find_current
  find_current-Finds before =
      RunsAt-bind target.id Asked (RunsAt-asked env target.id _ _ _ before (λ b. refl) (refl, refl))
        (λ l i e. Runs-RunsAt target.id (current_of-Finds l e.1) e.0) (λ x w h. absurd h)
    where
      Asked : Result (Lookup Deployment) → View → Type 0
      Asked (ok l) w = (w ≡ locked) × (env.active begin app.id ≡ l)
      Asked (err _) w = ⊥

  note_failed-Leaves :
      (previous : Deployment) (v : View)
      → Runs target.id (note_failed env svc app target previous) v (Leaves v)
  unfolding note_failed
  note_failed-Leaves previous v =
      Runs-if target.id (previous.container_id == 0) (Runs-ignore env target.id _ _ refl refl)
        (Runs-pure target.id _ refl)

  abbrev pub Launches : Result ContainerInfo → View → Type 0
  Launches (ok info) w = w ≡ launched info
  Launches (err e) w = Undone P svc app 1 w

  pub start_target-Launches :
      (previous : Deployment)
      → Runs target.id (start_target env svc app target previous) locked Launches
  unfolding start_target start_refused store_refused
  start_target-Launches previous = Runs-read target.id _ λ info.
      Runs-bind target.id (Backs P svc app 1 (launched info))
        (Runs-or_else target.id (Moves locked (launched info))
          (Runs-perform env target.id _ _ refl refl) (λ _ w e. e)
          (λ _ w e. Runs-from target.id e (
            Runs-seq target.id locked (note_failed-Leaves previous locked)
              λ _. Runs-raise target.id _ nothing_routed)))
        (λ _ w e. Runs-from target.id e (
          Runs-bind target.id (Backs P svc app 1 (launched info))
            (Runs-if target.id svc.has_candidate_store
              (Runs-or_else target.id (λ r w. w ≡ launched info)
                (Runs-perform env target.id _ _ refl refl) (λ _ w e. e)
                (λ _ w e. Runs-from target.id e (
                  Runs-seq target.id locked
                    (cleanup_container-Leaves env svc target.id _ info.id refl refl)
                    λ _. Runs-raise target.id _ nothing_routed)))
              (Runs-pure target.id _ refl))
            (λ _ w e. Runs-pure target.id _ e) (λ x w h. h)))
        (λ x w h. h)

  pub drop_target-Runs :
      {A : Type 0} (stage : Stage) (previous : Deployment) (info : ContainerInfo)
      (route : Route String) {Q : Result A → View → Type 0}
      → ((e : Error) → Q (err e) (record locked { route = route }))
      → Runs target.id
          (drop_target env svc app target stage previous info)
          (record (launched info) { route = route })
          Q
  unfolding drop_target
  drop_target-Runs stage previous info route q =
      Runs-seq target.id v (cleanup_candidate-Leaves env svc target.id _ info.id refl refl)
        λ _. Runs-seq target.id v (note_failed-Leaves previous v) λ _. Runs-raise target.id _ (q _)
    where
      v : View
      v = record locked { route = route }

  pub await_target-Backs :
      (previous : Deployment) (info : ContainerInfo)
      → Runs target.id
          (await_target env svc app target previous info)
          (launched info)
          (Backs P svc app 1 (launched info))
  unfolding await_target target_cancelled
  await_target-Backs previous info =
      Runs-bind target.id (Backs P svc app 1 (launched info))
        (Runs-if target.id svc.has_readiness
          (Runs-or_else target.id (λ r w. w ≡ launched info)
            (Runs-perform env target.id _ _ refl refl) (λ _ w e. e)
            (λ _ w e.
              Runs-from target.id e
                (drop_target-Runs Stage.readiness previous info untouched (λ e. nothing_routed))))
          (Runs-pure target.id _ refl))
        (λ _ w e. Runs-from target.id e (
          Runs-read target.id _ λ done.
            Runs-if target.id done
              (Runs-seq target.id locked
                (cleanup_candidate-Leaves env svc target.id _ info.id refl refl)
                λ _. Runs-raise target.id _ nothing_routed)
              (Runs-pure target.id _ refl)))
        (λ x w h. h)
