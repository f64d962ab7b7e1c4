-- ===== src/Deploy/Recovery/Guarantees.antt =====
-- What the recovery of orphan candidates promises, whatever its dependencies answer.
use mini_paa_s.Common.{
  ℕ, String, ◌≡◌, refl, ◌∙◌, Bool, true, false, List, [], ◌∷◌, ◌==◌, if◌then◌else◌, arith, ◌⊎◌, inl,
  inr, sym, Elem, Option, some, subst,
}
use mini_paa_s.Domain.{App, Deployment, DeploymentStatus}
use mini_paa_s.Deploy.Effects.{
  Call, request, Trace, Lookup, found, missing, unavailable, Env, Service, Result, ok, err, perform,
  ignore, joined, pure, LogStage,
}
use mini_paa_s.Deploy.Steps.{event, cleanup_container, switch_route}
use mini_paa_s.Deploy.Recovery.{remove_orphan_route, reroute, recover_one, recover_loop}
use mini_paa_s.Deploy.View.{View, observe}
use mini_paa_s.Deploy.Runs.{
  Runs, Runs-bind, Runs-if, Runs-pure, Runs-perform, Runs-ignore, Runs-asked, Runs-gets,
  Runs-ignored,
}

-- The action has no error, and the candidate and the status of the deployment are these.
abbrev Ends : ℕ → Option DeploymentStatus → {A : Type 0} → Result A → View → Type 0
Ends c s (ok _) w = (w.candidate ≡ c) × (w.verdict ≡ s)
Ends c s (err _) w = ⊥

-- An error may be left too.
abbrev Keeps : ℕ → Option DeploymentStatus → {A : Type 0} → Result A → View → Type 0
Keeps c s r w = (w.candidate ≡ c) × (w.verdict ≡ s)

module _ (env : Env) (svc : Service) (dep : ℕ) (c : ℕ) (s : Option DeploymentStatus) where
  switch_route-Keeps :
      (b : Bool) (name : String) (port : ℕ) (v : View)
      → (v.candidate ≡ c) × (v.verdict ≡ s)
      → Runs dep
          (perform env request
            (if b then Call.switch_route name port else Call.upsert_route name port))
          v
          (Keeps c s)
  switch_route-Keeps true name port v h = Runs-perform env dep _ _ h h
  switch_route-Keeps false name port v h = Runs-perform env dep _ _ h h

  remove_orphan_route-Ends :
      (l : Lookup App) (v : View)
      → (v.candidate ≡ c) × (v.verdict ≡ s)
      → Runs dep (remove_orphan_route env svc l) v (Ends c s)
  unfolding remove_orphan_route
  remove_orphan_route-Ends (found app) v h = Runs-ignore env dep _ _ h h
  remove_orphan_route-Ends missing v h = Runs-pure dep _ h
  remove_orphan_route-Ends unavailable v h = Runs-pure dep _ h

  reroute-Ends :
      (d : Deployment) (p : Lookup Deployment) (l : Lookup App) (v : View)
      → (v.candidate ≡ c) × (v.verdict ≡ s)
      → Runs dep (reroute env svc d p l) v (Ends c s)
  unfolding reroute switch_route
  reroute-Ends d (found p) (found app) v h =
      Runs-if dep (p.container_id == 0) (remove_orphan_route-Ends (found app) v h) (
        Runs-bind dep (Ends c s)
          (Runs-ignored dep (Keeps c s)
            (Runs-bind dep (Keeps c s)
              (switch_route-Keeps svc.has_atomic_router app.name p.port v h)
              (λ _ w h. Runs-gets dep _ (λ _. h)) (λ x w h. h))
            (λ r w h. h))
          (λ _ w h.
            Runs-if dep svc.has_custom_domains (Runs-ignore env dep _ _ h h) (Runs-pure dep _ h))
          (λ x w h. h))
  reroute-Ends d (found p) missing v h = remove_orphan_route-Ends missing v h
  reroute-Ends d (found p) unavailable v h = remove_orphan_route-Ends unavailable v h
  reroute-Ends d missing l v h = remove_orphan_route-Ends l v h
  reroute-Ends d unavailable l v h = remove_orphan_route-Ends l v h

  cleanup-Ends :
      (id : ℕ) (v : View)
      → (v.candidate ≡ c) × (v.verdict ≡ s)
      → Runs dep
          (ignore (cleanup_container env svc request id))
          v
          (Ends (if id == c then 0 else c) s)
  unfolding cleanup_container perform ignore joined pure
  cleanup-Ends id v h = record { at = λ t e. ground arith }

  event-Ends :
      (id : ℕ) (stage : LogStage) (v : View)
      → (v.candidate ≡ c) × (v.verdict ≡ s)
      → Runs dep (event env svc id stage) v (Ends c s)
  unfolding event
  event-Ends id stage v h =
      Runs-if dep svc.has_logs (Runs-ignore env dep _ _ h h) (Runs-pure dep _ h)

-- What one round of the loop makes of a candidate and of a status.
abbrev after_candidate : Deployment → ℕ → ℕ
after_candidate d c = if d.candidate_container_id == c then 0 else c

abbrev after_status : ℕ → Deployment → Option DeploymentStatus → Option DeploymentStatus
after_status dep d s = if d.id == dep then some DeploymentStatus.failed else s

gone : (o c : ℕ) → (c ≡ o) ⊎ (c ≡ 0) → (if o == c then 0 else c) ≡ 0
gone o c h = ground (arith, h)

still : (x o c : ℕ) → (c ≡ o) ⊎ (c ≡ 0) → let r = if x == c then 0 else c in (r ≡ o) ⊎ (r ≡ 0)
still x o c h = ground (arith, h)

failed_after :
    (i dep : ℕ) (s : Option DeploymentStatus)
    → i ≡ dep
    → (if i == dep then some DeploymentStatus.failed else s) ≡ some DeploymentStatus.failed
failed_after i dep s h = ground (arith, h)

module _ (env : Env) (svc : Service) (dep : ℕ) where
  recover_one-Ends :
      (d : Deployment) (v : View)
      → Runs dep
          (recover_one env svc d)
          v
          (Ends (after_candidate d v.candidate) (after_status dep d v.verdict))
  unfolding recover_one
  recover_one-Ends d v =
      Runs-bind dep (Ends v.candidate v.verdict)
        (Runs-asked env dep _ _ _ (λ b. refl) (λ t. (refl, refl)))
        (λ p w h.
          Runs-bind dep (Ends v.candidate v.verdict) (Runs-asked env dep _ _ _ (λ b. refl) (λ t. h))
            (λ a w h.
              Runs-bind dep (Ends v.candidate v.verdict)
                (reroute-Ends env svc dep v.candidate v.verdict d p a w h)
                (λ _ w h.
                  Runs-bind dep (Ends (after_candidate d v.candidate) v.verdict)
                    (cleanup-Ends env svc dep v.candidate v.verdict d.candidate_container_id w h)
                    (λ _ w h.
                      Runs-bind dep (Ends (after_candidate d v.candidate) v.verdict)
                        (Runs-ignore env dep _ _ h h)
                        (λ _ w h.
                          Runs-bind dep
                            (Ends (after_candidate d v.candidate) (after_status dep d v.verdict))
                            (Runs-ignore env dep _ _ (ground arith) (ground arith))
                            (λ _ w h. event-Ends env svc dep _ _ d.id LogStage.cleanup w h)
                            (λ x w h. h))
                        (λ x w h. h))
                    (λ x w h. h))
                (λ x w h. h))
            (λ x w h. h))
        (λ x w h. h)

  -- A deployment whose candidate is gone and that counts as failed stays so.
  recover_loop-stays :
      (ds : List Deployment) (v : View)
      → (v.candidate ≡ 0) × (v.verdict ≡ some DeploymentStatus.failed)
      → Runs dep (recover_loop env svc ds) v (Ends 0 (some DeploymentStatus.failed))
  unfolding recover_loop
  recover_loop-stays [] v h = Runs-pure dep _ h
  recover_loop-stays (d ∷ ds) v h =
      Runs-bind dep (Ends (after_candidate d v.candidate) (after_status dep d v.verdict))
        (recover_one-Ends d v) (λ _ w k. recover_loop-stays ds w (ground (arith, h, k)))
        (λ x w k. k)

  recover_loop-reaches :
      (ds : List Deployment) (orphan : Deployment) (v : View)
      → orphan.id ≡ dep
      → Elem orphan ds
      → (v.candidate ≡ orphan.candidate_container_id) ⊎ (v.candidate ≡ 0)
      → Runs dep (recover_loop env svc ds) v (Ends 0 (some DeploymentStatus.failed))
  unfolding recover_loop
  recover_loop-reaches [] orphan v i m c = absurd m
  recover_loop-reaches (d ∷ ds) orphan v i (inl e) c =
      Runs-bind dep (Ends (after_candidate d v.candidate) (after_status dep d v.verdict))
        (recover_one-Ends d v)
        (λ _ w k.
          let c' : (v.candidate ≡ d.candidate_container_id) ⊎ (v.candidate ≡ 0) = rw e c in
          let i' : d.id ≡ dep = rw e i in
          recover_loop-stays ds w (
            k.0 ∙ gone d.candidate_container_id v.candidate c',
            k.1 ∙ failed_after d.id dep v.verdict i',
          ))
        (λ x w k. k)
  recover_loop-reaches (d ∷ ds) orphan v i (inr m) c =
      Runs-bind dep (Ends (after_candidate d v.candidate) (after_status dep d v.verdict))
        (recover_one-Ends d v)
        (λ _ w k. recover_loop-reaches ds orphan w i m (
          subst (λ r. (r ≡ orphan.candidate_container_id) ⊎ (r ≡ 0)) (sym k.0)
            (still d.candidate_container_id orphan.candidate_container_id v.candidate c)))
        (λ x w k. k)

  -- Take any history of calls by whose end the orphan's candidate is the container that runs for
  -- its deployment, or none does. Whatever the dependencies answer, once the recovery has gone
  -- through a list with that orphan, its candidate was told to go, `failed` is the status that was
  -- asked to be stored last for it, and no error stopped the recovery.
  pub recovery_settles :
      (ds : List Deployment) (orphan : Deployment) (history : Trace)
      → orphan.id ≡ dep
      → Elem orphan ds
      → ((observe dep history).candidate ≡ orphan.candidate_container_id)
        ⊎ ((observe dep history).candidate ≡ 0)
      → let (r, t) = recover_loop env svc ds history in
        (r ≡ ok tt)
        × ((observe dep t).candidate ≡ 0)
        × ((observe dep t).verdict ≡ some DeploymentStatus.failed)
  recovery_settles ds orphan history i m c =
      unpack _ _ ((recover_loop-reaches ds orphan (observe dep history) i m c).at history refl)
    where
      unpack :
          (r : Result (Unit {0})) (w : View)
          → Ends 0 (some DeploymentStatus.failed) r w
          → (r ≡ ok tt) × (w.candidate ≡ 0) × (w.verdict ≡ some DeploymentStatus.failed)
      unpack (ok tt) w h = (refl, h.0, h.1)
      unpack (err _) w h = absurd h
