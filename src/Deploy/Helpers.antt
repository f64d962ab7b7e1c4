-- ===== src/Deploy/Helpers.antt =====
-- What the shared helpers of the pipeline do to the summary of a request.
use mini_paa_s.Common.{
  ◌⊎◌, ℕ, ◌≡◌, refl, Bool, true, false, ◌&&◌, ◌||◌, not, List, [], ◌∷◌, some, if◌then◌else◌, arith,
  Bool-cases, inl, inr, String,
}
use text.Mathlib.Text.{◌==◌ as str_eq}
use mini_paa_s.Domain.{DeploymentStatus, Deployment, Error, deployment_cancelled}
use mini_paa_s.Deploy.Effects.{
  Call, Ctx, request, detached, Result, ok, err, Action, pure, ◌>>=◌, ignore, joined, Env, perform,
  asked, gets, Service, LogStage,
}
use mini_paa_s.Deploy.Steps.{
  event, error_event, mark_failed, finish_cancelled, check_stored, check_cancelled, switch_route,
  cleanup_container, cleanup_candidate, prune_images, prune_loop, wants_cancel, contains,
}
use mini_paa_s.Deploy.View.{View, targets, uncertain}
use mini_paa_s.Deploy.Runs.{
  Runs, Runs-bind, Runs-if, Runs-weaken, Runs-gets, Runs-from, Runs-ignored, Runs-pure,
  Runs-perform, Runs-ignore, Runs-asked,
}

abbrev pub cancelled_view : View → View
cancelled_view v = record v { verdict = some DeploymentStatus.cancelled }

abbrev pub failed_view : View → View
failed_view v = record v { verdict = some DeploymentStatus.failed }

abbrev pub cleaned_view : View → View
cleaned_view v = record v { candidate = 0 }

-- The action has no error and leaves this summary.
abbrev pub Leaves : View → Result (Unit {0}) → View → Type 0
Leaves v (ok _) w = w ≡ v
Leaves v (err _) w = ⊥

-- The action answers with some value and changes nothing.
abbrev pub Answers : {A : Type 0} → View → Result A → View → Type 0
Answers v (ok _) w = w ≡ v
Answers v (err _) w = ⊥

-- The action ends with this error and this summary.
abbrev pub Raises : {A : Type 0} → Error → View → Result A → View → Type 0
Raises x v (ok _) w = ⊥
Raises x v (err e) w = (e ≡ x) × (w ≡ v)

-- The action let the request go on unchanged, or ended with the recorded cancellation.
abbrev pub Checks : View → Result (Unit {0}) → View → Type 0
Checks v (ok _) w = w ≡ v
Checks v (err e) w = (e ≡ deployment_cancelled) × (w ≡ cancelled_view v)

-- One call of the router: the route moved, or all is as it was, or a router that deletes the route
-- before it sets it stopped half way.
abbrev pub Switches : {A : Type 0} → Bool → String → ℕ → View → Result A → View → Type 0
Switches atomic name port v (ok _) w = w ≡ record v { route = targets name port }
Switches atomic name port v (err _) w =
    (w ≡ v) ⊎ ((atomic ≡ false) × (w ≡ record v { route = uncertain }))

Leaves-kept : (v : View) (r : Result (Unit {0})) (w : View) → Leaves v r w → w ≡ v
Leaves-kept v (ok _) w h = h
Leaves-kept v (err _) w h = absurd h

-- A call that the summary does not read.
abbrev Switched : {A : Type 0} → View → Result A → View → Type 0
Switched v r w = w ≡ v

module _ {B : Type 0} (dep : ℕ) where
  -- A step that cannot fail, and what follows it.
  pub Runs-seq :
      {m : Action (Unit {0})} {f : Unit {0} → Action B} {v : View} (w : View)
      {Q : Result B → View → Type 0}
      → Runs dep m v (Leaves w)
      → ((u : Unit {0}) → Runs dep (f u) w Q)
      → Runs dep (m >>= f) v Q
  Runs-seq {f} w {Q} p q =
      Runs-bind dep (Leaves w) p (λ u w' e. let go : Runs dep (f u) w' Q = rw e (q u) in go)
        (λ e w' x. absurd x)

  -- A check of the cancellation, and what follows it.
  pub Runs-check :
      {m : Action (Unit {0})} {f : Unit {0} → Action B} {v : View} {Q : Result B → View → Type 0}
      → Runs dep m v (Checks v)
      → ((u : Unit {0}) → Runs dep (f u) v Q)
      → Q (err deployment_cancelled) (cancelled_view v)
      → Runs dep (m >>= f) v Q
  Runs-check {f} {v} {Q} p q c =
      Runs-bind dep (Checks v) p (λ u w e. let go : Runs dep (f u) w Q = rw e (q u) in go)
        (λ e w x. rw (x.0, x.1) c)

module _ {A B : Type 0} (dep : ℕ) where
  -- A query, and what follows it.
  pub Runs-query :
      {m : Action A} {f : A → Action B} {v : View} {Q : Result B → View → Type 0}
      → Runs dep m v (Answers v)
      → ((a : A) → Runs dep (f a) v Q)
      → Runs dep (m >>= f) v Q
  Runs-query {f} {v} {Q} p q =
      Runs-bind dep (Answers v) p (λ a w e. let go : Runs dep (f a) w Q = rw e (q a) in go)
        (λ e w x. absurd x)

  pub Runs-read :
      {f : A → Action B} (g : _ → A) {v : View} {Q : Result B → View → Type 0}
      → ((a : A) → Runs dep (f a) v Q)
      → Runs dep (gets g >>= f) v Q
  Runs-read g q = Runs-query (Runs-gets dep g (λ a. refl)) q

module _ (env : Env) (svc : Service) (dep : ℕ) where
  pub event-Leaves : (stage : LogStage) (v : View) → Runs dep (event env svc dep stage) v (Leaves v)
  unfolding event
  event-Leaves stage v =
      Runs-if dep svc.has_logs (Runs-ignore env dep _ _ refl refl) (Runs-pure dep _ refl)

  pub error_event-Leaves : (v : View) → Runs dep (error_event env svc dep) v (Leaves v)
  unfolding error_event
  error_event-Leaves v = Runs-read dep _ λ blank.
      Runs-if dep (svc.has_logs && not blank) (Runs-ignore env dep _ _ refl refl)
        (Runs-pure dep _ refl)

  pub mark_failed-Leaves :
      (ctx : Ctx) (app : ℕ) (v : View)
      → Runs dep (mark_failed env svc ctx dep app) v (Leaves (failed_view v))
  unfolding mark_failed perform asked ignore ◌>>=◌
  mark_failed-Leaves ctx app v = record { at = λ t e. ground arith }

  pub finish_cancelled-Raises :
      (A : Type 0) (v : View)
      → Runs dep
          (finish_cancelled env svc {A = A} dep)
          v
          (Raises deployment_cancelled (cancelled_view v))
  unfolding finish_cancelled perform ignore ◌>>=◌
  finish_cancelled-Raises A v = record { at = λ t e. ground arith }

  finish_cancelled-Checks : (v : View) → Runs dep (finish_cancelled env svc dep) v (Checks v)
  finish_cancelled-Checks v =
      Runs-weaken dep (Raises deployment_cancelled (cancelled_view v))
        (finish_cancelled-Raises (Unit {0}) v) (raised v)
    where
      raised :
          (v : View) (r : Result (Unit {0})) (w : View)
          → Raises deployment_cancelled (cancelled_view v) r w
          → Checks v r w
      raised v (ok _) w h = absurd h
      raised v (err e) w h = h

  check_stored-Checks : (v : View) → Runs dep (check_stored env svc dep) v (Checks v)
  unfolding check_stored
  check_stored-Checks v =
      Runs-query dep (Runs-asked env dep _ _ _ (λ b. refl) (λ l. refl))
        λ l. Runs-if dep (wants_cancel env svc l) (finish_cancelled-Checks v) (Runs-pure dep _ refl)

  -- `checkCancelled` lets the request go on, or has recorded the cancellation.
  pub check_cancelled-Checks : (v : View) → Runs dep (check_cancelled env svc dep) v (Checks v)
  unfolding check_cancelled
  check_cancelled-Checks v =
      Runs-read dep _ λ done. Runs-if dep done (finish_cancelled-Checks v) (check_stored-Checks v)

  router-Switches :
      (b : Bool) (name : String) (port : ℕ) (v : View)
      → Runs dep
          (perform env request
            (if b then Call.switch_route name port else Call.upsert_route name port))
          v
          (Switches b name port v)
  router-Switches true name port v = Runs-perform env dep _ _ refl (inl refl)
  router-Switches false name port v = Runs-perform env dep _ _ refl (inr (refl, refl))

  pub switch_route-Switches :
      (name : String) (port : ℕ) (v : View)
      → Runs dep
          (switch_route env svc request name port)
          v
          (Switches svc.has_atomic_router name port v)
  unfolding switch_route
  switch_route-Switches name port v =
      Runs-bind dep (Switches svc.has_atomic_router name port v)
        (router-Switches svc.has_atomic_router name port v) (λ u w e. Runs-gets dep _ (λ a. e))
        (λ x w e. e)

  -- The candidate is told to stop and to go; stopping it is always safe.
  pub cleanup_container-Leaves :
      (v : View) (id : ℕ)
      → id ≡ v.candidate
      → v.safe ≡ true
      → Runs dep (ignore (cleanup_container env svc detached id)) v (Leaves (cleaned_view v))
  unfolding cleanup_container perform ignore joined pure
  cleanup_container-Leaves v id i s = record { at = λ t e. ground arith }

  pub cleanup_candidate-Leaves :
      (v : View) (id : ℕ)
      → id ≡ v.candidate
      → v.safe ≡ true
      → Runs dep (cleanup_candidate env svc dep id) v (Leaves (cleaned_view v))
  unfolding cleanup_candidate
  cleanup_candidate-Leaves v id i s =
      Runs-seq dep (cleaned_view v) (cleanup_container-Leaves v id i s) λ _.
        Runs-if dep svc.has_candidate_store (Runs-ignore env dep _ _ refl refl)
          (Runs-pure dep _ refl)

  prune_loop-Leaves :
      (old : List Deployment) (seen : List String) (v : View)
      → Runs dep (prune_loop env svc old seen) v (Leaves v)
  unfolding prune_loop
  prune_loop-Leaves [] seen v = Runs-pure dep _ refl
  prune_loop-Leaves (d ∷ old) seen v =
      elim (Bool-cases (str_eq d.image_tag "" || contains seen d.image_tag)) [
        | inl skip ↦ rw (skip, prune_loop) (prune_loop-Leaves old seen v)
        | inr prune ↦
            rw (prune, prune_loop)
              (Runs-seq dep v (Runs-ignore env dep _ _ refl refl)
                λ _. prune_loop-Leaves old (d.image_tag ∷ seen) v)
      ]

  pub prune_images-Leaves : (app : ℕ) (v : View) → Runs dep (prune_images env svc app) v (Leaves v)
  unfolding prune_images
  prune_images-Leaves app v =
      Runs-ignored dep (λ r w. w ≡ v)
        (Runs-bind dep (Switched v) (Runs-perform env dep _ _ refl refl)
          (λ u w e. Runs-from dep e (
            Runs-read dep _
              λ old. Runs-weaken dep (Leaves v) (prune_loop-Leaves old [] v) (Leaves-kept v)))
          (λ e w x. x))
        (λ r w e. e)
