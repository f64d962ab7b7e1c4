-- ===== src/Deploy/Restoring.antt =====
-- service/deployment.go, `restoreRoute`: the way back to the previous release.
use mini_paa_s.Common.{
  ℕ, ◌≡◌, refl, ◌∙◌, Bool, true, false, ◌==◌, if◌then◌else◌, arith, Bool-cases, ◌⊎◌, inl, inr,
  String,
}
use mini_paa_s.Domain.{App, Deployment}
use mini_paa_s.Deploy.Effects.{Call, detached, Result, ok, err, ◌>>=◌, Env, perform, gets, Service}
use mini_paa_s.Deploy.Steps.{restore_route}
use mini_paa_s.Deploy.View.{View, Route, targets, removed, uncertain}
use mini_paa_s.Deploy.Runs.{
  Runs, Runs-bind, Runs-if, Runs-gets, Runs-from, Runs-ignored, Runs-pure, Runs-perform,
  Runs-ignore,
}

-- Where a given-up request sends the traffic: to the previous release, or nowhere.
abbrev pub fallback : {K : Type 0} → K → Deployment → Route K
fallback key p = if p.container_id == 0 then removed key else targets key p.port

abbrev pub restored_view : View → Route String → Route ℕ → Bool → View
restored_view v route custom refused = record v {
  route = route;
  custom = custom;
  restore_failed = refused;
}

abbrev pub RestoredTo : App → Deployment → View → Route String → Route ℕ → Bool → Type 0
RestoredTo app previous v route custom refused =
    ((refused ≡ true) ⊎ (route ≡ fallback app.name previous))
    × (previous.container_id ≡ 0 → custom ≡ v.custom)

abbrev pub Restores : App → Deployment → View → Result (Unit {0}) → View → Type 0
Restores app previous v (ok _) w =
    (route : Route String) × (custom : Route ℕ) × (refused : Bool) × (w
      ≡ restored_view v route custom refused)
    × RestoredTo app previous v route custom refused
Restores app previous v (err _) w = ⊥

-- The route of the app was sent back, or the router refused.
abbrev pub Returned : {A : Type 0} → String → Deployment → View → Result A → View → Type 0
Returned name previous v r w =
    (route : Route String) × (refused : Bool) × (w ≡ restored_view v route v.custom refused)
    × ((refused ≡ true) ⊎ (route ≡ targets name previous.port))

abbrev pub Reroutes : App → Deployment → View → Result (Unit {0}) → View → Type 0
Reroutes app previous v (ok u) w = Returned {A = Unit {0}} app.name previous v (ok u) w
Reroutes app previous v (err _) w = ⊥

module _ (env : Env) (svc : Service) (dep : ℕ) where
  -- The way back, by one call or by two.
  pub back_Returned :
      (b : Bool) (name : String) (previous : Deployment) (v : View)
      → Runs dep
          (perform env detached (
              if b
              then Call.switch_route name previous.port
              else Call.upsert_route name previous.port)
            >>= λ _. gets env.public_url)
          v
          (Returned name previous v)
  back_Returned b name previous v =
      Runs-bind dep (Returned name previous v) (calls b) (λ u w p. Runs-gets dep _ (λ a. p))
        (λ e w p. p)
    where
      calls :
          (b : Bool)
          → Runs dep
              (perform env detached (
                if b
                then Call.switch_route name previous.port
                else Call.upsert_route name previous.port))
              v
              (Returned name previous v)
      calls true =
          Runs-perform env dep _ _ (targets name previous.port, v.restore_failed, refl, inr refl)
            (v.route, true, refl, inl refl)
      calls false =
          Runs-perform env dep _ _ (targets name previous.port, v.restore_failed, refl, inr refl)
            (uncertain, true, refl, inl refl)

  pub restore_route-Restores :
      (app : App) (previous : Deployment) (v : View)
      → Runs dep (restore_route env svc app previous) v (Restores app previous v)
  unfolding restore_route
  restore_route-Restores app previous v = elim (Bool-cases (previous.container_id == 0)) [
    | inl none_before ↦ rw none_before (
        Runs-ignore env dep _ _
          (removed app.name, v.custom, v.restore_failed, refl, (inr (rw none_before), λ e. refl))
          (v.route, v.custom, true, refl, (inl refl, λ e. refl)))
    | inr some_before ↦ rw some_before (
        Runs-bind dep (Reroutes app previous v)
          (Runs-ignored dep (Returned app.name previous v)
            (back_Returned svc.has_atomic_router app.name previous v) (λ r w p. p))
          (λ u w p.
            let lands : (p.1 ≡ true) ⊎ (p.0 ≡ fallback app.name previous) = elim p.3 [
              | inl x ↦ inl x
              | inr x ↦ inr (x ∙ rw some_before)
            ] in
            let never : (c : Route ℕ) → previous.container_id ≡ 0 → c ≡ v.custom =
              λ c z. absurd (ground arith) in
            Runs-from dep p.2 (
              Runs-if dep svc.has_custom_domains
                (Runs-ignore env dep _ _
                  (p.0, targets app.id previous.port, p.1, refl, (lands, never _))
                  (p.0, uncertain, p.1, refl, (lands, never _)))
                (Runs-pure dep _ (p.0, v.custom, p.1, refl, (lands, never _)))))
          (λ e w x. absurd x))
  ]
