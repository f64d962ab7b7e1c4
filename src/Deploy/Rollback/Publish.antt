-- ===== src/Deploy/Rollback/Publish.antt =====
-- How the publication of a rollback candidate can end, and how it is taken back.
use mini_paa_s.Common.{
  String, ℕ, ◌≡◌, refl, ◌∙◌, Bool, true, false, some, ◌==◌, Bool-cases, ◌⊎◌, inl, inr,
}
use mini_paa_s.Domain.{App, Deployment, Error, Stage, ContainerInfo}
use mini_paa_s.Deploy.Effects.{
  Call, request, detached, Trace, Env, Service, Result, ok, err, perform, ignore, when, or_else,
}
use mini_paa_s.Deploy.Rollback.{restore_previous, revert, publish_target}
use mini_paa_s.Deploy.Rollback.Launch.{
  Undone, RouteBack, CustomBack, launched, switched, nothing_routed, half_routed, drop_target-Runs,
}
use mini_paa_s.Deploy.Steps.{switch_route}
use mini_paa_s.Deploy.View.{View, Route, targets, removed, untouched, uncertain}
use mini_paa_s.Deploy.Runs.{
  Runs, Runs-bind, Runs-or_else, Runs-if, Runs-case, Runs-from, Runs-ignored, Runs-pure, Runs-raise,
  Runs-perform, Runs-ignore,
}
use mini_paa_s.Deploy.Helpers.{
  Switches, Runs-seq, Runs-read, switch_route-Switches, cleanup_candidate-Leaves,
}
use mini_paa_s.Deploy.Restoring.{fallback, restored_view, Returned, back_Returned}
use mini_paa_s.Deploy.Outcome.{previous_row}

module _ (env : Env) (svc : Service) (app : App) (target : Deployment) where
  -- The way back, with the routes of the custom domains.
  abbrev pub CustomSent : Deployment → View → Route ℕ → Type 0
  CustomSent previous v custom =
      ((svc.has_custom_domains ≡ false) × (custom ≡ v.custom))
      ⊎ (custom ≡ uncertain)
      ⊎ (custom ≡ fallback app.id previous)

  abbrev pub SentBack : Deployment → View → Result (Unit {0}) → View → Type 0
  SentBack previous v (ok _) w =
      (route : Route String) × (custom : Route ℕ) × (refused : Bool) × (w
        ≡ restored_view v route custom refused)
      × ((refused ≡ true) ⊎ (route ≡ fallback app.name previous))
      × CustomSent previous v custom
  SentBack previous v (err _) w = ⊥

  -- The app's route went back, and the custom domains are next.
  abbrev RouteSent : Deployment → View → Result (Unit {0}) → View → Type 0
  RouteSent previous v (ok _) w =
      (route : Route String) × (refused : Bool) × (w ≡ restored_view v route v.custom refused)
      × ((refused ≡ true) ⊎ (route ≡ fallback app.name previous))
  RouteSent previous v (err _) w = ⊥

  -- The call for the custom domains, which either moves them all back or leaves them uncertain.
  custom_sent :
      (previous : Deployment) (v : View) (c : Call) (route : Route String) (refused : Bool)
      → ((refused ≡ true) ⊎ (route ≡ fallback app.name previous))
      → Runs target.id (perform env detached c) (restored_view v route v.custom refused) (λ _ w.
        (custom : Route ℕ) × (w ≡ restored_view v route custom refused)
        × ((custom ≡ uncertain) ⊎ (custom ≡ fallback app.id previous)))
      → Runs target.id
          (when svc.has_custom_domains (ignore (perform env detached c)))
          (restored_view v route v.custom refused)
          (SentBack previous v)
  custom_sent previous v c route refused l r =
      Runs-case target.id svc.has_custom_domains
        (λ some_domains.
          Runs-ignored target.id _ r (λ x w h. (route, h.0, refused, h.1, l, inr h.2)))
        (λ no_domains.
          Runs-pure target.id _ (route, v.custom, refused, refl, l, inl (no_domains, refl)))

  nowhere_back :
      {K : Type 0} (k : K) (previous : Deployment)
      → (previous.container_id == 0) ≡ true
      → removed k ≡ fallback k previous
  nowhere_back k previous e = rw e refl

  port_back :
      {K : Type 0} (k : K) (previous : Deployment)
      → (previous.container_id == 0) ≡ false
      → targets k previous.port ≡ fallback k previous
  port_back k previous e = rw e refl

  restore_previous-SentBack :
      (previous : Deployment) (v : View)
      → Runs target.id (restore_previous env svc app target previous) v (SentBack previous v)
  unfolding restore_previous switch_route
  restore_previous-SentBack previous v = elim (Bool-cases (previous.container_id == 0)) [
    | inl none_before ↦ rw none_before (
        Runs-bind target.id (RouteSent previous v)
          (Runs-ignore env target.id _ _
            (
              removed app.name,
              v.restore_failed,
              refl,
              inr (nowhere_back app.name previous none_before),
            )
            (v.route, true, refl, inl refl))
          (λ u w p. Runs-from target.id p.2 (
            custom_sent previous v _ p.0 p.1 p.3 (
              Runs-perform env target.id _ _
                (removed app.id, refl, inr (nowhere_back app.id previous none_before))
                (uncertain, refl, inl refl))))
          (λ e w x. absurd x))
    | inr some_before ↦ rw some_before (
        Runs-bind target.id (RouteSent previous v)
          (Runs-ignored target.id (Returned app.name previous v)
            (back_Returned env svc target.id svc.has_atomic_router app.name previous v)
            (λ r w p. (
              p.0,
              p.1,
              p.2,
              elim p.3 [
                | inl x ↦ inl x
                | inr x ↦ inr (x ∙ port_back app.name previous some_before)
              ],
            )))
          (λ u w p. Runs-from target.id p.2 (
            custom_sent previous v _ p.0 p.1 p.3 (
              Runs-perform env target.id _ _
                (targets app.id previous.port, refl, inr (port_back app.id previous some_before))
                (uncertain, refl, inl refl))))
          (λ e w x. absurd x))
  ]

module _ (env : Env) (svc : Service) (app : App) (target : Deployment) (P : Deployment → Type 0)
    (begin : Trace)
    (was : (p : Deployment) → previous_row (env.active begin app.id) ≡ some p → P p) where
  -- Before the domains are synchronised they are untouched; without domains they stay so.
  abbrev pub Settled : Route ℕ → Type 0
  Settled custom = (svc.has_custom_domains ≡ true) ⊎ (custom ≡ untouched)

  custom_back :
      (previous : Deployment) (info : ContainerInfo) (before custom : Route ℕ)
      → P previous
      → Settled before
      → CustomSent env svc app target previous
          (switched env svc app target P begin was info before)
          custom
      → CustomBack P app custom
  custom_back previous info before custom p (inl some_domains) (inl no_domains) =
      absurd (cc (some_domains, no_domains.0))
  custom_back previous info before custom p (inr kept) (inl same) = inl (same.1 ∙ kept)
  custom_back previous info before custom p s (inr (inl e)) = inr (inl e)
  custom_back previous info before custom p s (inr (inr e)) = inr (inr (previous, p, e))

  route_back :
      (previous : Deployment) (route : Route String) (refused : Bool)
      → P previous
      → (refused ≡ true) ⊎ (route ≡ fallback app.name previous)
      → RouteBack P svc app route refused
  route_back previous route refused p (inl e) = inr (inl e)
  route_back previous route refused p (inr e) = inr (inr (inl (previous, p, e)))

  pub revert-Runs :
      (stage : Stage) (previous : Deployment) (info : ContainerInfo) (custom : Route ℕ)
      (Q : Result (Unit {0}) → View → Type 0)
      → P previous
      → Settled custom
      → ((e : Error) (w : View) → Undone P svc app 1 w → Q (err e) w)
      → Runs target.id
          (revert env svc app target stage previous info)
          (switched env svc app target P begin was info custom)
          Q
  unfolding revert
  revert-Runs stage previous info custom Q p s q =
      Runs-bind target.id (SentBack env svc app target previous v)
        (restore_previous-SentBack env svc app target previous v)
        (λ u w h. Runs-from target.id h.3 (
          Runs-seq target.id _ (cleanup_candidate-Leaves env svc target.id _ info.id refl refl) λ _.
            Runs-raise target.id _ (
              q _ _ (
                h.0,
                h.1,
                h.2,
                refl,
                route_back previous h.0 h.2 p h.4,
                custom_back previous info custom h.1 p s h.5,
              ))))
        (λ e w x. absurd x)
    where
      v : View
      v = switched env svc app target P begin was info custom

  abbrev pub Publishes : {A : Type 0} → ContainerInfo → Result A → View → Type 0
  Publishes info (ok _) w =
      (custom : Route ℕ) × (w ≡ switched env svc app target P begin was info custom)
      × Settled custom
  Publishes info (err e) w = Undone P svc app 1 w

  abbrev Synced : ContainerInfo → Result (Unit {0}) → View → Type 0
  Synced info r w = (custom : Route ℕ) × (w ≡ switched env svc app target P begin was info custom)

  sync-Publishes :
      (previous : Deployment) (info : ContainerInfo) (before : Route ℕ)
      → P previous
      → svc.has_custom_domains ≡ true
      → Runs target.id
          (or_else
            (perform env request (Call.sync_routes app.id info.port))
            (revert env svc app target Stage.sync_custom_domains previous info))
          (switched env svc app target P begin was info before)
          (Publishes info)
  sync-Publishes previous info before p some_domains =
      Runs-or_else target.id (Synced info)
        (Runs-perform env target.id _ _ (targets app.id info.port, refl) (uncertain, refl))
        (λ _ w h. (h.0, h.1, inl some_domains))
        (λ _ w h. Runs-from target.id h.1 (
          revert-Runs Stage.sync_custom_domains previous info h.0 (Publishes info) p
            (inl some_domains) (λ x w h. h)))

  pub publish_target-Publishes :
      (previous : Deployment) (info : ContainerInfo)
      → P previous
      → Runs target.id
          (publish_target env svc app target previous info)
          (launched env svc app target P begin was info)
          (Publishes info)
  unfolding publish_target
  publish_target-Publishes previous info p =
      Runs-bind target.id (Publishes info)
        (Runs-or_else target.id
          (Switches svc.has_atomic_router app.name info.port
            (launched env svc app target P begin was info))
          (switch_route-Switches env svc target.id app.name info.port _)
          (λ _ w e. (untouched, e, inr refl))
          (λ _ w e. elim e [
            | inl same ↦ Runs-from target.id same (
                drop_target-Runs env svc app target P begin was Stage.switch_route previous info
                  untouched (λ e. nothing_routed env svc app target P begin was))
            | inr half ↦ Runs-from target.id half.1 (
                drop_target-Runs env svc app target P begin was Stage.switch_route previous info
                  uncertain (λ e. half_routed env svc app target P begin was half.0))
          ]))
        (λ url w h. Runs-from target.id h.1 (
          Runs-bind target.id (Publishes info)
            (Runs-case target.id svc.has_custom_domains
              (λ some_domains. sync-Publishes previous info h.0 p some_domains)
              (λ no_domains. Runs-pure target.id _ (h.0, refl, h.2)))
            (λ _ w h. Runs-from target.id h.1 (
              Runs-read target.id _ λ done.
                Runs-bind target.id (Publishes info)
                  (Runs-if target.id done
                    (revert-Runs Stage.publish_cancelled previous info h.0 (Publishes info) p h.2
                      (λ x w h. h))
                    (Runs-pure target.id _ (h.0, refl, h.2)))
                  (λ _ w h. Runs-pure target.id _ h) (λ x w h. h)))
            (λ x w h. h)))
        (λ x w h. h)
