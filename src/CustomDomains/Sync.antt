-- ===== src/CustomDomains/Sync.antt =====
-- What the synchronisation and the removal of the routes of an app's domains come to.
use mini_paa_s.Common.{
  ℕ, ◌≡◌, ◌≢◌, refl, sym, subst, ap, ◌∙◌, Bool, true, false, ◌||◌, not, List, [], ◌∷◌, none, some,
  ◌==◌, if◌then◌else◌, arith, Bool-cases, inl, inr, Elem,
}
use mini_paa_s.CustomDomains.{
  CustomDomain, CustomDomainStatus, active, error, World, Outside, route_of, put_route, of_app,
  is_pending, save, sync_loop, sync_routes,
}
use mini_paa_s.CustomDomains.Routes.{route_of-put_self, route_of-put_ne}

module _ (out : Outside) where
  save-routes :
      (id : ℕ) (st : CustomDomainStatus) (v : Bool) (w : World)
      → (save out id st v w).routes ≡ w.routes
  save-routes id st v w = elim (Bool-cases (out.update_answers id)) [
    | inl y ↦ rw y refl
    | inr n ↦ rw n refl
  ]

  pub saved :
      (P : List (ℕ × ℕ) → Type 0) (id : ℕ) (st : CustomDomainStatus) (v : Bool) (w : World)
      → P w.routes
      → P (save out id st v w).routes
  saved P id st v w h = subst P (sym (save-routes id st v w)) h

  abbrev routed : ℕ → CustomDomain → World → World
  routed port d w = record w { routes = put_route d.id port w.routes }

  -- What every route that the loop switches keeps, the loop keeps.
  sync_loop-keeps :
      (P : List (ℕ × ℕ) → Type 0) (port : ℕ) (ds : List CustomDomain) (w : World)
      → ((d : CustomDomain) → Elem d ds → (rs : List (ℕ × ℕ)) → P rs → P (put_route d.id port rs))
      → P w.routes
      → P (sync_loop out port ds w).0.routes
  unfolding sync_loop
  sync_loop-keeps P port [] w k h = h
  sync_loop-keeps P port (d ∷ ds) w k h =
      elim (Bool-cases (not d.is_verified || is_pending d.status)) [
        | inl skip ↦ rw (skip, sync_loop) (sync_loop-keeps P port ds w (λ e m. k e (inr m)) h)
        | inr go ↦ elim (Bool-cases (out.switch_answers d.id)) [
          | inl y ↦ elim (Bool-cases (out.update_answers d.id)) [
            | inl u ↦
                rw (go, y, u, sync_loop)
                  (sync_loop-keeps P port ds (save out d.id active d.is_verified (routed port d w))
                    (λ e m. k e (inr m))
                    (saved P d.id active d.is_verified (routed port d w)
                      (k d (inl refl) w.routes h)))
            | inr u ↦ rw (go, y, u, sync_loop) (k d (inl refl) w.routes h)
          ]
          | inr n ↦ rw (go, n, sync_loop) (saved P d.id error d.is_verified w h)
        ]
      ]

  put_keeps :
      (id port : ℕ) (d : CustomDomain) (rs : List (ℕ × ℕ))
      → route_of id rs ≡ some port
      → route_of id (put_route d.id port rs) ≡ some port
  put_keeps id port d rs h = elim (Bool-cases (d.id == id)) [
    | inl e ↦
        let same : d.id ≡ id = ground (arith, e) in
        subst (λ i. route_of i (put_route d.id port rs) ≡ some port) same
          (route_of-put_self d.id port rs)
    | inr n ↦ route_of-put_ne d.id id port rs (ground (arith, n)) ∙ h
  ]

  -- A domain that takes part is not skipped.
  takes_part :
      (x d : CustomDomain)
      → x ≡ d
      → d.is_verified ≡ true
      → is_pending d.status ≡ false
      → (not x.is_verified || is_pending x.status) ≡ false
  takes_part x d same v p =
      subst (λ y. (not y.is_verified || is_pending y.status) ≡ false) (sym same) (cc (v, p))

  -- Without an error, every verified domain of the list was routed to the port.
  sync_loop-reaches :
      (port : ℕ) (ds : List CustomDomain) (w : World) (d : CustomDomain)
      → (sync_loop out port ds w).1 ≡ none
      → Elem d ds
      → d.is_verified ≡ true
      → is_pending d.status ≡ false
      → route_of d.id (sync_loop out port ds w).0.routes ≡ some port
  unfolding sync_loop
  sync_loop-reaches port [] w d e m v p = absurd m
  sync_loop-reaches port (x ∷ ds) w d e m v p =
      elim (Bool-cases (not x.is_verified || is_pending x.status)) [
        | inl skip ↦
            rw (skip, sync_loop)
              (sync_loop-reaches port ds w d (cc (skip, e))
                (elim m [
                  | inl same ↦ absurd (cc (skip, takes_part x d same v p))
                  | inr later ↦ later
                ])
                v p)
        | inr go ↦ elim (Bool-cases (out.switch_answers x.id)) [
          | inl y ↦ elim (Bool-cases (out.update_answers x.id)) [
            | inl u ↦
                rw (go, y, u, sync_loop)
                  (elim m [
                    | inl same ↦
                        sync_loop-keeps (λ rs. route_of d.id rs ≡ some port) port ds
                          (save out x.id active x.is_verified (routed port x w))
                          (λ y k rs h. put_keeps d.id port y rs h)
                          (saved (λ rs. route_of d.id rs ≡ some port) x.id active x.is_verified
                            (routed port x w)
                            (subst (λ i. route_of i (put_route x.id port w.routes) ≡ some port)
                              (ap (λ y. y.id) same) (route_of-put_self x.id port w.routes)))
                    | inr later ↦ sync_loop-reaches port ds _ d (cc (go, y, u, e)) later v p
                  ])
            | inr u ↦ absurd (cc (go, y, u, e))
          ]
          | inr n ↦ absurd (cc (go, n, e))
        ]
      ]

  -- The domains that `ListByApp` answers
  pub of_app-Elem :
      (app : ℕ) (ds : List CustomDomain) (d : CustomDomain)
      → Elem d ds
      → d.app_id ≡ app
      → Elem d (of_app app ds)
  of_app-Elem app [] d m i = absurd m
  of_app-Elem app (x ∷ ds) d (inl same) i =
      let e : (x.app_id == app) ≡ true = ground (arith, ap (λ y. y.app_id) same, i) in
      rw e (inl same)
  of_app-Elem app (x ∷ ds) d (inr m) i = elim (Bool-cases (x.app_id == app)) [
    | inl e ↦ rw e (inr (of_app-Elem app ds d m i))
    | inr e ↦ rw e (of_app-Elem app ds d m i)
  ]

  of_app_app :
      (app : ℕ) (ds : List CustomDomain) (d : CustomDomain)
      → Elem d (of_app app ds)
      → (d.app_id ≡ app) × Elem d ds
  of_app_app app [] d m = absurd m
  of_app_app app (x ∷ ds) d m = elim (Bool-cases (x.app_id == app)) [
    | inl e ↦ elim (subst (λ b. Elem d (if b then x ∷ of_app app ds else of_app app ds)) e m) [
      | inl same ↦ (ground (arith, e, ap (λ y. y.app_id) same), inl same)
      | inr later ↦ let (i, k) = of_app_app app ds d later in (i, inr k)
    ]
    | inr e ↦
        let (i, k) =
          of_app_app app ds d
            (subst (λ b. Elem d (if b then x ∷ of_app app ds else of_app app ds)) e m) in
        (i, inr k)
  ]

  -- If `sync_routes` returns no error, then every domain of the app that is verified and not
  -- pending is routed to the port.
  pub sync_routes-reaches :
      (app port : ℕ) (w : World) (d : CustomDomain)
      → (sync_routes out app port w).1 ≡ none
      → Elem d w.domains
      → d.app_id ≡ app
      → d.is_verified ≡ true
      → is_pending d.status ≡ false
      → route_of d.id (sync_routes out app port w).0.routes ≡ some port
  unfolding sync_routes
  sync_routes-reaches app port w d e m i v p = elim (Bool-cases out.list_answers) [
    | inl y ↦ rw y (
        sync_loop-reaches port (of_app app w.domains) w d (cc (y, e))
          (of_app-Elem app w.domains d m i) v p)
    | inr n ↦ absurd (cc (n, e))
  ]

  -- Whatever `sync_routes` returns, the route of a domain id that no domain of the app has is what
  -- it was.
  pub sync_routes-others :
      (app port : ℕ) (w : World) (id : ℕ)
      → ((d : CustomDomain) → Elem d w.domains → d.app_id ≡ app → d.id ≢ id)
      → route_of id (sync_routes out app port w).0.routes ≡ route_of id w.routes
  unfolding sync_routes
  sync_routes-others app port w id others = elim (Bool-cases out.list_answers) [
    | inl y ↦ rw y (
        sync_loop-keeps (λ rs. route_of id rs ≡ route_of id w.routes) port (of_app app w.domains) w
          (λ d m rs h.
            let (i, k) = of_app_app app w.domains d m in
            route_of-put_ne d.id id port rs (others d k i) ∙ h)
          refl)
    | inr n ↦ rw n refl
  ]
