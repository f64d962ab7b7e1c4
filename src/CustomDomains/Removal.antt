-- ===== src/CustomDomains/Removal.antt =====
-- What the removal of the routes of an app's domains comes to.
use mini_paa_s.Common.{
  ℕ, ◌≡◌, subst, ap, ◌∙◌, true, List, [], ◌∷◌, none, ◌==◌, arith, Bool-cases, inl, inr, Elem,
}
use mini_paa_s.CustomDomains.{
  CustomDomain, verified, World, Outside, route_of, drop_route, of_app, save, remove_loop,
  remove_routes,
}
use mini_paa_s.CustomDomains.Routes.{route_of-drop_self, route_of-drop_ne}
use mini_paa_s.CustomDomains.Sync.{saved, of_app-Elem}

module _ (out : Outside) where
  abbrev unrouted : CustomDomain → World → World
  unrouted d w = record w { routes = drop_route d.id w.routes }

  drop_keeps :
      (id : ℕ) (d : CustomDomain) (rs : List (ℕ × ℕ))
      → route_of id rs ≡ none
      → route_of id (drop_route d.id rs) ≡ none
  drop_keeps id d rs h = elim (Bool-cases (d.id == id)) [
    | inl e ↦
        let same : d.id ≡ id = ground (arith, e) in
        subst (λ i. route_of i (drop_route d.id rs) ≡ none) same (route_of-drop_self d.id rs)
    | inr n ↦ route_of-drop_ne d.id id rs (ground (arith, n)) ∙ h
  ]

  -- A route that is gone stays gone.
  remove_loop-keeps :
      (ds : List CustomDomain) (w : World) (id : ℕ)
      → route_of id w.routes ≡ none
      → route_of id (remove_loop out ds w).0.routes ≡ none
  unfolding remove_loop
  remove_loop-keeps [] w id h = h
  remove_loop-keeps (d ∷ ds) w id h = elim (Bool-cases d.is_verified) [
    | inl v ↦ elim (Bool-cases (out.remove_answers d.id)) [
      | inl y ↦ elim (Bool-cases (out.update_answers d.id)) [
        | inl u ↦
            rw (v, y, u, remove_loop)
              (remove_loop-keeps ds (save out d.id verified d.is_verified (unrouted d w)) id (
                saved out (λ rs. route_of id rs ≡ none) d.id verified d.is_verified (unrouted d w)
                  (drop_keeps id d w.routes h)))
        | inr u ↦ rw (v, y, u, remove_loop) (drop_keeps id d w.routes h)
      ]
      | inr n ↦ rw (v, n, remove_loop) h
    ]
    | inr n ↦ rw (n, remove_loop) (remove_loop-keeps ds w id h)
  ]

  remove_loop-reaches :
      (ds : List CustomDomain) (w : World) (d : CustomDomain)
      → (remove_loop out ds w).1 ≡ none
      → Elem d ds
      → d.is_verified ≡ true
      → route_of d.id (remove_loop out ds w).0.routes ≡ none
  unfolding remove_loop
  remove_loop-reaches [] w d e m v = absurd m
  remove_loop-reaches (x ∷ ds) w d e m v = elim (Bool-cases x.is_verified) [
    | inl t ↦ elim (Bool-cases (out.remove_answers x.id)) [
      | inl y ↦ elim (Bool-cases (out.update_answers x.id)) [
        | inl u ↦
            rw (t, y, u, remove_loop)
              (elim m [
                | inl same ↦
                    remove_loop-keeps ds (save out x.id verified x.is_verified (unrouted x w)) d.id
                      (saved out (λ rs. route_of d.id rs ≡ none) x.id verified x.is_verified
                        (unrouted x w)
                        (subst (λ i. route_of i (drop_route x.id w.routes) ≡ none)
                          (ap (λ y. y.id) same) (route_of-drop_self x.id w.routes)))
                | inr later ↦ remove_loop-reaches ds _ d (cc (t, y, u, e)) later v
              ])
        | inr u ↦ absurd (cc (t, y, u, e))
      ]
      | inr n ↦ absurd (cc (t, n, e))
    ]
    | inr n ↦
        rw (n, remove_loop)
          (remove_loop-reaches ds w d (cc (n, e))
            (elim m [
              | inl same ↦ absurd (cc (n, v, ap (λ y. y.is_verified) same))
              | inr later ↦ later
            ])
            v)
  ]

  -- If `remove_routes` returns no error, then no domain of the app that counts as verified has a
  -- route any more.
  pub remove_routes-reaches :
      (app : ℕ) (w : World) (d : CustomDomain)
      → (remove_routes out app w).1 ≡ none
      → Elem d w.domains
      → d.app_id ≡ app
      → d.is_verified ≡ true
      → route_of d.id (remove_routes out app w).0.routes ≡ none
  unfolding remove_routes
  remove_routes-reaches app w d e m i v = elim (Bool-cases out.list_answers) [
    | inl y ↦ rw y (
        remove_loop-reaches (of_app app w.domains) w d (cc (y, e))
          (of_app-Elem out app w.domains d m i) v)
    | inr n ↦ absurd (cc (n, e))
  ]
