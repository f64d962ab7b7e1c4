-- ===== src/CustomDomains/Verification.antt =====
-- What the verification of a custom domain comes to.
use text.Mathlib.Text.{◌==◌ as str_eq}
use text.Mathlib.TextEquality.{eq_iff}
use mini_paa_s.Common.{
  ℕ, ◌≡◌, ◌<◌, ◌⊎◌, ltb, length, List, [], ◌∷◌, Elem, ap, refl, ◌∙◌, true, String, Option, none,
  some, ◌==◌, arith, Bool-cases, Option-cases, inl, inr,
}
use mini_paa_s.CustomDomains.{
  CustomDomain, active, World, Outside, route_of, put_route, get_domain, owned, confirm,
  has_address, matches_expected_ip, dns_matches, verify_domain, verify,
}
use mini_paa_s.CustomDomains.Routes.{route_of-put_self}
use mini_paa_s.CustomDomains.Sync.{saved}

module _ (out : Outside) where
  confirm-routes :
      (d : CustomDomain) (o : Option ℕ) (w : World) (port : ℕ)
      → (confirm out d o w).1 ≡ none
      → o ≡ some port
      → route_of d.id (confirm out d o w).0.routes ≡ some port
  unfolding confirm
  confirm-routes d none w port e h = absurd (cc h)
  confirm-routes d (some p) w port e h = elim (Bool-cases (out.switch_answers d.id)) [
    | inl y ↦ rw y (
        saved out (λ rs. route_of d.id rs ≡ some port) d.id active true
          (record w { routes = put_route d.id p w.routes }) (route_of-put_self d.id p w.routes ∙ h))
    | inr n ↦ absurd (cc (n, e))
  ]

  -- DNS answers with addresses, and where an address of the server is configured, that is an IP
  -- address and one of the answers is the same.
  abbrev pub PointsHere : CustomDomain → Type 0
  PointsHere d =
      (addresses : List String) × (out.lookup_host d.hostname ≡ some addresses)
      × (((out.expected_ip ≡ "") × (0 < length addresses))
          ⊎ ((ip : ℕ) × (out.parse_ip out.expected_ip ≡ some ip)
              × ((a : String) × Elem a addresses × (out.parse_ip a ≡ some ip))))

  has_address-Elem :
      (ip : ℕ) (addresses : List String)
      → has_address out ip addresses ≡ true
      → (a : String) × Elem a addresses × (out.parse_ip a ≡ some ip)
  unfolding has_address
  has_address-Elem ip [] h = absurd (cc h)
  has_address-Elem ip (a ∷ addresses) h = elim (Option-cases (out.parse_ip a)) [
    | inl n ↦ let (b, m, e) = has_address-Elem ip addresses (cc (n, h)) in (b, inr m, e)
    | inr (x, p) ↦ elim (Bool-cases (x == ip)) [
      | inl same ↦ let i : x ≡ ip = ground (arith, same) in (a, inl refl, p ∙ ap some i)
      | inr other ↦
          let (b, m, e) = has_address-Elem ip addresses (cc (p, other, h)) in (b, inr m, e)
    ]
  ]

  dns_matches-PointsHere :
      (d : CustomDomain) → dns_matches out (out.lookup_host d.hostname) ≡ true → PointsHere d
  unfolding dns_matches matches_expected_ip
  dns_matches-PointsHere d h = elim (Option-cases (out.lookup_host d.hostname)) [
    | inl n ↦ absurd (cc (n, h))
    | inr (addresses, l) ↦ elim (Bool-cases (str_eq out.expected_ip "")) [
      | inl free ↦
          let some_address : ltb 0 (length addresses) ≡ true = cc (l, free, h) in
          (addresses, l, inl ((eq_iff out.expected_ip "").0 free, ground (arith, some_address)))
      | inr set ↦ elim (Option-cases (out.parse_ip out.expected_ip)) [
        | inl bad ↦ absurd (cc (l, set, bad, h))
        | inr (ip, p) ↦
            (addresses, l, inr (ip, p, has_address-Elem ip addresses (cc (l, set, p, h))))
      ]
    ]
  ]

  -- What a verification without an error means.
  abbrev Verifies : ℕ → CustomDomain → World → Type 0
  Verifies app d w' =
      PointsHere d
      × ((port : ℕ) → out.active_port app ≡ some port → route_of d.id w'.routes ≡ some port)

  owned-Verifies :
      (app : ℕ) (o : Option CustomDomain) (w : World)
      → (verify_domain out app (owned out app o) w).1 ≡ none
      → (d : CustomDomain) × (o ≡ some d)
        × (d.app_id ≡ app)
        × Verifies app d (verify_domain out app (owned out app o) w).0
  unfolding owned verify_domain
  owned-Verifies app none w e = absurd (cc e)
  owned-Verifies app (some d) w e = elim (Bool-cases (d.app_id == app)) [
    | inl own ↦ elim (Bool-cases (dns_matches out (out.lookup_host d.hostname))) [
      | inl r ↦
          rw (own, r)
            (
              d,
              refl,
              ground (arith, own),
              (
                dns_matches-PointsHere d r,
                λ port p. confirm-routes d (out.active_port app) w port (cc (own, r, e)) p,
              ),
            )
      | inr n ↦ absurd (cc (own, n, e))
    ]
    | inr n ↦ absurd (cc (n, e))
  ]

  -- If `verify` returns no error, then the domain belongs to the app of that name; DNS answers
  -- for its host name with some address, which, where an address of the server is configured, is
  -- the same IP address as that one; and where the app has an active deployment with a container
  -- the domain is routed to its port.
  pub verify-Verifies :
      (name : String) (id : ℕ) (w : World)
      → (verify out name id w).1 ≡ none
      → (app : ℕ) × (out.app_named name ≡ some app)
        × ((d : CustomDomain) × (get_domain id w.domains ≡ some d)
            × (d.app_id ≡ app)
            × Verifies app d (verify out name id w).0)
  unfolding verify
  verify-Verifies name id w e = elim (Option-cases (out.app_named name)) [
    | inl n ↦ absurd (cc (n, e))
    | inr (app, a) ↦
        rw (a, verify) (app, refl, owned-Verifies app (get_domain id w.domains) w (cc (a, e)))
  ]
