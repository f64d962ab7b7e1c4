-- ===== src/CustomDomains/Tests.antt =====
-- Two apps with a domain each, and the theorems on custom domains at them.
use text.Mathlib.Text.{◌==◌ as str_eq}
use mini_paa_s.Common.{
  ℕ, ◌≡◌, ◌≢◌, refl, Bool, true, false, [], ◌∷◌, none, some, inl, inr, Elem, if◌then◌else◌,
}
use mini_paa_s.CustomDomains.{
  CustomDomain, active, World, app_not_found, Outside, route_of, get_domain, sync_routes, sync_loop,
  remove_routes, remove_loop, verify, verify_domain, has_address, matches_expected_ip, dns_matches,
  confirm, owned, delete, delete_domain, delete_row,
}
use mini_paa_s.CustomDomains.Sync.{sync_routes-reaches, sync_routes-others}
use mini_paa_s.CustomDomains.Removal.{remove_routes-reaches}
use mini_paa_s.CustomDomains.Verification.{PointsHere, verify-Verifies}

abbrev shop_domain : CustomDomain
shop_domain = record {
  id = 1;
  app_id = 7;
  hostname = "shop.example";
  status = active;
  is_verified = true;
}

abbrev blog_domain : CustomDomain
blog_domain = record {
  id = 2;
  app_id = 9;
  hostname = "blog.example";
  status = active;
  is_verified = true;
}

abbrev world : World
world = record { domains = shop_domain ∷ blog_domain ∷ []; routes = (1, 3000) ∷ (2, 4000) ∷ [] }

abbrev outside : Bool → Outside
outside dns = record {
  list_answers = true;
  switch_answers = λ id. true;
  remove_answers = λ id. true;
  update_answers = λ id. true;
  delete_answers = true;
  app_named = λ name. if str_eq name "shop" then some 7 else none;
  app_error = app_not_found;
  lookup_host = λ host. some ((if dns then "10.0.0.1" else "10.0.0.9") ∷ []);
  expected_ip = "10.0.0.1";
  parse_ip = λ ip. if str_eq ip "10.0.0.1" then some 1 else none;
  active_port = λ app. some 3001;
}

synced : (sync_routes (outside true) 7 3001 world).1 ≡ none
unfolding sync_routes sync_loop
synced = refl

unrouted : (remove_routes (outside true) 7 world).1 ≡ none
unfolding remove_routes remove_loop
unrouted = refl

confirmed : (verify (outside true) "shop" 1 world).1 ≡ none
unfolding verify owned verify_domain confirm dns_matches matches_expected_ip has_address
confirmed = refl

-- The domain that DNS no longer points here loses `VerifiedAt`, and its deletion then leaves its
-- route with the router.
route_left_behind :
    let checked = (verify (outside false) "shop" 1 world).0 in
    let (deleted, e) = delete (outside false) "shop" 1 checked in
    (e ≡ none) × (get_domain 1 deleted.domains ≡ none) × (route_of 1 deleted.routes ≡ some 3000)
unfolding verify owned verify_domain dns_matches matches_expected_ip has_address delete
    delete_domain delete_row
route_left_behind = (refl, refl, refl)

sync_routes-reaches_example :
    route_of 1 (sync_routes (outside true) 7 3001 world).0.routes ≡ some 3001
sync_routes-reaches_example =
    sync_routes-reaches (outside true) 7 3001 world shop_domain synced (inl refl) refl refl refl

other_app : (d : CustomDomain) → Elem d (shop_domain ∷ blog_domain ∷ []) → d.app_id ≡ 7 → d.id ≢ 2
other_app d (inl e) i x = absurd (cc (e, x))
other_app d (inr (inl e)) i x = absurd (cc (e, i))
other_app d (inr (inr m)) i x = absurd m

sync_routes-others_example :
    route_of 2 (sync_routes (outside true) 7 3001 world).0.routes
    ≡ route_of 2 ((1, 3000) ∷ (2, 4000) ∷ [])
sync_routes-others_example = sync_routes-others (outside true) 7 3001 world 2 other_app

remove_routes-reaches_example : route_of 1 (remove_routes (outside true) 7 world).0.routes ≡ none
remove_routes-reaches_example =
    remove_routes-reaches (outside true) 7 world shop_domain unrouted (inl refl) refl refl

verify-Verifies_example :
    (app : ℕ) × (some 7 ≡ some app)
    × ((d : CustomDomain) × (some shop_domain ≡ some d)
        × (d.app_id ≡ app)
        × (PointsHere (outside true) d
            × ((port : ℕ)
                → some 3001 ≡ some port
                → route_of d.id (verify (outside true) "shop" 1 world).0.routes ≡ some port)))
verify-Verifies_example = verify-Verifies (outside true) "shop" 1 world confirmed
