-- ===== src/CustomDomains.antt =====
-- service/custom_domain.go: the custom domains of the apps and their routes. The world is the table
-- of the domains and the routes that the router holds for them, by the domain's id.
use text.Mathlib.Text.{◌==◌ as str_eq}
use mini_paa_s.Common.{
  ℕ, Bool, true, false, ◌&&◌, ◌||◌, not, String, List, [], ◌∷◌, Option, none, some, ◌==◌,
  if◌then◌else◌, ltb, length,
}
pub mod Routes
pub mod Sync
pub mod Removal
pub mod Verification
mod Tests

pub data CustomDomainStatus : Type 0 where
  pending verified active error : CustomDomainStatus

-- `is_verified` tells whether `VerifiedAt` is set.
pub record CustomDomain : Type 0 where
  pub id : ℕ
  pub app_id : ℕ
  pub hostname : String
  pub status : CustomDomainStatus
  pub is_verified : Bool

pub record World : Type 0 where
  pub domains : List CustomDomain
  pub routes : List (ℕ × ℕ)

pub data DomainError : Type 0 where
  app_not_found domain_not_found dns_not_configured route_failed store_failed : DomainError

-- What the store, the router and DNS answer: whether they do, and what.
pub record Outside : Type 0 where
  pub list_answers : Bool
  pub switch_answers : ℕ → Bool
  pub remove_answers : ℕ → Bool
  pub update_answers : ℕ → Bool
  pub delete_answers : Bool
  -- the app of this name, or the error of the lookup
  pub app_named : String → Option ℕ
  pub app_error : DomainError
  -- the addresses of a host name, and the address that is configured for the server
  pub lookup_host : String → Option (List String)
  pub expected_ip : String
  -- `net.ParseIP`: the 16 bytes of the address, read as a number
  pub parse_ip : String → Option ℕ
  -- the port of the app's active deployment, where it has one with a container
  pub active_port : ℕ → Option ℕ

-- The routes as a map
abbrev pub route_of : ℕ → List (ℕ × ℕ) → Option ℕ
route_of id [] = none
route_of id ((d, port) ∷ rs) = if d == id then some port else route_of id rs

abbrev pub put_route : ℕ → ℕ → List (ℕ × ℕ) → List (ℕ × ℕ)
put_route id port [] = (id, port) ∷ []
put_route id port ((d, p) ∷ rs) = if d == id then (d, port) ∷ rs else (d, p) ∷ put_route id port rs

abbrev pub drop_route : ℕ → List (ℕ × ℕ) → List (ℕ × ℕ)
drop_route id [] = []
drop_route id ((d, p) ∷ rs) = let rest = drop_route id rs in if d == id then rest else (d, p) ∷ rest

-- `domains.UpdateVerification`
abbrev pub update_verification :
    ℕ → CustomDomainStatus → Bool → List CustomDomain → List CustomDomain
update_verification id status v [] = []
update_verification id status v (d ∷ ds) =
    (if d.id == id then record d { status = status; is_verified = v } else d)
    ∷ update_verification id status v ds

-- `domains.ListByApp` and `domains.Get`
abbrev pub of_app : ℕ → List CustomDomain → List CustomDomain
of_app app [] = []
of_app app (d ∷ ds) = let rest = of_app app ds in if d.app_id == app then d ∷ rest else rest

abbrev pub get_domain : ℕ → List CustomDomain → Option CustomDomain
get_domain id [] = none
get_domain id (d ∷ ds) = if d.id == id then some d else get_domain id ds

abbrev pub is_pending : CustomDomainStatus → Bool
is_pending pending = true
is_pending verified = false
is_pending active = false
is_pending error = false

module _ (out : Outside) where
  -- One update of a row, which a store that does not answer leaves out.
  abbrev pub save : ℕ → CustomDomainStatus → Bool → World → World
  save id status v w =
      if out.update_answers id
      then record w { domains = update_verification id status v w.domains }
      else w

  -- The loop of `SyncRoutes`
  unfoldable pub sync_loop : ℕ → List CustomDomain → World → World × Option DomainError
  sync_loop port [] w = (w, none)
  sync_loop port (d ∷ ds) w = elim (not d.is_verified || is_pending d.status) [
    | true ↦ sync_loop port ds w
    | false ↦ elim (out.switch_answers d.id) [
      | false ↦ (save d.id error d.is_verified w, some route_failed)
      | true ↦
          let routed = record w { routes = put_route d.id port w.routes } in
          elim (out.update_answers d.id) [
            | false ↦ (routed, some store_failed)
            | true ↦ sync_loop port ds (save d.id active d.is_verified routed)
          ]
    ]
  ]

  -- `SyncRoutes`
  unfoldable pub sync_routes : ℕ → ℕ → World → World × Option DomainError
  unfolding sync_loop
  sync_routes app port w =
      if out.list_answers then sync_loop port (of_app app w.domains) w else (w, some store_failed)

  -- The loop of `RemoveRoutes`
  unfoldable pub remove_loop : List CustomDomain → World → World × Option DomainError
  remove_loop [] w = (w, none)
  remove_loop (d ∷ ds) w = elim d.is_verified [
    | false ↦ remove_loop ds w
    | true ↦ elim (out.remove_answers d.id) [
      | false ↦ (w, some route_failed)
      | true ↦
          let unrouted = record w { routes = drop_route d.id w.routes } in
          elim (out.update_answers d.id) [
            | false ↦ (unrouted, some store_failed)
            | true ↦ remove_loop ds (save d.id verified d.is_verified unrouted)
          ]
    ]
  ]

  -- `RemoveRoutes`
  unfoldable pub remove_routes : ℕ → World → World × Option DomainError
  unfolding remove_loop
  remove_routes app w =
      if out.list_answers then remove_loop (of_app app w.domains) w else (w, some store_failed)

  -- The domain of this id if it belongs to the app, as `Verify` and `Delete` look for it
  unfoldable pub owned : ℕ → Option CustomDomain → Option CustomDomain
  owned app none = none
  owned app (some d) = if d.app_id == app then some d else none

  -- Whether some address is the expected one, the loop of `matchesExpectedIP`
  unfoldable pub has_address : ℕ → List String → Bool
  has_address ip [] = false
  has_address ip (a ∷ addresses) =
      let rest = has_address ip addresses in
      elim (out.parse_ip a) [ none ↦ rest | some x ↦ if x == ip then true else rest ]

  -- `matchesExpectedIP`
  unfoldable pub matches_expected_ip : List String → Bool
  unfolding has_address
  matches_expected_ip addresses =
      if str_eq out.expected_ip ""
      then ltb 0 (length addresses)
      else elim (out.parse_ip out.expected_ip) [ none ↦ false | some ip ↦ has_address ip addresses ]

  -- The test of `Verify` on the answer of DNS
  unfoldable pub dns_matches : Option (List String) → Bool
  unfolding matches_expected_ip
  dns_matches none = false
  dns_matches (some addresses) = matches_expected_ip addresses

  -- `Verify`, once DNS has answered well: the route is switched where the app runs.
  unfoldable pub confirm : CustomDomain → Option ℕ → World → World × Option DomainError
  confirm d none w =
      (save d.id verified true w, if out.update_answers d.id then none else some store_failed)
  confirm d (some port) w =
      if out.switch_answers d.id
      then (
        save d.id active true (record w { routes = put_route d.id port w.routes }),
        if out.update_answers d.id then none else some store_failed,
      )
      else (save d.id error true w, some route_failed)

  unfoldable pub verify_domain : ℕ → Option CustomDomain → World → World × Option DomainError
  unfolding confirm dns_matches
  verify_domain app none w = (w, some domain_not_found)
  verify_domain app (some d) w =
      if dns_matches (out.lookup_host d.hostname)
      then confirm d (out.active_port app) w
      else (save d.id error false w, some dns_not_configured)

  -- `Verify`
  unfoldable pub verify : String → ℕ → World → World × Option DomainError
  unfolding owned verify_domain
  verify name id w = elim (out.app_named name) [
    | none ↦ (w, some out.app_error)
    | some app ↦ verify_domain app (owned app (get_domain id w.domains)) w
  ]

  abbrev pub drop_domain : ℕ → List CustomDomain → List CustomDomain
  drop_domain id [] = []
  drop_domain id (d ∷ ds) = let rest = drop_domain id ds in if d.id == id then rest else d ∷ rest

  -- The row goes after the route.
  unfoldable pub delete_row : ℕ → World → World × Option DomainError
  delete_row id w =
      if out.delete_answers
      then (record w { domains = drop_domain id w.domains }, none)
      else (w, some store_failed)

  unfoldable pub delete_domain : Option CustomDomain → World → World × Option DomainError
  unfolding delete_row
  delete_domain none w = (w, some domain_not_found)
  delete_domain (some d) w =
      if d.is_verified
      then if out.remove_answers d.id
        then delete_row d.id (record w { routes = drop_route d.id w.routes })
        else (w, some route_failed)
      else delete_row d.id w

  -- `Delete`
  unfoldable pub delete : String → ℕ → World → World × Option DomainError
  unfolding owned delete_domain
  delete name id w = elim (out.app_named name) [
    | none ↦ (w, some out.app_error)
    | some app ↦ delete_domain (owned app (get_domain id w.domains)) w
  ]
