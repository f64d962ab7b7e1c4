-- ===== src/CustomDomains/Routes.antt =====
-- The routes of the custom domains as a map: reading after writing and after removing.
use mini_paa_s.Common.{ℕ, ◌≡◌, ◌≢◌, refl, List, [], ◌∷◌, none, some, arith}
use mini_paa_s.CustomDomains.{route_of, put_route, drop_route}

pub route_of-put_self :
    (id port : ℕ) (rs : List (ℕ × ℕ)) → route_of id (put_route id port rs) ≡ some port
route_of-put_self id port [] = ground arith
route_of-put_self id port ((d, p) ∷ rs) = ground (arith, route_of-put_self id port rs)

pub route_of-put_ne :
    (id j port : ℕ) (rs : List (ℕ × ℕ)) → id ≢ j → route_of j (put_route id port rs) ≡ route_of j rs
route_of-put_ne id j port [] n = ground (arith, n)
route_of-put_ne id j port ((d, p) ∷ rs) n = ground (arith, n, route_of-put_ne id j port rs n)

pub route_of-drop_self : (id : ℕ) (rs : List (ℕ × ℕ)) → route_of id (drop_route id rs) ≡ none
route_of-drop_self id [] = refl
route_of-drop_self id ((d, p) ∷ rs) = ground (arith, route_of-drop_self id rs)

pub route_of-drop_ne :
    (id j : ℕ) (rs : List (ℕ × ℕ)) → id ≢ j → route_of j (drop_route id rs) ≡ route_of j rs
route_of-drop_ne id j [] n = refl
route_of-drop_ne id j ((d, p) ∷ rs) n = ground (arith, n, route_of-drop_ne id j rs n)
