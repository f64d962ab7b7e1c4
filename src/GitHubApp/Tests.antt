-- ===== src/GitHubApp/Tests.antt =====
-- A user who connects an installation, and the theorems at it.
use mini_paa_s.Common.{
  ℕ, zero, suc, ◌≡◌, refl, ◌<◌, ◌&&◌, true, false, List, [], ◌∷◌, Option, none, some, if◌then◌else◌,
  ltb, text_eq, text_eq_refl, codes, arith, trim_space, space_left, space_right, is_space, ap, ◌∙◌,
}
use mini_paa_s.Common.Results.{ok}
use mini_paa_s.GitHubApp.{
  StateClaims, issuer, claims_of, sign, verify_target, Table, Request, Repository, pages_from,
}
use mini_paa_s.GitHubApp.States.{sign-verify_target}
use mini_paa_s.GitHubApp.Ownership.{Connection, owner_of, run_connections, run_connections-owner_of}
use mini_paa_s.GitHubApp.Pages.{all_pages, pages_from-all_pages}

-- A token that is its claims, and the checks of the JWT library on it.
abbrev read_token : ℕ → StateClaims → Option StateClaims
read_token now c = if text_eq c.issuer issuer && ltb now c.expires_at then some c else none

reads :
    (c : StateClaims) (now : ℕ) → c.issuer ≡ issuer → now < c.expires_at → read_token now c ≡ some c
reads c now i l =
    let e : text_eq c.issuer issuer ≡ true = ap (λ x. text_eq x issuer) i ∙ text_eq_refl issuer in
    ground (arith, e)

signed_app :
    sign (λ c. c) read_token 32 (codes "shop") 7 (codes "app") 1000
    ≡ ok (claims_of (codes "shop") 7 (codes "app") 1000)
unfolding sign trim_space space_left space_right is_space
signed_app = refl

signed_account :
    sign (λ c. c) read_token 32 [] 7 (codes "account") 1000
    ≡ ok (claims_of [] 7 (codes "account") 1000)
unfolding sign trim_space space_left space_right is_space
signed_account = refl

sign-verify_target_example :
    (verify_target (λ c. c) read_token 1500 (claims_of (codes "shop") 7 (codes "app") 1000)
      ≡ ok (record { app_name = codes "shop"; user = 7; target = codes "app" }))
    × (verify_target (λ c. c) read_token 1500 (claims_of [] 7 (codes "account") 1000)
        ≡ ok (record { app_name = []; user = 7; target = codes "account" }))
sign-verify_target_example =
    sign-verify_target (λ c. c) read_token reads 32 7 1000 1500 (codes "shop")
      (claims_of (codes "shop") 7 (codes "app") 1000) (claims_of [] 7 (codes "account") 1000)
      (omega arith) signed_app signed_account

abbrev owned : Table
owned = record { id = 70; login = codes "acme"; owner = some 7 } ∷ []

abbrev other_user : Request
other_user = record {
  enabled = true;
  user = some 9;
  has_app = λ name. true;
  github = λ id. ok (codes "acme");
}

-- User 9 comes with a state of its own, and with one of user 7.
abbrev attempts : List Connection
attempts =
    (other_user, 70, ok (record { app_name = []; user = 9; target = codes "account" }))
    ∷ (other_user, 70, ok (record { app_name = []; user = 7; target = codes "account" }))
    ∷ []

run_connections-owner_of_example : owner_of 70 (run_connections attempts owned) ≡ some 7
run_connections-owner_of_example = run_connections-owner_of attempts 70 7 owned refl

abbrev replicate : ℕ → Repository → List Repository
replicate zero r = []
replicate (suc n) r = r ∷ replicate n r

abbrev one_repository : Repository
one_repository = record {
  id = 5;
  full_name = codes "acme/shop";
  is_private = false;
  default_branch = codes "main";
}

abbrev two_pages : ℕ → List Repository
two_pages n = if ltb n 2 then replicate 100 one_repository else replicate 3 one_repository

pages_from-all_pages_example :
    pages_from 9 1 (λ n. ok (two_pages n)) [] ≡ some (ok (all_pages two_pages 1 1))
pages_from-all_pages_example = pages_from-all_pages two_pages 9 1 (omega arith) (refl, refl)
