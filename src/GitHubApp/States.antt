-- ===== src/GitHubApp/States.antt =====
-- The states that travel through GitHub and come back.
use mini_paa_s.Common.{
  ℕ, ◌+◌, ◌<◌, ◌≡◌, refl, subst, true, false, List, [], Option, some, arith, codes, ◌==◌,
  trim_space,
}
use mini_paa_s.Common.Results.{ok, guard-eq-ok}
use mini_paa_s.GitHubApp.{
  Error, StateClaims, claims_of, can_sign, is_blank, issuer, with_claims, sign, verify_target,
  Target,
}

-- The claims that `Sign` and `SignAccount` make are verified to what they were made for.
claims_verified :
    (app : List ℕ) (user now : ℕ)
    → is_blank app ≡ false
    → (user == 0) ≡ false
    → with_claims (some (claims_of app user (codes "app") now))
      ≡ ok (record { app_name = app; user = user; target = codes "app" })
claims_verified app user now b u = rw (u, b) refl

account_verified :
    (user now : ℕ)
    → (user == 0) ≡ false
    → with_claims (some (claims_of [] user (codes "account") now))
      ≡ ok (record { app_name = []; user = user; target = codes "account" })
unfolding trim_space
account_verified user now u = rw u refl

module _ {Token : Type 0} (encode : StateClaims → Token) (parse : ℕ → Token → Option StateClaims)
    (opens : (c : StateClaims) (now : ℕ)
      → c.issuer ≡ issuer
      → now < c.expires_at
      → parse now (encode c) ≡ some c) where
  signed :
      (secret_length user issued now : ℕ) (app target : List ℕ) (raw : Token) {t : Target}
      → now < issued + 600
      → (can_sign secret_length app user target ≡ true
          → with_claims (some (claims_of app user target issued)) ≡ ok t)
      → sign encode parse secret_length app user target issued ≡ ok raw
      → verify_target encode parse now raw ≡ ok t
  unfolding sign verify_target
  signed secret_length user issued now app target raw {t} l v h =
      let c : StateClaims = claims_of app user target issued in
      let g =
        guard-eq-ok (can_sign secret_length app user target) Error.installation_invalid
          (ok (encode c)) h in
      let e : encode c ≡ raw = cc (g.1) in
      subst (λ r. with_claims (parse now r) ≡ ok t) e (rw (opens c now refl l) (v g.0))

  -- Where the JWT library reads back the claims that it signed, while they have not expired: a state
  -- that `Sign` gave out for an app and a user is verified, for ten minutes, to that app, that user
  -- and the target `app`; and one of `SignAccount` to that user and the target `account`.
  pub sign-verify_target :
      (secret_length user issued now : ℕ) (app : List ℕ) (raw raw' : Token)
      → now < issued + 600
      → sign encode parse secret_length app user (codes "app") issued ≡ ok raw
      → sign encode parse secret_length [] user (codes "account") issued ≡ ok raw'
      → (verify_target encode parse now raw
          ≡ ok (record { app_name = app; user = user; target = codes "app" }))
        × (verify_target encode parse now raw'
            ≡ ok (record { app_name = []; user = user; target = codes "account" }))
  sign-verify_target secret_length user issued now app raw raw' l h h' = (
    signed secret_length user issued now app (codes "app") raw l
        (λ s. claims_verified app user issued (ground (arith, s)) (ground (arith, s))) h,
    signed secret_length user issued now [] (codes "account") raw' l
        (λ s. account_verified user issued (ground (arith, s))) h',
  )
