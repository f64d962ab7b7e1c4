-- ===== src/Users/Tests.antt =====
-- A user who registers, logs in and changes the password.
use mini_paa_s.Common.{
  ℕ, ◌+◌, ◌<◌, ◌≡◌, refl, subst, true, false, List, [], ◌∷◌, Option, none, some, ltb, if◌then◌else◌,
  text_eq, text_eq_refl, codes, trim_space, arith,
}
use mini_paa_s.Common.Results.{ok}
use mini_paa_s.Users.{Error, User, Claims, register, update_password, matches_username, login}
use mini_paa_s.Users.Requests.{Op, registers, renames, seeds, run}
use mini_paa_s.Users.Sessions.{OpensSession, register-OpensSession, update_password-OpensSession}

abbrev generate : ℕ → List ℕ → Option (List ℕ)
generate salt password = some password

opens :
    (salt : ℕ) (password hash : List ℕ)
    → generate salt password ≡ some hash
    → text_eq hash password ≡ true
opens salt password hash h = subst (λ x. text_eq x password ≡ true) (cc h) (text_eq_refl password)

abbrev sign : Claims → Option Claims
sign c = some c

abbrev parse : ℕ → Claims → Option Claims
parse time raw = if ltb time raw.exp then some raw else none

parses : (c raw : Claims) (time : ℕ) → sign c ≡ some raw → time < c.exp → parse time raw ≡ some c
parses c raw time h l =
    let e : c ≡ raw = cc h in subst (λ r. parse time r ≡ some c) e (ground (arith, l))

abbrev ana : User (List ℕ)
ana = record { id = 7; name = codes "ana"; password_hash = codes "correct horse" }

abbrev requests : List Op
requests =
    registers 2 (some 8) (codes "ana") (codes "another password")
    ∷ renames true 8 (codes "ana")
    ∷ seeds true 3 (some 9) (codes "admin") (codes "x")
    ∷ registers 4 (some 9) (codes "bob") (codes "password")
    ∷ []

found : mini_paa_s.Users.get_by_username (codes "ana") (ana ∷ []) ≡ some ana
unfolding mini_paa_s.Users.get_by_username
found = refl

registered :
    register generate text_eq 1 (some 7) (codes " ana ") (codes "correct horse") []
    ≡ ok (ana, ana ∷ [])
unfolding register mini_paa_s.Common.trim_space
registered = refl

register-OpensSession_example :
    OpensSession generate text_eq sign parse [] 60 1000 1059
      (trim_space (codes " ana "))
      7
      (codes "correct horse")
      (run generate text_eq requests (ana ∷ []))
register-OpensSession_example =
    register-OpensSession generate text_eq sign parse opens (λ c. (c, refl)) parses [] 60 1000 1059
      1 (some 7) (codes " ana ") (codes "correct horse") [] (ana ∷ []) ana requests registered
      (tt, (refl, (tt, (tt, tt)))) (omega arith)

abbrev renewed : User (List ℕ)
renewed = record ana { password_hash = codes "battery staple" }

changed :
    update_password generate text_eq true true 5 7
      (codes "correct horse")
      (codes "battery staple")
      (ana ∷ [])
    ≡ ok (renewed ∷ [])
unfolding update_password
changed = refl

update_password-OpensSession_example :
    OpensSession generate text_eq sign parse [] 60 1000 1059
      (codes "ana")
      7
      (codes "battery staple")
      (run generate text_eq requests (renewed ∷ []))
update_password-OpensSession_example =
    update_password-OpensSession generate text_eq sign parse opens (λ c. (c, refl)) parses [] 60
      1000 1059 5 true true (codes "correct horse") (codes "battery staple") (ana ∷ [])
      (renewed ∷ []) ana requests found changed (tt, (refl, (tt, (tt, tt)))) (omega arith)

-- The administrator that the configuration names may have any name and any password.
seeded :
    run generate text_eq (seeds true 3 (some 9) (codes " ") (codes "x") ∷ []) []
    ≡ record { id = 9; name = codes " "; password_hash = codes "x" } ∷ []
unfolding run
seeded = refl
