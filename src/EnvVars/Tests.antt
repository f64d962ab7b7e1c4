-- ===== src/EnvVars/Tests.antt =====
-- Variables of two apps, under a cipher that keeps the text beside its nonce.
use mini_paa_s.Common.{
  ℕ, ◌≡◌, true, List, [], ◌∷◌, Option, none, some, codes, if◌then◌else◌, ◌==◌, arith,
}
use mini_paa_s.EnvVars.{Op, sets, deletes, run, decrypted}
use mini_paa_s.EnvVars.Refinement.{replay, AnswersAs, run_refines}

abbrev Sealed : Type 0
Sealed = ℕ × List ℕ

abbrev seal : ℕ → List ℕ → Sealed
seal nonce text = (nonce, text)

abbrev open_secret : ℕ → Sealed → Option (List ℕ)
open_secret nonce s = if s.0 == nonce then some s.1 else none

opens : (nonce : ℕ) (text : List ℕ) → open_secret nonce (seal nonce text) ≡ some text
opens nonce text = ground arith

abbrev requests : List Op
requests =
    sets 3 (codes "PORT") (codes "8080") (some 11) true
    ∷ sets 4 (codes "PORT") (codes "9000") (some 12) true
    ∷ sets 3 (codes "2BAD") (codes "x") (some 13) true
    ∷ sets 3 (codes "PORT") (codes "3000") (some 14) true
    ∷ deletes 4 (codes "PORT") true
    ∷ []

run_refines_example :
    AnswersAs seal open_secret opens
      (decrypted seal open_secret 3 (some (run seal open_secret requests [])))
      (replay requests (λ x k. none) 3)
run_refines_example = run_refines seal open_secret opens requests 3
