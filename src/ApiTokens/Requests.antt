-- ===== src/ApiTokens/Requests.antt =====
-- Requests on the API tokens, and what a creation that succeeds did.
use mini_paa_s.Common.{
  ℕ, ◌≡◌, refl, Bool, true, false, ◌&&◌, ◌||◌, not, String, List, [], ◌∷◌, Option, none, some, ◌==◌,
  trim,
}
use mini_paa_s.Common.Results.{Result, ok, err, ◌>>=◌, ◌>>◌, guard, guard-eq-ok, or_err-eq-ok}
use mini_paa_s.Auth.{
  ApiToken, AuthResult, granted, denied, unauthorized, name_invalid, expiry_invalid,
  normalize_scopes,
}
use mini_paa_s.ApiTokens.{
  Row, Error, from_auth, is_name, is_future, is_taken, insert, raw_token, new_row, create, revoke,
  authenticated, touched,
}
use mini_paa_s.ApiTokens.Lookup.{owns}

-- Requests, with what the random source, the database and the clock answer
pub data Op : Type 0 where
  creates : ℕ → Option ℕ → Option ℕ → ℕ → String → List String → Option ℕ → Op
  revokes : Bool → ℕ → ℕ → Op
  uses : Bool → Bool → ℕ → String → Op

abbrev pub table_of : List Row → Result Error (ApiToken × String × List Row) → List Row
table_of t (ok made) = made.2
table_of t (err e) = t

abbrev pub after : List Row → Result Error (List Row) → List Row
after t (ok t') = t'
after t (err e) = t

-- Whether the request revokes the token.
abbrev pub ends : ApiToken → Op → Bool
ends token (creates now random stored user name scopes expires) = false
ends token (revokes writes user id) =
    writes && not (user == 0) && not (id == 0) && owns user id token
ends token (uses reads writes now raw) = false

unfoldable pub is_ended : ApiToken → List Op → Bool
is_ended token [] = false
is_ended token (op ∷ ops) = ends token op || is_ended token ops

from_auth-eq-ok :
    {A B : Type 0} {b : B} (m : AuthResult A) (f : A → Result Error B)
    → (from_auth m >>= f) ≡ ok b
    → (a : A) × (m ≡ granted a) × (f a ≡ ok b)
from_auth-eq-ok (granted a) f h = (a, refl, h)
from_auth-eq-ok (denied e) f h = cc

insert-made :
    (stored : Option ℕ) (row : ℕ → Row) (t : List Row)
    (answer : Row × List Row → ApiToken × String × List Row) (made : ApiToken × String × List Row)
    → (insert stored row t >>= λ m. ok (answer m)) ≡ ok made
    → (id : ℕ) × (is_taken id (row id).hash t ≡ false) × (answer (row id, row id ∷ t) ≡ made)
unfolding insert
insert-made none row t answer made h = cc
insert-made (some id) row t answer made h = by_test (is_taken id (row id).hash t) refl h
  where
    by_test :
        (b : Bool)
        → is_taken id (row id).hash t ≡ b
        → ((guard (not b) Error.store_failed >> ok (row id, row id ∷ t)) >>= λ m. ok (answer m))
          ≡ ok made
        → (i : ℕ) × (is_taken i (row i).hash t ≡ false) × (answer (row i, row i ∷ t) ≡ made)
    by_test true q e = cc
    by_test false q e = (id, q, cc e)

module _ (hash : String → String) (encode : ℕ → String) (decoded : String → Option ℕ)
    (lower : String → String) where
  unfoldable pub serve : Op → List Row → List Row
  unfolding create revoke authenticated touched
  serve (creates now random stored user name scopes expires) t =
      table_of t (create hash encode lower now random stored user name scopes expires t)
  serve (revokes writes user id) t = after t (revoke writes user id t)
  serve (uses reads writes now raw) t =
      touched hash decoded writes now (authenticated hash decoded reads t now raw) t

  unfoldable pub run : List Op → List Row → List Row
  unfolding serve
  run [] t = t
  run (op ∷ ops) t = run ops (serve op t)

  -- A creation that succeeds, in its parts.
  pub record Creates (now : ℕ) (random : Option ℕ) (user : ℕ) (name : String) (scopes : List String)
      (expires : Option ℕ) (t : List Row) (made : ApiToken × String × List Row) : Type 0 where
    pub secret : ℕ
    pub normal : List String
    pub id : ℕ
    pub drawn : random ≡ some secret
    pub named : not (user == 0) ≡ true
    pub normalized : normalize_scopes lower scopes ≡ granted normal
    pub timely : is_future now expires ≡ true
    pub fresh : is_taken id (hash (raw_token hash encode lower secret)) t ≡ false
    pub value :
        (let row =
            new_row hash encode lower user
              (trim name)
              (raw_token hash encode lower secret)
              normal
              expires
              id in
          (row.token, raw_token hash encode lower secret, row ∷ t))
        ≡ made

  pub create-Creates :
      (now : ℕ) (random stored : Option ℕ) (user : ℕ) (name : String) (scopes : List String)
      (expires : Option ℕ) (t : List Row) (made : ApiToken × String × List Row)
      → create hash encode lower now random stored user name scopes expires t ≡ ok made
      → Creates now random user name scopes expires t made
  unfolding create insert
  create-Creates now random stored user name scopes expires t made h =
      let (named, h1) = guard-eq-ok (not (user == 0)) (Error.refused unauthorized) _ h in
      let (proper, h2) = guard-eq-ok (is_name (trim name)) (Error.refused name_invalid) _ h1 in
      let (normal, normalized, h3) = from_auth-eq-ok (normalize_scopes lower scopes) _ h2 in
      let (timely, h4) = guard-eq-ok (is_future now expires) (Error.refused expiry_invalid) _ h3 in
      let (secret, drawn, h5) = or_err-eq-ok random Error.no_randomness _ h4 in
      let row =
        new_row hash encode lower user (trim name) (raw_token hash encode lower secret) normal
          expires in
      let (id, fresh, e) =
        insert-made stored row t (λ m. (m.0.token, raw_token hash encode lower secret, m.1)) made
          h5 in
      record {
        secret = secret;
        normal = normal;
        id = id;
        drawn = drawn;
        named = named;
        normalized = normalized;
        timely = timely;
        fresh = fresh;
        value = e;
      }
