-- ===== src/GitHubApp/Ownership.antt =====
-- Who owns an installation.
use mini_paa_s.Common.{
  ℕ, ◌≡◌, Bool, true, false, not, ◌&&◌, ◌||◌, List, [], ◌∷◌, Option, none, some, arith,
  if◌then◌else◌, ◌==◌, Bool-cases, inl, inr, ltb,
}
use mini_paa_s.Common.Results.{Result, ok, err, ◌>>=◌, ◌>>◌, guard}
use mini_paa_s.GitHubApp.{
  Error, Table, may_take, is_held, put, upsert, Request, is_user, is_app, connect_target, connect,
  Target,
}

-- The owner that the table has for an installation.
abbrev pub owner_of : ℕ → Table → Option ℕ
owner_of id [] = none
owner_of id (r ∷ rs) = if r.id == id then r.owner else owner_of id rs

-- The table after a request: an error leaves it alone.
abbrev pub after : Table → Result Error Table → Table
after t (ok t') = t'
after t (err e) = t

-- Requests to connect, each with the id of the installation and the verified state.
abbrev pub Connection : Type 0
Connection = Request × ℕ × Result Error Target

pub run_connections : List Connection → Table → Table
run_connections [] t = t
run_connections ((r, id, verified) ∷ cs) t = run_connections cs (after t (connect r id verified t))

-- A row that the user may take keeps the owner that it has.
taken :
    (owner rest : Option ℕ) (key id x user v : ℕ)
    → (key == id) ≡ true
    → may_take owner user ≡ true
    → (if key == x then owner else rest) ≡ some v
    → (if id == x then some user else rest) ≡ some v
taken none rest key id x user v y m o = ground arith
taken (some w) rest key id x user v y m o = ground arith

owner_of-put :
    (id x user v : ℕ) (login : List ℕ) (t : Table)
    → is_held id user t ≡ false
    → owner_of x t ≡ some v
    → owner_of x (put id login user t) ≡ some v
owner_of-put id x user v login [] h o = cc
owner_of-put id x user v login (r ∷ rs) h o = elim (Bool-cases (r.id == id)) [
  | inl y ↦ rw y (taken r.owner (owner_of x rs) r.id id x user v y (ground (arith, rw y at h)) o)
  | inr n ↦ rw n (ground (arith, rw n at h, o, owner_of-put id x user v login rs))
]

-- What the requests do not change: an installation that has an owner keeps it.
abbrev Keeps : ℕ → ℕ → Table → Table → Type 0
Keeps x v t t' = owner_of x t ≡ some v → owner_of x t' ≡ some v

upsert-Keeps :
    (id user x v : ℕ) (login : List ℕ) (t : Table) → Keeps x v t (after t (upsert id login user t))
unfolding upsert
upsert-Keeps id user x v login t o = elim (Bool-cases (is_held id user t)) [
  | inl y ↦ rw y o
  | inr n ↦ rw n (owner_of-put id x user v login t n o)
]

guarded :
    (b : Bool) (e : Error) (m : Result Error Table) (x v : ℕ) (t : Table)
    → Keeps x v t (after t m)
    → Keeps x v t (after t (guard b e >> m))
guarded true e m x v t k o = k o
guarded false e m x v t k o = o

answered :
    {A : Type 0} (g : Result Error A) (f : A → Result Error Table) (x v : ℕ) (t : Table)
    → ((a : A) → Keeps x v t (after t (f a)))
    → Keeps x v t (after t (g >>= f))
answered (ok a) f x v t k o = k a o
answered (err e) f x v t k o = o

connect-Keeps :
    (r : Request) (id x v : ℕ) (verified : Result Error Target) (t : Table)
    → Keeps x v t (after t (connect r id verified t))
unfolding connect connect_target
connect-Keeps r id x v verified t = guarded (r.enabled && ltb 0 id) _ _ x v t (
    answered verified _ x v t λ target. guarded (is_user r.user target.user) _ _ x v t (
      guarded (not (is_app target.target) || r.has_app target.app_name) _ _ x v t
        (answered (r.github id) _ x v t λ login. upsert-Keeps id target.user x v login t)))

-- Whatever requests to connect come in, and in whatever order: an installation that is connected by
-- one user stays that user's.
pub run_connections-owner_of :
    (cs : List Connection) (x v : ℕ) (t : Table)
    → owner_of x t ≡ some v
    → owner_of x (run_connections cs t) ≡ some v
unfolding run_connections
run_connections-owner_of [] x v t o = o
run_connections-owner_of ((r, id, verified) ∷ cs) x v t o =
    run_connections-owner_of cs x v (after t (connect r id verified t))
      (connect-Keeps r id x v verified t o)

-- A request whose user is not the one for whom the state was given out is refused, and so is one
-- without a user.
pub connect-other_user :
    (r : Request) (id : ℕ) (target : Target) (t : Table)
    → is_user r.user target.user ≡ false
    → connect r id (ok target) t ≡ err Error.installation_invalid
unfolding connect connect_target
connect-other_user r id target t h = ground arith
