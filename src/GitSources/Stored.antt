-- ===== src/GitSources/Stored.antt =====
-- What holds of every source that the table ever has.
use mini_paa_s.Common.{
  ℕ, ◌≡◌, refl, ap, subst, ◌∙◌, ◌⊎◌, inl, inr, Bool, true, false, ◌&&◌, ◌||◌, List, [], ◌∷◌, none,
  some, ◌==◌, if◌then◌else◌, codes, arith, All, Bool-cases, split,
}
use mini_paa_s.Common.Results.{ok, or_err-eq-ok}
use mini_paa_s.SourceGit.{normalize_repository, normalize_branch, normalize_relative_path}
use mini_paa_s.SourceGit.Paths.{IsPlain}
use mini_paa_s.SourceGit.Inside.{normalize_relative_path-IsPlain}
use mini_paa_s.SourceGit.Branches.{normalize_branch-stable}
use mini_paa_s.SourceGit.Repositories.{IsRepository, normalize_repository-IsRepository}
use mini_paa_s.GitSources.{
  GitSource, Error, is_public, Table, merged, put, get, remove, set_auto, normalized,
}

-- The path stays inside the directory that it is followed from.
abbrev pub IsInside : List ℕ → Type 0
IsInside p = (p ≡ codes ".") ⊎ All IsPlain (split b'/' p)

abbrev pub has_ids : GitSource → Bool
has_ids s = elim s.installation_id [
  | none ↦ false
  | some i ↦ elim s.repository_id [ none ↦ false | some r ↦ true ]
]

-- The four names are normalised.
pub record IsNamed (s : GitSource) : Type 0 where
  pub repository : IsRepository s.repository
  pub branch : normalize_branch s.branch ≡ some s.branch
  pub build_context : IsInside s.build_context
  pub dockerfile_path : IsInside s.dockerfile_path

-- The names are normalised, only a source of the GitHub App deploys by itself, and such a source
-- names its installation and its repository.
pub record IsStored (s : GitSource) : Type 0 where
  pub named : IsNamed s
  pub no_public_auto : (is_public s.access_mode && s.auto_deploy) ≡ false
  pub with_ids : (is_public s.access_mode || has_ids s) ≡ true

never_public : (p auto : Bool) → (p && (if p then false else auto)) ≡ false
never_public true auto = refl
never_public false auto = refl

merged-IsStored :
    (s : GitSource) (auto : Bool)
    → IsNamed s
    → (is_public s.access_mode || has_ids s) ≡ true
    → IsStored (merged s auto)
merged-IsStored s auto n i = record {
  named = record {
    repository = n.repository;
    branch = n.branch;
    build_context = n.build_context;
    dockerfile_path = n.dockerfile_path;
  };
  no_public_auto = never_public (is_public s.access_mode) auto;
  with_ids = i;
}

pub put-IsStored :
    (s : GitSource) (t : Table)
    → IsNamed s
    → (is_public s.access_mode || has_ids s) ≡ true
    → All IsStored t
    → All IsStored (put s t)
put-IsStored s [] n i h = (merged-IsStored s false n i, tt)
put-IsStored s (r ∷ rs) n i h = elim (Bool-cases (r.app_id == s.app_id)) [
  | inl y ↦ rw y (merged-IsStored s r.auto_deploy n i, h.1)
  | inr m ↦ rw m (h.0, put-IsStored s rs n i h.1)
]

pub remove-IsStored : (app : ℕ) (t : Table) → All IsStored t → All IsStored (remove app t)
remove-IsStored app [] h = tt
remove-IsStored app (r ∷ rs) h = elim (Bool-cases (r.app_id == app)) [
  | inl y ↦ rw y (remove-IsStored app rs h.1)
  | inr n ↦ rw n (h.0, remove-IsStored app rs h.1)
]

switched-IsStored :
    (r s : GitSource) (enabled : Bool)
    → r ≡ s
    → (enabled && is_public s.access_mode) ≡ false
    → IsStored r
    → IsStored (record r { auto_deploy = enabled })
switched-IsStored r s enabled p e h =
    let m : (enabled && is_public r.access_mode) ≡ false =
      ap (λ x. enabled && is_public x.access_mode) p ∙ e in
    record {
      named = record {
        repository = h.named.repository;
        branch = h.named.branch;
        build_context = h.named.build_context;
        dockerfile_path = h.named.dockerfile_path;
      };
      no_public_auto = ground (arith, m);
      with_ids = h.with_ids;
    }

pub set_auto-IsStored :
    (app : ℕ) (enabled : Bool) (s : GitSource) (t : Table)
    → get app t ≡ some s
    → (enabled && is_public s.access_mode) ≡ false
    → All IsStored t
    → All IsStored (set_auto app enabled t)
set_auto-IsStored app enabled s [] g e h = tt
set_auto-IsStored app enabled s (r ∷ rs) g e h = elim (Bool-cases (r.app_id == app)) [
  | inl y ↦ rw y (switched-IsStored r s enabled (cc (rw y at g)) e h.0, h.1)
  | inr n ↦ rw n (h.0, set_auto-IsStored app enabled s rs (rw n at g) e h.1)
]

-- What the normalisers make of a source.
pub record Normal (source s : GitSource) : Type 0 where
  pub named : IsNamed s
  pub mode : s.access_mode ≡ source.access_mode
  pub ids : has_ids s ≡ has_ids source

pub normalized-Normal : (source s : GitSource) → normalized source ≡ ok s → Normal source s
unfolding normalized
normalized-Normal source s h =
    let (repository, r, h1) =
      or_err-eq-ok (normalize_repository source.repository) Error.repository_invalid _ h in
    let (branch, b, h2) = or_err-eq-ok (normalize_branch source.branch) Error.ref_invalid _ h1 in
    let (context, c, h3) =
      or_err-eq-ok (normalize_relative_path source.build_context (codes ".")) Error.path_invalid _
        h2 in
    let (dockerfile, d, h4) =
      or_err-eq-ok (normalize_relative_path source.dockerfile_path (codes "Dockerfile"))
        Error.path_invalid _ h3 in
    let e : record source {
      repository = repository;
      branch = branch;
      build_context = context;
      dockerfile_path = dockerfile;
    }
        ≡ s =
      cc (h4) in
    let n : Normal source (record source {
      repository = repository;
      branch = branch;
      build_context = context;
      dockerfile_path = dockerfile;
    }) =
      record {
        named = record {
          repository = normalize_repository-IsRepository source.repository repository r;
          branch = (normalize_branch-stable source.branch branch b).0;
          build_context =
              normalize_relative_path-IsPlain source.build_context (codes ".") context c;
          dockerfile_path =
              normalize_relative_path-IsPlain source.dockerfile_path (codes "Dockerfile") dockerfile
                d;
        };
        mode = refl;
        ids = refl;
      } in
    subst (Normal source) e n
