-- ===== src/SourceGit/Repositories.antt =====
-- The repositories that a source is configured with.
use mini_paa_s.Common.{
  ℕ, ◌≡◌, refl, subst, true, false, not, ◌||◌, List, [], ◌∷◌, ◌++◌, some, arith, codes, split, join,
  All, IsPart, split-join, Bool-cases, inl, inr, text_eq, sym, trim_suffix, trim_space,
}
use mini_paa_s.SourceGit.{
  is_part_code, all_part_codes, matches_part, is_dot, two_parts, cut_prefix, normalize_repository,
  github_prefixes,
}

-- A name of letters, digits, `_`, `.` and `-`, at least one and not a single dot.
abbrev pub IsName : List ℕ → Type 0
IsName s = (text_eq s [] ≡ false) × All (λ c. is_part_code c ≡ true) s × (is_dot s ≡ false)

all_part_codes-All : (s : List ℕ) → all_part_codes s ≡ true → All (λ c. is_part_code c ≡ true) s
all_part_codes-All [] h = tt
all_part_codes-All (c ∷ s) h = (ground arith, all_part_codes-All s (ground arith))

name-IsPart : (s : List ℕ) → all_part_codes s ≡ true → IsPart b'/' s
name-IsPart [] h = refl
name-IsPart (c ∷ s) h = ground (arith, name-IsPart s)

matches-IsName : (s : List ℕ) → matches_part s ≡ true → is_dot s ≡ false → IsName s × IsPart b'/' s
matches-IsName [] h d = cc
matches-IsName (c ∷ s) h d = ((refl, all_part_codes-All (c ∷ s) h, d), name-IsPart (c ∷ s) h)

-- The text is a name, a slash and a name.
abbrev pub IsRepository : List ℕ → Type 0
IsRepository r =
    (owner name : List ℕ) × (r ≡ owner ++ (b'/' ∷ name))
    × IsName owner
    × IsName name
    × (split b'/' r ≡ owner ∷ name ∷ [])

two_parts-IsRepository : (ps : List (List ℕ)) (r : List ℕ) → two_parts ps ≡ some r → IsRepository r
two_parts-IsRepository [] r h = cc
two_parts-IsRepository (p ∷ []) r h = cc
two_parts-IsRepository (p ∷ q ∷ s ∷ ps) r h = cc
two_parts-IsRepository (owner ∷ name ∷ []) r h =
    elim (Bool-cases
      (not (matches_part owner) || not (matches_part name) || is_dot owner || is_dot name)) [
        | inl y ↦ absurd (cc (rw y at h))
        | inr n ↦
            let o = matches-IsName owner (ground (arith, n)) (ground (arith, n)) in
            let m = matches-IsName name (ground (arith, n)) (ground (arith, n)) in
            let e : join b'/' (owner ∷ name ∷ []) ≡ r = cc (rw n at h) in
            (
              owner,
              name,
              sym e,
              o.0,
              m.0,
              subst (λ x. split b'/' x ≡ owner ∷ name ∷ []) e
                  (split-join b'/' owner (name ∷ []) (o.1, (m.1, tt))),
            )
      ]

-- A repository that `NormalizeRepository` accepts, in whatever form it was given, is an owner, one
-- slash and a name, each of letters, digits, `_`, `.` and `-` and not a single dot: put after
-- `https://github.com/`, it cannot name another host, a port, a query or a deeper path.
pub normalize_repository-IsRepository :
    (raw r : List ℕ) → normalize_repository raw ≡ some r → IsRepository r
unfolding normalize_repository
normalize_repository-IsRepository raw r h =
    let value : List ℕ = trim_suffix (trim_space (trim_suffix raw (codes "/"))) (codes ".git") in
    two_parts-IsRepository (split b'/' (cut_prefix github_prefixes value)) r h
