-- ===== src/SourceGit/Inside.antt =====
-- What `NormalizeRelativePath` lets through, and that it lets that through again unchanged.
use mini_paa_s.Common.{
  ℕ, ◌≡◌, refl, ap, sym, subst, ◌⊎◌, inl, inr, false, List, [], ◌∷◌, some, codes, has_prefix, split,
  join, replace_all, arith, All, IsPart, split-join, trim_space,
}
use mini_paa_s.SourceGit.{
  clean_part, clean_parts, rev_onto, or_dot, clean, or_default, leaves_root,
  normalize_relative_path,
}
use mini_paa_s.SourceGit.Paths.{IsPlain, elements, elements-IsPlain}

-- The path with its backslashes turned.
abbrev pub given : List ℕ → List ℕ → List ℕ
given raw fallback = replace_all b'\\' b'/' (or_default (trim_space raw) fallback)

parts_of : (ps : List (List ℕ)) → All IsPlain ps → All (IsPart b'/') ps
parts_of [] h = tt
parts_of (p ∷ ps) h = (h.0.3, parts_of ps h.1)

split-or_dot :
    (ps : List (List ℕ))
    → All IsPlain ps
    → (or_dot ps ≡ codes ".") ⊎ (All IsPlain (split b'/' (or_dot ps)))
split-or_dot [] h = inl refl
split-or_dot (p ∷ ps) h =
    inr (subst (All IsPlain) (sym (split-join b'/' p ps (parts_of (p ∷ ps) h))) h)

-- What is returned is the cleaned path, and it does not leave the root.
pub normalized :
    (raw fallback p : List ℕ)
    → normalize_relative_path raw fallback ≡ some p
    → (or_dot (elements (given raw fallback)) ≡ p)
      × (leaves_root (or_dot (elements (given raw fallback))) ≡ false)
unfolding normalize_relative_path clean
normalized raw fallback p h = ground arith

-- A relative path that `NormalizeRelativePath` returns, for a build context or a Dockerfile, is `.`
-- or a sequence of names, none of them empty, `.` or `..`: followed from a directory, it stays in
-- it, whatever was asked for.
pub normalize_relative_path-IsPlain :
    (raw fallback p : List ℕ)
    → normalize_relative_path raw fallback ≡ some p
    → (p ≡ codes ".") ⊎ All IsPlain (split b'/' p)
normalize_relative_path-IsPlain raw fallback p h =
    let n = normalized raw fallback p h in
    subst (λ q. (q ≡ codes ".") ⊎ All IsPlain (split b'/' q)) n.0
      (split-or_dot (elements (given raw fallback)) (elements-IsPlain (given raw fallback) n.1))

-- Nothing of a path of names is dropped when it is cleaned.
clean_parts-rev_onto :
    (ps kept : List (List ℕ)) → All IsPlain ps → clean_parts kept ps ≡ rev_onto kept ps
unfolding clean_parts rev_onto
clean_parts-rev_onto [] kept h = refl
clean_parts-rev_onto (p ∷ ps) kept h =
    let stays : clean_part kept p ≡ p ∷ kept = rw (h.0.0, h.0.1, h.0.2) refl in
    rw stays (clean_parts-rev_onto ps (p ∷ kept) h.1)

rev_onto-rev_onto : (ps acc : List (List ℕ)) → rev_onto [] (rev_onto acc ps) ≡ rev_onto ps acc
unfolding rev_onto
rev_onto-rev_onto [] acc = refl
rev_onto-rev_onto (p ∷ ps) acc = rev_onto-rev_onto ps (p ∷ acc)

elements-join :
    (p : List ℕ) (ps : List (List ℕ))
    → All IsPlain (p ∷ ps)
    → elements (join b'/' (p ∷ ps)) ≡ p ∷ ps
unfolding rev_onto
elements-join p ps h =
    rw (split-join b'/' p ps (parts_of (p ∷ ps) h), clean_parts-rev_onto (p ∷ ps) [] h)
      (rev_onto-rev_onto (p ∷ ps) [])

pub elements-or_dot :
    (ps : List (List ℕ)) → All IsPlain ps → or_dot (elements (or_dot ps)) ≡ or_dot ps
unfolding clean_parts rev_onto
elements-or_dot [] h = refl
elements-or_dot (p ∷ ps) h = ap or_dot (elements-join p ps h)

-- A path of names does not begin with a slash, and is not empty.
names_relative :
    (p : List ℕ) (ps : List (List ℕ))
    → IsPlain p
    → has_prefix (join b'/' (p ∷ ps)) (codes "/") ≡ false
names_relative [] ps h = ground arith
names_relative (c ∷ p) [] h = ground arith
names_relative (c ∷ p) (q ∷ ps) h = ground arith

pub relative : (ps : List (List ℕ)) → All IsPlain ps → has_prefix (or_dot ps) (codes "/") ≡ false
relative [] h = refl
relative (p ∷ ps) h = names_relative p ps h.0
