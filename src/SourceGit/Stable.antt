-- ===== src/SourceGit/Stable.antt =====
-- Normalising a path again changes nothing.
use mini_paa_s.Common.{
  ℕ, ◌≡◌, refl, ap, subst, ◌∙◌, inl, inr, false, ◌||◌, List, [], ◌∷◌, ◌++◌, some, ◌==◌, codes,
  text_eq, has_prefix, split, join, replace_all, cons_first, arith, All, Bool-cases, IsPart,
  trim_space,
}
use mini_paa_s.SourceGit.{
  is_dot, is_dot_dot, step_up, clean_part, clean_parts, or_dot, clean, or_default, leaves_root,
  normalize_relative_path,
}
use mini_paa_s.SourceGit.Paths.{IsPlain, elements, elements-IsPlain, rev_onto-All}
use mini_paa_s.SourceGit.Inside.{given, elements-or_dot, relative, normalized}

abbrev Turned : List ℕ → Type 0
Turned = IsPart b'\\'

replace_all-Turned : (s : List ℕ) → Turned (replace_all b'\\' b'/' s)
replace_all-Turned [] = refl
replace_all-Turned (c ∷ s) = ground (arith, replace_all-Turned s)

cons_first-Turned :
    (c : ℕ) (ps : List (List ℕ))
    → (c == b'\\') ≡ false
    → All Turned ps
    → All Turned (cons_first c ps)
cons_first-Turned c [] n h = ground arith
cons_first-Turned c (p ∷ ps) n h = (ground arith, h.1)

split-Turned : (s : List ℕ) → Turned s → All Turned (split b'/' s)
split-Turned [] h = (refl, tt)
split-Turned (c ∷ s) h =
    let rest = split-Turned s (ground arith) in
    elim (Bool-cases (c == b'/')) [
      | inl y ↦ rw y (refl, rest)
      | inr n ↦ rw n (cons_first-Turned c (split b'/' s) (ground arith) rest)
    ]

step_up-Turned : (kept : List (List ℕ)) → All Turned kept → All Turned (step_up kept)
step_up-Turned [] h = (refl, tt)
step_up-Turned (p ∷ kept) h = elim (Bool-cases (is_dot_dot p)) [
  | inl y ↦ rw y (refl, h)
  | inr n ↦ rw n h.1
]

clean_part-Turned :
    (kept : List (List ℕ)) (p : List ℕ)
    → Turned p
    → All Turned kept
    → All Turned (clean_part kept p)
clean_part-Turned kept p t h = elim (Bool-cases (text_eq p [] || is_dot p)) [
  | inl y ↦ rw y h
  | inr n ↦ rw n (elim (Bool-cases (is_dot_dot p)) [
    | inl up ↦ rw up (step_up-Turned kept h)
    | inr down ↦ rw down (t, h)
  ])
]

clean_parts-Turned :
    (ps kept : List (List ℕ)) → All Turned ps → All Turned kept → All Turned (clean_parts kept ps)
unfolding clean_parts
clean_parts-Turned [] kept t h = h
clean_parts-Turned (p ∷ ps) kept t h =
    clean_parts-Turned ps (clean_part kept p) t.1 (clean_part-Turned kept p t.0 h)

append-Turned : (s t : List ℕ) → Turned s → Turned t → Turned (s ++ (b'/' ∷ t))
append-Turned [] t h k = ground arith
append-Turned (c ∷ s) t h k = ground (arith, append-Turned s t)

or_dot-Turned : (ps : List (List ℕ)) → All Turned ps → Turned (or_dot ps)
or_dot-Turned [] h = refl
or_dot-Turned (p ∷ []) h = h.0
or_dot-Turned (p ∷ q ∷ ps) h = append-Turned p (join b'/' (q ∷ ps)) h.0 (or_dot-Turned (q ∷ ps) h.1)

elements-Turned : (value : List ℕ) → Turned value → All Turned (elements value)
elements-Turned value t =
    rev_onto-All Turned [] _ tt (clean_parts-Turned (split b'/' value) [] (split-Turned value t) tt)

replace_all-eq : (s : List ℕ) → Turned s → replace_all b'\\' b'/' s ≡ s
replace_all-eq [] h = refl
replace_all-eq (c ∷ s) h = let rest = replace_all-eq s (ground arith) in ground (arith, rest)

or_dot-or_default :
    (ps : List (List ℕ)) (fallback : List ℕ)
    → All IsPlain ps
    → or_default (or_dot ps) fallback ≡ or_dot ps
or_dot-or_default [] fallback h = refl
or_dot-or_default ([] ∷ ps) fallback h = absurd (cc (h.0.0))
or_dot-or_default ((c ∷ p) ∷ []) fallback h = refl
or_dot-or_default ((c ∷ p) ∷ q ∷ ps) fallback h = refl

-- A path of names is let through unchanged.
plain_kept :
    (ps : List (List ℕ)) (fallback : List ℕ)
    → All IsPlain ps
    → Turned (or_dot ps)
    → trim_space (or_dot ps) ≡ or_dot ps
    → leaves_root (or_dot ps) ≡ false
    → normalize_relative_path (or_dot ps) fallback ≡ some (or_dot ps)
unfolding normalize_relative_path clean
plain_kept ps fallback h t s l =
    let path : List ℕ = or_dot ps in
    let g : given path fallback ≡ path =
      rw (s, or_dot-or_default ps fallback h) (replace_all-eq path t) in
    let e : or_dot (elements (given path fallback)) ≡ path =
      ap (λ v. or_dot (elements v)) g ∙ elements-or_dot ps h in
    let r : has_prefix (given path fallback) (codes "/") ≡ false =
      ap (λ v. has_prefix v (codes "/")) g ∙ relative ps h in
    let o : leaves_root (given path fallback) ≡ false = ap leaves_root g ∙ l in rw (r, o, e, l) refl

-- What `NormalizeRelativePath` returned once is returned unchanged when it is normalised again, as
-- `Prepare` does with a path that `Configure` stored, whatever the default is then, unless white
-- space stands at one of its ends.
pub normalize_relative_path-stable :
    (raw fallback p default : List ℕ)
    → normalize_relative_path raw fallback ≡ some p
    → trim_space p ≡ p
    → normalize_relative_path p default ≡ some p
normalize_relative_path-stable raw fallback p default h s =
    let n = normalized raw fallback p h in
    let value : List ℕ = given raw fallback in
    let plain : All IsPlain (elements value) = elements-IsPlain value n.1 in
    let turned : Turned (or_dot (elements value)) =
      or_dot-Turned (elements value)
        (elements-Turned value (replace_all-Turned (or_default (trim_space raw) fallback))) in
    let trimmed : trim_space (or_dot (elements value)) ≡ or_dot (elements value) = rw n.0 s in
    subst (λ q. normalize_relative_path q default ≡ some q) n.0
      (plain_kept (elements value) default plain turned trimmed n.1)
