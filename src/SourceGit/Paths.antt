-- ===== src/SourceGit/Paths.antt =====
-- Where a normalised path leads.
use mini_paa_s.Common.{
  ℕ, ◌≡◌, refl, sym, subst, ◌⊎◌, inl, inr, true, false, ◌||◌, List, [], ◌∷◌, codes, text_eq, split,
  arith, All, Bool-cases, IsPart, split-IsPart, text_eq_path,
}
use mini_paa_s.SourceGit.{
  is_dot, is_dot_dot, step_up, clean_part, clean_parts, rev_onto, or_dot, leaves_root,
}

-- A name: no empty element, no `.`, no `..`, and no slash inside.
abbrev pub IsPlain : List ℕ → Type 0
IsPlain p = (text_eq p [] ≡ false) × (is_dot p ≡ false) × (is_dot_dot p ≡ false) × IsPart b'/' p

abbrev IsUp : List ℕ → Type 0
IsUp p = is_dot_dot p ≡ true

-- Newest first: names, below which there are only `..`.
abbrev Ordered : List (List ℕ) → Type 0
Ordered [] = Unit
Ordered (p ∷ ps) = (IsPlain p × Ordered ps) ⊎ All IsUp (p ∷ ps)

step_up-Ordered : (kept : List (List ℕ)) → Ordered kept → Ordered (step_up kept)
step_up-Ordered [] h = inr (refl, tt)
step_up-Ordered (p ∷ kept) (inl h) = rw h.0.2 h.1
step_up-Ordered (p ∷ kept) (inr h) = rw h.0 (inr (refl, h))

clean_part-Ordered :
    (kept : List (List ℕ)) (p : List ℕ) → IsPart b'/' p → Ordered kept → Ordered (clean_part kept p)
clean_part-Ordered kept p s h = elim (Bool-cases (text_eq p [] || is_dot p)) [
  | inl stays ↦ rw stays h
  | inr moves ↦ rw moves (elim (Bool-cases (is_dot_dot p)) [
    | inl up ↦ rw up (step_up-Ordered kept h)
    | inr down ↦ rw down (inl ((ground (arith, moves), ground (arith, moves), down, s), h))
  ])
]

clean_parts-Ordered :
    (ps kept : List (List ℕ)) → All (IsPart b'/') ps → Ordered kept → Ordered (clean_parts kept ps)
unfolding clean_parts
clean_parts-Ordered [] kept s h = h
clean_parts-Ordered (p ∷ ps) kept s h =
    clean_parts-Ordered ps (clean_part kept p) s.1 (clean_part-Ordered kept p s.0 h)

pub rev_onto-All :
    (P : List ℕ → Type 0) (acc ps : List (List ℕ)) → All P acc → All P ps → All P (rev_onto acc ps)
unfolding rev_onto
rev_onto-All P acc [] a h = a
rev_onto-All P acc (p ∷ ps) a h = rev_onto-All P (p ∷ acc) ps (h.0, a) h.1

-- A path that begins with `..` leaves the root.
up_leaves : (p : List ℕ) (ps : List (List ℕ)) → IsUp p → leaves_root (or_dot (p ∷ ps)) ≡ true
up_leaves p ps u =
    subst (λ q. leaves_root (or_dot (q ∷ ps)) ≡ true) (sym (text_eq_path p (codes "..") u))
      (leaves ps)
  where
    leaves : (ps : List (List ℕ)) → leaves_root (or_dot (codes ".." ∷ ps)) ≡ true
    leaves [] = refl
    leaves (q ∷ ps) = refl

up_stays :
    (acc ps : List (List ℕ)) (p : List ℕ)
    → IsUp p
    → All IsUp ps
    → leaves_root (or_dot (rev_onto (p ∷ acc) ps)) ≡ true
unfolding rev_onto
up_stays acc [] p u h = up_leaves p acc u
up_stays acc (q ∷ ps) p u h = up_stays (p ∷ acc) ps q h.0 h.1

-- A cleaned path that does not leave the root has only names.
kept-IsPlain :
    (acc kept : List (List ℕ))
    → Ordered kept
    → All IsPlain acc
    → leaves_root (or_dot (rev_onto acc kept)) ≡ false
    → All IsPlain (rev_onto acc kept)
unfolding rev_onto
kept-IsPlain acc [] h a l = a
kept-IsPlain acc (p ∷ kept) (inl h) a l = kept-IsPlain (p ∷ acc) kept h.1 (h.0, a) l
kept-IsPlain acc (p ∷ kept) (inr h) a l =
    let stays = up_stays acc kept p h.0 h.1 in absurd (cc (stays, l))

-- What a path that is let through was made of.
abbrev pub elements : List ℕ → List (List ℕ)
elements value = rev_onto [] (clean_parts [] (split b'/' value))

pub elements-IsPlain :
    (value : List ℕ) → leaves_root (or_dot (elements value)) ≡ false → All IsPlain (elements value)
elements-IsPlain value l =
    kept-IsPlain [] _ (clean_parts-Ordered (split b'/' value) [] (split-IsPart b'/' value) tt) tt l
