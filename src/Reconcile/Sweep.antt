-- ===== src/Reconcile/Sweep.antt =====
-- Which containers the reconciliation removes.
use mini_paa_s.Common.{
  ℕ, ◌+◌, ◌≡◌, ◌≢◌, refl, sym, subst, ◌∙◌, Bool, true, false, ◌||◌, List, [], ◌∷◌, ◌++◌, some, ◌==◌,
  arith, Bool-cases, Option-cases, inl, inr, ◌⊎◌, length, Elem,
}
use mini_paa_s.Domain.{Deployment}
use mini_paa_s.Reconcile.{
  Swept, has_id, with_id, referenced_container_ids, sweep, Sources, sweep_managed, with_candidates,
  reconcile_managed_containers,
}

-- The ids that were asked for are those of the list that are not empty and not referenced.
abbrev pub Spares : List ℕ → List ℕ → Swept → Type 0
Spares referenced ids r =
    ((id : ℕ)
      → has_id r.asked id ≡ true
      → (has_id ids id ≡ true) × (id ≢ 0) × (has_id referenced id ≡ false))
    × ((id : ℕ)
        → has_id ids id ≡ true
        → id ≢ 0
        → has_id referenced id ≡ false
        → has_id r.asked id ≡ true)
    × (r.removed + r.errors ≡ length r.asked)

abbrev Asked : List ℕ → List ℕ → List ℕ → Type 0
Asked referenced ids asked =
    ((id : ℕ)
      → has_id asked id ≡ true
      → (has_id ids id ≡ true) × (id ≢ 0) × (has_id referenced id ≡ false))
    × ((id : ℕ)
        → has_id ids id ≡ true
        → id ≢ 0
        → has_id referenced id ≡ false
        → has_id asked id ≡ true)

skipped :
    (referenced ids asked : List ℕ) (x : ℕ)
    → (x ≡ 0) ⊎ (has_id referenced x ≡ true)
    → Asked referenced ids asked
    → Asked referenced (x ∷ ids) asked
skipped referenced ids asked x skip (sound, complete) = (
  λ id h. let (m, z, f) = sound id h in (ground (arith, m), z, f),
  λ id m z f. elim (Bool-cases (x == id)) [
    | inl e ↦
        let same : x ≡ id = ground (arith, e) in
        elim skip [ inl o ↦ absurd (z (sym same ∙ o)) | inr r ↦ absurd (cc (r, f, same)) ]
    | inr n ↦ complete id (ground (arith, m, n)) z f
  ],
)

taken :
    (referenced ids asked : List ℕ) (x : ℕ)
    → x ≢ 0
    → has_id referenced x ≡ false
    → Asked referenced ids asked
    → Asked referenced (x ∷ ids) (x ∷ asked)
taken referenced ids asked x nz free (sound, complete) = (
  λ id h. elim (Bool-cases (x == id)) [
    | inl e ↦
        let same : x ≡ id = ground (arith, e) in
        (
          ground (arith, e),
          subst (λ i. i ≢ 0) same nz,
          subst (λ i. has_id referenced i ≡ false) same free,
        )
    | inr n ↦ let (m, z, f) = sound id (ground (arith, h, n)) in (ground (arith, m), z, f)
  ],
  λ id m z f. elim (Bool-cases (x == id)) [
    | inl e ↦ ground (arith, e)
    | inr n ↦ let k = complete id (ground (arith, m, n)) z f in ground (arith, k)
  ],
)

must_skip : (x : ℕ) (b : Bool) → (x == 0 || b) ≡ true → (x ≡ 0) ⊎ (b ≡ true)
must_skip x b h = ground (arith, h)

may_go : (x : ℕ) (b : Bool) → (x == 0 || b) ≡ false → (x ≢ 0) × (b ≡ false)
may_go x b h = (λ e. ground (arith, h, e), ground (arith, h))

-- Whatever Docker answers, the reconciliation asks Docker to remove exactly the managed containers
-- that are not referenced, the empty id left out, and every call counts as a removal or an error.
pub sweep-Spares :
    (removes : ℕ → Bool) (referenced ids : List ℕ)
    → Spares referenced ids (sweep removes referenced ids)
unfolding sweep
sweep-Spares removes referenced [] = (λ id h. absurd (cc h), λ id h z f. absurd (cc h), refl)
sweep-Spares removes referenced (x ∷ ids) =
    let (sound, complete, n) = sweep-Spares removes referenced ids in
    let asked = (sweep removes referenced ids).asked in
    elim (Bool-cases (x == 0 || has_id referenced x)) [
      | inl skip ↦
          let (s, c) =
            skipped referenced ids asked x (must_skip x (has_id referenced x) skip)
              (sound, complete) in
          rw (skip, sweep) (s, c, n)
      | inr go ↦
          let (s, c) =
            taken referenced ids asked x (may_go x (has_id referenced x) go).0
              (may_go x (has_id referenced x) go).1 (sound, complete) in
          elim (Bool-cases (removes x)) [
            | inl y ↦ rw (go, y, sweep) (s, c, omega (arith, n))
            | inr m ↦ rw (go, m, sweep) (s, c, omega (arith, n))
          ]
    ]

referenced-container :
    (ds : List Deployment) (d : Deployment)
    → Elem d ds
    → ((d.container_id ≢ 0) → has_id (referenced_container_ids ds) d.container_id ≡ true)
      × ((d.candidate_container_id ≢ 0)
          → has_id (referenced_container_ids ds) d.candidate_container_id ≡ true)
unfolding referenced_container_ids
referenced-container [] d m = absurd m
referenced-container (x ∷ ds) d (inl same) =
    subst
      (λ y.
        ((y.container_id ≢ 0)
          → has_id
              (with_id x.container_id
                (with_id x.candidate_container_id (referenced_container_ids ds)))
              y.container_id
            ≡ true)
        × ((y.candidate_container_id ≢ 0)
            → has_id
                (with_id x.container_id
                  (with_id x.candidate_container_id (referenced_container_ids ds)))
                y.candidate_container_id
              ≡ true))
      same (λ n. ground (arith, n), λ n. ground (arith, n))
referenced-container (x ∷ ds) d (inr m) =
    let (a, b) = referenced-container ds d m in
    (λ n. let k = a n in ground (arith, k), λ n. let k = b n in ground (arith, k))

Elem-append : (ds es : List Deployment) (d : Deployment) → Elem d ds → Elem d (ds ++ es)
Elem-append [] es d m = absurd m
Elem-append (x ∷ ds) es d (inl e) = inl e
Elem-append (x ∷ ds) es d (inr m) = inr (Elem-append ds es d m)

Elem-append_right : (ds es : List Deployment) (d : Deployment) → Elem d es → Elem d (ds ++ es)
Elem-append_right [] es d m = m
Elem-append_right (x ∷ ds) es d m = inr (Elem-append_right ds es d m)

-- What the sweep does not touch.
abbrev Untouched : Deployment → Swept → Type 0
Untouched d r =
    ((d.container_id ≢ 0) → has_id r.asked d.container_id ≡ false)
    × ((d.candidate_container_id ≢ 0) → has_id r.asked d.candidate_container_id ≡ false)

not_asked :
    (referenced ids : List ℕ) (r : Swept) (id : ℕ)
    → Spares referenced ids r
    → has_id referenced id ≡ true
    → has_id r.asked id ≡ false
not_asked referenced ids r id s h = elim (Bool-cases (has_id r.asked id)) [
  | inl y ↦ let (m, z, f) = s.0 id y in absurd (cc (f, h))
  | inr n ↦ n
]

swept-Untouched :
    (s : Sources) (ds : List Deployment) (d : Deployment) (r : Swept)
    → sweep_managed s (referenced_container_ids ds) ≡ some r
    → Elem d ds
    → Untouched d r
unfolding sweep_managed
swept-Untouched s ds d r e m = elim (Option-cases s.managed) [
  | inl n ↦ absurd (cc (n, e))
  | inr (ids, y) ↦
      let same : sweep s.removes (referenced_container_ids ds) ids ≡ r = cc (y, e) in
      let all : Spares (referenced_container_ids ds) ids r =
        subst (Spares (referenced_container_ids ds) ids) same
          (sweep-Spares s.removes (referenced_container_ids ds) ids) in
      let (a, b) = referenced-container ds d m in
      (
        λ n. not_asked (referenced_container_ids ds) ids r d.container_id all (a n),
        λ n. not_asked (referenced_container_ids ds) ids r d.candidate_container_id all (b n),
      )
]

-- If the reconciliation has a result, it did not ask Docker to remove a container, or a candidate
-- container, of a deployment that the store lists as running.
pub running_untouched :
    (s : Sources) (running : List Deployment) (d : Deployment) (r : Swept)
    → s.running ≡ some running
    → reconcile_managed_containers s ≡ some r
    → Elem d running
    → ((d.container_id ≢ 0) → has_id r.asked d.container_id ≡ false)
      × ((d.candidate_container_id ≢ 0) → has_id r.asked d.candidate_container_id ≡ false)
unfolding reconcile_managed_containers with_candidates
running_untouched s running d r e h m = elim (Bool-cases s.has_candidate_store) [
  | inl y ↦ elim (Option-cases s.candidates) [
    | inl n ↦ absurd (cc (e, y, n, h))
    | inr (items, c) ↦
        swept-Untouched s (running ++ items) d r (cc (e, y, c, h)) (Elem-append running items d m)
  ]
  | inr n ↦ swept-Untouched s running d r (cc (e, n, h)) m
]

-- If the reconciliation has a result, it did not ask Docker to remove a container of a deployment
-- that the store lists with a candidate.
pub candidates_untouched :
    (s : Sources) (items : List Deployment) (d : Deployment) (r : Swept)
    → s.has_candidate_store ≡ true
    → s.candidates ≡ some items
    → reconcile_managed_containers s ≡ some r
    → Elem d items
    → ((d.container_id ≢ 0) → has_id r.asked d.container_id ≡ false)
      × ((d.candidate_container_id ≢ 0) → has_id r.asked d.candidate_container_id ≡ false)
unfolding reconcile_managed_containers with_candidates
candidates_untouched s items d r y c h m = elim (Option-cases s.running) [
  | inl n ↦ absurd (cc (n, h))
  | inr (running, e) ↦
      swept-Untouched s (running ++ items) d r (cc (e, y, c, h))
        (Elem-append_right running items d m)
]
