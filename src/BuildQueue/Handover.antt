-- ===== src/BuildQueue/Handover.antt =====
-- Where a slot goes when it is given back, and that a finished goroutine is out for good.
use mini_paa_s.Common.{
  ℕ, suc, ◌-◌, ◌<◌, ◌≡◌, ◌≢◌, refl, subst, Bool, true, false, List, [], ◌∷◌, ◌++◌, some, ◌∙◌, inl,
  inr, arith, ltb, ◌==◌, if◌then◌else◌, length, get_elem?, set, All, Bool-cases, Option-cases,
  get_elem?-set_ne, get_elem?-set_self, total-set, get_elem?-append_left, get_elem?-lt-length,
}
use mini_paa_s.BuildQueue.{
  Waiter, System, Phase, waiting, holding, abandoning, finished, Event, acquire, ready, cancelled,
  abandon, released, set_phase, dispatch, remove_waiter, release, enqueue, give_up, advance,
  step_at, step, run,
}
use mini_paa_s.BuildQueue.Dispatch.{
  Inv, weight, queued, granted_waiter, contains, dispatch_lem, dispatch_loop_other,
  contains-IsQueued, IsQueued, grant_queued,
}
use mini_paa_s.BuildQueue.Invariant.{set_phase_lem, step-Inv, cell}

-- A cell that is finished is in no queue.
finished_absent :
    (s : System) (p id : ℕ) (g : Bool)
    → Inv s
    → get_elem? s.heap p ≡ some (cell id finished g)
    → contains s.queue.waiters p ≡ false
finished_absent s p id g v at = elim (Bool-cases (contains s.queue.waiters p)) [
  | inl h ↦
      let q : IsQueued s.heap p = contains-IsQueued s.heap p s.queue.waiters v.ready.waits h in
      absurd (cc (q.1, at))
  | inr h ↦ h
]

contains-append_false :
    (p n : ℕ) (qs : List ℕ) → p ≢ n → contains qs p ≡ false → contains (qs ++ n ∷ []) p ≡ false
contains-append_false p n [] e h = ground arith
contains-append_false p n (q ∷ qs) e h = ground (arith, contains-append_false p n qs)

contains-remove_false :
    (p q : ℕ) (qs : List ℕ) → contains qs p ≡ false → contains (remove_waiter q qs) p ≡ false
unfolding remove_waiter
contains-remove_false p q [] h = h
contains-remove_false p q (x ∷ qs) h = ground (arith, contains-remove_false p q qs)

set_phase_other :
    (heap : List Waiter) (p q : ℕ) (phase : Phase)
    → q ≢ p
    → get_elem? (set_phase q phase heap) p ≡ get_elem? heap p
unfolding set_phase
set_phase_other heap p q phase n = elim (Option-cases (get_elem? heap q)) [
  | inl e ↦ rw (e, set_phase)
  | inr (w, e) ↦ rw (e, set_phase) (get_elem?-set_ne heap q p (record w { phase = phase }) n)
]

advance_other :
    (e : Event) (s : System) (p q : ℕ) (phase : Phase) (g : Bool)
    → q ≢ p
    → contains s.queue.waiters p ≡ false
    → get_elem? (advance e q phase g s).heap p ≡ get_elem? s.heap p
unfolding advance release give_up dispatch
advance_other (ready _) s p q waiting true n h = set_phase_other s.heap p q holding n
advance_other (cancelled _) s p q waiting true n h = set_phase_other s.heap p q abandoning n
advance_other (cancelled _) s p q waiting false n h =
    dispatch_loop_other _ _ _ p _ (contains-remove_false p q s.queue.waiters h)
    ∙ set_phase_other s.heap p q finished n
advance_other (abandon _) s p q abandoning g n h =
    dispatch_loop_other _ _ _ p _ h ∙ set_phase_other s.heap p q finished n
advance_other (released _) s p q holding g n h =
    dispatch_loop_other _ _ _ p _ h ∙ set_phase_other s.heap p q finished n
advance_other _ s p q _ g n h = refl

advance_finished : (e : Event) (p : ℕ) (g : Bool) (s : System) → advance e p finished g s ≡ s
unfolding advance
advance_finished (ready _) p g s = refl
advance_finished _ p g s = refl

step_at_finished :
    (e : Event) (s : System) (p q id : ℕ) (g : Bool)
    → Inv s
    → get_elem? s.heap p ≡ some (cell id finished g)
    → get_elem? (step_at e q s).heap p ≡ some (cell id finished g)
unfolding step_at
step_at_finished e s p q id g v at = elim (Bool-cases (q == p)) [
  | inl same ↦
      let i : q ≡ p = ground arith in rw i (rw (at, step_at) (rw (advance_finished e p g s) at))
  | inr other ↦ elim (Option-cases (get_elem? s.heap q)) [
    | inl missing ↦ rw (missing, step_at) at
    | inr (w, found) ↦
        rw (found, step_at)
          (advance_other e s p q w.phase w.granted (ground arith) (finished_absent s p id g v at)
            ∙ at)
  ]
]

finished_step :
    (e : Event) (s : System) (p id : ℕ) (g : Bool)
    → Inv s
    → get_elem? s.heap p ≡ some (cell id finished g)
    → get_elem? (step s e).heap p ≡ some (cell id finished g)
unfolding step
finished_step (acquire d) s p id g v at =
    unfold enqueue dispatch in
    dispatch_loop_other _ _ _ p _ (
      contains-append_false p (length s.heap) s.queue.waiters
        (omega (arith, get_elem?-lt-length s.heap p at)) (finished_absent s p id g v at))
    ∙ get_elem?-append_left s.heap (queued d ∷ []) p at
finished_step (ready q) s p id g v at = step_at_finished (ready q) s p q id g v at
finished_step (cancelled q) s p id g v at = step_at_finished (cancelled q) s p q id g v at
finished_step (abandon q) s p id g v at = step_at_finished (abandon q) s p q id g v at
finished_step (released q) s p id g v at = step_at_finished (released q) s p q id g v at

stays_finished :
    (es : List Event) (s : System) (p id : ℕ) (g : Bool)
    → Inv s
    → get_elem? s.heap p ≡ some (cell id finished g)
    → get_elem? (run s es).heap p ≡ some (cell id finished g)
unfolding run
stays_finished [] s p id g v at = at
stays_finished (e ∷ es) s p id g v at =
    stays_finished es (step s e) p id g (step-Inv s e v) (finished_step e s p id g v at)

-- Nothing that a finished goroutine does changes anything.
finished_still :
    (e : Event) (s : System) (p id : ℕ) (g : Bool)
    → get_elem? s.heap p ≡ some (cell id finished g)
    → step_at e p s ≡ s
unfolding step_at
finished_still e s p id g at = rw (at, step_at) (advance_finished e p g s)

-- From a state that keeps the queue's invariant, a waiter that is finished, one that was
-- cancelled in the queue or has given its slot back, stays as it is whatever happens next; and
-- neither a grant, a cancellation nor a call of its release function on it then changes the queue
-- or any waiter: it never takes a slot again and never gives one back twice.
pub run_finished :
    (es : List Event) (s : System) (p id : ℕ) (g : Bool)
    → Inv s
    → get_elem? s.heap p ≡ some (cell id finished g)
    → let t = run s es in
      (get_elem? t.heap p ≡ some (cell id finished g))
      × (step t (ready p) ≡ t)
      × (step t (cancelled p) ≡ t)
      × (step t (abandon p) ≡ t)
      × (step t (released p) ≡ t)
unfolding step
run_finished es s p id g v at =
    let then_at = stays_finished es s p id g v at in
    (
      then_at,
      finished_still (ready p) (run s es) p id g then_at,
      finished_still (cancelled p) (run s es) p id g then_at,
      finished_still (abandon p) (run s es) p id g then_at,
      finished_still (released p) (run s es) p id g then_at,
    )

-- The state in which `release` dispatches.
abbrev returned : System → ℕ → Waiter → System
returned s p w = record {
  queue = record { limit = s.queue.limit; active = s.queue.active - 1; waiters = s.queue.waiters };
  heap = set s.heap p w;
}

released_eq :
    (s : System) (p id : ℕ) (g : Bool)
    → Inv s
    → get_elem? s.heap p ≡ some (cell id holding g)
    → (0 < s.queue.active) × (step s (released p) ≡ dispatch (returned s p (cell id finished g)))
unfolding step step_at advance release
released_eq s p id g v at =
    let owned : 0 < s.queue.active =
      omega (arith, v.ready.counted, total-set weight s.heap p (cell id finished g) at) in
    let spent : (if ltb 0 s.queue.active then s.queue.active - 1 else s.queue.active)
        ≡ s.queue.active - 1 =
      ground arith in
    (owned, rw (at, step_at) (rw (set_phase_lem s.heap p finished at, spent)))

-- One slot is free: the first waiter is granted.
dispatch_one :
    (s : System) (q d : ℕ) (qs : List ℕ)
    → s.queue.waiters ≡ q ∷ qs
    → s.queue.limit ≡ suc s.queue.active
    → get_elem? s.heap q ≡ some (queued d)
    → let t = dispatch s in
      (t.queue.waiters ≡ qs)
      × (t.queue.active ≡ suc s.queue.active)
      × (get_elem? t.heap q ≡ some (granted_waiter d))
dispatch_one s q d qs w l at =
    let one : s.queue.limit - s.queue.active ≡ 1 = omega arith in
    rw (dispatch_lem s (omega arith)) (
      rw (one, w)
        (
          refl,
          omega arith,
          rw (grant_queued s.heap q d at) (get_elem?-set_self s.heap q (granted_waiter d) at),
        ))

-- From a state that keeps the queue's invariant, when a goroutine that holds a slot calls its
-- release function while deployments wait, the slot goes to the one that has waited longest: that
-- one is granted, the others stay queued in their order, and as many slots are active as before.
pub released_serves_oldest :
    (s : System) (p id q : ℕ) (g : Bool) (qs : List ℕ)
    → Inv s
    → get_elem? s.heap p ≡ some (cell id holding g)
    → s.queue.waiters ≡ q ∷ qs
    → let t = step s (released p) in
      (t.queue.waiters ≡ qs)
      × (t.queue.active ≡ s.queue.active)
      × ((d : ℕ) × (get_elem? t.heap q ≡ some (granted_waiter d)))
unfolding step
released_serves_oldest s p id q g qs v at w =
    let full : s.queue.active ≡ s.queue.limit = elim v.busy [
      | inl e ↦ absurd (cc (w, e))
      | inr e ↦ e
    ] in
    let front : IsQueued s.heap q = (subst (All (IsQueued s.heap)) w v.ready.waits).0 in
    let (owned, e) = released_eq s p id g v at in
    let other : p ≢ q = λ i. cc (at, front.1, i) in
    let (ws, n, c) =
      dispatch_one (returned s p (cell id finished g)) q front.0 qs w (omega arith)
        (get_elem?-set_ne s.heap p q (cell id finished g) other ∙ front.1) in
    rw e (ws, n ∙ omega arith, (front.0, c))
