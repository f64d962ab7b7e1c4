-- ===== src/BuildQueue/Dispatch.antt =====
-- What one run of `dispatchLocked` does to the slots and to the waiters.
use mini_paa_s.Common.{
  ℕ, zero, suc, ◌+◌, ◌-◌, ◌≤◌, ◌<◌, ◌≡◌, ◌≢◌, refl, sym, Bool, true, false, ◌||◌, List, [], ◌∷◌,
  some, ◌⊎◌, ◌∙◌, inl, inr, arith, ltb, ◌==◌, length, get_elem?, set, total, All, drop, take, min,
  Option-cases, Bool-cases, get_elem?-set_ne, get_elem?-set_self, total-set,
}
use mini_paa_s.BuildQueue.{
  Waiter, System, Phase, waiting, holding, abandoning, finished, grant, dispatch_loop, dispatch,
}

-- A build slot is owned by a waiter that was granted one and has not given it back.
abbrev owns : Phase → Bool → ℕ
owns waiting true = 1
owns waiting false = 0
owns holding g = 1
owns abandoning g = 1
owns finished g = 0

abbrev pub weight : Waiter → ℕ
weight w = owns w.phase w.granted

abbrev pub queued : ℕ → Waiter
queued id = record { id = id; granted = false; phase = waiting }

abbrev pub granted_waiter : ℕ → Waiter
granted_waiter id = record { id = id; granted = true; phase = waiting }

-- The cell is that of a goroutine which waits for a slot.
abbrev pub IsQueued : List Waiter → ℕ → Type 0
IsQueued heap p = (id : ℕ) × (get_elem? heap p ≡ some (queued id))

-- Strictly increasing, from a lower bound on.
abbrev pub Increasing : ℕ → List ℕ → Type 0
Increasing lo [] = Unit
Increasing lo (p ∷ ps) = (lo ≤ p) × Increasing (suc p) ps

abbrev pub contains : List ℕ → ℕ → Bool
contains [] p = false
contains (q ∷ qs) p = p == q || contains qs p

-- What holds whenever the mutex is about to dispatch.
pub record Ready (s : System) : Type 0 where
  pub counted : s.queue.active ≡ total weight s.heap
  pub bounded : s.queue.active ≤ s.queue.limit
  pub ordered : Increasing 0 s.queue.waiters
  pub waits : All (IsQueued s.heap) s.queue.waiters
  pub complete :
      (p id : ℕ) → get_elem? s.heap p ≡ some (queued id) → contains s.queue.waiters p ≡ true

-- What holds whenever the mutex is free: besides, no slot is idle while a deployment waits.
pub record Inv (s : System) : Type 0 where
  pub ready : Ready s
  pub busy : (s.queue.waiters ≡ []) ⊎ (s.queue.active ≡ s.queue.limit)

pub waits-set :
    (heap : List Waiter) (p lo : ℕ) (w : Waiter) (qs : List ℕ)
    → p < lo
    → Increasing lo qs
    → All (IsQueued heap) qs
    → All (IsQueued (set heap p w)) qs
waits-set heap p lo w [] h i a = tt
waits-set heap p lo w (q ∷ qs) h i a = (
  (a.0.0, get_elem?-set_ne heap p q w (omega arith) ∙ a.0.1),
  waits-set heap p (suc q) w qs (omega arith) i.1 a.1,
)

pub Increasing-weaken : (lo lo' : ℕ) (qs : List ℕ) → lo ≤ lo' → Increasing lo' qs → Increasing lo qs
Increasing-weaken lo lo' [] h i = tt
Increasing-weaken lo lo' (q ∷ qs) h i = (omega arith, i.1)

pub grant_queued :
    (heap : List Waiter) (p id : ℕ)
    → get_elem? heap p ≡ some (queued id)
    → grant p heap ≡ set heap p (granted_waiter id)
unfolding grant
grant_queued heap p id e = rw (e, grant)

-- A cell that is still queued after a write of another kind of cell at `p` was queued before, and
-- is not `p`.
pub queued_after :
    (heap : List Waiter) (p q id : ℕ) (w : Waiter) {old : Waiter}
    → ((j : ℕ) → w ≢ queued j)
    → get_elem? heap p ≡ some old
    → get_elem? (set heap p w) q ≡ some (queued id)
    → (q ≢ p) × (get_elem? heap q ≡ some (queued id))
queued_after heap p q id w other at e =
    (ne, sym (get_elem?-set_ne heap p q w (λ s. ne (sym s))) ∙ e)
  where
    ne : q ≢ p
    ne s = other id (cc (get_elem?-set_self heap p w at))

contains_other : (p q : ℕ) (ws : List ℕ) → q ≢ p → contains (p ∷ ws) q ≡ true → contains ws q ≡ true
contains_other p q ws n h = ground arith

pub dispatch_loop-Inv :
    (ws : List ℕ) (lo limit active : ℕ) (heap : List Waiter)
    → active ≡ total weight heap
    → active ≤ limit
    → Increasing lo ws
    → All (IsQueued heap) ws
    → ((p id : ℕ) → get_elem? heap p ≡ some (queued id) → contains ws p ≡ true)
    → Inv (dispatch_loop ws limit active heap)
unfolding dispatch_loop
dispatch_loop-Inv [] lo limit active heap c b i a k = record {
  ready = record { counted = c; bounded = b; ordered = tt; waits = tt; complete = k };
  busy = inl refl;
}
dispatch_loop-Inv (p ∷ ws) lo limit active heap c b i a k = elim (Bool-cases (ltb active limit)) [
  | inl free ↦
      rw (free, dispatch_loop)
        (rw (grant_queued heap p a.0.0 a.0.1) (
          dispatch_loop-Inv ws (suc p) limit (active + 1) (set heap p (granted_waiter a.0.0))
            (omega (arith, total-set weight heap p (granted_waiter a.0.0) a.0.1)) (ground arith) i.1
            (waits-set heap p (suc p) (granted_waiter a.0.0) ws (omega arith) i.1 a.1)
            (λ q id e.
              let (n, e') = queued_after heap p q id (granted_waiter a.0.0) (λ j s. cc) a.0.1 e in
              contains_other p q ws n (k q id e'))))
  | inr full ↦
      rw (full, dispatch_loop)
        (record {
          ready = record {
            counted = c;
            bounded = b;
            ordered = (omega arith, i.1);
            waits = a;
            complete = k;
          };
          busy = inr (ground arith);
        })
]

-- Dispatching restores the invariant.
pub dispatch-Inv : (s : System) → Ready s → Inv (dispatch s)
unfolding dispatch
dispatch-Inv s r =
    dispatch_loop-Inv s.queue.waiters 0 s.queue.limit s.queue.active s.heap r.counted r.bounded
      r.ordered r.waits r.complete

drop-nil : (n : ℕ) → ◌≡◌ {A = List ℕ} (drop n []) []
drop-nil zero = refl
drop-nil (suc n) = refl

abbrev pub grant_all : List ℕ → List Waiter → List Waiter
grant_all [] heap = heap
grant_all (p ∷ ps) heap = grant_all ps (grant p heap)

take-nil : (n : ℕ) → ◌≡◌ {A = List ℕ} (take n []) []
take-nil zero = refl
take-nil (suc n) = refl

dispatch_loop_lem :
    (ws : List ℕ) (limit active : ℕ) (heap : List Waiter)
    → active ≤ limit
    → let free = limit - active in
      dispatch_loop ws limit active heap ≡ record {
        queue = record {
          limit = limit;
          active = active + min free (length ws);
          waiters = drop free ws;
        };
        heap = grant_all (take free ws) heap;
      }
unfolding dispatch_loop
dispatch_loop_lem [] limit active heap h =
    rw (drop-nil (limit - active), take-nil (limit - active)) (ground arith)
dispatch_loop_lem (p ∷ ws) limit active heap h = elim (Bool-cases (ltb active limit)) [
  | inl free ↦
      let one : limit - active ≡ suc (limit - (active + 1)) = ground arith in
      rw (free, dispatch_loop)
        (rw one (
          rw (dispatch_loop_lem ws limit (active + 1) (grant p heap) (ground arith))
            (ground arith)))
  | inr full ↦
      let no_room : limit - active ≡ 0 = ground arith in
      rw (full, dispatch_loop) (rw no_room (ground arith))
]

-- The loop of `dispatchLocked` in closed form, for any queue with at most `limit` slots taken: it
-- takes as many waiters from the front as there are free slots, grants exactly those, in order,
-- counts them as active, and leaves the others queued.
pub dispatch_lem :
    (s : System)
    → s.queue.active ≤ s.queue.limit
    → let free = s.queue.limit - s.queue.active in
      let ws = s.queue.waiters in
      dispatch s ≡ record {
        queue = record {
          limit = s.queue.limit;
          active = s.queue.active + min free (length ws);
          waiters = drop free ws;
        };
        heap = grant_all (take free ws) s.heap;
      }
unfolding dispatch
dispatch_lem s h = dispatch_loop_lem s.queue.waiters s.queue.limit s.queue.active s.heap h

-- Dispatching writes the cells of queued waiters only.
grant_other : (heap : List Waiter) (p q : ℕ) → q ≢ p → get_elem? (grant q heap) p ≡ get_elem? heap p
unfolding grant
grant_other heap p q n = elim (Option-cases (get_elem? heap q)) [
  | inl e ↦ rw (e, grant)
  | inr (w, e) ↦ rw (e, grant) (get_elem?-set_ne heap q p (record w { granted = true }) n)
]

pub dispatch_loop_other :
    (ws : List ℕ) (limit active p : ℕ) (heap : List Waiter)
    → contains ws p ≡ false
    → get_elem? (dispatch_loop ws limit active heap).heap p ≡ get_elem? heap p
unfolding dispatch_loop
dispatch_loop_other [] limit active p heap h = refl
dispatch_loop_other (q ∷ ws) limit active p heap h = elim (Bool-cases (ltb active limit)) [
  | inl free ↦
      rw (free, dispatch_loop)
        (dispatch_loop_other ws limit (active + 1) p (grant q heap) (ground arith)
          ∙ grant_other heap p q (ground arith))
  | inr full ↦ rw (full, dispatch_loop)
]

-- What is in the queue is queued.
pub contains-IsQueued :
    (heap : List Waiter) (p : ℕ) (qs : List ℕ)
    → All (IsQueued heap) qs
    → contains qs p ≡ true
    → IsQueued heap p
contains-IsQueued heap p [] a h = absurd (cc)
contains-IsQueued heap p (q ∷ qs) a h = elim (Bool-cases (p == q)) [
  | inl e ↦ let s : p ≡ q = ground arith in rw s a.0
  | inr e ↦ contains-IsQueued heap p qs a.1 (ground arith)
]
