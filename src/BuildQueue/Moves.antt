-- ===== src/BuildQueue/Moves.antt =====
-- How each critical section of the build queue leaves the heap and the waiters, before it dispatches.
use mini_paa_s.Common.{
  ℕ, zero, suc, ◌+◌, ◌≤◌, ◌≡◌, ◌≢◌, refl, ap, true, List, [], ◌∷◌, ◌++◌, some, ◌⊎◌, ◌∙◌, inl, inr,
  arith, ◌==◌, length, get_elem?, set, All, Bool-cases, get_elem?-set_ne, total-set, total-append,
  get_elem?-lt-length, get_elem?-append_left, get_elem?-append_end,
}
use mini_paa_s.BuildQueue.{Waiter, System, remove_waiter}
use mini_paa_s.BuildQueue.Dispatch.{
  Ready, weight, queued, IsQueued, Increasing, contains, waits-set, Increasing-weaken, queued_after,
}

waits_elsewhere :
    (heap : List Waiter) (p : ℕ) (w : Waiter) (qs : List ℕ) {old : Waiter}
    → get_elem? heap p ≡ some old
    → ((j : ℕ) → old ≢ queued j)
    → All (IsQueued heap) qs
    → All (IsQueued (set heap p w)) qs
waits_elsewhere heap p w [] at o a = tt
waits_elsewhere heap p w (q ∷ qs) at o a = (
  (a.0.0, get_elem?-set_ne heap p q w (λ e. o a.0.0 (cc (a.0.1, at, e))) ∙ a.0.1),
  waits_elsewhere heap p w qs at o a.1,
)

-- A goroutine that is not queued moves on: its cell changes, and the slots with it.
pub move-Ready :
    (s : System) (p active : ℕ) (w : Waiter) {old : Waiter}
    → get_elem? s.heap p ≡ some old
    → ((j : ℕ) → old ≢ queued j)
    → ((j : ℕ) → w ≢ queued j)
    → active + weight old ≡ s.queue.active + weight w
    → active ≤ s.queue.limit
    → Ready s
    → Ready (record {
      queue = record { limit = s.queue.limit; active = active; waiters = s.queue.waiters };
      heap = set s.heap p w;
    })
move-Ready s p active w at o n e b r = record {
  counted = omega (arith, total-set weight s.heap p w at, r.counted);
  bounded = b;
  ordered = r.ordered;
  waits = waits_elsewhere s.heap p w s.queue.waiters at o r.waits;
  complete = λ q id e'. r.complete q id (queued_after s.heap p q id w n at e').1;
}

-- Removal of a waiter.
Increasing-remove : (p lo : ℕ) (qs : List ℕ) → Increasing lo qs → Increasing lo (remove_waiter p qs)
unfolding remove_waiter
Increasing-remove p lo [] i = tt
Increasing-remove p lo (q ∷ qs) i = elim (Bool-cases (q == p)) [
  | inl e ↦ rw (e, remove_waiter) (Increasing-weaken lo (suc q) qs (omega arith) i.1)
  | inr e ↦ rw (e, remove_waiter) (i.0, Increasing-remove p (suc q) qs i.1)
]

waits-remove :
    (heap : List Waiter) (p lo : ℕ) (w : Waiter) (qs : List ℕ)
    → Increasing lo qs
    → All (IsQueued heap) qs
    → All (IsQueued (set heap p w)) (remove_waiter p qs)
unfolding remove_waiter
waits-remove heap p lo w [] i a = tt
waits-remove heap p lo w (q ∷ qs) i a = elim (Bool-cases (q == p)) [
  | inl e ↦ rw (e, remove_waiter) (waits-set heap p (suc q) w qs (ground arith) i.1 a.1)
  | inr e ↦
      rw (e, remove_waiter)
        (
          (a.0.0, get_elem?-set_ne heap p q w (ground arith) ∙ a.0.1),
          waits-remove heap p (suc q) w qs i.1 a.1,
        )
]

contains-remove :
    (p q : ℕ) (qs : List ℕ) → q ≢ p → contains qs q ≡ true → contains (remove_waiter p qs) q ≡ true
unfolding remove_waiter
contains-remove p q [] n h = h
contains-remove p q (x ∷ qs) n h = ground (arith, contains-remove p q qs n)

-- A waiter that gives up before it is granted leaves the queue and owns nothing.
pub leave-Ready :
    (s : System) (p id : ℕ) (w : Waiter)
    → get_elem? s.heap p ≡ some (queued id)
    → weight w ≡ 0
    → ((j : ℕ) → w ≢ queued j)
    → Ready s
    → Ready (record {
      queue = record {
        limit = s.queue.limit;
        active = s.queue.active;
        waiters = remove_waiter p s.queue.waiters;
      };
      heap = set s.heap p w;
    })
leave-Ready s p id w at z n r = record {
  counted = omega (arith, total-set weight s.heap p w at, r.counted, z);
  bounded = r.bounded;
  ordered = Increasing-remove p 0 s.queue.waiters r.ordered;
  waits = waits-remove s.heap p 0 w s.queue.waiters r.ordered r.waits;
  complete = λ q j e.
      let (ne, e') = queued_after s.heap p q j w n at e in
      contains-remove p q s.queue.waiters ne (r.complete q j e');
}

-- A waiter that arrives.
Increasing-append :
    (heap : List Waiter) (lo n : ℕ) (qs : List ℕ)
    → lo ≤ n
    → length heap ≡ n
    → Increasing lo qs
    → All (IsQueued heap) qs
    → Increasing lo (qs ++ n ∷ [])
Increasing-append heap lo n [] l e i a = (l, tt)
Increasing-append heap lo n (q ∷ qs) l e i a = (
  i.0,
  Increasing-append heap (suc q) n qs (omega (arith, get_elem?-lt-length heap q a.0.1)) e i.1 a.1,
)

waits-append :
    (heap : List Waiter) (id : ℕ) (qs : List ℕ)
    → All (IsQueued heap) qs
    → All (IsQueued (heap ++ queued id ∷ [])) (qs ++ length heap ∷ [])
waits-append heap id [] a = ((id, get_elem?-append_end heap (queued id)), tt)
waits-append heap id (q ∷ qs) a =
    ((a.0.0, get_elem?-append_left heap (queued id ∷ []) q a.0.1), waits-append heap id qs a.1)

contains-append_left :
    (p n : ℕ) (qs : List ℕ) → contains qs p ≡ true → contains (qs ++ n ∷ []) p ≡ true
contains-append_left p n [] h = cc
contains-append_left p n (q ∷ qs) h = ground (arith, contains-append_left p n qs)

contains-append_end : (p : ℕ) (qs : List ℕ) → contains (qs ++ p ∷ []) p ≡ true
contains-append_end p [] = ground arith
contains-append_end p (q ∷ qs) = ground (arith, contains-append_end p qs)

-- A cell of the longer heap is an old one, or the last.
get_elem?-append_cases :
    (heap : List Waiter) (w : Waiter) (p : ℕ) {v : Waiter}
    → get_elem? (heap ++ w ∷ []) p ≡ some v
    → (get_elem? heap p ≡ some v) ⊎ (p ≡ length heap)
get_elem?-append_cases [] w zero e = inr refl
get_elem?-append_cases [] w (suc p) e = cc
get_elem?-append_cases (x ∷ heap) w zero e = inl e
get_elem?-append_cases (x ∷ heap) w (suc p) e = elim (get_elem?-append_cases heap w p e) [
  | inl old ↦ inl old
  | inr last ↦ inr (ap suc last)
]

pub arrive-Ready :
    (s : System) (id : ℕ)
    → Ready s
    → Ready (record {
      queue = record {
        limit = s.queue.limit;
        active = s.queue.active;
        waiters = s.queue.waiters ++ length s.heap ∷ [];
      };
      heap = s.heap ++ queued id ∷ [];
    })
arrive-Ready s id r = record {
  counted = omega (arith, total-append weight s.heap (queued id ∷ []), r.counted);
  bounded = r.bounded;
  ordered =
      Increasing-append s.heap 0 (length s.heap) s.queue.waiters (omega arith) refl r.ordered
        r.waits;
  waits = waits-append s.heap id s.queue.waiters r.waits;
  complete = λ p j e. elim (get_elem?-append_cases s.heap (queued id) p e) [
    | inl old ↦ contains-append_left p (length s.heap) s.queue.waiters (r.complete p j old)
    | inr last ↦ rw last (contains-append_end (length s.heap) s.queue.waiters)
  ];
}
