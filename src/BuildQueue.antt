-- ===== src/BuildQueue.antt =====
-- service/build_queue.go: the FIFO scheduler of Docker builds.
-- A `*buildWaiter` is an index into the heap of waiters that were ever allocated, so two waiters
-- are the same when their indices are. A heap cell holds the waiter's fields and where its
-- goroutine stands in `Acquire`. An event is one critical section of the mutex, so a list of
-- events is an interleaving of the goroutines.
use mini_paa_s.Common.{
  ℕ, zero, suc, ◌+◌, ◌-◌, Bool, true, false, List, [], ◌∷◌, ◌++◌, Option, none, some, ltb, ◌==◌,
  if◌then◌else◌, length, get_elem?, set,
}
pub mod Dispatch
pub mod Moves
pub mod Invariant
pub mod Slots
pub mod Handover
mod Tests

-- Where the goroutine that allocated the waiter stands.
pub data Phase : Type 0 where
  -- blocked in the `select`
  waiting : Phase
  -- returned from `Acquire` with a release function that has not run yet
  holding : Phase
  -- saw `ctx.Done()` and found the waiter granted: it unlocks, then calls `release`
  abandoning : Phase
  -- owns nothing any more
  finished : Phase

pub record Waiter : Type 0 where
  pub id : ℕ
  pub granted : Bool
  pub phase : Phase

pub record BuildQueue : Type 0 where
  pub limit : ℕ
  pub active : ℕ
  pub waiters : List ℕ

pub record System : Type 0 where
  pub queue : BuildQueue
  pub heap : List Waiter

-- `NewBuildQueue`
pub new_build_queue : ℕ → BuildQueue
new_build_queue limit = record {
  limit = if ltb limit 1 then 1 else limit;
  active = 0;
  waiters = [];
}

pub new_system : ℕ → System
unfolding new_build_queue
new_system limit = record { queue = new_build_queue limit; heap = [] }

-- `waiter.granted = true`; closing `ready` is what lets the goroutine pass its `select`.
pub grant : ℕ → List Waiter → List Waiter
grant p heap = elim (get_elem? heap p) [
  | none ↦ heap
  | some w ↦ set heap p (record w { granted = true })
]

pub set_phase : ℕ → Phase → List Waiter → List Waiter
set_phase p phase heap = elim (get_elem? heap p) [
  | none ↦ heap
  | some w ↦ set heap p (record w { phase = phase })
]

-- The loop of `dispatchLocked`, on the waiters that are left.
pub dispatch_loop : List ℕ → ℕ → ℕ → List Waiter → System
dispatch_loop [] limit active heap = record {
  queue = record { limit = limit; active = active; waiters = [] };
  heap = heap;
}
dispatch_loop (p ∷ rest) limit active heap = elim (ltb active limit) [
  | true ↦ dispatch_loop rest limit (active + 1) (grant p heap)
  | false ↦ record {
    queue = record { limit = limit; active = active; waiters = p ∷ rest };
    heap = heap;
  }
]

pub dispatch : System → System
dispatch s = dispatch_loop s.queue.waiters s.queue.limit s.queue.active s.heap

-- `removeWaiterLocked`: the first occurrence is cut out.
pub remove_waiter : ℕ → List ℕ → List ℕ
remove_waiter p [] = []
remove_waiter p (q ∷ qs) = if q == p then qs else q ∷ remove_waiter p qs

-- `release`
pub release : System → System
unfolding dispatch
release s =
    dispatch
      (record s { queue = record q { active = if ltb 0 q.active then q.active - 1 else q.active } })
  where
    q : BuildQueue
    q = s.queue

-- `Acquire` up to its `select`: allocate a waiter, append it, dispatch.
pub enqueue : ℕ → System → System
unfolding dispatch
enqueue id s = dispatch (record {
  queue = record q { waiters = q.waiters ++ length s.heap ∷ [] };
  heap = s.heap ++ record { id = id; granted = false; phase = waiting } ∷ [];
})
  where
    q : BuildQueue
    q = s.queue

-- The `ctx.Done()` case: a granted waiter gives its slot back after the lock is dropped, any
-- other one leaves the queue.
pub give_up : ℕ → Bool → System → System
unfolding dispatch remove_waiter set_phase
give_up p true s = record s { heap = set_phase p abandoning s.heap }
give_up p false s = dispatch (record {
  queue = record q { waiters = remove_waiter p q.waiters };
  heap = set_phase p finished s.heap;
})
  where
    q : BuildQueue
    q = s.queue

-- `Stats`
pub record BuildQueueStats : Type 0 where
  pub limit : ℕ
  pub active : ℕ
  pub queued : ℕ

pub stats : BuildQueue → BuildQueueStats
stats q = record { limit = q.limit; active = q.active; queued = length q.waiters }

-- What can happen next: a deployment calls `Acquire`, the goroutine of a waiter is scheduled
-- after `ready` was closed, its context ends, it runs the deferred `release` of an abandoned
-- grant, or its release function is called.
pub data Event : Type 0 where
  acquire : ℕ → Event
  ready : ℕ → Event
  cancelled : ℕ → Event
  abandon : ℕ → Event
  released : ℕ → Event

-- One event at a waiter, by where its goroutine stands; what cannot happen changes nothing.
-- The last clause holds the second call of a release function, which `sync.Once` stops.
pub advance : Event → ℕ → Phase → Bool → System → System
unfolding set_phase release give_up
advance (ready _) p waiting true s = record s { heap = set_phase p holding s.heap }
advance (cancelled _) p waiting g s = give_up p g s
advance (abandon _) p abandoning g s = release (record s { heap = set_phase p finished s.heap })
advance (released _) p holding g s = release (record s { heap = set_phase p finished s.heap })
advance _ p _ g s = s

pub step_at : Event → ℕ → System → System
unfolding advance
step_at e p s = elim (get_elem? s.heap p) [ none ↦ s | some w ↦ advance e p w.phase w.granted s ]

pub step : System → Event → System
unfolding enqueue step_at
step s (acquire id) = enqueue id s
step s (ready p) = step_at (ready p) p s
step s (cancelled p) = step_at (cancelled p) p s
step s (abandon p) = step_at (abandon p) p s
step s (released p) = step_at (released p) p s

pub run : System → List Event → System
run s [] = s
run s (e ∷ es) = run (step s e) es
