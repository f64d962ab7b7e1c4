-- ===== src/BuildQueue/Tests.antt =====
-- A queue with one slot and three deployments, and the queue's theorems at it.
use mini_paa_s.Common.{
  ℕ, ◌+◌, ◌-◌, min, length, drop, take, ◌≡◌, ◌≤◌, refl, true, false, List, [], ◌∷◌, ◌⊎◌, ltb,
  if◌then◌else◌, get_elem?, total, some,
}
use mini_paa_s.BuildQueue.{
  System, Event, acquire, ready, cancelled, abandon, released, holding, finished, new_system,
  new_build_queue, run, step, step_at, advance, give_up, enqueue, dispatch, dispatch_loop, grant,
  set_phase, remove_waiter, stats,
}
use mini_paa_s.BuildQueue.Dispatch.{Inv, weight, granted_waiter, dispatch_lem, grant_all}
use mini_paa_s.BuildQueue.Invariant.{run-Inv, new_system-Inv, cell}
use mini_paa_s.BuildQueue.Slots.{run-slots}
use mini_paa_s.BuildQueue.Handover.{run_finished, released_serves_oldest}

-- Deployment 10 builds, 11 gave up in the queue, 12 and 13 wait.
abbrev events : List Event
events = acquire 10 ∷ ready 0 ∷ acquire 11 ∷ acquire 12 ∷ acquire 13 ∷ cancelled 1 ∷ []

abbrev busy : System
busy = run (new_system 1) events

busy-Inv : Inv busy
busy-Inv = run-Inv (new_system 1) events (new_system-Inv 1)

busy_queue : busy.queue.waiters ≡ 2 ∷ 3 ∷ []
unfolding run step step_at advance give_up enqueue dispatch dispatch_loop grant set_phase
    remove_waiter new_system new_build_queue
busy_queue = refl

busy_builder : get_elem? busy.heap 0 ≡ some (cell 10 holding true)
unfolding run step step_at advance give_up enqueue dispatch dispatch_loop grant set_phase
    remove_waiter new_system new_build_queue
busy_builder = refl

busy_quitter : get_elem? busy.heap 1 ≡ some (cell 11 finished false)
unfolding run step step_at advance give_up enqueue dispatch dispatch_loop grant set_phase
    remove_waiter new_system new_build_queue
busy_quitter = refl

run-slots_example :
    let s = run (new_system 1) events in
    let reported = stats s.queue in
    (reported.active ≡ total weight s.heap)
    × (reported.active ≤ reported.limit)
    × (reported.limit ≡ (if ltb 1 1 then 1 else 1))
    × ((reported.queued ≡ 0) ⊎ (reported.active ≡ reported.limit))
run-slots_example = run-slots 1 events

run_finished_example :
    let t = run busy (released 0 ∷ ready 2 ∷ []) in
    (get_elem? t.heap 1 ≡ some (cell 11 finished false))
    × (step t (ready 1) ≡ t)
    × (step t (cancelled 1) ≡ t)
    × (step t (abandon 1) ≡ t)
    × (step t (released 1) ≡ t)
run_finished_example =
    run_finished (released 0 ∷ ready 2 ∷ []) busy 1 11 false busy-Inv busy_quitter

released_serves_oldest_example :
    let t = step busy (released 0) in
    (t.queue.waiters ≡ 3 ∷ [])
    × (t.queue.active ≡ busy.queue.active)
    × ((d : ℕ) × (get_elem? t.heap 2 ≡ some (granted_waiter d)))
released_serves_oldest_example =
    released_serves_oldest busy 0 10 2 true (3 ∷ []) busy-Inv busy_builder busy_queue

dispatch_lem_example :
    let free = busy.queue.limit - busy.queue.active in
    let ws = busy.queue.waiters in
    dispatch busy ≡ record {
      queue = record {
        limit = busy.queue.limit;
        active = busy.queue.active + min free (length ws);
        waiters = drop free ws;
      };
      heap = grant_all (take free ws) busy.heap;
    }
dispatch_lem_example = dispatch_lem busy busy-Inv.ready.bounded
