-- ===== src/BuildQueue/Slots.antt =====
-- What callers of the build queue rely on, after any interleaving of its goroutines.
use mini_paa_s.Common.{
  ℕ, ◌+◌, ◌≤◌, ◌≡◌, refl, ap, Bool, true, false, List, [], ◌∷◌, ◌⊎◌, ◌∙◌, inl, inr, arith, ltb,
  if◌then◌else◌, length, get_elem?, total, Option-cases,
}
use mini_paa_s.BuildQueue.{
  Waiter, System, Phase, waiting, holding, abandoning, Event, acquire, ready, cancelled, abandon,
  released, dispatch, release, enqueue, give_up, advance, step_at, step, run, new_system,
  new_build_queue, grant, dispatch_loop, stats,
}
use mini_paa_s.BuildQueue.Dispatch.{weight}
use mini_paa_s.BuildQueue.Invariant.{run-Inv, new_system-Inv}

dispatch-limit :
    (ws : List ℕ) (limit active : ℕ) (heap : List Waiter)
    → (dispatch_loop ws limit active heap).queue.limit ≡ limit
unfolding dispatch_loop
dispatch-limit [] limit active heap = refl
dispatch-limit (p ∷ ws) limit active heap =
    ground (arith, dispatch-limit ws limit (active + 1) (grant p heap))

advance-limit :
    (e : Event) (p : ℕ) (phase : Phase) (granted : Bool) (s : System)
    → (advance e p phase granted s).queue.limit ≡ s.queue.limit
unfolding advance dispatch release give_up
advance-limit (ready _) p waiting true s = refl
advance-limit (cancelled _) p waiting true s = refl
advance-limit (cancelled _) p waiting false s = dispatch-limit _ _ _ _
advance-limit (abandon _) p abandoning g s = dispatch-limit _ _ _ _
advance-limit (released _) p holding g s = dispatch-limit _ _ _ _
advance-limit _ p _ g s = refl

step_at-limit : (e : Event) (p : ℕ) (s : System) → (step_at e p s).queue.limit ≡ s.queue.limit
unfolding step_at
step_at-limit e p s = elim (Option-cases (get_elem? s.heap p)) [
  | inl missing ↦ rw (missing, step_at)
  | inr (w, at) ↦ rw (at, step_at) (advance-limit e p w.phase w.granted s)
]

step-limit : (s : System) (e : Event) → (step s e).queue.limit ≡ s.queue.limit
unfolding step
step-limit s (acquire id) = unfold enqueue dispatch in dispatch-limit _ _ _ _
step-limit s (ready p) = step_at-limit (ready p) p s
step-limit s (cancelled p) = step_at-limit (cancelled p) p s
step-limit s (abandon p) = step_at-limit (abandon p) p s
step-limit s (released p) = step_at-limit (released p) p s

run-limit : (s : System) (es : List Event) → (run s es).queue.limit ≡ s.queue.limit
unfolding run
run-limit s [] = refl
run-limit s (e ∷ es) = run-limit (step s e) es ∙ step-limit s e

-- For every configured limit and every interleaving of the goroutines: the reported number of
-- active builds is the number of slots that goroutines own, it is at most the limit, which is the
-- configured one or 1 where that is 0, and a deployment waits only while every slot is taken.
pub run-slots :
    (limit : ℕ) (es : List Event)
    → let s = run (new_system limit) es in
      let reported = stats s.queue in
      (reported.active ≡ total weight s.heap)
      × (reported.active ≤ reported.limit)
      × (reported.limit ≡ (if ltb limit 1 then 1 else limit))
      × ((reported.queued ≡ 0) ⊎ (reported.active ≡ reported.limit))
unfolding stats
run-slots limit es =
    let v = run-Inv (new_system limit) es (new_system-Inv limit) in
    (
      v.ready.counted,
      v.ready.bounded,
      run-limit (new_system limit) es ∙ unfold new_system new_build_queue in refl,
      elim v.busy [ inl e ↦ inl (ap length e) | inr e ↦ inr e ],
    )
