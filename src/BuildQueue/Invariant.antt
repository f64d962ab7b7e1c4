-- ===== src/BuildQueue/Invariant.antt =====
-- The slot accounting of the build queue over every interleaving of its goroutines.
use mini_paa_s.Common.{
  ℕ, ◌-◌, ◌<◌, ◌≡◌, ◌≢◌, refl, Bool, true, false, List, [], ◌∷◌, some, inl, inr, arith, ltb,
  if◌then◌else◌, get_elem?, set, Option-cases, total-set,
}
use mini_paa_s.BuildQueue.{
  Waiter, System, Phase, waiting, holding, abandoning, finished, Event, acquire, ready, cancelled,
  abandon, released, set_phase, release, enqueue, give_up, advance, step_at, step, run, new_system,
}
use mini_paa_s.BuildQueue.Dispatch.{Inv, weight, queued, dispatch-Inv}
use mini_paa_s.BuildQueue.Moves.{move-Ready, leave-Ready, arrive-Ready}

abbrev pub cell : ℕ → Phase → Bool → Waiter
cell id phase granted = record { id = id; granted = granted; phase = phase }

pub set_phase_lem :
    (heap : List Waiter) (p : ℕ) (phase : Phase) {w : Waiter}
    → get_elem? heap p ≡ some w
    → set_phase p phase heap ≡ set heap p (record w { phase = phase })
unfolding set_phase
set_phase_lem heap p phase e = rw (e, set_phase)

-- The goroutine of a granted or finished waiter moves on and keeps its slots.
keep-Inv :
    (s : System) (p id : ℕ) (phase phase' : Phase) (granted : Bool)
    → get_elem? s.heap p ≡ some (cell id phase granted)
    → ((j : ℕ) → cell id phase granted ≢ queued j)
    → ((j : ℕ) → cell id phase' granted ≢ queued j)
    → weight (cell id phase granted) ≡ weight (cell id phase' granted)
    → Inv s
    → Inv (record s { heap = set_phase p phase' s.heap })
keep-Inv s p id phase phase' granted at o n e v = rw (set_phase_lem s.heap p phase' at) (record {
  ready =
      move-Ready s p s.queue.active (cell id phase' granted) at o n (omega (arith, e))
        v.ready.bounded v.ready;
  busy = v.busy;
})

-- A goroutine gives its slot back.
give_back-Inv :
    (s : System) (p id : ℕ) (phase : Phase) (granted : Bool)
    → get_elem? s.heap p ≡ some (cell id phase granted)
    → ((j : ℕ) → cell id phase granted ≢ queued j)
    → weight (cell id phase granted) ≡ 1
    → Inv s
    → Inv (release (record s { heap = set_phase p finished s.heap }))
unfolding release
give_back-Inv s p id phase granted at o one v =
    let owned : 0 < s.queue.active =
      omega (arith, v.ready.counted, total-set weight s.heap p (cell id finished granted) at) in
    let spent : (if ltb 0 s.queue.active then s.queue.active - 1 else s.queue.active)
        ≡ s.queue.active - 1 =
      ground arith in
    rw (set_phase_lem s.heap p finished at, spent)
      (dispatch-Inv _ (
        move-Ready s p (s.queue.active - 1) (cell id finished granted) at o (λ j e. cc)
          (omega (arith, one)) (omega (arith, v.ready.bounded)) v.ready))

advance-Inv :
    (e : Event) (s : System) (p id : ℕ) (phase : Phase) (granted : Bool)
    → get_elem? s.heap p ≡ some (cell id phase granted)
    → Inv s
    → Inv (advance e p phase granted s)
unfolding advance
advance-Inv (ready _) s p id waiting true at v =
    keep-Inv s p id waiting holding true at (λ j e. cc) (λ j e. cc) refl v
advance-Inv (cancelled _) s p id waiting true at v =
    unfold give_up in keep-Inv s p id waiting abandoning true at (λ j e. cc) (λ j e. cc) refl v
advance-Inv (cancelled _) s p id waiting false at v =
    unfold give_up in
    rw (set_phase_lem s.heap p finished at)
      (dispatch-Inv _ (leave-Ready s p id (cell id finished false) at refl (λ j e. cc) v.ready))
advance-Inv (abandon _) s p id abandoning g at v =
    give_back-Inv s p id abandoning g at (λ j e. cc) refl v
advance-Inv (released _) s p id holding g at v =
    give_back-Inv s p id holding g at (λ j e. cc) refl v
advance-Inv _ s p id _ g at v = v

step_at-Inv : (e : Event) (s : System) (p : ℕ) → Inv s → Inv (step_at e p s)
unfolding step_at
step_at-Inv e s p v = elim (Option-cases (get_elem? s.heap p)) [
  | inl missing ↦ rw (missing, step_at) v
  | inr (w, at) ↦ rw (at, step_at) (advance-Inv e s p w.id w.phase w.granted at v)
]

pub step-Inv : (s : System) (e : Event) → Inv s → Inv (step s e)
unfolding step
step-Inv s (acquire id) v = unfold enqueue in dispatch-Inv _ (arrive-Ready s id v.ready)
step-Inv s (ready p) v = step_at-Inv (ready p) s p v
step-Inv s (cancelled p) v = step_at-Inv (cancelled p) s p v
step-Inv s (abandon p) v = step_at-Inv (abandon p) s p v
step-Inv s (released p) v = step_at-Inv (released p) s p v

pub run-Inv : (s : System) (es : List Event) → Inv s → Inv (run s es)
unfolding run
run-Inv s [] v = v
run-Inv s (e ∷ es) v = run-Inv (step s e) es (step-Inv s e v)

pub new_system-Inv : (limit : ℕ) → Inv (new_system limit)
unfolding new_system
new_system-Inv limit = record {
  ready = record {
    counted = refl;
    bounded = omega arith;
    ordered = tt;
    waits = tt;
    complete = λ p id e. cc;
  };
  busy = inl refl;
}
