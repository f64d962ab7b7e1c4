-- ===== src/Executions/Registered.antt =====
-- How long an execution is registered, and that a cancellation reaches it.
use mini_paa_s.Common.{
  ℕ, ◌≡◌, ◌≢◌, refl, ◌∙◌, ◌⊎◌, Bool, true, false, List, [], ◌∷◌, Option, none, some, ◌==◌, arith,
  All, Bool-cases, inl, inr, Elem,
}
use mini_paa_s.Domain.{DeploymentStatus}
use mini_paa_s.Executions.{
  Registry, cancel_registered, is_entry, is_accepted, begin_execution, end_execution, cancel, Event,
  begins, ends, cancels, step, run,
}

-- The event neither begins another execution of the deployment nor ends this one.
abbrev pub Leaves : ℕ → ℕ → Event → Type 0
Leaves dep e (begins d x requested) = d ≢ dep
Leaves dep e (ends d x) = (d ≢ dep) ⊎ (x ≢ e)
Leaves dep e (cancels d found stored) = Unit

begin_other :
    (d x dep e : ℕ) (requested : Bool) (r : Registry)
    → d ≢ dep
    → r.table dep ≡ some e
    → (begin_execution d x requested r).table dep ≡ some e
unfolding begin_execution
begin_other d x dep e requested r n h = let m : (d == dep) ≡ false = ground (arith, n) in rw m h

end_other :
    (d x dep e : ℕ) (r : Registry)
    → (d ≢ dep) ⊎ (x ≢ e)
    → r.table dep ≡ some e
    → (end_execution d x r).table dep ≡ some e
unfolding end_execution
end_other d x dep e r n h = elim (Bool-cases (is_entry x (r.table d))) [
  | inl y ↦ elim (Bool-cases (d == dep)) [
    | inl same ↦
        let i : d ≡ dep = ground (arith, same) in
        let k : is_entry x (some e) ≡ true = cc (y, i, h) in
        elim n [ inl m ↦ absurd (m i) | inr m ↦ absurd (m (ground (arith, k))) ]
    | inr other ↦ rw (y, other) h
  ]
  | inr m ↦ rw m h
]

cancel_table :
    (d dep : ℕ) (found : Option DeploymentStatus) (stored : Bool) (r : Registry)
    → (cancel d found stored r).table dep ≡ r.table dep
unfolding cancel
cancel_table d dep found stored r = elim (Bool-cases (is_accepted found stored)) [
  | inl y ↦ rw y (entry (r.table d))
  | inr n ↦ rw n refl
]
  where
    entry : (o : Option ℕ) → (cancel_registered d o r).table dep ≡ r.table dep
    entry none = refl
    entry (some x) = refl

step_registered :
    (ev : Event) (dep e : ℕ) (r : Registry)
    → Leaves dep e ev
    → r.table dep ≡ some e
    → (step r ev).table dep ≡ some e
unfolding step
step_registered (begins d x requested) dep e r n h = begin_other d x dep e requested r n h
step_registered (ends d x) dep e r n h = end_other d x dep e r n h
step_registered (cancels d found stored) dep e r n h = cancel_table d dep found stored r ∙ h

-- A registered execution stays registered, whatever other executions begin and end and whatever is
-- cancelled, until it ends or another execution of the same deployment begins.
pub run_registered :
    (es : List Event) (dep e : ℕ) (r : Registry)
    → All (Leaves dep e) es
    → r.table dep ≡ some e
    → (run r es).table dep ≡ some e
unfolding run
run_registered [] dep e r l h = h
run_registered (ev ∷ es) dep e r l h =
    run_registered es dep e (step r ev) l.1 (step_registered ev dep e r l.0 h)

begun :
    (dep e : ℕ) (requested : Bool) (r : Registry)
    → (step r (begins dep e requested)).table dep ≡ some e
unfolding step begin_execution
begun dep e requested r = ground arith

begin_hits :
    (dep e next : ℕ) (requested : Bool) (r : Registry)
    → r.table dep ≡ some e
    → Elem e (begin_execution dep next requested r).cancelled
unfolding begin_execution
begin_hits dep e next false r at = rw at (inl refl)
begin_hits dep e next true r at = rw at (inr (inl refl))

-- What a `Cancel` owes to a registered execution, by the status that it reads and by whether the
-- request is stored.
abbrev pub Answers : ℕ → Registry → Option DeploymentStatus → Bool → Registry → Type 0
Answers e before (some DeploymentStatus.pending) true after = Elem e after.cancelled
Answers e before (some DeploymentStatus.building) true after = Elem e after.cancelled
Answers e before (some DeploymentStatus.cancel_requested) true after = Elem e after.cancelled
Answers e before (some DeploymentStatus.cancelled) true after = after ≡ before
Answers e before (some DeploymentStatus.running) true after = after ≡ before
Answers e before (some DeploymentStatus.failed) true after = after ≡ before
Answers e before (some DeploymentStatus.superseded) true after = after ≡ before
Answers e before (some DeploymentStatus.rolled_back) true after = after ≡ before
Answers e before (some DeploymentStatus.stopped) true after = after ≡ before
Answers e before (some status) false after = after ≡ before
Answers e before none stored after = after ≡ before

cancel-Answers :
    (dep e : ℕ) (found : Option DeploymentStatus) (stored : Bool) (r : Registry)
    → r.table dep ≡ some e
    → Answers e r found stored (cancel dep found stored r)
unfolding cancel
cancel-Answers dep e none stored r at = refl
cancel-Answers dep e (some DeploymentStatus.pending) true r at = rw at (inl refl)
cancel-Answers dep e (some DeploymentStatus.building) true r at = rw at (inl refl)
cancel-Answers dep e (some DeploymentStatus.cancel_requested) true r at = rw at (inl refl)
cancel-Answers dep e (some DeploymentStatus.cancelled) true r at = refl
cancel-Answers dep e (some DeploymentStatus.running) true r at = refl
cancel-Answers dep e (some DeploymentStatus.failed) true r at = refl
cancel-Answers dep e (some DeploymentStatus.superseded) true r at = refl
cancel-Answers dep e (some DeploymentStatus.rolled_back) true r at = refl
cancel-Answers dep e (some DeploymentStatus.stopped) true r at = refl
cancel-Answers dep e (some DeploymentStatus.pending) false r at = refl
cancel-Answers dep e (some DeploymentStatus.building) false r at = refl
cancel-Answers dep e (some DeploymentStatus.cancel_requested) false r at = refl
cancel-Answers dep e (some DeploymentStatus.cancelled) false r at = refl
cancel-Answers dep e (some DeploymentStatus.running) false r at = refl
cancel-Answers dep e (some DeploymentStatus.failed) false r at = refl
cancel-Answers dep e (some DeploymentStatus.superseded) false r at = refl
cancel-Answers dep e (some DeploymentStatus.rolled_back) false r at = refl
cancel-Answers dep e (some DeploymentStatus.stopped) false r at = refl

-- An execution that has begun and not ended, and after which no other execution of its deployment
-- began, is cancelled by a `Cancel` of the deployment that reads the status `pending`, `building`
-- or `cancel_requested` and stores its request; a `Cancel` that reads another status or no row, or
-- whose request is not stored, changes nothing; and the execution is cancelled when another
-- execution of the deployment begins.
pub cancel_reaches :
    (r : Registry) (dep e next : ℕ) (requested asked : Bool) (es : List Event)
    (found : Option DeploymentStatus) (stored : Bool)
    → All (Leaves dep e) es
    → let running = run (step r (begins dep e requested)) es in
      Answers e running found stored (step running (cancels dep found stored))
      × Elem e (step running (begins dep next asked)).cancelled
unfolding step
cancel_reaches r dep e next requested asked es found stored l =
    let running : Registry = run (step r (begins dep e requested)) es in
    let at : running.table dep ≡ some e =
      run_registered es dep e (step r (begins dep e requested)) l (begun dep e requested r) in
    (cancel-Answers dep e found stored running at, begin_hits dep e next asked running at)
