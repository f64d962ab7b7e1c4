-- ===== src/Executions/Tests.antt =====
-- Runs of the registry of executions, which apply its theorems.
use mini_paa_s.Common.{◌≡◌, refl, true, false, List, [], ◌∷◌, some, All, inl, Elem}
use mini_paa_s.Domain.{DeploymentStatus}
use mini_paa_s.Executions.{empty_registry, begin_execution, Event, begins, ends, cancels, step, run}
use mini_paa_s.Executions.Registered.{Leaves, run_registered, cancel_reaches}

-- What other deployments do while execution 50 of deployment 2 runs.
abbrev others : List Event
others = begins 8 90 false ∷ cancels 8 (some DeploymentStatus.building) true ∷ ends 8 90 ∷ []

others_leave : All (Leaves 2 50) others
others_leave = ((λ p. absurd (cc p)), (tt, (inl (λ p. absurd (cc p)), tt)))

started : (step empty_registry (begins 2 50 false)).table 2 ≡ some 50
unfolding step begin_execution
started = refl

run_registered_example : (run (step empty_registry (begins 2 50 false)) others).table 2 ≡ some 50
run_registered_example =
    run_registered others 2 50 (step empty_registry (begins 2 50 false)) others_leave started

cancel_reaches_example :
    let running = run (step empty_registry (begins 2 50 false)) others in
    Elem 50 (step running (cancels 2 (some DeploymentStatus.building) true)).cancelled
    × Elem 50 (step running (begins 2 51 false)).cancelled
cancel_reaches_example =
    cancel_reaches empty_registry 2 50 51 false false others (some DeploymentStatus.building) true
      others_leave
