-- ===== src/Reconcile/Tests.antt =====
-- Three managed containers, one of a running deployment, one a candidate, and one of nobody.
use mini_paa_s.Common.{◌≡◌, ◌≢◌, refl, true, [], ◌∷◌, some, inl, false}
use mini_paa_s.Domain.{Deployment, DeploymentStatus, no_deployment}
use mini_paa_s.Reconcile.{
  Swept, has_id, referenced_container_ids, sweep, Sources, sweep_managed, with_candidates,
  reconcile_managed_containers,
}
use mini_paa_s.Reconcile.Sweep.{Spares, sweep-Spares, running_untouched, candidates_untouched}

abbrev serving : Deployment
serving = record no_deployment { id = 1; status = DeploymentStatus.running; container_id = 40 }

abbrev starting : Deployment
starting = record no_deployment { id = 2; candidate_container_id = 50 }

abbrev sources : Sources
sources = record {
  running = some (serving ∷ []);
  has_candidate_store = true;
  candidates = some (starting ∷ []);
  managed = some (40 ∷ 50 ∷ 60 ∷ 0 ∷ []);
  removes = λ id. true;
}

abbrev outcome : Swept
outcome = record { asked = 60 ∷ []; removed = 1; errors = 0 }

reconciled : reconcile_managed_containers sources ≡ some outcome
unfolding reconcile_managed_containers with_candidates sweep_managed sweep referenced_container_ids
reconciled = refl

sweep-Spares_example :
    Spares (40 ∷ 50 ∷ []) (40 ∷ 60 ∷ []) (sweep (λ id. true) (40 ∷ 50 ∷ []) (40 ∷ 60 ∷ []))
sweep-Spares_example = sweep-Spares (λ id. true) (40 ∷ 50 ∷ []) (40 ∷ 60 ∷ [])

running_untouched_example :
    ((serving.container_id ≢ 0) → has_id (60 ∷ []) 40 ≡ false)
    × ((serving.candidate_container_id ≢ 0) → has_id (60 ∷ []) 0 ≡ false)
running_untouched_example =
    running_untouched sources (serving ∷ []) serving outcome refl reconciled (inl refl)

candidates_untouched_example :
    ((starting.container_id ≢ 0) → has_id (60 ∷ []) 0 ≡ false)
    × ((starting.candidate_container_id ≢ 0) → has_id (60 ∷ []) 50 ≡ false)
candidates_untouched_example =
    candidates_untouched sources (starting ∷ []) starting outcome refl refl reconciled (inl refl)
