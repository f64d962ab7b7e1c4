-- ===== src/Reconcile.antt =====
-- service/reconcile.go: the containers with MiniPaaS's label that no deployment refers to go when
-- the server starts. A container id of 0 is the empty one.
use mini_paa_s.Common.{
  ℕ, suc, Bool, true, false, ◌||◌, not, List, [], ◌∷◌, ◌++◌, Option, none, some, ◌==◌,
  if◌then◌else◌,
}
use mini_paa_s.Domain.{Deployment}
pub mod Sweep
mod Tests

-- What the loop did: the ids that `RemoveContainer` was called with, how many calls succeeded and
-- how many errors were joined.
pub record Swept : Type 0 where
  pub asked : List ℕ
  pub removed : ℕ
  pub errors : ℕ

-- Whether the set has the id.
abbrev pub has_id : List ℕ → ℕ → Bool
has_id [] id = false
has_id (x ∷ xs) id = x == id || has_id xs id

abbrev pub with_id : ℕ → List ℕ → List ℕ
with_id id ids = if id == 0 then ids else id ∷ ids

-- `referencedContainerIDs`
pub referenced_container_ids : List Deployment → List ℕ
referenced_container_ids [] = []
referenced_container_ids (d ∷ ds) =
    with_id d.container_id (with_id d.candidate_container_id (referenced_container_ids ds))

-- The loop of `reconcileManagedContainerIDs`; `removes` tells whether Docker removes a container.
pub sweep : (ℕ → Bool) → List ℕ → List ℕ → Swept
sweep removes referenced [] = record { asked = []; removed = 0; errors = 0 }
sweep removes referenced (id ∷ ids) =
    let rest = sweep removes referenced ids in
    if id == 0 || has_id referenced id
    then rest
    else if removes id
    then record rest { asked = id ∷ rest.asked; removed = suc rest.removed }
    else record rest { asked = id ∷ rest.asked; errors = suc rest.errors }

-- What the store and Docker answer, `none` where they answer with an error.
pub record Sources : Type 0 where
  pub running : Option (List Deployment)
  pub has_candidate_store : Bool
  pub candidates : Option (List Deployment)
  pub managed : Option (List ℕ)
  pub removes : ℕ → Bool

pub sweep_managed : Sources → List ℕ → Option Swept
unfolding sweep
sweep_managed s referenced = elim s.managed [
  | none ↦ none
  | some ids ↦ some (sweep s.removes referenced ids)
]

pub with_candidates : Sources → List Deployment → Option (List Deployment) → Option Swept
unfolding sweep_managed referenced_container_ids
with_candidates s running none = none
with_candidates s running (some items) =
    sweep_managed s (referenced_container_ids (running ++ items))

-- `ReconcileManagedContainers`; without a result, nothing was removed.
pub reconcile_managed_containers : Sources → Option Swept
unfolding sweep_managed with_candidates
reconcile_managed_containers s = elim s.running [
  | none ↦ none
  | some running ↦
      if s.has_candidate_store
      then with_candidates s running s.candidates
      else sweep_managed s (referenced_container_ids running)
]
