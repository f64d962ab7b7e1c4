-- ===== src/DeploymentStore/Tests.antt =====
-- A table with a release that runs and one that is built, and the store's theorems at it.
use mini_paa_s.Common.{◌≡◌, false, [], ◌∷◌, none, some, if◌then◌else◌, ◌==◌}
use mini_paa_s.Domain.{DeploymentStatus, no_deployment}
use mini_paa_s.DeploymentStore.{
  Table, promote_candidate, request_cancel, mark_cancelled, get_by_id, list_candidates, get_active,
}
use mini_paa_s.DeploymentStore.Cancellation.{promotion_final, closed, mark_cancelled_lem}
use mini_paa_s.DeploymentStore.Active.{lists_id, promoted_no_candidate, Newest, get_active-Newest}

abbrev rows : Table
rows =
    record {
      deployment = record no_deployment {
        id = 2;
        app_id = 7;
        status = DeploymentStatus.building;
        candidate_container_id = 50;
      };
      created_at = 20;
    }
    ∷ record {
      deployment = record no_deployment {
        id = 1;
        app_id = 7;
        status = DeploymentStatus.running;
        container_id = 40;
      };
      created_at = 10;
    }
    ∷ []

promotion_final_example :
    let t = promote_candidate 2 50 3001 "shop:2" 900 rows in
    (request_cancel 2 t ≡ (t, false)) × (mark_cancelled 2 t ≡ t)
promotion_final_example = promotion_final 2 50 3001 "shop:2" 900 rows

mark_cancelled_lem_example : get_by_id 2 (mark_cancelled 2 rows) ≡ (
    if 2 == 2
    then elim (get_by_id 2 rows) [ none ↦ none | some d ↦ some (closed d) ]
    else get_by_id 2 rows)
mark_cancelled_lem_example = mark_cancelled_lem 2 2 rows

promoted_no_candidate_example :
    lists_id 2 (list_candidates (promote_candidate 2 50 3001 "shop:2" 900 rows)) ≡ false
promoted_no_candidate_example = promoted_no_candidate 2 50 3001 "shop:2" 900 rows

get_active-Newest_example : Newest 7 rows (get_active 7 rows)
get_active-Newest_example = get_active-Newest 7 rows
