-- ===== src/Metrics.antt =====
-- service/metrics.go: the summary of the latest deployments of an app, and the one whose container
-- is inspected.
use mini_paa_s.Common.{
  ℕ, suc, ◌+◌, ◌/◌, Bool, true, false, ◌&&◌, not, List, [], ◌∷◌, Option, none, some, ltb, ◌==◌,
  if◌then◌else◌, length, find_by,
}
use mini_paa_s.Domain.{DeploymentStatus}
pub mod Summary
mod Tests

-- What the summary reads of a deployment; a container id of 0 is the empty text, and a duration of
-- 0 one that is not positive.
pub record Item : Type 0 where
  pub status : DeploymentStatus
  pub container : ℕ
  pub duration : ℕ

-- `DeploymentMetrics` with the two local variables of the loop. The success rate is the quotient of
-- `successful` by the sum of `successful` and `failed`.
pub record Tally : Type 0 where
  pub total : ℕ
  pub successful : ℕ
  pub failed : ℕ
  pub in_progress : ℕ
  pub duration_total : ℕ
  pub duration_count : ℕ
  pub average_duration : ℕ

-- The switch on the status
abbrev pub count_status : DeploymentStatus → Tally → Tally
count_status DeploymentStatus.running m = record m { successful = suc m.successful }
count_status DeploymentStatus.superseded m = record m { successful = suc m.successful }
count_status DeploymentStatus.rolled_back m = record m { successful = suc m.successful }
count_status DeploymentStatus.stopped m = record m { successful = suc m.successful }
count_status DeploymentStatus.failed m = record m { failed = suc m.failed }
count_status DeploymentStatus.cancelled m = record m { failed = suc m.failed }
count_status _ m = record m { in_progress = suc m.in_progress }

abbrev pub count_duration : ℕ → Tally → Tally
count_duration duration m =
    if ltb 0 duration
    then record m {
      duration_total = m.duration_total + duration;
      duration_count = suc m.duration_count;
    }
    else m

pub count_items : List Item → Tally → Tally
count_items [] m = m
count_items (i ∷ is) m = count_items is (count_duration i.duration (count_status i.status m))

abbrev pub with_average : Tally → Tally
with_average m =
    let average = m.duration_total / m.duration_count in
    if ltb 0 m.duration_count then record m { average_duration = average } else m

-- `summarizeDeployments`
pub summarize : List Item → Tally
unfolding count_items
summarize items = with_average (
    count_items items (record {
      total = length items;
      successful = 0;
      failed = 0;
      in_progress = 0;
      duration_total = 0;
      duration_count = 0;
      average_duration = 0;
    }))

abbrev pub is_running : DeploymentStatus → Bool
is_running DeploymentStatus.running = true
is_running _ = false

abbrev pub or_found : Option Item → Option Item → Option Item
or_found (some i) later = some i
or_found none later = later

-- `metricsDeployment`
pub metrics_deployment : List Item → Option Item
metrics_deployment items =
    or_found (find_by (λ i. is_running i.status && not (i.container == 0)) items)
      (find_by (λ i. not (i.container == 0)) items)
