-- ===== src/Metrics/Tests.antt =====
-- The summary of four deployments, and the container that is inspected.
use mini_paa_s.Common.{◌≡◌, refl, List, [], ◌∷◌, some, arith}
use mini_paa_s.Domain.{DeploymentStatus}
use mini_paa_s.Metrics.{Item, summarize, metrics_deployment}
use mini_paa_s.Metrics.Summary.{Summarizes, summarize_lem}

abbrev active : Item
active = record { status = DeploymentStatus.running; container = 40; duration = 500 }

abbrev items : List Item
items =
    record { status = DeploymentStatus.failed; container = 41; duration = 0 }
    ∷ active
    ∷ record { status = DeploymentStatus.superseded; container = 0; duration = 301 }
    ∷ record { status = DeploymentStatus.building; container = 0; duration = 0 }
    ∷ []

averaged : (summarize items).average_duration ≡ 400
unfolding summarize
averaged = refl

inspects_active : metrics_deployment items ≡ some active
unfolding metrics_deployment
inspects_active = refl

summarize_lem_example : Summarizes items (summarize items)
summarize_lem_example =
    summarize_lem items (omega arith) (omega arith, (omega arith, (omega arith, (omega arith, tt))))
