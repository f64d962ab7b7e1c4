-- ===== src/DeploymentStore/Status.antt =====
-- What `UpdateStatus` does to the row that a query by id finds.
use mini_paa_s.Common.{ℕ, ◌≡◌, refl, [], ◌∷◌, Option, none, some, ◌==◌, if◌then◌else◌, arith}
use mini_paa_s.Domain.{Deployment, DeploymentStatus}
use mini_paa_s.DeploymentStore.{Table, get_by_id, update_status}

-- The same deployment with the status of a failure
abbrev pub failed_of : Option Deployment → Option Deployment
failed_of none = none
failed_of (some d) = some (record d { status = DeploymentStatus.failed })

pub failed_twice : (o : Option Deployment) → failed_of (failed_of o) ≡ failed_of o
failed_twice none = refl
failed_twice (some d) = refl

pub get_by_id-update_status :
    (id x : ℕ) (t : Table)
    → get_by_id id (update_status x DeploymentStatus.failed t)
      ≡ (if x == id then failed_of (get_by_id id t) else get_by_id id t)
unfolding update_status
get_by_id-update_status id x [] = ground arith
get_by_id-update_status id x (r ∷ rs) =
    let ih = get_by_id-update_status id x rs in ground (arith, ih)
