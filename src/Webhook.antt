-- ===== src/Webhook.antt =====
-- service/github_webhook.go and store/postgres/github_webhook.go: a push to GitHub starts
-- deployments. A delivery id is only ever
-- compared, so it is a number, 0 being the empty one; so are the ids of GitHub, 0 standing for any
-- that is not positive. Names of repositories are ASCII.
use mini_paa_s.Common.{
  ℕ, zero, suc, ◌+◌, ◌*◌, Bool, true, false, ◌&&◌, ◌||◌, not, List, [], ◌∷◌, ◌++◌, Option, none,
  some, ltb, leb, ◌==◌, ◌-◌, if◌then◌else◌, codes, text_eq, has_prefix, trim_prefix, trim_space,
  length, drop,
}
use mini_paa_s.SourceGit.{to_lower, normalize_branch, is_digit}
use mini_paa_s.GitSources.{GitSource, list_auto_deploy, or_branch}
use mini_paa_s.GitSources
pub mod Once
pub mod Matching
pub mod Requests
pub mod Signatures
mod Tests

pub data Status : Type 0 where
  received ignored failed accepted : Status

-- A row of `github_webhook_deliveries`
pub record Delivery : Type 0 where
  pub id : ℕ
  pub status : Status

-- A deployment that a delivery created, and started to run.
pub record Created : Type 0 where
  pub app : ℕ
  pub repository : List ℕ
  pub branch : List ℕ
  pub commit : List ℕ
  pub delivery : ℕ

pub record State : Type 0 where
  pub sources : GitSources.Table
  pub deliveries : List Delivery
  pub created : List Created

pub record Push : Type 0 where
  pub ref : List ℕ
  pub after : List ℕ
  pub deleted : Bool
  pub repository_id : ℕ
  pub full_name : List ℕ
  pub installation_id : ℕ

-- What one request meets: whether the claim, its completion and the list of sources succeed, which
-- apps are found, and for which the deployment can be stored.
pub record Env : Type 0 where
  pub claims : Bool
  pub completes : Bool
  pub lists : Bool
  pub finds_app : ℕ → Bool
  pub creates : ℕ → Bool

pub data Outcome : Type 0 where
  skipped duplicate error : Outcome
  deployed : ℕ → Outcome

abbrev pub is_claimed : ℕ → List Delivery → Bool
is_claimed id [] = false
is_claimed id (d ∷ ds) = d.id == id || is_claimed id ds

-- `Complete`
abbrev pub complete_rows : ℕ → Status → List Delivery → List Delivery
complete_rows id status [] = []
complete_rows id status (d ∷ ds) =
    (if d.id == id then record d { status = status } else d) ∷ complete_rows id status ds

abbrev pub complete : Env → ℕ → Status → State → State
complete env id status st =
    if env.completes then record st { deliveries = complete_rows id status st.deliveries } else st

-- `isZeroSHA`
abbrev pub is_zero_sha : List ℕ → Bool
is_zero_sha [] = true
is_zero_sha (c ∷ s) = c == b'0' && is_zero_sha s

abbrev pub is_installation : Option ℕ → ℕ → Bool
is_installation none id = false
is_installation (some i) id = i == id

-- The tests of the loop over the sources
abbrev pub matches : Push → List ℕ → GitSource → Bool
matches push branch s =
    text_eq s.branch branch
    && text_eq (to_lower s.repository) (to_lower push.full_name)
    && is_installation s.installation_id push.installation_id

abbrev pub is_some : Option (List ℕ) → Bool
is_some none = false
is_some (some b) = true

abbrev pub value_of : Option (List ℕ) → List ℕ
value_of none = []
value_of (some b) = b

-- The branch that `CreateTriggered` of `GitDeploymentService` gives to the deployment
abbrev pub deployed_branch : List ℕ → GitSource → Option (List ℕ)
deployed_branch branch s = normalize_branch (or_branch branch s.branch)

abbrev pub can_create : Env → List ℕ → GitSource → Bool
can_create env branch s =
    env.finds_app s.app_id && is_some (deployed_branch branch s) && env.creates s.app_id

abbrev pub created_for : Push → List ℕ → ℕ → GitSource → Created
created_for push branch delivery s = record {
  app = s.app_id;
  repository = s.repository;
  branch = value_of (deployed_branch branch s);
  commit = push.after;
  delivery = delivery;
}

-- The loop: the deployments that are created, in the order of the sources
pub start_all : Env → Push → List ℕ → ℕ → List GitSource → List Created
start_all env push branch delivery [] = []
start_all env push branch delivery (s ∷ ss) =
    let rest = start_all env push branch delivery ss in
    if matches push branch s && can_create env branch s
    then created_for push branch delivery s ∷ rest
    else rest

-- The end of `Handle`
abbrev pub finish : Env → ℕ → List Created → State → State × Outcome
finish env delivery [] st = (complete env delivery Status.ignored st, skipped)
finish env delivery (c ∷ cs) st = (
  complete env delivery Status.accepted (record st { created = (c ∷ cs) ++ st.created }),
  deployed (length (c ∷ cs)),
)

-- `Handle`, once the delivery is claimed
pub process : Env → Push → ℕ → State → State × Outcome
unfolding start_all
process env push delivery st =
    let branch = trim_prefix push.ref (codes "refs/heads/") in
    if push.deleted || text_eq branch push.ref || is_zero_sha push.after
    then (complete env delivery Status.ignored st, skipped)
    else if env.lists
    then finish env delivery
        (start_all env push branch delivery (list_auto_deploy push.repository_id st.sources)) st
    else (complete env delivery Status.failed st, error)

-- `Claim`, an insert that does nothing where the delivery has a row
pub claim : Env → Push → ℕ → State → State × Outcome
unfolding process
claim env push delivery st =
    if not env.claims
    then (st, error)
    else if is_claimed delivery st.deliveries
    then (st, duplicate)
    else process env push delivery (record st {
      deliveries = record { id = delivery; status = Status.received } ∷ st.deliveries;
    })

abbrev pub is_invalid : ℕ → Push → Bool
is_invalid delivery push =
    delivery == 0 || push.repository_id == 0 || text_eq push.full_name [] || text_eq push.ref []

pub with_payload : Env → ℕ → Option Push → State → State × Outcome
unfolding claim
with_payload env delivery none st = (st, error)
with_payload env delivery (some push) st =
    if is_invalid delivery push then (st, error) else claim env push delivery st

-- `Handle`, on the decoded payload, `none` where it is no JSON of a push
pub handle : Env → List ℕ → ℕ → Option Push → State → State × Outcome
unfolding with_payload
handle env event delivery payload st =
    if text_eq event (codes "push") then with_payload env delivery payload st else (st, skipped)
