-- ===== src/Webhook/Matching.antt =====
-- What a push may start.
use mini_paa_s.Common.{
  ℕ, ◌≡◌, refl, true, false, ◌&&◌, ◌||◌, List, [], ◌∷◌, ◌++◌, some, text_eq, text_eq_path, codes,
  trim_prefix, arith, Bool-cases, inl, inr, All, Elem,
}
use mini_paa_s.SourceGit.{to_lower}
use mini_paa_s.GitSources.{GitSource, list_auto_deploy, is_repository, is_public, Table}
use mini_paa_s.GitSources.AutoDeploy.{Listed, list_auto_deploy-Listed}
use mini_paa_s.Webhook.{
  Created, State, Push, Env, Status, is_claimed, complete, is_installation, is_zero_sha, matches,
  can_create, start_all, finish, process, claim, is_invalid, with_payload, handle,
}

-- The source deploys by itself from the repository of the push, by the same installation, and from
-- the branch that was pushed.
pub record Allows (push : Push) (s : GitSource) : Type 0 where
  pub auto : s.auto_deploy ≡ true
  pub by_app : is_public s.access_mode ≡ false
  pub same_repository : is_repository s.repository_id push.repository_id ≡ true
  pub same_name : to_lower s.repository ≡ to_lower push.full_name
  pub same_installation : is_installation s.installation_id push.installation_id ≡ true
  pub same_branch : s.branch ≡ trim_prefix push.ref (codes "refs/heads/")

-- The deployment is one of the app of such a source, at the commit of the push.
abbrev pub Fits : Push → Table → ℕ → Created → Type 0
Fits push t delivery c =
    (s : GitSource) × Elem s t
    × Allows push s
    × (c.app ≡ s.app_id)
    × (c.repository ≡ s.repository)
    × (c.commit ≡ push.after)
    × (c.delivery ≡ delivery)

start_all-Fits :
    (env : Env) (push : Push) (t : Table) (d : ℕ) (ss : List GitSource)
    → All (Listed push.repository_id t) ss
    → All (Fits push t d) (start_all env push (trim_prefix push.ref (codes "refs/heads/")) d ss)
unfolding start_all
start_all-Fits env push t d [] h = tt
start_all-Fits env push t d (s ∷ ss) h =
    let branch : List ℕ = trim_prefix push.ref (codes "refs/heads/") in
    let rest = start_all-Fits env push t d ss h.1 in
    elim (Bool-cases (matches push branch s && can_create env branch s)) [
      | inl y ↦ rw y (
        (
          s,
          h.0.member,
          record {
            auto = h.0.auto;
            by_app = h.0.by_app;
            same_repository = h.0.same_repository;
            same_name =
                text_eq_path (to_lower s.repository) (to_lower push.full_name) (ground (arith, y));
            same_installation = ground (arith, y);
            same_branch = text_eq_path s.branch branch (ground (arith, y));
          },
          refl,
          refl,
          refl,
          refl,
        ),
        rest,
      )
      | inr n ↦ rw n rest
    ]

-- The deployments that a request adds, all of which fit.
abbrev pub Adds : Push → ℕ → State → State → Type 0
Adds push d st st' =
    (new : List Created) × (st'.created ≡ new ++ st.created) × All (Fits push st.sources d) new

complete-created :
    (env : Env) (d : ℕ) (status : Status) (st : State)
    → (complete env d status st).created ≡ st.created
complete-created env d status st = ground arith

finish-Adds :
    (env : Env) (push : Push) (d : ℕ) (new : List Created) (st : State)
    → All (Fits push st.sources d) new
    → Adds push d st (finish env d new st).0
finish-Adds env push d [] st h = ([], complete-created env d Status.ignored st, tt)
finish-Adds env push d (c ∷ new) st h = (
  c ∷ new,
  complete-created env d Status.accepted (record st { created = (c ∷ new) ++ st.created }),
  h,
)

process-Adds :
    (env : Env) (push : Push) (d : ℕ) (st : State) → Adds push d st (process env push d st).0
unfolding process
process-Adds env push d st =
    let branch : List ℕ = trim_prefix push.ref (codes "refs/heads/") in
    elim (Bool-cases (push.deleted || text_eq branch push.ref || is_zero_sha push.after)) [
      | inl y ↦ rw y ([], complete-created env d Status.ignored st, tt)
      | inr m ↦ rw m (elim (Bool-cases env.lists) [
        | inl l ↦ rw l (
            finish-Adds env push d _ st (
              start_all-Fits env push st.sources d (list_auto_deploy push.repository_id st.sources)
                (list_auto_deploy-Listed push.repository_id st.sources)))
        | inr l ↦ rw l ([], complete-created env d Status.failed st, tt)
      ])
    ]

-- Whatever a request for a push meets, each deployment that it adds is one of a source that is in the
-- table, belongs to the GitHub App, has automatic deployment switched on, and has the repository, its
-- name up to case, the installation and the branch of the push; it is at the commit of the push and
-- carries the delivery's id.
pub handle-Adds :
    (env : Env) (event : List ℕ) (d : ℕ) (push : Push) (st : State)
    → Adds push d st (handle env event d (some push) st).0
unfolding handle with_payload claim
handle-Adds env event d push st = elim (Bool-cases (text_eq event (codes "push"))) [
  | inr n ↦ rw n ([], refl, tt)
  | inl y ↦ rw y (elim (Bool-cases (is_invalid d push)) [
    | inl bad ↦ rw bad ([], refl, tt)
    | inr good ↦ rw good (elim (Bool-cases env.claims) [
      | inr k ↦ rw k ([], refl, tt)
      | inl k ↦ rw k (elim (Bool-cases (is_claimed d st.deliveries)) [
        | inl old ↦ rw old ([], refl, tt)
        | inr new ↦ rw new (
            process-Adds env push d (record st {
              deliveries = record { id = d; status = Status.received } ∷ st.deliveries;
            }))
      ])
    ])
  ])
]
