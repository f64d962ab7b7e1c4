-- ===== src/Deploy/Effects.antt =====
-- The calls that a deployment request makes on its dependencies, as an action that records them.
-- The dependencies (PostgreSQL, Docker, Caddy, the other goroutines and the clock behind them) are
-- an environment: any function of the calls that the request has made so far. A trace holds the
-- calls of one request, the newest first.
use mini_paa_s.Common.{ℕ, Bool, true, false, String, List, ◌∷◌, if◌then◌else◌}
use mini_paa_s.Domain.{
  AppStatus, App, DeploymentStatus, Deployment, ContainerInfo, ResourceLimits, RunOptions, Error,
  external,
}

pub data LogStage : Type 0 where
  queued cloning building starting health_check publishing cleanup error : LogStage

-- One constructor for each method of the interfaces that `DeploymentService` holds.
pub data Call : Type 0 where
  get_by_id get_active mark_cancelled request_cancel clear_candidate : ℕ → Call
  update_status : ℕ → DeploymentStatus → Call
  update_candidate : ℕ → ContainerInfo → Call
  promote_candidate update_running : ℕ → ContainerInfo → String → Call
  list_candidates : Call
  list_retention list_by_app : ℕ → Call
  append_log : ℕ → LogStage → Call
  acquire_slot release_slot acquire_rollout release_rollout : ℕ → Call
  build_image : String → String → Call
  decrypted : ℕ → Call
  run_container : RunOptions → ContainerInfo → Call
  stop_container remove_container : ℕ → Call
  wait_ready : ContainerInfo → Call
  remove_image : String → Call
  switch_route upsert_route : String → ℕ → Call
  remove_route : String → Call
  sync_routes : ℕ → ℕ → Call
  remove_routes : ℕ → Call
  get_app_by_name : String → Call
  get_app_by_id : ℕ → Call
  update_app_status : ℕ → AppStatus → Call
  update_public_url : ℕ → String → Call
  record_rollback : ℕ → ℕ → ℕ → Call
  prepare_source : String → String → Call
  update_git_metadata : ℕ → Call
  close_source : Call

-- The context that a call is given: the request's own, or `context.WithoutCancel` of it.
pub data Ctx : Type 0 where
  request detached : Ctx

pub record Entry : Type 0 where
  pub call : Call
  pub ctx : Ctx
  pub done : Bool

abbrev pub Trace : Type 0
Trace = List Entry

-- What a lookup of one row can answer.
pub data Lookup (A : Type 0) : Type 0 where
  found : A → Lookup A
  missing : Lookup A
  unavailable : Lookup A

pub record Env : Type 1 where
  -- whether the call returns a nil error
  pub succeeds : Trace → Ctx → Call → Bool
  -- whether `ctx.Err()` is not nil by now
  pub ctx_done : Trace → Bool
  -- whether the build context has passed its deadline
  pub build_expired : Trace → Bool
  pub deployment : Trace → ℕ → Lookup Deployment
  pub active : Trace → ℕ → Lookup Deployment
  pub app_by_name : Trace → String → Lookup App
  pub app_by_id : Trace → ℕ → Lookup App
  pub candidates : Trace → List Deployment
  pub retained : Trace → List Deployment
  pub deployments_of : Trace → List Deployment
  -- the container that Docker would start
  pub container : Trace → ContainerInfo
  pub public_url : Trace → String
  -- the lines of the build log, and whether the scanner ends without an error
  pub build_lines : Trace → List String
  pub scan_ok : Trace → Bool
  -- whether the text of the latest error is blank
  pub blank_error : Trace → Bool
  -- the Dockerfile of the prepared source
  pub snapshot_dockerfile : Trace → String

-- The fields of `DeploymentService` and which optional interfaces its dependencies have.
pub record Service : Type 0 where
  pub has_logs : Bool
  pub has_canceller : Bool
  pub has_candidate_store : Bool
  pub has_readiness : Bool
  pub has_atomic_router : Bool
  pub has_custom_domains : Bool
  pub has_dockerfile_builder : Bool
  pub has_git_store : Bool
  pub restart_policy : String
  pub restart_max_retries : ℕ
  pub runtime_limits : ResourceLimits
  pub image_retention : ℕ

pub data Result (A : Type 0) : Type 0 where
  ok : A → Result A
  err : Error → Result A

-- What was done before an error stays done, so the trace comes back beside the error too.
abbrev pub Action : Type 0 → Type 0
Action A = Trace → Result A × Trace

module _ {A : Type 0} where
  unfoldable pub pure : A → Action A
  pure a t = (ok a, t)

  unfoldable pub raise : Error → Action A
  raise e t = (err e, t)

  -- What the environment says by now.
  unfoldable pub gets : (Trace → A) → Action A
  gets f t = (ok (f t), t)

infixl 5 ◌>>=◌ ◌>>◌
unfoldable pub ◌>>=◌ : {A B : Type 0} → Action A → (A → Action B) → Action B
unfolding pure raise gets
◌>>=◌ m f t = let (r, t') = m t in elim r [ ok a ↦ f a t' | err e ↦ (err e, t') ]

abbrev pub ◌>>◌ : {A B : Type 0} → Action A → Action B → Action B
m >> k = m >>= λ _. k

-- `if err != nil { … }`
unfoldable pub or_else : {A : Type 0} → Action A → Action A → Action A
or_else m h t = let (r, t') = m t in elim r [ ok a ↦ (ok a, t') | err e ↦ h t' ]

-- `_ = f()`, or an error that is only logged
unfoldable pub ignore : {A : Type 0} → Action A → Action (Unit {0})
ignore m t = (ok tt, (m t).1)

-- `defer`: the second action runs when the first returns, with or without an error.
unfoldable pub deferred : {A : Type 0} → Action A → Action (Unit {0}) → Action A
deferred m last t = let (r, t') = m t in (r, (last t').1)

-- `errors.Join`: both run, and one failure is enough.
unfoldable pub joined : Action (Unit {0}) → Action (Unit {0}) → Action (Unit {0})
joined m n t =
    let (r, t') = m t in let (r', t'') = n t' in elim r [ ok _ ↦ (r', t'') | err e ↦ (err e, t'') ]

abbrev pub when : Bool → Action (Unit {0}) → Action (Unit {0})
when b m = if b then m else pure tt

abbrev pub answered : {A : Type 0} → Lookup A → Bool
answered (found _) = true
answered missing = false
answered unavailable = false

module _ (env : Env) where
  -- One call of a dependency.
  unfoldable pub perform : Ctx → Call → Action (Unit {0})
  perform ctx c t =
      if env.succeeds t ctx c
      then (ok tt, record { call = c; ctx = ctx; done = true } ∷ t)
      else (err external, record { call = c; ctx = ctx; done = false } ∷ t)

  -- A query, which answers with a row of the environment, with none, or with an error.
  unfoldable pub asked : {A : Type 0} → Ctx → Call → (Trace → Lookup A) → Action (Lookup A)
  asked ctx c f t = (ok (f t), record { call = c; ctx = ctx; done = answered (f t) } ∷ t)
