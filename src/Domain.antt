-- ===== src/Domain.antt =====
-- domain/app.go, domain/errors.go, docker/client.go (the option and result types): the data that
-- the services exchange. A UUID and a Docker container id are only ever compared, so they are
-- numbers; 0 is `uuid.Nil` and the empty container id. Times are not read by the deployment code.
use mini_paa_s.Common.{ℕ, Bool, false, String, Option, none}

pub data AppStatus : Type 0 where
  idle running failed stopped : AppStatus

pub record App : Type 0 where
  pub id : ℕ
  pub name : String
  pub status : AppStatus

pub data DeploymentStatus : Type 0 where
  pending building cancel_requested cancelled running failed superseded rolled_back stopped :
      DeploymentStatus

pub record Deployment : Type 0 where
  pub id : ℕ
  pub app_id : ℕ
  pub image_tag : String
  pub status : DeploymentStatus
  pub container_id : ℕ
  pub port : ℕ
  pub candidate_container_id : ℕ
  pub candidate_port : ℕ
  pub commit_sha : String
  pub source_type : String
  pub repository : String
  pub branch : String
  pub trigger_type : String
  pub attempt : ℕ
  pub retry_of : Option ℕ
  pub cancel_requested : Bool
  pub duration_ms : ℕ

-- The zero value `domain.Deployment{}`; its status is the empty string, which no test of the code
-- equals, and `pending` is put in its place where no status is read.
abbrev pub no_deployment : Deployment
no_deployment = record {
  id = 0;
  app_id = 0;
  image_tag = "";
  status = DeploymentStatus.pending;
  container_id = 0;
  port = 0;
  candidate_container_id = 0;
  candidate_port = 0;
  commit_sha = "";
  source_type = "";
  repository = "";
  branch = "";
  trigger_type = "";
  attempt = 0;
  retry_of = none;
  cancel_requested = false;
  duration_ms = 0;
}

pub record ContainerInfo : Type 0 where
  pub id : ℕ
  pub port : ℕ

pub record ResourceLimits : Type 0 where
  pub memory_bytes : ℕ
  pub nano_cpus : ℕ
  pub pids_limit : ℕ

-- The three labels that the services put on a container are its app and its deployment, beside
-- `com.minipaas.managed`, which is always true. `fresh` tells the two ways to name a container
-- apart: after the deployment, or after a fresh UUID (a rollback).
pub record RunOptions : Type 0 where
  pub image : String
  pub fresh : Bool
  pub restart_policy : String
  pub restart_max_retries : ℕ
  pub limits : ResourceLimits
  pub label_app : String
  pub label_deployment : ℕ

-- The sentinel errors that the modelled services return, and the wrapped failure of a step.
pub data Stage : Type 0 where
  mark_building build_image read_build_log decrypt_env get_active run_container persist_candidate
        readiness switch_route sync_custom_domains mark_running wait_for_rollout candidate_cancelled
        publish_cancelled promote_candidate remove_route remove_custom_routes list_deployments
        remove_container mark_stopped mark_app_stopped clear_public_url prepare_source
        git_metadata :
      Stage

pub data Error : Type 0 where
  deployment_not_found deployment_active deployment_not_rollbackable deployment_not_cancellable
        deployment_cancelled app_not_found no_image_tag build_timeout external :
      Error
  step_failed : Stage → Error
