-- ===== src/Deploy.antt =====
-- service/deployment.go: the deployment pipeline, its rollback and its clean-up.
pub mod Effects
pub mod Steps
pub mod Build
pub mod Rollout
pub mod Rollback
pub mod View
pub mod Runs
pub mod Helpers
pub mod Restoring
pub mod Outcome
pub mod Stages
pub mod Candidate
pub mod Switchover
pub mod Endings
pub mod Guarantees
pub mod GitBuild
pub mod Stop
pub mod Recovery
mod Tests
mod GitTests
mod RollbackTests
