-- ===== src/Lib.antt =====
-- The control plane of MiniPaaS (api/, Go): an HTTP server that builds the image of an app from
-- uploaded or Git sources, starts a candidate container of it, switches the routes of the reverse
-- proxy to the candidate and retires the release before it. A deployment waits for a build slot,
-- builds while it holds the slot, and rolls out while it holds a lock of its app. PostgreSQL keeps
-- the deployments, Docker the containers, Caddy the routes.
--
-- Which file models what:
-- - Common: names that are shared, Boolean tests on native numbers, lists measured by them, and
--   `strings.TrimSpace` on texts.
-- - Domain: api/internal/domain (apps, deployments, errors) and the option records of
--   api/internal/docker/client.go. Ids are numbers, 0 being the zero value that the code tests for.
-- - BuildQueue: api/internal/service/build_queue.go. The heap of waiters and the queue are one state;
--   an event is one critical section of the mutex, so a list of events is an interleaving of the
--   goroutines. Dispatch has the invariant and the dispatcher in closed form, Moves and Invariant
--   that every event keeps it, Slots and Handover what callers rely on.
-- - Deploy: api/internal/service/deployment.go. Effects has the calls that a request makes on its
--   dependencies: an action takes the calls made so far to a result and more calls, and each
--   dependency is any function of the calls made so far, so a theorem covers every failure, every
--   cancellation and every answer of other requests. Steps, Build and Rollout translate
--   RunBuildWithDockerfile, Rollback has Rollback, Stop has StopApp, Recovery has RecoverCandidates.
--   GitBuild is `run` of api/internal/service/git_source.go, a clone with the pipeline after it.
--   View sums a trace up for one deployment, each route with the app that it is of; a refused call
--   of a router that deletes a route before it sets it leaves the route uncertain. Runs has the rules
--   by which the summary of an action follows from those of its parts, Helpers, Restoring, Outcome,
--   Stages, Candidate, Switchover and Endings apply them, and the files called Guarantees state what
--   follows for whole requests.
-- - DeploymentStore: api/internal/store/postgres/deployment.go with api/sql/queries/deployment.sql,
--   as functions of the table. Cancellation and Active have its theorems, Status
--   the lemma that HealthChecker uses.
-- - Executions: api/internal/service/deployment.go, beginExecution and Cancel, as events over the
--   registry of the executions. Registered has its theorems.
-- - RateLimiter: api/internal/handler/middleware/ratelimit.go. The map of clients is a list in the
--   order of a range over it. Clients has the map, Refusals its bound and
--   the delays, Window the quota.
-- - Auth: api/internal/authctx/context.go, api/internal/handler/middleware/auth.go,
--   api/internal/service/authenticator.go and the authentication and the scopes of
--   api/internal/service/api_token.go. Scopes and Guards have its theorems.
-- - ApiTokens: the rest of api/internal/service/api_token.go over
--   api/internal/store/postgres/api_token.go. Lookup is about the table, Requests lists what may happen
--   to it, Life follows one token.
-- - Users: api/internal/service/auth.go over api/internal/store/postgres/user.go. Table is about the
--   rows, Requests about what others do, Sessions about passwords and sessions.
-- - Apps: api/internal/service/app.go, api/internal/service/capacity.go and
--   api/internal/store/postgres/app.go. Creation says what a creation comes to; Quota, Isolation and
--   Names follow any requests of any users.
-- - EnvVars: api/internal/service/env.go, api/internal/crypto/aes.go and
--   api/internal/store/postgres/env.go. Table is about the rows, View about their values, Refinement
--   about any requests. AES-GCM is a parameter that opens what it sealed under the same nonce.
-- - CustomDomains: api/internal/service/custom_domain.go over the table of the domains and the routes
--   that the router holds. Sync, Removal and Verification have its theorems.
-- - SourceGit: the normalisers and the archive of api/internal/sourcegit/source.go. Paths, Inside and
--   Stable are about paths, Branches, Repositories and Archive about the rest.
-- - GitHubApp: api/internal/githubapp/state.go, api/internal/service/github_app.go, the loop over the
--   pages of api/internal/githubapp/client.go and api/internal/store/postgres/github_installation.go.
-- - GitSources: GitSourceService of api/internal/service/git_source.go over
--   api/internal/store/postgres/git_source.go. It uses SourceGit and what GitHubApp answers; Stored is
--   about one source, Runs about any requests, AutoDeploy about the query of the webhook.
-- - GitDeployments: the creations and Retry of api/internal/service/git_source.go and
--   api/internal/service/deployment.go over api/internal/store/postgres/deployment.go. Origins is about
--   what the rows repeat, Attempts about any requests. The counter of attempts is an `int32`.
-- - Webhook: api/internal/service/github_webhook.go, api/internal/handler/github_webhook.go,
--   api/internal/githubapp/webhook.go and api/internal/store/postgres/github_webhook.go. Requests has the
--   signature and the answer of a request, Once, Matching and Signatures the theorems. It reads the
--   sources of GitSources.
-- - Reconcile: api/internal/service/reconcile.go.
-- - HealthChecker: api/internal/health/checker.go, one check over the table of the deployments and the
--   status of each app. Marking has its theorems.
-- - Metrics: the summary of api/internal/service/metrics.go; Summary compares it with counts.
--
-- Every loop is structural recursion over a list, but the loop over the pages of GitHub's answers,
-- `pages_from`, which runs on fuel; its theorem states how much is enough. The limit of the build
-- queue is a natural number; the code also takes negative ones, for which it uses 1. The limit of 1024 tracked
-- clients, the minimum of one build slot and the prefix of API tokens are those of the code.
--
-- Not modelled: the text of messages and logs, durations and timestamps except where they are
-- compared, the HTTP handlers that only decode and encode, the statistics of containers, WebSocket
-- streams, the configuration, the Docker, Caddy and GitHub clients, the generated SQL code, the CLI
-- and the dashboard. AES-GCM, SHA-256, base64, lower case, bcrypt, JWT, HMAC, JSON, DNS and `net.ParseIP` are
-- parameters of the definitions that use them. A context is given by what `ctx.Err()` answers after
-- each call.
pub mod Common
pub mod Domain
pub mod BuildQueue
pub mod Deploy
pub mod DeploymentStore
pub mod Executions
pub mod RateLimiter
pub mod Auth
pub mod ApiTokens
pub mod Users
pub mod Apps
pub mod EnvVars
pub mod CustomDomains
pub mod SourceGit
pub mod GitHubApp
pub mod GitSources
pub mod GitDeployments
pub mod Webhook
pub mod Reconcile
pub mod HealthChecker
pub mod Metrics
