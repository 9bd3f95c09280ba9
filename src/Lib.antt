-- ===== src/Lib.antt =====
-- Verification library of VMCP, the orchestrator of a pipeline that generates assets for Godot
-- projects.
--
-- The program. Clients create generation jobs for a project; the job service
-- (packages/orchestrator/src/services/job-service.ts) runs at most one of them at a time for each
-- project. To dispatch a job it asks the gate (services/dependency-gate.ts) whether the job that it
-- depends on is completed, chooses a tier of workers (services/scheduler-service.ts), takes the
-- project's generation lock from the lock service (services/lock-service.ts) and starts a workflow.
-- The worker reports by status updates and heartbeats, each with the fencing token that came with
-- the lock. A failed attempt is repeated until the attempts are used up, and then the job becomes a
-- dead letter; a job that ends gives its locks back and lets a blocked one go on. The lock service
-- keeps the locks in Redis, where three scripts (packages/orchestrator/src/lua) run atomically, and
-- a ledger of every grant in Postgres, by which tokens are judged. The health worker
-- (workers/health-worker.ts) compares the instance ids in both after a failover of Redis.
-- Each request passes a rate limit (middleware/rate-limit.ts) that a script of Redis keeps. A patch
-- of a scene file of a project is merged by services/tscn-merge.ts: on the spot, or by the merge
-- outbox (workers/merge-outbox-worker.ts), which writes the file or sends a workflow to its host.
-- packages/shared/src has the statuses, the roles, the error catalogue and the tokens.
--
-- The files.
--   Base      shared names, lists, texts as lists of character codes, decimal numbers
--   Errors    packages/shared/src/errors.ts: ERROR_CATALOG, errorPayload
--   Status    packages/shared/src/job-status.ts: the status lists, JOB_STATUS_TRANSITIONS, the roles
--   Fencing   packages/shared/src/fencing.ts: formatFencingToken, parseFencingToken, tokensMatch,
--             isTokenValidForInstance
--   Gate      services/dependency-gate.ts: evaluateDependencyGate, canPromoteBlockedJob
--   Lock      Redis: acquire_lock.lua, release_lock.lua, bump_fencing.lua, each one function on a
--             store; Postgres: the tables and the SQL; Failover: buildFailoverLedgerRows; Service:
--             the class LockService, a function of the environment and a state for each method
--   Health    workers/health-worker.ts: checkRedisFailover
--   Scheduler services/scheduler-service.ts: selectTier, setTierEnabled, recordProbe
--   Job       services/job-service.ts. State: the rows, the tables and the monad of the methods, in
--             which an exception keeps the writes before it; Calls: what the methods call of each
--             other; Dispatch: dispatchJob; Update: updateStatus; Failure: handleFailure and
--             promoteBlockedJobs; Service: create, heartbeat, handleAdminReclaim, retryDeadLetter,
--             verifyCallbackToken, and `run`, which ties the calls together
--   Sweep     workers/health-worker.ts: scanStaleLocks, resolveDispatch
--   RateLimit packages/orchestrator/src/lua/rate_limit.lua and middleware/rate-limit.ts: the two hooks
--   Scene     services/tscn-merge.ts. Document: parseTscn, serializeTscn; Header: parseHeaderAttrs,
--             nodePathFromHeader; Properties: setPropertyLines; Patch: mergeTscn, applyTscnPatch
--   PathSecurity packages/shared/src/path-security.ts
--   Merge     Files: services/merge-apply.ts; Envelope: services/merge-outbox-dispatch.ts; Run: the
--             tables and the monad of the worker; Outbox: workers/merge-outbox-worker.ts, its rows
--             in Outbox and its query and drain in Outbox/Drain; Request: services/merge-service.ts
--   Versions  packages/shared/src/semver-range.ts
--   DeadLetters services/dead-letter-service.ts: escalateUnresolvedDeadLetters, with its scans by the
--             health worker
--   Examples  runs at concrete inputs
-- A child module of a component proves what its name says; `Runs` of Dispatch, Update and Failure
-- are the lemmas on one method, by what its calls do.
--
-- Choices. Times are natural numbers, of seconds where the file says no other unit, and counters
-- are unbounded, as the source keeps them below 2 ^ 53. A map of Redis is a function from keys. A
-- database transaction takes effect or fails as a whole, by a flag of the environment. The methods
-- of the job service call each other in a circle, so `run` carries fuel; Job.Service.Termination
-- shows how much is enough. Within one call the time stands still and no other call runs in
-- between.
--
-- Left out. HTTP, GitHub, object storage, secrets and mail are parameters or messages; the JSON
-- details of audit rows and alerts are not kept. The other workers and services of the orchestrator
-- (asset ids, extensions, authentication), the dashboard, the tool server, the sandbox and the
-- programs in Go are not modelled.
pub mod Base
pub mod Errors
pub mod Status
pub mod Gate
pub mod Fencing
pub mod Lock
pub mod Health
pub mod Scheduler
pub mod Job
pub mod Sweep
pub mod RateLimit
pub mod Scene
pub mod PathSecurity
pub mod Merge
pub mod Versions
pub mod DeadLetters
pub mod Examples
