-- ===== src/Job.antt =====
-- packages/orchestrator/src/services/job-service.ts: the life of a generation job.
pub mod State
pub mod Calls
pub mod Dispatch
pub mod Update
pub mod Failure
pub mod Service
