-- ===== src/Merge.antt =====
-- packages/orchestrator/src/services/merge-apply.ts, services/merge-outbox-dispatch.ts and
-- workers/merge-outbox-worker.ts: how the patches of overrides reach the scenes of a project.
pub mod Files
pub mod Run
pub mod Envelope
pub mod Outbox
pub mod Request
