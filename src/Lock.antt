-- ===== src/Lock.antt =====
-- The distributed lock of packages/orchestrator: the Redis scripts of src/lua, the Postgres ledger
-- and src/services/lock-service.ts, which writes both.
pub mod Redis
pub mod Postgres
pub mod Failover
pub mod Service
