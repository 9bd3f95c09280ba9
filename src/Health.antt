-- ===== src/Health.antt =====
-- packages/orchestrator/src/workers/health-worker.ts: the check that compares the instance id in
-- Redis with the one in Postgres.
pub mod Restart
use vmcp.Base.{
  Bool, true, false, not, ◌&&◌, Option, none, some, List, [], ◌∷◌, Text, text_eq, to_lower,
  if◌then◌else◌,
}
use vmcp.Lock.Redis.{Redis}
use vmcp.Lock.Postgres.{LockState}
use vmcp.Lock.Service.{
  Env, Result, returns, throws, truthy, ensure_instance_id, rotate_instance_id_on_failover,
}

-- What the check did: it restored the id of Postgres, rotated it (or failed to), or let both be.
pub data CheckResult : Type 0 where
  restored : CheckResult
  rotated : Result Text → CheckResult
  unchanged : CheckResult

check_ids : Env → Option Text → Option Text → LockState → CheckResult × LockState
check_ids e none (some pg) s =
    (restored, record s { redis = record (s.redis) { instance_id = some pg } })
check_ids e (some redis_id) (some pg) s =
    let (result, rotated') = rotate_instance_id_on_failover e s in
    if not (text_eq (to_lower redis_id) (to_lower pg))
    then (rotated result, rotated')
    else (unchanged, (ensure_instance_id e s).1)
check_ids e redis_id none s = (unchanged, (ensure_instance_id e s).1)

unfoldable pub check_redis_failover : Env → LockState → CheckResult × LockState
unfolding check_ids
check_redis_failover e s = check_ids e (truthy s.redis.instance_id) (truthy s.pg_instance) s
