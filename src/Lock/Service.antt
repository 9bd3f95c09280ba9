-- ===== src/Lock/Service.antt =====
-- The class `LockService` of packages/orchestrator/src/services/lock-service.ts.
pub mod Ensure
pub mod Validation
pub mod Effects
pub mod Acquire
pub mod Refusal
use vmcp.Base.{
  ℕ, Bool, true, false, not, Option, none, some, List, [], ◌∷◌, ◌++◌, map, Text, codes, text_eq,
  to_lower, get_or, if◌then◌else◌,
}
use vmcp.Fencing.{ParsedFencingToken, parse_fencing_token}
use vmcp.Lock.Redis.{
  Redis, Reply, no_instance_id, locked, granted, held, acquire_lock, release_lock, bump_fencing,
  get,
}
use vmcp.Lock.Postgres.{
  Reason, acquired_fresh, acquired_again, stale_recovered, admin_reclaim, failover, LedgerRow,
  PgLock, LockState, latest, upsert_lock, delete_locks, delete_owned_locks, mark_released,
}
use vmcp.Lock.Failover.{build_failover_ledger_rows}

-- What a call meets outside: the time, the next random UUID, the id that another process writes to
-- Redis between a `GET` and a `SET NX`, and whether the Postgres transaction commits.
pub record Env : Type 0 where
  pub now : ℕ
  pub uuid : Text
  pub raced_id : Option Text
  pub commits : Bool
  pub release_fault : Option Text  -- a fault of Redis in `releaseRedisOnly`, before its script runs

pub data Result {ℓ} (A : Type ℓ) : Type ℓ where
  returns : A → Result A
  throws : Text → Result A

-- A text that `if (!id)` lets pass.
abbrev pub truthy : Option Text → Option Text
truthy none = none
truthy (some []) = none
truthy (some (c ∷ s)) = some (c ∷ s)

set_redis_instance : Option Text → Redis → Redis
set_redis_instance id r = record r { instance_id = id }

-- `SET NX` and what follows it: the id of another process wins, else Postgres gets ours.
bootstrap_instance : Option Text → Text → LockState → Text × LockState
unfolding set_redis_instance
bootstrap_instance (some other) id s =
    (other, record s { redis = set_redis_instance (some other) s.redis; cached = some other })
bootstrap_instance none id s = (
  id,
  record s {
    redis = set_redis_instance (some id) s.redis;
    pg_instance = some id;
    cached = some id;
  },
)

fetch_instance : Env → Option Text → LockState → Text × LockState
unfolding bootstrap_instance
fetch_instance e (some id) s = (id, record s { cached = some id })
fetch_instance e none s = bootstrap_instance e.raced_id (get_or s.pg_instance e.uuid) s

ensure_from : Env → Option Text → LockState → Text × LockState
unfolding fetch_instance
ensure_from e (some id) s = (id, s)
ensure_from e none s = fetch_instance e (truthy s.redis.instance_id) s

unfoldable pub ensure_instance_id : Env → LockState → Text × LockState
unfolding ensure_from
ensure_instance_id e s = ensure_from e (truthy s.cached) s

pub data AcquireResult : Type 0 where
  acquired : Text → AcquireResult
  reentrant : Text → AcquireResult
  denied : AcquireResult
  error : Text → AcquireResult

abbrev instance_of : Option ParsedFencingToken → Text → Text
instance_of none fallback = fallback
instance_of (some p) fallback = p.instance_id

-- The rows that the transaction of `acquire` writes.
record_grant :
    Env → Text → Text → ℕ → Option Text → Text → Text → Reason → Text → LockState → LockState
record_grant e key owner ttl job token instance_id reason action s = record s {
  ledger =
      record {
        lock_key = key;
        owner = owner;
        token = token;
        instance_id = instance_id;
        reason = reason;
        acquired_at = e.now;
        released_at = none;
        admin_identity = none;
      }
      ∷ s.ledger;
  pg_locks =
      upsert_lock
        (record {
          lock_key = key;
          owner_id = owner;
          fencing_token = token;
          job_id = job;
          last_heartbeat_at = e.now;
          acquired_at = e.now;
          ttl_seconds = ttl;
        })
        s.pg_locks;
  audits = record { action = action; resource_id = key } ∷ s.audits;
}

-- `releaseRedisOnly` behind a transaction that failed: where it throws too, its error leaves.
release_redis_only : Env → Text → Text → Option Text → LockState → Result AcquireResult × LockState
release_redis_only e key owner none s = (
  throws (codes "transaction failed"),
  record s { redis = (release_lock e.now key owner s.redis).1 },
)
release_redis_only e key owner (some message) s = (throws message, s)

-- The reply of the script, written to Postgres; a failed transaction gives the Redis lock back.
settle_acquire :
    Env
    → Text
    → Text
    → ℕ
    → Option Text
    → Option Reason
    → Text
    → Reply
    → LockState
    → Result AcquireResult × LockState
unfolding record_grant release_redis_only
settle_acquire e key owner ttl job reason current no_instance_id s =
    (returns (error (codes "NO_INSTANCE_ID")), s)
settle_acquire e key owner ttl job reason current locked s = (returns denied, s)
settle_acquire e key owner ttl job reason current (granted token) s =
    if e.commits
    then (
      returns (acquired token),
      record_grant e key owner ttl job token (instance_of (parse_fencing_token token) current)
          (get_or reason acquired_fresh) (codes "lock.acquired") s,
    )
    else release_redis_only e key owner e.release_fault s
settle_acquire e key owner ttl job reason current (held token) s =
    if e.commits
    then (
      returns (reentrant token),
      record_grant e key owner ttl job token (instance_of (parse_fencing_token token) current)
          (get_or reason acquired_again) (codes "lock.reentrant") s,
    )
    else release_redis_only e key owner e.release_fault s

unfoldable pub acquire :
    Env
    → Text
    → Text
    → ℕ
    → Option Text
    → Option Reason
    → LockState
    → Result AcquireResult × LockState
unfolding settle_acquire
acquire e key owner ttl job reason s =
    let (current, s') = ensure_instance_id e s in
    let (reply, redis') = acquire_lock e.now ttl key owner s'.redis in
    settle_acquire e key owner ttl job reason current reply (record s' { redis = redis' })

unfoldable pub release : Env → Text → Text → LockState → Bool × LockState
release e key owner s =
    let (released, redis') = release_lock e.now key owner s.redis in
    if released
    then (
      true,
      record s {
        redis = redis';
        ledger = mark_released e.now key owner s.ledger;
        pg_locks = delete_owned_locks key owner s.pg_locks;
      },
    )
    else (false, record s { redis = redis' })

abbrev reclaim_action : Reason → Text
reclaim_action admin_reclaim = codes "lock.admin_reclaim"
reclaim_action _ = codes "lock.stale_recovered"

record_reclaim : Env → Text → Text → Text → Reason → Option Text → LockState → LockState
record_reclaim e key token instance_id reason admin s = record s {
  ledger =
      record {
        lock_key = key;
        owner = codes "system";
        token = token;
        instance_id = instance_id;
        reason = reason;
        acquired_at = e.now;
        released_at = none;
        admin_identity = admin;
      }
      ∷ s.ledger;
  pg_locks = delete_locks key s.pg_locks;
  audits = record { action = reclaim_action reason; resource_id = key } ∷ s.audits;
}

settle_reclaim :
    Env → Text → Reason → Option Text → Text → Reply → LockState → Result Text × LockState
unfolding record_reclaim
settle_reclaim e key reason admin current (granted token) s =
    if e.commits
    then (
      returns token,
      record_reclaim e key token (instance_of (parse_fencing_token token) current) reason admin s,
    )
    else (throws (codes "transaction failed"), s)
settle_reclaim e key reason admin current _ s =
    (throws (codes "Failed to bump fencing token: NO_INSTANCE_ID"), s)

unfoldable pub reclaim : Env → Text → Reason → Option Text → LockState → Result Text × LockState
unfolding settle_reclaim
reclaim e key reason admin s =
    let (current, s') = ensure_instance_id e s in
    let (reply, redis') = bump_fencing key s'.redis in
    settle_reclaim e key reason admin current reply (record s' { redis = redis' })

-- A reclaim or a failover ends the claim of every earlier holder.
abbrev pub invalidates : Reason → Bool
invalidates stale_recovered = true
invalidates admin_reclaim = true
invalidates failover = true
invalidates _ = false

pub accepts_row : LedgerRow → Text → Text → Text → Bool
accepts_row row current owner presented =
    if not (text_eq (to_lower row.instance_id) (to_lower current))
    then false
    else if invalidates row.reason
    then false
    else if not (text_eq row.owner owner)
    then false
    else text_eq row.token presented

validate_latest : Env → Option LedgerRow → Text → Text → LockState → Bool × LockState
unfolding accepts_row
validate_latest e none owner presented s = (false, s)
validate_latest e (some row) owner presented s =
    let (current, s') = ensure_instance_id e s in (accepts_row row current owner presented, s')

unfoldable pub validate_fencing_token : Env → Text → Text → Text → LockState → Bool × LockState
unfolding validate_latest
validate_fencing_token e key owner presented s =
    validate_latest e (latest key s.ledger) owner presented s

abbrev active_keys : List PgLock → List Text
active_keys rows = map (λ row. row.lock_key) rows

-- Both writes of a failover: Postgres in one transaction, then Redis and the cached id.
unfoldable pub rotate_instance_id_on_failover : Env → LockState → Result Text × LockState
unfolding set_redis_instance
rotate_instance_id_on_failover e s =
    if e.commits
    then (
      returns e.uuid,
      record s {
        redis = set_redis_instance (some e.uuid) s.redis;
        ledger = build_failover_ledger_rows e.now e.uuid (active_keys s.pg_locks) ++ s.ledger;
        pg_locks = [];
        pg_instance = some e.uuid;
        audits =
            record { action = codes "redis.failover_instance_rotated"; resource_id = e.uuid }
            ∷ s.audits;
        cached = some e.uuid;
      },
    )
    else (throws (codes "transaction failed"), s)

pub data LockHealth : Type 0 where
  healthy stale : LockHealth

abbrev health_of : Option Text → Text → LockHealth
health_of none owner = stale
health_of (some current) owner = if text_eq current owner then healthy else stale

-- The health that `listActiveLocks` shows of each row.
unfoldable pub lock_health : ℕ → Redis → PgLock → LockHealth
lock_health now r row = health_of (truthy (get now (r.owners row.lock_key))) row.owner_id

unfoldable pub generation_lock_key : Text → Text
generation_lock_key project_id = codes "project:" ++ (project_id ++ codes ":generation")

unfoldable pub target_path_lock_key : Text → Text
target_path_lock_key project_id = codes "project:" ++ (project_id ++ codes ":target-path")
