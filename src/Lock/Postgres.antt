-- ===== src/Lock/Postgres.antt =====
-- The tables that packages/orchestrator/src/services/lock-service.ts reads and writes, and its SQL.
-- `ledger` is `lock_fencing_seq` ordered by `acquired_at DESC`: the newest row stands first.
use vmcp.Base.{
  ℕ, zero, suc, Bool, true, false, not, ◌&&◌, Option, none, some, List, [], ◌∷◌, filter, Text,
  text_eq, if◌then◌else◌,
}
use vmcp.Lock.Redis.{Redis}

pub data Reason : Type 0 where
  acquired_fresh acquired_again stale_recovered admin_reclaim failover : Reason

pub record LedgerRow : Type 0 where
  pub lock_key : Text
  pub owner : Text
  pub token : Text
  pub instance_id : Text
  pub reason : Reason
  pub acquired_at : ℕ
  pub released_at : Option ℕ
  pub admin_identity : Option Text

pub record PgLock : Type 0 where
  pub lock_key : Text
  pub owner_id : Text
  pub fencing_token : Text
  pub job_id : Option Text
  pub last_heartbeat_at : ℕ
  pub acquired_at : ℕ
  pub ttl_seconds : ℕ

-- A row of `audit_logs`; its JSON detail is left out.
pub record AuditRow : Type 0 where
  pub action : Text
  pub resource_id : Text

pub record LockState : Type 0 where
  pub redis : Redis
  pub ledger : List LedgerRow
  pub pg_locks : List PgLock
  pub pg_instance : Option Text
  pub audits : List AuditRow
  pub cached : Option Text  -- the field `instanceId` of the service

-- `WHERE lock_key = $1 ORDER BY acquired_at DESC LIMIT 1`
unfoldable pub latest : Text → List LedgerRow → Option LedgerRow
latest key [] = none
latest key (row ∷ rows) = if text_eq row.lock_key key then some row else latest key rows

-- `COALESCE(EXCLUDED.job_id, pg_locks.job_id)`
abbrev coalesce : Option Text → Option Text → Option Text
coalesce none old = old
coalesce (some j) old = some j

-- `INSERT … ON CONFLICT (lock_key) DO UPDATE`: `acquired_at` stays as it was.
unfoldable pub upsert_lock : PgLock → List PgLock → List PgLock
upsert_lock new [] = new ∷ []
upsert_lock new (old ∷ rows) =
    let rest = upsert_lock new rows in
    if text_eq old.lock_key new.lock_key
    then record new { job_id = coalesce new.job_id old.job_id; acquired_at = old.acquired_at }
      ∷ rows
    else old ∷ rest

-- `DELETE FROM pg_locks WHERE lock_key = $1`
unfoldable pub delete_locks : Text → List PgLock → List PgLock
delete_locks key rows = filter (λ row. not (text_eq row.lock_key key)) rows

-- `DELETE FROM pg_locks WHERE lock_key = $1 AND owner_id = $2`
unfoldable pub delete_owned_locks : Text → Text → List PgLock → List PgLock
delete_owned_locks key owner rows =
    filter (λ row. not (text_eq row.lock_key key && text_eq row.owner_id owner)) rows

abbrev is_open : Option ℕ → Bool
is_open none = true
is_open (some t) = false

-- `UPDATE lock_fencing_seq SET released_at = now() WHERE lock_key = $1 AND owner = $2 AND
-- released_at IS NULL`
unfoldable pub mark_released : ℕ → Text → Text → List LedgerRow → List LedgerRow
mark_released now key owner [] = []
mark_released now key owner (row ∷ rows) =
    (if text_eq row.lock_key key && (text_eq row.owner owner && is_open row.released_at)
      then record row { released_at = some now }
      else row)
    ∷ mark_released now key owner rows

-- `LIMIT $2`
abbrev pub take {ℓ} : {A : Type ℓ} → ℕ → List A → List A
take zero xs = []
take (suc n) [] = []
take (suc n) (x ∷ xs) = x ∷ take n xs

-- `getHistory`
unfoldable pub get_history : Text → ℕ → List LedgerRow → List LedgerRow
get_history key limit rows = take limit (filter (λ row. text_eq row.lock_key key) rows)
