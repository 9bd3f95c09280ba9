-- ===== src/Job/Service/Heartbeat.antt =====
-- `heartbeat` of packages/orchestrator/src/services/job-service.ts.
use vmcp.Base.{Option, none, true, ◌≡◌, refl, false, some, Text, Bool-cases, inl, inr}
use vmcp.Lock.Service.{Env, truthy, validate_fencing_token}
use vmcp.Lock.Service.Validation.{accepted}
use vmcp.Lock.Service.Ensure.{ensure-ledger}
use vmcp.Lock.Postgres.{LedgerRow, LockState, latest}
use vmcp.Job.State.{Job, World, Outside, ok, find_job, owner_id}
use vmcp.Job.State.Table.{find_job-update_job}
use vmcp.Job.Service.{heartbeat, heartbeat_found, beat, beat_lock, mark_beat}

-- The locks, their tokens and counters in Redis, the table of locks and the ledger are the same.
abbrev pub SameLocks : LockState → LockState → Type 0
SameLocks s s' =
    (s'.redis.owners ≡ s.redis.owners)
    × (s'.redis.tokens ≡ s.redis.tokens)
    × (s'.redis.seq ≡ s.redis.seq)
    × (s'.pg_locks ≡ s.pg_locks)
    × (s'.ledger ≡ s.ledger)

latest-SameLocks :
    (e : Env) (key owner token : Text) (row : Option LedgerRow) (s : LockState)
    → latest key s.ledger ≡ row
    → SameLocks s (validate_fencing_token e key owner token s).1
unfolding validate_fencing_token
latest-SameLocks e key owner token none s h = rw h (refl, refl, refl, refl, refl)
latest-SameLocks e key owner token (some row) s h =
    let (ledger, locks, owners, tokens, seq) = ensure-ledger e s in
    rw h (owners, tokens, seq, locks, ledger)

validate-SameLocks :
    (e : Env) (key owner token : Text) (s : LockState)
    → SameLocks s (validate_fencing_token e key owner token s).1
validate-SameLocks e key owner token s =
    latest-SameLocks e key owner token (latest key s.ledger) s refl

-- A heartbeat with the token of a job that holds a lock answers whether the token is accepted. If
-- so, the job's heartbeat is now and its status stays. If not, no job is changed, nor any lock, its
-- expiry, token or counter in Redis, nor the table of locks or the ledger in Postgres.
pub heartbeat-token :
    (o : Outside) (id token key : Text) (w : World) (j : Job)
    → find_job id w.jobs ≡ some j
    → truthy (some token) ≡ some token
    → truthy j.lock_key ≡ some key
    → let ok' = accepted o.env key (owner_id id) token w.locks in
      let (r, w') = heartbeat o id (some token) w in
      (r ≡ ok ok')
      × (ok' ≡ true
          → (row : Job) × (find_job id w'.jobs ≡ some row)
            × (row.last_heartbeat_at ≡ some o.env.now)
            × (row.status ≡ j.status))
      × (ok' ≡ false → (w'.jobs ≡ w.jobs) × SameLocks w.locks w'.locks)
unfolding heartbeat heartbeat_found beat beat_lock
heartbeat-token o id token key w j found t k =
    rw (found, t, k)
      (elim (Bool-cases (accepted o.env key (owner_id id) token w.locks)) [
        | inl e ↦ rw e (
          refl,
          λ _. (
            mark_beat o j,
            find_job-update_job id (mark_beat o) w.jobs j (λ k. refl) found,
            refl,
            refl,
          ),
          λ h. cc,
        )
        | inr e ↦
            rw e
              (refl, λ h. cc, λ _. (refl, validate-SameLocks o.env key (owner_id id) token w.locks))
      ])
