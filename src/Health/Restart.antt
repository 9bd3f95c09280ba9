-- ===== src/Health/Restart.antt =====
-- A restart of Redis that loses its data, and what the check of
-- packages/orchestrator/src/workers/health-worker.ts makes of it.
use vmcp.Base.{ℕ, ◌≡◌, refl, ◌∙◌, ◌⊎◌, true, Option, none, some, Text, arith}
use vmcp.Fencing.{format_fencing_token}
use vmcp.Fencing.RoundTrip.{IsUuid}
use vmcp.Lock.Redis.{Redis}
use vmcp.Lock.Postgres.{LockState}
use vmcp.Lock.Failover.{is_truthy}
use vmcp.Lock.Service.{Env, returns, ensure_instance_id, acquired, acquire}
use vmcp.Lock.Service.Ensure.{truthy_of}
use vmcp.Lock.Service.Validation.{accepted}
use vmcp.Lock.Service.Refusal.{acquire-free}
use vmcp.Lock.Service.Acquire.{ready, acquire-accepted, uuid-IsTruthy}
use vmcp.Health.{check_redis_failover, restored}

-- The store of a Redis that came up empty.
abbrev pub empty_redis : Redis
empty_redis = record {
  owners = λ k. none;
  tokens = λ k. none;
  seq = λ k. 0;
  instance_id = none;
  bootstrap_id = none;
}

abbrev pub restart : LockState → LockState
restart s = record s { redis = empty_redis }

-- The state after such a restart and the check.
abbrev pub revived : Text → LockState → LockState
revived id s = record s { redis = record empty_redis { instance_id = some id } }

check-restart :
    (e : Env) (s : LockState) (id : Text)
    → is_truthy id ≡ true
    → s.pg_instance ≡ some id
    → check_redis_failover e (restart s) ≡ (restored, revived id s)
unfolding check_redis_failover
check-restart e s id t h = ground (arith, truthy_of id t)

ready-revived :
    (e : Env) (s : LockState) (id : Text)
    → is_truthy id ≡ true
    → (s.cached ≡ none) ⊎ (s.cached ≡ some id)
    → (ensure_instance_id e (revived id s)).0 ≡ id
unfolding ensure_instance_id
ready-revived e s id t cache = ground (arith, truthy_of id t)

ready-redis :
    (e : Env) (s : LockState) (id : Text)
    → is_truthy id ≡ true
    → (s.cached ≡ none) ⊎ (s.cached ≡ some id)
    → (ready e (revived id s)).redis ≡ record empty_redis { instance_id = some id }
unfolding ensure_instance_id
ready-redis e s id t cache = ground (arith, truthy_of id t)

revived-acquire :
    (e e' : Env) (key owner : Text) (ttl : ℕ) (job : Option Text) (s : LockState) (id : Text)
    → IsUuid id
    → (s.cached ≡ none) ⊎ (s.cached ≡ some id)
    → e.commits ≡ true
    → let token = format_fencing_token id 1 in
      let (result, s') = acquire e key owner ttl job none (revived id s) in
      (result ≡ returns (acquired token)) × (accepted e' key owner token s' ≡ true)
revived-acquire e e' key owner ttl job s id uuid cache ok =
    let t = uuid-IsTruthy id uuid in
    let store = ready-redis e s id t cache in
    let name = ready-revived e s id t cache in
    let gained : (acquire e key owner ttl job none (revived id s)).0
        ≡ returns (acquired (format_fencing_token id 1)) =
      acquire-free e key owner id ttl job none (revived id s) (rw store refl) (rw store refl) ok
      ∙ rw store refl in
    (
      gained,
      (acquire-accepted e e' key owner (format_fencing_token id 1) owner (format_fencing_token id 1)
            ttl job (revived id s) (rw name uuid) (rw (store, name) refl) (rw store (λ t h. cc))
            (rw gained refl)).1
          (refl, refl),
    )

-- After a restart of Redis that loses its data, and the check that follows it, the first token
-- of every lock is number 1 of the instance id from before the restart, whatever numbers that id
-- has given out already, and it is accepted: so a token numbered 1 that the owner of the lock
-- was given before the restart is accepted again. Postgres holds that id, a UUID, the service
-- has it cached or nothing, and the transaction commits.
pub restart_reissues_tokens :
    (e e' e'' : Env) (key owner : Text) (ttl : ℕ) (job : Option Text) (s : LockState) (id : Text)
    → IsUuid id
    → s.pg_instance ≡ some id
    → (s.cached ≡ none) ⊎ (s.cached ≡ some id)
    → e'.commits ≡ true
    → let token = format_fencing_token id 1 in
      let s' = (check_redis_failover e (restart s)).1 in
      let (result, s'') = acquire e' key owner ttl job none s' in
      (result ≡ returns (acquired token)) × (accepted e'' key owner token s'' ≡ true)
restart_reissues_tokens e e' e'' key owner ttl job s id uuid pg cache ok =
    rw (check-restart e s id (uuid-IsTruthy id uuid) pg)
      (revived-acquire e' e'' key owner ttl job s id uuid cache ok)
