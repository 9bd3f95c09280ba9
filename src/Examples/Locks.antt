-- ===== src/Examples/Locks.antt =====
-- The lock service of packages/orchestrator and its scripts at concrete inputs.
use vmcp.Base.{
  ℕ, ◌≡◌, refl, ◌↔◌, inl, inr, true, false, none, some, [], Text, codes, text_eq, is_some, decimal,
  to_lower, arith, if◌then◌else◌,
}
use vmcp.Fencing.{format_fencing_token}
use vmcp.Lock.Redis.{Redis, acquire_lock, bump_fencing, script_instance}
use vmcp.Lock.Redis.Holder.{holder, at, spec_acquire, holder-acquire_lock}
use vmcp.Lock.Postgres.{LockState, LedgerRow, upsert_lock, admin_reclaim}
use vmcp.Lock.Service.{
  Env, returns, acquired, denied, ensure_instance_id, acquire, reclaim,
  rotate_instance_id_on_failover,
}
use vmcp.Lock.Service.Ensure.{current_instance}
use vmcp.Lock.Service.Validation.{accepted, IsNewest, IsGrant, validate_fencing_token_iff}
use vmcp.Lock.Service.Effects.{reclaim_revokes, rotate_revokes}
use vmcp.Lock.Service.Acquire.{acquire_excludes, acquire-accepted}
use vmcp.Lock.Service.Refusal.{GivenBack, acquire_fails_clean}
use vmcp.Health.{check_redis_failover}
use vmcp.Health.Restart.{restart, restart_reissues_tokens}
use vmcp.Examples.Statuses.{lower_id, lower_id-IsUuid}

abbrev key_a : Text
key_a = codes "project:a:generation"

abbrev job_1 : Text
job_1 = codes "job:1"

abbrev job_2 : Text
job_2 = codes "job:12"

-- Nothing is locked, and the counter of the lock stands at 4.
abbrev store : Redis
store = record {
  owners = λ k. none;
  tokens = λ k. none;
  seq = λ k. 4;
  instance_id = some lower_id;
  bootstrap_id = none;
}

abbrev taken : Redis
taken = (acquire_lock 100 60 key_a job_1 store).1

holder-acquire_lock_example : holder 130 key_a (acquire_lock 130 60 key_a job_2 taken).1 ≡ (
    if is_some (script_instance taken)
    then at key_a key_a (spec_acquire (holder 130 key_a taken) job_2) (holder 130 key_a taken)
    else holder 130 key_a taken)
holder-acquire_lock_example = holder-acquire_lock 130 60 key_a job_2 key_a taken (omega arith)

abbrev pub fresh : LockState
fresh = record {
  redis = store;
  ledger = [];
  pg_locks = [];
  pg_instance = some lower_id;
  audits = [];
  cached = none;
}

abbrev pub at_time : ℕ → Env
at_time t = record {
  now = t;
  uuid = codes "b";
  raced_id = none;
  commits = true;
  release_fault = none;
}

abbrev failing : Env
failing = record {
  now = 100;
  uuid = codes "b";
  raced_id = none;
  commits = false;
  release_fault = none;
}

abbrev token_5 : Text
token_5 = format_fencing_token lower_id 5

abbrev locked_state : LockState
locked_state = (acquire (at_time 100) key_a job_1 60 none none fresh).1

acquire_test : (acquire (at_time 100) key_a job_1 60 none none fresh).0 ≡ returns (acquired token_5)
unfolding acquire ensure_instance_id acquire_lock
acquire_test = refl

reclaim_test :
    (reclaim (at_time 110) key_a admin_reclaim none locked_state).0
    ≡ returns (format_fencing_token lower_id 6)
unfolding acquire ensure_instance_id acquire_lock reclaim bump_fencing format_fencing_token decimal
    text_eq
reclaim_test = refl

validate_fencing_token_iff_example :
    (accepted (at_time 110) key_a job_1 token_5 locked_state ≡ true) ↔ (
      (row : LedgerRow) × IsNewest key_a row locked_state.ledger
      × IsGrant row.reason
      × (row.owner ≡ job_1)
      × (row.token ≡ token_5)
      × (to_lower row.instance_id ≡ to_lower (current_instance (at_time 110) locked_state)))
validate_fencing_token_iff_example =
    validate_fencing_token_iff (at_time 110) key_a job_1 token_5 locked_state

reclaim_revokes_example :
    (accepted
        (at_time 120)
        key_a
        job_1
        token_5
        (reclaim (at_time 110) key_a admin_reclaim none locked_state).1
      ≡ (if text_eq key_a key_a
          then false
          else accepted
              (at_time 120)
              key_a
              job_1
              token_5
              (ensure_instance_id (at_time 110) locked_state).1))
    × ((now : ℕ)
        → holder now key_a (reclaim (at_time 110) key_a admin_reclaim none locked_state).1.redis
          ≡ none)
reclaim_revokes_example =
    reclaim_revokes (at_time 110) (at_time 120) key_a key_a job_1 token_5 admin_reclaim none
      locked_state refl reclaim_test

rotate_revokes_example :
    accepted
      (at_time 120)
      key_a
      job_1
      token_5
      (rotate_instance_id_on_failover (at_time 110) locked_state).1
    ≡ false
unfolding acquire ensure_instance_id acquire_lock rotate_instance_id_on_failover upsert_lock text_eq
rotate_revokes_example =
    rotate_revokes (at_time 110) (at_time 120) key_a job_1 token_5 locked_state refl refl (inl refl)

acquire_excludes_example :
    let s' = locked_state in
    let again = acquire (at_time 130) key_a job_2 60 none none s' in
    (again.0 ≡ returns denied) × (again.1.ledger ≡ s'.ledger) × (again.1.pg_locks ≡ s'.pg_locks)
unfolding acquire ensure_instance_id acquire_lock
acquire_excludes_example =
    acquire_excludes (at_time 100) (at_time 130) key_a job_1 job_2 token_5 60 60 none none none none
      fresh (λ h. cc) (omega arith) refl

acquire-accepted_example :
    (accepted (at_time 120) key_a job_2 token_5 locked_state ≡ true)
    ↔ ((job_2 ≡ job_1) × (token_5 ≡ token_5))
unfolding acquire ensure_instance_id acquire_lock
acquire-accepted_example =
    acquire-accepted (at_time 100) (at_time 120) key_a job_1 token_5 job_2 token_5 60 none fresh
      lower_id-IsUuid refl (λ t h. cc) refl

acquire_fails_clean_example :
    let s' = (acquire failing key_a job_1 60 none none fresh).1 in
    (s'.ledger ≡ [])
    × (s'.pg_locks ≡ [])
    × GivenBack failing key_a job_1 (codes "transaction failed") s'
unfolding acquire ensure_instance_id acquire_lock
acquire_fails_clean_example = acquire_fails_clean failing key_a job_1 60 none none fresh refl

restart_reissues_tokens_example :
    let token = format_fencing_token lower_id 1 in
    let s' = (check_redis_failover (at_time 200) (restart locked_state)).1 in
    let (result, s'') = acquire (at_time 210) key_a job_1 60 none none s' in
    (result ≡ returns (acquired token)) × (accepted (at_time 220) key_a job_1 token s'' ≡ true)
unfolding acquire ensure_instance_id acquire_lock
restart_reissues_tokens_example =
    restart_reissues_tokens (at_time 200) (at_time 210) (at_time 220) key_a job_1 60 none
      locked_state lower_id lower_id-IsUuid refl (inr refl) refl
