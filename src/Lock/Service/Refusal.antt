-- ===== src/Lock/Service/Refusal.antt =====
-- `acquire` of packages/orchestrator/src/services/lock-service.ts: its exceptions, and free keys.
use vmcp.Base.{
  refl, ◌⊎◌, inl, inr, sym, ap, ◌∙◌, ℕ, ◌≡◌, ◌≢◌, true, Option, none, some, Text, text_eq_iff,
  text_eq_refl, arith,
}
use vmcp.Lock.Redis.{
  next_token, Redis, Reply, no_instance_id, locked, granted, held, release_lock, script_instance,
}
use vmcp.Lock.Redis.Holder.{acquire_lock-free, holder, holder-release_lock, spec_release}
use vmcp.Lock.Postgres.{Reason, LockState}
use vmcp.Lock.Service.{
  Env, Result, AcquireResult, returns, throws, acquired, acquire, settle_acquire,
  release_redis_only,
}
use vmcp.Lock.Service.Ensure.{current_instance, ensure-ledger}
use vmcp.Lock.Service.Acquire.{ready}

-- What a call that throws leaves: the lock given back, or, where that throws too, all as it was.
settle-throws :
    (e : Env) (key owner : Text) (ttl : ℕ) (job : Option Text) (reason : Option Reason) (c : Text)
    (reply : Reply) (s : LockState) {m : Text}
    → (settle_acquire e key owner ttl job reason c reply s).0 ≡ throws m
    → settle_acquire e key owner ttl job reason c reply s
      ≡ release_redis_only e key owner e.release_fault s
unfolding settle_acquire
settle-throws e key owner ttl job reason c no_instance_id s h = cc
settle-throws e key owner ttl job reason c locked s h = cc
settle-throws e key owner ttl job reason c (granted t) s h = ground arith
settle-throws e key owner ttl job reason c (held t) s h = ground arith

not-released : (h : Option Text) (owner : Text) → spec_release h owner ≢ some owner
not-released none owner = cc
not-released (some c) owner = ground (arith, text_eq_iff c owner)

release_lock-frees :
    (now : ℕ) (key owner : Text) (r : Redis)
    → holder now key (release_lock now key owner r).1 ≢ some owner
release_lock-frees now key owner r h =
    not-released (holder now key r) owner
      (ground (arith, (holder-release_lock now key owner key r).0, text_eq_refl key))

-- The lock of the owner is gone, or the release has thrown the error that left.
abbrev pub GivenBack : Env → Text → Text → Text → LockState → Type 0
GivenBack e key owner message s =
    ((e.release_fault ≡ none) × (holder e.now key s.redis ≢ some owner))
    ⊎ (e.release_fault ≡ some message)

abbrev failed : Text → Result AcquireResult
failed m = throws m

throws_inj : (a b : Text) → failed a ≡ failed b → a ≡ b
throws_inj a b h = cc h

given_back :
    (e : Env) (key owner : Text) (fault : Option Text) (s : LockState) {m : Text}
    → e.release_fault ≡ fault
    → (release_redis_only e key owner fault s).0 ≡ throws m
    → ((release_redis_only e key owner fault s).1.ledger ≡ s.ledger)
      × ((release_redis_only e key owner fault s).1.pg_locks ≡ s.pg_locks)
      × GivenBack e key owner m (release_redis_only e key owner fault s).1
unfolding release_redis_only
given_back e key owner none s f h =
    (refl, refl, inl (f, release_lock-frees e.now key owner s.redis))
given_back e key owner (some message) s {m} f h =
    let same : message ≡ m = throws_inj message m h in (refl, refl, inr (f ∙ ap some same))

-- A call whose transaction fails leaves the tables as they were, and its owner without the lock in
-- Redis, also where the owner held it before; unless the release throws too, and then its error is
-- the one that leaves.
pub acquire_fails_clean :
    (e : Env) (key owner : Text) (ttl : ℕ) (job : Option Text) (reason : Option Reason)
    (s : LockState) {m : Text}
    → (acquire e key owner ttl job reason s).0 ≡ throws m
    → let s' = (acquire e key owner ttl job reason s).1 in
      (s'.ledger ≡ s.ledger) × (s'.pg_locks ≡ s.pg_locks) × GivenBack e key owner m s'
unfolding acquire
acquire_fails_clean e key owner ttl job reason s {m} h =
    let out = settle-throws e key owner ttl job reason (current_instance e s) _ _ h in
    let kept = ensure-ledger e s in
    let (ledger, locks, back) =
      given_back e key owner e.release_fault _ refl (sym (ap (λ r. r.0) out) ∙ h) in
    rw out (ledger ∙ kept.0, locks ∙ kept.1, back)

-- A free lock is gained with the next token of its counter.
pub acquire-free :
    (e : Env) (key owner i : Text) (ttl : ℕ) (job : Option Text) (reason : Option Reason)
    (s : LockState)
    → script_instance (ready e s).redis ≡ some i
    → holder e.now key (ready e s).redis ≡ none
    → e.commits ≡ true
    → (acquire e key owner ttl job reason s).0
      ≡ returns (acquired (next_token i key (ready e s).redis))
unfolding acquire settle_acquire
acquire-free e key owner i ttl job reason s known free ok =
    rw (acquire_lock-free e.now ttl key owner i (ready e s).redis known free) (ground arith)
