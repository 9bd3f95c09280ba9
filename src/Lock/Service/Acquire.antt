-- ===== src/Lock/Service/Acquire.antt =====
-- `acquire` of packages/orchestrator/src/services/lock-service.ts: its grants and refusals.
use vmcp.Base.{
  ℕ, suc, ◌+◌, ◌<◌, ◌≡◌, ◌≢◌, refl, ap, ◌∙◌, subst, ◌↔◌, ◌⊎◌, inl, inr, true, Option, none, some,
  [], ◌∷◌, Text, text_eq_iff, text_eq_refl, to_lower, to_lower_idem, arith, Bool-cases,
  Option-cases, is_some,
}
use vmcp.Fencing.{format_fencing_token}
use vmcp.Fencing.RoundTrip.{IsUuid, parse-format_fencing_token}
use vmcp.Lock.Redis.{
  Redis, Reply, no_instance_id, locked, granted, held, acquire_lock, script_instance, get,
}
use vmcp.Lock.Redis.Holder.{
  holder, Holds, instance-acquire_lock, script_instance_of_Holds, holder_until,
  acquire_lock-refused, token-acquire_lock, TokenOf,
}
use vmcp.Lock.Postgres.{Reason, LockState, latest}
use vmcp.Lock.Failover.{is_truthy}
use vmcp.Lock.Service.{
  Env, Result, returns, throws, ensure_instance_id, AcquireResult, acquired, reentrant, denied,
  error, acquire, accepts_row, settle_acquire, release_redis_only,
}
use vmcp.Lock.Service.Ensure.{
  current_instance, ensure-cached, ensure_again, ensure-ledger, script_instance-ensure,
}
use vmcp.Lock.Service.Validation.{accepted, judge, accepted-judge}

-- The state once the service has fixed its instance id.
abbrev pub ready : Env → LockState → LockState
ready e s = (ensure_instance_id e s).1

-- The script's reply to this call.
abbrev pub reply_to : Env → Text → Text → ℕ → LockState → Reply
reply_to e key owner ttl s = (acquire_lock e.now ttl key owner (ready e s).redis).0

-- The lock was given, or kept.
abbrev pub Gains : Result AcquireResult → Text → Type 0
Gains (returns (acquired t)) token = t ≡ token
Gains (returns (reentrant t)) token = t ≡ token
Gains (returns denied) token = ⊥
Gains (returns (error m)) token = ⊥
Gains (throws m) token = ⊥

-- A transaction that failed gains nothing.
release-Gains :
    (e : Env) (key owner token : Text) (fault : Option Text) (s : LockState)
    → ¬ (Gains (release_redis_only e key owner fault s).0 token)
unfolding release_redis_only
release-Gains e key owner token none s h = h
release-Gains e key owner token (some m) s h = h

settle-Gains :
    (e : Env) (key owner token : Text) (ttl : ℕ) (job : Option Text) (reason : Option Reason)
    (c : Text) (reply : Reply) (s : LockState)
    → Gains (settle_acquire e key owner ttl job reason c reply s).0 token
    → Holds reply
      × (e.commits ≡ true)
      × ((reply ≡ granted token) ⊎ (reply ≡ held token))
      × ((settle_acquire e key owner ttl job reason c reply s).1.redis ≡ s.redis)
unfolding settle_acquire
settle-Gains e key owner token ttl job reason c no_instance_id s h = absurd h
settle-Gains e key owner token ttl job reason c locked s h = absurd h
settle-Gains e key owner token ttl job reason c (granted t) s h = elim (Bool-cases e.commits) [
  | inl yes' ↦ ground arith
  | inr no' ↦ absurd (release-Gains e key owner token e.release_fault s (rw no' at h))
]
settle-Gains e key owner token ttl job reason c (held t) s h = elim (Bool-cases e.commits) [
  | inl yes' ↦ ground arith
  | inr no' ↦ absurd (release-Gains e key owner token e.release_fault s (rw no' at h))
]

-- The script's part of a call that gains the lock.
acquire-Gains :
    (e : Env) (key owner token : Text) (ttl : ℕ) (job : Option Text) (reason : Option Reason)
    (s : LockState)
    → Gains (acquire e key owner ttl job reason s).0 token
    → let reply = reply_to e key owner ttl s in
      Holds reply
      × (e.commits ≡ true)
      × ((reply ≡ granted token) ⊎ (reply ≡ held token))
      × ((acquire e key owner ttl job reason s).1.redis
          ≡ (acquire_lock e.now ttl key owner (ready e s).redis).1)
unfolding acquire
acquire-Gains e key owner token ttl job reason s h =
    settle-Gains e key owner token ttl job reason (current_instance e s) _ _ h

acquire-denied :
    (e : Env) (key owner c : Text) (ttl : ℕ) (job : Option Text) (reason : Option Reason)
    (s : LockState)
    → is_some (script_instance (ready e s).redis) ≡ true
    → holder e.now key (ready e s).redis ≡ some c
    → c ≢ owner
    → acquire e key owner ttl job reason s ≡ (returns denied, ready e s)
unfolding acquire settle_acquire
acquire-denied e key owner c ttl job reason s known h ne =
    elim (Option-cases (script_instance (ready e s).redis)) [
      | inl f ↦ absurd (cc)
      | inr (i, f) ↦ rw (acquire_lock-refused e.now ttl key owner c i (ready e s).redis f h ne)
    ]

-- Mutual exclusion: once a call has gained a lock, a call of any other owner before its time to
-- live has passed is denied and changes neither the ledger nor `pg_locks`.
pub acquire_excludes :
    (e e' : Env) (key owner other token : Text) (ttl ttl' : ℕ) (job job' : Option Text)
    (reason reason' : Option Reason) (s : LockState)
    → owner ≢ other
    → e'.now < e.now + ttl
    → Gains (acquire e key owner ttl job reason s).0 token
    → let s' = (acquire e key owner ttl job reason s).1 in
      let again = acquire e' key other ttl' job' reason' s' in
      (again.0 ≡ returns denied) × (again.1.ledger ≡ s'.ledger) × (again.1.pg_locks ≡ s'.pg_locks)
acquire_excludes e e' key owner other token ttl ttl' job job' reason reason' s ne soon won =
    let s' = (acquire e key owner ttl job reason s).1 in
    let (holds, _, _, same) = acquire-Gains e key owner token ttl job reason s won in
    let kept = holder_until e.now e'.now ttl key owner (ready e s).redis soon holds in
    let known = script_instance_of_Holds e.now ttl key owner (ready e s).redis holds in
    let still = instance-acquire_lock e.now ttl key owner (ready e s).redis in
    let out =
      acquire-denied e' key other owner ttl' job' reason' s'
        (script_instance-ensure e' s' (ground arith)) (ground (arith, ensure-ledger e' s')) ne in
    let unchanged = ensure-ledger e' s' in (rw out refl, rw out unchanged.0, rw out unchanged.1)

-- The ledger's verdict after a call that gained the lock, by the parts of the row that it wrote.
settle-judge :
    (e : Env) (key owner token : Text) (ttl : ℕ) (job : Option Text) (c : Text) (reply : Reply)
    (s : LockState) (o t : Text) (n : ℕ)
    → IsUuid c
    → token ≡ format_fencing_token c n
    → (reply ≡ granted token) ⊎ (reply ≡ held token)
    → e.commits ≡ true
    → (judge (latest key (settle_acquire e key owner ttl job none c reply s).1.ledger) c o t ≡ true)
      ↔ ((o ≡ owner) × (t ≡ token))
unfolding settle_acquire latest accepts_row
settle-judge e key owner token ttl job c reply s o t n uuid form r ok = (
  λ h. ground (
    arith,
    parse-format_fencing_token c n uuid,
    to_lower_idem c,
    text_eq_refl key,
    text_eq_iff owner o,
    text_eq_iff token t,
    text_eq_refl (to_lower c),
  ),
  λ h. ground (
    arith,
    parse-format_fencing_token c n uuid,
    to_lower_idem c,
    text_eq_refl key,
    text_eq_iff owner o,
    text_eq_iff token t,
    text_eq_refl (to_lower c),
  ),
)

settle-cached :
    (e : Env) (key owner : Text) (ttl : ℕ) (job : Option Text) (reason : Option Reason) (c : Text)
    (reply : Reply) (s : LockState)
    → (settle_acquire e key owner ttl job reason c reply s).1.cached ≡ s.cached
unfolding settle_acquire
settle-cached e key owner ttl job reason c reply s = ground arith

acquire-cached :
    (e : Env) (key owner : Text) (ttl : ℕ) (job : Option Text) (reason : Option Reason)
    (s : LockState)
    → (acquire e key owner ttl job reason s).1.cached ≡ some (current_instance e s)
unfolding acquire
acquire-cached e key owner ttl job reason s =
    settle-cached e key owner ttl job reason (current_instance e s) _ _ ∙ ensure-cached e s

pub uuid-IsTruthy : (c : Text) → IsUuid c → is_truthy c ≡ true
uuid-IsTruthy [] h = absurd h
uuid-IsTruthy (x ∷ c) h = refl

abbrev Formed : Text → Text → Type 0
Formed instance_id token = (n : ℕ) × (token ≡ format_fencing_token instance_id n)

-- What the token of this call can be, if the tokens that are alive carry the current instance id.
token_form :
    (e : Env) (key owner token i : Text) (ttl : ℕ) (r : Redis)
    → r.instance_id ≡ some i
    → ((t : Text) → get e.now (r.tokens key) ≡ some t → Formed i t)
    → ((acquire_lock e.now ttl key owner r).0 ≡ granted token)
      ⊎ ((acquire_lock e.now ttl key owner r).0 ≡ held token)
    → Formed i token
token_form e key owner token i ttl r same alive reply = elim reply [
  | inl g ↦ (suc (r.seq key), (subst law g known).0)
  | inr g ↦ elim (subst law g known) [
    | inl old ↦ alive token old.0
    | inr new ↦ (suc (r.seq key), new.0)
  ]
]
  where
    law : Reply → Type 0
    law x = TokenOf e.now i key r (acquire_lock e.now ttl key owner r).1 x

    known : law (acquire_lock e.now ttl key owner r).0
    known = token-acquire_lock e.now ttl key owner i r (rw same refl)

-- A call without a reason of its own that gains the lock makes its owner the only one accepted
-- for it, with the token that the call returned: provided that the service works with the
-- instance id that Redis holds, which is a UUID, and that a token of this lock that is still
-- alive carries that id.
pub acquire-accepted :
    (e e' : Env) (key owner token o t : Text) (ttl : ℕ) (job : Option Text) (s : LockState)
    → IsUuid (current_instance e s)
    → (ready e s).redis.instance_id ≡ some (current_instance e s)
    → ((t : Text)
        → get e.now ((ready e s).redis.tokens key) ≡ some t
        → (n : ℕ) × (t ≡ format_fencing_token (current_instance e s) n))
    → Gains (acquire e key owner ttl job none s).0 token
    → (accepted e' key o t (acquire e key owner ttl job none s).1 ≡ true)
      ↔ ((o ≡ owner) × (t ≡ token))
acquire-accepted e e' key owner token o t ttl job s uuid same alive won =
    let (_, ok, reply, _) = acquire-Gains e key owner token ttl job none s won in
    let (n, form) =
      token_form e key owner token (current_instance e s) ttl (ready e s).redis same alive reply in
    let s' = (acquire e key owner ttl job none s).1 in
    let now_current : current_instance e' s' ≡ current_instance e s =
      ap (λ p. p.0)
        (ensure_again e' s' (current_instance e s) (acquire-cached e key owner ttl job none s)
          (uuid-IsTruthy (current_instance e s) uuid)) in
    rw (accepted-judge e' key o t s', now_current)
      (unfold acquire in
        settle-judge e key owner token ttl job (current_instance e s) _ _ o t n uuid form reply ok)
