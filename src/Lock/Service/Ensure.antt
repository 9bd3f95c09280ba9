-- ===== src/Lock/Service/Ensure.antt =====
-- `ensureInstanceId` of packages/orchestrator/src/services/lock-service.ts: the cached instance id.
use vmcp.Base.{◌≡◌, refl, subst, true, Option, none, some, [], ◌∷◌, Text, arith, is_some}
use vmcp.Lock.Failover.{is_truthy}
use vmcp.Lock.Redis.{script_instance}
use vmcp.Lock.Postgres.{LockState}
use vmcp.Lock.Service.{Env, truthy, ensure_instance_id}

-- The instance that the service takes for the current one.
abbrev pub current_instance : Env → LockState → Text
current_instance e s = (ensure_instance_id e s).0

-- The service works with the instance id that Redis holds.
abbrev pub IsCoherent : Env → LockState → Text → Type 0
IsCoherent e s current =
    (current_instance e s ≡ current) × ((ensure_instance_id e s).1.redis.instance_id ≡ some current)

pub truthy-some :
    (o : Option Text) {i : Text} → truthy o ≡ some i → (o ≡ some i) × (is_truthy i ≡ true)
truthy-some none h = cc
truthy-some (some []) h = cc
truthy-some (some (c ∷ k)) h = (h, subst (λ o. is_truthy (unwrap o) ≡ true) h refl)
  where
    unwrap : Option Text → Text
    unwrap none = []
    unwrap (some t) = t

pub truthy_of : (i : Text) → is_truthy i ≡ true → truthy (some i) ≡ some i
truthy_of [] h = cc
truthy_of (c ∷ i) h = refl

pub ensure-cached :
    (e : Env) (s : LockState) → (ensure_instance_id e s).1.cached ≡ some (ensure_instance_id e s).0
unfolding ensure_instance_id
ensure-cached e s = ground (arith, truthy-some s.cached)

pub ensure_again :
    (e : Env) (s : LockState) (i : Text)
    → s.cached ≡ some i
    → is_truthy i ≡ true
    → ensure_instance_id e s ≡ (i, s)
unfolding ensure_instance_id
ensure_again e s i h t = ground (arith, truthy_of i t)

pub ensure-ledger :
    (e : Env) (s : LockState)
    → ((ensure_instance_id e s).1.ledger ≡ s.ledger)
      × ((ensure_instance_id e s).1.pg_locks ≡ s.pg_locks)
      × ((ensure_instance_id e s).1.redis.owners ≡ s.redis.owners)
      × ((ensure_instance_id e s).1.redis.tokens ≡ s.redis.tokens)
      × ((ensure_instance_id e s).1.redis.seq ≡ s.redis.seq)
unfolding ensure_instance_id
ensure-ledger e s = (ground arith, ground arith, ground arith, ground arith, ground arith)

-- The current instance id depends on three fields.
pub current_instance_cong :
    (e : Env) (s s' : LockState)
    → s'.cached ≡ s.cached
    → s'.redis.instance_id ≡ s.redis.instance_id
    → s'.pg_instance ≡ s.pg_instance
    → current_instance e s' ≡ current_instance e s
unfolding ensure_instance_id
current_instance_cong e s s' p q r = ground arith

pub script_instance-ensure :
    (e : Env) (s : LockState)
    → is_some (script_instance s.redis) ≡ true
    → is_some (script_instance (ensure_instance_id e s).1.redis) ≡ true
unfolding ensure_instance_id
script_instance-ensure e s h = ground arith
