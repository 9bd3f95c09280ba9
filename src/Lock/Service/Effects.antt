-- ===== src/Lock/Service/Effects.antt =====
-- What `release`, `reclaim`, `acquire` and the failover of
-- packages/orchestrator/src/services/lock-service.ts do to the tokens that are accepted.
use vmcp.Base.{
  ℕ, ◌≡◌, ◌≢◌, refl, ◌⊎◌, inl, inr, true, false, ◌&&◌, Option, none, some, List, [], ◌∷◌, ◌++◌,
  Text, text_eq, text_eq_iff, text_eq_refl, to_lower, arith, if◌then◌else◌,
}
use vmcp.Lock.Redis.{Reply, no_instance_id, locked, granted, held, release_lock, bump_fencing}
use vmcp.Lock.Redis.Holder.{holder}
use vmcp.Lock.Postgres.{Reason, LedgerRow, LockState, latest, mark_released}
use vmcp.Lock.Failover.{contains, is_truthy, build_failover_ledger_rows}
use vmcp.Lock.Failover.Keys.{latest-build_failover_ledger_rows}
use vmcp.Lock.Service.{
  Env, returns, ensure_instance_id, release, reclaim, invalidates, accepts_row,
  rotate_instance_id_on_failover, settle_reclaim, active_keys,
}
use vmcp.Lock.Service.Ensure.{current_instance, ensure_again, ensure-ledger, current_instance_cong}
use vmcp.Lock.Service.Validation.{accepted, judge, accepted-judge}

judge-mark_released :
    (now : ℕ) (key owner k : Text) (rows : List LedgerRow) (c o t : Text)
    → judge (latest k (mark_released now key owner rows)) c o t ≡ judge (latest k rows) c o t
unfolding latest mark_released accepts_row
judge-mark_released now key owner k [] c o t = refl
judge-mark_released now key owner k (row ∷ rows) c o t =
    ground (arith, judge-mark_released now key owner k rows c o t)

judge-release :
    (e : Env) (key owner k c o t : Text) (s : LockState)
    → judge (latest k (release e key owner s).1.ledger) c o t ≡ judge (latest k s.ledger) c o t
unfolding release
judge-release e key owner k c o t s =
    ground (arith, judge-mark_released e.now key owner k s.ledger c o t)

current-release :
    (e e' : Env) (key owner : Text) (s : LockState)
    → current_instance e' (release e key owner s).1 ≡ current_instance e' s
unfolding release release_lock
current-release e e' key owner s =
    current_instance_cong e' s (release e key owner s).1 (ground arith) (ground arith)
      (ground arith)

-- Giving a lock back revokes no token: whatever was accepted before a release is accepted after it,
-- and nothing more.
pub release_keeps_tokens :
    (e e' : Env) (key owner k o t : Text) (s : LockState)
    → accepted e' k o t (release e key owner s).1 ≡ accepted e' k o t s
release_keeps_tokens e e' key owner k o t s =
    rw
      (
        accepted-judge e' k o t s,
        accepted-judge e' k o t (release e key owner s).1,
        current-release e e' key owner s,
      )
      (judge-release e key owner k (current_instance e' s) o t s)

-- The ledger after a reclaim that returned: a new newest row for the key, which invalidates.
settle_reclaim-latest :
    (e : Env) (key k : Text) (reason : Reason) (admin : Option Text) (c o t x : Text)
    (reply : Reply) (s : LockState) {t' : Text}
    → invalidates reason ≡ true
    → (settle_reclaim e key reason admin c reply s).0 ≡ returns t'
    → judge (latest k (settle_reclaim e key reason admin c reply s).1.ledger) x o t
      ≡ (if text_eq key k then false else judge (latest k s.ledger) x o t)
unfolding settle_reclaim latest accepts_row
settle_reclaim-latest e key k reason admin c o t x (granted u) s bad h = ground arith
settle_reclaim-latest e key k reason admin c o t x locked s bad h = cc
settle_reclaim-latest e key k reason admin c o t x no_instance_id s bad h = cc
settle_reclaim-latest e key k reason admin c o t x (held u) s bad h = cc

judge-reclaim :
    (e : Env) (key k : Text) (reason : Reason) (admin : Option Text) (o t x : Text) (s : LockState)
    {t' : Text}
    → invalidates reason ≡ true
    → (reclaim e key reason admin s).0 ≡ returns t'
    → judge (latest k (reclaim e key reason admin s).1.ledger) x o t
      ≡ (if text_eq key k then false else judge (latest k s.ledger) x o t)
unfolding reclaim
judge-reclaim e key k reason admin o t x s bad h =
    rw (settle_reclaim-latest e key k reason admin (current_instance e s) o t x _ _ bad h)
      (rw ((ensure-ledger e s).0))

current-reclaim :
    (e e' : Env) (key : Text) (reason : Reason) (admin : Option Text) (s : LockState)
    → current_instance e' (reclaim e key reason admin s).1
      ≡ current_instance e' (ensure_instance_id e s).1
unfolding reclaim bump_fencing
current-reclaim e e' key reason admin s =
    current_instance_cong e' (ensure_instance_id e s).1 (reclaim e key reason admin s).1
      (ground arith) (ground arith) (ground arith)

freed :
    (e : Env) (key j : Text) (reason : Reason) (admin : Option Text) (s : LockState) (now : ℕ)
    {t' : Text}
    → (reclaim e key reason admin s).0 ≡ returns t'
    → holder now key (reclaim e key reason admin s).1.redis ≡ none
unfolding reclaim bump_fencing
freed e key j reason admin s now h = ground (arith, text_eq_refl key)

-- A reclaim, for a reason that ends claims, that returns frees the lock in Redis and ends every
-- claim to it: no owner's token is accepted for it any more. For every other lock the same
-- tokens are accepted as were once the service had fixed its instance id.
pub reclaim_revokes :
    (e e' : Env) (key k o t : Text) (reason : Reason) (admin : Option Text) (s : LockState)
    {t' : Text}
    → invalidates reason ≡ true
    → (reclaim e key reason admin s).0 ≡ returns t'
    → (accepted e' k o t (reclaim e key reason admin s).1
        ≡ (if text_eq key k then false else accepted e' k o t (ensure_instance_id e s).1))
      × ((now : ℕ) → holder now key (reclaim e key reason admin s).1.redis ≡ none)
reclaim_revokes e e' key k o t reason admin s bad h = (
  ground (
    arith,
    accepted-judge e' k o t (reclaim e key reason admin s).1,
    accepted-judge e' k o t (ensure_instance_id e s).1,
    current-reclaim e e' key reason admin s,
    (ensure-ledger e s).0,
    judge-reclaim e key k reason admin o t (current_instance e' (ensure_instance_id e s).1) s bad h,
  ),
  λ now. freed e key k reason admin s now h,
)

current-rotate :
    (e e' : Env) (s : LockState)
    → is_truthy e.uuid ≡ true
    → (rotate_instance_id_on_failover e s).0 ≡ returns e.uuid
    → current_instance e' (rotate_instance_id_on_failover e s).1 ≡ e.uuid
unfolding rotate_instance_id_on_failover
current-rotate e e' s t h =
    ground (arith, ensure_again e' (rotate_instance_id_on_failover e s).1 e.uuid (ground arith) t)

-- The newest row of the lock, if there is one, carries another instance id.
abbrev pub IsForeign : Text → Text → LockState → Type 0
IsForeign key instance_id s =
    (row : LedgerRow)
    → latest key s.ledger ≡ some row
    → to_lower row.instance_id ≢ to_lower instance_id

judge-foreign :
    (row : Option LedgerRow) (x o t : Text)
    → ((r : LedgerRow) → row ≡ some r → to_lower r.instance_id ≢ to_lower x)
    → judge row x o t ≡ false
unfolding accepts_row
judge-foreign none x o t h = refl
judge-foreign (some r) x o t h =
    ground (arith, h r refl, text_eq_iff (to_lower r.instance_id) (to_lower x))

judge-failover :
    (e : Env) (k o t x : Text) (active : List Text) (rows : List LedgerRow)
    → (contains active k && is_truthy k ≡ true) ⊎ (judge (latest k rows) x o t ≡ false)
    → judge (latest k (build_failover_ledger_rows e.now e.uuid active ++ rows)) x o t ≡ false
unfolding accepts_row
judge-failover e k o t x active rows h =
    ground (arith, latest-build_failover_ledger_rows e.now e.uuid k active rows)

-- After a failover that returns, no token is accepted for a lock that was active, nor for one whose
-- newest row carries another instance id than the new one.
pub rotate_revokes :
    (e e' : Env) (k o t : Text) (s : LockState)
    → is_truthy e.uuid ≡ true
    → (rotate_instance_id_on_failover e s).0 ≡ returns e.uuid
    → (contains (active_keys s.pg_locks) k && is_truthy k ≡ true) ⊎ IsForeign k e.uuid s
    → accepted e' k o t (rotate_instance_id_on_failover e s).1 ≡ false
unfolding rotate_instance_id_on_failover
rotate_revokes e e' k o t s nonempty h gone =
    rw
      (
        accepted-judge e' k o t (rotate_instance_id_on_failover e s).1,
        current-rotate e e' s nonempty h,
      )
      (ground (arith, judge-failover e k o t e.uuid (active_keys s.pg_locks) s.ledger verdict))
  where
    verdict :
        (contains (active_keys s.pg_locks) k && is_truthy k ≡ true)
        ⊎ (judge (latest k s.ledger) e.uuid o t ≡ false)
    verdict = elim gone [
      | inl active ↦ inl active
      | inr foreign ↦ inr (judge-foreign (latest k s.ledger) e.uuid o t foreign)
    ]
