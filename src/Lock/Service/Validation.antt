-- ===== src/Lock/Service/Validation.antt =====
-- Who passes `validateFencingToken` of packages/orchestrator/src/services/lock-service.ts, and what
-- the other operations of the service do to that.
use vmcp.Base.{
  ◌≡◌, ◌↔◌, inl, inr, Bool, true, false, Option, none, some, Text, text_eq_iff, to_lower, arith,
  Option-cases, Bool-cases, List, [], ◌∷◌, ◌++◌, All, ap, refl, text_eq, ◌≢◌, ◌⊎◌,
}
use vmcp.Lock.Postgres.{
  LedgerRow, LockState, Reason, acquired_fresh, acquired_again, stale_recovered, admin_reclaim,
  failover, latest,
}
use vmcp.Lock.Service.Ensure.{current_instance}
use vmcp.Lock.Service.{Env, invalidates, accepts_row, validate_fencing_token}

abbrev pub accepted : Env → Text → Text → Text → LockState → Bool
accepted e key owner token s = (validate_fencing_token e key owner token s).0

-- The row is the claim of this owner with this token, under this instance.
abbrev pub IsClaim : LedgerRow → Text → Text → Text → Type 0
IsClaim row current owner token =
    (row.owner ≡ owner)
    × (row.token ≡ token)
    × (invalidates row.reason ≡ false)
    × (to_lower row.instance_id ≡ to_lower current)

pub accepts_row_iff :
    (row : LedgerRow) (current owner token : Text)
    → (accepts_row row current owner token ≡ true) ↔ IsClaim row current owner token
unfolding accepts_row
accepts_row_iff row current owner token = (
  λ h. ground (
    arith,
    text_eq_iff (to_lower row.instance_id) (to_lower current),
    text_eq_iff row.owner owner,
    text_eq_iff row.token token,
  ),
  λ h. ground (
    arith,
    text_eq_iff (to_lower row.instance_id) (to_lower current),
    text_eq_iff row.owner owner,
    text_eq_iff row.token token,
  ),
)

-- The verdict on the newest row of a lock.
abbrev pub judge : Option LedgerRow → Text → Text → Text → Bool
judge none current owner token = false
judge (some row) current owner token = accepts_row row current owner token

pub accepted-judge :
    (e : Env) (key owner token : Text) (s : LockState)
    → accepted e key owner token s ≡ judge (latest key s.ledger) (current_instance e s) owner token
unfolding validate_fencing_token
accepted-judge e key owner token s = ground arith

claimed_iff :
    (e : Env) (key owner token : Text) (s : LockState)
    → (accepted e key owner token s ≡ true) ↔ (
        (row : LedgerRow) × (latest key s.ledger ≡ some row)
        × IsClaim row (current_instance e s) owner token)
unfolding validate_fencing_token
claimed_iff e key owner token s = elim (Option-cases (latest key s.ledger)) [
  | inl missing ↦ (λ h. ground arith, λ h. ground arith)
  | inr (row, found) ↦ (
    λ h. (row, found, (accepts_row_iff row (current_instance e s) owner token).0 (ground arith)),
    λ h. ground (arith, (accepts_row_iff h.0 (current_instance e s) owner token).1 h.2),
  )
]

-- The row is of the lock, and no newer row of the ledger is.
abbrev pub IsNewest : Text → LedgerRow → List LedgerRow → Type 0
IsNewest key row ledger =
    (newer : List LedgerRow) × (older : List LedgerRow) × (ledger ≡ newer ++ row ∷ older)
    × All (λ r. r.lock_key ≢ key) newer
    × (row.lock_key ≡ key)

some_inj : (a b : LedgerRow) → some a ≡ some b → a ≡ b
some_inj a b h = cc h

IsNewest-cons :
    (key : Text) (row : LedgerRow) (r : LedgerRow) (rows : List LedgerRow)
    → r.lock_key ≢ key
    → IsNewest key row rows
    → IsNewest key row (r ∷ rows)
IsNewest-cons key row r rows ne (newer, older, e, others, k) =
    (r ∷ newer, older, ap (λ l. r ∷ l) e, (ne, others), k)

latest-IsNewest :
    (key : Text) (row : LedgerRow) (ledger : List LedgerRow)
    → latest key ledger ≡ some row
    → IsNewest key row ledger
unfolding latest
latest-IsNewest key row [] h = cc
latest-IsNewest key row (r ∷ rows) h = elim (Bool-cases (text_eq r.lock_key key)) [
  | inl b ↦
      let e : r ≡ row = some_inj r row (rw b at h) in
      (
        [],
        rows,
        ap (λ x. x ∷ rows) e,
        tt,
        cc (ap (λ x. x.lock_key) e, (text_eq_iff r.lock_key key).0 b),
      )
  | inr b ↦
      IsNewest-cons key row r rows (λ e. cc ((text_eq_iff r.lock_key key).1 e, b))
        (latest-IsNewest key row rows (rw b at h))
]

latest-append :
    (key : Text) (row : LedgerRow) (newer older : List LedgerRow)
    → All (λ r. r.lock_key ≢ key) newer
    → row.lock_key ≡ key
    → latest key (newer ++ row ∷ older) ≡ some row
unfolding latest
latest-append key row [] older h k = rw ((text_eq_iff row.lock_key key).1 k) refl
latest-append key row (r ∷ newer) older (ne, h) k =
    ground (arith, text_eq_iff r.lock_key key, ne, latest-append key row newer older h k)

-- The reasons with which `acquire` writes a row.
abbrev pub IsGrant : Reason → Type 0
IsGrant reason = (reason ≡ acquired_fresh) ⊎ (reason ≡ acquired_again)

valid-IsGrant : (reason : Reason) → (invalidates reason ≡ false) ↔ IsGrant reason
valid-IsGrant acquired_fresh = (λ h. inl refl, λ h. refl)
valid-IsGrant acquired_again = (λ h. inr refl, λ h. refl)
valid-IsGrant stale_recovered = (λ h. cc, λ h. ground arith)
valid-IsGrant admin_reclaim = (λ h. cc, λ h. ground arith)
valid-IsGrant failover = (λ h. cc, λ h. ground arith)

-- A token is accepted exactly when the newest row that the ledger has of the lock has the reason of a
-- first or a repeated acquisition, and not of a recovery, a reclaim or a failover, names the
-- presenting owner and that token, and carries the instance id that is current, in upper or lower
-- case.
pub validate_fencing_token_iff :
    (e : Env) (key owner token : Text) (s : LockState)
    → (accepted e key owner token s ≡ true) ↔ (
        (row : LedgerRow) × IsNewest key row s.ledger
        × IsGrant row.reason
        × (row.owner ≡ owner)
        × (row.token ≡ token)
        × (to_lower row.instance_id ≡ to_lower (current_instance e s)))
validate_fencing_token_iff e key owner token s = (
  λ h.
      let (row, found, (o, t, valid, i)) = (claimed_iff e key owner token s).0 h in
      (row, latest-IsNewest key row s.ledger found, (valid-IsGrant row.reason).0 valid, o, t, i),
  λ (row, (newer, older, ledger, others, k), grant, o, t, i). (claimed_iff e key owner token s).1 (
    row,
    rw ledger (latest-append key row newer older others k),
    (o, t, (valid-IsGrant row.reason).1 grant, i),
  ),
)
