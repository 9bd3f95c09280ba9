-- ===== src/Lock/Failover.antt =====
-- `buildFailoverLedgerRows` of packages/orchestrator/src/services/lock-service.ts.
pub mod Keys
use vmcp.Base.{
  ℕ, Bool, true, false, ◌&&◌, ◌||◌, none, List, [], ◌∷◌, map, any, filter, Text, codes, text_eq,
  ltb, ◌==◌, if◌then◌else◌,
}
use vmcp.Fencing.{format_fencing_token}
use vmcp.Lock.Postgres.{LedgerRow, failover}

abbrev pub failover_sentinel_lock_key : Text
failover_sentinel_lock_key = codes "pgos:system:redis-failover"

abbrev pub contains : List Text → Text → Bool
contains l k = any (text_eq k) l

-- The order of `sort()`: by code units, a prefix first.
unfoldable pub text_le : Text → Text → Bool
text_le [] t = true
text_le (a ∷ s) [] = false
text_le (a ∷ s) (b ∷ t) = ltb a b || (a == b && text_le s t)

unfoldable pub insert_sorted : Text → List Text → List Text
insert_sorted k [] = k ∷ []
insert_sorted k (x ∷ xs) =
    let rest = insert_sorted k xs in if text_le k x then k ∷ x ∷ xs else x ∷ rest

unfoldable pub sort : List Text → List Text
unfolding insert_sorted text_le
sort [] = []
sort (k ∷ ks) = insert_sorted k (sort ks)

-- The members of a `Set` made of the list.
unfoldable pub distinct : List Text → List Text
distinct [] = []
distinct (k ∷ ks) = let rest = distinct ks in if contains ks k then rest else k ∷ rest

abbrev pub is_truthy : Text → Bool
is_truthy [] = false
is_truthy (c ∷ s) = true

-- The keys of the rows: the active ones and the sentinel, each once, in order.
unfoldable pub failover_keys : List Text → List Text
unfolding sort distinct
failover_keys active = sort (distinct (failover_sentinel_lock_key ∷ filter is_truthy active))

abbrev pub failover_row : ℕ → Text → Text → LedgerRow
failover_row now new_instance key = record {
  lock_key = key;
  owner = codes "system";
  token = format_fencing_token new_instance 0;
  instance_id = new_instance;
  reason = failover;
  acquired_at = now;
  released_at = none;
  admin_identity = none;
}

unfoldable pub build_failover_ledger_rows : ℕ → Text → List Text → List LedgerRow
unfolding failover_keys
build_failover_ledger_rows now new_instance active =
    map (failover_row now new_instance) (failover_keys active)
