-- ===== src/Lock/Failover/Keys.antt =====
-- Which rows `buildFailoverLedgerRows` makes, and what the ledger says after it.
use vmcp.Base.{
  ℕ, ◌≡◌, refl, true, false, ◌&&◌, ◌||◌, some, List, [], ◌∷◌, ◌++◌, map, filter, Text, text_eq,
  text_eq_iff, arith, if◌then◌else◌,
}
use vmcp.Lock.Postgres.{LedgerRow, latest}
use vmcp.Lock.Failover.{
  failover_sentinel_lock_key, contains, insert_sorted, sort, distinct, is_truthy, failover_keys,
  failover_row, build_failover_ledger_rows, text_le,
}

contains-insert_sorted :
    (k x : Text) (l : List Text) → contains (insert_sorted x l) k ≡ (text_eq k x || contains l k)
unfolding insert_sorted
contains-insert_sorted k x [] = refl
contains-insert_sorted k x (y ∷ l) = ground (arith, contains-insert_sorted k x l)

contains-sort : (k : Text) (l : List Text) → contains (sort l) k ≡ contains l k
unfolding sort
contains-sort k [] = refl
contains-sort k (x ∷ l) = ground (arith, contains-insert_sorted k x (sort l), contains-sort k l)

contains-distinct : (k : Text) (l : List Text) → contains (distinct l) k ≡ contains l k
unfolding distinct
contains-distinct k [] = refl
contains-distinct k (x ∷ l) = ground (arith, contains-distinct k l, text_eq_iff k x)

contains-filter_truthy :
    (k : Text) (l : List Text) → contains (filter is_truthy l) k ≡ (is_truthy k && contains l k)
contains-filter_truthy k [] = ground arith
contains-filter_truthy k (x ∷ l) = ground (arith, contains-filter_truthy k l, text_eq_iff k x)

-- The keys are the sentinel and every active key that is not empty.
pub contains-failover_keys :
    (k : Text) (active : List Text)
    → contains (failover_keys active) k
      ≡ (text_eq k failover_sentinel_lock_key || (is_truthy k && contains active k))
unfolding failover_keys
contains-failover_keys k active = ground (
  arith,
  contains-sort k (distinct (failover_sentinel_lock_key ∷ filter is_truthy active)),
  contains-distinct k (failover_sentinel_lock_key ∷ filter is_truthy active),
  contains-filter_truthy k active,
)

-- No key stands twice, and the keys rise.
abbrev pub Once : List Text → Type 0
Once [] = Unit
Once (x ∷ l) = (contains l x ≡ false) × Once l

abbrev pub Sorted : List Text → Type 0
Sorted [] = Unit
Sorted (x ∷ []) = Unit
Sorted (x ∷ y ∷ l) = (text_le x y ≡ true) × Sorted (y ∷ l)

text_le_total : (s t : Text) → text_le s t ≡ false → text_le t s ≡ true
unfolding text_le
text_le_total [] t h = cc
text_le_total (a ∷ s) [] h = refl
text_le_total (a ∷ s) (b ∷ t) h = ground (arith, text_le_total s t)

insert_sorted-Sorted : (x : Text) (l : List Text) → Sorted l → Sorted (insert_sorted x l)
unfolding insert_sorted
insert_sorted-Sorted x [] h = tt
insert_sorted-Sorted x (y ∷ []) h = ground (arith, text_le_total x y)
insert_sorted-Sorted x (y ∷ z ∷ l) h =
    ground (arith, text_le_total x y, insert_sorted-Sorted x (z ∷ l) h.1)

insert_sorted-Once :
    (x : Text) (l : List Text) → contains l x ≡ false → Once l → Once (insert_sorted x l)
unfolding insert_sorted
insert_sorted-Once x [] n h = (refl, tt)
insert_sorted-Once x (y ∷ l) n h =
    ground (
      arith,
      insert_sorted-Once x l,
      contains-insert_sorted y x l,
      text_eq_iff x y,
      text_eq_iff y x,
    )

sort-Sorted : (l : List Text) → Sorted (sort l)
unfolding sort
sort-Sorted [] = tt
sort-Sorted (x ∷ l) = insert_sorted-Sorted x (sort l) (sort-Sorted l)

sort-Once : (l : List Text) → Once l → Once (sort l)
unfolding sort
sort-Once [] h = tt
sort-Once (x ∷ l) (n, h) =
    insert_sorted-Once x (sort l) (ground (arith, contains-sort x l)) (sort-Once l h)

distinct-Once : (l : List Text) → Once (distinct l)
unfolding distinct
distinct-Once [] = tt
distinct-Once (x ∷ l) = ground (arith, distinct-Once l, contains-distinct x l)

-- The keys of a failover rise, and none stands twice.
pub failover_keys_ordered :
    (active : List Text) → Sorted (failover_keys active) × Once (failover_keys active)
unfolding failover_keys
failover_keys_ordered active =
    let all = failover_sentinel_lock_key ∷ filter is_truthy active in
    (sort-Sorted (distinct all), sort-Once (distinct all) (distinct-Once all))

latest-rows :
    (now : ℕ) (id k : Text) (keys : List Text) (ledger : List LedgerRow)
    → latest k (map (failover_row now id) keys ++ ledger)
      ≡ (if contains keys k then some (failover_row now id k) else latest k ledger)
unfolding latest
latest-rows now id k [] ledger = refl
latest-rows now id k (x ∷ keys) ledger =
    ground (arith, latest-rows now id k keys ledger, text_eq_iff x k, text_eq_iff k x)

-- After a failover the newest row of the sentinel and of every active key is the failover row of
-- that key, and every other key keeps the newest row that it had.
pub latest-build_failover_ledger_rows :
    (now : ℕ) (id k : Text) (active : List Text) (ledger : List LedgerRow)
    → latest k (build_failover_ledger_rows now id active ++ ledger) ≡ (
        if text_eq k failover_sentinel_lock_key || (is_truthy k && contains active k)
        then some (failover_row now id k)
        else latest k ledger)
unfolding build_failover_ledger_rows
latest-build_failover_ledger_rows now id k active ledger =
    rw (← contains-failover_keys k active) (latest-rows now id k (failover_keys active) ledger)
