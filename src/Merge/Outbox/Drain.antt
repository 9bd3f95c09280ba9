-- ===== src/Merge/Outbox/Drain.antt =====
-- The query of createDefaultMergeOutboxDepsWithDispatchGuard, and processPendingMergeOutbox.
use vmcp.Base.{
  ℕ, zero, ◌+◌, suc, Bool, true, false, not, ◌&&◌, ◌||◌, Option, none, some, List, [], ◌∷◌, Text,
  codes, starts_with, length, filter, ◌≡◌, refl, arith,
}
use vmcp.Merge.Envelope.{PendingRow}
use vmcp.Merge.Run.{WorkerEnv, Tables, OutboxEntry, Attempt, success, raised}
use vmcp.Merge.Outbox.{
  RowOutcome, was_applied, was_failed, was_dispatched, was_skipped, process_row, is_pending, take,
  dispatch_detail,
}
use vmcp.Merge.Outbox.Outcomes.{Fits}

-- `detail IS NULL OR detail NOT LIKE 'dispatched %'`
undispatched : Option Text → Bool
undispatched none = true
undispatched (some d) = not (starts_with d (codes "dispatched "))

-- The guarded condition on a row.
unfoldable pub is_listed : Bool → OutboxEntry → Bool
unfolding undispatched
is_listed redispatch r = is_pending r.status && (redispatch || undispatched r.detail)

-- The rows for the entries, with the project and the override of each: `JOIN`.
join_rows : (OutboxEntry → Option PendingRow) → List OutboxEntry → List PendingRow
join_rows joined [] = []
join_rows joined (r ∷ rows) =
    let rest = join_rows joined rows in elim (joined r) [ none ↦ rest | some p ↦ p ∷ rest ]

first_rows : ℕ → List PendingRow → List PendingRow
first_rows zero rows = []
first_rows (suc n) [] = []
first_rows (suc n) (r ∷ rows) = r ∷ first_rows n rows

-- listPending, the oldest rows first.
unfoldable pub list_pending :
    (OutboxEntry → Option PendingRow) → Bool → ℕ → Tables → List PendingRow
unfolding join_rows first_rows is_listed
list_pending joined redispatch limit t =
    first_rows limit (join_rows joined (filter (is_listed redispatch) t.outbox))

pub record Counts : Type 0 where
  pub applied : ℕ
  pub failed : ℕ
  pub dispatched : ℕ
  pub skipped : ℕ

pub count : RowOutcome → Counts → Counts
count was_applied c = record c { applied = c.applied + 1 }
count was_failed c = record c { failed = c.failed + 1 }
count was_dispatched c = record c { dispatched = c.dispatched + 1 }
count was_skipped c = record c { skipped = c.skipped + 1 }

-- The rows behind one that is done; an exception ends the loop.
proceed :
    (Counts → Tables → Attempt Counts × Tables)
    → Counts
    → Attempt RowOutcome × Tables
    → Attempt Counts × Tables
unfolding count
proceed next c (success out, t) = next (count out c) t
proceed next c (raised fault, t) = (raised fault, t)

-- The loop of processPendingMergeOutbox, with the environment that each row meets.
process_rows : (Text → WorkerEnv) → List PendingRow → Counts → Tables → Attempt Counts × Tables
unfolding proceed
process_rows envs [] c t = (success c, t)
process_rows envs (row ∷ rows) c t =
    proceed (process_rows envs rows) c (process_row row (envs row.id) t)

-- processPendingMergeOutbox
unfoldable pub process_pending :
    (OutboxEntry → Option PendingRow)
    → Bool
    → ℕ
    → (Text → WorkerEnv)
    → Tables
    → Attempt Counts × Tables
unfolding process_rows list_pending
process_pending joined redispatch limit envs t =
    process_rows envs (list_pending joined redispatch limit t)
      (record { applied = 0; failed = 0; dispatched = 0; skipped = 0 }) t

abbrev limit_of_drain : ℕ
limit_of_drain = 10

-- runMergeOutboxDrain
unfoldable pub run_drain :
    (OutboxEntry → Option PendingRow) → Bool → (Text → WorkerEnv) → Tables → Attempt Counts × Tables
unfolding process_pending
run_drain joined redispatch envs t = process_pending joined redispatch limit_of_drain envs t

dispatched_detail :
    (row : PendingRow) (o : Option Text)
    → o ≡ some (take 2000 (dispatch_detail row))
    → undispatched o ≡ false
unfolding undispatched take starts_with
dispatched_detail row o h = rw h refl

-- A row with the outcome of its processing is not listed again without re-dispatch.
pub Fits-unlisted :
    (row : PendingRow) (before r : OutboxEntry) (out : RowOutcome)
    → Fits row before out r
    → is_listed false r ≡ false
unfolding is_listed
Fits-unlisted row before r was_applied h = rw h refl
Fits-unlisted row before r was_failed h = rw h refl
Fits-unlisted row before r was_dispatched (h, d) = rw h (dispatched_detail row r.detail d)
Fits-unlisted row before r was_skipped h = absurd h

abbrev total : Counts → ℕ
total c = c.applied + c.failed + c.dispatched + c.skipped

total-count : (out : RowOutcome) (c : Counts) → total (count out c) ≡ total c + 1
unfolding count
total-count was_applied c = omega arith
total-count was_failed c = omega arith
total-count was_dispatched c = omega arith
total-count was_skipped c = omega arith

total-proceed :
    (next : Counts → Tables → Attempt Counts × Tables) (n : ℕ) (c c' : Counts)
    (r : Attempt RowOutcome × Tables)
    → ((d : Counts) (t : Tables) → (next d t).0 ≡ success c' → total c' ≡ total d + n)
    → (proceed next c r).0 ≡ success c'
    → total c' ≡ total c + suc n
unfolding proceed
total-proceed next n c c' (success out, t) f h =
    omega (arith, f (count out c) t h, total-count out c)
total-proceed next n c c' (raised fault, t) f h = absurd (ground (arith, h))

total-process_rows :
    (envs : Text → WorkerEnv) (rows : List PendingRow) (c : Counts) (t : Tables) (c' : Counts)
    → (process_rows envs rows c t).0 ≡ success c'
    → total c' ≡ total c + length rows
unfolding process_rows
total-process_rows envs [] c t c' h = let same : success c ≡ success c' = h in ground (arith, same)
total-process_rows envs (row ∷ rows) c t c' h =
    total-proceed (process_rows envs rows) (length rows) c c' (process_row row (envs row.id) t)
      (λ d s k. total-process_rows envs rows d s c' k) h

-- The counts of a drain that comes to its end add up to the rows that it listed: every row is
-- counted once.
pub run_drain_counts :
    (joined : OutboxEntry → Option PendingRow) (redispatch : Bool) (envs : Text → WorkerEnv)
    (t : Tables) (c : Counts)
    → (run_drain joined redispatch envs t).0 ≡ success c
    → c.applied + c.failed + c.dispatched + c.skipped ≡ length (list_pending joined redispatch 10 t)
unfolding run_drain
run_drain_counts joined redispatch envs t c h = omega (
  arith,
  total-process_rows envs (list_pending joined redispatch 10 t)
      (record { applied = 0; failed = 0; dispatched = 0; skipped = 0 }) t c h,
)
