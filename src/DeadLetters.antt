-- ===== src/DeadLetters.antt =====
-- services/dead-letter-service.ts: escalateUnresolvedDeadLetters. A time counts milliseconds. The
-- texts of the alerts and their addresses are not kept.
pub mod Once
pub mod Sent
use vmcp.Base.{
  ℕ, suc, ◌+◌, Bool, true, false, not, ◌&&◌, Option, none, some, List, [], ◌∷◌, filter, Text,
  text_eq, leb, if◌then◌else◌,
}
use vmcp.Errors.{AlertSeverity, high, critical}

pub data Level : Type 0 where
  after_24h after_72h : Level

-- A row of `dead_letter_jobs`.
pub record DeadLetterJob : Type 0 where
  pub id : Text
  pub job_id : Text
  pub archived : Bool
  pub created_at : ℕ
  pub escalated_24h : Bool
  pub escalated_72h : Bool

-- An alert, with the row that it is about.
pub record Escalation : Type 0 where
  pub of_row : Text
  pub job_id : Text
  pub level : Level
  pub severity : AlertSeverity

pub record Board : Type 0 where
  pub rows : List DeadLetterJob
  pub alerts : List Escalation

-- The time of a scan. An alert throws where its audit row is refused, before it is sent; and the
-- update behind it may throw.
pub record ScanEnv : Type 0 where
  pub now : ℕ
  pub alert_fails : DeadLetterJob → Bool
  pub mark_fails : DeadLetterJob → Bool

pub record EscalationCounts : Type 0 where
  pub escalated24 : ℕ
  pub escalated72 : ℕ

abbrev pub escalated : Level → DeadLetterJob → Bool
escalated after_24h row = row.escalated_24h
escalated after_72h row = row.escalated_72h

abbrev pub mark_escalated : Level → DeadLetterJob → DeadLetterJob
mark_escalated after_24h row = record row { escalated_24h = true }
mark_escalated after_72h row = record row { escalated_72h = true }

-- `UPDATE dead_letter_jobs SET … WHERE id = $1`
pub update_row : Text → (DeadLetterJob → DeadLetterJob) → List DeadLetterJob → List DeadLetterJob
update_row id f [] = []
update_row id f (r ∷ rows) = (if text_eq r.id id then f r else r) ∷ update_row id f rows

-- The conditions of the loop, on the row as it was selected.
unfoldable pub due : ℕ → DeadLetterJob → Option Level
due now row =
    if leb (row.created_at + 259200000) now && not row.escalated_72h
    then some after_72h
    else if leb (row.created_at + 86400000) now && not row.escalated_24h
    then some after_24h
    else none

abbrev severity_of : Level → AlertSeverity
severity_of after_24h = high
severity_of after_72h = critical

abbrev pub alert_of : DeadLetterJob → Level → Escalation
alert_of row level = record {
  of_row = row.id;
  job_id = row.job_id;
  level = level;
  severity = severity_of level;
}

-- escalateDeadLetter
pub escalate_dead_letter : DeadLetterJob → Level → Board → Board
escalate_dead_letter row level b = record b { alerts = alert_of row level ∷ b.alerts }

abbrev pub mark_row : DeadLetterJob → Level → Board → Board
mark_row row level b = record b { rows = update_row row.id (mark_escalated level) b.rows }

-- One row: whether it throws, and what it leaves.
pub escalate_row : ScanEnv → DeadLetterJob → Option Level → Board → Bool × Board
unfolding escalate_dead_letter update_row
escalate_row e row none b = (false, b)
escalate_row e row (some level) b =
    let sent = escalate_dead_letter row level b in
    if e.alert_fails row
    then (true, b)
    else if e.mark_fails row
    then (true, sent)
    else (false, mark_row row level sent)

abbrev count_level : Option Level → EscalationCounts → EscalationCounts
count_level none c = c
count_level (some after_24h) c = record c { escalated24 = suc c.escalated24 }
count_level (some after_72h) c = record c { escalated72 = suc c.escalated72 }

-- A row that throws ends the scan.
pub go_on :
    Bool × Board → (Board → Option EscalationCounts × Board) → Option EscalationCounts × Board
go_on (true, b) next = (none, b)
go_on (false, b) next = next b

pub escalate_rows :
    ScanEnv → List DeadLetterJob → EscalationCounts → Board → Option EscalationCounts × Board
unfolding escalate_row due go_on
escalate_rows e [] c b = (some c, b)
escalate_rows e (row ∷ rows) c b =
    let level = due e.now row in
    go_on (escalate_row e row level b) (λ next. escalate_rows e rows (count_level level c) next)

abbrev pub is_unarchived : DeadLetterJob → Bool
is_unarchived row = not row.archived

-- escalateUnresolvedDeadLetters, with no counts where it throws.
unfoldable pub escalate_unresolved : ScanEnv → Board → Option EscalationCounts × Board
unfolding escalate_rows
escalate_unresolved e b =
    escalate_rows e (filter is_unarchived b.rows) (record { escalated24 = 0; escalated72 = 0 }) b

-- The hourly scans, one after the other.
unfoldable pub scans : List ScanEnv → Board → Board
unfolding escalate_unresolved
scans [] b = b
scans (e ∷ es) b = scans es (escalate_unresolved e b).1
