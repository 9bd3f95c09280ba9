-- ===== src/DeadLetters/Sent.antt =====
-- services/dead-letter-service.ts: the alerts of one scan.
use vmcp.Base.{
  Bool, true, false, ◌&&◌, any, Option, Option-cases, none, some, List, [], ◌∷◌, ◌++◌, filter,
  text_eq, text_eq_refl, ◌≡◌, inl, inr, refl, arith, is_some,
}
use vmcp.DeadLetters.{
  Level, after_24h, after_72h, DeadLetterJob, Escalation, Board, ScanEnv, EscalationCounts, due,
  escalate_dead_letter, mark_row, escalate_row, go_on, escalate_rows, is_unarchived,
  escalate_unresolved,
}
use vmcp.DeadLetters.Once.{same_level}

-- The alerts of a row at a level.
abbrev pub is_alert_of : DeadLetterJob → Level → Escalation → Bool
is_alert_of r level m = text_eq m.of_row r.id && same_level m.level level

same_level_refl : (level : Level) → same_level level level ≡ true
same_level_refl after_24h = refl
same_level_refl after_72h = refl

module _ (e : ScanEnv)
    (steady : (row : DeadLetterJob)
      → (e.alert_fails row ≡ false) × (e.mark_fails row ≡ false)) where
  -- A row that is due is sent, and the loop goes on.
  row_due :
      (r : DeadLetterJob) (level : Level) (b : Board)
      (next : Board → Option EscalationCounts × Board)
      → due e.now r ≡ some level
      → go_on (escalate_row e r (due e.now r) b) next
        ≡ next (mark_row r level (escalate_dead_letter r level b))
  unfolding escalate_row go_on
  row_due r level b next h = rw h (rw ((steady r).0) (rw ((steady r).1) refl))

  row_not_due :
      (r : DeadLetterJob) (b : Board) (next : Board → Option EscalationCounts × Board)
      → due e.now r ≡ none
      → go_on (escalate_row e r (due e.now r) b) next ≡ next b
  unfolding escalate_row go_on
  row_not_due r b next h = rw h refl

  -- Alerts stay, and every row is reached.
  alerts_stay :
      (p : Escalation → Bool) (todo : List DeadLetterJob) (c : EscalationCounts) (b : Board)
      → any p b.alerts ≡ true
      → (any p (escalate_rows e todo c b).1.alerts ≡ true)
        × (is_some (escalate_rows e todo c b).0 ≡ true)
  unfolding escalate_rows escalate_dead_letter
  alerts_stay p [] c b h = (h, refl)
  alerts_stay p (r ∷ todo) c b h = elim (Option-cases (due e.now r)) [
    | inl n ↦ rw (row_not_due r b _ n) (alerts_stay p todo _ b h)
    | inr (level, d) ↦ rw (row_due r level b _ d) (alerts_stay p todo _ _ (ground (arith, h)))
  ]

  rows_sent :
      (r : DeadLetterJob) (level : Level) (before after : List DeadLetterJob) (c : EscalationCounts)
      (b : Board)
      → due e.now r ≡ some level
      → (any (is_alert_of r level) (escalate_rows e (before ++ r ∷ after) c b).1.alerts ≡ true)
        × (is_some (escalate_rows e (before ++ r ∷ after) c b).0 ≡ true)
  unfolding escalate_rows escalate_dead_letter
  rows_sent r level [] after c b d = rw (row_due r level b _ d) (
      alerts_stay (is_alert_of r level) after _ _
        (rw (text_eq_refl r.id) (rw (same_level_refl level) refl)))
  rows_sent r level (q ∷ before) after c b d = elim (Option-cases (due e.now q)) [
    | inl n ↦ rw (row_not_due q b _ n) (rows_sent r level before after _ b d)
    | inr (other, x) ↦ rw (row_due q other b _ x) (rows_sent r level before after _ _ d)
  ]

filter-middle :
    (r : DeadLetterJob) (before after : List DeadLetterJob)
    → is_unarchived r ≡ true
    → filter is_unarchived (before ++ r ∷ after)
      ≡ filter is_unarchived before ++ r ∷ filter is_unarchived after
filter-middle r [] after h = rw h refl
filter-middle r (q ∷ before) after h = ground (arith, filter-middle r before after h)

-- A scan in which nothing fails ends with its counts, and each unarchived row that is due at a
-- level, wherever in the table it stands, has an alert of that level.
pub escalate_unresolved_sends :
    (e : ScanEnv) (b : Board) (r : DeadLetterJob) (level : Level)
    (before after : List DeadLetterJob)
    → ((row : DeadLetterJob) → (e.alert_fails row ≡ false) × (e.mark_fails row ≡ false))
    → b.rows ≡ before ++ r ∷ after
    → is_unarchived r ≡ true
    → due e.now r ≡ some level
    → (any (is_alert_of r level) (escalate_unresolved e b).1.alerts ≡ true)
      × (is_some (escalate_unresolved e b).0 ≡ true)
unfolding escalate_unresolved
escalate_unresolved_sends e b r level before after steady h unarchived d = rw h (
    rw (filter-middle r before after unarchived)
      (rows_sent e steady r level (filter is_unarchived before) (filter is_unarchived after) _ _ d))
