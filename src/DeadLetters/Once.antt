-- ===== src/DeadLetters/Once.antt =====
-- services/dead-letter-service.ts: the alerts of repeated scans.
use vmcp.Base.{
  ℕ, Bool, true, false, Option, Option-cases, some, List, [], ◌∷◌, filter, Text, text_eq, All,
  if◌then◌else◌, ◌≡◌, ◌⊎◌, inl, inr, refl, arith, Bool-cases,
}
use vmcp.DeadLetters.{
  Level, after_24h, after_72h, DeadLetterJob, Escalation, Board, ScanEnv, EscalationCounts,
  escalated, mark_escalated, update_row, due, alert_of, escalate_dead_letter, mark_row,
  escalate_row, go_on, escalate_rows, is_unarchived, escalate_unresolved, scans,
}

abbrev pub same_level : Level → Level → Bool
same_level after_24h after_24h = true
same_level after_24h after_72h = false
same_level after_72h after_24h = false
same_level after_72h after_72h = true

-- No two alerts are of the same row and level.
abbrev pub NoRepeat : List Escalation → Type 0
NoRepeat [] = Unit
NoRepeat (a ∷ alerts) =
    All (λ m. (text_eq a.of_row m.of_row ≡ false) ⊎ (same_level m.level a.level ≡ false)) alerts
    × NoRepeat alerts

-- The ids of the rows differ, as the primary key has it.
abbrev pub UniqueIds : List DeadLetterJob → Type 0
UniqueIds [] = Unit
UniqueIds (r ∷ rows) = All (λ q. text_eq q.id r.id ≡ false) rows × UniqueIds rows

abbrev Covers : DeadLetterJob → Escalation → Type 0
Covers r m = (text_eq r.id m.of_row ≡ false) ⊎ (escalated m.level r ≡ true)

abbrev Covered : List Escalation → DeadLetterJob → Type 0
Covered alerts r = All (Covers r) alerts

-- Every alert is of another row or its level is marked in the row.
record IsTold (alerts : List Escalation) (rows : List DeadLetterJob) : Type 0 where
  once : NoRepeat alerts
  covered : All (Covered alerts) rows
  unique : UniqueIds rows

module _ {ℓ} {A : Type ℓ} (P : A → Type 0) where
  All-filter : (p : A → Bool) (xs : List A) → All P xs → All P (filter p xs)
  All-filter p [] h = tt
  All-filter p (x ∷ xs) (y, h) = elim (Bool-cases (p x)) [
    | inl b ↦ rw b (y, All-filter p xs h)
    | inr b ↦ rw b (All-filter p xs h)
  ]

  All-map : (Q : A → Type 0) (xs : List A) → ((x : A) → P x → Q x) → All P xs → All Q xs
  All-map Q [] f h = tt
  All-map Q (x ∷ xs) f (y, h) = (f x y, All-map Q xs f h)

UniqueIds-filter :
    (rows : List DeadLetterJob) → UniqueIds rows → UniqueIds (filter is_unarchived rows)
UniqueIds-filter [] h = tt
UniqueIds-filter (r ∷ rows) (a, h) = elim (Bool-cases (is_unarchived r)) [
  | inl b ↦
      rw b
        (All-filter (λ q. text_eq q.id r.id ≡ false) is_unarchived rows a, UniqueIds-filter rows h)
  | inr b ↦ rw b (UniqueIds-filter rows h)
]

due-escalated :
    (now : ℕ) (r : DeadLetterJob) (level : Level)
    → due now r ≡ some level
    → escalated level r ≡ false
unfolding due
due-escalated now r after_24h h = ground (arith, h)
due-escalated now r after_72h h = ground (arith, h)

mark-id : (level : Level) (r : DeadLetterJob) → (mark_escalated level r).id ≡ r.id
mark-id after_24h r = refl
mark-id after_72h r = refl

mark-escalated :
    (level : Level) (r : DeadLetterJob) → escalated level (mark_escalated level r) ≡ true
mark-escalated after_24h r = refl
mark-escalated after_72h r = refl

mark-keeps :
    (k level : Level) (r : DeadLetterJob)
    → escalated k r ≡ true
    → escalated k (mark_escalated level r) ≡ true
mark-keeps after_24h after_24h r h = refl
mark-keeps after_24h after_72h r h = h
mark-keeps after_72h after_24h r h = h
mark-keeps after_72h after_72h r h = refl

Covers-mark :
    (level : Level) (r : DeadLetterJob) (m : Escalation)
    → Covers r m
    → Covers (mark_escalated level r) m
Covers-mark level r m (inl h) = inl (rw (mark-id level r) h)
Covers-mark level r m (inr h) = inr (mark-keeps m.level level r h)

other_level :
    (k level : Level) (r : DeadLetterJob)
    → escalated k r ≡ true
    → escalated level r ≡ false
    → same_level k level ≡ false
other_level after_24h after_24h r h n = cc
other_level after_24h after_72h r h n = refl
other_level after_72h after_24h r h n = refl
other_level after_72h after_72h r h n = cc

-- An alert for a row whose level is not marked is the first.
first_alert :
    (r : DeadLetterJob) (level : Level) (alerts : List Escalation)
    → escalated level r ≡ false
    → Covered alerts r
    → All (λ m. (text_eq r.id m.of_row ≡ false) ⊎ (same_level m.level level ≡ false)) alerts
first_alert r level alerts n h =
    All-map (Covers r) _ alerts
      (λ m c. elim c [
        | inl other ↦ inl other
        | inr told ↦ inr (other_level m.level level r told n)
      ])
      h

-- The table after a mark: the alert of the marked row is covered too.
module _ (r : DeadLetterJob) (level : Level) where
  Covered-marked :
      (q : DeadLetterJob) (alerts : List Escalation)
      → Covered alerts q
      → Covered (alert_of r level ∷ alerts) (mark_escalated level q)
  Covered-marked q alerts h = (
    inr (mark-escalated level q),
    All-map (Covers q) (Covers (mark_escalated level q)) alerts (λ m. Covers-mark level q m) h,
  )

  Covered-if :
      (t : Bool) (q : DeadLetterJob) (alerts : List Escalation)
      → text_eq q.id r.id ≡ t
      → Covered alerts q
      → Covered (alert_of r level ∷ alerts) (if t then mark_escalated level q else q)
  Covered-if true q alerts e h = Covered-marked q alerts h
  Covered-if false q alerts e h = (inl e, h)

  Covered-update_row :
      (rows : List DeadLetterJob) (alerts : List Escalation)
      → All (Covered alerts) rows
      → All (Covered (alert_of r level ∷ alerts)) (update_row r.id (mark_escalated level) rows)
  unfolding update_row
  Covered-update_row [] alerts h = tt
  Covered-update_row (q ∷ rows) alerts (x, h) =
      (Covered-if (text_eq q.id r.id) q alerts refl x, Covered-update_row rows alerts h)

  Covered-others :
      (rows : List DeadLetterJob) (alerts : List Escalation)
      → All (λ q. text_eq q.id r.id ≡ false) rows
      → All (Covered alerts) rows
      → All (Covered (alert_of r level ∷ alerts)) rows
  Covered-others [] alerts u h = tt
  Covered-others (q ∷ rows) alerts (v, u) (x, h) = ((inl v, x), Covered-others rows alerts u h)

ids-update_row :
    (id other : Text) (level : Level) (rows : List DeadLetterJob)
    → All (λ q. text_eq q.id id ≡ false) rows
    → All (λ q. text_eq q.id id ≡ false) (update_row other (mark_escalated level) rows)
unfolding update_row
ids-update_row id other level [] h = tt
ids-update_row id other level (q ∷ rows) (x, h) = elim (Bool-cases (text_eq q.id other)) [
  | inl b ↦ rw b (rw (mark-id level q) x, ids-update_row id other level rows h)
  | inr b ↦ rw b (x, ids-update_row id other level rows h)
]

UniqueIds-update_row :
    (id : Text) (level : Level) (rows : List DeadLetterJob)
    → UniqueIds rows
    → UniqueIds (update_row id (mark_escalated level) rows)
unfolding update_row
UniqueIds-update_row id level [] h = tt
UniqueIds-update_row id level (q ∷ rows) (x, h) = elim (Bool-cases (text_eq q.id id)) [
  | inl b ↦ rw b (
    rw (mark-id level q) (ids-update_row q.id id level rows x),
    UniqueIds-update_row id level rows h,
  )
  | inr b ↦ rw b (ids-update_row q.id id level rows x, UniqueIds-update_row id level rows h)
]

-- What the loop keeps: the board is told, and so are the rows that are left.
record IsReady (todo : List DeadLetterJob) (b : Board) : Type 0 where
  told : IsTold b.alerts b.rows
  left : All (Covered b.alerts) todo
  left_unique : UniqueIds todo

abbrev IsBoardTold : Board → Type 0
IsBoardTold b = IsTold b.alerts b.rows

sent-IsReady :
    (r : DeadLetterJob) (level : Level) (rest : List DeadLetterJob) (b : Board)
    → escalated level r ≡ false
    → IsReady (r ∷ rest) b
    → IsReady rest (mark_row r level (escalate_dead_letter r level b))
unfolding escalate_dead_letter
sent-IsReady r level rest b n h = record {
  told = record {
    once = (first_alert r level b.alerts n h.left.0, h.told.once);
    covered = Covered-update_row r level b.rows b.alerts h.told.covered;
    unique = UniqueIds-update_row r.id level b.rows h.told.unique;
  };
  left = Covered-others r level rest b.alerts h.left_unique.0 h.left.1;
  left_unique = h.left_unique.1;
}

skipped-IsReady :
    (r : DeadLetterJob) (rest : List DeadLetterJob) (b : Board)
    → IsReady (r ∷ rest) b
    → IsReady rest b
skipped-IsReady r rest b h = record {
  told = h.told;
  left = h.left.1;
  left_unique = h.left_unique.1;
}

-- What is left of a scan in which no mark is refused.
module _ (e : ScanEnv) (marks : (row : DeadLetterJob) → e.mark_fails row ≡ false) where
  step-IsTold :
      (r : DeadLetterJob) (rest : List DeadLetterJob) (b : Board)
      (next : Board → Option EscalationCounts × Board)
      → ((after : Board) → IsReady rest after → IsBoardTold (next after).1)
      → IsReady (r ∷ rest) b
      → IsBoardTold (go_on (escalate_row e r (due e.now r) b) next).1
  unfolding escalate_row go_on
  step-IsTold r rest b next k h = elim (Option-cases (due e.now r)) [
    | inl none_due ↦ rw none_due (k b (skipped-IsReady r rest b h))
    | inr (level, is_due) ↦ rw is_due (elim (Bool-cases (e.alert_fails r)) [
      | inl failed ↦ rw failed h.told
      | inr sent ↦
          rw sent (
            rw (marks r) (k _ (sent-IsReady r level rest b (due-escalated e.now r level is_due) h)))
    ])
  ]

  rows-IsTold :
      (todo : List DeadLetterJob) (c : EscalationCounts) (b : Board)
      → IsReady todo b
      → IsBoardTold (escalate_rows e todo c b).1
  unfolding escalate_rows
  rows-IsTold [] c b h = h.told
  rows-IsTold (r ∷ rest) c b h = step-IsTold r rest b _ (λ after k. rows-IsTold rest _ after k) h

  scan-IsTold : (b : Board) → IsBoardTold b → IsBoardTold (escalate_unresolved e b).1
  unfolding escalate_unresolved
  scan-IsTold b h = rows-IsTold (filter is_unarchived b.rows) _ b (record {
    told = h;
    left = All-filter (Covered b.alerts) is_unarchived b.rows h.covered;
    left_unique = UniqueIds-filter b.rows h.unique;
  })

abbrev pub Marks : ScanEnv → Type 0
Marks e = (row : DeadLetterJob) → e.mark_fails row ≡ false

scans-IsTold :
    (es : List ScanEnv) (b : Board) → All Marks es → IsBoardTold b → IsBoardTold (scans es b)
unfolding scans
scans-IsTold [] b m h = h
scans-IsTold (e ∷ es) b (m, ms) h = scans-IsTold es _ ms (scan-IsTold e m b h)

nothing-Covered : (rows : List DeadLetterJob) → All (Covered []) rows
nothing-Covered [] = tt
nothing-Covered (r ∷ rows) = (tt, nothing-Covered rows)

-- However often and at whatever times dead letters are scanned, no row is escalated twice at the
-- same level, if the updates that mark the rows succeed; alerts may fail and end a scan anywhere.
pub scans-NoRepeat :
    (es : List ScanEnv) (rows : List DeadLetterJob)
    → UniqueIds rows
    → All Marks es
    → NoRepeat (scans es (record { rows = rows; alerts = [] })).alerts
scans-NoRepeat es rows u m =
    (scans-IsTold es _ m (record { once = tt; covered = nothing-Covered rows; unique = u })).once
