-- ===== src/Examples/DeadLetters.antt =====
-- Escalations at concrete inputs: services/dead-letter-service.ts.
use vmcp.Base.{true, false, any, is_some, [], ◌∷◌, map, codes, ◌≡◌, refl, text_eq}
use vmcp.DeadLetters.{
  after_24h, after_72h, DeadLetterJob, Board, Escalation, ScanEnv, due, escalate_unresolved, scans,
}
use vmcp.DeadLetters.Once.{NoRepeat, scans-NoRepeat}
use vmcp.DeadLetters.Sent.{is_alert_of, escalate_unresolved_sends}

abbrev old : DeadLetterJob
old = record {
  id = codes "d1";
  job_id = codes "j1";
  archived = false;
  created_at = 0;
  escalated_24h = false;
  escalated_72h = false;
}

abbrev board : Board
board = record { rows = old ∷ []; alerts = [] }

-- The scan after three days.
abbrev late : ScanEnv
late = record { now = 259200000; alert_fails = λ r. false; mark_fails = λ r. false }

-- A row that no scan saw before is escalated as critical first, and by the next scan as one of a
-- day.
late_row :
    map Escalation.level (scans (late ∷ late ∷ late ∷ []) board).alerts ≡ after_24h ∷ after_72h ∷ []
unfolding scans due text_eq
late_row = refl

scans-NoRepeat_example : NoRepeat (scans (late ∷ late ∷ []) board).alerts
scans-NoRepeat_example =
    scans-NoRepeat (late ∷ late ∷ []) (old ∷ []) (tt, tt) ((λ r. refl), ((λ r. refl), tt))

escalate_unresolved_sends_example :
    (any (is_alert_of old after_72h) (escalate_unresolved late board).1.alerts ≡ true)
    × (is_some (escalate_unresolved late board).0 ≡ true)
unfolding due
escalate_unresolved_sends_example =
    escalate_unresolved_sends late board old after_72h [] [] (λ r. (refl, refl)) refl refl refl
