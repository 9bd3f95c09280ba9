-- ===== src/Status/Lifecycle.antt =====
-- What the transition table of packages/shared/src/job-status.ts allows in one step and in many.
use vmcp.Base.{
  ℕ, ◌≡◌, refl, ◌↔◌, ◌∙◌, subst, ◌+◌, ◌≤◌, ◌<◌, ◌==◌, if◌then◌else◌, dec_lt, ◌⊎◌, inl, inr, true,
  false, List, [], ◌∷◌, arith,
}
use vmcp.Status.{
  JobStatus, queued, dispatching, dispatch_timeout, dispatch_failed, blocked, staging, validating,
  validation_report, validation_failed, reimport_failed, committing, commit_failed,
  post_commit_verify, rollback, completed, lock_stale, dep_failed, paused_editor_lock, cancelled,
  dead_letter, status_eq, is_terminal, is_retriable_failure, is_active_generation,
  can_transition_job_status,
}

pub status_eq_iff : (a b : JobStatus) → (status_eq a b ≡ true) ↔ (a ≡ b)
unfolding status_eq
status_eq_iff queued b = ground arith
status_eq_iff dispatching b = ground arith
status_eq_iff _ b = ground arith

-- A sequence of allowed transitions, with the statuses that it visits after its start.
pub data Trace : JobStatus → List JobStatus → JobStatus → Type 0 where
  done : {a : JobStatus} → Trace a [] a
  move :
      {a b c : JobStatus} {l : List JobStatus}
      → can_transition_job_status a b ≡ true
      → Trace b l c
      → Trace a (b ∷ l) c

-- A terminal status allows no transition to another status, and the statuses that allow none are
-- exactly the terminal ones.
pub terminal_iff_no_exit :
    (a : JobStatus)
    → (is_terminal a ≡ true) ↔ ((b : JobStatus) → can_transition_job_status a b ≡ true → a ≡ b)
unfolding is_terminal can_transition_job_status
terminal_iff_no_exit queued = (λ h. cc, λ h. cc (h cancelled refl))
terminal_iff_no_exit dispatching = (λ h. cc, λ h. cc (h cancelled refl))
terminal_iff_no_exit dispatch_timeout = (λ h. cc, λ h. cc (h cancelled refl))
terminal_iff_no_exit dispatch_failed = (λ h. cc, λ h. cc (h cancelled refl))
terminal_iff_no_exit blocked = (λ h. cc, λ h. cc (h cancelled refl))
terminal_iff_no_exit staging = (λ h. cc, λ h. cc (h cancelled refl))
terminal_iff_no_exit validating = (λ h. cc, λ h. cc (h cancelled refl))
terminal_iff_no_exit validation_report = (λ h. cc, λ h. cc (h cancelled refl))
terminal_iff_no_exit validation_failed = (λ h. cc, λ h. cc (h cancelled refl))
terminal_iff_no_exit reimport_failed = (λ h. cc, λ h. cc (h cancelled refl))
terminal_iff_no_exit committing = (λ h. cc, λ h. cc (h cancelled refl))
terminal_iff_no_exit commit_failed = (λ h. cc, λ h. cc (h cancelled refl))
terminal_iff_no_exit post_commit_verify = (λ h. cc, λ h. cc (h cancelled refl))
terminal_iff_no_exit lock_stale = (λ h. cc, λ h. cc (h cancelled refl))
terminal_iff_no_exit paused_editor_lock = (λ h. cc, λ h. cc (h cancelled refl))
terminal_iff_no_exit s = (λ _ b h. ground arith, λ _. refl)

-- A sequence of transitions that starts in a terminal status stays there.
pub terminal_absorbs :
    {a b : JobStatus} {l : List JobStatus} → is_terminal a ≡ true → Trace a l b → a ≡ b
terminal_absorbs h done = refl
terminal_absorbs {a} {b} h (move {b = c} ok t) =
    let same : a ≡ c = (terminal_iff_no_exit a).0 h c ok in
    same ∙ terminal_absorbs (subst (λ s. is_terminal s ≡ true) same h) t

pub dep_failed-source :
    (a b : JobStatus) → can_transition_job_status a b ≡ true → b ≡ dep_failed → a ≡ dep_failed
unfolding can_transition_job_status
dep_failed-source queued b ok e = ground arith
dep_failed-source s b ok e = ground arith

-- No sequence of transitions from another status leads to `dep_failed`.
pub dep_failed_unreachable :
    {a b : JobStatus} {l : List JobStatus} → Trace a l b → b ≡ dep_failed → a ≡ dep_failed
dep_failed_unreachable done e = e
dep_failed_unreachable {a} (move {b = c} ok t) e =
    dep_failed-source a c ok (dep_failed_unreachable t e)

-- How far a job has come: the stages of a run in order, and 0 or 1 for what lies aside.
abbrev phase : JobStatus → ℕ
phase staging = 2
phase validating = 3
phase validation_report = 4
phase committing = 5
phase post_commit_verify = 6
phase completed = 7
phase paused_editor_lock = 1
phase dispatching = 1
phase _ = 0

phase-step : (a b : JobStatus) → can_transition_job_status a b ≡ true → phase b ≤ phase a + 1
unfolding can_transition_job_status
phase-step queued b ok = ground arith
phase-step s b ok = ground arith

-- The status is among those visited.
abbrev pub Visits : JobStatus → List JobStatus → Type 0
Visits s [] = ⊥
Visits s (x ∷ l) = (x ≡ s) ⊎ Visits s l

abbrev stage : ℕ → JobStatus
stage n =
    if n == 2
    then staging
    else if n == 3
    then validating
    else if n == 4
    then validation_report
    else if n == 5
    then committing
    else if n == 6
    then post_commit_verify
    else completed

phase-stage : (s : JobStatus) (n : ℕ) → 2 ≤ n → phase s ≡ n → s ≡ stage n
phase-stage queued n h e = ground arith
phase-stage s n h e = ground arith

-- Phases rise one at a time, so a trace that passes `n` visits the status of phase `n`.
Trace-Visits :
    (n : ℕ) {a b : JobStatus} {l : List JobStatus}
    → Trace a l b
    → 2 ≤ n
    → phase a < n
    → n ≤ phase b
    → Visits (stage n) l
Trace-Visits n done two below above = omega arith
Trace-Visits n {a} (move {b = c} ok t) two below above = elim (dec_lt (phase c) n) [
  | yes low ↦ inr (Trace-Visits n t two low above)
  | no high ↦ inl (phase-stage c n two (omega (arith, phase-step a c ok)))
]

-- Every sequence of transitions that takes a job from `queued` to `completed` visits each stage:
-- staging, validation, its report, the commit, and the check after the commit.
pub completed_passes_stages :
    {l : List JobStatus}
    → Trace queued l completed
    → Visits staging l
      × Visits validating l
      × Visits validation_report l
      × Visits committing l
      × Visits post_commit_verify l
completed_passes_stages t = (
  Trace-Visits 2 t (omega arith) (omega arith) (omega arith),
  Trace-Visits 3 t (omega arith) (omega arith) (omega arith),
  Trace-Visits 4 t (omega arith) (omega arith) (omega arith),
  Trace-Visits 5 t (omega arith) (omega arith) (omega arith),
  Trace-Visits 6 t (omega arith) (omega arith) (omega arith),
)

from_post_commit : Trace post_commit_verify (completed ∷ []) completed
unfolding can_transition_job_status
from_post_commit = move refl done

from_report : Trace validation_report (committing ∷ post_commit_verify ∷ completed ∷ []) completed
unfolding can_transition_job_status
from_report = move refl (move refl from_post_commit)

from_staging :
    Trace staging
      (validating ∷ validation_report ∷ committing ∷ post_commit_verify ∷ completed ∷ [])
      completed
unfolding can_transition_job_status
from_staging = move refl (move refl from_report)

from_queued :
    Trace queued
      (dispatching ∷ staging ∷ validating ∷ validation_report ∷ committing ∷ post_commit_verify
        ∷ completed ∷ [])
      completed
unfolding can_transition_job_status
from_queued = move refl (move refl from_staging)

-- From every status that is not terminal, some sequence of transitions completes the job.
pub live_can_complete :
    (a : JobStatus) → is_terminal a ≡ false → (l : List JobStatus) × Trace a l completed
unfolding is_terminal can_transition_job_status
live_can_complete queued h = (_, from_queued)
live_can_complete dispatching h = (_, move refl from_staging)
live_can_complete staging h = (_, from_staging)
live_can_complete paused_editor_lock h = (_, move refl from_staging)
live_can_complete validating h = (_, move refl from_report)
live_can_complete validation_report h = (_, from_report)
live_can_complete committing h = (_, move refl from_post_commit)
live_can_complete post_commit_verify h = (_, from_post_commit)
live_can_complete completed h = cc
live_can_complete rollback h = cc
live_can_complete dep_failed h = cc
live_can_complete cancelled h = cc
live_can_complete dead_letter h = cc
live_can_complete s h = (_, move refl from_queued)

-- A retriable failure is not terminal and holds no active status, and it may be queued again, be
-- dead-lettered or be cancelled, and may not go straight to a commit or to completion.
pub retriable_exits :
    (a : JobStatus)
    → is_retriable_failure a ≡ true
    → (is_terminal a ≡ false)
      × (is_active_generation a ≡ false)
      × (can_transition_job_status a queued ≡ true)
      × (can_transition_job_status a dead_letter ≡ true)
      × (can_transition_job_status a cancelled ≡ true)
      × (can_transition_job_status a committing ≡ false)
      × (can_transition_job_status a completed ≡ false)
unfolding is_retriable_failure is_terminal is_active_generation can_transition_job_status
retriable_exits queued h = cc
retriable_exits s h = ground arith
