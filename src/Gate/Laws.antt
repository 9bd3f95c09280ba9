-- ===== src/Gate/Laws.antt =====
-- The gate of packages/orchestrator/src/services/dependency-gate.ts, on every branch.
use vmcp.Base.{
  ◌≡◌, refl, ◌↔◌, ◌≢◌, ◌⊎◌, inl, inr, Bool, true, false, ◌||◌, Option, none, some, ℕ, [], ◌∷◌, Text,
  text_eq, text_eq_iff, arith,
}
use vmcp.Status.{
  JobStatus, queued, completed, includes, status_eq, is_terminal, is_retriable_failure,
  is_active_generation,
}
use vmcp.Status.Lifecycle.{status_eq_iff}
use vmcp.Gate.{
  DependencyGate, allow, block_dependency, gate_failed, Dependency, evaluate_dependency_gate,
  PromoteOpts, Decision, can_promote_blocked_job, check_dependency, still_blocked,
  project_slot_active_statuses,
}

abbrev pub waits : DependencyGate → Bool
waits (block_dependency r) = true
waits _ = false

abbrev pub fails : DependencyGate → Bool
fails (gate_failed r) = true
fails _ = false

-- Of a dependency that exists, the gate lets the job pass exactly when it is a completed job of the
-- same project, makes it wait exactly when it is a job of the same project that is not terminal,
-- and fails it exactly when it is of another project or ended without completing.
pub evaluate_dependency_gate_iff :
    (d : Dependency) (expected : Text)
    → let gate = evaluate_dependency_gate (some d) expected in
      ((gate ≡ allow) ↔ ((d.project_id ≡ expected) × (d.status ≡ completed)))
      × ((waits gate ≡ true) ↔ ((d.project_id ≡ expected) × (is_terminal d.status ≡ false)))
      × ((fails gate ≡ true)
          ↔ ((d.project_id ≢ expected) ⊎ ((is_terminal d.status ≡ true) × (d.status ≢ completed))))
unfolding evaluate_dependency_gate
evaluate_dependency_gate_iff d expected = (
  (λ h. ground (arith, own, done), λ h. ground (arith, own, done)),
  (λ h. ground (arith, own, done), λ h. ground (arith, own, done, ended)),
  (λ h. ground (arith, own, done), λ h. ground (arith, own, done)),
)
  where
    own : (text_eq d.project_id expected ≡ true) ↔ (d.project_id ≡ expected)
    own = text_eq_iff d.project_id expected

    done : (status_eq d.status completed ≡ true) ↔ (d.status ≡ completed)
    done = status_eq_iff d.status completed

    ended : d.status ≡ completed → is_terminal d.status ≡ true
    ended e = unfold is_terminal in (rw e)

-- The statuses that hold a project's slot are the active ones and the retriable failures.
pub project_slot_active_statuses_lem :
    (s : JobStatus)
    → includes project_slot_active_statuses s ≡ (is_active_generation s || is_retriable_failure s)
unfolding includes is_active_generation is_retriable_failure
project_slot_active_statuses_lem queued = refl
project_slot_active_statuses_lem _ = refl

-- No job is named: the id is missing or empty.
abbrev pub IsUnnamed : Option Text → Type 0
IsUnnamed id = (id ≡ none) ⊎ (id ≡ some [])

-- The dependency does not stand in the way: there is none, or it is completed.
abbrev pub DependencyMet : PromoteOpts → Type 0
DependencyMet o = IsUnnamed o.depends_on_job_id ⊎ (o.dependency_status ≡ some completed)

-- The blocker, if one is named and it is another job than the finished one, holds no slot.
abbrev pub BlockerGone : PromoteOpts → Type 0
BlockerGone o =
    (b : Text) (s : JobStatus)
    → o.blocked_by_job_id ≡ some b
    → b ≢ []
    → b ≢ o.finished_job_id
    → o.blocked_by_status ≡ some s
    → includes project_slot_active_statuses s ≡ false

-- The dependency is gone, or ended without completing.
abbrev pub DependencyLost : PromoteOpts → Type 0
DependencyLost o =
    (¬ (IsUnnamed o.depends_on_job_id))
    × ((o.dependency_status ≡ none)
        ⊎ ((s : JobStatus) × (o.dependency_status ≡ some s)
            × (is_terminal s ≡ true)
            × (s ≢ completed)))

check_dependency-cases :
    (d : Option Text) (s : Option JobStatus)
    → check_dependency d s ≡ none
    → IsUnnamed d ⊎ (s ≡ some completed)
unfolding check_dependency
check_dependency-cases none s h = inl (inl refl)
check_dependency-cases (some []) s h = inl (inr refl)
check_dependency-cases (some (c ∷ d)) none h = cc
check_dependency-cases (some (c ∷ d)) (some s) h = ground (arith, status_eq_iff s completed)

check_dependency-refuses :
    (d : Option Text) (s : Option JobStatus) {r : Decision}
    → check_dependency d s ≡ some r
    → r.promote ≡ false
unfolding check_dependency
check_dependency-refuses none s h = cc
check_dependency-refuses (some []) s h = cc
check_dependency-refuses (some (c ∷ d)) none h = ground arith
check_dependency-refuses (some (c ∷ d)) (some s) h = ground arith

still_blocked_iff :
    (o : PromoteOpts)
    → (still_blocked o.blocked_by_job_id o.finished_job_id o.blocked_by_status ≡ false)
      ↔ BlockerGone o
unfolding still_blocked
still_blocked_iff o = (
  λ h b s e named ne es. holds o.blocked_by_job_id b s e named ne es h,
  gone o.blocked_by_job_id o.blocked_by_status refl refl,
)
  where
    holds :
        (id : Option Text) (b : Text) (s : JobStatus)
        → id ≡ some b
        → b ≢ []
        → b ≢ o.finished_job_id
        → o.blocked_by_status ≡ some s
        → still_blocked id o.finished_job_id o.blocked_by_status ≡ false
        → includes project_slot_active_statuses s ≡ false
    holds id [] s e named ne es h = absurd (named refl)
    holds id (c ∷ b) s e named ne es h =
        ground (arith, text_eq_iff (c ∷ b) o.finished_job_id, project_slot_active_statuses_lem s)

    gone :
        (b : Option Text) (s : Option JobStatus)
        → o.blocked_by_job_id ≡ b
        → o.blocked_by_status ≡ s
        → BlockerGone o
        → still_blocked b o.finished_job_id s ≡ false
    gone none s e f h = refl
    gone (some []) s e f h = refl
    gone (some (c ∷ b)) none e f h = ground arith
    gone (some (c ∷ b)) (some s) e f h = ground (
      arith,
      text_eq_iff (c ∷ b) o.finished_job_id,
      project_slot_active_statuses_lem s,
      λ (n : c ∷ b ≢ o.finished_job_id). h (c ∷ b) s e (λ k. cc k) n f,
    )

check_dependency_met :
    (d : Option Text) (s : Option JobStatus)
    → IsUnnamed d ⊎ (s ≡ some completed)
    → check_dependency d s ≡ none
unfolding check_dependency is_terminal
check_dependency_met none s h = refl
check_dependency_met (some []) s h = refl
check_dependency_met (some (c ∷ d)) none h = ground arith
check_dependency_met (some (c ∷ d)) (some s) h = ground (arith, status_eq_iff s completed)

-- A blocked job is promoted exactly when its dependency is met, its blocker is gone and no other
-- job holds the slot of the project.
pub can_promote_blocked_job_iff :
    (o : PromoteOpts)
    → ((can_promote_blocked_job o).promote ≡ true)
      ↔ (DependencyMet o × BlockerGone o × (o.concurrent_active_held ≡ false))
unfolding can_promote_blocked_job
can_promote_blocked_job_iff o = (
  λ h. (
    ground (arith, cases),
    (still_blocked_iff o).0 (ground (arith, refuses)),
    ground (arith, refuses),
  ),
  λ h. ground (
    arith,
    check_dependency_met o.depends_on_job_id o.dependency_status h.0,
    (still_blocked_iff o).1 h.1,
  ),
)
  where
    cases : check_dependency o.depends_on_job_id o.dependency_status ≡ none → DependencyMet o
    cases = check_dependency-cases o.depends_on_job_id o.dependency_status

    refuses :
        (r : Decision)
        → check_dependency o.depends_on_job_id o.dependency_status ≡ some r
        → r.promote ≡ false
    refuses r = check_dependency-refuses o.depends_on_job_id o.dependency_status {r = r}

pub named_id : (c : ℕ) (d : Text) {id : Option Text} → id ≡ some (c ∷ d) → ¬ (IsUnnamed id)
named_id c d e (inl h) = cc (e, h)
named_id c d e (inr h) = cc (e, h)

lost_cases :
    (d : Option Text) (s : Option JobStatus) (o : PromoteOpts)
    → o.depends_on_job_id ≡ d
    → o.dependency_status ≡ s
    → ((can_promote_blocked_job o).dep_failed ≡ true) ↔ DependencyLost o
unfolding can_promote_blocked_job
lost_cases none s o e f = (λ h. ground arith, λ h. absurd (h.0 (inl e)))
lost_cases (some []) s o e f = (λ h. ground arith, λ h. absurd (h.0 (inr e)))
lost_cases (some (c ∷ d)) none o e f = (λ h. (named_id c d e, inl f), λ h. ground arith)
lost_cases (some (c ∷ d)) (some s) o e f = (
  λ h. (
    named_id c d e,
    inr (
      s,
      f,
      ground (arith, status_eq_iff s completed),
      ground (arith, status_eq_iff s completed),
    ),
  ),
  λ h. ground (arith, status_eq_iff s completed),
)

-- A blocked job is failed exactly when it has a dependency that is gone or that ended without
-- completing, whoever holds the slot.
pub can_promote_blocked_job-dep_failed_iff :
    (o : PromoteOpts) → ((can_promote_blocked_job o).dep_failed ≡ true) ↔ DependencyLost o
can_promote_blocked_job-dep_failed_iff o =
    lost_cases o.depends_on_job_id o.dependency_status o refl refl
