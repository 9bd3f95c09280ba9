-- ===== src/Gate.antt =====
-- packages/orchestrator/src/services/dependency-gate.ts: whether a job has to wait for the job
-- that it depends on, or for the one that holds the project's generation slot.
pub mod Laws
use vmcp.Base.{
  Bool, true, false, not, ◌&&◌, ◌||◌, Option, none, some, List, [], ◌∷◌, ◌++◌, is_some, Text, codes,
  text_eq, if◌then◌else◌,
}
use vmcp.Status.{
  JobStatus, queued, dispatching, staging, validating, validation_report, committing,
  post_commit_verify, reimport_failed, validation_failed, commit_failed, dispatch_timeout,
  dispatch_failed, completed, status_eq, status_text, is_terminal, is_retriable_failure,
  is_active_generation,
}

pub data DependencyGate : Type 0 where
  allow : DependencyGate
  block_dependency : Text → DependencyGate
  gate_failed : Text → DependencyGate

-- What the gate reads of the job that is depended on.
pub record Dependency : Type 0 where
  pub id : Text
  pub project_id : Text
  pub status : JobStatus

evaluate_found : Dependency → Text → DependencyGate
evaluate_found dep expected =
    if not (text_eq dep.project_id expected)
    then gate_failed (codes "Dependency job " ++ (dep.id ++ codes " belongs to another project"))
    else if status_eq dep.status completed
    then allow
    else if is_terminal dep.status
    then gate_failed
        (codes "Dependency job " ++ (dep.id ++ (codes " ended with " ++ status_text dep.status)))
    else block_dependency (
        codes "Waiting on dependency job "
        ++ (dep.id ++ (codes " (" ++ (status_text dep.status ++ codes ")"))))

unfoldable pub evaluate_dependency_gate : Option Dependency → Text → DependencyGate
unfolding evaluate_found
evaluate_dependency_gate none expected = gate_failed (codes "Dependency job not found")
evaluate_dependency_gate (some dep) expected = evaluate_found dep expected

-- The argument record of `canPromoteBlockedJob`.
pub record PromoteOpts : Type 0 where
  pub depends_on_job_id : Option Text
  pub blocked_by_job_id : Option Text
  pub finished_job_id : Text
  pub finished_status : JobStatus
  pub dependency_status : Option JobStatus
  pub concurrent_active_held : Bool
  pub blocked_by_status : Option JobStatus

pub record Decision : Type 0 where
  pub promote : Bool
  pub dep_failed : Bool
  pub reason : Option Text

refuse : Text → Decision
refuse reason = record { promote = false; dep_failed = false; reason = some reason }

fail_dependency : Text → Decision
fail_dependency reason = record { promote = false; dep_failed = true; reason = some reason }

-- `some d` where the dependency settles the matter by a return. An id that is empty counts as none,
-- as in `if (opts.dependsOnJobId)`.
check_dependency : Option Text → Option JobStatus → Option Decision
unfolding refuse fail_dependency
check_dependency none status = none
check_dependency (some []) status = none
check_dependency (some (c ∷ d)) none = some (fail_dependency (codes "Dependency missing"))
check_dependency (some (c ∷ d)) (some s) =
    if is_terminal s && not (status_eq s completed)
    then some (fail_dependency (codes "Dependency ended with " ++ status_text s))
    else if not (status_eq s completed)
    then some (refuse (codes "Dependency not completed"))
    else none

holds_slot : Option JobStatus → Bool
holds_slot none = false
holds_slot (some s) = is_active_generation s || is_retriable_failure s

-- The job named by `blockedByJobId`, another than the one that finished, still holds the slot.
still_blocked : Option Text → Text → Option JobStatus → Bool
unfolding holds_slot
still_blocked none finished status = false
still_blocked (some []) finished status = false
still_blocked (some (c ∷ b)) finished status = not (text_eq (c ∷ b) finished) && holds_slot status

unfoldable pub can_promote_blocked_job : PromoteOpts → Decision
unfolding check_dependency still_blocked refuse
can_promote_blocked_job opts =
    elim (check_dependency opts.depends_on_job_id opts.dependency_status) [
      | some d ↦ d
      | none ↦
          if still_blocked opts.blocked_by_job_id opts.finished_job_id opts.blocked_by_status
          then refuse (codes "Still blocked by another active job")
          else if opts.concurrent_active_held
          then refuse (codes "Project concurrency slot held")
          else record { promote = true; dep_failed = false; reason = none }
    ]

abbrev pub project_slot_active_statuses : List JobStatus
project_slot_active_statuses =
    queued ∷ dispatching ∷ staging ∷ validating ∷ validation_report ∷ committing
    ∷ post_commit_verify ∷ reimport_failed ∷ validation_failed ∷ commit_failed ∷ dispatch_timeout
    ∷ dispatch_failed ∷ []
