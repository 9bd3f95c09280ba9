-- ===== src/Job/Update.antt =====
-- `updateStatus` of packages/orchestrator/src/services/job-service.ts.
pub mod Guards
pub mod Progress
pub mod Runs
use vmcp.Base.{Bool, not, ◌&&◌, ◌||◌, Option, none, some, Text, codes, if◌then◌else◌, get_or}
use vmcp.Errors.{ErrorCode, error_catalog, e002, e013, high}
use vmcp.Status.{
  JobStatus, reimport_failed, committing, completed, staging, validating, dispatching, rollback,
  status_eq, is_terminal, is_retriable_failure, can_transition_job_status,
}
use vmcp.Lock.Service.{truthy, validate_fencing_token}
use vmcp.Job.State.{
  Job, Outside, job_updated, alert, job_not_found, invalid_transition, commit_blocked,
  fencing_rejected, M, ◌>>=◌, ◌>>◌, pure, throw, emit, get_by_id, modify_job, on_locks, field,
  merge, owner_id,
}
use vmcp.Job.Calls.{JobStatusUpdate, Caller, fail, promote, record_error, release_lock_of}
use vmcp.Job.Dispatch.{target_lock_field}

-- A text that `if (update.x)` lets replace the old one.
abbrev overwrite : Option Text → Option Text → Option Text
overwrite new old = elim (truthy new) [ none ↦ old | some v ↦ some v ]

abbrev beats : JobStatus → Bool
beats s =
    status_eq s staging
    || (status_eq s validating || (status_eq s committing || status_eq s dispatching))

-- The columns that the `UPDATE` of `updateStatus` sets.
unfoldable pub apply_update : Outside → JobStatusUpdate → Job → Job
apply_update o u j = record j {
  status = u.status;
  metadata = merge j.metadata u.metadata;
  error_code = elim u.error_code [ none ↦ j.error_code | some c ↦ some c ];
  error_detail = overwrite u.error_detail j.error_detail;
  s3_staging_prefix = overwrite u.s3_staging_prefix j.s3_staging_prefix;
  s3_validation_report_key = overwrite u.s3_validation_report_key j.s3_validation_report_key;
  s3_snapshot_key = overwrite u.s3_snapshot_key j.s3_snapshot_key;
  s3_artifacts_prefix = overwrite u.s3_artifacts_prefix j.s3_artifacts_prefix;
  github_run_id = elim u.github_run_id [ none ↦ j.github_run_id | some r ↦ some r ];
  completed_at = if is_terminal u.status then some o.env.now else j.completed_at;
  last_heartbeat_at = if beats u.status then some o.env.now else j.last_heartbeat_at;
}

reject_token : Text → M (Unit {0})
reject_token id = do record_error id e013 (codes "Fencing token rejected"); throw fencing_rejected

-- A presented token has to be the one that is accepted for the lock of the job.
check_token : Outside → Text → Option Text → Option Text → M (Unit {0})
unfolding reject_token
check_token o id none key = pure tt
check_token o id (some token) none = pure tt
check_token o id (some token) (some key) = do
  accepted ← on_locks (validate_fencing_token o.env key (owner_id id) token)
  if accepted then pure tt else reject_token id

release_target : Outside → Text → Option Text → M (Unit {0})
release_target o id none = pure tt
release_target o id (some target) = release_lock_of o target id

record_update_error : Text → Option ErrorCode → Option Text → M (Unit {0})
record_update_error id none detail = pure tt
record_update_error id (some code) detail =
    record_error id code (get_or detail (error_catalog code).code)

alert_rollback : Text → JobStatus → M (Unit {0})
alert_rollback id s = if status_eq s rollback then emit (alert e002 high id) else pure tt

announce : Text → JobStatus → M (Unit {0})
unfolding alert_rollback
announce id s = do alert_rollback id s; emit (job_updated id)

module _ (call : Caller) (o : Outside) where
  -- A terminal status gives the locks back and lets a blocked job of the project go on.
  finish : Text → Job → JobStatus → M (Unit {0})
  unfolding release_target
  finish id current s = elim (truthy current.lock_key) [
    | none ↦ pure tt
    | some key ↦ do
      release_lock_of o key id
      release_target o id (truthy (field target_lock_field current.metadata))
      call (promote current.project_id id s)
  ]

  follow_up : Text → Job → JobStatus → Bool → M (Unit {0})
  unfolding finish
  follow_up id current s skip =
      if is_retriable_failure s && not skip
      then call (fail id)
      else if is_terminal s
      then finish id current s
      else pure tt

  -- What follows from the new status, and what is told of it.
  conclude : Text → Job → JobStatus → Bool → M (Unit {0})
  unfolding follow_up announce
  conclude id current s skip = do follow_up id current s skip; announce id s

  write_row : Text → JobStatusUpdate → Bool → Job → M (Unit {0})
  unfolding record_update_error conclude
  write_row id u skip current = do
    modify_job id (apply_update o u)
    record_update_error id u.error_code u.error_detail
    conclude id current u.status skip

  -- The guards on the status passed.
  pub write_update : Text → JobStatusUpdate → Bool → Job → M (Unit {0})
  unfolding check_token write_row
  write_update id u skip current = do
    check_token o id (truthy u.fencing_token) (truthy current.lock_key)
    write_row id u skip current

  pub update_found : Text → JobStatusUpdate → Bool → Job → M (Unit {0})
  unfolding write_update
  update_found id u skip current =
      if not (status_eq u.status current.status)
        && not (can_transition_job_status current.status u.status)
      then throw (invalid_transition current.status u.status)
      else if status_eq current.status reimport_failed
          && (status_eq u.status committing || status_eq u.status completed)
      then throw commit_blocked
      else write_update id u skip current

  pub update_status : Text → JobStatusUpdate → Bool → M (Unit {0})
  unfolding update_found
  update_status id u skip = do
    found ← get_by_id id
    elim found [ none ↦ throw job_not_found | some current ↦ update_found id u skip current ]
