-- ===== src/Job/Calls.antt =====
-- The calls that the methods of packages/orchestrator/src/services/job-service.ts make of each
-- other, and the helpers that several of them use.
use vmcp.Base.{ℕ, Bool, Option, none, some, [], ◌∷◌, Text}
use vmcp.Errors.{ErrorCode}
use vmcp.Status.{JobStatus, blocked}
use vmcp.Scheduler.{WorkerTier}
use vmcp.Lock.Service.{release}
use vmcp.Job.State.{
  Metadata, Outside, ok, M, ◌>>=◌, pure, job_error, on_locks, modify_job, merge, owner_id,
}

pub record JobStatusUpdate : Type 0 where
  pub status : JobStatus
  pub metadata : Metadata
  pub error_code : Option ErrorCode
  pub error_detail : Option Text
  pub s3_staging_prefix : Option Text
  pub s3_validation_report_key : Option Text
  pub s3_snapshot_key : Option Text
  pub s3_artifacts_prefix : Option Text
  pub github_run_id : Option ℕ
  pub fencing_token : Option Text

-- `{ status, errorCode, errorDetail }`
abbrev pub failure_update : JobStatus → ErrorCode → Text → JobStatusUpdate
failure_update status code detail = record {
  status = status;
  metadata = [];
  error_code = some code;
  error_detail = some detail;
  s3_staging_prefix = none;
  s3_validation_report_key = none;
  s3_snapshot_key = none;
  s3_artifacts_prefix = none;
  github_run_id = none;
  fencing_token = none;
}

pub data Call : Type 0 where
  dispatch : Text → Option WorkerTier → Call
  update : Text → JobStatusUpdate → Bool → Call
  fail : Text → Call
  promote : Text → Text → JobStatus → Call

-- How a method calls another one, or itself on another job.
abbrev pub Caller : Type 0
Caller = Call → M (Unit {0})

-- `recordError`; every code has an entry in the catalogue.
unfoldable pub record_error : Text → ErrorCode → Text → M (Unit {0})
record_error id code detail w = (
  ok tt,
  record w {
    job_errors = record { job_id = id; code = code; detail = detail } ∷ w.job_errors;
    effects = job_error code detail ∷ w.effects;
  },
)

-- `UPDATE jobs SET status = 'BLOCKED', metadata = metadata || …`
unfoldable pub block_job : Text → Metadata → M (Unit {0})
block_job id meta =
    modify_job id (λ j. record j { status = blocked; metadata = merge j.metadata meta })

-- `lockService.release`, whose answer is not used.
unfoldable pub release_lock_of : Outside → Text → Text → M (Unit {0})
release_lock_of o key job_id = do released ← on_locks (release o.env key (owner_id job_id)); pure tt
