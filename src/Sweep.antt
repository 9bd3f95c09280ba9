-- ===== src/Sweep.antt =====
-- packages/orchestrator/src/workers/health-worker.ts: the scan for locks and jobs whose heartbeats are
-- missing, and what becomes of a dispatch that no runner takes.
pub mod Stale
use vmcp.Base.{
  ℕ, Bool, true, false, not, ◌&&◌, Option, none, some, List, [], ◌∷◌, any, filter, Text, codes,
  text_eq, ltb, leb, get_or, if◌then◌else◌,
}
use vmcp.Errors.{e001, e005, e020, low, high}
use vmcp.Status.{
  JobStatus, staging, validating, committing, post_commit_verify, dispatching, dispatch_timeout,
  dead_letter, status_eq, includes,
}
use vmcp.Lock.Postgres.{PgLock, stale_recovered}
use vmcp.Lock.Service.{reclaim, truthy}
use vmcp.Job.State.{
  Job, Outside, alert, M, ◌>>=◌, ◌>>◌, pure, world, emit, get_by_id, modify_job, on_locks, unwrap,
}
use vmcp.Job.Calls.{Caller, JobStatusUpdate, dispatch, update, failure_update, record_error}
use vmcp.Job.Service.{mark_stale, next_attempt}

-- `WHERE last_heartbeat_at < $1`
abbrev stale_locks : ℕ → List PgLock → List PgLock
stale_locks before rows = filter (λ row. ltb row.last_heartbeat_at before) rows

abbrev beating_statuses : List JobStatus
beating_statuses = staging ∷ validating ∷ committing ∷ post_commit_verify ∷ dispatching ∷ []

abbrev beat_before : ℕ → Option ℕ → Bool
beat_before before none = false
beat_before before (some t) = ltb t before

abbrev stale_jobs : ℕ → List Job → List Job
stale_jobs before js =
    filter (λ j. includes beating_statuses j.status && beat_before before j.last_heartbeat_at) js

-- The jobs of the reclaimed locks.
abbrev handled : List PgLock → Text → Bool
handled rows id = any (λ row. elim row.job_id [ none ↦ false | some j ↦ text_eq j id ]) rows

abbrev stale_lock_detail : Text
stale_lock_detail = codes "Lock considered stale after missed heartbeats"

reclaim_stale : Outside → Text → M Text
reclaim_stale o key = do result ← on_locks (reclaim o.env key stale_recovered none); unwrap result

module _ (call : Caller) (o : Outside) where
  -- The job is dispatched again while attempts are left.
  try_again : Text → Option Job → M (Unit {0})
  try_again id none = pure tt
  try_again id (some job) =
      if ltb job.attempt job.max_attempts
      then (do modify_job id next_attempt; call (dispatch id none))
      else call (
          update id (failure_update dead_letter e020 (codes "Exhausted attempts after lock stale"))
            false)

  recover_job : Option Text → M (Unit {0})
  unfolding try_again
  recover_job none = pure tt
  recover_job (some id) = do
    modify_job id (mark_stale stale_lock_detail)
    record_error id e005 stale_lock_detail
    found ← get_by_id id
    try_again id found

  finish_recovery : PgLock → M (Unit {0})
  unfolding recover_job
  finish_recovery row = do recover_job row.job_id; emit (alert e005 low (get_or row.job_id []))

  -- One round of the first loop.
  pub recover_lock : PgLock → M (Unit {0})
  unfolding reclaim_stale finish_recovery
  recover_lock row = do token ← reclaim_stale o row.lock_key; finish_recovery row

  recover_locks : List PgLock → M (Unit {0})
  unfolding recover_lock
  recover_locks [] = pure tt
  recover_locks (row ∷ rest) = do recover_lock row; recover_locks rest

  reclaim_job_lock : Option Text → M (Unit {0})
  unfolding reclaim_stale
  reclaim_job_lock none = pure tt
  reclaim_job_lock (some key) = do token ← reclaim_stale o key; pure tt

  -- One round of the second loop: no attempt left means that the job stays `LOCK_STALE`.
  recover_silent : Job → M (Unit {0})
  unfolding reclaim_job_lock
  recover_silent j = do
    reclaim_job_lock (truthy j.lock_key)
    modify_job j.id (mark_stale (codes "Job heartbeat stale"))
    record_error j.id e005 (codes "Job heartbeat stale")
    if ltb j.attempt j.max_attempts
        then (do modify_job j.id next_attempt; call (dispatch j.id none))
        else pure tt

  recover_silents : List PgLock → List Job → M (Unit {0})
  unfolding recover_silent
  recover_silents rows [] = pure tt
  recover_silents rows (j ∷ rest) =
      let later = recover_silents rows rest in
      if handled rows j.id then later else recover_silent j >> later

  -- `scanStaleLocks`, with the time before which a heartbeat is too old.
  pub scan_stale_locks : ℕ → M (Unit {0})
  unfolding recover_locks recover_silents
  scan_stale_locks before = do
    w ← world
    let rows = stale_locks before w.locks.pg_locks
    recover_locks rows
    w' ← world
    recover_silents rows (stale_jobs before w'.jobs)

  -- `{ status: 'STAGING', githubRunId, metadata: { dispatchResolved: true } }`
  staged : ℕ → JobStatusUpdate
  staged run_id = record {
    status = staging;
    metadata = (codes "dispatchResolved", codes "true") ∷ [];
    error_code = none;
    error_detail = none;
    s3_staging_prefix = none;
    s3_validation_report_key = none;
    s3_snapshot_key = none;
    s3_artifacts_prefix = none;
    github_run_id = some run_id;
    fencing_token = none;
  }

  alert_exhausted : ℕ → Text → Option Job → M (Unit {0})
  alert_exhausted failures id none = pure tt
  alert_exhausted failures id (some job) =
      if leb failures job.attempt && status_eq job.status dead_letter
      then emit (alert e001 high id)
      else pure tt

  resolve_found : ℕ → Text → Text → Option ℕ → M (Unit {0})
  unfolding staged alert_exhausted
  resolve_found failures detail id (some run_id) = call (update id (staged run_id) false)
  resolve_found failures detail id none = do
    call (update id (failure_update dispatch_timeout e001 detail) false)
    after ← get_by_id id
    alert_exhausted failures id after

  -- `resolveDispatch`, by the run id that GitHub answered, if it did in time.
  pub resolve_dispatch : ℕ → Text → Text → Option ℕ → M (Unit {0})
  unfolding resolve_found
  resolve_dispatch failures detail id run_id = do
    found ← get_by_id id
    elim found [
      | none ↦ pure tt
      | some job ↦
          if not (status_eq job.status dispatching)
          then pure tt
          else resolve_found failures detail id run_id
    ]
