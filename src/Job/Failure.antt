-- ===== src/Job/Failure.antt =====
-- `handleFailure` and `promoteBlockedJobs` of packages/orchestrator/src/services/job-service.ts.
pub mod Runs
pub mod Stuck
use vmcp.Base.{
  ℕ, ◌+◌, Bool, false, not, ◌&&◌, Option, none, some, List, [], ◌∷◌, any, filter, Text, text_eq,
  ltb, get_or, if◌then◌else◌,
}
use vmcp.Errors.{e011, e020, high}
use vmcp.Status.{
  JobStatus, queued, blocked, dispatch_timeout, dead_letter, dep_failed, status_eq, status_text,
  includes,
}
use vmcp.Gate.{PromoteOpts, Decision, can_promote_blocked_job, project_slot_active_statuses}
use vmcp.Scheduler.{WorkerTier, tier_a, tier_b}
use vmcp.Lock.Service.{truthy}
use vmcp.Job.State.{
  Job, DeadLetterRow, Outside, job_updated, dead_letter_queued, alert, transaction_failed, M, ◌>>=◌,
  ◌>>◌, pure, world, emit, find_job, update_job, thrown, get_by_id, modify_job, ok,
}
use vmcp.Job.Calls.{Caller, dispatch, update, promote, failure_update, release_lock_of}

-- `UPDATE jobs SET attempt = $2, status = 'QUEUED', completed_at = NULL`
abbrev pub requeue : ℕ → Job → Job
requeue attempt j = record j { attempt = attempt; status = queued; completed_at = none }

-- `UPDATE jobs SET status = 'DEAD_LETTER', error_code = 'E020', completed_at = now()`
abbrev pub bury : Outside → Job → Job
bury o j = record j { status = dead_letter; error_code = some e020; completed_at = some o.env.now }

abbrev other_tier : WorkerTier → WorkerTier
other_tier tier_a = tier_b
other_tier tier_b = tier_a

-- After a timeout of the dispatch the other tier is tried, and the same one after any other failure.
retry_tier : Job → Option WorkerTier
retry_tier j = elim j.tier [
  | none ↦ none
  | some t ↦ if status_eq j.status dispatch_timeout then some (other_tier t) else some t
]

-- `INSERT INTO dead_letter_jobs … ON CONFLICT (job_id) DO UPDATE`: the reason stays as it was.
unfoldable pub upsert_dead_letter : Text → Text → ℕ → List DeadLetterRow → List DeadLetterRow
upsert_dead_letter id reason attempts [] =
    record { job_id = id; reason = reason; attempts = attempts; archived = false } ∷ []
upsert_dead_letter id reason attempts (row ∷ rows) =
    let rest = upsert_dead_letter id reason attempts rows in
    if text_eq row.job_id id
    then record row { attempts = attempts; archived = false } ∷ rows
    else row ∷ rest

-- Both writes of the transaction.
write_dead_letter : Outside → Text → Job → M (Unit {0})
write_dead_letter o id job w =
    if o.env.commits
    then (
      ok tt,
      record w {
        jobs = update_job id (bury o) w.jobs;
        dead_letters =
            upsert_dead_letter id (get_or job.error_detail (status_text job.status)) job.attempt
              w.dead_letters;
      },
    )
    else (thrown transaction_failed, w)

-- `promoteBlockedJobs`' `SELECT`, oldest first.
abbrev pub blocked_jobs : Text → List Job → List Job
blocked_jobs project js =
    filter (λ j. text_eq j.project_id project && status_eq j.status blocked) js

-- Another job than the finished one holds a slot of the project.
abbrev pub slot_held : Text → Text → List Job → Bool
slot_held project finished js =
    any
      (λ j.
        text_eq j.project_id project
        && (not (text_eq j.id finished) && includes project_slot_active_statuses j.status))
      js

abbrev status_of : Option Text → List Job → Option JobStatus
status_of none js = none
status_of (some id) js = elim (find_job id js) [ none ↦ none | some j ↦ some j.status ]

-- What the loop asks of the tables for one blocked job.
unfoldable pub promote_opts : Text → Text → JobStatus → Job → List Job → PromoteOpts
promote_opts project finished s job js = record {
  depends_on_job_id = job.depends_on_job_id;
  blocked_by_job_id = job.blocked_by_job_id;
  finished_job_id = finished;
  finished_status = s;
  dependency_status = status_of job.depends_on_job_id js;
  concurrent_active_held = slot_held project finished js;
  blocked_by_status = status_of job.blocked_by_job_id js;
}

abbrev unblock : Job → Job
unblock j = record j { status = queued; blocked_by_job_id = none; estimated_wait_seconds = some 0 }

-- The messages about a new dead letter.
report_dead : Text → M (Unit {0})
report_dead id = do emit (dead_letter_queued id); emit (alert e020 high id); emit (job_updated id)

module _ (call : Caller) (o : Outside) where
  retry : Text → Job → M (Unit {0})
  unfolding retry_tier
  retry id job = do modify_job id (requeue (job.attempt + 1)); call (dispatch id (retry_tier job))

  -- The generation lock is given back, and a blocked job may go on.
  leave_slot : Text → Job → M (Unit {0})
  leave_slot id job = elim (truthy job.lock_key) [
    | none ↦ pure tt
    | some key ↦ do release_lock_of o key id; call (promote job.project_id id dead_letter)
  ]

  leave : Text → Job → M (Unit {0})
  unfolding leave_slot report_dead
  leave id job = do leave_slot id job; report_dead id

  exhaust : Text → Job → M (Unit {0})
  unfolding write_dead_letter leave
  exhaust id job = do write_dead_letter o id job; leave id job

  pub handle_failure : Text → M (Unit {0})
  unfolding retry exhaust
  handle_failure id = do
    found ← get_by_id id
    elim found [
      | none ↦ pure tt
      | some job ↦ if ltb job.attempt job.max_attempts then retry id job else exhaust id job
    ]

  fail_blocked : Job → Decision → M (Unit {0})
  fail_blocked job decision =
      call (update job.id (failure_update dep_failed e011 (get_or decision.reason [])) false)

  promote_one : Job → M (Unit {0})
  promote_one job = do modify_job job.id unblock; call (dispatch job.id none)

  -- One round of the loop, with the rounds after it.
  promote_row : Job → M (Unit {0}) → Decision → M (Unit {0})
  unfolding fail_blocked promote_one
  promote_row job later decision =
      if decision.dep_failed
      then fail_blocked job decision >> later
      else if decision.promote
      then promote_one job
      else later

  -- The loop over the blocked jobs; the first one that is promoted ends it.
  promote_rows : Text → Text → JobStatus → List Job → M (Unit {0})
  unfolding promote_row
  promote_rows project finished s [] = pure tt
  promote_rows project finished s (job ∷ rest) =
      let later = promote_rows project finished s rest in
      do
        w ← world
        promote_row job later (can_promote_blocked_job (promote_opts project finished s job w.jobs))

  pub promote_blocked_jobs : Text → Text → JobStatus → M (Unit {0})
  unfolding promote_rows
  promote_blocked_jobs project finished s = do
    w ← world
    promote_rows project finished s (blocked_jobs project w.jobs)
