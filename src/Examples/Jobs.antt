-- ===== src/Examples/Jobs.antt =====
-- The job service of packages/orchestrator at concrete inputs.
use vmcp.Base.{
  ℕ, ◌≡◌, ◌≢◌, refl, ◌↔◌, ◌++◌, inr, true, false, Option, none, some, [], ◌∷◌, Text, codes, text_eq,
  arith,
}
use vmcp.Status.{
  JobStatus, completed, dispatching, validating, is_retriable_failure, queued, blocked, staging,
  committing, dead_letter, dep_failed, is_terminal, can_transition_job_status, status_eq,
}
use vmcp.Scheduler.{tier_b}
use vmcp.Lock.Service.{truthy, ensure_instance_id, reclaim}
use vmcp.Lock.Redis.{next_token, bump_fencing}
use vmcp.Lock.Service.Validation.{accepted}
use vmcp.Lock.Service.Ensure.{current_instance}
use vmcp.Lock.Service.Acquire.{ready}
use vmcp.Gate.Laws.{named_id}
use vmcp.Job.State.{
  ◌>>◌, emit, alert, Job, Project, find_project, same_machine, World, Outside, ok, thrown,
  exhausted, job_not_found, invalid_transition, fencing_rejected, find_job, owner_id,
}
use vmcp.Errors.{e005, low}
use vmcp.Fencing.{format_fencing_token}
use vmcp.Lock.Postgres.{PgLock}
use vmcp.Sweep.{recover_lock}
use vmcp.Sweep.Stale.{recover_lock-WellFormed, recover_lock_restarts}
use vmcp.Job.Calls.{JobStatusUpdate, dispatch, update, promote}
use vmcp.Job.Dispatch.{dispatch_job}
use vmcp.Job.Dispatch.Start.{key_of, tier_of, dispatch_job-accepted}
use vmcp.Job.Update.{update_status}
use vmcp.Job.Update.Progress.{update_status_progress}
use vmcp.Job.Update.Guards.{update_status_guards}
use vmcp.Job.Failure.{promote_opts}
use vmcp.Job.Service.{run, create, heartbeat, CreateJobRequest}
use vmcp.Job.Service.Invariant.{WellFormed, run-WellFormed}
use vmcp.Job.Service.Creation.{create-WellFormed}
use vmcp.Job.Service.Termination.{run_terminates}
use vmcp.Job.Service.Blocked.{promotion_stuck}
use vmcp.Job.Service.Heartbeat.{SameLocks, heartbeat-token}
use vmcp.Examples.Statuses.{lower_id, lower_id-IsUuid}
use vmcp.Examples.Locks.{fresh, at_time}

abbrev job_of : Text → JobStatus → Option Text → Option Text → Option ℕ → Job
job_of id status depends key finished = record {
  id = id;
  project_id = codes "p";
  status = status;
  tier = none;
  commit_strategy = same_machine;
  godot_version = codes "4.3";
  fencing_token = none;
  lock_key = key;
  github_run_id = none;
  callback_token_hash = none;
  callback_token_expires_at = none;
  attempt = 1;
  max_attempts = 3;
  blocked_by_job_id = none;
  depends_on_job_id = depends;
  estimated_wait_seconds = none;
  s3_staging_prefix = none;
  s3_validation_report_key = none;
  s3_snapshot_key = none;
  s3_artifacts_prefix = none;
  metadata = [];
  last_heartbeat_at = none;
  error_code = none;
  error_detail = none;
  completed_at = finished;
}

-- A dead letter, a job that was blocked on it, and a job that works under a lock.
abbrev dead : Job
dead = job_of (codes "a") dead_letter none none (some 50)

abbrev waiting : Job
waiting = job_of (codes "b") blocked (some (codes "a")) none none

abbrev working : Job
working = job_of (codes "c") staging none (some (codes "k")) none

abbrev office : World
office = record {
  jobs = dead ∷ waiting ∷ working ∷ [];
  projects = record { id = codes "p"; godot_version = codes "4.3"; high_volume = false } ∷ [];
  tiers = [];
  priority_queue = [];
  locks = fresh;
  job_errors = [];
  dead_letters = [];
  effects = [];
}

abbrev calm : Outside
calm = record {
  env = at_time 100;
  tier_config = record { tier_a_enabled = true; tier_b_enabled = true; tier_a_queue_threshold = 5 };
  new_job_id = codes "d";
  callback_hash = λ id. id;
  callback_ttl = 3600;
  provision_error = λ j. none;
  dispatch_error = λ j. none;
}

abbrev to_committing : JobStatusUpdate
to_committing = record {
  status = committing;
  metadata = [];
  error_code = none;
  error_detail = none;
  s3_staging_prefix = none;
  s3_validation_report_key = none;
  s3_snapshot_key = none;
  s3_artifacts_prefix = none;
  github_run_id = none;
  fencing_token = some (codes "t");
}

update_status_guards_example :
    let run_it = update_status (run calm 30) calm (codes "c") to_committing false office in
    (find_job (codes "c") office.jobs ≡ none → run_it ≡ (thrown job_not_found, office))
    × ((j : Job)
        → find_job (codes "c") office.jobs ≡ some j
        → can_transition_job_status j.status committing ≡ false
        → run_it ≡ (thrown (invalid_transition j.status committing), office))
    × ((j : Job) (key token : Text)
        → find_job (codes "c") office.jobs ≡ some j
        → can_transition_job_status j.status committing ≡ true
        → truthy to_committing.fencing_token ≡ some token
        → truthy j.lock_key ≡ some key
        → accepted calm.env key (owner_id (codes "c")) token office.locks ≡ false
        → (run_it.0 ≡ thrown fencing_rejected) × (run_it.1.jobs ≡ office.jobs))
update_status_guards_example =
    update_status_guards (run calm 30) calm (codes "c") to_committing false office

office-WellFormed : WellFormed office.jobs
unfolding text_eq is_terminal
office-WellFormed = (
  (refl, (refl, (refl, tt))),
  (
    (omega arith, omega arith, λ _. refl),
    ((omega arith, omega arith, λ h. cc), ((omega arith, omega arith, λ h. cc), tt)),
  ),
)

run-WellFormed_example :
    WellFormed (run calm 30 (update (codes "c") to_committing false) office).1.jobs
run-WellFormed_example =
    run-WellFormed calm 30 (update (codes "c") to_committing false) office office-WellFormed tt

abbrev request : CreateJobRequest
request = record {
  project_id = codes "p";
  commit_strategy = none;
  godot_version = none;
  preferred_tier = some tier_b;
  depends_on_job_id = none;
  metadata = [];
}

create-WellFormed_example : WellFormed (create (run calm 30) calm request office).1.jobs
unfolding text_eq
create-WellFormed_example = create-WellFormed calm 30 request office office-WellFormed refl

run_terminates_example : (run calm 40 (dispatch (codes "a") none) office).0 ≢ exhausted
unfolding is_terminal
run_terminates_example =
    run_terminates calm 40 (dispatch (codes "a") none) office office-WellFormed.0 tt (omega arith)

promotion_stuck_example :
    run calm 30 (promote (codes "p") (codes "a") dead_letter) office
    ≡ (thrown (invalid_transition blocked dep_failed), office)
unfolding text_eq status_eq promote_opts find_job is_terminal
promotion_stuck_example =
    promotion_stuck calm 28 (codes "p") (codes "a") dead_letter office waiting []
      office-WellFormed.0 refl (named_id _ _ refl, inr (dead_letter, refl, refl, λ h. cc))

heartbeat-token_example :
    let ok' = accepted calm.env (codes "k") (owner_id (codes "c")) (codes "t") office.locks in
    let (r, w') = heartbeat calm (codes "c") (some (codes "t")) office in
    (r ≡ ok ok')
    × (ok' ≡ true
        → (row : Job) × (find_job (codes "c") w'.jobs ≡ some row)
          × (row.last_heartbeat_at ≡ some calm.env.now)
          × (row.status ≡ working.status))
    × (ok' ≡ false → (w'.jobs ≡ office.jobs) × SameLocks office.locks w'.locks)
unfolding find_job text_eq
heartbeat-token_example =
    heartbeat-token calm (codes "c") (codes "t") (codes "k") office working refl refl refl

abbrev ready_job : Job
ready_job = job_of (codes "e") queued none none none

abbrev project_p : Project
project_p = record { id = codes "p"; godot_version = codes "4.3"; high_volume = false }

abbrev morning : World
morning = record office { jobs = waiting ∷ ready_job ∷ [] }

abbrev first_key : Text
first_key = key_of ready_job

dispatch_job-accepted_example :
    let token =
      next_token (current_instance calm.env fresh) first_key (ready calm.env fresh).redis in
    let (r, w') = dispatch_job (run calm 30) calm (codes "e") none morning in
    (r ≡ ok tt)
    × ((row : Job) × (find_job (codes "e") w'.jobs ≡ some row)
        × (row.status ≡ dispatching)
        × (row.tier ≡ some (tier_of calm morning none project_p))
        × (row.lock_key ≡ some first_key)
        × (row.fencing_token ≡ some token)
        × (row.attempt ≡ 1))
    × ((k : Text) → k ≢ codes "e" → find_job k w'.jobs ≡ find_job k morning.jobs)
    × ((accepted (at_time 130) first_key (codes "job:b") token w'.locks ≡ true)
        ↔ ((codes "job:b" ≡ owner_id (codes "e")) × (token ≡ token)))
unfolding find_job find_project text_eq ensure_instance_id
dispatch_job-accepted_example =
    dispatch_job-accepted (run calm 30) calm (at_time 130) (codes "e") none morning ready_job
      project_p (codes "job:b") (next_token lower_id first_key fresh.redis)
      (refl, refl, refl, refl, refl, refl) lower_id-IsUuid refl refl refl refl

abbrev to_validating : JobStatusUpdate
to_validating = record to_committing { status = validating; fencing_token = none }

update_status_progress_example :
    let (r, w') = update_status (run calm 30) calm (codes "c") to_validating false office in
    (r ≡ ok tt)
    × ((row : Job) × (find_job (codes "c") w'.jobs ≡ some row)
        × (row.status ≡ validating)
        × (row.metadata ≡ to_validating.metadata ++ working.metadata)
        × (row.attempt ≡ 1)
        × (row.lock_key ≡ some (codes "k"))
        × (row.completed_at ≡ none))
    × ((k : Text) → k ≢ codes "c" → find_job k w'.jobs ≡ find_job k office.jobs)
unfolding find_job text_eq is_terminal is_retriable_failure can_transition_job_status
update_status_progress_example =
    update_status_progress (run calm 30) calm (codes "c") to_validating false office working refl
      refl refl refl tt

-- A job that completed, and a lock of it that was not given back.
abbrev ended : Job
ended = job_of (codes "f") completed none none (some 60)

abbrev evening : World
evening = record office { jobs = ended ∷ working ∷ [] }

abbrev left_row : PgLock
left_row = record {
  lock_key = codes "project:p:generation";
  owner_id = codes "job:f";
  fencing_token = codes "t";
  job_id = some (codes "f");
  last_heartbeat_at = 40;
  acquired_at = 10;
  ttl_seconds = 120;
}

recover_lock-WellFormed_example :
    WellFormed (recover_lock (run calm 30) calm left_row office).1.jobs
recover_lock-WellFormed_example = recover_lock-WellFormed calm 30 left_row office office-WellFormed

recover_lock_restarts_example :
    (w' : World) × (recover_lock (run calm 30) calm left_row evening
      ≡ (run calm 30 (dispatch (codes "f") none) >> emit (alert e005 low (codes "f"))) w')
    × (r : Job) × (find_job (codes "f") w'.jobs ≡ some r)
    × (r.status ≡ queued)
    × (r.attempt ≡ 2)
    × (r.lock_key ≡ none)
unfolding find_job text_eq reclaim bump_fencing ensure_instance_id
recover_lock_restarts_example =
    recover_lock_restarts (run calm 30) calm left_row evening (codes "f")
      (format_fencing_token lower_id 5) ended refl refl refl refl
