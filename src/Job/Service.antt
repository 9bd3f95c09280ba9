-- ===== src/Job/Service.antt =====
-- The public methods of packages/orchestrator/src/services/job-service.ts.
pub mod Invariant
pub mod Creation
pub mod Weight
pub mod Termination
pub mod Blocked
pub mod Heartbeat
use vmcp.Base.{
  ℕ, zero, suc, ◌+◌, Bool, true, false, not, ◌&&◌, ◌||◌, Option, none, some, List, [], ◌∷◌, ◌++◌,
  filter, map, Text, codes, text_eq, ltb, get_or, is_some, if◌then◌else◌,
}
use vmcp.Errors.{e005, e020}
use vmcp.Status.{queued, blocked, lock_stale, dead_letter, includes}
use vmcp.Gate.{
  DependencyGate, allow, block_dependency, gate_failed, evaluate_dependency_gate,
  project_slot_active_statuses,
}
use vmcp.Scheduler.{WorkerTier}
use vmcp.Lock.Redis.{expire, update as update_key}
use vmcp.Lock.Postgres.{LockState}
use vmcp.Lock.Service.{truthy, validate_fencing_token}
use vmcp.Job.State.{
  CommitStrategy, same_machine, Metadata, Job, Project, Outside, job_updated, audited, ok,
  exhausted, project_not_found, dependency_rejected, M, ◌>>=◌, ◌>>◌, pure, throw, world, emit,
  find_project, get_by_id, modify_job, on_locks, owner_id,
}
use vmcp.Job.Calls.{Call, dispatch, update, fail, promote, Caller, failure_update, record_error}
use vmcp.Job.Dispatch.{dispatch_job, dependency_of}
use vmcp.Job.Update.{update_status}
use vmcp.Job.Failure.{handle_failure, promote_blocked_jobs}

-- One call, by the method that serves it.
pub serve : Caller → Outside → Call → M (Unit {0})
serve call o (dispatch id preferred) = dispatch_job call o id preferred
serve call o (update id u skip) = update_status call o id u skip
serve call o (fail id) = handle_failure call o id
serve call o (promote project finished s) = promote_blocked_jobs call o project finished s

-- A call with everything that follows from it, at most `fuel` calls deep.
pub run : Outside → ℕ → Caller
unfolding serve
run o zero c w = (exhausted, w)
run o (suc fuel) c w = serve (run o fuel) o c w

pub record CreateJobRequest : Type 0 where
  pub project_id : Text
  pub commit_strategy : Option CommitStrategy
  pub godot_version : Option Text
  pub preferred_tier : Option WorkerTier
  pub depends_on_job_id : Option Text
  pub metadata : Metadata

-- Whether the dependency of a request blocks the new job; a request whose dependency is gone, of
-- another project or failed is refused.
heed_gate : DependencyGate → M Bool
heed_gate allow = pure false
heed_gate (block_dependency r) = pure true
heed_gate (gate_failed r) = throw (dependency_rejected r)

dependency_blocks : CreateJobRequest → M Bool
unfolding heed_gate
dependency_blocks req = elim (truthy req.depends_on_job_id) [
  | none ↦ pure false
  | some d ↦ do
    dep ← get_by_id d
    heed_gate (evaluate_dependency_gate (dependency_of dep) req.project_id)
]

-- The oldest job that holds a slot of the project.
unfoldable pub slot_holder : Text → List Job → Option Text
slot_holder project [] = none
slot_holder project (j ∷ js) =
    if text_eq j.project_id project && includes project_slot_active_statuses j.status
    then some j.id
    else slot_holder project js

-- The row of a new job; `attempt` and `max_attempts` are the defaults of the table.
abbrev new_job : Outside → CreateJobRequest → Project → Bool → Option Text → Job
new_job o req project is_blocked holder = record {
  id = o.new_job_id;
  project_id = req.project_id;
  status = if is_blocked then blocked else queued;
  tier = none;
  commit_strategy = get_or req.commit_strategy same_machine;
  godot_version = get_or req.godot_version project.godot_version;
  fencing_token = none;
  lock_key = none;
  github_run_id = none;
  callback_token_hash = none;
  callback_token_expires_at = none;
  attempt = 1;
  max_attempts = 3;
  blocked_by_job_id = holder;
  depends_on_job_id = req.depends_on_job_id;
  estimated_wait_seconds = some (if is_blocked then 120 else 0);
  s3_staging_prefix = none;
  s3_validation_report_key = none;
  s3_snapshot_key = none;
  s3_artifacts_prefix = none;
  metadata = req.metadata;
  last_heartbeat_at = none;
  error_code = none;
  error_detail = none;
  completed_at = none;
}

insert_job : Job → M (Unit {0})
insert_job j w = (ok tt, record w { jobs = w.jobs ++ (j ∷ []) })

-- `UPDATE jobs SET status = 'LOCK_STALE', lock_key = NULL, fencing_token = NULL, …`
abbrev pub mark_stale : Text → Job → Job
mark_stale detail j = record j {
  status = lock_stale;
  lock_key = none;
  fencing_token = none;
  error_code = some e005;
  error_detail = some detail;
}

abbrev pub next_attempt : Job → Job
next_attempt j = record j { status = queued; attempt = j.attempt + 1 }

abbrev holds_key : Text → Job → Bool
holds_key key j = elim j.lock_key [
  | none ↦ false
  | some k ↦ text_eq k key && not (is_some j.completed_at)
]

abbrev revive : Job → Job
revive j = record j {
  status = queued;
  attempt = 1;
  error_code = none;
  error_detail = none;
  completed_at = none;
}

archive : Text → M (Unit {0})
archive id w = (
  ok tt,
  record w {
    dead_letters =
        map (λ row. if text_eq row.job_id id then record row { archived = true } else row)
          w.dead_letters;
  },
)

module _ (call : Caller) (o : Outside) where
  insert_new : CreateJobRequest → Project → Bool → M (Unit {0})
  unfolding insert_job
  insert_new req project waits = do
    w ← world
    let holder = slot_holder req.project_id w.jobs
    let is_blocked = waits || is_some holder
    insert_job (new_job o req project is_blocked holder)
    emit (audited (codes "job.created") o.new_job_id)
    if is_blocked
        then emit (job_updated o.new_job_id)
        else call (dispatch o.new_job_id req.preferred_tier)

  create_in : CreateJobRequest → Project → M (Unit {0})
  unfolding dependency_blocks insert_new
  create_in req project = do waits ← dependency_blocks req; insert_new req project waits

  create_for : CreateJobRequest → Option Project → M (Unit {0})
  unfolding create_in
  create_for req none = throw project_not_found
  create_for req (some project) = create_in req project

  pub create : CreateJobRequest → M (Unit {0})
  unfolding create_for
  create req = do w ← world; create_for req (find_project req.project_id w.projects)

  -- The job is dispatched again while attempts are left.
  redispatch : Job → M (Unit {0})
  redispatch j =
      if ltb j.attempt j.max_attempts
      then (do modify_job j.id next_attempt; call (dispatch j.id none))
      else call (
          update j.id
            (failure_update dead_letter e020 (codes "Exhausted attempts after admin reclaim"))
            false)

  -- The loop of `handleAdminReclaim`.
  reclaim_rows : Text → List Job → M (Unit {0})
  unfolding redispatch
  reclaim_rows detail [] = pure tt
  reclaim_rows detail (j ∷ rest) = do
    modify_job j.id (mark_stale detail)
    record_error j.id e005 detail
    redispatch j
    reclaim_rows detail rest

  pub handle_admin_reclaim : Text → Text → M (Unit {0})
  unfolding reclaim_rows
  handle_admin_reclaim key reason = do
    w ← world
    reclaim_rows (codes "Admin reclaim: " ++ reason) (filter (holds_key key) w.jobs)

  pub retry_dead_letter : Text → M (Unit {0})
  unfolding archive
  retry_dead_letter id = do archive id; modify_job id revive; call (dispatch id none)

-- `UPDATE pg_locks SET last_heartbeat_at = now() WHERE lock_key = $1`, and `EXPIRE` of the lock and
-- its token in Redis.
beat_lock : Outside → Text → LockState → LockState
beat_lock o key s = record s {
  pg_locks =
      map
        (λ row.
          if text_eq row.lock_key key then record row { last_heartbeat_at = o.env.now } else row)
        s.pg_locks;
  redis = record (s.redis) {
    owners = update_key key (expire o.env.now 60 (s.redis.owners key)) s.redis.owners;
    tokens = update_key key (expire o.env.now 60 (s.redis.tokens key)) s.redis.tokens;
  };
}

abbrev pub mark_beat : Outside → Job → Job
mark_beat o j = record j { last_heartbeat_at = some o.env.now }

beat : Outside → Text → Option Text → M Bool
unfolding beat_lock
beat o id none = do modify_job id (mark_beat o); pure true
beat o id (some key) = do
  modify_job id (mark_beat o)
  done ← on_locks (λ s. (true, beat_lock o key s))
  pure true

heartbeat_found : Outside → Text → Option Text → Option Text → M Bool
unfolding beat
heartbeat_found o id (some token) (some key) = do
  accepted ← on_locks (validate_fencing_token o.env key (owner_id id) token)
  if accepted then beat o id (some key) else pure false
heartbeat_found o id none key = beat o id key
heartbeat_found o id (some token) none = beat o id none

pub heartbeat : Outside → Text → Option Text → M Bool
unfolding heartbeat_found
heartbeat o id token = do
  found ← get_by_id id
  elim found [
    | none ↦ pure false
    | some job ↦ heartbeat_found o id (truthy token) (truthy job.lock_key)
  ]

-- The callback token of a job, by its hash, until it expires.
unfoldable pub verify_callback_token : ℕ → Text → Option Job → Bool
verify_callback_token now hash none = false
verify_callback_token now hash (some job) = elim (truthy job.callback_token_hash) [
  | none ↦ false
  | some expected ↦ elim job.callback_token_expires_at [
    | none ↦ false
    | some t ↦ not (ltb t now) && text_eq hash expected
  ]
]
