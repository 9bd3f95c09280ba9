-- ===== src/Job/Dispatch.antt =====
-- `dispatchJob` of packages/orchestrator/src/services/job-service.ts. The signed URLs and the sealed
-- envelope of secrets that it makes on the way are left out: no state of the service depends on them.
pub mod Runs
pub mod Start
use vmcp.Base.{
  ◌+◌, Bool, false, ◌||◌, Option, none, some, [], ◌∷◌, ◌++◌, length, any, Text, codes, text_eq,
  trim, if◌then◌else◌,
}
use vmcp.Errors.{e001, e004, e011}
use vmcp.Status.{
  JobStatus, queued, lock_stale, dispatch_timeout, dispatch_failed, dispatching, dep_failed,
  status_eq,
}
use vmcp.Gate.{
  Dependency, DependencyGate, allow, block_dependency, gate_failed, evaluate_dependency_gate,
}
use vmcp.Scheduler.{WorkerTier, select_tier}
use vmcp.Lock.Service.{
  truthy, acquired, reentrant, denied, error, acquire, generation_lock_key, target_path_lock_key,
}
use vmcp.Job.State.{
  CommitStrategy, same_machine, cross_machine, Metadata, Job, Project, Outside, job_updated,
  resolve_run, job_not_found, project_missing, lock_failed, M, ◌>>=◌, ◌>>◌, pure, throw, world,
  emit, find_project, get_by_id, modify_job, on_locks, unwrap, field, merge, owner_id, ok,
}
use vmcp.Job.Calls.{Caller, update, failure_update, record_error, block_job, release_lock_of}

abbrev pub dependency_of : Option Job → Option Dependency
dependency_of none = none
dependency_of (some j) = some (record { id = j.id; project_id = j.project_id; status = j.status })

-- The statuses from which a job is dispatched.
abbrev pub dispatchable : JobStatus → Bool
dispatchable s =
    status_eq s queued
    || (status_eq s lock_stale || (status_eq s dispatch_timeout || status_eq s dispatch_failed))

pub data ProvisionPlan : Type 0 where
  not_cross_machine : ProvisionPlan
  provision : Text → Text → ProvisionPlan
  provision_fails : Text → ProvisionPlan

abbrev trimmed_field : Text → Metadata → Option Text
trimmed_field k m = elim (field k m) [ none ↦ none | some v ↦ truthy (some (trim v)) ]

provision_plan : Option Text → Option Text → ProvisionPlan
provision_plan none none =
    provision_fails
      (codes "cross-machine requires metadata.targetHost and metadata.targetProvisionUrl")
provision_plan none (some url) =
    provision_fails (codes "cross-machine requires metadata.targetHost")
provision_plan (some host) none =
    provision_fails (codes "cross-machine requires metadata.targetProvisionUrl")
provision_plan (some host) (some url) = provision host url

-- `resolveCrossMachineProvision` of ssh-provision.ts.
unfoldable pub resolve_cross_machine_provision : CommitStrategy → Metadata → ProvisionPlan
unfolding provision_plan
resolve_cross_machine_provision same_machine m = not_cross_machine
resolve_cross_machine_provision cross_machine m =
    provision_plan (trimmed_field (codes "targetHost") m)
      (trimmed_field (codes "targetProvisionUrl") m)

abbrev pub target_lock_field : Text
target_lock_field = codes "targetPathLockKey"

-- `UPDATE jobs SET status = 'DISPATCHING', …`
abbrev pub mark_dispatching : Outside → WorkerTier → Text → Text → Option Text → Job → Job
mark_dispatching o tier token key target j = record j {
  status = dispatching;
  tier = some tier;
  fencing_token = some token;
  lock_key = some key;
  callback_token_hash = some (o.callback_hash j.id);
  callback_token_expires_at = some (o.env.now + o.callback_ttl);
  metadata = elim target [
    | none ↦ j.metadata
    | some t ↦ merge j.metadata ((target_lock_field, t) ∷ [])
  ];
}

-- `ZADD` of the job's id.
abbrev enqueue_priority : Text → M (Unit {0})
enqueue_priority id w = (
  ok tt,
  record w {
    priority_queue =
        if any (text_eq id) w.priority_queue then w.priority_queue else id ∷ w.priority_queue;
  },
)

module _ (call : Caller) (o : Outside) where
  -- `failDispatchPreStart`
  fail_dispatch_pre_start : Text → Text → Option Text → Text → M (Unit {0})
  fail_dispatch_pre_start id key none detail = do
    release_lock_of o key id
    call (update id (failure_update dispatch_failed e004 detail) false)
  fail_dispatch_pre_start id key (some target) detail = do
    release_lock_of o key id
    release_lock_of o target id
    call (update id (failure_update dispatch_failed e004 detail) false)

  -- The write of `DISPATCHING` and the call of GitHub.
  start : Text → Job → WorkerTier → Text → Text → Option Text → M (Unit {0})
  start id job tier token key target = do
    modify_job id (mark_dispatching o tier token key target)
    elim (o.dispatch_error job) [
      | some m ↦ do
        record_error id e001 (codes "Dispatch failed: " ++ m)
        call
            (update id (failure_update dispatch_failed e001 (codes "Dispatch failed: " ++ m)) false)
      | none ↦ do emit (resolve_run id tier job.attempt); enqueue_priority id; emit (job_updated id)
    ]

  -- The target host is provisioned where the job is for another machine.
  launch : Text → Job → WorkerTier → Text → Text → Option Text → M (Unit {0})
  unfolding fail_dispatch_pre_start start
  launch id job tier token key target =
      elim (resolve_cross_machine_provision job.commit_strategy job.metadata) [
        | not_cross_machine ↦ start id job tier token key target
        | provision_fails detail ↦ fail_dispatch_pre_start id key target detail
        | provision host url ↦ elim (o.provision_error job) [
          | some d ↦ fail_dispatch_pre_start id key target (codes "ssh provision failed: " ++ d)
          | none ↦ start id job tier token key target
        ]
      ]

  refuse_target : Text → Text → Text → M (Unit {0})
  refuse_target id key target = do
    release_lock_of o key id
    block_job id
        ((codes "reason", codes "target_path_lock_held") ∷ (target_lock_field, target) ∷ [])

  -- A job for another machine needs the lock of the target path as well.
  acquire_target : Text → Job → WorkerTier → Text → Text → CommitStrategy → M (Unit {0})
  unfolding launch refuse_target
  acquire_target id job tier token key same_machine = launch id job tier token key none
  acquire_target id job tier token key cross_machine = do
    let target = target_path_lock_key job.project_id
    result ← on_locks (acquire o.env target (owner_id id) 120 (some id) none)
    got ← unwrap result
    elim got [
      | acquired t ↦ launch id job tier token key (some target)
      | reentrant t ↦ launch id job tier token key (some target)
      | denied ↦ refuse_target id key target
      | error m ↦ refuse_target id key target
    ]

  acquire_generation : Text → Job → WorkerTier → M (Unit {0})
  unfolding acquire_target
  acquire_generation id job tier = do
    let key = generation_lock_key job.project_id
    result ← on_locks (acquire o.env key (owner_id id) 120 (some id) none)
    got ← unwrap result
    elim got [
      | acquired token ↦ acquire_target id job tier token key job.commit_strategy
      | reentrant token ↦ acquire_target id job tier token key job.commit_strategy
      | denied ↦ block_job id ((codes "reason", codes "generation_lock_held") ∷ [])
      | error m ↦ throw (lock_failed m)
    ]

  dispatch_for : Text → Job → Option WorkerTier → Option Project → M (Unit {0})
  unfolding acquire_generation
  dispatch_for id job preferred none = throw project_missing
  dispatch_for id job preferred (some project) = do
    w ← world
    acquire_generation id job (
        select_tier o.tier_config w.tiers (length w.priority_queue) preferred project.high_volume
          none)

  dispatch_ready : Text → Job → Option WorkerTier → M (Unit {0})
  unfolding dispatch_for
  dispatch_ready id job preferred = do
    w ← world
    dispatch_for id job preferred (find_project job.project_id w.projects)

  heed : Text → Job → Option WorkerTier → DependencyGate → M (Unit {0})
  unfolding dispatch_ready
  heed id job preferred allow = dispatch_ready id job preferred
  heed id job preferred (gate_failed r) = call (update id (failure_update dep_failed e011 r) false)
  heed id job preferred (block_dependency r) =
      block_job id ((codes "reason", codes "dependency_incomplete") ∷ (codes "detail", r) ∷ [])

  -- A dependency has to be completed first.
  dispatch_gated : Text → Job → Option WorkerTier → M (Unit {0})
  unfolding heed
  dispatch_gated id job preferred = elim (truthy job.depends_on_job_id) [
    | none ↦ dispatch_ready id job preferred
    | some d ↦ do
      dep ← get_by_id d
      heed id job preferred (evaluate_dependency_gate (dependency_of dep) job.project_id)
  ]

  pub dispatch_job : Text → Option WorkerTier → M (Unit {0})
  unfolding dispatch_gated
  dispatch_job id preferred = do
    found ← get_by_id id
    elim found [
      | none ↦ throw job_not_found
      | some job ↦ if dispatchable job.status then dispatch_gated id job preferred else pure tt
    ]
