-- ===== src/Job/Dispatch/Start.antt =====
-- A dispatch that succeeds, by `dispatchJob` of packages/orchestrator/src/services/job-service.ts and
-- the lock service.
use vmcp.Base.{◌≢◌, ◌≡◌, refl, ◌∙◌, ◌↔◌, true, Option, none, some, length, Text}
use vmcp.Status.{JobStatus, queued, status_eq, dispatching}
use vmcp.Fencing.RoundTrip.{IsUuid}
use vmcp.Scheduler.{WorkerTier, select_tier}
use vmcp.Lock.Redis.{get, next_token, script_instance}
use vmcp.Lock.Redis.Holder.{holder}
use vmcp.Lock.Service.{Env, truthy, returns, acquired, acquire, generation_lock_key}
use vmcp.Lock.Service.Ensure.{current_instance}
use vmcp.Lock.Service.Validation.{accepted}
use vmcp.Lock.Service.Refusal.{acquire-free}
use vmcp.Lock.Service.Acquire.{ready, acquire-accepted}
use vmcp.Job.State.{
  Job, Project, Metadata, CommitStrategy, same_machine, cross_machine, World, Outside, ok, find_job,
  update_job, find_project, owner_id,
}
use vmcp.Job.State.Table.{find_job-update_job, find_job-update_job_other}
use vmcp.Job.Calls.{Caller}
use vmcp.Job.Dispatch.{
  not_cross_machine, dispatchable, mark_dispatching, resolve_cross_machine_provision, start, launch,
  acquire_target, acquire_generation, dispatch_for, dispatch_ready, dispatch_gated, dispatch_job,
}

-- The job waits for nothing, works on this machine, and GitHub takes the workflow.
abbrev pub IsStartable : Outside → World → Text → Job → Project → Type 0
IsStartable o w id j project =
    (find_job id w.jobs ≡ some j)
    × (j.status ≡ queued)
    × (truthy j.depends_on_job_id ≡ none)
    × (find_project j.project_id w.projects ≡ some project)
    × (j.commit_strategy ≡ same_machine)
    × (o.dispatch_error j ≡ none)

abbrev pub key_of : Job → Text
key_of j = generation_lock_key j.project_id

-- The tier that the job is given.
abbrev pub tier_of : Outside → World → Option WorkerTier → Project → WorkerTier
tier_of o w p project =
    select_tier o.tier_config w.tiers (length w.priority_queue) p project.high_volume none

-- The state once the generation lock is taken.
abbrev locked : Outside → Text → Job → World → World
locked o id j w = record w {
  locks = (acquire o.env (key_of j) (owner_id id) 120 (some id) none w.locks).1;
}

resolve-same :
    (c : CommitStrategy) (m : Metadata)
    → c ≡ same_machine
    → resolve_cross_machine_provision c m ≡ not_cross_machine
unfolding resolve_cross_machine_provision
resolve-same same_machine m h = refl
resolve-same cross_machine m h = cc

launch-start :
    (call : Caller) (o : Outside) (id : Text) (j : Job) (tier : WorkerTier) (token key : Text)
    (w : World)
    → j.commit_strategy ≡ same_machine
    → launch call o id j tier token key none w ≡ start call o id j tier token key none w
unfolding launch
launch-start call o id j tier token key w c =
    rw (launch, resolve-same j.commit_strategy j.metadata c) refl

acquire_target-launch :
    (call : Caller) (o : Outside) (id : Text) (j : Job) (tier : WorkerTier) (token key : Text)
    (c : CommitStrategy) (w : World)
    → c ≡ same_machine
    → acquire_target call o id j tier token key c w ≡ launch call o id j tier token key none w
unfolding acquire_target
acquire_target-launch call o id j tier token key same_machine w h = refl
acquire_target-launch call o id j tier token key cross_machine w h = cc

acquire_generation-start :
    (call : Caller) (o : Outside) (id : Text) (j : Job) (tier : WorkerTier) (token : Text)
    (w : World)
    → j.commit_strategy ≡ same_machine
    → (acquire o.env (key_of j) (owner_id id) 120 (some id) none w.locks).0
      ≡ returns (acquired token)
    → acquire_generation call o id j tier w
      ≡ start call o id j tier token (key_of j) none (locked o id j w)
unfolding acquire_generation
acquire_generation-start call o id j tier token w c got =
    rw (acquire_generation, got)
      (acquire_target-launch call o id j tier token (key_of j) j.commit_strategy (locked o id j w) c
        ∙ launch-start call o id j tier token (key_of j) (locked o id j w) c)

dispatch_ready-start :
    (call : Caller) (o : Outside) (id : Text) (j : Job) (p : Option WorkerTier) (project : Project)
    (token : Text) (w : World)
    → find_project j.project_id w.projects ≡ some project
    → j.commit_strategy ≡ same_machine
    → (acquire o.env (key_of j) (owner_id id) 120 (some id) none w.locks).0
      ≡ returns (acquired token)
    → dispatch_ready call o id j p w
      ≡ start call o id j (tier_of o w p project) token (key_of j) none (locked o id j w)
unfolding dispatch_ready dispatch_for
dispatch_ready-start call o id j p project token w pr c got =
    rw pr (acquire_generation-start call o id j (tier_of o w p project) token w c got)

queued-dispatchable : (s : JobStatus) → s ≡ queued → dispatchable s ≡ true
unfolding status_eq
queued-dispatchable s q = rw q refl

dispatch_job-start :
    (call : Caller) (o : Outside) (id token : Text) (p : Option WorkerTier) (w : World) (j : Job)
    (project : Project)
    → IsStartable o w id j project
    → (acquire o.env (key_of j) (owner_id id) 120 (some id) none w.locks).0
      ≡ returns (acquired token)
    → dispatch_job call o id p w
      ≡ start call o id j (tier_of o w p project) token (key_of j) none (locked o id j w)
unfolding dispatch_job dispatch_gated
dispatch_job-start call o id token p w j project (found, q, d, pr, same, fine) got =
    rw (found, queued-dispatchable j.status q, dispatch_gated, d)
      (dispatch_ready-start call o id j p project token w pr same got)

start-ends :
    (call : Caller) (o : Outside) (id : Text) (j : Job) (tier : WorkerTier) (token key : Text)
    (w : World)
    → o.dispatch_error j ≡ none
    → let (r, w') = start call o id j tier token key none w in
      (r ≡ ok tt)
      × (w'.jobs ≡ update_job id (mark_dispatching o tier token key none) w.jobs)
      × (w'.locks ≡ w.locks)
unfolding start
start-ends call o id j tier token key w fine = rw (start, fine) (refl, refl, refl)

-- A queued job that can start is dispatched if the lock of its project is free with no token
-- alive and the transaction commits, provided that the service works with the instance id that
-- Redis holds, which is a UUID: the row of the job is `dispatching`, with the chosen tier, the
-- lock and the next token of its counter, and no other row is changed. For that lock the token
-- of the row is accepted, from this job and from no other owner, and no other token is.
pub dispatch_job-accepted :
    (call : Caller) (o : Outside) (e : Env) (id : Text) (p : Option WorkerTier) (w : World)
    (j : Job) (project : Project) (owner t : Text)
    → IsStartable o w id j project
    → IsUuid (current_instance o.env w.locks)
    → (ready o.env w.locks).redis.instance_id ≡ some (current_instance o.env w.locks)
    → holder o.env.now (key_of j) (ready o.env w.locks).redis ≡ none
    → get o.env.now ((ready o.env w.locks).redis.tokens (key_of j)) ≡ none
    → o.env.commits ≡ true
    → let token =
        next_token (current_instance o.env w.locks) (key_of j) (ready o.env w.locks).redis in
      let (r, w') = dispatch_job call o id p w in
      (r ≡ ok tt)
      × ((row : Job) × (find_job id w'.jobs ≡ some row)
          × (row.status ≡ dispatching)
          × (row.tier ≡ some (tier_of o w p project))
          × (row.lock_key ≡ some (key_of j))
          × (row.fencing_token ≡ some token)
          × (row.attempt ≡ j.attempt))
      × ((k : Text) → k ≢ id → find_job k w'.jobs ≡ find_job k w.jobs)
      × ((accepted e (key_of j) owner t w'.locks ≡ true) ↔ ((owner ≡ owner_id id) × (t ≡ token)))
dispatch_job-accepted call o e id p w j project owner t can uuid known free no_token commits =
    let token =
      next_token (current_instance o.env w.locks) (key_of j) (ready o.env w.locks).redis in
    let moved = mark_dispatching o (tier_of o w p project) token (key_of j) none in
    let got =
      acquire-free o.env (key_of j) (owner_id id) (current_instance o.env w.locks) 120 (some id)
        none w.locks (rw (script_instance, known) refl) free commits in
    let (r, jobs, locks) =
      start-ends call o id j (tier_of o w p project) token (key_of j) (locked o id j w) can.5 in
    rw (dispatch_job-start call o id token p w j project can got) (
      r,
      (
        moved j,
        rw jobs (find_job-update_job id moved w.jobs j (λ k. refl) can.0),
        refl,
        refl,
        refl,
        refl,
        refl,
      ),
      λ k ne. rw jobs (find_job-update_job_other id k moved w.jobs (λ i. refl) ne),
      rw locks (
          acquire-accepted o.env e (key_of j) (owner_id id) token owner t 120 (some id) w.locks uuid
            known (λ u h. cc (h, no_token)) (rw got refl)),
    )
