-- ===== src/Job/Dispatch/Runs.antt =====
-- What `dispatchJob` of packages/orchestrator/src/services/job-service.ts does to the table of jobs,
-- by what its calls of `updateStatus` do.
use vmcp.Base.{
  ◌≡◌, refl, ◌⊎◌, inl, inr, true, false, Option, none, some, List, [], ◌∷◌, Text, codes,
  Option-cases, Bool-cases,
}
use vmcp.Status.{
  JobStatus, completed, rollback, dispatch_failed, dep_failed, cancelled, dead_letter, status_eq,
  is_terminal,
}
use vmcp.Gate.{DependencyGate, allow, block_dependency, gate_failed}
use vmcp.Scheduler.{WorkerTier}
use vmcp.Lock.Service.{
  Result, returns, throws, generation_lock_key, target_path_lock_key, truthy, AcquireResult,
  acquired, reentrant, denied, error, acquire,
}
use vmcp.Job.State.{
  M, Project, Metadata, CommitStrategy, same_machine, cross_machine, Job, World, Outside, find_job,
  find_project, owner_id,
}
use vmcp.Job.State.Logic.{Triple}
use vmcp.Job.State.Table.{Live, Steady, update_job-Live, find_job_unique}
use vmcp.Job.Calls.{Caller, JobStatusUpdate, update, record_error, block_job, release_lock_of}
use vmcp.Job.Dispatch.{
  ProvisionPlan, not_cross_machine, provision, provision_fails, resolve_cross_machine_provision,
  fail_dispatch_pre_start, start, launch, refuse_target, acquire_target, acquire_generation,
  dispatch_for, dispatch_ready, heed, dispatch_gated, dispatch_job, dispatchable, mark_dispatching,
}

plan_cases :
    (x : ProvisionPlan)
    → (x ≡ not_cross_machine)
      ⊎ (((d : Text) × (x ≡ provision_fails d))
          ⊎ ((host : Text) × (url : Text) × (x ≡ provision host url)))
plan_cases not_cross_machine = inl refl
plan_cases (provision_fails d) = inr (inl (d, refl))
plan_cases (provision host url) = inr (inr (host, url, refl))

dispatchable-live : (s : JobStatus) → dispatchable s ≡ true → is_terminal s ≡ false
unfolding is_terminal status_eq
dispatchable-live completed h = cc
dispatchable-live rollback h = cc
dispatchable-live dep_failed h = cc
dispatchable-live cancelled h = cc
dispatchable-live dead_letter h = cc
dispatchable-live _ h = refl

data AcquireCases (x : Result AcquireResult) : Type 0 where
  gained : (t : Text) → (x ≡ returns (acquired t)) ⊎ (x ≡ returns (reentrant t)) → AcquireCases x
  was_denied : x ≡ returns denied → AcquireCases x
  erred : (m : Text) → x ≡ returns (error m) → AcquireCases x
  threw : (m : Text) → x ≡ throws m → AcquireCases x

acquire_cases : (x : Result AcquireResult) → AcquireCases x
acquire_cases (returns (acquired t)) = gained t (inl refl)
acquire_cases (returns (reentrant t)) = gained t (inr refl)
acquire_cases (returns denied) = was_denied refl
acquire_cases (returns (error m)) = erred m refl
acquire_cases (throws m) = threw m refl

-- `I` holds before and `J` after, `E` after the end of the fuel.
module _ (I J E : List Job → Type 0) (steady : Steady I) (weaken : (js : List Job) → I js → J js)
    (call : Caller) (o : Outside)
    (updates : (id : Text) (u : JobStatusUpdate)
      → (u.status ≡ dispatch_failed) ⊎ (u.status ≡ dep_failed)
      → Triple
          (λ w. J w.jobs)
          (λ w. E w.jobs)
          (λ w. I w.jobs × Live id w.jobs)
          (call (update id u false))
          (λ _ w. J w.jobs)) where
  abbrev Ready : Text → World → Type 0
  Ready id w = I w.jobs × Live id w.jobs

  abbrev Ends : Text → M (Unit {0}) → Type 0
  Ends id m = Triple (λ w. J w.jobs) (λ w. E w.jobs) (Ready id) m (λ _ w. J w.jobs)

  fail_dispatch_pre_start-Ends :
      (id key : Text) (target : Option Text) (detail : Text)
      → Ends id (fail_dispatch_pre_start call o id key target detail)
  unfolding fail_dispatch_pre_start release_lock_of
  fail_dispatch_pre_start-Ends id key none detail w p = updates id _ (inl refl) _ p
  fail_dispatch_pre_start-Ends id key (some t) detail w p = updates id _ (inl refl) _ p

  start-Ends :
      (id : Text) (job : Job) (tier : WorkerTier) (token key : Text) (target : Option Text)
      → Ends id (start call o id job tier token key target)
  unfolding start record_error is_terminal
  start-Ends id job tier token key target w (i, l) =
      let moved =
        steady id (mark_dispatching o tier token key target) w.jobs (λ j. (refl, refl, refl, refl))
          l i in
      elim (Option-cases (o.dispatch_error job)) [
        | inl e ↦ rw e (weaken _ moved)
        | inr (m, e) ↦
            rw e (
              updates id _ (inl refl) _
                (moved, update_job-Live id _ w.jobs (λ j. refl) (λ j. refl)))
      ]

  block_job-Ends : (id : Text) (m : Metadata) → Ends id (block_job id m)
  unfolding block_job is_terminal
  block_job-Ends id m w (i, l) = weaken _ (steady id _ w.jobs (λ j. (refl, refl, refl, refl)) l i)

  launch-Ends :
      (id : Text) (job : Job) (tier : WorkerTier) (token key : Text) (target : Option Text)
      → Ends id (launch call o id job tier token key target)
  unfolding launch
  launch-Ends id job tier token key target w p =
      elim (plan_cases (resolve_cross_machine_provision job.commit_strategy job.metadata)) [
        | inl e ↦ rw (launch, e) (start-Ends id job tier token key target w p)
        | inr (inl (d, e)) ↦ rw (launch, e) (fail_dispatch_pre_start-Ends id key target d w p)
        | inr (inr (host, url, e)) ↦ elim (Option-cases (o.provision_error job)) [
          | inl f ↦ rw (launch, e, f) (start-Ends id job tier token key target w p)
          | inr (d, f) ↦ rw (launch, e, f) (fail_dispatch_pre_start-Ends id key target _ w p)
        ]
      ]

  refuse_target-Ends : (id key target : Text) → Ends id (refuse_target call o id key target)
  unfolding refuse_target release_lock_of
  refuse_target-Ends id key target w p = block_job-Ends id _ _ p

  acquire_target-Ends :
      (id : Text) (job : Job) (tier : WorkerTier) (token key : Text) (c : CommitStrategy)
      → Ends id (acquire_target call o id job tier token key c)
  unfolding acquire_target
  acquire_target-Ends id job tier token key same_machine w p =
      launch-Ends id job tier token key none w p
  acquire_target-Ends id job tier token key cross_machine w p =
      let target = target_path_lock_key job.project_id in
      let (r, s) = acquire o.env target (owner_id id) 120 (some id) none w.locks in
      let w' = record w { locks = s } in
      elim (acquire_cases r) [
        | gained t (inl e) ↦
            rw (acquire_target, e) (launch-Ends id job tier token key (some target) w' p)
        | gained t (inr e) ↦
            rw (acquire_target, e) (launch-Ends id job tier token key (some target) w' p)
        | was_denied e ↦ rw (acquire_target, e) (refuse_target-Ends id key target w' p)
        | erred m e ↦ rw (acquire_target, e) (refuse_target-Ends id key target w' p)
        | threw m e ↦ rw (acquire_target, e) (weaken w.jobs p.0)
      ]

  acquire_generation-Ends :
      (id : Text) (job : Job) (tier : WorkerTier) → Ends id (acquire_generation call o id job tier)
  unfolding acquire_generation
  acquire_generation-Ends id job tier w p =
      let key = generation_lock_key job.project_id in
      let (r, s) = acquire o.env key (owner_id id) 120 (some id) none w.locks in
      let w' = record w { locks = s } in
      elim (acquire_cases r) [
        | gained t (inl e) ↦
            rw (acquire_generation, e)
              (acquire_target-Ends id job tier t key job.commit_strategy w' p)
        | gained t (inr e) ↦
            rw (acquire_generation, e)
              (acquire_target-Ends id job tier t key job.commit_strategy w' p)
        | was_denied e ↦
            rw (acquire_generation, e)
              (block_job-Ends id ((codes "reason", codes "generation_lock_held") ∷ []) w' p)
        | erred m e ↦ rw (acquire_generation, e) (weaken w.jobs p.0)
        | threw m e ↦ rw (acquire_generation, e) (weaken w.jobs p.0)
      ]

  dispatch_for-Ends :
      (id : Text) (job : Job) (p : Option WorkerTier) (project : Option Project)
      → Ends id (dispatch_for call o id job p project)
  unfolding dispatch_for
  dispatch_for-Ends id job p none w r = weaken w.jobs r.0
  dispatch_for-Ends id job p (some project) w r = acquire_generation-Ends id job _ w r

  dispatch_ready-Ends :
      (id : Text) (job : Job) (p : Option WorkerTier) → Ends id (dispatch_ready call o id job p)
  unfolding dispatch_ready
  dispatch_ready-Ends id job p w r =
      dispatch_for-Ends id job p (find_project job.project_id w.projects) w r

  heed-Ends :
      (id : Text) (job : Job) (p : Option WorkerTier) (gate : DependencyGate)
      → Ends id (heed call o id job p gate)
  unfolding heed
  heed-Ends id job p allow w r = dispatch_ready-Ends id job p w r
  heed-Ends id job p (gate_failed m) w r = updates id _ (inr refl) w r
  heed-Ends id job p (block_dependency m) w r = block_job-Ends id _ w r

  dispatch_gated-Ends :
      (id : Text) (job : Job) (p : Option WorkerTier) → Ends id (dispatch_gated call o id job p)
  unfolding dispatch_gated
  dispatch_gated-Ends id job p w r = elim (Option-cases (truthy job.depends_on_job_id)) [
    | inl e ↦ rw (dispatch_gated, e) (dispatch_ready-Ends id job p w r)
    | inr (d, e) ↦ rw (dispatch_gated, e) (heed-Ends id job p _ w r)
  ]

  -- `dispatchJob` leads from `I` to `J`.
  pub dispatch_job-Ends :
      (id : Text) (p : Option WorkerTier)
      → Triple
          (λ w. J w.jobs)
          (λ w. E w.jobs)
          (λ w. I w.jobs)
          (dispatch_job call o id p)
          (λ _ w. J w.jobs)
  unfolding dispatch_job
  dispatch_job-Ends id p w i = elim (Option-cases (find_job id w.jobs)) [
    | inl e ↦ rw e (weaken _ i)
    | inr (job, e) ↦ elim (Bool-cases (dispatchable job.status)) [
      | inl f ↦ rw (e, f) (dispatch_gated-Ends id job p w (i, λ j h. live job e f j h))
      | inr f ↦ rw (e, f) (weaken _ i)
    ]
  ]
    where
      live :
          (job : Job)
          → find_job id w.jobs ≡ some job
          → dispatchable job.status ≡ true
          → Live id w.jobs
      live job e f j h = rw (find_job_unique id w.jobs j job h e) (dispatchable-live job.status f)
