-- ===== src/Job/Failure/Runs.antt =====
-- What `handleFailure` and `promoteBlockedJobs` of
-- packages/orchestrator/src/services/job-service.ts do to the table of jobs, by what their calls of
-- the other methods do.
use vmcp.Base.{
  ◌+◌, ◌≡◌, refl, inl, inr, true, false, ◌&&◌, Option, none, some, List, [], ◌∷◌, Text, text_eq,
  ltb, Option-cases, Bool-cases, arith,
}
use vmcp.Scheduler.{WorkerTier}
use vmcp.Status.{JobStatus, is_terminal, blocked, dep_failed, dead_letter, status_eq}
use vmcp.Status.Lifecycle.{status_eq_iff}
use vmcp.Gate.{Decision, can_promote_blocked_job}
use vmcp.Lock.Service.{truthy}
use vmcp.Job.State.{M, Job, Outside, find_job, update_job}
use vmcp.Job.State.Logic.{Triple, triple_bind}
use vmcp.Job.State.Table.{Live, UniqueIds, Steady, Fresh, filter-Fresh, find_job_unique}
use vmcp.Job.Calls.{Caller, JobStatusUpdate, dispatch, update, promote, release_lock_of}
use vmcp.Job.Failure.{
  requeue, bury, retry, retry_tier, write_dead_letter, leave_slot, leave, report_dead, exhaust,
  handle_failure, unblock, blocked_jobs, fail_blocked, promote_one, promote_row, promote_rows,
  promote_blocked_jobs, promote_opts,
}

-- `I` holds before, `K` once the job was requeued or buried, and `J` after.
module _ (I K J E : List Job → Type 0) (weaken : (js : List Job) → I js → J js)
    (weaken' : (js : List Job) → K js → J js) (call : Caller) (o : Outside) (id : Text)
    (requeued : (js : List Job) (j : Job)
      → find_job id js ≡ some j
      → is_terminal j.status ≡ false
      → ltb j.attempt j.max_attempts ≡ true
      → I js
      → K (update_job id (requeue (j.attempt + 1)) js))
    (buried : (js : List Job) (j : Job)
      → find_job id js ≡ some j
      → is_terminal j.status ≡ false
      → I js
      → K (update_job id (bury o) js))
    (dispatches : (p : Option WorkerTier)
      → Triple
          (λ w. J w.jobs)
          (λ w. E w.jobs)
          (λ w. K w.jobs)
          (call (dispatch id p))
          (λ _ w. J w.jobs))
    (promotes : (project : Text)
      → Triple
          (λ w. J w.jobs)
          (λ w. E w.jobs)
          (λ w. K w.jobs)
          (call (promote project id dead_letter))
          (λ _ w. J w.jobs)) where
  abbrev Holds : (List Job → Type 0) → M (Unit {0}) → (List Job → Type 0) → Type 0
  Holds P m L = Triple (λ w. J w.jobs) (λ w. E w.jobs) (λ w. P w.jobs) m (λ _ w. L w.jobs)

  leave_slot-Holds : (job : Job) → Holds K (leave_slot call o id job) J
  unfolding leave_slot release_lock_of
  leave_slot-Holds job w k = elim (Option-cases (truthy job.lock_key)) [
    | inl e ↦ rw (leave_slot, e) (weaken' w.jobs k)
    | inr (key, e) ↦ rw (leave_slot, e) (promotes job.project_id _ k)
  ]

  leave-Holds : (job : Job) → Holds K (leave call o id job) J
  unfolding leave report_dead
  leave-Holds job =
      triple_bind _ _ _ _ (leave_slot call o id job) (λ _. report_dead id) (leave_slot-Holds job)
        (λ _ w j. j)

  write_dead_letter-Holds :
      (job : Job)
      → is_terminal job.status ≡ false
      → Holds (λ js. I js × (find_job id js ≡ some job)) (write_dead_letter o id job) K
  unfolding write_dead_letter
  write_dead_letter-Holds job live w (i, found) = elim (Bool-cases o.env.commits) [
    | inl e ↦ rw (write_dead_letter, e) (buried w.jobs job found live i)
    | inr e ↦ rw (write_dead_letter, e) (weaken w.jobs i)
  ]

  exhaust-Holds :
      (job : Job)
      → is_terminal job.status ≡ false
      → Holds (λ js. I js × (find_job id js ≡ some job)) (exhaust call o id job) J
  unfolding exhaust
  exhaust-Holds job live =
      triple_bind _ _ _ _ (write_dead_letter o id job) (λ _. leave call o id job)
        (write_dead_letter-Holds job live) (λ _. leave-Holds job)

  -- `handleFailure` of a live job leads from `I` to `J`.
  pub handle_failure-Holds : Holds (λ js. I js × Live id js) (handle_failure call o id) J
  unfolding handle_failure
  handle_failure-Holds w (i, l) = elim (Option-cases (find_job id w.jobs)) [
    | inl e ↦ rw e (weaken w.jobs i)
    | inr (job, e) ↦ elim (Bool-cases (ltb job.attempt job.max_attempts)) [
      | inl c ↦
          rw (e, c)
            (unfold retry in dispatches (retry_tier job) _ (requeued w.jobs job e (l job e) c i))
      | inr c ↦ rw (e, c) (exhaust-Holds job (l job e) w (i, e))
    ]
  ]

-- `I` holds before and `J` after.
module _ (I J E : List Job → Type 0) (unique : (js : List Job) → I js → UniqueIds js)
    (steady : Steady I) (weaken : (js : List Job) → I js → J js) (call : Caller) (o : Outside)
    (dispatches : (id : Text)
      → Triple
          (λ w. J w.jobs)
          (λ w. E w.jobs)
          (λ w. I w.jobs)
          (call (dispatch id none))
          (λ _ w. J w.jobs))
    (refuses : (j : Job) (u : JobStatusUpdate)
      → j.status ≡ blocked
      → u.status ≡ dep_failed
      → Triple
          (λ w. J w.jobs)
          (λ w. E w.jobs)
          (λ w. I w.jobs × (find_job j.id w.jobs ≡ some j))
          (call (update j.id u false))
          (λ _ w. ⊥)) where
  abbrev Leads : (List Job → Type 0) → M (Unit {0}) → Type 0
  Leads P m = Triple (λ w. J w.jobs) (λ w. E w.jobs) (λ w. P w.jobs) m (λ _ w. J w.jobs)

  promote_one-Leads :
      (j : Job)
      → j.status ≡ blocked
      → Leads (λ js. I js × (find_job j.id js ≡ some j)) (promote_one call o j)
  unfolding promote_one is_terminal
  promote_one-Leads j b w (i, found) = dispatches j.id _ (
      steady j.id unblock w.jobs (λ k. (refl, refl, refl, refl))
        (λ k e. rw (find_job_unique j.id w.jobs k j e found, b) refl) i)

  promote_row-Leads :
      (j : Job) (rest : List Job) (later : M (Unit {0})) (d : Decision)
      → j.status ≡ blocked
      → Leads (λ js. I js × Fresh rest js) later
      → Leads (λ js. I js × Fresh (j ∷ rest) js) (promote_row call o j later d)
  unfolding promote_row fail_blocked
  promote_row-Leads j rest later d b go w (i, (found, _, fresh)) = elim (Bool-cases d.dep_failed) [
    | inl e ↦
        rw (promote_row, e)
          (triple_bind _ _ (λ _ _. ⊥) (λ _ w. J w.jobs) (fail_blocked call o j d) (λ _. later)
            (refuses j _ b refl) (λ _ w p. absurd p) w (i, found))
    | inr e ↦ elim (Bool-cases d.promote) [
      | inl f ↦ rw (promote_row, e, f) (promote_one-Leads j b w (i, found))
      | inr f ↦ rw (promote_row, e, f) (go w (i, fresh))
    ]
  ]

  promote_rows-Leads :
      (project finished : Text) (s : JobStatus) (rows : List Job)
      → Leads (λ js. I js × Fresh rows js) (promote_rows call o project finished s rows)
  unfolding promote_rows
  promote_rows-Leads project finished s [] w (i, _) = weaken w.jobs i
  promote_rows-Leads project finished s (j ∷ rest) w (i, fresh) =
      promote_row-Leads j rest (promote_rows call o project finished s rest)
        (can_promote_blocked_job (promote_opts project finished s j w.jobs)) (fresh.1)
        (promote_rows-Leads project finished s rest) w (i, fresh)

  -- `promoteBlockedJobs` leads from `I` to `J`.
  pub promote_blocked_jobs-Leads :
      (project finished : Text) (s : JobStatus)
      → Leads I (promote_blocked_jobs call o project finished s)
  unfolding promote_blocked_jobs
  promote_blocked_jobs-Leads project finished s w i =
      promote_rows-Leads project finished s (blocked_jobs project w.jobs) w
        (i, filter-Fresh _ w.jobs (λ j e. is_blocked j e) (unique w.jobs i))
    where
      is_blocked :
          (j : Job)
          → (text_eq j.project_id project && status_eq j.status blocked) ≡ true
          → j.status ≡ blocked
      is_blocked j e = ground (arith, status_eq_iff j.status blocked)
