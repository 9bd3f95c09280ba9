-- ===== src/Job/Update/Progress.antt =====
-- An update of `updateStatus` in packages/orchestrator/src/services/job-service.ts that passes the
-- guards.
use vmcp.Base.{
  ◌≡◌, ◌≢◌, ◌++◌, refl, inl, inr, Bool, true, false, not, ◌&&◌, Option, none, some, List, Text,
  Bool-cases,
}
use vmcp.Errors.{ErrorCode}
use vmcp.Status.{
  JobStatus, is_terminal, is_retriable_failure, rollback, status_eq, can_transition_job_status,
}
use vmcp.Lock.Service.{truthy}
use vmcp.Lock.Service.Validation.{accepted}
use vmcp.Job.State.{
  Job, World, Outside, Outcome, ok, M, bind_outcome, ◌>>=◌, find_job, update_job, owner_id,
}
use vmcp.Job.State.Table.{find_job-update_job, find_job-update_job_other}
use vmcp.Job.Calls.{JobStatusUpdate, Caller, record_error}
use vmcp.Job.Update.{
  apply_update, update_status, write_update, write_row, check_token, record_update_error, conclude,
  follow_up, announce, alert_rollback,
}
use vmcp.Job.Update.Guards.{update_status-found, update_found-allowed}

-- A method returns, with these jobs.
abbrev Gives : Outcome (Unit {0}) × World → List Job → Type 0
Gives (r, w) js = (r ≡ ok tt) × (w.jobs ≡ js)

-- No token is presented, the job holds no lock, or the token is accepted for it.
abbrev pub Passes : Outside → Text → Option Text → Option Text → World → Type 0
Passes o id none key w = Unit
Passes o id (some token) none w = Unit
Passes o id (some token) (some key) w = accepted o.env key (owner_id id) token w.locks ≡ true

Gives-bind :
    (m : M (Unit {0})) (k : M (Unit {0})) (w : World) (js js' : List Job)
    → Gives (m w) js
    → ((w' : World) → w'.jobs ≡ js → Gives (k w') js')
    → Gives ((m >>= λ _. k) w) js'
Gives-bind m k w js js' (r, e) next = rw (bound (m w).0 r) (next (m w).1 e)
  where
    bound : (x : Outcome (Unit {0})) → x ≡ ok tt → bind_outcome (λ _. k) x (m w).1 ≡ k (m w).1
    bound x h = rw h refl

check_token-Gives :
    (o : Outside) (id : Text) (token key : Option Text) (w : World)
    → Passes o id token key w
    → Gives (check_token o id token key w) w.jobs
unfolding check_token
check_token-Gives o id none key w p = (refl, refl)
check_token-Gives o id (some token) none w p = (refl, refl)
check_token-Gives o id (some token) (some key) w p = rw p (refl, refl)

record_update_error-Gives :
    (id : Text) (code : Option ErrorCode) (detail : Option Text) (w : World)
    → Gives (record_update_error id code detail w) w.jobs
unfolding record_update_error record_error
record_update_error-Gives id none detail w = (refl, refl)
record_update_error-Gives id (some code) detail w = (refl, refl)

announce-Gives : (id : Text) (s : JobStatus) (w : World) → Gives (announce id s w) w.jobs
unfolding announce alert_rollback
announce-Gives id s w = elim (Bool-cases (status_eq s rollback)) [
  | inl e ↦ rw e (refl, refl)
  | inr e ↦ rw e (refl, refl)
]

-- Nothing follows from the status.
conclude-Gives :
    (call : Caller) (o : Outside) (id : Text) (j : Job) (s : JobStatus) (skip : Bool) (w : World)
    → (is_retriable_failure s && not skip) ≡ false
    → is_terminal s ≡ false
    → Gives (conclude call o id j s skip w) w.jobs
unfolding conclude follow_up
conclude-Gives call o id j s skip w r t =
    Gives-bind (follow_up call o id j s skip) (announce id s) w w.jobs w.jobs
      (rw (follow_up, r, t) (refl, refl)) (λ w' e. rw (← e) (announce-Gives id s w'))

update_status-Gives :
    (call : Caller) (o : Outside) (id : Text) (u : JobStatusUpdate) (skip : Bool) (w : World)
    (j : Job)
    → find_job id w.jobs ≡ some j
    → can_transition_job_status j.status u.status ≡ true
    → (is_retriable_failure u.status && not skip) ≡ false
    → is_terminal u.status ≡ false
    → Passes o id (truthy u.fencing_token) (truthy j.lock_key) w
    → Gives (update_status call o id u skip w) (update_job id (apply_update o u) w.jobs)
unfolding write_update write_row
update_status-Gives call o id u skip w j found c r t passes =
    let written = update_job id (apply_update o u) w.jobs in
    rw (update_status-found call o id u skip w j found, update_found-allowed call o id u skip w j c)
      (Gives-bind (check_token o id (truthy u.fencing_token) (truthy j.lock_key))
        (write_row call o id u skip j) w w.jobs written (check_token-Gives o id _ _ w passes)
        (λ w1 e.
          Gives-bind (record_update_error id u.error_code u.error_detail)
            (conclude call o id j u.status skip)
            (record w1 { jobs = update_job id (apply_update o u) w1.jobs }) written written
            (rw (← e) (record_update_error-Gives id u.error_code u.error_detail _))
            (λ w2 f. rw (← f) (conclude-Gives call o id j u.status skip w2 r t))))

-- An update to a status that the table allows and that is neither terminal nor a failure to be
-- retried, with an accepted token where one is needed, returns. The row of the job has the new
-- status, its metadata with the new fields before the old ones, and the attempts and the lock that
-- it had, and no other row is changed.
pub update_status_progress :
    (call : Caller) (o : Outside) (id : Text) (u : JobStatusUpdate) (skip : Bool) (w : World)
    (j : Job)
    → find_job id w.jobs ≡ some j
    → can_transition_job_status j.status u.status ≡ true
    → (is_retriable_failure u.status && not skip) ≡ false
    → is_terminal u.status ≡ false
    → Passes o id (truthy u.fencing_token) (truthy j.lock_key) w
    → let (r, w') = update_status call o id u skip w in
      (r ≡ ok tt)
      × ((row : Job) × (find_job id w'.jobs ≡ some row)
          × (row.status ≡ u.status)
          × (row.metadata ≡ u.metadata ++ j.metadata)
          × (row.attempt ≡ j.attempt)
          × (row.lock_key ≡ j.lock_key)
          × (row.completed_at ≡ j.completed_at))
      × ((k : Text) → k ≢ id → find_job k w'.jobs ≡ find_job k w.jobs)
unfolding apply_update
update_status_progress call o id u skip w j found c r t passes =
    let (done, jobs) = update_status-Gives call o id u skip w j found c r t passes in
    (
      done,
      (
        apply_update o u j,
        rw jobs (find_job-update_job id (apply_update o u) w.jobs j (λ k. refl) found),
        refl,
        refl,
        refl,
        refl,
        rw t refl,
      ),
      λ k ne. rw jobs (find_job-update_job_other id k (apply_update o u) w.jobs (λ i. refl) ne),
    )
