-- ===== src/Job/Update/Runs.antt =====
-- What `updateStatus` of packages/orchestrator/src/services/job-service.ts does to the table of jobs,
-- by what its calls of the other methods do.
use vmcp.Base.{
  ◌≡◌, refl, inl, inr, Bool, true, false, not, ◌&&◌, Option, none, some, List, Text, Option-cases,
  Bool-cases, arith,
}
use vmcp.Errors.{ErrorCode}
use vmcp.Status.{is_terminal, is_retriable_failure, rollback, status_eq, can_transition_job_status}
use vmcp.Status.Lifecycle.{retriable_exits}
use vmcp.Lock.Service.{truthy, validate_fencing_token}
use vmcp.Job.State.{◌>>◌, owner_id, M, Job, Outside, find_job, update_job}
use vmcp.Job.State.Logic.{Triple, triple_bind}
use vmcp.Job.State.Table.{Live, update_job-Live}
use vmcp.Job.Calls.{Caller, JobStatusUpdate, fail, promote, record_error, release_lock_of}
use vmcp.Job.Update.{
  apply_update, release_target, record_update_error, alert_rollback, announce, finish, follow_up,
  conclude, write_row, write_update, check_token, reject_token, update_status,
}
use vmcp.Job.Update.Guards.{update_found-allowed, update_found-refused}

module _ (I J E : List Job → Type 0) (weaken : (js : List Job) → I js → J js) (call : Caller)
    (o : Outside) (id : Text) (u : JobStatusUpdate) (skip : Bool)
    (written : (js : List Job) (j : Job)
      → find_job id js ≡ some j
      → can_transition_job_status j.status u.status ≡ true
      → I js
      → I (update_job id (apply_update o u) js))
    (fails : is_retriable_failure u.status ≡ true
      → Triple
          (λ w. J w.jobs)
          (λ w. E w.jobs)
          (λ w. I w.jobs × Live id w.jobs)
          (call (fail id))
          (λ _ w. J w.jobs))
    (promotes : (project : Text)
      → is_terminal u.status ≡ true
      → Triple
          (λ w. J w.jobs)
          (λ w. E w.jobs)
          (λ w. I w.jobs)
          (call (promote project id u.status))
          (λ _ w. J w.jobs)) where
  abbrev Holds : (List Job → Type 0) → M (Unit {0}) → (List Job → Type 0) → Type 0
  Holds K m L = Triple (λ w. J w.jobs) (λ w. E w.jobs) (λ w. K w.jobs) m (λ _ w. L w.jobs)

  -- The row stands as it was written.
  abbrev Written : List Job → Type 0
  Written js = I js × (is_retriable_failure u.status ≡ true → Live id js)

  record_update_error-Holds :
      (code : Option ErrorCode) (detail : Option Text)
      → Holds Written (record_update_error id code detail) Written
  unfolding record_update_error record_error
  record_update_error-Holds none detail w p = p
  record_update_error-Holds (some code) detail w p = p

  announce-Holds : Holds J (announce id u.status) J
  unfolding announce alert_rollback
  announce-Holds w p = elim (Bool-cases (status_eq u.status rollback)) [
    | inl e ↦ rw e p
    | inr e ↦ rw e p
  ]

  release_target-promotes :
      (project : Text) (target : Option Text)
      → is_terminal u.status ≡ true
      → Holds I (release_target o id target >> call (promote project id u.status)) J
  unfolding release_target release_lock_of
  release_target-promotes project none t w p = promotes project t w p
  release_target-promotes project (some target) t w p = promotes project t _ p

  finish-Holds :
      (current : Job)
      → is_terminal u.status ≡ true
      → Holds Written (finish call o id current u.status) J
  unfolding finish release_lock_of
  finish-Holds current t w p = elim (Option-cases (truthy current.lock_key)) [
    | inl e ↦ rw (finish, e) (weaken w.jobs p.0)
    | inr (key, e) ↦ rw (finish, e) (release_target-promotes current.project_id _ t _ p.0)
  ]

  follow_up-Holds : (current : Job) → Holds Written (follow_up call o id current u.status skip) J
  unfolding follow_up
  follow_up-Holds current w p = elim (Bool-cases (is_retriable_failure u.status && not skip)) [
    | inl e ↦ rw (follow_up, e) (fails (both e) w (p.0, p.1 (both e)))
    | inr e ↦ elim (Bool-cases (is_terminal u.status)) [
      | inl t ↦ rw (follow_up, e, t) (finish-Holds current t w p)
      | inr t ↦ rw (follow_up, e, t) (weaken w.jobs p.0)
    ]
  ]
    where
      both :
          (is_retriable_failure u.status && not skip) ≡ true → is_retriable_failure u.status ≡ true
      both e = ground arith

  conclude-Holds : (current : Job) → Holds Written (conclude call o id current u.status skip) J
  unfolding conclude
  conclude-Holds current =
      triple_bind _ _ _ _ (follow_up call o id current u.status skip) (λ _. announce id u.status)
        (follow_up-Holds current) (λ _. announce-Holds)

  write_row-Holds :
      (current : Job)
      → can_transition_job_status current.status u.status ≡ true
      → Holds (λ js. I js × (find_job id js ≡ some current)) (write_row call o id u skip current) J
  unfolding write_row apply_update
  write_row-Holds current c w (i, found) =
      triple_bind _ _ _ _ (record_update_error id u.error_code u.error_detail)
        (λ _. conclude call o id current u.status skip)
        (record_update_error-Holds u.error_code u.error_detail) (λ _. conclude-Holds current)
        (record w { jobs = update_job id (apply_update o u) w.jobs })
        (
          written w.jobs current found c i,
          λ r. update_job-Live id (apply_update o u) w.jobs keeps (λ j. live r),
        )
    where
      keeps : (j : Job) → (apply_update o u j).id ≡ j.id
      keeps j = refl

      live : is_retriable_failure u.status ≡ true → is_terminal u.status ≡ false
      live r = (retriable_exits u.status r).0

  check_token-Holds :
      (K : List Job → Type 0) (token key : Option Text)
      → ((js : List Job) → K js → J js)
      → Holds K (check_token o id token key) K
  unfolding check_token reject_token record_error
  check_token-Holds K none key fall w p = p
  check_token-Holds K (some token) none fall w p = p
  check_token-Holds K (some token) (some key) fall w p =
      let (ok', s) = validate_fencing_token o.env key (owner_id id) token w.locks in
      elim (Bool-cases ok') [ inl e ↦ rw e p | inr e ↦ rw e (fall w.jobs p) ]

  write_update-Holds :
      (current : Job)
      → can_transition_job_status current.status u.status ≡ true
      → Holds
          (λ js. I js × (find_job id js ≡ some current))
          (write_update call o id u skip current)
          J
  unfolding write_update
  write_update-Holds current c =
      triple_bind _ _ _ _ (check_token o id (truthy u.fencing_token) (truthy current.lock_key))
        (λ _. write_row call o id u skip current)
        (check_token-Holds (λ js. I js × (find_job id js ≡ some current)) _ _
          (λ js p. weaken js p.0))
        (λ _. write_row-Holds current c)

  -- `updateStatus` leads from `I` to `J`.
  pub update_status-Holds : Holds I (update_status call o id u skip) J
  unfolding update_status
  update_status-Holds w i = elim (Option-cases (find_job id w.jobs)) [
    | inl e ↦ rw e (weaken w.jobs i)
    | inr (current, e) ↦ elim (Bool-cases (can_transition_job_status current.status u.status)) [
      | inl c ↦
          rw (e, update_found-allowed call o id u skip w current c)
            (write_update-Holds current c w (i, e))
      | inr c ↦ rw (e, update_found-refused call o id u skip w current c) (weaken w.jobs i)
    ]
  ]
