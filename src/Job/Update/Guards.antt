-- ===== src/Job/Update/Guards.antt =====
-- The guards of `updateStatus` in packages/orchestrator/src/services/job-service.ts.
use vmcp.Base.{
  ◌≡◌, refl, ◌∙◌, ◌⊎◌, inl, inr, Bool, true, false, ◌&&◌, ◌||◌, none, some, Text, arith,
}
use vmcp.Status.{
  JobStatus, reimport_failed, committing, completed, status_eq, can_transition_job_status,
}
use vmcp.Status.Lifecycle.{status_eq_iff}
use vmcp.Lock.Service.{truthy, validate_fencing_token}
use vmcp.Lock.Service.Validation.{accepted}
use vmcp.Job.State.{
  Job, World, Outside, thrown, job_not_found, invalid_transition, fencing_rejected, find_job,
  owner_id,
}
use vmcp.Job.Calls.{JobStatusUpdate, Caller, record_error}
use vmcp.Job.Update.{update_status, update_found, write_update, check_token, reject_token}

-- A status that the table refuses is another one.
pub refused-status_eq :
    (a b : JobStatus) → can_transition_job_status a b ≡ false → status_eq b a ≡ false
unfolding can_transition_job_status
refused-status_eq a b h = ground (arith, status_eq_iff a b, status_eq_iff b a)

pub update_status-found :
    (call : Caller) (o : Outside) (id : Text) (u : JobStatusUpdate) (skip : Bool) (w : World)
    (j : Job)
    → find_job id w.jobs ≡ some j
    → update_status call o id u skip w ≡ update_found call o id u skip j w
unfolding update_status
update_status-found call o id u skip w j h = rw h refl

pub update_found-refused :
    (call : Caller) (o : Outside) (id : Text) (u : JobStatusUpdate) (skip : Bool) (w : World)
    (j : Job)
    → can_transition_job_status j.status u.status ≡ false
    → update_found call o id u skip j w ≡ (thrown (invalid_transition j.status u.status), w)
unfolding update_found
update_found-refused call o id u skip w j h = rw (h, refused-status_eq j.status u.status h) refl

pub update_status-refused :
    (call : Caller) (o : Outside) (id : Text) (u : JobStatusUpdate) (skip : Bool) (w : World)
    (j : Job)
    → find_job id w.jobs ≡ some j
    → can_transition_job_status j.status u.status ≡ false
    → update_status call o id u skip w ≡ (thrown (invalid_transition j.status u.status), w)
update_status-refused call o id u skip w j h no' =
    update_status-found call o id u skip w j h ∙ update_found-refused call o id u skip w j no'

-- The guard on commits after a failed reimport refuses nothing that the table allows.
commit_refused :
    (a b : JobStatus)
    → a ≡ reimport_failed
    → (b ≡ committing) ⊎ (b ≡ completed)
    → can_transition_job_status a b ≡ false
unfolding can_transition_job_status
commit_refused a b e (inl f) = rw (e, f) refl
commit_refused a b e (inr f) = rw (e, f) refl

allowed-commit :
    (a b : JobStatus)
    → can_transition_job_status a b ≡ true
    → (status_eq a reimport_failed && (status_eq b committing || status_eq b completed)) ≡ false
allowed-commit a b h = ground (
  arith,
  status_eq_iff a reimport_failed,
  status_eq_iff b committing,
  status_eq_iff b completed,
  λ (e : a ≡ reimport_failed) (f : b ≡ committing). commit_refused a b e (inl f),
  λ (e : a ≡ reimport_failed) (f : b ≡ completed). commit_refused a b e (inr f),
)

pub update_found-allowed :
    (call : Caller) (o : Outside) (id : Text) (u : JobStatusUpdate) (skip : Bool) (w : World)
    (j : Job)
    → can_transition_job_status j.status u.status ≡ true
    → update_found call o id u skip j w ≡ write_update call o id u skip j w
unfolding update_found
update_found-allowed call o id u skip w j h =
    rw (h, allowed-commit j.status u.status h) (ground arith)

-- A token that is not accepted.
rejected : Outside → Text → Text → Text → World → World
unfolding reject_token record_error
rejected o id key token w =
    (reject_token id
      (record w { locks = (validate_fencing_token o.env key (owner_id id) token w.locks).1 })).1

check_token-rejects :
    (o : Outside) (id key token : Text) (w : World)
    → accepted o.env key (owner_id id) token w.locks ≡ false
    → check_token o id (some token) (some key) w
      ≡ (thrown fencing_rejected, rejected o id key token w)
unfolding check_token rejected
check_token-rejects o id key token w h = rw h refl

write_update-rejects :
    (call : Caller) (o : Outside) (id : Text) (u : JobStatusUpdate) (skip : Bool) (w : World)
    (j : Job) (key token : Text)
    → truthy u.fencing_token ≡ some token
    → truthy j.lock_key ≡ some key
    → accepted o.env key (owner_id id) token w.locks ≡ false
    → write_update call o id u skip j w ≡ (thrown fencing_rejected, rejected o id key token w)
unfolding write_update
write_update-rejects call o id u skip w j key token t k bad =
    rw (t, k, check_token-rejects o id key token w bad) refl

-- The guards of `updateStatus`, whatever its follow-up calls do. A job that does not exist, and
-- a status that the table does not allow, end the call with an exception that changes nothing.
-- Where the table allows the status and the job holds a lock, a token that is not accepted for
-- that lock ends the call with an exception that changes no job.
pub update_status_guards :
    (call : Caller) (o : Outside) (id : Text) (u : JobStatusUpdate) (skip : Bool) (w : World)
    → (find_job id w.jobs ≡ none → update_status call o id u skip w ≡ (thrown job_not_found, w))
      × ((j : Job)
          → find_job id w.jobs ≡ some j
          → can_transition_job_status j.status u.status ≡ false
          → update_status call o id u skip w ≡ (thrown (invalid_transition j.status u.status), w))
      × ((j : Job) (key token : Text)
          → find_job id w.jobs ≡ some j
          → can_transition_job_status j.status u.status ≡ true
          → truthy u.fencing_token ≡ some token
          → truthy j.lock_key ≡ some key
          → accepted o.env key (owner_id id) token w.locks ≡ false
          → let (r, w') = update_status call o id u skip w in
            (r ≡ thrown fencing_rejected) × (w'.jobs ≡ w.jobs))
unfolding update_status
update_status_guards call o id u skip w = (
  λ h. rw h refl,
  λ j h no'. update_status-refused call o id u skip w j h no',
  λ j key token h yes' t k bad.
      let step =
        update_status-found call o id u skip w j h
        ∙ update_found-allowed call o id u skip w j yes'
        ∙ write_update-rejects call o id u skip w j key token t k bad in
      rw step (refl, unfold rejected in refl),
)
