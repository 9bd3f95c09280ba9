-- ===== src/Sweep/Stale.antt =====
-- What the scan of packages/orchestrator/src/workers/health-worker.ts does to the job of a lock
-- whose heartbeats are missing.
use vmcp.Base.{
  ℕ, ◌+◌, ◌≡◌, refl, ◌⊎◌, get_or, inl, inr, true, false, Option, none, some, [], ◌∷◌, Text, ltb,
  arith, Bool-cases,
}
use vmcp.Errors.{e005, low}
use vmcp.Status.{queued, is_terminal}
use vmcp.Lock.Postgres.{PgLock, stale_recovered}
use vmcp.Lock.Service.{Result, returns, throws, reclaim}
use vmcp.Job.State.{Job, World, Outside, ◌>>◌, job_error, alert, emit, find_job, update_job}
use vmcp.Job.State.Logic.{Triple, triple_bind}
use vmcp.Job.State.Table.{find_job-update_job, find_job_unique}
use vmcp.Job.Calls.{Caller, dispatch, update, record_error}
use vmcp.Job.Service.{run, mark_stale, next_attempt}
use vmcp.Job.Service.Invariant.{
  WellFormed, JobOk, Sound, Post-Sound, run-Keeps, update_job-WellFormed,
}
use vmcp.Sweep.{
  recover_lock, reclaim_stale, finish_recovery, recover_job, try_again, stale_lock_detail,
}

result_cases : (x : Result Text) → ((t : Text) × (x ≡ returns t)) ⊎ ((m : Text) × (x ≡ throws m))
result_cases (returns t) = inl (t, refl)
result_cases (throws m) = inr (m, refl)

mark_stale-JobOk : (detail : Text) (j : Job) → JobOk j → JobOk (mark_stale detail j)
unfolding is_terminal
mark_stale-JobOk detail j h = ground arith

next_attempt-JobOk :
    (j : Job) → ltb j.attempt j.max_attempts ≡ true → JobOk j → JobOk (next_attempt j)
unfolding is_terminal
next_attempt-JobOk j c h = ground arith

try_again-Sound :
    (o : Outside) (fuel : ℕ) (id : Text) (found : Option Job)
    → Triple Sound Sound
        (λ w. Sound w × (find_job id w.jobs ≡ found))
        (try_again (run o fuel) o id found)
        (λ _. Sound)
unfolding try_again
try_again-Sound o fuel id none w (h, _) = h
try_again-Sound o fuel id (some job) w (h, e) =
    elim (Bool-cases (ltb job.attempt job.max_attempts)) [
      | inl c ↦
          rw (try_again, c)
            (run-Keeps o fuel (dispatch id none) _ (
              update_job-WellFormed id next_attempt w.jobs (λ j. refl)
                  (λ j f a. next_attempt-JobOk j (rw (find_job_unique id w.jobs j job f e) c) a) h,
              tt,
            ))
      | inr c ↦ rw (try_again, c) (run-Keeps o fuel (update id _ false) w (h, tt))
    ]

recover_job-Sound :
    (o : Outside) (fuel : ℕ) (id : Option Text)
    → Triple Sound Sound Sound (recover_job (run o fuel) o id) (λ _. Sound)
unfolding recover_job record_error
recover_job-Sound o fuel none w h = h
recover_job-Sound o fuel (some id) w h = try_again-Sound o fuel id _ _ (
  update_job-WellFormed id (mark_stale stale_lock_detail) w.jobs (λ j. refl)
      (λ j e a. mark_stale-JobOk stale_lock_detail j a) h,
  refl,
)

reclaim_stale-Sound :
    (o : Outside) (key : Text) → Triple Sound Sound Sound (reclaim_stale o key) (λ _. Sound)
unfolding reclaim_stale
reclaim_stale-Sound o key w h =
    elim (result_cases (reclaim o.env key stale_recovered none w.locks).0) [
      | inl (t, e) ↦ rw (reclaim_stale, e) h
      | inr (m, e) ↦ rw (reclaim_stale, e) h
    ]

finish_recovery-Sound :
    (o : Outside) (fuel : ℕ) (row : PgLock)
    → Triple Sound Sound Sound (finish_recovery (run o fuel) o row) (λ _. Sound)
unfolding finish_recovery
finish_recovery-Sound o fuel row =
    triple_bind Sound Sound (λ _. Sound) (λ _. Sound) (recover_job (run o fuel) o row.job_id)
      (λ _. emit (alert e005 low (get_or row.job_id []))) (recover_job-Sound o fuel row.job_id)
      (λ _ w h. h)

recover_lock-Sound :
    (o : Outside) (fuel : ℕ) (row : PgLock)
    → Triple Sound Sound Sound (recover_lock (run o fuel) o row) (λ _. Sound)
unfolding recover_lock
recover_lock-Sound o fuel row =
    triple_bind Sound Sound (λ _. Sound) (λ _. Sound) (reclaim_stale o row.lock_key)
      (λ _. finish_recovery (run o fuel) o row) (reclaim_stale-Sound o row.lock_key)
      (λ _. finish_recovery-Sound o fuel row)

-- The recovery of a stale lock, with everything that follows from it, keeps the table of jobs
-- well-formed.
pub recover_lock-WellFormed :
    (o : Outside) (fuel : ℕ) (row : PgLock) (w : World)
    → WellFormed w.jobs
    → WellFormed (recover_lock (run o fuel) o row w).1.jobs
recover_lock-WellFormed o fuel row w h = Post-Sound _ _ (recover_lock-Sound o fuel row w h)

-- The state in which the job is dispatched again.
abbrev queued_again : Outside → PgLock → World → Text → World
queued_again o row w id = record w {
  locks = (reclaim o.env row.lock_key stale_recovered none w.locks).1;
  jobs = update_job id next_attempt (update_job id (mark_stale stale_lock_detail) w.jobs);
  job_errors = record { job_id = id; code = e005; detail = stale_lock_detail } ∷ w.job_errors;
  effects = job_error e005 stale_lock_detail ∷ w.effects;
}

-- Where the reclaim of a stale lock returns, the job that the lock names, if it has attempts
-- left, is queued for its next attempt, without a lock, and dispatched, whatever its status was:
-- a job that completed is run again.
pub recover_lock_restarts :
    (call : Caller) (o : Outside) (row : PgLock) (w : World) (id t : Text) (j : Job)
    → row.job_id ≡ some id
    → find_job id w.jobs ≡ some j
    → ltb j.attempt j.max_attempts ≡ true
    → (reclaim o.env row.lock_key stale_recovered none w.locks).0 ≡ returns t
    → (w' : World) × (recover_lock call o row w
        ≡ (call (dispatch id none) >> emit (alert e005 low id)) w')
      × (r : Job) × (find_job id w'.jobs ≡ some r)
      × (r.status ≡ queued)
      × (r.attempt ≡ j.attempt + 1)
      × (r.lock_key ≡ none)
unfolding recover_lock reclaim_stale finish_recovery recover_job try_again record_error
recover_lock_restarts call o row w id t j named found left got =
    let stale = find_job-update_job id (mark_stale stale_lock_detail) w.jobs j (λ k. refl) found in
    (
      queued_again o row w id,
      rw (got, named, stale, left) refl,
      next_attempt (mark_stale stale_lock_detail j),
      find_job-update_job id next_attempt _ (mark_stale stale_lock_detail j) (λ k. refl) stale,
      refl,
      refl,
      refl,
    )
