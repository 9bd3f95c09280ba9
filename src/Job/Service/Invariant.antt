-- ===== src/Job/Service/Invariant.antt =====
-- What every method of packages/orchestrator/src/services/job-service.ts keeps true of the jobs.
use vmcp.Base.{
  ℕ, zero, suc, ◌+◌, ◌≤◌, ◌≡◌, refl, inl, inr, true, false, none, some, List, [], ◌∷◌, Text,
  text_eq, text_eq_iff, ltb, is_some, arith, Bool-cases,
}
use vmcp.Status.{is_terminal, blocked, dead_letter, dep_failed, can_transition_job_status}
use vmcp.Job.State.{M, Job, World, Outside, Outcome, ok, thrown, exhausted, find_job, update_job}
use vmcp.Job.State.Logic.{Post, Triple}
use vmcp.Job.State.Table.{
  find_job_unique, has_id, UniqueIds, KeepsId, update_job-UniqueIds, update_job_missing, Live,
  Steady,
}
use vmcp.Job.Calls.{Call, dispatch, update, fail, promote, JobStatusUpdate}
use vmcp.Job.Dispatch.Runs.{dispatch_job-Ends}
use vmcp.Job.Update.{apply_update}
use vmcp.Job.Update.Guards.{update_status-refused}
use vmcp.Job.Update.Runs.{update_status-Holds}
use vmcp.Job.Failure.{requeue, bury}
use vmcp.Job.Failure.Runs.{handle_failure-Holds, promote_blocked_jobs-Leads}
use vmcp.Job.Service.{serve, run, revive, archive, retry_dead_letter}

-- A job has made from one to `max_attempts` attempts, and a job that ended carries the time of that.
abbrev pub JobOk : Job → Type 0
JobOk j =
    (1 ≤ j.attempt)
    × (j.attempt ≤ j.max_attempts)
    × (is_terminal j.status ≡ true → is_some j.completed_at ≡ true)

abbrev pub AllOk : List Job → Type 0
AllOk [] = Unit
AllOk (j ∷ js) = JobOk j × AllOk js

abbrev pub WellFormed : List Job → Type 0
WellFormed js = UniqueIds js × AllOk js

update_job-AllOk :
    (id : Text) (f : Job → Job) (js : List Job)
    → ((j : Job) → find_job id js ≡ some j → JobOk j → JobOk (f j))
    → UniqueIds js
    → AllOk js
    → AllOk (update_job id f js)
unfolding update_job find_job
update_job-AllOk id f [] h u a = tt
update_job-AllOk id f (j ∷ js) h (n, u) (a, rest) = elim (Bool-cases (text_eq j.id id)) [
  | inl e ↦ rw (e, update_job_missing id f js (absent e)) (h j (rw e refl) a, rest)
  | inr e ↦ rw e (a, update_job-AllOk id f js (λ k q. h k (rw e q)) u rest)
]
  where
    absent : text_eq j.id id ≡ true → has_id id js ≡ false
    absent e = ground (arith, text_eq_iff j.id id)

pub update_job-WellFormed :
    (id : Text) (f : Job → Job) (js : List Job)
    → KeepsId f
    → ((j : Job) → find_job id js ≡ some j → JobOk j → JobOk (f j))
    → WellFormed js
    → WellFormed (update_job id f js)
update_job-WellFormed id f js k h (u, a) =
    (update_job-UniqueIds id f js k u, update_job-AllOk id f js h u a)

WellFormed-Steady : Steady WellFormed
WellFormed-Steady id f js k live w =
    update_job-WellFormed id f js (λ j. (k j).0) (λ j e ok'. ground (arith, k j)) w

apply_update-JobOk :
    (o : Outside) (u : JobStatusUpdate) (j : Job) → JobOk j → JobOk (apply_update o u j)
unfolding apply_update
apply_update-JobOk o u j h = ground arith

requeue-JobOk :
    (j : Job) → ltb j.attempt j.max_attempts ≡ true → JobOk j → JobOk (requeue (j.attempt + 1) j)
unfolding is_terminal
requeue-JobOk j c h = ground arith

bury-JobOk : (o : Outside) (j : Job) → JobOk j → JobOk (bury o j)
bury-JobOk o j h = (h.0, h.1, λ _. refl)

-- A failure is handled for a job whose status is not terminal.
abbrev pub Called : Call → List Job → Type 0
Called (fail id) js = Live id js
Called _ js = Unit

abbrev pub Sound : World → Type 0
Sound w = WellFormed w.jobs

abbrev pub Keeps : Call → M (Unit {0}) → Type 0
Keeps c m = Triple Sound Sound (λ w. Sound w × Called c w.jobs) m (λ _. Sound)

pub run-Keeps : (o : Outside) (fuel : ℕ) (c : Call) → Keeps c (run o fuel c)
unfolding run serve can_transition_job_status
run-Keeps o zero c w p = p.0
run-Keeps o (suc fuel) (dispatch id p) w (h, _) =
    dispatch_job-Ends WellFormed WellFormed WellFormed WellFormed-Steady (λ js w. w) (run o fuel) o
      (λ id u _ w p. run-Keeps o fuel (update id u false) w (p.0, tt)) id p w h
run-Keeps o (suc fuel) (update id u skip) w (h, _) =
    update_status-Holds WellFormed WellFormed WellFormed (λ js w. w) (run o fuel) o id u skip
      (λ js j found c w.
        update_job-WellFormed id (apply_update o u) js (λ j. unfold apply_update in refl)
          (λ j e a. apply_update-JobOk o u j a) w)
      (λ r. run-Keeps o fuel (fail id))
      (λ project t w h. run-Keeps o fuel (promote project id u.status) w (h, tt)) w h
run-Keeps o (suc fuel) (fail id) w p =
    handle_failure-Holds WellFormed WellFormed WellFormed WellFormed (λ js w. w) (λ js w. w)
      (run o fuel) o id
      (λ js j found live c w.
        update_job-WellFormed id (requeue (j.attempt + 1)) js (λ j. refl)
          (λ k e a.
            rw (find_job_unique id js k j e found)
              (requeue-JobOk j c (rw (find_job_unique id js k j e found) at a)))
          w)
      (λ js j found live w.
        update_job-WellFormed id (bury o) js (λ j. refl) (λ k e a. bury-JobOk o k a) w)
      (λ p w h. run-Keeps o fuel (dispatch id p) w (h, tt))
      (λ project w h. run-Keeps o fuel (promote project id dead_letter) w (h, tt)) w p
run-Keeps o (suc fuel) (promote project finished s) w (h, _) =
    promote_blocked_jobs-Leads WellFormed WellFormed WellFormed (λ js w. w.0) WellFormed-Steady
      (λ js w. w) (run o fuel) o (λ id w h. run-Keeps o fuel (dispatch id none) w (h, tt))
      (λ j u b d. refuse fuel j u b d) project finished s w h
  where
    refuse :
        (fuel : ℕ) (j : Job) (u : JobStatusUpdate)
        → j.status ≡ blocked
        → u.status ≡ dep_failed
        → Triple Sound Sound
            (λ w. WellFormed w.jobs × (find_job j.id w.jobs ≡ some j))
            (run o fuel (update j.id u false))
            (λ _ w. ⊥)
    refuse zero j u b d w p = p.0
    refuse (suc fuel) j u b d w (h, found) =
        rw (update_status-refused (run o fuel) o j.id u false w j found (rw (b, d) refl)) h

pub Post-Sound : (r : Outcome (Unit {0})) (w : World) → Post Sound Sound (λ _. Sound) r w → Sound w
Post-Sound (ok _) w p = p
Post-Sound (thrown e) w p = p
Post-Sound exhausted w p = p

-- Every call of the service and all the calls that follow from it, whether they return, throw or
-- are cut short, keep the table well-formed: no id stands twice, every job has made from one to
-- `max_attempts` attempts, and a job that ended carries the time of that. (A failure is handled
-- for a job that has not ended.)
pub run-WellFormed :
    (o : Outside) (fuel : ℕ) (c : Call) (w : World)
    → WellFormed w.jobs
    → Called c w.jobs
    → WellFormed (run o fuel c w).1.jobs
run-WellFormed o fuel c w h k =
    Post-Sound (run o fuel c w).0 (run o fuel c w).1 (run-Keeps o fuel c w (h, k))

revive-JobOk : (j : Job) → JobOk j → JobOk (revive j)
unfolding is_terminal
revive-JobOk j h = ground arith

-- Trying a dead letter again keeps the table well-formed.
pub retry_dead_letter-WellFormed :
    (o : Outside) (fuel : ℕ) (id : Text) (w : World)
    → WellFormed w.jobs
    → WellFormed (retry_dead_letter (run o fuel) o id w).1.jobs
unfolding retry_dead_letter archive
retry_dead_letter-WellFormed o fuel id w h =
    run-WellFormed o fuel (dispatch id none) _
      (update_job-WellFormed id revive w.jobs (λ j. refl) (λ j e a. revive-JobOk j a) h) tt
