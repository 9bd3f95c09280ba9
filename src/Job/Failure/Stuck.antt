-- ===== src/Job/Failure/Stuck.antt =====
-- `promoteBlockedJobs` of packages/orchestrator/src/services/job-service.ts where its call of
-- `updateStatus` throws.
use vmcp.Base.{◌≡◌, refl, ◌∙◌, ap, true, false, List, [], ◌∷◌, Text, get_or}
use vmcp.Errors.{e011}
use vmcp.Status.{JobStatus, dep_failed}
use vmcp.Gate.{Decision, can_promote_blocked_job}
use vmcp.Gate.Laws.{DependencyLost, can_promote_blocked_job-dep_failed_iff}
use vmcp.Job.State.{M, Job, World, Outside, Error, thrown}
use vmcp.Job.Calls.{Caller, JobStatusUpdate, update, failure_update}
use vmcp.Job.Failure.{
  blocked_jobs, promote_opts, promote_row, promote_rows, promote_blocked_jobs, fail_blocked,
}

row_throws :
    (call : Caller) (o : Outside) (w : World) (job : Job) (x : Error) (later : M (Unit {0}))
    (d : Decision)
    → ((u : JobStatusUpdate)
        → u.status ≡ dep_failed
        → call (update job.id u false) w ≡ (thrown x, w))
    → d.dep_failed ≡ true
    → promote_row call o job later d w ≡ (thrown x, w)
unfolding promote_row fail_blocked
row_throws call o w job x later d throws' e =
    rw (promote_row, e)
      (rw (throws' (failure_update dep_failed e011 (get_or d.reason [])) refl) refl)

-- The first blocked job has lost its dependency: its update throws, and the rest is not looked at.
pub promote_blocked_jobs-stuck :
    (call : Caller) (o : Outside) (project finished : Text) (s : JobStatus) (w : World) (job : Job)
    (rest : List Job) (x : Error)
    → blocked_jobs project w.jobs ≡ job ∷ rest
    → DependencyLost (promote_opts project finished s job w.jobs)
    → ((u : JobStatusUpdate)
        → u.status ≡ dep_failed
        → call (update job.id u false) w ≡ (thrown x, w))
    → promote_blocked_jobs call o project finished s w ≡ (thrown x, w)
unfolding promote_blocked_jobs promote_rows
promote_blocked_jobs-stuck call o project finished s w job rest x first lost throws' =
    ap (λ rows. promote_rows call o project finished s rows w) first
    ∙ row_throws call o w job x (promote_rows call o project finished s rest)
        (can_promote_blocked_job (promote_opts project finished s job w.jobs)) throws'
        ((can_promote_blocked_job-dep_failed_iff _).1 lost)
