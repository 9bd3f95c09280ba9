-- ===== src/Job/Service/Blocked.antt =====
-- What becomes of blocked jobs whose dependency failed, by `promoteBlockedJobs` and `updateStatus` of
-- packages/orchestrator/src/services/job-service.ts.
use vmcp.Base.{ℕ, suc, ◌≡◌, refl, List, ◌∷◌, Text, text_eq, ◌&&◌, true, false, arith, subst}
use vmcp.Status.{JobStatus, blocked, dep_failed, status_eq, can_transition_job_status}
use vmcp.Status.Lifecycle.{status_eq_iff}
use vmcp.Gate.Laws.{DependencyLost}
use vmcp.Job.State.{Job, World, Outside, thrown, invalid_transition}
use vmcp.Job.State.Table.{UniqueIds, Fresh, filter-Fresh}
use vmcp.Job.Calls.{promote}
use vmcp.Job.Update.Guards.{update_status-refused}
use vmcp.Job.Failure.{blocked_jobs, promote_opts}
use vmcp.Job.Failure.Stuck.{promote_blocked_jobs-stuck}
use vmcp.Job.Service.{serve, run}

-- When the oldest blocked job of a project has lost its dependency, in a table in which no id
-- stands twice, the promotion of the blocked jobs throws and changes nothing: the transition to
-- `dep_failed` is refused, the job stays blocked, and no later job is looked at.
pub promotion_stuck :
    (o : Outside) (fuel : ℕ) (project finished : Text) (s : JobStatus) (w : World) (job : Job)
    (rest : List Job)
    → UniqueIds w.jobs
    → blocked_jobs project w.jobs ≡ job ∷ rest
    → DependencyLost (promote_opts project finished s job w.jobs)
    → run o (suc (suc fuel)) (promote project finished s) w
      ≡ (thrown (invalid_transition blocked dep_failed), w)
unfolding run serve can_transition_job_status
promotion_stuck o fuel project finished s w job rest u first lost =
    promote_blocked_jobs-stuck (run o (suc fuel)) o project finished s w job rest
      (invalid_transition blocked dep_failed) first lost
      (λ x e.
        rw
          (
            update_status-refused (run o fuel) o job.id x false w job fresh.0
                (rw (fresh.1, e) refl),
            fresh.1,
            e,
          )
          refl)
  where
    is_blocked :
        (j : Job)
        → (text_eq j.project_id project && status_eq j.status blocked) ≡ true
        → j.status ≡ blocked
    is_blocked j e = ground (arith, status_eq_iff j.status blocked)

    fresh : Fresh (job ∷ rest) w.jobs
    fresh = subst (λ rows. Fresh rows w.jobs) first (filter-Fresh _ w.jobs is_blocked u)
