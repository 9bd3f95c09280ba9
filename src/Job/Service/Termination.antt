-- ===== src/Job/Service/Termination.antt =====
-- The calls of packages/orchestrator/src/services/job-service.ts among each other: a bound on how deep
-- they go, by the attempts that are left.
use vmcp.Base.{
  ℕ, zero, suc, ◌+◌, ◌*◌, ◌≤◌, ◌≡◌, ◌≢◌, refl, sym, ◌∙◌, ◌⊎◌, inl, inr, true, false, none, some,
  List, Text, arith, Option-cases, Bool-cases,
}
use vmcp.Status.{
  JobStatus, is_terminal, dead_letter, dispatch_failed, dep_failed, can_transition_job_status,
}
use vmcp.Status.Lifecycle.{dep_failed-source}
use vmcp.Job.State.{M, Job, World, Outside, Outcome, ok, thrown, exhausted, find_job, update_job}
use vmcp.Job.State.Logic.{Post, Triple}
use vmcp.Job.State.Table.{UniqueIds, Live, find_job_unique}
use vmcp.Job.Calls.{Call, dispatch, update, fail, promote, JobStatusUpdate}
use vmcp.Job.Dispatch.Runs.{dispatch_job-Ends}
use vmcp.Job.Update.{apply_update}
use vmcp.Job.Update.Guards.{update_status-refused, update_status_guards}
use vmcp.Job.Update.Runs.{update_status-Holds}
use vmcp.Job.Failure.{requeue, bury}
use vmcp.Job.Failure.Runs.{handle_failure-Holds, promote_blocked_jobs-Leads}
use vmcp.Job.Service.{serve, run}
use vmcp.Job.Service.Invariant.{Called}
use vmcp.Job.Service.Weight.{
  weight, Light, update_job-Light, Light-Steady, apply_update-weight, requeue-weight, bury-lighter,
  weightless,
}

-- The depth that a call needs.
abbrev pub need : Call → ℕ → ℕ
need (dispatch id p) n = 4 * n + 3
need (update id u skip) n = 4 * n + 5
need (fail id) n = 4 * n + 1
need (promote project id s) n = 4 * n + 4

abbrev Nowhere : World → Type 0
Nowhere w = ⊥

abbrev Ends : (List Job → Type 0) → M (Unit {0}) → Type 0
Ends I m = Triple (λ _. Unit {0}) Nowhere (λ w. I w.jobs) m (λ _ _. Unit {0})

refuse-Ends :
    (o : Outside) (fuel : ℕ) (I : List Job → Type 0) (j : Job) (u : JobStatusUpdate)
    → can_transition_job_status j.status u.status ≡ false
    → Triple
        (λ _. Unit {0})
        Nowhere
        (λ w. I w.jobs × (find_job j.id w.jobs ≡ some j))
        (run o (suc fuel) (update j.id u false))
        (λ _ _. ⊥)
unfolding run serve
refuse-Ends o fuel I j u c w (_, found) =
    rw (update_status-refused (run o fuel) o j.id u false w j found c) tt

dep_failed-ends : (a : JobStatus) → a ≡ dep_failed → is_terminal a ≡ true
unfolding is_terminal
dep_failed-ends a e = rw e refl

live-refused :
    (a b : JobStatus)
    → is_terminal a ≡ false
    → b ≡ dep_failed
    → can_transition_job_status a b ≡ false
live-refused a b live e = elim (Bool-cases (can_transition_job_status a b)) [
  | inl c ↦ ground (arith, dep_failed-ends a (dep_failed-source a b c e))
  | inr c ↦ c
]

written :
    (o : Outside) (n : ℕ) (id : Text) (u : JobStatusUpdate) (js : List Job) (j : Job)
    → find_job id js ≡ some j
    → can_transition_job_status j.status u.status ≡ true
    → Light n js
    → Light n (update_job id (apply_update o u) js)
written o n id u js j found c l =
    update_job-Light id (apply_update o u) js n n (λ k. unfold apply_update in refl)
      (λ k e. omega (arith, apply_update-weight o u k (rw (find_job_unique id js k j e found) c)))
      (λ e. omega arith) l

-- The updates that a dispatch makes.
retry-Ends :
    (o : Outside) (fuel n : ℕ) (id : Text) (u : JobStatusUpdate)
    → Ends (λ js. Light n js × Live id js) (run o fuel (fail id))
    → (u.status ≡ dispatch_failed) ⊎ (u.status ≡ dep_failed)
    → Ends (λ js. Light n js × Live id js) (run o (suc fuel) (update id u false))
unfolding run serve is_terminal
retry-Ends o fuel n id u fails (inl e) w (l, live) =
    update_status-Holds (Light n) (λ _. Unit {0}) (λ _. ⊥) (λ js _. tt) (run o fuel) o id u false
      (written o n id u) (λ r. fails) (λ project t. cc (rw e at t)) w l
retry-Ends o fuel n id u fails (inr e) w (l, live) = elim (Option-cases (find_job id w.jobs)) [
  | inl f ↦ rw ((update_status_guards (run o fuel) o id u false w).0 f) tt
  | inr (j, f) ↦
      rw
        (update_status-refused (run o fuel) o id u false w j f
          (live-refused j.status u.status (live j f) e))
        tt
]

run-Ends :
    (o : Outside) (fuel n : ℕ) (c : Call)
    → need c n ≤ fuel
    → Ends (λ js. Light n js × Called c js) (run o fuel c)
unfolding run serve can_transition_job_status
run-Ends o zero n (dispatch id p) b w h = absurd (omega (arith, b))
run-Ends o zero n (update id u skip) b w h = absurd (omega (arith, b))
run-Ends o zero n (fail id) b w h = absurd (omega (arith, b))
run-Ends o zero n (promote project id s) b w h = absurd (omega (arith, b))
run-Ends o (suc zero) n (dispatch id p) b w h = absurd (omega (arith, b))
run-Ends o (suc (suc fuel)) n (dispatch id p) b w (l, _) =
    dispatch_job-Ends (Light n) (λ _. Unit {0}) (λ _. ⊥) (Light-Steady n) (λ js _. tt)
      (run o (suc fuel)) o
      (λ id u kind. retry-Ends o fuel n id u (run-Ends o fuel n (fail id) (omega (arith, b))) kind)
      id p w l
run-Ends o (suc fuel) n (update id u skip) b w (l, _) =
    update_status-Holds (Light n) (λ _. Unit {0}) (λ _. ⊥) (λ js _. tt) (run o fuel) o id u skip
      (written o n id u) (λ r. run-Ends o fuel n (fail id) (omega (arith, b)))
      (λ project t w h.
        run-Ends o fuel n (promote project id u.status) (omega (arith, b)) w (h, tt))
      w l
run-Ends o (suc fuel) zero (fail id) b w h =
    handle_failure-Holds (Light 0) (λ _. ⊥) (λ _. Unit {0}) (λ _. ⊥) (λ js _. tt) (λ js _. tt)
      (run o fuel) o id (λ js j found live c l. weightless o id js j found live l)
      (λ js j found live l. weightless o id js j found live l) (λ p w h. absurd h)
      (λ project w h. absurd h) w h
run-Ends o (suc fuel) (suc n) (fail id) b w h =
    handle_failure-Holds (Light (suc n)) (Light n) (λ _. Unit {0}) (λ _. ⊥) (λ js _. tt)
      (λ js _. tt) (run o fuel) o id
      (λ js j found live c l.
        update_job-Light id (requeue (j.attempt + 1)) js n (suc n) (λ k. refl)
          (λ k e. rw (find_job_unique id js k j e found) (omega (arith, requeue-weight j live c)))
          (λ e. cc (sym e ∙ found)) l)
      (λ js j found live l.
        update_job-Light id (bury o) js n (suc n) (λ k. refl)
          (λ k e. rw (find_job_unique id js k j e found) (bury-lighter o n j live))
          (λ e. cc (sym e ∙ found)) l)
      (λ p w h. run-Ends o fuel n (dispatch id p) (omega (arith, b)) w (h, tt))
      (λ project w h.
        run-Ends o fuel n (promote project id dead_letter) (omega (arith, b)) w (h, tt))
      w h
run-Ends o (suc zero) n (promote project finished s) b w h = absurd (omega (arith, b))
run-Ends o (suc (suc fuel)) n (promote project finished s) b w (l, _) =
    promote_blocked_jobs-Leads (Light n) (λ _. Unit {0}) (λ _. ⊥) (λ js l. l.0) (Light-Steady n)
      (λ js _. tt) (run o (suc fuel)) o
      (λ id w h. run-Ends o (suc fuel) n (dispatch id none) (omega (arith, b)) w (h, tt))
      (λ j u q d. refuse-Ends o fuel (Light n) j u (rw (q, d) refl)) project finished s w l

Post-Ends :
    (r : Outcome (Unit {0})) (w : World)
    → Post (λ _. Unit {0}) Nowhere (λ _ _. Unit {0}) r w
    → r ≢ exhausted
Post-Ends (ok a) w p = λ e. cc
Post-Ends (thrown x) w p = λ e. cc
Post-Ends exhausted w p = absurd p

-- Every call of the service on a table in which no id stands twice returns or throws where it
-- may go deep enough: the depth needed is at most 5 and 4 more for each job that has not ended
-- and for each attempt that such a job has left. (A failure is handled for a job that has not
-- ended.)
pub run_terminates :
    (o : Outside) (fuel : ℕ) (c : Call) (w : World)
    → UniqueIds w.jobs
    → Called c w.jobs
    → 4 * weight w.jobs + 5 ≤ fuel
    → (run o fuel c w).0 ≢ exhausted
run_terminates o fuel c w u k enough =
    Post-Ends (run o fuel c w).0 (run o fuel c w).1
      (run-Ends o fuel (weight w.jobs) c (needs c) w ((u, omega arith), k))
  where
    needs : (c : Call) → need c (weight w.jobs) ≤ fuel
    needs (dispatch id p) = omega (arith, enough)
    needs (update id x skip) = omega (arith, enough)
    needs (fail id) = omega (arith, enough)
    needs (promote project id s) = omega (arith, enough)
