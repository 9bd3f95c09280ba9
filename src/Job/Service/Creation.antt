-- ===== src/Job/Service/Creation.antt =====
-- `create` of packages/orchestrator/src/services/job-service.ts.
use vmcp.Base.{
  ℕ, ◌||◌, ◌≡◌, refl, inl, inr, Bool, true, false, Option, none, some, List, [], ◌∷◌, ◌++◌, Text,
  text_eq, text_eq_iff, is_some, arith, Option-cases, Bool-cases,
}
use vmcp.Status.{is_terminal}
use vmcp.Gate.{DependencyGate, allow, block_dependency, gate_failed}
use vmcp.Lock.Service.{truthy}
use vmcp.Job.State.{Project, Job, World, Outside, find_project}
use vmcp.Job.State.Logic.{Triple, triple_bind}
use vmcp.Job.State.Table.{has_id, UniqueIds}
use vmcp.Job.Calls.{dispatch}
use vmcp.Job.Service.{
  run, CreateJobRequest, new_job, insert_new, slot_holder, dependency_blocks, heed_gate, create_in,
  create_for, create,
}
use vmcp.Job.Service.Invariant.{JobOk, AllOk, WellFormed, Sound, Post-Sound, run-Keeps}

append-WellFormed :
    (js : List Job) (j : Job)
    → has_id j.id js ≡ false
    → JobOk j
    → WellFormed js
    → WellFormed (js ++ (j ∷ []))
append-WellFormed js j n a h = (unique js n h.0, all_ok js h.1)
  where
    has_id-append :
        (k : Text) (js : List Job) → has_id k (js ++ (j ∷ [])) ≡ (has_id k js || text_eq j.id k)
    has_id-append k [] = ground arith
    has_id-append k (i ∷ js) = ground (arith, has_id-append k js)

    unique : (js : List Job) → has_id j.id js ≡ false → UniqueIds js → UniqueIds (js ++ (j ∷ []))
    unique [] n u = (refl, tt)
    unique (i ∷ js) n u = (
      ground (arith, has_id-append i.id js, text_eq_iff i.id j.id, text_eq_iff j.id i.id),
      unique js (ground arith) u.1,
    )

    all_ok : (js : List Job) → AllOk js → AllOk (js ++ (j ∷ []))
    all_ok [] h = (a, tt)
    all_ok (i ∷ js) h = (h.0, all_ok js h.1)

new_job-JobOk :
    (o : Outside) (req : CreateJobRequest) (project : Project) (b : Bool) (holder : Option Text)
    → JobOk (new_job o req project b holder)
unfolding is_terminal
new_job-JobOk o req project true holder = ground arith
new_job-JobOk o req project false holder = ground arith

-- The id of a new job is not taken.
abbrev NewId : Outside → World → Type 0
NewId o w = Sound w × (has_id o.new_job_id w.jobs ≡ false)

insert_new-Sound :
    (o : Outside) (fuel : ℕ) (req : CreateJobRequest) (project : Project) (b : Bool)
    → Triple Sound Sound (NewId o) (insert_new (run o fuel) o req project b) (λ _. Sound)
unfolding insert_new
insert_new-Sound o fuel req project b w (h, n) =
    let holder = slot_holder req.project_id w.jobs in
    let waits = b || is_some holder in
    let grown =
      append-WellFormed w.jobs (new_job o req project waits holder) n
        (new_job-JobOk o req project waits holder) h in
    elim (Bool-cases waits) [
      | inl e ↦ rw (insert_new, e) (rw e at grown)
      | inr e ↦
          rw (insert_new, e)
            (run-Keeps o fuel (dispatch o.new_job_id req.preferred_tier) _ (rw e at grown, tt))
    ]

heed_gate-NewId :
    (o : Outside) (gate : DependencyGate)
    → Triple Sound Sound (NewId o) (heed_gate gate) (λ _. NewId o)
unfolding heed_gate
heed_gate-NewId o allow w p = p
heed_gate-NewId o (block_dependency r) w p = p
heed_gate-NewId o (gate_failed r) w p = p.0

dependency_blocks-NewId :
    (o : Outside) (req : CreateJobRequest)
    → Triple Sound Sound (NewId o) (dependency_blocks req) (λ _. NewId o)
unfolding dependency_blocks
dependency_blocks-NewId o req w p = elim (Option-cases (truthy req.depends_on_job_id)) [
  | inl e ↦ rw (dependency_blocks, e) p
  | inr (d, e) ↦ rw (dependency_blocks, e) (heed_gate-NewId o _ w p)
]

create_in-Sound :
    (o : Outside) (fuel : ℕ) (req : CreateJobRequest) (project : Project)
    → Triple Sound Sound (NewId o) (create_in (run o fuel) o req project) (λ _. Sound)
unfolding create_in
create_in-Sound o fuel req project =
    triple_bind Sound Sound (λ _. NewId o) (λ _. Sound) (dependency_blocks req)
      (insert_new (run o fuel) o req project) (dependency_blocks-NewId o req)
      (insert_new-Sound o fuel req project)

create_for-Sound :
    (o : Outside) (fuel : ℕ) (req : CreateJobRequest) (project : Option Project)
    → Triple Sound Sound (NewId o) (create_for (run o fuel) o req project) (λ _. Sound)
unfolding create_for
create_for-Sound o fuel req none w p = p.0
create_for-Sound o fuel req (some project) w p = create_in-Sound o fuel req project w p

-- A new job whose id is not taken keeps the table well-formed, dispatch and its consequences
-- included.
pub create-WellFormed :
    (o : Outside) (fuel : ℕ) (req : CreateJobRequest) (w : World)
    → WellFormed w.jobs
    → has_id o.new_job_id w.jobs ≡ false
    → WellFormed (create (run o fuel) o req w).1.jobs
unfolding create
create-WellFormed o fuel req w h n =
    Post-Sound _ (create (run o fuel) o req w).1
      (create_for-Sound o fuel req (find_project req.project_id w.projects) w (h, n))
