-- ===== src/Job/Service/Weight.antt =====
-- How much the jobs of packages/orchestrator/src/services/job-service.ts have left to do.
use vmcp.Base.{
  ℕ, suc, ◌+◌, ◌-◌, ◌≤◌, ◌≡◌, refl, inl, inr, true, false, none, some, List, [], ◌∷◌, Text, text_eq,
  text_eq_iff, ltb, arith, if◌then◌else◌, Option-cases, Bool-cases,
}
use vmcp.Status.{is_terminal, can_transition_job_status}
use vmcp.Status.Lifecycle.{terminal_iff_no_exit}
use vmcp.Job.State.{Job, Outside, find_job, update_job}
use vmcp.Job.State.Table.{
  has_id, UniqueIds, KeepsId, update_job-UniqueIds, update_job_missing, Steady, find_job_unique,
}
use vmcp.Job.Calls.{JobStatusUpdate}
use vmcp.Job.Update.{apply_update}
use vmcp.Job.Failure.{requeue, bury}

-- One for a job that has not ended, and one for each attempt that it has left.
abbrev pub weight_of : Job → ℕ
weight_of j = if is_terminal j.status then 0 else suc (j.max_attempts - j.attempt)

abbrev pub weight : List Job → ℕ
weight [] = 0
weight (j ∷ js) = weight_of j + weight js

pub find_job-none : (id : Text) (js : List Job) → find_job id js ≡ none → has_id id js ≡ false
unfolding find_job
find_job-none id [] h = refl
find_job-none id (j ∷ js) h = ground (arith, find_job-none id js)

pub weight-update_job :
    (id : Text) (f : Job → Job) (js : List Job) (j : Job)
    → UniqueIds js
    → find_job id js ≡ some j
    → weight (update_job id f js) + weight_of j ≡ weight js + weight_of (f j)
unfolding find_job update_job
weight-update_job id f [] j u h = cc
weight-update_job id f (i ∷ js) j (n, u) h = elim (Bool-cases (text_eq i.id id)) [
  | inl e ↦
      let same : i ≡ j = find_job_unique id (i ∷ js) i j (rw e refl) h in
      rw (e, update_job_missing id f js (absent e), same) (omega arith)
  | inr e ↦ rw e (omega (arith, weight-update_job id f js j u (rw e at h)))
]
  where
    absent : text_eq i.id id ≡ true → has_id id js ≡ false
    absent e = ground (arith, text_eq_iff i.id id)

-- The table by its keys, with at most the weight `n`.
abbrev pub Light : ℕ → List Job → Type 0
Light n js = UniqueIds js × (weight js ≤ n)

pub update_job-Light :
    (id : Text) (f : Job → Job) (js : List Job) (m n : ℕ)
    → KeepsId f
    → ((j : Job) → find_job id js ≡ some j → weight_of (f j) + n ≤ weight_of j + m)
    → (find_job id js ≡ none → n ≤ m)
    → Light n js
    → Light m (update_job id f js)
update_job-Light id f js m n k less keep (u, l) = (
  update_job-UniqueIds id f js k u,
  elim (Option-cases (find_job id js)) [
    | inl e ↦ rw (update_job_missing id f js (find_job-none id js e)) (omega (arith, keep e))
    | inr (j, e) ↦ omega (arith, weight-update_job id f js j u e, less j e)
  ],
)

pub Light-Steady : (n : ℕ) → Steady (Light n)
Light-Steady n id f js k live h =
    update_job-Light id f js n n (λ j. (k j).0) (λ j e. ground (arith, k j, live j e))
      (λ e. omega arith) h

pub apply_update-weight :
    (o : Outside) (u : JobStatusUpdate) (j : Job)
    → can_transition_job_status j.status u.status ≡ true
    → weight_of (apply_update o u j) ≤ weight_of j
unfolding apply_update
apply_update-weight o u j c = elim (Bool-cases (is_terminal j.status)) [
  | inl e ↦
      let same : j.status ≡ u.status = (terminal_iff_no_exit j.status).0 e u.status c in
      ground (arith, same)
  | inr e ↦ ground arith
]

pub requeue-weight :
    (j : Job)
    → is_terminal j.status ≡ false
    → ltb j.attempt j.max_attempts ≡ true
    → suc (weight_of (requeue (j.attempt + 1) j)) ≡ weight_of j
unfolding is_terminal
requeue-weight j live c = ground arith

pub bury-lighter :
    (o : Outside) (n : ℕ) (j : Job)
    → is_terminal j.status ≡ false
    → weight_of (bury o j) + suc n ≤ weight_of j + n
unfolding is_terminal
bury-lighter o n j live = ground arith

-- A table without weight has no live row.
pub weightless :
    (o : Outside) (id : Text) (js : List Job) (j : Job)
    → find_job id js ≡ some j
    → is_terminal j.status ≡ false
    → Light 0 js
    → ⊥
weightless o id js j found live (u, l) =
    omega (arith, weight-update_job id (bury o) js j u found, bury-lighter o 0 j live)
