-- ===== src/Job/State/Table.antt =====
-- The table `jobs` by its primary key.
use vmcp.Base.{
  ◌≡◌, ◌≢◌, refl, sym, ◌∙◌, Bool, true, false, some, List, [], ◌∷◌, Text, text_eq, text_eq_iff,
  text_eq_refl, arith, any, filter, Bool-cases, inl, inr,
}
use mathlib.Core.Option.{some-injective}
use vmcp.Status.{is_terminal, blocked}
use vmcp.Job.State.{Job, find_job, update_job}

abbrev pub has_id : Text → List Job → Bool
has_id id js = any (λ j. text_eq j.id id) js

-- No id stands twice.
abbrev pub UniqueIds : List Job → Type 0
UniqueIds [] = Unit
UniqueIds (j ∷ js) = (has_id j.id js ≡ false) × UniqueIds js

abbrev pub KeepsId : (Job → Job) → Type 0
KeepsId f = (j : Job) → (f j).id ≡ j.id

pub has_id-update_job :
    (id k : Text) (f : Job → Job) (js : List Job)
    → KeepsId f
    → has_id k (update_job id f js) ≡ has_id k js
unfolding update_job
has_id-update_job id k f [] h = refl
has_id-update_job id k f (j ∷ js) h = ground (arith, h j, has_id-update_job id k f js h)

pub update_job-UniqueIds :
    (id : Text) (f : Job → Job) (js : List Job)
    → KeepsId f
    → UniqueIds js
    → UniqueIds (update_job id f js)
unfolding update_job
update_job-UniqueIds id f [] h u = tt
update_job-UniqueIds id f (j ∷ js) h (n, u) =
    (ground (arith, h j, has_id-update_job id j.id f js h), update_job-UniqueIds id f js h u)

-- The row of an id that is missing is not there to be changed.
pub update_job_missing :
    (id : Text) (f : Job → Job) (js : List Job) → has_id id js ≡ false → update_job id f js ≡ js
unfolding update_job
update_job_missing id f [] h = refl
update_job_missing id f (j ∷ js) h = ground (arith, update_job_missing id f js)

pub find_job-id : (id : Text) (js : List Job) (j : Job) → find_job id js ≡ some j → j.id ≡ id
unfolding find_job
find_job-id id [] j h = cc
find_job-id id (k ∷ js) j h = ground (arith, find_job-id id js j, text_eq_iff k.id id)

pub find_job-update_job :
    (id : Text) (f : Job → Job) (js : List Job) (j : Job)
    → KeepsId f
    → find_job id js ≡ some j
    → find_job id (update_job id f js) ≡ some (f j)
unfolding find_job update_job
find_job-update_job id f [] j k h = cc
find_job-update_job id f (i ∷ js) j k h = ground (arith, k i, find_job-update_job id f js j k)

pub find_job-update_job_other :
    (id k : Text) (f : Job → Job) (js : List Job)
    → KeepsId f
    → k ≢ id
    → find_job k (update_job id f js) ≡ find_job k js
unfolding find_job update_job
find_job-update_job_other id k f [] h ne = refl
find_job-update_job_other id k f (j ∷ js) h ne =
    ground (
      arith,
      h j,
      find_job-update_job_other id k f js h ne,
      text_eq_iff j.id id,
      text_eq_iff j.id k,
    )

-- The row of the id, if it is there, has no terminal status.
abbrev pub Live : Text → List Job → Type 0
Live id js = (j : Job) → find_job id js ≡ some j → is_terminal j.status ≡ false

-- The row stays that of a live job with the same attempts.
abbrev pub KeepsLife : (Job → Job) → Type 0
KeepsLife f =
    (j : Job)
    → ((f j).id ≡ j.id)
      × ((f j).attempt ≡ j.attempt)
      × ((f j).max_attempts ≡ j.max_attempts)
      × (is_terminal (f j).status ≡ false)

-- A property of the table that survives such a change of a live row.
abbrev pub Steady : (List Job → Type 0) → Type 0
Steady I =
    (id : Text) (f : Job → Job) (js : List Job)
    → KeepsLife f
    → Live id js
    → I js
    → I (update_job id f js)

-- A change that leaves no terminal status leaves a live row.
pub update_job-Live :
    (id : Text) (f : Job → Job) (js : List Job)
    → KeepsId f
    → ((j : Job) → is_terminal (f j).status ≡ false)
    → Live id (update_job id f js)
unfolding find_job update_job
update_job-Live id f [] k h j e = cc
update_job-Live id f (i ∷ js) k h j e = ground (
  arith,
  k i,
  h i,
  λ (q : find_job id (update_job id f js) ≡ some j). update_job-Live id f js k h j q,
)

pub find_job_unique :
    (id : Text) (js : List Job) (i j : Job)
    → find_job id js ≡ some i
    → find_job id js ≡ some j
    → i ≡ j
find_job_unique id js i j a b = some-injective i j (sym a ∙ b)

-- The rows stand in the table as they were read, and are blocked.
abbrev pub Fresh : List Job → List Job → Type 0
Fresh [] js = Unit
Fresh (j ∷ rest) js = (find_job j.id js ≡ some j) × (j.status ≡ blocked) × Fresh rest js

has_id-find_job :
    (id : Text) (js : List Job) (j : Job) → find_job id js ≡ some j → has_id id js ≡ true
unfolding find_job
has_id-find_job id [] j h = cc
has_id-find_job id (i ∷ js) j h = ground (arith, has_id-find_job id js j)

find_job_head : (i : Job) (js : List Job) → find_job i.id (i ∷ js) ≡ some i
unfolding find_job
find_job_head i js = rw (text_eq_refl i.id) refl

find_job_later :
    (i j : Job) (js : List Job)
    → has_id i.id js ≡ false
    → find_job j.id js ≡ some j
    → find_job j.id (i ∷ js) ≡ some j
unfolding find_job
find_job_later i j js n h = ground (arith, has_id-find_job j.id js j h, text_eq_iff i.id j.id)

Fresh-later :
    (i : Job) (rest js : List Job) → has_id i.id js ≡ false → Fresh rest js → Fresh rest (i ∷ js)
Fresh-later i [] js n h = tt
Fresh-later i (j ∷ rest) js n (found, b, h) =
    (find_job_later i j js n found, b, Fresh-later i rest js n h)

pub filter-Fresh :
    (p : Job → Bool) (js : List Job)
    → ((j : Job) → p j ≡ true → j.status ≡ blocked)
    → UniqueIds js
    → Fresh (filter p js) js
filter-Fresh p [] b u = tt
filter-Fresh p (i ∷ js) b (n, u) =
    let rest = Fresh-later i (filter p js) js n (filter-Fresh p js b u) in
    elim (Bool-cases (p i)) [ inl e ↦ rw e (find_job_head i js, b i e, rest) | inr e ↦ rw e rest ]
