-- ===== src/Job/State.antt =====
-- The rows that packages/orchestrator/src/services/job-service.ts reads and writes, and the monad of
-- its methods: an exception leaves the writes that were made before it.
pub mod Logic
pub mod Table
use vmcp.Base.{
  ℕ, Bool, Option, none, some, List, [], ◌∷◌, ◌++◌, Text, codes, text_eq, if◌then◌else◌,
}
use vmcp.Errors.{ErrorCode, AlertSeverity}
use vmcp.Status.{JobStatus}
use vmcp.Scheduler.{WorkerTier, TierHealth, TierConfig}
use vmcp.Lock.Postgres.{LockState}
use vmcp.Lock.Service.{Env, Result, returns, throws}

pub data CommitStrategy : Type 0 where
  same_machine cross_machine : CommitStrategy

-- The object `metadata`: its fields that hold texts, the newest first.
abbrev pub Metadata : Type 0
Metadata = List (Text × Text)

pub record Job : Type 0 where
  pub id : Text
  pub project_id : Text
  pub status : JobStatus
  pub tier : Option WorkerTier
  pub commit_strategy : CommitStrategy
  pub godot_version : Text
  pub fencing_token : Option Text
  pub lock_key : Option Text
  pub github_run_id : Option ℕ
  pub callback_token_hash : Option Text
  pub callback_token_expires_at : Option ℕ
  pub attempt : ℕ
  pub max_attempts : ℕ
  pub blocked_by_job_id : Option Text
  pub depends_on_job_id : Option Text
  pub estimated_wait_seconds : Option ℕ
  pub s3_staging_prefix : Option Text
  pub s3_validation_report_key : Option Text
  pub s3_snapshot_key : Option Text
  pub s3_artifacts_prefix : Option Text
  pub metadata : Metadata
  pub last_heartbeat_at : Option ℕ
  pub error_code : Option ErrorCode
  pub error_detail : Option Text
  pub completed_at : Option ℕ

pub record Project : Type 0 where
  pub id : Text
  pub godot_version : Text
  pub high_volume : Bool

pub record JobErrorRow : Type 0 where
  pub job_id : Text
  pub code : ErrorCode
  pub detail : Text

pub record DeadLetterRow : Type 0 where
  pub job_id : Text
  pub reason : Text
  pub attempts : ℕ
  pub archived : Bool

-- What leaves the service: messages to the dashboard, to the queues and to the operators.
pub data Effect : Type 0 where
  job_updated : Text → Effect
  job_error : ErrorCode → Text → Effect
  resolve_run : Text → WorkerTier → ℕ → Effect
  dead_letter_queued : Text → Effect
  alert : ErrorCode → AlertSeverity → Text → Effect
  audited : Text → Text → Effect

-- The jobs stand in the order of `created_at`, the oldest first; the effects newest first.
pub record World : Type 0 where
  pub jobs : List Job
  pub projects : List Project
  pub tiers : List TierHealth
  pub priority_queue : List Text
  pub locks : LockState
  pub job_errors : List JobErrorRow
  pub dead_letters : List DeadLetterRow
  pub effects : List Effect

-- What happens outside during one call: the times and ids of `Env`, the settings, the next job's id,
-- the hash of the callback token, its life time, and what the calls to the target host and to
-- GitHub answer: `some message` where one throws or fails.
pub record Outside : Type 0 where
  pub env : Env
  pub tier_config : TierConfig
  pub new_job_id : Text
  pub callback_hash : Text → Text
  pub callback_ttl : ℕ
  pub provision_error : Job → Option Text
  pub dispatch_error : Job → Option Text

pub data Error : Type 0 where
  job_not_found project_not_found project_missing : Error
  dependency_rejected : Text → Error
  invalid_transition : JobStatus → JobStatus → Error
  commit_blocked fencing_rejected : Error
  lock_failed : Text → Error
  transaction_failed : Error

-- `exhausted` stands for a chain of calls that is longer than the fuel.
pub data Outcome {ℓ} (A : Type ℓ) : Type ℓ where
  ok : A → Outcome A
  thrown : Error → Outcome A
  exhausted : Outcome A

abbrev pub M : Type 0 → Type 0
M A = World → Outcome A × World

abbrev pub bind_outcome : {A B : Type 0} → (A → M B) → Outcome A → World → Outcome B × World
bind_outcome f (ok a) w = f a w
bind_outcome f (thrown e) w = (thrown e, w)
bind_outcome f exhausted w = (exhausted, w)

infixl 5 ◌>>=◌ ◌>>◌
abbrev pub ◌>>=◌ : {A B : Type 0} → M A → (A → M B) → M B
◌>>=◌ m f w = let (r, w') = m w in bind_outcome f r w'

abbrev pub ◌>>◌ : {B : Type 0} → M (Unit {0}) → M B → M B
m >> k = m >>= λ _. k

abbrev pub pure : {A : Type 0} → A → M A
pure a w = (ok a, w)

abbrev pub throw : {A : Type 0} → Error → M A
throw e w = (thrown e, w)

abbrev pub world : M World
world w = (ok w, w)

abbrev pub emit : Effect → M (Unit {0})
emit e w = (ok tt, record w { effects = e ∷ w.effects })

-- `SELECT * FROM jobs WHERE id = $1`
unfoldable pub find_job : Text → List Job → Option Job
find_job id [] = none
find_job id (j ∷ js) = if text_eq j.id id then some j else find_job id js

-- `UPDATE jobs SET … WHERE id = $1`
unfoldable pub update_job : Text → (Job → Job) → List Job → List Job
update_job id f [] = []
update_job id f (j ∷ js) = (if text_eq j.id id then f j else j) ∷ update_job id f js

unfoldable pub find_project : Text → List Project → Option Project
find_project id [] = none
find_project id (p ∷ ps) = if text_eq p.id id then some p else find_project id ps

-- `getById`
abbrev pub get_by_id : Text → M (Option Job)
get_by_id id w = (ok (find_job id w.jobs), w)

abbrev pub modify_job : Text → (Job → Job) → M (Unit {0})
modify_job id f w = (ok tt, record w { jobs = update_job id f w.jobs })

-- A call of the lock service, whose exceptions pass through.
abbrev pub on_locks : {A : Type 0} → (LockState → A × LockState) → M A
on_locks f w = let (a, s) = f w.locks in (ok a, record w { locks = s })

abbrev pub unwrap : {A : Type 0} → Result A → M A
unwrap (returns a) w = (ok a, w)
unwrap (throws m) w = (thrown (lock_failed m), w)

-- A field of the metadata.
unfoldable pub field : Text → Metadata → Option Text
field k [] = none
field k ((j, v) ∷ m) = if text_eq j k then some v else field k m

-- `metadata || $n::jsonb`
abbrev pub merge : Metadata → Metadata → Metadata
merge old new = new ++ old

abbrev pub owner_id : Text → Text
owner_id job_id = codes "job:" ++ job_id
