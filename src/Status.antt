-- ===== src/Status.antt =====
-- packages/shared/src/job-status.ts: the life cycle of a job, and the roles.
pub mod Lifecycle
pub mod Roles
use vmcp.Base.{Bool, true, false, ◌||◌, List, [], ◌∷◌, any, Text, codes, text_eq}

pub data JobStatus : Type 0 where
  queued dispatching dispatch_timeout dispatch_failed blocked staging : JobStatus
  validating validation_report validation_failed reimport_failed : JobStatus
  committing commit_failed post_commit_verify rollback completed : JobStatus
  lock_stale dep_failed paused_editor_lock cancelled dead_letter : JobStatus

pub JobStatus-discrete : Discrete JobStatus
JobStatus-discrete = hlevel

-- The text by which a status is stored and sent.
pub status_text : JobStatus → Text
status_text queued = codes "QUEUED"
status_text dispatching = codes "DISPATCHING"
status_text dispatch_timeout = codes "DISPATCH_TIMEOUT"
status_text dispatch_failed = codes "DISPATCH_FAILED"
status_text blocked = codes "BLOCKED"
status_text staging = codes "STAGING"
status_text validating = codes "VALIDATING"
status_text validation_report = codes "VALIDATION_REPORT"
status_text validation_failed = codes "VALIDATION_FAILED"
status_text reimport_failed = codes "REIMPORT_FAILED"
status_text committing = codes "COMMITTING"
status_text commit_failed = codes "COMMIT_FAILED"
status_text post_commit_verify = codes "POST_COMMIT_VERIFY"
status_text rollback = codes "ROLLBACK"
status_text completed = codes "COMPLETED"
status_text lock_stale = codes "LOCK_STALE"
status_text dep_failed = codes "DEP_FAILED"
status_text paused_editor_lock = codes "PAUSED_EDITOR_LOCK"
status_text cancelled = codes "CANCELLED"
status_text dead_letter = codes "DEAD_LETTER"

-- `===` on statuses, which are texts in the source.
unfoldable pub status_eq : JobStatus → JobStatus → Bool
unfolding status_text text_eq
status_eq a b = text_eq (status_text a) (status_text b)

-- `statuses.includes(s)`
unfoldable pub includes : List JobStatus → JobStatus → Bool
unfolding status_eq
includes l s = any (status_eq s) l

abbrev pub active_generation_statuses : List JobStatus
active_generation_statuses =
    queued ∷ dispatching ∷ staging ∷ validating ∷ validation_report ∷ committing
    ∷ post_commit_verify ∷ []

abbrev pub retriable_failure_statuses : List JobStatus
retriable_failure_statuses =
    reimport_failed ∷ validation_failed ∷ commit_failed ∷ dispatch_timeout ∷ dispatch_failed ∷ []

abbrev pub terminal_statuses : List JobStatus
terminal_statuses = completed ∷ rollback ∷ dep_failed ∷ cancelled ∷ dead_letter ∷ []

unfoldable pub is_terminal : JobStatus → Bool
unfolding includes
is_terminal status = includes terminal_statuses status

unfoldable pub is_retriable_failure : JobStatus → Bool
unfolding includes
is_retriable_failure status = includes retriable_failure_statuses status

unfoldable pub is_active_generation : JobStatus → Bool
unfolding includes
is_active_generation status = includes active_generation_statuses status

-- The table of allowed transitions.
unfoldable pub job_status_transitions : JobStatus → List JobStatus
job_status_transitions queued =
    dispatching ∷ dispatch_failed ∷ blocked ∷ cancelled ∷ lock_stale ∷ []
job_status_transitions dispatching =
    staging ∷ dispatch_timeout ∷ dispatch_failed ∷ blocked ∷ cancelled ∷ lock_stale ∷ []
job_status_transitions dispatch_timeout =
    queued ∷ dead_letter ∷ cancelled ∷ lock_stale ∷ dispatch_failed ∷ []
job_status_transitions dispatch_failed = queued ∷ dead_letter ∷ cancelled ∷ lock_stale ∷ []
job_status_transitions blocked = queued ∷ cancelled ∷ []
job_status_transitions staging =
    validating ∷ reimport_failed ∷ paused_editor_lock ∷ lock_stale ∷ cancelled ∷ []
job_status_transitions validating =
    validation_report ∷ validation_failed ∷ reimport_failed ∷ lock_stale ∷ cancelled ∷ []
job_status_transitions validation_report = committing ∷ validation_failed ∷ cancelled ∷ []
job_status_transitions reimport_failed = queued ∷ dead_letter ∷ cancelled ∷ lock_stale ∷ []
job_status_transitions validation_failed = queued ∷ dead_letter ∷ cancelled ∷ lock_stale ∷ []
job_status_transitions committing =
    post_commit_verify ∷ commit_failed ∷ paused_editor_lock ∷ lock_stale ∷ cancelled ∷ []
job_status_transitions commit_failed = queued ∷ dead_letter ∷ cancelled ∷ lock_stale ∷ []
job_status_transitions post_commit_verify =
    completed ∷ rollback ∷ reimport_failed ∷ lock_stale ∷ cancelled ∷ []
job_status_transitions rollback = []
job_status_transitions completed = []
job_status_transitions lock_stale = queued ∷ dead_letter ∷ cancelled ∷ dispatch_failed ∷ []
job_status_transitions dep_failed = []
job_status_transitions paused_editor_lock = staging ∷ cancelled ∷ lock_stale ∷ []
job_status_transitions cancelled = []
job_status_transitions dead_letter = []

unfoldable pub can_transition_job_status : JobStatus → JobStatus → Bool
unfolding includes status_eq job_status_transitions
can_transition_job_status from to = status_eq from to || includes (job_status_transitions from) to
