-- ===== src/Merge/Run.antt =====
-- The tables that workers/merge-outbox-worker.ts reads and writes, and its methods as functions of
-- them: an exception keeps the writes before it.
pub mod Ends
use vmcp.Base.{
  ℕ, Bool, true, false, Option, none, some, List, [], ◌∷◌, map, Text, text_eq, if◌then◌else◌,
}
use vmcp.Errors.{AlertSeverity}
use vmcp.Scene.Patch.{TscnPatch}
use vmcp.Merge.Files.{Fault, Disk, Process}

pub data RowStatus : Type 0 where
  pending applied failed : RowStatus

-- A row of `merge_outbox`.
pub record OutboxEntry : Type 0 where
  pub id : Text
  pub override_id : Text
  pub project_id : Text
  pub path : Text
  pub status : RowStatus
  pub applied_at : Option ℕ
  pub detail : Option Text

-- The columns of `overrides` that the worker writes.
pub record OverrideRow : Type 0 where
  pub id : Text
  pub merged_hash : Option Text
  pub apply_mode : Option Text

-- What leaves the worker.
pub data Report : Type 0 where
  alerted : AlertSeverity → Text → Text → Report
  audited : Text → Text → Report
  stored : Text → TscnPatch → Report
  dispatched_with : List (Text × Text) → Report

pub record Tables : Type 0 where
  pub outbox : List OutboxEntry
  pub overrides : List OverrideRow
  pub disk : Disk
  pub reports : List Report

-- The calls of one row that may throw.
pub data Call : Type 0 where
  mark_applied_call mark_override_call mark_failed_call mark_dispatched_call : Call
  alert_call audit_applied_call audit_failed_call audit_dispatched_call : Call
  put_call presign_call provision_call jwe_call dispatch_call : Call

-- What an SSH key and its provision come to.
pub record KeyPair : Type 0 where
  pub public_key_open_ssh : Text
  pub private_key_pem : Text
  pub key_id : Text

pub record Secrets : Type 0 where
  pub callback_token : Text
  pub target_project_root : Text
  pub target_host : Option Text
  pub outbox_id : Text
  pub rel_path : Text
  pub pgos_base_url : Text
  pub patch_get_url : Text
  pub ssh_private_key : Option Text
  pub ssh_key_id : Option Text

-- The environment: the process, the settings, which calls throw, and what libraries and services
-- answer.
pub record WorkerEnv : Type 0 where
  pub process : Process
  pub service_token : Text
  pub sandbox_token : Text
  pub public_base_url : Text
  pub redispatch : Bool
  pub fails : Call → Option Fault
  pub presigned : Text → Text
  pub key_pair : KeyPair
  pub provision_refusal : Option Text
  pub jwe : Secrets → Text
  pub parse_json : Text → Option TscnPatch

pub data Attempt (A : Type 0) : Type 0 where
  success : A → Attempt A
  raised : Fault → Attempt A

abbrev pub Run : Type 0 → Type 0
Run A = WorkerEnv → Tables → Attempt A × Tables

abbrev pub bind_attempt : {A B : Type 0} → (A → Run B) → Attempt A → Run B
bind_attempt f (success a) e t = f a e t
bind_attempt f (raised fault) e t = (raised fault, t)

infixl 5 ◌>>=◌ ◌>>◌
abbrev pub ◌>>=◌ : {A B : Type 0} → Run A → (A → Run B) → Run B
◌>>=◌ m f e t = let (r, t') = m e t in bind_attempt f r e t'

abbrev pub ◌>>◌ : {B : Type 0} → Run (Unit {0}) → Run B → Run B
m >> k = m >>= λ _. k

abbrev pub succeed : {A : Type 0} → A → Run A
succeed a e t = (success a, t)

abbrev pub raise : {A : Type 0} → Fault → Run A
raise fault e t = (raised fault, t)

-- `try … catch`: the handler sees the writes of the body.
abbrev pub handle : {A : Type 0} → (Fault → Run A) → Attempt A → Run A
handle h (success a) e t = (success a, t)
handle h (raised fault) e t = h fault e t

abbrev pub try_catch : {A : Type 0} → Run A → (Fault → Run A) → Run A
try_catch m h e t = let (r, t') = m e t in handle h r e t'

-- A call that throws or changes the tables.
abbrev pub calling : Option Fault → (Tables → Tables) → Tables → Attempt (Unit {0}) × Tables
calling none f t = (success tt, f t)
calling (some fault) f t = (raised fault, t)

abbrev pub call : Call → (Tables → Tables) → Run (Unit {0})
call c f e t = calling (e.fails c) f t

abbrev pub report : Report → Tables → Tables
report r t = record t { reports = r ∷ t.reports }

-- `UPDATE merge_outbox SET … WHERE id = $1`
unfoldable pub update_entry :
    Text → (OutboxEntry → OutboxEntry) → List OutboxEntry → List OutboxEntry
update_entry id f [] = []
update_entry id f (r ∷ rows) = (if text_eq r.id id then f r else r) ∷ update_entry id f rows

unfoldable pub update_override :
    Text → (OverrideRow → OverrideRow) → List OverrideRow → List OverrideRow
update_override id f [] = []
update_override id f (r ∷ rows) = (if text_eq r.id id then f r else r) ∷ update_override id f rows

unfoldable pub find_entry : Text → List OutboxEntry → Option OutboxEntry
find_entry id [] = none
find_entry id (r ∷ rows) = if text_eq r.id id then some r else find_entry id rows

abbrev pub on_entry : Text → (OutboxEntry → OutboxEntry) → Tables → Tables
on_entry id f t = record t { outbox = update_entry id f t.outbox }
