-- ===== src/Merge/Outbox.antt =====
-- workers/merge-outbox-worker.ts: processMergeOutboxRow, the rows that are pending, and the drain.
pub mod Outcomes
pub mod Drain
pub mod LateFault
use vmcp.Base.{
  ℕ, zero, ◌+◌, suc, Bool, true, false, not, ◌&&◌, ◌||◌, Option, none, some, get_or, List, [], ◌∷◌,
  ◌++◌, any, Text, codes, text_eq, ends_with, starts_with, if◌then◌else◌,
}
use vmcp.Errors.{AlertSeverity, medium, high}
use vmcp.Scene.Attrs.{Attrs, attr}
use vmcp.Scene.Patch.{TscnPatch}
use vmcp.Merge.Files.{
  Fault, Applied, merged, refused, ApplyTscnResult, apply_tscn, path_is_readable_dir,
}
use vmcp.Merge.Envelope.{
  PendingRow, RawPatch, parsed, unparsed, nothing, Envelope, build_envelope, plain_fault,
  first_leak,
}
use vmcp.Merge.Run.{
  WorkerEnv, Tables, OutboxEntry, OverrideRow, RowStatus, pending, applied, failed, Report, alerted,
  audited, stored, dispatched_with, Call, mark_applied_call, mark_override_call, mark_failed_call,
  mark_dispatched_call, alert_call, audit_applied_call, audit_failed_call, audit_dispatched_call,
  put_call, presign_call, dispatch_call, Run, Attempt, success, raised, ◌>>=◌, ◌>>◌, succeed, raise,
  handle, try_catch, call, report, update_entry, update_override, on_entry,
}

pub data RowOutcome : Type 0 where
  was_applied was_failed was_dispatched was_skipped : RowOutcome

abbrev pub no_patch : TscnPatch
no_patch = record { nodes = []; ext_resources = []; extra = [] }

-- asPatch
unfoldable pub as_patch : WorkerEnv → RawPatch → TscnPatch
as_patch e (parsed p) = p
as_patch e (unparsed text) = get_or (e.parse_json text) no_patch
as_patch e nothing = no_patch

unfoldable pub take : ℕ → Text → Text
take zero s = []
take (suc n) [] = []
take (suc n) (c ∷ s) = c ∷ take n s

-- markApplied, with its two statements.
mark_applied : PendingRow → Text → Run (Unit {0})
mark_applied row hash e =
    (call mark_applied_call (
          on_entry row.id
            (λ r. record r { status = applied; applied_at = some e.process.now; detail = none }))
        >> call mark_override_call (λ t. record t {
          overrides =
              update_override row.override_id
                (λ o. record o { merged_hash = some hash; apply_mode = some (codes "outbox") })
                t.overrides;
        }))
      e

-- markFailed
mark_failed : Text → Text → Run (Unit {0})
unfolding take
mark_failed id detail =
    call mark_failed_call
      (on_entry id (λ r. record r { status = failed; detail = some (take 2000 detail) }))

abbrev pub is_pending : RowStatus → Bool
is_pending pending = true
is_pending applied = false
is_pending failed = false

-- markDispatched: the status stays, and without re-dispatch the detail of a pending row only changes.
stamp : Bool → Text → OutboxEntry → OutboxEntry
stamp redispatch detail r =
    if redispatch || is_pending r.status then record r { detail = some detail } else r

mark_dispatched : Text → Text → Run (Unit {0})
unfolding stamp take
mark_dispatched id detail e =
    call mark_dispatched_call (on_entry id (stamp e.redispatch (take 2000 detail))) e

send_alert : AlertSeverity → Text → Text → Run (Unit {0})
send_alert severity code id = call alert_call (report (alerted severity code id))

abbrev code_e014 : Text
code_e014 = codes "E014"

-- A failure that is marked and reported.
fail_row : PendingRow → AlertSeverity → Text → Text → Run RowOutcome
unfolding mark_failed send_alert
fail_row row severity code detail = do
  mark_failed row.id detail
  send_alert severity code row.id
  succeed was_failed

-- The patch on disk, whose errors are thrown.
settle : Applied → Run ApplyTscnResult
settle (merged result) = succeed result
settle (refused fault) = raise fault

apply_local : Text → PendingRow → Run ApplyTscnResult
unfolding settle as_patch
apply_local root row e t =
    let (r, d) = apply_tscn e.process root row.path (as_patch e row.patch) t.disk in
    settle r e (record t { disk = d })

local_body : Text → PendingRow → Run RowOutcome
unfolding apply_local mark_applied
local_body root row = do
  result ← apply_local root row
  mark_applied row result.merged_hash
  call audit_applied_call (report (audited (codes "merge.outbox_applied") row.id))
  succeed was_applied

abbrev is_e019 : Fault → Bool
is_e019 fault = text_eq (get_or fault.code []) (codes "E019")

local_failed : PendingRow → Fault → Run RowOutcome
unfolding mark_failed send_alert
local_failed row fault = do
  mark_failed row.id fault.message
  send_alert (if is_e019 fault then high else medium)
      (if is_e019 fault then codes "E019" else code_e014) row.id
  call audit_failed_call (report (audited (codes "merge.outbox_failed") row.id))
  succeed was_failed

-- `a ?? b` of two fields.
abbrev either_field : Text → Text → Attrs → Option Text
either_field a b meta = elim (attr a meta) [ none ↦ attr b meta | some v ↦ some v ]

abbrev is_truthy_text : Option Text → Bool
is_truthy_text none = false
is_truthy_text (some v) = not (text_eq v [])

-- isRemoteMergeTarget
pub is_remote_merge_target : Text → Attrs → Bool → Bool
is_remote_merge_target root meta readable =
    if readable
    then false
    else is_truthy_text (either_field (codes "targetHost") (codes "target_host") meta)
      || not (text_eq root [])

abbrev patch_key : PendingRow → Text
patch_key row =
    codes "projects/"
    ++ (row.project_id ++ (codes "/merge-outbox/" ++ (row.id ++ codes "/patch.json")))

abbrev remote_root : Text → PendingRow → Text
remote_root root row =
    if text_eq root []
    then get_or (either_field (codes "projectRoot") (codes "project_root") row.metadata)
        (codes "/var/godot/projects/" ++ row.project_id)
    else root

abbrev pub dispatch_detail : PendingRow → Text
dispatch_detail row =
    codes "dispatched merge_apply.yml s3Key=" ++ (patch_key row ++ codes " secretJwe=1")

-- The tests on the inputs before they leave.
check_inputs : Text → Option Text → Run (Unit {0})
check_inputs jwe (some k) =
    if text_eq jwe []
    then raise (plain_fault (codes "merge-apply dispatch envelope missing secretJwe"))
    else raise (plain_fault (codes "refusing dispatch: private key leaked in input " ++ k))
check_inputs jwe none =
    if text_eq jwe []
    then raise (plain_fault (codes "merge-apply dispatch envelope missing secretJwe"))
    else succeed tt

record_dispatch : PendingRow → Run RowOutcome
unfolding mark_dispatched
record_dispatch row = do
  mark_dispatched row.id (dispatch_detail row)
  call audit_dispatched_call (report (audited (codes "merge.outbox_dispatched") row.id))
  succeed was_dispatched

dispatch_inputs : PendingRow → Attrs → Run RowOutcome
unfolding record_dispatch
dispatch_inputs row inputs = do
  call dispatch_call (report (dispatched_with inputs))
  record_dispatch row

abbrev jwe_of : Attrs → Text
jwe_of inputs = get_or (attr (codes "secretJwe") inputs) []

send : PendingRow → Attrs → Run RowOutcome
unfolding check_inputs first_leak dispatch_inputs
send row inputs = do check_inputs (jwe_of inputs) (first_leak inputs); dispatch_inputs row inputs

-- The envelope, and its dispatch.
seal_and_send : Text → PendingRow → Run RowOutcome
unfolding send build_envelope
seal_and_send root row e =
    (do
      envelope ←
          build_envelope row (remote_root root row) (e.presigned (patch_key row)) (patch_key row)
      send row envelope.workflow_inputs)
      e

presign_and_send : Text → PendingRow → Run RowOutcome
unfolding seal_and_send
presign_and_send root row = do call presign_call (λ t. t); seal_and_send root row

remote_body : Text → PendingRow → Run RowOutcome
unfolding presign_and_send as_patch
remote_body root row e =
    (do
      call put_call (report (stored (patch_key row) (as_patch e row.patch)))
      presign_and_send root row)
      e

remote_failed : PendingRow → Fault → Run RowOutcome
unfolding fail_row
remote_failed row fault = fail_row row high code_e014 (codes "dispatch failed: " ++ fault.message)

process_at : Text → Bool → PendingRow → Run RowOutcome
unfolding local_body local_failed remote_body remote_failed fail_row is_remote_merge_target
process_at root readable row =
    if readable
    then try_catch (local_body root row) (local_failed row)
    else if not (is_remote_merge_target root row.metadata readable) && text_eq root []
    then fail_row row medium code_e014
        (codes "no project_root and no local tree — cannot apply merge")
    else try_catch (remote_body root row) (remote_failed row)

-- `row.project_root ? String(row.project_root) : ''`
abbrev pub root_of : PendingRow → Text
root_of row = get_or row.project_root []

-- processMergeOutboxRow
unfoldable pub process_row : PendingRow → Run RowOutcome
unfolding process_at fail_row
process_row row e t =
    if not (ends_with row.path (codes ".tscn"))
    then fail_row row medium code_e014 (codes "unsupported path for structural merge: " ++ row.path)
        e t
    else process_at (root_of row)
        (not (text_eq (root_of row) []) && path_is_readable_dir (root_of row) t.disk) row e t
