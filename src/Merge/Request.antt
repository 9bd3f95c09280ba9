-- ===== src/Merge/Request.antt =====
-- services/merge-service.ts: patchIntroducesScript, resolveMergeMode and applyMerge.
pub mod Effect
pub mod Gate
use vmcp.Base.{
  ℕ, Bool, true, false, not, ◌&&◌, ◌||◌, Option, none, some, get_or, List, [], ◌∷◌, ◌++◌, any, Text,
  codes, text_eq, ◌==◌, starts_with, ends_with, includes_text, to_lower, trim_start, if◌then◌else◌,
}
use vmcp.Status.Roles.{Role, admin, has_exact_role}
use vmcp.PathSecurity.{assert_within_base, is_safe_logical_asset_path}
use vmcp.Scene.Properties.{Props}
use vmcp.Scene.Patch.{TscnPatch, NodePatch}
use vmcp.Merge.Files.{
  Fault, Disk, Process, Applied, merged, refused, ApplyTscnResult, apply_tscn, fault_e014,
  traversal, path_is_readable_dir,
}
use vmcp.Merge.Run.{
  Tables, OutboxEntry, OverrideRow, pending, Report, audited, Attempt, success, raised, report,
}

-- What follows a prefix.
rest_behind : Text → Text → Text
rest_behind [] s = s
rest_behind (b ∷ p) [] = []
rest_behind (b ∷ p) (c ∷ s) = rest_behind p s

-- The text `c` behind the text `p` and white space, anywhere: /p\s*c/.
has_then : Text → Text → Text → Bool
unfolding rest_behind
has_then p c [] = false
has_then p c (b ∷ s) =
    (starts_with (b ∷ s) p && starts_with (trim_start (rest_behind p (b ∷ s))) c) || has_then p c s

-- The keys of the properties of a node.
pub has_script_key : Props → Bool
has_script_key [] = false
has_script_key ((k, v) ∷ props) = text_eq k (codes "script") || has_script_key props

abbrev is_script : Option Text → Bool
is_script none = false
is_script (some t) = text_eq t (codes "Script")

abbrev pub script_props : Option Props → Bool
script_props none = false
script_props (some props) = has_script_key props

pub node_has_script : NodePatch → Bool
unfolding has_script_key
node_has_script np = np.script_key || is_script np.type || script_props np.properties

-- patchIntroducesScript, from the patch and its JSON text.
unfoldable pub patch_introduces_script : Text → TscnPatch → Bool
unfolding has_then node_has_script
patch_introduces_script json patch =
    let text = to_lower json in
    has_then (codes "\"script\"") (codes ":") text
    || has_then (codes "extresource") (codes "(") text
    || ((includes_text (codes ".gd\"") text || includes_text (codes ".gd'") text)
        && includes_text (codes "script") text)
    || any node_has_script patch.nodes

pub data MergeApplyMode : Type 0 where
  local_fs outbox_mode registry_only : MergeApplyMode

-- The environment of a request: the process, the two variables, the ids that the database gives,
-- and what of it throws.
pub record RequestEnv : Type 0 where
  pub process : Process
  pub structural_merge : Option Text
  pub merge_mode : Option Text
  pub stringify : TscnPatch → Text
  pub override_id : Text
  pub outbox_id : Text
  pub insert_override_fault : Option Fault
  pub insert_outbox_fault : Option Fault
  pub audit_fault : Option Fault

abbrev pub structural_on : RequestEnv → Bool
structural_on e =
    not (text_eq (get_or e.structural_merge []) (codes "0"))
    && not (text_eq (get_or e.structural_merge []) (codes "false"))

-- resolveMergeMode
unfoldable pub resolve_merge_mode : RequestEnv → MergeApplyMode
resolve_merge_mode e =
    let forced = to_lower (get_or e.merge_mode (codes "auto")) in
    if not (structural_on e)
    then registry_only
    else if text_eq forced (codes "outbox")
    then outbox_mode
    else if text_eq forced (codes "local_fs")
    then local_fs
    else if text_eq forced (codes "registry_only")
    then registry_only
    else local_fs

pub record MergeRequest : Type 0 where
  pub project_id : Text
  pub path : Text
  pub patch : TscnPatch
  pub role : Role

pub record MergeResult : Type 0 where
  pub id : Text
  pub introduces_script : Bool
  pub apply_mode : MergeApplyMode
  pub merged_hash : Option Text
  pub outbox_id : Option Text

-- What the attempt on disk settles: the mode and the hash.
abbrev pub Choice : Type 0
Choice = MergeApplyMode × Option Text

abbrev pub is_404 : Fault → Bool
is_404 fault = elim fault.status_code [ none ↦ false | some s ↦ s == 404 ]

-- A missing scene is an error; any other failure leaves the patch to the outbox.
settle_local : Applied → Tables → Attempt Choice × Tables
settle_local (merged result) t = (success (local_fs, some result.merged_hash), t)
settle_local (refused fault) t =
    if is_404 fault then (raised fault, t) else (success (outbox_mode, none), t)

try_local : RequestEnv → MergeRequest → Text → Tables → Attempt Choice × Tables
unfolding settle_local
try_local e req root t =
    if not (path_is_readable_dir root t.disk)
    then (success (outbox_mode, none), t)
    else if ends_with req.path (codes ".tscn")
    then settle_local (apply_tscn e.process root req.path req.patch t.disk).0
        (record t { disk = (apply_tscn e.process root req.path req.patch t.disk).1 })
    else (success (local_fs, none), t)

choose : RequestEnv → MergeRequest → Text → MergeApplyMode → Tables → Attempt Choice × Tables
unfolding try_local
choose e req root local_fs t =
    if structural_on e then try_local e req root t else (success (local_fs, none), t)
choose e req root outbox_mode t = (success (outbox_mode, none), t)
choose e req root registry_only t = (success (registry_only, none), t)

abbrev mode_column : MergeApplyMode → Option Text
mode_column local_fs = some (codes "local_fs")
mode_column outbox_mode = some (codes "outbox")
mode_column registry_only = none

-- The audit, and the answer.
answer :
    RequestEnv → Bool → Choice → Option Text → Option Fault → Tables → Attempt MergeResult × Tables
answer e script (mode, hash) queued (some fault) t = (raised fault, t)
answer e script (mode, hash) queued none t = (
  success (record {
    id = e.override_id;
    introduces_script = script;
    apply_mode = mode;
    merged_hash = hash;
    outbox_id = queued;
  }),
  report
      (audited (if script then codes "merge.script_override" else codes "merge.override")
        e.override_id)
      t,
)

-- The row of `merge_outbox`.
enqueue :
    RequestEnv → MergeRequest → Bool → Choice → Option Fault → Tables → Attempt MergeResult × Tables
unfolding answer
enqueue e req script c (some fault) t = (raised fault, t)
enqueue e req script c none t = answer e script c (some e.outbox_id) e.audit_fault (record t {
  outbox =
      t.outbox
      ++ record {
        id = e.outbox_id;
        override_id = e.override_id;
        project_id = req.project_id;
        path = req.path;
        status = pending;
        applied_at = none;
        detail = none;
      }
        ∷ [];
})

queue_or_answer : RequestEnv → MergeRequest → Bool → Choice → Tables → Attempt MergeResult × Tables
unfolding enqueue answer
queue_or_answer e req script (outbox_mode, hash) t =
    enqueue e req script (outbox_mode, hash) e.insert_outbox_fault t
queue_or_answer e req script (local_fs, hash) t =
    answer e script (local_fs, hash) none e.audit_fault t
queue_or_answer e req script (registry_only, hash) t =
    answer e script (registry_only, hash) none e.audit_fault t

-- The row of `overrides`, of which the model keeps the columns that the worker writes.
record_override :
    RequestEnv → MergeRequest → Bool → Choice → Option Fault → Tables → Attempt MergeResult × Tables
unfolding queue_or_answer
record_override e req script c (some fault) t = (raised fault, t)
record_override e req script c none t = queue_or_answer e req script c (record t {
  overrides =
      t.overrides
      ++ record { id = e.override_id; merged_hash = c.1; apply_mode = mode_column c.0 } ∷ [];
})

store_merge :
    RequestEnv → MergeRequest → Bool → Attempt Choice × Tables → Attempt MergeResult × Tables
unfolding record_override
store_merge e req script (raised fault, t) = (raised fault, t)
store_merge e req script (success c, t) = record_override e req script c e.insert_override_fault t

abbrev pub script_fault : Fault
script_fault = record {
  message = codes "Override introduces executable script; admin scope required";
  status_code = some 403;
  code = some (codes "E019");
}

merge_within :
    RequestEnv → MergeRequest → Text → Option Text → Tables → Attempt MergeResult × Tables
unfolding has_exact_role store_merge choose
merge_within e req root none t = (raised (traversal req.path), t)
merge_within e req root (some inside) t =
    let script = patch_introduces_script (e.stringify req.patch) req.patch in
    if script && not (has_exact_role req.role admin)
    then (raised script_fault, t)
    else store_merge e req script (choose e req root (resolve_merge_mode e) t)

-- applyMerge
unfoldable pub apply_merge :
    RequestEnv → MergeRequest → Text → Tables → Attempt MergeResult × Tables
unfolding merge_within
apply_merge e req root t =
    if not (is_safe_logical_asset_path req.path)
    then (raised (fault_e014 400 (codes "Invalid path")), t)
    else merge_within e req root (assert_within_base e.process.cwd root req.path) t
