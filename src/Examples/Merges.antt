-- ===== src/Examples/Merges.antt =====
-- Paths, files and the merge outbox at concrete inputs: packages/shared/src/path-security.ts,
-- services/merge-apply.ts and workers/merge-outbox-worker.ts.
use vmcp.Base.{
  true, false, none, some, Option, [], ◌∷◌, ◌++◌, Text, codes, text_eq, starts_with, ends_with,
  includes_text, has_char, split, join, lacks, All, ◌≡◌, ◌≢◌, refl,
}
use vmcp.Scene.Patch.{TscnPatch, apply_tscn_patch}
use vmcp.PathSecurity.{
  Segments, resolve, path_text, assert_within_base, is_safe_logical_asset_path,
  assert_staging_source,
}
use vmcp.PathSecurity.Segments.{IsSegment}
use vmcp.PathSecurity.Containment.{assert_within_base-below}
use vmcp.Merge.Files.{Fault, Disk, Process, ApplyTscnResult, merged, refused, temporary, apply_tscn}
use vmcp.Merge.Files.Atomic.{apply_tscn_atomic}
use vmcp.Merge.Run.{
  WorkerEnv, Tables, OutboxEntry, pending, failed, Call, find_entry, success, audit_applied_call,
}
use vmcp.Merge.Envelope.{PendingRow, RawPatch}
use vmcp.Merge.Outbox.{RowOutcome, was_failed, process_row, as_patch}
use vmcp.Merge.Outbox.Outcomes.{Fits, process_row_settles}
use vmcp.Merge.Outbox.LateFault.{late_audit_fails_row}
use vmcp.Merge.Outbox.Drain.{run_drain, Counts}

abbrev home : Segments
home = codes "srv" ∷ []

home-IsSegment : All IsSegment home
unfolding text_eq has_char
home-IsSegment = (
  record { unslashed = lacks b'/' (codes "srv") refl; ne_nil = refl; ne_here = refl; ne_up = refl },
  tt,
)

escape_refused : assert_within_base home (codes "game") (codes "../other") ≡ none
unfolding assert_within_base starts_with ends_with split text_eq
escape_refused = refl

staging_accepted :
    assert_staging_source home (codes "/tmp/staging-7/out") ≡ some (codes "/tmp/staging-7/out")
unfolding assert_staging_source starts_with ends_with split text_eq includes_text
staging_accepted = refl

assert_within_base-below_example :
    (rel : Segments) × All IsSegment rel
    × (codes "/srv/game/a" ≡ path_text (resolve home (codes "game") ++ rel))
unfolding assert_within_base starts_with ends_with split text_eq
assert_within_base-below_example =
    assert_within_base-below home (codes "game") (codes "b/../a") (codes "/srv/game/a")
      home-IsSegment refl

abbrev host : Process
host = record {
  cwd = home;
  pid = 7;
  now = 100;
  sha256 = λ t. t;
  read_fault = none;
  write_fault = none;
  rename_fault = none;
}

abbrev no_change : TscnPatch
no_change = record { nodes = []; ext_resources = []; extra = [] }

-- Every file holds one line, and every path is a directory.
abbrev disk : Disk
disk = record { files = λ p. some (codes "[gd_scene]\n"); is_dir = λ p. true }

apply_tscn_atomic_example :
    let after = apply_tscn host (codes "/game") (codes "a.tscn") no_change disk in
    let full = path_text (resolve (resolve home (codes "/game")) (codes "a.tscn")) in
    ((fault : Fault) → after.0 ≡ refused fault → after.1.files full ≡ disk.files full)
    × ((result : ApplyTscnResult)
        → after.0 ≡ merged result
        → (base : Text) × (disk.files full ≡ some base)
          × (after.1.files full ≡ some (apply_tscn_patch base no_change))
          × (result.merged_hash ≡ apply_tscn_patch base no_change))
    × ((q : Text) → q ≢ full → q ≢ temporary host full → after.1.files q ≡ disk.files q)
apply_tscn_atomic_example = apply_tscn_atomic host (codes "/game") (codes "a.tscn") no_change disk

abbrev entry : OutboxEntry
entry = record {
  id = codes "o1";
  override_id = codes "v1";
  project_id = codes "p1";
  path = codes "a.tscn";
  status = pending;
  applied_at = none;
  detail = none;
}

abbrev row : PendingRow
row = record {
  id = codes "o1";
  override_id = codes "v1";
  project_id = codes "p1";
  path = codes "a.tscn";
  project_root = some (codes "/game");
  patch = RawPatch.parsed no_change;
  metadata = [];
}

abbrev tables : Tables
tables = record { outbox = entry ∷ []; overrides = []; disk = disk; reports = [] }

abbrev worker : (Call → Option Fault) → WorkerEnv
worker fails = record {
  process = host;
  service_token = codes "s";
  sandbox_token = [];
  public_base_url = codes "http://h/";
  redispatch = false;
  fails = fails;
  presigned = λ k. k;
  key_pair = record { public_key_open_ssh = []; private_key_pem = []; key_id = [] };
  provision_refusal = none;
  jwe = λ s. codes "j";
  parse_json = λ t. none;
}

abbrev steady : WorkerEnv
steady = worker (λ c. none)

process_row_settles_example :
    let after = process_row row steady tables in
    (out : RowOutcome) × (after.0 ≡ success out)
    × (r : OutboxEntry) × (find_entry (codes "o1") after.1.outbox ≡ some r)
    × Fits row entry out r
unfolding find_entry text_eq
process_row_settles_example = process_row_settles row entry steady tables refl refl refl refl refl

abbrev audit_down : Fault
audit_down = record { message = codes "audit"; status_code = none; code = none }

abbrev no_audit : Call → Option Fault
no_audit c = elim c [ audit_applied_call ↦ some audit_down | _ ↦ none ]

abbrev result : ApplyTscnResult
result = record { full_path = codes "/game/a.tscn"; merged_hash = codes "[gd_scene]\n"; bytes = 11 }

-- The same merge of the same scene, in every environment.
merge_done : (apply_tscn host (codes "/game") (codes "a.tscn") no_change disk).0 ≡ merged result
unfolding apply_tscn is_safe_logical_asset_path assert_within_base apply_tscn_patch starts_with
    ends_with split text_eq has_char includes_text join
merge_done = refl

late_audit_fails_row_example :
    let after = process_row row (worker no_audit) tables in
    (after.0 ≡ success was_failed)
    × (after.1.disk ≡ (apply_tscn host (codes "/game") (codes "a.tscn") no_change disk).1)
    × (r : OutboxEntry) × (find_entry (codes "o1") after.1.outbox ≡ some r)
    × (r.status ≡ failed)
unfolding find_entry text_eq ends_with as_patch
late_audit_fails_row_example =
    late_audit_fails_row row entry (worker no_audit) tables result audit_down refl refl refl refl
      merge_done refl refl refl refl refl refl

abbrev one_applied : Counts
one_applied = record { applied = 1; failed = 0; dispatched = 0; skipped = 0 }

drained : (run_drain (λ r. some row) false (λ id. steady) tables).0 ≡ success one_applied
unfolding run_drain process_row ends_with apply_tscn is_safe_logical_asset_path has_char
    includes_text starts_with assert_within_base split
drained = refl
