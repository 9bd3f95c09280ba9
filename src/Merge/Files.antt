-- ===== src/Merge/Files.antt =====
-- services/merge-apply.ts: applyTscnToFilesystem and pathIsReadableDir, on a file system of texts.
-- A text is counted in bytes as ASCII.
pub mod Atomic
use vmcp.Base.{
  ℕ, Bool, true, false, not, Option, none, some, List, [], ◌∷◌, ◌++◌, Text, codes, text_eq,
  ends_with, length, decimal, if◌then◌else◌,
}
use vmcp.PathSecurity.{Segments, assert_within_base, is_safe_logical_asset_path, path_text, resolve}
use vmcp.Scene.Patch.{TscnPatch, apply_tscn_patch}

-- An `Error` with the fields `statusCode` and `code`.
pub record Fault : Type 0 where
  pub message : Text
  pub status_code : Option ℕ
  pub code : Option Text

pub record Disk : Type 0 where
  pub files : Text → Option Text
  pub is_dir : Text → Bool

-- A write that fails, and what it leaves at its path: no file, or any text, such as a part of what
-- was to be written.
pub record WriteFault : Type 0 where
  pub fault : Fault
  pub left : Option Text

-- The process, and the calls of the file system that fail otherwise than by a missing file.
pub record Process : Type 0 where
  pub cwd : Segments
  pub pid : ℕ
  pub now : ℕ
  pub sha256 : Text → Text
  pub read_fault : Option Fault
  pub write_fault : Option WriteFault
  pub rename_fault : Option Fault

pub record ApplyTscnResult : Type 0 where
  pub full_path : Text
  pub merged_hash : Text
  pub bytes : ℕ

pub data Applied : Type 0 where
  merged : ApplyTscnResult → Applied
  refused : Fault → Applied

abbrev pub fault_e014 : ℕ → Text → Fault
fault_e014 status message = record {
  message = message;
  status_code = some status;
  code = some (codes "E014");
}

abbrev pub set_file : Text → Option Text → Disk → Disk
set_file path content d = record d { files = λ p. if text_eq p path then content else d.files p }

abbrev pub temporary : Process → Text → Text
temporary p full = full ++ (codes ".pgos-merge-" ++ (decimal p.pid ++ b'-' ∷ decimal p.now))

-- `rename` of the temporary file, which holds the text, to the scene. One call of the system: it
-- moves the file, or fails and moves nothing.
rename : Process → Text → Text → Option Fault → Disk → Applied × Disk
rename p full text (some fault) d = (refused fault, d)
rename p full text none d = (
  merged (record { full_path = full; merged_hash = p.sha256 text; bytes = length text }),
  set_file full (some text) (set_file (temporary p full) none d),
)

-- `writeFile` of the temporary file.
write : Process → Text → Text → Option WriteFault → Disk → Applied × Disk
unfolding rename
write p full text (some failed) d =
    (refused failed.fault, set_file (temporary p full) failed.left d)
write p full text none d =
    rename p full text p.rename_fault (set_file (temporary p full) (some text) d)

merge_base : Process → Text → Text → TscnPatch → Option Fault → Option Text → Disk → Applied × Disk
unfolding write
merge_base p rel full patch (some fault) base d = (refused fault, d)
merge_base p rel full patch none none d = (
  refused (
      fault_e014 404 (
        codes "Base .tscn not found at "
        ++ (rel ++ codes " — create the scene on the project host first"))),
  d,
)
merge_base p rel full patch none (some base) d =
    write p full (apply_tscn_patch base patch) p.write_fault d

-- PathTraversalError has a code and no status.
abbrev pub traversal : Text → Fault
traversal rel = record {
  message = codes "Path escapes allowed base directory: " ++ rel;
  status_code = none;
  code = some (codes "E014");
}

apply_within : Process → Text → Text → TscnPatch → Option Text → Disk → Applied × Disk
unfolding merge_base
apply_within p root rel patch none d = (refused (traversal rel), d)
apply_within p root rel patch (some inside) d =
    if not (ends_with rel (codes ".tscn"))
    then (
      refused (
          fault_e014 400
            (codes "Structural merge only supports .tscn paths (got " ++ (rel ++ codes ")"))),
      d,
    )
    else let full = path_text (resolve (resolve p.cwd root) rel) in
      merge_base p rel full patch p.read_fault (d.files full) d

-- applyTscnToFilesystem
unfoldable pub apply_tscn : Process → Text → Text → TscnPatch → Disk → Applied × Disk
unfolding apply_within
apply_tscn p root rel patch d =
    if not (is_safe_logical_asset_path rel)
    then (refused (fault_e014 400 (codes "Invalid path")), d)
    else apply_within p root rel patch (assert_within_base p.cwd root rel) d

-- pathIsReadableDir
abbrev pub path_is_readable_dir : Text → Disk → Bool
path_is_readable_dir dir d = d.is_dir dir
