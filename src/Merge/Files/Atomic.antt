-- ===== src/Merge/Files/Atomic.antt =====
-- services/merge-apply.ts: what applyTscnToFilesystem leaves on disk.
use vmcp.Base.{
  ℕ, false, Option, none, some, ◌∷◌, ◌++◌, Text, codes, text_eq, text_eq_iff, text_eq_refl,
  ends_with, length, length-append, ◌≡◌, ◌≢◌, inl, inr, refl, ap, decimal, arith, Bool-cases,
}
use vmcp.PathSecurity.{assert_within_base, is_safe_logical_asset_path, path_text, resolve}
use vmcp.Scene.Patch.{TscnPatch, apply_tscn_patch}
use vmcp.Merge.Files.{
  Fault, WriteFault, Disk, Process, ApplyTscnResult, Applied, merged, refused, temporary,
  apply_tscn, apply_within, merge_base, write, rename, set_file,
}

-- The scene of a project that a relative path names.
abbrev pub scene_path : Process → Text → Text → Text
scene_path p root rel = path_text (resolve (resolve p.cwd root) rel)

-- What a call may do to the disk: nothing at any file but the scene and the temporary file, and at
-- the scene nothing or the whole merge.
abbrev Whole : Process → Text → TscnPatch → Disk → Applied × Disk → Type 0
Whole p full patch d (refused fault, d') =
    (d'.files full ≡ d.files full)
    × ((q : Text) → q ≢ full → q ≢ temporary p full → d'.files q ≡ d.files q)
Whole p full patch d (merged result, d') =
    ((base : Text) × (d.files full ≡ some base)
      × (d'.files full ≡ some (apply_tscn_patch base patch))
      × (result.merged_hash ≡ p.sha256 (apply_tscn_patch base patch)))
    × ((q : Text) → q ≢ full → q ≢ temporary p full → d'.files q ≡ d.files q)

Whole-same :
    (p : Process) (full : Text) (patch : TscnPatch) (d : Disk) (fault : Fault)
    → Whole p full patch d (refused fault, d)
Whole-same p full patch d fault = (refl, λ q a b. refl)

temporary-ne : (p : Process) (full : Text) → full ≢ temporary p full
temporary-ne p full e = omega (
  arith,
  ap (length {A = ℕ}) e,
  length-append full (codes ".pgos-merge-" ++ (decimal p.pid ++ b'-' ∷ decimal p.now)),
)

text_ne : (q r : Text) → q ≢ r → text_eq q r ≡ false
text_ne q r h = ground (arith, text_eq_iff q r, h)

Whole-rename :
    (p : Process) (full : Text) (patch : TscnPatch) (d : Disk) (base : Text) (fault : Option Fault)
    → d.files full ≡ some base
    → Whole p full patch d (
        rename p full
          (apply_tscn_patch base patch)
          fault
          (set_file (temporary p full) (some (apply_tscn_patch base patch)) d))
unfolding rename
Whole-rename p full patch d base (some fault) h = (
  rw (text_ne full (temporary p full) (temporary-ne p full)) refl,
  λ q a b. rw (text_ne q (temporary p full) b) refl,
)
Whole-rename p full patch d base none h = (
  (base, h, rw (text_eq_refl full) refl, refl),
  λ q a b. rw (text_ne q full a) (rw (text_ne q (temporary p full) b) refl),
)

Whole-write :
    (p : Process) (full : Text) (patch : TscnPatch) (d : Disk) (base : Text)
    (fault : Option WriteFault)
    → d.files full ≡ some base
    → Whole p full patch d (write p full (apply_tscn_patch base patch) fault d)
unfolding write
Whole-write p full patch d base (some failed) h = (
  rw (text_ne full (temporary p full) (temporary-ne p full)) refl,
  λ q a b. rw (text_ne q (temporary p full) b) refl,
)
Whole-write p full patch d base none h = Whole-rename p full patch d base p.rename_fault h

Whole-merge_base :
    (p : Process) (rel full : Text) (patch : TscnPatch) (d : Disk) (fault : Option Fault)
    (base : Option Text)
    → d.files full ≡ base
    → Whole p full patch d (merge_base p rel full patch fault base d)
unfolding merge_base
Whole-merge_base p rel full patch d (some fault) base h = Whole-same p full patch d fault
Whole-merge_base p rel full patch d none none h = (refl, λ q a b. refl)
Whole-merge_base p rel full patch d none (some base) h =
    Whole-write p full patch d base p.write_fault h

Whole-apply_within :
    (p : Process) (root rel : Text) (patch : TscnPatch) (inside : Option Text) (d : Disk)
    → Whole p (scene_path p root rel) patch d (apply_within p root rel patch inside d)
unfolding apply_within
Whole-apply_within p root rel patch none d = (refl, λ q a b. refl)
Whole-apply_within p root rel patch (some inside) d =
    elim (Bool-cases (ends_with rel (codes ".tscn"))) [
      | inl b ↦ rw b (
          Whole-merge_base p rel (scene_path p root rel) patch d p.read_fault
            (d.files (scene_path p root rel)) refl)
      | inr b ↦ rw b ((refl, λ q a b. refl))
    ]

Whole-apply_tscn :
    (p : Process) (root rel : Text) (patch : TscnPatch) (d : Disk)
    → Whole p (scene_path p root rel) patch d (apply_tscn p root rel patch d)
unfolding apply_tscn
Whole-apply_tscn p root rel patch d = elim (Bool-cases (is_safe_logical_asset_path rel)) [
  | inl b ↦ rw b (Whole-apply_within p root rel patch (assert_within_base p.cwd root rel) d)
  | inr b ↦ rw b ((refl, λ q a b. refl))
]

Whole-merged :
    (p : Process) (full : Text) (patch : TscnPatch) (d : Disk) (r : Applied × Disk)
    (result : ApplyTscnResult)
    → r.0 ≡ merged result
    → Whole p full patch d r
    → (base : Text) × (d.files full ≡ some base)
      × (r.1.files full ≡ some (apply_tscn_patch base patch))
      × (result.merged_hash ≡ p.sha256 (apply_tscn_patch base patch))
Whole-merged p full patch d (refused fault, d') result e h = cc
Whole-merged p full patch d (merged other, d') result e (h, k) =
    let (base, x, y, z) = h in (base, x, y, cc (e, z))

Whole-refused :
    (p : Process) (full : Text) (patch : TscnPatch) (d : Disk) (r : Applied × Disk) (fault : Fault)
    → r.0 ≡ refused fault
    → Whole p full patch d r
    → r.1.files full ≡ d.files full
Whole-refused p full patch d (refused other, d') fault e h = h.0
Whole-refused p full patch d (merged result, d') fault e h = cc

Whole-elsewhere :
    (p : Process) (full : Text) (patch : TscnPatch) (d : Disk) (r : Applied × Disk) (q : Text)
    → Whole p full patch d r
    → q ≢ full
    → q ≢ temporary p full
    → r.1.files q ≡ d.files q
Whole-elsewhere p full patch d (refused fault, d') q h a b = h.1 q a b
Whole-elsewhere p full patch d (merged result, d') q h a b = h.1 q a b

-- A merge that fails, at whatever step, and whatever a failed write leaves of the temporary file,
-- leaves the scene as it was; one that succeeds found a scene,
-- left the whole patched text there and gives the hash of that text; and no call changes a file
-- other than the scene and the temporary file beside it.
pub apply_tscn_atomic :
    (p : Process) (root rel : Text) (patch : TscnPatch) (d : Disk)
    → let after = apply_tscn p root rel patch d in
      let full = path_text (resolve (resolve p.cwd root) rel) in
      ((fault : Fault) → after.0 ≡ refused fault → after.1.files full ≡ d.files full)
      × ((result : ApplyTscnResult)
          → after.0 ≡ merged result
          → (base : Text) × (d.files full ≡ some base)
            × (after.1.files full ≡ some (apply_tscn_patch base patch))
            × (result.merged_hash ≡ p.sha256 (apply_tscn_patch base patch)))
      × ((q : Text) → q ≢ full → q ≢ temporary p full → after.1.files q ≡ d.files q)
apply_tscn_atomic p root rel patch d =
    let full = scene_path p root rel in
    let h = Whole-apply_tscn p root rel patch d in
    (
      λ fault e. Whole-refused p full patch d (apply_tscn p root rel patch d) fault e h,
      λ result e. Whole-merged p full patch d (apply_tscn p root rel patch d) result e h,
      λ q a b. Whole-elsewhere p full patch d (apply_tscn p root rel patch d) q h a b,
    )
