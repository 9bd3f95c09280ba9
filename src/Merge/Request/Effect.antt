-- ===== src/Merge/Request/Effect.antt =====
-- services/merge-service.ts: the tables and files after applyMerge.
use vmcp.Base.{
  Bool, true, false, not, ◌&&◌, Option, none, some, [], ◌∷◌, ◌++◌, Text, codes, ends_with, ◌≡◌,
  refl, ap, arith, Bool-cases, inl, inr,
}
use vmcp.Status.Roles.{admin, has_exact_role}
use vmcp.PathSecurity.{assert_within_base, is_safe_logical_asset_path, path_text, resolve}
use vmcp.Scene.Patch.{apply_tscn_patch}
use vmcp.Merge.Files.{Fault, Applied, merged, refused, apply_tscn}
use vmcp.Merge.Files.Atomic.{apply_tscn_atomic}
use vmcp.Merge.Run.{Tables, pending, Attempt, success, raised}
use vmcp.Merge.Run.Ends.{Ends}
use vmcp.Merge.Request.{
  RequestEnv, MergeRequest, MergeResult, MergeApplyMode, local_fs, outbox_mode, registry_only,
  Choice, structural_on, is_404, resolve_merge_mode, settle_local, try_local, choose, mode_column,
  answer, enqueue, queue_or_answer, record_override, store_merge, merge_within, apply_merge,
  patch_introduces_script,
}

abbrev pub scene_of : RequestEnv → MergeRequest → Text → Text
scene_of e req root = path_text (resolve (resolve e.process.cwd root) req.path)

-- Where the patch of a request for a scene went, by the mode that is recorded.
abbrev pub Delivered :
    RequestEnv → MergeRequest → Text → Tables → Choice → Option Text → Tables → Type 0
Delivered e req root t (local_fs, hash) queued s =
    let full = scene_of e req root in
    ((base : Text) × (t.disk.files full ≡ some base)
      × (s.disk.files full ≡ some (apply_tscn_patch base req.patch))
      × (hash ≡ some (e.process.sha256 (apply_tscn_patch base req.patch))))
    × (s.outbox ≡ t.outbox)
    × (queued ≡ none)
Delivered e req root t (outbox_mode, hash) queued s =
    let full = scene_of e req root in
    (s.disk.files full ≡ t.disk.files full)
    × (s.outbox
        ≡ t.outbox
          ++ record {
            id = e.outbox_id;
            override_id = e.override_id;
            project_id = req.project_id;
            path = req.path;
            status = pending;
            applied_at = none;
            detail = none;
          }
            ∷ [])
    × (hash ≡ none)
    × (queued ≡ some e.outbox_id)
Delivered e req root t (registry_only, hash) queued s =
    (resolve_merge_mode e ≡ registry_only)
    × (s.disk ≡ t.disk)
    × (s.outbox ≡ t.outbox)
    × (hash ≡ none)
    × (queued ≡ none)

module _ (e : RequestEnv) (req : MergeRequest) (root : Text) (t : Tables) where
  -- After the attempt on disk, before the rows.
  abbrev Chosen : Choice → Tables → Type 0
  Chosen (local_fs, hash) s =
      Delivered e req root t (local_fs, hash) none s × (s.overrides ≡ t.overrides)
  Chosen (outbox_mode, hash) s =
      (s.disk.files (scene_of e req root) ≡ t.disk.files (scene_of e req root))
      × (hash ≡ none)
      × (s.outbox ≡ t.outbox)
      × (s.overrides ≡ t.overrides)
  Chosen (registry_only, hash) s =
      Delivered e req root t (registry_only, hash) none s × (s.overrides ≡ t.overrides)

  abbrev Anything : Tables → Type 0
  Anything s = Unit

  settle-Chosen :
      (r : Applied)
      → r ≡ (apply_tscn e.process root req.path req.patch t.disk).0
      → Ends Chosen Anything (
          settle_local r
            (record t { disk = (apply_tscn e.process root req.path req.patch t.disk).1 }))
  unfolding settle_local
  settle-Chosen (merged result) h =
      let (stays, lands, elsewhere) = apply_tscn_atomic e.process root req.path req.patch t.disk in
      let (base, was, now, hash) = lands result (cc h) in
      (((base, was, now, ap some hash), refl, refl), refl)
  settle-Chosen (refused fault) h =
      let (stays, lands, elsewhere) = apply_tscn_atomic e.process root req.path req.patch t.disk in
      elim (Bool-cases (is_404 fault)) [
        | inl b ↦ rw b tt
        | inr b ↦ rw b (stays fault (cc h), refl, refl, refl)
      ]

  structural_on-local : resolve_merge_mode e ≡ local_fs → structural_on e ≡ true
  unfolding resolve_merge_mode
  structural_on-local h = ground arith

  choose-Chosen :
      (mode : MergeApplyMode)
      → resolve_merge_mode e ≡ mode
      → ends_with req.path (codes ".tscn") ≡ true
      → Ends Chosen Anything (choose e req root mode t)
  unfolding choose try_local
  choose-Chosen local_fs m tscn =
      rw (structural_on-local m) (elim (Bool-cases (t.disk.is_dir root)) [
        | inl b ↦ rw b (rw tscn (settle-Chosen _ refl))
        | inr b ↦ rw b (refl, refl, refl, refl)
      ])
  choose-Chosen outbox_mode m tscn = (refl, refl, refl, refl)
  choose-Chosen registry_only m tscn = ((m, refl, refl, refl, refl), refl)

  -- What the answer and the tables of a request that succeeds have.
  abbrev pub Recorded : Bool → MergeResult → Tables → Type 0
  Recorded script r s =
      (r.introduces_script ≡ script)
      × (s.overrides
          ≡ t.overrides
            ++ record {
              id = r.id;
              merged_hash = r.merged_hash;
              apply_mode = mode_column r.apply_mode;
            }
              ∷ [])
      × Delivered e req root t (r.apply_mode, r.merged_hash) r.outbox_id s

  answer-Recorded :
      (script : Bool) (mode : MergeApplyMode) (hash queued : Option Text) (fault : Option Fault)
      (s : Tables)
      → s.overrides
        ≡ t.overrides
          ++ record { id = e.override_id; merged_hash = hash; apply_mode = mode_column mode } ∷ []
      → Delivered e req root t (mode, hash) queued s
      → Ends (Recorded script) Anything (answer e script (mode, hash) queued fault s)
  unfolding answer
  answer-Recorded script mode hash queued (some fault) s row d = tt
  answer-Recorded script local_fs hash queued none s row d = (refl, row, d)
  answer-Recorded script outbox_mode hash queued none s row d = (refl, row, d)
  answer-Recorded script registry_only hash queued none s row d = (refl, row, d)

  enqueue-Recorded :
      (script : Bool) (hash : Option Text) (fault : Option Fault) (s : Tables)
      → s.overrides
        ≡ t.overrides
          ++ record { id = e.override_id; merged_hash = hash; apply_mode = some (codes "outbox") }
            ∷ []
      → s.disk.files (scene_of e req root) ≡ t.disk.files (scene_of e req root)
      → hash ≡ none
      → s.outbox ≡ t.outbox
      → Ends (Recorded script) Anything (enqueue e req script (outbox_mode, hash) fault s)
  unfolding enqueue
  enqueue-Recorded script hash (some fault) s row same no_hash out = tt
  enqueue-Recorded script hash none s row same no_hash out =
      answer-Recorded script outbox_mode hash (some e.outbox_id) e.audit_fault _ row
        (same, rw out refl, no_hash, refl)

  record-Recorded :
      (script : Bool) (c : Choice) (fault : Option Fault) (s : Tables)
      → Chosen c s
      → Ends (Recorded script) Anything (record_override e req script c fault s)
  unfolding record_override queue_or_answer
  record-Recorded script c (some fault) s h = tt
  record-Recorded script (local_fs, hash) none s (d, o) =
      answer-Recorded script local_fs hash none e.audit_fault _ (rw o refl) d
  record-Recorded script (outbox_mode, hash) none s (same, no_hash, out, o) =
      enqueue-Recorded script hash e.insert_outbox_fault _ (rw o refl) same no_hash out
  record-Recorded script (registry_only, hash) none s (d, o) =
      answer-Recorded script registry_only hash none e.audit_fault _ (rw o refl) d

  store-Recorded :
      (script : Bool) (r : Attempt Choice × Tables)
      → Ends Chosen Anything r
      → Ends (Recorded script) Anything (store_merge e req script r)
  unfolding store_merge
  store-Recorded script (raised fault, s) h = tt
  store-Recorded script (success c, s) h = record-Recorded script c e.insert_override_fault s h

  abbrev pub is_script_patch : Bool
  is_script_patch = patch_introduces_script (e.stringify req.patch) req.patch

  -- A success passed the gate.
  abbrev pub Accepted : MergeResult → Tables → Type 0
  Accepted r s =
      ((is_script_patch && not (has_exact_role req.role admin)) ≡ false)
      × Recorded is_script_patch r s

  Ends-with :
      (r : Attempt MergeResult × Tables)
      → (is_script_patch && not (has_exact_role req.role admin)) ≡ false
      → Ends (Recorded is_script_patch) Anything r
      → Ends Accepted Anything r
  Ends-with (success a, s) g h = (g, h)
  Ends-with (raised fault, s) g h = tt

  within-Accepted :
      (inside : Option Text)
      → ends_with req.path (codes ".tscn") ≡ true
      → Ends Accepted Anything (merge_within e req root inside t)
  unfolding merge_within
  within-Accepted none tscn = tt
  within-Accepted (some inside) tscn =
      elim (Bool-cases (is_script_patch && not (has_exact_role req.role admin))) [
        | inl b ↦ rw b tt
        | inr b ↦
            rw b
              (Ends-with _ b (store-Recorded _ _ (choose-Chosen (resolve_merge_mode e) refl tscn)))
      ]

  apply-Accepted :
      ends_with req.path (codes ".tscn") ≡ true → Ends Accepted Anything (apply_merge e req root t)
  unfolding apply_merge
  apply-Accepted tscn = elim (Bool-cases (is_safe_logical_asset_path req.path)) [
    | inl b ↦ rw b (within-Accepted (assert_within_base e.process.cwd root req.path) tscn)
    | inr b ↦ rw b tt
  ]

  Ends-success :
      {r : Attempt MergeResult × Tables} (a : MergeResult) (s : Tables)
      → r ≡ (success a, s)
      → Ends Accepted Anything r
      → Accepted a s
  Ends-success a s h k = rw h at k

  -- A request for a scene that succeeds is never lost. Its override is recorded under the mode and
  -- the hash of the answer, and by that mode either the patched scene is wholly on disk with its
  -- hash, or the scene is as it was and a pending entry of the outbox names the override, or files
  -- are switched off and nothing but the record changed. The answer says if the patch has a
  -- script, and then the caller is an admin.
  pub apply_merge_delivers :
      (r : MergeResult) (s : Tables)
      → ends_with req.path (codes ".tscn") ≡ true
      → apply_merge e req root t ≡ (success r, s)
      → Accepted r s
  apply_merge_delivers r s tscn h = Ends-success r s h (apply-Accepted tscn)
