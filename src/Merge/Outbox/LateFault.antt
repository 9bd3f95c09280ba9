-- ===== src/Merge/Outbox/LateFault.antt =====
-- workers/merge-outbox-worker.ts: a fault behind the merge of a row.
use vmcp.Base.{true, false, none, some, [], codes, text_eq, ends_with, ◌≡◌, refl}
use vmcp.Merge.Files.{Fault, Disk, Applied, merged, ApplyTscnResult, apply_tscn}
use vmcp.Merge.Envelope.{PendingRow}
use vmcp.Merge.Run.{
  WorkerEnv, Tables, OutboxEntry, applied, failed, mark_failed_call, audit_applied_call,
  mark_applied_call, mark_override_call, alert_call, audit_failed_call, success, raised,
  update_entry, update_override, find_entry,
}
use vmcp.Merge.Outbox.{
  was_failed, root_of, process_row, process_at, local_body, local_failed, as_patch,
}
use vmcp.Merge.Run.Ends.{find-update_entry}

module _ (row : PendingRow) (before : OutboxEntry) (e : WorkerEnv) (t : Tables) where
  abbrev applying : Applied × Disk
  applying = apply_tscn e.process (root_of row) row.path (as_patch e row.patch) t.disk

  -- The tables behind the merge and its marks.
  abbrev after_merge : ApplyTscnResult → Tables
  after_merge result = record t {
    outbox =
        update_entry row.id
          (λ r. record r { status = applied; applied_at = some e.process.now; detail = none })
          t.outbox;
    overrides =
        update_override row.override_id
          (λ o. record o {
            merged_hash = some result.merged_hash;
            apply_mode = some (codes "outbox");
          })
          t.overrides;
    disk = applying.1;
  }

  local_body-late :
      (result : ApplyTscnResult) (fault : Fault)
      → applying.0 ≡ merged result
      → e.fails mark_applied_call ≡ none
      → e.fails mark_override_call ≡ none
      → e.fails audit_applied_call ≡ some fault
      → local_body (root_of row) row e t ≡ (raised fault, after_merge result)
  unfolding local_body
  local_body-late result fault hm a o late = rw hm (rw a (rw o (rw late refl)))

  process_row-local :
      ends_with row.path (codes ".tscn") ≡ true
      → text_eq (root_of row) [] ≡ false
      → t.disk.is_dir (root_of row) ≡ true
      → process_row row e t ≡ process_at (root_of row) true row e t
  unfolding process_row
  process_row-local he hn hd = rw he (rw hn (rw hd refl))

  local_failed-late :
      (fault : Fault) (s : Tables) (r : OutboxEntry)
      → find_entry row.id s.outbox ≡ some r
      → e.fails mark_failed_call ≡ none
      → e.fails alert_call ≡ none
      → e.fails audit_failed_call ≡ none
      → let after = local_failed row fault e s in
        (after.0 ≡ success was_failed)
        × (after.1.disk ≡ s.disk)
        × (q : OutboxEntry) × (find_entry row.id after.1.outbox ≡ some q)
        × (q.status ≡ failed)
  unfolding local_failed
  local_failed-late fault s r found f a u =
      rw f
        (rw a (rw u (refl, refl, _, find-update_entry row.id _ s.outbox r (λ x. refl) found, refl)))

-- If only the audit of a merge throws, the scene is merged and the row is marked as failed.
pub late_audit_fails_row :
    (row : PendingRow) (before : OutboxEntry) (e : WorkerEnv) (t : Tables)
    (result : ApplyTscnResult) (fault : Fault)
    → find_entry row.id t.outbox ≡ some before
    → ends_with row.path (codes ".tscn") ≡ true
    → text_eq (root_of row) [] ≡ false
    → t.disk.is_dir (root_of row) ≡ true
    → let merging = apply_tscn e.process (root_of row) row.path (as_patch e row.patch) t.disk in
      let after = process_row row e t in
      merging.0 ≡ merged result
      → e.fails mark_applied_call ≡ none
      → e.fails mark_override_call ≡ none
      → e.fails audit_applied_call ≡ some fault
      → e.fails mark_failed_call ≡ none
      → e.fails alert_call ≡ none
      → e.fails audit_failed_call ≡ none
      → (after.0 ≡ success was_failed)
        × (after.1.disk ≡ merging.1)
        × (r : OutboxEntry) × (find_entry row.id after.1.outbox ≡ some r)
        × (r.status ≡ failed)
unfolding process_at
late_audit_fails_row row before e t result fault found he hn hd hm a o late f al au =
    let marked =
      find-update_entry row.id
        (λ r. record r { status = applied; applied_at = some e.process.now; detail = none })
        t.outbox before (λ r. refl) found in
    rw (process_row-local row before e t he hn hd) (
      rw (local_body-late row before e t result fault hm a o late) (
        local_failed-late row before e t fault (after_merge row before e t result) _ marked f al
          au))
