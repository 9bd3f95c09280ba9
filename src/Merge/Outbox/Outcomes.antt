-- ===== src/Merge/Outbox/Outcomes.antt =====
-- workers/merge-outbox-worker.ts: how processMergeOutboxRow ends.
use vmcp.Base.{
  Bool, true, false, not, ◌&&◌, Option, none, some, [], ◌++◌, Text, codes, text_eq, ends_with, ◌≡◌,
  refl, arith, Bool-cases, inl, inr,
}
use vmcp.Errors.{AlertSeverity, medium, high}
use vmcp.Scene.Attrs.{Attrs}
use vmcp.Merge.Files.{Fault, Applied, merged, refused}
use vmcp.Merge.Envelope.{PendingRow, build_envelope, build_envelope-same, first_leak}
use vmcp.Merge.Run.{
  WorkerEnv, Tables, OutboxEntry, pending, applied, failed, Report, Call, mark_failed_call,
  alert_call, audit_failed_call, audit_dispatched_call, dispatch_call, presign_call, put_call,
  audited, stored, dispatched_with, Attempt, success, raised, ◌>>◌, succeed, call, report,
  find_entry,
}
use vmcp.Merge.Run.Ends.{Ends, Holds, Ends-bind, Ends-handle, Ends-call, find-update_entry}
use vmcp.Merge.Outbox.{
  RowOutcome, was_applied, was_failed, was_dispatched, was_skipped, code_e014, root_of, process_row,
  process_at, local_body, local_failed, remote_body, remote_failed, fail_row, mark_failed,
  mark_applied, mark_dispatched, send_alert, apply_local, settle, record_dispatch, dispatch_inputs,
  jwe_of, seal_and_send, presign_and_send, patch_key, remote_root, as_patch, send, check_inputs,
  stamp, take, dispatch_detail, is_remote_merge_target,
}

-- What an outcome says of the entry, from the entry before.
abbrev pub Fits : PendingRow → OutboxEntry → RowOutcome → OutboxEntry → Type 0
Fits row before was_applied r = r.status ≡ applied
Fits row before was_failed r = r.status ≡ failed
Fits row before was_dispatched r =
    (r.status ≡ pending) × (r.detail ≡ some (take 2000 (dispatch_detail row)))
Fits row before was_skipped r = ⊥

module _ (row : PendingRow) (before : OutboxEntry) (e : WorkerEnv) where
  abbrev Before : Tables → Type 0
  Before t = find_entry row.id t.outbox ≡ some before

  abbrev There : Tables → Type 0
  There t = Holds row.id (λ r. Unit {0}) t

  abbrev Settled : RowOutcome → Tables → Type 0
  Settled out t = Holds row.id (Fits row before out) t

  module _
      (contained : (e.fails mark_failed_call ≡ none)
        × (e.fails alert_call ≡ none)
        × (e.fails audit_failed_call ≡ none)) where
    fail_row-Settled :
        (severity : AlertSeverity) (code detail : Text) (t : Tables)
        → There t
        → Ends Settled (λ t. ⊥) (fail_row row severity code detail e t)
    unfolding fail_row mark_failed send_alert
    fail_row-Settled severity code detail t (r, found, h) =
        rw contained.0
          (rw contained.1 (_, find-update_entry row.id _ t.outbox r (λ s. refl) found, refl))

    local_failed-Settled :
        (fault : Fault) (t : Tables) → There t → Ends Settled (λ t. ⊥) (local_failed row fault e t)
    unfolding local_failed mark_failed send_alert
    local_failed-Settled fault t (r, found, h) = rw contained.0 (
        rw contained.1
          (rw contained.2 (_, find-update_entry row.id _ t.outbox r (λ s. refl) found, refl)))

    remote_failed-Settled :
        (fault : Fault) (t : Tables) → There t → Ends Settled (λ t. ⊥) (remote_failed row fault e t)
    unfolding remote_failed
    remote_failed-Settled fault t h =
        fail_row-Settled high (codes "E014") (codes "dispatch failed: " ++ fault.message) t h

  -- A call that leaves the outbox alone keeps the entry.
  call-Before :
      (c : Call) (f : Tables → Tables) (t : Tables)
      → (f t).outbox ≡ t.outbox
      → Before t
      → Ends (λ u s. Before s) There (call c f e t)
  call-Before c f t same h = Ends-call (λ u s. Before s) There c f e t (rw same h) (before, h, tt)

  settle-Before :
      (r : Applied) (t : Tables) → Before t → Ends (λ x s. Before s) There (settle r e t)
  unfolding settle
  settle-Before (merged result) t h = h
  settle-Before (refused fault) t h = (before, h, tt)

  apply_local-Before :
      (root : Text) (t : Tables)
      → Before t
      → Ends (λ x s. Before s) There (apply_local root row e t)
  unfolding apply_local
  apply_local-Before root t h = settle-Before _ _ h

  mark_applied-Settled :
      (hash : Text) (t : Tables)
      → Before t
      → Ends (λ u s. Settled was_applied s) There (mark_applied row hash e t)
  unfolding mark_applied
  mark_applied-Settled hash t h =
      let fits = find-update_entry row.id _ t.outbox before (λ s. refl) h in
      Ends-bind (λ u s. Settled was_applied s) (λ u s. Settled was_applied s) There e _
        (λ u s k. Ends-call (λ u s. Settled was_applied s) There _ _ e s k (k.0, k.1, tt)) _
        (Ends-call (λ u s. Settled was_applied s) There _ _ e t (_, fits, refl) (before, h, tt))

  report-Settled :
      (out : RowOutcome) (c : Call) (r : Report) (t : Tables)
      → Settled out t
      → Ends Settled There ((call c (report r) >> succeed out) e t)
  report-Settled out c r t h =
      Ends-bind (λ u s. Settled out s) Settled There e (λ u. succeed out) (λ u s k. k)
        (call c (report r) e t)
        (Ends-call (λ u s. Settled out s) There c (report r) e t h (h.0, h.1, tt))

  local_body-Settled :
      (root : Text) (t : Tables) → Before t → Ends Settled There (local_body root row e t)
  unfolding local_body
  local_body-Settled root t h =
      Ends-bind (λ x s. Before s) Settled There e _
        (λ result s k.
          Ends-bind (λ u s. Settled was_applied s) Settled There e _
            (λ u s k. report-Settled was_applied _ _ s k) (mark_applied row result.merged_hash e s)
            (mark_applied-Settled result.merged_hash s k))
        (apply_local root row e t) (apply_local-Before root t h)

  Ends-same :
      {A : Type 0} (r : Attempt A × Tables) (t : Tables)
      → r.1 ≡ t
      → Before t
      → Ends (λ x s. Before s) There r
  Ends-same (success a, s) t e h = rw e h
  Ends-same (raised fault, s) t e h = (before, rw e h, tt)

  check_inputs-same : (jwe : Text) (o : Option Text) (t : Tables) → (check_inputs jwe o e t).1 ≡ t
  unfolding check_inputs
  check_inputs-same jwe none t = elim (Bool-cases (text_eq jwe [])) [
    | inl b ↦ rw b refl
    | inr b ↦ rw b refl
  ]
  check_inputs-same jwe (some k) t = elim (Bool-cases (text_eq jwe [])) [
    | inl b ↦ rw b refl
    | inr b ↦ rw b refl
  ]

  stamp_pending :
      (b : Bool) (d : Text) (r : OutboxEntry)
      → r.status ≡ pending
      → ((stamp b d r).status ≡ pending) × ((stamp b d r).detail ≡ some d)
  unfolding stamp
  stamp_pending true d r h = (h, refl)
  stamp_pending false d r h = (ground (arith, h), ground (arith, h))

  stamp-id : (b : Bool) (d : Text) (r : OutboxEntry) → (stamp b d r).id ≡ r.id
  unfolding stamp
  stamp-id b d r = ground arith

  module _ (open_row : before.status ≡ pending) where
    stamp-Fits :
        (b : Bool)
        → Fits row before was_dispatched (stamp b (take 2000 (dispatch_detail row)) before)
    stamp-Fits b = stamp_pending b (take 2000 (dispatch_detail row)) before open_row

    mark_dispatched-Settled :
        (t : Tables)
        → Before t
        → Ends
            (λ u s. Settled was_dispatched s)
            There
            (mark_dispatched row.id (dispatch_detail row) e t)
    unfolding mark_dispatched
    mark_dispatched-Settled t h =
        Ends-call (λ u s. Settled was_dispatched s) There _ _ e t
          (
            _,
            find-update_entry row.id (stamp e.redispatch (take 2000 (dispatch_detail row))) t.outbox
                before (stamp-id e.redispatch (take 2000 (dispatch_detail row))) h,
            stamp-Fits e.redispatch,
          )
          (before, h, tt)

    record_dispatch-Settled : (t : Tables) → Before t → Ends Settled There (record_dispatch row e t)
    unfolding record_dispatch
    record_dispatch-Settled t h =
        Ends-bind (λ u s. Settled was_dispatched s) Settled There e
          (λ u.
            call audit_dispatched_call (report (audited (codes "merge.outbox_dispatched") row.id))
            >> succeed was_dispatched)
          (λ u s k.
            report-Settled was_dispatched audit_dispatched_call
              (audited (codes "merge.outbox_dispatched") row.id) s k)
          (mark_dispatched row.id (dispatch_detail row) e t) (mark_dispatched-Settled t h)

    dispatch_inputs-Settled :
        (inputs : Attrs) (t : Tables)
        → Before t
        → Ends Settled There (dispatch_inputs row inputs e t)
    unfolding dispatch_inputs
    dispatch_inputs-Settled inputs t h =
        Ends-bind (λ u s. Before s) Settled There e (λ u. record_dispatch row)
          (λ u s k. record_dispatch-Settled s k)
          (call dispatch_call (report (dispatched_with inputs)) e t)
          (call-Before dispatch_call (report (dispatched_with inputs)) t refl h)

    send-Settled :
        (inputs : Attrs) (t : Tables) → Before t → Ends Settled There (send row inputs e t)
    unfolding send
    send-Settled inputs t h =
        Ends-bind (λ u s. Before s) Settled There e (λ u. dispatch_inputs row inputs)
          (λ u s k. dispatch_inputs-Settled inputs s k)
          (check_inputs (jwe_of inputs) (first_leak inputs) e t)
          (Ends-same (check_inputs (jwe_of inputs) (first_leak inputs) e t) t
            (check_inputs-same (jwe_of inputs) (first_leak inputs) t) h)

    seal_and_send-Settled :
        (root : Text) (t : Tables) → Before t → Ends Settled There (seal_and_send root row e t)
    unfolding seal_and_send
    seal_and_send-Settled root t h =
        let key = patch_key row in
        let built =
          build_envelope row (remote_root root row) (e.presigned (patch_key row)) (patch_key row) e
            t in
        Ends-bind (λ x s. Before s) Settled There e (λ envelope. send row envelope.workflow_inputs)
          (λ x s k. send-Settled x.workflow_inputs s k) built
          (Ends-same built t
            (build_envelope-same row (remote_root root row) (e.presigned (patch_key row))
              (patch_key row) e t)
            h)

    presign_and_send-Settled :
        (root : Text) (t : Tables) → Before t → Ends Settled There (presign_and_send root row e t)
    unfolding presign_and_send
    presign_and_send-Settled root t h =
        Ends-bind (λ u s. Before s) Settled There e (λ u. seal_and_send root row)
          (λ u s k. seal_and_send-Settled root s k) (call presign_call (λ s. s) e t)
          (call-Before presign_call (λ s. s) t refl h)

    remote_body-Settled :
        (root : Text) (t : Tables) → Before t → Ends Settled There (remote_body root row e t)
    unfolding remote_body
    remote_body-Settled root t h =
        let keep = report (stored (patch_key row) (as_patch e row.patch)) in
        Ends-bind (λ u s. Before s) Settled There e (λ u. presign_and_send root row)
          (λ u s k. presign_and_send-Settled root s k)
          (call put_call (report (stored (patch_key row) (as_patch e row.patch))) e t)
          (call-Before put_call (report (stored (patch_key row) (as_patch e row.patch))) t refl h)

    module _
        (contained : (e.fails mark_failed_call ≡ none)
          × (e.fails alert_call ≡ none)
          × (e.fails audit_failed_call ≡ none)) where
      process_at-Settled :
          (root : Text) (readable : Bool) (t : Tables)
          → Before t
          → Ends Settled (λ t. ⊥) (process_at root readable row e t)
      unfolding process_at
      process_at-Settled root true t h =
          Ends-handle Settled There (λ s. ⊥) e (local_failed row)
            (λ fault s k. local_failed-Settled contained fault s k) (local_body root row e t)
            (local_body-Settled root t h)
      process_at-Settled root false t h =
          elim (Bool-cases
            (not (is_remote_merge_target root row.metadata false) && text_eq root [])) [
              | inl b ↦ rw b (
                  fail_row-Settled contained medium code_e014
                    (codes "no project_root and no local tree — cannot apply merge") t
                    (before, h, tt))
              | inr b ↦ rw b (
                  Ends-handle Settled There (λ s. ⊥) e (remote_failed row)
                    (λ fault s k. remote_failed-Settled contained fault s k)
                    (remote_body root row e t) (remote_body-Settled root t h))
            ]

      process_row-Settled : (t : Tables) → Before t → Ends Settled (λ t. ⊥) (process_row row e t)
      unfolding process_row
      process_row-Settled t h = elim (Bool-cases (ends_with row.path (codes ".tscn"))) [
        | inl b ↦ rw b (process_at-Settled (root_of row) _ t h)
        | inr b ↦ rw b (
            fail_row-Settled contained medium code_e014
              (codes "unsupported path for structural merge: " ++ row.path) t (before, h, tt))
      ]

      process_row-cases :
          (r : Attempt RowOutcome × Tables)
          → Ends Settled (λ t. ⊥) r
          → (out : RowOutcome) × (r.0 ≡ success out)
            × (after : OutboxEntry) × (find_entry row.id r.1.outbox ≡ some after)
            × Fits row before out after
      process_row-cases (success out, t) (r, found, fits) = (out, refl, r, found, fits)
      process_row-cases (raised fault, t) h = absurd h

-- A pending row that is processed comes to an outcome, whichever of the other calls throw, as long
-- as a row can be marked as failed, and the alert and the audit of the failure can be written; the
-- row is then applied if it was applied, failed if it failed, and if it was dispatched it is still
-- pending with the dispatch as its detail.
pub process_row_settles :
    (row : PendingRow) (before : OutboxEntry) (e : WorkerEnv) (t : Tables)
    → before.status ≡ pending
    → find_entry row.id t.outbox ≡ some before
    → e.fails mark_failed_call ≡ none
    → e.fails alert_call ≡ none
    → e.fails audit_failed_call ≡ none
    → let after = process_row row e t in
      (out : RowOutcome) × (after.0 ≡ success out)
      × (r : OutboxEntry) × (find_entry row.id after.1.outbox ≡ some r)
      × Fits row before out r
process_row_settles row before e t h found f a u =
    process_row-cases row before e h (f, a, u) (process_row row e t)
      (process_row-Settled row before e h (f, a, u) t found)
