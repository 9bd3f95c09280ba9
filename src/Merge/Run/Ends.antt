-- ===== src/Merge/Run/Ends.antt =====
-- Rules for the methods of the worker: what holds where a chain of calls ends, by a value or an
-- exception.
use vmcp.Base.{
  Option-cases, none, some, List, [], ◌∷◌, Text, text_eq, ◌≡◌, ap, Bool-cases, inl, inr,
}
use vmcp.Merge.Files.{Fault}
use vmcp.Merge.Run.{
  WorkerEnv, Tables, OutboxEntry, Call, Run, Attempt, success, raised, handle, call, bind_attempt,
  update_entry, find_entry,
}

-- Where an attempt ends: with a value, or with an exception.
abbrev pub Ends :
    {A : Type 0} → (A → Tables → Type 0) → (Tables → Type 0) → Attempt A × Tables → Type 0
Ends Q R (success a, t) = Q a t
Ends Q R (raised fault, t) = R t

module _ {A B : Type 0} (P : A → Tables → Type 0) (Q : B → Tables → Type 0) (R : Tables → Type 0)
    (e : WorkerEnv) (f : A → Run B) (next : (a : A) (t : Tables) → P a t → Ends Q R (f a e t)) where
  pub Ends-bind : (r : Attempt A × Tables) → Ends P R r → Ends Q R (bind_attempt f r.0 e r.1)
  Ends-bind (success a, t) h = next a t h
  Ends-bind (raised fault, t) h = h

module _ {A : Type 0} (Q : A → Tables → Type 0) (R S : Tables → Type 0) (e : WorkerEnv)
    (h : Fault → Run A) (caught : (fault : Fault) (t : Tables) → R t → Ends Q S (h fault e t)) where
  pub Ends-handle : (r : Attempt A × Tables) → Ends Q R r → Ends Q S (handle h r.0 e r.1)
  Ends-handle (success a, t) q = q
  Ends-handle (raised fault, t) r = caught fault t r

pub Ends-call :
    (Q : Unit {0} → Tables → Type 0) (R : Tables → Type 0) (c : Call) (f : Tables → Tables)
    (e : WorkerEnv) (t : Tables)
    → Q tt (f t)
    → R t
    → Ends Q R (call c f e t)
Ends-call Q R c f e t q r = elim (Option-cases (e.fails c)) [
  | inl fine ↦ rw fine q
  | inr (fault, thrown) ↦ rw thrown r
]

-- The entry of a row in the table, with a property.
abbrev pub Holds : Text → (OutboxEntry → Type 0) → Tables → Type 0
Holds id P t = (r : OutboxEntry) × (find_entry id t.outbox ≡ some r) × P r

pub find-update_entry :
    (id : Text) (f : OutboxEntry → OutboxEntry) (rows : List OutboxEntry) (r : OutboxEntry)
    → ((s : OutboxEntry) → (f s).id ≡ s.id)
    → find_entry id rows ≡ some r
    → find_entry id (update_entry id f rows) ≡ some (f r)
unfolding find_entry update_entry
find-update_entry id f [] r keep h = cc
find-update_entry id f (s ∷ rows) r keep h =
    let same : text_eq (f s).id id ≡ text_eq s.id id = ap (λ i. text_eq i id) (keep s) in
    elim (Bool-cases (text_eq s.id id)) [
      | inl b ↦
          let e : some s ≡ some r = rw b at h in
          rw b (rw same (rw b (ap (λ o. elim o [ none ↦ none | some x ↦ some (f x) ]) e)))
      | inr b ↦ rw b (rw b (find-update_entry id f rows r keep (rw b at h)))
    ]
