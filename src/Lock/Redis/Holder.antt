-- ===== src/Lock/Redis/Holder.antt =====
-- What the scripts of packages/orchestrator/src/lua do to the holder of a lock and to its counter.
use vmcp.Base.{
  ℕ, suc, ◌+◌, ◌≤◌, ◌<◌, ◌≡◌, refl, ◌↔◌, ◌≢◌, ◌⊎◌, true, Option, none, some, Text, text_eq,
  text_eq_iff, text_eq_refl, arith, lt→ltb, is_some, if◌then◌else◌, Option-cases, Bool-cases, inl,
  inr,
}
use vmcp.Lock.Redis.{
  Entry, Redis, Reply, no_instance_id, locked, granted, held, get, next_token, script_instance,
  acquire_lock, release_lock, bump_fencing, acquire_with, acquire_as, reenter, entry_ex, expire,
}

-- Who holds the lock at an instant.
abbrev pub holder : ℕ → Text → Redis → Option Text
holder now key r = get now (r.owners key)

-- The lock as the scripts promise it: it goes to who asks when it is free, and stays with its
-- holder otherwise.
abbrev pub spec_acquire : Option Text → Text → Option Text
spec_acquire none owner = some owner
spec_acquire (some current) owner = some current

abbrev pub spec_release : Option Text → Text → Option Text
spec_release none owner = none
spec_release (some current) owner = if text_eq current owner then none else some current

abbrev pub at {ℓ} : {A : Type ℓ} → Text → Text → A → A → A
at key j hit miss = if text_eq j key then hit else miss

live_entry : (now ttl : ℕ) (v : Text) → 0 < ttl → get now (entry_ex now ttl v) ≡ some v
live_entry now ttl v h = rw (lt→ltb now (now + ttl) (omega arith))

live-expire : (now ttl : ℕ) (e : Option Entry) → 0 < ttl → get now (expire now ttl e) ≡ get now e
live-expire now ttl none h = refl
live-expire now ttl (some e) h = ground (arith, lt→ltb now (now + ttl))

holder-reenter :
    (now ttl : ℕ) (i key j : Text) (t : Option Text) (r : Redis)
    → 0 < ttl
    → holder now j (reenter now ttl i key t r).1 ≡ holder now j r
unfolding reenter
holder-reenter now ttl i key j none r pos =
    ground (arith, live-expire now ttl (r.owners key) pos, text_eq_iff j key)
holder-reenter now ttl i key j (some t) r pos =
    ground (arith, live-expire now ttl (r.owners key) pos, text_eq_iff j key)

holder-acquire_with :
    (now ttl : ℕ) (i key owner j : Text) (h : Option Text) (r : Redis)
    → 0 < ttl
    → holder now key r ≡ h
    → holder now j (acquire_with now ttl i key owner h r).1
      ≡ at key j (spec_acquire h owner) (holder now j r)
unfolding acquire_with
holder-acquire_with now ttl i key owner j none r pos e =
    ground (arith, live_entry now ttl owner pos)
holder-acquire_with now ttl i key owner j (some c) r pos e =
    ground (arith, text_eq_iff j key, holder-reenter now ttl i key j (get now (r.tokens key)) r pos)

-- The holder of every lock after `acquire_lock.lua`, with a positive time to live: the lock that is
-- asked for goes to the asker if it was free and keeps its holder if not, and no other lock
-- changes hands. Without an instance id nothing changes.
pub holder-acquire_lock :
    (now ttl : ℕ) (key owner j : Text) (r : Redis)
    → 0 < ttl
    → holder now j (acquire_lock now ttl key owner r).1 ≡ (
        if is_some (script_instance r)
        then at key j (spec_acquire (holder now key r) owner) (holder now j r)
        else holder now j r)
unfolding acquire_lock
holder-acquire_lock now ttl key owner j r pos = elim (Option-cases (script_instance r)) [
  | inl e ↦ rw (e, acquire_as) refl
  | inr (i, e) ↦ rw (e, acquire_as) (holder-acquire_with now ttl i key owner j _ r pos refl)
]

-- `release_lock.lua` frees the lock for its holder and for nobody else, and reports exactly that.
pub holder-release_lock :
    (now : ℕ) (key owner j : Text) (r : Redis)
    → (holder now j (release_lock now key owner r).1
        ≡ at key j (spec_release (holder now key r) owner) (holder now j r))
      × (((release_lock now key owner r).0 ≡ true) ↔ (holder now key r ≡ some owner))
unfolding release_lock
holder-release_lock now key owner j r = elim (Option-cases (get now (r.owners key))) [
  | inl e ↦ (ground (arith, text_eq_iff j key), (λ h. ground arith, λ h. ground arith))
  | inr (c, e) ↦ (
    ground (arith, text_eq_iff j key, text_eq_iff c owner),
    (λ h. ground (arith, text_eq_iff c owner), λ h. ground (arith, text_eq_iff c owner)),
  )
]

-- `bump_fencing.lua` frees the lock, whoever holds it, and no other.
pub holder-bump_fencing :
    (now : ℕ) (key j i : Text) (r : Redis)
    → r.instance_id ≡ some i
    → holder now j (bump_fencing key r).1 ≡ at key j none (holder now j r)
unfolding bump_fencing
holder-bump_fencing now key j i r e = ground arith

-- The token that a script replies with, by the counter of the lock before and after: a new token
-- takes the next number, a token that is held again was alive, and a refusal changes nothing.
abbrev pub TokenOf : ℕ → Text → Text → Redis → Redis → Reply → Type 0
TokenOf now i key r r' (granted t) = (t ≡ next_token i key r) × (r'.seq key ≡ suc (r.seq key))
TokenOf now i key r r' (held t) =
    ((get now (r.tokens key) ≡ some t) × (r'.seq key ≡ r.seq key))
    ⊎ ((t ≡ next_token i key r) × (r'.seq key ≡ suc (r.seq key)))
TokenOf now i key r r' locked = r' ≡ r
TokenOf now i key r r' no_instance_id = r' ≡ r

token-reenter :
    (now ttl : ℕ) (i key : Text) (t : Option Text) (r : Redis)
    → get now (r.tokens key) ≡ t
    → let (reply, r') = reenter now ttl i key t r in TokenOf now i key r r' reply
unfolding reenter
token-reenter now ttl i key none r e = inr (refl, ground (arith, text_eq_refl key))
token-reenter now ttl i key (some t) r e = inl (e, refl)

token-acquire_with :
    (now ttl : ℕ) (i key owner : Text) (h : Option Text) (r : Redis)
    → let (reply, r') = acquire_with now ttl i key owner h r in TokenOf now i key r r' reply
unfolding acquire_with
token-acquire_with now ttl i key owner none r = (refl, ground (arith, text_eq_refl key))
token-acquire_with now ttl i key owner (some c) r = elim (Bool-cases (text_eq c owner)) [
  | inl e ↦ rw e (token-reenter now ttl i key _ r refl)
  | inr e ↦ rw e refl
]

-- Every reply of `acquire_lock.lua` where an instance id is set: the token has the next number of
-- the lock's counter or is the one still alive, and a refusal leaves the store as it was.
pub token-acquire_lock :
    (now ttl : ℕ) (key owner i : Text) (r : Redis)
    → script_instance r ≡ some i
    → let (reply, r') = acquire_lock now ttl key owner r in TokenOf now i key r r' reply
unfolding acquire_lock
token-acquire_lock now ttl key owner i r e =
    rw (e, acquire_as) (token-acquire_with now ttl i key owner _ r)

seq-acquire_with :
    (now ttl : ℕ) (i key owner j : Text) (h : Option Text) (r : Redis)
    → r.seq j ≤ (acquire_with now ttl i key owner h r).1.seq j
unfolding acquire_with
seq-acquire_with now ttl i key owner j none r = ground (arith, text_eq_iff j key)
seq-acquire_with now ttl i key owner j (some c) r = ground (arith, text_eq_iff j key)

-- No script lowers the counter of any lock.
pub seq_monotone :
    (now ttl : ℕ) (key owner j : Text) (r : Redis)
    → (r.seq j ≤ (acquire_lock now ttl key owner r).1.seq j)
      × (r.seq j ≤ (bump_fencing key r).1.seq j)
      × (r.seq j ≡ (release_lock now key owner r).1.seq j)
unfolding acquire_lock bump_fencing release_lock
seq_monotone now ttl key owner j r = (
  elim (Option-cases (script_instance r)) [
    | inl e ↦ rw (e, acquire_as) (omega arith)
    | inr (i, e) ↦ rw (e, acquire_as) (seq-acquire_with now ttl i key owner j _ r)
  ],
  ground (arith, text_eq_iff j key),
  ground arith,
)

abbrev pub Holds : Reply → Type 0
Holds (granted t) = Unit
Holds (held t) = Unit
Holds _ = ⊥

later-reenter :
    (now later ttl : ℕ) (i key c : Text) (t : Option Text) (r : Redis)
    → later < now + ttl
    → holder now key r ≡ some c
    → holder later key (reenter now ttl i key t r).1 ≡ some c
unfolding reenter
later-reenter now later ttl i key c none r soon e =
    ground (arith, text_eq_refl key, lt→ltb later (now + ttl) soon)
later-reenter now later ttl i key c (some t) r soon e =
    ground (arith, text_eq_refl key, lt→ltb later (now + ttl) soon)

later-acquire_with :
    (now later ttl : ℕ) (i key owner : Text) (h : Option Text) (r : Redis)
    → later < now + ttl
    → holder now key r ≡ h
    → Holds (acquire_with now ttl i key owner h r).0
    → holder later key (acquire_with now ttl i key owner h r).1 ≡ some owner
unfolding acquire_with
later-acquire_with now later ttl i key owner none r soon e p =
    ground (arith, text_eq_refl key, lt→ltb later (now + ttl) soon)
later-acquire_with now later ttl i key owner (some c) r soon e p = ground (
  arith,
  text_eq_iff c owner,
  later-reenter now later ttl i key c (get now (r.tokens key)) r soon e,
)

-- A lock that `acquire_lock.lua` gives, or keeps, is held by the asker until its time to live ends.
pub holder_until :
    (now later ttl : ℕ) (key owner : Text) (r : Redis)
    → later < now + ttl
    → Holds (acquire_lock now ttl key owner r).0
    → holder later key (acquire_lock now ttl key owner r).1 ≡ some owner
unfolding acquire_lock
holder_until now later ttl key owner r soon = elim (Option-cases (script_instance r)) [
  | inl e ↦ rw (e, acquire_as) (λ p. absurd p)
  | inr (i, e) ↦ rw (e, acquire_as) (later-acquire_with now later ttl i key owner _ r soon refl)
]

-- Another owner is refused as long as the lock is held, and the store stays as it was.
pub acquire_lock-refused :
    (now ttl : ℕ) (key owner c i : Text) (r : Redis)
    → script_instance r ≡ some i
    → holder now key r ≡ some c
    → c ≢ owner
    → acquire_lock now ttl key owner r ≡ (locked, r)
unfolding acquire_lock acquire_with
acquire_lock-refused now ttl key owner c i r e h ne =
    rw (e, acquire_as) (ground (arith, text_eq_iff c owner))

-- The scripts leave the instance ids alone.
pub instance-acquire_lock :
    (now ttl : ℕ) (key owner : Text) (r : Redis)
    → ((acquire_lock now ttl key owner r).1.instance_id ≡ r.instance_id)
      × ((acquire_lock now ttl key owner r).1.bootstrap_id ≡ r.bootstrap_id)
unfolding acquire_lock acquire_with
instance-acquire_lock now ttl key owner r = (ground arith, ground arith)

-- A lock is given or kept only where an instance id is known.
pub script_instance_of_Holds :
    (now ttl : ℕ) (key owner : Text) (r : Redis)
    → Holds (acquire_lock now ttl key owner r).0
    → is_some (script_instance r) ≡ true
unfolding acquire_lock
script_instance_of_Holds now ttl key owner r = elim (Option-cases (script_instance r)) [
  | inl e ↦ rw (e, acquire_as) (λ p. absurd p)
  | inr (i, e) ↦ rw e (λ _. refl)
]

-- A free lock is granted with the next token.
pub acquire_lock-free :
    (now ttl : ℕ) (key owner i : Text) (r : Redis)
    → script_instance r ≡ some i
    → holder now key r ≡ none
    → (acquire_lock now ttl key owner r).0 ≡ granted (next_token i key r)
unfolding acquire_lock acquire_with
acquire_lock-free now ttl key owner i r e h = rw (e, acquire_as) (ground arith)
