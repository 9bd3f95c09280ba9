-- ===== src/Lock/Redis.antt =====
-- packages/orchestrator/src/lua: the scripts that Redis runs, each as one atomic step.
-- A key of the store is held under its prefix: `owners` at the lock key itself, `tokens` at
-- `lock_fencing_token:` and `seq` at `lock_fencing_seq:` before it. Times are in seconds.
pub mod Holder
use vmcp.Base.{
  ℕ, suc, ◌+◌, Bool, true, false, Option, none, some, Text, text_eq, ltb, if◌then◌else◌,
}
use vmcp.Fencing.{format_fencing_token}

-- A value with the instant at which it expires, if it does.
pub record Entry : Type 0 where
  pub value : Text
  pub expires : Option ℕ

pub record Redis : Type 0 where
  pub owners : Text → Option Entry
  pub tokens : Text → Option Entry
  pub seq : Text → ℕ
  pub instance_id : Option Text
  pub bootstrap_id : Option Text

abbrev pub update {ℓ} : {A : Type ℓ} → Text → A → (Text → A) → Text → A
update k v m j = if text_eq j k then v else m j

abbrev pub is_live : ℕ → Option ℕ → Bool
is_live now none = true
is_live now (some t) = ltb now t

-- `GET`: an expired value is gone.
abbrev pub get : ℕ → Option Entry → Option Text
get now none = none
get now (some e) = if is_live now e.expires then some e.value else none

-- `SET key value EX ttl`
abbrev pub entry_ex : ℕ → ℕ → Text → Option Entry
entry_ex now ttl v = some (record { value = v; expires = some (now + ttl) })

-- `EXPIRE key ttl`, which does nothing to a missing key.
abbrev pub expire : ℕ → ℕ → Option Entry → Option Entry
expire now ttl none = none
expire now ttl (some e) =
    if is_live now e.expires then some (record e { expires = some (now + ttl) }) else none

-- The replies `{-1, message}`, `{0, '0'}`, `{1, token}` and `{2, token}`.
pub data Reply : Type 0 where
  no_instance_id : Reply
  locked : Reply
  granted : Text → Reply
  held : Text → Reply

-- `INCR` of the counter of a lock, and the token that it makes.
abbrev pub next_token : Text → Text → Redis → Text
next_token instance_id key r = format_fencing_token instance_id (suc (r.seq key))

abbrev pub bump_seq : Text → Redis → Redis
bump_seq key r = record r { seq = update key (suc (r.seq key)) r.seq }

grant : ℕ → ℕ → Text → Text → Text → Redis → Reply × Redis
grant now ttl instance_id key owner r =
    let token = next_token instance_id key r in
    (
      granted token,
      record (bump_seq key r) {
        owners = update key (entry_ex now ttl owner) r.owners;
        tokens = update key (entry_ex now ttl token) r.tokens;
      },
    )

-- `EXPIRE` of the lock and of its token.
extend : ℕ → ℕ → Text → Redis → Redis
extend now ttl key r = record r {
  owners = update key (expire now ttl (r.owners key)) r.owners;
  tokens = update key (expire now ttl (r.tokens key)) r.tokens;
}

-- The owner asks again: its token, or a new one where that expired.
reenter : ℕ → ℕ → Text → Text → Option Text → Redis → Reply × Redis
unfolding extend
reenter now ttl instance_id key (some token) r = (held token, extend now ttl key r)
reenter now ttl instance_id key none r =
    let token = next_token instance_id key r in
    (
      held token,
      extend now ttl key
          (record (bump_seq key r) { tokens = update key (entry_ex now ttl token) r.tokens }),
    )

acquire_with : ℕ → ℕ → Text → Text → Text → Option Text → Redis → Reply × Redis
unfolding grant reenter
acquire_with now ttl instance_id key owner none r = grant now ttl instance_id key owner r
acquire_with now ttl instance_id key owner (some current) r =
    if text_eq current owner
    then reenter now ttl instance_id key (get now (r.tokens key)) r
    else (locked, r)

-- The instance id, or the one that bootstraps the first master.
abbrev pub script_instance : Redis → Option Text
script_instance r = elim r.instance_id [ some i ↦ some i | none ↦ r.bootstrap_id ]

acquire_as : ℕ → ℕ → Text → Text → Option Text → Redis → Reply × Redis
unfolding acquire_with
acquire_as now ttl key owner none r = (no_instance_id, r)
acquire_as now ttl key owner (some instance_id) r =
    acquire_with now ttl instance_id key owner (get now (r.owners key)) r

-- acquire_lock.lua
unfoldable pub acquire_lock : ℕ → ℕ → Text → Text → Redis → Reply × Redis
unfolding acquire_as
acquire_lock now ttl key owner r = acquire_as now ttl key owner (script_instance r) r

abbrev owned_by : Option Text → Text → Bool
owned_by none owner = false
owned_by (some current) owner = text_eq current owner

-- release_lock.lua
unfoldable pub release_lock : ℕ → Text → Text → Redis → Bool × Redis
release_lock now key owner r =
    if owned_by (get now (r.owners key)) owner
    then (true, record r { owners = update key none r.owners; tokens = update key none r.tokens })
    else (false, r)

bump_as : Text → Option Text → Redis → Reply × Redis
bump_as key none r = (no_instance_id, r)
bump_as key (some instance_id) r =
    let token = next_token instance_id key r in
    (
      granted token,
      record (bump_seq key r) {
        owners = update key none r.owners;
        tokens = update key (some (record { value = token; expires = none })) r.tokens;
      },
    )

-- bump_fencing.lua
unfoldable pub bump_fencing : Text → Redis → Reply × Redis
unfolding bump_as
bump_fencing key r = bump_as key r.instance_id r
