-- ===== src/RateLimit.antt =====
-- packages/orchestrator/src/lua/rate_limit.lua and middleware/rate-limit.ts. Times are in
-- milliseconds; Redis and the caller go by one clock.
pub mod Sliding
pub mod History
pub mod Hooks
use vmcp.Base.{
  ℕ, ◌+◌, Bool, true, false, ◌&&◌, ◌||◌, Option, none, some, List, [], ◌∷◌, ◌++◌, Text, codes,
  text_eq, ltb, leb, length, starts_with, get_or, if◌then◌else◌,
}

-- A member of a sorted set with its score.
pub record Hit : Type 0 where
  pub member : Text
  pub score : ℕ

-- The sorted set of a key, and the instant at which the key expires.
pub record Window : Type 0 where
  pub hits : List Hit
  pub expires : ℕ

abbrev pub empty : Window
empty = record { hits = []; expires = 0 }

-- An expired key is gone.
abbrev pub live_hits : ℕ → Window → List Hit
live_hits now w = if leb w.expires now then [] else w.hits

-- `ZREMRANGEBYSCORE key 0 (now - window)`
pub prune : ℕ → ℕ → List Hit → List Hit
prune window now [] = []
prune window now (h ∷ hs) =
    let rest = prune window now hs in if leb (h.score + window) now then rest else h ∷ rest

-- `ZADD`: a member that the set has takes the new score.
pub zadd : ℕ → Text → List Hit → List Hit
zadd now member [] = record { member = member; score = now } ∷ []
zadd now member (h ∷ hs) =
    if text_eq h.member member
    then record { member = member; score = now } ∷ hs
    else h ∷ zadd now member hs

-- The replies `{0, count}` and `{1, count + 1}`.
pub data Reply : Type 0 where
  limited : ℕ → Reply
  allowed : ℕ → Reply

abbrev pub is_allowed : Reply → Bool
is_allowed (limited n) = false
is_allowed (allowed n) = true

-- A key that the script writes to, or leaves to its old expiry.
count_hit : ℕ → ℕ → ℕ → Text → ℕ → List Hit → Reply × Window
count_hit window max now member expires hits =
    if leb max (length hits)
    then (limited (length hits), record { hits = hits; expires = expires })
    else (allowed (length hits + 1), record { hits = zadd now member hits; expires = now + window })

-- rate_limit.lua
unfoldable pub rate_limit : ℕ → ℕ → ℕ → Text → Window → Reply × Window
unfolding count_hit prune zadd
rate_limit window max now member w =
    count_hit window max now member w.expires (prune window now (live_hits now w))

-- What a hook reads of the request.
pub record Request : Type 0 where
  pub sent : Bool
  pub url : Text
  pub jti : Option Text
  pub ip : Option Text

-- The environment of one call: the time, the member's UUID, the settings, and which of the calls
-- of Redis throw.
pub record Env : Type 0 where
  pub now : ℕ
  pub member : Text
  pub production : Bool
  pub per_minute : ℕ
  pub burst : ℕ
  pub load_fails : Bool
  pub sustained_fails : Bool
  pub burst_fails : Bool

-- `rateLimitSha` of the process, and the windows in Redis.
pub record State : Type 0 where
  pub loaded : Bool
  pub windows : Text → Window

-- Answers of a hook: none, 429 or 503.
pub data Answer : Type 0 where
  pass : Answer
  too_many : Answer
  unavailable : Answer

abbrev pub is_exempt : Text → Bool
is_exempt url =
    starts_with url (codes "/health")
    || starts_with url (codes "/ready")
    || starts_with url (codes "/assets")

-- `request.principal?.jti ?? request.ip ?? 'anon'`
abbrev pub identity : Request → Text
identity r = get_or r.jti (get_or r.ip (codes "anon"))

abbrev pub rate_key : Request → Text
rate_key r = codes "pgos:ratelimit:" ++ identity r

abbrev pub burst_key : Text → Text
burst_key key = key ++ codes ":burst"

abbrev pub login_key : Request → Text
login_key r = codes "pgos:ratelimit:login:" ++ get_or r.ip (codes "anon")

abbrev pub set_window : Text → Window → (Text → Window) → Text → Window
set_window k w m j = if text_eq j k then w else m j

-- `evalsha`, which may throw before the script runs.
eval_sha : Bool → Env → ℕ → ℕ → Text → State → Option Reply × State
eval_sha true e window max key s = (none, s)
eval_sha false e window max key s =
    let (reply, w) = rate_limit window max e.now e.member (s.windows key) in
    (some reply, record s { windows = set_window key w s.windows })

-- The `catch` of both hooks: a failed check rejects in production only.
abbrev pub caught : Env → Answer
caught e = if e.production then unavailable else pass

-- Loading the script, once in the life of the process; false where it throws.
abbrev pub load : Env → State → Bool × State
load e s =
    if s.loaded
    then (true, s)
    else if e.load_fails
    then (false, s)
    else (true, record s { loaded = true })

judge : Reply → Reply → Answer
judge sustained burst = if is_allowed sustained && is_allowed burst then pass else too_many

check_burst : Env → Text → Option Reply × State → Answer × State
unfolding eval_sha judge
check_burst e key (none, s) = (caught e, s)
check_burst e key (some sustained, s) =
    let (burst, s') = eval_sha e.burst_fails e 10000 e.burst (burst_key key) s in
    (elim burst [ none ↦ caught e | some reply ↦ judge sustained reply ], s')

check_rate : Env → Text → Bool × State → Answer × State
unfolding check_burst
check_rate e key (false, s) = (caught e, s)
check_rate e key (true, s) =
    check_burst e key (eval_sha e.sustained_fails e 60000 e.per_minute key s)

-- rateLimitHook
unfoldable pub rate_limit_hook : Env → Request → State → Answer × State
unfolding check_rate
rate_limit_hook e r s =
    if r.sent || is_exempt r.url then (pass, s) else check_rate e (rate_key r) (load e s)

abbrev pub login_limit : ℕ
login_limit = 5

abbrev pub login_window_ms : ℕ
login_window_ms = 60000

judge_login : Env → Option Reply → Answer
judge_login e none = caught e
judge_login e (some reply) = if is_allowed reply then pass else too_many

check_login : Env → Text → Bool × State → Answer × State
unfolding eval_sha judge_login
check_login e key (false, s) = (caught e, s)
check_login e key (true, s) =
    let (reply, s') = eval_sha e.sustained_fails e login_window_ms login_limit key s in
    (judge_login e reply, s')

-- loginRateLimitHook
unfoldable pub login_rate_limit_hook : Env → Request → State → Answer × State
unfolding check_login
login_rate_limit_hook e r s = if r.sent then (pass, s) else check_login e (login_key r) (load e s)
