-- ===== src/Scheduler.antt =====
-- packages/orchestrator/src/services/scheduler-service.ts: the tier on which a job runs.
pub mod Choice
use vmcp.Base.{
  ℕ, ◌+◌, ◌*◌, ◌/◌, Bool, true, false, not, ◌&&◌, Option, none, some, List, [], ◌∷◌, Text, ltb, leb,
  if◌then◌else◌, get_or,
}

pub data WorkerTier : Type 0 where
  tier_a tier_b : WorkerTier

-- A row of `tier_health`; its metadata is left out.
pub record TierHealth : Type 0 where
  pub tier : WorkerTier
  pub enabled : Bool
  pub degraded : Bool
  pub avg_cold_start_ms : Option ℕ

-- The settings of `env` that the choice reads.
pub record TierConfig : Type 0 where
  pub tier_a_enabled : Bool
  pub tier_b_enabled : Bool
  pub tier_a_queue_threshold : ℕ

abbrev pub same_tier : WorkerTier → WorkerTier → Bool
same_tier tier_a tier_a = true
same_tier tier_b tier_b = true
same_tier _ _ = false

-- `Object.fromEntries(rows)[tier]`: of two rows of one tier the last one counts.
unfoldable pub health_of : WorkerTier → List TierHealth → Option TierHealth
health_of t [] = none
health_of t (row ∷ rows) = elim (health_of t rows) [
  | some later ↦ some later
  | none ↦ if same_tier row.tier t then some row else none
]

abbrev pub usable : Bool → Option TierHealth → Bool
usable enabled none = false
usable enabled (some h) = enabled && (h.enabled && not h.degraded)

abbrev pub prefers : Option WorkerTier → WorkerTier → Bool
prefers none t = false
prefers (some p) t = same_tier p t

abbrev cold_start : Option TierHealth → ℕ
cold_start none = 90000
cold_start (some h) = get_or h.avg_cold_start_ms 90000

-- The cold start of tier B takes more than half of the time that is left. No deadline, and the
-- deadline 0, count as none.
abbrev pub too_cold : Option ℕ → Option TierHealth → Bool
too_cold none h = false
too_cold (some deadline) h = ltb 0 deadline && ltb deadline (2 * cold_start h)

unfoldable pub select_tier :
    TierConfig → List TierHealth → ℕ → Option WorkerTier → Bool → Option ℕ → WorkerTier
unfolding health_of
select_tier config rows depth preferred high_volume deadline =
    let a_ok = usable config.tier_a_enabled (health_of tier_a rows) in
    let b_ok = usable config.tier_b_enabled (health_of tier_b rows) in
    if prefers preferred tier_a && a_ok
    then tier_a
    else if prefers preferred tier_b && b_ok
    then tier_b
    else if a_ok && (high_volume && leb config.tier_a_queue_threshold depth)
    then tier_a
    else if b_ok && (too_cold deadline (health_of tier_b rows) && a_ok)
    then tier_a
    else if b_ok
    then tier_b
    else if a_ok
    then tier_a
    else tier_b

-- `UPDATE tier_health SET enabled = $2 WHERE tier = $1`
unfoldable pub set_tier_enabled : WorkerTier → Bool → List TierHealth → List TierHealth
set_tier_enabled t on [] = []
set_tier_enabled t on (row ∷ rows) =
    (if same_tier row.tier t then record row { enabled = on } else row) ∷ set_tier_enabled t on rows

-- `(avg * 0.7 + probe * 0.3)::int`, rounded to the nearest number, a half away from zero.
abbrev pub smoothed : Option ℕ → ℕ → ℕ
smoothed none probe = probe
smoothed (some avg) probe = (7 * avg + 3 * probe + 5) / 10

-- The columns that `recordProbe` sets; the time of the probe and the metadata are left out.
unfoldable pub record_probe : WorkerTier → ℕ → Bool → List TierHealth → List TierHealth
record_probe t probe degraded [] = []
record_probe t probe degraded (row ∷ rows) =
    (if same_tier row.tier t
      then record row {
        avg_cold_start_ms = some (smoothed row.avg_cold_start_ms probe);
        degraded = degraded;
      }
      else row)
    ∷ record_probe t probe degraded rows
