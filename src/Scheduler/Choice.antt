-- ===== src/Scheduler/Choice.antt =====
-- Which tier packages/orchestrator/src/services/scheduler-service.ts chooses.
use vmcp.Base.{
  ℕ, ◌≤◌, min, max, ◌≡◌, ◌⊎◌, Bool, true, false, not, ◌&&◌, ◌||◌, Option, none, some, List, [], ◌∷◌,
  arith, leb, if◌then◌else◌,
}
use vmcp.Scheduler.{
  WorkerTier, tier_a, tier_b, TierHealth, TierConfig, same_tier, health_of, usable, too_cold,
  select_tier, set_tier_enabled, smoothed,
}

abbrev pub tier_ok : TierConfig → List TierHealth → WorkerTier → Bool
tier_ok c rows tier_a = usable c.tier_a_enabled (health_of tier_a rows)
tier_ok c rows tier_b = usable c.tier_b_enabled (health_of tier_b rows)

-- The chosen tier is usable whenever one is, and is tier B when none is. A usable tier that is
-- preferred is chosen. With no preference that counts, tier A is chosen exactly when it is usable
-- and tier B is not, or the project is of high volume and the queue is long, or tier B would start
-- too late for the deadline.
pub select_tier_lem :
    (c : TierConfig) (rows : List TierHealth) (depth : ℕ) (p : Option WorkerTier) (high : Bool)
    (deadline : Option ℕ)
    → let t = select_tier c rows depth p high deadline in
      ((tier_ok c rows t ≡ true)
        ⊎ ((tier_ok c rows tier_a ≡ false) × (tier_ok c rows tier_b ≡ false) × (t ≡ tier_b)))
      × ((q : WorkerTier) → p ≡ some q → tier_ok c rows q ≡ true → t ≡ q)
      × (p ≡ none
          → t ≡ (
              if tier_ok c rows tier_a
                && (not (tier_ok c rows tier_b)
                    || ((high && leb c.tier_a_queue_threshold depth)
                        || too_cold deadline (health_of tier_b rows)))
              then tier_a
              else tier_b))
unfolding select_tier
select_tier_lem c rows depth p high deadline =
    (ground arith, λ q e ok. preferred q e ok, λ e. ground arith)
  where
    preferred :
        (q : WorkerTier)
        → p ≡ some q
        → tier_ok c rows q ≡ true
        → select_tier c rows depth p high deadline ≡ q
    preferred tier_a e ok = ground arith
    preferred tier_b e ok = ground arith

abbrev switched : Bool → Option TierHealth → Option TierHealth
switched on none = none
switched on (some h) = some (record h { enabled = on })

health_of-set_tier_enabled :
    (t u : WorkerTier) (on : Bool) (rows : List TierHealth)
    → health_of u (set_tier_enabled t on rows)
      ≡ (if same_tier u t then switched on (health_of u rows) else health_of u rows)
unfolding health_of set_tier_enabled
health_of-set_tier_enabled t u on [] = ground arith
health_of-set_tier_enabled t u on (row ∷ rows) =
    ground (arith, health_of-set_tier_enabled t u on rows)

-- A tier that is switched off is not chosen while the other one is usable, whatever is preferred.
pub select_tier-set_tier_enabled :
    (c : TierConfig) (rows : List TierHealth) (depth : ℕ) (p : Option WorkerTier) (high : Bool)
    (deadline : Option ℕ)
    → (select_tier c (set_tier_enabled tier_a false rows) depth p high deadline ≡ tier_b)
      × (tier_ok c rows tier_a ≡ true
          → select_tier c (set_tier_enabled tier_b false rows) depth p high deadline ≡ tier_a)
unfolding select_tier
select_tier-set_tier_enabled c rows depth p high deadline = (
  ground (arith, health_of-set_tier_enabled tier_a tier_a false rows),
  λ ok. ground (
    arith,
    health_of-set_tier_enabled tier_b tier_b false rows,
    health_of-set_tier_enabled tier_b tier_a false rows,
  ),
)

-- The average cold start after a probe lies between the average before it and the probe.
pub smoothed_bounds :
    (avg probe : ℕ)
    → (min avg probe ≤ smoothed (some avg) probe) × (smoothed (some avg) probe ≤ max avg probe)
smoothed_bounds avg probe = (omega arith, omega arith)
