-- ===== src/Examples/Tiers.antt =====
-- The choice of packages/orchestrator/src/services/scheduler-service.ts at concrete inputs.
use vmcp.Base.{◌≡◌, refl, true, false, none, some, List, [], ◌∷◌}
use vmcp.Scheduler.{tier_a, tier_b, TierHealth, TierConfig, health_of, select_tier}

abbrev both : TierConfig
both = record { tier_a_enabled = true; tier_b_enabled = true; tier_a_queue_threshold = 5 }

abbrev rows : List TierHealth
rows =
    record { tier = tier_a; enabled = true; degraded = false; avg_cold_start_ms = some 4000 }
    ∷ record { tier = tier_b; enabled = true; degraded = false; avg_cold_start_ms = none }
    ∷ []

-- The queue is long and the project of high volume: tier A. Below the threshold: tier B.
busy_test : select_tier both rows 7 none true none ≡ tier_a
unfolding select_tier health_of
busy_test = refl

quiet_test : select_tier both rows 4 none true none ≡ tier_b
unfolding select_tier health_of
quiet_test = refl
