-- ===== src/Examples/Gates.antt =====
-- The dependency gate of packages/orchestrator/src/services/dependency-gate.ts at concrete inputs.
use vmcp.Base.{◌≡◌, refl, ◌↔◌, true, false, ◌||◌, some, codes}
use vmcp.Status.{
  includes, is_terminal, is_active_generation, is_retriable_failure, dead_letter, staging,
  commit_failed,
}
use vmcp.Gate.{Dependency, PromoteOpts, can_promote_blocked_job, project_slot_active_statuses}
use vmcp.Gate.Laws.{
  DependencyMet, BlockerGone, project_slot_active_statuses_lem, can_promote_blocked_job_iff,
}

abbrev upstream : Dependency
upstream = record { id = codes "j1"; project_id = codes "p"; status = staging }

project_slot_active_statuses_lem_example :
    includes project_slot_active_statuses commit_failed
    ≡ (is_active_generation commit_failed || is_retriable_failure commit_failed)
project_slot_active_statuses_lem_example = project_slot_active_statuses_lem commit_failed

-- The job waits for `j1`, which ended in the dead letters; nothing else is in its way.
abbrev orphan : PromoteOpts
orphan = record {
  depends_on_job_id = some (codes "j1");
  blocked_by_job_id = some (codes "j1");
  finished_job_id = codes "j1";
  finished_status = dead_letter;
  dependency_status = some dead_letter;
  concurrent_active_held = false;
  blocked_by_status = some dead_letter;
}

can_promote_blocked_job_iff_example :
    ((can_promote_blocked_job orphan).promote ≡ true)
    ↔ (DependencyMet orphan × BlockerGone orphan × (orphan.concurrent_active_held ≡ false))
can_promote_blocked_job_iff_example = can_promote_blocked_job_iff orphan

orphan_test : (can_promote_blocked_job orphan).dep_failed ≡ true
unfolding can_promote_blocked_job is_terminal
orphan_test = refl
