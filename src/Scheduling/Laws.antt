-- ===== src/Scheduling/Laws.antt =====
-- When a source is run, and what its decision says.
use infra_sync.Prelude.{
  ℕ, ◌+◌, ◌*◌, ◌<◌, ◌≡◌, Bool, true, ◌&&◌, not, Option, none, some, arith, leb, ok, err, refl,
}
use infra_sync.Config.{SourceConfig}
use infra_sync.RunHistory.{SyncRun}
use infra_sync.Scheduling.{
  second, max_time, overflow, ScheduleDecision, eligible, has_fresh_run, evaluate_schedule, started,
}

-- The interval has passed since the reference; a source that never ran is due at once.
abbrev pub is_elapsed : Option ℕ → ℕ → ℕ → Bool
is_elapsed none interval now = true
is_elapsed (some reference) interval now = leb (reference + interval * second) now

-- A decision is eligible exactly if the source is enabled for synchronization, no recent run is
-- RUNNING and the interval has passed since the last scheduled start.
eligible-evaluate_schedule :
    (source : SourceConfig) (latest running : Option SyncRun) (now stale : ℕ) (d : ScheduleDecision)
    → evaluate_schedule source latest running now stale ≡ ok d
    → eligible d ≡ (
        source.enabled
        && source.sync_enabled
        && not (has_fresh_run running now stale)
        && is_elapsed (started latest) source.sync_interval_seconds now)
unfolding evaluate_schedule eligible
eligible-evaluate_schedule source none running now stale d h = ground arith
eligible-evaluate_schedule source (some run) running now stale d h = ground arith

-- The evaluation fails only for a source that is enabled and whose next start lies past the last
-- time that can be represented.
pub evaluate_schedule-eq-err :
    (source : SourceConfig) (latest running : Option SyncRun) (now stale : ℕ)
    → evaluate_schedule source latest running now stale ≡ err overflow
    → (run : SyncRun) × (latest ≡ some run)
      × ((source.enabled && source.sync_enabled) ≡ true)
      × (max_time < run.started_at + source.sync_interval_seconds * second)
unfolding evaluate_schedule
evaluate_schedule-eq-err source none running now stale e = absurd (ground arith)
evaluate_schedule-eq-err source (some run) running now stale e =
    (run, refl, ground arith, ground arith)
