-- ===== src/Tests/Runs.antt =====
-- Runs of the history of runs, with its rows and two sources.
use infra_sync.Prelude.{
  ℕ, suc, ◌+◌, ◌-◌, ◌*◌, ◌/◌, ◌<◌, String, ◌≡◌, refl, Bool, true, false, not, ◌&&◌, Option, none,
  some, List, [], ◌∷◌, map, arith, Result, ok, err, All, keep, if◌then◌else◌, length, ◌==◌,
}
use infra_sync.Json.{end}
use infra_sync.Config.{SourceConfig}
use infra_sync.RunHistory.{
  SyncRun, Table, Outcome, RunError, missing_or_terminal, RunTrigger, manual, scheduled, is_running,
  start_run, finish_run, get_run,
}
use infra_sync.RunHistory.Errors.{running, succeeded}
use infra_sync.RunHistory.Counts.{no_counts}
use infra_sync.RunHistory.Finish.{IsAcceptable}
use infra_sync.RunHistory.Checks.{IsChecked, finish_run-IsChecked}
use infra_sync.RunHistory.Laws.{get_run-finish_run, start_run-finish_run}
use infra_sync.RunHistory.Latest.{latest_by_source, run_of}
use infra_sync.RunHistory.Newest.{IsLatest, latest_by_source-IsLatest}

abbrev pub first_source : SourceConfig
first_source = record {
  id = "a";
  source_instance = "pve";
  name = "Main";
  source_type = "proxmox";
  address = "pve.example";
  enabled = true;
  sync_enabled = true;
  sync_interval_seconds = 60;
  verify_ssl = true;
  target = record {
    site_slug = "hq";
    device_role_slug = "server";
    platform_slug = "pve";
    device_type_slug = "generic";
    cluster_type_slug = "pve";
    cluster_name = "main";
  };
  credentials = record {
    username = "sync";
    token_id = record { provider = "env"; key = "ID" };
    token_secret = record { provider = "env"; key = "SECRET" };
  };
  legacy_identity_owner = true;
  settings = end;
}

abbrev pub second_source : SourceConfig
second_source = record first_source { id = "b"; source_instance = "lab"; source_type = "esxi" }

abbrev pub open_row : SyncRun
open_row = record {
  run_id = 1;
  source_instance = "pve";
  source_type = "proxmox";
  trigger = scheduled;
  started_at = 1000000;
  finished_at = none;
  duration_ms = none;
  status = running;
  plan_digest = none;
  planner_version = none;
  counts = no_counts;
  error_code = none;
  error_message_safe = none;
  created_by = "system/scheduler";
}

abbrev pub ended_row : SyncRun
ended_row = record open_row {
  run_id = 2;
  status = succeeded;
  finished_at = some 1500000;
  duration_ms = some 500;
}

abbrev success : Outcome
success = record {
  status = succeeded;
  counts = no_counts;
  plan_digest = none;
  planner_version = some "1";
  error_code = none;
  error_message_safe = none;
}

abbrev closed_row : SyncRun
closed_row = record open_row {
  finished_at = some 3000000;
  duration_ms = some 2000;
  status = succeeded;
  planner_version = some "1";
}

open_row-IsChecked : IsChecked open_row
unfolding infra_sync.Prelude.is_source_instance infra_sync.Prelude.text_length
open_row-IsChecked = record {
  source_type = refl;
  source_instance = refl;
  plan_digest = refl;
  error_code = refl;
  created_by = refl;
  planner_version = refl;
  error_message_safe = refl;
  lifecycle = refl;
}

ended_row-IsChecked : IsChecked ended_row
unfolding infra_sync.Prelude.is_source_instance infra_sync.Prelude.text_length
ended_row-IsChecked = record {
  source_type = refl;
  source_instance = refl;
  plan_digest = refl;
  error_code = refl;
  created_by = refl;
  planner_version = refl;
  error_message_safe = refl;
  lifecycle = refl;
}

finish_run-IsChecked_example : All IsChecked (closed_row ∷ ended_row ∷ [])
unfolding finish_run infra_sync.Prelude.text_length
finish_run-IsChecked_example =
    finish_run-IsChecked 1 success 3000000 (open_row ∷ ended_row ∷ []) closed_row
      (closed_row ∷ ended_row ∷ []) refl (open_row-IsChecked, (ended_row-IsChecked, tt))

get_run-finish_run_example : get_run 2 (closed_row ∷ ended_row ∷ []) ≡ some ended_row
unfolding finish_run infra_sync.Prelude.text_length get_run
get_run-finish_run_example =
    get_run-finish_run 1 2 success 3000000 (open_row ∷ ended_row ∷ []) (closed_row ∷ ended_row ∷ [])
      closed_row ended_row refl refl refl

success-IsAcceptable : IsAcceptable success
unfolding infra_sync.Prelude.text_length infra_sync.RunHistory.check_error
success-IsAcceptable = record { terminal = refl; digest = refl; version = refl; error = refl }

start_run-finish_run_example :
    (done : SyncRun) × (final : Table) × (finish_run 1 success 3000000 (open_row ∷ ended_row ∷ [])
      ≡ ok (done, final))
    × (get_run 1 final ≡ some done)
    × (done.status ≡ success.status)
    × (done.duration_ms ≡ some ((3000000 - 1000000) / 1000))
    × (finish_run 1 success 4000000 final ≡ err missing_or_terminal)
unfolding start_run infra_sync.Prelude.is_source_instance infra_sync.Prelude.text_length
start_run-finish_run_example =
    start_run-finish_run "pve" "proxmox" scheduled "system/scheduler" none none 1 1000000 3000000
      4000000 (ended_row ∷ []) (open_row ∷ ended_row ∷ []) open_row success success refl
      success-IsAcceptable success-IsAcceptable

latest_by_source-IsLatest_example :
    IsLatest true "pve"
      (open_row ∷ ended_row ∷ [])
      (run_of "pve" (latest_by_source true (open_row ∷ ended_row ∷ [])))
latest_by_source-IsLatest_example = latest_by_source-IsLatest true "pve" (open_row ∷ ended_row ∷ [])
