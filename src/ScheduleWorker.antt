-- ===== src/ScheduleWorker.antt =====
-- netbox_sync/schedule_worker.py: the conditional update of the two schedule columns of a source.
-- The table `sources` is a list of its records; the socket and the JSON parser are left out.
pub mod Laws
use infra_sync.Prelude.{
  ℕ, String, Bool, true, false, not, ◌&&◌, ◌||◌, Option, none, some, List, [], ◌∷◌, map, any, ◌==◌,
  eqb, if◌then◌else◌, mem_text, Result, ok, err, ◌>>=◌, ◌>>◌, require, is_source_instance,
}
use infra_sync.Json.{Json, bool, str, obj, Fields, end, field, get, or_null}
use infra_sync.Config.{SourceConfig}
use infra_sync.Scheduling.{validate_interval}

-- The codes of `ScheduleWorkerError` and `CONTROL_REQUEST_FAILED`; `type_error` is the exception of
-- a pattern that is matched with something else than a text, which `serve` answers with the latter.
pub data ScheduleProblem : Type 0 where
  schedule_invalid schedule_conflict source_not_found control_request_failed type_error :
      ScheduleProblem

pub record Request : Type 0 where
  pub source_instance : String
  pub sync_enabled : Bool
  pub sync_interval_seconds : ℕ
  pub expected_sync_enabled : Bool
  pub expected_sync_interval_seconds : ℕ

pub record Returned : Type 0 where
  pub source_instance : String
  pub sync_enabled : Bool
  pub sync_interval_seconds : ℕ

abbrev same_bool : Bool → Bool → Bool
same_bool true b = b
same_bool false b = not b

-- The `WHERE` of the UPDATE.
unfoldable pub is_expected : Request → SourceConfig → Bool
is_expected r c =
    c.source_instance == r.source_instance
    && same_bool c.sync_enabled r.expected_sync_enabled
    && eqb c.sync_interval_seconds r.expected_sync_interval_seconds

-- One row under the UPDATE.
unfoldable pub rescheduled : Request → SourceConfig → SourceConfig
unfolding is_expected
rescheduled r c =
    if is_expected r c
    then record c { sync_enabled = r.sync_enabled; sync_interval_seconds = r.sync_interval_seconds }
    else c

abbrev pub has_source : String → List SourceConfig → Bool
has_source name table = any (λ (c : SourceConfig). c.source_instance == name) table

abbrev returned : Request → Returned
returned r = record {
  source_instance = r.source_instance;
  sync_enabled = r.sync_enabled;
  sync_interval_seconds = r.sync_interval_seconds;
}

-- `ScheduleStore.update`; without a connection any exception becomes one code.
unfoldable pub update :
    Bool → Request → List SourceConfig → Result ScheduleProblem Returned × List SourceConfig
unfolding is_expected rescheduled
update connected r table =
    if not connected
    then (err control_request_failed, table)
    else if any (is_expected r) table
    then (ok (returned r), map (rescheduled r) table)
    else (
      err (if has_source r.source_instance table then schedule_conflict else source_not_found),
      table,
    )

pub data Message : Type 0 where
  health : Message
  update_schedule : Request → Message

abbrev pub request_names : List String
request_names =
    "operation" ∷ "source_instance" ∷ "sync_enabled" ∷ "sync_interval_seconds"
    ∷ "expected_sync_enabled" ∷ "expected_sync_interval_seconds" ∷ []

abbrev pub has_only : List String → Fields → Bool
has_only names end = true
has_only names (field k v fs) = mem_text k names && has_only names fs

abbrev pub has_all : List String → Fields → Bool
has_all [] fs = true
has_all (k ∷ ks) fs = elim (get k fs) [ none ↦ false | some v ↦ has_all ks fs ]

abbrev pub is_health : Fields → Bool
is_health fs =
    has_only ("operation" ∷ []) fs
    && elim (get "operation" fs) [ some (str text) ↦ text == "health" | _ ↦ false ]

abbrev pub flag : String → Fields → Result ScheduleProblem Bool
flag key fs = elim (get key fs) [ some (bool b) ↦ ok b | _ ↦ err schedule_invalid ]

abbrev pub named : Option Json → Result ScheduleProblem String
named (some (str name)) = if is_source_instance name then ok name else err schedule_invalid
named v = err type_error

abbrev pub operation_is : String → Option Json → Bool
operation_is name (some (str text)) = text == name
operation_is name v = false

abbrev pub interval : String → Bool → Fields → Result ScheduleProblem ℕ
unfolding validate_interval
interval key current fs = elim (validate_interval (or_null (get key fs)) current) [
  | some n ↦ ok n
  | none ↦ err schedule_invalid
]

-- The checks of `_receive` on an update, in their order.
unfoldable pub check_update : Fields → Result ScheduleProblem Request
unfolding validate_interval
check_update fs = do
  require (has_only request_names fs && has_all request_names fs) schedule_invalid
  require (operation_is "update_schedule" (get "operation" fs)) schedule_invalid
  source_instance ← named (get "source_instance" fs)
  sync_enabled ← flag "sync_enabled" fs
  expected_sync_enabled ← flag "expected_sync_enabled" fs
  sync_interval_seconds ← interval "sync_interval_seconds" false fs
  expected_sync_interval_seconds ← interval "expected_sync_interval_seconds" true fs
  ok (record {
    source_instance = source_instance;
    sync_enabled = sync_enabled;
    sync_interval_seconds = sync_interval_seconds;
    expected_sync_enabled = expected_sync_enabled;
    expected_sync_interval_seconds = expected_sync_interval_seconds;
  })

abbrev pub updating : Result ScheduleProblem Request → Result ScheduleProblem Message
updating (ok r) = ok (update_schedule r)
updating (err e) = err e

-- `_receive`, from the parsed request on.
unfoldable pub receive : Json → Result ScheduleProblem Message
unfolding check_update
receive (obj fs) = if is_health fs then ok health else updating (check_update fs)
receive v = err schedule_invalid

abbrev pub answer :
    Result ScheduleProblem Returned × List SourceConfig
    → Result ScheduleProblem (Option Returned) × List SourceConfig
answer (ok row, table) = (ok (some row), table)
answer (err e, table) = (err e, table)

abbrev pub handled :
    Bool
    → Result ScheduleProblem Message
    → List SourceConfig
    → Result ScheduleProblem (Option Returned) × List SourceConfig
unfolding update
handled connected (err e) table = (err e, table)
handled connected (ok health) table = (ok none, table)
handled connected (ok (update_schedule r)) table = answer (update connected r table)

-- One request of `serve`: `_handle(store, _receive(connection))`; `none` is the health status.
unfoldable pub handle :
    Bool → Json → List SourceConfig → Result ScheduleProblem (Option Returned) × List SourceConfig
unfolding receive update
handle connected v table = handled connected (receive v) table
