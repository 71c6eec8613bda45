-- ===== src/Wmstask/Examples.antt =====
-- Calls on a dispatched task, with quantities as millionths, and the theorems at concrete inputs.
use pda_backend.Common.{
  ℕ, ◌+◌, ◌-◌, ◌≡◌, refl, String, List, [], ◌∷◌, none, some, true, All, any, leb, ltb,
  if◌then◌else◌,
}
use pda_backend.Common.Text.{trim_space, to_upper, equal_fold}
use pda_backend.Common.Table.{lookup, insert}
use pda_backend.Platform.{Actor, Result, ok}
use pda_backend.Wmstask.Rows.{
  Floating, Projection, Database, State, Task, command_of, expected_scan_value, contains,
  insert_scan, scan_evidence, accepted_scan_types,
}
use pda_backend.Wmstask.Statements.{
  start_hashed, Hashed, state_of, load_projection, put_execution, ensure_pda_task_id, read_task,
  insert_event, insert_command, transaction,
}
use pda_backend.Wmstask.Service.{
  Fresh, append_integration_event, publish, first_time, command, start, start_row, start_change,
  scan, scan_change, record_rejected_scan, complete, complete_row, complete_change,
  complete_refusal, first_missing, update_completed,
}
use pda_backend.Wmstask.Service.Calls.{
  Call, Request, starts, scans, answer, serve, finished_is_final,
}
use pda_backend.Wmstask.Service.Completion.{is_evidence, complete_needs_evidence}

abbrev millionths : Floating ℕ
millionths = record {
  is_le = leb;
  is_lt = ltb;
  plus = λ a b. a + b;
  minus = λ a b. a - b;
  zero = 0;
  tolerance = 1;
}

-- Hashes that tell the inputs below apart.
abbrev hash_of : Hashed ℕ → ℕ
hash_of h = h.version + h.quantity

abbrev scan_hash_of : String → ℕ
scan_hash_of s = if equal_fold s "ITEM|REV-1" then 1 else 2

abbrev picker : Actor
picker = record {
  operator_id = "OP-1";
  device_id = "PDA-1";
  warehouse_id = "WH-01";
  correlation_id = "CORR-1";
}

abbrev dispatched_task : Projection ℕ
dispatched_task = record {
  task_type = "PICK";
  task_version = 2;
  status = "RELEASED";
  warehouse_id = "WH-01";
  source_location_id = "A-01";
  destination_id = "B-01";
  revision_id = "REV-1";
  item_code = "ITEM-1";
  lot_id = "";
  uom_code = "EA";
  requested_quantity = 5_000_000;
  remaining_quantity = 5_000_000;
  scan_requirements = "ITEM" ∷ [];
  correlation_id = "";
  work_order_id = "WO-1";
  material_request_id = "";
  site_id = "S-1";
}

abbrev tables : Database ℕ
tables = record {
  projections = ("T-1", dispatched_task) ∷ [];
  executions = [];
  scans = [];
  commands = [];
  outbox = [];
}

abbrev fresh : ℕ → Fresh
fresh n = record {
  command_id = 100 + n;
  pda_task_id = 7;
  event_id = 200 + n;
  now = n;
  occurred_at = n;
}

abbrev calls : ℕ → Request ℕ → Call ℕ
calls n r = record { id = "T-1"; actor = picker; fresh = fresh n; request = r }

-- A start, a scan of a wrong item, and one of the right item.
abbrev morning : List (Call ℕ)
morning =
    calls 1 (starts 2 11)
    ∷ calls 2 (scans "item" "REV-9" 2 12)
    ∷ calls 3 (scans "item" "REV-1" 2 13)
    ∷ []

abbrev at_noon : Database ℕ
at_noon = serve millionths hash_of scan_hash_of morning tables

noon :
    (state_of "T-1" at_noon ≡ State.started)
    × (accepted_scan_types "T-1" at_noon.scans ≡ "ITEM" ∷ [])
unfolding serve answer start scan command transaction command_of first_time load_projection
    start_change start_row scan_change put_execution publish append_integration_event
    ensure_pda_task_id insert_event read_task insert_command record_rejected_scan insert_scan
    expected_scan_value contains accepted_scan_types lookup insert trim_space to_upper equal_fold
noon = (refl, refl)

abbrev noon_done : Result (Task ℕ) × Database ℕ
noon_done = complete millionths hash_of (fresh 4) picker "T-1" 5_000_000 2 14 at_noon

abbrev done_view : Task ℕ
done_view = record {
  warehouse_task_id = "T-1";
  projected = dispatched_task;
  execution = some (record {
    pda_task_id = 7;
    task_version = 2;
    state = State.completed;
    operator_id = "OP-1";
    device_id = "PDA-1";
    confirmed_quantity = 5_000_000;
    reason_code = "";
    started_at = some 1;
    finished_at = some 4;
    updated_at = 4;
  });
  completed_scans = "ITEM" ∷ [];
}

noon_completes : noon_done ≡ (ok done_view, noon_done.1)
unfolding serve answer start scan command transaction command_of first_time load_projection
    start_change start_row scan_change put_execution publish append_integration_event
    ensure_pda_task_id insert_event read_task insert_command record_rejected_scan insert_scan
    expected_scan_value contains accepted_scan_types lookup insert trim_space to_upper equal_fold
    complete complete_change complete_refusal first_missing update_completed complete_row
    scan_evidence
noon_completes = refl

complete_needs_evidence_example :
    (p : Projection ℕ) × (lookup "T-1" at_noon.projections ≡ some p)
    × (p.task_version ≡ 2)
    × (state_of "T-1" at_noon ≡ State.started)
    × All (λ r. any (is_evidence p "T-1" r) at_noon.scans ≡ true) p.scan_requirements
unfolding serve answer start scan command transaction command_of first_time load_projection
    start_change start_row scan_change put_execution publish append_integration_event
    ensure_pda_task_id insert_event read_task insert_command record_rejected_scan insert_scan
    expected_scan_value contains accepted_scan_types lookup insert trim_space to_upper equal_fold
complete_needs_evidence_example =
    complete_needs_evidence millionths hash_of (fresh 4) picker "T-1" scan_hash_of morning tables
      noon_done.1 5_000_000 2 14 done_view tt refl noon_completes

abbrev evening : Database ℕ
evening = noon_done.1

finished_is_final_example :
    state_of "T-1" (serve millionths hash_of scan_hash_of morning evening) ≡ State.completed
unfolding serve answer start scan command transaction command_of first_time load_projection
    start_change start_row scan_change put_execution publish append_integration_event
    ensure_pda_task_id insert_event read_task insert_command record_rejected_scan insert_scan
    expected_scan_value contains accepted_scan_types lookup insert trim_space to_upper equal_fold
    complete complete_change complete_refusal first_missing update_completed complete_row
    scan_evidence
finished_is_final_example =
    finished_is_final millionths hash_of scan_hash_of morning "T-1" evening refl

-- The item that was rejected in the morning is what the task asks for in the evening.
abbrev redispatched : Projection ℕ
redispatched = record dispatched_task { task_version = 3; revision_id = "REV-9" }

abbrev started : Result (Task ℕ) × Database ℕ
started =
    command millionths hash_of (fresh 1) picker "T-1" 11 (start_hashed millionths picker "T-1" 2)
      (start_change millionths hash_of (fresh 1) picker "T-1" 2) tables

abbrev started_view : Task ℕ
started_view = record done_view {
  execution = some (record {
    pda_task_id = 7;
    task_version = 2;
    state = State.started;
    operator_id = "OP-1";
    device_id = "PDA-1";
    confirmed_quantity = 0;
    reason_code = "";
    started_at = some 1;
    finished_at = none;
    updated_at = 1;
  });
  completed_scans = [];
}

-- A scan comes between.
abbrev between : List (Call ℕ)
between =
    record { id = "T-1"; actor = picker; fresh = fresh 5; request = scans "item" "X" 2 12 } ∷ []
