-- ===== src/Ingestion/Examples.antt =====
-- Deliveries of tasks, cycles of the relay, and their theorems at concrete inputs.
use mathlib.Core.List.{Permᴰ}
use mathlib.Core.List.Permᴰ
use pda_backend.Common.{
  ℕ, ◌+◌, ◌≤◌, String, ◌≡◌, refl, none, some, List, [], ◌∷◌, ◌++◌, true, false, ◌==◌, eqb, ltb, any,
  all, arith, if◌then◌else◌,
}
use pda_backend.Common.Rows.{first_where, update_where}
use pda_backend.Common.Text.{trim_space, to_upper}
use pda_backend.Ingestion.Contract.{
  IntegrationEnvelope, TaskPayload, validates, contract_version, after_last_mark, is_unsupported,
  task_category, queue_status,
}
use pda_backend.Ingestion.Rows.{
  Tables, Message, row_of, upsert_projection, sync_operator_queue, upsert_queue,
}
use pda_backend.Ingestion.Consumer.{
  Outside, Dispatch, classify, classify_event, classify_payload, accepted, ingest, process, project,
  projected_version,
}
use pda_backend.Ingestion.Consumer.Versions.{Delivery, deliver, latest, projected}
use pda_backend.Ingestion.Consumer.Latest.{IsSettled, is_named, projection_is_latest}
use pda_backend.Ingestion.Consumer.Order.{is_written, order_of_delivery}
use pda_backend.Ingestion.Consumer.Redelivery.{redelivery_changes_nothing, versions_never_fall}
use pda_backend.Ingestion.Consumer.Offsets.{is_behind, consume, failures_are_passed_over}
use mathlib.Core.List.{Permᴰ}
use mathlib.Core.List.Permᴰ
use pda_backend.Ingestion.Relay
use pda_backend.Ingestion.Relay.{OutboxRow, Outbox, run_once, is_due, claim, publish, publish_all}
use pda_backend.Ingestion.Relay.Retries.{cycle_leaves_none_due}
use pda_backend.Ingestion.Relay.Marks.{Cycle, is_backed, run_cycles, marked_was_taken}
use pda_backend.Ingestion.Relay.Attempts.{distinct, is_bounded, attempts_stay_bounded}

abbrev payload : ℕ → String → TaskPayload ℕ
payload version status = record {
  warehouse_task_id = "T-1";
  task_type = "picking";
  task_version = version;
  status = status;
  priority = 0;
  site_id = "";
  warehouse_id = "WH-1";
  warehouse_code = "";
  source_location_id = "";
  source_location_code = "";
  source_bin_id = "";
  source_bin_code = "";
  destination_location_id = "";
  destination_location_code = "";
  destination_bin_id = "";
  destination_bin_code = "";
  work_order_id = "";
  work_order_code = "";
  material_request_id = "";
  material_request_line_id = "";
  expected_receipt_id = "";
  item_id = "";
  item_code = "";
  revision_id = "";
  revision_code = "";
  requested_quantity = 10;
  confirmed_quantity = 0;
  remaining_quantity = 0;
  uom_id = "";
  uom_code = "";
  lot_id = "";
  lot_code = "";
  lpn_code = "";
  serial_numbers = [];
  allocations = [];
  scan_requirements = [];
  assigned_operator_id = "";
  assigned_device_id = "";
  correlation_id = "C-1";
  causation_id = "";
}

abbrev envelope : String → String → IntegrationEnvelope
envelope event text = record {
  event_id = event;
  event_type = "WMS.PDA.WarehouseTaskUpdated.v1";
  occurred_at = "";
  aggregate_id = "T-1";
  metadata_key = none;
  payload = text;
}

-- Messages name an envelope, and envelopes a payload. A payload of version 3 does not fit its columns.
abbrev outside : Outside ℕ
outside = record {
  read_envelope = λ value.
      if value == "one"
      then some (envelope "1" "first")
      else if value == "two"
      then some (envelope "2" "second")
      else if value == "three"
      then some (envelope "3" "third")
      else none;
  read_payload = λ text.
      if text == "first"
      then some (payload 1 "CREATED")
      else if text == "second"
      then some (payload 2 "ASSIGNED")
      else some (payload 3 "CANCELLED");
  is_json = λ text. true;
  parse_time = λ text. none;
  scan = λ text. some (record { is_negative = false; magnitude = 1 });
  parse_uuid = λ id. if id == "1" then some 1 else if id == "2" then some 2 else some 3;
  sha_1 = λ topic partition offset. offset;
  fits = λ row. ltb row.task_version 3;
  is_storable = λ letter. true;
  is_referenced = λ id. false;
}

abbrev message : String → ℕ → Message
message value offset = record {
  topic = "tasks";
  partition = 0;
  offset = offset;
  value = value;
  time = some 50;
}

abbrev delivery : String → ℕ → Delivery
delivery value offset = record { message = message value offset; now = 60 }

abbrev empty : Tables ℕ
empty = record { inbox = []; projection = []; queue = []; stale = []; dead_letters = [] }

abbrev dispatch : ℕ → IntegrationEnvelope → TaskPayload ℕ → String → Dispatch ℕ
dispatch event e p status = record {
  event = event;
  envelope = e;
  payload = p;
  category = "PICKING";
  status = status;
}

abbrev second_dispatch : Dispatch ℕ
second_dispatch = dispatch 2 (envelope "2" "second") (payload 2 "ASSIGNED") "ASSIGNED"

classifies : (offset : ℕ) → classify outside (message "two" offset) ≡ accepted second_dispatch
unfolding classify classify_event classify_payload validates contract_version after_last_mark
    is_unsupported task_category queue_status trim_space to_upper
classifies offset = refl

abbrev after_second : Tables ℕ
after_second = (process outside "g" (message "two" 4) 60 empty).1

processes : process outside "g" (message "two" 4) 60 empty ≡ (true, after_second)
unfolding process classify classify_event classify_payload validates contract_version
    after_last_mark is_unsupported task_category queue_status trim_space to_upper ingest project
    row_of upsert_projection sync_operator_queue upsert_queue first_where
processes = refl

abbrev between : List Delivery
between = delivery "one" 5 ∷ delivery "three" 6 ∷ []

redelivery_changes_nothing_example :
    process outside "g" (message "two" 9) 90 (deliver outside "g" between after_second).1
    ≡ (true, (deliver outside "g" between after_second).1)
redelivery_changes_nothing_example =
    redelivery_changes_nothing outside "g" second_dispatch second_dispatch (message "two" 4)
      (message "two" 9) 60 90 between empty after_second (classifies 4) (classifies 9) refl
      processes

versions_never_fall_example :
    projected_version "T-1" after_second
    ≤ projected_version "T-1"
        (deliver outside "g" (delivery "one" 5 ∷ delivery "three" 6 ∷ []) after_second).1
versions_never_fall_example =
    versions_never_fall outside "g" (delivery "one" 5 ∷ delivery "three" 6 ∷ []) "T-1" after_second

abbrev newest_first : List Delivery
newest_first = delivery "two" 4 ∷ delivery "one" 5 ∷ delivery "two" 6 ∷ []

abbrev oldest_first : List Delivery
oldest_first = delivery "one" 5 ∷ delivery "two" 4 ∷ delivery "two" 6 ∷ []

abbrev after_newest : Tables ℕ
after_newest = (deliver outside "g" newest_first empty).1

abbrev after_oldest : Tables ℕ
after_oldest = (deliver outside "g" oldest_first empty).1

delivers : deliver outside "g" newest_first empty ≡ (true, after_newest)
unfolding deliver process classify classify_event classify_payload validates contract_version
    after_last_mark is_unsupported task_category queue_status trim_space to_upper ingest project
    row_of upsert_projection sync_operator_queue upsert_queue first_where update_where
delivers = refl

delivers_oldest : deliver outside "g" oldest_first empty ≡ (true, after_oldest)
unfolding deliver process classify classify_event classify_payload validates contract_version
    after_last_mark is_unsupported task_category queue_status trim_space to_upper ingest project
    row_of upsert_projection sync_operator_queue upsert_queue first_where update_where
delivers_oldest = refl

settled : IsSettled outside "g" (λ event. "T-1") (λ event. event) empty
unfolding IsSettled
settled event seen = ground arith

named : all (is_named outside "g" (λ event. "T-1") (λ event. event)) newest_first ≡ true
unfolding classify classify_event classify_payload validates contract_version after_last_mark
    is_unsupported task_category queue_status trim_space to_upper
named = refl

abbrev text_of : String → ℕ → String
text_of id version = if eqb version 1 then "first" else "second"

written : all (is_written outside text_of) newest_first ≡ true
unfolding classify classify_event classify_payload validates contract_version after_last_mark
    is_unsupported task_category queue_status trim_space to_upper
written = refl

projection_is_latest_example :
    projected "T-1" after_newest ≡ latest outside "T-1" newest_first (projected "T-1" empty)
projection_is_latest_example =
    projection_is_latest outside "g" (λ event. "T-1") (λ event. event) newest_first empty
      after_newest "T-1" settled named delivers

abbrev row : ℕ → OutboxRow
row id = record {
  event_id = id;
  topic = "PDA.WMS";
  event_type = "PDA.WMS.TaskStarted.v1";
  partition_key = "WH-1|T-1";
  available_at = 0;
  attempts = 0;
  is_exhausted = false;
  published_at = none;
}

abbrev outbox : Outbox
outbox = record { rows = row 1 ∷ row 2 ∷ []; written = []; dead = [] }

-- The broker refuses the first row.
-- A broker that takes the second row, and a database that does not fail.
abbrev takes_second : Relay.Outside
takes_second = record {
  accepts = λ r. eqb r.event_id 2;
  claims = true;
  scans = λ r. true;
  runs = λ statement r. true;
  arrange = λ batch. batch;
}

abbrev fails_to_mark : Relay.Outside
fails_to_mark = record takes_second { runs = λ statement r. false }

order_of_delivery_example : projected "T-1" after_newest ≡ projected "T-1" after_oldest
order_of_delivery_example =
    order_of_delivery outside text_of "g" (λ event. "T-1") (λ event. event) newest_first
      oldest_first empty after_newest after_oldest "T-1" (Permᴰ.swap refl refl) settled named
      written delivers delivers_oldest

abbrev with_failure : List Delivery
with_failure = delivery "one" 4 ∷ delivery "three" 5 ∷ []

abbrev commit : ℕ → Message → ℕ
commit stored m = m.offset + 1

failure : (process outside "g" (message "three" 5) 60 empty).0 ≡ false
unfolding process classify classify_event classify_payload validates contract_version
    after_last_mark is_unsupported task_category queue_status trim_space to_upper ingest project
    row_of sync_operator_queue first_where
failure = refl

succeeds :
    (process outside "g"
      (message "two" 6)
      60
      (consume outside commit "g" with_failure (4, empty)).1).0
    ≡ true
unfolding consume process classify classify_event classify_payload validates contract_version
    after_last_mark is_unsupported task_category queue_status trim_space to_upper ingest project
    row_of upsert_projection sync_operator_queue upsert_queue first_where update_where
succeeds = refl

failures_are_passed_over_example :
    all
      (is_behind
        (consume outside commit "g" (with_failure ++ (delivery "two" 6 ∷ [])) (4, empty)).0)
      (with_failure ++ (delivery "two" 6 ∷ []))
    ≡ true
failures_are_passed_over_example =
    failures_are_passed_over outside commit "g" (λ stored m. omega arith) with_failure
      (delivery "two" 6) (4, empty) refl succeeds

cycle_ran : (run_once takes_second 5 100 outbox).0.1 ≡ true
unfolding run_once claim publish_all publish
cycle_ran = refl

cycle_leaves_none_due_example :
    (any (is_due 5) (run_once takes_second 5 100 outbox).1.rows ≡ false)
    × (all
          (is_backed (run_once takes_second 5 100 outbox).1)
          (run_once takes_second 5 100 outbox).1.rows
        ≡ true)
cycle_leaves_none_due_example =
    cycle_leaves_none_due takes_second 5 100 outbox (λ batch. Permᴰ.refl batch) (omega arith) refl
      cycle_ran

abbrev cycles : List Cycle
cycles =
    record { outside = fails_to_mark; now = 5; batch_size = 100 }
    ∷ record { outside = takes_second; now = 6; batch_size = 100 }
    ∷ []

marked_was_taken_example :
    all (is_backed (run_cycles cycles outbox)) (run_cycles cycles outbox).rows ≡ true
marked_was_taken_example = marked_was_taken cycles outbox refl

apart : distinct outbox.rows ≡ true
unfolding distinct
apart = refl

attempts_stay_bounded_example : all is_bounded (run_once takes_second 5 100 outbox).1.rows ≡ true
attempts_stay_bounded_example =
    attempts_stay_bounded takes_second 5 100 outbox (λ batch. Permᴰ.refl batch) apart refl cycle_ran
