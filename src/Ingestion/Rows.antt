-- ===== src/Ingestion/Rows.antt =====
-- The rows that wms_task_consumer.go writes, and its statements on them. A NULL text is "".
use pda_backend.Common.{
  ℕ, ◌+◌, String, Option, none, some, List, [], ◌∷◌, ◌++◌, Bool, not, ◌&&◌, ◌==◌, eqb, leb, any,
  if◌then◌else◌,
}
use pda_backend.Common.Text.{to_upper}
use pda_backend.Common.Rows.{update_where}
use pda_backend.Ingestion.Contract.{TaskPayload, priority_or_default}

-- A row of wms_task_projection.
pub record ProjectionRow (F : Type 0) : Type 0 where
  pub warehouse_task_id : String
  pub task_type : String
  pub task_version : ℕ
  pub status : String
  pub priority : ℕ
  pub site_id : String
  pub warehouse_id : String
  pub warehouse_code : String
  pub source_location_id : String
  pub source_location_code : String
  pub source_bin_id : String
  pub source_bin_code : String
  pub destination_location_id : String
  pub destination_location_code : String
  pub destination_bin_id : String
  pub destination_bin_code : String
  pub work_order_id : String
  pub work_order_code : String
  pub material_request_id : String
  pub material_request_line_id : String
  pub expected_receipt_id : String
  pub item_id : String
  pub item_code : String
  pub revision_id : String
  pub revision_code : String
  pub requested_quantity : F
  pub confirmed_quantity : F
  pub remaining_quantity : F
  pub uom_id : String
  pub uom_code : String
  pub lot_id : String
  pub lot_code : String
  pub lpn_code : String
  pub serial_numbers : List String
  pub allocations : List String
  pub scan_requirements : List String
  pub correlation_id : String
  pub causation_id : String
  pub payload : String
  pub source_event_id : ℕ
  pub source_dispatched_at : Option ℕ
  pub backend_received_at : ℕ
  pub updated_at : ℕ

-- A row of warehouse_task.
pub record QueueRow : Type 0 where
  pub task_id : String
  pub category : String
  pub status : String
  pub priority : ℕ
  pub warehouse_id : String
  pub operator_id : Option String
  pub version : ℕ
  pub updated_at : ℕ

pub record StaleDelivery : Type 0 where
  pub event_id : ℕ
  pub warehouse_task_id : String
  pub incoming_version : ℕ
  pub projected_version : ℕ
  pub event_type : String

-- Why a delivery is rejected.
pub data Failure : Type 0 where
  malformed_envelope invalid_envelope event_id_not_uuid unsupported_event_version : Failure
  malformed_payload missing_required_identity unsupported_task_type : Failure
  unsupported_task_status invalid_occurred_at : Failure

-- A message of Kafka; its value is the text of the envelope.
pub record Message : Type 0 where
  pub topic : String
  pub partition : ℕ
  pub offset : ℕ
  pub value : String
  pub time : Option ℕ

-- A row of event_dlq.
pub record DeadLetter : Type 0 where
  pub event_id : ℕ
  pub consumer_group : String
  pub message : Message
  pub event_type : String
  pub attempts : ℕ
  pub last_error : Failure
  pub failed_at : ℕ

pub record Tables (F : Type 0) : Type 0 where
  pub inbox : List (ℕ × String)
  pub projection : List (ProjectionRow F)
  pub queue : List QueueRow
  pub stale : List StaleDelivery
  pub dead_letters : List DeadLetter

abbrev pub is_entry : ℕ → String → ℕ × String → Bool
is_entry event group e = eqb e.0 event && e.1 == group

abbrev pub is_seen : {F : Type 0} → ℕ → String → Tables F → Bool
is_seen event group db = any (is_entry event group) db.inbox

-- `LEAST(a,b)`
abbrev pub least : ℕ → ℕ → ℕ
least a b = if leb a b then a else b

-- `COALESCE(a,b)`
abbrev pub coalesce : {A : Type 0} → Option A → Option A → Option A
coalesce none b = b
coalesce (some a) b = some a

abbrev pub has_task : {F : Type 0} → String → ProjectionRow F → Bool
has_task id r = r.warehouse_task_id == id

abbrev pub has_queue_id : String → QueueRow → Bool
has_queue_id id q = q.task_id == id

-- The values of the INSERT. The column payload is a jsonb, which keeps the value of its text and not
-- the text; here it is the text.
unfoldable pub row_of :
    {F : Type 0} → ℕ → TaskPayload F → String → Option ℕ → ℕ → ℕ → ProjectionRow F
row_of event p raw dispatched received now = record {
  warehouse_task_id = p.warehouse_task_id;
  task_type = to_upper p.task_type;
  task_version = p.task_version;
  status = to_upper p.status;
  priority = priority_or_default p.priority;
  site_id = p.site_id;
  warehouse_id = p.warehouse_id;
  warehouse_code = p.warehouse_code;
  source_location_id = p.source_location_id;
  source_location_code = p.source_location_code;
  source_bin_id = p.source_bin_id;
  source_bin_code = p.source_bin_code;
  destination_location_id = p.destination_location_id;
  destination_location_code = p.destination_location_code;
  destination_bin_id = p.destination_bin_id;
  destination_bin_code = p.destination_bin_code;
  work_order_id = p.work_order_id;
  work_order_code = p.work_order_code;
  material_request_id = p.material_request_id;
  material_request_line_id = p.material_request_line_id;
  expected_receipt_id = p.expected_receipt_id;
  item_id = p.item_id;
  item_code = p.item_code;
  revision_id = p.revision_id;
  revision_code = p.revision_code;
  requested_quantity = p.requested_quantity;
  confirmed_quantity = p.confirmed_quantity;
  remaining_quantity = p.remaining_quantity;
  uom_id = p.uom_id;
  uom_code = p.uom_code;
  lot_id = p.lot_id;
  lot_code = p.lot_code;
  lpn_code = p.lpn_code;
  serial_numbers = p.serial_numbers;
  allocations = p.allocations;
  scan_requirements = p.scan_requirements;
  correlation_id = p.correlation_id;
  causation_id = p.causation_id;
  payload = raw;
  source_event_id = event;
  source_dispatched_at = dispatched;
  backend_received_at = received;
  updated_at = now;
}

-- `DO UPDATE SET`: every column of the new row, but for two of its times.
abbrev pub merged : {F : Type 0} → ProjectionRow F → ProjectionRow F → ProjectionRow F
merged new old = record new {
  source_dispatched_at = coalesce new.source_dispatched_at old.source_dispatched_at;
  backend_received_at = least old.backend_received_at new.backend_received_at;
}

-- `INSERT … ON CONFLICT (warehouse_task_id) DO UPDATE`
unfoldable pub upsert_projection :
    {F : Type 0} → ProjectionRow F → List (ProjectionRow F) → List (ProjectionRow F)
upsert_projection new rows =
    if any (has_task new.warehouse_task_id) rows
    then update_where (has_task new.warehouse_task_id) (merged new) rows
    else rows ++ (new ∷ [])

abbrev pub text_option : String → Option String
text_option s = if not (s == "") then some s else none

abbrev pub queue_row : {F : Type 0} → TaskPayload F → String → String → ℕ → QueueRow
queue_row p category status now = record {
  task_id = p.warehouse_task_id;
  category = category;
  status = status;
  priority = priority_or_default p.priority;
  warehouse_id = p.warehouse_id;
  operator_id = text_option p.assigned_operator_id;
  version = p.task_version;
  updated_at = now;
}

unfoldable pub without : String → List QueueRow → List QueueRow
without id [] = []
without id (q ∷ qs) = let rest = without id qs in if has_queue_id id q then rest else q ∷ rest

unfoldable pub upsert_queue : QueueRow → List QueueRow → List QueueRow
upsert_queue new rows =
    if any (has_queue_id new.task_id) rows
    then update_where (has_queue_id new.task_id)
        (λ old. record new { operator_id = coalesce new.operator_id old.operator_id }) rows
    else rows ++ (new ∷ [])

-- `syncOperatorQueue`. The task of a movement, a receipt or a count refers to its row here, and a
-- referenced row is not deleted: the statement fails.
unfoldable pub sync_operator_queue :
    {F : Type 0}
    → (String → Bool)
    → TaskPayload F
    → String
    → String
    → ℕ
    → List QueueRow
    → Option (List QueueRow)
sync_operator_queue is_referenced p category status now rows =
    if status == ""
    then (if any (has_queue_id p.warehouse_task_id) rows && is_referenced p.warehouse_task_id
        then none
        else some (without p.warehouse_task_id rows))
    else some (upsert_queue (queue_row p category status now) rows)

abbrev pub is_letter : ℕ → String → DeadLetter → Bool
is_letter event group d = eqb d.event_id event && d.consumer_group == group

-- `INSERT INTO event_dlq … ON CONFLICT … DO UPDATE`
unfoldable pub insert_letter : DeadLetter → List DeadLetter → List DeadLetter
insert_letter new rows =
    if any (is_letter new.event_id new.consumer_group) rows
    then update_where (is_letter new.event_id new.consumer_group)
        (λ old. record old {
          attempts = old.attempts + 1;
          last_error = new.last_error;
          failed_at = new.failed_at;
        })
        rows
    else rows ++ (new ∷ [])
