-- ===== src/Ingestion/Contract.antt =====
-- integration_envelope.go, and the payload of wms_task_consumer.go with the tests of its fields.
use pda_backend.Common.{
  ℕ, String, Option, none, some, List, Bool, true, false, not, ◌&&◌, ◌||◌, ◌==◌, eqb, leb, ltb,
  if◌then◌else◌,
}
use pda_backend.Common.Text.{trim_space, to_upper}
use Prim.Native.Char.{code}

-- The fields of an envelope that are read.
pub record IntegrationEnvelope : Type 0 where
  pub event_id : String
  pub event_type : String
  pub occurred_at : String
  pub aggregate_id : String
  pub metadata_key : Option String
  pub payload : String

-- The payload of a dispatch. A quantity is a float64 that is only copied; a task version or a
-- priority below 0 is 0 here, which the code treats alike.
pub record TaskPayload (F : Type 0) : Type 0 where
  pub warehouse_task_id : String
  pub task_type : String
  pub task_version : ℕ
  pub status : String
  pub priority : ℕ
  pub site_id : String
  pub warehouse_id : String
  pub warehouse_code : String
  pub source_location_id : String
  pub source_location_code : String
  pub source_bin_id : String
  pub source_bin_code : String
  pub destination_location_id : String
  pub destination_location_code : String
  pub destination_bin_id : String
  pub destination_bin_code : String
  pub work_order_id : String
  pub work_order_code : String
  pub material_request_id : String
  pub material_request_line_id : String
  pub expected_receipt_id : String
  pub item_id : String
  pub item_code : String
  pub revision_id : String
  pub revision_code : String
  pub requested_quantity : F
  pub confirmed_quantity : F
  pub remaining_quantity : F
  pub uom_id : String
  pub uom_code : String
  pub lot_id : String
  pub lot_code : String
  pub lpn_code : String
  pub serial_numbers : List String
  pub allocations : List String
  pub scan_requirements : List String
  pub assigned_operator_id : String
  pub assigned_device_id : String
  pub correlation_id : String
  pub causation_id : String

-- `taskCategory`
unfoldable pub task_category : String → Option String
task_category task_type =
    let t = to_upper task_type in
    if t == "PICKING" || t == "STAGE_TO_PRODUCTION" || t == "ISSUE_TO_PRODUCTION"
    then some "PICKING"
    else if t == "PUTAWAY"
    then some "PUTAWAY"
    else if t == "RECEIVE_FINISHED_GOODS"
        || t == "RECEIVE_SEMI_FINISHED"
        || t == "RETURN_FROM_PRODUCTION"
    then some "RECEIVING"
    else if t == "REPLENISHMENT" || t == "TRANSFER"
    then some "REPLENISHMENT"
    else none

-- `queueStatus`; "" withdraws the task.
unfoldable pub queue_status : String → Option String
queue_status status =
    let s = to_upper status in
    if s == "CREATED"
    then some "NEW"
    else if s == "ASSIGNED" || s == "CLAIMED"
    then some "ASSIGNED"
    else if s == "IN_PROGRESS" || s == "PARTIALLY_COMPLETED"
    then some "IN_PROGRESS"
    else if s == "COMPLETED"
    then some "COMPLETED"
    else if s == "CANCELLED" || s == "FAILED"
    then some ""
    else none

unfoldable pub priority_or_default : ℕ → ℕ
priority_or_default priority = if leb priority 0 || ltb 100 priority then 5 else priority

abbrev pub starts_with_v : String → Option String
starts_with_v String.[] = none
starts_with_v (String.◌∷◌ c s) = if eqb (code c) b'v' then some s else none

-- What follows the last ".v", which strings.LastIndex finds.
unfoldable pub after_last_mark : String → Option String
after_last_mark String.[] = none
after_last_mark (String.◌∷◌ c s) =
    let later = after_last_mark s in
    elim later [ some t ↦ some t | none ↦ if eqb (code c) b'.' then starts_with_v s else none ]

-- The integer that fmt.Sscanf reads with "%d": its sign, and its absolute value.
pub record Scanned : Type 0 where
  pub is_negative : Bool
  pub magnitude : ℕ

-- `ContractVersion`, where 0 stands for an event type without a version.
unfoldable pub contract_version : (String → Option Scanned) → IntegrationEnvelope → Scanned
contract_version scan e = elim (after_last_mark e.event_type) [
  | none ↦ record { is_negative = false; magnitude = 0 }
  | some t ↦ elim (scan t) [ none ↦ record { is_negative = false; magnitude = 0 } | some n ↦ n ]
]

-- `version == 0 || version > supportedContractVersion`
unfoldable pub is_unsupported : Scanned → Bool
is_unsupported v = eqb v.magnitude 0 || (not v.is_negative && ltb 1 v.magnitude)

abbrev pub is_nonempty : Option String → Bool
is_nonempty none = false
is_nonempty (some key) = not (key == "")

abbrev pub text_or : Option String → String → String
text_or none fallback = fallback
text_or (some key) fallback = if not (key == "") then key else fallback

unfoldable pub partition_key : IntegrationEnvelope → String
partition_key e = text_or e.metadata_key e.aggregate_id

abbrev pub is_blank : String → Bool
is_blank s = trim_space s == ""

abbrev pub is_time : Option ℕ → Bool
is_time none = false
is_time (some t) = true

-- Whether `Validate` returns no error.
unfoldable pub validates : (String → Bool) → (String → Option ℕ) → IntegrationEnvelope → Bool
validates is_json parse_time e =
    not (is_blank e.event_id || is_blank e.event_type || is_blank e.payload)
    && is_json e.payload
    && (e.occurred_at == "" || is_time (parse_time e.occurred_at))
