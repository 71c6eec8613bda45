-- ===== src/Platform/Envelope.antt =====
-- platform/event/envelope.go. A UUID is the number that its 16 bytes write, with 0 for uuid.Nil; a
-- time is the nanoseconds since Go's zero time, so `IsZero` is `0` and `UTC` changes nothing.
use pda_backend.Common.{
  ℕ, String, Bool, true, false, ◌||◌, ◌==◌, Option, none, some, eqb, if◌then◌else◌,
}
use pda_backend.Common.Int64.{not_pos_i64}
use pda_backend.Common.Text.{trim_space}
use pda_backend.Platform.Errors.{Error}

-- A json.RawMessage: no bytes, bytes that are not JSON, or the encoding of a value.
pub data RawMessage (P : Type 0) : Type 0 where
  no_bytes malformed : RawMessage P
  encoded : P → RawMessage P

pub record Envelope (P : Type 0) : Type 0 where
  pub event_id : ℕ
  pub event_type : String
  pub event_version : ℕ
  pub aggregate_type : String
  pub aggregate_id : String
  pub aggregate_version : ℕ
  pub occurred_at : ℕ
  pub correlation_id : String
  pub causation_id : ℕ
  pub warehouse_id : String
  pub operator_id : String
  pub device_id : String
  pub topic : String
  pub payload : RawMessage P

abbrev is_valid_json : {P : Type 0} → RawMessage P → Bool
is_valid_json no_bytes = false
is_valid_json malformed = false
is_valid_json (encoded p) = true

abbrev blank : String → Bool
blank s = trim_space s == ""

-- The message names the field that was found blank, which the order of a Go map decides; the model
-- leaves it out.
unfoldable pub validate : {P : Type 0} → Envelope P → Option Error
validate e =
    if eqb e.event_id 0
      || eqb e.causation_id 0
      || not_pos_i64 e.event_version
      || not_pos_i64 e.aggregate_version
      || eqb e.occurred_at 0
    then some Error.envelope_invalid
    else if blank e.event_type
        || blank e.aggregate_type
        || blank e.aggregate_id
        || blank e.correlation_id
        || blank e.warehouse_id
        || blank e.operator_id
        || blank e.device_id
        || blank e.topic
    then some Error.envelope_invalid
    else if is_valid_json e.payload
    then none
    else some Error.envelope_invalid
