-- ===== src/Ingestion/Consumer.antt =====
-- wms_task_consumer.go: `process`, `deadLetter` and the loop of `Start` over one partition. The
-- deliveries come one after another: in the code three readers, one for each topic, call `process`
-- at the same time, and two first deliveries of a task do not lock each other out.
pub mod Versions
pub mod Latest
pub mod Order
pub mod Redelivery
pub mod Offsets
use pda_backend.Common.{
  ◌≡◌, refl, ◌⊎◌, inl, inr, ℕ, ◌+◌, String, Option, none, some, List, [], ◌∷◌, ◌++◌, Bool, true,
  false, not, ◌&&◌, ◌||◌, ◌==◌, eqb, leb, ltb, if◌then◌else◌,
}
use pda_backend.Common.Rows.{first_where}
use pda_backend.Ingestion.Contract.{
  IntegrationEnvelope, TaskPayload, Scanned, validates, contract_version, is_unsupported,
  task_category, queue_status,
}
use pda_backend.Ingestion.Rows.{
  ProjectionRow, QueueRow, StaleDelivery, Failure, Message, DeadLetter, Tables, is_seen, has_task,
  row_of, upsert_projection, sync_operator_queue, insert_letter, malformed_envelope,
  invalid_envelope, event_id_not_uuid, unsupported_event_version, malformed_payload,
  missing_required_identity, unsupported_task_type, unsupported_task_status, invalid_occurred_at,
}

-- What the code calls of the packages encoding/json, time, fmt and uuid, and the limits of the
-- columns and keys of Postgres that no test of the code anticipates.
pub record Outside (F : Type 0) : Type 0 where
  pub read_envelope : String → Option IntegrationEnvelope
  pub read_payload : String → Option (TaskPayload F)
  pub is_json : String → Bool
  pub parse_time : String → Option ℕ
  pub scan : String → Option Scanned
  pub parse_uuid : String → Option ℕ
  pub sha_1 : String → ℕ → ℕ → ℕ
  pub fits : ProjectionRow F → Bool
  pub is_storable : DeadLetter → Bool
  pub is_referenced : String → Bool

pub record Dispatch (F : Type 0) : Type 0 where
  pub event : ℕ
  pub envelope : IntegrationEnvelope
  pub payload : TaskPayload F
  pub category : String
  pub status : String

pub data Verdict (F : Type 0) : Type 0 where
  rejected : (event : ℕ) (event_type : String) → Failure → Verdict F
  accepted : Dispatch F → Verdict F

pub Verdict-cases :
    {F : Type 0}
    → (v : Verdict F)
    → ((event : ℕ) × (event_type : String) × (failure : Failure) × (v
          ≡ rejected event event_type failure))
      ⊎ ((d : Dispatch F) × (v ≡ accepted d))
Verdict-cases (rejected event event_type failure) = inl (event, event_type, failure, refl)
Verdict-cases (accepted d) = inr (d, refl)

abbrev pub is_identified : {F : Type 0} → TaskPayload F → Bool
is_identified p = not (p.warehouse_task_id == "" || p.warehouse_id == "" || ltb p.task_version 1)

-- `err := tx.QueryRow(… task_version …)`, with 0 for no row.
abbrev pub version_or_0 : {F : Type 0} → Option (ProjectionRow F) → ℕ
version_or_0 none = 0
version_or_0 (some r) = r.task_version

abbrev pub projected_version : {F : Type 0} → String → Tables F → ℕ
projected_version id db = version_or_0 (first_where (has_task id) db.projection)

abbrev pub received_at : Option ℕ → ℕ → ℕ
received_at none now = now
received_at (some t) now = t

module _ {F : Type 0} (outside : Outside F) where
  unfoldable pub classify_payload : ℕ → IntegrationEnvelope → TaskPayload F → Verdict F
  classify_payload event e p =
      if not (is_identified p)
      then rejected event e.event_type missing_required_identity
      else elim (task_category p.task_type) [
        | none ↦ rejected event e.event_type unsupported_task_type
        | some category ↦ elim (queue_status p.status) [
          | none ↦ rejected event e.event_type unsupported_task_status
          | some status ↦ accepted (record {
            event = event;
            envelope = e;
            payload = p;
            category = category;
            status = status;
          })
        ]
      ]

  unfoldable pub classify_event : ℕ → IntegrationEnvelope → Verdict F
  classify_event event e =
      if is_unsupported (contract_version outside.scan e)
      then rejected event e.event_type unsupported_event_version
      else elim (outside.read_payload e.payload) [
        | none ↦ rejected event e.event_type malformed_payload
        | some p ↦ classify_payload event e p
      ]

  -- The tests of `process`, in their order; an unknown event has the nil identifier.
  unfoldable pub classify : Message → Verdict F
  classify m = elim (outside.read_envelope m.value) [
    | none ↦ rejected 0 "" malformed_envelope
    | some e ↦
        if not (validates outside.is_json outside.parse_time e)
        then rejected 0 e.event_type invalid_envelope
        else elim (outside.parse_uuid e.event_id) [
          | none ↦ rejected 0 e.event_type event_id_not_uuid
          | some event ↦ classify_event event e
        ]
  ]

  -- `deadLetter`: its statement fails where jsonb does not take the text.
  unfoldable pub dead_letter :
      String → ℕ → String → Failure → Message → ℕ → Tables F → Bool × Tables F
  dead_letter group event event_type failure m now db =
      let letter : DeadLetter = record {
        event_id = if eqb event 0 then outside.sha_1 m.topic m.partition m.offset else event;
        consumer_group = group;
        message = m;
        event_type = event_type;
        attempts = 1;
        last_error = failure;
        failed_at = now;
      } in
      if outside.is_storable letter
      then (true, record db { dead_letters = insert_letter letter db.dead_letters })
      else (false, db)

  abbrev pub noted : String → Dispatch F → Tables F → Tables F
  noted group d db = record db { inbox = db.inbox ++ ((d.event, group) ∷ []) }

  -- The two upserts, behind the test of the version.
  unfoldable pub project : Dispatch F → Option ℕ → ℕ → ℕ → Tables F → Option (Tables F)
  project d dispatched received now db =
      let row = row_of d.event d.payload d.envelope.payload dispatched received now in
      if not (outside.fits row)
      then none
      else elim (sync_operator_queue outside.is_referenced d.payload d.category d.status now
          db.queue) [
            | none ↦ none
            | some queue ↦
                some (record db { projection = upsert_projection row db.projection; queue = queue })
          ]

  abbrev pub committed : Option (Tables F) → Tables F → Bool × Tables F
  committed none before = (false, before)
  committed (some after) before = (true, after)

  -- The transaction of `process`. The first part of the result is whether the error is nil.
  unfoldable pub ingest : String → Dispatch F → Message → ℕ → Tables F → Bool × Tables F
  ingest group d m now db =
      let projected = projected_version d.payload.warehouse_task_id db in
      let received = received_at m.time now in
      if is_seen d.event group db
      then (true, db)
      else if leb d.payload.task_version projected
      then (
        true,
        record (noted group d db) {
          stale =
              db.stale
              ++ (record {
                event_id = d.event;
                warehouse_task_id = d.payload.warehouse_task_id;
                incoming_version = d.payload.task_version;
                projected_version = projected;
                event_type = d.envelope.event_type;
              }
                  ∷ []);
        },
      )
      else if d.envelope.occurred_at == ""
      then committed (project d none received now (noted group d db)) db
      else elim (outside.parse_time d.envelope.occurred_at) [
        | none ↦ dead_letter group d.event d.envelope.event_type invalid_occurred_at m now db
        | some t ↦ committed (project d (some t) received now (noted group d db)) db
      ]

  abbrev pub handle : String → Verdict F → Message → ℕ → Tables F → Bool × Tables F
  handle group (rejected event event_type failure) m now db =
      dead_letter group event event_type failure m now db
  handle group (accepted d) m now db = ingest group d m now db

  unfoldable pub process : String → Message → ℕ → Tables F → Bool × Tables F
  process group m now db = handle group (classify m) m now db
