-- ===== src/Counting/Service.antt =====
-- The count commands of inventory/application/service.go, with their statements of inventory/adapters/
-- postgres/store.go. The lines of a task stand with its row, in the order of line_id; the row of
-- warehouse_task, which SaveCount updates too, is left out, and so are the rows of transfers among
-- those of the commands.
pub mod Replays
use pda_backend.Common.{
  ℕ, String, Option, none, some, List, [], ◌∷◌, ◌++◌, Bool, true, false, not, ◌&&◌, ◌||◌, ◌==◌, eqb,
  leb, any, all, if◌then◌else◌, held_by_other,
}
use pda_backend.Common.Int64.{half, lt_i64}
use pda_backend.Common.Rows.{first_where, update_where}
use pda_backend.Platform.{Error, Result, ok, err, Actor}
use pda_backend.Platform.Envelope.{Envelope, encoded, validate}
use pda_backend.Counting.Task.{Task, Line, submit, recount, complete}

pub record Command : Type 0 where
  pub id : ℕ
  pub key : String
  pub base_version : ℕ
  pub actor : Actor

abbrev pub CountEvent : Type 0
CountEvent = Envelope Task

-- A row of inventory_command_status.
pub record CommandRow : Type 0 where
  pub key : String
  pub command_id : ℕ
  pub warehouse_id : String
  pub operator_id : String
  pub result : Task

pub record AuditRow : Type 0 where
  pub action : String
  pub id : String
  pub actor : Actor
  pub details : Task

pub record Tables : Type 0 where
  pub tasks : List Task
  pub commands : List CommandRow
  pub outbox : List CountEvent
  pub audit : List AuditRow

pub record Fresh : Type 0 where
  pub event_id : ℕ
  pub now : ℕ

abbrev pub has_id : String → Task → Bool
has_id id t = t.id == id

abbrev pub has_key : String → CommandRow → Bool
has_key key r = r.key == key

-- The columns that `count` reads: neither the tolerance nor the flag of a blind count is one.
abbrev pub scanned : Task → Task
scanned t = record t { blind_count = false; tolerance = 0 }

unfoldable pub get_count : String → List Task → Result Task
get_count id rows = elim (first_where (has_id id) rows) [
  | none ↦ err Error.inventory_not_found
  | some t ↦ ok (scanned t)
]

-- `CHECK(counted_quantity>=0)`
abbrev pub is_storable : Line → Bool
is_storable l = elim l.counted [ none ↦ true | some q ↦ not (lt_i64 q 0) ]

unfoldable pub save_count : Task → List Task → Option (List Task)
save_count t rows =
    if all is_storable t.lines
    then some (
        update_where (has_id t.id)
          (λ old. record old {
            operator_id = t.operator_id;
            status = t.status;
            version = t.version;
            updated_at = t.updated_at;
            lines = t.lines;
          })
          rows)
    else none

unfoldable pub append : CountEvent → List CountEvent → Option (List CountEvent)
append e rows = if any (λ x. eqb x.event_id e.event_id) rows then none else some (rows ++ (e ∷ []))

abbrev pub answer_row : Command → Task → CommandRow
answer_row x t = record {
  key = x.key;
  command_id = x.id;
  warehouse_id = x.actor.warehouse_id;
  operator_id = x.actor.operator_id;
  result = t;
}

unfoldable pub save_command : CommandRow → List CommandRow → Option (List CommandRow)
save_command r rows =
    if any (λ x. has_key r.key x || eqb x.command_id r.command_id) rows
    then none
    else some (rows ++ (r ∷ []))

unfoldable pub count_detail : String → Actor → Tables → Result Task
count_detail id a db = elim (get_count id db.tasks) [
  | err e ↦ err e
  | ok t ↦
      if not (t.warehouse_id == a.warehouse_id) || held_by_other t.operator_id a.operator_id
      then err Error.warehouse_access_denied
      else ok t
]

unfoldable pub validate_count_location : String → String → Actor → Tables → Option Error
validate_count_location id location a db = elim (count_detail id a db) [
  | err e ↦ some e
  | ok t ↦ if not (t.location_id == location) then some Error.location_invalid else none
]

unfoldable pub validate_count_item : String → String → String → Actor → Tables → Option Error
validate_count_item id line_id item a db = elim (count_detail id a db) [
  | err e ↦ some e
  | ok t ↦
      if any (λ l. l.id == line_id && l.item_id == item) t.lines
      then none
      else some Error.item_not_in_document
]

-- `makeEvent`
abbrev pub make_event : String → Command → Fresh → Task → CountEvent
make_event event_type x fresh t = record {
  event_id = fresh.event_id;
  event_type = event_type;
  event_version = 1;
  aggregate_type = "CycleCountTask";
  aggregate_id = t.id;
  aggregate_version = t.version;
  occurred_at = fresh.now;
  correlation_id = x.actor.correlation_id;
  causation_id = x.id;
  warehouse_id = x.actor.warehouse_id;
  operator_id = x.actor.operator_id;
  device_id = x.actor.device_id;
  topic = "pda.inventory.events.v1";
  payload = encoded t;
}

-- From SaveCount on, with the task as the transition left it.
unfoldable pub record_count :
    String → Command → Fresh → Task → Tables → Result (Task × Option CountEvent) × Tables
record_count event_type x fresh t db =
    let event = make_event event_type x fresh t in
    elim (save_count t db.tasks) [
      | none ↦ (err (Error.fault 0), db)
      | some tasks ↦ elim (validate event) [
        | some e ↦ (err e, db)
        | none ↦ elim (append event db.outbox) [
          | none ↦ (err (Error.fault 0), db)
          | some outbox ↦ elim (save_command (answer_row x t) db.commands) [
            | none ↦ (err (Error.fault 0), db)
            | some commands ↦ (
              ok (t, some event),
              record {
                tasks = tasks;
                commands = commands;
                outbox = outbox;
                audit =
                    db.audit
                    ++ (record { action = event_type; id = t.id; actor = x.actor; details = t }
                        ∷ []);
              },
            )
          ]
        ]
      ]
    ]

unfoldable pub first_time :
    String
    → String
    → Command
    → Fresh
    → (Task → Task × Option Error)
    → Tables
    → Result (Task × Option CountEvent) × Tables
first_time event_type id x fresh transition db = elim (get_count id db.tasks) [
  | err e ↦ (err e, db)
  | ok t ↦
      if not (t.warehouse_id == x.actor.warehouse_id)
      then (err Error.warehouse_access_denied, db)
      else elim (transition t).1 [
        | some e ↦ (err e, db)
        | none ↦ record_count event_type x fresh (transition t).0 db
      ]
]

-- The transaction: an error gives back the tables as they were.
unfoldable pub in_transaction :
    String
    → String
    → Command
    → Fresh
    → (Task → Task × Option Error)
    → Tables
    → Result (Task × Option CountEvent) × Tables
in_transaction event_type id x fresh transition db =
    elim (first_where (has_key x.key) db.commands) [
      | some old ↦ (ok (old.result, none), db)
      | none ↦ first_time event_type id x fresh transition db
    ]

-- `(domain.CountTask, error)`: an error of the publisher comes with the task.
abbrev pub answered :
    (CountEvent → Option Error) → Result (Task × Option CountEvent) → Option Task × Option Error
answered refusal (err e) = (none, some e)
answered refusal (ok (t, none)) = (some t, none)
answered refusal (ok (t, some event)) = (some t, refusal event)

pub data Operation : Type 0 where
  submits : (line : String) (quantity : ℕ) → Operation
  recounts : (line : String) → Operation
  completes : Operation

abbrev pub event_type_of : Operation → String
event_type_of (submits line quantity) = "CycleCountSubmitted"
event_type_of (recounts line) = "CycleCountRecountRequested"
event_type_of completes = "CycleCountCompleted"

abbrev pub transition_of : Operation → Command → ℕ → Task → Task × Option Error
transition_of (submits line quantity) x now t =
    submit x.actor.operator_id line quantity x.base_version now t
transition_of (recounts line) x now t = recount x.actor.operator_id line x.base_version now t
transition_of completes x now t = complete x.actor.operator_id x.base_version now t

-- SubmitCount, Recount and CompleteCount.
unfoldable pub count_mutation :
    (CountEvent → Option Error)
    → Operation
    → String
    → Command
    → Fresh
    → Tables
    → (Option Task × Option Error) × Tables
count_mutation refusal operation id x fresh db =
    let (result, after) =
      in_transaction (event_type_of operation) id x fresh (transition_of operation x fresh.now)
        db in
    (answered refusal result, after)
