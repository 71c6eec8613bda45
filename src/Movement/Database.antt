-- ===== src/Movement/Database.antt =====
-- movement/adapters/postgres/store.go, over the rows of its tables. A statement that breaks a key of
-- migrations/execution/000003_movement_workflows.up.sql fails. The JSON of a result is the value that
-- it writes.
use pda_backend.Common.{
  ℕ, String, Option, none, some, List, [], ◌∷◌, ◌++◌, Bool, true, false, ◌||◌, ◌==◌, eqb, any,
  if◌then◌else◌,
}
use pda_backend.Platform.{Error, ok, err, Action, or_return, Actor}
use pda_backend.Platform.Envelope.{Envelope}
use pda_backend.Movement.Task.{Task, Workflow, Status}
use pda_backend.Movement.Stock
use pda_backend.Movement.Stock.{Stock}

abbrev pub workflow_name : Workflow → String
workflow_name Workflow.putaway = "PUTAWAY"
workflow_name Workflow.picking = "PICKING"
workflow_name Workflow.replenishment = "REPLENISHMENT"

-- `a == b` on workflows
abbrev pub same_workflow : Workflow → Workflow → Bool
same_workflow Workflow.putaway Workflow.putaway = true
same_workflow Workflow.picking Workflow.picking = true
same_workflow Workflow.replenishment Workflow.replenishment = true
same_workflow _ _ = false

-- The payload {taskId, workflow, status, quantity} of a movement event.
pub record MovementPayload : Type 0 where
  pub task_id : String
  pub workflow : Workflow
  pub status : Status
  pub quantity : ℕ

abbrev pub MovementEvent : Type 0
MovementEvent = Envelope MovementPayload

pub record CommandResult : Type 0 where
  pub command_id : ℕ
  pub workflow : Workflow
  pub warehouse_id : String
  pub operator_id : String
  pub result : Task

pub record AuditRecord : Type 0 where
  pub action : String
  pub aggregate_id : String
  pub actor : Actor
  pub details : MovementPayload

-- The columns of warehouse_task that a movement task writes.
pub record BoardRow : Type 0 where
  pub status : Status
  pub operator_id : Option String
  pub version : ℕ
  pub updated_at : ℕ

pub record Database : Type 0 where
  pub rows : List Task
  pub board : List (String × BoardRow)
  pub stock : Stock
  pub commands : List (String × CommandResult)
  pub outbox : List MovementEvent
  pub audit : List AuditRecord

-- `scan`: the columns of movement_task. The fields of a task that are no column come back empty.
unfoldable pub scan : Task → Task
scan t = record t {
  source_location_id = "";
  source_location_code = "";
  source_bin_id = "";
  source_bin_code = "";
  destination_location_id = "";
  destination_location_code = "";
  destination_bin_id = "";
  destination_bin_code = "";
  lot = "";
  lpn_validated = false;
  lot_validated = false;
}

unfoldable pub row_of : String → List Task → Option Task
row_of id [] = none
row_of id (t ∷ ts) = let rest = row_of id ts in if t.id == id then some t else rest

unfoldable pub get_for_update : String → Action Database Task
get_for_update id s = elim (row_of id s.rows) [
  | none ↦ (err Error.task_not_found, s)
  | some t ↦ (ok (scan t), s)
]

-- The columns that Save writes.
abbrev pub written : Task → Task → Task
written t row = record row {
  status = t.status;
  operator_id = t.operator_id;
  version = t.version;
  completed_quantity = t.completed_quantity;
  source_validated = t.source_validated;
  destination_validated = t.destination_validated;
  item_validated = t.item_validated;
  updated_at = t.updated_at;
}

unfoldable pub update_row : Task → List Task → Option (List Task)
update_row t [] = none
update_row t (row ∷ rows) =
    let rest = update_row t rows in
    if row.id == t.id
    then some (written t row ∷ rows)
    else elim rest [ none ↦ none | some rows' ↦ some (row ∷ rows') ]

unfoldable pub update_board : Task → List (String × BoardRow) → List (String × BoardRow)
update_board t [] = []
update_board t (b ∷ bs) =
    let rest = b ∷ update_board t bs in
    if b.0 == t.id
    then (
      b.0,
      record {
        status = t.status;
        operator_id = t.operator_id;
        version = t.version;
        updated_at = t.updated_at;
      },
    )
      ∷ bs
    else rest

unfoldable pub save : Task → Action Database (Unit {0})
save t s = elim (update_row t s.rows) [
  | none ↦ (err Error.task_not_found, s)
  | some rows ↦ (ok tt, record s { rows = rows; board = update_board t s.board })
]

unfoldable pub check_move : Task → ℕ → Action Database (Unit {0})
check_move t q s = or_return (Stock.check_move t q s.stock) s

unfoldable pub apply_move : Task → ℕ → Action Database (Unit {0})
apply_move t q s = let (r, stock) = Stock.apply_move t q s.stock in (r, record s { stock = stock })

unfoldable pub command_of : String → List (String × CommandResult) → Option CommandResult
command_of key [] = none
command_of key (c ∷ cs) = let rest = command_of key cs in if c.0 == key then some c.1 else rest

unfoldable pub find : String → Action Database (Option CommandResult)
find key s = (ok (command_of key s.commands), s)

unfoldable pub save_command : String → CommandResult → Action Database (Unit {0})
save_command key r s =
    if any (λ c. c.0 == key || eqb c.1.command_id r.command_id) s.commands
    then (err (Error.fault 0), s)
    else (ok tt, record s { commands = (key, r) ∷ s.commands })

unfoldable pub append : MovementEvent → Action Database (Unit {0})
append e s =
    if any (λ f. eqb f.event_id e.event_id) s.outbox
    then (err (Error.fault 0), s)
    else (ok tt, record s { outbox = s.outbox ++ (e ∷ []) })

unfoldable pub append_movement_audit :
    String → Task → Actor → MovementPayload → Action Database (Unit {0})
append_movement_audit action t actor details s = (
  ok tt,
  record s {
    audit =
        s.audit
        ++ (record { action = action; aggregate_id = t.id; actor = actor; details = details } ∷ []);
  },
)

-- `WithinTransaction`: what a failed operation wrote is rolled back.
unfoldable pub within_transaction {ℓ} : {A : Type ℓ} → Action Database A → Action Database A
within_transaction operation s =
    let (r, s') = operation s in elim r [ ok a ↦ (ok a, s') | err e ↦ (err e, s) ]
