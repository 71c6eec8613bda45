-- ===== src/Wmstask/Rows.antt =====
-- wmstask: the rows of wms_task_projection, pda_task_execution, pda_task_scan, pda_task_command and
-- integration_outbox, and the statements of service.go and command.go on them. Quantities are
-- float64, over the arithmetic that a record holds; the hashes are parameters.
use pda_backend.Common.{
  ℕ, String, Option, none, some, List, [], ◌∷◌, ◌++◌, Bool, true, false, not, ◌&&◌, ◌||◌, ◌==◌, eqb,
  any, if◌then◌else◌,
}
use pda_backend.Common.Text.{equal_fold}

-- What the code does with float64.
pub record Floating (F : Type 0) : Type 0 where
  pub is_le : F → F → Bool
  pub is_lt : F → F → Bool
  pub plus : F → F → F
  pub minus : F → F → F
  pub zero : F
  pub tolerance : F

pub data State : Type 0 where
  dispatched started completed failed : State

abbrev pub is_started : State → Bool
is_started State.started = true
is_started _ = false

abbrev pub is_finished : State → Bool
is_finished State.completed = true
is_finished State.failed = true
is_finished _ = false

pub record Projection (F : Type 0) : Type 0 where
  pub task_type : String
  pub task_version : ℕ
  pub status : String
  pub warehouse_id : String
  pub source_location_id : String
  pub destination_id : String
  pub revision_id : String
  pub item_code : String
  pub lot_id : String
  pub uom_code : String
  pub requested_quantity : F
  pub remaining_quantity : F
  pub scan_requirements : List String
  pub correlation_id : String
  pub work_order_id : String
  pub material_request_id : String
  pub site_id : String

-- A row of pda_task_execution.
pub record Execution (F : Type 0) : Type 0 where
  pub pda_task_id : ℕ
  pub task_version : ℕ
  pub state : State
  pub operator_id : String
  pub device_id : String
  pub confirmed_quantity : F
  pub reason_code : String
  pub started_at : Option ℕ
  pub finished_at : Option ℕ
  pub updated_at : ℕ

-- A row of pda_task_scan, unique by task, type and hash.
pub record Scan : Type 0 where
  pub task_id : String
  pub scan_type : String
  pub scan_value : String
  pub scan_hash : ℕ
  pub accepted : Bool
  pub operator_id : String
  pub device_id : String

-- The parts of a payload that differ between the three facts.
pub data Fact (F : Type 0) : Type 0 where
  task_started : (operator device : String) (at : ℕ) → Fact F
  task_completed :
      (operator device : String) (confirmed requested remaining : F) (uom : String)
      (evidence : List Scan) (at : ℕ)
      → Fact F
  task_failed : (operator device reason : String) (evidence : List Scan) (at : ℕ) → Fact F

-- A row of integration_outbox with the parts of its envelope that are not constant.
pub record IntegrationEvent (F : Type 0) : Type 0 where
  pub event_id : ℕ
  pub aggregate_id : String
  pub aggregate_version : ℕ
  pub pda_task_id : ℕ
  pub task_type : String
  pub warehouse_id : String
  pub work_order_id : String
  pub material_request_id : String
  pub correlation_id : String
  pub site_id : String
  pub occurred_at : ℕ
  pub fact : Fact F

-- The device's view of a task: the joined rows and the types of the accepted scans.
pub record Task (F : Type 0) : Type 0 where
  pub warehouse_task_id : String
  pub projected : Projection F
  pub execution : Option (Execution F)
  pub completed_scans : List String

-- A row of pda_task_command.
pub record Command (F : Type 0) : Type 0 where
  pub command_id : ℕ
  pub request_hash : ℕ
  pub result : Task F

pub record Database (F : Type 0) : Type 0 where
  pub projections : List (String × Projection F)
  pub executions : List (String × Execution F)
  pub scans : List Scan
  pub commands : List (Command F)
  pub outbox : List (IntegrationEvent F)

module _ {F : Type 0} where
  unfoldable pub command_of : ℕ → List (Command F) → Option (Command F)
  command_of id [] = none
  command_of id (c ∷ cs) =
      let rest = command_of id cs in if eqb c.command_id id then some c else rest

  -- `expectedScanValue`
  unfoldable pub expected_scan_value : Projection F → String → Option String
  expected_scan_value p scan_type =
      if scan_type == "SOURCE"
      then some p.source_location_id
      else if scan_type == "DESTINATION"
      then some p.destination_id
      else if scan_type == "ITEM"
      then some p.revision_id
      else if scan_type == "LOT"
      then some p.lot_id
      else none

-- `contains`
unfoldable pub contains : List String → String → Bool
contains [] needle = false
contains (value ∷ values) needle = equal_fold value needle || contains values needle

abbrev pub same_scan : Scan → Scan → Bool
same_scan a b = a.task_id == b.task_id && a.scan_type == b.scan_type && eqb a.scan_hash b.scan_hash

-- `INSERT INTO pda_task_scan … ON CONFLICT … DO NOTHING`
unfoldable pub insert_scan : Scan → List Scan → List Scan
insert_scan scan scans = if any (λ s. same_scan s scan) scans then scans else scans ++ (scan ∷ [])

-- `scanEvidence`: the scans of a task, in the order in which they were stored.
unfoldable pub scan_evidence : String → List Scan → List Scan
scan_evidence id [] = []
scan_evidence id (s ∷ ss) =
    let rest = scan_evidence id ss in if s.task_id == id then s ∷ rest else rest

-- `acceptedScanTypes`: each type once, in the order in which the last of each was stored.
unfoldable pub accepted_scan_types : String → List Scan → List String
accepted_scan_types id [] = []
accepted_scan_types id (s ∷ ss) =
    let rest = accepted_scan_types id ss in
    if s.task_id == id && s.accepted && not (any (λ t. t == s.scan_type) rest)
    then s.scan_type ∷ rest
    else rest
