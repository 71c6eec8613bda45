-- ===== src/Execution/Task.antt =====
-- execution/domain/task.go: a warehouse task that one operator at a time may hold.
pub mod Ownership
use pda_backend.Common.{
  ℕ, String, Option, none, some, List, Bool, true, false, ◌&&◌, eqb, if◌then◌else◌, holds,
  held_by_other, not,
}
use pda_backend.Common.Int64.{next}
use pda_backend.Platform.{Error}

pub data Status : Type 0 where
  created assigned in_progress completed on_hold : Status

pub data Category : Type 0 where
  receiving putaway picking replenishment cycle_count : Category

abbrev pub status_name : Status → String
status_name Status.created = "NEW"
status_name Status.assigned = "ASSIGNED"
status_name Status.in_progress = "IN_PROGRESS"
status_name Status.completed = "COMPLETED"
status_name Status.on_hold = "ON_HOLD"

abbrev pub category_name : Category → String
category_name Category.receiving = "RECEIVING"
category_name Category.putaway = "PUTAWAY"
category_name Category.picking = "PICKING"
category_name Category.replenishment = "REPLENISHMENT"
category_name Category.cycle_count = "CYCLE_COUNT"

-- The receiving lines of the snapshot, whose quantities are floating-point and which no operation
-- reads, are left out.
pub record Task : Type 0 where
  pub id : String
  pub category : Category
  pub status : Status
  pub priority : ℕ
  pub title : String
  pub line_count : ℕ
  pub piece_count : ℕ
  pub due_at : Option ℕ
  pub warehouse_id : String
  pub operator_id : Option String
  pub lock_state : String
  pub version : ℕ
  pub created_at : ℕ
  pub updated_at : ℕ
  pub purchase_order_id : String
  pub lpn_code : String
  pub supplier : String

abbrev is_assigned : Status → Bool
is_assigned Status.assigned = true
is_assigned _ = false

-- A method on `*Task` returns the task as it leaves it, and the error.
unfoldable pub claim : String → ℕ → ℕ → Task → Task × Option Error
claim operator base now t =
    if not (eqb t.version base)
    then (t, some Error.task_version_conflict)
    else if held_by_other t.operator_id operator
    then (t, some Error.task_locked)
    else if holds t.operator_id operator && is_assigned t.status
    then (t, none)
    else (
      record t {
        operator_id = some operator;
        status = Status.assigned;
        version = next t.version;
        updated_at = now;
      },
      none,
    )

unfoldable pub release : String → ℕ → ℕ → Task → Task × Option Error
release operator base now t =
    if not (eqb t.version base)
    then (t, some Error.task_version_conflict)
    else if not (holds t.operator_id operator)
    then (t, some Error.task_not_assigned)
    else (
      record t {
        operator_id = none;
        status = Status.created;
        version = next t.version;
        updated_at = now;
      },
      none,
    )
