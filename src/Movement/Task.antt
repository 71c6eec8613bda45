-- ===== src/Movement/Task.antt =====
-- movement/domain/movement.go: the life of a task that moves a quantity of an item between two
-- locations, behind scans of the source, the destination, the item and the lot. The last two
-- transitions are those that movement/application/services.go hands to `mutate` for ConfirmGroup and
-- Complete. Descriptive fields that no operation reads are left out.
pub mod Guards
pub mod Trace
use pda_backend.Common.{
  ℕ, String, Option, none, some, List, [], ◌∷◌, Bool, true, false, not, ◌&&◌, ◌||◌, ◌==◌, eqb,
  if◌then◌else◌, holds, held_by_other,
}
use pda_backend.Common.Int64.{next, add_i64, sub_i64, lt_i64, not_pos_i64}
use pda_backend.Common.Text.{trim_space, equal_fold}
use pda_backend.Platform.{Error}

pub data Workflow : Type 0 where
  putaway picking replenishment : Workflow

pub data Status : Type 0 where
  created assigned in_progress partially_completed completed : Status

pub record Task : Type 0 where
  pub id : String
  pub workflow : Workflow
  pub status : Status
  pub warehouse_id : String
  pub operator_id : Option String
  pub version : ℕ
  pub source_location : String
  pub source_location_id : String
  pub source_location_code : String
  pub source_bin_id : String
  pub source_bin_code : String
  pub destination_location : String
  pub destination_location_id : String
  pub destination_location_code : String
  pub destination_bin_id : String
  pub destination_bin_code : String
  pub item_id : String
  pub barcode : String
  pub lot : String
  pub required : ℕ
  pub completed_quantity : ℕ
  pub source_validated : Bool
  pub lpn_validated : Bool
  pub destination_validated : Bool
  pub item_validated : Bool
  pub lot_validated : Bool
  pub updated_at : ℕ

abbrev pub remaining : Task → ℕ
remaining t = sub_i64 t.required t.completed_quantity

abbrev pub is_picking : Workflow → Bool
is_picking Workflow.picking = true
is_picking _ = false

abbrev pub is_replenishment : Workflow → Bool
is_replenishment Workflow.replenishment = true
is_replenishment _ = false

abbrev pub is_assigned : Status → Bool
is_assigned Status.assigned = true
is_assigned _ = false

abbrev pub is_in_progress : Status → Bool
is_in_progress Status.in_progress = true
is_in_progress _ = false

abbrev pub is_partial : Status → Bool
is_partial Status.partially_completed = true
is_partial _ = false

unfoldable pub guard : String → ℕ → Task → Option Error
guard operator base t =
    if not (eqb t.version base)
    then some Error.task_version_conflict
    else if not (holds t.operator_id operator)
    then some Error.task_not_assigned
    else if is_in_progress t.status || is_partial t.status
    then none
    else some Error.task_not_in_progress

unfoldable pub claim : String → ℕ → ℕ → Task → Task × Option Error
claim operator base now t =
    if not (eqb t.version base)
    then (t, some Error.task_version_conflict)
    else if held_by_other t.operator_id operator
    then (t, some Error.task_not_assigned)
    else if holds t.operator_id operator && is_assigned t.status
    then (t, none)
    else (
      record t {
        operator_id = some operator;
        status = Status.assigned;
        version = next t.version;
        updated_at = now;
      },
      none,
    )

unfoldable pub start : String → ℕ → ℕ → Task → Task × Option Error
start operator base now t =
    if not (eqb t.version base)
    then (t, some Error.task_version_conflict)
    else if not (holds t.operator_id operator)
    then (t, some Error.task_not_assigned)
    else if is_in_progress t.status
    then (t, none)
    else if not (is_assigned t.status)
    then (t, some Error.task_not_startable)
    else (
      record t { status = Status.in_progress; version = next t.version; updated_at = now },
      none,
    )

unfoldable pub matches_any : String → List String → Bool
matches_any value [] = false
matches_any value (candidate ∷ candidates) =
    (not (candidate == "") && equal_fold (trim_space value) (trim_space candidate))
    || matches_any value candidates

abbrev pub source_matches : String → Task → Bool
source_matches value t =
    if not (t.source_bin_id == "") || not (t.source_bin_code == "")
    then matches_any value (t.source_bin_code ∷ t.source_bin_id ∷ [])
    else matches_any value (t.source_location ∷ t.source_location_code ∷ t.source_location_id ∷ [])

abbrev pub destination_matches : String → Task → Bool
destination_matches value t =
    if not (t.destination_bin_id == "") || not (t.destination_bin_code == "")
    then matches_any value (t.destination_bin_code ∷ t.destination_bin_id ∷ [])
    else matches_any value
        (t.destination_location ∷ t.destination_location_code ∷ t.destination_location_id ∷ [])

-- `if err := t.guard(operator, base); err != nil { return err }`
abbrev pub guarded : Option Error → Task → Task × Option Error → Task × Option Error
guarded (some e) t rest = (t, some e)
guarded none t rest = rest

unfoldable pub validate_source : String → String → ℕ → ℕ → Task → Task × Option Error
validate_source operator value base now t = guarded (guard operator base t) t (
    if source_matches value t
    then (record t { source_validated = true; version = next t.version; updated_at = now }, none)
    else (t, some Error.source_location_invalid))

unfoldable pub validate_destination : String → String → ℕ → ℕ → Task → Task × Option Error
validate_destination operator value base now t = guarded (guard operator base t) t (
    if not t.source_validated
    then (t, some Error.validation_sequence_invalid)
    else if destination_matches value t
    then (
      record t { destination_validated = true; version = next t.version; updated_at = now },
      none,
    )
    else (t, some Error.destination_location_invalid))

unfoldable pub validate_item : String → String → ℕ → ℕ → Task → Task × Option Error
validate_item operator barcode base now t = guarded (guard operator base t) t (
    if not t.source_validated || (is_replenishment t.workflow && not t.destination_validated)
    then (t, some Error.validation_sequence_invalid)
    else if not (barcode == t.barcode)
    then (t, some Error.item_invalid)
    else (record t { item_validated = true; version = next t.version; updated_at = now }, none))

unfoldable pub validate_lot : String → String → ℕ → ℕ → Task → Task × Option Error
validate_lot operator lot base now t = guarded (guard operator base t) t (
    if not t.source_validated || not t.item_validated
    then (t, some Error.validation_sequence_invalid)
    else if not (t.lot == "") && not (lot == t.lot)
    then (t, some Error.lot_invalid)
    else (
      record t {
        lot_validated = true;
        status = Status.in_progress;
        version = next t.version;
        updated_at = now;
      },
      none,
    ))

-- The scans that `Move` waits for.
unfoldable pub scans_missing : Task → Bool
scans_missing t =
    not t.source_validated
    || not t.destination_validated
    || (not (is_picking t.workflow) && not t.item_validated)
    || (not (is_picking t.workflow) && not (t.lot == "") && not t.lot_validated)

moved : ℕ → ℕ → Task → Task
moved quantity now t = record t {
  completed_quantity = add_i64 t.completed_quantity quantity;
  version = next t.version;
  updated_at = now;
  status =
      if eqb (sub_i64 t.required (add_i64 t.completed_quantity quantity)) 0
      then Status.completed
      else Status.partially_completed;
}

unfoldable pub move : String → ℕ → ℕ → ℕ → Task → Task × Option Error
unfolding moved
move operator quantity base now t = guarded (guard operator base t) t (
    if scans_missing t
    then (t, some Error.validation_sequence_invalid)
    else if not_pos_i64 quantity || lt_i64 (remaining t) quantity
    then (t, some Error.quantity_exceeds_allowed)
    else (moved quantity now t, none))

-- The transition of PutawayService.ConfirmGroup.
unfoldable pub confirm_group : ℕ → Task → Task × Option Error
confirm_group now t =
    if is_partial t.status
    then (record t { status = Status.completed; version = next t.version; updated_at = now }, none)
    else (t, some Error.task_incomplete)

-- The transition of PickingService.Complete.
unfoldable pub complete : String → ℕ → ℕ → Task → Task × Option Error
complete operator base now t =
    if not (eqb (remaining t) 0)
    then (t, some Error.task_incomplete)
    else guarded (guard operator base t) t
        (record t { status = Status.completed; version = next t.version; updated_at = now }, none)
