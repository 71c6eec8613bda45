-- ===== src/Movement/Examples.antt =====
-- Runs of movement tasks, and their theorems at concrete inputs.
use pda_backend.Common.{◌+◌, ◌≡◌, refl, List, [], ◌∷◌, none, some, true, false, arith, All, ◌≢◌}
use pda_backend.Common.Text.{equal_fold, trim_space}
use pda_backend.Movement.Task.{
  Task, Status, Workflow, guard, validate_source, validate_destination, move, complete,
  scans_missing, matches_any,
}
use pda_backend.Movement.Task.Guards.{IsSound}
use pda_backend.Movement.Task.Trace.{
  Command, scans_source, scans_destination, moves, apply, run, total_moved, InRange, NoClaim,
  run_conserves, complete_never_succeeds,
}

abbrev pub task : Task
task = record {
  id = "M-1";
  workflow = Workflow.picking;
  status = Status.in_progress;
  warehouse_id = "WH-01";
  operator_id = some "OP-1";
  version = 3;
  source_location = "A-01";
  source_location_id = "";
  source_location_code = "";
  source_bin_id = "";
  source_bin_code = "";
  destination_location = "B-01";
  destination_location_id = "";
  destination_location_code = "";
  destination_bin_id = "";
  destination_bin_code = "";
  item_id = "ITEM-1";
  barcode = "890";
  lot = "";
  required = 10;
  completed_quantity = 0;
  source_validated = false;
  lpn_validated = false;
  destination_validated = false;
  item_validated = false;
  lot_validated = false;
  updated_at = 1;
}

abbrev scanned : Task
scanned = record task { source_validated = true; destination_validated = true }

pub task-IsSound : IsSound task
task-IsSound = omega arith

-- Both locations scanned, four pieces moved, then six.
abbrev picks : List Command
picks =
    scans_source "OP-1" " a-01" 3 20
    ∷ scans_destination "OP-1" "B-01" 4 21
    ∷ moves "OP-1" 4 5 22
    ∷ moves "OP-1" 6 6 23
    ∷ []

picks_complete :
    ((run task picks).status ≡ Status.completed) × ((run task picks).completed_quantity ≡ 10)
unfolding run apply validate_source validate_destination move guard scans_missing matches_any
    equal_fold trim_space
picks_complete = (refl, refl)

picks-InRange : All InRange picks
picks-InRange = (tt, (tt, (omega arith, (omega arith, tt))))

run_conserves_example :
    IsSound (run task picks)
    × ((run task picks).required ≡ 10)
    × ((run task picks).completed_quantity ≡ 0 + total_moved task picks)
run_conserves_example = run_conserves task picks picks-InRange task-IsSound

picks-NoClaim : All NoClaim picks
picks-NoClaim = (tt, (tt, (tt, (tt, tt))))

complete_never_succeeds_example : (complete "OP-1" 7 30 (run task picks)).1 ≢ none
complete_never_succeeds_example =
    complete_never_succeeds task picks "OP-1" 7 30 picks-InRange picks-NoClaim task-IsSound
      (omega arith)

abbrev first_picks : List Command
first_picks =
    scans_source "OP-1" "A-01" 3 20
    ∷ scans_destination "OP-1" "B-01" 4 21
    ∷ moves "OP-1" 4 5 22
    ∷ []

abbrev done : Task
done = record scanned { status = Status.completed; completed_quantity = 10 }
