-- ===== src/Receiving/Examples.antt =====
-- Runs of receiving tasks, and their theorems at concrete inputs.
use pda_backend.Common.{
  ℕ, String, ◌<◌, ◌≡◌, refl, ◌≢◌, ◌↔◌, [], ◌∷◌, none, some, true, false, arith, All,
}
use pda_backend.Common.Int64.{next}
use pda_backend.Receiving.Task.{
  Task, Line, Status, confirm_with_condition, complete, receive, check_line,
}
use pda_backend.Receiving.Task.Quantities.{IsBounded, Adds, confirm-Adds, complete_iff}
use pda_backend.Receiving.Task.Life.{confirms, claims, run, IsClosedAs, completed_is_closed}

abbrev line : String → ℕ → Line
line id received = record {
  id = id;
  item_id = "ITEM-1";
  item_name = "Box";
  barcode = "890";
  expected = 5;
  received = received;
}

abbrev task : ℕ → Task
task received = record {
  id = "R-1";
  po_number = "PO-1";
  status = Status.in_progress;
  warehouse_id = "WH-01";
  operator_id = some "OP-1";
  version = 2;
  policy = record {
    allow_over_receipt = false;
    require_remark_on_variance = true;
    lot_required = false;
    serial_required = false;
    condition_policy = "GOOD" ∷ "DAMAGED" ∷ [];
  };
  lines = line "L-1" 5 ∷ line "L-2" received ∷ [];
  updated_at = 1;
}

confirm-Adds_example :
    let u = (confirm_with_condition "OP-1" "L-2" "890" 5 "" none 2 9 (task 0)).0 in
    Adds "L-2" 5 (task 0).lines u.lines
    × All IsBounded u.lines
    × ((line "L-2" 5).barcode ≡ "890")
    × (0 < 5)
    × ((task 0).version ≡ 2)
    × (u.version ≡ next 2)
    × ((task 0).operator_id ≡ some "OP-1")
    × ((task 0).status ≢ Status.completed)
    × (u.status ≡ Status.partially_completed)
unfolding confirm_with_condition receive check_line
confirm-Adds_example =
    confirm-Adds "OP-1" "L-2" "890" 5 "" none 2 9 (task 0) (line "L-2" 5) (omega arith)
      (omega arith) refl refl

complete_iff_example : ((complete "OP-1" 2 9 (task 5)).1 ≡ none) ↔ (
    ((task 5).version ≡ 2)
    × ((task 5).operator_id ≡ some "OP-1")
    × All (λ l. l.received ≡ l.expected) (task 5).lines)
complete_iff_example = complete_iff "OP-1" 2 9 (task 5) (omega arith)

abbrev closed : Task
closed = record (task 5) { status = Status.completed }

completed_is_closed_example :
    IsClosedAs closed
      (run closed (claims "OP-2" 2 9 ∷ confirms "OP-1" "L-1" "890" 1 "" none 2 10 ∷ []))
completed_is_closed_example =
    completed_is_closed closed (claims "OP-2" 2 9 ∷ confirms "OP-1" "L-1" "890" 1 "" none 2 10 ∷ [])
      refl
