-- ===== src/Counting/Examples.antt =====
-- Runs of cycle counts, and their theorems at concrete inputs.
use pda_backend.Common.{String, ℕ, ◌≡◌, refl, List, [], ◌∷◌, none, some, true, false, arith, All}
use pda_backend.Counting.Task.{
  Task, Line, Status, guard, update_line, submit, recount, complete, is_open,
}
use pda_backend.Common.Text.{trim_space}
use pda_backend.Platform.{Actor}
use pda_backend.Platform.Envelope.{validate}
use pda_backend.Common.Rows.{first_where, update_where}
use pda_backend.Counting.Service.{
  Command, Operation, Tables, Fresh, scanned, count_mutation, in_transaction, first_time,
  record_count, get_count, save_count, append, save_command,
}
use pda_backend.Counting.Service.Replays.{counts, count_replayed}
use pda_backend.Counting.Task.Variance.{
  Request, submits, recounts, run, step, IsConsistent, complete_needs_no_variance,
}

abbrev line : String → Line
line id = record {
  id = id;
  item_id = "ITEM-1";
  expected = 16;
  counted = none;
  variance = none;
  recount_required = false;
}

abbrev task : Task
task = record {
  id = "CC-1";
  warehouse_id = "WH-01";
  location_id = "PICK-01";
  status = Status.created;
  operator_id = none;
  version = 1;
  blind_count = true;
  tolerance = 2;
  lines = line "L-1" ∷ line "L-2" ∷ [];
  updated_at = 1;
}

lines-IsConsistent : All IsConsistent task.lines
lines-IsConsistent = (
  record { expected_range = omega arith; counts = tt },
  (record { expected_range = omega arith; counts = tt }, tt),
)

-- The first line is one short, and has to be counted again.
abbrev requests : List Request
requests =
    submits "OP-1" "L-1" 15 1 10
    ∷ submits "OP-1" "L-2" 16 2 11
    ∷ recounts "OP-1" "L-1" 3 12
    ∷ submits "OP-1" "L-1" 16 4 13
    ∷ []

complete_needs_no_variance_example :
    All (λ l. l.counted ≡ some l.expected) (complete "OP-1" 5 14 (run task requests)).0.lines
unfolding run step submit recount complete guard update_line is_open
complete_needs_no_variance_example =
    complete_needs_no_variance task requests "OP-1" 5 14
      (omega arith, (omega arith, (tt, (omega arith, tt)))) lines-IsConsistent refl

abbrev closed : Task
closed = record task { status = Status.completed; operator_id = some "OP-1" }

abbrev actor : String → Actor
actor operator = record {
  operator_id = operator;
  warehouse_id = "WH-01";
  device_id = "PDA-1";
  correlation_id = "C-1";
}

abbrev command : ℕ → String → String → ℕ → Command
command id key operator base = record {
  id = id;
  key = key;
  base_version = base;
  actor = actor operator;
}

abbrev fresh : ℕ → Fresh
fresh id = record { event_id = id; now = 11 }

abbrev tables : Tables
tables = record { tasks = task ∷ []; commands = []; outbox = []; audit = [] }

abbrev first_line : Operation
first_line = Operation.submits "L-1" 15

abbrev second_line : Operation
second_line = Operation.submits "L-2" 16

-- The second line is counted in between, and then another operator completes under the first key.
count_replayed_example :
    count_mutation
      (λ event. none)
      Operation.completes
      "CC-9"
      (command 9 "K-1" "OP-2" 7)
      (fresh 9)
      (counts
        (λ event. none)
        ((second_line, "CC-1", command 2 "K-2" "OP-1" 2, fresh 2) ∷ [])
        (count_mutation
          (λ event. none)
          first_line
          "CC-1"
          (command 1 "K-1" "OP-1" 1)
          (fresh 1)
          tables).1)
    ≡ (
      (some (submit "OP-1" "L-1" 15 1 11 (scanned task)).0, none),
      counts
          (λ event. none)
          ((second_line, "CC-1", command 2 "K-2" "OP-1" 2, fresh 2) ∷ [])
          (count_mutation
            (λ event. none)
            first_line
            "CC-1"
            (command 1 "K-1" "OP-1" 1)
            (fresh 1)
            tables).1,
    )
unfolding count_mutation in_transaction first_time record_count get_count save_count append
    save_command submit guard update_line first_where update_where validate trim_space
count_replayed_example =
    count_replayed (λ event. none) first_line Operation.completes "CC-1" "CC-9"
      (command 1 "K-1" "OP-1" 1) (command 9 "K-1" "OP-2" 7) (fresh 1) (fresh 9)
      ((second_line, "CC-1", command 2 "K-2" "OP-1" 2, fresh 2) ∷ []) tables
      (submit "OP-1" "L-1" 15 1 11 (scanned task)).0 none refl refl
