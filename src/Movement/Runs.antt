-- ===== src/Movement/Runs.antt =====
-- Requests on the movement tables, and their theorems at concrete inputs.
use pda_backend.Common.{
  ℕ, ◌*◌, ◌+◌, ◌≡◌, refl, String, List, [], ◌∷◌, Option, none, some, true, arith, All,
}
use pda_backend.Platform.{Error, Actor}
use pda_backend.Common.Text.{trim_space}
use pda_backend.Platform.Envelope.{validate}
use pda_backend.Movement.Task.{Task, move, guard, scans_missing}
use pda_backend.Movement.Stock
use pda_backend.Movement.Stock.{
  balance_at, location_at, withdraw, deposit, free_capacity, use_capacity,
}
use pda_backend.Movement.Stock.Conservation.{total, Fits}
use pda_backend.Movement.Database.{
  Database, MovementEvent, within_transaction, find, command_of, get_for_update, row_of, scan,
  check_move, save, update_row, update_board, apply_move, append, append_movement_audit,
  save_command,
}
use pda_backend.Movement.Service.{
  Operation, Command, Fresh, mutate, plan, request, in_transaction, first_time, record_move,
  replayed, reply,
}
use pda_backend.Movement.Service.Ledger.{Request, InRange, serve, serve-total, serve-Fits}
use pda_backend.Movement.Service.Agreement.{IsConsistent, serve-IsConsistent, moved_for}
use pda_backend.Movement.Examples.{task}

abbrev stored : Task
stored = record task { source_validated = true; destination_validated = true }

abbrev tables : Database
tables = record {
  rows = stored ∷ [];
  board = [];
  stock = record {
    balances =
        record { warehouse_id = "WH-01"; location_id = "A-01"; item_id = "ITEM-1"; quantity = 12 }
        ∷ [];
    locations =
        record {
          warehouse_id = "WH-01";
          location_id = "A-01";
          capacity = 100;
          used_capacity = 12;
          compatible_item_id = none;
        }
        ∷ record {
          warehouse_id = "WH-01";
          location_id = "B-01";
          capacity = 6;
          used_capacity = 0;
          compatible_item_id = some "ITEM-1";
        }
        ∷ [];
    movements = [];
  };
  commands = [];
  outbox = [];
  audit = [];
}

abbrev picker : Actor
picker = record {
  operator_id = "OP-1";
  device_id = "PDA-1";
  warehouse_id = "WH-01";
  correlation_id = "CORR-1";
}

abbrev other : Actor
other = record picker { operator_id = "OP-2" }

abbrev takes : MovementEvent → Option Error
takes e = none

abbrev command : String → ℕ → ℕ → Command
command key id base = record {
  command_id = id;
  idempotency_key = key;
  task_id = "M-1";
  base_version = base;
  actor = picker;
}

abbrev fresh : ℕ → Fresh
fresh n = record { event_id = n; now = n; occurred_at = n }

abbrev picks : String → ℕ → ℕ → ℕ → Request
picks key id base q = record {
  operation = Operation.picking_confirm q;
  command = command key id base;
  fresh = fresh (id * 2 + 1);
  refusal = takes;
}

-- Four pieces, the same again (a replay), and seven, which the destination does not hold.
abbrev day : List Request
day = picks "k1" 1 3 4 ∷ picks "k1" 2 4 4 ∷ picks "k2" 3 4 3 ∷ picks "k3" 4 4 2 ∷ []

day_moves :
    (total "WH-01" "ITEM-1" (serve day tables).stock.balances ≡ 12)
    × (moved_for "M-1" (serve day tables).stock.movements ≡ 6)
unfolding serve request plan mutate within_transaction in_transaction find command_of first_time
    get_for_update row_of scan record_move replayed reply check_move save update_row update_board
    apply_move append append_movement_audit save_command Stock.check_move Stock.apply_move
    balance_at location_at withdraw deposit free_capacity use_capacity move guard scans_missing
    total moved_for validate trim_space
day_moves = (refl, refl)

day-InRange : All InRange day
unfolding plan
day-InRange = (omega arith, (omega arith, (omega arith, (omega arith, tt))))

serve-total_example : total "WH-01" "ITEM-1" (serve day tables).stock.balances ≡ 12
unfolding total
serve-total_example = serve-total day tables "WH-01" "ITEM-1"

serve-Fits_example : All Fits (serve day tables).stock.locations
serve-Fits_example =
    serve-Fits day tables day-InRange ((omega arith, omega arith), ((omega arith, omega arith), tt))

tables-IsConsistent : IsConsistent tables
unfolding moved_for
tables-IsConsistent = ((tt, tt), ((refl, omega arith), tt))

serve-IsConsistent_example : IsConsistent (serve day tables)
serve-IsConsistent_example = serve-IsConsistent day tables day-InRange tables-IsConsistent

abbrev first_pick : Request
first_pick = picks "k1" 1 3 4

abbrev moved_four : Task
moved_four = (move "OP-1" 4 3 3 stored).0

-- Another operator sends the key, behind a second pick.
abbrev by_other : Request
by_other = record (picks "k1" 8 3 4) { command = record (command "k1" 8 3) { actor = other } }
