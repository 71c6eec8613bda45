-- ===== src/Transfer/Examples.antt =====
-- A day of transfers, and their theorems at concrete inputs.
use pda_backend.Common.{
  ℕ, String, ◌≡◌, refl, none, some, List, [], ◌∷◌, Bool, true, ◌==◌, eqb, if◌then◌else◌,
}
use pda_backend.Common.Rows.{first_where}
use pda_backend.Common.Text.{trim_space}
use pda_backend.Platform.{Actor}
use pda_backend.Platform.Envelope.{validate}
use pda_backend.Movement.Stock.{Balance, Location, balance_at, withdraw, deposit}
use pda_backend.Movement.Stock.Conservation.{total}
use pda_backend.Transfer.Service.{
  Outside, Snapshot, Transfer, TransferCommand, TransferEvent, Tables, Fresh, location_exists,
  validate_locations, save_command, append, first_balance, store_transfer, record_transfer,
  first_time, in_transaction, transfer,
}
use pda_backend.Transfer.Effects.{transfers, transfers-total, transfer_replayed}

abbrev outside : Outside
outside = record {
  uuid_text = λ id. if eqb id 9 then "9" else if eqb id 10 then "10" else "11";
  like = λ text part. text == part;
  precedes = λ b c. true;
}

abbrev balance : String → ℕ → Balance
balance location quantity = record {
  warehouse_id = "WH-1";
  location_id = location;
  item_id = "ITEM-1";
  quantity = quantity;
}

abbrev location : String → Location
location id = record {
  warehouse_id = "WH-1";
  location_id = id;
  capacity = 5;
  used_capacity = 5;
  compatible_item_id = none;
}

abbrev tables : Tables
tables = record {
  stock = record {
    balances = balance "A" 10 ∷ balance "B" 1 ∷ [];
    locations = location "A" ∷ location "B" ∷ [];
    movements = [];
  };
  commands = [];
  outbox = [];
  audit = [];
}

abbrev actor : Actor
actor = record {
  operator_id = "OP-1";
  device_id = "D-1";
  warehouse_id = "WH-1";
  correlation_id = "C-1";
}

abbrev command : ℕ → String → ℕ → TransferCommand
command id key quantity = record {
  id = id;
  key = key;
  actor = actor;
  source = "A";
  destination = "B";
  item = "ITEM-1";
  quantity = quantity;
}

abbrev fresh : ℕ → Fresh
fresh id = record { event_id = id; now = 100 }

abbrev publishes : TransferEvent → Bool
publishes event = true

abbrev snapshot : String → ℕ → Snapshot
snapshot place quantity = record {
  balance = balance place quantity;
  item_code = "ITEM-1";
  location_code = place;
  on_hand = quantity;
  available = quantity;
  uom = "EA";
}

abbrev moved : Transfer
moved = record {
  command_id = 9;
  transfer_id = 9;
  warehouse_id = "WH-1";
  source_location = "A";
  destination_location = "B";
  item_id = "ITEM-1";
  quantity = 4;
  status = "COMPLETED";
  before_source = some (snapshot "A" 10);
  after_source = some (snapshot "A" 6);
  before_destination = some (snapshot "B" 1);
  after_destination = some (snapshot "B" 5);
  audit_id = 9;
  as_of = 100;
}

abbrev day : List (TransferCommand × Fresh)
day = (command 10 "k-2" 3, fresh 21) ∷ (command 11 "k-3" 99, fresh 22) ∷ []

moves : (transfer outside publishes (command 9 "k-1" 4) (fresh 20) tables).0 ≡ (some moved, none)
unfolding transfer in_transaction first_time record_transfer validate_locations location_exists
    store_transfer first_balance save_command append balance_at withdraw deposit validate trim_space
    first_where
moves = refl

transfers-total_example :
    (total "WH-1" "ITEM-1" (transfers outside publishes day tables).stock.balances
      ≡ total "WH-1" "ITEM-1" tables.stock.balances)
    × ((transfers outside publishes day tables).stock.locations ≡ tables.stock.locations)
transfers-total_example = transfers-total outside publishes day tables "WH-1" "ITEM-1"

transfer_replayed_example :
    transfer outside publishes (command 30 "k-1" 8) (fresh 40) (
      transfers outside publishes day
        (transfer outside publishes (command 9 "k-1" 4) (fresh 20) tables).1)
    ≡ (
      (some moved, none),
      transfers outside publishes day
          (transfer outside publishes (command 9 "k-1" 4) (fresh 20) tables).1,
    )
transfer_replayed_example =
    transfer_replayed outside publishes (command 9 "k-1" 4) (command 30 "k-1" 8) (fresh 20)
      (fresh 40) day tables moved none moves refl refl refl
