-- ===== src/Transfer/Service.antt =====
-- Transfer of inventory/application/service.go, with its statements of inventory/adapters/postgres/
-- store.go over the stock of Movement/Stock. The text of a UUID, ILIKE and the order of the collation
-- are parameters.
use pda_backend.Common.{
  ℕ, String, Option, none, some, List, [], ◌∷◌, ◌++◌, Bool, not, ◌&&◌, ◌||◌, ◌==◌, eqb, any,
  if◌then◌else◌,
}
use pda_backend.Common.Int64.{lt_i64, not_pos_i64}
use pda_backend.Common.Rows.{first_where}
use pda_backend.Platform.{Error, Result, ok, err, Actor}
use pda_backend.Platform.Envelope.{Envelope, encoded, validate}
use pda_backend.Movement.Stock.{
  Stock, Balance, Movement, balance_at, is_location, withdraw, deposit,
}

-- A balance as `normalizeBalances` leaves it; nothing is reserved, since no column is read for it.
pub record Snapshot : Type 0 where
  pub balance : Balance
  pub item_code : String
  pub location_code : String
  pub on_hand : ℕ
  pub available : ℕ
  pub uom : String

pub record Transfer : Type 0 where
  pub command_id : ℕ
  pub transfer_id : ℕ
  pub warehouse_id : String
  pub source_location : String
  pub destination_location : String
  pub item_id : String
  pub quantity : ℕ
  pub status : String
  pub before_source : Option Snapshot
  pub after_source : Option Snapshot
  pub before_destination : Option Snapshot
  pub after_destination : Option Snapshot
  pub audit_id : ℕ
  pub as_of : ℕ

pub record TransferCommand : Type 0 where
  pub id : ℕ
  pub key : String
  pub actor : Actor
  pub source : String
  pub destination : String
  pub item : String
  pub quantity : ℕ

-- A row of inventory_command_status.
pub record CommandRow : Type 0 where
  pub key : String
  pub command_id : ℕ
  pub command_type : String
  pub warehouse_id : String
  pub operator_id : String
  pub result : Transfer

pub record AuditRow : Type 0 where
  pub action : String
  pub id : ℕ
  pub actor : Actor
  pub details : Transfer

abbrev pub TransferEvent : Type 0
TransferEvent = Envelope Transfer

pub record Tables : Type 0 where
  pub stock : Stock
  pub commands : List CommandRow
  pub outbox : List TransferEvent
  pub audit : List AuditRow

pub record Fresh : Type 0 where
  pub event_id : ℕ
  pub now : ℕ

-- What Postgres and the package uuid decide.
pub record Outside : Type 0 where
  pub uuid_text : ℕ → String
  pub like : String → String → Bool
  pub precedes : Balance → Balance → Bool

unfoldable pub location_exists : String → String → Stock → Bool
location_exists w l s = any (is_location w l) s.locations

unfoldable pub validate_locations : String → (src dst item : String) → ℕ → Stock → Option Error
validate_locations w src dst item q s =
    if src == dst
    then some Error.source_equals_destination
    else elim (balance_at w src item s.balances) [
      | none ↦ some Error.source_location_invalid
      | some stock ↦
          if lt_i64 stock q
          then some Error.insufficient_stock
          else if not (location_exists w dst s)
          then some Error.destination_location_invalid
          else none
    ]

abbrev pub has_key : String → CommandRow → Bool
has_key key r = r.key == key

abbrev pub answer_row : TransferCommand → Transfer → CommandRow
answer_row x t = record {
  key = x.key;
  command_id = x.id;
  command_type = "TRANSFER";
  warehouse_id = x.actor.warehouse_id;
  operator_id = x.actor.operator_id;
  result = t;
}

-- `INSERT INTO inventory_command_status`, under its two keys.
unfoldable pub save_command : CommandRow → List CommandRow → Option (List CommandRow)
save_command r rows =
    if any (λ x. has_key r.key x || eqb x.command_id r.command_id) rows
    then none
    else some (rows ++ (r ∷ []))

unfoldable pub append : TransferEvent → List TransferEvent → Option (List TransferEvent)
append e rows = if any (λ x. eqb x.event_id e.event_id) rows then none else some (rows ++ (e ∷ []))

module _ (outside : Outside) where
  abbrev pub selects : (w item loc : String) → Balance → Bool
  selects w item loc b =
      b.warehouse_id == w
      && (item == "" || outside.like b.item_id item)
      && (loc == "" || outside.like b.location_id loc)

  abbrev pub earlier : Balance → Option Balance → Option Balance
  earlier b none = some b
  earlier b (some c) = if outside.precedes c b then some c else some b

  -- The first row of `Balances`.
  unfoldable pub first_balance : (w item loc : String) → List Balance → Option Balance
  first_balance w item loc [] = none
  first_balance w item loc (b ∷ bs) =
      let rest = first_balance w item loc bs in
      if selects w item loc b then earlier b rest else rest

  abbrev pub normalized : Option Balance → Option Snapshot
  normalized none = none
  normalized (some b) = some (record {
    balance = b;
    item_code = b.item_id;
    location_code = b.location_id;
    on_hand = b.quantity;
    available = b.quantity;
    uom = "EA";
  })

  abbrev pub balance_snapshot : (w item loc : String) → Stock → Option Snapshot
  balance_snapshot w item loc s = normalized (first_balance w item loc s.balances)

  abbrev pub movement_row : Transfer → Movement
  movement_row t = record {
    task_id = outside.uuid_text t.command_id;
    aggregate_version = 1;
    item_id = t.item_id;
    source_location = t.source_location;
    destination_location = t.destination_location;
    quantity = t.quantity;
  }

  -- `Transfer` of the store. A quantity that is not positive breaks the check of inventory_movement.
  unfoldable pub store_transfer : Transfer → Stock → Result Stock
  store_transfer t s =
      if not_pos_i64 t.quantity
      then err (Error.fault 0)
      else elim (withdraw t.warehouse_id t.source_location t.item_id t.quantity s.balances) [
        | none ↦ err Error.insufficient_stock
        | some withdrawn ↦
            elim (deposit t.warehouse_id t.destination_location t.item_id t.quantity withdrawn) [
              | none ↦ err (Error.fault 0)
              | some deposited ↦
                  if any
                    (λ m. m.task_id == outside.uuid_text t.command_id && eqb m.aggregate_version 1)
                    s.movements
                  then err (Error.fault 0)
                  else ok (record s {
                    balances = deposited;
                    movements = s.movements ++ (movement_row t ∷ []);
                  })
            ]
      ]

  abbrev pub begun : TransferCommand → Fresh → Stock → Transfer
  begun x fresh s = record {
    command_id = x.id;
    transfer_id = x.id;
    warehouse_id = x.actor.warehouse_id;
    source_location = x.source;
    destination_location = x.destination;
    item_id = x.item;
    quantity = x.quantity;
    status = "COMPLETED";
    before_source = balance_snapshot x.actor.warehouse_id x.item x.source s;
    after_source = none;
    before_destination = balance_snapshot x.actor.warehouse_id x.item x.destination s;
    after_destination = none;
    audit_id = x.id;
    as_of = fresh.now;
  }

  abbrev pub finished : TransferCommand → Transfer → Stock → Transfer
  finished x t s = record t {
    after_source = balance_snapshot x.actor.warehouse_id x.item x.source s;
    after_destination = balance_snapshot x.actor.warehouse_id x.item x.destination s;
  }

  -- `makeEvent`
  abbrev pub make_event : TransferCommand → Fresh → Transfer → TransferEvent
  make_event x fresh t = record {
    event_id = fresh.event_id;
    event_type = "StockTransferConfirmed";
    event_version = 1;
    aggregate_type = "StockTransfer";
    aggregate_id = outside.uuid_text x.id;
    aggregate_version = 1;
    occurred_at = fresh.now;
    correlation_id = x.actor.correlation_id;
    causation_id = x.id;
    warehouse_id = x.actor.warehouse_id;
    operator_id = x.actor.operator_id;
    device_id = x.actor.device_id;
    topic = "pda.inventory.events.v1";
    payload = encoded t;
  }

  -- From the event on, with the stock moved.
  unfoldable pub record_transfer :
      TransferCommand
      → Fresh
      → Transfer
      → Stock
      → Tables
      → Result (Transfer × Option TransferEvent) × Tables
  record_transfer x fresh t moved db =
      let event = make_event x fresh t in
      elim (validate event) [
        | some e ↦ (err e, db)
        | none ↦ elim (append event db.outbox) [
          | none ↦ (err (Error.fault 0), db)
          | some outbox ↦ elim (save_command (answer_row x t) db.commands) [
            | none ↦ (err (Error.fault 0), db)
            | some commands ↦ (
              ok (t, some event),
              record {
                stock = moved;
                commands = commands;
                outbox = outbox;
                audit =
                    db.audit
                    ++ (record {
                      action = "StockTransferConfirmed";
                      id = x.id;
                      actor = x.actor;
                      details = t;
                    }
                        ∷ []);
              },
            )
          ]
        ]
      ]

  unfoldable pub first_time :
      TransferCommand → Fresh → Tables → Result (Transfer × Option TransferEvent) × Tables
  first_time x fresh db =
      let t = begun x fresh db.stock in
      elim (validate_locations x.actor.warehouse_id x.source x.destination x.item x.quantity
        db.stock) [
          | some e ↦ (err e, db)
          | none ↦ elim (store_transfer t db.stock) [
            | err e ↦ (err e, db)
            | ok moved ↦ record_transfer x fresh (finished x t moved) moved db
          ]
        ]

  -- The transaction: an error gives back the tables as they were.
  unfoldable pub in_transaction :
      TransferCommand → Fresh → Tables → Result (Transfer × Option TransferEvent) × Tables
  in_transaction x fresh db = elim (first_where (has_key x.key) db.commands) [
    | none ↦ first_time x fresh db
    | some old ↦
        if not (old.warehouse_id == x.actor.warehouse_id)
          || not (old.operator_id == x.actor.operator_id)
        then (err Error.idempotency_key_reused, db)
        else (ok (old.result, none), db)
  ]

  -- `(domain.Transfer, error)`: the transfer, with MESSAGING_PUBLISH_PENDING or none, or an error.
  abbrev pub answered :
      (TransferEvent → Bool)
      → Result (Transfer × Option TransferEvent)
      → Option Transfer × Option Error
  answered publishes (err e) = (none, some e)
  answered publishes (ok (t, none)) = (some t, none)
  answered publishes (ok (t, some event)) =
      (some t, if publishes event then none else some Error.messaging_publish_pending)

  unfoldable pub transfer :
      (TransferEvent → Bool)
      → TransferCommand
      → Fresh
      → Tables
      → (Option Transfer × Option Error) × Tables
  transfer publishes x fresh db =
      let (result, after) = in_transaction x fresh db in (answered publishes result, after)
