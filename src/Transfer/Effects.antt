-- ===== src/Transfer/Effects.antt =====
-- What transfers do to the stock, and what a repeated key is answered.
use pda_backend.Common.{
  String, ◌≡◌, ◌⊎◌, refl, Option, none, some, List, [], ◌∷◌, Bool, arith, eq_iff, eq_refl, ap, sym,
  ◌∙◌, inl, inr, Option-cases,
}
use pda_backend.Common.Rows.{first_where, first_where-append, first_where-new}
use pda_backend.Platform.{Error, Result, ok, err, Result-cases}
use pda_backend.Platform.Envelope.{validate}
use pda_backend.Movement.Stock.{Stock, withdraw, deposit}
use pda_backend.Movement.Stock.Conservation.{total, withdraw-total, deposit-total}
use pda_backend.Transfer.Service.{
  Outside, Transfer, TransferCommand, TransferEvent, Tables, Fresh, CommandRow, has_key,
  save_command, append, store_transfer, validate_locations, begun, finished, make_event, answer_row,
  record_transfer, first_time, in_transaction, transfer, answered,
}

module _ (outside : Outside) where
  store_transfer-total :
      (t : Transfer) (s s' : Stock) (w i : String)
      → store_transfer outside t s ≡ ok s'
      → (total w i s'.balances ≡ total w i s.balances) × (s'.locations ≡ s.locations)
  unfolding store_transfer
  store_transfer-total t s s' w i k =
      elim (Option-cases
        (withdraw t.warehouse_id t.source_location t.item_id t.quantity s.balances)) [
          | inl short ↦ ground arith
          | inr (bs, taken) ↦
              elim (Option-cases
                (deposit t.warehouse_id t.destination_location t.item_id t.quantity bs)) [
                  | inl refused ↦ ground arith
                  | inr (cs, put) ↦ ground (
                    arith,
                    withdraw-total t.warehouse_id t.source_location t.item_id t.quantity s.balances
                        bs w i taken,
                    deposit-total t.warehouse_id t.destination_location t.item_id t.quantity bs cs w
                        i put,
                  )
                ]
        ]

  -- Of a transfer nothing or everything is written.
  first_time-whole :
      (x : TransferCommand) (fresh : Fresh) (db : Tables)
      → ((first_time outside x fresh db).1 ≡ db)
        ⊎ (store_transfer outside (begun outside x fresh db.stock) db.stock
            ≡ ok (first_time outside x fresh db).1.stock)
  unfolding first_time record_transfer
  first_time-whole x fresh db =
      elim (Option-cases (
        validate_locations x.actor.warehouse_id x.source x.destination x.item x.quantity
          db.stock)) [
            | inr (e, refused) ↦ inl (ground arith)
            | inl valid ↦
                elim (Result-cases
                  (store_transfer outside (begun outside x fresh db.stock) db.stock)) [
                    | inr (e, refused) ↦ inl (ground arith)
                    | inl (moved, done) ↦
                        let t = finished outside x (begun outside x fresh db.stock) moved in
                        elim (Option-cases (validate (make_event outside x fresh t))) [
                          | inr (e, refused) ↦ inl (ground arith)
                          | inl complete ↦
                              elim (Option-cases
                                (append (make_event outside x fresh t) db.outbox)) [
                                  | inl refused ↦ inl (ground arith)
                                  | inr (outbox, appended) ↦
                                      elim (Option-cases
                                        (save_command (answer_row x t) db.commands)) [
                                          | inl refused ↦ inl (ground arith)
                                          | inr (commands, saved) ↦ inr (ground arith)
                                        ]
                                ]
                        ]
                  ]
          ]

  in_transaction-total :
      (x : TransferCommand) (fresh : Fresh) (db : Tables) (w i : String)
      → (total w i (in_transaction outside x fresh db).1.stock.balances
          ≡ total w i db.stock.balances)
        × ((in_transaction outside x fresh db).1.stock.locations ≡ db.stock.locations)
  unfolding in_transaction
  in_transaction-total x fresh db w i =
      elim (Option-cases (first_where (has_key x.key) db.commands)) [
        | inr (old, found) ↦ (ground arith, ground arith)
        | inl unused ↦ elim (first_time-whole x fresh db) [
          | inl same ↦ (ground arith, ground arith)
          | inr moved ↦
              let (totals, places) =
                store_transfer-total (begun outside x fresh db.stock) db.stock
                  (first_time outside x fresh db).1.stock w i moved in
              (ground arith, ground arith)
        ]
      ]

  unfoldable pub transfers :
      (TransferEvent → Bool) → List (TransferCommand × Fresh) → Tables → Tables
  transfers publishes [] db = db
  transfers publishes (x ∷ xs) db = transfers publishes xs (transfer outside publishes x.0 x.1 db).1

  -- No transfers, in whatever number and order, change how much of an item a warehouse has, or any
  -- row of its locations.
  pub transfers-total :
      (publishes : TransferEvent → Bool) (xs : List (TransferCommand × Fresh)) (db : Tables)
      (w i : String)
      → (total w i (transfers publishes xs db).stock.balances ≡ total w i db.stock.balances)
        × ((transfers publishes xs db).stock.locations ≡ db.stock.locations)
  unfolding transfers transfer
  transfers-total publishes [] db w i = (refl, refl)
  transfers-total publishes (x ∷ xs) db w i =
      let (totals, places) = in_transaction-total x.0 x.1 db w i in
      let (totals', places') =
        transfers-total publishes xs (transfer outside publishes x.0 x.1 db).1 w i in
      (totals' ∙ totals, places' ∙ places)

  -- What is saved under a key is kept.
  save_command-kept :
      (key : String) (r new : CommandRow) (rows rows' : List CommandRow)
      → save_command new rows ≡ some rows'
      → first_where (has_key key) rows ≡ some r
      → first_where (has_key key) rows' ≡ some r
  unfolding save_command
  save_command-kept key r new rows rows' k found =
      ground (arith, first_where-append (has_key key) rows r new found)

  save_command-new :
      (new : CommandRow) (rows rows' : List CommandRow)
      → save_command new rows ≡ some rows'
      → first_where (has_key new.key) rows ≡ none
      → first_where (has_key new.key) rows' ≡ some new
  unfolding save_command
  save_command-new new rows rows' k absent =
      ground (arith, eq_refl new.key, first_where-new (has_key new.key) rows new)

  first_time-kept :
      (x : TransferCommand) (fresh : Fresh) (db : Tables) (key : String) (r : CommandRow)
      → first_where (has_key key) db.commands ≡ some r
      → first_where (has_key key) (first_time outside x fresh db).1.commands ≡ some r
  unfolding first_time record_transfer
  first_time-kept x fresh db key r found =
      elim (Result-cases (store_transfer outside (begun outside x fresh db.stock) db.stock)) [
        | inr (e, refused) ↦ ground arith
        | inl (moved, done) ↦
            let t = finished outside x (begun outside x fresh db.stock) moved in
            elim (Option-cases (save_command (answer_row x t) db.commands)) [
              | inl refused ↦ ground arith
              | inr (commands, saved) ↦
                  ground (
                    arith,
                    save_command-kept key r (answer_row x t) db.commands commands saved found,
                  )
            ]
      ]

  transfer-kept :
      (publishes : TransferEvent → Bool) (x : TransferCommand) (fresh : Fresh) (db : Tables)
      (key : String) (r : CommandRow)
      → first_where (has_key key) db.commands ≡ some r
      → first_where (has_key key) (transfer outside publishes x fresh db).1.commands ≡ some r
  unfolding transfer in_transaction
  transfer-kept publishes x fresh db key r found =
      elim (Option-cases (first_where (has_key x.key) db.commands)) [
        | inr (old, used) ↦ ground arith
        | inl unused ↦ ground (arith, first_time-kept x fresh db key r found)
      ]

  transfers-kept :
      (publishes : TransferEvent → Bool) (xs : List (TransferCommand × Fresh)) (db : Tables)
      (key : String) (r : CommandRow)
      → first_where (has_key key) db.commands ≡ some r
      → first_where (has_key key) (transfers publishes xs db).commands ≡ some r
  unfolding transfers
  transfers-kept publishes [] db key r found = found
  transfers-kept publishes (x ∷ xs) db key r found =
      transfers-kept publishes xs (transfer outside publishes x.0 x.1 db).1 key r
        (transfer-kept publishes x.0 x.1 db key r found)

  -- The row that an answer leaves under the key.
  abbrev Remembers : TransferCommand → Transfer → Tables → Type 0
  Remembers x t db =
      (r : CommandRow) × (first_where (has_key x.key) db.commands ≡ some r)
      × (r.result ≡ t)
      × (r.warehouse_id ≡ x.actor.warehouse_id)
      × (r.operator_id ≡ x.actor.operator_id)

  first_time-Remembers :
      (x : TransferCommand) (fresh : Fresh) (db db' : Tables) (t : Transfer)
      (event : Option TransferEvent)
      → first_where (has_key x.key) db.commands ≡ none
      → first_time outside x fresh db ≡ (ok (t, event), db')
      → Remembers x t db'
  unfolding first_time record_transfer
  first_time-Remembers x fresh db db' t event unused k =
      elim (Result-cases (store_transfer outside (begun outside x fresh db.stock) db.stock)) [
        | inr (e, refused) ↦ ground arith
        | inl (moved, done) ↦
            let u = finished outside x (begun outside x fresh db.stock) moved in
            elim (Option-cases (save_command (answer_row x u) db.commands)) [
              | inl refused ↦ ground arith
              | inr (commands, saved) ↦
                  let found = save_command-new (answer_row x u) db.commands commands saved unused in
                  (answer_row x u, ground arith, ground arith, refl, refl)
            ]
      ]

  in_transaction-Remembers :
      (x : TransferCommand) (fresh : Fresh) (db db' : Tables) (t : Transfer)
      (event : Option TransferEvent)
      → in_transaction outside x fresh db ≡ (ok (t, event), db')
      → Remembers x t db'
  unfolding in_transaction
  in_transaction-Remembers x fresh db db' t event k =
      elim (Option-cases (first_where (has_key x.key) db.commands)) [
        | inl unused ↦ first_time-Remembers x fresh db db' t event unused (ground arith)
        | inr (old, used) ↦ (
          old,
          ground arith,
          ground arith,
          ground (arith, eq_iff old.warehouse_id x.actor.warehouse_id),
          ground (arith, eq_iff old.operator_id x.actor.operator_id),
        )
      ]

  answered-ok :
      (publishes : TransferEvent → Bool) (result : Result (Transfer × Option TransferEvent))
      (t : Transfer) (e : Option Error)
      → answered outside publishes result ≡ (some t, e)
      → (event : Option TransferEvent) × (result ≡ ok (t, event))
  answered-ok publishes (err f) t e k = ground arith
  answered-ok publishes (ok (u, none)) t e k = (none, ground arith)
  answered-ok publishes (ok (u, some event)) t e k = (some event, ground arith)

  transfer-Remembers :
      (publishes : TransferEvent → Bool) (x : TransferCommand) (fresh : Fresh) (db : Tables)
      (t : Transfer) (e : Option Error)
      → (transfer outside publishes x fresh db).0 ≡ (some t, e)
      → Remembers x t (transfer outside publishes x fresh db).1
  unfolding transfer
  transfer-Remembers publishes x fresh db t e k =
      let outcome = in_transaction outside x fresh db in
      let (event, done) = answered-ok publishes outcome.0 t e k in
      in_transaction-Remembers x fresh db outcome.1 t event (ground arith)

  replays-result :
      (publishes : TransferEvent → Bool) (y : TransferCommand) (fresh : Fresh) (d : Tables)
      (t : Transfer) (r : CommandRow)
      → first_where (has_key y.key) d.commands ≡ some r
      → r.result ≡ t
      → r.warehouse_id ≡ y.actor.warehouse_id
      → r.operator_id ≡ y.actor.operator_id
      → transfer outside publishes y fresh d ≡ ((some t, none), d)
  unfolding transfer in_transaction
  replays-result publishes y fresh d t r found same place who =
      ground (
        arith,
        eq_iff r.warehouse_id y.actor.warehouse_id,
        eq_iff r.operator_id y.actor.operator_id,
      )

  -- Once a transfer was answered, also with its publication pending, every transfer under its key
  -- by the same operator in the same warehouse, whatever it asks for and whatever transfers came
  -- between, is answered with it and changes no table.
  pub transfer_replayed :
      (publishes : TransferEvent → Bool) (x y : TransferCommand) (fresh fresh' : Fresh)
      (xs : List (TransferCommand × Fresh)) (db : Tables) (t : Transfer) (e : Option Error)
      → (transfer outside publishes x fresh db).0 ≡ (some t, e)
      → y.key ≡ x.key
      → y.actor.warehouse_id ≡ x.actor.warehouse_id
      → y.actor.operator_id ≡ x.actor.operator_id
      → transfer outside publishes y fresh'
          (transfers publishes xs (transfer outside publishes x fresh db).1)
        ≡ ((some t, none), transfers publishes xs (transfer outside publishes x fresh db).1)
  transfer_replayed publishes x y fresh fresh' xs db t e k key warehouse operator =
      let after = (transfer outside publishes x fresh db).1 in
      let (r, found, same, place, who) = transfer-Remembers publishes x fresh db t e k in
      let later = transfers-kept publishes xs after x.key r found in
      replays-result publishes y fresh' (transfers publishes xs after) t r
        (ap (λ key'. first_where (has_key key') (transfers publishes xs after).commands) key
          ∙ later)
        same (place ∙ sym warehouse) (who ∙ sym operator)
