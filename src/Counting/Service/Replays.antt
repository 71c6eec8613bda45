-- ===== src/Counting/Service/Replays.antt =====
-- What a repeated key of a count command is answered.
use pda_backend.Common.{
  String, ◌≡◌, ◌⊎◌, Option, none, some, List, ◌∷◌, [], arith, eq_refl, ap, ◌∙◌, inl, inr,
  Option-cases,
}
use pda_backend.Common.Rows.{first_where, first_where-append, first_where-new}
use pda_backend.Platform.{Error, Result, ok, err, Result-cases}
use pda_backend.Platform.Envelope.{validate}
use pda_backend.Counting.Task.{Task}
use pda_backend.Counting.Service.{
  Command, CountEvent, CommandRow, Tables, Fresh, Operation, has_key, get_count, save_count, append,
  answer_row, save_command, make_event, record_count, first_time, in_transaction, answered,
  event_type_of, transition_of, count_mutation,
}

-- A saved command is found under its key, which was free, and no other key loses its row.
save_command-keys :
    (new : CommandRow) (rows rows' : List CommandRow)
    → save_command new rows ≡ some rows'
    → ((key : String) (r : CommandRow)
        → first_where (has_key key) rows ≡ some r
        → first_where (has_key key) rows' ≡ some r)
      × (first_where (has_key new.key) rows ≡ none → first_where (has_key new.key) rows' ≡ some new)
unfolding save_command
save_command-keys new rows rows' k = (
  λ key r found. ground (arith, first_where-append (has_key key) rows r new found),
  λ absent. ground (arith, eq_refl new.key, first_where-new (has_key new.key) rows new),
)

-- What is recorded is answered, and its row of commands saved, or the tables stay.
record_count-cases :
    (event_type : String) (x : Command) (fresh : Fresh) (t : Task) (db : Tables)
    → ((e : Error) × (record_count event_type x fresh t db ≡ (err e, db)))
      ⊎ ((record_count event_type x fresh t db).0 ≡ ok (t, some (make_event event_type x fresh t)))
        × (save_command (answer_row x t) db.commands
            ≡ some (record_count event_type x fresh t db).1.commands)
unfolding record_count
record_count-cases event_type x fresh t db = elim (Option-cases (save_count t db.tasks)) [
  | inl refused ↦ inl (Error.fault 0, ground arith)
  | inr (tasks, stored) ↦ elim (Option-cases (validate (make_event event_type x fresh t))) [
    | inr (e, refused) ↦ inl (e, ground arith)
    | inl complete ↦ elim (Option-cases (append (make_event event_type x fresh t) db.outbox)) [
      | inl refused ↦ inl (Error.fault 0, ground arith)
      | inr (outbox, appended) ↦ elim (Option-cases (save_command (answer_row x t) db.commands)) [
        | inl refused ↦ inl (Error.fault 0, ground arith)
        | inr (commands, saved) ↦ inr (ground arith, ground arith)
      ]
    ]
  ]
]

first_time-keeps :
    (event_type id : String) (x : Command) (fresh : Fresh) (transition : Task → Task × Option Error)
    (db : Tables) (key : String) (r : CommandRow)
    → first_where (has_key key) db.commands ≡ some r
    → first_where (has_key key) (first_time event_type id x fresh transition db).1.commands ≡ some r
unfolding first_time
first_time-keeps event_type id x fresh transition db key r found =
    elim (Result-cases (get_count id db.tasks)) [
      | inr (e, refused) ↦ ground arith
      | inl (t, read) ↦ elim (record_count-cases event_type x fresh (transition t).0 db) [
        | inl (e, failed) ↦ ground arith
        | inr (answer, saved) ↦
            let after = (record_count event_type x fresh (transition t).0 db).1.commands in
            let (kept, new) =
              save_command-keys (answer_row x (transition t).0) db.commands after saved in
            let still = kept key r found in ground arith
      ]
    ]

first_time-new :
    (event_type id : String) (x : Command) (fresh : Fresh) (transition : Task → Task × Option Error)
    (db db' : Tables) (t : Task) (event : Option CountEvent)
    → first_where (has_key x.key) db.commands ≡ none
    → first_time event_type id x fresh transition db ≡ (ok (t, event), db')
    → (r : CommandRow) × (first_where (has_key x.key) db'.commands ≡ some r) × (r.result ≡ t)
unfolding first_time
first_time-new event_type id x fresh transition db db' t event unused k =
    elim (Result-cases (get_count id db.tasks)) [
      | inr (e, refused) ↦ ground arith
      | inl (u, read) ↦ elim (record_count-cases event_type x fresh (transition u).0 db) [
        | inl (e, failed) ↦ ground arith
        | inr (answer, saved) ↦
            let row = answer_row x (transition u).0 in
            let after = (record_count event_type x fresh (transition u).0 db).1.commands in
            let (kept, new) = save_command-keys row db.commands after saved in
            let found = new unused in (row, ground arith, ground arith)
      ]
    ]

unfoldable pub counts :
    (CountEvent → Option Error) → List (Operation × String × Command × Fresh) → Tables → Tables
counts refusal [] db = db
counts refusal ((operation, id, x, fresh) ∷ xs) db =
    counts refusal xs (count_mutation refusal operation id x fresh db).1

count_mutation-keeps :
    (refusal : CountEvent → Option Error) (operation : Operation) (id : String) (x : Command)
    (fresh : Fresh) (db : Tables) (key : String) (r : CommandRow)
    → first_where (has_key key) db.commands ≡ some r
    → first_where (has_key key) (count_mutation refusal operation id x fresh db).1.commands ≡ some r
unfolding count_mutation in_transaction
count_mutation-keeps refusal operation id x fresh db key r found =
    elim (Option-cases (first_where (has_key x.key) db.commands)) [
      | inr (old, used) ↦ ground arith
      | inl unused ↦ ground (
        arith,
        first_time-keeps (event_type_of operation) id x fresh (transition_of operation x fresh.now)
            db key r found,
      )
    ]

counts-keep :
    (refusal : CountEvent → Option Error) (xs : List (Operation × String × Command × Fresh))
    (db : Tables) (key : String) (r : CommandRow)
    → first_where (has_key key) db.commands ≡ some r
    → first_where (has_key key) (counts refusal xs db).commands ≡ some r
unfolding counts
counts-keep refusal [] db key r found = found
counts-keep refusal ((operation, id, x, fresh) ∷ xs) db key r found =
    counts-keep refusal xs (count_mutation refusal operation id x fresh db).1 key r
      (count_mutation-keeps refusal operation id x fresh db key r found)

answered-ok :
    (refusal : CountEvent → Option Error) (result : Result (Task × Option CountEvent)) (t : Task)
    (e : Option Error)
    → answered refusal result ≡ (some t, e)
    → (event : Option CountEvent) × (result ≡ ok (t, event))
answered-ok refusal (err f) t e k = ground arith
answered-ok refusal (ok (u, none)) t e k = (none, ground arith)
answered-ok refusal (ok (u, some event)) t e k = (some event, ground arith)

count_mutation-saves :
    (refusal : CountEvent → Option Error) (operation : Operation) (id : String) (x : Command)
    (fresh : Fresh) (db : Tables) (t : Task) (e : Option Error)
    → (count_mutation refusal operation id x fresh db).0 ≡ (some t, e)
    → (r : CommandRow) × (first_where
          (has_key x.key)
          (count_mutation refusal operation id x fresh db).1.commands
        ≡ some r)
      × (r.result ≡ t)
unfolding count_mutation in_transaction
count_mutation-saves refusal operation id x fresh db t e k =
    let transition = transition_of operation x fresh.now in
    let outcome = in_transaction (event_type_of operation) id x fresh transition db in
    let (event, done) = answered-ok refusal outcome.0 t e k in
    elim (Option-cases (first_where (has_key x.key) db.commands)) [
      | inr (old, used) ↦ (old, ground arith, ground arith)
      | inl unused ↦
          let (r, found, same) =
            first_time-new (event_type_of operation) id x fresh transition db outcome.1 t event
              unused (ground arith) in
          (r, ground arith, same)
    ]

-- Once a count command was answered with a task, also with its publication refused, every count
-- command under its key, of whatever operator, warehouse, task and kind and whatever count commands
-- came between, is answered with that task and changes no table.
pub count_replayed :
    (refusal : CountEvent → Option Error) (operation operation' : Operation) (id id' : String)
    (x y : Command) (fresh fresh' : Fresh) (xs : List (Operation × String × Command × Fresh))
    (db : Tables) (t : Task) (e : Option Error)
    → (count_mutation refusal operation id x fresh db).0 ≡ (some t, e)
    → y.key ≡ x.key
    → count_mutation refusal operation' id' y fresh'
        (counts refusal xs (count_mutation refusal operation id x fresh db).1)
      ≡ ((some t, none), counts refusal xs (count_mutation refusal operation id x fresh db).1)
unfolding count_mutation in_transaction
count_replayed refusal operation operation' id id' x y fresh fresh' xs db t e k key =
    let after = (count_mutation refusal operation id x fresh db).1 in
    let (r, found, same) = count_mutation-saves refusal operation id x fresh db t e k in
    let later = counts-keep refusal xs after x.key r found in
    let at_y =
      ap (λ key'. first_where (has_key key') (counts refusal xs after).commands) key ∙ later in
    ground arith
