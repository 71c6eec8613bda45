-- ===== src/Movement/Service/Agreement.antt =====
-- The movement tasks against the recorded movements, over any sequence of requests.
use pda_backend.Common.{
  ℕ, ◌+◌, ◌≤◌, ◌<◌, String, ◌≡◌, ◌≢◌, inl, inr, Option, none, some, List, [], ◌∷◌, ◌++◌,
  Option-cases, arith, eq_iff, All, ◌==◌, if◌then◌else◌, Bool-cases, subst, ◌∙◌,
}
use pda_backend.Common.Int64.{not_pos_i64, modulus}
use pda_backend.Platform.{Error}
use pda_backend.Movement.Task.{
  Task, Workflow, claim, start, validate_source, validate_destination, validate_item, validate_lot,
  move, confirm_group, complete,
}
use pda_backend.Movement.Task.Guards.{IsSound}
use pda_backend.Movement.Stock.{Stock, Movement, movement_of}
use pda_backend.Movement.Stock.Conservation.{apply_move-total}
use pda_backend.Movement.Database.{
  Database, MovementEvent, update_row, row_of, scan, within_transaction, find, get_for_update,
}
use pda_backend.Movement.Service.{
  Command, Fresh, Operation, plan, request, mutate, in_transaction, first_time,
}
use pda_backend.Movement.Service.Ledger.{Request, InRange, serve_one, serve}
use pda_backend.Movement.Service.Atomicity.{kept_or_applied, Moves}

-- What the rows of inventory_movement say was moved for a task.
unfoldable pub moved_for : String → List Movement → ℕ
moved_for id [] = 0
moved_for id (m ∷ ms) = (if m.task_id == id then m.quantity else 0) + moved_for id ms

moved_for-append :
    (id : String) (ms : List Movement) (m : Movement)
    → moved_for id (ms ++ (m ∷ [])) ≡ moved_for id ms + (if m.task_id == id then m.quantity else 0)
unfolding moved_for
moved_for-append id [] m = ground arith
moved_for-append id (n ∷ ms) m = ground (arith, moved_for-append id ms m)

abbrev pub Absent : String → List Task → Type 0
Absent id = All (λ t. t.id ≢ id)

-- The primary key of movement_task.
abbrev pub Distinct : List Task → Type 0
Distinct [] = Unit
Distinct (t ∷ ts) = Absent t.id ts × Distinct ts

-- Each task has completed what the movements recorded for it say, and no more than it requires.
abbrev pub Agrees : List Movement → List Task → Type 0
Agrees ms = All (λ t. (t.completed_quantity ≡ moved_for t.id ms) × IsSound t)

abbrev pub moved_quantity : ℕ → ℕ
moved_quantity q = if not_pos_i64 q then 0 else q

-- What a request's transition does to the quantities.
plan-adds :
    (o : Operation) (c : Command) (now : ℕ) (t : Task)
    → (plan o c now).quantity < modulus
    → IsSound t
    → ((plan o c now).transition t).1 ≡ none
    → let u = ((plan o c now).transition t).0 in
      (u.id ≡ t.id)
      × (u.completed_quantity ≡ t.completed_quantity + moved_quantity (plan o c now).quantity)
      × (u.completed_quantity ≤ t.required)
unfolding plan claim start validate_source validate_destination validate_item validate_lot move
    confirm_group complete
plan-adds Operation.putaway_claim c now t n s h = ground arith
plan-adds Operation.picking_claim c now t n s h = ground arith
plan-adds Operation.putaway_start c now t n s h = ground arith
plan-adds Operation.picking_start c now t n s h = ground arith
plan-adds (Operation.putaway_source v) c now t n s h = ground arith
plan-adds (Operation.putaway_lpn v) c now t n s h = ground arith
plan-adds (Operation.putaway_item v) c now t n s h = ground arith
plan-adds (Operation.putaway_lot v) c now t n s h = ground arith
plan-adds (Operation.putaway_destination v) c now t n s h = ground arith
plan-adds (Operation.picking_location v) c now t n s h = ground arith
plan-adds (Operation.picking_barcode v) c now t n s h = ground arith
plan-adds (Operation.picking_lot v) c now t n s h = ground arith
plan-adds (Operation.picking_destination v) c now t n s h = ground arith
plan-adds (Operation.replenishment_source v) c now t n s h = ground arith
plan-adds (Operation.replenishment_destination v) c now t n s h = ground arith
plan-adds (Operation.replenishment_item v) c now t n s h = ground arith
plan-adds (Operation.putaway_confirm q) c now t n s h = ground arith
plan-adds (Operation.picking_confirm q) c now t n s h = ground arith
plan-adds (Operation.replenishment_confirm q) c now t n s h = ground arith
plan-adds Operation.putaway_confirm_group c now t n s h = ground arith
plan-adds Operation.picking_complete c now t n s h = ground arith

update_row-Absent :
    (id : String) (u : Task) (rows rows' : List Task)
    → update_row u rows ≡ some rows'
    → Absent id rows
    → Absent id rows'
unfolding update_row
update_row-Absent id u [] rows' h a = cc
update_row-Absent id u (r ∷ rs) rows' h a = elim (Option-cases (update_row u rs)) [
  | inl e ↦ ground arith
  | inr (ys, e) ↦ ground (arith, update_row-Absent id u rs ys e)
]

update_row-Distinct :
    (u : Task) (rows rows' : List Task)
    → update_row u rows ≡ some rows'
    → Distinct rows
    → Distinct rows'
unfolding update_row
update_row-Distinct u [] rows' h d = cc
update_row-Distinct u (r ∷ rs) rows' h d = elim (Option-cases (update_row u rs)) [
  | inl e ↦ ground arith
  | inr (ys, e) ↦
      ground (arith, update_row-Distinct u rs ys e, update_row-Absent r.id u rs ys e d.0)
]

-- Movements recorded for another task leave the others in agreement.
others-Agree :
    (id : String) (d : ℕ) (ms ms' : List Movement) (rows : List Task)
    → ((k : String) → moved_for k ms' ≡ moved_for k ms + (if id == k then d else 0))
    → Absent id rows
    → Agrees ms rows
    → Agrees ms' rows
others-Agree id d ms ms' [] h a g = tt
others-Agree id d ms ms' (r ∷ rs) h a g =
    ground (arith, h r.id, eq_iff id r.id, others-Agree id d ms ms' rs h a.1 g.1)

update_row-Agrees :
    (u row : Task) (d : ℕ) (ms ms' : List Movement) (rows rows' : List Task)
    → ((k : String) → moved_for k ms' ≡ moved_for k ms + (if u.id == k then d else 0))
    → row_of u.id rows ≡ some row
    → u.completed_quantity ≡ row.completed_quantity + d
    → u.completed_quantity ≤ row.required
    → update_row u rows ≡ some rows'
    → Distinct rows
    → Agrees ms rows
    → Agrees ms' rows'
unfolding update_row row_of
update_row-Agrees u row d ms ms' [] rows' h f e l w x g = cc
update_row-Agrees u row d ms ms' (r ∷ rs) rows' h f e l w x g = elim (Bool-cases (r.id == u.id)) [
  | inl same ↦
      let is_same : r.id ≡ u.id = (eq_iff r.id u.id).0 same in
      ground (
        arith,
        h r.id,
        eq_iff u.id r.id,
        others-Agree u.id d ms ms' rs h (subst (λ k. Absent k rs) is_same x.0) g.1,
      )
  | inr other ↦ elim (Option-cases (update_row u rs)) [
    | inl e' ↦ ground arith
    | inr (ys, e') ↦ ground (
      arith,
      h r.id,
      eq_iff u.id r.id,
      eq_iff r.id u.id,
      update_row-Agrees u row d ms ms' rs ys h (rw (other) at f) e l e' x.1 g.1,
    )
  ]
]

row_of-IsSound :
    (id : String) (ms : List Movement) (rows : List Task) (row : Task)
    → row_of id rows ≡ some row
    → Agrees ms rows
    → (row.id ≡ id) × IsSound row
unfolding row_of
row_of-IsSound id ms [] row h g = cc
row_of-IsSound id ms (r ∷ rs) row h g = ground (arith, eq_iff r.id id, row_of-IsSound id ms rs row)

recorded :
    (w : Workflow) (c : Command) (event_type : String) (fresh : Fresh) (q : ℕ) (u : Task)
    (a b : Stock) (k : String)
    → Moves w c event_type fresh q u a b
    → moved_for k b.movements
      ≡ moved_for k a.movements + (if u.id == k then moved_quantity q else 0)
recorded w c event_type fresh q u a b k (inl (still, same)) = rw (← same) (ground arith)
recorded w c event_type fresh q u a b k (inr (moving, checked, applied)) = ground (
  arith,
  apply_move-total u q a b "" "" applied,
  moved_for-append k a.movements (movement_of u q),
)

-- The rows of the tasks have distinct keys and agree with the recorded movements.
abbrev pub IsConsistent : Database → Type 0
IsConsistent s = Distinct s.rows × Agrees s.stock.movements s.rows

step-IsConsistent :
    (r : Request) (s : Database) → InRange r → IsConsistent s → IsConsistent (serve_one r s)
unfolding request scan
step-IsConsistent r s n (d, g) =
    let p = plan r.operation r.command r.fresh.now in
    elim (kept_or_applied r.refusal p.workflow r.command p.event_type r.fresh p.quantity
      p.transition s) [
        | inl (same, why) ↦ rw same (d, g)
        | inr (row, new, found, accepted, carries, kept, saved, moves) ↦
            let u = (p.transition (scan row)).0 in
            let (keyed, sound) =
              row_of-IsSound r.command.task_id s.stock.movements s.rows row found g in
            let scanned : IsSound (scan row) = ground arith in
            let (same_id, adds, within) =
              plan-adds r.operation r.command r.fresh.now (scan row) n scanned accepted in
            let is_row : row_of u.id s.rows ≡ some row = rw (same_id ∙ keyed) found in
            (
              update_row-Distinct u s.rows _ saved d,
              update_row-Agrees u row (moved_quantity p.quantity) s.stock.movements _ s.rows _
                  (λ k.
                    recorded p.workflow r.command p.event_type r.fresh p.quantity u s.stock _ k
                      moves)
                  is_row adds within saved d g,
            )
      ]

-- The stock ledger and the tasks agree: whatever requests are served, each movement task has
-- completed exactly the quantities that were recorded as moved for it, and no more than it
-- requires. The tasks began in agreement, with distinct keys, and the quantities are int64.
pub serve-IsConsistent :
    (rs : List Request) (s : Database) → All InRange rs → IsConsistent s → IsConsistent (serve rs s)
unfolding serve
serve-IsConsistent [] s n g = g
serve-IsConsistent (r ∷ rs) s n g =
    serve-IsConsistent rs (serve_one r s) n.1 (step-IsConsistent r s n.0 g)

-- The Postgres store keeps neither the lot of a movement task nor that it was validated, so that a
-- lot scan of a putaway has the same outcome for every lot.
pub lot_is_unchecked :
    (refusal : MovementEvent → Option Error) (c : Command) (fresh : Fresh) (s : Database)
    (v v' : String)
    → request refusal (Operation.putaway_lot v) c fresh s
      ≡ request refusal (Operation.putaway_lot v') c fresh s
unfolding request plan mutate within_transaction in_transaction find first_time get_for_update scan
    validate_lot
lot_is_unchecked refusal c fresh s v v' = elim (Option-cases (row_of c.task_id s.rows)) [
  | inl missing ↦ ground arith
  | inr (row, found) ↦ ground arith
]
