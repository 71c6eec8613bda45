-- ===== src/Movement/Service/Atomicity.antt =====
-- A command is applied as a whole and once.
use pda_backend.Common.{
  ℕ, String, ◌≡◌, ◌⊎◌, inl, inr, Option, none, some, [], ◌∷◌, ◌++◌, Option-cases, arith, eq_iff,
  subst, sym, true, false, ◌&&◌, ◌==◌, if◌then◌else◌, Bool-cases, ap,
}
use pda_backend.Platform.{Error, ok, Result-cases}
use pda_backend.Platform.Envelope.{validate}
use pda_backend.Movement.Task.{Task, Workflow}
use pda_backend.Common.Int64.{not_pos_i64}
use pda_backend.Movement.Stock
use pda_backend.Movement.Stock.{Stock}
use pda_backend.Movement.Database.{
  update_row, row_of, scan, same_workflow, Database, MovementEvent, CommandResult, command_of, find,
  within_transaction, save_command, get_for_update, save, check_move, apply_move, append,
  append_movement_audit,
}
use pda_backend.Movement.Service.{
  Command, Fresh, Reply, done, pending, refused, mutate, in_transaction, first_time, record_move,
  replayed, reply, movement_event, answer,
}

-- The task that a reply carries.
abbrev pub Carries : Reply → Task → Type 0
Carries (done t) u = t ≡ u
Carries (pending t) u = t ≡ u
Carries (refused e) u = ⊥

pub Carries-unique : (r : Reply) (t u : Task) → Carries r t → Carries r u → t ≡ u
Carries-unique (done v) t u h k = cc
Carries-unique (pending v) t u h k = cc
Carries-unique (refused e) t u h k = absurd h

module _ (w : Workflow) (c : Command) (event_type : String) (fresh : Fresh) (quantity : ℕ) where
  -- How the stock stands after `quantity` was moved for `t`, or nothing was to be moved.
  abbrev pub Moves : Task → Stock → Stock → Type 0
  Moves t a b =
      ((not_pos_i64 quantity ≡ true) × (a ≡ b))
      ⊎ ((not_pos_i64 quantity ≡ false)
          × (Stock.check_move t quantity a ≡ none)
          × (Stock.apply_move t quantity a ≡ (ok tt, b)))

  -- All that the first run of a command writes.
  pub record_move-ok :
      (t u : Task) (e : Option MovementEvent) (s s' : Database)
      → record_move w c event_type fresh quantity t s ≡ (ok (u, e), s')
      → (u ≡ t)
        × (e ≡ some (movement_event w c event_type fresh quantity t))
        × (s'.commands ≡ (c.idempotency_key, answer w c t) ∷ s.commands)
        × (update_row t s.rows ≡ some s'.rows)
        × Moves t s.stock s'.stock
        × (s'.outbox ≡ s.outbox ++ (movement_event w c event_type fresh quantity t ∷ []))
        × (validate (movement_event w c event_type fresh quantity t) ≡ none)
  unfolding record_move save check_move apply_move append append_movement_audit save_command
      command_of
  record_move-ok t u e s s' h = elim (Bool-cases (not_pos_i64 quantity)) [
    | inl still ↦ elim (Option-cases (update_row t s.rows)) [
      | inl missing ↦ ground arith
      | inr (rows, saved) ↦ ground arith
    ]
    | inr moving ↦ elim (Option-cases (update_row t s.rows)) [
      | inl missing ↦ ground arith
      | inr (rows, saved) ↦ ground arith
    ]
  ]

  first_time-ok :
      (transition : Task → Task × Option Error) (u : Task) (e : Option MovementEvent)
      (s s' : Database)
      → first_time w c event_type fresh quantity transition s ≡ (ok (u, e), s')
      → (row : Task) × (row_of c.task_id s.rows ≡ some row)
        × (same_workflow row.workflow w ≡ true)
        × (row.warehouse_id ≡ c.actor.warehouse_id)
        × ((transition (scan row)).1 ≡ none)
        × (record_move w c event_type fresh quantity (transition (scan row)).0 s ≡ (ok (u, e), s'))
  unfolding first_time get_for_update scan
  first_time-ok transition u e s s' h = elim (Option-cases (row_of c.task_id s.rows)) [
    | inl missing ↦ ground arith
    | inr (row, found) ↦ elim (Option-cases (transition (scan row)).1) [
      | inl accepted ↦ (
        row,
        found,
        ground arith,
        ground (arith, eq_iff row.warehouse_id c.actor.warehouse_id),
        accepted,
        ground arith,
      )
      | inr (why, refused_by) ↦ ground arith
    ]
  ]

module _ (refusal : MovementEvent → Option Error) (w : Workflow) (c : Command) (event_type : String)
    (fresh : Fresh) (quantity : ℕ) (transition : Task → Task × Option Error) (s : Database) where
  abbrev pub after : Reply × Database
  after = mutate w c event_type fresh quantity refusal transition s

  first_time-succeeds :
      (u v : Task) (e d : Option MovementEvent)
      → command_of c.idempotency_key s.commands ≡ none
      → (first_time w c event_type fresh quantity transition s).0 ≡ ok (u, e)
      → u ≡ v
      → e ≡ d
      → after ≡ (
        reply w c event_type fresh quantity refusal (ok (v, d)),
        (first_time w c event_type fresh quantity transition s).1,
      )
  unfolding mutate within_transaction in_transaction find
  first_time-succeeds u v e d new h i j = ground (arith, rw (i, j) at h)

  reply-Carries :
      (u : Task) (e : MovementEvent)
      → Carries (reply w c event_type fresh quantity refusal (ok (u, some e))) u
  unfolding reply
  reply-Carries u e = ground arith

  abbrev Outcome : Reply × Database → Type 0
  Outcome p =
      ((p.1 ≡ s)
        × (((e : Error) × (p.0 ≡ refused e))
            ⊎ ((previous : CommandResult) × (command_of c.idempotency_key s.commands
                  ≡ some previous))))
      ⊎ ((row : Task) × (command_of c.idempotency_key s.commands ≡ none)
          × (row_of c.task_id s.rows ≡ some row)
          × ((transition (scan row)).1 ≡ none)
          × Carries p.0 (transition (scan row)).0
          × (p.1.commands ≡ (c.idempotency_key, answer w c (transition (scan row)).0) ∷ s.commands)
          × (update_row (transition (scan row)).0 s.rows ≡ some p.1.rows)
          × Moves w c event_type fresh quantity (transition (scan row)).0 s.stock p.1.stock)

  -- A command changes nothing, or it is the first under its key and writes what its transition made.
  pub kept_or_applied : Outcome after
  unfolding mutate within_transaction reply in_transaction find replayed
  kept_or_applied = elim (Option-cases (command_of c.idempotency_key s.commands)) [
    | inr (previous, found) ↦ inl (ground arith, inr (previous, found))
    | inl new ↦ elim (Result-cases (first_time w c event_type fresh quantity transition s).0) [
      | inr (e, failed) ↦ inl (ground arith, inl (e, ground arith))
      | inl ((u, e), succeeded) ↦
          let s' = (first_time w c event_type fresh quantity transition s).1 in
          let (row, found, same, here, accepted, recorded) =
            first_time-ok w c event_type fresh quantity transition u e s s'
              (ap (λ r. (r, s')) succeeded) in
          let (u_is, e_is, kept, saved, moves, sent, well_formed) =
            record_move-ok w c event_type fresh quantity (transition (scan row)).0 u e s s'
              recorded in
          let result =
            first_time-succeeds u (transition (scan row)).0 e
              (some (movement_event w c event_type fresh quantity (transition (scan row)).0)) new
              succeeded u_is e_is in
          let event = movement_event w c event_type fresh quantity (transition (scan row)).0 in
          subst Outcome (sym result) (
            inr (
              row,
              new,
              found,
              accepted,
              reply-Carries (transition (scan row)).0 event,
              kept,
              saved,
              moves,
            ))
    ]
  ]

module _ (w : Workflow) (c : Command) (event_type : String) (fresh : Fresh) (quantity : ℕ)
    (refusal : MovementEvent → Option Error) (transition : Task → Task × Option Error) where
  -- The answer to a key under which the task `t` was answered.
  pub answer_of_kept :
      (c0 : Command) (w0 : Workflow) (t : Task) (s : Database)
      → command_of c.idempotency_key s.commands ≡ some (answer w0 c0 t)
      → mutate w c event_type fresh quantity refusal transition s ≡ (
        if same_workflow w0 w
              && c0.actor.warehouse_id == c.actor.warehouse_id
              && c0.actor.operator_id == c.actor.operator_id
              && t.id == c.task_id
            then done t
            else refused Error.idempotency_key_reused,
        s,
      )
  unfolding mutate within_transaction reply in_transaction find replayed
  answer_of_kept c0 w0 t s h = ground arith
