-- ===== src/Movement/Service.antt =====
-- movement/application/services.go over the Postgres store. New identifiers and the readings of the
-- clock are arguments; a publisher decides which events it takes. InvalidateMovementViews of this
-- store does nothing, and its error would be dropped.
pub mod Atomicity
pub mod Ledger
pub mod Answers
pub mod Agreement
use Prim.Native.String.{◌++◌}
use pda_backend.Common.{
  ℕ, String, Option, none, some, List, Bool, true, false, not, ◌||◌, ◌==◌, if◌then◌else◌,
  held_by_other,
}
use pda_backend.Common.Int64.{not_pos_i64}
use pda_backend.Platform.{
  Error, Result, ok, err, Action, pure, fail, ◌>>=◌, ◌>>◌, refuse_if, or_return, Actor,
}
use pda_backend.Platform.Envelope.{encoded, validate}
use pda_backend.Movement.Task.{
  Task, Workflow, Status, claim, start, validate_source, validate_destination, validate_item,
  validate_lot, move, confirm_group, complete, is_in_progress,
}
use pda_backend.Movement.Database.{
  Database, MovementEvent, MovementPayload, CommandResult, same_workflow, workflow_name, find,
  get_for_update, check_move, save, apply_move, append, append_movement_audit, save_command,
  within_transaction,
}

pub record Command : Type 0 where
  pub command_id : ℕ
  pub idempotency_key : String
  pub task_id : String
  pub base_version : ℕ
  pub actor : Actor

-- What one call takes from outside: the new event's identifier and two readings of the clock.
pub record Fresh : Type 0 where
  pub event_id : ℕ
  pub now : ℕ
  pub occurred_at : ℕ

-- `(domain.Task, error)`: the task, the task with MESSAGING_PUBLISH_PENDING, or an error.
pub data Reply : Type 0 where
  done pending : Task → Reply
  refused : Error → Reply

abbrev pub movement_payload : Workflow → ℕ → Task → MovementPayload
movement_payload w quantity t = record {
  task_id = t.id;
  workflow = w;
  status = t.status;
  quantity = quantity;
}

abbrev pub movement_event : Workflow → Command → String → Fresh → ℕ → Task → MovementEvent
movement_event w c event_type fresh quantity t = record {
  event_id = fresh.event_id;
  event_type = event_type;
  event_version = 1;
  aggregate_type = workflow_name w ++ "Task";
  aggregate_id = t.id;
  aggregate_version = t.version;
  occurred_at = fresh.occurred_at;
  correlation_id = c.actor.correlation_id;
  causation_id = c.command_id;
  warehouse_id = c.actor.warehouse_id;
  operator_id = c.actor.operator_id;
  device_id = c.actor.device_id;
  topic = "pda.movement.events.v1";
  payload = encoded (movement_payload w quantity t);
}

abbrev pub answer : Workflow → Command → Task → CommandResult
answer w c t = record {
  command_id = c.command_id;
  workflow = w;
  warehouse_id = c.actor.warehouse_id;
  operator_id = c.actor.operator_id;
  result = t;
}

-- `if quantity > 0`
abbrev pub when_moving : ℕ → Action Database (Unit {0}) → Action Database (Unit {0})
when_moving quantity action = if not_pos_i64 quantity then pure tt else action

module _ (w : Workflow) (c : Command) (event_type : String) (fresh : Fresh) (quantity : ℕ) where
  -- The answer to a key that was used: the event is absent, since nothing changed.
  unfoldable pub replayed : CommandResult → Action Database (Task × Option MovementEvent)
  replayed previous =
      if not (same_workflow previous.workflow w)
        || not (previous.warehouse_id == c.actor.warehouse_id)
        || not (previous.operator_id == c.actor.operator_id)
      then fail Error.idempotency_key_reused
      else if not (previous.result.id == c.task_id)
      then fail Error.idempotency_key_reused
      else pure (previous.result, none)

  -- From `CheckMove` on, with the task as the transition left it.
  unfoldable pub record_move : Task → Action Database (Task × Option MovementEvent)
  record_move t =
      let event = movement_event w c event_type fresh quantity t in
      (do
        when_moving quantity (check_move t quantity)
        save t
        when_moving quantity (apply_move t quantity)
        or_return (validate event)
        append event
        append_movement_audit event_type t c.actor (movement_payload w quantity t)
        save_command c.idempotency_key (answer w c t)
        pure (t, some event))

  unfoldable pub first_time :
      (Task → Task × Option Error) → Action Database (Task × Option MovementEvent)
  first_time transition = do
    t ← get_for_update c.task_id
    refuse_if (not (same_workflow t.workflow w)) Error.task_not_found
    refuse_if (not (t.warehouse_id == c.actor.warehouse_id)) Error.warehouse_access_denied
    or_return (transition t).1
    record_move (transition t).0

  -- The function that `mutate` hands to `WithinTransaction`.
  unfoldable pub in_transaction :
      (Task → Task × Option Error) → Action Database (Task × Option MovementEvent)
  in_transaction transition = do
    previous ← find c.idempotency_key
    elim previous [ none ↦ first_time transition | some result ↦ replayed result ]

  -- Behind the transaction, with what the publisher answers to an event.
  unfoldable pub reply :
      (MovementEvent → Option Error) → Result (Task × Option MovementEvent) → Reply
  reply refusal (err e) = refused e
  reply refusal (ok (t, none)) = done t
  reply refusal (ok (t, some event)) = elim (refusal event) [ none ↦ done t | some e ↦ pending t ]

  unfoldable pub mutate :
      (MovementEvent → Option Error) → (Task → Task × Option Error) → Database → Reply × Database
  mutate refusal transition s =
      let (r, s') = within_transaction (in_transaction transition) s in (reply refusal r, s')

-- The calls of the three services that change a task.
pub data Operation : Type 0 where
  putaway_claim picking_claim putaway_start picking_start : Operation
  putaway_source putaway_lpn putaway_item putaway_lot putaway_destination : String → Operation
  picking_location picking_barcode picking_lot picking_destination : String → Operation
  replenishment_source replenishment_destination replenishment_item : String → Operation
  putaway_confirm picking_confirm replenishment_confirm : ℕ → Operation
  putaway_confirm_group picking_complete : Operation

-- The arguments that a method hands to `mutate`. `putaway_start` and `picking_start` are the second
-- call of Start, behind a claim.
pub record Plan : Type 0 where
  pub workflow : Workflow
  pub event_type : String
  pub transition : Task → Task × Option Error
  pub quantity : ℕ

unfoldable pub plan : Operation → Command → ℕ → Plan
plan operation c now =
    let o = c.actor.operator_id in
    let base = c.base_version in
    let makes : Workflow → String → (Task → Task × Option Error) → ℕ → Plan =
      λ w e f q. record { workflow = w; event_type = e; transition = f; quantity = q } in
    elim operation [
      | putaway_claim ↦ makes Workflow.putaway "PutawayTaskClaimed" (claim o base now) 0
      | picking_claim ↦ makes Workflow.picking "PickingTaskClaimed" (claim o base now) 0
      | putaway_start ↦ makes Workflow.putaway "PutawayTaskStarted" (start o base now) 0
      | picking_start ↦ makes Workflow.picking "PickingTaskStarted" (start o base now) 0
      | putaway_source v ↦
          makes Workflow.putaway "PutawayTaskStarted" (validate_source o v base now) 0
      | putaway_lpn v ↦
          makes Workflow.putaway "PutawayLPNValidated" (validate_source o v base now) 0
      | putaway_item v ↦
          makes Workflow.putaway "PutawayItemValidated" (validate_item o v base now) 0
      | putaway_lot v ↦ makes Workflow.putaway "PutawayLotValidated" (validate_lot o v base now) 0
      | putaway_destination v ↦
          makes Workflow.putaway "PutawayDestinationValidated" (validate_destination o v base now) 0
      | picking_location v ↦
          makes Workflow.picking "PickingTaskStarted" (validate_source o v base now) 0
      | picking_barcode v ↦
          makes Workflow.picking "PickingBarcodeResolved" (validate_item o v base now) 0
      | picking_lot v ↦ makes Workflow.picking "PickingLotValidated" (validate_lot o v base now) 0
      | picking_destination v ↦
          makes Workflow.picking "PickingDestinationValidated" (validate_destination o v base now) 0
      | replenishment_source v ↦
          makes Workflow.replenishment "ReplenishmentSourceValidated" (validate_source o v base now)
            0
      | replenishment_destination v ↦
          makes Workflow.replenishment "ReplenishmentDestinationValidated"
            (validate_destination o v base now) 0
      | replenishment_item v ↦
          makes Workflow.replenishment "ReplenishmentItemValidated" (validate_item o v base now) 0
      | putaway_confirm q ↦ makes Workflow.putaway "InventoryMoved" (move o q base now) q
      | picking_confirm q ↦ makes Workflow.picking "PickConfirmed" (move o q base now) q
      | replenishment_confirm q ↦
          makes Workflow.replenishment "InventoryMoved" (move o q base now) q
      | putaway_confirm_group ↦ makes Workflow.putaway "PutawayGroupCompleted" (confirm_group now) 0
      | picking_complete ↦ makes Workflow.picking "PickingTaskCompleted" (complete o base now) 0
    ]

-- One call of `mutate` by a method.
unfoldable pub request :
    (MovementEvent → Option Error) → Operation → Command → Fresh → Database → Reply × Database
request refusal operation c fresh =
    let p = plan operation c fresh.now in
    mutate p.workflow c p.event_type fresh p.quantity refusal p.transition

-- `Start`, by the claim and the start of one workflow: the second call has a command identifier of
-- its own, and a key that it makes from it. A publication that is pending ends the call.
unfoldable pub start_with :
    (uuid_string : ℕ → String)
    → (MovementEvent → Option Error)
    → (claims starts : Operation) → (second : ℕ) → Command
    → (first_fresh second_fresh : Fresh) → Database
    → Reply × Database
start_with uuid_string refusal claims starts second c first_fresh second_fresh s =
    let (claimed, s') = request refusal claims c first_fresh s in
    elim claimed [
      | refused e ↦ (refused e, s')
      | pending t ↦ (refused Error.messaging_publish_pending, s')
      | done t ↦
          if is_in_progress t.status
          then (done t, s')
          else request refusal starts
              (record c {
                base_version = t.version;
                command_id = second;
                idempotency_key = uuid_string second ++ ":start";
              })
              second_fresh s'
    ]

-- `detail` of one workflow: Get reads what GetForUpdate reads.
unfoldable pub detail : Workflow → String → Actor → Action Database Task
detail w id actor = do
  t ← get_for_update id
  refuse_if
      (not (same_workflow t.workflow w)
        || not (t.warehouse_id == actor.warehouse_id)
        || held_by_other t.operator_id actor.operator_id)
      Error.warehouse_access_denied
  pure t

unfoldable pub command_status :
    (uuid_string : ℕ → String) → ℕ → Actor → Action Database CommandResult
command_status uuid_string id actor = do
  found ← find (uuid_string id)
  elim found [
    | none ↦ fail Error.task_not_found
    | some result ↦
        if not (result.warehouse_id == actor.warehouse_id)
          || not (result.operator_id == actor.operator_id)
        then fail Error.warehouse_access_denied
        else pure result
  ]
