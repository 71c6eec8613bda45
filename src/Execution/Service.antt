-- ===== src/Execution/Service.antt =====
-- execution/application/task_service.go over the ports of execution/ports/task.go. New event ids and
-- the readings of the clock are arguments; a publisher decides which events it takes.
pub mod Replay
pub mod Access
use pda_backend.Common.{
  ℕ, String, Option, none, some, List, Bool, true, false, not, ◌||◌, ◌==◌, eqb, if◌then◌else◌,
  holds, held_by_other,
}
use pda_backend.Common.Int64.{lt_i64}
use pda_backend.Platform.{
  Error, Result, ok, err, Action, pure, fail, ◌>>=◌, ◌>>◌, refuse_if, or_return, Actor,
}
use pda_backend.Platform.Envelope.{encoded, validate}
use pda_backend.Execution.Task.{Task, claim, release}
use pda_backend.Execution.Store
use pda_backend.Execution.Store.{
  Store, IdempotencyResult, TaskEvent, no_event, TaskFilter, TaskPage,
}

-- The repositories, the transaction manager, the publisher and the invalidator, over a state.
pub record Ports (S : Type 0) : Type 0 where
  pub find : String → Action S (Option IdempotencyResult)
  pub get_for_update : String → Action S Task
  pub save : Task → Action S (Unit {0})
  pub append : TaskEvent → Action S (Unit {0})
  pub save_idempotency : String → IdempotencyResult → Action S (Unit {0})
  pub within_transaction : Action S (IdempotencyResult × Bool) → Action S (IdempotencyResult × Bool)
  pub invalidate_task_views : String → String → Action S (Unit {0})
  pub publish : TaskEvent → Action S (Unit {0})

-- The in-memory store as the ports, beside a publisher that keeps its state elsewhere.
unfoldable pub memory : (TaskEvent → Option Error) → Ports Store
memory refusal = record {
  find = Store.find;
  get_for_update = Store.get_for_update;
  save = Store.save;
  append = Store.append;
  save_idempotency = Store.save_idempotency;
  within_transaction = Store.within_transaction;
  invalidate_task_views = Store.invalidate_task_views;
  publish = λ e. or_return (refusal e);
}

pub record Command : Type 0 where
  pub task_id : String
  pub idempotency_key : String
  pub command_id : ℕ
  pub base_version : ℕ
  pub actor : Actor

-- `(domain.Task, error)` of a command: the task, the task with MESSAGING_PUBLISH_PENDING, or an
-- error beside the zero task.
pub data Reply : Type 0 where
  done pending : Task → Reply
  refused : Error → Reply

-- What one call takes from outside: the new event's identifier and two readings of the clock.
pub record Fresh : Type 0 where
  pub event_id : ℕ
  pub now : ℕ
  pub occurred_at : ℕ

abbrev pub task_event : Command → String → Fresh → Task → TaskEvent
task_event c event_type fresh t = record {
  event_id = fresh.event_id;
  event_type = event_type;
  event_version = 1;
  aggregate_type = "WarehouseTask";
  aggregate_id = t.id;
  aggregate_version = t.version;
  occurred_at = fresh.occurred_at;
  correlation_id = c.actor.correlation_id;
  causation_id = c.command_id;
  warehouse_id = c.actor.warehouse_id;
  operator_id = c.actor.operator_id;
  device_id = c.actor.device_id;
  topic = "pda.task.events.v1";
  payload = encoded (record { task_id = t.id; category = t.category; status = t.status });
}

module _ {S : Type 0} (ports : Ports S) (c : Command) (event_type : String) (fresh : Fresh) where
  -- From the test `task.Version == originalVersion` on.
  unfoldable pub record_change : ℕ → Task → Action S (IdempotencyResult × Bool)
  record_change original t =
      let kept : IdempotencyResult = record { task = t; event = no_event } in
      let event = task_event c event_type fresh t in
      let changed : IdempotencyResult = record { task = t; event = event } in
      if eqb t.version original
      then (do ports.save_idempotency c.idempotency_key kept; pure (kept, false))
      else (do
        or_return (validate event)
        ports.save t
        ports.append event
        ports.save_idempotency c.idempotency_key changed
        pure (changed, true))

  unfoldable pub first_time : (Task → Task × Option Error) → Action S (IdempotencyResult × Bool)
  unfolding record_change
  first_time transition = do
    t ← ports.get_for_update c.task_id
    refuse_if (not (t.warehouse_id == c.actor.warehouse_id)) Error.warehouse_access_denied
    or_return (transition t).1
    record_change t.version (transition t).0

  -- The function that `mutate` hands to `WithinTransaction`.
  unfoldable pub in_transaction : (Task → Task × Option Error) → Action S (IdempotencyResult × Bool)
  in_transaction transition = do
    previous ← ports.find c.idempotency_key
    elim previous [ none ↦ first_time transition | some result ↦ pure (result, false) ]

  publish_event : IdempotencyResult → S → Reply × S
  publish_event result s =
      if eqb result.event.event_id 0
      then (done result.task, s)
      else let (r, s') = ports.publish result.event s in
        elim r [ ok u ↦ (done result.task, s') | err e ↦ (pending result.task, s') ]

  -- Behind the transaction: an error of the invalidator is dropped.
  after_commit : Result (IdempotencyResult × Bool) → S → Reply × S
  after_commit (err e) s = (refused e, s)
  after_commit (ok (result, false)) s = (done result.task, s)
  after_commit (ok (result, true)) s =
      publish_event result
        (ports.invalidate_task_views c.actor.warehouse_id c.actor.operator_id s).1

  unfoldable pub mutate : (Task → Task × Option Error) → S → Reply × S
  unfolding after_commit publish_event
  mutate transition s =
      let (r, s') = ports.within_transaction (in_transaction transition) s in after_commit r s'

module _ {S : Type 0} (ports : Ports S) where
  unfoldable pub claim_task : Command → Fresh → S → Reply × S
  claim_task c fresh =
      mutate ports c "TaskAssigned" fresh (claim c.actor.operator_id c.base_version fresh.now)

  unfoldable pub release_task : Command → Fresh → S → Reply × S
  release_task c fresh =
      mutate ports c "TaskReleased" fresh (release c.actor.operator_id c.base_version fresh.now)

  unfoldable pub command_status :
      (uuid_string : ℕ → String) → ℕ → Actor → Action S IdempotencyResult
  command_status uuid_string id actor = do
    found ← ports.find (uuid_string id)
    elim found [
      | none ↦ fail Error.task_not_found
      | some result ↦
          if not (result.task.warehouse_id == actor.warehouse_id)
            || not (holds result.task.operator_id actor.operator_id)
          then fail Error.warehouse_access_denied
          else pure result
    ]

  unfoldable pub detail : String → Actor → Action S Task
  detail id actor = do
    t ← ports.get_for_update id
    refuse_if
        (not (t.warehouse_id == actor.warehouse_id)
          || held_by_other t.operator_id actor.operator_id)
        Error.task_not_found
    pure t

-- `List` of the service: the filter's operator is the actor, and a limit outside 1 to 100 is 20.
unfoldable pub list_tasks :
    (encode : String → String) (decode : String → Option String)
    → TaskFilter
    → Actor
    → Store
    → Result TaskPage
list_tasks encode decode f actor s =
    if f.warehouse_id == actor.warehouse_id
    then Store.list encode decode
        (record f {
          operator_id = actor.operator_id;
          limit = if lt_i64 f.limit 1 || lt_i64 100 f.limit then 20 else f.limit;
        })
        s
    else err Error.warehouse_access_denied
