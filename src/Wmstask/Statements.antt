-- ===== src/Wmstask/Statements.antt =====
-- The statements of wmstask/command.go on the rows, and the arguments of its request hashes.
use pda_backend.Common.{ℕ, String, none, some, [], ◌∷◌, ◌++◌, eqb, any, if◌then◌else◌}
use pda_backend.Common.Text.{bar_joined}
use pda_backend.Common.Table.{lookup, insert}
use pda_backend.Platform.{Error, ok, err, Action, Actor}
use pda_backend.Wmstask.Rows.{
  Floating, State, Projection, Execution, IntegrationEvent, Task, Command, Database,
  accepted_scan_types,
}

-- The arguments of `requestHash`.
pub record Hashed (F : Type 0) : Type 0 where
  pub task_id : String
  pub command_type : String
  pub version : ℕ
  pub operator_id : String
  pub quantity : F
  pub extra : String

-- The arguments of `requestHash` in each call.
module _ {F : Type 0} (fl : Floating F) (actor : Actor) (id : String) where
  abbrev pub start_hashed : ℕ → Hashed F
  start_hashed expected = record {
    task_id = id;
    command_type = "START";
    version = expected;
    operator_id = actor.operator_id;
    quantity = fl.zero;
    extra = "";
  }

  abbrev pub scan_hashed : String → String → ℕ → Hashed F
  scan_hashed scan_type scan_value expected = record {
    task_id = id;
    command_type = "SCAN";
    version = expected;
    operator_id = actor.operator_id;
    quantity = fl.zero;
    extra = bar_joined scan_type scan_value;
  }

  abbrev pub complete_hashed : F → ℕ → Hashed F
  complete_hashed confirmed expected = record {
    task_id = id;
    command_type = "COMPLETE";
    version = expected;
    operator_id = actor.operator_id;
    quantity = confirmed;
    extra = "";
  }

  abbrev pub fail_hashed : String → ℕ → Hashed F
  fail_hashed reason expected = record {
    task_id = id;
    command_type = "FAIL";
    version = expected;
    operator_id = actor.operator_id;
    quantity = fl.zero;
    extra = reason;
  }

module _ {F : Type 0} where
  unfoldable pub load_projection : String → Action (Database F) (Projection F)
  load_projection id s = elim (lookup id s.projections) [
    | none ↦ (err Error.wms_task_not_found, s)
    | some p ↦ (ok p, s)
  ]

  -- The state that `loadExecution` answers.
  abbrev pub state_of : String → Database F → State
  state_of id s = elim (lookup id s.executions) [ none ↦ State.dispatched | some e ↦ e.state ]

  unfoldable pub put_execution : String → Execution F → Action (Database F) (Unit {0})
  put_execution id e s = (ok tt, record s { executions = insert id e s.executions })

  abbrev pub dispatched_row : ℕ → F → ℕ → Projection F → Execution F
  dispatched_row new zero now p = record {
    pda_task_id = new;
    task_version = p.task_version;
    state = State.dispatched;
    operator_id = "";
    device_id = "";
    confirmed_quantity = zero;
    reason_code = "";
    started_at = none;
    finished_at = none;
    updated_at = now;
  }

  unfoldable pub ensure_pda_task_id : String → ℕ → F → ℕ → Action (Database F) ℕ
  ensure_pda_task_id id new zero now s = elim (lookup id s.executions) [
    | some e ↦ (ok e.pda_task_id, s)
    | none ↦ elim (lookup id s.projections) [
      | none ↦ (err (Error.fault 0), s)
      | some p ↦
          (ok new, record s { executions = insert id (dispatched_row new zero now p) s.executions })
    ]
  ]

  unfoldable pub read_task : String → Action (Database F) (Task F)
  read_task id s = elim (lookup id s.projections) [
    | none ↦ (err (Error.fault 0), s)
    | some p ↦ (
      ok (record {
        warehouse_task_id = id;
        projected = p;
        execution = lookup id s.executions;
        completed_scans = accepted_scan_types id s.scans;
      }),
      s,
    )
  ]

  unfoldable pub insert_event : IntegrationEvent F → Action (Database F) (Unit {0})
  insert_event e s =
      if any (λ f. eqb f.event_id e.event_id) s.outbox
      then (err (Error.fault 0), s)
      else (ok tt, record s { outbox = s.outbox ++ (e ∷ []) })

  -- `INSERT INTO pda_task_command … ON CONFLICT (command_id) DO NOTHING`
  unfoldable pub insert_command : Command F → Action (Database F) (Unit {0})
  insert_command c s =
      if any (λ d. eqb d.command_id c.command_id) s.commands
      then (ok tt, s)
      else (ok tt, record s { commands = s.commands ++ (c ∷ []) })

  -- `defer tx.Rollback`: what a failed command wrote is rolled back.
  unfoldable pub transaction {ℓ} : {A : Type ℓ} → Action (Database F) A → Action (Database F) A
  transaction operation s =
      let (r, s') = operation s in elim r [ ok a ↦ (ok a, s') | err e ↦ (err e, s) ]
