-- ===== src/Wmstask/Service.antt =====
-- wmstask/service.go and command.go: Start, Scan, Complete and Fail. New identifiers and the readings
-- of the clock are arguments; the SHA-256 of a request and of a scan are parameters.
pub mod States
pub mod Calls
pub mod Retries
pub mod Evidence
pub mod Completion
use pda_backend.Common.{
  ℕ, String, Option, none, some, List, [], ◌∷◌, ◌++◌, Bool, true, false, not, ◌&&◌, ◌||◌, ◌==◌, eqb,
  any, if◌then◌else◌,
}
use pda_backend.Common.Text.{trim_space, to_upper, bar_joined}
use pda_backend.Common.Table.{lookup, insert}
use pda_backend.Platform.{
  Error, Result, ok, err, Action, pure, fail, ◌>>=◌, ◌>>◌, refuse_if, or_return, Actor,
}
use pda_backend.Wmstask.Statements.{
  start_hashed, scan_hashed, complete_hashed, fail_hashed, load_projection, state_of, put_execution,
  dispatched_row, ensure_pda_task_id, read_task, insert_event, insert_command, transaction, Hashed,
}
use pda_backend.Wmstask.Rows.{
  Floating, State, Projection, Execution, Scan, Fact, task_started, task_completed, task_failed,
  IntegrationEvent, Task, Command, Database, is_started, is_finished, command_of,
  expected_scan_value, contains, insert_scan, scan_evidence, accepted_scan_types,
}

-- What one call takes from outside: the identifiers that it makes and two readings of the clock.
pub record Fresh : Type 0 where
  pub command_id : ℕ
  pub pda_task_id : ℕ
  pub event_id : ℕ
  pub now : ℕ
  pub occurred_at : ℕ

-- A change of a task: the fact to publish, or none.
abbrev pub Mutate : Type 0 → Type 0
Mutate F = Projection F → State → Action (Database F) (Option (Fact F))

module _ {F : Type 0} (fl : Floating F) (request_hash : Hashed F → ℕ) (fresh : Fresh)
    (actor : Actor) (id : String) where
  unfoldable pub append_integration_event : Projection F → Fact F → Action (Database F) (Unit {0})
  append_integration_event p fact = do
    pda_task_id ← ensure_pda_task_id id fresh.pda_task_id fl.zero fresh.now
    insert_event (record {
      event_id = fresh.event_id;
      aggregate_id = id;
      aggregate_version = p.task_version;
      pda_task_id = pda_task_id;
      task_type = p.task_type;
      warehouse_id = p.warehouse_id;
      work_order_id = p.work_order_id;
      material_request_id = p.material_request_id;
      correlation_id = if p.correlation_id == "" then actor.correlation_id else p.correlation_id;
      site_id = p.site_id;
      occurred_at = fresh.occurred_at;
      fact = fact;
    })

  unfoldable pub publish : Projection F → Option (Fact F) → Action (Database F) (Unit {0})
  publish p none = pure tt
  publish p (some fact) = append_integration_event p fact

  -- From `loadProjection` on.
  unfoldable pub first_time : ℕ → ℕ → Mutate F → Action (Database F) (Task F)
  first_time command_id hash apply = do
    p ← load_projection id
    fact ← (λ s. apply p (state_of id s) s)
    publish p fact
    result ← read_task id
    insert_command (record { command_id = command_id; request_hash = hash; result = result })
    pure result

  -- `command`: a Nil identifier is replaced by a new one.
  unfoldable pub command : ℕ → Hashed F → Mutate F → Action (Database F) (Task F)
  command command_id hashed apply s =
      let key = if eqb command_id 0 then fresh.command_id else command_id in
      let hash = request_hash hashed in
      elim (command_of key s.commands) [
        | some stored ↦
            if not (eqb stored.request_hash hash)
            then (err Error.command_conflict, s)
            else (ok stored.result, s)
        | none ↦ transaction (first_time key hash apply) s
      ]

  unfoldable pub start_row : Projection F → Option (Execution F) → Execution F
  start_row p none = record {
    pda_task_id = fresh.pda_task_id;
    task_version = p.task_version;
    state = State.started;
    operator_id = actor.operator_id;
    device_id = actor.device_id;
    confirmed_quantity = fl.zero;
    reason_code = "";
    started_at = some fresh.now;
    finished_at = none;
    updated_at = fresh.now;
  }
  start_row p (some e) = record e {
    task_version = p.task_version;
    state = State.started;
    operator_id = actor.operator_id;
    device_id = actor.device_id;
    started_at = elim e.started_at [ none ↦ some fresh.now | some at ↦ some at ];
    updated_at = fresh.now;
  }

  unfoldable pub start_change : ℕ → Mutate F
  start_change expected p state = do
    refuse_if (not (eqb p.task_version expected)) Error.wms_version_conflict
    refuse_if (is_finished state) Error.already_finished
    (λ s. put_execution id (start_row p (lookup id s.executions)) s)
    pure (some (task_started actor.operator_id actor.device_id fresh.now))

  unfoldable pub start : ℕ → ℕ → Action (Database F) (Task F)
  start expected command_id =
      if actor.operator_id == "" || actor.device_id == ""
      then fail Error.operator_required
      else command command_id (start_hashed fl actor id expected) (start_change expected)

  abbrev pub scan_row : (scan_hash : String → ℕ) → String → String → Bool → Scan
  scan_row scan_hash scan_type scan_value accepted = record {
    task_id = id;
    scan_type = scan_type;
    scan_value = scan_value;
    scan_hash = scan_hash (bar_joined scan_type scan_value);
    accepted = accepted;
    operator_id = actor.operator_id;
    device_id = actor.device_id;
  }

  unfoldable pub scan_change : (scan_hash : String → ℕ) → String → String → ℕ → Mutate F
  scan_change scan_hash scan_type scan_value expected p state = do
    refuse_if (not (eqb p.task_version expected)) Error.wms_version_conflict
    refuse_if (not (is_started state)) Error.not_started
    refuse_if (not (contains p.scan_requirements scan_type)) Error.scan_type_invalid
    refuse_if
        (elim (expected_scan_value p scan_type) [
          | none ↦ true
          | some value ↦ value == "" || not (value == scan_value)
        ])
        Error.scan_mismatch
    (λ s. (
      ok tt,
      record s { scans = insert_scan (scan_row scan_hash scan_type scan_value true) s.scans },
    ))
    pure none

  abbrev pub is_mismatch : Result (Task F) → Bool
  is_mismatch (err Error.scan_mismatch) = true
  is_mismatch _ = false

  -- `recordRejectedScan`: its own statement, whose failure is only logged.
  unfoldable pub record_rejected_scan :
      (scan_hash : String → ℕ) → String → String → Database F → Database F
  record_rejected_scan scan_hash scan_type scan_value s = record s {
    scans = insert_scan (scan_row scan_hash scan_type scan_value false) s.scans;
  }

  unfoldable pub scan :
      (scan_hash : String → ℕ) → String → String → ℕ → ℕ → Action (Database F) (Task F)
  scan scan_hash given_type given_value expected command_id s =
      let scan_type = to_upper (trim_space given_type) in
      let scan_value = trim_space given_value in
      if scan_type == "" || scan_value == ""
      then (err Error.scan_type_invalid, s)
      else let (r, s') =
          command command_id (scan_hashed fl actor id scan_type scan_value expected)
            (scan_change scan_hash scan_type scan_value expected) s in
        (r, if is_mismatch r then record_rejected_scan scan_hash scan_type scan_value s' else s')

  -- The first requirement that no accepted scan meets.
  unfoldable pub first_missing : List String → List String → Option String
  first_missing accepted [] = none
  first_missing accepted (required ∷ requirements) =
      let rest = first_missing accepted requirements in
      if not (contains accepted required) then some required else rest

  -- `UPDATE pda_task_execution SET state='COMPLETED', …`
  unfoldable pub complete_row : F → Execution F → Execution F
  complete_row confirmed e = record e {
    state = State.completed;
    confirmed_quantity = confirmed;
    finished_at = some fresh.now;
    updated_at = fresh.now;
  }

  unfoldable pub update_completed : F → Action (Database F) (Unit {0})
  update_completed confirmed s = elim (lookup id s.executions) [
    | none ↦ (ok tt, s)
    | some e ↦ (ok tt, record s { executions = insert id (complete_row confirmed e) s.executions })
  ]

  -- The refusals of Complete, in their order.
  unfoldable pub complete_refusal : F → ℕ → Projection F → State → List String → Option Error
  complete_refusal confirmed expected p state accepted =
      if not (eqb p.task_version expected)
      then some Error.wms_version_conflict
      else if not (is_started state)
      then some Error.not_started
      else if fl.is_le confirmed fl.zero
          || fl.is_lt (fl.plus p.remaining_quantity fl.tolerance) confirmed
      then some Error.quantity_invalid
      else elim (first_missing accepted p.scan_requirements) [
        | none ↦ none
        | some required ↦ some (Error.scans_incomplete required)
      ]

  unfoldable pub complete_change : F → ℕ → Mutate F
  complete_change confirmed expected p state = do
    (λ s.
        or_return (complete_refusal confirmed expected p state (accepted_scan_types id s.scans)) s)
    update_completed confirmed
    (λ s. (
      ok (
          some (
            task_completed actor.operator_id actor.device_id confirmed p.requested_quantity
              (fl.minus p.remaining_quantity confirmed) p.uom_code (scan_evidence id s.scans)
              fresh.now)),
      s,
    ))

  unfoldable pub complete : F → ℕ → ℕ → Action (Database F) (Task F)
  complete confirmed expected command_id =
      command command_id (complete_hashed fl actor id confirmed expected)
        (complete_change confirmed expected)

  unfoldable pub fail_row : String → Projection F → Option (Execution F) → Execution F
  fail_row reason p none = record {
    pda_task_id = fresh.pda_task_id;
    task_version = p.task_version;
    state = State.failed;
    operator_id = actor.operator_id;
    device_id = actor.device_id;
    confirmed_quantity = fl.zero;
    reason_code = reason;
    started_at = none;
    finished_at = some fresh.now;
    updated_at = fresh.now;
  }
  fail_row reason p (some e) = record e {
    state = State.failed;
    reason_code = reason;
    operator_id = actor.operator_id;
    device_id = actor.device_id;
    finished_at = some fresh.now;
    updated_at = fresh.now;
  }

  unfoldable pub fail_change : String → ℕ → Mutate F
  fail_change reason expected p state = do
    refuse_if (not (eqb p.task_version expected)) Error.wms_version_conflict
    refuse_if (is_finished state) Error.already_finished
    (λ s. put_execution id (fail_row reason p (lookup id s.executions)) s)
    (λ s. (
      ok (
          some (
            task_failed actor.operator_id actor.device_id reason (scan_evidence id s.scans)
              fresh.now)),
      s,
    ))

  unfoldable pub fail_task : String → ℕ → ℕ → Action (Database F) (Task F)
  fail_task given_reason expected command_id =
      let reason = to_upper (trim_space given_reason) in
      if reason == ""
      then fail Error.reason_required
      else command command_id (fail_hashed fl actor id reason expected)
          (fail_change reason expected)
