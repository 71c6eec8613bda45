-- ===== src/Wmstask/Service/States.antt =====
-- What each change of a dispatched task does to the state of a task that was completed or failed.
use pda_backend.Common.{
  ℕ, String, ◌≡◌, ◌≢◌, inl, inr, Option, none, some, List, Option-cases, Bool-cases, arith, eq_iff,
  ◌==◌, true, false, ap, eqb, if◌then◌else◌,
}
use pda_backend.Common.Table.{lookup, lookup-insert_self, lookup-insert_other}
use pda_backend.Platform.{ok, Actor, Result-cases}
use pda_backend.Wmstask.Rows.{
  Floating, Database, Fact, Projection, is_finished, Task, command_of, State, accepted_scan_types,
}
use pda_backend.Wmstask.Statements.{
  Hashed, state_of, load_projection, put_execution, ensure_pda_task_id, read_task, insert_event,
  insert_command, transaction, dispatched_row,
}
use pda_backend.Wmstask.Service.{
  Fresh, Mutate, append_integration_event, publish, first_time, command, start_change, start_row,
  scan_change, complete_change, complete_refusal, complete_row, update_completed, fail_change,
  fail_row,
}

module _ {F : Type 0} (fl : Floating F) (request_hash : Hashed F → ℕ) (fresh : Fresh)
    (actor : Actor) (id k : String) where
  publish-keeps :
      (p : Projection F) (fact : Option (Fact F)) (s s' : Database F)
      → publish fl request_hash fresh actor id p fact s ≡ (ok tt, s')
      → state_of k s' ≡ state_of k s
  unfolding publish append_integration_event ensure_pda_task_id insert_event
  publish-keeps p none s s' h = ground arith
  publish-keeps p (some f) s s' h = elim (Option-cases (lookup id s.executions)) [
    | inr (e, found) ↦ ground arith
    | inl none_yet ↦ elim (Option-cases (lookup id s.projections)) [
      | inl missing ↦ ground arith
      | inr (q, projected) ↦ elim (Bool-cases (id == k)) [
        | inl same ↦
            let is_same : id ≡ k = (eq_iff id k).0 same in
            let found =
              lookup-insert_self id (dispatched_row fresh.pda_task_id fl.zero fresh.now q)
                s.executions in
            ground (arith, is_same, found)
        | inr other ↦
            let differ : id ≢ k = ground (arith, eq_iff id k) in
            ground (
              arith,
              lookup-insert_other id k (dispatched_row fresh.pda_task_id fl.zero fresh.now q)
                  s.executions differ,
            )
      ]
    ]
  ]

  -- A change that succeeds leaves a finished task in its state.
  abbrev pub Keeps : Mutate F → Type 0
  Keeps apply =
      (p : Projection F) (fact : Option (Fact F)) (s s' : Database F)
      → is_finished (state_of k s) ≡ true
      → apply p (state_of id s) s ≡ (ok fact, s')
      → state_of k s' ≡ state_of k s

  pub start-Keeps : (expected : ℕ) → Keeps (start_change fl request_hash fresh actor id expected)
  unfolding start_change put_execution
  start-Keeps expected p fact s s' f h = elim (Bool-cases (id == k)) [
    | inl same ↦ let is_same : id ≡ k = (eq_iff id k).0 same in ground (arith, is_same)
    | inr other ↦
        let differ : id ≢ k = ground (arith, eq_iff id k) in
        ground (
          arith,
          lookup-insert_other id k
              (start_row fl request_hash fresh actor id p (lookup id s.executions)) s.executions
              differ,
        )
  ]

  pub fail-Keeps :
      (reason : String) (expected : ℕ)
      → Keeps (fail_change fl request_hash fresh actor id reason expected)
  unfolding fail_change put_execution
  fail-Keeps reason expected p fact s s' f h = elim (Bool-cases (id == k)) [
    | inl same ↦ let is_same : id ≡ k = (eq_iff id k).0 same in ground (arith, is_same)
    | inr other ↦
        let differ : id ≢ k = ground (arith, eq_iff id k) in
        ground (
          arith,
          lookup-insert_other id k
              (fail_row fl request_hash fresh actor id reason p (lookup id s.executions))
              s.executions differ,
        )
  ]

  complete_refusal-none :
      (confirmed : F) (expected : ℕ) (p : Projection F) (state : State) (accepted : List String)
      → complete_refusal fl request_hash fresh actor id confirmed expected p state accepted ≡ none
      → is_finished state ≡ false
  unfolding complete_refusal
  complete_refusal-none confirmed expected p state accepted h = ground arith

  -- A completion that succeeds was not refused, and writes only that the task is completed.
  pub complete_change-ok :
      (confirmed : F) (expected : ℕ) (p : Projection F) (state : State) (fact : Option (Fact F))
      (s s' : Database F)
      → complete_change fl request_hash fresh actor id confirmed expected p state s ≡ (ok fact, s')
      → (complete_refusal fl request_hash fresh actor id confirmed expected p state
            (accepted_scan_types id s.scans)
          ≡ none)
        × ((update_completed fl request_hash fresh actor id confirmed s).1 ≡ s')
  unfolding complete_change
  complete_change-ok confirmed expected p state fact s s' h =
      elim (Option-cases (
        complete_refusal fl request_hash fresh actor id confirmed expected p state
          (accepted_scan_types id s.scans))) [
            | inr (e, refused) ↦ ground arith
            | inl fine ↦
                elim (Result-cases
                  (update_completed fl request_hash fresh actor id confirmed s).0) [
                    | inl (done, e) ↦ ground arith
                    | inr (why, e) ↦ ground arith
                  ]
          ]

  update_completed-keeps :
      (confirmed : F) (s : Database F)
      → id ≢ k
      → state_of k (update_completed fl request_hash fresh actor id confirmed s).1 ≡ state_of k s
  unfolding update_completed
  update_completed-keeps confirmed s differ = elim (Option-cases (lookup id s.executions)) [
    | inl missing ↦ ground arith
    | inr (e, found) ↦ ground (
      arith,
      lookup-insert_other id k (complete_row fl request_hash fresh actor id confirmed e)
          s.executions differ,
    )
  ]

  pub complete-Keeps :
      (confirmed : F) (expected : ℕ)
      → Keeps (complete_change fl request_hash fresh actor id confirmed expected)
  complete-Keeps confirmed expected p fact s s' f h =
      let (fine, written) = complete_change-ok confirmed expected p (state_of id s) fact s s' h in
      let unfinished =
        complete_refusal-none confirmed expected p (state_of id s) (accepted_scan_types id s.scans)
          fine in
      elim (Bool-cases (id == k)) [
        | inl same ↦ let is_same : id ≡ k = (eq_iff id k).0 same in ground (arith, is_same)
        | inr other ↦
            rw (← written)
              (update_completed-keeps confirmed s (λ e. ground (arith, eq_iff id k, e)))
      ]

  pub scan-Keeps :
      (scan_hash : String → ℕ) (scan_type scan_value : String) (expected : ℕ)
      → Keeps (scan_change fl request_hash fresh actor id scan_hash scan_type scan_value expected)
  unfolding scan_change
  scan-Keeps scan_hash scan_type scan_value expected p fact s s' f h = ground arith

  first_time-Keeps :
      (apply : Mutate F) (key hash : ℕ) (s s' : Database F) (t : Task F)
      → Keeps apply
      → is_finished (state_of k s) ≡ true
      → first_time fl request_hash fresh actor id key hash apply s ≡ (ok t, s')
      → state_of k s' ≡ state_of k s
  unfolding first_time load_projection read_task insert_command
  first_time-Keeps apply key hash s s' t keeps f h = elim (Option-cases (lookup id s.projections)) [
    | inl missing ↦ ground arith
    | inr (p, projected) ↦ elim (Result-cases (apply p (state_of id s) s).0) [
      | inr (why, e) ↦ ground arith
      | inl (fact, e) ↦
          let s1 = (apply p (state_of id s) s).1 in
          elim (Result-cases (publish fl request_hash fresh actor id p fact s1).0) [
            | inr (why, e') ↦ ground arith
            | inl (done, e') ↦ ground (
              arith,
              keeps p fact s s1 f (ap (λ r. (r, s1)) e),
              publish-keeps p fact s1 (publish fl request_hash fresh actor id p fact s1).1
                  (ap (λ r. (r, (publish fl request_hash fresh actor id p fact s1).1)) e'),
            )
          ]
    ]
  ]

  pub command-Keeps :
      (apply : Mutate F) (command_id : ℕ) (hashed : Hashed F) (s : Database F)
      → Keeps apply
      → is_finished (state_of k s) ≡ true
      → state_of k (command fl request_hash fresh actor id command_id hashed apply s).1
        ≡ state_of k s
  unfolding command transaction
  command-Keeps apply command_id hashed s keeps f =
      let key = if eqb command_id 0 then fresh.command_id else command_id in
      let hash = request_hash hashed in
      elim (Option-cases (command_of key s.commands)) [
        | inr (stored, found) ↦ ground arith
        | inl new ↦
            elim (Result-cases (first_time fl request_hash fresh actor id key hash apply s).0) [
              | inr (why, e) ↦ ground arith
              | inl (t, e) ↦
                  let s1 = (first_time fl request_hash fresh actor id key hash apply s).1 in
                  ground
                    (arith, first_time-Keeps apply key hash s s1 t keeps f (ap (λ r. (r, s1)) e))
            ]
      ]
