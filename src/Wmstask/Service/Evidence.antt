-- ===== src/Wmstask/Service/Evidence.antt =====
-- The scan evidence: what each change writes as accepted has the value that the task asks for.
use pda_backend.Common.{
  ℕ, String, ◌≡◌, inl, inr, Option, none, some, List, [], ◌∷◌, ◌++◌, Option-cases, Bool-cases,
  arith, ◌==◌, ◌||◌, true, false, ap, eqb, if◌then◌else◌, Bool, not, All,
}
use pda_backend.Common.Table.{lookup}
use pda_backend.Platform.{ok, Actor, Result-cases}
use pda_backend.Wmstask.Rows.{
  Floating, Database, Fact, Projection, Task, command_of, State, Scan, insert_scan,
  expected_scan_value,
}
use pda_backend.Wmstask.Statements.{
  Hashed, state_of, load_projection, put_execution, ensure_pda_task_id, read_task, insert_event,
  insert_command, transaction,
}
use pda_backend.Wmstask.Service.{
  Fresh, Mutate, append_integration_event, publish, first_time, command, start_change, scan_row,
  scan_change, complete_change, update_completed, fail_change,
}
use pda_backend.Wmstask.Service.States.{complete_change-ok}

module _ {F : Type 0} where
  -- An accepted scan has the value that its task's projection holds for its type.
  abbrev pub is_truthful : List (String × Projection F) → Scan → Bool
  is_truthful projections x = not x.accepted || elim (lookup x.task_id projections) [
    | none ↦ false
    | some p ↦ elim (expected_scan_value p x.scan_type) [
      | none ↦ false
      | some value ↦ value == x.scan_value
    ]
  ]

  abbrev pub IsTruthful : List (String × Projection F) → List Scan → Type 0
  IsTruthful projections = All (λ x. is_truthful projections x ≡ true)

  append-IsTruthful :
      (projections : List (String × Projection F)) (xs : List Scan) (x : Scan)
      → IsTruthful projections xs
      → is_truthful projections x ≡ true
      → IsTruthful projections (xs ++ (x ∷ []))
  append-IsTruthful projections [] x h t = (t, tt)
  append-IsTruthful projections (y ∷ ys) x h t = (h.0, append-IsTruthful projections ys x h.1 t)

  pub insert_scan-IsTruthful :
      (projections : List (String × Projection F)) (x : Scan) (xs : List Scan)
      → IsTruthful projections xs
      → is_truthful projections x ≡ true
      → IsTruthful projections (insert_scan x xs)
  unfolding insert_scan
  insert_scan-IsTruthful projections x xs h t =
      ground (arith, append-IsTruthful projections xs x h t)

module _ {F : Type 0} (fl : Floating F) (request_hash : Hashed F → ℕ) (fresh : Fresh)
    (actor : Actor) (id : String) where
  -- A change that succeeds keeps the projections, and the scans truthful.
  abbrev Honest : Mutate F → Type 0
  Honest apply =
      (p : Projection F) (state : State) (fact : Option (Fact F)) (s s' : Database F)
      → lookup id s.projections ≡ some p
      → IsTruthful s.projections s.scans
      → apply p state s ≡ (ok fact, s')
      → (s'.projections ≡ s.projections) × IsTruthful s.projections s'.scans

  pub start-Honest : (expected : ℕ) → Honest (start_change fl request_hash fresh actor id expected)
  unfolding start_change put_execution
  start-Honest expected p state fact s s' l t h = ground arith

  pub fail-Honest :
      (reason : String) (expected : ℕ)
      → Honest (fail_change fl request_hash fresh actor id reason expected)
  unfolding fail_change put_execution
  fail-Honest reason expected p state fact s s' l t h = ground arith

  update_completed-rows :
      (confirmed : F) (s : Database F)
      → let s' = (update_completed fl request_hash fresh actor id confirmed s).1 in
        (s'.projections ≡ s.projections) × (s'.scans ≡ s.scans)
  unfolding update_completed
  update_completed-rows confirmed s = ground arith

  pub complete-Honest :
      (confirmed : F) (expected : ℕ)
      → Honest (complete_change fl request_hash fresh actor id confirmed expected)
  complete-Honest confirmed expected p state fact s s' l t h =
      let (fine, written) =
        complete_change-ok fl request_hash fresh actor id "" confirmed expected p state fact s s'
          h in
      ground (arith, written, update_completed-rows confirmed s)

  pub scan-Honest :
      (scan_hash : String → ℕ) (scan_type scan_value : String) (expected : ℕ)
      → Honest (scan_change fl request_hash fresh actor id scan_hash scan_type scan_value expected)
  unfolding scan_change
  scan-Honest scan_hash scan_type scan_value expected p state fact s s' l t h =
      let row = scan_row fl request_hash fresh actor id scan_hash scan_type scan_value true in
      elim (Bool-cases (is_truthful s.projections row)) [
        | inl honest ↦ ground (arith, insert_scan-IsTruthful s.projections row s.scans t honest)
        | inr lying ↦ ground arith
      ]

  publish-rows :
      (p : Projection F) (fact : Option (Fact F)) (s s' : Database F)
      → publish fl request_hash fresh actor id p fact s ≡ (ok tt, s')
      → (s'.projections ≡ s.projections) × (s'.scans ≡ s.scans)
  unfolding publish append_integration_event ensure_pda_task_id insert_event
  publish-rows p none s s' h = ground arith
  publish-rows p (some f) s s' h = ground arith

  first_time-IsTruthful :
      (apply : Mutate F) (key hash : ℕ) (s s' : Database F) (t : Task F)
      → Honest apply
      → IsTruthful s.projections s.scans
      → first_time fl request_hash fresh actor id key hash apply s ≡ (ok t, s')
      → (s'.projections ≡ s.projections) × IsTruthful s.projections s'.scans
  unfolding first_time load_projection read_task insert_command
  first_time-IsTruthful apply key hash s s' t honest truthful h =
      elim (Option-cases (lookup id s.projections)) [
        | inl missing ↦ ground arith
        | inr (p, projected) ↦ elim (Result-cases (apply p (state_of id s) s).0) [
          | inr (why, e) ↦ ground arith
          | inl (fact, e) ↦
              let s1 = (apply p (state_of id s) s).1 in
              elim (Result-cases (publish fl request_hash fresh actor id p fact s1).0) [
                | inr (why, e') ↦ ground arith
                | inl (done, e') ↦
                    let s2 = (publish fl request_hash fresh actor id p fact s1).1 in
                    let kept =
                      honest p (state_of id s) fact s s1 projected truthful (ap (λ r. (r, s1)) e) in
                    let sent = publish-rows p fact s1 s2 (ap (λ r. (r, s2)) e') in
                    ground (arith, kept, sent)
              ]
        ]
      ]

  pub command-IsTruthful :
      (apply : Mutate F) (command_id : ℕ) (hashed : Hashed F) (s : Database F)
      → Honest apply
      → IsTruthful s.projections s.scans
      → let s' = (command fl request_hash fresh actor id command_id hashed apply s).1 in
        (s'.projections ≡ s.projections) × IsTruthful s.projections s'.scans
  unfolding command transaction
  command-IsTruthful apply command_id hashed s honest truthful =
      let key = if eqb command_id 0 then fresh.command_id else command_id in
      let hash = request_hash hashed in
      elim (Option-cases (command_of key s.commands)) [
        | inr (stored, found) ↦ ground arith
        | inl new ↦
            elim (Result-cases (first_time fl request_hash fresh actor id key hash apply s).0) [
              | inr (why, e) ↦ ground arith
              | inl (t, e) ↦
                  let s1 = (first_time fl request_hash fresh actor id key hash apply s).1 in
                  ground (
                    arith,
                    first_time-IsTruthful apply key hash s s1 t honest truthful
                        (ap (λ r. (r, s1)) e),
                  )
            ]
      ]
