-- ===== src/Wmstask/Service/Completion.antt =====
-- What a completed task rests on: an accepted scan of the right value for every requirement.
use pda_backend.Common.{
  ℕ, String, ◌≡◌, refl, ◌≢◌, inl, inr, Option, none, some, List, [], ◌∷◌, Option-cases, Bool-cases,
  arith, eq_iff, ◌==◌, ◌&&◌, true, false, ap, eqb, if◌then◌else◌, Bool, any, All, All-map, eq_refl,
}
use pda_backend.Common.Text.{trim_space, to_upper, equal_fold}
use pda_backend.Common.Table.{lookup}
use pda_backend.Platform.{ok, Actor, Result-cases}
use pda_backend.Wmstask.Rows.{
  Floating, Database, Fact, Projection, Task, command_of, State, Scan, insert_scan,
  expected_scan_value, accepted_scan_types, contains, same_scan,
}
use pda_backend.Wmstask.Statements.{
  Hashed, state_of, load_projection, transaction, start_hashed, scan_hashed, fail_hashed,
  complete_hashed,
}
use pda_backend.Wmstask.Service.{
  Fresh, Mutate, first_time, command, start, start_change, scan, scan_row, scan_change,
  record_rejected_scan, complete, complete_change, complete_refusal, first_missing, fail_task,
  fail_change,
}
use pda_backend.Wmstask.Service.States.{complete_change-ok}
use pda_backend.Wmstask.Service.Evidence.{
  IsTruthful, start-Honest, fail-Honest, complete-Honest, scan-Honest, command-IsTruthful,
  insert_scan-IsTruthful,
}
use pda_backend.Wmstask.Service.Calls.{
  Call, Request, starts, scans, completes, fails, answer, serve,
}

-- A scan of the task that was accepted for the requirement, with the value that the projection holds.
abbrev pub is_evidence : {F : Type 0} → Projection F → String → String → Scan → Bool
is_evidence p id required x =
    x.task_id == id
    && x.accepted
    && equal_fold x.scan_type required
    && elim (expected_scan_value p x.scan_type) [
      | none ↦ false
      | some value ↦ value == x.scan_value
    ]

module _ {F : Type 0} (fl : Floating F) (request_hash : Hashed F → ℕ) (scan_hash : String → ℕ) where
  answer-IsTruthful :
      (fresh : Fresh) (actor : Actor) (id : String) (r : Request F) (s : Database F)
      → IsTruthful s.projections s.scans
      → let s' = (answer fl request_hash scan_hash fresh actor id r s).1 in
        (s'.projections ≡ s.projections) × IsTruthful s.projections s'.scans
  unfolding answer start scan complete fail_task record_rejected_scan
  answer-IsTruthful fresh actor id (starts expected key) s t = ground (
    arith,
    command-IsTruthful fl request_hash fresh actor id
        (start_change fl request_hash fresh actor id expected) key
        (start_hashed fl actor id expected) s (start-Honest fl request_hash fresh actor id expected)
        t,
  )
  answer-IsTruthful fresh actor id (scans given_type given expected key) s t =
      let scan_type = to_upper (trim_space given_type) in
      let value = trim_space given in
      let change = scan_change fl request_hash fresh actor id scan_hash scan_type value expected in
      let hashed = scan_hashed fl actor id scan_type value expected in
      let s1 = (command fl request_hash fresh actor id key hashed change s).1 in
      let kept =
        command-IsTruthful fl request_hash fresh actor id change key hashed s
          (scan-Honest fl request_hash fresh actor id scan_hash scan_type value expected) t in
      let rejected =
        insert_scan-IsTruthful s.projections
          (scan_row fl request_hash fresh actor id scan_hash scan_type value false) s1.scans kept.1
          refl in
      ground (arith, kept, rejected)
  answer-IsTruthful fresh actor id (completes confirmed expected key) s t =
      command-IsTruthful fl request_hash fresh actor id
        (complete_change fl request_hash fresh actor id confirmed expected) key
        (complete_hashed fl actor id confirmed expected) s
        (complete-Honest fl request_hash fresh actor id confirmed expected) t
  answer-IsTruthful fresh actor id (fails given expected key) s t =
      let reason = to_upper (trim_space given) in
      ground (
        arith,
        command-IsTruthful fl request_hash fresh actor id
            (fail_change fl request_hash fresh actor id reason expected) key
            (fail_hashed fl actor id reason expected) s
            (fail-Honest fl request_hash fresh actor id reason expected) t,
      )

  serve-IsTruthful :
      (cs : List (Call F)) (s : Database F)
      → IsTruthful s.projections s.scans
      → let s' = serve fl request_hash scan_hash cs s in IsTruthful s'.projections s'.scans
  unfolding serve
  serve-IsTruthful [] s t = t
  serve-IsTruthful (c ∷ cs) s t =
      let (same, kept) = answer-IsTruthful c.fresh c.actor c.id c.request s t in
      serve-IsTruthful cs (answer fl request_hash scan_hash c.fresh c.actor c.id c.request s).1
        (rw same kept)

first_missing-none :
    {F : Type 0} (fl : Floating F) (request_hash : Hashed F → ℕ) (fresh : Fresh) (actor : Actor)
    (id : String) (accepted requirements : List String)
    → first_missing fl request_hash fresh actor id accepted requirements ≡ none
    → All (λ r. contains accepted r ≡ true) requirements
unfolding first_missing
first_missing-none fl request_hash fresh actor id accepted [] h = tt
first_missing-none fl request_hash fresh actor id accepted (r ∷ rs) h =
    ground (arith, first_missing-none fl request_hash fresh actor id accepted rs)

-- A type among the accepted ones is that of an accepted scan, which is truthful.
contains-evidence :
    {F : Type 0} (projections : List (String × Projection F)) (p : Projection F)
    (id required : String) (xs : List Scan)
    → lookup id projections ≡ some p
    → IsTruthful projections xs
    → contains (accepted_scan_types id xs) required ≡ true
    → any (is_evidence p id required) xs ≡ true
unfolding contains accepted_scan_types
contains-evidence projections p id required [] l t h = h
contains-evidence projections p id required (x ∷ xs) l t h =
    let rest = contains-evidence projections p id required xs l t.1 in
    elim (Bool-cases (x.task_id == id)) [
      | inl same ↦
          let is_id : x.task_id ≡ id = (eq_iff x.task_id id).0 same in
          ground (arith, rest, rw is_id at t.0)
      | inr other ↦ ground (arith, rest)
    ]

module _ {F : Type 0} (fl : Floating F) (request_hash : Hashed F → ℕ) (fresh : Fresh)
    (actor : Actor) (id : String) where
  -- A command that succeeds for the first time has found the projection and made its change.
  command-applied :
      (apply : Mutate F) (command_id : ℕ) (hashed : Hashed F) (s s' : Database F) (t : Task F)
      → command_of (if eqb command_id 0 then fresh.command_id else command_id) s.commands ≡ none
      → command fl request_hash fresh actor id command_id hashed apply s ≡ (ok t, s')
      → (p : Projection F) × (fact : Option (Fact F)) × (lookup id s.projections ≡ some p)
        × (apply p (state_of id s) s ≡ (ok fact, (apply p (state_of id s) s).1))
  unfolding command transaction first_time load_projection
  command-applied apply command_id hashed s s' t new h =
      elim (Option-cases (lookup id s.projections)) [
        | inl missing ↦ ground arith
        | inr (p, projected) ↦ elim (Result-cases (apply p (state_of id s) s).0) [
          | inr (why, e) ↦ ground arith
          | inl (fact, e) ↦ (p, fact, projected, ap (λ r. (r, (apply p (state_of id s) s).1)) e)
        ]
      ]

  complete_refusal-scans :
      (confirmed : F) (expected : ℕ) (p : Projection F) (state : State) (accepted : List String)
      → complete_refusal fl request_hash fresh actor id confirmed expected p state accepted ≡ none
      → (p.task_version ≡ expected)
        × (state ≡ State.started)
        × (first_missing fl request_hash fresh actor id accepted p.scan_requirements ≡ none)
  unfolding complete_refusal
  complete_refusal-scans confirmed expected p state accepted h = ground arith

  -- Whatever calls went before, a completion that succeeds for the first time is of a started task
  -- at the expected version, of whose requirements each has an accepted scan, with the value that
  -- the warehouse system's projection holds for the scan's type. The scans that were there before
  -- the calls were truthful.
  pub complete_needs_evidence :
      (scan_hash : String → ℕ) (cs : List (Call F)) (s0 s' : Database F) (confirmed : F)
      (expected command_id : ℕ) (t : Task F)
      → IsTruthful s0.projections s0.scans
      → let s = serve fl request_hash scan_hash cs s0 in
        command_of (if eqb command_id 0 then fresh.command_id else command_id) s.commands ≡ none
        → complete fl request_hash fresh actor id confirmed expected command_id s ≡ (ok t, s')
        → (p : Projection F) × (lookup id s.projections ≡ some p)
          × (p.task_version ≡ expected)
          × (state_of id s ≡ State.started)
          × All (λ r. any (is_evidence p id r) s.scans ≡ true) p.scan_requirements
  unfolding complete
  complete_needs_evidence scan_hash cs s0 s' confirmed expected command_id t truthful new h =
      let s = serve fl request_hash scan_hash cs s0 in
      let (p, fact, projected, applied) =
        command-applied (complete_change fl request_hash fresh actor id confirmed expected)
          command_id (complete_hashed fl actor id confirmed expected) s s' t new h in
      let (fine, written) =
        complete_change-ok fl request_hash fresh actor id "" confirmed expected p (state_of id s)
          fact s _ applied in
      let (same, started, scanned) =
        complete_refusal-scans confirmed expected p (state_of id s) (accepted_scan_types id s.scans)
          fine in
      (
        p,
        projected,
        same,
        started,
        All-map
            (λ r.
              contains-evidence s.projections p id r s.scans projected
                (serve-IsTruthful fl request_hash scan_hash cs s0 truthful))
            p.scan_requirements
            (first_missing-none fl request_hash fresh actor id _ p.scan_requirements scanned),
      )

  -- A scan that matches the task, and whose type and value were once stored for it, as rejected
  -- say, is answered as a success but stores nothing, so that the requirement stays open.
  pub rejected_scan_stays :
      (scan_hash : String → ℕ) (scan_type scan_value : String) (expected : ℕ) (p : Projection F)
      (s : Database F)
      → p.task_version ≡ expected
      → contains p.scan_requirements scan_type ≡ true
      → expected_scan_value p scan_type ≡ some scan_value
      → scan_value ≢ ""
      → any
          (λ x.
            same_scan x
              (scan_row fl request_hash fresh actor id scan_hash scan_type scan_value true))
          s.scans
        ≡ true
      → scan_change fl request_hash fresh actor id scan_hash scan_type scan_value expected p
          State.started s
        ≡ (ok none, s)
  unfolding scan_change insert_scan
  rejected_scan_stays scan_hash scan_type scan_value expected p s v c e n h =
      ground (arith, eq_refl scan_value, eq_iff scan_value "")
