-- ===== src/Wmstask/Service/Calls.antt =====
-- Sequences of the four calls on the dispatched tasks.
use pda_backend.Common.{ℕ, String, ◌≡◌, refl, List, [], ◌∷◌, arith, true, ◌∙◌}
use pda_backend.Common.Text.{trim_space, to_upper}
use pda_backend.Platform.{Actor, Action}
use pda_backend.Wmstask.Rows.{Floating, Database, is_finished, Task}
use pda_backend.Wmstask.Statements.{Hashed, state_of, start_hashed, scan_hashed, fail_hashed}
use pda_backend.Wmstask.Service.{
  Fresh, start, start_change, scan, scan_change, record_rejected_scan, complete, complete_change,
  fail_task, fail_change,
}
use pda_backend.Wmstask.Service.States.{
  start-Keeps, scan-Keeps, complete-Keeps, fail-Keeps, command-Keeps,
}

-- What a device asks for, with the version that it expects and the identifier of its command.
pub data Request (F : Type 0) : Type 0 where
  starts : (expected command_id : ℕ) → Request F
  scans : (scan_type scan_value : String) (expected command_id : ℕ) → Request F
  completes : (confirmed : F) (expected command_id : ℕ) → Request F
  fails : (reason : String) (expected command_id : ℕ) → Request F

pub record Call (F : Type 0) : Type 0 where
  pub id : String
  pub actor : Actor
  pub fresh : Fresh
  pub request : Request F

module _ {F : Type 0} (fl : Floating F) (request_hash : Hashed F → ℕ) (scan_hash : String → ℕ) where
  unfoldable pub answer : Fresh → Actor → String → Request F → Action (Database F) (Task F)
  answer fresh actor id (starts expected command_id) =
      start fl request_hash fresh actor id expected command_id
  answer fresh actor id (scans scan_type scan_value expected command_id) =
      scan fl request_hash fresh actor id scan_hash scan_type scan_value expected command_id
  answer fresh actor id (completes confirmed expected command_id) =
      complete fl request_hash fresh actor id confirmed expected command_id
  answer fresh actor id (fails reason expected command_id) =
      fail_task fl request_hash fresh actor id reason expected command_id

  unfoldable pub serve : List (Call F) → Database F → Database F
  serve [] s = s
  serve (c ∷ cs) s = serve cs (answer c.fresh c.actor c.id c.request s).1

  answer-keeps :
      (fresh : Fresh) (actor : Actor) (id : String) (r : Request F) (k : String) (s : Database F)
      → is_finished (state_of k s) ≡ true
      → state_of k (answer fresh actor id r s).1 ≡ state_of k s
  unfolding answer start scan complete fail_task record_rejected_scan
  answer-keeps fresh actor id (starts expected key) k s f = ground (
    arith,
    command-Keeps fl request_hash fresh actor id k
        (start_change fl request_hash fresh actor id expected) key
        (start_hashed fl actor id expected) s
        (start-Keeps fl request_hash fresh actor id k expected) f,
  )
  answer-keeps fresh actor id (scans scan_type scan_value expected key) k s f =
      let type = to_upper (trim_space scan_type) in
      let value = trim_space scan_value in
      ground (
        arith,
        command-Keeps fl request_hash fresh actor id k
            (scan_change fl request_hash fresh actor id scan_hash type value expected) key
            (scan_hashed fl actor id type value expected) s
            (scan-Keeps fl request_hash fresh actor id k scan_hash type value expected) f,
      )
  answer-keeps fresh actor id (completes confirmed expected key) k s f =
      command-Keeps fl request_hash fresh actor id k
        (complete_change fl request_hash fresh actor id confirmed expected) key _ s
        (complete-Keeps fl request_hash fresh actor id k confirmed expected) f
  answer-keeps fresh actor id (fails given expected key) k s f =
      let reason = to_upper (trim_space given) in
      ground (
        arith,
        command-Keeps fl request_hash fresh actor id k
            (fail_change fl request_hash fresh actor id reason expected) key
            (fail_hashed fl actor id reason expected) s
            (fail-Keeps fl request_hash fresh actor id k reason expected) f,
      )

  -- A task that an operator completed or failed stays so, whatever calls follow.
  pub finished_is_final :
      (cs : List (Call F)) (k : String) (s : Database F)
      → is_finished (state_of k s) ≡ true
      → state_of k (serve cs s) ≡ state_of k s
  unfolding serve
  finished_is_final [] k s f = refl
  finished_is_final (c ∷ cs) k s f =
      let kept = answer-keeps c.fresh c.actor c.id c.request k s f in
      finished_is_final cs k (answer c.fresh c.actor c.id c.request s).1 (rw kept f) ∙ kept
