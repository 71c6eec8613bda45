-- ===== src/Wmstask/Service/Retries.antt =====
-- The command identifier: what a call answered is answered again, without a second effect.
use pda_backend.Common.{ℕ, String}
use pda_backend.Platform.{Actor}
use pda_backend.Wmstask.Rows.{Floating}
use pda_backend.Wmstask.Statements.{Hashed, start_hashed, scan_hashed, fail_hashed, complete_hashed}
use pda_backend.Wmstask.Service.{
  Fresh, Mutate, start_change, scan_change, complete_change, fail_change,
}
use pda_backend.Wmstask.Service.Calls.{Request, starts, scans, completes, fails}

module _ {F : Type 0} (fl : Floating F) (request_hash : Hashed F → ℕ) (scan_hash : String → ℕ)
    (fresh : Fresh) (actor : Actor) (id : String) where
  -- What a call hands to `command`, with its text trimmed.
  abbrev pub hashed_of : Request F → Hashed F
  hashed_of (starts expected key) = start_hashed fl actor id expected
  hashed_of (scans scan_type value expected key) = scan_hashed fl actor id scan_type value expected
  hashed_of (completes confirmed expected key) = complete_hashed fl actor id confirmed expected
  hashed_of (fails reason expected key) = fail_hashed fl actor id reason expected

  abbrev pub change_of : Request F → Mutate F
  change_of (starts expected key) = start_change fl request_hash fresh actor id expected
  change_of (scans scan_type value expected key) =
      scan_change fl request_hash fresh actor id scan_hash scan_type value expected
  change_of (completes confirmed expected key) =
      complete_change fl request_hash fresh actor id confirmed expected
  change_of (fails reason expected key) = fail_change fl request_hash fresh actor id reason expected
