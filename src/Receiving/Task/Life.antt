-- ===== src/Receiving/Task/Life.antt =====
-- The life of a receiving task: who may act on it, and what completion closes.
use pda_backend.Common.{ℕ, String, ◌≡◌, refl, List, [], ◌∷◌, Option, none, arith}
use pda_backend.Common.Int64.{next}
use pda_backend.Receiving.Task.{Task, Status, start, claim, confirm_with_condition, complete}

-- The requests that a device may send.
pub data Request : Type 0 where
  starts claims completes : (operator : String) (base now : ℕ) → Request
  confirms :
      (operator line_id barcode : String) (quantity : ℕ) (condition : String)
      (remark : Option String) (base now : ℕ)
      → Request

unfoldable pub step : Task → Request → Task
step t (starts operator base now) = (start operator base now t).0
step t (claims operator base now) = (claim operator base now t).0
step t (completes operator base now) = (complete operator base now t).0
step t (confirms operator line_id barcode quantity condition remark base now) =
    (confirm_with_condition operator line_id barcode quantity condition remark base now t).0

unfoldable pub run : Task → List Request → Task
run t [] = t
run t (r ∷ rs) = run (step t r) rs

-- A completed receipt stays completed, with its lines and its holder, whatever is requested.
abbrev pub IsClosedAs : Task → Task → Type 0
IsClosedAs t u =
    (u.status ≡ Status.completed) × (u.lines ≡ t.lines) × (u.operator_id ≡ t.operator_id)

step-closed : (t u : Task) (r : Request) → IsClosedAs t u → IsClosedAs t (step u r)
unfolding step start claim complete confirm_with_condition
step-closed t u (starts operator base now) h = ground arith
step-closed t u (claims operator base now) h = ground arith
step-closed t u (completes operator base now) h = ground arith
step-closed t u (confirms operator line_id barcode quantity condition remark base now) h =
    ground arith

run-closed : (t u : Task) (rs : List Request) → IsClosedAs t u → IsClosedAs t (run u rs)
unfolding run
run-closed t u [] c = c
run-closed t u (r ∷ rs) c = run-closed t (step u r) rs (step-closed t u r c)

-- After a completion no sequence of requests opens the receipt, changes a line or its holder.
pub completed_is_closed :
    (t : Task) (rs : List Request) → t.status ≡ Status.completed → IsClosedAs t (run t rs)
completed_is_closed t rs h = run-closed t t rs (h, refl, refl)

-- A completed receipt can be completed once more by its holder: the version grows again.
pub completed_completes_again :
    (operator : String) (base now later : ℕ) (t : Task)
    → (complete operator base now t).1 ≡ none
    → let u = (complete operator base now t).0 in
      ((complete operator (next base) later u).1 ≡ none)
      × ((complete operator (next base) later u).0.version ≡ next (next base))
unfolding complete
completed_completes_again operator base now later t h = ground arith
