-- ===== src/Movement/Task/Guards.antt =====
-- What each transition of a movement task has checked when it succeeds.
use pda_backend.Common.{
  ℕ, ◌+◌, ◌≤◌, ◌<◌, String, ◌≡◌, ◌⊎◌, ◌↔◌, none, some, true, arith, eq_iff, holds→eq,
}
use pda_backend.Common.Int64.{IsNat, next, modulus}
use pda_backend.Movement.Task.{Task, Status, Workflow, guard, move, scans_missing}

-- The quantities of a task are those of the schema: neither is negative, and no more is done than
-- is required.
pub record IsSound (t : Task) : Type 0 where
  pub required_nat : IsNat t.required
  pub within : t.completed_quantity ≤ t.required

guard-none :
    (operator : String) (base : ℕ) (t : Task)
    → guard operator base t ≡ none
    → (t.version ≡ base)
      × (t.operator_id ≡ some operator)
      × ((t.status ≡ Status.in_progress) ⊎ (t.status ≡ Status.partially_completed))
unfolding guard
guard-none operator base t h = ground (arith, holds→eq t.operator_id operator)

-- A move succeeds only for the holder of a task in progress, at the task's version, after every
-- scan that the workflow asks for, and for a quantity from 1 to what remains. It adds the quantity,
-- and completes the task exactly if nothing remains.
pub move_checks :
    (operator : String) (q base now : ℕ) (t : Task)
    → IsSound t
    → q < modulus
    → (move operator q base now t).1 ≡ none
    → let u = (move operator q base now t).0 in
      (t.version ≡ base)
      × (t.operator_id ≡ some operator)
      × (t.source_validated ≡ true)
      × (t.destination_validated ≡ true)
      × ((t.workflow ≡ Workflow.picking)
          ⊎ ((t.item_validated ≡ true) × ((t.lot ≡ "") ⊎ (t.lot_validated ≡ true))))
      × (0 < q)
      × (t.completed_quantity + q ≤ t.required)
      × (u.completed_quantity ≡ t.completed_quantity + q)
      × (u.version ≡ next base)
      × ((u.status ≡ Status.completed) ↔ (u.completed_quantity ≡ t.required))
unfolding move scans_missing
move_checks operator q base now t s n h =
    ground (arith, guard-none operator base t, eq_iff t.lot "")
