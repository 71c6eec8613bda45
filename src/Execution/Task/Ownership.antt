-- ===== src/Execution/Task/Ownership.antt =====
-- Who holds a task, over any sequence of claims and releases.
use pda_backend.Common.{
  ℕ, String, ◌≡◌, refl, ◌≢◌, ◌⊎◌, none, some, List, [], ◌∷◌, arith, eq_iff, All, holds→eq,
  held_by_other-false,
}
use pda_backend.Common.Int64.{next, next-ne}
use pda_backend.Platform.{Error}
use pda_backend.Execution.Task.{Task, Status, claim, release}

-- A request by an operator, with the version that the device has seen and the time of the call.
pub data Request : Type 0 where
  claims releases : (operator : String) (base now : ℕ) → Request

abbrev pub sender : Request → String
sender (claims operator base now) = operator
sender (releases operator base now) = operator

unfoldable pub step : Task → Request → Task
step t (claims operator base now) = (claim operator base now t).0
step t (releases operator base now) = (release operator base now t).0

unfoldable pub run : Task → List Request → Task
run t [] = t
run t (r ∷ rs) = run (step t r) rs

-- Where an operation fails the task is left as it was; where it succeeds the version that the
-- caller named was the task's, and the task is unchanged or has the next version.
pub claim_outcome :
    (operator : String) (base now : ℕ) (t : Task)
    → (((claim operator base now t).1 ≢ none) × ((claim operator base now t).0 ≡ t))
      ⊎ (((claim operator base now t).1 ≡ none)
          × (t.version ≡ base)
          × ((claim operator base now t).0.operator_id ≡ some operator)
          × ((claim operator base now t).0.status ≡ Status.assigned)
          × (((claim operator base now t).0 ≡ t)
              ⊎ ((claim operator base now t).0.version ≡ next base)))
unfolding claim
claim_outcome operator base now t =
    ground (arith, holds→eq t.operator_id operator, held_by_other-false t.operator_id operator)

step_others :
    (holder : String) (t : Task) (r : Request)
    → t.operator_id ≡ some holder
    → sender r ≢ holder
    → step t r ≡ t
unfolding step claim release
step_others holder t (claims operator base now) h d = ground (arith, eq_iff holder operator)
step_others holder t (releases operator base now) h d = ground (arith, eq_iff holder operator)

-- While an operator holds a task, no requests of other operators, in any number and order and with
-- any versions, change the task.
pub held_task_is_safe :
    (holder : String) (t : Task) (rs : List Request)
    → t.operator_id ≡ some holder
    → All (λ r. sender r ≢ holder) rs
    → run t rs ≡ t
unfolding run
held_task_is_safe holder t [] h d = refl
held_task_is_safe holder t (r ∷ rs) h (d, ds) =
    let same = step_others holder t r h d in rw same (held_task_is_safe holder t rs h ds)

-- Of two devices that claim an unheld task at the version both have seen, the second is refused
-- with a version conflict, and the task stays with the first.
pub second_claim_conflicts :
    (first second : String) (base now later : ℕ) (t : Task)
    → t.operator_id ≡ none
    → (claim first base now t).1 ≡ none
    → claim second base later (claim first base now t).0
      ≡ ((claim first base now t).0, some Error.task_version_conflict)
unfolding claim
second_claim_conflicts first second base now later t h ok = ground (arith, next-ne base)

-- A claim of a completed task that nobody else holds succeeds, and the task is open again.
pub claim_reopens_completed :
    (operator : String) (now : ℕ) (t : Task)
    → t.status ≡ Status.completed
    → (t.operator_id ≡ none) ⊎ (t.operator_id ≡ some operator)
    → ((claim operator t.version now t).1 ≡ none)
      × ((claim operator t.version now t).0.status ≡ Status.assigned)
unfolding claim
claim_reopens_completed operator now t done free = ground (arith, eq_iff operator operator)
