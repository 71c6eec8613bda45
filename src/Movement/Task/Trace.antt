-- ===== src/Movement/Task/Trace.antt =====
-- Movement tasks over any sequence of commands, successful or not.
use pda_backend.Common.{
  ℕ, ◌+◌, ◌<◌, String, ◌≡◌, refl, ◌≢◌, ◌⊎◌, inr, List, [], ◌∷◌, Option, none, some, arith, eq_iff,
  All, ◌∙◌,
}
use pda_backend.Common.Int64.{modulus, next}
use pda_backend.Platform.{Error}
use pda_backend.Movement.Task.{
  Task, Status, guard, claim, start, validate_source, validate_destination, validate_item,
  validate_lot, move, confirm_group, complete,
}
use pda_backend.Movement.Task.Guards.{IsSound}

pub data Command : Type 0 where
  claims starts : (operator : String) (base now : ℕ) → Command
  scans_source scans_destination scans_item scans_lot :
      (operator value : String) (base now : ℕ) → Command
  moves : (operator : String) (quantity base now : ℕ) → Command
  confirms_group : (now : ℕ) → Command
  completes : (operator : String) (base now : ℕ) → Command

unfoldable pub apply : Command → Task → Task × Option Error
apply (claims operator base now) = claim operator base now
apply (starts operator base now) = start operator base now
apply (scans_source operator value base now) = validate_source operator value base now
apply (scans_destination operator value base now) = validate_destination operator value base now
apply (scans_item operator value base now) = validate_item operator value base now
apply (scans_lot operator value base now) = validate_lot operator value base now
apply (moves operator quantity base now) = move operator quantity base now
apply (confirms_group now) = confirm_group now
apply (completes operator base now) = complete operator base now

unfoldable pub run : Task → List Command → Task
run t [] = t
run t (c ∷ cs) = run (apply c t).0 cs

-- A transition that fails leaves the movement task as it was, and one that succeeds changes nothing
-- or moves to the next version.
pub apply_outcome :
    (c : Command) (t : Task)
    → ((apply c t).0 ≡ t) ⊎ (((apply c t).1 ≡ none) × ((apply c t).0.version ≡ next t.version))
unfolding apply claim start validate_source validate_destination validate_item validate_lot move
    confirm_group complete
apply_outcome (claims operator base now) t = ground arith
apply_outcome (starts operator base now) t = ground arith
apply_outcome (scans_source operator value base now) t = ground arith
apply_outcome (scans_destination operator value base now) t = ground arith
apply_outcome (scans_item operator value base now) t = ground arith
apply_outcome (scans_lot operator value base now) t = ground arith
apply_outcome (moves operator quantity base now) t = ground arith
apply_outcome (confirms_group now) t = ground arith
apply_outcome (completes operator base now) t = ground arith

-- The version that a command names, where its transition compares it.
abbrev pub NamesVersion : Command → ℕ → Type 0
NamesVersion (claims operator base now) v = base ≡ v
NamesVersion (starts operator base now) v = base ≡ v
NamesVersion (scans_source operator value base now) v = base ≡ v
NamesVersion (scans_destination operator value base now) v = base ≡ v
NamesVersion (scans_item operator value base now) v = base ≡ v
NamesVersion (scans_lot operator value base now) v = base ≡ v
NamesVersion (moves operator quantity base now) v = base ≡ v
NamesVersion (confirms_group now) v = Unit
NamesVersion (completes operator base now) v = base ≡ v

-- Optimistic locking: every transition but that of ConfirmGroup succeeds only if the command names
-- the version of the task.
pub apply_version : (c : Command) (t : Task) → (apply c t).1 ≡ none → NamesVersion c t.version
unfolding apply claim start validate_source validate_destination validate_item validate_lot move
    complete guard
apply_version (claims operator base now) t h = ground arith
apply_version (starts operator base now) t h = ground arith
apply_version (scans_source operator value base now) t h = ground arith
apply_version (scans_destination operator value base now) t h = ground arith
apply_version (scans_item operator value base now) t h = ground arith
apply_version (scans_lot operator value base now) t h = ground arith
apply_version (moves operator quantity base now) t h = ground arith
apply_version (confirms_group now) t h = tt
apply_version (completes operator base now) t h = ground arith

-- The quantity that a command moves: that of a successful move.
pub moves_of : Command → Task → ℕ
moves_of (moves operator quantity base now) t = elim (move operator quantity base now t).1 [
  | none ↦ quantity
  | some e ↦ 0
]
moves_of _ t = 0

pub total_moved : Task → List Command → ℕ
total_moved t [] = 0
total_moved t (c ∷ cs) = moves_of c t + total_moved (apply c t).0 cs

-- The quantity of a command is any int64, negative ones among them.
abbrev pub InRange : Command → Type 0
InRange (moves operator quantity base now) = quantity < modulus
InRange _ = Unit

step-IsSound :
    (c : Command) (t : Task)
    → InRange c
    → IsSound t
    → IsSound (apply c t).0
      × ((apply c t).0.required ≡ t.required)
      × ((apply c t).0.completed_quantity ≡ t.completed_quantity + moves_of c t)
unfolding apply claim start validate_source validate_destination validate_item validate_lot move
    confirm_group complete moves_of
step-IsSound (claims operator base now) t r s = ground arith
step-IsSound (starts operator base now) t r s = ground arith
step-IsSound (scans_source operator value base now) t r s = ground arith
step-IsSound (scans_destination operator value base now) t r s = ground arith
step-IsSound (scans_item operator value base now) t r s = ground arith
step-IsSound (scans_lot operator value base now) t r s = ground arith
step-IsSound (moves operator quantity base now) t r s = ground arith
step-IsSound (confirms_group now) t r s = ground arith
step-IsSound (completes operator base now) t r s = ground arith

-- On a movement task whose completed quantity is within its required one, which is not negative,
-- after any commands, successful or not and with any int64 as a quantity, the completed quantity is
-- what it was and what the successful moves moved, and does not exceed the required one, which
-- never changes.
pub run_conserves :
    (t : Task) (cs : List Command)
    → All InRange cs
    → IsSound t
    → IsSound (run t cs)
      × ((run t cs).required ≡ t.required)
      × ((run t cs).completed_quantity ≡ t.completed_quantity + total_moved t cs)
unfolding run total_moved
run_conserves t [] r s = (s, refl, omega arith)
run_conserves t (c ∷ cs) r s =
    let (s', same, added) = step-IsSound c t r.0 s in
    let (sound, same', added') = run_conserves (apply c t).0 cs r.1 s' in
    (sound, same' ∙ same, omega arith)

-- While a task is not completed, some of its quantity remains.
abbrev pub IsLive : Task → Type 0
IsLive t = (t.status ≡ Status.completed) ⊎ (t.completed_quantity < t.required)

abbrev pub NoClaim : Command → Type 0
NoClaim (claims operator base now) = ⊥
NoClaim _ = Unit

step-IsLive :
    (c : Command) (t : Task) → InRange c → NoClaim c → IsSound t → IsLive t → IsLive (apply c t).0
unfolding apply start validate_source validate_destination validate_item validate_lot move
    confirm_group complete guard
step-IsLive (claims operator base now) t r n s l = absurd n
step-IsLive (starts operator base now) t r n s l = ground arith
step-IsLive (scans_source operator value base now) t r n s l = ground arith
step-IsLive (scans_destination operator value base now) t r n s l = ground arith
step-IsLive (scans_item operator value base now) t r n s l = ground arith
step-IsLive (scans_lot operator value base now) t r n s l = ground arith
step-IsLive (moves operator quantity base now) t r n s l = ground arith
step-IsLive (confirms_group now) t r n s l = ground arith
step-IsLive (completes operator base now) t r n s l = ground arith

run-IsLive :
    (t : Task) (cs : List Command)
    → All InRange cs
    → All NoClaim cs
    → IsSound t
    → IsLive t
    → IsSound (run t cs) × IsLive (run t cs)
unfolding run
run-IsLive t [] r n s l = (s, l)
run-IsLive t (c ∷ cs) r n s l =
    run-IsLive (apply c t).0 cs r.1 n.1 (step-IsSound c t r.0 s).0 (step-IsLive c t r.0 n.0 s l)

-- From a task of whose required quantity, which is not negative, some remains, no sequence of
-- commands other than claims, with any int64 as a quantity, leads to one that the transition of
-- PickingService.Complete accepts: the move that brings the remaining quantity to 0 completes the
-- task itself, and Complete wants a task in progress.
pub complete_never_succeeds :
    (t : Task) (cs : List Command) (operator : String) (base now : ℕ)
    → All InRange cs
    → All NoClaim cs
    → IsSound t
    → t.completed_quantity < t.required
    → (complete operator base now (run t cs)).1 ≢ none
complete_never_succeeds t cs operator base now r n s h =
    let (sound, live) = run-IsLive t cs r n s (inr h) in refused (run t cs) sound live
  where
    refused : (u : Task) → IsSound u → IsLive u → (complete operator base now u).1 ≢ none
    refused u sound live = unfold complete guard in ground arith

-- From a task with a quantity that remains, after any sequence of commands other than claims, the
-- transition of PutawayService.ConfirmGroup, wherever it succeeds, closes a task of which some
-- quantity has not been moved.
pub confirm_group_leaves_rest :
    (t : Task) (cs : List Command) (now : ℕ)
    → All InRange cs
    → All NoClaim cs
    → IsSound t
    → t.completed_quantity < t.required
    → (confirm_group now (run t cs)).1 ≡ none
    → ((confirm_group now (run t cs)).0.status ≡ Status.completed)
      × ((confirm_group now (run t cs)).0.completed_quantity < t.required)
confirm_group_leaves_rest t cs now r n s h e =
    let (sound, live) = run-IsLive t cs r n s (inr h) in
    let (sound', same, added) = run_conserves t cs r s in closed (run t cs) live same e
  where
    closed :
        (u : Task)
        → IsLive u
        → u.required ≡ t.required
        → (confirm_group now u).1 ≡ none
        → ((confirm_group now u).0.status ≡ Status.completed)
          × ((confirm_group now u).0.completed_quantity < t.required)
    closed u live same e' = unfold confirm_group in ground arith

-- A completed movement task that its operator claims again is open again, with its quantities kept.
pub claim_reopens :
    (operator : String) (now : ℕ) (t : Task)
    → t.status ≡ Status.completed
    → t.operator_id ≡ some operator
    → ((claim operator t.version now t).1 ≡ none)
      × ((claim operator t.version now t).0.status ≡ Status.assigned)
      × ((claim operator t.version now t).0.completed_quantity ≡ t.completed_quantity)
unfolding claim
claim_reopens operator now t done mine = ground (arith, eq_iff operator operator)
