-- ===== src/Counting/Task/Variance.antt =====
-- Counted quantities and variances over the life of a cycle count.
use pda_backend.Common.{
  ℕ, ◌<◌, String, ◌≡◌, refl, inl, inr, List, [], ◌∷◌, Option, none, some, false, arith, eqb,
  held_by_other-false, any, All, Option-cases, not,
}
use pda_backend.Common.Int64.{modulus, next, sub_i64}
use pda_backend.Platform.{Error}
use pda_backend.Counting.Task.{
  Task, Line, Status, guard, update_line, with_lines, guarded, count_line, clear_line, submit,
  recount, complete, is_open,
}

-- A counted line has its variance, and is marked for a recount unless the variance is 0.
abbrev pub IsCounted : Line → Option ℕ → Type 0
IsCounted l none = Unit
IsCounted l (some q) =
    (q < modulus)
    × (l.variance ≡ some (sub_i64 q l.expected))
    × (l.recount_required ≡ not (eqb (sub_i64 q l.expected) 0))

pub record IsConsistent (l : Line) : Type 0 where
  pub expected_range : l.expected < modulus
  pub counts : IsCounted l l.counted

pub data Request : Type 0 where
  submits : (operator line : String) (q base now : ℕ) → Request
  recounts : (operator line : String) (base now : ℕ) → Request
  completes : (operator : String) (base now : ℕ) → Request

unfoldable pub step : Task → Request → Task
step t (submits operator line q base now) = (submit operator line q base now t).0
step t (recounts operator line base now) = (recount operator line base now t).0
step t (completes operator base now) = (complete operator base now t).0

unfoldable pub run : Task → List Request → Task
run t [] = t
run t (r ∷ rs) = run (step t r) rs

abbrev pub InRange : Request → Type 0
InRange (submits operator line q base now) = q < modulus
InRange _ = Unit

-- A replaced line keeps the lines consistent where the replacement is.
update_line-IsConsistent :
    (id : String) (f : Line → Line) (ls ls' : List Line)
    → ((l : Line) → IsConsistent l → IsConsistent (f l))
    → All IsConsistent ls
    → update_line id f ls ≡ some ls'
    → All IsConsistent ls'
unfolding update_line
update_line-IsConsistent id f [] ls' k h e = cc
update_line-IsConsistent id f (l ∷ ls) ls' k h e = elim (Option-cases (update_line id f ls)) [
  | inl none_found ↦ ground (arith, k l h.0)
  | inr (us, found) ↦ ground (arith, k l h.0, update_line-IsConsistent id f ls us k h.1 found)
]

count_line-IsConsistent :
    (q : ℕ) (l : Line) → q < modulus → IsConsistent l → IsConsistent (count_line q l)
count_line-IsConsistent q l r h = record {
  expected_range = h.expected_range;
  counts = (r, refl, refl);
}

clear_line-IsConsistent : (l : Line) → IsConsistent l → IsConsistent (clear_line l)
clear_line-IsConsistent l h = record { expected_range = h.expected_range; counts = tt }

guard-lines : (operator : String) (base : ℕ) (t : Task) → (guard operator base t).0.lines ≡ t.lines
unfolding guard
guard-lines operator base t = ground arith

with_lines-IsConsistent :
    (status : Status) (now : ℕ) (t : Task) (o : Option (List Line))
    → ((ls : List Line) → o ≡ some ls → All IsConsistent ls)
    → All IsConsistent t.lines
    → All IsConsistent (with_lines status now o t).0.lines
with_lines-IsConsistent status now t none h k = k
with_lines-IsConsistent status now t (some ls) h k = h ls refl

guarded-IsConsistent :
    (r : Task × Option Error) (rest : Task → Task × Option Error)
    → All IsConsistent r.0.lines
    → ((u : Task) → All IsConsistent u.lines → All IsConsistent (rest u).0.lines)
    → All IsConsistent (guarded r rest).0.lines
guarded-IsConsistent (t, some e) rest h k = h
guarded-IsConsistent (t, none) rest h k = k t h

-- Every request keeps each line's variance and recount mark those of its counted quantity.
step-IsConsistent :
    (t : Task) (r : Request)
    → InRange r
    → All IsConsistent t.lines
    → All IsConsistent (step t r).lines
unfolding step submit recount complete
step-IsConsistent t (submits operator line q base now) r h =
    guarded-IsConsistent (guard operator base t) _ (rw guard-lines h) λ u k.
      with_lines-IsConsistent Status.in_progress now u (update_line line (count_line q) u.lines)
        (λ ls e.
          update_line-IsConsistent line (count_line q) u.lines ls
            (λ l. count_line-IsConsistent q l r) k e)
        k
step-IsConsistent t (recounts operator line base now) r h =
    guarded-IsConsistent (guard operator base t) _ (rw guard-lines h) λ u k.
      with_lines-IsConsistent Status.recounting now u (update_line line clear_line u.lines)
        (λ ls e. update_line-IsConsistent line clear_line u.lines ls clear_line-IsConsistent k e) k
step-IsConsistent t (completes operator base now) r h =
    guarded-IsConsistent (guard operator base t) _ (rw guard-lines h) λ u k. ground arith

pub run-IsConsistent :
    (t : Task) (rs : List Request)
    → All InRange rs
    → All IsConsistent t.lines
    → All IsConsistent (run t rs).lines
unfolding run
run-IsConsistent t [] r h = h
run-IsConsistent t (q ∷ rs) r h = run-IsConsistent (step t q) rs r.1 (step-IsConsistent t q r.0 h)

closed_matches :
    (ls : List Line)
    → All IsConsistent ls
    → any is_open ls ≡ false
    → All (λ l. l.counted ≡ some l.expected) ls
unfolding is_open
closed_matches [] h e = tt
closed_matches (l ∷ ls) h e = ground (arith, closed_matches ls h.1)

of_consistent :
    (operator : String) (base now : ℕ) (t : Task)
    → All IsConsistent t.lines
    → (complete operator base now t).1 ≡ none
    → All (λ l. l.counted ≡ some l.expected) (complete operator base now t).0.lines
unfolding complete guard
of_consistent operator base now t h e = ground (arith, closed_matches t.lines h)

-- After any requests on a count whose lines began consistent, Complete succeeds only if every line
-- has been counted at exactly its expected quantity: a line with a variance, however small beside
-- the tolerance of the task, has to be counted again.
pub complete_needs_no_variance :
    (t : Task) (rs : List Request) (operator : String) (base now : ℕ)
    → All InRange rs
    → All IsConsistent t.lines
    → (complete operator base now (run t rs)).1 ≡ none
    → All (λ l. l.counted ≡ some l.expected) (complete operator base now (run t rs)).0.lines
complete_needs_no_variance t rs operator base now r h e =
    of_consistent operator base now (run t rs) (run-IsConsistent t rs r h) e

-- A submission that succeeds reopens a completed count: the guard does not look at the status.
pub submit_reopens :
    (operator line : String) (q base now : ℕ) (t : Task)
    → t.status ≡ Status.completed
    → (submit operator line q base now t).1 ≡ none
    → ((submit operator line q base now t).0.status ≡ Status.in_progress)
      × ((submit operator line q base now t).0.operator_id ≡ some operator)
      × ((submit operator line q base now t).0.version ≡ next base)
unfolding submit guard
submit_reopens operator line q base now t done h =
    ground (arith, held_by_other-false t.operator_id operator)

-- A submission for a line that the count does not have fails, and yet leaves the task to the
-- operator where nobody held it: the guard assigns it before the lines are searched.
pub submit_unknown_line :
    (operator line : String) (q now : ℕ) (t : Task)
    → t.operator_id ≡ none
    → update_line line (count_line q) t.lines ≡ none
    → submit operator line q t.version now t
      ≡ (record t { operator_id = some operator }, some Error.inventory_not_found)
unfolding submit guard
submit_unknown_line operator line q now t free missing = ground arith
