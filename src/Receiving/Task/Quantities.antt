-- ===== src/Receiving/Task/Quantities.antt =====
-- What a confirmation does to the lines of a receiving task.
use pda_backend.Common.{
  ℕ, ◌+◌, ◌≤◌, ◌<◌, String, ◌≡◌, refl, ◌≢◌, ◌⊎◌, inl, inr, ◌↔◌, List, [], ◌∷◌, Option, none, some,
  false, arith, eq_iff, ◌==◌, holds→eq, holds_self, All, any, Bool-cases,
}
use pda_backend.Common.Int64.{IsNat, next, modulus}
use pda_backend.Platform.{Error, ok, err}
use pda_backend.Receiving.Task.{
  Task, Line, Policy, Status, check_line, receive, confirm_with_condition, is_incomplete, complete,
}

-- A line with the quantities of the schema, of which no more is received than expected.
pub record IsBounded (l : Line) : Type 0 where
  pub expected_nat : IsNat l.expected
  pub within : l.received ≤ l.expected

-- The lines before and after: all are kept but the first with the given identifier, whose received
-- quantity grows by `q`.
abbrev pub Adds : String → ℕ → List Line → List Line → Type 0
Adds id q [] ls = ⊥
Adds id q (l ∷ ls) [] = ⊥
Adds id q (l ∷ ls) (l' ∷ ls') =
    ((l.id ≡ id) × (l' ≡ record l { received = l.received + q }) × (ls' ≡ ls))
    ⊎ ((l.id ≢ id) × (l' ≡ l) × Adds id q ls ls')

check_bounds :
    (p : Policy) (barcode : String) (q : ℕ) (condition : String) (remark : Option String) (l : Line)
    → q < modulus
    → IsBounded l
    → p.allow_over_receipt ≡ false
    → check_line p barcode q condition remark l ≡ none
    → (l.barcode ≡ barcode) × (0 < q) × (l.received + q ≤ l.expected)
unfolding check_line
check_bounds p barcode q condition remark l n b o h = ground (arith, eq_iff l.barcode barcode)

receive-Adds :
    (p : Policy) (id barcode : String) (q : ℕ) (condition : String) (remark : Option String)
    (ls : List Line) (l : Line)
    → q < modulus
    → All IsBounded ls
    → p.allow_over_receipt ≡ false
    → (receive p id barcode q condition remark ls).1 ≡ ok l
    → Adds id q ls (receive p id barcode q condition remark ls).0
      × All IsBounded (receive p id barcode q condition remark ls).0
      × (l.id ≡ id)
      × (l.barcode ≡ barcode)
      × (0 < q)
unfolding receive
receive-Adds p id barcode q condition remark [] l n b o h = cc
receive-Adds p id barcode q condition remark (x ∷ xs) l n b o h = elim (Bool-cases (x.id == id)) [
  | inl hit ↦ ground (arith, eq_iff x.id id, check_bounds p barcode q condition remark x n b.0 o)
  | inr miss ↦
      let differ : x.id ≢ id = ground (arith, eq_iff x.id id) in
      let (adds, bounded, same, code, pos) =
        receive-Adds p id barcode q condition remark xs l n b.1 o (rw miss at h) in
      rw miss (inr (differ, refl, adds), (b.0, bounded), same, code, pos)
]

-- Where over-receipt is not allowed, and every line began with no more received than expected and
-- an expected quantity that is not negative, a confirmation with any int64 as its quantity that
-- succeeds adds the quantity, which then is positive, to the first line with the given identifier
-- and to no other, and leaves every line with no more received than expected. The barcode was the
-- line's, the caller the holder at the task's version, and the task not completed; it is partially
-- completed at the next version.
pub confirm-Adds :
    (operator line_id barcode : String) (q : ℕ) (condition : String) (remark : Option String)
    (base now : ℕ) (t : Task) (l : Line)
    → q < modulus
    → All IsBounded t.lines
    → t.policy.allow_over_receipt ≡ false
    → (confirm_with_condition operator line_id barcode q condition remark base now t).1 ≡ ok l
    → let u = (confirm_with_condition operator line_id barcode q condition remark base now t).0 in
      Adds line_id q t.lines u.lines
      × All IsBounded u.lines
      × (l.barcode ≡ barcode)
      × (0 < q)
      × (t.version ≡ base)
      × (u.version ≡ next base)
      × (t.operator_id ≡ some operator)
      × (t.status ≢ Status.completed)
      × (u.status ≡ Status.partially_completed)
unfolding confirm_with_condition
confirm-Adds operator line_id barcode q condition remark base now t l n b o h = ground (
  arith,
  holds→eq t.operator_id operator,
  receive-Adds t.policy line_id barcode q condition remark t.lines l n b o,
)

-- A confirmation that fails leaves the task as it was.
pub confirm_refused :
    (operator line_id barcode : String) (q : ℕ) (condition : String) (remark : Option String)
    (base now : ℕ) (t : Task) (e : Error)
    → (confirm_with_condition operator line_id barcode q condition remark base now t).1 ≡ err e
    → (confirm_with_condition operator line_id barcode q condition remark base now t).0 ≡ t
unfolding confirm_with_condition
confirm_refused operator line_id barcode q condition remark base now t e h = ground arith

none_incomplete :
    (ls : List Line)
    → All IsBounded ls
    → any is_incomplete ls ≡ false
    → All (λ l. l.received ≡ l.expected) ls
unfolding is_incomplete
none_incomplete [] b h = tt
none_incomplete (l ∷ ls) b h = ground (arith, none_incomplete ls b.1)

any_incomplete :
    (ls : List Line) → All (λ l. l.received ≡ l.expected) ls → any is_incomplete ls ≡ false
unfolding is_incomplete
any_incomplete [] h = refl
any_incomplete (l ∷ ls) h = ground (arith, any_incomplete ls h.1)

-- On bounded lines, Complete succeeds exactly for the holder, at the task's version, when every
-- line has been received in full.
pub complete_iff :
    (operator : String) (base now : ℕ) (t : Task)
    → All IsBounded t.lines
    → ((complete operator base now t).1 ≡ none) ↔ (
        (t.version ≡ base)
        × (t.operator_id ≡ some operator)
        × All (λ l. l.received ≡ l.expected) t.lines)
unfolding complete
complete_iff operator base now t b = (
  (λ h. ground (arith, holds→eq t.operator_id operator, none_incomplete t.lines b)),
  (λ h. ground (arith, any_incomplete t.lines, holds_self operator)),
)
