-- ===== src/Receiving/Task.antt =====
-- receiving/domain/receiving.go. Descriptive fields that no operation reads are left out.
pub mod Quantities
pub mod Life
use pda_backend.Common.{
  ℕ, String, Option, none, some, List, [], ◌∷◌, Bool, true, false, not, ◌&&◌, ◌||◌, ◌==◌, eqb,
  if◌then◌else◌, holds, held_by_other, any,
}
use pda_backend.Common.Int64.{next, add_i64, sub_i64, lt_i64, not_pos_i64}
use pda_backend.Common.Text.{trim_space}
use pda_backend.Platform.{Error, Result, ok, err}

pub data Status : Type 0 where
  created in_progress partially_completed completed : Status

pub record Policy : Type 0 where
  pub allow_over_receipt : Bool
  pub require_remark_on_variance : Bool
  pub lot_required : Bool
  pub serial_required : Bool
  pub condition_policy : List String

pub record Line : Type 0 where
  pub id : String
  pub item_id : String
  pub item_name : String
  pub barcode : String
  pub expected : ℕ
  pub received : ℕ

pub record Task : Type 0 where
  pub id : String
  pub po_number : String
  pub status : Status
  pub warehouse_id : String
  pub operator_id : Option String
  pub version : ℕ
  pub policy : Policy
  pub lines : List Line
  pub updated_at : ℕ

abbrev pub is_completed : Status → Bool
is_completed Status.completed = true
is_completed _ = false

unfoldable pub start : String → ℕ → ℕ → Task → Task × Option Error
start operator base now t =
    if not (eqb t.version base)
    then (t, some Error.task_version_conflict)
    else if is_completed t.status
    then (t, some Error.task_already_completed)
    else if not (holds t.operator_id operator)
    then (t, some Error.task_not_assigned)
    else (
      record t { status = Status.in_progress; version = next t.version; updated_at = now },
      none,
    )

unfoldable pub claim : String → ℕ → ℕ → Task → Task × Option Error
claim operator base now t =
    if not (eqb t.version base)
    then (t, some Error.task_version_conflict)
    else if is_completed t.status
    then (t, some Error.task_already_completed)
    else if held_by_other t.operator_id operator
    then (t, some Error.task_not_assigned)
    else (
      record t {
        operator_id = some operator;
        status = Status.in_progress;
        version = next t.version;
        updated_at = now;
      },
      none,
    )

-- `remark == nil || strings.TrimSpace(*remark) == ""`
abbrev pub no_remark : Option String → Bool
no_remark none = true
no_remark (some r) = trim_space r == ""

abbrev pub or_good : String → String
or_good condition = if condition == "" then "GOOD" else condition

abbrev pub is_nil : List String → Bool
is_nil [] = true
is_nil (c ∷ cs) = false

-- The checks of the loop's body on the line that was found, in their order.
unfoldable pub check_line : Policy → String → ℕ → String → Option String → Line → Option Error
check_line p barcode quantity condition remark l =
    if not (l.barcode == barcode)
    then some Error.barcode_wrong_context
    else if not_pos_i64 quantity
    then some Error.quantity_exceeds_allowed
    else if not (is_nil p.condition_policy)
        && not (any (λ v. v == or_good condition) p.condition_policy)
    then some Error.condition_invalid
    else if lt_i64 (sub_i64 l.expected l.received) quantity && not p.allow_over_receipt
    then some Error.quantity_exceeds_allowed
    else if p.require_remark_on_variance
        && not (eqb quantity (sub_i64 l.expected l.received))
        && no_remark remark
    then some Error.remark_required
    else none

abbrev behind : Line → List Line × Result Line → List Line × Result Line
behind l (ls, r) = (l ∷ ls, r)

abbrev received_line : Option Error → ℕ → Line → List Line → List Line × Result Line
received_line (some e) quantity l ls = (l ∷ ls, err e)
received_line none quantity l ls =
    let l' : Line = record l { received = add_i64 l.received quantity } in (l' ∷ ls, ok l')

-- The loop over the lines: what becomes of them, and the line or the error.
unfoldable pub receive :
    Policy → String → String → ℕ → String → Option String → List Line → List Line × Result Line
receive p line_id barcode quantity condition remark [] = ([], err Error.barcode_wrong_context)
receive p line_id barcode quantity condition remark (l ∷ ls) =
    let rest = receive p line_id barcode quantity condition remark ls in
    if l.id == line_id
    then received_line (check_line p barcode quantity condition remark l) quantity l ls
    else behind l rest

abbrev confirmed : Task → ℕ → List Line × Result Line → Task × Result Line
confirmed t now (ls, err e) = (t, err e)
confirmed t now (ls, ok l) = (
  record t {
    lines = ls;
    status = Status.partially_completed;
    version = next t.version;
    updated_at = now;
  },
  ok l,
)

unfoldable pub confirm_with_condition :
    (operator line_id barcode : String) (quantity : ℕ) (condition : String) (remark : Option String)
    (base now : ℕ)
    → Task
    → Task × Result Line
confirm_with_condition operator line_id barcode quantity condition remark base now t =
    if not (eqb t.version base)
    then (t, err Error.task_version_conflict)
    else if is_completed t.status
    then (t, err Error.task_already_completed)
    else if not (holds t.operator_id operator)
    then (t, err Error.task_not_assigned)
    else confirmed t now (receive t.policy line_id barcode quantity condition remark t.lines)

unfoldable pub confirm :
    (operator line_id barcode : String) (quantity : ℕ) (remark : Option String) (base now : ℕ)
    → Task
    → Task × Result Line
confirm operator line_id barcode quantity =
    confirm_with_condition operator line_id barcode quantity "GOOD"

unfoldable pub is_incomplete : Line → Bool
is_incomplete l = lt_i64 l.received l.expected

unfoldable pub complete : String → ℕ → ℕ → Task → Task × Option Error
complete operator base now t =
    if not (eqb t.version base)
    then (t, some Error.task_version_conflict)
    else if not (holds t.operator_id operator)
    then (t, some Error.task_not_assigned)
    else if any is_incomplete t.lines
    then (t, some Error.receiving_task_incomplete)
    else (record t { status = Status.completed; version = next t.version; updated_at = now }, none)
