-- ===== src/Counting/Task.antt =====
-- inventory/domain/inventory.go: a cycle count, line by line.
pub mod Variance
use pda_backend.Common.{
  ℕ, String, Option, none, some, List, [], ◌∷◌, Bool, true, false, not, ◌&&◌, ◌||◌, ◌==◌, eqb,
  if◌then◌else◌, held_by_other, any,
}
use pda_backend.Common.Int64.{next, sub_i64}
use pda_backend.Platform.{Error}

pub record Line : Type 0 where
  pub id : String
  pub item_id : String
  pub expected : ℕ
  pub counted : Option ℕ
  pub variance : Option ℕ
  pub recount_required : Bool

-- The statuses that the transitions write.
pub data Status : Type 0 where
  created in_progress recounting completed : Status

pub record Task : Type 0 where
  pub id : String
  pub warehouse_id : String
  pub location_id : String
  pub status : Status
  pub operator_id : Option String
  pub version : ℕ
  pub blind_count : Bool
  pub tolerance : ℕ
  pub lines : List Line
  pub updated_at : ℕ

-- The guard takes the task for the operator where nobody holds it.
unfoldable pub guard : String → ℕ → Task → Task × Option Error
guard operator base t =
    if not (eqb t.version base)
    then (t, some Error.task_version_conflict)
    else if held_by_other t.operator_id operator
    then (t, some Error.task_not_assigned)
    else elim t.operator_id [
      | none ↦ (record t { operator_id = some operator }, none)
      | some o ↦ (t, none)
    ]

-- The loops of Submit and Recount: the first line with the identifier is replaced.
unfoldable pub update_line : String → (Line → Line) → List Line → Option (List Line)
update_line id f [] = none
update_line id f (l ∷ ls) =
    let rest = update_line id f ls in
    if l.id == id then some (f l ∷ ls) else elim rest [ none ↦ none | some ls' ↦ some (l ∷ ls') ]

abbrev pub with_lines : Status → ℕ → Option (List Line) → Task → Task × Option Error
with_lines status now none t = (t, some Error.inventory_not_found)
with_lines status now (some ls) t =
    (record t { lines = ls; status = status; version = next t.version; updated_at = now }, none)

-- `if e := t.guard(op, base); e != nil { return e }`
abbrev pub guarded : Task × Option Error → (Task → Task × Option Error) → Task × Option Error
guarded (t, some e) rest = (t, some e)
guarded (t, none) rest = rest t

abbrev pub count_line : ℕ → Line → Line
count_line q l = record l {
  counted = some q;
  variance = some (sub_i64 q l.expected);
  recount_required = not (eqb (sub_i64 q l.expected) 0);
}

abbrev pub clear_line : Line → Line
clear_line l = record l { counted = none; variance = none; recount_required = true }

unfoldable pub submit : String → String → ℕ → ℕ → ℕ → Task → Task × Option Error
submit operator line q base now t =
    guarded (guard operator base t)
      λ u. with_lines Status.in_progress now (update_line line (count_line q) u.lines) u

unfoldable pub recount : String → String → ℕ → ℕ → Task → Task × Option Error
recount operator line base now t =
    guarded (guard operator base t)
      λ u. with_lines Status.recounting now (update_line line clear_line u.lines) u

abbrev is_none : Option ℕ → Bool
is_none none = true
is_none (some q) = false

unfoldable pub is_open : Line → Bool
is_open l = is_none l.counted || l.recount_required

unfoldable pub complete : String → ℕ → ℕ → Task → Task × Option Error
complete operator base now t = guarded (guard operator base t) λ u.
    if any is_open u.lines
    then (u, some Error.task_incomplete)
    else (record u { status = Status.completed; version = next u.version; updated_at = now }, none)
