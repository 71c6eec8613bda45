-- ===== src/Execution/Store.antt =====
-- execution/adapters/memory/store.go and the types of execution/ports/task.go. A Go map is an
-- association list; the mutex makes each method one step, so it has no counterpart. Base64 and the
-- clock are parameters of the reads that use them.
pub mod Index
pub mod Pages
pub mod Listing
use Prim.Native.String.{compare}
use text.Mathlib.Text.{is_lt}
use pda_backend.Common.{
  ℕ, suc, ◌+◌, ◌-◌, String, Option, none, some, List, [], ◌∷◌, ◌++◌, map, Bool, true, false, ◌&&◌,
  ◌||◌, ◌==◌, ltb, leb, eqb, if◌then◌else◌, not, holds, held_by_other, length,
}
use pda_backend.Common.Int64.{add_i64, lt_i64, not_pos_i64}
use pda_backend.Common.Text.{to_lower, contains}
use pda_backend.Common.Table.{lookup, insert}
use pda_backend.Platform.{Error, Result, ok, err, Action}
use pda_backend.Platform.Envelope.{Envelope, RawMessage, no_bytes}
use pda_backend.Execution.Task.{Task, Status, Category, status_name, category_name}

-- The payload {taskId, category, status} of a task event.
pub record TaskPayload : Type 0 where
  pub task_id : String
  pub category : Category
  pub status : Status

abbrev pub TaskEvent : Type 0
TaskEvent = Envelope TaskPayload

-- The zero value of an envelope, which a result without an event holds.
abbrev pub no_event : TaskEvent
no_event = record {
  event_id = 0;
  event_type = "";
  event_version = 0;
  aggregate_type = "";
  aggregate_id = "";
  aggregate_version = 0;
  occurred_at = 0;
  correlation_id = "";
  causation_id = 0;
  warehouse_id = "";
  operator_id = "";
  device_id = "";
  topic = "";
  payload = no_bytes;
}

pub record IdempotencyResult : Type 0 where
  pub task : Task
  pub event : TaskEvent

pub record Store : Type 0 where
  pub tasks : List (String × Task)
  pub idempotency : List (String × IdempotencyResult)
  pub outbox : List TaskEvent
  pub invalidations : ℕ

unfoldable pub index_tasks : List Task → List (String × Task) → List (String × Task)
index_tasks [] m = m
index_tasks (t ∷ ts) m = index_tasks ts (insert t.id t m)

-- `New`
unfoldable pub new : List Task → Store
unfolding index_tasks insert
new ts = record { tasks = index_tasks ts []; idempotency = []; outbox = []; invalidations = 0 }

unfoldable pub get_for_update : String → Action Store Task
get_for_update id s = elim (lookup id s.tasks) [
  | none ↦ (err Error.task_not_found, s)
  | some t ↦ (ok t, s)
]

unfoldable pub save : Task → Action Store (Unit {0})
save t s = (ok tt, record s { tasks = insert t.id t s.tasks })

unfoldable pub find : String → Action Store (Option IdempotencyResult)
find key s = (ok (lookup key s.idempotency), s)

unfoldable pub save_idempotency : String → IdempotencyResult → Action Store (Unit {0})
save_idempotency key v s = (ok tt, record s { idempotency = insert key v s.idempotency })

unfoldable pub append : TaskEvent → Action Store (Unit {0})
append e s = (ok tt, record s { outbox = s.outbox ++ (e ∷ []) })

unfoldable pub invalidate_task_views : String → String → Action Store (Unit {0})
invalidate_task_views w o s = (ok tt, record s { invalidations = s.invalidations + 1 })

-- `WithinTransaction` takes the lock and runs the operation: it takes nothing back.
abbrev pub within_transaction {ℓ} : {A : Type ℓ} → Action Store A → Action Store A
within_transaction operation = operation

pub record TaskFilter : Type 0 where
  pub warehouse_id : String
  pub operator_id : String
  pub category : String
  pub status : String
  pub query : String
  pub cursor : String
  pub priority_min : ℕ
  pub priority_max : ℕ
  pub limit : ℕ

pub record TaskPage : Type 0 where
  pub items : List Task
  pub next_cursor : Option String

-- The chain of `continue`s of `List`: whether the task is kept.
unfoldable pub selected : TaskFilter → Task → Bool
selected f t =
    t.warehouse_id == f.warehouse_id
    && not (held_by_other t.operator_id f.operator_id)
    && (f.category == "" || category_name t.category == f.category)
    && (f.status == "" || status_name t.status == f.status)
    && (f.query == "" || contains (to_lower t.id) (to_lower f.query))
    && (not_pos_i64 f.priority_min || not (lt_i64 t.priority f.priority_min))
    && (not_pos_i64 f.priority_max || not (lt_i64 f.priority_max t.priority))

unfoldable pub keep : (Task → Bool) → List (String × Task) → List Task
keep p [] = []
keep p ((k, t) ∷ m) = if p t then t ∷ keep p m else keep p m

unfoldable pub insert_by_id : Task → List Task → List Task
insert_by_id t [] = t ∷ []
insert_by_id t (u ∷ us) = if is_lt (compare t.id u.id) then t ∷ u ∷ us else u ∷ insert_by_id t us

-- `sort.Slice` by identifier: the identifiers of a map's tasks differ, so the order is determined.
unfoldable pub sort_by_id : List Task → List Task
sort_by_id [] = []
sort_by_id (t ∷ ts) = insert_by_id t (sort_by_id ts)

-- The loop that looks for the cursor's task: one past its index, or 0.
unfoldable pub start_after : String → ℕ → List Task → ℕ
start_after id i [] = 0
start_after id i (t ∷ ts) = if t.id == id then i + 1 else start_after id (i + 1) ts

unfoldable pub drop : ℕ → List Task → List Task
drop ℕ.zero ts = ts
drop (suc n) [] = []
drop (suc n) (t ∷ ts) = drop n ts

unfoldable pub take : ℕ → List Task → List Task
take ℕ.zero ts = []
take (suc n) [] = []
take (suc n) (t ∷ ts) = t ∷ take n ts

-- The identifier of the last task of `ts`, which is not empty.
unfoldable pub last_id : List Task → String
last_id [] = ""
last_id (t ∷ []) = t.id
last_id (t ∷ u ∷ us) = last_id (u ∷ us)

-- The tail of `List`: the page of `values` that begins at `start`. The slice bounds are Go's, which
-- panic where the end lies before the start, and so does `values[end-1]` at an end of 0.
unfoldable pub page_from : (String → String) → ℕ → ℕ → List Task → Result TaskPage
page_from encode limit start values =
    let total = length values in
    let wanted = add_i64 start limit in
    let stop = if lt_i64 total wanted then total else wanted in
    let items = take (stop - start) (drop start values) in
    if lt_i64 stop start
    then err Error.panicked
    else if lt_i64 stop total
    then if eqb stop 0
      then err Error.panicked
      else ok (record { items = items; next_cursor = some (encode (last_id (take stop values))) })
    else ok (record { items = items; next_cursor = none })

-- `List`, over the URL encoding of base64.
unfoldable pub list :
    (encode : String → String) (decode : String → Option String)
    → TaskFilter
    → Store
    → Result TaskPage
list encode decode f s =
    let values = sort_by_id (keep (selected f) s.tasks) in
    if f.cursor == "" then page_from encode f.limit 0 values else elim (decode f.cursor) [
      | none ↦ err Error.invalid_cursor
      | some id ↦ page_from encode f.limit (start_after id 0 values) values
    ]
