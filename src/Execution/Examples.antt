-- ===== src/Execution/Examples.antt =====
-- Runs of the task board, and its theorems at concrete inputs.
use pda_backend.Common.{
  List, suc, length, String, ◌≡◌, refl, [], ◌∷◌, Option, none, some, arith, eq_iff,
}
use pda_backend.Common.Table.{lookup, insert}
use pda_backend.Common.Text.{trim_space}
use pda_backend.Platform.{Error, ok, Actor}
use pda_backend.Platform.Envelope.{validate}
use pda_backend.Execution.Task.{Task, Status, Category, claim}
use pda_backend.Execution.Task.Ownership.{claims, releases, run, held_task_is_safe}
use pda_backend.Execution.Store
use pda_backend.Execution.Store.{Store, TaskEvent, TaskFilter, TaskPage}
use pda_backend.Execution.Store.Index.{IsIndexed}
use pda_backend.Execution.Store.Pages.{IsCodec, browse}
use pda_backend.Execution.Store.Listing.{Ascends, has_id, kept_by, browse_all}
use pda_backend.Common.Rows.{first_where}
use pda_backend.Execution.Service.{
  memory, Command, done, refused, Fresh, mutate, in_transaction, first_time, list_tasks, Reply,
}
use pda_backend.Execution.Service.Replay.{
  Request, answer_to, serve, Carries, refused_changes_nothing, replay,
}

abbrev task : String → Task
task id = record {
  id = id;
  category = Category.picking;
  status = Status.created;
  priority = 50;
  title = "Pick";
  line_count = 1;
  piece_count = 4;
  due_at = none;
  warehouse_id = "WH-01";
  operator_id = none;
  lock_state = "";
  version = 1;
  created_at = 10;
  updated_at = 10;
  purchase_order_id = "";
  lpn_code = "";
  supplier = "";
}

abbrev held : Task
held = record (task "T-1") { operator_id = some "OP-1"; status = Status.assigned }

abbrev finished : Task
finished = record (task "T-1") { operator_id = some "OP-1"; status = Status.completed }

held_task_is_safe_example : run held (claims "OP-2" 1 60 ∷ releases "OP-3" 1 61 ∷ []) ≡ held
held_task_is_safe_example =
    held_task_is_safe "OP-1" held (claims "OP-2" 1 60 ∷ releases "OP-3" 1 61 ∷ []) refl
      (ground (arith, eq_iff "OP-2" "OP-1"), (ground (arith, eq_iff "OP-3" "OP-1"), tt))

abbrev board : Store
board = record {
  tasks = ("T-1", task "T-1") ∷ ("T-2", task "T-2") ∷ ("T-3", task "T-3") ∷ [];
  idempotency = [];
  outbox = [];
  invalidations = 0;
}

abbrev actor : String → Actor
actor operator = record {
  operator_id = operator;
  device_id = "PDA-7";
  warehouse_id = "WH-01";
  correlation_id = "C-1";
}

abbrev command : String → String → Command
command operator key = record {
  task_id = "T-1";
  idempotency_key = key;
  command_id = 77;
  base_version = 1;
  actor = actor operator;
}

abbrev fresh : Fresh
fresh = record { event_id = 500; now = 100; occurred_at = 101 }

abbrev accepts : TaskEvent → Option Error
accepts e = none

abbrev claiming : String → Task → Task × Option Error
claiming operator = claim operator 1 100

abbrev claimed : Task
claimed = record (task "T-1") {
  operator_id = some "OP-1";
  status = Status.assigned;
  version = 2;
  updated_at = 100;
}

abbrev after_claim : Reply × Store
after_claim =
    mutate (memory accepts) (command "OP-1" "K-1") "TaskAssigned" fresh (claiming "OP-1") board

claim_board : after_claim.0 ≡ done claimed
unfolding mutate in_transaction first_time memory Store.find Store.get_for_update Store.save
    Store.append Store.save_idempotency Store.invalidate_task_views claim validate trim_space lookup
    insert
claim_board = refl

claim_board-Carries : Carries after_claim.0 claimed
claim_board-Carries = rw claim_board

abbrev asks : String → String → Request
asks operator key = record {
  refusal = accepts;
  command = command operator key;
  event_type = "TaskAssigned";
  fresh = fresh;
  transition = claiming operator;
}

abbrev others : List Request
others = asks "OP-2" "K-2" ∷ asks "OP-1" "K-3" ∷ []

replay_example :
    answer_to (asks "OP-9" "K-1") (serve others (answer_to (asks "OP-1" "K-1") board).1)
    ≡ (done claimed, serve others (answer_to (asks "OP-1" "K-1") board).1)
replay_example =
    replay (asks "OP-1" "K-1") (asks "OP-9" "K-1") others board claimed claim_board-Carries refl

abbrev after_stale : Reply × Store
after_stale =
    mutate (memory accepts) (command "OP-1" "K-1") "TaskAssigned" fresh (claim "OP-1" 9 100) board

stale_claim : after_stale.0 ≡ refused Error.task_version_conflict
unfolding mutate in_transaction first_time memory Store.find Store.get_for_update claim lookup
stale_claim = refl

refused_changes_nothing_example : after_stale.1 ≡ board
refused_changes_nothing_example =
    refused_changes_nothing accepts (command "OP-1" "K-1") "TaskAssigned" fresh (claim "OP-1" 9 100)
      board Error.task_version_conflict stale_claim

abbrev everything : TaskFilter
everything = record {
  warehouse_id = "WH-01";
  operator_id = "OP-1";
  category = "";
  status = "";
  query = "";
  cursor = "";
  priority_min = 0;
  priority_max = 0;
  limit = 2;
}

abbrev plain : String → String
plain s = s

abbrev plain_back : String → Option String
plain_back s = some s

plain-IsCodec : IsCodec plain plain_back
plain-IsCodec = record { read_back = λ s. refl; not_empty = λ s h. h }

board-IsIndexed : IsIndexed board.tasks
board-IsIndexed = ground (arith, eq_iff "T-1" "T-2", eq_iff "T-1" "T-3", eq_iff "T-2" "T-3")

browse_all_example :
    (items : List Task) × (browse plain plain_back everything board (suc (length items)) ""
      ≡ some items)
    × Ascends items
    × ((id : String)
        → first_where (has_id id) items
          ≡ kept_by (Store.selected everything) (lookup id board.tasks))
browse_all_example =
    browse_all plain plain_back plain-IsCodec everything board board-IsIndexed
      (ground (arith, eq_iff "T-1" "", eq_iff "T-2" "", eq_iff "T-3" "")) (omega arith)
      (omega arith)

abbrev first_two : TaskPage
first_two = record { items = task "T-1" ∷ task "T-2" ∷ []; next_cursor = some "T-2" }

first_two_listed : list_tasks plain plain_back everything (actor "OP-1") board ≡ ok first_two
unfolding list_tasks Store.list Store.page_from Store.sort_by_id Store.insert_by_id Store.keep
    Store.selected Store.take Store.drop Store.last_id
first_two_listed = refl
