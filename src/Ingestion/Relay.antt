-- ===== src/Ingestion/Relay.antt =====
-- integration_relay.go: RunOnce over integration_outbox. The table is the list of its rows by the
-- time of their creation and event_id. The envelope of a row is left out. A cycle runs alone: between
-- its claim and its statements, which are no transaction, other replicas may run in the code. Its
-- statements read the clock once here.
pub mod Marks
pub mod Retries
pub mod Attempts
use pda_backend.Common.{
  ℕ, zero, suc, ◌+◌, ◌*◌, ◌^◌, String, Option, none, some, List, [], ◌∷◌, ◌++◌, Bool, true, false,
  not, ◌&&◌, ◌||◌, eqb, leb, ltb, all, if◌then◌else◌,
}
use pda_backend.Common.Rows.{update_where}

pub record OutboxRow : Type 0 where
  pub event_id : ℕ
  pub topic : String
  pub event_type : String
  pub partition_key : String
  pub available_at : ℕ
  pub attempts : ℕ
  pub is_exhausted : Bool
  pub published_at : Option ℕ

-- The rows, the messages that Kafka has taken, and the rows of integration_outbox_dead_letters.
pub record Outbox : Type 0 where
  pub rows : List OutboxRow
  pub written : List OutboxRow
  pub dead : List OutboxRow

abbrev pub is_open : Option ℕ → Bool
is_open none = true
is_open (some t) = false

abbrev pub is_due : ℕ → OutboxRow → Bool
is_due now r = is_open r.published_at && leb r.available_at now

abbrev pub is_event : ℕ → OutboxRow → Bool
is_event id r = eqb r.event_id id

abbrev pub tried : OutboxRow → OutboxRow
tried r = record r { attempts = r.attempts + 1 }

-- The statement that claims at most `limit` rows: the table, and the batch.
unfoldable pub claim : ℕ → ℕ → List OutboxRow → List OutboxRow × List OutboxRow
claim limit now [] = ([], [])
claim zero now (r ∷ rows) = (r ∷ rows, [])
claim (suc limit) now (r ∷ rows) =
    let taken = claim limit now rows in
    let passed = claim (suc limit) now rows in
    if is_due now r then (tried r ∷ taken.0, tried r ∷ taken.1) else (r ∷ passed.0, passed.1)

abbrev pub max_attempts : ℕ
max_attempts = 8

abbrev pub second : ℕ
second = 1_000_000_000

-- The pause behind a failed attempt.
unfoldable pub backoff : ℕ → ℕ
backoff attempts =
    if ltb (300 * second) (2 ^ attempts * second) then 300 * second else 2 ^ attempts * second

abbrev pub retired : ℕ → Bool → OutboxRow → OutboxRow
retired now exhausted r = record r { published_at = some now; is_exhausted = exhausted }

abbrev pub postponed : ℕ → OutboxRow → OutboxRow
postponed until r = record r { available_at = until }

-- The statements behind the claim.
pub data Statement : Type 0 where
  marks letters retires postpones : Statement

-- What a cycle meets outside: whether the writer takes a row, whether the claim runs, a returned row
-- is scanned and a statement runs, and in which order UPDATE returns its rows.
pub record Outside : Type 0 where
  pub accepts : OutboxRow → Bool
  pub claims : Bool
  pub scans : OutboxRow → Bool
  pub runs : Statement → OutboxRow → Bool
  pub arrange : List OutboxRow → List OutboxRow

module _ (outside : Outside) (now : ℕ) where
  -- One pass of the loop; the first part of the result is whether its statements ran.
  unfoldable pub publish : OutboxRow → Outbox → Bool × Outbox
  publish item s =
      let sent : Outbox = record s { written = s.written ++ (item ∷ []) } in
      let lettered : Outbox = record s { dead = s.dead ++ (item ∷ []) } in
      if outside.accepts item
      then if outside.runs marks item
        then (
          true,
          record sent { rows = update_where (is_event item.event_id) (retired now false) s.rows },
        )
        else (false, sent)
      else if leb max_attempts item.attempts
      then if not (outside.runs letters item)
        then (false, s)
        else if outside.runs retires item
        then (
          true,
          record lettered {
            rows = update_where (is_event item.event_id) (retired now true) s.rows;
          },
        )
        else (false, lettered)
      else if outside.runs postpones item
      then (
        true,
        record s {
          rows =
              update_where (is_event item.event_id) (postponed (now + backoff item.attempts))
                s.rows;
        },
      )
      else (false, s)

  abbrev pub counted : Bool → ℕ → ℕ
  counted true n = n + 1
  counted false n = n

  -- The loop: a statement that fails ends it.
  unfoldable pub publish_all : List OutboxRow → ℕ → Outbox → (ℕ × Bool) × Outbox
  publish_all [] published s = ((published, true), s)
  publish_all (item ∷ batch) published s =
      let (ran, after) = publish item s in
      let rest = publish_all batch (counted (outside.accepts item) published) after in
      if ran then rest else ((published, false), after)

  -- The number of published rows with whether the error is nil, and the tables. The claim commits by
  -- itself.
  unfoldable pub run_once : ℕ → Outbox → (ℕ × Bool) × Outbox
  run_once batch_size s =
      let claimed = claim batch_size now s.rows in
      let taken : Outbox = record s { rows = claimed.0 } in
      let cycle = publish_all (outside.arrange claimed.1) 0 taken in
      if not outside.claims
      then ((0, false), s)
      else if not (all outside.scans claimed.1)
      then ((0, false), taken)
      else cycle
