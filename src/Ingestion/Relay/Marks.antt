-- ===== src/Ingestion/Relay/Marks.antt =====
-- What a mark of publication in the outbox stands for.
use pda_backend.Common.{
  ℕ, suc, zero, ◌+◌, ◌≡◌, refl, List, [], ◌∷◌, ◌++◌, Bool, true, false, ◌||◌, eqb, any, all,
  any-append, arith, leb, if◌then◌else◌, inl, inr, Bool-cases,
}
use pda_backend.Common.Rows.{update_where}
use pda_backend.Ingestion.Relay.{
  OutboxRow, Outbox, is_event, claim, max_attempts, backoff, retired, postponed, publish,
  publish_all, run_once, Outside, is_open, counted,
}

abbrev pub has_entry : ℕ → List OutboxRow → Bool
has_entry id batch = any (is_event id) batch

-- A row that is marked as published was taken by Kafka, and one that is marked as exhausted stands
-- among the dead letters.
abbrev pub is_backed : Outbox → OutboxRow → Bool
is_backed s r =
    is_open r.published_at
    || (if r.is_exhausted then has_entry r.event_id s.dead else has_entry r.event_id s.written)

update-backed :
    (s s' : Outbox) (item : OutboxRow) (f : OutboxRow → OutboxRow) (rows : List OutboxRow)
    → ((id : ℕ) → has_entry id s.dead ≡ true → has_entry id s'.dead ≡ true)
    → ((id : ℕ) → has_entry id s.written ≡ true → has_entry id s'.written ≡ true)
    → ((r : OutboxRow)
        → is_event item.event_id r ≡ true
        → is_backed s r ≡ true
        → is_backed s' (f r) ≡ true)
    → all (is_backed s) rows ≡ true
    → all (is_backed s') (update_where (is_event item.event_id) f rows) ≡ true
unfolding update_where
update-backed s s' item f [] dead written here backed = refl
update-backed s s' item f (r ∷ rows) dead written here backed = ground (
  arith,
  dead r.event_id,
  written r.event_id,
  here r,
  update-backed s s' item f rows dead written here,
)

more-backed :
    (s s' : Outbox) (rows : List OutboxRow)
    → ((id : ℕ) → has_entry id s.dead ≡ true → has_entry id s'.dead ≡ true)
    → ((id : ℕ) → has_entry id s.written ≡ true → has_entry id s'.written ≡ true)
    → all (is_backed s) rows ≡ true
    → all (is_backed s') rows ≡ true
more-backed s s' [] dead written backed = refl
more-backed s s' (r ∷ rows) dead written backed =
    ground (arith, dead r.event_id, written r.event_id, more-backed s s' rows dead written)

has_entry-append :
    (id : ℕ) (item : OutboxRow) (rows : List OutboxRow)
    → has_entry id (rows ++ (item ∷ [])) ≡ (has_entry id rows || eqb item.event_id id)
has_entry-append id item rows = ground (arith, any-append (is_event id) rows (item ∷ []))

claim-backed :
    (limit now : ℕ) (s : Outbox) (rows : List OutboxRow)
    → all (is_backed s) rows ≡ true
    → all (is_backed s) (claim limit now rows).0 ≡ true
unfolding claim
claim-backed zero now s [] backed = refl
claim-backed (suc limit) now s [] backed = refl
claim-backed zero now s (r ∷ rows) backed = backed
claim-backed (suc limit) now s (r ∷ rows) backed =
    ground (arith, claim-backed limit now s rows, claim-backed (suc limit) now s rows)

module _ (outside : Outside) (now : ℕ) where
  publish-backed :
      (item : OutboxRow) (s : Outbox)
      → all (is_backed s) s.rows ≡ true
      → all (is_backed (publish outside now item s).1) (publish outside now item s).1.rows ≡ true
  unfolding publish
  publish-backed item s backed =
      let sent : Outbox = record s { written = s.written ++ (item ∷ []) } in
      let lettered : Outbox = record s { dead = s.dead ++ (item ∷ []) } in
      let in_written : (id : ℕ) → has_entry id s.written ≡ true → has_entry id sent.written ≡ true =
        λ id h. ground (arith, has_entry-append id item s.written) in
      let in_dead : (id : ℕ) → has_entry id s.dead ≡ true → has_entry id lettered.dead ≡ true =
        λ id h. ground (arith, has_entry-append id item s.dead) in
      elim (Bool-cases (outside.accepts item)) [
        | inl taken ↦ ground (
          arith,
          more-backed s sent s.rows (λ id h. h) in_written backed,
          update-backed s sent item (retired now false) s.rows (λ id h. h) in_written
              (λ r same h. ground (arith, has_entry-append r.event_id item s.written)) backed,
        )
        | inr refused ↦ elim (Bool-cases (leb max_attempts item.attempts)) [
          | inl last ↦ ground (
            arith,
            more-backed s lettered s.rows in_dead (λ id h. h) backed,
            update-backed s lettered item (retired now true) s.rows in_dead (λ id h. h)
                (λ r same h. ground (arith, has_entry-append r.event_id item s.dead)) backed,
          )
          | inr more ↦ ground (
            arith,
            update-backed s s item (postponed (now + backoff item.attempts)) s.rows (λ id h. h)
                (λ id h. h) (λ r same h. h) backed,
          )
        ]
      ]

  publish_all-backed :
      (batch : List OutboxRow) (published : ℕ) (s : Outbox)
      → all (is_backed s) s.rows ≡ true
      → all
          (is_backed (publish_all outside now batch published s).1)
          (publish_all outside now batch published s).1.rows
        ≡ true
  unfolding publish_all
  publish_all-backed [] published s backed = backed
  publish_all-backed (item ∷ batch) published s backed =
      let step = publish outside now item s in
      let n = counted outside now (outside.accepts item) published in
      let here = publish-backed item s backed in
      elim (Bool-cases step.0) [
        | inl done ↦ ground (arith, publish_all-backed batch n step.1 here)
        | inr failed ↦ ground arith
      ]

  pub run_once-backed :
      (batch_size : ℕ) (s : Outbox)
      → all (is_backed s) s.rows ≡ true
      → all
          (is_backed (run_once outside now batch_size s).1)
          (run_once outside now batch_size s).1.rows
        ≡ true
  unfolding run_once
  run_once-backed batch_size s backed =
      let claimed = claim batch_size now s.rows in
      let taken : Outbox = record s { rows = claimed.0 } in
      let kept = claim-backed batch_size now s s.rows backed in
      ground (arith, publish_all-backed (outside.arrange claimed.1) 0 taken kept)

-- The time of a cycle, what it meets outside, and the size of its batch.
pub record Cycle : Type 0 where
  pub outside : Outside
  pub now : ℕ
  pub batch_size : ℕ

unfoldable pub run_cycles : List Cycle → Outbox → Outbox
run_cycles [] s = s
run_cycles (c ∷ cs) s = run_cycles cs (run_once c.outside c.now c.batch_size s).1

-- Whatever cycles run, and whatever statements and writes fail in them, every row that is marked as
-- published was taken by Kafka, or is marked as exhausted and stands among the dead letters, if
-- this was so before.
pub marked_was_taken :
    (cs : List Cycle) (s : Outbox)
    → all (is_backed s) s.rows ≡ true
    → all (is_backed (run_cycles cs s)) (run_cycles cs s).rows ≡ true
unfolding run_cycles
marked_was_taken [] s backed = backed
marked_was_taken (c ∷ cs) s backed =
    marked_was_taken cs (run_once c.outside c.now c.batch_size s).1
      (run_once-backed c.outside c.now c.batch_size s backed)
