-- ===== src/Ingestion/Relay/Attempts.antt =====
-- How often the relay tries a row.
use mathlib.Core.List.{Permᴰ}
use pda_backend.Common.{
  all-perm, ℕ, suc, zero, ◌+◌, ◌≡◌, refl, List, [], ◌∷◌, Bool, true, false, not, ◌&&◌, ◌||◌, eqb,
  leb, ltb, all, arith, inl, inr, Bool-cases, if◌then◌else◌,
}
use pda_backend.Common.Rows.{update_where}
use pda_backend.Ingestion.Relay.{
  OutboxRow, Outbox, is_open, is_due, is_event, tried, claim, max_attempts, backoff, retired,
  postponed, publish, publish_all, run_once, counted, Outside,
}
use pda_backend.Ingestion.Relay.Marks.{has_entry}

-- A row is tried at most eight times, and an open one fewer times.
abbrev pub is_bounded : OutboxRow → Bool
is_bounded r =
    if is_open r.published_at then ltb r.attempts max_attempts else leb r.attempts max_attempts

-- The primary key.
unfoldable pub distinct : List OutboxRow → Bool
distinct [] = true
distinct (r ∷ rows) = not (has_entry r.event_id rows) && distinct rows

abbrev agrees : ℕ → ℕ → OutboxRow → Bool
agrees id attempts x = not (is_event id x) || eqb x.attempts attempts

-- A row whose entry of the batch is still to come may have its eighth attempt.
abbrev is_pending : List OutboxRow → OutboxRow → Bool
is_pending batch r =
    (if has_entry r.event_id batch then leb r.attempts max_attempts else is_bounded r)
    && all (agrees r.event_id r.attempts) batch

update-pending :
    (item : OutboxRow) (batch : List OutboxRow) (f : OutboxRow → OutboxRow) (rows : List OutboxRow)
    → ((r : OutboxRow) → (f r).event_id ≡ r.event_id)
    → ((r : OutboxRow) → (f r).attempts ≡ r.attempts)
    → ((r : OutboxRow)
        → leb r.attempts max_attempts ≡ true
        → eqb item.attempts r.attempts ≡ true
        → is_bounded (f r) ≡ true)
    → all (is_pending (item ∷ batch)) rows ≡ true
    → all (is_pending batch) (update_where (is_event item.event_id) f rows) ≡ true
unfolding update_where
update-pending item batch f [] id attempts bounded pending = refl
update-pending item batch f (r ∷ rows) id attempts bounded pending =
    ground
      (arith, id r, attempts r, bounded r, update-pending item batch f rows id attempts bounded)

more-pending :
    (item : OutboxRow) (batch rows : List OutboxRow)
    → has_entry item.event_id rows ≡ false
    → all (is_pending batch) rows ≡ true
    → all (is_pending (item ∷ batch)) rows ≡ true
more-pending item batch [] apart pending = refl
more-pending item batch (r ∷ rows) apart pending = ground (arith, more-pending item batch rows)

claim-entries :
    (limit now id : ℕ) (rows : List OutboxRow)
    → has_entry id rows ≡ false
    → (has_entry id (claim limit now rows).0 ≡ false)
      × (has_entry id (claim limit now rows).1 ≡ false)
unfolding claim
claim-entries zero now id [] apart = (refl, refl)
claim-entries (suc limit) now id [] apart = (refl, refl)
claim-entries zero now id (r ∷ rows) apart = (apart, refl)
claim-entries (suc limit) now id (r ∷ rows) apart =
    let (rows_taken, taken) = claim-entries limit now id rows (ground arith) in
    let (rows_passed, passed) = claim-entries (suc limit) now id rows (ground arith) in
    (ground arith, ground arith)

agrees-absent :
    (id attempts : ℕ) (batch : List OutboxRow)
    → has_entry id batch ≡ false
    → all (agrees id attempts) batch ≡ true
agrees-absent id attempts [] apart = refl
agrees-absent id attempts (x ∷ batch) apart = ground (arith, agrees-absent id attempts batch)

bounded-pending :
    (rows : List OutboxRow) → all is_bounded rows ≡ true → all (is_pending []) rows ≡ true
bounded-pending [] bounded = refl
bounded-pending (r ∷ rows) bounded = ground (arith, bounded-pending rows)

pending-bounded :
    (rows : List OutboxRow) → all (is_pending []) rows ≡ true → all is_bounded rows ≡ true
pending-bounded [] pending = refl
pending-bounded (r ∷ rows) pending = ground (arith, pending-bounded rows)

claim-pending :
    (limit now : ℕ) (rows : List OutboxRow)
    → distinct rows ≡ true
    → all is_bounded rows ≡ true
    → all (is_pending (claim limit now rows).1) (claim limit now rows).0 ≡ true
unfolding claim distinct
claim-pending zero now [] apart bounded = refl
claim-pending (suc limit) now [] apart bounded = refl
claim-pending zero now (r ∷ rows) apart bounded = bounded-pending (r ∷ rows) bounded
claim-pending (suc limit) now (r ∷ rows) apart bounded = elim (Bool-cases (is_due now r)) [
  | inl due ↦
      let rest = claim limit now rows in
      let (rows_apart, batch_apart) = claim-entries limit now r.event_id rows (ground arith) in
      let others =
        more-pending (tried r) rest.1 rest.0 rows_apart
          (claim-pending limit now rows (ground arith) (ground arith)) in
      let alone = agrees-absent r.event_id (r.attempts + 1) rest.1 batch_apart in ground arith
  | inr idle ↦
      let rest = claim (suc limit) now rows in
      let (rows_apart, batch_apart) =
        claim-entries (suc limit) now r.event_id rows (ground arith) in
      let others = claim-pending (suc limit) now rows (ground arith) (ground arith) in
      let alone = agrees-absent r.event_id r.attempts rest.1 batch_apart in ground arith
]

arranged-pending :
    (batch batch' rows : List OutboxRow)
    → Permᴰ batch' batch
    → all (is_pending batch) rows ≡ true
    → all (is_pending batch') rows ≡ true
arranged-pending batch batch' [] perm pending = refl
arranged-pending batch batch' (r ∷ rows) perm pending = ground (
  arith,
  (all-perm (is_event r.event_id) perm).1,
  (all-perm (agrees r.event_id r.attempts) perm).0,
  arranged-pending batch batch' rows perm,
)

module _ (outside : Outside) (now : ℕ) where
  publish-pending :
      (item : OutboxRow) (batch : List OutboxRow) (s : Outbox)
      → (publish outside now item s).0 ≡ true
      → all (is_pending (item ∷ batch)) s.rows ≡ true
      → all (is_pending batch) (publish outside now item s).1.rows ≡ true
  unfolding publish
  publish-pending item batch s ran pending =
      let until = now + backoff item.attempts in
      elim (Bool-cases (leb max_attempts item.attempts)) [
        | inl last ↦ ground (
          arith,
          update-pending item batch (retired now false) s.rows (λ r. refl) (λ r. refl) (λ r h e. h),
          update-pending item batch (retired now true) s.rows (λ r. refl) (λ r. refl) (λ r h e. h),
        )
        | inr more ↦ ground (
          arith,
          update-pending item batch (retired now false) s.rows (λ r. refl) (λ r. refl) (λ r h e. h),
          update-pending item batch (postponed until) s.rows (λ r. refl) (λ r. refl)
              (λ r h e. ground arith),
        )
      ]

  publish_all-pending :
      (batch : List OutboxRow) (published : ℕ) (s : Outbox)
      → (publish_all outside now batch published s).0.1 ≡ true
      → all (is_pending batch) s.rows ≡ true
      → all (is_pending []) (publish_all outside now batch published s).1.rows ≡ true
  unfolding publish_all
  publish_all-pending [] published s ran pending = pending
  publish_all-pending (item ∷ batch) published s ran pending =
      elim (Bool-cases (publish outside now item s).0) [
        | inl done ↦
            let after = (publish outside now item s).1 in
            let n = counted outside now (outside.accepts item) published in
            ground (
              arith,
              publish_all-pending batch n after (ground arith)
                  (publish-pending item batch s done pending),
            )
        | inr failed ↦ ground arith
      ]

  -- A cycle that returns no error keeps every row of an outbox with distinct identifiers at eight
  -- attempts at most, and every row that is still open below eight, if this was so before. UPDATE
  -- returns the claimed rows in any order.
  pub attempts_stay_bounded :
      (batch_size : ℕ) (s : Outbox)
      → ((batch : List OutboxRow) → Permᴰ (outside.arrange batch) batch)
      → distinct s.rows ≡ true
      → all is_bounded s.rows ≡ true
      → (run_once outside now batch_size s).0.1 ≡ true
      → all is_bounded (run_once outside now batch_size s).1.rows ≡ true
  unfolding run_once
  attempts_stay_bounded batch_size s arranged apart bounded ran =
      let claimed = claim batch_size now s.rows in
      let taken : Outbox = record s { rows = claimed.0 } in
      let batch = outside.arrange claimed.1 in
      let cycle = publish_all outside now batch 0 taken in
      let pending =
        arranged-pending claimed.1 batch claimed.0 (arranged claimed.1)
          (claim-pending batch_size now s.rows apart bounded) in
      elim (Bool-cases cycle.0.1) [
        | inl done ↦
            ground
              (arith, pending-bounded cycle.1.rows (publish_all-pending batch 0 taken done pending))
        | inr failed ↦ ground arith
      ]
