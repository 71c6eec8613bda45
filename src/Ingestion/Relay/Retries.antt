-- ===== src/Ingestion/Relay/Retries.antt =====
-- The attempts of the relay.
use mathlib.Core.List.{Permᴰ}
use pda_backend.Common.{
  all-perm, ℕ, suc, zero, ◌+◌, ◌*◌, ◌^◌, ◌≤◌, ◌<◌, ◌≡◌, refl, List, [], ◌∷◌, Bool, true, false, not,
  ◌||◌, any, all, length, arith, inl, inr, Bool-cases,
}
use pda_backend.Common.Rows.{update_where}
use pda_backend.Ingestion.Relay.Marks.{has_entry, is_backed, run_once-backed}
use pda_backend.Ingestion.Relay.{
  OutboxRow, Outbox, is_due, is_event, tried, claim, max_attempts, second, backoff, retired,
  postponed, publish, publish_all, run_once, Outside, counted,
}

-- A row that is due is one of the batch.
abbrev is_covered : ℕ → List OutboxRow → OutboxRow → Bool
is_covered now batch r = not (is_due now r) || has_entry r.event_id batch

pow-pos : (n : ℕ) → 1 ≤ 2 ^ n
pow-pos zero = ground arith
pow-pos (suc n) = ground (arith, pow-pos n)

backoff-pos : (n : ℕ) → 1 ≤ backoff n
unfolding backoff
backoff-pos n = ground (arith, pow-pos n)

update-covered :
    (now : ℕ) (item : OutboxRow) (batch : List OutboxRow) (f : OutboxRow → OutboxRow)
    (rows : List OutboxRow)
    → ((r : OutboxRow) → is_due now (f r) ≡ false)
    → all (is_covered now (item ∷ batch)) rows ≡ true
    → all (is_covered now batch) (update_where (is_event item.event_id) f rows) ≡ true
unfolding update_where
update-covered now item batch f [] idle covered = refl
update-covered now item batch f (r ∷ rows) idle covered =
    ground (arith, idle r, update-covered now item batch f rows idle)

more-covered :
    (now : ℕ) (item : OutboxRow) (batch rows : List OutboxRow)
    → all (is_covered now batch) rows ≡ true
    → all (is_covered now (item ∷ batch)) rows ≡ true
more-covered now item batch [] covered = refl
more-covered now item batch (r ∷ rows) covered = ground (arith, more-covered now item batch rows)

claim-covered :
    (limit now : ℕ) (rows : List OutboxRow)
    → length rows ≤ limit
    → all (is_covered now (claim limit now rows).1) (claim limit now rows).0 ≡ true
unfolding claim
claim-covered zero now [] enough = refl
claim-covered (suc limit) now [] enough = refl
claim-covered zero now (r ∷ rows) enough = ground arith
claim-covered (suc limit) now (r ∷ rows) enough = elim (Bool-cases (is_due now r)) [
  | inl due ↦
      let rest = claim limit now rows in
      ground (
        arith,
        more-covered now (tried r) rest.1 rest.0 (claim-covered limit now rows (ground arith)),
      )
  | inr idle ↦ ground (arith, claim-covered (suc limit) now rows (ground arith))
]

retired-idle :
    (now t : ℕ) (exhausted : Bool) (r : OutboxRow) → is_due now (retired t exhausted r) ≡ false
retired-idle now t exhausted r = refl

postponed-idle :
    (now until : ℕ) (r : OutboxRow) → now < until → is_due now (postponed until r) ≡ false
postponed-idle now until r later = ground arith

module _ (outside : Outside) (now : ℕ) where
  publish-covered :
      (item : OutboxRow) (batch : List OutboxRow) (s : Outbox)
      → (publish outside now item s).0 ≡ true
      → all (is_covered now (item ∷ batch)) s.rows ≡ true
      → all (is_covered now batch) (publish outside now item s).1.rows ≡ true
  unfolding publish
  publish-covered item batch s ran covered =
      let until = now + backoff item.attempts in
      let pause = backoff-pos item.attempts in
      ground (
        arith,
        update-covered now item batch (retired now false) s.rows (retired-idle now now false),
        update-covered now item batch (retired now true) s.rows (retired-idle now now true),
        update-covered now item batch (postponed until) s.rows
            (λ r. postponed-idle now until r (ground arith)),
      )

  publish_all-covered :
      (batch : List OutboxRow) (published : ℕ) (s : Outbox)
      → (publish_all outside now batch published s).0.1 ≡ true
      → all (is_covered now batch) s.rows ≡ true
      → all (is_covered now []) (publish_all outside now batch published s).1.rows ≡ true
  unfolding publish_all
  publish_all-covered [] published s ran covered = covered
  publish_all-covered (item ∷ batch) published s ran covered =
      elim (Bool-cases (publish outside now item s).0) [
        | inl done ↦
            let after = (publish outside now item s).1 in
            let n = counted outside now (outside.accepts item) published in
            ground (
              arith,
              publish_all-covered batch n after (ground arith)
                  (publish-covered item batch s done covered),
            )
        | inr failed ↦ ground arith
      ]

  idle :
      (rows : List OutboxRow) → all (is_covered now []) rows ≡ true → any (is_due now) rows ≡ false
  idle [] covered = refl
  idle (r ∷ rows) covered = ground (arith, idle rows)

  arranged-covered :
      (batch batch' rows : List OutboxRow)
      → Permᴰ batch' batch
      → all (is_covered now batch) rows ≡ true
      → all (is_covered now batch') rows ≡ true
  arranged-covered batch batch' [] perm covered = refl
  arranged-covered batch batch' (r ∷ rows) perm covered =
      ground
        (arith, (all-perm (is_event r.event_id) perm).1, arranged-covered batch batch' rows perm)

  run_once-idle :
      (batch_size : ℕ) (s : Outbox)
      → ((batch : List OutboxRow) → Permᴰ (outside.arrange batch) batch)
      → length s.rows ≤ batch_size
      → (run_once outside now batch_size s).0.1 ≡ true
      → any (is_due now) (run_once outside now batch_size s).1.rows ≡ false
  unfolding run_once
  run_once-idle batch_size s arranged enough ran =
      let claimed = claim batch_size now s.rows in
      let taken : Outbox = record s { rows = claimed.0 } in
      let batch = outside.arrange claimed.1 in
      let cycle = publish_all outside now batch 0 taken in
      let covered =
        arranged-covered claimed.1 batch claimed.0 (arranged claimed.1)
          (claim-covered batch_size now s.rows enough) in
      elim (Bool-cases cycle.0.1) [
        | inl done ↦
            ground (arith, idle cycle.1.rows (publish_all-covered batch 0 taken done covered))
        | inr failed ↦ ground arith
      ]

  -- A cycle of the relay that returns no error, and whose batch has room for every row of the
  -- table, leaves no row that is due at its time, and every row that is marked as published was
  -- taken by Kafka, or is marked as exhausted and stands among the dead letters, if this was so
  -- before. UPDATE returns the claimed rows in any order.
  pub cycle_leaves_none_due :
      (batch_size : ℕ) (s : Outbox)
      → ((batch : List OutboxRow) → Permᴰ (outside.arrange batch) batch)
      → length s.rows ≤ batch_size
      → all (is_backed s) s.rows ≡ true
      → (run_once outside now batch_size s).0.1 ≡ true
      → (any (is_due now) (run_once outside now batch_size s).1.rows ≡ false)
        × (all
              (is_backed (run_once outside now batch_size s).1)
              (run_once outside now batch_size s).1.rows
            ≡ true)
  cycle_leaves_none_due batch_size s arranged enough backed ran = (
    run_once-idle batch_size s arranged enough ran,
    run_once-backed outside now batch_size s backed,
  )

-- The pause behind a failed attempt that is not the last.
pub backoff_bounds :
    (attempts : ℕ)
    → 1 ≤ attempts
    → attempts < max_attempts
    → (2 * second ≤ backoff attempts) × (backoff attempts ≤ 128 * second)
unfolding backoff
backoff_bounds zero real few = ground arith
backoff_bounds (suc zero) real few = ground arith
backoff_bounds (suc (suc zero)) real few = ground arith
backoff_bounds (suc (suc (suc zero))) real few = ground arith
backoff_bounds (suc (suc (suc (suc zero)))) real few = ground arith
backoff_bounds (suc (suc (suc (suc (suc zero))))) real few = ground arith
backoff_bounds (suc (suc (suc (suc (suc (suc zero)))))) real few = ground arith
backoff_bounds (suc (suc (suc (suc (suc (suc (suc zero))))))) real few = ground arith
backoff_bounds (suc (suc (suc (suc (suc (suc (suc (suc n)))))))) real few = ground arith
