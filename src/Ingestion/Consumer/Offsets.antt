-- ===== src/Ingestion/Consumer/Offsets.antt =====
-- The loop of `Start` on one partition: a message is fetched, processed, and committed if that
-- succeeded. `commit` is CommitMessages of kafka-go on the stored offset of the group.
use pda_backend.Common.{
  ℕ, ◌+◌, ◌≤◌, String, ◌≡◌, refl, List, [], ◌∷◌, ◌++◌, Bool, true, ltb, all, arith, ap,
  if◌then◌else◌,
}
use pda_backend.Ingestion.Rows.{Message, Tables}
use pda_backend.Ingestion.Consumer.{Outside, process}
use pda_backend.Ingestion.Consumer.Versions.{Delivery}

abbrev pub is_before : Delivery → Delivery → Bool
is_before last x = ltb x.message.offset last.message.offset

abbrev pub is_behind : ℕ → Delivery → Bool
is_behind stored x = ltb x.message.offset stored

all-behind :
    (last : Delivery) (stored : ℕ) (xs : List Delivery)
    → all (is_before last) xs ≡ true
    → last.message.offset + 1 ≤ stored
    → all (is_behind stored) (xs ++ (last ∷ [])) ≡ true
all-behind last stored [] before passed = ground arith
all-behind last stored (x ∷ xs) before passed = ground (arith, all-behind last stored xs)

module _ {F : Type 0} (outside : Outside F) (commit : ℕ → Message → ℕ) (group : String) where
  unfoldable pub consume : List Delivery → ℕ × Tables F → ℕ × Tables F
  consume [] s = s
  consume (x ∷ xs) s =
      let (done, after) = process outside group x.message x.now s.1 in
      consume xs (if done then commit s.0 x.message else s.0, after)

  consume-append :
      (xs ys : List Delivery) (s : ℕ × Tables F) → consume (xs ++ ys) s ≡ consume ys (consume xs s)
  unfolding consume
  consume-append [] ys s = refl
  consume-append (x ∷ xs) ys s = consume-append xs ys _

  module _ (documented : (stored : ℕ) (m : Message) → m.offset + 1 ≤ commit stored m) where
    -- Once a message of a partition has succeeded, the stored offset of the group lies behind every
    -- message that was fetched before it, failed ones included, where CommitMessages stores at
    -- least the offset behind its message.
    pub failures_are_passed_over :
        (xs : List Delivery) (last : Delivery) (s : ℕ × Tables F)
        → all (is_before last) xs ≡ true
        → (process outside group last.message last.now (consume xs s).1).0 ≡ true
        → all (is_behind (consume (xs ++ (last ∷ [])) s).0) (xs ++ (last ∷ [])) ≡ true
    unfolding consume
    failures_are_passed_over xs last s before done =
        let end = consume-append xs (last ∷ []) s in
        let passed = documented (consume xs s).0 last.message in
        all-behind last (consume (xs ++ (last ∷ [])) s).0 xs before
          (ground (arith, ap (λ p. p.0) end))
