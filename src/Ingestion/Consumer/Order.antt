-- ===== src/Ingestion/Consumer/Order.antt =====
-- The order in which Kafka delivers, which is free between the three topics.
use mathlib.Core.List.{Permᴰ}
use pda_backend.Common.{
  all-perm, ℕ, String, ◌≡◌, refl, Option, none, some, List, ◌∷◌, Bool, true, ◌==◌, eqb, all, arith,
  eq_iff, ap, sym, ◌∙◌, inl, inr, Bool-cases,
}
use pda_backend.Ingestion.Rows.{Tables}
use pda_backend.Ingestion.Consumer.{Outside, Verdict, rejected, accepted, classify}
use pda_backend.Ingestion.Consumer.Versions.{
  Delivery, newer, projected, with_verdict, latest, deliver,
}
use pda_backend.Ingestion.Consumer.Latest.{IsSettled, is_named, projection_is_latest}

newer-swap :
    (old : Option (ℕ × String)) (v w : ℕ) (t u : String)
    → (v ≡ w → t ≡ u)
    → newer (newer old (v, t)) (w, u) ≡ newer (newer old (w, u)) (v, t)
unfolding newer
newer-swap none v w t u same = elim (Bool-cases (eqb v w)) [
  | inl level ↦ let texts = same (ground arith) in ground arith
  | inr apart ↦ ground arith
]
newer-swap (some old) v w t u same = elim (Bool-cases (eqb v w)) [
  | inl level ↦ let texts = same (ground arith) in ground arith
  | inr apart ↦ ground arith
]

module _ {F : Type 0} (outside : Outside F) (text_of : String → ℕ → String) where
  abbrev pub writes : Verdict F → Bool
  writes (rejected event event_type failure) = true
  writes (accepted d) =
      d.envelope.payload == text_of d.payload.warehouse_task_id d.payload.task_version

  -- A version of a task has one text.
  abbrev pub is_written : Delivery → Bool
  is_written x = writes (classify outside x.message)

  with_verdict-swap :
      (id : String) (v w : Verdict F) (old : Option (ℕ × String))
      → writes v ≡ true
      → writes w ≡ true
      → with_verdict outside id w (with_verdict outside id v old)
        ≡ with_verdict outside id v (with_verdict outside id w old)
  with_verdict-swap id (rejected e t f) w old v_written w_written = refl
  with_verdict-swap id (accepted d) (rejected e t f) old v_written w_written = refl
  with_verdict-swap id (accepted d) (accepted d') old v_written w_written =
      let text =
        (eq_iff d.envelope.payload (text_of d.payload.warehouse_task_id d.payload.task_version)).0
          v_written in
      let text' =
        (eq_iff d'.envelope.payload
            (text_of d'.payload.warehouse_task_id d'.payload.task_version)).0
          w_written in
      elim (Bool-cases (d.payload.warehouse_task_id == id)) [
        | inl hit ↦ elim (Bool-cases (d'.payload.warehouse_task_id == id)) [
          | inl hit' ↦
              let task = (eq_iff d.payload.warehouse_task_id id).0 hit in
              let task' = (eq_iff d'.payload.warehouse_task_id id).0 hit' in
              ground (
                arith,
                newer-swap old d.payload.task_version d'.payload.task_version d.envelope.payload
                    d'.envelope.payload
                    (λ level.
                      text
                      ∙ ap (λ t. text_of t d.payload.task_version) (task ∙ sym task')
                      ∙ ap (text_of d'.payload.warehouse_task_id) level
                      ∙ sym text'),
              )
          | inr miss' ↦ ground arith
        ]
        | inr miss ↦ ground arith
      ]

  latest-cons :
      (id : String) (a b : Delivery) (l l' : List Delivery) (old : Option (ℕ × String))
      → a ≡ b
      → ((later : Option (ℕ × String)) → latest outside id l later ≡ latest outside id l' later)
      → latest outside id (a ∷ l) old ≡ latest outside id (b ∷ l') old
  unfolding latest
  latest-cons id a b l l' old same rest =
      rest (with_verdict outside id (classify outside a.message) old)
      ∙ ap (λ x. latest outside id l' (with_verdict outside id (classify outside x.message) old))
          same

  latest-swap :
      (id : String) (a b a' b' : Delivery) (l : List Delivery) (old : Option (ℕ × String))
      → a ≡ b'
      → b ≡ a'
      → all is_written (a ∷ b ∷ l) ≡ true
      → latest outside id (a ∷ b ∷ l) old ≡ latest outside id (a' ∷ b' ∷ l) old
  unfolding latest
  latest-swap id a b a' b' l old first second written =
      let v = classify outside a.message in
      let w = classify outside b.message in
      ap (latest outside id l) (with_verdict-swap id v w old (ground arith) (ground arith))
      ∙ ap
          (λ x.
            latest outside id l (
              with_verdict outside id (classify outside x.message) (with_verdict outside id w old)))
          first
      ∙ ap
          (λ y. latest outside id l (
            with_verdict outside id (classify outside b'.message)
              (with_verdict outside id (classify outside y.message) old)))
          second

  latest-perm :
      (id : String) {xs ys : List Delivery} (old : Option (ℕ × String))
      → Permᴰ xs ys
      → all is_written xs ≡ true
      → latest outside id xs old ≡ latest outside id ys old
  unfolding latest
  latest-perm id old Permᴰ.nil written = refl
  latest-perm id old (Permᴰ.cons {a = a} {b = b} {l₁ = l} {l₂ = l'} same rest) written =
      latest-cons id a b l l' old same (λ later. latest-perm id later rest (ground arith))
  latest-perm id old (Permᴰ.swap {a = a} {b = b} {a' = a'} {b' = b'} {l = l} first second) written =
      latest-swap id a b a' b' l old first second written
  latest-perm id old (Permᴰ.trans one two) written =
      latest-perm id old one written
      ∙ latest-perm id old two (sym (all-perm is_written one).0 ∙ written)

  -- From tables whose recorded events have reached the projection, two orders of the same
  -- deliveries lead to the same projected version and text of each task, where every delivery is
  -- processed without an error in both orders, an event identifier stands for one task and version,
  -- and a version of a task has one text.
  pub order_of_delivery :
      (group : String) (task_of : ℕ → String) (version_of : ℕ → ℕ) (xs ys : List Delivery)
      (db dx dy : Tables F) (id : String)
      → Permᴰ xs ys
      → IsSettled outside group task_of version_of db
      → all (is_named outside group task_of version_of) xs ≡ true
      → all is_written xs ≡ true
      → deliver outside group xs db ≡ (true, dx)
      → deliver outside group ys db ≡ (true, dy)
      → projected id dx ≡ projected id dy
  order_of_delivery group task_of version_of xs ys db dx dy id perm settled named written kx ky =
      projection_is_latest outside group task_of version_of xs db dx id settled named kx
      ∙ latest-perm id (projected id db) perm written
      ∙ sym (
          projection_is_latest outside group task_of version_of ys db dy id settled
            (sym (all-perm (is_named outside group task_of version_of) perm).0 ∙ named) ky)
