-- ===== src/Ingestion/Consumer/Latest.antt =====
-- The projection against its specification: of each task the payload with the highest version.
use pda_backend.Common.{
  ℕ, ◌≤◌, String, ◌≡◌, refl, Option, none, some, List, [], ◌∷◌, Bool, true, false, ◌&&◌, ◌||◌, ◌==◌,
  eqb, any, all, any-append, arith, eq_iff, ap, sym, ◌∙◌, subst, inl, inr, Bool-cases,
}
use pda_backend.Ingestion.Contract.{is_time}
use pda_backend.Ingestion.Rows.{Tables, Message, is_seen, is_entry}
use pda_backend.Ingestion.Consumer.{
  Outside, Dispatch, Verdict, rejected, accepted, classify, is_identified, ingest, process, handle,
  dead_letter, projected_version,
}
use pda_backend.Ingestion.Consumer.Versions.{
  Delivery, newer, version_shown, projected, with_dispatch, with_verdict, latest, deliver,
  newer-least, with_dispatch-least, ingest-seen, classify-accepted, ingest-shown,
  projected_version-shown,
}

newer-old :
    (old : Option (ℕ × String)) (new : ℕ × String)
    → new.0 ≤ version_shown old
    → 1 ≤ new.0
    → newer old new ≡ old
unfolding newer
newer-old none new known real = ground arith
newer-old (some old) new known real = ground arith

is_entry-eq :
    (event other : ℕ) (group : String)
    → (any (is_entry event group) ((other, group) ∷ [])) ≡ true
    → other ≡ event
is_entry-eq event other group h = ground arith

module _ {F : Type 0} (outside : Outside F) (group : String) (task_of : ℕ → String)
    (version_of : ℕ → ℕ) where
  -- Every event of the inbox has reached the projection.
  unfoldable pub IsSettled : Tables F → Type 0
  IsSettled db =
      (event : ℕ)
      → is_seen event group db ≡ true
      → version_of event ≤ projected_version (task_of event) db

  abbrev pub names : Verdict F → Bool
  names (rejected event event_type failure) = true
  names (accepted d) =
      (d.payload.warehouse_task_id == task_of d.event)
      && eqb d.payload.task_version (version_of d.event)

  -- An event identifier names one task and one version of it.
  abbrev pub is_named : Delivery → Bool
  is_named x = names (classify outside x.message)

  -- A transaction that commits keeps the inbox settled, and does to each entry what its payload says.
  ingest-settles :
      (d : Dispatch F) (m : Message) (now : ℕ) (db db' : Tables F)
      → IsSettled db
      → names (accepted d) ≡ true
      → is_seen d.event group db ≡ false
      → is_identified d.payload ≡ true
      → ((d.envelope.occurred_at == "") || is_time (outside.parse_time d.envelope.occurred_at))
        ≡ true
      → ingest outside group d m now db ≡ (true, db')
      → IsSettled db'
  unfolding IsSettled
  ingest-settles d m now db db' settled named unseen identified dated k event seen =
      let t = task_of event in
      let (entry, inbox) = ingest-shown outside group t d m now db db' unseen identified dated k in
      let before = projected_version-shown t db in
      let after = projected_version-shown t db' ∙ ap version_shown entry in
      let kept = with_dispatch-least outside t d (projected t db) in
      let reached = (newer-least (projected t db) (d.payload.task_version, d.envelope.payload)).1 in
      let found =
        ap (any (is_entry event group)) inbox
        ∙ any-append (is_entry event group) db.inbox ((d.event, group) ∷ []) in
      elim (Bool-cases (is_seen event group db)) [
        | inl known ↦ let least = settled event known in ground arith
        | inr fresh ↦
            let same : d.event ≡ event = is_entry-eq event d.event group (ground arith) in
            let version : d.payload.task_version ≡ version_of event = ground arith in
            let task : (d.payload.warehouse_task_id == t) ≡ true =
              ap (λ e. d.payload.warehouse_task_id == task_of e) (sym same) ∙ ground arith in
            ground arith
      ]

  seen-shown :
      (id : String) (d : Dispatch F) (db : Tables F)
      → IsSettled db
      → names (accepted d) ≡ true
      → is_seen d.event group db ≡ true
      → is_identified d.payload ≡ true
      → with_dispatch outside id d (projected id db) ≡ projected id db
  unfolding IsSettled
  seen-shown id d db settled named seen identified =
      let reached = settled d.event seen in
      let before = projected_version-shown (task_of d.event) db in
      let task = (eq_iff d.payload.warehouse_task_id (task_of d.event)).0 (ground arith) in
      elim (Bool-cases (d.payload.warehouse_task_id == id)) [
        | inl hit ↦
            let here = sym task ∙ (eq_iff d.payload.warehouse_task_id id).0 hit in
            let version = ap (λ t. version_shown (projected t db)) here in
            let kept =
              newer-old (projected id db) (d.payload.task_version, d.envelope.payload)
                (ground arith) (ground arith) in
            ground arith
        | inr miss ↦ ground arith
      ]

  -- One message: the projection does what the specification says, and stays settled.
  handle-shown :
      (v : Verdict F) (x : Delivery) (db db' : Tables F)
      → IsSettled db
      → names v ≡ true
      → classify outside x.message ≡ v
      → handle outside group v x.message x.now db ≡ (true, db')
      → IsSettled db'
        × ((id : String) → projected id db' ≡ with_verdict outside id v (projected id db))
  unfolding dead_letter IsSettled
  handle-shown (rejected event event_type failure) x db db' settled named known k =
      (λ e seen. ground (arith, settled e), λ id. ground arith)
  handle-shown (accepted d) x db db' settled named known k =
      let (identified, dated) = classify-accepted outside x.message d known in
      elim (Bool-cases (is_seen d.event group db)) [
        | inl seen ↦
            let same : db ≡ db' = ingest-seen outside group d x.message x.now db db' seen k in
            (
              subst IsSettled same settled,
              λ id.
                  ap (projected id) (sym same)
                  ∙ sym (seen-shown id d db settled named seen identified),
            )
        | inr unseen ↦ (
          ingest-settles d x.message x.now db db' settled named unseen identified dated k,
          λ id.
              (ingest-shown outside group id d x.message x.now db db' unseen identified dated k).0,
        )
      ]

  -- The projection refines its specification: from tables whose recorded events have reached the
  -- projection, deliveries of which each is processed without an error, and in which an event
  -- identifier stands for one task and one version of it, leave of each task the version and the
  -- text of the highest version delivered or projected before, repeated and late deliveries
  -- included.
  pub projection_is_latest :
      (xs : List Delivery) (db db' : Tables F) (id : String)
      → IsSettled db
      → all is_named xs ≡ true
      → deliver outside group xs db ≡ (true, db')
      → projected id db' ≡ latest outside id xs (projected id db)
  unfolding deliver latest process
  projection_is_latest [] db db' id settled named k = ap (λ p. projected id p.1) (sym k)
  projection_is_latest (x ∷ xs) db db' id settled named k =
      let step = process outside group x.message x.now db in
      let done : step ≡ (true, step.1) = ground arith in
      let (settled', shown') =
        handle-shown (classify outside x.message) x db step.1 settled (ground arith) refl done in
      projection_is_latest xs step.1 db' id settled' (ground arith) (ground arith)
      ∙ ap (latest outside id xs) (shown' id)
