-- ===== src/Ingestion/Consumer/Versions.antt =====
-- The version that the projection of a task shows, across deliveries.
use pda_backend.Common.{
  ℕ, ◌≤◌, String, ◌≡◌, Option, none, some, List, [], ◌∷◌, ◌++◌, Bool, true, false, ◌&&◌, ◌||◌, ◌==◌,
  leb, any, arith, eq_refl, eq_iff, ap, if◌then◌else◌, inl, inr, Option-cases, Bool-cases,
}
use pda_backend.Common.Rows.{first_where, update_where}
use pda_backend.Ingestion.Contract.{
  IntegrationEnvelope, TaskPayload, validates, is_time, task_category, queue_status,
}
use pda_backend.Ingestion.Rows.{
  ProjectionRow, Tables, Message, has_task, merged, row_of, upsert_projection, is_seen,
}
use pda_backend.Ingestion.Consumer.{
  Outside, Dispatch, Verdict, rejected, accepted, classify, classify_event, classify_payload,
  is_identified, project, ingest, process, received_at, projected_version,
}

-- What a device is shown of a task: the version and the text of its last payload.
abbrev pub shown : {F : Type 0} → Option (ProjectionRow F) → Option (ℕ × String)
shown none = none
shown (some r) = some (r.task_version, r.payload)

abbrev pub projected : {F : Type 0} → String → Tables F → Option (ℕ × String)
projected id db = shown (first_where (has_task id) db.projection)

shown-update :
    {F : Type 0}
    → (id : String) (new : ProjectionRow F) (rows : List (ProjectionRow F))
    → shown (
        first_where (has_task id) (update_where (has_task new.warehouse_task_id) (merged new) rows))
      ≡ (if (new.warehouse_task_id == id) && any (has_task new.warehouse_task_id) rows
          then some (new.task_version, new.payload)
          else shown (first_where (has_task id) rows))
unfolding first_where update_where
shown-update id new [] = ground arith
shown-update id new (r ∷ rows) = ground (
  arith,
  eq_iff r.warehouse_task_id new.warehouse_task_id,
  eq_iff new.warehouse_task_id id,
  eq_iff r.warehouse_task_id id,
  shown-update id new rows,
)

shown-append :
    {F : Type 0}
    → (id : String) (new : ProjectionRow F) (rows : List (ProjectionRow F))
    → any (has_task new.warehouse_task_id) rows ≡ false
    → shown (first_where (has_task id) (rows ++ (new ∷ []))) ≡ (
        if new.warehouse_task_id == id
        then some (new.task_version, new.payload)
        else shown (first_where (has_task id) rows))
unfolding first_where
shown-append id new [] absent = ground arith
shown-append id new (r ∷ rows) absent = ground (
  arith,
  eq_iff r.warehouse_task_id new.warehouse_task_id,
  eq_iff new.warehouse_task_id id,
  eq_iff r.warehouse_task_id id,
  eq_refl id,
  shown-append id new rows,
)

shown-upsert :
    {F : Type 0}
    → (id : String) (new : ProjectionRow F) (rows : List (ProjectionRow F))
    → shown (first_where (has_task id) (upsert_projection new rows)) ≡ (
        if new.warehouse_task_id == id
        then some (new.task_version, new.payload)
        else shown (first_where (has_task id) rows))
unfolding upsert_projection
shown-upsert id new rows = elim (Bool-cases (any (has_task new.warehouse_task_id) rows)) [
  | inl present ↦ ground (arith, shown-update id new rows)
  | inr absent ↦ ground (arith, shown-append id new rows)
]

-- A message of the log, with the time at which it is processed.
pub record Delivery : Type 0 where
  pub message : Message
  pub now : ℕ

-- The entry that a newer payload replaces.
unfoldable pub newer : Option (ℕ × String) → ℕ × String → Option (ℕ × String)
newer none new = some new
newer (some old) new = if leb new.0 old.0 then some old else some new

abbrev pub version_shown : Option (ℕ × String) → ℕ
version_shown none = 0
version_shown (some shown_now) = shown_now.0

pub projected_version-shown :
    {F : Type 0}
    → (id : String) (db : Tables F) → projected_version id db ≡ version_shown (projected id db)
projected_version-shown id db = elim (Option-cases (first_where (has_task id) db.projection)) [
  | inl missing ↦ ground arith
  | inr (r, found) ↦ ground arith
]

pub newer-least :
    (old : Option (ℕ × String)) (new : ℕ × String)
    → (version_shown old ≤ version_shown (newer old new)) × (new.0 ≤ version_shown (newer old new))
unfolding newer
newer-least none new = (ground arith, ground arith)
newer-least (some old) new = (ground arith, ground arith)

module _ {F : Type 0} (outside : Outside F) where
  abbrev pub with_dispatch : String → Dispatch F → Option (ℕ × String) → Option (ℕ × String)
  with_dispatch id d old =
      if d.payload.warehouse_task_id == id
      then newer old (d.payload.task_version, d.envelope.payload)
      else old

  abbrev pub with_verdict : String → Verdict F → Option (ℕ × String) → Option (ℕ × String)
  with_verdict id (rejected event event_type failure) old = old
  with_verdict id (accepted d) old = with_dispatch id d old

  -- The specification: of each task the payload with the highest version.
  unfoldable pub latest : String → List Delivery → Option (ℕ × String) → Option (ℕ × String)
  latest id [] old = old
  latest id (x ∷ xs) old = latest id xs (with_verdict id (classify outside x.message) old)

  unfoldable pub deliver : String → List Delivery → Tables F → Bool × Tables F
  deliver group [] db = (true, db)
  deliver group (x ∷ xs) db =
      let (done, after) = process outside group x.message x.now db in
      let (all_done, final) = deliver group xs after in (done && all_done, final)

  classify_payload-accepted :
      (event : ℕ) (e : IntegrationEnvelope) (p : TaskPayload F) (d : Dispatch F)
      → classify_payload outside event e p ≡ accepted d
      → (is_identified d.payload ≡ true) × (d.envelope ≡ e)
  unfolding classify_payload
  classify_payload-accepted event e p d k = elim (Option-cases (task_category p.task_type)) [
    | inl unknown ↦ ground arith
    | inr (category, supported) ↦ elim (Option-cases (queue_status p.status)) [
      | inl unknown ↦ ground arith
      | inr (status, known) ↦ ground arith
    ]
  ]

  classify_event-accepted :
      (event : ℕ) (e : IntegrationEnvelope) (d : Dispatch F)
      → classify_event outside event e ≡ accepted d
      → (is_identified d.payload ≡ true) × (d.envelope ≡ e)
  unfolding classify_event
  classify_event-accepted event e d k = elim (Option-cases (outside.read_payload e.payload)) [
    | inl malformed ↦ ground arith
    | inr (p, read) ↦ ground (arith, classify_payload-accepted event e p d)
  ]

  -- An accepted payload names its task and a version from 1 on; the time that it carries is read.
  pub classify-accepted :
      (m : Message) (d : Dispatch F)
      → classify outside m ≡ accepted d
      → (is_identified d.payload ≡ true)
        × (((d.envelope.occurred_at == "") || is_time (outside.parse_time d.envelope.occurred_at))
            ≡ true)
  unfolding classify validates
  classify-accepted m d k = elim (Option-cases (outside.read_envelope m.value)) [
    | inl malformed ↦ ground arith
    | inr (e, read) ↦ elim (Option-cases (outside.parse_uuid e.event_id)) [
      | inl bad ↦ ground arith
      | inr (event, parsed) ↦ ground (arith, classify_event-accepted event e d)
    ]
  ]

  project-shown :
      (id : String) (d : Dispatch F) (dispatched : Option ℕ) (received now : ℕ) (db db' : Tables F)
      → project outside d dispatched received now db ≡ some db'
      → (projected id db' ≡ (
          if d.payload.warehouse_task_id == id
          then some (d.payload.task_version, d.envelope.payload)
          else projected id db))
        × (db'.inbox ≡ db.inbox)
  unfolding project row_of
  project-shown id d dispatched received now db db' k = ground (
    arith,
    shown-upsert id (row_of d.event d.payload d.envelope.payload dispatched received now)
        db.projection,
  )

  -- What a transaction that commits does to the entry of a task and to the inbox.
  pub ingest-shown :
      (group id : String) (d : Dispatch F) (m : Message) (now : ℕ) (db db' : Tables F)
      → is_seen d.event group db ≡ false
      → is_identified d.payload ≡ true
      → ((d.envelope.occurred_at == "") || is_time (outside.parse_time d.envelope.occurred_at))
        ≡ true
      → ingest outside group d m now db ≡ (true, db')
      → (projected id db' ≡ with_dispatch id d (projected id db))
        × (db'.inbox ≡ db.inbox ++ ((d.event, group) ∷ []))
  unfolding ingest newer
  ingest-shown group id d m now db db' unseen identified dated k =
      let before = projected_version-shown d.payload.warehouse_task_id db in
      let noted : Tables F = record db { inbox = db.inbox ++ ((d.event, group) ∷ []) } in
      let received = received_at m.time now in
      let same = eq_iff d.payload.warehouse_task_id id in
      elim (Bool-cases
        (leb d.payload.task_version (projected_version d.payload.warehouse_task_id db))) [
          | inl stale ↦ elim (Bool-cases (d.payload.warehouse_task_id == id)) [
            | inl hit ↦
                let moved = ap (λ t. projected t db) (same.0 hit) in ground (arith, before, moved)
            | inr miss ↦ ground arith
          ]
          | inr fresh ↦ elim (Bool-cases (d.envelope.occurred_at == "")) [
            | inl undated ↦ elim (Option-cases (project outside d none received now noted)) [
              | inl refused ↦ ground arith
              | inr (after, done) ↦
                  ground (arith, project-shown id d none received now noted after done)
            ]
            | inr told ↦ elim (Option-cases (outside.parse_time d.envelope.occurred_at)) [
              | inl bad ↦ ground arith
              | inr (t, read) ↦
                  elim (Option-cases (project outside d (some t) received now noted)) [
                    | inl refused ↦ ground arith
                    | inr (after, done) ↦
                        ground (arith, project-shown id d (some t) received now noted after done)
                  ]
            ]
          ]
        ]

  pub with_dispatch-least :
      (id : String) (d : Dispatch F) (old : Option (ℕ × String))
      → version_shown old ≤ version_shown (with_dispatch id d old)
  with_dispatch-least id d old =
      let l = (newer-least old (d.payload.task_version, d.envelope.payload)).0 in
      elim (Bool-cases (d.payload.warehouse_task_id == id)) [
        | inl hit ↦ ground arith
        | inr miss ↦ ground arith
      ]

  pub ingest-seen :
      (group : String) (d : Dispatch F) (m : Message) (now : ℕ) (db db' : Tables F)
      → is_seen d.event group db ≡ true
      → ingest outside group d m now db ≡ (true, db')
      → db ≡ db'
  unfolding ingest
  ingest-seen group d m now db db' seen k = ground arith
