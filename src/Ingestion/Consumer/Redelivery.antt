-- ===== src/Ingestion/Consumer/Redelivery.antt =====
-- A message that arrives again, and the version of a task across any deliveries.
use pda_backend.Common.{
  ℕ, ◌≤◌, String, ◌≡◌, refl, none, some, List, [], ◌∷◌, ◌++◌, true, false, ◌||◌, ◌==◌, any,
  any-append, arith, eq_refl, ap, sym, ◌∙◌, inl, inr, Option-cases, Bool-cases,
}
use pda_backend.Ingestion.Contract.{is_time}
use pda_backend.Ingestion.Rows.{Tables, Message, is_seen, is_entry}
use pda_backend.Ingestion.Consumer.{
  Outside, Dispatch, Verdict, rejected, accepted, classify, is_identified, ingest, process, handle,
  dead_letter, projected_version, project, received_at,
}
use pda_backend.Ingestion.Consumer.Versions.{
  Delivery, version_shown, projected, deliver, classify-accepted, ingest-shown,
  projected_version-shown, with_dispatch-least, ingest-seen,
}

module _ {F : Type 0} (outside : Outside F) (group : String) where
  ingest-noted :
      (d : Dispatch F) (m : Message) (now : ℕ) (db db' : Tables F)
      → is_identified d.payload ≡ true
      → ((d.envelope.occurred_at == "") || is_time (outside.parse_time d.envelope.occurred_at))
        ≡ true
      → ingest outside group d m now db ≡ (true, db')
      → is_seen d.event group db' ≡ true
  ingest-noted d m now db db' identified dated k = elim (Bool-cases (is_seen d.event group db)) [
    | inl seen ↦
        ap (is_seen d.event group) (sym (ingest-seen outside group d m now db db' seen k)) ∙ seen
    | inr unseen ↦
        let inbox = (ingest-shown outside group "" d m now db db' unseen identified dated k).1 in
        let found =
          ap (any (is_entry d.event group)) inbox
          ∙ any-append (is_entry d.event group) db.inbox ((d.event, group) ∷ []) in
        ground (arith, eq_refl group)
  ]

  ingest-keeps :
      (d : Dispatch F) (m : Message) (now : ℕ) (db db' : Tables F)
      → ingest outside group d m now db ≡ (false, db')
      → db' ≡ db
  unfolding ingest dead_letter
  ingest-keeps d m now db db' k =
      let noted : Tables F = record db { inbox = db.inbox ++ ((d.event, group) ∷ []) } in
      let received = received_at m.time now in
      elim (Option-cases (outside.parse_time d.envelope.occurred_at)) [
        | inl bad ↦ elim (Option-cases (project outside d none received now noted)) [
          | inl refused ↦ ground arith
          | inr (after, done) ↦ ground arith
        ]
        | inr (t, read) ↦ elim (Option-cases (project outside d (some t) received now noted)) [
          | inl refused ↦ elim (Option-cases (project outside d none received now noted)) [
            | inl refused' ↦ ground arith
            | inr (after, done) ↦ ground arith
          ]
          | inr (after, done) ↦ elim (Option-cases (project outside d none received now noted)) [
            | inl refused' ↦ ground arith
            | inr (after', done') ↦ ground arith
          ]
        ]
      ]

  handle-seen :
      (v : Verdict F) (x : Delivery) (db : Tables F) (event : ℕ)
      → classify outside x.message ≡ v
      → is_seen event group db ≡ true
      → is_seen event group (handle outside group v x.message x.now db).1 ≡ true
  unfolding dead_letter
  handle-seen (rejected e event_type failure) x db event known seen = ground arith
  handle-seen (accepted d) x db event known seen =
      let (identified, dated) = classify-accepted outside x.message d known in
      let step = ingest outside group d x.message x.now db in
      elim (Bool-cases step.0) [
        | inr undone ↦
            ap (is_seen event group) (ingest-keeps d x.message x.now db step.1 (ground arith))
            ∙ seen
        | inl done ↦ elim (Bool-cases (is_seen d.event group db)) [
          | inl old ↦
              ap (is_seen event group)
                (sym (ingest-seen outside group d x.message x.now db step.1 old (ground arith)))
              ∙ seen
          | inr unseen ↦
              let inbox =
                (ingest-shown outside group "" d x.message x.now db step.1 unseen identified dated
                  (ground arith)).1 in
              let found =
                ap (any (is_entry event group)) inbox
                ∙ any-append (is_entry event group) db.inbox ((d.event, group) ∷ []) in
              ground arith
        ]
      ]

  deliver-seen :
      (xs : List Delivery) (db : Tables F) (event : ℕ)
      → is_seen event group db ≡ true
      → is_seen event group (deliver outside group xs db).1 ≡ true
  unfolding deliver process
  deliver-seen [] db event seen = seen
  deliver-seen (x ∷ xs) db event seen =
      deliver-seen xs (process outside group x.message x.now db).1 event
        (handle-seen (classify outside x.message) x db event refl seen)

  ingest-known :
      (d : Dispatch F) (m : Message) (now : ℕ) (db : Tables F)
      → is_seen d.event group db ≡ true
      → ingest outside group d m now db ≡ (true, db)
  unfolding ingest
  ingest-known d m now db seen = ground arith

  -- Once a message that the tests of process accept was processed without an error, every accepted
  -- message with its event identifier is processed without an error and changes no table, whatever
  -- deliveries came between.
  pub redelivery_changes_nothing :
      (d d' : Dispatch F) (m m' : Message) (now now' : ℕ) (xs : List Delivery) (db db' : Tables F)
      → classify outside m ≡ accepted d
      → classify outside m' ≡ accepted d'
      → d'.event ≡ d.event
      → process outside group m now db ≡ (true, db')
      → process outside group m' now' (deliver outside group xs db').1
        ≡ (true, (deliver outside group xs db').1)
  unfolding process
  redelivery_changes_nothing d d' m m' now now' xs db db' known known' same k =
      let (identified, dated) = classify-accepted outside m d known in
      let first = ap (λ v. handle outside group v m now db) (sym known) ∙ k in
      let later = (deliver outside group xs db').1 in
      let seen = deliver-seen xs db' d.event (ingest-noted d m now db db' identified dated first) in
      ap (λ v. handle outside group v m' now' later) known'
      ∙ ingest-known d' m' now' later (ap (λ e. is_seen e group later) same ∙ seen)

  handle-least :
      (v : Verdict F) (id : String) (x : Delivery) (db : Tables F)
      → classify outside x.message ≡ v
      → projected_version id db ≤ projected_version id (handle outside group v x.message x.now db).1
  unfolding dead_letter
  handle-least (rejected event event_type failure) id x db known = ground arith
  handle-least (accepted d) id x db known =
      let (identified, dated) = classify-accepted outside x.message d known in
      let step = ingest outside group d x.message x.now db in
      let before = projected_version-shown id db in
      let after = projected_version-shown id step.1 in
      elim (Bool-cases step.0) [
        | inl done ↦
            let k : step ≡ (true, step.1) = ground arith in
            elim (Bool-cases (is_seen d.event group db)) [
              | inl seen ↦
                  let same =
                    ap (projected_version id)
                      (ingest-seen outside group d x.message x.now db step.1 seen k) in
                  ground arith
              | inr unseen ↦
                  let entry =
                    ap version_shown
                      (ingest-shown outside group id d x.message x.now db step.1 unseen identified
                        dated k).0 in
                  let least = with_dispatch-least outside id d (projected id db) in ground arith
            ]
        | inr undone ↦
            let same =
              ap (projected_version id) (ingest-keeps d x.message x.now db step.1 (ground arith)) in
            ground arith
      ]

  -- Whatever messages are delivered, and whether they are processed, rejected or fail, the
  -- projected version of a task never falls.
  pub versions_never_fall :
      (xs : List Delivery) (id : String) (db : Tables F)
      → projected_version id db ≤ projected_version id (deliver outside group xs db).1
  unfolding deliver process
  versions_never_fall [] id db = ground arith
  versions_never_fall (x ∷ xs) id db =
      let step = process outside group x.message x.now db in
      let now_least = handle-least (classify outside x.message) id x db refl in
      let later = versions_never_fall xs id step.1 in ground arith
