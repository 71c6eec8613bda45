-- ===== src/Execution/Service/Replay.antt =====
-- Commands over the in-memory store: atomicity without a rollback, idempotent replay, and the event
-- of a change.
use pda_backend.Common.{
  String, ◌≡◌, ◌≢◌, ◌⊎◌, inl, inr, Option, none, some, List, [], ◌∷◌, ◌++◌, Option-cases, arith,
}
use pda_backend.Common.Table.{lookup, insert, lookup-insert_self, lookup-insert_other}
use pda_backend.Platform.{Error}
use pda_backend.Platform.Envelope.{validate}
use pda_backend.Execution.Task.{Task}
use pda_backend.Execution.Store.{
  Store, TaskEvent, IdempotencyResult, no_event, find, get_for_update, save, append,
  save_idempotency, invalidate_task_views,
}
use pda_backend.Execution.Service.{
  memory, Command, Reply, done, pending, refused, Fresh, task_event, record_change, first_time,
  in_transaction, mutate,
}

-- The task that a reply carries.
abbrev pub Carries : Reply → Task → Type 0
Carries (done t) u = t ≡ u
Carries (pending t) u = t ≡ u
Carries (refused e) u = ⊥

abbrev Remembers : Option IdempotencyResult → Task → Type 0
Remembers none t = ⊥
Remembers (some r) t = r.task ≡ t

-- What `mutate` opens to over the in-memory store.
replay_of_remembered :
    (refusal : TaskEvent → Option Error) (c : Command) (event_type : String) (fresh : Fresh)
    (transition : Task → Task × Option Error) (s : Store) (t : Task)
    → Remembers (lookup c.idempotency_key s.idempotency) t
    → mutate (memory refusal) c event_type fresh transition s ≡ (done t, s)
unfolding mutate in_transaction first_time record_change memory find get_for_update save append
    save_idempotency invalidate_task_views
replay_of_remembered refusal c event_type fresh transition s t h = ground arith

module _ (refusal : TaskEvent → Option Error) (c : Command) (event_type : String) (fresh : Fresh)
    (transition : Task → Task × Option Error) (s : Store) where
  abbrev pub after : Reply × Store
  after = mutate (memory refusal) c event_type fresh transition s

  -- A command that is refused leaves the in-memory store as it was, although the store rolls
  -- nothing back: every error comes before the first write.
  pub refused_changes_nothing : (e : Error) → after.0 ≡ refused e → after.1 ≡ s
  unfolding mutate in_transaction first_time record_change memory find get_for_update save append
      save_idempotency invalidate_task_views
  refused_changes_nothing e h = ground arith

  remembered :
      (t : Task) → Carries after.0 t → Remembers (lookup c.idempotency_key after.1.idempotency) t
  unfolding mutate in_transaction first_time record_change memory find get_for_update save append
      save_idempotency invalidate_task_views
  remembered t h = elim (Option-cases (lookup c.idempotency_key s.idempotency)) [
    | inr (r, e) ↦ ground arith
    | inl e ↦ elim (Option-cases (lookup c.task_id s.tasks)) [
      | inl missing ↦ ground arith
      | inr (u, found) ↦
          let v = (transition u).0 in
          ground (
            arith,
            lookup-insert_self c.idempotency_key (record { task = v; event = no_event })
                s.idempotency,
            lookup-insert_self c.idempotency_key
                (record { task = v; event = task_event c event_type fresh v }) s.idempotency,
          )
    ]
  ]

  -- What is remembered under a key stays so whatever command comes.
  mutate-keeps :
      (key : String) (r : IdempotencyResult)
      → lookup key s.idempotency ≡ some r
      → lookup key after.1.idempotency ≡ some r
  unfolding mutate in_transaction first_time record_change memory find get_for_update save append
      save_idempotency invalidate_task_views
  mutate-keeps key r found = elim (Option-cases (lookup c.idempotency_key s.idempotency)) [
    | inr (old, e) ↦ ground arith
    | inl e ↦
        let apart : c.idempotency_key ≢ key = λ same. ground (arith, same) in
        elim (Option-cases (lookup c.task_id s.tasks)) [
          | inl missing ↦ ground arith
          | inr (u, held) ↦
              let v = (transition u).0 in
              ground (
                arith,
                lookup-insert_other c.idempotency_key key (record { task = v; event = no_event })
                    s.idempotency apart,
                lookup-insert_other c.idempotency_key key
                    (record { task = v; event = task_event c event_type fresh v }) s.idempotency
                    apart,
              )
        ]
  ]

  -- An answered command replays the task under its key, or it is the first under its key and its
  -- task is the transition's: a task of the same version is not saved and no event appended; one of
  -- another version is saved, and one event of its identifier and version, which is well formed, is
  -- appended.
  abbrev pub Outcome : Task → Type 0
  Outcome t =
      ((r : IdempotencyResult) × (lookup c.idempotency_key s.idempotency ≡ some r)
        × (r.task ≡ t)
        × (after.1 ≡ s))
      ⊎ ((u : Task) × (lookup c.idempotency_key s.idempotency ≡ none)
          × (lookup c.task_id s.tasks ≡ some u)
          × (u.warehouse_id ≡ c.actor.warehouse_id)
          × (transition u ≡ (t, none))
          × (((t.version ≡ u.version) × (after.1.tasks ≡ s.tasks) × (after.1.outbox ≡ s.outbox))
              ⊎ ((t.version ≢ u.version)
                  × (after.1.tasks ≡ insert t.id t s.tasks)
                  × (after.1.outbox ≡ s.outbox ++ (task_event c event_type fresh t ∷ []))
                  × (validate (task_event c event_type fresh t) ≡ none))))

-- One command: its event type, what it takes from outside, its transition, and the publisher.
pub record Request : Type 0 where
  pub refusal : TaskEvent → Option Error
  pub command : Command
  pub event_type : String
  pub fresh : Fresh
  pub transition : Task → Task × Option Error

abbrev pub answer_to : Request → Store → Reply × Store
answer_to q = mutate (memory q.refusal) q.command q.event_type q.fresh q.transition

unfoldable pub serve : List Request → Store → Store
serve [] s = s
serve (q ∷ qs) s = serve qs (answer_to q s).1

serve-keeps :
    (qs : List Request) (s : Store) (key : String) (r : IdempotencyResult)
    → lookup key s.idempotency ≡ some r
    → lookup key (serve qs s).idempotency ≡ some r
unfolding serve
serve-keeps [] s key r found = found
serve-keeps (q ∷ qs) s key r found =
    serve-keeps qs (answer_to q s).1 key r
      (mutate-keeps q.refusal q.command q.event_type q.fresh q.transition s key r found)

serve-Remembers :
    (qs : List Request) (s : Store) (key : String) (t : Task)
    → Remembers (lookup key s.idempotency) t
    → Remembers (lookup key (serve qs s).idempotency) t
serve-Remembers qs s key t h = elim (Option-cases (lookup key s.idempotency)) [
  | inl none_yet ↦ absurd (rw none_yet at h)
  | inr (r, found) ↦ rw (serve-keeps qs s key r found) (rw found at h)
]

-- Once a command was answered with a task, every command under its idempotency key, whoever sends
-- it, whatever it asks for and whatever commands came between, is answered with that task, and
-- changes nothing.
pub replay :
    (q q' : Request) (qs : List Request) (s : Store) (t : Task)
    → Carries (answer_to q s).0 t
    → q'.command.idempotency_key ≡ q.command.idempotency_key
    → answer_to q' (serve qs (answer_to q s).1) ≡ (done t, serve qs (answer_to q s).1)
replay q q' qs s t h same =
    let then_s = (answer_to q s).1 in
    replay_of_remembered q'.refusal q'.command q'.event_type q'.fresh q'.transition
      (serve qs then_s) t
      (rw same (
        serve-Remembers qs then_s q.command.idempotency_key t
          (remembered q.refusal q.command q.event_type q.fresh q.transition s t h)))
