-- ===== src/Execution/Service/Access.antt =====
-- Who may read what through the service.
use pda_backend.Common.{
  ℕ, String, ◌≡◌, refl, ◌⊎◌, inl, inr, Option, none, some, List, [], ◌∷◌, true, arith, eq_iff, ◌==◌,
  All, if◌then◌else◌, held_by_other-false, length, Bool-cases, Option-cases, ◌||◌, ◌-◌,
}
use pda_backend.Common.Int64.{add_i64, lt_i64}
use pda_backend.Platform.{ok, Actor}
use pda_backend.Execution.Task.{Task}
use pda_backend.Execution.Store
use pda_backend.Execution.Store.{
  Store, TaskFilter, TaskPage, selected, keep, sort_by_id, insert_by_id, take, drop, start_after,
  page_from,
}
use pda_backend.Execution.Service.{list_tasks}

-- A task of the actor's warehouse that nobody holds, or the actor does.
abbrev pub IsVisible : Actor → Task → Type 0
IsVisible a t =
    (t.warehouse_id ≡ a.warehouse_id)
    × ((t.operator_id ≡ none) ⊎ (t.operator_id ≡ some a.operator_id))

module _ (P : Task → Type 0) where
  insert_by_id-All : (t : Task) (ts : List Task) → P t → All P ts → All P (insert_by_id t ts)
  unfolding insert_by_id
  insert_by_id-All t [] p h = (p, tt)
  insert_by_id-All t (u ∷ us) p h = ground (arith, insert_by_id-All t us p h.1)

  sort_by_id-All : (ts : List Task) → All P ts → All P (sort_by_id ts)
  unfolding sort_by_id
  sort_by_id-All [] h = tt
  sort_by_id-All (t ∷ ts) h = insert_by_id-All t (sort_by_id ts) h.0 (sort_by_id-All ts h.1)

  take-All : (n : ℕ) (ts : List Task) → All P ts → All P (take n ts)
  unfolding take
  take-All ℕ.zero ts h = tt
  take-All (ℕ.suc n) [] h = tt
  take-All (ℕ.suc n) (t ∷ ts) h = (h.0, take-All n ts h.1)

  drop-All : (n : ℕ) (ts : List Task) → All P ts → All P (drop n ts)
  unfolding drop
  drop-All ℕ.zero ts h = h
  drop-All (ℕ.suc n) [] h = tt
  drop-All (ℕ.suc n) (t ∷ ts) h = drop-All n ts h.1

selected-IsVisible :
    (f : TaskFilter) (a : Actor) (t : Task)
    → f.warehouse_id ≡ a.warehouse_id
    → f.operator_id ≡ a.operator_id
    → selected f t ≡ true
    → IsVisible a t
unfolding selected
selected-IsVisible f a t w o h =
    ground
      (arith, eq_iff t.warehouse_id f.warehouse_id, held_by_other-false t.operator_id f.operator_id)

keep-All :
    (P : Task → Type 0) (f : TaskFilter) (m : List (String × Task))
    → ((t : Task) → selected f t ≡ true → P t)
    → All P (keep (selected f) m)
unfolding keep
keep-All P f [] h = tt
keep-All P f ((k, t) ∷ m) h = ground (arith, h t, keep-All P f m h)

page_from-All :
    (P : Task → Type 0) (encode : String → String) (limit start : ℕ) (ts : List Task) (p : TaskPage)
    → All P ts
    → page_from encode limit start ts ≡ ok p
    → All P p.items
unfolding page_from
page_from-All P encode limit start ts p h e =
    let kept = λ (n : ℕ). take-All P n (drop start ts) (drop-All P start ts h) in
    ground (arith, kept (length ts - start), kept (add_i64 start limit - start))

list-All :
    (P : Task → Type 0) (encode : String → String) (decode : String → Option String)
    (f : TaskFilter) (s : Store) (p : TaskPage)
    → ((t : Task) → selected f t ≡ true → P t)
    → Store.list encode decode f s ≡ ok p
    → All P p.items
unfolding Store.list
list-All P encode decode f s p h e =
    let values = sort_by_id (keep (selected f) s.tasks) in
    let kept : All P values = sort_by_id-All P _ (keep-All P f s.tasks h) in
    elim (Option-cases (decode f.cursor)) [
      | inl bad ↦ ground (arith, page_from-All P encode f.limit 0 values p kept)
      | inr (id, good) ↦ ground (
        arith,
        page_from-All P encode f.limit 0 values p kept,
        page_from-All P encode f.limit (start_after id 0 values) values p kept,
      )
    ]

-- Whatever a page of the service shows was visible to the actor who asked: a task of the actor's
-- warehouse that nobody holds, or the actor does, whatever operator the filter named.
pub list_tasks-IsVisible :
    (encode : String → String) (decode : String → Option String) (f : TaskFilter) (a : Actor)
    (s : Store) (p : TaskPage)
    → list_tasks encode decode f a s ≡ ok p
    → All (IsVisible a) p.items
unfolding list_tasks
list_tasks-IsVisible encode decode f a s p e =
    elim (Bool-cases (f.warehouse_id == a.warehouse_id)) [
      | inl same ↦
          list-All (IsVisible a) encode decode
            (record f {
              operator_id = a.operator_id;
              limit = if lt_i64 f.limit 1 || lt_i64 100 f.limit then 20 else f.limit;
            })
            s p (λ t. selected-IsVisible _ a t ((eq_iff f.warehouse_id a.warehouse_id).0 same) refl)
            (ground arith)
      | inr other ↦ ground arith
    ]
