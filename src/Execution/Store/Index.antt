-- ===== src/Execution/Store/Index.antt =====
-- The map of tasks by identifier: what is written stays indexed by its own identifier.
use pda_backend.Common.{
  String, ◌≡◌, refl, ◌≢◌, inl, inr, List, [], ◌∷◌, Bool, arith, eq_iff, ◌==◌, All, Bool-cases, sym,
  subst,
}
use pda_backend.Common.Table.{insert}
use pda_backend.Execution.Task.{Task}
use pda_backend.Execution.Store.{Store, keep, sort_by_id, insert_by_id, index_tasks, new, save}

abbrev pub Fresh : String → List Task → Type 0
Fresh id = All (λ t. t.id ≢ id)

abbrev pub Distinct : List Task → Type 0
Distinct [] = Unit
Distinct (t ∷ ts) = Fresh t.id ts × Distinct ts

abbrev pub Absent : String → List (String × Task) → Type 0
Absent id = All (λ e. e.0 ≢ id)

-- Each task stands under its own identifier, and under no other key.
abbrev pub IsIndexed : List (String × Task) → Type 0
IsIndexed [] = Unit
IsIndexed ((k, t) ∷ m) = (k ≡ t.id) × Absent k m × IsIndexed m

-- No task has the empty identifier.
abbrev pub Named : List (String × Task) → Type 0
Named = All (λ e. e.1.id ≢ "")

insert-Absent :
    (k id : String) (t : Task) (m : List (String × Task))
    → k ≢ id
    → Absent id m
    → Absent id (insert k t m)
unfolding insert
insert-Absent k id t [] h a = (h, tt)
insert-Absent k id t ((j, u) ∷ m) h a = ground (arith, insert-Absent k id t m h a.1)

pub insert-IsIndexed :
    (t : Task) (m : List (String × Task)) → IsIndexed m → IsIndexed (insert t.id t m)
unfolding insert
insert-IsIndexed t [] h = (refl, tt, tt)
insert-IsIndexed t ((j, u) ∷ m) h = elim (Bool-cases (j == t.id)) [
  | inl same ↦ rw same (refl, subst (λ x. Absent x m) ((eq_iff j t.id).0 same) h.1, h.2)
  | inr other ↦
      let differ : t.id ≢ j = ground (arith, eq_iff j t.id) in
      rw other (h.0, insert-Absent t.id j t m differ h.1, insert-IsIndexed t m h.2)
]

pub keep-Fresh :
    (id : String) (p : Task → Bool) (m : List (String × Task))
    → IsIndexed m
    → Absent id m
    → Fresh id (keep p m)
unfolding keep
keep-Fresh id p [] h a = tt
keep-Fresh id p ((k, t) ∷ m) h a = ground (arith, keep-Fresh id p m h.2 a.1)

pub keep-Distinct : (p : Task → Bool) (m : List (String × Task)) → IsIndexed m → Distinct (keep p m)
unfolding keep
keep-Distinct p [] h = tt
keep-Distinct p ((k, t) ∷ m) h =
    ground (arith, keep-Distinct p m h.2, keep-Fresh t.id p m h.2 (subst (λ x. Absent x m) h.0 h.1))

pub keep-Named : (p : Task → Bool) (m : List (String × Task)) → Named m → Fresh "" (keep p m)
unfolding keep
keep-Named p [] h = tt
keep-Named p ((k, t) ∷ m) h = ground (arith, keep-Named p m h.1)

insert_by_id-Fresh :
    (id : String) (t : Task) (ts : List Task)
    → t.id ≢ id
    → Fresh id ts
    → Fresh id (insert_by_id t ts)
unfolding insert_by_id
insert_by_id-Fresh id t [] h f = (h, tt)
insert_by_id-Fresh id t (u ∷ us) h f = ground (arith, insert_by_id-Fresh id t us h f.1)

insert_by_id-Distinct :
    (t : Task) (ts : List Task) → Fresh t.id ts → Distinct ts → Distinct (insert_by_id t ts)
unfolding insert_by_id
insert_by_id-Distinct t [] f d = (tt, tt)
insert_by_id-Distinct t (u ∷ us) f d =
    ground (
      arith,
      insert_by_id-Distinct t us f.1 d.1,
      insert_by_id-Fresh u.id t us (λ e. f.0 (sym e)) d.0,
    )

pub sort-Fresh : (id : String) (ts : List Task) → Fresh id ts → Fresh id (sort_by_id ts)
unfolding sort_by_id
sort-Fresh id [] f = tt
sort-Fresh id (t ∷ ts) f = insert_by_id-Fresh id t (sort_by_id ts) f.0 (sort-Fresh id ts f.1)

pub sort-Distinct : (ts : List Task) → Distinct ts → Distinct (sort_by_id ts)
unfolding sort_by_id
sort-Distinct [] d = tt
sort-Distinct (t ∷ ts) d =
    insert_by_id-Distinct t (sort_by_id ts) (sort-Fresh t.id ts d.0) (sort-Distinct ts d.1)

-- Every store that is made from a list of tasks is indexed, and saving a task keeps it so.
index_tasks-IsIndexed :
    (ts : List Task) (m : List (String × Task)) → IsIndexed m → IsIndexed (index_tasks ts m)
unfolding index_tasks
index_tasks-IsIndexed [] m h = h
index_tasks-IsIndexed (t ∷ ts) m h =
    index_tasks-IsIndexed ts (insert t.id t m) (insert-IsIndexed t m h)

pub new-IsIndexed : (ts : List Task) → IsIndexed (new ts).tasks
unfolding new
new-IsIndexed ts = index_tasks-IsIndexed ts [] tt

pub save-IsIndexed : (t : Task) (s : Store) → IsIndexed s.tasks → IsIndexed (save t s).1.tasks
unfolding save
save-IsIndexed t s h = insert-IsIndexed t s.tasks h
