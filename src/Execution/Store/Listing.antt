-- ===== src/Execution/Store/Listing.antt =====
-- What the list behind the pages holds, and in which order.
use Prim.Native.Nat.{Ordering, compare as compare_ℕ}
use Prim.Native.Char.{code}
use Prim.Native.String.{compare, then as then_by}
use Prim.Native.String.compare
use text.Mathlib.Text.{is_lt}
use pda_backend.Common.{
  ℕ, suc, ◌+◌, ◌<◌, ◌≤◌, String, ◌≡◌, refl, ◌≢◌, inl, inr, Option, none, some, List, [], ◌∷◌, Bool,
  true, false, arith, eq_iff, ◌==◌, length, if◌then◌else◌, Bool-cases, ap, sym, ◌∙◌, subst,
}
use pda_backend.Common.Int64.{half}
use pda_backend.Common.Table.{lookup}
use pda_backend.Common.Rows.{first_where}
use pda_backend.Execution.Task.{Task}
use pda_backend.Execution.Store.{Store, TaskFilter, selected, keep, sort_by_id, insert_by_id}
use pda_backend.Execution.Store.Index.{
  Fresh, Distinct, IsIndexed, Absent, Named, keep-Distinct, keep-Fresh, sort-Fresh,
}
use pda_backend.Execution.Store.Pages.{IsCodec, browse, browse_sorted}

abbrev flip : Ordering → Ordering
flip Ordering.lt = Ordering.gt
flip Ordering.eq = Ordering.eq
flip Ordering.gt = Ordering.lt

flip-then : (o p : Ordering) → flip (then_by o p) ≡ then_by (flip o) (flip p)
flip-then Ordering.lt p = refl
flip-then Ordering.eq p = refl
flip-then Ordering.gt p = refl

flip-nat : (a b : ℕ) → compare_ℕ b a ≡ flip (compare_ℕ a b)
flip-nat a b = ground arith

flip-compare : (s t : String) → compare t s ≡ flip (compare s t)
flip-compare String.[] String.[] =
    let same : compare String.[] String.[] ≡ Ordering.eq = compare.nil-nil in
    same ∙ ap flip (sym same)
flip-compare String.[] (String.◌∷◌ d t) =
    let shorter : compare String.[] (String.◌∷◌ d t) ≡ Ordering.lt = compare.nil-cons d t in
    let longer : compare (String.◌∷◌ d t) String.[] ≡ Ordering.gt = compare.cons-nil d t in
    longer ∙ ap flip (sym shorter)
flip-compare (String.◌∷◌ c s) String.[] =
    let shorter : compare String.[] (String.◌∷◌ c s) ≡ Ordering.lt = compare.nil-cons c s in
    let longer : compare (String.◌∷◌ c s) String.[] ≡ Ordering.gt = compare.cons-nil c s in
    shorter ∙ ap flip (sym longer)
flip-compare (String.◌∷◌ c s) (String.◌∷◌ d t) =
    let there : compare (String.◌∷◌ d t) (String.◌∷◌ c s)
        ≡ then_by (compare_ℕ (code d) (code c)) (compare t s) =
      compare.cons-cons d c t s in
    let here : compare (String.◌∷◌ c s) (String.◌∷◌ d t)
        ≡ then_by (compare_ℕ (code c) (code d)) (compare s t) =
      compare.cons-cons c d s t in
    there
    ∙ ap (then_by (compare_ℕ (code d) (code c))) (flip-compare s t)
    ∙ ap (λ o. then_by o (flip (compare s t))) (flip-nat (code c) (code d))
    ∙ sym (flip-then (compare_ℕ (code c) (code d)) (compare s t))
    ∙ ap flip (sym here)

abbrev pub is_below : String → String → Bool
is_below s t = is_lt (compare s t)

above : (s t : String) → is_below s t ≡ false → s ≢ t → is_below t s ≡ true
above s t lower differ = ground (arith, flip-compare s t, eq_iff s t)

-- The identifiers rise, so that none is shown twice.
abbrev pub Rises : String → List Task → Type 0
Rises id [] = Unit
Rises id (t ∷ ts) = is_below id t.id ≡ true

abbrev pub Ascends : List Task → Type 0
Ascends [] = Unit
Ascends (t ∷ ts) = Rises t.id ts × Ascends ts

insert-Rises :
    (id : String) (t : Task) (ts : List Task)
    → is_below id t.id ≡ true
    → Rises id ts
    → Rises id (insert_by_id t ts)
unfolding insert_by_id
insert-Rises id t [] low h = low
insert-Rises id t (u ∷ us) low h = elim (Bool-cases (is_below t.id u.id)) [
  | inl first ↦ rw first low
  | inr later ↦ rw later h
]

insert-Ascends :
    (t : Task) (ts : List Task) → Fresh t.id ts → Ascends ts → Ascends (insert_by_id t ts)
unfolding insert_by_id
insert-Ascends t [] f h = (tt, tt)
insert-Ascends t (u ∷ us) f h = elim (Bool-cases (is_below t.id u.id)) [
  | inl first ↦ rw first (first, h)
  | inr later ↦
      let low = above t.id u.id later (λ same. f.0 (sym same)) in
      rw later (insert-Rises u.id t us low h.0, insert-Ascends t us f.1 h.1)
]

sort-Ascends : (ts : List Task) → Distinct ts → Ascends (sort_by_id ts)
unfolding sort_by_id
sort-Ascends [] d = tt
sort-Ascends (t ∷ ts) d =
    insert-Ascends t (sort_by_id ts) (sort-Fresh t.id ts d.0) (sort-Ascends ts d.1)

abbrev pub has_id : String → Task → Bool
has_id id t = t.id == id

fresh-none : (id : String) (ts : List Task) → Fresh id ts → first_where (has_id id) ts ≡ none
unfolding first_where
fresh-none id [] f = refl
fresh-none id (t ∷ ts) f = ground (arith, eq_iff t.id id, fresh-none id ts f.1)

insert-first :
    (id : String) (t : Task) (ts : List Task)
    → Fresh t.id ts
    → first_where (has_id id) (insert_by_id t ts) ≡ first_where (has_id id) (t ∷ ts)
unfolding first_where insert_by_id
insert-first id t [] f = refl
insert-first id t (u ∷ us) f =
    ground (arith, eq_iff t.id id, eq_iff u.id id, eq_iff u.id t.id, insert-first id t us f.1)

sort-first :
    (id : String) (ts : List Task)
    → Distinct ts
    → first_where (has_id id) (sort_by_id ts) ≡ first_where (has_id id) ts
unfolding sort_by_id first_where
sort-first id [] d = refl
sort-first id (t ∷ ts) d =
    ground (arith, insert-first id t (sort_by_id ts) (sort-Fresh t.id ts d.0), sort-first id ts d.1)

-- The task of the map under an identifier, if the filter selects it.
abbrev pub kept_by : (Task → Bool) → Option Task → Option Task
kept_by p none = none
kept_by p (some t) = if p t then some t else none

keep-first :
    (p : Task → Bool) (id : String) (m : List (String × Task))
    → IsIndexed m
    → first_where (has_id id) (keep p m) ≡ kept_by p (lookup id m)
unfolding first_where keep lookup
keep-first p id [] h = refl
keep-first p id ((k, t) ∷ m) h = elim (Bool-cases (k == id)) [
  | inl hit ↦
      let key = (eq_iff k id).0 hit in
      let absent =
        fresh-none id (keep p m) (keep-Fresh id p m h.2 (subst (λ x. Absent x m) key h.1)) in
      ground (arith, eq_iff t.id id)
  | inr miss ↦ ground (arith, eq_iff k id, eq_iff t.id id, keep-first p id m h.2)
]

insert-length : (t : Task) (ts : List Task) → length (insert_by_id t ts) ≡ suc (length ts)
unfolding insert_by_id
insert-length t [] = refl
insert-length t (u ∷ us) = ground (arith, insert-length t us)

sort-length : (ts : List Task) → length (sort_by_id ts) ≡ length ts
unfolding sort_by_id
sort-length [] = refl
sort-length (t ∷ ts) = omega (arith, insert-length t (sort_by_id ts), sort-length ts)

keep-length : (p : Task → Bool) (m : List (String × Task)) → length (keep p m) ≤ length m
unfolding keep
keep-length p [] = omega arith
keep-length p ((k, t) ∷ m) = ground (arith, keep-length p m)

-- A device that follows the cursors of List from the first page receives a list of tasks in at most
-- one request more than it has elements. Its identifiers rise strictly in the order of texts, and
-- under each identifier it has exactly the task that the store has under it, if the filter selects
-- that. Each task of the store stands under its own identifier, which is not empty; the limit is
-- positive and no size overflows; the cursor's coding is read back, and only the empty text is
-- coded as one.
pub browse_all :
    (encode : String → String) (decode : String → Option String)
    → IsCodec encode decode
    → (f : TaskFilter) (s : Store) → IsIndexed s.tasks
    → Named s.tasks
    → 0 < f.limit
    → length s.tasks + f.limit < half
    → (items : List Task) × (browse encode decode f s (suc (length items)) "" ≡ some items)
      × Ascends items
      × ((id : String) → first_where (has_id id) items ≡ kept_by (selected f) (lookup id s.tasks))
browse_all encode decode codec f s d e p q =
    let chosen = keep (selected f) s.tasks in
    let distinct = keep-Distinct (selected f) s.tasks d in
    let room : length (sort_by_id chosen) + f.limit < half =
      omega (arith, sort-length chosen, keep-length (selected f) s.tasks) in
    (
      sort_by_id chosen,
      browse_sorted encode decode codec f s d e p room,
      sort-Ascends chosen distinct,
      λ id. sort-first id chosen distinct ∙ keep-first (selected f) id s.tasks d,
    )
