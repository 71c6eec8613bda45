-- ===== src/Execution/Store/Pages.antt =====
-- The pages of `List`: a device that follows the cursors sees every selected task once.
use native.Mathlib.Nat.{zero-add, suc-add}
use pda_backend.Common.{
  ℕ, suc, zero, ◌+◌, ◌-◌, ◌<◌, ◌≤◌, String, ◌≡◌, refl, ◌≢◌, inl, inr, Option, none, some, List, [],
  ◌∷◌, ◌++◌, false, arith, eq_iff, ◌==◌, length, if◌then◌else◌, Bool-cases, ap, ltb, subst,
}
use pda_backend.Common.Int64.{half, lt_i64, lt_i64-ltb, add_i64}
use pda_backend.Platform.{Result, ok, err}
use pda_backend.Execution.Task.{Task}
use pda_backend.Execution.Store.Index.{
  Fresh, Distinct, IsIndexed, Named, keep-Distinct, keep-Named, sort-Distinct, sort-Fresh,
}
use pda_backend.Execution.Store.{
  Store, TaskFilter, TaskPage, selected, keep, sort_by_id, start_after, drop, take, last_id,
  page_from, list,
}

drop-all : (n : ℕ) (ts : List Task) → length ts ≤ n → drop n ts ≡ []
unfolding drop
drop-all zero [] h = refl
drop-all zero (t ∷ ts) h = absurd (omega arith)
drop-all (suc n) [] h = refl
drop-all (suc n) (t ∷ ts) h = drop-all n ts (omega arith)

take-all : (n : ℕ) (ts : List Task) → length ts ≤ n → take n ts ≡ ts
unfolding take
take-all zero [] h = refl
take-all zero (t ∷ ts) h = absurd (omega arith)
take-all (suc n) [] h = refl
take-all (suc n) (t ∷ ts) h = ap (◌∷◌ t) (take-all n ts (omega arith))

take-append-drop : (n : ℕ) (ts : List Task) → take n ts ++ drop n ts ≡ ts
unfolding take drop
take-append-drop zero ts = refl
take-append-drop (suc n) [] = refl
take-append-drop (suc n) (t ∷ ts) = ap (◌∷◌ t) (take-append-drop n ts)

drop-zero : (ts : List Task) → drop 0 ts ≡ ts
unfolding drop
drop-zero ts = refl

drop-add : (i n : ℕ) (ts : List Task) → drop (i + n) ts ≡ drop n (drop i ts)
unfolding drop
drop-add zero n ts = rw zero-add
drop-add (suc i) zero [] = rw suc-add
drop-add (suc i) (suc n) [] = rw suc-add
drop-add (suc i) n (t ∷ ts) = rw suc-add (drop-add i n ts)

-- The last identifier of a non-empty beginning is not that of a task further down.
last_id-fresh :
    (id : String) (n : ℕ) (ts : List Task)
    → Fresh id ts
    → n < length ts
    → last_id (take (suc n) ts) ≢ id
unfolding last_id take
last_id-fresh id zero (t ∷ ts) f h = f.0
last_id-fresh id (suc n) (t ∷ []) f h = absurd (omega arith)
last_id-fresh id (suc n) (t ∷ u ∷ us) f h = last_id-fresh id n (u ∷ us) f.1 (omega arith)
last_id-fresh id n [] f h = absurd (omega arith)

-- The search for a cursor made from the first n + 1 tasks ends behind them.
start_after-last_id :
    (i n : ℕ) (ts : List Task)
    → Distinct ts
    → n < length ts
    → start_after (last_id (take (suc n) ts)) i ts ≡ i + suc n
unfolding start_after last_id take
start_after-last_id i zero (t ∷ ts) d h = ground (arith, eq_iff t.id t.id)
start_after-last_id i (suc n) (t ∷ []) d h = absurd (omega arith)
start_after-last_id i (suc n) (t ∷ u ∷ us) d h = ground (
  arith,
  eq_iff t.id (last_id (take (suc n) (u ∷ us))),
  last_id-fresh t.id n (u ∷ us) d.0,
  start_after-last_id (i + 1) n (u ∷ us) d.1,
)
start_after-last_id i n [] d h = absurd (omega arith)

-- The base64 of a cursor is read back, and only the empty text is written as one.
pub record IsCodec (encode : String → String) (decode : String → Option String) : Type 0 where
  pub read_back : (s : String) → decode (encode s) ≡ some s
  pub not_empty : (s : String) → s ≢ "" → encode s ≢ ""

abbrev then_browse : Option String → (String → Option (List Task)) → List Task → Option (List Task)
then_browse none rest items = some items
then_browse (some c) rest items = elim (rest c) [ none ↦ none | some more ↦ some (items ++ more) ]

abbrev on_page : Result TaskPage → (String → Option (List Task)) → Option (List Task)
on_page (err e) rest = none
on_page (ok p) rest = then_browse p.next_cursor rest p.items

-- What a device does: it asks for the page at `cursor` and goes on while a cursor comes back.
module _ (encode : String → String) (decode : String → Option String) (f : TaskFilter)
    (s : Store) where
  pub browse : ℕ → String → Option (List Task)
  browse zero cursor = none
  browse (suc n) cursor = on_page (list encode decode (record f { cursor = cursor }) s) (browse n)

length-drop : (n : ℕ) (ts : List Task) → length (drop n ts) ≡ length ts - n
unfolding drop
length-drop zero ts = omega arith
length-drop (suc n) [] = omega arith
length-drop (suc n) (t ∷ ts) = omega (arith, length-drop n ts)

-- The page at an index within the list, where nothing overflows.
page_from_lem :
    (encode : String → String) (limit start : ℕ) (ts : List Task)
    → 0 < limit
    → start ≤ length ts
    → length ts + limit < half
    → page_from encode limit start ts ≡ (
        if ltb (start + limit) (length ts)
        then ok (record {
          items = take limit (drop start ts);
          next_cursor = some (encode (last_id (take (start + limit) ts)));
        })
        else ok (record { items = drop start ts; next_cursor = none }))
unfolding page_from
page_from_lem encode limit start ts p q r =
    let no_wrap : add_i64 start limit ≡ start + limit = omega arith in
    let past : lt_i64 (length ts) (start + limit) ≡ ltb (length ts) (start + limit) =
      lt_i64-ltb (length ts) (start + limit) (omega arith) (omega arith) in
    let short : lt_i64 (start + limit) (length ts) ≡ ltb (start + limit) (length ts) =
      lt_i64-ltb (start + limit) (length ts) (omega arith) (omega arith) in
    let not_before : lt_i64 (start + limit) start ≡ false = ground arith in
    let not_before' : lt_i64 (length ts) start ≡ false = ground arith in
    let same : lt_i64 (length ts) (length ts) ≡ false = ground arith in
    let span : start + limit - start ≡ limit = omega arith in
    let rest = take-all (length ts - start) (drop start ts) (omega (arith, length-drop start ts)) in
    ground arith

module _ (encode : String → String) (decode : String → Option String)
    (codec : IsCodec encode decode) (f : TaskFilter) (s : Store) where
  abbrev values : List Task
  values = sort_by_id (keep (selected f) s.tasks)

  same_selection : (c : String) → selected (record f { cursor = c }) ≡ selected f
  unfolding selected
  same_selection c = refl

  -- The page that a cursor made from the first n + 1 tasks asks for.
  list-cursor :
      (n : ℕ)
      → Distinct values
      → Fresh "" values
      → n < length values
      → list encode decode (record f { cursor = encode (last_id (take (suc n) values)) }) s
        ≡ page_from encode f.limit (suc n) values
  unfolding list
  list-cursor n d e h =
      let id : String = last_id (take (suc n) values) in
      let used : (encode id == "") ≡ false =
        ground (arith, eq_iff (encode id) "", codec.not_empty id, last_id-fresh "" n values e h) in
      rw (used, codec.read_back id, same_selection (encode id), start_after-last_id 0 n values d h)
        (rw zero-add)

  -- What the pages from an index on hold.
  browse_from :
      (fuel n : ℕ)
      → Distinct values
      → Fresh "" values
      → 0 < f.limit
      → length values + f.limit < half
      → n < length values
      → length values ≤ fuel + n
      → browse encode decode f s fuel (encode (last_id (take (suc n) values)))
        ≡ some (drop (suc n) values)
  unfolding browse
  browse_from zero n d e p q h k = absurd (omega arith)
  browse_from (suc fuel) n d e p q h k =
      rw (list-cursor n d e h, page_from_lem encode f.limit (suc n) values p (omega arith) q)
        (elim (Bool-cases (ltb (suc n + f.limit) (length values))) [
          | inl more ↦
              let later = browse_from fuel (n + f.limit) d e p q (ground arith) (omega arith) in
              rw (more, suc-add, later, then_browse, ← suc-add, drop-add (suc n) f.limit values)
                (ap some (take-append-drop f.limit (drop (suc n) values)))
          | inr last ↦ rw last
        ])

  browse_step :
      (n : ℕ) (cursor : String)
      → browse encode decode f s (suc n) cursor
        ≡ on_page (list encode decode (record f { cursor = cursor }) s) (browse encode decode f s n)
  unfolding browse
  browse_step n cursor = refl

  first_page : list encode decode (record f { cursor = "" }) s ≡ page_from encode f.limit 0 values
  unfolding list
  first_page = rw (same_selection "")

  browse-values :
      Distinct values
      → Fresh "" values
      → 0 < f.limit
      → length values + f.limit < half
      → browse encode decode f s (suc (length values)) "" ≡ some values
  browse-values d e p q =
      rw (browse_step, first_page, page_from_lem encode f.limit 0 values p (omega arith) q)
        (elim (Bool-cases (ltb (0 + f.limit) (length values))) [
          | inl more ↦
              let split : suc (f.limit - 1) ≡ f.limit = omega arith in
              let later =
                subst
                  (λ k.
                    browse encode decode f s (length values) (encode (last_id (take k values)))
                    ≡ some (drop k values))
                  split
                  (browse_from (length values) (f.limit - 1) d e p q (ground arith)
                    (ground arith)) in
              rw (more, zero-add, later, then_browse, drop-zero values)
                (ap some (take-append-drop f.limit values))
          | inr last ↦ rw (last, drop-zero values)
        ])

  -- A device that follows the cursors of List from the first page is shown the sorted selection.
  pub browse_sorted :
      IsIndexed s.tasks
      → Named s.tasks
      → 0 < f.limit
      → length values + f.limit < half
      → browse encode decode f s (suc (length values)) "" ≡ some values
  browse_sorted d e p q =
      browse-values (sort-Distinct _ (keep-Distinct (selected f) s.tasks d))
        (sort-Fresh "" _ (keep-Named (selected f) s.tasks e)) p q
