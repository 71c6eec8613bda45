-- ===== src/Common/Rows.antt =====
-- A table as the list of its rows: `SELECT … WHERE` of the first row, and `UPDATE … WHERE`.
use mathlib.Core.Path.{◌≡◌, refl, sym, ap, ◌∙◌, subst}
use mathlib.Core.Logic.{inl, inr}
use mathlib.Core.Bool.{Bool, true, false}
use mathlib.Core.Option.{Option, none, some}
use mathlib.Core.List.{List, [], ◌∷◌, ◌++◌}
use native.Mathlib.Omega.{arith}
use pda_backend.Common.Tests.{if◌then◌else◌, Bool-cases, Option-cases}
use pda_backend.Common.Lists.{any}

module _ {ℓ} {A : Type ℓ} where
  unfoldable pub first_where : (A → Bool) → List A → Option A
  first_where p [] = none
  first_where p (row ∷ rows) = let later = first_where p rows in if p row then some row else later

  unfoldable pub update_where : (A → Bool) → (A → A) → List A → List A
  update_where p f [] = []
  update_where p f (row ∷ rows) = (if p row then f row else row) ∷ update_where p f rows

  abbrev pub changed : (A → Bool) → (A → A) → Option A → Option A
  changed q f none = none
  changed q f (some row) = some (if q row then f row else row)

  pub first_where-append :
      (p : A → Bool) (rows : List A) (row new : A)
      → first_where p rows ≡ some row
      → first_where p (rows ++ (new ∷ [])) ≡ some row
  unfolding first_where
  first_where-append p [] row new h = ground arith
  first_where-append p (r ∷ rows) row new h = ground (arith, first_where-append p rows row new)

  -- A change that keeps what is selected by commutes with the selection.
  pub first_where-update :
      (p q : A → Bool) (f : A → A) (rows : List A)
      → ((row : A) → p (f row) ≡ p row)
      → first_where p (update_where q f rows) ≡ changed q f (first_where p rows)
  unfolding first_where update_where
  first_where-update p q f [] h = refl
  first_where-update p q f (r ∷ rows) h = ground (arith, h r, first_where-update p q f rows h)

  -- Whether the first row that `p` selects satisfies `P`.
  abbrev pub satisfies : (A → Bool) → Option A → Bool
  satisfies P none = false
  satisfies P (some row) = P row

  abbrev pub holds_first : (p P : A → Bool) → List A → Bool
  holds_first p P rows = satisfies P (first_where p rows)

  pub holds_first-append :
      (p P : A → Bool) (rows : List A) (new : A)
      → holds_first p P rows ≡ true
      → holds_first p P (rows ++ (new ∷ [])) ≡ true
  holds_first-append p P rows new h = elim (Option-cases (first_where p rows)) [
    | inl missing ↦ ground arith
    | inr (row, found) ↦ ground (arith, first_where-append p rows row new found)
  ]

  pub holds_first-update :
      (p P q : A → Bool) (f : A → A) (rows : List A)
      → ((row : A) → p (f row) ≡ p row)
      → ((row : A) → P row ≡ true → P (f row) ≡ true)
      → holds_first p P rows ≡ true
      → holds_first p P (update_where q f rows) ≡ true
  holds_first-update p P q f rows same keeps h = elim (Option-cases (first_where p rows)) [
    | inl missing ↦ ground arith
    | inr (row, found) ↦ elim (Bool-cases (q row)) [
      | inl hit ↦
          ground (
            arith,
            first_where-update p q f rows same,
            keeps row (sym (ap (satisfies P) found) ∙ h),
          )
      | inr miss ↦ ground (arith, first_where-update p q f rows same)
    ]
  ]

  pub first_where-selects :
      (p : A → Bool) (rows : List A) (row : A) → first_where p rows ≡ some row → p row ≡ true
  unfolding first_where
  first_where-selects p [] row h = ground arith
  first_where-selects p (r ∷ rows) row h = elim (Bool-cases (p r)) [
    | inl hit ↦ subst (λ o. satisfies p o ≡ true) h (ground arith)
    | inr miss ↦ ground (arith, first_where-selects p rows row)
  ]

  pub first_where-appended :
      (p : A → Bool) (rows : List A) (new : A)
      → any p rows ≡ false
      → p new ≡ true
      → first_where p (rows ++ (new ∷ [])) ≡ some new
  unfolding first_where
  first_where-appended p [] new none_before hit = ground arith
  first_where-appended p (r ∷ rows) new none_before hit =
      ground (arith, first_where-appended p rows new)

  pub first_where-new :
      (p : A → Bool) (rows : List A) (new : A)
      → first_where p rows ≡ none
      → p new ≡ true
      → first_where p (rows ++ (new ∷ [])) ≡ some new
  unfolding first_where
  first_where-new p [] new absent hit = ground arith
  first_where-new p (r ∷ rows) new absent hit = ground (arith, first_where-new p rows new)
