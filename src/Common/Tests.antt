-- ===== src/Common/Tests.antt =====
-- Boolean tests on the native numbers, the conditional, and case splits that keep the equation.
use Prim.Native.Nat.{ℕ, compare, Ordering}
use Prim.Native.String.{String}
use mathlib.Core.Path.{◌≡◌, refl, ap}
use mathlib.Core.Logic.{◌⊎◌, inl, inr}
use mathlib.Core.Bool.{Bool, true, false}
use mathlib.Core.Option.{Option, none, some}
use native.Mathlib.Omega.{arith}
use text.Mathlib.Text.{◌==◌}
use text.Mathlib.TextEquality.{eq_iff}
use text.Mathlib.TextPositions.{eq_refl}

abbrev pub ltb : ℕ → ℕ → Bool
ltb a b = elim (compare a b) [ Ordering.lt ↦ true | _ ↦ false ]

abbrev pub leb : ℕ → ℕ → Bool
leb a b = elim (compare a b) [ Ordering.gt ↦ false | _ ↦ true ]

abbrev pub eqb : ℕ → ℕ → Bool
eqb a b = elim (compare a b) [ Ordering.eq ↦ true | _ ↦ false ]

infix 1 if◌then◌else◌
abbrev pub if◌then◌else◌ {ℓ} : {A : Type ℓ} → Bool → A → A → A
if true then x else y = x
if false then x else y = y

pub Bool-cases : (b : Bool) → (b ≡ true) ⊎ (b ≡ false)
Bool-cases true = inl refl
Bool-cases false = inr refl

pub Option-cases {ℓ} : {A : Type ℓ} (o : Option A) → (o ≡ none) ⊎ ((a : A) × (o ≡ some a))
Option-cases none = inl refl
Option-cases (some a) = inr (a, refl)

-- The test `p != nil && *p == s` on an optional text.
abbrev pub holds : Option String → String → Bool
holds none s = false
holds (some t) s = t == s

-- The test `p != nil && *p != s`.
abbrev pub held_by_other : Option String → String → Bool
held_by_other none s = false
held_by_other (some t) s = if t == s then false else true

pub holds→eq : (o : Option String) (s : String) → holds o s ≡ true → o ≡ some s
holds→eq none s h = cc
holds→eq (some t) s h = ap some ((eq_iff t s).0 h)

pub holds_self : (s : String) → holds (some s) s ≡ true
holds_self s = eq_refl s

-- Whoever is not another holder holds the thing, unless nobody does.
pub held_by_other-false :
    (o : Option String) (s : String) → held_by_other o s ≡ false → (o ≡ none) ⊎ (o ≡ some s)
held_by_other-false none s h = inl refl
held_by_other-false (some t) s h = inr (ap some ((eq_iff t s).0 (ground arith)))
