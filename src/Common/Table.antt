-- ===== src/Common/Table.antt =====
-- A Go map with text keys, as an association list with one entry for each key that was written.
use Prim.Native.String.{String}
use mathlib.Core.Path.{◌≡◌}
use mathlib.Core.Logic.{◌≢◌}
use mathlib.Core.Option.{Option, none, some}
use mathlib.Core.List.{List, [], ◌∷◌}
use native.Mathlib.Omega.{arith}
use text.Mathlib.Text.{◌==◌}
use text.Mathlib.TextEquality.{eq_iff}
use text.Mathlib.TextPositions.{eq_refl}
use pda_backend.Common.Tests.{if◌then◌else◌}

-- `table[key]` with its `ok`
unfoldable pub lookup {ℓ} : {A : Type ℓ} → String → List (String × A) → Option A
lookup key [] = none
lookup key (entry ∷ others) =
    let deeper = lookup key others in if entry.0 == key then some entry.1 else deeper

-- `table[key] = value`
unfoldable pub insert {ℓ} : {A : Type ℓ} → String → A → List (String × A) → List (String × A)
insert key value [] = (key, value) ∷ []
insert key value (entry ∷ others) =
    let deeper = entry ∷ insert key value others in
    if entry.0 == key then (key, value) ∷ others else deeper

pub lookup-insert_self {ℓ} :
    {A : Type ℓ} (key : String) (value : A) (table : List (String × A))
    → lookup key (insert key value table) ≡ some value
unfolding lookup insert
lookup-insert_self key value [] = ground (arith, eq_refl key)
lookup-insert_self key value (entry ∷ others) =
    ground (arith, eq_refl key, eq_iff entry.0 key, lookup-insert_self key value others)

pub lookup-insert_other {ℓ} :
    {A : Type ℓ} (key other : String) (value : A) (table : List (String × A))
    → key ≢ other
    → lookup other (insert key value table) ≡ lookup other table
unfolding lookup insert
lookup-insert_other key other value [] h = ground (arith, eq_iff key other)
lookup-insert_other key other value (entry ∷ others) h = ground (
  arith,
  eq_iff key other,
  eq_iff entry.0 key,
  eq_iff entry.0 other,
  lookup-insert_other key other value others h,
)
