-- ===== src/Common/Lists.antt =====
-- Lists measured by native numbers, and predicates over a list.
use Prim.Native.Nat.{ℕ, suc, ◌+◌}
use mathlib.Core.Path.{◌≡◌, refl, ap, ◌∙◌}
use mathlib.Core.List.{Permᴰ, List, [], ◌∷◌, ◌++◌}
use mathlib.Core.Bool.{Bool, true, false, ◌&&◌, ◌||◌}
use native.Mathlib.Omega.{arith}

module _ {ℓ} {A : Type ℓ} where
  abbrev pub length : List A → ℕ
  length [] = 0
  length (x ∷ xs) = suc (length xs)

  pub length-append : (xs ys : List A) → length (xs ++ ys) ≡ length xs + length ys
  length-append [] ys = omega arith
  length-append (x ∷ xs) ys = omega (arith, length-append xs ys)

  abbrev pub all : (A → Bool) → List A → Bool
  all p [] = true
  all p (x ∷ xs) = p x && all p xs

  abbrev pub any : (A → Bool) → List A → Bool
  any p [] = false
  any p (x ∷ xs) = p x || any p xs

  pub any-append : (p : A → Bool) (xs ys : List A) → any p (xs ++ ys) ≡ (any p xs || any p ys)
  any-append p [] ys = refl
  any-append p (x ∷ xs) ys = ground (arith, any-append p xs ys)

abbrev pub All {ℓ κ} : {A : Type ℓ} → (A → Type κ) → List A → Type κ
All P [] = Unit
All P (x ∷ xs) = P x × All P xs

pub All-map {ℓ κ ι} :
    {A : Type ℓ} {P : A → Type κ} {Q : A → Type ι}
    → ((a : A) → P a → Q a)
    → (xs : List A) → All P xs
    → All Q xs
All-map f [] h = tt
All-map f (x ∷ xs) h = (f x h.0, All-map f xs h.1)

-- What all or some elements satisfy does not depend on their order.
pub all-perm {ℓ} :
    {A : Type ℓ} (p : A → Bool) {xs ys : List A}
    → Permᴰ xs ys
    → (all p xs ≡ all p ys) × (any p xs ≡ any p ys)
all-perm p Permᴰ.nil = (refl, refl)
all-perm p (Permᴰ.cons same rest) =
    let (alls, anys) = all-perm p rest in
    (ground (arith, ap p same, alls), ground (arith, ap p same, anys))
all-perm p (Permᴰ.swap first second) =
    (ground (arith, ap p first, ap p second), ground (arith, ap p first, ap p second))
all-perm p (Permᴰ.trans one two) =
    let (alls, anys) = all-perm p one in
    let (alls', anys') = all-perm p two in (alls ∙ alls', anys ∙ anys')
