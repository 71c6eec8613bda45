-- ===== src/Platform/Results.antt =====
-- Go's `(value, error)`: a value or an error, and calls on a store that may fail. A failed call
-- keeps what it has written: only a transaction takes it back.
use pda_backend.Common.{Bool, true, false, Option, none, some, ◌≡◌, refl, ◌⊎◌, inl, inr}
use pda_backend.Platform.Errors.{Error}

pub data Result {ℓ} (A : Type ℓ) : Type ℓ where
  ok : A → Result A
  err : Error → Result A

abbrev pub Action {ℓ κ} : Type ℓ → Type κ → Type (ℓ ⊔ κ)
Action S A = S → Result A × S

abbrev pub pure {ℓ κ} : {S : Type ℓ} {A : Type κ} → A → Action S A
pure a s = (ok a, s)

abbrev pub fail {ℓ κ} : {S : Type ℓ} {A : Type κ} → Error → Action S A
fail e s = (err e, s)

infixl 5 ◌>>=◌ ◌>>◌
abbrev pub ◌>>=◌ {ℓ κ ι} :
    {S : Type ℓ} {A : Type κ} {B : Type ι} → Action S A → (A → Action S B) → Action S B
◌>>=◌ m f s = let (r, s') = m s in elim r [ ok a ↦ f a s' | err e ↦ (err e, s') ]

abbrev pub ◌>>◌ {ℓ κ} : {S : Type ℓ} {B : Type κ} → Action S (Unit {0}) → Action S B → Action S B
m >> k = m >>= λ _. k

-- `if refused { return e }`
abbrev pub refuse_if {ℓ} : {S : Type ℓ} → Bool → Error → Action S (Unit {0})
refuse_if true e s = (err e, s)
refuse_if false e s = (ok tt, s)

-- `if err != nil { return err }`
abbrev pub or_return {ℓ} : {S : Type ℓ} → Option Error → Action S (Unit {0})
or_return none s = (ok tt, s)
or_return (some e) s = (err e, s)

-- A sequence that succeeds has passed through a first part that does.
outcome-ok {ℓ κ ι} :
    {S : Type ℓ} {A : Type κ} {B : Type ι} (p : Result A × S) (f : A → Action S B) (s' : S) {b : B}
    → elim p.0 [ ok a ↦ f a p.1 | err e ↦ (err e, p.1) ] ≡ (ok b, s')
    → (a : A) × (t : S) × (p ≡ (ok a, t)) × (f a t ≡ (ok b, s'))
outcome-ok (ok a, t) f s' h = (a, t, refl, h)
outcome-ok (err e, t) f s' h = cc

pub >>=-ok {ℓ κ ι} :
    {S : Type ℓ} {A : Type κ} {B : Type ι} (m : Action S A) (f : A → Action S B) (s s' : S) {b : B}
    → (m >>= f) s ≡ (ok b, s')
    → (a : A) × (t : S) × (m s ≡ (ok a, t)) × (f a t ≡ (ok b, s'))
>>=-ok m f s s' h = outcome-ok (m s) f s' h

pub Result-cases {ℓ} :
    {A : Type ℓ} (r : Result A) → ((a : A) × (r ≡ ok a)) ⊎ ((e : Error) × (r ≡ err e))
Result-cases (ok a) = inl (a, refl)
Result-cases (err e) = inr (e, refl)
