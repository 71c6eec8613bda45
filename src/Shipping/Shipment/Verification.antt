-- ===== src/Shipping/Shipment/Verification.antt =====
-- Verifying the packages of a shipment one by one.
use pda_backend.Common.{
  ℕ, String, ◌≡◌, refl, ◌≢◌, ◌⊎◌, inl, inr, List, [], ◌∷◌, map, true, arith, eq_iff, ◌==◌, any, all,
  All, if◌then◌else◌, Bool-cases, subst,
}
use pda_backend.Shipping.Shipment.{
  Shipment, Package, is_done, readiness, verify_in, verify_package, Found, verified,
}

abbrev pub Fresh : String → List Package → Type 0
Fresh id = All (λ p. p.id ≢ id)

abbrev pub Distinct : List Package → Type 0
Distinct [] = Unit
Distinct (p ∷ ps) = Fresh p.id ps × Distinct ps

-- Each package is done, or still to be verified.
abbrev pub Pending : List String → List Package → Type 0
Pending ids = All (λ p. (is_done p ≡ true) ⊎ (any (λ id. id == p.id) ids ≡ true))

abbrev outcome : Found → List Package → List Package
outcome (verified ps') ps = ps'
outcome _ ps = ps

-- The packages after a verification by identifier, without a barcode.
mark : String → List Package → List Package
mark id ps = outcome (verify_in id "" ps) ps

mark-step :
    (id : String) (now : ℕ) (s : Shipment)
    → (verify_package id "" s.version now s).0.packages ≡ mark id s.packages
unfolding verify_package mark
mark-step id now s = ground arith

mark-hit :
    (id : String) (p : Package) (ps : List Package)
    → p.id ≡ id
    → mark id (p ∷ ps) ≡ (if is_done p then p ∷ ps else record p { status = "VERIFIED" } ∷ ps)
unfolding mark verify_in
mark-hit id p ps h = ground (arith, eq_iff p.id id, eq_iff "" "")

mark-miss :
    (id : String) (p : Package) (ps : List Package) → p.id ≢ id → mark id (p ∷ ps) ≡ p ∷ mark id ps
unfolding mark verify_in
mark-miss id p ps h = ground (arith, eq_iff p.id id)

mark-Fresh : (i id : String) (ps : List Package) → Fresh i ps → Fresh i (mark id ps)
mark-Fresh i id [] f = unfold mark verify_in in tt
mark-Fresh i id (p ∷ ps) f = elim (Bool-cases (p.id == id)) [
  | inl hit ↦ rw (mark-hit id p ps ((eq_iff p.id id).0 hit)) (ground arith)
  | inr miss ↦ rw (mark-miss id p ps (ground (arith, eq_iff p.id id))) (f.0, mark-Fresh i id ps f.1)
]

mark-Distinct : (id : String) (ps : List Package) → Distinct ps → Distinct (mark id ps)
mark-Distinct id [] d = unfold mark verify_in in tt
mark-Distinct id (p ∷ ps) d = elim (Bool-cases (p.id == id)) [
  | inl hit ↦ rw (mark-hit id p ps ((eq_iff p.id id).0 hit)) (ground arith)
  | inr miss ↦
      rw (mark-miss id p ps (ground (arith, eq_iff p.id id)))
        (mark-Fresh p.id id ps d.0, mark-Distinct id ps d.1)
]

Pending-skip :
    (id : String) (ids : List String) (ps : List Package)
    → Fresh id ps
    → Pending (id ∷ ids) ps
    → Pending ids ps
Pending-skip id ids [] f h = tt
Pending-skip id ids (p ∷ ps) f h = ground (arith, eq_iff id p.id, Pending-skip id ids ps f.1 h.1)

mark-Pending :
    (id : String) (ids : List String) (ps : List Package)
    → Distinct ps
    → Pending (id ∷ ids) ps
    → Pending ids (mark id ps)
mark-Pending id ids [] d h = unfold mark verify_in in tt
mark-Pending id ids (p ∷ ps) d h = elim (Bool-cases (p.id == id)) [
  | inl hit ↦
      let same = (eq_iff p.id id).0 hit in
      let others = Pending-skip id ids ps (subst (λ x. Fresh x ps) same d.0) h.1 in
      rw (mark-hit id p ps same) (ground (arith, others))
  | inr miss ↦
      rw (mark-miss id p ps (ground (arith, eq_iff p.id id)))
        (ground (arith, eq_iff id p.id, eq_iff p.id id), mark-Pending id ids ps d.1 h.1)
]

-- A device that verifies packages one after another, each at the version it has just been told.
pub verify_each : List String → ℕ → Shipment → Shipment
verify_each [] now s = s
verify_each (id ∷ ids) now s = verify_each ids now (verify_package id "" s.version now s).0

done_when_none-Pending : (ps : List Package) → Pending [] ps → all is_done ps ≡ true
done_when_none-Pending [] h = refl
done_when_none-Pending (p ∷ ps) h = ground (arith, done_when_none-Pending ps h.1)

verify_each-done :
    (ids : List String) (now : ℕ) (s : Shipment)
    → Distinct s.packages
    → Pending ids s.packages
    → all is_done (verify_each ids now s).packages ≡ true
unfolding verify_each
verify_each-done [] now s d h = done_when_none-Pending s.packages h
verify_each-done (id ∷ ids) now s d h =
    verify_each-done ids now (verify_package id "" s.version now s).0
      (rw (mark-step id now s) (mark-Distinct id s.packages d))
      (rw (mark-step id now s) (mark-Pending id ids s.packages d h))

Pending-more :
    (i : String) (ids : List String) (ps : List Package) → Pending ids ps → Pending (i ∷ ids) ps
Pending-more i ids [] h = tt
Pending-more i ids (p ∷ ps) h = ground (arith, Pending-more i ids ps h.1)

all-Pending : (ps : List Package) → Pending (map (λ p. p.id) ps) ps
all-Pending [] = tt
all-Pending (p ∷ ps) = (
  inr (ground (arith, eq_iff p.id p.id)),
  Pending-more p.id (map (λ q. q.id) ps) ps (all-Pending ps),
)

-- Verifying the packages of a shipment one after another, in the order of its list, leaves every
-- package complete, where the identifiers are distinct.
pub verify_each_completes :
    (now : ℕ) (s : Shipment)
    → Distinct s.packages
    → (readiness (verify_each (map (λ p. p.id) s.packages) now s)).packages_complete ≡ true
unfolding readiness
verify_each_completes now s d = verify_each-done _ now s d (all-Pending s.packages)
