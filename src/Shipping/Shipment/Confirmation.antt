-- ===== src/Shipping/Shipment/Confirmation.antt =====
-- When a shipment ships, and that it ships once.
use pda_backend.Common.{
  ℕ, String, ◌≡◌, refl, ◌≢◌, ◌↔◌, ◌⊎◌, inl, inr, List, [], ◌∷◌, none, true, false, arith, eq_iff,
  All, all, any, Bool-cases, ◌==◌,
}
use pda_backend.Common.Text.{trim_space, to_upper, matches_tracking}
use pda_backend.Shipping.Shipment.{
  Shipment, Package, is_done, readiness, verify_package, is_carrier, misses_package,
  confirm_with_packages,
}

abbrev pub Among : String → List String → Type 0
Among id [] = ⊥
Among id (x ∷ xs) = (x ≡ id) ⊎ Among id xs

abbrev pub IsFinished : Package → Type 0
IsFinished p = (p.status ≡ "COMPLETED") ⊎ (p.status ≡ "VERIFIED")

abbrev pub IsAllowed : String → Type 0
IsAllowed c = (c ≡ "DHL") ⊎ (c ≡ "FEDEX") ⊎ (c ≡ "UPS") ⊎ (c ≡ "VNPOST")

is_done_iff : (p : Package) → (is_done p ≡ true) ↔ IsFinished p
is_done_iff p = (
  (λ h. ground (arith, eq_iff p.status "COMPLETED", eq_iff p.status "VERIFIED")),
  (λ h. ground (arith, eq_iff p.status "COMPLETED", eq_iff p.status "VERIFIED")),
)

all_done_iff : (ps : List Package) → (all is_done ps ≡ true) ↔ All IsFinished ps
all_done_iff [] = ((λ h. tt), (λ h. refl))
all_done_iff (p ∷ ps) = (
  (λ h. ((is_done_iff p).0 (ground arith), (all_done_iff ps).0 (ground arith))),
  (λ h. let first = (is_done_iff p).1 h.0 in let others = (all_done_iff ps).1 h.1 in ground arith),
)

Among-iff : (id : String) (xs : List String) → (any (λ x. x == id) xs ≡ true) ↔ Among id xs
Among-iff id [] = ((λ h. ground arith), (λ h. absurd h))
Among-iff id (x ∷ xs) = (
  (λ h. elim (Bool-cases (x == id)) [
    | inl hit ↦ inl ((eq_iff x id).0 hit)
    | inr miss ↦ inr ((Among-iff id xs).0 (ground arith))
  ]),
  (λ h. elim h [
    | inl same ↦ let hit = (eq_iff x id).1 same in ground arith
    | inr deeper ↦ let rest = (Among-iff id xs).1 deeper in ground arith
  ]),
)

every_named_iff :
    (ids : List String) (ps : List Package)
    → (all (λ p. any (λ x. x == p.id) ids) ps ≡ true) ↔ All (λ p. Among p.id ids) ps
every_named_iff ids [] = ((λ h. tt), (λ h. refl))
every_named_iff ids (p ∷ ps) = (
  (λ h. ((Among-iff p.id ids).0 (ground arith), (every_named_iff ids ps).0 (ground arith))),
  (λ h.
      let first = (Among-iff p.id ids).1 h.0 in
      let others = (every_named_iff ids ps).1 h.1 in ground arith),
)

named_ids_iff :
    (ids : List String) (ps : List Package)
    → (misses_package ids ps ≡ false) ↔ ((ids ≡ []) ⊎ All (λ p. Among p.id ids) ps)
unfolding misses_package
named_ids_iff [] ps = ((λ h. inl refl), (λ h. refl))
named_ids_iff (x ∷ xs) ps =
    let named = every_named_iff (x ∷ xs) ps in
    (
      (λ h. inr (named.0 (ground arith))),
      (λ h. elim h [
        | inl nothing ↦ ground arith
        | inr every ↦ let all_named = named.1 every in ground arith
      ]),
    )

carrier_iff : (c : String) → (is_carrier c ≡ true) ↔ IsAllowed c
unfolding is_carrier
carrier_iff c = (
  (λ h. ground (arith, eq_iff c "DHL", eq_iff c "FEDEX", eq_iff c "UPS", eq_iff c "VNPOST")),
  (λ h. ground (arith, eq_iff c "DHL", eq_iff c "FEDEX", eq_iff c "UPS", eq_iff c "VNPOST")),
)

accepted_iff :
    (carrier tracking : String) (ids : List String) (base now : ℕ) (s : Shipment)
    → ((confirm_with_packages carrier tracking ids base now s).1 ≡ none) ↔ (
        (s.version ≡ base)
        × (s.status ≢ "SHIPPED")
        × (s.picking_complete ≡ true)
        × (s.packages ≢ [])
        × (all is_done s.packages ≡ true)
        × (misses_package ids s.packages ≡ false)
        × (is_carrier (to_upper (trim_space carrier)) ≡ true)
        × (matches_tracking (trim_space tracking) ≡ true))
unfolding confirm_with_packages
accepted_iff carrier tracking ids base now s = (
  (λ h. ground (arith, eq_iff s.status "SHIPPED")),
  (λ h. ground (arith, eq_iff s.status "SHIPPED")),
)

-- A confirmation succeeds exactly at the shipment's version, when it has not shipped, its picking
-- is complete, it has packages and each of them is COMPLETED or VERIFIED, the identifiers that were
-- sent, if any, name every package, the carrier is DHL, FEDEX, UPS or VNPOST up to case and
-- surrounding space, and the tracking number matches the regular expression.
pub confirm_iff :
    (carrier tracking : String) (ids : List String) (base now : ℕ) (s : Shipment)
    → ((confirm_with_packages carrier tracking ids base now s).1 ≡ none) ↔ (
        (s.version ≡ base)
        × (s.status ≢ "SHIPPED")
        × (s.picking_complete ≡ true)
        × (s.packages ≢ [])
        × All IsFinished s.packages
        × ((ids ≡ []) ⊎ All (λ p. Among p.id ids) s.packages)
        × IsAllowed (to_upper (trim_space carrier))
        × (matches_tracking (trim_space tracking) ≡ true))
confirm_iff carrier tracking ids base now s =
    let accepted = accepted_iff carrier tracking ids base now s in
    let finished = all_done_iff s.packages in
    let named = named_ids_iff ids s.packages in
    let allowed = carrier_iff (to_upper (trim_space carrier)) in
    (
      λ h.
          let (version, unshipped, picked, some_package, done, names, by, number) = accepted.0 h in
          (
            version,
            unshipped,
            picked,
            some_package,
            finished.0 done,
            named.0 names,
            allowed.0 by,
            number,
          ),
      λ (version, unshipped, picked, some_package, done, names, by, number). accepted.1 (
        version,
        unshipped,
        picked,
        some_package,
        finished.1 done,
        named.1 names,
        allowed.1 by,
        number,
      ),
    )

pub data Request : Type 0 where
  verifies : (package_id barcode : String) (base now : ℕ) → Request
  confirms : (carrier tracking : String) (ids : List String) (base now : ℕ) → Request

unfoldable pub step : Shipment → Request → Shipment
step s (verifies package_id barcode base now) = (verify_package package_id barcode base now s).0
step s (confirms carrier tracking ids base now) =
    (confirm_with_packages carrier tracking ids base now s).0

unfoldable pub run : Shipment → List Request → Shipment
run s [] = s
run s (r ∷ rs) = run (step s r) rs

abbrev pub ShippedAs : Shipment → Shipment → Type 0
ShippedAs s u =
    (u.status ≡ "SHIPPED") × (u.carrier ≡ s.carrier) × (u.tracking_number ≡ s.tracking_number)

step-shipped : (s u : Shipment) (r : Request) → ShippedAs s u → ShippedAs s (step u r)
unfolding step verify_package confirm_with_packages
step-shipped s u (verifies package_id barcode base now) h = ground arith
step-shipped s u (confirms carrier tracking ids base now) h =
    ground (arith, eq_iff u.status "SHIPPED")

run-shipped : (s u : Shipment) (rs : List Request) → ShippedAs s u → ShippedAs s (run u rs)
unfolding run
run-shipped s u [] h = h
run-shipped s u (r ∷ rs) h = run-shipped s (step u r) rs (step-shipped s u r h)

-- After a confirmation has succeeded no sequence of verifications and confirmations changes the
-- carrier, the tracking number or the status, and every further confirmation is refused.
pub ships_once :
    (carrier tracking : String) (ids : List String) (base now : ℕ) (s : Shipment)
    (rs : List Request) (carrier' tracking' : String) (ids' : List String) (base' now' : ℕ)
    → (confirm_with_packages carrier tracking ids base now s).1 ≡ none
    → let u = (confirm_with_packages carrier tracking ids base now s).0 in
      ShippedAs u (run u rs)
      × ((confirm_with_packages carrier' tracking' ids' base' now' (run u rs)).1 ≢ none)
ships_once carrier tracking ids base now s rs carrier' tracking' ids' base' now' h =
    let u = (confirm_with_packages carrier tracking ids base now s).0 in
    let stays = run-shipped u u rs (shipped h, refl, refl) in (stays, refused (run u rs) stays.0)
  where
    shipped :
        (confirm_with_packages carrier tracking ids base now s).1 ≡ none
        → (confirm_with_packages carrier tracking ids base now s).0.status ≡ "SHIPPED"
    shipped h' = unfold confirm_with_packages in ground arith

    refused :
        (v : Shipment)
        → v.status ≡ "SHIPPED"
        → (confirm_with_packages carrier' tracking' ids' base' now' v).1 ≢ none
    refused v e = unfold confirm_with_packages in ground (arith, eq_iff v.status "SHIPPED")

-- A shipment is ready exactly if no reason blocks it and it has a package: without packages it is
-- not ready, though no reason is given when the picking is complete.
pub ready_iff :
    (s : Shipment)
    → ((readiness s).ready ≡ true) ↔ (((readiness s).blocking_reasons ≡ []) × (s.packages ≢ []))
unfolding readiness
ready_iff s = ((λ h. ground arith), (λ h. ground arith))
