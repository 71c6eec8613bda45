-- ===== src/Shipping/Examples.antt =====
-- Runs of shipments, and their theorems at concrete inputs.
use pda_backend.Common.{
  String, ◌≡◌, refl, ◌≢◌, ◌↔◌, ◌⊎◌, All, List, [], ◌∷◌, none, true, arith, eq_iff,
}
use pda_backend.Common.Text.{trim_space, to_upper, matches_tracking}
use pda_backend.Shipping.Shipment.{
  readiness, Shipment, Package, is_carrier, misses_package, confirm_with_packages,
}
use pda_backend.Shipping.Shipment.Confirmation.{
  Among, IsFinished, IsAllowed, verifies, confirms, run, ShippedAs, confirm_iff, ships_once,
}
use pda_backend.Shipping.Shipment.Verification.{verify_each, verify_each_completes}

abbrev parcel : String → String → Package
parcel id status = record { id = id; status = status; weight_grams = 900 }

abbrev shipment : String → Shipment
shipment status = record {
  id = "S-1";
  order_id = "O-1";
  warehouse_id = "WH-01";
  status = "READY";
  carrier = none;
  tracking_number = none;
  picking_complete = true;
  version = 4;
  packages = parcel "P-1" status ∷ parcel "P-2" "VERIFIED" ∷ [];
  updated_at = 1;
}

abbrev no_ids : List String
no_ids = []

confirm_iff_example :
    ((confirm_with_packages " dhl" "AB-12345" no_ids 4 9 (shipment "COMPLETED")).1 ≡ none) ↔ (
      ((shipment "COMPLETED").version ≡ 4)
      × ((shipment "COMPLETED").status ≢ "SHIPPED")
      × ((shipment "COMPLETED").picking_complete ≡ true)
      × ((shipment "COMPLETED").packages ≢ [])
      × All IsFinished (shipment "COMPLETED").packages
      × ((no_ids ≡ []) ⊎ All (λ p. Among p.id no_ids) (shipment "COMPLETED").packages)
      × IsAllowed (to_upper (trim_space " dhl"))
      × (matches_tracking (trim_space "AB-12345") ≡ true))
confirm_iff_example = confirm_iff " dhl" "AB-12345" no_ids 4 9 (shipment "COMPLETED")

ships_once_example :
    let u = (confirm_with_packages " dhl" "AB-12345" [] 4 9 (shipment "COMPLETED")).0 in
    ShippedAs u (run u (confirms "UPS" "ZZ-99999" [] 5 10 ∷ verifies "P-1" "" 5 11 ∷ []))
    × ((confirm_with_packages "UPS" "ZZ-99999" [] 5 12
          (run u (confirms "UPS" "ZZ-99999" [] 5 10 ∷ verifies "P-1" "" 5 11 ∷ []))).1
        ≢ none)
unfolding confirm_with_packages misses_package is_carrier to_upper trim_space matches_tracking
ships_once_example =
    ships_once " dhl" "AB-12345" [] 4 9 (shipment "COMPLETED")
      (confirms "UPS" "ZZ-99999" [] 5 10 ∷ verifies "P-1" "" 5 11 ∷ []) "UPS" "ZZ-99999" [] 5 12
      refl

verify_each_completes_example :
    (readiness (verify_each ("P-1" ∷ "P-2" ∷ []) 9 (shipment "OPEN"))).packages_complete ≡ true
verify_each_completes_example =
    verify_each_completes 9 (shipment "OPEN") ((ground (arith, eq_iff "P-1" "P-2")), (tt, tt))
