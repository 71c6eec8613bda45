-- ===== src/Shipping/Shipment.antt =====
-- shipping/domain/shipment.go.
pub mod Confirmation
pub mod Verification
use pda_backend.Common.{
  ℕ, String, Option, none, some, List, [], ◌∷◌, ◌++◌, Bool, true, false, not, ◌&&◌, ◌||◌, ◌==◌, eqb,
  if◌then◌else◌, any, all,
}
use pda_backend.Common.Int64.{next}
use pda_backend.Common.Text.{trim_space, to_upper, matches_tracking}
use pda_backend.Platform.{Error}

pub record Package : Type 0 where
  pub id : String
  pub status : String
  pub weight_grams : ℕ

pub record Shipment : Type 0 where
  pub id : String
  pub order_id : String
  pub warehouse_id : String
  pub status : String
  pub carrier : Option String
  pub tracking_number : Option String
  pub picking_complete : Bool
  pub version : ℕ
  pub packages : List Package
  pub updated_at : ℕ

pub record Readiness : Type 0 where
  pub ready : Bool
  pub picking_complete : Bool
  pub packages_complete : Bool
  pub blocking_reasons : List String
  pub as_of : ℕ

abbrev pub is_done : Package → Bool
is_done p = p.status == "COMPLETED" || p.status == "VERIFIED"

abbrev pub is_nil {ℓ} : {A : Type ℓ} → List A → Bool
is_nil [] = true
is_nil (x ∷ xs) = false

unfoldable pub readiness : Shipment → Readiness
readiness s =
    let complete = all is_done s.packages in
    record {
      ready = s.picking_complete && complete && not (is_nil s.packages);
      picking_complete = s.picking_complete;
      packages_complete = complete;
      blocking_reasons =
          (if s.picking_complete then [] else "PICKING_INCOMPLETE" ∷ [])
          ++ (if complete then [] else "PACKAGE_INCOMPLETE" ∷ []);
      as_of = s.updated_at;
    }

-- The loop over the packages: `none` where the identifier is unknown or the barcode is another's,
-- else the packages and whether one was changed.
pub data Found : Type 0 where
  unknown wrong_context already_done : Found
  verified : List Package → Found

abbrev behind : Package → Found → Found
behind p (verified ps) = verified (p ∷ ps)
behind p f = f

unfoldable pub verify_in : String → String → List Package → Found
verify_in package_id barcode [] = Found.unknown
verify_in package_id barcode (p ∷ ps) =
    let rest = verify_in package_id barcode ps in
    if p.id == package_id
    then if not (barcode == "") && not (barcode == package_id)
      then Found.wrong_context
      else if is_done p
      then Found.already_done
      else verified (record p { status = "VERIFIED" } ∷ ps)
    else behind p rest

abbrev on_found : ℕ → Found → Shipment → Shipment × Option Error
on_found now Found.unknown s = (s, some Error.barcode_unknown)
on_found now Found.wrong_context s = (s, some Error.barcode_wrong_context)
on_found now Found.already_done s = (s, none)
on_found now (verified ps) s =
    (record s { packages = ps; version = next s.version; updated_at = now }, none)

unfoldable pub verify_package : String → String → ℕ → ℕ → Shipment → Shipment × Option Error
verify_package package_id barcode base now s =
    if not (eqb s.version base)
    then (s, some Error.shipment_version_conflict)
    else on_found now (verify_in package_id barcode s.packages) s

-- The allowed carriers.
unfoldable pub is_carrier : String → Bool
is_carrier c = c == "DHL" || c == "FEDEX" || c == "UPS" || c == "VNPOST"

-- `len(ids) > 0` and a package that is not among them.
unfoldable pub misses_package : List String → List Package → Bool
misses_package ids ps = not (is_nil ids) && not (all (λ p. any (λ id. id == p.id) ids) ps)

unfoldable pub confirm_with_packages :
    (carrier tracking : String) (ids : List String) (base now : ℕ)
    → Shipment
    → Shipment × Option Error
confirm_with_packages carrier tracking ids base now s =
    let name = to_upper (trim_space carrier) in
    let number = trim_space tracking in
    if not (eqb s.version base)
    then (s, some Error.shipment_version_conflict)
    else if s.status == "SHIPPED"
    then (s, some Error.shipment_already_confirmed)
    else if not s.picking_complete
    then (s, some Error.shipment_not_ready)
    else if not (all is_done s.packages) || is_nil s.packages
    then (s, some Error.package_incomplete)
    else if misses_package ids s.packages
    then (s, some Error.package_incomplete)
    else if not (is_carrier name)
    then (s, some Error.carrier_invalid)
    else if not (matches_tracking number)
    then (s, some Error.tracking_invalid)
    else (
      record s {
        carrier = some name;
        tracking_number = some number;
        status = "SHIPPED";
        version = next s.version;
        updated_at = now;
      },
      none,
    )

unfoldable pub confirm :
    (carrier tracking : String) (base now : ℕ) → Shipment → Shipment × Option Error
confirm carrier tracking = confirm_with_packages carrier tracking []
