-- ===== src/Identity/Ports.antt =====
-- identity/domain/model.go and the errors and claims of identity/ports/identity.go.
use pda_backend.Common.{
  ◌≡◌, refl, ◌⊎◌, inl, inr, ℕ, String, List, [], ◌∷◌, Bool, true, false, ◌==◌, if◌then◌else◌,
}

pub record Operator : Type 0 where
  pub id : String
  pub employee_code : String
  pub username : String
  pub display_name : String
  pub password : String
  pub password_hash : String
  pub roles : List String
  pub permissions : List String
  pub warehouse_ids : List String
  pub shift_code : String
  pub active : Bool

pub record DeviceRegistration : Type 0 where
  pub device_id : String
  pub operator_id : String
  pub warehouse_id : String

unfoldable pub is_among : String → List String → Bool
is_among id [] = false
is_among id (allowed ∷ rest) = let later = is_among id rest in if allowed == id then true else later

-- `CanAccessWarehouse`
abbrev pub can_access_warehouse : Operator → String → Bool
can_access_warehouse o id = is_among id o.warehouse_ids

-- The error values of the ports, and an error of the driver.
pub data PortError : Type 0 where
  login_locked login_disabled access_expired access_invalid refresh_invalid : PortError
  refresh_expired refresh_revoked refresh_reused session_revoked user_disabled : PortError
  device_mismatch other : PortError

pub record Claims : Type 0 where
  pub operator_id : String
  pub token_id : String
  pub session_id : String
  pub device_id : String
  pub warehouse_id : String
  pub expires_at : ℕ

pub record AuditRecord : Type 0 where
  pub action : String
  pub outcome : String
  pub operator_id : String
  pub device_id : String
  pub warehouse_id : String
  pub correlation_id : String
  pub occurred_at : ℕ

-- `(value, error)` with the ports' errors.
pub data Outcome {ℓ} (A : Type ℓ) : Type ℓ where
  got : A → Outcome A
  failed : PortError → Outcome A

pub Outcome-cases {ℓ} :
    {A : Type ℓ} (o : Outcome A) → ((e : PortError) × (o ≡ failed e)) ⊎ ((a : A) × (o ≡ got a))
Outcome-cases (failed e) = inl (e, refl)
Outcome-cases (got a) = inr (a, refl)
