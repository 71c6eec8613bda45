-- ===== src/Identity/Service.antt =====
-- identity/application/service.go, as NewProductionService builds it: over the accounts and sessions
-- of Postgres, whose store is also the login protector. `verify` is the comparison with an
-- Argon2id hash. A call reads the clock once here; the calls of the driver do not fail.
pub mod Lockout
use pda_backend.Common.{
  ℕ, String, Option, none, some, List, [], ◌∷◌, Bool, true, false, not, ◌&&◌, ◌||◌, ◌==◌,
  if◌then◌else◌,
}
use pda_backend.Platform.Errors.{Error}
use pda_backend.Platform.Results.{Result, ok, err}
use pda_backend.Identity.Ports.{
  Operator, DeviceRegistration, AuditRecord, PortError, Claims, Outcome, got, failed,
  can_access_warehouse,
}
use pda_backend.Identity.Operators.{
  by_username, by_id, check_login, record_login_failure, record_login_success, register,
  is_registered, append,
}
use pda_backend.Identity.Sessions.{
  Manager, TokenClaims, Fresh, Created, Refreshed, Database, create, authenticate, refresh, logout,
  revoke_refresh,
}

pub record Session : Type 0 where
  pub access_token : String
  pub refresh_token : String
  pub expires_at : ℕ
  pub refresh_expires_at : ℕ
  pub device_id : String
  pub warehouse_id : String

-- The error of CheckLogin as a domain error.
unfoldable pub login_error : PortError → Error
login_error PortError.login_locked = Error.auth_account_locked
login_error PortError.login_disabled = Error.auth_account_disabled
login_error _ = Error.fault 0

unfoldable pub map_session_error : PortError → Bool → Error
map_session_error PortError.access_expired from_refresh = Error.access_token_expired
map_session_error PortError.access_invalid from_refresh = Error.access_token_invalid
map_session_error PortError.refresh_expired from_refresh = Error.refresh_token_expired
map_session_error PortError.refresh_revoked from_refresh = Error.refresh_token_revoked
map_session_error PortError.refresh_reused from_refresh = Error.refresh_token_reused
map_session_error PortError.refresh_invalid from_refresh = Error.refresh_token_invalid
map_session_error PortError.session_revoked from_refresh = Error.session_revoked
map_session_error PortError.user_disabled from_refresh = Error.user_disabled
map_session_error PortError.device_mismatch from_refresh = Error.session_device_mismatch
map_session_error _ from_refresh =
    if from_refresh then Error.refresh_token_invalid else Error.auth_session_expired

abbrev pub login_record : String → String → String → ℕ → AuditRecord
login_record outcome operator_id correlation_id now = record {
  action = "LOGIN";
  outcome = outcome;
  operator_id = operator_id;
  device_id = "";
  warehouse_id = "";
  correlation_id = correlation_id;
  occurred_at = now;
}

-- The operator of a session, who must be found and active.
unfoldable pub enabled_operator : Result (Option Operator) → Result Operator
enabled_operator (err e) = err Error.user_disabled
enabled_operator (ok none) = err Error.user_disabled
enabled_operator (ok (some o)) = if o.active then ok o else err Error.user_disabled

unfoldable pub register_device :
    Operator → String → String → String → ℕ → Database → Result DeviceRegistration × Database
register_device operator device_id warehouse_id correlation_id now db =
    let registration : DeviceRegistration = record {
      device_id = device_id;
      operator_id = operator.id;
      warehouse_id = warehouse_id;
    } in
    if not (can_access_warehouse operator warehouse_id)
    then (err Error.warehouse_access_denied, db)
    else (
      ok registration,
      record db {
        accounts =
            append
              (record {
                action = "DEVICE_REGISTER";
                outcome = "SUCCESS";
                operator_id = operator.id;
                device_id = device_id;
                warehouse_id = warehouse_id;
                correlation_id = correlation_id;
                occurred_at = now;
              })
              (register registration db.accounts);
      },
    )

unfoldable pub validate_context : Operator → String → String → Database → Option Error
validate_context operator device_id warehouse_id db =
    if not (can_access_warehouse operator warehouse_id)
    then some Error.warehouse_access_denied
    else if not (
        is_registered
          (record { device_id = device_id; operator_id = operator.id; warehouse_id = warehouse_id })
          db.accounts)
    then some Error.device_not_registered
    else none

unfoldable pub device_status : Operator → String → String → Database → String
device_status operator device_id warehouse_id db =
    if device_id == ""
    then "UNREGISTERED"
    else if is_registered
        (record { device_id = device_id; operator_id = operator.id; warehouse_id = warehouse_id })
        db.accounts
    then "REGISTERED"
    else "UNREGISTERED"

abbrev pub with_failure : Option Operator → ℕ → Database → Database
with_failure none now db = db
with_failure (some o) now db = record db {
  accounts = record_login_failure o.username now db.accounts;
}

unfoldable pub accepted : Option Operator → String → ℕ → Database → Result Operator × Database
accepted none correlation_id now db = (err Error.auth_invalid_credentials, db)
accepted (some o) correlation_id now db = (
  ok o,
  record db {
    accounts =
        append (login_record "SUCCESS" o.id correlation_id now)
          (record_login_success o.username now db.accounts);
  },
)

unfoldable pub session_of :
    Outcome Created → Operator → String → String → Result (Session × Operator)
session_of (failed e) operator device_id warehouse_id = err (Error.fault 0)
session_of (got c) operator device_id warehouse_id = ok (
  record {
    access_token = c.access;
    refresh_token = c.refresh;
    expires_at = c.expires;
    refresh_expires_at = c.refresh_expires;
    device_id = device_id;
    warehouse_id = warehouse_id;
  },
  operator,
)

unfoldable pub refreshed_session : Outcome Refreshed → Database → Result (Session × Operator)
refreshed_session (failed e) db = err (map_session_error e true)
refreshed_session (got r) db = elim (enabled_operator (by_id r.operator_id db.accounts)) [
  | err e ↦ err e
  | ok o ↦ ok (
    record {
      access_token = r.access;
      refresh_token = r.refresh;
      expires_at = r.expires;
      refresh_expires_at = r.refresh_expires;
      device_id = r.device_id;
      warehouse_id = r.warehouse_id;
    },
    o,
  )
]

abbrev pub ended : Outcome (Unit {0}) → Bool → Result (Unit {0})
ended (failed e) from_refresh = err (map_session_error e from_refresh)
ended (got u) from_refresh = ok u

module _ (verify : String → String → Bool) where
  abbrev pub valid_password : Option Operator → String → Bool
  valid_password none password = false
  valid_password (some o) password = o.active && verify o.password_hash password

  unfoldable pub authenticate_credentials :
      String → String → String → ℕ → Database → Result Operator × Database
  authenticate_credentials username password correlation_id now db =
      elim (by_username username db.accounts) [
        | err e ↦ (err e, db)
        | ok operator ↦ elim (check_login username now db.accounts) [
          | some e ↦ (err (login_error e), db)
          | none ↦
              if not (valid_password operator password)
              then (
                err Error.auth_invalid_credentials,
                (let failing = with_failure operator now db in
                    record failing {
                      accounts =
                          append (login_record "DENIED" "" correlation_id now) failing.accounts;
                    }),
              )
              else accepted operator correlation_id now db
        ]
      ]

module _ (m : Manager) (sign : TokenClaims → Option String)
    (parse : String → ℕ → Outcome TokenClaims) (token_hash : String → ℕ) where
  unfoldable pub create_production_session :
      Fresh → Operator → String → String → ℕ → Database → Result (Session × Operator) × Database
  create_production_session fresh operator device_id warehouse_id now db =
      let (made, after) =
        create m sign parse token_hash fresh operator device_id warehouse_id now db in
      (session_of made operator device_id warehouse_id, after)

  -- LoginSessionContext, behind the check of the password.
  unfoldable pub open_session :
      Fresh
      → Result Operator
      → String
      → String
      → ℕ
      → Database
      → Result (Session × Operator) × Database
  open_session fresh (err e) device_id warehouse_id now db = (err e, db)
  open_session fresh (ok operator) device_id warehouse_id now db =
      if device_id == ""
      then (err Error.device_not_registered, db)
      else if warehouse_id == ""
      then (err Error.warehouse_access_denied, db)
      else elim (validate_context operator device_id warehouse_id db) [
        | some e ↦ (err e, db)
        | none ↦ create_production_session fresh operator device_id warehouse_id now db
      ]

  unfoldable pub authenticate_operator : String → ℕ → Database → Result Operator
  authenticate_operator token now db = elim (authenticate m sign parse token_hash token now db) [
    | failed e ↦ err (map_session_error e false)
    | got c ↦ enabled_operator (by_id c.operator_id db.accounts)
  ]

  unfoldable pub refresh_session_context :
      Fresh → String → String → ℕ → Database → Result (Session × Operator) × Database
  refresh_session_context fresh token device_id now db =
      let (r, after) = refresh m sign parse token_hash fresh token device_id now db in
      (refreshed_session r after, after)

  unfoldable pub logout_context : String → String → ℕ → Database → Result (Unit {0}) × Database
  logout_context access_token refresh_token now db =
      let (revoked, after) = revoke_refresh m sign parse token_hash refresh_token now db in
      let (closed, after') = logout m sign parse token_hash access_token now db in
      if not (refresh_token == "")
      then (ended revoked true, after)
      else (ended closed false, after')

module _ (verify : String → String → Bool) (m : Manager) (sign : TokenClaims → Option String)
    (parse : String → ℕ → Outcome TokenClaims) (token_hash : String → ℕ) where
  unfoldable pub login_session_context :
      Fresh
      → (username password device_id warehouse_id correlation_id : String) → ℕ
      → Database
      → Result (Session × Operator) × Database
  login_session_context fresh username password device_id warehouse_id correlation_id now db =
      let (checked, after) =
        authenticate_credentials verify username password correlation_id now db in
      open_session m sign parse token_hash fresh checked device_id warehouse_id now after
