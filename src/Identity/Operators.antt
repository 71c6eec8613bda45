-- ===== src/Identity/Operators.antt =====
-- identity/adapters/postgres/store.go: the accounts, with the counter of failed logins, and the
-- registered devices. The rows of the joined tables stand with their operator.
use pda_backend.Common.{
  ◌≡◌, refl, arith, ℕ, ◌+◌, String, Option, none, some, List, [], ◌∷◌, ◌++◌, Bool, true, false, not,
  ◌&&◌, ◌||◌, ◌==◌, eqb, leb, ltb, any, if◌then◌else◌,
}
use pda_backend.Common.Text.{trim_space, to_lower}
use pda_backend.Common.Rows.{first_where, update_where}
use pda_backend.Platform.Errors.{Error}
use pda_backend.Platform.Results.{Result, ok, err}
use pda_backend.Identity.Ports.{
  Operator, DeviceRegistration, AuditRecord, PortError, is_among, login_locked, login_disabled,
}

pub data Status : Type 0 where
  active disabled locked : Status

-- A row of identity_operators. `warehouses` are those of identity_operator_warehouses that are
-- active, `grants` the joined roles and permissions, each in the order of the query; a role without
-- permissions has a NULL, which is `none`.
pub record Account : Type 0 where
  pub id : String
  pub username : String
  pub employee_code : String
  pub display_name : String
  pub password_hash : String
  pub status : Status
  pub shift_code : String
  pub failed_login_count : ℕ
  pub locked_until : Option ℕ
  pub last_login_at : Option ℕ
  pub updated_at : ℕ
  pub warehouses : List String
  pub grants : List (String × Option String)

-- A row of identity_operator_devices.
pub record Registration : Type 0 where
  pub operator_id : String
  pub device_code : String
  pub warehouse_id : String
  pub active : Bool

-- A row of identity_devices.
pub record Device : Type 0 where
  pub device_code : String
  pub is_active : Bool

pub record Accounts : Type 0 where
  pub operators : List Account
  pub devices : List Device
  pub registrations : List Registration
  pub audit : List AuditRecord

unfoldable pub same_codes : List ℕ → List ℕ → Bool
same_codes [] [] = true
same_codes [] (d ∷ ds) = false
same_codes (c ∷ cs) [] = false
same_codes (c ∷ cs) (d ∷ ds) = eqb c d && same_codes cs ds

-- `lower(username)=lower($1)` with `$1` trimmed.
unfoldable pub has_username : String → Account → Bool
unfolding same_codes
has_username username a = same_codes (to_lower a.username) (to_lower (trim_space username))

pub same_codes_refl : (cs : List ℕ) → same_codes cs cs ≡ true
unfolding same_codes
same_codes_refl [] = refl
same_codes_refl (c ∷ cs) = ground (arith, same_codes_refl cs)

pub same_codes_eq : (cs ds : List ℕ) → same_codes cs ds ≡ true → cs ≡ ds
unfolding same_codes
same_codes_eq [] [] same = refl
same_codes_eq [] (d ∷ ds) same = ground arith
same_codes_eq (c ∷ cs) [] same = ground arith
same_codes_eq (c ∷ cs) (d ∷ ds) same = ground (arith, same_codes_eq cs ds)

pub has_username-trimmed :
    (a : Account) → trim_space a.username ≡ a.username → has_username a.username a ≡ true
unfolding has_username
has_username-trimmed a trimmed = ground (arith, same_codes_refl (to_lower a.username))

abbrev pub has_id : String → Account → Bool
has_id id a = a.id == id

abbrev pub is_active : Status → Bool
is_active Status.active = true
is_active _ = false

-- The loop over the joined rows: each name once, in the order of its first row.
unfoldable pub distinct_names : List String → List String → List String
distinct_names seen [] = []
distinct_names seen (name ∷ names) =
    let kept = distinct_names (name ∷ seen) names in
    let skipped = distinct_names seen names in
    if not (name == "") && not (is_among name seen) then name ∷ kept else skipped

-- The scan of the joined rows into two strings for each, which a NULL fails.
unfoldable pub scan_grants : List (String × Option String) → Option (List String × List String)
scan_grants [] = some ([], [])
scan_grants ((role, none) ∷ gs) = none
scan_grants ((role, some permission) ∷ gs) = elim (scan_grants gs) [
  | none ↦ none
  | some (roles, permissions) ↦ some (role ∷ roles, permission ∷ permissions)
]

abbrev pub operator_with : Account → List String → List String → Operator
operator_with a roles permissions = record {
  id = a.id;
  employee_code = a.employee_code;
  username = a.username;
  display_name = a.display_name;
  password = "";
  password_hash = a.password_hash;
  roles = distinct_names [] roles;
  permissions = distinct_names [] permissions;
  warehouse_ids = a.warehouses;
  shift_code = a.shift_code;
  active = is_active a.status;
}

-- `operator`, of a row that the query found.
unfoldable pub operator_of : Account → Result (Option Operator)
operator_of a = elim (scan_grants a.grants) [
  | none ↦ err (Error.fault 0)
  | some (roles, permissions) ↦ ok (some (operator_with a roles permissions))
]

unfoldable pub found_operator : Option Account → Result (Option Operator)
found_operator none = ok none
found_operator (some a) = operator_of a

unfoldable pub by_username : String → Accounts → Result (Option Operator)
by_username username s = found_operator (first_where (has_username username) s.operators)

unfoldable pub by_id : String → Accounts → Result (Option Operator)
by_id id s = found_operator (first_where (has_id id) s.operators)

abbrev pub is_disabled : Status → Bool
is_disabled Status.disabled = true
is_disabled _ = false

abbrev pub is_locked : Status → Bool
is_locked Status.locked = true
is_locked _ = false

-- `t != nil && t.After(now)`
abbrev pub is_after : Option ℕ → ℕ → Bool
is_after none now = false
is_after (some t) now = ltb now t

unfoldable pub check_login : String → ℕ → Accounts → Option PortError
check_login username now s = elim (first_where (has_username username) s.operators) [
  | none ↦ none
  | some a ↦
      if is_disabled a.status
      then some login_disabled
      else if is_locked a.status || is_after a.locked_until now
      then some login_locked
      else none
]

-- Fifteen minutes.
abbrev pub lock_time : ℕ
lock_time = 900_000_000_000

abbrev pub after_failure : ℕ → Account → Account
after_failure until a = record a {
  failed_login_count = a.failed_login_count + 1;
  locked_until = if leb 5 (a.failed_login_count + 1) then some until else a.locked_until;
  status = if leb 5 (a.failed_login_count + 1) then Status.locked else a.status;
  updated_at = until;
}

unfoldable pub record_login_failure : String → ℕ → Accounts → Accounts
record_login_failure username now s = record s {
  operators = update_where (has_username username) (after_failure (now + lock_time)) s.operators;
}

abbrev pub after_success : ℕ → Account → Account
after_success now a = record a {
  failed_login_count = 0;
  locked_until = none;
  status = Status.active;
  last_login_at = some now;
  updated_at = now;
}

unfoldable pub record_login_success : String → ℕ → Accounts → Accounts
record_login_success username now s = record s {
  operators = update_where (has_username username) (after_success now) s.operators;
}

abbrev is_device : String → Device → Bool
is_device code d = d.device_code == code

abbrev is_registration : DeviceRegistration → Registration → Bool
is_registration r x =
    x.operator_id == r.operator_id
    && x.device_code == r.device_id
    && x.warehouse_id == r.warehouse_id

-- `INSERT … ON CONFLICT … DO UPDATE` of the device, and of the registration.
unfoldable pub register : DeviceRegistration → Accounts → Accounts
register r s =
    let device : Device = record { device_code = r.device_id; is_active = true } in
    let registration : Registration = record {
      operator_id = r.operator_id;
      device_code = r.device_id;
      warehouse_id = r.warehouse_id;
      active = true;
    } in
    record s {
      devices =
          if any (is_device r.device_id) s.devices
          then update_where (is_device r.device_id) (λ d. device) s.devices
          else s.devices ++ (device ∷ []);
      registrations =
          if any (is_registration r) s.registrations
          then update_where (is_registration r) (λ x. record x { active = true }) s.registrations
          else s.registrations ++ (registration ∷ []);
    }

unfoldable pub is_registered : DeviceRegistration → Accounts → Bool
is_registered r s = elim (first_where (is_device r.device_id) s.devices) [
  | none ↦ false
  | some d ↦ elim (first_where (is_registration r) s.registrations) [
    | none ↦ false
    | some x ↦ d.is_active && x.active
  ]
]

unfoldable pub append : AuditRecord → Accounts → Accounts
append a s = record s { audit = s.audit ++ (a ∷ []) }
