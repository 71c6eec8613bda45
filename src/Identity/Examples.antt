-- ===== src/Identity/Examples.antt =====
-- Runs of sessions, logins and access tokens, and their theorems at concrete inputs.
mod Tokens
use Prim.Native.Char.{code}
use pda_backend.Common.{
  ℕ, zero, suc, ◌+◌, ◌*◌, ◌≤◌, ◌<◌, String, ◌≡◌, refl, ◌≢◌, Option, none, some, List, [], ◌∷◌, ◌++◌,
  Bool, true, false, not, ◌==◌, ◌||◌, eqb, arith, eq_refl, eq_iff, if◌then◌else◌,
}
use pda_backend.Common.Rows.{first_where, update_where}
use pda_backend.Common.Text.{trim_space, to_lower}
use pda_backend.Platform.Errors.{Error}
use pda_backend.Platform.Results.{Result, ok, err}
use pda_backend.Identity.Ports.{
  Operator, Claims, Outcome, got, failed, PortError, is_among, refresh_reused,
}
use pda_backend.Identity.Operators.{
  Account, Accounts, Status, Device, Registration, is_registered, has_username, same_codes,
  same_codes_refl, by_username, found_operator, operator_of, check_login, distinct_names,
  scan_grants, record_login_failure, append,
}
use pda_backend.Identity.Sessions.{
  Manager, TokenClaims, Fresh, Database, SessionRow, TokenRow, Created, Refreshed, create,
  create_rows, authenticate, refresh, refresh_found, refresh_refusal, rotate, detect_reuse,
  insert_token, insert_session, revoke_open, is_live, access_claims, logout, revoke_refresh,
}
use pda_backend.Identity.Sessions.Rotation.{
  Call, Step, creates, refreshes, logs_out, revokes, apply, run, refreshed_once,
}
use pda_backend.Identity.Sessions.Revocation.{reuse_closes_session, session_deadline}

abbrev day : ℕ
day = 86_400_000_000_000

abbrev manager : Manager
manager = record {
  issuer = "pda";
  audience = "pda-api";
  access_ttl = 900_000_000_000;
  refresh_ttl = 2_592_000_000_000_000;
}

abbrev account : Account
account = record {
  id = "OP-1";
  username = "ann";
  employee_code = "E-1";
  display_name = "Ann";
  password_hash = "h";
  status = Status.active;
  shift_code = "A";
  failed_login_count = 0;
  locked_until = none;
  last_login_at = none;
  updated_at = 0;
  warehouses = "WH-1" ∷ [];
  grants = ("PICKER", some "task.read") ∷ [];
}

abbrev accounts : Accounts
accounts = record {
  operators = account ∷ [];
  devices = record { device_code = "D-1"; is_active = true } ∷ [];
  registrations =
      record { operator_id = "OP-1"; device_code = "D-1"; warehouse_id = "WH-1"; active = true }
      ∷ [];
  audit = [];
}

abbrev database : Database
database = record { accounts = accounts; sessions = []; tokens = [] }

abbrev operator : Operator
operator = record {
  id = "OP-1";
  employee_code = "E-1";
  username = "ann";
  display_name = "Ann";
  password = "";
  password_hash = "h";
  roles = "PICKER" ∷ [];
  permissions = "task.read" ∷ [];
  warehouse_ids = "WH-1" ∷ [];
  shift_code = "A";
  active = true;
}

abbrev fresh : String → String → Fresh
fresh id raw = record {
  session_id = "S-1";
  refresh_id = id;
  family_id = "F-1";
  token_id = id;
  raw = raw;
}

-- A token that is the name of its session.
abbrev signed : TokenClaims → Option String
signed c = some c.session_id

abbrev claims : String → TokenClaims
claims session = record {
  issuer = "pda";
  audience = "pda-api";
  subject = "OP-1";
  token_id = "R-1";
  session_id = session;
  operator_id = "OP-1";
  device_id = "D-1";
  warehouse_id = "WH-1";
  issued_at = 0;
  not_before = 0;
  expires_at = 900;
}

abbrev parsed : String → ℕ → Outcome TokenClaims
parsed token now = got (claims token)

abbrev hash : String → ℕ
hash String.[] = 0
hash (String.◌∷◌ c s) = code c + hash s

abbrev opened : Database
opened = (create manager signed parsed hash (fresh "R-1" "a") operator "D-1" "WH-1" 1000 database).1

abbrev rotated : Database
rotated = (refresh manager signed parsed hash (fresh "R-2" "b") "a" "D-1" 2000 opened).1

abbrev refreshed : String → Refreshed
refreshed raw = record {
  access = "S-1";
  refresh = raw;
  expires = 900_000_002_000;
  refresh_expires = 2_592_000_000_001_000;
  operator_id = "OP-1";
  device_id = "D-1";
  warehouse_id = "WH-1";
}

rotates :
    refresh manager signed parsed hash (fresh "R-2" "b") "a" "D-1" 2000 opened
    ≡ (got (refreshed "b"), rotated)
unfolding refresh refresh_found refresh_refusal rotate insert_token create create_rows
    insert_session is_registered is_among first_where update_where
rotates = refl

abbrev later_calls : List Step
later_calls =
    record { accounts = accounts; call = refreshes (fresh "R-3" "c") "b" "D-1" 3000 }
    ∷ record { accounts = accounts; call = logs_out "S-9" 4000 }
    ∷ []

refreshed_once_example :
    (refresh manager signed parsed hash
      (fresh "R-4" "d")
      "a"
      "D-1"
      5000
      (run manager signed parsed hash later_calls rotated)).0
    ≢ got (refreshed "d")
refreshed_once_example =
    refreshed_once manager signed parsed hash later_calls (fresh "R-2" "b") (fresh "R-4" "d") "a"
      "D-1" "D-1" 2000 5000 opened rotated (refreshed "b") (refreshed "d") rotates

-- The old token once more.
abbrev reused : Database
reused = (refresh manager signed parsed hash (fresh "R-4" "d") "a" "D-1" 5000 rotated).1

detects :
    refresh manager signed parsed hash (fresh "R-4" "d") "a" "D-1" 5000 rotated
    ≡ (failed refresh_reused, reused)
unfolding refresh refresh_found refresh_refusal rotate insert_token create create_rows
    insert_session is_registered is_among first_where update_where detect_reuse revoke_open
detects = refl

abbrev token_row : String → ℕ → Option String → Option ℕ → Option String → TokenRow
token_row id h parent used replaced = record {
  id = id;
  session_id = "S-1";
  token_hash = h;
  family_id = "F-1";
  parent_token_id = parent;
  issued_at = 1000;
  expires_at = 2_592_000_000_001_000;
  used_at = used;
  replaced_by_token_id = replaced;
  revoked_at = none;
  reuse_detected_at = none;
}

abbrev spent_row : TokenRow
spent_row = token_row "R-1" 97 none (some 2000) (some "R-2")

abbrev next_row : TokenRow
next_row = record (token_row "R-2" 98 (some "R-1") none none) { issued_at = 2000 }

abbrev shown : Claims
shown = record {
  operator_id = "OP-1";
  token_id = "R-1";
  session_id = "S-1";
  device_id = "D-1";
  warehouse_id = "WH-1";
  expires_at = 900;
}

abbrev logout_elsewhere : List Step
logout_elsewhere = record { accounts = accounts; call = logs_out "S-9" 6000 } ∷ []

finds_spent : first_where (λ t. eqb t.token_hash 97) rotated.tokens ≡ some spent_row
unfolding refresh refresh_found refresh_refusal rotate insert_token create create_rows
    insert_session is_registered is_among first_where update_where
finds_spent = refl

finds_next :
    first_where
      (λ t. eqb t.token_hash 98)
      (run manager signed parsed hash logout_elsewhere reused).tokens
    ≡ some next_row
unfolding refresh refresh_found refresh_refusal rotate insert_token create create_rows
    insert_session is_registered is_among first_where update_where detect_reuse revoke_open run
    apply logout
finds_next = refl

reuse_closes_session_example :
    (authenticate manager signed parsed hash "S-1" 7000
        (run manager signed parsed hash logout_elsewhere reused)
      ≢ got shown)
    × ((refresh manager signed parsed hash
          (fresh "R-5" "e")
          "b"
          "D-1"
          7000
          (run manager signed parsed hash logout_elsewhere reused)).0
        ≢ got (refreshed "e"))
reuse_closes_session_example =
    reuse_closes_session manager signed parsed hash logout_elsewhere (fresh "R-4" "d")
      (fresh "R-5" "e") "S-1" "a" "b" "D-1" "D-1" 5000 7000 rotated reused (claims "S-1") spent_row
      next_row shown (refreshed "e") finds_spent detects refl refl finds_next refl

abbrev created : Created
created = record {
  access = "S-1";
  refresh = "a";
  expires = 900_000_001_000;
  refresh_expires = 2_592_000_000_001_000;
}

opens :
    create manager signed parsed hash (fresh "R-1" "a") operator "D-1" "WH-1" 1000 database
    ≡ (got created, opened)
unfolding create create_rows insert_session insert_token is_registered is_among first_where
opens = refl

abbrev renewal : List Step
renewal = record { accounts = accounts; call = refreshes (fresh "R-2" "b") "a" "D-1" 2000 } ∷ []

finds_renewed :
    first_where (λ t. eqb t.token_hash 98) (run manager signed parsed hash renewal opened).tokens
    ≡ some next_row
unfolding refresh refresh_found refresh_refusal rotate insert_token create create_rows
    insert_session is_registered is_among first_where update_where run apply
finds_renewed = refl

session_deadline_example :
    (authenticate manager signed parsed hash "S-1"
        (1000 + 30 * day)
        (run manager signed parsed hash renewal opened)
      ≢ got shown)
    × ((refresh manager signed parsed hash
          (fresh "R-3" "c")
          "b"
          "D-1"
          (1000 + 30 * day)
          (run manager signed parsed hash renewal opened)).0
        ≢ got (refreshed "c"))
session_deadline_example =
    session_deadline manager signed parsed hash renewal (fresh "R-1" "a") (fresh "R-3" "c") operator
      "D-1" "WH-1" "S-1" "b" "D-1" 1000 (1000 + 30 * day) database opened (claims "S-1") next_row
      shown created (refreshed "c") opens (omega arith) refl refl finds_renewed refl
