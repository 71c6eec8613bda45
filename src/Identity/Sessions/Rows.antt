-- ===== src/Identity/Sessions/Rows.antt =====
-- identity/adapters/postgres/session.go: the rows of identity_sessions and identity_refresh_tokens,
-- the statements on them, and the claims of an access token.
use Prim.Native.Nat.{◌/◌}
use pda_backend.Common.{
  ℕ, String, Option, none, some, List, [], ◌∷◌, ◌++◌, Bool, true, false, ◌&&◌, ◌||◌, ◌==◌, eqb, any,
  if◌then◌else◌,
}
use pda_backend.Common.Rows.{update_where}
use pda_backend.Identity.Ports.{Operator}
use pda_backend.Identity.Operators.{Accounts}

pub record TokenClaims : Type 0 where
  pub issuer : String
  pub audience : String
  pub subject : String
  pub token_id : String
  pub session_id : String
  pub operator_id : String
  pub device_id : String
  pub warehouse_id : String
  pub issued_at : ℕ
  pub not_before : ℕ
  pub expires_at : ℕ

pub data SessionStatus : Type 0 where
  active revoked : SessionStatus

-- A row of identity_sessions; a NULL device or warehouse is "".
pub record SessionRow : Type 0 where
  pub id : String
  pub operator_id : String
  pub device_code : String
  pub warehouse_id : String
  pub status : SessionStatus
  pub expires_at : ℕ
  pub revoked_at : Option ℕ
  pub revocation_reason : String

-- A row of identity_refresh_tokens.
pub record TokenRow : Type 0 where
  pub id : String
  pub session_id : String
  pub token_hash : ℕ
  pub family_id : String
  pub parent_token_id : Option String
  pub issued_at : ℕ
  pub expires_at : ℕ
  pub used_at : Option ℕ
  pub replaced_by_token_id : Option String
  pub revoked_at : Option ℕ
  pub reuse_detected_at : Option ℕ

pub record Database : Type 0 where
  pub accounts : Accounts
  pub sessions : List SessionRow
  pub tokens : List TokenRow

-- The fields of SessionManager that Create and Refresh read.
pub record Manager : Type 0 where
  pub issuer : String
  pub audience : String
  pub access_ttl : ℕ
  pub refresh_ttl : ℕ

-- What one call takes from outside.
pub record Fresh : Type 0 where
  pub session_id : String
  pub refresh_id : String
  pub family_id : String
  pub token_id : String
  pub raw : String

pub record Created : Type 0 where
  pub access : String
  pub refresh : String
  pub expires : ℕ
  pub refresh_expires : ℕ

pub record Refreshed : Type 0 where
  pub access : String
  pub refresh : String
  pub expires : ℕ
  pub refresh_expires : ℕ
  pub operator_id : String
  pub device_id : String
  pub warehouse_id : String

-- `t.Unix()`
abbrev pub unix : ℕ → ℕ
unix t = t / 1_000_000_000

abbrev pub is_session : String → SessionRow → Bool
is_session id s = s.id == id

abbrev pub is_token : String → TokenRow → Bool
is_token id t = t.id == id

abbrev pub is_hash : ℕ → TokenRow → Bool
is_hash h t = eqb t.token_hash h

abbrev pub is_open : SessionStatus → Bool
is_open SessionStatus.active = true
is_open SessionStatus.revoked = false

abbrev pub is_set : {A : Type 0} → Option A → Bool
is_set none = false
is_set (some a) = true

-- `COALESCE(column,$2)`
abbrev pub coalesce : Option ℕ → ℕ → Option ℕ
coalesce none now = some now
coalesce (some t) now = some t

-- `SET status='REVOKED',revoked_at=$2,revocation_reason=…`
abbrev pub revoke_session : String → ℕ → SessionRow → SessionRow
revoke_session reason now s = record s {
  status = SessionStatus.revoked;
  revoked_at = some now;
  revocation_reason = reason;
}

-- `UPDATE identity_sessions … WHERE id=$1 AND status='ACTIVE'`
unfoldable pub revoke_open : String → String → ℕ → List SessionRow → List SessionRow
revoke_open id reason now =
    update_where (λ s. is_session id s && is_open s.status) (revoke_session reason now)

-- `INSERT INTO identity_refresh_tokens`, under its primary key and the unique hash.
unfoldable pub insert_token : TokenRow → List TokenRow → Option (List TokenRow)
insert_token t ts =
    if any (λ u. is_token t.id u || is_hash t.token_hash u) ts then none else some (ts ++ (t ∷ []))

unfoldable pub insert_session : SessionRow → List SessionRow → Option (List SessionRow)
insert_session s ss = if any (is_session s.id) ss then none else some (ss ++ (s ∷ []))

abbrev pub new_session : Fresh → Operator → String → String → ℕ → SessionRow
new_session fresh operator device_id warehouse_id expires = record {
  id = fresh.session_id;
  operator_id = operator.id;
  device_code = device_id;
  warehouse_id = warehouse_id;
  status = SessionStatus.active;
  expires_at = expires;
  revoked_at = none;
  revocation_reason = "";
}

abbrev pub new_token :
    Fresh → ℕ → (session_id family_id : String) → Option String → ℕ → ℕ → TokenRow
new_token fresh hash session_id family_id parent now expires = record {
  id = fresh.refresh_id;
  session_id = session_id;
  token_hash = hash;
  family_id = family_id;
  parent_token_id = parent;
  issued_at = now;
  expires_at = expires;
  used_at = none;
  replaced_by_token_id = none;
  revoked_at = none;
  reuse_detected_at = none;
}
