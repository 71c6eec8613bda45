-- ===== src/Identity/Sessions.antt =====
-- identity/adapters/postgres/session.go: sessions, and refresh tokens that are used once. Signing and
-- parsing an access token are parameters, which Identity/Tokens defines, and so is SHA-256; new
-- identifiers and random tokens are arguments.
pub mod Rows
pub mod Rotation
pub mod Revocation
use Prim.Native.Nat.{◌/◌}
use pda_backend.Common.{
  ℕ, ◌+◌, String, Option, none, some, List, [], ◌∷◌, ◌++◌, Bool, true, false, not, ◌&&◌, ◌||◌, ◌==◌,
  eqb, ltb, any, if◌then◌else◌,
}
use pda_backend.Common.Rows.{first_where, update_where}
use pda_backend.Identity.Ports.{
  Operator, DeviceRegistration, PortError, Claims, Outcome, got, failed, can_access_warehouse,
  other, session_revoked, refresh_invalid, user_disabled, refresh_reused, refresh_revoked,
  refresh_expired, device_mismatch,
}
use pda_backend.Identity.Operators.{Accounts, has_id, is_active, is_registered}
unfoldable pub use Rows.*

-- Whether the session's row is active and has not expired.
unfoldable pub is_live : Option SessionRow → ℕ → Bool
is_live none now = false
is_live (some s) now = is_open s.status && ltb now s.expires_at

abbrev pub access_claims :
    Manager → String → (session operator device warehouse : String) → ℕ → TokenClaims
access_claims m token_id session operator device warehouse now = record {
  issuer = m.issuer;
  audience = m.audience;
  subject = operator;
  token_id = token_id;
  session_id = session;
  operator_id = operator;
  device_id = device;
  warehouse_id = warehouse;
  issued_at = unix now;
  not_before = unix now;
  expires_at = unix (now + m.access_ttl);
}

module _ (m : Manager) (sign : TokenClaims → Option String)
    (parse : String → ℕ → Outcome TokenClaims) (token_hash : String → ℕ) where
  -- The transaction of Create, behind its two checks.
  unfoldable pub create_rows :
      Fresh → Operator → String → String → ℕ → Database → Outcome Created × Database
  create_rows fresh operator device_id warehouse_id now db =
      let expires = now + m.refresh_ttl in
      let session = new_session fresh operator device_id warehouse_id expires in
      let token =
        new_token fresh (token_hash fresh.raw) fresh.session_id fresh.family_id none now expires in
      elim (insert_session session db.sessions) [
        | none ↦ (failed other, db)
        | some sessions ↦ elim (insert_token token db.tokens) [
          | none ↦ (failed other, db)
          | some tokens ↦
              elim (sign (
                access_claims m fresh.token_id fresh.session_id operator.id device_id warehouse_id
                  now)) [
                    | none ↦ (failed other, db)
                    | some access ↦ (
                      got (record {
                        access = access;
                        refresh = fresh.raw;
                        expires = now + m.access_ttl;
                        refresh_expires = expires;
                      }),
                      record db { sessions = sessions; tokens = tokens },
                    )
                  ]
        ]
      ]

  unfoldable pub create :
      Fresh → Operator → String → String → ℕ → Database → Outcome Created × Database
  create fresh operator device_id warehouse_id now db =
      if not (warehouse_id == "") && not (can_access_warehouse operator warehouse_id)
      then (failed other, db)
      else if not (device_id == "")
          && not (warehouse_id == "")
          && not (
              is_registered
                (record {
                  device_id = device_id;
                  operator_id = operator.id;
                  warehouse_id = warehouse_id;
                })
                db.accounts)
      then (failed other, db)
      else create_rows fresh operator device_id warehouse_id now db

  unfoldable pub authenticate : String → ℕ → Database → Outcome Claims
  authenticate token now db = elim (parse token now) [
    | failed e ↦ failed e
    | got c ↦
        if is_live (first_where (is_session c.session_id) db.sessions) now
        then got (record {
          operator_id = c.operator_id;
          token_id = c.token_id;
          session_id = c.session_id;
          device_id = c.device_id;
          warehouse_id = c.warehouse_id;
          expires_at = c.expires_at;
        })
        else failed session_revoked
  ]

  -- What Refresh writes about a token that was used or revoked before, and commits.
  unfoldable pub detect_reuse : TokenRow → SessionRow → ℕ → Database → Database
  detect_reuse t s now db = record db {
    tokens =
        update_where (is_token t.id)
          (λ r. record r { reuse_detected_at = coalesce r.reuse_detected_at now }) db.tokens;
    sessions = revoke_open s.id "refresh_reuse" now db.sessions;
  }

  -- The refusals of Refresh that come behind the test for a reused token.
  unfoldable pub refresh_refusal : TokenRow → SessionRow → String → ℕ → Option PortError
  refresh_refusal t s device_id now =
      if not (is_open s.status)
      then some refresh_revoked
      else if not (ltb now t.expires_at) || not (ltb now s.expires_at)
      then some refresh_expired
      else if not (device_id == "") && not (s.device_code == "") && not (device_id == s.device_code)
      then some device_mismatch
      else none

  -- The new token of the family, and the old one marked as used.
  unfoldable pub rotate :
      Fresh → TokenRow → SessionRow → ℕ → Database → Outcome Refreshed × Database
  rotate fresh t s now db =
      let token =
        new_token fresh (token_hash fresh.raw) s.id t.family_id (some t.id) now s.expires_at in
      elim (insert_token token db.tokens) [
        | none ↦ (failed other, db)
        | some tokens ↦
            elim (sign (
              access_claims m fresh.token_id s.id s.operator_id s.device_code s.warehouse_id now)) [
                | none ↦ (failed other, db)
                | some access ↦ (
                  got (record {
                    access = access;
                    refresh = fresh.raw;
                    expires = now + m.access_ttl;
                    refresh_expires = s.expires_at;
                    operator_id = s.operator_id;
                    device_id = s.device_code;
                    warehouse_id = s.warehouse_id;
                  }),
                  record db {
                    tokens =
                        update_where (is_token t.id)
                          (λ r. record r {
                            used_at = some now;
                            replaced_by_token_id = some fresh.refresh_id;
                          })
                          tokens;
                  },
                )
              ]
      ]

  -- Refresh, with the rows of the join found.
  unfoldable pub refresh_found :
      Fresh → TokenRow → SessionRow → Bool → String → ℕ → Database → Outcome Refreshed × Database
  refresh_found fresh t s enabled device_id now db =
      if not enabled
      then (failed user_disabled, db)
      else if is_set t.used_at || is_set t.revoked_at
      then (failed refresh_reused, detect_reuse t s now db)
      else elim (refresh_refusal t s device_id now) [
        | some e ↦ (failed e, db)
        | none ↦ rotate fresh t s now db
      ]

  unfoldable pub refresh : Fresh → String → String → ℕ → Database → Outcome Refreshed × Database
  refresh fresh raw device_id now db = elim (first_where (is_hash (token_hash raw)) db.tokens) [
    | none ↦ (failed refresh_invalid, db)
    | some t ↦ elim (first_where (is_session t.session_id) db.sessions) [
      | none ↦ (failed refresh_invalid, db)
      | some s ↦ elim (first_where (has_id s.operator_id) db.accounts.operators) [
        | none ↦ (failed refresh_invalid, db)
        | some o ↦ refresh_found fresh t s (is_active o.status) device_id now db
      ]
    ]
  ]

  unfoldable pub logout : String → ℕ → Database → Outcome (Unit {0}) × Database
  logout token now db = elim (parse token now) [
    | failed e ↦ (failed e, db)
    | got c ↦ (got tt, record db { sessions = revoke_open c.session_id "logout" now db.sessions })
  ]

  unfoldable pub revoke_refresh : String → ℕ → Database → Outcome (Unit {0}) × Database
  revoke_refresh raw now db = elim (first_where (is_hash (token_hash raw)) db.tokens) [
    | none ↦ (failed refresh_invalid, db)
    | some t ↦ elim (first_where (is_session t.session_id) db.sessions) [
      | none ↦ (failed refresh_invalid, db)
      | some s ↦ if not (is_open s.status) then (failed session_revoked, db) else (
        got tt,
        record db {
          sessions = update_where (is_session s.id) (revoke_session "logout" now) db.sessions;
          tokens =
              update_where (λ r. r.session_id == s.id && not (is_set r.revoked_at))
                (λ r. record r { revoked_at = coalesce r.revoked_at now }) db.tokens;
        },
      )
    ]
  ]
