-- ===== src/Identity/Sessions/Rotation.antt =====
-- Sequences of calls on the sessions, and the single use of a refresh token.
use pda_backend.Common.{
  ℕ, ◌+◌, String, ◌≡◌, refl, ◌≢◌, inl, inr, Option, none, some, List, [], ◌∷◌, ◌++◌, Bool, true,
  ◌||◌, Option-cases, arith, eq_refl, ◌&&◌, not, ◌==◌,
}
use pda_backend.Common.Rows.{
  first_where, first_where-append, first_where-update, holds_first, holds_first-append,
  holds_first-update,
}
use pda_backend.Identity.Ports.{Operator, Outcome, got}
use pda_backend.Identity.Operators.{Accounts}
use pda_backend.Identity.Sessions.{
  Manager, TokenClaims, Fresh, Database, TokenRow, SessionRow, Refreshed, is_hash, is_set, is_token,
  insert_token, create, create_rows, refresh, refresh_found, rotate, detect_reuse, logout,
  revoke_refresh, is_session, new_token, coalesce,
}

pub data Call : Type 0 where
  creates : Fresh → Operator → (device warehouse : String) → (now : ℕ) → Call
  refreshes : Fresh → (raw device : String) → (now : ℕ) → Call
  logs_out revokes : String → (now : ℕ) → Call

-- The accounts may change between the calls.
pub record Step : Type 0 where
  pub accounts : Accounts
  pub call : Call

-- A test of a token that nothing the calls write can undo.
pub record IsStable (P : TokenRow → Bool) : Type 0 where
  pub used :
      (r : TokenRow) (now : ℕ) (id : String)
      → P r ≡ true
      → P (record r { used_at = some now; replaced_by_token_id = some id }) ≡ true
  pub detected :
      (r : TokenRow) (at : Option ℕ) → P r ≡ true → P (record r { reuse_detected_at = at }) ≡ true
  pub revoked :
      (r : TokenRow) (now : ℕ)
      → P r ≡ true
      → P (record r { revoked_at = coalesce r.revoked_at now }) ≡ true

abbrev pub token_holds : ℕ → (TokenRow → Bool) → Database → Bool
token_holds h P db = holds_first (is_hash h) P db.tokens

insert_token-holds :
    (h : ℕ) (P : TokenRow → Bool) (t : TokenRow) (ts ts' : List TokenRow)
    → insert_token t ts ≡ some ts'
    → holds_first (is_hash h) P ts ≡ true
    → holds_first (is_hash h) P ts' ≡ true
unfolding insert_token
insert_token-holds h P t ts ts' i s = ground (arith, holds_first-append (is_hash h) P ts t s)

module _ (m : Manager) (sign : TokenClaims → Option String)
    (parse : String → ℕ → Outcome TokenClaims) (token_hash : String → ℕ) where
  unfoldable pub apply : Call → Database → Database
  apply (creates fresh operator device warehouse now) db =
      (create m sign parse token_hash fresh operator device warehouse now db).1
  apply (refreshes fresh raw device now) db =
      (refresh m sign parse token_hash fresh raw device now db).1
  apply (logs_out token now) db = (logout m sign parse token_hash token now db).1
  apply (revokes raw now) db = (revoke_refresh m sign parse token_hash raw now db).1

  unfoldable pub run : List Step → Database → Database
  run [] db = db
  run (x ∷ xs) db = run xs (apply x.call (record db { accounts = x.accounts }))

  module _ (h : ℕ) (P : TokenRow → Bool) (stable : IsStable P) where
    create-holds :
        (fresh : Fresh) (operator : Operator) (device warehouse : String) (now : ℕ) (db : Database)
        → token_holds h P db ≡ true
        → token_holds h P (create m sign parse token_hash fresh operator device warehouse now db).1
          ≡ true
    unfolding create create_rows
    create-holds fresh operator device warehouse now db k =
        let t =
          new_token fresh (token_hash fresh.raw) fresh.session_id fresh.family_id none now
            (now + m.refresh_ttl) in
        elim (Option-cases (insert_token t db.tokens)) [
          | inl taken ↦ ground arith
          | inr (ts, made) ↦ ground (arith, insert_token-holds h P t db.tokens ts made k)
        ]

    rotate-holds :
        (fresh : Fresh) (t : TokenRow) (s : SessionRow) (now : ℕ) (db : Database)
        → token_holds h P db ≡ true
        → token_holds h P (rotate m sign parse token_hash fresh t s now db).1 ≡ true
    unfolding rotate
    rotate-holds fresh t s now db k =
        let new =
          new_token fresh (token_hash fresh.raw) s.id t.family_id (some t.id) now s.expires_at in
        elim (Option-cases (insert_token new db.tokens)) [
          | inl taken ↦ ground arith
          | inr (ts, made) ↦
              let kept = insert_token-holds h P new db.tokens ts made k in
              ground (
                arith,
                holds_first-update (is_hash h) P (is_token t.id)
                    (λ r. record r {
                      used_at = some now;
                      replaced_by_token_id = some fresh.refresh_id;
                    })
                    ts (λ r. refl) (λ r. stable.used r now fresh.refresh_id) kept,
              )
        ]

    detect_reuse-holds :
        (t : TokenRow) (s : SessionRow) (now : ℕ) (db : Database)
        → token_holds h P db ≡ true
        → token_holds h P (detect_reuse m sign parse token_hash t s now db) ≡ true
    unfolding detect_reuse
    detect_reuse-holds t s now db k =
        holds_first-update (is_hash h) P (is_token t.id)
          (λ r. record r { reuse_detected_at = coalesce r.reuse_detected_at now }) db.tokens
          (λ r. refl) (λ r. stable.detected r (coalesce r.reuse_detected_at now)) k

    refresh-holds :
        (fresh : Fresh) (raw device : String) (now : ℕ) (db : Database)
        → token_holds h P db ≡ true
        → token_holds h P (refresh m sign parse token_hash fresh raw device now db).1 ≡ true
    unfolding refresh refresh_found
    refresh-holds fresh raw device now db k =
        elim (Option-cases (first_where (is_hash (token_hash raw)) db.tokens)) [
          | inl missing ↦ ground arith
          | inr (t, found) ↦
              elim (Option-cases (first_where (is_session t.session_id) db.sessions)) [
                | inl missing ↦ ground arith
                | inr (s, found') ↦
                    ground (arith, rotate-holds fresh t s now db k, detect_reuse-holds t s now db k)
              ]
        ]

    revoke_refresh-holds :
        (raw : String) (now : ℕ) (db : Database)
        → token_holds h P db ≡ true
        → token_holds h P (revoke_refresh m sign parse token_hash raw now db).1 ≡ true
    unfolding revoke_refresh
    revoke_refresh-holds raw now db k =
        elim (Option-cases (first_where (is_hash (token_hash raw)) db.tokens)) [
          | inl missing ↦ ground arith
          | inr (t, found) ↦
              elim (Option-cases (first_where (is_session t.session_id) db.sessions)) [
                | inl missing ↦ ground arith
                | inr (s, found') ↦ ground (
                  arith,
                  holds_first-update (is_hash h) P
                      (λ r. r.session_id == s.id && not (is_set r.revoked_at))
                      (λ r. record r { revoked_at = coalesce r.revoked_at now }) db.tokens
                      (λ r. refl) (λ r. stable.revoked r now) k,
                )
              ]
        ]

    -- What a stable test has found once of a token it finds behind every sequence of calls.
    pub run-holds :
        (xs : List Step) (db : Database)
        → token_holds h P db ≡ true
        → token_holds h P (run xs db) ≡ true
    unfolding run apply logout
    run-holds [] db k = k
    run-holds (x ∷ xs) db k = run-holds xs _ (call-holds x.call _ k)
      where
        call-holds :
            (c : Call) (d : Database)
            → token_holds h P d ≡ true
            → token_holds h P (apply c d) ≡ true
        call-holds (creates fresh operator device warehouse now) d k' =
            create-holds fresh operator device warehouse now d k'
        call-holds (refreshes fresh raw device now) d k' = refresh-holds fresh raw device now d k'
        call-holds (logs_out token now) d k' = ground arith
        call-holds (revokes raw now) d k' = revoke_refresh-holds raw now d k'

  abbrev pub is_spent : TokenRow → Bool
  is_spent t = is_set t.used_at || is_set t.revoked_at

  is_spent-IsStable : IsStable is_spent
  is_spent-IsStable = record {
    used = λ r now id k. refl;
    detected = λ r at k. k;
    revoked = λ r now k. ground arith;
  }

  rotate-spends :
      (h : ℕ) (fresh : Fresh) (t : TokenRow) (s : SessionRow) (now : ℕ) (db db' : Database)
      (r : Refreshed)
      → first_where (is_hash h) db.tokens ≡ some t
      → rotate m sign parse token_hash fresh t s now db ≡ (got r, db')
      → token_holds h is_spent db' ≡ true
  unfolding rotate insert_token
  rotate-spends h fresh t s now db db' r found k =
      let new =
        new_token fresh (token_hash fresh.raw) s.id t.family_id (some t.id) now s.expires_at in
      ground (
        arith,
        eq_refl t.id,
        first_where-append (is_hash h) db.tokens t new found,
        first_where-update (is_hash h) (is_token t.id)
            (λ u. record u { used_at = some now; replaced_by_token_id = some fresh.refresh_id })
            (db.tokens ++ (new ∷ [])) (λ u. refl),
      )

  -- A refresh that succeeds leaves its token spent.
  refresh-spends :
      (fresh : Fresh) (raw device : String) (now : ℕ) (db db' : Database) (r : Refreshed)
      → refresh m sign parse token_hash fresh raw device now db ≡ (got r, db')
      → token_holds (token_hash raw) is_spent db' ≡ true
  unfolding refresh refresh_found
  refresh-spends fresh raw device now db db' r k =
      elim (Option-cases (first_where (is_hash (token_hash raw)) db.tokens)) [
        | inl missing ↦ ground arith
        | inr (t, found) ↦ elim (Option-cases (first_where (is_session t.session_id) db.sessions)) [
          | inl missing ↦ ground arith
          | inr (s, found') ↦
              ground (arith, rotate-spends (token_hash raw) fresh t s now db db' r found)
        ]
      ]

  spent-refused :
      (fresh : Fresh) (raw device : String) (now : ℕ) (db : Database) (r : Refreshed)
      → token_holds (token_hash raw) is_spent db ≡ true
      → (refresh m sign parse token_hash fresh raw device now db).0 ≢ got r
  unfolding refresh refresh_found
  spent-refused fresh raw device now db r k =
      elim (Option-cases (first_where (is_hash (token_hash raw)) db.tokens)) [
        | inl missing ↦ ground arith
        | inr (t, found) ↦ elim (Option-cases (first_where (is_session t.session_id) db.sessions)) [
          | inl missing ↦ ground arith
          | inr (s, found') ↦ ground arith
        ]
      ]

  -- A refresh token is accepted once: behind a refresh that succeeded with it, whatever calls
  -- follow and however the accounts change between them, no refresh with it succeeds.
  pub refreshed_once :
      (xs : List Step) (fresh fresh' : Fresh) (raw device device' : String) (now now' : ℕ)
      (db db' : Database) (r r' : Refreshed)
      → refresh m sign parse token_hash fresh raw device now db ≡ (got r, db')
      → (refresh m sign parse token_hash fresh' raw device' now' (run xs db')).0 ≢ got r'
  refreshed_once xs fresh fresh' raw device device' now now' db db' r r' k =
      spent-refused fresh' raw device' now' (run xs db') r' (
        run-holds (token_hash raw) is_spent is_spent-IsStable xs db'
          (refresh-spends fresh raw device now db db' r k))
