-- ===== src/Identity/Sessions/Revocation.antt =====
-- When a session ends: the replay of a refresh token, and the time that Create sets.
use pda_backend.Common.{
  ℕ, ◌≤◌, ◌+◌, String, ◌≡◌, refl, ◌≢◌, inl, inr, Option, some, List, [], ◌∷◌, Bool, true, false,
  not, ◌&&◌, leb, Option-cases, arith, eq_refl, eq_iff,
}
use pda_backend.Common.Rows.{
  first_where, first_where-update, first_where-selects, first_where-appended, holds_first,
  holds_first-append, holds_first-update,
}
use pda_backend.Identity.Ports.{
  Operator, Claims, Outcome, got, failed, refresh_reused, Outcome-cases,
}
use pda_backend.Identity.Sessions.{
  Manager, TokenClaims, Fresh, Database, TokenRow, SessionRow, Created, Refreshed, is_hash,
  is_session, is_open, is_live, insert_session, create, create_rows, authenticate, refresh,
  refresh_found, rotate, detect_reuse, refresh_refusal, logout, revoke_refresh, revoke_open,
  new_session, revoke_session,
}
use pda_backend.Identity.Sessions.Rotation.{
  Call, Step, creates, refreshes, logs_out, revokes, apply, run,
}

-- A test of a session that its revocation cannot undo.
IsLasting : (SessionRow → Bool) → Type 0
IsLasting P =
    (s : SessionRow) (reason : String) (now : ℕ)
    → P s ≡ true
    → P (revoke_session reason now s) ≡ true

abbrev session_holds : String → (SessionRow → Bool) → Database → Bool
session_holds id P db = holds_first (is_session id) P db.sessions

insert_session-holds :
    (id : String) (P : SessionRow → Bool) (s : SessionRow) (ss ss' : List SessionRow)
    → insert_session s ss ≡ some ss'
    → holds_first (is_session id) P ss ≡ true
    → holds_first (is_session id) P ss' ≡ true
unfolding insert_session
insert_session-holds id P s ss ss' i k = ground (arith, holds_first-append (is_session id) P ss s k)

revoke_open-holds :
    (id other reason : String) (P : SessionRow → Bool) (now : ℕ) (ss : List SessionRow)
    → IsLasting P
    → holds_first (is_session id) P ss ≡ true
    → holds_first (is_session id) P (revoke_open other reason now ss) ≡ true
unfolding revoke_open IsLasting
revoke_open-holds id other reason P now ss lasting k =
    holds_first-update (is_session id) P (λ s. is_session other s && is_open s.status)
      (revoke_session reason now) ss (λ s. refl) (λ s. lasting s reason now) k

abbrev is_closed : SessionRow → Bool
is_closed s = not (is_open s.status)

abbrev ends_by : ℕ → SessionRow → Bool
ends_by deadline s = leb s.expires_at deadline

is_closed-IsLasting : IsLasting is_closed
unfolding IsLasting
is_closed-IsLasting s reason now k = refl

ends_by-IsLasting : (deadline : ℕ) → IsLasting (ends_by deadline)
unfolding IsLasting
ends_by-IsLasting deadline s reason now k = k

revoke_open-closes :
    (id reason : String) (now : ℕ) (ss : List SessionRow) (s : SessionRow)
    → first_where (is_session id) ss ≡ some s
    → holds_first (is_session id) is_closed (revoke_open id reason now ss) ≡ true
unfolding revoke_open
revoke_open-closes id reason now ss s found = ground (
  arith,
  first_where-selects (is_session id) ss s found,
  first_where-update (is_session id) (λ r. is_session id r && is_open r.status)
      (revoke_session reason now) ss (λ r. refl),
)

module _ (m : Manager) (sign : TokenClaims → Option String)
    (parse : String → ℕ → Outcome TokenClaims) (token_hash : String → ℕ) where
  module _ (id : String) (P : SessionRow → Bool) (lasting : IsLasting P) where
    create-lasts :
        (fresh : Fresh) (operator : Operator) (device warehouse : String) (now : ℕ) (db : Database)
        → session_holds id P db ≡ true
        → session_holds id P
            (create m sign parse token_hash fresh operator device warehouse now db).1
          ≡ true
    unfolding create create_rows
    create-lasts fresh operator device warehouse now db k =
        let s = new_session fresh operator device warehouse (now + m.refresh_ttl) in
        elim (Option-cases (insert_session s db.sessions)) [
          | inl taken ↦ ground arith
          | inr (ss, made) ↦ ground (arith, insert_session-holds id P s db.sessions ss made k)
        ]

    refresh-lasts :
        (fresh : Fresh) (raw device : String) (now : ℕ) (db : Database)
        → session_holds id P db ≡ true
        → session_holds id P (refresh m sign parse token_hash fresh raw device now db).1 ≡ true
    unfolding refresh refresh_found rotate detect_reuse
    refresh-lasts fresh raw device now db k =
        elim (Option-cases (first_where (is_hash (token_hash raw)) db.tokens)) [
          | inl missing ↦ ground arith
          | inr (t, found) ↦
              elim (Option-cases (first_where (is_session t.session_id) db.sessions)) [
                | inl missing ↦ ground arith
                | inr (s, found') ↦
                    ground
                      (arith, revoke_open-holds id s.id "refresh_reuse" P now db.sessions lasting k)
              ]
        ]

    revoke_refresh-lasts :
        (raw : String) (now : ℕ) (db : Database)
        → session_holds id P db ≡ true
        → session_holds id P (revoke_refresh m sign parse token_hash raw now db).1 ≡ true
    unfolding revoke_refresh IsLasting
    revoke_refresh-lasts raw now db k =
        elim (Option-cases (first_where (is_hash (token_hash raw)) db.tokens)) [
          | inl missing ↦ ground arith
          | inr (t, found) ↦
              elim (Option-cases (first_where (is_session t.session_id) db.sessions)) [
                | inl missing ↦ ground arith
                | inr (s, found') ↦ ground (
                  arith,
                  holds_first-update (is_session id) P (is_session s.id)
                      (revoke_session "logout" now) db.sessions (λ r. refl)
                      (λ r. lasting r "logout" now) k,
                )
              ]
        ]

    logout-lasts :
        (token : String) (now : ℕ) (db : Database)
        → session_holds id P db ≡ true
        → session_holds id P (logout m sign parse token_hash token now db).1 ≡ true
    unfolding logout
    logout-lasts token now db k = elim (Outcome-cases (parse token now)) [
      | inl (e, bad) ↦ ground arith
      | inr (c, good) ↦
          ground (arith, revoke_open-holds id c.session_id "logout" P now db.sessions lasting k)
    ]

    run-lasts :
        (xs : List Step) (db : Database)
        → session_holds id P db ≡ true
        → session_holds id P (run m sign parse token_hash xs db) ≡ true
    unfolding run apply
    run-lasts [] db k = k
    run-lasts (x ∷ xs) db k = run-lasts xs _ (call-lasts x.call _ k)
      where
        call-lasts :
            (c : Call) (d : Database)
            → session_holds id P d ≡ true
            → session_holds id P (apply m sign parse token_hash c d) ≡ true
        call-lasts (creates fresh operator device warehouse now) d k' =
            create-lasts fresh operator device warehouse now d k'
        call-lasts (refreshes fresh raw device now) d k' = refresh-lasts fresh raw device now d k'
        call-lasts (logs_out token now) d k' = logout-lasts token now d k'
        call-lasts (revokes raw now) d k' = revoke_refresh-lasts raw now d k'

  -- A session that is not live is closed to its access tokens and to its refresh tokens.
  dead-refused :
      (id : String) (fresh : Fresh) (token raw device : String) (now : ℕ) (db : Database)
      (c : TokenClaims) (t : TokenRow) (claims : Claims) (r : Refreshed)
      → is_live (first_where (is_session id) db.sessions) now ≡ false
      → parse token now ≡ got c
      → c.session_id ≡ id
      → first_where (is_hash (token_hash raw)) db.tokens ≡ some t
      → t.session_id ≡ id
      → (authenticate m sign parse token_hash token now db ≢ got claims)
        × ((refresh m sign parse token_hash fresh raw device now db).0 ≢ got r)
  unfolding is_live authenticate refresh refresh_found refresh_refusal
  dead-refused id fresh token raw device now db c t claims r dead parsed same found same' =
      elim (Option-cases (first_where (is_session id) db.sessions)) [
        | inl missing ↦ (ground arith, ground arith)
        | inr (s, there) ↦ (ground arith, ground arith)
      ]

  reuse-closes :
      (fresh : Fresh) (raw device : String) (now : ℕ) (db db' : Database) (t : TokenRow)
      → first_where (is_hash (token_hash raw)) db.tokens ≡ some t
      → refresh m sign parse token_hash fresh raw device now db ≡ (failed refresh_reused, db')
      → session_holds t.session_id is_closed db' ≡ true
  unfolding refresh refresh_found refresh_refusal rotate detect_reuse
  reuse-closes fresh raw device now db db' t found k =
      elim (Option-cases (first_where (is_session t.session_id) db.sessions)) [
        | inl missing ↦ ground arith
        | inr (s, there) ↦ ground (
          arith,
          first_where-selects (is_session t.session_id) db.sessions s there,
          eq_iff s.id t.session_id,
          revoke_open-closes t.session_id "refresh_reuse" now db.sessions s there,
        )
      ]

  -- After a refresh was refused because its token was used before, whatever calls follow, no access
  -- token of its session is accepted and no refresh with a token of the session succeeds.
  pub reuse_closes_session :
      (xs : List Step) (fresh fresh' : Fresh) (token raw raw' device device' : String)
      (now now' : ℕ) (db db' : Database) (c : TokenClaims) (t t' : TokenRow) (claims : Claims)
      (r : Refreshed)
      → first_where (is_hash (token_hash raw)) db.tokens ≡ some t
      → refresh m sign parse token_hash fresh raw device now db ≡ (failed refresh_reused, db')
      → parse token now' ≡ got c
      → c.session_id ≡ t.session_id
      → first_where (is_hash (token_hash raw')) (run m sign parse token_hash xs db').tokens
        ≡ some t'
      → t'.session_id ≡ t.session_id
      → (authenticate m sign parse token_hash token now' (run m sign parse token_hash xs db')
          ≢ got claims)
        × ((refresh m sign parse token_hash fresh' raw' device' now'
              (run m sign parse token_hash xs db')).0
            ≢ got r)
  unfolding is_live
  reuse_closes_session xs fresh fresh' token raw raw' device device' now now' db db' c t t' claims r
        found k parsed same found' same' =
      let d = run m sign parse token_hash xs db' in
      let kept =
        run-lasts t.session_id is_closed is_closed-IsLasting xs db'
          (reuse-closes fresh raw device now db db' t found k) in
      dead-refused t.session_id fresh' token raw' device' now' d c t' claims r
        (elim (Option-cases (first_where (is_session t.session_id) d.sessions)) [
          | inl missing ↦ ground arith
          | inr (s, there) ↦ ground arith
        ])
        parsed same found' same'

  create-ends :
      (fresh : Fresh) (operator : Operator) (device warehouse : String) (now : ℕ)
      (db db' : Database) (r : Created)
      → create m sign parse token_hash fresh operator device warehouse now db ≡ (got r, db')
      → session_holds fresh.session_id (ends_by (now + m.refresh_ttl)) db' ≡ true
  unfolding create create_rows insert_session
  create-ends fresh operator device warehouse now db db' r k = ground (
    arith,
    eq_refl fresh.session_id,
    first_where-appended (is_session fresh.session_id) db.sessions
        (new_session fresh operator device warehouse (now + m.refresh_ttl)),
  )

  -- A session ends when the refresh lifetime has passed since it was created: from then on,
  -- whatever calls came between, refreshes included, no access token of it is accepted and no
  -- refresh with one of its tokens succeeds.
  pub session_deadline :
      (xs : List Step) (fresh fresh' : Fresh) (operator : Operator)
      (device warehouse token raw device' : String) (now now' : ℕ) (db db' : Database)
      (c : TokenClaims) (t : TokenRow) (claims : Claims) (r : Created) (r' : Refreshed)
      → create m sign parse token_hash fresh operator device warehouse now db ≡ (got r, db')
      → now + m.refresh_ttl ≤ now'
      → parse token now' ≡ got c
      → c.session_id ≡ fresh.session_id
      → first_where (is_hash (token_hash raw)) (run m sign parse token_hash xs db').tokens ≡ some t
      → t.session_id ≡ fresh.session_id
      → (authenticate m sign parse token_hash token now' (run m sign parse token_hash xs db')
          ≢ got claims)
        × ((refresh m sign parse token_hash fresh' raw device' now'
              (run m sign parse token_hash xs db')).0
            ≢ got r')
  unfolding is_live
  session_deadline xs fresh fresh' operator device warehouse token raw device' now now' db db' c t
        claims r r' k late parsed same found same' =
      let d = run m sign parse token_hash xs db' in
      let kept =
        run-lasts fresh.session_id (ends_by (now + m.refresh_ttl))
          (ends_by-IsLasting (now + m.refresh_ttl)) xs db'
          (create-ends fresh operator device warehouse now db db' r k) in
      dead-refused fresh.session_id fresh' token raw device' now' d c t claims r'
        (elim (Option-cases (first_where (is_session fresh.session_id) d.sessions)) [
          | inl missing ↦ ground arith
          | inr (s, there) ↦ ground arith
        ])
        parsed same found same'
