-- ===== src/Identity/Service/Lockout.antt =====
-- The counter of failed logins across a sequence of logins.
use pda_backend.Common.{
  ℕ, ◌+◌, ◌≤◌, ◌<◌, String, ◌≡◌, refl, inl, inr, Option, none, some, List, [], ◌∷◌, Bool, true,
  false, not, ◌&&◌, length, arith, Bool-cases, leb, ap, ◌∙◌,
}
use pda_backend.Common.Text.{trim_space}
use pda_backend.Common.Rows.{first_where, first_where-update, update_where, changed}
use pda_backend.Platform.Errors.{Error}
use pda_backend.Platform.Results.{Result, err}
use pda_backend.Identity.Ports.{Operator, Outcome}
use pda_backend.Identity.Operators.{
  scan_grants, Account, Status, has_username-trimmed, has_username, by_username, found_operator,
  operator_of, check_login, record_login_failure, after_failure, lock_time, append,
}
use pda_backend.Identity.Sessions.{Manager, TokenClaims, Fresh, Database}
use pda_backend.Identity.Service.{
  Session, authenticate_credentials, open_session, login_session_context, login_error,
}

pub record Attempt : Type 0 where
  pub fresh : Fresh
  pub password : String
  pub device_id : String
  pub warehouse_id : String
  pub correlation_id : String
  pub now : ℕ

abbrev row_of : String → Database → Option Account
row_of username db = first_where (has_username username) db.accounts.operators

failure-kept :
    (username name : String) (until : ℕ) (rows : List Account)
    → first_where
        (has_username username)
        (update_where (has_username name) (after_failure until) rows)
      ≡ changed (has_username name) (after_failure until) (first_where (has_username username) rows)
unfolding has_username
failure-kept username name until rows =
    first_where-update (has_username username) (has_username name) (after_failure until) rows
      (λ r. refl)

unfoldable pub all_wrong : (String → String → Bool) → String → List Attempt → Bool
all_wrong verify hash [] = true
all_wrong verify hash (x ∷ xs) = not (verify hash x.password) && all_wrong verify hash xs

module _ (verify : String → String → Bool) (m : Manager) (sign : TokenClaims → Option String)
    (parse : String → ℕ → Outcome TokenClaims) (token_hash : String → ℕ) (username : String) where
  unfoldable pub attempt : Attempt → Database → Result (Session × Operator) × Database
  attempt x db =
      login_session_context verify m sign parse token_hash x.fresh username x.password x.device_id
        x.warehouse_id x.correlation_id x.now db

  unfoldable pub attempts : List Attempt → Database → Database
  attempts [] db = db
  attempts (x ∷ xs) db = attempts xs (attempt x db).1

  locked-refused :
      (x : Attempt) (db : Database) (a : Account) (granted : List String × List String)
      → row_of username db ≡ some a
      → a.status ≡ Status.locked
      → scan_grants a.grants ≡ some granted
      → attempt x db ≡ (err Error.auth_account_locked, db)
  unfolding attempt login_session_context authenticate_credentials open_session check_login
      login_error by_username found_operator operator_of
  locked-refused x db a granted found locked readable = ground arith

  locked-stays :
      (xs : List Attempt) (db : Database) (a : Account) (granted : List String × List String)
      → row_of username db ≡ some a
      → a.status ≡ Status.locked
      → scan_grants a.grants ≡ some granted
      → attempts xs db ≡ db
  unfolding attempts
  locked-stays [] db a granted found locked readable = refl
  locked-stays (x ∷ xs) db a granted found locked readable =
      ap (λ p. attempts xs p.1) (locked-refused x db a granted found locked readable)
      ∙ locked-stays xs db a granted found locked readable

  wrong-counted :
      (x : Attempt) (db : Database) (a : Account) (granted : List String × List String)
      → row_of username db ≡ some a
      → a.status ≡ Status.active
      → a.locked_until ≡ none
      → trim_space a.username ≡ a.username
      → scan_grants a.grants ≡ some granted
      → verify a.password_hash x.password ≡ false
      → row_of username (attempt x db).1 ≡ some (after_failure (x.now + lock_time) a)
  unfolding attempt login_session_context authenticate_credentials open_session check_login
      by_username found_operator operator_of record_login_failure append
  wrong-counted x db a granted found active unlocked trimmed readable wrong = ground (
    arith,
    has_username-trimmed a trimmed,
    failure-kept username a.username (x.now + lock_time) db.accounts.operators,
  )

  -- An active account that is not locked, whose name has no surrounding space and whose roles all
  -- have a permission, is, after logins with wrong passwords that bring its counter, which was
  -- below five, to five, closed for good: every later login, with whatever password and at whatever
  -- time, is answered with the error of a locked account.
  pub lockout_is_permanent :
      (xs later : List Attempt) (x : Attempt) (db : Database) (a : Account)
      (granted : List String × List String)
      → row_of username db ≡ some a
      → a.status ≡ Status.active
      → a.locked_until ≡ none
      → trim_space a.username ≡ a.username
      → scan_grants a.grants ≡ some granted
      → a.failed_login_count < 5
      → 5 ≤ a.failed_login_count + length xs
      → all_wrong verify a.password_hash xs ≡ true
      → (attempt x (attempts later (attempts xs db))).0 ≡ err Error.auth_account_locked
  unfolding attempts all_wrong
  lockout_is_permanent [] later x db a granted found active unlocked trimmed readable few enough
        wrong =
      ground arith
  lockout_is_permanent (y ∷ ys) later x db a granted found active unlocked trimmed readable few
        enough wrong =
      let b = after_failure (y.now + lock_time) a in
      let counted : row_of username (attempt y db).1 ≡ some b =
        wrong-counted y db a granted found active unlocked trimmed readable (ground arith) in
      elim (Bool-cases (leb 5 (a.failed_login_count + 1))) [
        | inl full ↦
            let locked : b.status ≡ Status.locked = ground arith in
            ap (λ d. (attempt x (attempts later d)).0)
              (locked-stays ys (attempt y db).1 b granted counted locked readable)
            ∙ ap (λ d. (attempt x d).0)
                (locked-stays later (attempt y db).1 b granted counted locked readable)
            ∙ ap (λ p. p.0) (locked-refused x (attempt y db).1 b granted counted locked readable)
        | inr more ↦
            lockout_is_permanent ys later x (attempt y db).1 b granted counted (ground arith)
              (ground arith) trimmed readable (ground arith) (ground arith) (ground arith)
      ]
