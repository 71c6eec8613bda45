-- ===== src/Identity/Examples/Tokens.antt =====
-- Logins, and tokens under concrete packages.
use Prim.Native.Char.{code}
use pda_backend.Common.{
  ℕ, zero, suc, ◌≤◌, ◌<◌, String, ◌≡◌, refl, Option, none, some, List, [], ◌∷◌, Bool, true, false,
  ◌==◌, eqb, arith, eq_iff, ap, ◌∙◌, if◌then◌else◌,
}
use Prim.Native.String.{count}
use pda_backend.Common.Rows.{first_where}
use pda_backend.Common.Text.{trim_space, to_lower}
use pda_backend.Platform.Errors.{Error}
use pda_backend.Platform.Results.{err}
use pda_backend.Identity.Ports.{got, is_among}
use pda_backend.Identity.Operators.{
  scan_grants, has_username, same_codes, same_codes_refl, is_registered,
}
use pda_backend.Identity.Sessions.{
  TokenClaims, Database, Created, create, create_rows, authenticate, insert_token, insert_session,
}
use pda_backend.Identity.Examples.{
  manager, account, database, operator, fresh, signed, parsed, hash,
}
use pda_backend.Identity.Service.Lockout.{
  Attempt, attempt, attempts, all_wrong, lockout_is_permanent,
}
use pda_backend.Identity.Tokens.{
  Packages, Signer, Bytes, TokenHeader, sign, parse, parse_three, parse_parts, parse_payload,
  is_signed, check_claims, split_dots, dotted, header,
}
use pda_backend.Identity.Tokens.Verdicts.{AreSound, AreReadBack, has_dot, parse-sign}
use pda_backend.Identity.Tokens.Acceptance.{hmac_tokens_are_signed, authenticate-create}

-- The password is its own hash.
abbrev verify : String → String → Bool
verify h password = h == password

abbrev typed : String → ℕ → Attempt
typed password now = record {
  fresh = fresh "R-1" "a";
  password = password;
  device_id = "D-1";
  warehouse_id = "WH-1";
  correlation_id = "C-1";
  now = now;
}

abbrev wrong_five : List Attempt
wrong_five = typed "a" 1 ∷ typed "b" 2 ∷ typed "c" 3 ∷ typed "d" 4 ∷ typed "e" 5 ∷ []

finds_account : first_where (has_username "Ann") database.accounts.operators ≡ some account
unfolding has_username same_codes to_lower trim_space first_where
finds_account = refl

trimmed : trim_space "ann" ≡ "ann"
unfolding trim_space
trimmed = refl

readable : scan_grants account.grants ≡ some ("PICKER" ∷ [], "task.read" ∷ [])
unfolding scan_grants
readable = refl

wrong : all_wrong verify "h" wrong_five ≡ true
unfolding all_wrong
wrong = refl

lockout_is_permanent_example :
    (attempt verify manager signed parsed hash "Ann" (typed "h" 99_000_000_000_000) (
      attempts verify manager signed parsed hash "Ann" []
        (attempts verify manager signed parsed hash "Ann" wrong_five database))).0
    ≡ err Error.auth_account_locked
lockout_is_permanent_example =
    lockout_is_permanent verify manager signed parsed hash "Ann" wrong_five []
      (typed "h" 99_000_000_000_000) database account ("PICKER" ∷ [], "task.read" ∷ [])
      finds_account refl refl trimmed readable (omega arith) (omega arith) wrong

-- Base64 in place of which a byte n is "a" n times and then "b".
unary : ℕ → String → String
unary zero s = String.◌∷◌ "b" s
unary (suc n) s = String.◌∷◌ "a" (unary n s)

write : Bytes → String
unfolding unary
write [] = ""
write (n ∷ ns) = unary n (write ns)

abbrev bump : Option Bytes → Option Bytes
bump none = none
bump (some []) = none
bump (some (n ∷ ns)) = some (suc n ∷ ns)

abbrev begin : Option Bytes → Option Bytes
begin none = none
begin (some ns) = some (0 ∷ ns)

read : String → Option Bytes
read String.[] = some []
read (String.◌∷◌ c s) = if eqb (code c) b'b' then begin (read s) else bump (read s)

read-unary : (n : ℕ) (ns : Bytes) (s : String) → read s ≡ some ns → read (unary n s) ≡ some (n ∷ ns)
unfolding read unary
read-unary zero ns s h = ap begin h
read-unary (suc n) ns s h = ap bump (read-unary n ns s h)

read-write : (b : Bytes) → read (write b) ≡ some b
unfolding read write
read-write [] = refl
read-write (n ∷ ns) = read-unary n ns (write ns) (read-write ns)

has_dot-unary : (n : ℕ) (s : String) → has_dot (unary n s) ≡ has_dot s
unfolding unary
has_dot-unary zero s = refl
has_dot-unary (suc n) s = has_dot-unary n s

has_dot-write : (b : Bytes) → has_dot (write b) ≡ false
unfolding write
has_dot-write [] = refl
has_dot-write (n ∷ ns) = has_dot-unary n (write ns) ∙ has_dot-write ns

codes : String → Bytes
codes String.[] = []
codes (String.◌∷◌ c s) = code c ∷ codes s

abbrev hs256 : TokenHeader
hs256 = record { alg = "HS256"; key_id = "k-1" }

abbrev issued : TokenClaims
issued = record {
  issuer = "pda";
  audience = "pda-api";
  subject = "OP-1";
  token_id = "R-1";
  session_id = "S-1";
  operator_id = "OP-1";
  device_id = "D-1";
  warehouse_id = "WH-1";
  issued_at = 5;
  not_before = 5;
  expires_at = 905;
}

abbrev packages : Packages ℕ ℕ
packages = record {
  encode_64 = write;
  decode_64 = read;
  write_header = λ h. 1 ∷ [];
  read_header = λ b. if same_codes b (1 ∷ []) then some hs256 else none;
  write_claims = λ c. some (2 ∷ []);
  read_claims = λ b. if same_codes b (2 ∷ []) then some issued else none;
  hmac = λ secret text. count text ∷ secret;
  sign_rsa = λ key text. some (key ∷ codes text);
  verify_rsa = λ key text s. same_codes (key ∷ codes text) s;
}

sound : AreSound packages (λ key. key)
sound = record {
  decode-encode = read-write;
  alphabet = has_dot-write;
  verify-sign = λ key text s h. ground (arith, same_codes_refl (key ∷ codes text));
}

abbrev signer : Signer ℕ ℕ
signer = record {
  issuer = "pda";
  audience = "pda-api";
  signing_mode = "HS256";
  key_id = "k-1";
  secret = 7 ∷ [];
  private_key = 11;
  public_keys = λ id. some 11;
}

json : AreReadBack packages (header packages signer) issued
unfolding same_codes
json = record { read-write_header = refl; read-write_claims = λ b h. ground arith }

abbrev token : String
token = "ab.aab.aaaaaabaaaaaaab"

signs : sign packages signer issued ≡ some token
unfolding sign write unary
signs = refl

parse-sign_example : parse packages signer token 6_000_000_000 ≡ got issued
parse-sign_example =
    parse-sign packages signer (λ key. key) sound refl issued token 6_000_000_000 json signs refl
      refl (λ h. ground (arith, (eq_iff "OP-1" "").1 h))
      (λ h. ground (arith, (eq_iff "S-1" "").1 h)) (omega arith) (omega arith)

parses : parse packages signer token 6_000_000_000 ≡ got issued
unfolding parse parse_three parse_parts parse_payload is_signed check_claims split_dots read
    same_codes
parses = refl

hmac_tokens_are_signed_example :
    (first : String) × (second : String) × (third : String) × (split_dots token
      ≡ first ∷ second ∷ third ∷ [])
    × (packages.decode_64 third ≡ some (packages.hmac signer.secret (dotted first second)))
    × (issued.issuer ≡ signer.issuer)
    × (issued.audience ≡ signer.audience)
    × (5_000_000_000 ≤ 6_000_000_000)
    × (6_000_000_000 < 905_000_000_000)
hmac_tokens_are_signed_example =
    hmac_tokens_are_signed packages signer token issued 6_000_000_000 refl parses

abbrev opened : Database
opened =
    (create manager (sign packages signer) (parse packages signer) hash (fresh "R-1" "a") operator
      "D-1" "WH-1" 5_500_000_000 database).1

abbrev made : Created
made = record {
  access = token;
  refresh = "a";
  expires = 905_500_000_000;
  refresh_expires = 2_592_005_500_000_000;
}

opens :
    create manager
      (sign packages signer)
      (parse packages signer)
      hash
      (fresh "R-1" "a")
      operator
      "D-1"
      "WH-1"
      5_500_000_000
      database
    ≡ (got made, opened)
unfolding create create_rows insert_session insert_token is_registered is_among first_where sign
    write unary
opens = refl

authenticate-create_example :
    authenticate manager
      (sign packages signer)
      (parse packages signer)
      hash
      token
      600_000_000_000
      opened
    ≡ got (record {
      operator_id = "OP-1";
      token_id = "R-1";
      session_id = "S-1";
      device_id = "D-1";
      warehouse_id = "WH-1";
      expires_at = 905;
    })
authenticate-create_example =
    authenticate-create packages signer (λ key. key) sound refl manager refl refl hash
      (fresh "R-1" "a") operator "D-1" "WH-1" 5_500_000_000 600_000_000_000 database opened made
      json opens (λ h. ground (arith, (eq_iff "OP-1" "").1 h))
      (λ h. ground (arith, (eq_iff "S-1" "").1 h)) (omega arith) (omega arith) (omega arith)
