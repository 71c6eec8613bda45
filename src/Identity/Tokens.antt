-- ===== src/Identity/Tokens.antt =====
-- The access tokens of identity/adapters/postgres/session.go: `sign` and `parse`. Base64, JSON, the
-- HMAC and RSA signatures over SHA-256 are a record of functions; a slice of bytes is their codes.
pub mod Verdicts
pub mod Acceptance
use pda_backend.Common.{
  ℕ, ◌+◌, ◌*◌, String, Option, none, some, List, [], ◌∷◌, Bool, true, false, not, ◌&&◌, ◌||◌, ◌==◌,
  ltb, if◌then◌else◌,
}
use Prim.Native.Char.{Char, code}
use pda_backend.Common.{eqb}
use pda_backend.Identity.Ports.{Outcome, got, failed, access_expired, access_invalid}
use pda_backend.Identity.Operators.{same_codes}
use pda_backend.Identity.Sessions.{TokenClaims}
use Prim.Native.String.{◌++◌}

abbrev pub Bytes : Type 0
Bytes = List ℕ

-- The fields of the header that `parse` reads.
pub record TokenHeader : Type 0 where
  pub alg : String
  pub key_id : String

-- What the code calls of the packages encoding/base64, encoding/json, crypto/hmac and crypto/rsa.
pub record Packages (PrivateKey PublicKey : Type 0) : Type 0 where
  pub encode_64 : Bytes → String
  pub decode_64 : String → Option Bytes
  pub write_header : TokenHeader → Bytes
  pub read_header : Bytes → Option TokenHeader
  pub write_claims : TokenClaims → Option Bytes
  pub read_claims : Bytes → Option TokenClaims
  pub hmac : Bytes → String → Bytes
  pub sign_rsa : PrivateKey → String → Option Bytes
  pub verify_rsa : PublicKey → String → Bytes → Bool

-- The fields of SessionManager that `sign` and `parse` read.
pub record Signer (PrivateKey PublicKey : Type 0) : Type 0 where
  pub issuer : String
  pub audience : String
  pub signing_mode : String
  pub key_id : String
  pub secret : Bytes
  pub private_key : PrivateKey
  pub public_keys : String → Option PublicKey

abbrev pub attach : Char → List String → List String
attach c [] = (String.◌∷◌ c String.[]) ∷ []
attach c (part ∷ parts) = (String.◌∷◌ c part) ∷ parts

-- `strings.Split(s, ".")`
unfoldable pub split_dots : String → List String
split_dots String.[] = "" ∷ []
split_dots (String.◌∷◌ c s) =
    let parts = split_dots s in if eqb (code c) b'.' then "" ∷ parts else attach c parts

abbrev pub dotted : String → String → String
dotted a b = a ++ ("." ++ b)

-- `time.Unix(seconds, 0)`
abbrev pub at_second : ℕ → ℕ
at_second seconds = seconds * 1_000_000_000

module _ {PrivateKey PublicKey : Type 0} (packages : Packages PrivateKey PublicKey)
    (m : Signer PrivateKey PublicKey) where
  abbrev pub is_rsa : Bool
  is_rsa = m.signing_mode == "RS256"

  abbrev pub header : TokenHeader
  header = record { alg = if is_rsa then "RS256" else "HS256"; key_id = m.key_id }

  abbrev pub signature_of : String → Option Bytes
  signature_of unsigned =
      if is_rsa
      then packages.sign_rsa m.private_key unsigned
      else some (packages.hmac m.secret unsigned)

  unfoldable pub sign : TokenClaims → Option String
  sign c = elim (packages.write_claims c) [
    | none ↦ none
    | some p ↦
        let unsigned =
          dotted (packages.encode_64 (packages.write_header header)) (packages.encode_64 p) in
        elim (signature_of unsigned) [
          | none ↦ none
          | some s ↦ some (dotted unsigned (packages.encode_64 s))
        ]
  ]

  -- The signature under the configured algorithm, which the header must name.
  unfoldable pub is_signed : TokenHeader → String → Bytes → Bool
  is_signed h unsigned signature =
      if is_rsa
      then h.alg == "RS256" && elim (m.public_keys h.key_id) [
        | none ↦ false
        | some key ↦ packages.verify_rsa key unsigned signature
      ]
      else h.alg == "HS256" && same_codes (packages.hmac m.secret unsigned) signature

  unfoldable pub check_claims : TokenClaims → ℕ → Outcome TokenClaims
  check_claims c now =
      if not (c.issuer == m.issuer)
        || not (c.audience == m.audience)
        || c.operator_id == ""
        || c.session_id == ""
        || ltb now (at_second c.not_before)
      then failed access_invalid
      else if not (ltb now (at_second c.expires_at))
      then failed access_expired
      else got c

  unfoldable pub parse_payload : String → ℕ → Outcome TokenClaims
  parse_payload payload now = elim (packages.decode_64 payload) [
    | none ↦ failed access_invalid
    | some bytes ↦ elim (packages.read_claims bytes) [
      | none ↦ failed access_invalid
      | some c ↦ check_claims c now
    ]
  ]

  unfoldable pub parse_parts : (first second third : String) → ℕ → Outcome TokenClaims
  parse_parts first second third now = elim (packages.decode_64 first) [
    | none ↦ failed access_invalid
    | some bytes ↦ elim (packages.read_header bytes) [
      | none ↦ failed access_invalid
      | some h ↦ elim (packages.decode_64 third) [
        | none ↦ failed access_invalid
        | some signature ↦
            if is_signed h (dotted first second) signature
            then parse_payload second now
            else failed access_invalid
      ]
    ]
  ]

  unfoldable pub parse_three : List String → ℕ → Outcome TokenClaims
  parse_three (first ∷ second ∷ third ∷ []) now = parse_parts first second third now
  parse_three _ now = failed access_invalid

  unfoldable pub parse : String → ℕ → Outcome TokenClaims
  parse raw now = parse_three (split_dots raw) now
