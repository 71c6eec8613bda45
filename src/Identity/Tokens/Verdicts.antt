-- ===== src/Identity/Tokens/Verdicts.antt =====
-- Which tokens `parse` accepts.
use pda_backend.Common.{
  ℕ, ◌≤◌, ◌<◌, String, ◌≡◌, refl, ◌≢◌, some, [], ◌∷◌, Bool, true, false, ◌||◌, ◌==◌, arith, eq_iff,
  eqb, ap, ◌∙◌, if◌then◌else◌, inl, inr, Option-cases, Bool-cases,
}
use Prim.Native.Char.{code}
use Prim.Native.String.{◌++◌}
use text.Mathlib.TextLemmas.{cons-append, nil-append, append_assoc}
use pda_backend.Identity.Ports.{got}
use pda_backend.Identity.Operators.{same_codes_refl}
use pda_backend.Identity.Sessions.{TokenClaims}
use pda_backend.Identity.Tokens.{
  Packages, Signer, Bytes, TokenHeader, split_dots, dotted, at_second, sign, parse, parse_three,
  parse_parts, parse_payload, check_claims, is_signed, header, is_rsa, signature_of,
}

abbrev pub has_dot : String → Bool
has_dot String.[] = false
has_dot (String.◌∷◌ c s) = eqb (code c) b'.' || has_dot s

-- What the packages document: base64 reads back what it writes, in an alphabet without a full stop,
-- and a signature verifies under the public key of its private key.
pub record AreSound {PrivateKey PublicKey : Type 0} (packages : Packages PrivateKey PublicKey)
    (public_of : PrivateKey → PublicKey) : Type 0 where
  pub decode-encode : (b : Bytes) → packages.decode_64 (packages.encode_64 b) ≡ some b
  pub alphabet : (b : Bytes) → has_dot (packages.encode_64 b) ≡ false
  pub verify-sign :
      (key : PrivateKey) (text : String) (s : Bytes)
      → packages.sign_rsa key text ≡ some s
      → packages.verify_rsa (public_of key) text s ≡ true

-- JSON reads back a header and the claims that it wrote.
pub record AreReadBack {PrivateKey PublicKey : Type 0} (packages : Packages PrivateKey PublicKey)
    (h : TokenHeader) (c : TokenClaims) : Type 0 where
  pub read-write_header : packages.read_header (packages.write_header h) ≡ some h
  pub read-write_claims :
      (b : Bytes) → packages.write_claims c ≡ some b → packages.read_claims b ≡ some c

split-dotted : (a b : String) → has_dot a ≡ false → split_dots (dotted a b) ≡ a ∷ split_dots b
unfolding split_dots
split-dotted String.[] b plain =
    ap split_dots (nil-append ("." ++ b))
    ∙ ap split_dots (cons-append "." String.[] b)
    ∙ ap (λ t. "" ∷ split_dots t) (nil-append b)
split-dotted (String.◌∷◌ c a) b plain =
    ap split_dots (cons-append c a ("." ++ b)) ∙ ground (arith, split-dotted a b)

split-plain : (a : String) → has_dot a ≡ false → split_dots a ≡ a ∷ []
unfolding split_dots
split-plain String.[] plain = refl
split-plain (String.◌∷◌ c a) plain = ground (arith, split-plain a)

split-three :
    (a b c : String)
    → has_dot a ≡ false
    → has_dot b ≡ false
    → has_dot c ≡ false
    → split_dots (dotted (dotted a b) c) ≡ a ∷ b ∷ c ∷ []
split-three a b c plain_a plain_b plain_c =
    ap split_dots (append_assoc a ("." ++ b) ("." ++ c))
    ∙ ap (λ t. split_dots (a ++ t)) (append_assoc "." b ("." ++ c))
    ∙ split-dotted a (dotted b c) plain_a
    ∙ ap (λ parts. a ∷ parts)
        (split-dotted b c plain_b ∙ ap (λ parts. b ∷ parts) (split-plain c plain_c))

module _ {PrivateKey PublicKey : Type 0} (packages : Packages PrivateKey PublicKey)
    (m : Signer PrivateKey PublicKey) where
  checked :
      (c : TokenClaims) (now : ℕ)
      → c.issuer ≡ m.issuer
      → c.audience ≡ m.audience
      → c.operator_id ≢ ""
      → c.session_id ≢ ""
      → at_second c.not_before ≤ now
      → now < at_second c.expires_at
      → check_claims packages m c now ≡ got c
  unfolding check_claims
  checked c now same_issuer same_audience someone session begun unexpired = ground (
    arith,
    eq_iff c.issuer m.issuer,
    eq_iff c.audience m.audience,
    eq_iff c.operator_id "",
    eq_iff c.session_id "",
  )

  module _ (public_of : PrivateKey → PublicKey) (sound : AreSound packages public_of)
      (published : m.public_keys m.key_id ≡ some (public_of m.private_key)) where
    signed :
        (text : String) (s : Bytes)
        → signature_of packages m text ≡ some s
        → is_signed packages m (header packages m) text s ≡ true
    unfolding is_signed
    signed text s made =
        let key : m.public_keys (header packages m).key_id ≡ some (public_of m.private_key) =
          published in
        elim (Bool-cases (is_rsa packages m)) [
          | inl rsa ↦
              let named : ((header packages m).alg == "RS256") ≡ true =
                ap (λ b. (if b then "RS256" else "HS256") == "RS256") rsa in
              ground (arith, sound.verify-sign m.private_key text s)
          | inr hmac ↦
              let named : ((header packages m).alg == "HS256") ≡ true =
                ap (λ b. (if b then "RS256" else "HS256") == "HS256") hmac in
              ground (arith, same_codes_refl (packages.hmac m.secret text))
        ]

    -- `parse` reads back the claims that `sign` wrote, under either algorithm, when they name an
    -- operator, a session and the issuer and audience of the manager, and between their two times;
    -- where base64 and JSON read back what they write and the published key is that of the private
    -- key.
    pub parse-sign :
        (c : TokenClaims) (token : String) (now : ℕ)
        → AreReadBack packages (header packages m) c
        → sign packages m c ≡ some token
        → c.issuer ≡ m.issuer
        → c.audience ≡ m.audience
        → c.operator_id ≢ ""
        → c.session_id ≢ ""
        → at_second c.not_before ≤ now
        → now < at_second c.expires_at
        → parse packages m token now ≡ got c
    unfolding sign parse parse_three parse_parts parse_payload
    parse-sign c token now json made same_issuer same_audience someone session begun unexpired =
        elim (Option-cases (packages.write_claims c)) [
          | inl unwritten ↦ ground arith
          | inr (p, written) ↦
              let h = packages.write_header (header packages m) in
              let text = dotted (packages.encode_64 h) (packages.encode_64 p) in
              elim (Option-cases (signature_of packages m text)) [
                | inl unsigned ↦ ground arith
                | inr (s, signature) ↦ ground (
                  arith,
                  split-three (packages.encode_64 h) (packages.encode_64 p) (packages.encode_64 s)
                      (sound.alphabet h) (sound.alphabet p) (sound.alphabet s),
                  sound.decode-encode h,
                  sound.decode-encode p,
                  sound.decode-encode s,
                  json.read-write_header,
                  json.read-write_claims p written,
                  signed text s signature,
                  checked c now same_issuer same_audience someone session begun unexpired,
                )
              ]
        ]
