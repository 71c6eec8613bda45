-- ===== src/Identity/Tokens/Acceptance.antt =====
-- What an accepted token says: under the shared secret, and for a session just opened.
use pda_backend.Common.{
  ℕ, ◌+◌, ◌≤◌, ◌<◌, String, ◌≡◌, refl, ◌≢◌, some, List, [], ◌∷◌, true, false, arith, eq_refl,
  eq_iff, inl, inr, Option-cases,
}
use pda_backend.Common.Rows.{first_where, first_where-appended}
use pda_backend.Identity.Ports.{Operator, got}
use pda_backend.Identity.Operators.{same_codes_eq}
use pda_backend.Identity.Sessions.{
  TokenClaims, Manager, Fresh, Database, Created, create, create_rows, authenticate, access_claims,
  is_live, insert_session, new_session, is_session, unix,
}
use pda_backend.Identity.Tokens.{
  Packages, Signer, split_dots, dotted, at_second, sign, parse, parse_three, parse_parts,
  parse_payload, check_claims, is_signed, is_rsa, header,
}
use pda_backend.Identity.Tokens.Verdicts.{AreSound, AreReadBack, parse-sign}

pub second-floor : (t : ℕ) → at_second (unix t) ≤ t
second-floor t = omega arith

module _ {PrivateKey PublicKey : Type 0} (packages : Packages PrivateKey PublicKey)
    (m : Signer PrivateKey PublicKey) where
  check_claims-got :
      (d c : TokenClaims) (now : ℕ)
      → check_claims packages m d now ≡ got c
      → (c.issuer ≡ m.issuer)
        × (c.audience ≡ m.audience)
        × (at_second c.not_before ≤ now)
        × (now < at_second c.expires_at)
  unfolding check_claims
  check_claims-got d c now k =
      ground (arith, eq_iff d.issuer m.issuer, eq_iff d.audience m.audience)

  parse_payload-got :
      (payload : String) (c : TokenClaims) (now : ℕ)
      → parse_payload packages m payload now ≡ got c
      → (c.issuer ≡ m.issuer)
        × (c.audience ≡ m.audience)
        × (at_second c.not_before ≤ now)
        × (now < at_second c.expires_at)
  unfolding parse_payload
  parse_payload-got payload c now k = elim (Option-cases (packages.decode_64 payload)) [
    | inl bad ↦ ground arith
    | inr (bytes, decoded) ↦ elim (Option-cases (packages.read_claims bytes)) [
      | inl bad ↦ ground arith
      | inr (d, read) ↦ check_claims-got d c now (ground arith)
    ]
  ]

  parse_parts-got :
      (first second third : String) (c : TokenClaims) (now : ℕ)
      → is_rsa packages m ≡ false
      → parse_parts packages m first second third now ≡ got c
      → (packages.decode_64 third ≡ some (packages.hmac m.secret (dotted first second)))
        × (parse_payload packages m second now ≡ got c)
  unfolding parse_parts is_signed
  parse_parts-got first second third c now shared k =
      elim (Option-cases (packages.decode_64 first)) [
        | inl bad ↦ ground arith
        | inr (bytes, decoded) ↦ elim (Option-cases (packages.read_header bytes)) [
          | inl bad ↦ ground arith
          | inr (h, read) ↦ elim (Option-cases (packages.decode_64 third)) [
            | inl bad ↦ ground arith
            | inr (signature, decoded') ↦
                ground
                  (arith, same_codes_eq (packages.hmac m.secret (dotted first second)) signature)
          ]
        ]
      ]

  parse_three-got :
      (parts : List String) (c : TokenClaims) (now : ℕ)
      → parse_three packages m parts now ≡ got c
      → (first : String) × (second : String) × (third : String) × (parts
          ≡ first ∷ second ∷ third ∷ [])
        × (parse_parts packages m first second third now ≡ got c)
  unfolding parse_three
  parse_three-got [] c now k = ground arith
  parse_three-got (a ∷ []) c now k = ground arith
  parse_three-got (a ∷ b ∷ []) c now k = ground arith
  parse_three-got (a ∷ b ∷ d ∷ []) c now k = (a, b, d, refl, k)
  parse_three-got (a ∷ b ∷ d ∷ e ∷ parts) c now k = ground arith

  -- Under the shared secret an accepted token has three parts, of which the last is the HMAC of the
  -- two others; its claims have the issuer and the audience of the manager, and the time lies
  -- between theirs.
  pub hmac_tokens_are_signed :
      (raw : String) (c : TokenClaims) (now : ℕ)
      → is_rsa packages m ≡ false
      → parse packages m raw now ≡ got c
      → (first : String) × (second : String) × (third : String) × (split_dots raw
          ≡ first ∷ second ∷ third ∷ [])
        × (packages.decode_64 third ≡ some (packages.hmac m.secret (dotted first second)))
        × (c.issuer ≡ m.issuer)
        × (c.audience ≡ m.audience)
        × (at_second c.not_before ≤ now)
        × (now < at_second c.expires_at)
  unfolding parse
  hmac_tokens_are_signed raw c now shared k =
      let (first, second, third, parts, rest) = parse_three-got (split_dots raw) c now k in
      let (signed, payload) = parse_parts-got first second third c now shared rest in
      let (issuer, audience, begun, unexpired) = parse_payload-got second c now payload in
      (first, second, third, parts, signed, issuer, audience, begun, unexpired)

module _ {PrivateKey PublicKey : Type 0} (packages : Packages PrivateKey PublicKey)
    (s : Signer PrivateKey PublicKey) (public_of : PrivateKey → PublicKey)
    (sound : AreSound packages public_of)
    (published : s.public_keys s.key_id ≡ some (public_of s.private_key)) (m : Manager)
    (same_issuer : m.issuer ≡ s.issuer) (same_audience : m.audience ≡ s.audience)
    (token_hash : String → ℕ) where
  -- The session that Create inserts is the one that its access token finds.
  created-live :
      (fresh : Fresh) (operator : Operator) (device warehouse : String) (now now' : ℕ)
      (db db' : Database) (r : Created)
      → create m
          (sign packages s)
          (parse packages s)
          token_hash
          fresh
          operator
          device
          warehouse
          now
          db
        ≡ (got r, db')
      → now' < now + m.refresh_ttl
      → (is_live (first_where (is_session fresh.session_id) db'.sessions) now' ≡ true)
        × (sign packages s
              (access_claims m fresh.token_id fresh.session_id operator.id device warehouse now)
            ≡ some r.access)
  unfolding create create_rows insert_session is_live
  created-live fresh operator device warehouse now now' db db' r k early = ground (
    arith,
    eq_refl fresh.session_id,
    first_where-appended (is_session fresh.session_id) db.sessions
        (new_session fresh operator device warehouse (now + m.refresh_ttl)),
  )

  -- An access token that Create returns authenticates, in the database that it leaves, as the
  -- operator, device and warehouse of the session, from then on until the token or the session
  -- expires; where base64 and JSON read back what they write and the published key is that of the
  -- private key.
  pub authenticate-create :
      (fresh : Fresh) (operator : Operator) (device warehouse : String) (now now' : ℕ)
      (db db' : Database) (r : Created)
      → AreReadBack packages
          (header packages s)
          (access_claims m fresh.token_id fresh.session_id operator.id device warehouse now)
      → create m
          (sign packages s)
          (parse packages s)
          token_hash
          fresh
          operator
          device
          warehouse
          now
          db
        ≡ (got r, db')
      → operator.id ≢ ""
      → fresh.session_id ≢ ""
      → now ≤ now'
      → now' < at_second (unix (now + m.access_ttl))
      → now' < now + m.refresh_ttl
      → authenticate m (sign packages s) (parse packages s) token_hash r.access now' db'
        ≡ got (record {
          operator_id = operator.id;
          token_id = fresh.token_id;
          session_id = fresh.session_id;
          device_id = device;
          warehouse_id = warehouse;
          expires_at = unix (now + m.access_ttl);
        })
  unfolding authenticate
  authenticate-create fresh operator device warehouse now now' db db' r json k someone session later
        unexpired early =
      let (live, made) = created-live fresh operator device warehouse now now' db db' r k early in
      let claims =
        access_claims m fresh.token_id fresh.session_id operator.id device warehouse now in
      let floor = second-floor now in
      ground (
        arith,
        parse-sign packages s public_of sound published claims r.access now' json made same_issuer
            same_audience someone session (omega arith) unexpired,
      )
