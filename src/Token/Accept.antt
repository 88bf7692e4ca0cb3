-- ===== src/Token/Accept.antt =====
-- The requests that the dependency `require_scope` lets through.
use synthia_mqtt.Prelude.{
  ℕ, String, ◌≡◌, ◌↔◌, ◌⊎◌, true, false, Option, none, [], ◌∷◌, ◌==◌, Result, ok, err, inl, inr,
  Bool-cases, bind-ok, then-ok, raise_unless-ok,
}
use synthia_mqtt.Prelude.Text.{split_on}
use synthia_mqtt.Json.{Fields, Builtins, Environment, str, end, get_or, to_text, getenv}
use synthia_mqtt.Http.{http_error}
use synthia_mqtt.Token.Claims.{ServiceTokenClaims}
use synthia_mqtt.Codecs.{Codecs}
use synthia_mqtt.Token.{
  Failure, Parts, auth_required, expected_audience, bearer_token, parts_of, b64url_decode,
  decode_json_segment, verify_signature, validate_token, validate_bearer, require_scope, answer,
  token_auth_error, uncaught,
}
use synthia_mqtt.Token.Sound.{
  IsSigned, HasClaims, claims_of, verify_signature_iff, validate_claims_sound,
  validate_claims_result, validate_claims_complete,
}

-- The claims of every request while authentication is off.
abbrev pub anonymous : Environment → String → String → ServiceTokenClaims
anonymous env addon_id scope = record {
  sub = "anonymous";
  aud = expected_audience env addon_id;
  jti = "auth-disabled";
  scopes = scope ∷ [];
  raw = end;
}

module _ ⦃python : Builtins⦄ (codecs : Codecs) where
  -- A bearer token in three parts that is signed with the key and whose claims hold.
  pub record IsAccepted (env : Environment) (addon_id : String) (now : ℕ) (key : String)
      (authorization : Option String) (scope : String) (claims : ServiceTokenClaims) : Type 0 where
    pub token : String
    pub sent : bearer_token authorization ≡ ok token
    pub parts : Parts
    pub split : parts_of (split_on b'.' token) ≡ ok parts
    pub header : Fields
    pub header_decoded : decode_json_segment codecs parts.header_b64 ≡ ok header
    pub payload : Fields
    pub payload_decoded : decode_json_segment codecs parts.payload_b64 ≡ ok payload
    pub algorithm : (to_text (get_or "alg" (str "") header) == "HS256") ≡ true
    pub signed : IsSigned codecs parts key
    pub holds : HasClaims codecs env addon_id now scope payload
    pub result : claims ≡ claims_of codecs payload

  module _ (env : Environment) (addon_id : String) (now : ℕ) (key : String)
      (authorization : Option String) (scope : String) (claims : ServiceTokenClaims) where
    validate_token_sound :
        validate_token codecs env addon_id now key authorization scope ≡ ok claims
        → IsAccepted env addon_id now key authorization scope claims
    unfolding validate_token
    validate_token_sound h =
        let (token, sent, h1) = bind-ok (bearer_token authorization) _ h in
        let (parts, split, h2) = bind-ok (parts_of (split_on b'.' token)) _ h1 in
        let (header, header_decoded, h3) =
          bind-ok (decode_json_segment codecs parts.header_b64) _ h2 in
        let (payload, payload_decoded, h4) =
          bind-ok (decode_json_segment codecs parts.payload_b64) _ h3 in
        let (alg, h5) = then-ok _ _ h4 in
        let (signed, h6) = then-ok _ _ h5 in
        record {
          token = token;
          sent = sent;
          parts = parts;
          split = split;
          header = header;
          header_decoded = header_decoded;
          payload = payload;
          payload_decoded = payload_decoded;
          algorithm = raise_unless-ok _ _ alg;
          signed = (verify_signature_iff codecs parts key).0 signed;
          holds = validate_claims_sound codecs env addon_id now scope payload claims h6;
          result = validate_claims_result codecs env addon_id now scope payload claims h6;
        }

    validate_token_complete :
        IsAccepted env addon_id now key authorization scope claims
        → validate_token codecs env addon_id now key authorization scope ≡ ok claims
    unfolding validate_token
    validate_token_complete a =
        let signed = (verify_signature_iff codecs a.parts key).1 a.signed in
        let holds = validate_claims_complete codecs env addon_id now scope a.payload a.holds in
        rw (a.sent, a.split, a.header_decoded, a.payload_decoded, a.algorithm, signed, a.result)
          holds

  answer-ok :
      (r : Result Failure ServiceTokenClaims) (claims : ServiceTokenClaims)
      → answer codecs r ≡ ok claims
      → r ≡ ok claims
  answer-ok (ok c) claims h = cc
  answer-ok (err (token_auth_error m)) claims h = cc
  answer-ok (err uncaught) claims h = cc

  module _ (env : Environment) (addon_id : String) (now : ℕ) (authorization : Option String)
      (scope : String) where
    abbrev signing_key : String
    signing_key = getenv env "SYNTHIA_JWT_SIGNING_KEY" ""

    require_scope-validate :
        (claims : ServiceTokenClaims)
        → auth_required env ≡ true
        → (signing_key == "") ≡ false
        → require_scope codecs env addon_id now authorization scope ≡ ok claims
        → validate_token codecs env addon_id now signing_key authorization scope ≡ ok claims
    unfolding require_scope validate_bearer
    require_scope-validate claims on key h =
        answer-ok (validate_token codecs env addon_id now signing_key authorization scope) claims
          (rw (on, key) at h)

    -- A request passes exactly when authentication is off, as the anonymous caller, or when it is
    -- on, a signing key is configured and the request has a valid token, with the token's claims.
    pub require_scope_iff :
        (claims : ServiceTokenClaims)
        → (require_scope codecs env addon_id now authorization scope ≡ ok claims) ↔ (
            ((auth_required env ≡ false) × (claims ≡ anonymous env addon_id scope))
            ⊎ ((auth_required env ≡ true)
                × ((signing_key == "") ≡ false)
                × IsAccepted env addon_id now signing_key authorization scope claims))
    unfolding require_scope validate_bearer
    require_scope_iff claims = (
      λ h. elim (Bool-cases (auth_required env)) [
        | inl on ↦ elim (Bool-cases (signing_key == "")) [
          | inl e ↦ cc (rw (on, e) at h)
          | inr key ↦ inr (
            on,
            key,
            validate_token_sound env addon_id now signing_key authorization scope claims
                (require_scope-validate claims on key h),
          )
        ]
        | inr off ↦ inl (off, cc (rw off at h))
      ],
      λ h. elim h [
        | inl (off, same) ↦ rw (off, same)
        | inr (on, key, a) ↦ rw (
          on,
          key,
          validate_token_complete env addon_id now signing_key authorization scope claims a,
        )
      ],
    )

    -- A token whose header and payload decode, but whose signature is no valid base64, ends the
    -- request with status 500 and not with 401.
    undecodable_signature :
        (token : String) (parts : Parts) (header payload : Fields)
        → auth_required env ≡ true
        → (signing_key == "") ≡ false
        → bearer_token authorization ≡ ok token
        → parts_of (split_on b'.' token) ≡ ok parts
        → decode_json_segment codecs parts.header_b64 ≡ ok header
        → decode_json_segment codecs parts.payload_b64 ≡ ok payload
        → (to_text (get_or "alg" (str "") header) == "HS256") ≡ true
        → b64url_decode codecs parts.signature_b64 ≡ none
        → require_scope codecs env addon_id now authorization scope
          ≡ err (http_error 500 "Internal Server Error")
    unfolding require_scope validate_bearer validate_token verify_signature
    undecodable_signature token parts header payload on key sent split header_ok payload_ok alg
          bad =
        rw (on, key, sent, split, header_ok, payload_ok, alg, bad)
