-- ===== src/Token.antt =====
-- app/services/token_auth.py and app/api/auth.py: service tokens (JWT, HS256) and the dependency
-- that every protected route has.
pub mod Claims
pub mod Sound
pub mod Accept
use Prim.Native.Nat.{◌%◌}
use Prim.Native.String.{count}
use synthia_mqtt.Prelude.{
  ℕ, zero, suc, ◌-◌, String, ◌<>◌, Bool, true, false, not, ◌&&◌, ◌||◌, Option, none, some, List, [],
  ◌∷◌, contains, eqb, ◌==◌, if◌then◌else◌, Result, ok, err, raise_if, ◌>>=◌, ◌>>◌,
}
use synthia_mqtt.Prelude.Text.{strip, starts_with, split_on, drop_text}
use synthia_mqtt.Json.{
  ℤ, pos, leb_ℤ, Json, Fields, Builtins, Environment, null, str, obj, end, get, get_or, to_text,
  to_int, extract_scopes, getenv, to_bool,
}
use synthia_mqtt.Http.{HttpError, http_error}
use synthia_mqtt.Codecs.{Bytes, Codecs}
use synthia_mqtt.Token.Claims.{ServiceTokenClaims}

-- A `TokenAuthError` with its message, or an exception of another class.
pub data Failure : Type 0 where
  token_auth_error : String → Failure
  uncaught : Failure

-- `hmac.compare_digest`
unfoldable pub compare_digest : Bytes → Bytes → Bool
compare_digest [] [] = true
compare_digest [] (b ∷ bs) = false
compare_digest (a ∷ as') [] = false
compare_digest (a ∷ as') (b ∷ bs) = eqb a b && compare_digest as' bs

-- `"=" * n`
unfoldable pub equal_signs : ℕ → String
equal_signs zero = ""
equal_signs (suc n) = "=" <> equal_signs n

unfoldable pub auth_required : Environment → Bool
auth_required env = to_bool (getenv env "SYNTHIA_AUTH_REQUIRED" "false")

unfoldable pub expected_audience : Environment → String → String
expected_audience env addon_id = getenv env "SYNTHIA_TOKEN_AUDIENCE" addon_id

-- A claim that is there and no blank text.
unfoldable pub is_missing : Json → Bool
is_missing null = true
is_missing (str s) = strip s == ""
is_missing _ = false

abbrev pub is_null : Json → Bool
is_null null = true
is_null _ = false

unfoldable pub validate_required_claim : Fields → String → Result Failure (Unit {0})
validate_required_claim payload claim_name =
    raise_if (is_missing (get claim_name payload))
      (token_auth_error ("Missing required claim: " <> claim_name))

-- `authorization[7:].strip()` of a header that begins with "Bearer ".
unfoldable pub bearer_token : Option String → Result Failure String
bearer_token none = err (token_auth_error "Missing bearer token")
bearer_token (some authorization) =
    let token = strip (drop_text 7 authorization) in
    do
      raise_if (not (starts_with authorization "Bearer ") || token == "")
          (token_auth_error "Missing bearer token")
      ok token

pub record Parts : Type 0 where
  pub header_b64 : String
  pub payload_b64 : String
  pub signature_b64 : String

unfoldable pub parts_of : List String → Result Failure Parts
parts_of (h ∷ p ∷ s ∷ []) = ok (record { header_b64 = h; payload_b64 = p; signature_b64 = s })
parts_of _ = err (token_auth_error "Malformed JWT token")

module _ ⦃python : Builtins⦄ (codecs : Codecs) where
  -- `-len(value) % 4` equal signs pad the text.
  unfoldable pub b64url_decode : String → Option Bytes
  b64url_decode value = codecs.urlsafe_b64decode (value <> equal_signs ((4 - count value % 4) % 4))

  json_of_bytes : Option Bytes → Option Json
  json_of_bytes none = none
  json_of_bytes (some raw) = elim (codecs.utf8_decode raw) [
    | none ↦ none
    | some text ↦ python.loads text
  ]

  object_of : Option Json → Result Failure Fields
  object_of none = err (token_auth_error "Invalid JWT encoding")
  object_of (some (obj fs)) = ok fs
  object_of (some _) = err (token_auth_error "JWT segment is not an object")

  unfoldable pub decode_json_segment : String → Result Failure Fields
  unfolding json_of_bytes object_of
  decode_json_segment segment = object_of (json_of_bytes (b64url_decode segment))

  -- The decoding of the signature stands outside any handler.
  signature_of : Option Bytes → Result Failure Bytes
  signature_of none = err uncaught
  signature_of (some sig) = ok sig

  unfoldable pub verify_signature : Parts → String → Result Failure (Unit {0})
  unfolding signature_of
  verify_signature parts signing_key =
      let message = codecs.utf8_encode (parts.header_b64 <> ("." <> parts.payload_b64)) in
      let expected_sig = codecs.hmac_sha256 (codecs.utf8_encode signing_key) message in
      do
        token_sig ← signature_of (b64url_decode parts.signature_b64)
        raise_if (not (compare_digest expected_sig token_sig))
            (token_auth_error "Invalid token signature")

  exp_of : Option ℤ → Result Failure ℤ
  exp_of none = err (token_auth_error "Invalid exp claim")
  exp_of (some n) = ok n

  -- `now` is `int(time.time())`.
  unfoldable pub validate_exp : ℕ → Fields → Result Failure (Unit {0})
  unfolding exp_of
  validate_exp now payload = do
    raise_if (is_null (get "exp" payload)) (token_auth_error "Missing required claim: exp")
    exp_ts ← exp_of (to_int (get "exp" payload))
    raise_if (leb_ℤ exp_ts (pos now)) (token_auth_error "Token expired")

  -- The tests on the claims of a token whose signature is valid.
  unfoldable pub validate_claims :
      Environment → String → ℕ → String → Fields → Result Failure ServiceTokenClaims
  validate_claims env addon_id now required_scope payload =
      let token_aud = to_text (get "aud" payload) in
      let scopes = extract_scopes payload in
      do
        validate_exp now payload
        validate_required_claim payload "sub"
        validate_required_claim payload "aud"
        validate_required_claim payload "jti"
        raise_if (not (token_aud == expected_audience env addon_id))
            (token_auth_error "Invalid token audience")
        raise_if (not (contains required_scope scopes))
            (token_auth_error ("Missing required scope: " <> required_scope))
        ok (record {
          sub = to_text (get "sub" payload);
          aud = token_aud;
          jti = to_text (get "jti" payload);
          scopes = scopes;
          raw = payload;
        })

  -- What follows once a signing key is configured.
  unfoldable pub validate_token :
      Environment → String → ℕ → String → Option String → String → Result Failure ServiceTokenClaims
  validate_token env addon_id now signing_key authorization required_scope = do
    token ← bearer_token authorization
    parts ← parts_of (split_on b'.' token)
    header ← decode_json_segment parts.header_b64
    payload ← decode_json_segment parts.payload_b64
    raise_if (not (to_text (get_or "alg" (str "") header) == "HS256"))
        (token_auth_error "Unsupported JWT algorithm")
    verify_signature parts signing_key
    validate_claims env addon_id now required_scope payload

  unfoldable pub validate_bearer :
      Environment → String → ℕ → Option String → String → Result Failure ServiceTokenClaims
  validate_bearer env addon_id now authorization required_scope =
      let signing_key = getenv env "SYNTHIA_JWT_SIGNING_KEY" "" in
      if not (auth_required env)
      then ok (record {
        sub = "anonymous";
        aud = expected_audience env addon_id;
        jti = "auth-disabled";
        scopes = required_scope ∷ [];
        raw = end;
      })
      else if signing_key == ""
      then err
          (token_auth_error "SYNTHIA_JWT_SIGNING_KEY is required when SYNTHIA_AUTH_REQUIRED=true")
      else validate_token env addon_id now signing_key authorization required_scope

  -- `_dependency`; an exception of another class ends the request with status 500.
  abbrev answer : Result Failure ServiceTokenClaims → Result HttpError ServiceTokenClaims
  answer (ok claims) = ok claims
  answer (err (token_auth_error message)) = err (http_error 401 message)
  answer (err uncaught) = err (http_error 500 "Internal Server Error")

  unfoldable pub require_scope :
      Environment → String → ℕ → Option String → String → Result HttpError ServiceTokenClaims
  require_scope env addon_id now authorization required_scope =
      answer (validate_bearer env addon_id now authorization required_scope)
