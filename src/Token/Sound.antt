-- ===== src/Token/Sound.antt =====
-- Which tokens `validate_bearer` accepts.
use synthia_mqtt.Prelude.{
  ℕ, String, ◌<>◌, ◌≡◌, refl, ◌↔◌, true, false, not, Option, none, some, [], ◌∷◌, arith, contains,
  ◌==◌, ok, raise_if, ◌>>=◌, then-ok,
}
use synthia_mqtt.Json.{
  ℤ, pos, leb_ℤ, Fields, Builtins, Environment, get, to_text, to_int, extract_scopes,
}
use synthia_mqtt.Token.Claims.{ServiceTokenClaims}
use synthia_mqtt.Codecs.{Bytes, Codecs}
use synthia_mqtt.Token.{
  Failure, Parts, compare_digest, expected_audience, is_missing, validate_required_claim,
  b64url_decode, signature_of, verify_signature, exp_of, validate_exp, validate_claims,
}

-- Equal digests are equal.
pub compare_digest_iff : (a b : Bytes) → (compare_digest a b ≡ true) ↔ (a ≡ b)
unfolding compare_digest
compare_digest_iff [] [] = (λ h. refl, λ h. refl)
compare_digest_iff [] (b ∷ bs) = (λ h. cc, λ h. cc)
compare_digest_iff (a ∷ as') [] = (λ h. cc, λ h. cc)
compare_digest_iff (a ∷ as') (b ∷ bs) =
    (λ h. ground (arith, compare_digest_iff as' bs), λ h. ground (arith, compare_digest_iff as' bs))

module _ ⦃python : Builtins⦄ (codecs : Codecs) where
  -- The signature of a token is the keyed hash of its header and payload.
  abbrev pub IsSigned : Parts → String → Type 0
  IsSigned parts key =
      b64url_decode codecs parts.signature_b64
      ≡ some (
          codecs.hmac_sha256 (codecs.utf8_encode key)
            (codecs.utf8_encode (parts.header_b64 <> ("." <> parts.payload_b64))))

  signature_iff :
      (expected : Bytes) (sig : Option Bytes) (e : Failure)
      → ((signature_of codecs sig >>= λ s. raise_if (not (compare_digest expected s)) e) ≡ ok tt)
        ↔ (sig ≡ some expected)
  unfolding verify_signature
  signature_iff expected none e = (λ h. cc, λ h. cc)
  signature_iff expected (some s) e = (
    λ h. ground (arith, compare_digest_iff expected s),
    λ h. ground (arith, compare_digest_iff expected s),
  )

  pub verify_signature_iff :
      (parts : Parts) (key : String)
      → (verify_signature codecs parts key ≡ ok tt) ↔ IsSigned parts key
  unfolding verify_signature
  verify_signature_iff parts key = signature_iff _ (b64url_decode codecs parts.signature_b64) _

  -- The claims hold at a time, for an audience and a scope.
  pub record HasClaims (env : Environment) (addon_id : String) (now : ℕ) (scope : String)
      (payload : Fields) : Type 0 where
    pub expiry : ℤ
    pub expires : to_int (get "exp" payload) ≡ some expiry
    pub unexpired : leb_ℤ expiry (pos now) ≡ false
    pub has_sub : is_missing (get "sub" payload) ≡ false
    pub has_aud : is_missing (get "aud" payload) ≡ false
    pub has_jti : is_missing (get "jti" payload) ≡ false
    pub for_us : (to_text (get "aud" payload) == expected_audience env addon_id) ≡ true
    pub in_scope : contains scope (extract_scopes payload) ≡ true

  exp_sound :
      (now : ℕ) (v : Option ℤ) (e : Failure)
      → (exp_of codecs v >>= λ n. raise_if (leb_ℤ n (pos now)) e) ≡ ok tt
      → (expiry : ℤ) × (v ≡ some expiry) × (leb_ℤ expiry (pos now) ≡ false)
  unfolding validate_exp
  exp_sound now none e h = cc
  exp_sound now (some n) e h = (n, refl, ground arith)

  validate_exp_sound :
      (now : ℕ) (payload : Fields)
      → validate_exp codecs now payload ≡ ok tt
      → (expiry : ℤ) × (to_int (get "exp" payload) ≡ some expiry) × (leb_ℤ expiry (pos now) ≡ false)
  unfolding validate_exp
  validate_exp_sound now payload h = exp_sound now (to_int (get "exp" payload)) _ (then-ok _ _ h).1

  validate_exp_complete :
      (now : ℕ) (payload : Fields) (expiry : ℤ)
      → to_int (get "exp" payload) ≡ some expiry
      → leb_ℤ expiry (pos now) ≡ false
      → validate_exp codecs now payload ≡ ok tt
  unfolding validate_exp to_int
  validate_exp_complete now payload expiry e h = ground arith

  pub validate_claims_sound :
      (env : Environment) (addon_id : String) (now : ℕ) (scope : String) (payload : Fields)
      (claims : ServiceTokenClaims)
      → validate_claims codecs env addon_id now scope payload ≡ ok claims
      → HasClaims env addon_id now scope payload
  unfolding validate_claims validate_required_claim
  validate_claims_sound env addon_id now scope payload claims h =
      let (expiry, expires, unexpired) = validate_exp_sound now payload (ground arith) in
      record {
        expiry = expiry;
        expires = expires;
        unexpired = unexpired;
        has_sub = ground arith;
        has_aud = ground arith;
        has_jti = ground arith;
        for_us = ground arith;
        in_scope = ground arith;
      }

  abbrev pub claims_of : Fields → ServiceTokenClaims
  claims_of payload = record {
    sub = to_text (get "sub" payload);
    aud = to_text (get "aud" payload);
    jti = to_text (get "jti" payload);
    scopes = extract_scopes payload;
    raw = payload;
  }

  pub validate_claims_result :
      (env : Environment) (addon_id : String) (now : ℕ) (scope : String) (payload : Fields)
      (claims : ServiceTokenClaims)
      → validate_claims codecs env addon_id now scope payload ≡ ok claims
      → claims ≡ claims_of payload
  unfolding validate_claims
  validate_claims_result env addon_id now scope payload claims h = ground arith

  pub validate_claims_complete :
      (env : Environment) (addon_id : String) (now : ℕ) (scope : String) (payload : Fields)
      → HasClaims env addon_id now scope payload
      → validate_claims codecs env addon_id now scope payload ≡ ok (claims_of payload)
  unfolding validate_claims validate_required_claim
  validate_claims_complete env addon_id now scope payload c =
      ground (arith, validate_exp_complete now payload c.expiry c.expires c.unexpired)
