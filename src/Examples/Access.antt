-- ===== src/Examples/Access.antt =====
-- The theorems on tokens, grants and revocations at concrete inputs.
use synthia_mqtt.Prelude.{◌≡◌, ◌≢◌, refl, ◌↔◌, ◌⊎◌, true, false, some, [], ◌∷◌, ok, lookup, ◌==◌}
use synthia_mqtt.Prelude.Text.{strip, lstrip, rstrip, is_space, lower, lower_char}
use synthia_mqtt.Json.{
  Fields, end, field, str, to_bool, extract_scopes, or_else, get, get?, get_or, truthy, trimmed,
  to_text,
}
use synthia_mqtt.Token.Accept.{IsAccepted, anonymous, require_scope_iff}
use synthia_mqtt.Token.{auth_required, require_scope}
use synthia_mqtt.Policy.{
  authorize, apply_revocation, ingest_all, init, Message, enforcement_enabled, grant_id_of, jti_of,
  revoked_consumer_of, consumer_of, grant_of, parse_payload,
}
use synthia_mqtt.Policy.Authorize.{IsAuthorized, authorize_iff}
use synthia_mqtt.Policy.Ingest.{
  IsConsistent, HoldsUnrevoked, ingest_all-IsConsistent, revoked_token_denied,
}
use synthia_mqtt.Policy.Regrant.{revoked_consumer_denied}
use synthia_mqtt.Examples.{
  sample_python, sample_codecs, sample_env, sample_claims, sample_cache, sample_revocation,
}

abbrev sample_message : Message
sample_message = record {
  env = sample_env;
  topic = "synthia/policy/grants/weather";
  payload_text = "{}";
}

abbrev sample_other : Fields
sample_other = field "grant_id" (str "g2") end

authorize_iff_example :
    (authorize sample_env sample_cache sample_claims "mqtt.publish" ≡ ok tt)
    ↔ IsAuthorized sample_cache sample_claims "mqtt.publish"
unfolding enforcement_enabled to_bool lower lower_char strip lstrip rstrip is_space jti_of
    grant_id_of revoked_consumer_of consumer_of grant_of extract_scopes or_else get get? get_or
    truthy trimmed to_text lookup parse_payload
authorize_iff_example = authorize_iff sample_env sample_cache sample_claims "mqtt.publish" refl

revoked_token_denied_example :
    authorize sample_env
      (ingest_all (apply_revocation sample_cache sample_revocation) (sample_message ∷ []))
      sample_claims
      "mqtt.publish"
    ≢ ok tt
unfolding enforcement_enabled to_bool lower lower_char strip lstrip rstrip is_space jti_of
    grant_id_of revoked_consumer_of consumer_of grant_of extract_scopes or_else get get? get_or
    truthy trimmed to_text lookup parse_payload
revoked_token_denied_example =
    revoked_token_denied sample_cache sample_revocation (sample_message ∷ []) sample_env
      sample_claims "mqtt.publish" refl refl refl

revoked_consumer_denied_example :
    authorize sample_env
      (ingest_all (apply_revocation sample_cache sample_revocation) (sample_message ∷ []))
      sample_claims
      "mqtt.publish"
    ≢ ok tt
unfolding enforcement_enabled to_bool lower lower_char strip lstrip rstrip is_space jti_of
    grant_id_of revoked_consumer_of consumer_of grant_of extract_scopes or_else get get? get_or
    truthy trimmed to_text lookup parse_payload sample_python synthia_mqtt.Prelude.Text.has_infix
revoked_consumer_denied_example =
    revoked_consumer_denied sample_cache sample_revocation (sample_message ∷ []) sample_env
      sample_claims "mqtt.publish" refl refl refl refl

ingest_all-IsConsistent_example :
    IsConsistent (ingest_all (init "mqtt") (sample_message ∷ []))
    × HoldsUnrevoked (ingest_all (init "mqtt") (sample_message ∷ []))
ingest_all-IsConsistent_example = ingest_all-IsConsistent "mqtt" (sample_message ∷ [])

require_scope_iff_example :
    (require_scope sample_codecs sample_env "mqtt" 7 (some "Bearer a.b.AQ==") "mqtt.publish"
      ≡ ok sample_claims)
    ↔ (((auth_required sample_env ≡ false)
          × (sample_claims ≡ anonymous sample_env "mqtt" "mqtt.publish"))
        ⊎ ((auth_required sample_env ≡ true)
            × (("key" == "") ≡ false)
            × IsAccepted sample_codecs sample_env "mqtt" 7 "key"
                (some "Bearer a.b.AQ==")
                "mqtt.publish"
                sample_claims))
require_scope_iff_example =
    require_scope_iff sample_codecs sample_env "mqtt" 7 (some "Bearer a.b.AQ==") "mqtt.publish"
      sample_claims
