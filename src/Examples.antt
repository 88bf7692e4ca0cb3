-- ===== src/Examples.antt =====
-- Concrete inputs: an interpreter, codecs and a service with one registered addon. The modules
-- below apply the theorems to them.
mod Access
mod Naming
mod Sending
mod Keeping
mod Setup
mod Linking
mod Watching
mod Managing
use synthia_mqtt.Prelude.{
  ℕ, zero, suc, String, true, false, Option, none, some, List, [], ◌∷◌, ◌==◌, if◌then◌else◌,
}
use synthia_mqtt.Json.{ℤ, pos, negsuc, Json, Fields, end, field, str, obj, Builtins, Environment}
use synthia_mqtt.Codecs.{Bytes, Codecs}
use synthia_mqtt.Token.Claims.{ServiceTokenClaims}
use synthia_mqtt.Policy.{GrantRecord, PolicyCache, init}
use synthia_mqtt.Topics.{RealizedPermissions}
use synthia_mqtt.Registrations.{
  AccessMode, gateway_only, both, HaMode, gateway_managed, BrokerMode, MqttRegistrationRequest,
  MqttRegistrationRecord, Stored, Files,
}
use synthia_mqtt.Telemetry.{Reporter}
use synthia_mqtt.Traces.{missing}
use synthia_mqtt.Publish.{Site, World}

-- An interpreter that prints small numbers and reads two texts.
instance pub sample_python : Builtins
sample_python = record {
  print_number = λ n. (elim n [
    | pos k ↦ elim k [ zero ↦ "0" | suc m ↦ elim m [ zero ↦ "1" | suc o ↦ "2" ] ]
    | negsuc k ↦ "-1"
  ]);
  repr = λ v. "[...]";
  int_of_text =
      λ t. if t == "1" then some (pos 1) else if t == "1883" then some (pos 1883) else none;
  int_of_float = λ t. none;
  loads = λ t.
      if t == "{}"
      then some (obj end)
      else if t == "{...}"
      then some (obj (field "alg" (str "HS256") end))
      else none;
  dumps = λ v. "{...}";
}

-- Codecs that are easy to evaluate: the encoding of a text is its mark, and a digest is its input.
abbrev pub sample_codecs : Codecs
sample_codecs = record {
  urlsafe_b64decode = λ t. if t == "c2ln" then none else some (1 ∷ []);
  urlsafe_b64encode = λ b. "AQ==";
  utf8_decode = λ b. some "{...}";
  utf8_encode = λ t. if t == "" then [] else 1 ∷ [];
  hmac_sha256 = λ key text. text;
  sha256_hex = λ b. "01";
}

-- Enforcement and authentication are on.
abbrev pub sample_env : Environment
sample_env name =
    if name == "SYNTHIA_POLICY_ENFORCEMENT"
    then some "true"
    else if name == "SYNTHIA_AUTH_REQUIRED"
    then some "true"
    else if name == "SYNTHIA_JWT_SIGNING_KEY"
    then some "key"
    else none

abbrev pub sample_claims : ServiceTokenClaims
sample_claims = record {
  sub = "weather";
  aud = "mqtt";
  jti = "t1";
  scopes = "mqtt.publish" ∷ [];
  raw = end;
}

abbrev pub sample_grant : GrantRecord
sample_grant = record {
  grant_id = some "g1";
  consumer_addon_id = "weather";
  service = none;
  status = "active";
  scopes = "mqtt.publish" ∷ [];
}

abbrev pub sample_cache : PolicyCache
sample_cache = record (init "mqtt") { grants_by_consumer = ("weather", sample_grant) ∷ [] }

abbrev pub sample_scopes : List String
sample_scopes = "synthia/addons/weather/state" ∷ []

abbrev pub sample_request : MqttRegistrationRequest
sample_request = record {
  addon_id = " weather ";
  access_mode = both;
  publish_topics = "synthia/addons/weather/state" ∷ " synthia/addons/weather/state" ∷ [];
  subscribe_topics = "synthia/system/clock" ∷ [];
  capabilities = end;
  ha_mode = gateway_managed;
  manual_direct_mqtt = none;
  reprovision = true;
}

abbrev pub sample_record : MqttRegistrationRecord
sample_record = record {
  addon_id = "weather";
  access_mode = gateway_only;
  publish_topics = sample_scopes;
  subscribe_topics = [];
  permissions = record { publish = sample_scopes; subscribe = [] };
  ha_mode = gateway_managed;
  capabilities = end;
  manual_direct_mqtt = none;
  direct_mqtt = none;
  updated_at = 5;
}

abbrev pub no_files : Files
no_files = record { registrations = []; seed = none; acl_generated = []; external_acl_notes = [] }

abbrev pub sample_files : Files
sample_files = record no_files {
  registrations =
      (
        "weather",
        record {
          record_of = some sample_record;
          credential_meta = none;
          acl_mode = none;
          external_direct_access_mode = none;
        },
      )
      ∷ [];
}

abbrev pub sample_reporter : Reporter
sample_reporter = record { addon_id = "mqtt"; service_name = "mqtt"; max_queue = pos 500 }

abbrev pub sample_site : Site
sample_site = record {
  environment = sample_env;
  cache = sample_cache;
  install_state = some (field "setup_state" (str "ready") end);
  effective_config = some (end);
  registrations = sample_files;
  client = some (λ calls call. some 0);
  reporter = sample_reporter;
  max_entries = 500;
  now = 7;
  timestamp = "2026-01-01T00:00:00+00:00";
}

abbrev pub sample_world : World
sample_world = record { traces = missing; calls = []; last_error = none; queue = [] }

-- A revocation of the sample's token, grant and consumer, and a grant for the consumer.
abbrev pub sample_revocation : Fields
sample_revocation =
    field "jti" (str "t1")
      (field "grant_id" (str "g1") (field "consumer_addon_id" (str "weather") end))

abbrev pub sample_grant_message : Fields
sample_grant_message =
    field "consumer_addon_id" (str "weather") (field "scopes" (str "mqtt.publish") end)
