-- ===== src/Examples/Keeping.antt =====
-- The theorems on registrations and traces at concrete inputs.
use synthia_mqtt.Prelude.{
  ℕ, ◌≤◌, ◌+◌, String, ◌≡◌, refl, Bool, true, false, not, ◌&&◌, Option, none, some, List, [], ◌∷◌,
  take, ◌==◌, if◌then◌else◌, is_some, ok,
}
use synthia_mqtt.Prelude.Text.{strip, lstrip, rstrip, is_space}
use synthia_mqtt.Json.{pos, end}
use synthia_mqtt.Codecs.{Bytes}
use synthia_mqtt.Topics.{normalize_topics, realize_topic_permissions}
use synthia_mqtt.Registrations.{
  both, gateway_only, gateway_managed, embedded, MqttRegistrationRequest, MqttRegistrationRecord,
  external, Files, Writer, upsert, get_registration, is_direct,
}
use synthia_mqtt.Registrations.Upsert.{get_registration-upsert}
use synthia_mqtt.Registrations.Credentials.{
  Others, nobody, another, credentials_for, credentials_last,
}
use synthia_mqtt.Traces.{
  TraceRequest, TraceRecord, missing, unreadable, success, load_all, append, append_all,
  list_recent, bounded_limit, capacity,
}
use synthia_mqtt.Traces.Recent.{list_recent-append_all}
use synthia_mqtt.Traces.Bounds.{stored, append_bounds}
use synthia_mqtt.Enrolment.{Desk, upsert_registration}
use synthia_mqtt.Enrolment.Guard.{upsert_registration_guarded}
use synthia_mqtt.Examples.{sample_python, sample_codecs, sample_claims, sample_request, no_files}

abbrev trace : TraceRequest
trace = record {
  operation = "mqtt.publish";
  outcome = success;
  addon_id = some "weather";
  caller_sub = some "weather";
  topic = none;
  detail = none;
  message_id = none;
  correlation_id = none;
}

abbrev first : TraceRecord
first = record { timestamp = 1; request = trace }

abbrev second : TraceRecord
second = record { timestamp = 2; request = trace }

list_recent-append_all_example :
    list_recent 500 (pos 100) (append_all 500 (first ∷ second ∷ []) unreadable)
    ≡ take (bounded_limit 500 (pos 100)) (second ∷ first ∷ [])
unfolding load_all
list_recent-append_all_example =
    list_recent-append_all 500 (first ∷ second ∷ []) (pos 100) unreadable refl

append_bounds_example :
    (stored (append 500 1 trace missing) ≤ capacity 500)
    × ((older : List TraceRecord) × (list_recent 500 (pos 1) (append 500 1 trace missing)
          ≡ first ∷ older))
append_bounds_example = append_bounds 500 1 trace missing (pos 1)

abbrev seed : Bytes
seed = 9 ∷ []

abbrev made : MqttRegistrationRecord
made = record {
  addon_id = "weather";
  access_mode = both;
  publish_topics = "synthia/addons/weather/state" ∷ [];
  subscribe_topics = "synthia/system/clock" ∷ [];
  permissions = record {
    publish = "synthia/addons/weather/state" ∷ [];
    subscribe = "synthia/system/clock" ∷ [];
  };
  ha_mode = gateway_managed;
  capabilities = end;
  manual_direct_mqtt = none;
  direct_mqtt = some (record { username = "addon_weather_mqtt"; password = "AQ" });
  updated_at = 3;
}

-- The files after the registration of the sample request, with credentials of a version.
abbrev files_with : ℕ → Files
files_with version = record {
  registrations =
      (
        "weather",
        record {
          record_of = some made;
          credential_meta = some (record {
            version = version;
            username = "addon_weather_mqtt";
            password_hash = "01";
            updated_at = 3;
          });
          acl_mode = some "embedded-generated";
          external_direct_access_mode = some "gateway_only";
        },
      )
      ∷ [];
  seed = some seed;
  acl_generated =
      (
        "weather",
        "user addon_weather_mqtt\ntopic write synthia/addons/weather/state\ntopic read synthia/system/clock\n",
      )
      ∷ [];
  external_acl_notes = [];
}

-- A file system that takes every name.
abbrev any_name : Writer
any_name name = none

first_upsert :
    upsert sample_codecs any_name seed 3 sample_request embedded "gateway_only" no_files
    ≡ (ok made, files_with 2)
unfolding upsert realize_topic_permissions strip is_space synthia_mqtt.Topics.check_each
    normalize_topics synthia_mqtt.Topics.check_publish synthia_mqtt.Topics.validate_nonempty_topic
    synthia_mqtt.Topics.validate_lifecycle_pattern synthia_mqtt.Prelude.Text.starts_with
    synthia_mqtt.Topics.addon_prefix synthia_mqtt.Prelude.Text.drop_text
    synthia_mqtt.Prelude.Text.has_infix synthia_mqtt.Topics.is_reserved_topic
    synthia_mqtt.Topics.check_subscribe synthia_mqtt.Registrations.provision
    synthia_mqtt.Registrations.issue_direct_credentials
    synthia_mqtt.Registrations.write_embedded_acl synthia_mqtt.Registrations.password_for
    synthia_mqtt.Prelude.insert synthia_mqtt.Registrations.load_or_create_seed
    synthia_mqtt.Prelude.Text.take_text synthia_mqtt.Prelude.lookup
    synthia_mqtt.Registrations.normalize_direct_access synthia_mqtt.Prelude.Text.join
    synthia_mqtt.Prelude.Text.rstrip_char
first_upsert = refl

second_upsert :
    upsert sample_codecs any_name [] 3 sample_request embedded "gateway_only" (files_with 2)
    ≡ (ok made, files_with 3)
unfolding upsert realize_topic_permissions strip is_space synthia_mqtt.Topics.check_each
    normalize_topics synthia_mqtt.Topics.check_publish synthia_mqtt.Topics.validate_nonempty_topic
    synthia_mqtt.Topics.validate_lifecycle_pattern synthia_mqtt.Prelude.Text.starts_with
    synthia_mqtt.Topics.addon_prefix synthia_mqtt.Prelude.Text.drop_text
    synthia_mqtt.Prelude.Text.has_infix synthia_mqtt.Topics.is_reserved_topic
    synthia_mqtt.Topics.check_subscribe synthia_mqtt.Registrations.provision
    synthia_mqtt.Registrations.issue_direct_credentials
    synthia_mqtt.Registrations.write_embedded_acl synthia_mqtt.Registrations.password_for
    synthia_mqtt.Prelude.insert synthia_mqtt.Registrations.load_or_create_seed
    synthia_mqtt.Prelude.Text.take_text synthia_mqtt.Prelude.lookup
    synthia_mqtt.Registrations.normalize_direct_access synthia_mqtt.Prelude.Text.join
    synthia_mqtt.Prelude.Text.rstrip_char
second_upsert = refl

get_registration-upsert_example : get_registration "weather" (files_with 2) ≡ (
    if strip sample_request.addon_id == strip "weather"
    then some made
    else get_registration "weather" no_files)
get_registration-upsert_example =
    get_registration-upsert sample_codecs seed 3 sample_request embedded no_files any_name
      "gateway_only" made (files_with 2) "weather" first_upsert

-- A request of another addon, which is refused.
other_request : Others sample_codecs "weather" (files_with 2) (files_with 2)
unfolding upsert realize_topic_permissions strip is_space synthia_mqtt.Topics.check_each
    normalize_topics synthia_mqtt.Topics.check_publish synthia_mqtt.Topics.validate_nonempty_topic
    synthia_mqtt.Topics.validate_lifecycle_pattern synthia_mqtt.Prelude.Text.starts_with
    synthia_mqtt.Topics.addon_prefix synthia_mqtt.Topics.is_reserved_topic
other_request =
    another any_name [] 3 (record sample_request { addon_id = "lights" }) external "gateway_only"
      (files_with 2) (files_with 2) refl (nobody (files_with 2))

credentials_last_example :
    (seed' : Bytes) × (version : ℕ) × (made.direct_mqtt
      ≡ some (credentials_for sample_codecs seed' made.addon_id version))
    × (made.direct_mqtt ≡ some (credentials_for sample_codecs seed' made.addon_id (version + 1)))
unfolding strip is_space
credentials_last_example =
    credentials_last sample_codecs any_name any_name seed [] 3 3 sample_request sample_request
      "gateway_only" "gateway_only" no_files (files_with 2) (files_with 2) (files_with 3) made made
      refl refl refl first_upsert other_request second_upsert

abbrev desk : Desk
desk = record { files = no_files; traces = missing }

-- A request through the gateway of an external broker, and what it stores.
abbrev gateway_request : MqttRegistrationRequest
gateway_request = record sample_request { access_mode = gateway_only }

abbrev gateway_record : MqttRegistrationRecord
gateway_record = record made { access_mode = gateway_only; direct_mqtt = none }

upsert_registration_guarded_example :
    (is_some gateway_record.direct_mqtt ≡ false)
    × (is_some gateway_record.manual_direct_mqtt ≡ false)
unfolding synthia_mqtt.Enrolment.broker_mode_of synthia_mqtt.Json.get
    synthia_mqtt.Enrolment.direct_access_mode_of synthia_mqtt.Json.to_text synthia_mqtt.Json.or_else
    upsert_registration upsert realize_topic_permissions strip is_space
    synthia_mqtt.Topics.check_each normalize_topics synthia_mqtt.Topics.check_publish
    synthia_mqtt.Topics.validate_nonempty_topic synthia_mqtt.Topics.validate_lifecycle_pattern
    synthia_mqtt.Prelude.Text.starts_with synthia_mqtt.Topics.addon_prefix
    synthia_mqtt.Prelude.Text.drop_text synthia_mqtt.Prelude.Text.has_infix
    synthia_mqtt.Topics.is_reserved_topic synthia_mqtt.Topics.check_subscribe
    synthia_mqtt.Registrations.provision synthia_mqtt.Registrations.write_external_acl_note
upsert_registration_guarded_example =
    upsert_registration_guarded sample_codecs 500 any_name seed 3 gateway_request sample_claims desk
      end gateway_record refl refl refl
