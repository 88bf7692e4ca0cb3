-- ===== src/Enrolment.antt =====
-- app/api/mqtt_registration.py: the endpoints that register an addon and list the registrations.
-- (`topic_explorer` of that file is in the child Explorer.)
pub mod Guard
pub mod Explorer
pub mod Families
use synthia_mqtt.Prelude.{
  ℕ, String, Bool, true, false, not, ◌&&◌, ◌||◌, Option, none, some, List, map, ◌==◌, if◌then◌else◌,
  Result, ok, err,
}
use synthia_mqtt.Prelude.Text.{strip}
use synthia_mqtt.Json.{Json, Fields, Builtins, str, get, or_else, to_text}
use synthia_mqtt.Codecs.{Bytes, Codecs}
use synthia_mqtt.Http.{HttpError, http_error}
use synthia_mqtt.Token.Claims.{ServiceTokenClaims}
use synthia_mqtt.Traces.{Outcome, success, denied, TraceRequest, TraceFile, append}
use synthia_mqtt.Registrations.{
  AccessMode, HaMode, BrokerMode, embedded, external, MqttRegistrationRequest,
  MqttRegistrationRecord, ManualMapping, DirectMqttCredentials, Files, UpsertError,
  topic_permission_error, value_error, os_error, Writer, is_direct, upsert, list_registrations,
  broker_profile_for,
}

-- What the endpoints change: the files of the store and the log of attempts.
pub record Desk : Type 0 where
  pub files : Files
  pub traces : TraceFile

-- `"embedded" if install_state.get("mode") == "embedded" else "external"`
unfoldable pub broker_mode_of : Fields → BrokerMode
broker_mode_of install_state = elim (get "mode" install_state) [
  | str mode ↦ if mode == "embedded" then embedded else external
  | _ ↦ external
]

abbrev pub is_external : BrokerMode → Bool
is_external external = true
is_external embedded = false

-- The detail of an error that the handler answers with 400; an `OSError` is none.
abbrev pub detail_of : UpsertError → Option String
detail_of (topic_permission_error detail) = some detail
detail_of (value_error detail) = some detail
detail_of (os_error detail) = none

module _ ⦃python : Builtins⦄ where
  unfoldable pub direct_access_mode_of : Fields → String
  direct_access_mode_of install_state =
      to_text (or_else (get "external_direct_access_mode" install_state) (str "gateway_only"))

  unfoldable pub registration_trace : Outcome → ServiceTokenClaims → String → String → TraceRequest
  registration_trace outcome claims addon_id detail = record {
    operation = "mqtt.registration.upsert";
    outcome = outcome;
    addon_id = some addon_id;
    caller_sub = some claims.sub;
    topic = none;
    detail = some detail;
    message_id = none;
    correlation_id = none;
  }

  module _ (codecs : Codecs) where
    -- The guard of external brokers, then the store.
    unfoldable pub guarded_upsert :
        Writer
        → Bytes
        → ℕ
        → Fields
        → MqttRegistrationRequest
        → Files
        → Result UpsertError MqttRegistrationRecord × Files
    guarded_upsert writer fresh now install_state payload files =
        let broker_mode = broker_mode_of install_state in
        let direct_access_mode = direct_access_mode_of install_state in
        if is_external broker_mode
          && (direct_access_mode == "gateway_only" && is_direct payload.access_mode)
        then (
          err (value_error "External gateway_only mode does not allow direct MQTT registration"),
          files,
        )
        else upsert codecs writer fresh now payload broker_mode direct_access_mode files

    -- The response to an error of `upsert`, and the log after it.
    abbrev pub refused_answer :
        ℕ
        → ℕ
        → MqttRegistrationRequest
        → ServiceTokenClaims
        → Option String
        → Desk
        → Result HttpError MqttRegistrationRecord × Desk
    refused_answer max_entries now payload claims none desk =
        (err (http_error 500 "Internal Server Error"), desk)
    refused_answer max_entries now payload claims (some detail) desk = (
      err (http_error 400 detail),
      record desk {
        traces =
            append max_entries now
              (registration_trace denied claims (strip payload.addon_id) detail) desk.traces;
      },
    )

    abbrev answer :
        ℕ
        → ℕ
        → MqttRegistrationRequest
        → ServiceTokenClaims
        → Desk
        → Result UpsertError MqttRegistrationRecord × Files
        → Result HttpError MqttRegistrationRecord × Desk
    answer max_entries now payload claims desk (err e, files) =
        refused_answer max_entries now payload claims (detail_of e) (record desk { files = files })
    answer max_entries now payload claims desk (ok r, files) = (
      ok r,
      record {
        files = files;
        traces =
            append max_entries now
              (registration_trace success claims r.addon_id "Registration upserted") desk.traces;
      },
    )

    -- The handler; without an install state its reading raised.
    unfoldable pub upsert_registration :
        ℕ
        → Writer
        → Bytes
        → ℕ
        → Option Fields
        → MqttRegistrationRequest
        → ServiceTokenClaims
        → Desk
        → Result HttpError MqttRegistrationRecord × Desk
    unfolding guarded_upsert
    upsert_registration max_entries writer fresh now none payload claims desk =
        (err (http_error 500 "Internal Server Error"), desk)
    upsert_registration max_entries writer fresh now (some install_state) payload claims desk =
        answer max_entries now payload claims desk
          (guarded_upsert writer fresh now install_state payload desk.files)

pub record SetupCapabilitySummary : Type 0 where
  pub setup_state : String
  pub broker_mode : BrokerMode
  pub broker_reachable : Bool
  pub direct_mqtt_supported : Bool
  pub broker_profile : String

pub record RegistrationInspectionRecord : Type 0 where
  pub addon_id : String
  pub access_mode : AccessMode
  pub ha_mode : HaMode
  pub publish_scopes : List String
  pub subscribe_scopes : List String
  pub broker_profile : String
  pub health : String
  pub manual_direct_mqtt : Option ManualMapping
  pub direct_mqtt_username : Option String
  pub updated_at : ℕ

abbrev username_of : Option DirectMqttCredentials → Option String
username_of none = none
username_of (some credentials) = some credentials.username

abbrev profile_of : BrokerMode → String
profile_of embedded = "embedded-managed"
profile_of external = "external-manual"

unfoldable pub registration_health : Fields → Bool → String
registration_health install_state reachable = elim (get "setup_state" install_state) [
  | str state ↦
      if state == "unconfigured" then "unknown" else if reachable then "healthy" else "unreachable"
  | _ ↦ if reachable then "healthy" else "unreachable"
]

unfoldable pub inspect : Files → String → MqttRegistrationRecord → RegistrationInspectionRecord
inspect files health r = record {
  addon_id = r.addon_id;
  access_mode = r.access_mode;
  ha_mode = r.ha_mode;
  publish_scopes = r.permissions.publish;
  subscribe_scopes = r.permissions.subscribe;
  broker_profile = broker_profile_for r.addon_id files;
  health = health;
  manual_direct_mqtt = r.manual_direct_mqtt;
  direct_mqtt_username = username_of r.direct_mqtt;
  updated_at = r.updated_at;
}

module _ ⦃python : Builtins⦄ where
  -- `reachable` is `mqtt_connected` of the snapshot of the health service.
  unfoldable pub setup_summary : Fields → Bool → SetupCapabilitySummary
  setup_summary install_state reachable =
      let broker_mode = broker_mode_of install_state in
      record {
        setup_state = to_text (or_else (get "setup_state" install_state) (str "unconfigured"));
        broker_mode = broker_mode;
        broker_reachable = reachable;
        direct_mqtt_supported =
            not (is_external broker_mode)
            || direct_access_mode_of install_state == "manual_direct_access";
        broker_profile = profile_of broker_mode;
      }

  -- `list_registrations` of the endpoints.
  unfoldable pub inspect_registrations :
      Fields → Bool → Files → SetupCapabilitySummary × List RegistrationInspectionRecord
  unfolding inspect setup_summary registration_health
  inspect_registrations install_state reachable files = (
    setup_summary install_state reachable,
    map (inspect files (registration_health install_state reachable)) (list_registrations files),
  )
