-- ===== src/Discovery.antt =====
-- app/api/ha_discovery.py: the endpoints that publish for Home Assistant.
pub mod Audit
use synthia_mqtt.Prelude.{
  ℕ, String, ◌<>◌, Bool, true, false, not, Option, none, some, Result, ok, err, raise_if, ◌>>=◌,
  ◌>>◌,
}
use synthia_mqtt.Prelude.Text.{strip}
use synthia_mqtt.Json.{
  pos, Json, null, boolean, int, float, str, arr, obj, Fields, end, field, Builtins, get, to_text,
}
use synthia_mqtt.Http.{HttpError}
use synthia_mqtt.Topics.{validate_publish_topic}
use synthia_mqtt.Token.Claims.{ServiceTokenClaims}
use synthia_mqtt.Policy.{authorize}
use synthia_mqtt.Registrations.{
  HaMode, no_access, gateway_managed, direct_allowed, get_registration,
}
use synthia_mqtt.Traces.{Outcome, success, denied, error, TraceRequest}
use synthia_mqtt.Publish.{
  Client, Site, World, Refusal, Delivery, message_of, is_setup_complete, or_text, refusal, checked,
  present, unexpected, handle,
}

pub record HaDiscoverySensorRequest : Type 0 where
  pub addon_id : String
  pub unique_id : String
  pub name : String
  pub state_topic : String
  pub unit_of_measurement : Option String
  pub device_class : Option String
  pub icon : Option String

pub record HaStatePublishRequest : Type 0 where
  pub addon_id : String
  pub topic : String
  pub payload : Json
  pub retain : Bool
  pub qos : ℕ

-- `registration.ha_mode == "none"`
abbrev pub is_disabled : HaMode → Bool
is_disabled no_access = true
is_disabled gateway_managed = false
is_disabled direct_allowed = false

-- An attempt without the identifiers of a message.
unfoldable pub plain_trace :
    String → Outcome → ServiceTokenClaims → String → String → Option String → TraceRequest
plain_trace operation outcome claims addon_id topic detail = record {
  operation = operation;
  outcome = outcome;
  addon_id = some addon_id;
  caller_sub = some claims.sub;
  topic = some topic;
  detail = detail;
  message_id = none;
  correlation_id = none;
}

unfoldable pub sensor_topic : HaDiscoverySensorRequest → String
sensor_topic request = "homeassistant/sensor/" <> (request.unique_id <> "/config")

abbrev optional_field : String → Option String → Fields → Fields
optional_field key none rest = rest
optional_field key (some text) rest = field key (str text) rest

unfoldable pub sensor_payload : HaDiscoverySensorRequest → Fields
sensor_payload request = field "unique_id" (str request.unique_id) (
    field "name" (str request.name) (
      field "state_topic" (str request.state_topic) (
        optional_field "unit_of_measurement" request.unit_of_measurement (
          optional_field "device_class" request.device_class
            (optional_field "icon" request.icon end)))))

module _ ⦃python : Builtins⦄ where
  -- `str(payload.get(key)) if payload.get(key) is not None else None`
  abbrev raw_id : Json → Option String
  raw_id null = none
  raw_id value = some (to_text value)

  abbrev raw_id_in : String → Json → Option String
  raw_id_in key (obj payload) = raw_id (get key payload)
  raw_id_in key _ = none

  -- An attempt with the identifiers of the payload, untrimmed.
  unfoldable pub state_trace :
      HaStatePublishRequest → Outcome → ServiceTokenClaims → String → Option String → TraceRequest
  unfolding plain_trace
  state_trace request outcome claims topic detail =
      record (plain_trace "mqtt.ha.state.publish" outcome claims request.addon_id topic detail) {
        message_id = raw_id_in "message_id" request.payload;
        correlation_id = raw_id_in "correlation_id" request.payload;
      }

  abbrev pub sensor_delivery :
      HaDiscoverySensorRequest → ServiceTokenClaims → Client → Delivery (Unit {0})
  sensor_delivery request claims client =
      let trace = λ (outcome : Outcome) (detail : Option String).
        plain_trace "mqtt.ha.discovery.publish" outcome claims request.addon_id
          (sensor_topic request) detail in
      record {
        client = client;
        sent = record {
          topic = sensor_topic request;
          message = message_of (obj (sensor_payload request));
          retain = true;
          qos = pos 1;
        };
        failed = trace error (some "Failed to publish HA discovery payload");
        failure = "Failed to publish HA discovery payload";
        succeeded = trace success none;
        consumer = claims.sub;
        operation = "mqtt.ha.discovery.publish";
        response = tt;
      }

  unfoldable pub check_sensor :
      Site → HaDiscoverySensorRequest → ServiceTokenClaims → Result Refusal (Delivery (Unit {0}))
  check_sensor site request claims =
      let refuse = λ (outcome : Outcome) (told : String) (status : ℕ) (detail : String).
        refusal
          (plain_trace "mqtt.ha.discovery.publish" outcome claims request.addon_id
            (sensor_topic request) (some told))
          status detail in
      let unregistered = "No registration found for addon_id=" <> request.addon_id in
      let disabled : String = "HA discovery mode is not enabled for this registration" in
      do
        install_state ← present site.install_state unexpected
        raise_if (not (is_setup_complete install_state)) (
            refuse denied "Setup is not complete" 409
              "Setup is not complete. Finish setup before using HA discovery publish APIs.")
        checked (authorize site.environment site.cache claims "mqtt.publish") (λ reason.
            refuse denied (or_text reason "Policy denied HA discovery publish") 403
              (or_text reason "Policy denied HA discovery publish"))
        registration ←
            present (get_registration request.addon_id site.registrations)
              (refuse denied unregistered 404 unregistered)
        raise_if (is_disabled registration.ha_mode) (refuse denied disabled 403 disabled)
        client ←
            present site.client
              (refuse error "MQTT service unavailable" 500 "MQTT service unavailable")
        ok (sensor_delivery request claims client)

  unfoldable pub publish_sensor_discovery :
      Site
      → HaDiscoverySensorRequest
      → ServiceTokenClaims
      → World
      → Result HttpError (Unit {0}) × World
  unfolding check_sensor handle
  publish_sensor_discovery site request claims world =
      handle site (check_sensor site request claims) world

  abbrev pub state_delivery :
      HaStatePublishRequest → ServiceTokenClaims → Client → String → Delivery (Unit {0})
  state_delivery request claims client topic = record {
    client = client;
    sent = record {
      topic = topic;
      message = message_of request.payload;
      retain = request.retain;
      qos = pos request.qos;
    };
    failed = state_trace request error claims topic (some "Failed to publish HA state payload");
    failure = "Failed to publish HA state payload";
    succeeded = state_trace request success claims topic none;
    consumer = claims.sub;
    operation = "mqtt.ha.state.publish";
    response = tt;
  }

  unfoldable pub check_state :
      Site → HaStatePublishRequest → ServiceTokenClaims → Result Refusal (Delivery (Unit {0}))
  check_state site request claims =
      let trimmed = strip request.topic in
      let refuse = λ (outcome : Outcome) (told : String) (status : ℕ) (detail : String).
        refusal
          (plain_trace "mqtt.ha.state.publish" outcome claims request.addon_id trimmed (some told))
          status detail in
      let unregistered = "No registration found for addon_id=" <> request.addon_id in
      let disabled : String = "HA state mode is not enabled for this registration" in
      do
        install_state ← present site.install_state unexpected
        raise_if (not (is_setup_complete install_state)) (
            refuse denied "Setup is not complete" 409
              "Setup is not complete. Finish setup before using HA state publish APIs.")
        checked (authorize site.environment site.cache claims "mqtt.publish") (λ reason.
            refusal
              (state_trace request denied claims trimmed
                (some (or_text reason "Policy denied HA state publish")))
              403 (or_text reason "Policy denied HA state publish"))
        registration ←
            present (get_registration request.addon_id site.registrations)
              (refuse denied unregistered 404 unregistered)
        raise_if (is_disabled registration.ha_mode) (refuse denied disabled 403 disabled)
        client ←
            present site.client
              (refuse error "MQTT service unavailable" 500 "MQTT service unavailable")
        topic ←
            checked (validate_publish_topic trimmed (some request.addon_id))
              (λ reason. refuse denied reason 400 reason)
        ok (state_delivery request claims client topic)

  unfoldable pub publish_gateway_state :
      Site
      → HaStatePublishRequest
      → ServiceTokenClaims
      → World
      → Result HttpError (Unit {0}) × World
  unfolding check_state handle
  publish_gateway_state site request claims world =
      handle site (check_state site request claims) world
