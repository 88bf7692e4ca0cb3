-- ===== src/Config/Requests.antt =====
-- The requests that apply a configuration (app/models/install_models.py), and what
-- `apply_install_config` of app/services/config_store.py writes for each of their fields.
use synthia_mqtt.Prelude.{ℕ, String, Bool, false, Option, none, some, Result, ok, err}
use synthia_mqtt.Json.{pos, Json, boolean, int, str, obj, Fields, end, field, Environment}
use synthia_mqtt.Json.Objects.{put, put_some, text_or_null}
use synthia_mqtt.Registrations.{BrokerMode, embedded, external}
use synthia_mqtt.Config.{Exception, other_error}
use synthia_mqtt.Config.Settings.{some_text, default_embedded_broker_host}
use synthia_mqtt.Config.Broker.{EmbeddedBrokerConfig}

pub data ExternalAccess : Type 0 where
  gateway_only : ExternalAccess
  manual_direct_access : ExternalAccess

pub record ExternalConnectionConfig : Type 0 where
  pub host : String
  pub port : ℕ
  pub tls : Bool
  pub username : Option String
  pub password : Option String

pub record InstallApplyRequest : Type 0 where
  pub mode : BrokerMode
  pub external_config : Option ExternalConnectionConfig
  pub embedded_config : Option EmbeddedBrokerConfig
  pub base_topic : Option String
  pub ha_discovery_prefix : Option String
  pub external_direct_access_mode : ExternalAccess
  pub qos_default : Option ℕ
  pub allow_unvalidated : Bool

unfoldable pub mode_text : BrokerMode → String
mode_text external = "external"
mode_text embedded = "embedded"

unfoldable pub access_text : ExternalAccess → String
access_text gateway_only = "gateway_only"
access_text manual_direct_access = "manual_direct_access"

-- `model_dump(exclude_none=True)` of the two configurations.
unfoldable pub external_fields : ExternalConnectionConfig → Fields
external_fields c = put_some "password" (some_text c.password) (
    put_some "username" (some_text c.username) (
      field "host" (str c.host)
        (field "port" (int (pos c.port)) (field "tls" (boolean c.tls) end))))

unfoldable pub embedded_fields : EmbeddedBrokerConfig → Fields
embedded_fields c = put_some "admin_pass" (some_text c.admin_pass) (
    put_some "admin_user" (some_text c.admin_user) (
      field "allow_anonymous" (boolean c.allow_anonymous) (
        field "persistence" (boolean c.persistence)
          (field "log_type" (str c.log_type) (field "port" (int (pos c.port)) end)))))

abbrev some_object : {A : Type 0} → (A → Fields) → Option A → Option Json
some_object dump none = none
some_object dump (some a) = some (obj (dump a))

abbrev pub some_number : Option ℕ → Option Json
some_number none = none
some_number (some n) = some (int (pos n))

-- The keys `mqtt_host` to `mqtt_password`; a configuration that is missing is a `KeyError`.
unfoldable pub connection_overrides :
    Environment → InstallApplyRequest → BrokerMode → Fields → Result Exception Fields
unfolding put
connection_overrides env request external overrides = elim request.external_config [
  | none ↦ err other_error
  | some c ↦ ok (
      put "mqtt_password" (text_or_null c.password) (
        put "mqtt_username" (text_or_null c.username) (
          put "mqtt_tls" (boolean c.tls)
            (put "mqtt_port" (int (pos c.port)) (put "mqtt_host" (str c.host) overrides)))))
]
connection_overrides env request embedded overrides = elim request.embedded_config [
  | none ↦ err other_error
  | some c ↦ ok (
      put "mqtt_password" (text_or_null c.admin_pass) (
        put "mqtt_username" (text_or_null c.admin_user) (
          put "mqtt_tls" (boolean false) (
            put "mqtt_port" (int (pos 1883))
              (put "mqtt_host" (str (default_embedded_broker_host env)) overrides)))))
]

-- The keys that do not depend on the mode.
unfoldable pub request_overrides : InstallApplyRequest → Fields → Fields
unfolding put external_fields embedded_fields access_text mode_text
request_overrides r overrides = put_some "qos_default" (some_number r.qos_default) (
    put "external_direct_access_mode" (str (access_text r.external_direct_access_mode)) (
      put_some "ha_discovery_prefix" (some_text r.ha_discovery_prefix) (
        put_some "base_topic" (some_text r.base_topic) (
          put_some "embedded" (some_object embedded_fields r.embedded_config) (
            put_some "external" (some_object external_fields r.external_config)
              (put "mode" (str (mode_text r.mode)) overrides))))))

unfoldable pub common_overrides : InstallApplyRequest → Fields → Fields
unfolding put
common_overrides r overrides =
    put_some "mqtt_qos" (some_number r.qos_default)
      (put_some "mqtt_base_topic" (some_text r.base_topic) overrides)
