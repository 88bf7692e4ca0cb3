-- ===== src/Config/Settings.antt =====
-- The configuration that app/services/config_store.py reads and writes: the effective one, the
-- one of the installation with its secrets masked, and the address of the core.
use synthia_mqtt.Prelude.{
  String, Bool, not, Option, none, some, ◌==◌, if◌then◌else◌, Result, ok, err, ◌>>=◌,
}
use synthia_mqtt.Prelude.Text.{strip, mask_text}
use synthia_mqtt.Json.{
  ℤ, Json, null, boolean, int, str, obj, Fields, end, field, get, get_or, or_else, truthy, to_text,
  trimmed, to_bool, getenv, Environment, Builtins,
}
use synthia_mqtt.Json.Objects.{put, put_some, object_or_empty}
use synthia_mqtt.Config.{
  Exception, other_error, holds, Disk, Host, getenv_or_none, load, get_of, in_set, modes,
  access_modes, int_of,
}
use synthia_mqtt.Config.Desired.{read_desired}

-- `AddonConfigUpdate`
pub record AddonConfigUpdate : Type 0 where
  pub mqtt_host : Option String
  pub mqtt_port : Option ℤ
  pub mqtt_username : Option String
  pub mqtt_password : Option String
  pub mqtt_tls : Option Bool
  pub mqtt_client_id : Option String
  pub mqtt_base_topic : Option String
  pub mqtt_qos : Option ℤ

abbrev pub some_text : Option String → Option Json
some_text none = none
some_text (some s) = some (str s)

abbrev pub some_int : Option ℤ → Option Json
some_int none = none
some_int (some n) = some (int n)

abbrev pub some_bool : Option Bool → Option Json
some_bool none = none
some_bool (some b) = some (boolean b)

-- `overrides.update(config_update.model_dump(exclude_none=True))`
unfoldable pub merge_update : AddonConfigUpdate → Fields → Fields
unfolding put
merge_update u overrides = put_some "mqtt_qos" (some_int u.mqtt_qos) (
    put_some "mqtt_base_topic" (some_text u.mqtt_base_topic) (
      put_some "mqtt_client_id" (some_text u.mqtt_client_id) (
        put_some "mqtt_tls" (some_bool u.mqtt_tls) (
          put_some "mqtt_password" (some_text u.mqtt_password) (
            put_some "mqtt_username" (some_text u.mqtt_username) (
              put_some "mqtt_port" (some_int u.mqtt_port)
                (put_some "mqtt_host" (some_text u.mqtt_host) overrides)))))))

-- `_save_overrides`
unfoldable pub save_overrides : Fields → Disk → Disk
save_overrides overrides disk = record disk { overrides = holds (obj overrides) }

-- `os.getenv("SYNTHIA_EMBEDDED_BROKER_HOST", …)`
unfoldable pub default_embedded_broker_host : Environment → String
default_embedded_broker_host env =
    getenv env "SYNTHIA_EMBEDDED_BROKER_HOST" "synthia-addon-mqtt-mosquitto"

module _ ⦃python : Builtins⦄ where
  -- `_mask_secret`
  unfoldable pub mask_secret : Json → Json
  unfolding to_text
  mask_secret null = null
  mask_secret v = let text = to_text v in if text == "" then null else str (mask_text text)

  -- The configuration from what is saved, with the port and the quality of service.
  unfoldable pub effective_fields : Bool → Environment → Fields → ℤ → ℤ → Fields
  unfolding getenv_or_none mask_secret
  effective_fields mask_secrets env overrides port qos =
      let password = get_or "mqtt_password" (getenv_or_none env "MQTT_PASSWORD") overrides in
      let tls = get_or "mqtt_tls" (boolean (to_bool (getenv env "MQTT_TLS" "false"))) overrides in
      field "mqtt_host"
        (get_or "mqtt_host" (str (getenv env "MQTT_HOST" (default_embedded_broker_host env)))
          overrides)
        (field "mqtt_port" (int port) (
          field "mqtt_username"
            (get_or "mqtt_username" (getenv_or_none env "MQTT_USERNAME") overrides)
            (field "mqtt_password" (if mask_secrets then mask_secret password else password) (
              field "mqtt_tls" (boolean (truthy tls)) (
                field "mqtt_client_id"
                  (get_or "mqtt_client_id" (str (getenv env "MQTT_CLIENT_ID" "synthia-addon-mqtt"))
                    overrides)
                  (field "mqtt_base_topic"
                    (get_or "mqtt_base_topic" (str (getenv env "MQTT_BASE_TOPIC" "synthia"))
                      overrides)
                    (field "mqtt_qos" (int qos) end)))))))

  unfoldable pub get_effective_config : Bool → Host → Disk → Result Exception Fields
  unfolding effective_fields load
  get_effective_config mask_secrets host disk =
      let env = host.environment in
      do
        default_port ← int_of (str (getenv env "MQTT_PORT" "1883"))
        default_qos ← int_of (str (getenv env "MQTT_QOS" "1"))
        overrides ← load disk.overrides
        port ← int_of (get_or "mqtt_port" (int default_port) overrides)
        qos ← int_of (get_or "mqtt_qos" (int default_qos) overrides)
        ok (effective_fields mask_secrets env overrides port qos)

  -- `CORE_URL` of the environment in the desired state.
  unfoldable pub desired_core_url : Fields → String
  desired_core_url desired =
      let env = object_or_empty (get "env" (object_or_empty (get "config" desired))) in
      trimmed (or_else (get "CORE_URL" env) (str ""))

  unfoldable pub get_core_base_url : Host → Disk → Result Exception String
  unfolding load desired_core_url
  get_core_base_url host disk = do
    overrides ← load disk.overrides
    let raw = trimmed (or_else (get "core_base_url" overrides) (str ""))
    let desired_core = desired_core_url (read_desired disk)
    let core = strip (getenv host.environment "CORE_BASE_URL" "")
    ok (
        if not (raw == "")
        then raw
        else if not (desired_core == "")
        then desired_core
        else if not (core == "")
        then core
        else strip (getenv host.environment "CORE_URL" ""))

  -- `external` of `get_install_state` before its password is masked.
  unfoldable pub external_settings : Environment → Fields → Result Exception Json
  unfolding getenv_or_none
  external_settings env overrides =
      if truthy (get "external" overrides) then ok (get "external" overrides) else do
        default_port ← int_of (str (getenv env "MQTT_PORT" "1883"))
        port ← int_of (get_or "mqtt_port" (int default_port) overrides)
        let tls = get_or "mqtt_tls" (boolean (to_bool (getenv env "MQTT_TLS" "false"))) overrides
        ok (
            obj (
              field "host" (get_or "mqtt_host" (str (getenv env "MQTT_HOST" "mosquitto")) overrides)
                (field "port" (int port) (
                  field "tls" (boolean (truthy tls)) (
                    field "username"
                      (get_or "mqtt_username" (getenv_or_none env "MQTT_USERNAME") overrides)
                      (field "password"
                        (get_or "mqtt_password" (getenv_or_none env "MQTT_PASSWORD") overrides)
                        end))))))

  -- `os.getenv(name) or external.get(key)`
  env_or_external : Environment → String → String → Json → Result Exception Json
  unfolding getenv_or_none get_of
  env_or_external env name key external =
      if truthy (getenv_or_none env name) then ok (getenv_or_none env name) else get_of key external

  unfoldable pub embedded_settings : Environment → Fields → Json → Result Exception Json
  unfolding env_or_external
  embedded_settings env overrides external =
      if truthy (get "embedded" overrides) then ok (get "embedded" overrides) else do
        port ← int_of (str (getenv env "EMBEDDED_PORT" "1883"))
        admin_user ← env_or_external env "EMBEDDED_ADMIN_USER" "username" external
        admin_pass ← env_or_external env "EMBEDDED_ADMIN_PASS" "password" external
        ok (
            obj (
              field "allow_anonymous"
                (boolean (to_bool (getenv env "EMBEDDED_ALLOW_ANONYMOUS" "false")))
                (field "persistence" (boolean (to_bool (getenv env "EMBEDDED_PERSISTENCE" "true")))
                  (field "log_type" (str (getenv env "EMBEDDED_LOG_TYPE" "stdout")) (
                    field "port" (int port)
                      (field "admin_user" admin_user (field "admin_pass" admin_pass end)))))))

  -- `settings[key] = self._mask_secret(settings.get(key))`
  unfoldable pub mask_in : String → Json → Result Exception Json
  unfolding put
  mask_in key (obj settings) = ok (obj (put key (mask_secret (get key settings)) settings))
  mask_in key _ = err other_error

  unfoldable pub get_install_state : Host → Disk → Result Exception Fields
  unfolding load in_set external_settings embedded_settings mask_in
  get_install_state host disk =
      let env = host.environment in
      do
        overrides ← load disk.overrides
        let given_mode = get "mode" overrides
        known_mode ← in_set modes given_mode
        external ← external_settings env overrides
        embedded ← embedded_settings env overrides external
        let base_topic =
            get_or "base_topic"
              (get_or "mqtt_base_topic" (str (getenv env "MQTT_BASE_TOPIC" "synthia")) overrides)
              overrides
        let prefix =
            get_or "ha_discovery_prefix" (str (getenv env "HA_DISCOVERY_PREFIX" "homeassistant"))
              overrides
        let access = get_or "external_direct_access_mode" (str "gateway_only") overrides
        known_access ← in_set access_modes access
        default_qos ← int_of (str (getenv env "MQTT_QOS" "1"))
        qos ←
            int_of (get_or "qos_default" (get_or "mqtt_qos" (int default_qos) overrides) overrides)
        masked_external ← mask_in "password" external
        masked_embedded ← mask_in "admin_pass" embedded
        ok (
            field "mode" (if known_mode then given_mode else str "external") (
              field "external" masked_external (
                field "embedded" masked_embedded (
                  field "base_topic" base_topic (
                    field "ha_discovery_prefix" prefix (
                      field "external_direct_access_mode"
                        (if known_access then access else str "gateway_only")
                        (field "qos_default" (int qos) end)))))))
