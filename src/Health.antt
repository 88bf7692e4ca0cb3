-- ===== src/Health.antt =====
-- app/services/health.py and the endpoint `get_health` of app/api/addon_contract.py.
use synthia_mqtt.Prelude.{
  ℕ, String, Bool, true, false, not, ◌&&◌, ◌||◌, Option, none, some, ◌==◌, if◌then◌else◌, contains,
  [], ◌∷◌,
}
use synthia_mqtt.Json.{Json, str, Fields, Builtins, get, or_else, to_text}
use synthia_mqtt.Json.Objects.{is_text, text_or_null}

-- The state of the service, without the moment of its start.
pub record HealthService : Type 0 where
  pub mqtt_connected : Bool
  pub last_error : Option String
  pub offline : Bool

pub record HealthSnapshot : Type 0 where
  pub status : String
  pub mqtt_connected : Bool
  pub last_error : Option String
  pub uptime_seconds : ℕ

unfoldable pub set_mqtt_connected : Bool → HealthService → HealthService
set_mqtt_connected true h = record { mqtt_connected = true; last_error = none; offline = false }
set_mqtt_connected false h = record h { mqtt_connected = false }

unfoldable pub set_last_error : Option String → HealthService → HealthService
set_last_error error h = record h { last_error = error }

unfoldable pub mark_offline : HealthService → HealthService
mark_offline h = record h { offline = true }

-- `bool(text)` of a text that may be missing.
abbrev pub is_given : Option String → Bool
is_given none = false
is_given (some s) = not (s == "")

unfoldable pub snapshot : ℕ → HealthService → HealthSnapshot
snapshot uptime h = record {
  status =
      if h.offline
      then "offline"
      else if not h.mqtt_connected || is_given h.last_error
      then "degraded"
      else "healthy";
  mqtt_connected = h.mqtt_connected;
  last_error = h.last_error;
  uptime_seconds = uptime;
}

pub record AddonHealth : Type 0 where
  pub status : String
  pub mqtt_connected : Bool
  pub setup_state : String
  pub broker_mode : String
  pub broker_reachable : Bool
  pub broker_health : String
  pub direct_mqtt_supported : Bool
  pub last_error : Json
  pub uptime_seconds : ℕ

module _ ⦃python : Builtins⦄ where
  -- `str(state.get(key) or default)`
  unfoldable pub state_text : String → String → Fields → String
  state_text key default state = to_text (or_else (get key state) (str default))

  unfoldable pub known_setup_state : Fields → String
  unfolding state_text
  known_setup_state install_state =
      let given = state_text "setup_state" "unconfigured" install_state in
      let known = "unconfigured" ∷ "configuring" ∷ "ready" ∷ "error" ∷ "degraded" ∷ [] in
      if contains given known then given else "error"

  -- `broker_running` is what `BrokerManager` sees of the container.
  unfoldable pub get_health : Bool → HealthSnapshot → Fields → AddonHealth
  unfolding known_setup_state state_text
  get_health broker_running base_health install_state =
      let setup_state = known_setup_state install_state in
      let is_embedded = is_text "embedded" (get "mode" install_state) in
      let access = state_text "external_direct_access_mode" "gateway_only" install_state in
      let reachable =
        if is_embedded
        then broker_running && base_health.mqtt_connected
        else base_health.mqtt_connected in
      let broker_health =
        if reachable then "healthy" else if is_embedded then "degraded" else "unreachable" in
      record {
        status =
            if setup_state == "unconfigured"
            then "unconfigured"
            else if setup_state == "error"
            then "error"
            else if setup_state == "configuring" || setup_state == "degraded"
            then "degraded"
            else if not reachable && not (base_health.status == "offline")
            then "degraded"
            else base_health.status;
        mqtt_connected = base_health.mqtt_connected;
        setup_state = setup_state;
        broker_mode = if is_embedded then "embedded" else "external";
        broker_reachable = reachable;
        broker_health = if setup_state == "unconfigured" then "unknown" else broker_health;
        direct_mqtt_supported = is_embedded || access == "manual_direct_access";
        last_error = or_else (text_or_null base_health.last_error) (get "last_error" install_state);
        uptime_seconds = base_health.uptime_seconds;
      }
