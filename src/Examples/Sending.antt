-- ===== src/Examples/Sending.antt =====
-- The theorems on the publish endpoints and the queue of usage events at concrete inputs.
use synthia_mqtt.Prelude.{
  zero, ◌≡◌, refl, ◌↔◌, ◌⊎◌, true, false, none, some, List, if◌then◌else◌, ◌==◌, [], ◌∷◌, ◌++◌, ok,
  arith,
}
use synthia_mqtt.Prelude.Text.{strip, is_space, lower}
use synthia_mqtt.Json.{Environment, end, field, str, obj, to_bool}
use synthia_mqtt.Telemetry.{Core, Line, enabled, flush_once, core_base_url, enqueue}
use synthia_mqtt.Telemetry.Delivery.{
  Operation, usage, flush, perform_all, events_of, perform_all_keeps, locked-flush_once,
}
use synthia_mqtt.Publish.{Sent, Client}
use synthia_mqtt.Publish.Direct.{MqttPublishRequest, publish_message}
use synthia_mqtt.Publish.Gateway.{MqttGatewayPublishRequest, gateway_publish}
use synthia_mqtt.Publish.Accept.{IsCleared, call_of, publish_message_iff, publish_message_calls}
use synthia_mqtt.Publish.Scope.{IsGranted, gateway_publish_calls}
use synthia_mqtt.Publish.Audit.{IsAudited, IsUnrecorded, IsUnreadable, publish_message-IsAudited}
use synthia_mqtt.Discovery.{
  HaDiscoverySensorRequest, HaStatePublishRequest, publish_sensor_discovery, publish_gateway_state,
}
use synthia_mqtt.Discovery.Audit.{discovery-IsAudited}
use synthia_mqtt.Examples.{
  sample_python, sample_claims, sample_env, sample_site, sample_world, sample_reporter,
}

abbrev message : MqttPublishRequest
message = record {
  topic = " synthia/addons/weather/note ";
  payload = obj (
      field "type" (str "state") (
        field "source_addon_id" (str "weather")
          (field "timestamp" (str "now") (field "data" (str "21") end))));
  retain = true;
  qos = 1;
}

abbrev gateway_message : MqttGatewayPublishRequest
gateway_message = record {
  addon_id = "weather";
  message_type = "State";
  payload = end;
  topic = none;
  qos = none;
  retain = none;
}

abbrev sensor : HaDiscoverySensorRequest
sensor = record {
  addon_id = "weather";
  unique_id = "w1";
  name = "Weather";
  state_topic = "synthia/addons/weather/state";
  unit_of_measurement = some "C";
  device_class = none;
  icon = none;
}

abbrev state : HaStatePublishRequest
state = record {
  addon_id = "weather";
  topic = "synthia/addons/weather/state";
  payload = str "21";
  retain = true;
  qos = 1;
}

publish_message_iff_example :
    ((publish_message sample_site message sample_claims sample_world).0 ≡ ok tt) ↔ (
      (client : Client) × IsCleared sample_site message sample_claims client
      × (client [] (call_of message) ≡ some zero))
publish_message_iff_example = publish_message_iff sample_site message sample_claims sample_world

publish_message_calls_example :
    ((publish_message sample_site message sample_claims sample_world).1.calls ≡ [])
    ⊎ ((client : Client) × IsCleared sample_site message sample_claims client
        × ((publish_message sample_site message sample_claims sample_world).1.calls
            ≡ call_of message ∷ []))
publish_message_calls_example = publish_message_calls sample_site message sample_claims sample_world

gateway_publish_calls_example :
    ((gateway_publish sample_site gateway_message sample_claims sample_world).1.calls ≡ [])
    ⊎ ((sent : Sent) × IsGranted sample_site gateway_message sample_claims sent
        × ((gateway_publish sample_site gateway_message sample_claims sample_world).1.calls
            ≡ sent ∷ []))
gateway_publish_calls_example =
    gateway_publish_calls sample_site gateway_message sample_claims sample_world

publish_message-IsAudited_example :
    IsAudited sample_site "mqtt.publish" "weather" sample_world
      (publish_message sample_site message sample_claims sample_world).0
      (publish_message sample_site message sample_claims sample_world).1
    ⊎ IsUnrecorded
        (IsUnreadable sample_site sample_claims)
        sample_site
        sample_world
        (publish_message sample_site message sample_claims sample_world)
publish_message-IsAudited_example =
    publish_message-IsAudited sample_site sample_claims message sample_world

discovery-IsAudited_example :
    (IsAudited sample_site "mqtt.ha.discovery.publish" "weather" sample_world
        (publish_sensor_discovery sample_site sensor sample_claims sample_world).0
        (publish_sensor_discovery sample_site sensor sample_claims sample_world).1
      ⊎ IsUnrecorded
          (IsUnreadable sample_site sample_claims)
          sample_site
          sample_world
          (publish_sensor_discovery sample_site sensor sample_claims sample_world))
    × (IsAudited sample_site "mqtt.ha.state.publish" "weather" sample_world
          (publish_gateway_state sample_site state sample_claims sample_world).0
          (publish_gateway_state sample_site state sample_claims sample_world).1
        ⊎ IsUnrecorded
            (IsUnreadable sample_site sample_claims)
            sample_site
            sample_world
            (publish_gateway_state sample_site state sample_claims sample_world))
discovery-IsAudited_example =
    discovery-IsAudited sample_claims sample_site sensor state sample_world

-- A core that takes the first event and then none.
abbrev busy_core : Core
busy_core [] event = true
busy_core (e ∷ es) event = false

abbrev run : List Operation
run =
    usage "t1" "weather" "mqtt.publish" 1
    ∷ usage "t2" "weather" "mqtt.publish" 1
    ∷ flush busy_core
    ∷ []

abbrev empty_line : Line
empty_line = record { posted = []; queue = []; locked = false }

-- The sample's environment with the address of the core.
abbrev core_env : Environment
core_env name = if name == "CORE_URL" then some "http://core" else sample_env name

perform_all_keeps_example :
    (perform_all core_env sample_reporter run empty_line).posted
      ++ (perform_all core_env sample_reporter run empty_line).queue
    ≡ events_of sample_reporter run
unfolding enabled to_bool events_of lower strip is_space perform_all flush_once core_base_url
    enqueue
perform_all_keeps_example =
    perform_all_keeps core_env sample_reporter 499 refl refl run empty_line (omega arith) refl

locked-flush_once_example : (flush_once core_env busy_core empty_line).locked ≡ true
unfolding enabled to_bool lower strip is_space core_base_url
locked-flush_once_example = locked-flush_once core_env busy_core empty_line refl refl refl
