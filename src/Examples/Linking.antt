-- ===== src/Examples/Linking.antt =====
-- The registration with the core and the link to the broker at concrete inputs.
use synthia_mqtt.Prelude.{◌≡◌, refl, false, none, List, [], ◌∷◌, ok}
use synthia_mqtt.Json.{pos}
use synthia_mqtt.Policy.{init, ingest_all}
use synthia_mqtt.Client.{
  Codes, Clock, MqttClientService, Link, Event, connected, disconnected, load_count, react_all,
}
use synthia_mqtt.Client.Runs.{Shows, react_all-Shows}
use synthia_mqtt.Config.{missing}
use synthia_mqtt.Install.Registry.{
  Registrar, http_failure, response, Addon, register_addon_endpoint,
}
use synthia_mqtt.Install.Registry.Fallback.{register_plan, Tries, register-Tries}
use synthia_mqtt.Examples.{sample_python}
use synthia_mqtt.Examples.Setup.{sample_host}

abbrev sample_addon : Addon
sample_addon = record {
  core_base_url = "http://core/";
  addon_id = "mqtt";
  base_url = "http://mqtt";
  name = "Synthia MQTT";
  version = "1";
  auth_token = none;
}

-- A core that knows only the older route.
abbrev sample_registrar : Registrar
sample_registrar [] post = http_failure 404 ""
sample_registrar (p ∷ posts) post = response 200 ""

register-Tries_example :
    Tries sample_registrar
      (register_plan sample_registrar sample_addon)
      []
      (register_addon_endpoint sample_registrar sample_addon [])
register-Tries_example = register-Tries sample_registrar sample_addon []

abbrev sample_clock : Clock
sample_clock = record { now = "now"; later = λ seconds. "later" }

abbrev sample_service : MqttClientService
sample_service = record {
  base_topic = "synthia";
  qos = pos 1;
  addon_id = "mqtt";
  version = "1";
  api_version = "1.0";
  mode = "standalone_service";
  announce_base_url = "http://mqtt";
  capabilities = [];
}

abbrev sample_link : Link
sample_link = record {
  health = record { mqtt_connected = false; last_error = none; offline = false };
  calls = [];
  subscriptions = [];
  metrics = missing;
  cache = init "mqtt";
}

abbrev sample_client : Codes
sample_client calls sent = 0

abbrev sample_events : List Event
sample_events =
    connected sample_host.environment 0 ∷ disconnected 7 ∷ connected sample_host.environment 5 ∷ []

react_all-Shows_example :
    (after : Link) × (react_all sample_clock sample_client sample_service sample_events sample_link
      ≡ (ok tt, after))
    × Shows sample_clock sample_client sample_service after false (init "mqtt") 1
unfolding ingest_all load_count
react_all-Shows_example =
    react_all-Shows sample_clock sample_client sample_service sample_events sample_link
      (record { shown = refl; learnt = refl; counted = refl })
