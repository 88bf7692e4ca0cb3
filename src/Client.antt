-- ===== src/Client.antt =====
-- app/services/lifecycle_topics.py, app/services/mqtt_metrics_store.py and the callbacks of
-- app/services/mqtt_client.py: what the service does when the broker connects, disconnects or
-- delivers a message.
pub mod Runs
use synthia_mqtt.Prelude.{
  ℕ, zero, suc, ◌*◌, String, ◌<>◌, Bool, true, false, not, Option, none, some, List, [], ◌∷◌, ◌++◌,
  ◌==◌, if◌then◌else◌, ltb, Result, ok, err, ◌>>=◌,
}
use synthia_mqtt.Prelude.Text.{strip, rstrip_char}
use synthia_mqtt.Prelude.Effects.{Act, continue}
use synthia_mqtt.Json.{
  ℤ, pos, negsuc, Json, str, int, arr, obj, Fields, end, field, get_or, to_text, Builtins,
  Environment,
}
use synthia_mqtt.Json.Objects.{texts}
use synthia_mqtt.Config.{Exception, JsonFile, missing, garbled, holds, int_of}
use synthia_mqtt.Policy.{PolicyCache, enforcement_enabled, ingest}
use synthia_mqtt.Publish.{Sent, message_of}
use synthia_mqtt.Health.{HealthService, set_mqtt_connected, set_last_error, mark_offline}

-- `LifecycleTopicHelper`
unfoldable pub lifecycle_base : String → String
unfolding strip rstrip_char
lifecycle_base mqtt_base_topic =
    let base = strip mqtt_base_topic in if base == "" then "synthia" else rstrip_char b'/' base

unfoldable pub lifecycle_topic : String → String → String → String
unfolding lifecycle_base
lifecycle_topic mqtt_base_topic addon_id name =
    lifecycle_base mqtt_base_topic <> ("/addons/" <> (addon_id <> ("/" <> name)))

-- `datetime.now` as a text, and the moment that many seconds later.
pub record Clock : Type 0 where
  pub now : String
  pub later : ℕ → String

-- `max(interval * 2, 1)`
abbrev stale_after : ℕ → ℕ
stale_after zero = 1
stale_after (suc n) = suc n * 2

unfoldable pub health_payload : Clock → Bool → ℕ → Fields
health_payload clock mqtt_connected heartbeat_interval_s =
    field "status" (str (if mqtt_connected then "healthy" else "degraded")) (
      field "last_seen" (str clock.now) (
        field "fresh_until" (str (clock.later (stale_after heartbeat_interval_s)))
          (field "stale_after_s" (int (pos (stale_after heartbeat_interval_s))) end)))

-- The return code of a call of the client for a message of the service itself, given the earlier
-- calls. Its topics hold no wildcard and its messages are short, so paho raises no exception.
abbrev pub Codes : Type 0
Codes = List Sent → Sent → ℕ

-- The last will, which the broker publishes when the client is lost.
unfoldable pub offline_payload : Clock → String → Fields
offline_payload clock reason = field "status" (str "offline") (
    field "last_seen" (str clock.now) (
      field "fresh_until" (str clock.now)
        (field "stale_after_s" (int (pos 0)) (field "offline_reason" (str reason) end))))

-- `MqttClientService`: what it is made with, besides the objects that it shares.
pub record MqttClientService : Type 0 where
  pub base_topic : String
  pub qos : ℤ
  pub addon_id : String
  pub version : String
  pub api_version : String
  pub mode : String
  pub announce_base_url : String
  pub capabilities : List String

unfoldable pub announce_payload : Clock → MqttClientService → Fields
unfolding texts
announce_payload clock service = field "id" (str service.addon_id) (
    field "addon_id" (str service.addon_id) (
      field "base_url" (str service.announce_base_url) (
        field "version" (str service.version) (
          field "api_version" (str service.api_version) (
            field "mode" (str service.mode) (
              field "capabilities" (arr (texts service.capabilities))
                (field "timestamp" (str clock.now) end)))))))

-- The health service, the calls of the client, its subscriptions, the metrics file and the policy
-- cache, which the callbacks change.
pub record Link : Type 0 where
  pub health : HealthService
  pub calls : List Sent
  pub subscriptions : List (String × ℤ)
  pub metrics : JsonFile
  pub cache : PolicyCache

-- What happens to the service, with the environment at that moment: the broker answers a
-- connection, ends one, or delivers a message, or the heartbeat is due.
pub data Event : Type 0 where
  connected : Environment → ℕ → Event
  disconnected : ℕ → Event
  delivered : Environment → String → String → Event
  heartbeat : Event

module _ ⦃python : Builtins⦄ where
  -- `MqttClientService.__init__`, from the configuration; `mode` is the one that the service runs in.
  unfoldable pub service_of :
      Fields
      → String
      → String
      → String
      → String
      → String
      → List String
      → Result Exception MqttClientService
  unfolding to_text int_of
  service_of config addon_id version api_version mode announce_base_url capabilities = do
    qos ← int_of (get_or "mqtt_qos" (int (pos 1)) config)
    ok (record {
      base_topic = to_text (get_or "mqtt_base_topic" (str "synthia") config);
      qos = qos;
      addon_id = addon_id;
      version = version;
      api_version = api_version;
      mode = mode;
      announce_base_url = announce_base_url;
      capabilities = capabilities;
    })

  -- `_load` of `MqttMetricsStore`: `int` of a stored value may raise.
  unfoldable pub load_count : JsonFile → Result Exception ℤ
  unfolding int_of
  load_count (holds (obj raw)) = int_of (get_or "reconnect_count" (int (pos 0)) raw)
  load_count _ = ok (pos 0)

  abbrev succ_ℤ : ℤ → ℤ
  succ_ℤ (pos n) = pos (suc n)
  succ_ℤ (negsuc zero) = pos zero
  succ_ℤ (negsuc (suc n)) = negsuc n

  unfoldable pub increment_reconnects : Act JsonFile Exception ℤ
  unfolding load_count
  increment_reconnects file =
      continue (load_count file, file)
        (λ count f.
          (ok (succ_ℤ count), holds (obj (field "reconnect_count" (int (succ_ℤ count)) end))))

  failed_publish : ℕ → Link → Link
  unfolding set_last_error
  failed_publish zero link = link
  failed_publish (suc rc) link = record link {
    health =
        set_last_error (some ("Publish failed with rc=" <> python.print_number (pos (suc rc))))
          link.health;
  }

  -- `publish` of a retained message of the service itself.
  unfoldable pub publish_own : Codes → MqttClientService → String → Fields → Link → Link
  unfolding lifecycle_topic message_of failed_publish
  publish_own client service name payload link =
      let sent : Sent = record {
        topic = lifecycle_topic service.base_topic service.addon_id name;
        message = message_of (obj payload);
        retain = true;
        qos = service.qos;
      } in
      let called = record link { calls = link.calls ++ (sent ∷ []) } in
      failed_publish (client link.calls sent) called

  unfoldable pub subscribe_policy_topics : Environment → MqttClientService → Link → Link
  unfolding enforcement_enabled
  subscribe_policy_topics env service link =
      if not (enforcement_enabled env) then link else record link {
        subscriptions =
            link.subscriptions
            ++ ((service.base_topic <> "/policy/grants/+", service.qos)
                ∷ (service.base_topic <> "/policy/revocations/+", service.qos)
                ∷ []);
      }

  unfoldable pub publish_announce : Clock → Codes → MqttClientService → Link → Link
  unfolding publish_own announce_payload
  publish_announce clock client service =
      publish_own client service "announce" (announce_payload clock service)

  unfoldable pub publish_health : Clock → Codes → MqttClientService → Link → Link
  unfolding publish_own health_payload
  publish_health clock client service link =
      publish_own client service "health" (health_payload clock link.health.mqtt_connected 15) link

  unfoldable pub on_connect : Environment → Clock → Codes → MqttClientService → ℕ → Link → Link
  unfolding set_mqtt_connected set_last_error subscribe_policy_topics publish_announce
      publish_health
  on_connect env clock client service zero link = publish_health clock client service (
      publish_announce clock client service (
        subscribe_policy_topics env service
          (record link { health = set_mqtt_connected true link.health })))
  on_connect env clock client service (suc rc) link = record link {
    health =
        set_last_error (some ("MQTT connect failed with rc=" <> python.print_number (pos (suc rc))))
          (set_mqtt_connected false link.health);
  }

  unfoldable pub on_disconnect : ℕ → Act Link Exception (Unit {0})
  unfolding set_mqtt_connected set_last_error increment_reconnects
  on_disconnect zero link = (ok tt, record link { health = set_mqtt_connected false link.health })
  on_disconnect (suc rc) link =
      let down = record link { health = set_mqtt_connected false link.health } in
      let (count, metrics) = increment_reconnects link.metrics in
      continue (count, record down { metrics = metrics })
        (λ n counted. (
          ok tt,
          record counted {
            health =
                set_last_error
                  (some
                    ("MQTT disconnected unexpectedly rc=" <> python.print_number (pos (suc rc))))
                  counted.health;
          },
        ))

  -- A payload is the text that its bytes decode to.
  unfoldable pub on_message : Environment → String → String → Link → Link
  unfolding enforcement_enabled ingest
  on_message env topic payload_text link =
      if not (enforcement_enabled env)
      then link
      else record link { cache = ingest env link.cache topic payload_text }

  -- `stop`, as far as it does not end threads and connections.
  unfoldable pub stop : Link → Link
  unfolding mark_offline
  stop link = record link { health = mark_offline link.health }

  module _ (clock : Clock) (client : Codes) (service : MqttClientService) where
    unfoldable pub react : Event → Act Link Exception (Unit {0})
    unfolding on_connect on_disconnect on_message publish_health
    react (connected env rc) link = (ok tt, on_connect env clock client service rc link)
    react (disconnected rc) link = on_disconnect rc link
    react (delivered env topic text) link = (ok tt, on_message env topic text link)
    react heartbeat link = (ok tt, publish_health clock client service link)

    unfoldable pub react_all : List Event → Act Link Exception (Unit {0})
    unfolding react
    react_all [] link = (ok tt, link)
    react_all (e ∷ rest) link = continue (react e link) (λ done. react_all rest)
