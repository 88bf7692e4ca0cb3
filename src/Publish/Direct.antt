-- ===== src/Publish/Direct.antt =====
-- `publish_message` of app/api/mqtt_publish.py.
use synthia_mqtt.Prelude.{
  ℕ, String, Bool, not, Option, none, some, ◌==◌, if◌then◌else◌, Result, ok, raise_if, ◌>>=◌, ◌>>◌,
}
use synthia_mqtt.Prelude.Text.{strip}
use synthia_mqtt.Json.{pos, Json, Builtins}
use synthia_mqtt.Http.{HttpError}
use synthia_mqtt.Envelope.{validate_platform_envelope}
use synthia_mqtt.Topics.{validate_publish_topic}
use synthia_mqtt.Token.Claims.{ServiceTokenClaims}
use synthia_mqtt.Policy.{authorize}
use synthia_mqtt.Traces.{Outcome, success, denied, error, TraceRequest}
use synthia_mqtt.Publish.{
  Client, Site, World, Refusal, Delivery, message_of, trace_of, is_setup_complete, or_text, refusal,
  checked, present, unexpected, handle,
}

pub record MqttPublishRequest : Type 0 where
  pub topic : String
  pub payload : Json
  pub retain : Bool
  pub qos : ℕ

-- `claims.sub if claims.sub != "anonymous" else None`
abbrev pub identity : ServiceTokenClaims → Option String
identity claims = if claims.sub == "anonymous" then none else some claims.sub

module _ ⦃python : Builtins⦄ where
  unfoldable pub direct_trace :
      MqttPublishRequest → ServiceTokenClaims → Outcome → String → Option String → TraceRequest
  direct_trace request claims outcome topic detail =
      trace_of "mqtt.publish" outcome claims claims.sub (some topic) detail request.payload

  -- The call of the client and what follows it.
  abbrev pub direct_delivery :
      MqttPublishRequest → ServiceTokenClaims → Client → String → Delivery (Unit {0})
  direct_delivery request claims client topic = record {
    client = client;
    sent = record {
      topic = topic;
      message = message_of request.payload;
      retain = request.retain;
      qos = pos request.qos;
    };
    failed = direct_trace request claims error topic (some "Failed to publish MQTT message");
    failure = "Failed to publish MQTT message";
    succeeded = direct_trace request claims success topic none;
    consumer = claims.sub;
    operation = "mqtt.publish";
    response = tt;
  }

  -- The tests of the handler, in their order.
  unfoldable pub check_message :
      Site → MqttPublishRequest → ServiceTokenClaims → Result Refusal (Delivery (Unit {0}))
  check_message site request claims =
      let trimmed_topic = strip request.topic in
      let trace = direct_trace request claims in
      do
        install_state ← present site.install_state unexpected
        raise_if (not (is_setup_complete install_state)) (
            refusal (trace denied trimmed_topic (some "Setup is not complete")) 409
              "Setup is not complete. Finish setup before using MQTT publish APIs.")
        checked (authorize site.environment site.cache claims "mqtt.publish") (λ reason.
            refusal
              (trace denied trimmed_topic (some (or_text reason "Policy denied MQTT publish"))) 403
              (or_text reason "Policy denied MQTT publish"))
        topic ←
            checked (validate_publish_topic trimmed_topic (identity claims))
              (λ reason. refusal (trace denied trimmed_topic (some reason)) 400 reason)
        client ← present site.client (
            refusal (trace error topic (some "MQTT service unavailable")) 500
              "MQTT service unavailable")
        checked (validate_platform_envelope topic request.payload)
            (λ reason. refusal (trace denied topic (some reason)) 400 reason)
        ok (direct_delivery request claims client topic)

  unfoldable pub publish_message :
      Site → MqttPublishRequest → ServiceTokenClaims → World → Result HttpError (Unit {0}) × World
  unfolding check_message handle
  publish_message site request claims world = handle site (check_message site request claims) world
