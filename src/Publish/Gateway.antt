-- ===== src/Publish/Gateway.antt =====
-- `gateway_publish` of app/api/mqtt_publish.py.
use synthia_mqtt.Prelude.{
  ℕ, String, ◌<>◌, Bool, true, not, Option, none, some, ◌==◌, if◌then◌else◌, Result, ok, raise_if,
  ◌>>=◌, ◌>>◌,
}
use synthia_mqtt.Prelude.Text.{strip, lower}
use synthia_mqtt.Json.{ℤ, pos, Json, obj, str, int, Fields, end, field, Builtins, get_or, to_int}
use synthia_mqtt.Http.{HttpError, http_error}
use synthia_mqtt.Envelope.{validate_platform_envelope}
use synthia_mqtt.Topics.{validate_publish_topic, topic_allowed_by_scopes}
use synthia_mqtt.Token.Claims.{ServiceTokenClaims}
use synthia_mqtt.Policy.{authorize}
use synthia_mqtt.Registrations.{MqttRegistrationRecord, get_registration}
use synthia_mqtt.Traces.{Outcome, success, denied, error, TraceRequest}
use synthia_mqtt.Publish.{
  Client, Site, World, Refusal, Delivery, message_of, trace_of, is_setup_complete, or_text, refusal,
  checked, present, unexpected, handle,
}

pub record MqttGatewayPublishRequest : Type 0 where
  pub addon_id : String
  pub message_type : String
  pub payload : Fields
  pub topic : Option String
  pub qos : Option ℕ
  pub retain : Option Bool

pub record MqttGatewayPublishResponse : Type 0 where
  pub topic : String
  pub qos : ℤ
  pub retain : Bool

-- `request.topic.strip() if request.topic else None`
abbrev pub given_topic : Option String → Option String
given_topic none = none
given_topic (some topic) = if topic == "" then none else some (strip topic)

-- The topic of the request, or the addon's topic for the type of the message.
unfoldable pub gateway_topic : MqttGatewayPublishRequest → String → String
gateway_topic request message_type = elim (given_topic request.topic) [
  | none ↦ "synthia/addons/" <> (strip request.addon_id <> ("/" <> message_type))
  | some topic ↦
      if topic == ""
      then "synthia/addons/" <> (strip request.addon_id <> ("/" <> message_type))
      else topic
]

abbrev pub retain_of : Option Bool → Bool
retain_of none = true
retain_of (some retain) = retain

unfoldable pub envelope_of : MqttGatewayPublishRequest → String → String → Fields
envelope_of request message_type timestamp = field "type" (str message_type) (
    field "source_addon_id" (str (strip request.addon_id))
      (field "timestamp" (str timestamp) (field "data" (obj request.payload) end)))

module _ ⦃python : Builtins⦄ where
  unfoldable pub gateway_trace :
      MqttGatewayPublishRequest
      → ServiceTokenClaims
      → Outcome
      → Option String
      → Option String
      → Json
      → TraceRequest
  gateway_trace request claims outcome topic detail payload =
      trace_of "mqtt.gateway.publish" outcome claims (strip request.addon_id) topic detail payload

  unfoldable pub qos_of : Site → Option ℕ → Result Refusal ℤ
  qos_of site (some qos) = ok (pos qos)
  qos_of site none = do
    config ← present site.effective_config unexpected
    present (to_int (get_or "mqtt_qos" (int (pos 1)) config)) unexpected

  -- The call of the client and what follows it.
  abbrev pub gateway_delivery :
      Site
      → MqttGatewayPublishRequest
      → ServiceTokenClaims
      → Client
      → String
      → ℤ
      → Delivery MqttGatewayPublishResponse
  gateway_delivery site request claims client topic qos =
      let envelope =
        obj (envelope_of request (lower (strip request.message_type)) site.timestamp) in
      let retain = retain_of request.retain in
      record {
        client = client;
        sent = record { topic = topic; message = message_of envelope; retain = retain; qos = qos };
        failed =
            gateway_trace request claims error (some topic)
              (some "Failed to publish MQTT gateway envelope") envelope;
        failure = "Failed to publish MQTT gateway envelope";
        succeeded = gateway_trace request claims success (some topic) none envelope;
        consumer = claims.sub;
        operation = "mqtt.gateway.publish";
        response = record { topic = topic; qos = qos; retain = retain };
      }

  -- The tests on the message of a registered addon.
  unfoldable pub check_registered :
      Site
      → MqttGatewayPublishRequest
      → ServiceTokenClaims
      → MqttRegistrationRecord
      → Result Refusal (Delivery MqttGatewayPublishResponse)
  unfolding qos_of
  check_registered site request claims registration =
      let trace = gateway_trace request claims in
      let message_type = lower (strip request.message_type) in
      let asked = gateway_topic request message_type in
      let outside =
        λ (topic : String). "Topic not allowed by registration publish scopes: " <> topic in
      let envelope = obj (envelope_of request message_type site.timestamp) in
      do
        raise_if (message_type == "")
            (record { trace = none; error = http_error 422 "message_type must not be empty" })
        topic ← checked (validate_publish_topic asked (some (strip request.addon_id))) (λ reason.
            refusal (trace denied (some asked) (some reason) (obj request.payload)) 400 reason)
        raise_if (not (topic_allowed_by_scopes topic registration.permissions.publish)) (
            refusal (trace denied (some topic) (some (outside topic)) (obj request.payload)) 403
              (outside topic))
        qos ← qos_of site request.qos
        checked (validate_platform_envelope topic envelope)
            (λ reason. refusal (trace denied (some topic) (some reason) envelope) 400 reason)
        client ← present site.client (
            refusal (trace error (some topic) (some "MQTT service unavailable") envelope) 500
              "MQTT service unavailable")
        ok (gateway_delivery site request claims client topic qos)

  -- The tests of the handler, in their order.
  unfoldable pub check_gateway :
      Site
      → MqttGatewayPublishRequest
      → ServiceTokenClaims
      → Result Refusal (Delivery MqttGatewayPublishResponse)
  unfolding check_registered
  check_gateway site request claims =
      let early = λ (detail : String).
        gateway_trace request claims denied (given_topic request.topic) (some detail)
          (obj request.payload) in
      let unregistered = "No registration found for addon_id=" <> request.addon_id in
      do
        install_state ← present site.install_state unexpected
        raise_if (not (is_setup_complete install_state)) (
            refusal (early "Setup is not complete") 409
              "Setup is not complete. Finish setup before using MQTT publish APIs.")
        checked (authorize site.environment site.cache claims "mqtt.publish") (λ reason.
            refusal (early (or_text reason "Policy denied MQTT publish")) 403
              (or_text reason "Policy denied MQTT publish"))
        registration ←
            present (get_registration request.addon_id site.registrations)
              (refusal (early unregistered) 404 unregistered)
        check_registered site request claims registration

  unfoldable pub gateway_publish :
      Site
      → MqttGatewayPublishRequest
      → ServiceTokenClaims
      → World
      → Result HttpError MqttGatewayPublishResponse × World
  unfolding check_gateway handle
  gateway_publish site request claims world = handle site (check_gateway site request claims) world
