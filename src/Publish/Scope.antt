-- ===== src/Publish/Scope.antt =====
-- What `gateway_publish` hands to the broker client.
use synthia_mqtt.Prelude.{
  ℕ, String, ◌≡◌, refl, ◌⊎◌, inl, inr, true, false, not, Option, none, some, [], ◌∷◌, ◌++◌, Result,
  ok, ◌>>=◌, negation_false,
}
use synthia_mqtt.Prelude.Text.{strip, lower}
use synthia_mqtt.Json.{Fields, ℤ, pos, int, Json, obj, Builtins, get_or, to_int}
use synthia_mqtt.Envelope.{validate_platform_envelope}
use synthia_mqtt.Topics.{validate_publish_topic, topic_allowed_by_scopes}
use synthia_mqtt.Topics.Publish.{IsPublishable, validate_publish_topic_iff}
use synthia_mqtt.Token.Claims.{ServiceTokenClaims}
use synthia_mqtt.Policy.{authorize}
use synthia_mqtt.Registrations.{MqttRegistrationRecord, get_registration}
use synthia_mqtt.Publish.{
  unexpected, Sent, Client, Site, World, Refusal, Delivery, message_of, is_setup_complete,
}
use synthia_mqtt.Publish.Handle.{
  handle_calls, present-cases, Each, refused, Each-raise_if, Each-checked, Each-present, accepted,
}
use synthia_mqtt.Publish.Gateway.{
  MqttGatewayPublishRequest, MqttGatewayPublishResponse, gateway_topic, envelope_of, qos_of,
  gateway_delivery, check_registered, check_gateway, gateway_publish,
}

module _ ⦃python : Builtins⦄ (site : Site) (request : MqttGatewayPublishRequest)
    (claims : ServiceTokenClaims) where
  -- The type of the message, as it is sent.
  abbrev pub message_type : String
  message_type = lower (strip request.message_type)

  abbrev envelope : Json
  envelope = obj (envelope_of request message_type site.timestamp)

  -- A call of the client that the gateway may make for the request.
  pub record IsGranted (sent : Sent) : Type 0 where
    pub state : Fields
    pub readable : site.install_state ≡ some state
    pub complete : is_setup_complete state ≡ true
    pub authorized : authorize site.environment site.cache claims "mqtt.publish" ≡ ok tt
    pub registration : MqttRegistrationRecord
    pub registered : get_registration request.addon_id site.registrations ≡ some registration
    pub on_topic : sent.topic ≡ strip (gateway_topic request message_type)
    pub publishable : IsPublishable sent.topic (some (strip request.addon_id))
    pub in_scope : topic_allowed_by_scopes sent.topic registration.permissions.publish ≡ true
    pub valid_envelope : validate_platform_envelope sent.topic envelope ≡ ok tt
    pub is_envelope : sent.message ≡ message_of envelope

  record IsGrantedDelivery (d : Delivery MqttGatewayPublishResponse) : Type 0 where
    granted : IsGranted d.sent

  granted_of :
      (state : Fields) (registration : MqttRegistrationRecord) (topic : String) (qos : ℤ)
      (client : Client)
      → site.install_state ≡ some state
      → not (is_setup_complete state) ≡ false
      → authorize site.environment site.cache claims "mqtt.publish" ≡ ok tt
      → get_registration request.addon_id site.registrations ≡ some registration
      → validate_publish_topic (gateway_topic request message_type) (some (strip request.addon_id))
        ≡ ok topic
      → not (topic_allowed_by_scopes topic registration.permissions.publish) ≡ false
      → validate_platform_envelope topic envelope ≡ ok tt
      → IsGrantedDelivery (gateway_delivery site request claims client topic qos)
  granted_of state registration topic qos client readable complete authorized registered valid
        allowed enveloped =
      let (same, publishable) =
        (validate_publish_topic_iff (gateway_topic request message_type)
            (some (strip request.addon_id)) topic).0
          valid in
      record {
        granted = record {
          state = state;
          readable = readable;
          complete = negation_false _ complete;
          authorized = authorized;
          registration = registration;
          registered = registered;
          on_topic = same;
          publishable = rw same publishable;
          in_scope = negation_false _ allowed;
          valid_envelope = enveloped;
          is_envelope = refl;
        };
      }

  Each-qos_of :
      {A : Type 0} (P : Refusal → Type 0) (Q : A → Type 0) (q : Option ℕ) (k : ℤ → Result Refusal A)
      → P unexpected
      → ((qos : ℤ) → Each P Q (k qos))
      → Each P Q (qos_of site q >>= k)
  unfolding qos_of
  Each-qos_of P Q (some qos) k p h = h (pos qos)
  Each-qos_of P Q none k p h = elim (present-cases site.effective_config) [
    | inl missing ↦ rw missing (refused p)
    | inr (config, found) ↦ rw found (
        Each-present P Q (to_int (get_or "mqtt_qos" (int (pos 1)) config)) unexpected k (λ _. p)
          (λ qos _. h qos))
  ]

  check_registered_sound :
      (state : Fields) (registration : MqttRegistrationRecord)
      → site.install_state ≡ some state
      → not (is_setup_complete state) ≡ false
      → authorize site.environment site.cache claims "mqtt.publish" ≡ ok tt
      → get_registration request.addon_id site.registrations ≡ some registration
      → Each (λ r. Unit {0}) IsGrantedDelivery (check_registered site request claims registration)
  unfolding check_registered
  check_registered_sound state registration readable complete authorized registered =
      let P : Refusal → Type 0 = λ r. Unit {0} in
      search
        (
          Each-raise_if P IsGrantedDelivery,
          Each-checked P IsGrantedDelivery,
          Each-present P IsGrantedDelivery,
          Each-qos_of P IsGrantedDelivery,
          accepted,
          granted_of state registration,
          readable,
          tt,
        )
        depth 24

  check_gateway_sound : Each (λ r. Unit {0}) IsGrantedDelivery (check_gateway site request claims)
  unfolding check_gateway
  check_gateway_sound =
      let P : Refusal → Type 0 = λ r. Unit {0} in
      Each-present P IsGrantedDelivery site.install_state unexpected _ (λ _. tt)
        (λ state readable.
          search
            (
              Each-raise_if P IsGrantedDelivery,
              Each-checked P IsGrantedDelivery,
              Each-present P IsGrantedDelivery,
              check_registered_sound state,
              tt,
            )
            depth 24)

  -- A request to the gateway leads to no call of the broker client, or to exactly one, that sends
  -- the envelope of the request on a topic which the caller's policy, the namespace of the addon
  -- and the addon's registered scopes allow.
  pub gateway_publish_calls :
      (world : World)
      → ((gateway_publish site request claims world).1.calls ≡ world.calls)
        ⊎ ((sent : Sent) × IsGranted sent
            × ((gateway_publish site request claims world).1.calls ≡ world.calls ++ (sent ∷ [])))
  unfolding gateway_publish
  gateway_publish_calls world =
      elim (handle_calls site world (check_gateway site request claims) check_gateway_sound) [
        | inl same ↦ inl same
        | inr (d, q, calls) ↦ inr (d.sent, q.granted, calls)
      ]
