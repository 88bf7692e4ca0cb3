-- ===== src/Publish/Accept.antt =====
-- Which requests `publish_message` hands to the broker client, and which it answers with success.
use synthia_mqtt.Prelude.{
  zero, String, ◌≡◌, refl, ap, sym, ◌∙◌, ◌↔◌, ◌⊎◌, inl, inr, true, false, not, some, [], ◌∷◌, ◌++◌,
  Result, ok, negation_false,
}
use synthia_mqtt.Prelude.Text.{strip}
use synthia_mqtt.Prelude.Text.Laws.{strip_idem}
use synthia_mqtt.Json.{pos, obj, Fields, Builtins}
use synthia_mqtt.Http.{HttpError}
use synthia_mqtt.Envelope.{
  is_platform_topic, IsEnvelope, validate_platform_envelope, validate_platform_envelope_iff,
}
use synthia_mqtt.Topics.{validate_publish_topic}
use synthia_mqtt.Topics.Publish.{IsPublishable, validate_publish_topic_iff}
use synthia_mqtt.Token.Claims.{ServiceTokenClaims}
use synthia_mqtt.Policy.{authorize}
use synthia_mqtt.Publish.{
  unexpected, Sent, Client, Site, World, Refusal, Delivery, message_of, is_setup_complete,
}
use synthia_mqtt.Publish.Handle.{
  handle_taken, handle_calls, handle_ok, Each, Each-raise_if, Each-checked, Each-present, accepted,
}
use synthia_mqtt.Publish.Direct.{
  MqttPublishRequest, direct_delivery, check_message, publish_message, identity,
}

module _ ⦃python : Builtins⦄ where
  -- The call of the client that a request stands for.
  abbrev pub call_of : MqttPublishRequest → Sent
  call_of request = record {
    topic = strip request.topic;
    message = message_of request.payload;
    retain = request.retain;
    qos = pos request.qos;
  }

  -- A request that may be sent.
  pub record IsCleared (site : Site) (request : MqttPublishRequest) (claims : ServiceTokenClaims)
      (client : Client) : Type 0 where
    pub state : Fields
    pub readable : site.install_state ≡ some state
    pub complete : is_setup_complete state ≡ true
    pub authorized : authorize site.environment site.cache claims "mqtt.publish" ≡ ok tt
    pub publishable : IsPublishable (strip request.topic) (identity claims)
    pub connected : site.client ≡ some client
    pub enveloped :
        (is_platform_topic (strip request.topic) ≡ false)
        ⊎ ((fs : Fields) × (request.payload ≡ obj fs) × IsEnvelope fs)

  module _ (site : Site) (request : MqttPublishRequest) (claims : ServiceTokenClaims) where
    -- A delivery that stands for the request.
    record IsCall (d : Delivery (Unit {0})) : Type 0 where
      client : Client
      cleared : IsCleared site request claims client
      same_client : d.client ≡ client
      same_call : d.sent ≡ call_of request

    clear :
        (state : Fields) (topic : String) (client : Client)
        → site.install_state ≡ some state
        → not (is_setup_complete state) ≡ false
        → authorize site.environment site.cache claims "mqtt.publish" ≡ ok tt
        → validate_publish_topic (strip request.topic) (identity claims) ≡ ok topic
        → site.client ≡ some client
        → validate_platform_envelope topic request.payload ≡ ok tt
        → (topic ≡ strip request.topic) × IsCleared site request claims client
    clear state topic client readable complete authorized valid connected enveloped =
        let (same, publishable) =
          (validate_publish_topic_iff (strip request.topic) (identity claims) topic).0 valid in
        let trimmed : strip (strip request.topic) ≡ strip request.topic =
          strip_idem request.topic in
        let on_topic : topic ≡ strip request.topic = same ∙ trimmed in
        (
          on_topic,
          record {
            state = state;
            readable = readable;
            complete = negation_false _ complete;
            authorized = authorized;
            publishable = rw trimmed at publishable;
            connected = connected;
            enveloped = rw trimmed at (
                (validate_platform_envelope_iff (strip request.topic) request.payload).0
                  (rw on_topic at enveloped));
          },
        )

    called :
        (topic : String) (client : Client)
        → (topic ≡ strip request.topic) × IsCleared site request claims client
        → IsCall (direct_delivery request claims client topic)
    called topic client (same, cleared) = record {
      client = client;
      cleared = cleared;
      same_client = refl;
      same_call = ap (λ (t : String). (direct_delivery request claims client t).sent) same;
    }

    check_message_sound : Each (λ r. Unit {0}) IsCall (check_message site request claims)
    unfolding check_message
    check_message_sound =
        let P : Refusal → Type 0 = λ r. Unit {0} in
        Each-present P IsCall site.install_state unexpected _ (λ _. tt)
          (λ state readable.
            search
              (
                Each-raise_if P IsCall,
                Each-checked P IsCall,
                Each-present P IsCall,
                accepted,
                called,
                clear state,
                tt,
              )
              depth 14)

    check_message_complete :
        (client : Client)
        → IsCleared site request claims client
        → check_message site request claims
          ≡ ok (direct_delivery request claims client (strip request.topic))
    unfolding check_message
    check_message_complete client c =
        let valid =
          (validate_publish_topic_iff (strip request.topic) (identity claims)
              (strip request.topic)).1
            (sym (strip_idem request.topic), rw (strip_idem request.topic) c.publishable) in
        let enveloped =
          (validate_platform_envelope_iff (strip request.topic) request.payload).1
            (rw (strip_idem request.topic) c.enveloped) in
        rw (c.readable, c.complete, c.authorized, valid, c.connected, enveloped)

    -- A request to publish leads to no call of the broker client, or it is cleared and leads to
    -- exactly the call for its trimmed topic and its payload.
    pub publish_message_calls :
        (world : World)
        → ((publish_message site request claims world).1.calls ≡ world.calls)
          ⊎ ((client : Client) × IsCleared site request claims client
              × ((publish_message site request claims world).1.calls
                  ≡ world.calls ++ (call_of request ∷ [])))
    unfolding publish_message
    publish_message_calls world =
        elim (handle_calls site world (check_message site request claims) check_message_sound) [
          | inl same ↦ inl same
          | inr (d, c, calls) ↦
              inr (c.client, c.cleared, calls ∙ ap (λ s. world.calls ++ (s ∷ [])) c.same_call)
        ]

    -- A request to publish succeeds exactly when it is cleared and the broker client takes the
    -- message.
    pub publish_message_iff :
        (world : World)
        → ((publish_message site request claims world).0 ≡ ok tt) ↔ (
            (client : Client) × IsCleared site request claims client
            × (client world.calls (call_of request) ≡ some zero))
    unfolding publish_message
    publish_message_iff world = (
      λ h.
          let (d, c, _, taken) =
            handle_ok site world (check_message site request claims) check_message_sound h in
          (c.client, c.cleared, cc (taken, c.same_client, c.same_call)),
      λ (client, cleared, taken). rw (check_message_complete client cleared) (
          ap (λ (p : Result HttpError (Unit {0}) × World). p.0)
            (handle_taken site (direct_delivery request claims client (strip request.topic)) world
              taken)),
    )
