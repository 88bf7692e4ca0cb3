-- ===== src/Discovery/Audit.antt =====
-- What is recorded of a request of Home Assistant.
use synthia_mqtt.Prelude.{◌⊎◌, String, ◌≡◌, refl, Option, some}
use synthia_mqtt.Json.{Builtins}
use synthia_mqtt.Http.{HttpError}
use synthia_mqtt.Token.Claims.{ServiceTokenClaims}
use synthia_mqtt.Traces.{Outcome}
use synthia_mqtt.Publish.{unexpected, Site, World, Delivery}
use synthia_mqtt.Publish.Handle.{Each, Each-raise_if, Each-checked, Each-present, accepted}
use synthia_mqtt.Publish.Audit.{
  Describes, Told, Reports, IsAudited, IsUnrecorded, IsUnreadable, IsHeard, loud, silent,
  outcome_of_status, all_told, handle-Ends,
}
use synthia_mqtt.Discovery.{
  HaDiscoverySensorRequest, HaStatePublishRequest, plain_trace, state_trace, check_sensor,
  publish_sensor_discovery, check_state, publish_gateway_state,
}

module _ (operation : String) (claims : ServiceTokenClaims) where
  plain_told :
      (outcome : Outcome) (addon_id topic : String) (detail : Option String)
      → Describes operation claims.sub outcome
          (plain_trace operation outcome claims addon_id topic detail)
  unfolding plain_trace
  plain_told outcome addon_id topic detail = record {
    same_operation = refl;
    same_caller = refl;
    same_outcome = refl;
  }

  plain_refusal :
      (outcome : Outcome) (addon_id topic : String) (detail : Option String) (e : HttpError)
      → outcome_of_status e.status_code ≡ outcome
      → Told operation claims.sub (record {
        trace = some (plain_trace operation outcome claims addon_id topic detail);
        error = e;
      })
  plain_refusal outcome addon_id topic detail e h = (
    plain_trace operation outcome claims addon_id topic detail,
    refl,
    rw h (plain_told outcome addon_id topic detail),
  )

module _ ⦃python : Builtins⦄ (claims : ServiceTokenClaims) where
  state_told :
      (request : HaStatePublishRequest) (outcome : Outcome) (topic : String)
      (detail : Option String)
      → Describes "mqtt.ha.state.publish" claims.sub outcome
          (state_trace request outcome claims topic detail)
  unfolding state_trace
  state_told request outcome topic detail = record {
    same_operation = refl;
    same_caller = refl;
    same_outcome = refl;
  }

  state_refusal :
      (request : HaStatePublishRequest) (outcome : Outcome) (topic : String)
      (detail : Option String) (e : HttpError)
      → outcome_of_status e.status_code ≡ outcome
      → Told "mqtt.ha.state.publish" claims.sub
          (record { trace = some (state_trace request outcome claims topic detail); error = e })
  state_refusal request outcome topic detail e h = (
    state_trace request outcome claims topic detail,
    refl,
    rw h (state_told request outcome topic detail),
  )

  module _ (site : Site) where
    check_sensor-Each :
        (request : HaDiscoverySensorRequest)
        → Each
            (IsHeard (IsUnreadable site claims) "mqtt.ha.discovery.publish" claims.sub)
            (Reports site "mqtt.ha.discovery.publish" claims.sub)
            (check_sensor site request claims)
    unfolding check_sensor
    check_sensor-Each request =
        let P = IsHeard (IsUnreadable site claims) "mqtt.ha.discovery.publish" claims.sub in
        let Q : Delivery (Unit {0}) → Type 0 =
          Reports site "mqtt.ha.discovery.publish" claims.sub in
        Each-present P Q site.install_state unexpected _ (λ e. silent refl (e, refl))
          (λ state _.
            search
              (
                Each-raise_if P Q,
                Each-checked P Q,
                Each-present P Q,
                accepted,
                loud,
                plain_told "mqtt.ha.discovery.publish" claims,
                plain_refusal "mqtt.ha.discovery.publish" claims,
                all_told site "mqtt.ha.discovery.publish" claims.sub,
              )
              depth 16)

    check_state-Each :
        (request : HaStatePublishRequest)
        → Each
            (IsHeard (IsUnreadable site claims) "mqtt.ha.state.publish" claims.sub)
            (Reports site "mqtt.ha.state.publish" claims.sub)
            (check_state site request claims)
    unfolding check_state
    check_state-Each request =
        let P = IsHeard (IsUnreadable site claims) "mqtt.ha.state.publish" claims.sub in
        let Q : Delivery (Unit {0}) → Type 0 = Reports site "mqtt.ha.state.publish" claims.sub in
        Each-present P Q site.install_state unexpected _ (λ e. silent refl (e, refl))
          (λ state _.
            search
              (
                Each-raise_if P Q,
                Each-checked P Q,
                Each-present P Q,
                accepted,
                loud,
                plain_refusal "mqtt.ha.state.publish" claims,
                state_told,
                state_refusal,
                all_told site "mqtt.ha.state.publish" claims.sub,
              )
              depth 18)

    -- A request to publish a sensor or a state, answered or refused, records one attempt of the
    -- caller whose outcome is that of the response, and reports the usage exactly when it succeeds.
    -- The exceptions end with status 500 and leave no attempt: the state of the set-up cannot be
    -- read, which changes nothing, or the client raises, which changes nothing but that it was
    -- called.
    pub discovery-IsAudited :
        (sensor : HaDiscoverySensorRequest) (state : HaStatePublishRequest) (world : World)
        → (IsAudited site "mqtt.ha.discovery.publish" claims.sub world
              (publish_sensor_discovery site sensor claims world).0
              (publish_sensor_discovery site sensor claims world).1
            ⊎ IsUnrecorded
                (IsUnreadable site claims)
                site
                world
                (publish_sensor_discovery site sensor claims world))
          × (IsAudited site "mqtt.ha.state.publish" claims.sub world
                (publish_gateway_state site state claims world).0
                (publish_gateway_state site state claims world).1
              ⊎ IsUnrecorded
                  (IsUnreadable site claims)
                  site
                  world
                  (publish_gateway_state site state claims world))
    unfolding publish_sensor_discovery publish_gateway_state
    discovery-IsAudited sensor state world =
        let S = IsUnreadable site claims in
        (
          handle-Ends S site "mqtt.ha.discovery.publish" claims.sub world _
              (check_sensor-Each sensor),
          handle-Ends S site "mqtt.ha.state.publish" claims.sub world _ (check_state-Each state),
        )
