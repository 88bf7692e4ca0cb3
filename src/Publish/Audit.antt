-- ===== src/Publish/Audit.antt =====
-- What is recorded of a request to publish, by both endpoints.
use mathlib.Core.Path.{subst}
use synthia_mqtt.Prelude.{
  sym, [], ◌∷◌, ◌++◌, ℕ, String, ◌≡◌, refl, ap, ◌⊎◌, inl, inr, Option, none, some, List, eqb,
  if◌then◌else◌, Result, ok, err,
}
use synthia_mqtt.Json.{Json, Builtins}
use synthia_mqtt.Http.{HttpError}
use synthia_mqtt.Token.Claims.{ServiceTokenClaims}
use synthia_mqtt.Telemetry.{Usage, enqueue_usage}
use synthia_mqtt.Traces.{Outcome, success, denied, error, TraceRequest, append}
use synthia_mqtt.Publish.{
  unexpected, Client, Sent, Site, World, Refusal, Delivery, handle, trace_of, log_if,
}
use synthia_mqtt.Publish.Handle.{
  Each, refused, accepted, Each-raise_if, Each-checked, Each-present, handle_taken, handle_failed,
  handle_refused, handle_raised, answers, taken, failed, threw,
}
use synthia_mqtt.Publish.Direct.{MqttPublishRequest, direct_trace, check_message, publish_message}

abbrev pub outcome_of_status : ℕ → Outcome
outcome_of_status status_code = if eqb status_code 500 then error else denied

-- The outcome that stands for a response: an error with status 500 is one of the service.
abbrev pub outcome_of : {A : Type 0} → Result HttpError A → Outcome
outcome_of (ok a) = success
outcome_of (err e) = outcome_of_status e.status_code

-- The attempt describes a response to a caller.
pub record Describes (operation : String) (sub : String) (outcome : Outcome) (t : TraceRequest)
    : Type 0 where
  pub same_operation : t.operation ≡ operation
  pub same_caller : t.caller_sub ≡ some sub
  pub same_outcome : t.outcome ≡ outcome

abbrev pub Told : String → String → Refusal → Type 0
Told operation sub r =
    (t : TraceRequest) × (r.trace ≡ some t)
    × Describes operation sub (outcome_of_status r.error.status_code) t

pub record Reports {A : Type 0} (site : Site) (operation sub : String) (d : Delivery A)
    : Type 0 where
  pub connected : site.client ≡ some d.client
  pub failure_told : Describes operation sub error d.failed
  pub success_told : Describes operation sub success d.succeeded
  pub consumer_is : d.consumer ≡ sub
  pub operation_is : d.operation ≡ operation

pub all_told :
    {A : Type 0} (site : Site) (operation sub : String) (d : Delivery A)
    → site.client ≡ some d.client
    → Describes operation sub error d.failed
    → Describes operation sub success d.succeeded
    → d.consumer ≡ sub
    → d.operation ≡ operation
    → Reports site operation sub d
all_told site operation sub d connected f s c o = record {
  connected = connected;
  failure_told = f;
  success_told = s;
  consumer_is = c;
  operation_is = o;
}

abbrev pub queue_after :
    {A : Type 0} → Site → String → String → Result HttpError A → List Usage → List Usage
queue_after site operation sub (ok a) queue =
    enqueue_usage site.environment site.reporter site.timestamp sub operation 1 queue
queue_after site operation sub (err e) queue = queue

-- What a request leaves behind: one more attempt that describes the response, and one more usage
-- event if it succeeded.
pub record IsAudited {A : Type 0} (site : Site) (operation sub : String) (world : World)
    (result : Result HttpError A) (after : World) : Type 0 where
  pub trace : TraceRequest
  pub recorded : after.traces ≡ append site.max_entries site.now trace world.traces
  pub describes : Describes operation sub (outcome_of result) trace
  pub reported : after.queue ≡ queue_after site operation sub result world.queue

-- A refusal that is recorded, or one for which `S` holds and nothing is.
pub data IsHeard (S : Refusal → Type 0) (operation sub : String) (r : Refusal) : Type 0 where
  loud : Told operation sub r → IsHeard S operation sub r
  silent : r.trace ≡ none → S r → IsHeard S operation sub r

-- A request that ends with an error, records no attempt and reports no usage: one that was refused
-- early, with nothing changed, or one in which the client raised.
pub data IsUnrecorded {A : Type 0} (S : Refusal → Type 0) (site : Site) (world : World)
    : Result HttpError A × World → Type 0 where
  early : (r : Refusal) → S r → IsUnrecorded S site world (err r.error, world)
  raised :
      (client : Client) (sent : Sent)
      → site.client ≡ some client
      → client world.calls sent ≡ none
      → IsUnrecorded S site world
          (err unexpected.error, record world { calls = world.calls ++ (sent ∷ []) })

module _ ⦃python : Builtins⦄ {A : Type 0} (S : Refusal → Type 0) (site : Site)
    (operation sub : String) (world : World) where
  -- The end of a handler, by its result and the world after it.
  abbrev Ends : Result HttpError A × World → Type 0
  Ends end = IsAudited site operation sub world end.0 end.1 ⊎ IsUnrecorded {A = A} S site world end

  refused-Ends : (r : Refusal) → IsHeard S operation sub r → Ends (handle site (err r) world)
  refused-Ends r (loud (t, same, describes)) = rw (handle_refused {A = A} site r world) (
      inl (record {
        trace = t;
        recorded = ap (λ o. log_if site o world.traces) same;
        describes = describes;
        reported = refl;
      }))
  refused-Ends r (silent none_told s) = rw (handle_refused {A = A} site r world) (
      subst
        (λ (o : Option TraceRequest).
          Ends (err r.error, record world { traces = log_if site o world.traces }))
        (sym none_told) (inr (early r s)))

  pub handle-Ends :
      (checks : Result Refusal (Delivery A))
      → Each (IsHeard S operation sub) (Reports site operation sub) checks
      → Ends (handle site checks world)
  handle-Ends (err r) (refused h) = refused-Ends r h
  handle-Ends (ok d) (accepted h) = elim (answers (d.client world.calls d.sent)) [
    | taken e ↦ rw (handle_taken site d world e) (
        inl (record {
          trace = d.succeeded;
          recorded = refl;
          describes = h.success_told;
          reported = cc (h.consumer_is, h.operation_is);
        }))
    | failed n e f ↦ rw (handle_failed site d world n e f) (
        inl (record {
          trace = d.failed;
          recorded = refl;
          describes = h.failure_told;
          reported = refl;
        }))
    | threw e ↦ rw (handle_raised site d world e) (inr (raised d.client d.sent h.connected e))
  ]

module _ ⦃python : Builtins⦄ (operation : String) (claims : ServiceTokenClaims) where
  told :
      (outcome : Outcome) (addon_id : String) (topic detail : Option String) (payload : Json)
      → Describes operation claims.sub outcome
          (trace_of operation outcome claims addon_id topic detail payload)
  unfolding trace_of
  told outcome addon_id topic detail payload = record {
    same_operation = refl;
    same_caller = refl;
    same_outcome = refl;
  }

  recorded_refusal :
      (outcome : Outcome) (addon_id : String) (topic detail : Option String) (payload : Json)
      (e : HttpError)
      → outcome_of_status e.status_code ≡ outcome
      → Told operation claims.sub (record {
        trace = some (trace_of operation outcome claims addon_id topic detail payload);
        error = e;
      })
  recorded_refusal outcome addon_id topic detail payload e h = (
    trace_of operation outcome claims addon_id topic detail payload,
    refl,
    rw h (told outcome addon_id topic detail payload),
  )

module _ ⦃python : Builtins⦄ (site : Site) (claims : ServiceTokenClaims) where
  -- The state of the set-up cannot be read.
  abbrev pub IsUnreadable : Refusal → Type 0
  IsUnreadable r = (site.install_state ≡ none) × (r ≡ unexpected)

  check_message-Each :
      (request : MqttPublishRequest)
      → Each
          (IsHeard IsUnreadable "mqtt.publish" claims.sub)
          (Reports site "mqtt.publish" claims.sub)
          (check_message site request claims)
  unfolding check_message direct_trace
  check_message-Each request =
      let P = IsHeard IsUnreadable "mqtt.publish" claims.sub in
      let Q : Delivery (Unit {0}) → Type 0 = Reports site "mqtt.publish" claims.sub in
      Each-present P Q site.install_state unexpected _ (λ e. silent refl (e, refl))
        (λ state _.
          search
            (
              Each-raise_if P Q,
              Each-checked P Q,
              Each-present P Q,
              accepted,
              loud,
              told "mqtt.publish" claims,
              recorded_refusal "mqtt.publish" claims,
              all_told site "mqtt.publish" claims.sub,
            )
            depth 16)

  -- A request to publish, answered or refused, records one attempt of the caller whose outcome is
  -- that of the response, and reports the usage exactly when it succeeds. The exceptions end with
  -- status 500 and leave no attempt: the state of the set-up cannot be read, which changes nothing,
  -- or the client raises, which changes nothing but that it was called.
  pub publish_message-IsAudited :
      (request : MqttPublishRequest) (world : World)
      → IsAudited site "mqtt.publish" claims.sub world
          (publish_message site request claims world).0
          (publish_message site request claims world).1
        ⊎ IsUnrecorded IsUnreadable site world (publish_message site request claims world)
  unfolding publish_message
  publish_message-IsAudited request world =
      handle-Ends IsUnreadable site "mqtt.publish" claims.sub world _ (check_message-Each request)

  -- What ends a request to the gateway without an attempt: an empty type of the message, or a state
  -- or configuration that cannot be read.
  abbrev pub IsSilent : Refusal → Type 0
  IsSilent r = (r.error.status_code ≡ 422) ⊎ (r ≡ unexpected)
