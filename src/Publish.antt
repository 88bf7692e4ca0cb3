-- ===== src/Publish.antt =====
-- app/api/mqtt_publish.py and the method `publish` of app/services/mqtt_client.py: the two
-- publish endpoints, and what they share with those of app/api/ha_discovery.py.
pub mod Direct
pub mod Gateway
pub mod Handle
pub mod Accept
pub mod Audit
pub mod Scope
use synthia_mqtt.Prelude.{
  ℕ, zero, String, ◌<>◌, Bool, true, false, ◌||◌, Option, none, some, List, [], ◌∷◌, ◌++◌, ◌==◌,
  if◌then◌else◌, eqb, Result, ok, err,
}
use synthia_mqtt.Prelude.Text.{strip}
use synthia_mqtt.Json.{
  ℤ, Json, null, boolean, int, float, str, arr, obj, Fields, Builtins, Environment, get, trimmed,
}
use synthia_mqtt.Http.{HttpError, http_error}
use synthia_mqtt.Token.Claims.{ServiceTokenClaims}
use synthia_mqtt.Policy.{PolicyCache, authorize, text_or_none}
use synthia_mqtt.Registrations.{Files}
use synthia_mqtt.Telemetry.{Usage, Reporter, enqueue_usage}
use synthia_mqtt.Traces.{Outcome, success, denied, error, TraceRequest, TraceFile, append}

-- A call of the broker client's `publish`.
pub record Sent : Type 0 where
  pub topic : String
  pub message : String
  pub retain : Bool
  pub qos : ℤ

-- The return code of a call of the client, given the earlier calls; 0 is `MQTT_ERR_SUCCESS`, and
-- `none` an exception, as paho raises for a topic with a wildcard or a payload that is too long.
abbrev pub Client : Type 0
Client = List Sent → Sent → Option ℕ

-- What a request finds: the settings, the policy cache, the state of the setup and the
-- configuration (`none` where their reading raises), the registrations, the client and the time, as
-- a number and as a text.
pub record Site : Type 0 where
  pub environment : Environment
  pub cache : PolicyCache
  pub install_state : Option Fields
  pub effective_config : Option Fields
  pub registrations : Files
  pub client : Option Client
  pub reporter : Reporter
  pub max_entries : ℕ
  pub now : ℕ
  pub timestamp : String

-- What a request changes: the log of attempts, the calls of the client, the last error of the
-- health service and the queue of usage events.
pub record World : Type 0 where
  pub traces : TraceFile
  pub calls : List Sent
  pub last_error : Option String
  pub queue : List Usage

module _ ⦃python : Builtins⦄ where
  -- `publish` of `MqttClientService`: the text that is sent for a payload.
  unfoldable pub message_of : Json → String
  message_of (str text) = text
  message_of payload = python.dumps payload

  abbrev id_of : Json → Option String
  id_of null = none
  id_of value = text_or_none (trimmed value)

  unfoldable pub extract_trace_ids : Json → Option String × Option String
  extract_trace_ids (obj payload) =
      (id_of (get "message_id" payload), id_of (get "correlation_id" payload))
  extract_trace_ids _ = (none, none)

  -- The argument of `trace_store.append` in `record_trace`.
  unfoldable pub trace_of :
      String
      → Outcome
      → ServiceTokenClaims
      → String
      → Option String
      → Option String
      → Json
      → TraceRequest
  unfolding extract_trace_ids
  trace_of operation outcome claims addon_id topic detail payload =
      let (message_id, correlation_id) = extract_trace_ids payload in
      record {
        operation = operation;
        outcome = outcome;
        addon_id = some addon_id;
        caller_sub = some claims.sub;
        topic = topic;
        detail = detail;
        message_id = message_id;
        correlation_id = correlation_id;
      }

-- `install_state.get("setup_state") in {"ready", "degraded"}`
unfoldable pub is_setup_complete : Fields → Bool
is_setup_complete install_state = elim (get "setup_state" install_state) [
  | str state ↦ state == "ready" || state == "degraded"
  | _ ↦ false
]

-- `reason or default`
abbrev pub or_text : String → String → String
or_text reason default = if reason == "" then default else reason

-- A branch that ends a request: the attempt that it records, if any, and the error that it raises.
pub record Refusal : Type 0 where
  pub trace : Option TraceRequest
  pub error : HttpError

-- An exception that no handler expects.
abbrev pub unexpected : Refusal
unexpected = record { trace = none; error = http_error 500 "Internal Server Error" }

abbrev pub refusal : TraceRequest → ℕ → String → Refusal
refusal trace status detail = record { trace = some trace; error = http_error status detail }

abbrev pub checked {ℓ} : {A : Type ℓ} → Result String A → (String → Refusal) → Result Refusal A
checked (ok a) refuse = ok a
checked (err reason) refuse = err (refuse reason)

abbrev pub present {ℓ} : {A : Type ℓ} → Option A → Refusal → Result Refusal A
present none refuse = err refuse
present (some a) refuse = ok a

-- A message that passed the tests: the call of the client, the attempts to record, the detail of
-- a failure, the operation to report with its consumer, and the response.
pub record Delivery (A : Type 0) : Type 0 where
  pub client : Client
  pub sent : Sent
  pub failed : TraceRequest
  pub failure : String
  pub succeeded : TraceRequest
  pub consumer : String
  pub operation : String
  pub response : A

abbrev pub log : Site → TraceRequest → TraceFile → TraceFile
log site trace file = append site.max_entries site.now trace file

abbrev pub log_if : Site → Option TraceRequest → TraceFile → TraceFile
log_if site none file = file
log_if site (some trace) file = log site trace file

module _ ⦃python : Builtins⦄ where
  -- What a call of the client with a return code does; `none` is the client's exception.
  abbrev pub published : Option ℕ → World → Option Bool × World
  published none called = (none, called)
  published (some rc) called = if eqb rc zero then (some true, called) else (
    some false,
    record called {
      last_error = some ("Publish failed with rc=" <> python.print_number (ℤ.pos rc));
    },
  )

  -- `MqttClientService.publish`, on the world before and after the call of the client.
  unfoldable pub publish : Client → Sent → World → Option Bool × World
  publish client call world =
      published (client world.calls call) (record world { calls = world.calls ++ (call ∷ []) })

  -- What follows the call, by its result.
  abbrev delivered :
      {A : Type 0} → Site → Delivery A → Option Bool → World → Result HttpError A × World
  delivered site d none after = (err unexpected.error, after)
  delivered site d (some true) after = (
    ok d.response,
    record after {
      traces = log site d.succeeded after.traces;
      queue =
          enqueue_usage site.environment site.reporter site.timestamp d.consumer d.operation 1
            after.queue;
    },
  )
  delivered site d (some false) after =
      (err (http_error 500 d.failure), record after { traces = log site d.failed after.traces })

  -- The end of a handler, from the call of the client on.
  unfoldable pub deliver : {A : Type 0} → Site → Delivery A → World → Result HttpError A × World
  unfolding publish
  deliver site d world =
      let (accepted, after) = publish d.client d.sent world in delivered site d accepted after

  -- A handler: the tests, then the branch that they choose.
  unfoldable pub handle :
      {A : Type 0} → Site → Result Refusal (Delivery A) → World → Result HttpError A × World
  unfolding deliver
  handle site (err r) world =
      (err r.error, record world { traces = log_if site r.trace world.traces })
  handle site (ok d) world = deliver site d world
