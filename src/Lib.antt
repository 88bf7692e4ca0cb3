-- ===== src/Lib.antt =====
-- The Synthia MQTT addon service: it authenticates the requests of other addons, decides what they
-- may publish, hands their messages to an MQTT broker and keeps a log of every attempt.
--
-- Parts of the program and the files that model them:
-- - Topics: app/services/topic_permissions.py, the scopes of an addon and the topics it may publish
--   to; `normalize_topics`, `mqtt_topic_matches` and the others are the functions of that name.
-- - Envelope: app/services/envelope_validation.py.
-- - Token: app/services/token_auth.py and the dependency `require_scope` of app/api/auth.py.
-- - Policy: app/services/policy_cache.py. The cache is a record, each method a function on it, and
--   `ingest_all` the messages in the order of their arrival. The lock makes every method one step.
-- - Traces: app/services/publish_trace_store.py; the file is a value of `TraceFile`.
-- - Registrations: app/services/registration_store.py; `Files` holds what the store writes.
-- - Telemetry: app/services/telemetry_reporter.py, the queue, one flush of it, its file and the stop
--   (Telemetry/QueueFile).
-- - Publish: app/api/mqtt_publish.py and `publish` of app/services/mqtt_client.py. A handler is a
--   chain of tests that ends in a refusal, with the attempt it records and the error it raises, or
--   in a delivery; `handle` then does what the branch does to the `World`.
-- - Discovery: app/api/ha_discovery.py, in the same form.
-- - Enrolment: app/api/mqtt_registration.py, the endpoints of the registration store; the topic
--   explorer is Enrolment/Explorer.
-- - Config: app/services/config_store.py, app/services/mounted_state_store.py and the files that
--   app/services/broker_manager.py writes: the settings (Config/Settings), the install state, the
--   session of the set-up (Config/Session), the desired groups (Config/Desired), the search for the
--   groups needed (Config/Groups), the files of the broker (Config/Broker) and the writes
--   (Config/Store, for the requests of Config/Requests). `Disk` holds every file as a value: missing,
--   JSON, or a text that is none.
-- - Install: app/api/install_workflow.py with app/models/install_models.py: the status
--   (Install/Status), the choice of the optional groups (Install/Choices), the choice of the mode,
--   the application of a configuration and its test (Install/Apply), the core's address and the
--   registration with it (Install/Registry, app/services/core_registry.py). A `Step` of
--   Install/Steps is a request to one of these endpoints or an update of the configuration, and
--   `perform_all` a sequence of them.
-- - Client: the callbacks of app/services/mqtt_client.py, app/services/lifecycle_topics.py and
--   app/services/mqtt_metrics_store.py; `react` is one event of the broker.
-- - Health: app/services/health.py and `get_health` of app/api/addon_contract.py.
-- - Metrics: the endpoint `metrics` of app/api/mqtt_publish.py.
-- - Broker: `broker_running` of app/services/broker_manager.py, for Install/Status.
-- - Admin: app/api/broker_admin.py with `restart_broker` and `wait_for_port` of
--   app/services/broker_manager.py.
-- - Contract: the endpoints of the configuration and the manifest in app/api/addon_contract.py.
-- - Json, Http, Codecs, Prelude: Python's values, texts, lists and exceptions. `Act` of
--   Prelude/Effects is code that changes a state and may raise: what it wrote before stays.
-- - Examples: concrete inputs.
--
-- The publish handlers read the policy cache, the registrations, the install state and the
-- configuration, which a `Site` collects, and change the traces, the calls of the client, the last
-- error and the usage queue, which a `World` collects. They report usage with the lock of the
-- reporter free; `Telemetry.Line` is the state in which a call may wait for it forever. The claims
-- come from `require_scope`. The set-up endpoints change the `Disk` through the configuration store;
-- Install/Ready passes what they left to the publish handler.
--
-- Code outside the repository is a parameter: `Builtins` (printing, `int`, `json`), `Codecs`
-- (base64, UTF-8, HMAC, SHA-256), `Host` (the environment, the paths and `crypt`), the broker
-- client's attempts, return codes, exceptions and start, the errors of the write of an addon's access
-- rules (`Writer`), Docker (`Docker`), the clock and the attempts of the
-- wait for the port (`Port`), the printer of the queue file, and the core's answers. Two theorems
-- assume that `time.sleep` pauses as long as it is asked to, and one that `json` prints an event on
-- one line and reads it back; no other assumes a law of any of them.
--
-- Two loops are on fuel. The search for the groups has one more than there are groups, which is
-- enough as a nested visit enters a group that none of those around it has entered. The wait for
-- the port has 101 rounds, which is enough as each takes a fifth of a second of the 20 seconds.
-- Every other loop is a structural recursion on a list, a text or a counter. Times are numbers,
-- moments of a request come with it, and a status code or a length is unbounded as in Python.
-- `strip` and `lower` are those of ASCII texts, and the order of a set is not observed.
--
-- Not modelled: the endpoints that return constants, `enable_embedded_broker_stack` of the broker
-- manager, which nothing calls, and the code that only does input and output (locks and
-- atomic writes, errors of the operating system on any other write, the thread that flushes, wiring
-- in app/main.py). Threads appear as sequences of whole operations.
pub mod Prelude
pub mod Json
pub mod Http
pub mod Codecs
pub mod Topics
pub mod Envelope
pub mod Token
pub mod Policy
pub mod Traces
pub mod Registrations
pub mod Telemetry
pub mod Publish
pub mod Discovery
pub mod Enrolment
pub mod Health
pub mod Client
pub mod Config
pub mod Install
pub mod Metrics
pub mod Broker
pub mod Admin
pub mod Contract
pub mod Examples
