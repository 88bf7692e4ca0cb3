-- ===== src/Admin.antt =====
-- app/api/broker_admin.py and what it uses of app/services/broker_manager.py: the restart of the
-- embedded broker. Times are microseconds of the monotonic clock.
pub mod Wait
pub mod Restarted
use synthia_mqtt.Prelude.{
  ℕ, zero, suc, ◌+◌, ◌-◌, String, ◌<>◌, Bool, true, false, not, Option, none, some, ◌==◌, ltb,
  if◌then◌else◌, Result, ok,
}
use synthia_mqtt.Prelude.Effects.{Act, done, lift, ◌>>=◌}
use synthia_mqtt.Json.{ℤ, Json, null, str, Environment, getenv, Builtins}
use synthia_mqtt.Config.{Exception, Disk, Host, int_of}
use synthia_mqtt.Config.Session.{InstallSession, update_install_session_state}

-- What the Docker client does: whether its socket exists, the message of the exception that its
-- import raises, and that of the exception that the restart of the container raises.
pub record Docker : Type 0 where
  pub socket : Bool
  pub import_error : Option String
  pub restart_error : Option String

pub record BrokerRestartResult : Type 0 where
  pub restarted : Bool
  pub reason : Option String
  pub operator_action : Option String

abbrev pub operator_action_text : String
operator_action_text =
    "docker compose -f docker/docker-compose.yml --profile embedded restart mosquitto"

abbrev not_restarted : String → BrokerRestartResult
not_restarted reason = record {
  restarted = false;
  reason = some reason;
  operator_action = some operator_action_text;
}

unfoldable pub restart_broker : Docker → BrokerRestartResult
restart_broker docker =
    if not docker.socket
    then not_restarted "Docker socket not available"
    else elim docker.import_error [
      | some message ↦ not_restarted ("Docker SDK unavailable: " <> message)
      | none ↦ elim docker.restart_error [
        | some message ↦ not_restarted ("Docker restart failed: " <> message)
        | none ↦ record { restarted = true; reason = none; operator_action = none }
      ]
    ]

-- The attempts to connect: when the test of the loop before the n-th attempt reads the clock, and
-- whether the attempt connects to a host and port.
pub record Port : Type 0 where
  pub clock : ℕ → ℕ
  pub connects : String → ℤ → ℕ → Bool

-- The loop of `wait_for_port` from the n-th attempt on; `none` means that the fuel ran out.
unfoldable pub wait_from : Port → String → ℤ → ℕ → ℕ → ℕ → Option Bool
wait_from port host number deadline zero n = none
wait_from port host number deadline (suc fuel) n =
    let more = wait_from port host number deadline fuel (suc n) in
    if not (ltb (port.clock n) deadline)
    then some false
    else if port.connects host number n
    then some true
    else more

-- `wait_for_port` that starts at a moment and waits for 20 seconds. An attempt that fails is
-- followed by a pause of 0.2 seconds, so there are 100 attempts at most.
unfoldable pub wait_for_port : Port → String → ℤ → ℕ → Option Bool
unfolding wait_from
wait_for_port port host number now = wait_from port host number (now + 20000000) 101 0

pub record RestartResponse : Type 0 where
  pub ok : Bool
  pub restarted : Bool
  pub broker_ready : Option Bool
  pub reason : Option String
  pub operator_action : Option String
  pub elapsed_ms : ℕ

-- The machine during a restart: whether the lock is got within its timeout, the Docker client, the
-- port of the broker, the moment at which the wait starts, and the milliseconds that have passed.
pub record Restart : Type 0 where
  pub lock_free : Bool
  pub docker : Docker
  pub port : Port
  pub now : ℕ
  pub elapsed_ms : ℕ

unfoldable pub lock_timeout : ℕ → RestartResponse
lock_timeout elapsed_ms = record {
  ok = false;
  restarted = false;
  broker_ready = none;
  reason = some "Broker admin lock timeout";
  operator_action = none;
  elapsed_ms = elapsed_ms;
}

unfoldable pub refused_restart : BrokerRestartResult → ℕ → RestartResponse
refused_restart result elapsed_ms = record {
  ok = false;
  restarted = false;
  broker_ready = none;
  reason = result.reason;
  operator_action = result.operator_action;
  elapsed_ms = elapsed_ms;
}

unfoldable pub waited : Bool → ℕ → RestartResponse
waited broker_ready elapsed_ms = record {
  ok = broker_ready;
  restarted = true;
  broker_ready = some broker_ready;
  reason = if broker_ready then none else some "Broker did not become ready in time";
  operator_action = none;
  elapsed_ms = elapsed_ms;
}

-- A wait whose fuel runs out counts as one without success.
abbrev pub ended : Option Bool → Bool
ended none = false
ended (some ready) = ready

abbrev text_of_reason : Option String → String
text_of_reason none = "Broker restart failed"
text_of_reason (some reason) = if reason == "" then "Broker restart failed" else reason

module _ ⦃python : Builtins⦄ where
  -- `int(MQTT_PORT)` may raise.
  unfoldable pub restart_broker_flow : Environment → Restart → Result Exception RestartResponse
  unfolding lock_timeout refused_restart waited
  restart_broker_flow env r =
      let result = restart_broker r.docker in
      if not r.lock_free
      then ok (lock_timeout r.elapsed_ms)
      else if not result.restarted
      then ok (refused_restart result r.elapsed_ms)
      else elim (int_of (str (getenv env "MQTT_PORT" "1883"))) [
        | Result.err e ↦ Result.err e
        | ok number ↦ ok (
            waited (ended (wait_for_port r.port (getenv env "MQTT_HOST" "mosquitto") number r.now))
              r.elapsed_ms)
      ]

  -- What the endpoint writes into the state of the set-up.
  unfoldable pub restarted_state : RestartResponse → InstallSession → InstallSession
  restarted_state response s = record s {
    mode = str "embedded";
    verified = response.ok;
    last_error = if response.ok then null else str (text_of_reason response.reason);
  }

  -- The endpoint `restart_broker`.
  unfoldable pub post_restart : Host → Restart → Act Disk Exception RestartResponse
  unfolding restart_broker_flow restarted_state update_install_session_state
  post_restart host r = do
    response ← lift (restart_broker_flow host.environment r)
    state ← update_install_session_state host (restarted_state response)
    done response
