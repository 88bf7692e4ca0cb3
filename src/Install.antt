-- ===== src/Install.antt =====
-- app/api/install_workflow.py, what it uses of app/services/mqtt_client.py and
-- app/services/core_registry.py, and `reload_mqtt_service` of app/main.py: the set-up of the
-- addon. This file has the helper functions of the endpoints.
pub mod Apply
pub mod Status
pub mod Choices
pub mod Registry
pub mod Steps
pub mod Trust
pub mod Blocked
pub mod Ready
pub mod Progress
use synthia_mqtt.Prelude.{
  ℕ, zero, suc, String, ◌<>◌, Bool, true, false, not, ◌&&◌, ◌||◌, Option, none, some, List, [], ◌∷◌,
  ◌==◌, eqb, if◌then◌else◌, contains, keep,
}
use synthia_mqtt.Prelude.Text.{strip, lower, has_infix, join}
use synthia_mqtt.Json.{pos, Builtins}
use synthia_mqtt.Config.Broker.{text_of_option}
use synthia_mqtt.Config.Requests.{ExternalConnectionConfig}

unfoldable pub diagnostic_code_from_reason : Bool → Option String → String
unfolding lower has_infix
diagnostic_code_from_reason ok reason =
    let normalized = lower (text_of_option reason) in
    if ok
    then "ok"
    else if text_of_option reason == ""
    then "unknown_error"
    else if has_infix normalized "timed out"
    then "timeout"
    else if has_infix normalized "refused"
    then "connection_refused"
    else if has_infix normalized "name or service not known"
        || has_infix normalized "nodename nor servname"
    then "dns_error"
    else if has_infix normalized "mqtt connect failed with rc="
    then "mqtt_connect_failed"
    else "connection_error"

unfoldable pub normalize_http_url : String → String
unfolding has_infix strip
normalize_http_url url_value =
    let normalized = strip url_value in
    if normalized == ""
    then normalized
    else if has_infix normalized "://"
    then normalized
    else "http://" <> normalized

unfoldable pub setup_guidance : String → Bool → String
setup_guidance setup_state optional_groups_pending =
    if optional_groups_pending
    then "Base setup is complete. Waiting for supervisor reconcile of optional docker groups."
    else if setup_state == "unconfigured"
    then "Select and save broker mode, then apply configuration in setup wizard."
    else if setup_state == "configuring"
    then "Setup is in progress. Complete apply and verification steps."
    else if setup_state == "ready"
    then "Setup is complete and runtime is ready."
    else if setup_state == "degraded"
    then "Setup completed but broker connectivity is degraded. Check broker reachability and credentials."
    else "Setup is in error state. Review last_error and re-run setup."

-- One occurrence less of a text, `none` if there is none.
unfoldable pub remove_one : String → List String → Option (List String)
remove_one x [] = none
remove_one x (y ∷ ys) =
    if y == x then some ys else elim (remove_one x ys) [ none ↦ none | some rest ↦ some (y ∷ rest) ]

-- `sorted(xs) == sorted(ys)`
unfoldable pub same_items : List String → List String → Bool
unfolding remove_one
same_items [] [] = true
same_items [] (y ∷ ys) = false
same_items (x ∷ xs) ys = elim (remove_one x ys) [ none ↦ false | some rest ↦ same_items xs rest ]

abbrev pub is_empty : List String → Bool
is_empty [] = true
is_empty (x ∷ xs) = false

unfoldable pub optional_reconcile_state :
    List String → List String → List String → List String → String
unfolding same_items
optional_reconcile_state requested active starting failed =
    if is_empty requested
    then "idle"
    else if not (is_empty failed) && is_empty active
    then "failed"
    else if not (is_empty starting)
    then "starting"
    else if same_items requested active
    then "active"
    else if not (is_empty failed) && not (is_empty active)
    then "mixed"
    else "waiting_for_reconcile"

-- The state, whether it is full, and the missing groups.
pub record Readiness : Type 0 where
  pub state : String
  pub full : Bool
  pub missing : List String

abbrev readiness : String → Bool → List String → Readiness
readiness state full missing = record { state = state; full = full; missing = missing }

unfoldable pub readiness_state : String → List String → List String → List String → Readiness
unfolding same_items
readiness_state setup_state requested active required_groups =
    let missing = keep (λ group_id. not (contains group_id active)) required_groups in
    if not (setup_state == "ready" || setup_state == "degraded")
    then readiness "not_ready" false required_groups
    else if is_empty requested
    then readiness "full" true []
    else if not (is_empty missing)
    then (if not (is_empty active)
        then readiness "partial" false missing
        else readiness "not_ready" false missing)
    else if same_items requested active
    then readiness "full" true []
    else readiness "partial" false []

unfoldable pub direct_access_summary : String → String → String
direct_access_summary mode external_direct_access_mode =
    if mode == "embedded"
    then "Embedded broker supports managed direct MQTT credentials."
    else if external_direct_access_mode == "manual_direct_access"
    then "External broker direct access is manual-only: operator must provision broker users and record mapping."
    else "External broker is gateway-only: direct MQTT credentials are not provisioned."

-- What the client library does in a trial connection: it raises, it does not answer in time, or it
-- answers with a return code, and then may disconnect with another one.
pub data Attempt : Type 0 where
  raised : String → Attempt
  silent : Attempt
  answered : ℕ → Option ℕ → Attempt

module _ ⦃python : Builtins⦄ where
  unfoldable pub external_signature : ExternalConnectionConfig → String
  unfolding strip
  external_signature payload = join "|" (
      strip payload.host
      ∷ python.print_number (pos payload.port)
      ∷ (if payload.tls then "1" else "0")
      ∷ text_of_option payload.username
      ∷ text_of_option payload.password
      ∷ [])

  unfoldable pub test_external_connection :
      ExternalConnectionConfig → Attempt → Bool × Option String
  test_external_connection payload (raised message) = (false, some message)
  test_external_connection payload silent = (
    false,
    some (
        "Timed out connecting to "
        <> (payload.host <> (":" <> python.print_number (pos payload.port)))),
  )
  test_external_connection payload (answered (suc rc) later) =
      (false, some ("MQTT connect failed with rc=" <> python.print_number (pos (suc rc))))
  test_external_connection payload (answered zero (some (suc rc))) =
      (false, some ("MQTT disconnected unexpectedly rc=" <> python.print_number (pos (suc rc))))
  test_external_connection payload (answered zero _) = (true, none)
