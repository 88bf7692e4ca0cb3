-- ===== src/Install/Status.antt =====
-- The endpoint `get_status` of app/api/install_workflow.py.
use synthia_mqtt.Prelude.{
  String, Bool, false, not, ◌&&◌, ◌||◌, none, some, List, [], ◌∷◌, ◌==◌, if◌then◌else◌, keep,
  contains, is_some, Dict, lookup, Result, ok, ◌>>=◌,
}
use synthia_mqtt.Json.{Json, str, Builtins, or_else, to_text, truthy}
use synthia_mqtt.Json.Objects.{is_text, text_or_null}
use synthia_mqtt.Health.{HealthSnapshot}
use synthia_mqtt.Broker.{Container, docker_socket_available, broker_running}
use synthia_mqtt.Config.{Exception, Disk, Host, access_modes}
use synthia_mqtt.Config.Session.{
  InstallSession, first_nonempty, get_desired_optional_groups, get_install_session_state,
}
use synthia_mqtt.Config.Groups.{GroupMetadata}
use synthia_mqtt.Install.{
  is_empty, setup_guidance, optional_reconcile_state, Readiness, readiness_state,
  direct_access_summary,
}
use synthia_mqtt.Install.Choices.{Feedback, get_runtime_optional_groups_feedback, pending_or_differ}

-- The response without the list of the supported groups; `embedded_profile_required` is false.
pub record InstallStatusResponse : Type 0 where
  pub mode : Json
  pub external_direct_access_mode : String
  pub direct_access_summary : String
  pub setup_state : String
  pub setup_guidance : String
  pub configured : Bool
  pub verified : Bool
  pub registered_to_core : Bool
  pub direct_mqtt_supported : Bool
  pub docker_sock_available : Bool
  pub broker_running : Bool
  pub mqtt_connected : Bool
  pub last_error : Json
  pub optional_groups_requested : List String
  pub optional_groups_active : List String
  pub optional_groups_starting : List String
  pub optional_groups_failed : List String
  pub optional_groups_pending_reconcile : Bool
  pub deployment_mode : String
  pub optional_groups_reconcile_state : String
  pub readiness : Readiness
  pub readiness_required_groups : List String

abbrev setup_states : List String
setup_states = "unconfigured" ∷ "configuring" ∷ "ready" ∷ "error" ∷ "degraded" ∷ []

-- The state that is shown for the stored one, by what is configured and what is wrong.
unfoldable pub shown_setup_state : Bool → Bool → Bool → String → String
shown_setup_state configured mqtt_connected has_error setup_state =
    if not configured && not (setup_state == "configuring")
    then "unconfigured"
    else if setup_state == "ready" && (not mqtt_connected || has_error)
    then "degraded"
    else if not (contains setup_state setup_states)
    then "error"
    else setup_state

unfoldable pub is_required : Dict GroupMetadata → String → Bool
is_required supported group_id = elim (lookup group_id supported) [
  | none ↦ false
  | some metadata ↦ metadata.setup_required
]

abbrev pub supported_only : Dict GroupMetadata → List String → List String
supported_only supported = keep (λ group_id. is_some (lookup group_id supported))

module _ ⦃python : Builtins⦄ (supported : Dict GroupMetadata) where
  -- The groups that the supervisor has, if it says so, or else those of the desired state.
  unfoldable pub status_requested : Feedback → List String → List String
  status_requested feedback desired =
      first_nonempty (supported_only supported feedback.requested)
        (supported_only supported desired)

  unfoldable pub status_of :
      Container → HealthSnapshot → Feedback → List String → InstallSession → InstallStatusResponse
  unfolding shown_setup_state is_required status_requested setup_guidance optional_reconcile_state
      readiness_state direct_access_summary pending_or_differ
  status_of container health feedback desired s =
      let last_error = or_else (text_or_null health.last_error) s.last_error in
      let given_access = to_text (or_else s.external_direct_access_mode (str "gateway_only")) in
      let access = if contains given_access access_modes then given_access else "gateway_only" in
      let is_embedded = is_text "embedded" s.mode in
      let is_external = is_text "external" s.mode in
      let setup_state =
        shown_setup_state s.configured health.mqtt_connected (truthy last_error)
          (to_text (or_else s.setup_state (str "unconfigured"))) in
      let requested = status_requested feedback desired in
      let active = supported_only supported feedback.active in
      let starting = supported_only supported feedback.starting in
      let failed = supported_only supported feedback.failed in
      let pending = pending_or_differ feedback.pending_reconcile requested active in
      let required = keep (is_required supported) requested in
      record {
        mode = s.mode;
        external_direct_access_mode = access;
        direct_access_summary =
            direct_access_summary (if is_embedded then "embedded" else "external") access;
        setup_state = setup_state;
        setup_guidance = setup_guidance setup_state pending;
        configured = s.configured;
        verified = s.verified;
        registered_to_core = s.registered_to_core;
        direct_mqtt_supported = is_embedded || (is_external && access == "manual_direct_access");
        docker_sock_available = docker_socket_available container;
        broker_running = is_embedded && broker_running container;
        mqtt_connected = health.mqtt_connected;
        last_error = last_error;
        optional_groups_requested = requested;
        optional_groups_active = active;
        optional_groups_starting = starting;
        optional_groups_failed = failed;
        optional_groups_pending_reconcile = pending;
        deployment_mode = if is_empty active then "base_only" else "expanded";
        optional_groups_reconcile_state = optional_reconcile_state requested active starting failed;
        readiness = readiness_state setup_state requested active required;
        readiness_required_groups = required;
      }

  unfoldable pub get_status :
      Host → Container → HealthSnapshot → Disk → Result Exception InstallStatusResponse
  unfolding status_of get_install_session_state get_desired_optional_groups
      get_runtime_optional_groups_feedback
  get_status host container health disk = do
    install_state ← get_install_session_state host disk
    ok (
        status_of container health (get_runtime_optional_groups_feedback disk)
          (get_desired_optional_groups disk) install_state)
