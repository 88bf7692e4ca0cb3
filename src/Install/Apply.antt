-- ===== src/Install/Apply.antt =====
-- The endpoints of app/api/install_workflow.py that move the set-up from state to state: the mode,
-- the test of an external broker, the application of a configuration and the reset.
use synthia_mqtt.Prelude.{
  ℕ, String, Bool, true, false, not, ◌&&◌, ◌||◌, Option, none, some, List, [], ◌∷◌, ◌++◌, ◌==◌,
  if◌then◌else◌, contains, Dict, Result, ok,
}
use synthia_mqtt.Prelude.Effects.{Act, attempt, done, raise, lift, ask, ◌>>=◌, ◌>>◌}
use synthia_mqtt.Json.{null, str, Fields, Builtins, or_else, to_text}
use synthia_mqtt.Json.Objects.{is_text, text_or_null}
use synthia_mqtt.Http.{http_error}
use synthia_mqtt.Registrations.{BrokerMode, embedded, external}
use synthia_mqtt.Config.{Exception, value_error, runtime_error, http_exception, Disk, Host}
use synthia_mqtt.Config.Settings.{get_effective_config}
use synthia_mqtt.Config.Session.{
  InstallSession, get_desired_optional_groups, get_install_session_state,
  update_install_session_state,
}
use synthia_mqtt.Config.Groups.{GroupMetadata}
use synthia_mqtt.Config.Requests.{
  ExternalAccess, ExternalConnectionConfig, InstallApplyRequest, mode_text, access_text,
}
use synthia_mqtt.Config.Store.{
  set_requested_optional_groups, set_selected_mode, reset_install_session_state,
  apply_install_config, apply_embedded_runtime,
}
use synthia_mqtt.Install.{
  diagnostic_code_from_reason, external_signature, Attempt, test_external_connection,
}

pub record InstallTestExternalResponse : Type 0 where
  pub ok : Bool
  pub diagnostic_code : String
  pub reason : Option String

pub record InstallModeUpdateResponse : Type 0 where
  pub ok : Bool
  pub mode : BrokerMode
  pub direct_mqtt_supported : Bool
  pub external_direct_access_mode : String

pub record InstallApplyResponse : Type 0 where
  pub ok : Bool
  pub warnings : Option (List String)

abbrev pub http : {A : Type 0} → ℕ → String → Act Disk Exception A
http status_code detail = raise (http_exception (http_error status_code detail))

-- The states that the endpoints write.
unfoldable pub failed_state : BrokerMode → String → InstallSession → InstallSession
unfolding mode_text
failed_state mode reason s = record s {
  mode = str (mode_text mode);
  setup_state = str "error";
  configured = false;
  verified = false;
  last_error = str reason;
}

unfoldable pub begun_state : InstallApplyRequest → InstallSession → InstallSession
unfolding mode_text access_text
begun_state request s = record s {
  mode = str (mode_text request.mode);
  setup_state = str "configuring";
  configured = false;
  verified = false;
  external_direct_access_mode = str (access_text request.external_direct_access_mode);
  last_error = null;
}

unfoldable pub ready_state : InstallApplyRequest → InstallSession → InstallSession
unfolding mode_text access_text
ready_state request s = record s {
  mode = str (mode_text request.mode);
  setup_state = str "ready";
  configured = true;
  verified = true;
  external_direct_access_mode = str (access_text request.external_direct_access_mode);
  last_error = null;
}

module _ ⦃python : Builtins⦄ (host : Host) where
  unfoldable pub set_mode :
      BrokerMode → ExternalAccess → Act Disk Exception InstallModeUpdateResponse
  unfolding set_selected_mode mode_text access_text
  set_mode mode access = do
    updated ← set_selected_mode host (mode_text mode) (access_text access)
    done (record {
      ok = true;
      mode = mode;
      direct_mqtt_supported =
          mode_text mode == "embedded"
          || (mode_text mode == "external"
              && is_text "manual_direct_access" updated.external_direct_access_mode);
      external_direct_access_mode =
          to_text (or_else updated.external_direct_access_mode (str "gateway_only"));
    })

  -- The state after a trial connection.
  unfoldable pub tested_state :
      ExternalConnectionConfig → Bool → Option String → InstallSession → InstallSession
  unfolding external_signature
  tested_state payload passed reason s = record s {
    mode = str "external";
    setup_state = str "configuring";
    verified = passed;
    last_error = if passed then null else text_or_null reason;
    external_test_ok = passed;
    external_test_signature = if passed then str (external_signature payload) else null;
  }

  unfoldable pub test_external :
      Attempt → ExternalConnectionConfig → Act Disk Exception InstallTestExternalResponse
  unfolding test_external_connection tested_state update_install_session_state
  test_external attempt payload =
      let (passed, reason) = test_external_connection payload attempt in
      do
        state ← update_install_session_state host (tested_state payload passed reason)
        done (record {
          ok = passed;
          diagnostic_code = diagnostic_code_from_reason passed reason;
          reason = reason;
        })

  -- The guard of `apply_install`: an external broker must have passed the test as it is given.
  unfoldable pub check_signature :
      Option ExternalConnectionConfig → InstallSession → Act Disk Exception (Unit {0})
  unfolding external_signature
  check_signature none s = http 400 "external config is required when mode is external"
  check_signature (some c) s =
      if not s.external_test_ok || not (is_text (external_signature c) s.external_test_signature)
      then http 400 "External config must pass /api/install/test-external before apply."
      else done tt

  unfoldable pub check_tested : InstallApplyRequest → Act Disk Exception (Unit {0})
  unfolding check_signature mode_text
  check_tested request =
      if mode_text request.mode == "external" && not request.allow_unvalidated
      then ask (get_install_session_state host) >>= check_signature request.external_config
      else done tt

  -- The handlers of the exceptions: the state says what failed, the response repeats it.
  unfoldable pub fail : {A : Type 0} → BrokerMode → ℕ → String → Act Disk Exception A
  unfolding failed_state update_install_session_state
  fail mode status_code reason = do
    state ← update_install_session_state host (failed_state mode reason)
    http status_code reason

  unfoldable pub on_failure : {A : Type 0} → BrokerMode → String → Exception → Act Disk Exception A
  unfolding fail
  on_failure mode default (value_error message) = fail mode 400 message
  on_failure mode default _ = fail mode 500 default

  unfoldable pub persist : InstallApplyRequest → Act Disk Exception Fields
  unfolding apply_install_config on_failure
  persist request =
      attempt (apply_install_config host request)
        (on_failure request.mode "Failed to persist install config")

  unfoldable pub run_embedded : InstallApplyRequest → Act Disk Exception (Bool × Option String)
  unfolding apply_embedded_runtime on_failure
  run_embedded request =
      attempt (apply_embedded_runtime host request)
        (on_failure embedded "Failed to apply embedded broker runtime")

  unfoldable pub on_blocked : Exception → Act Disk Exception InstallSession
  unfolding fail
  on_blocked (runtime_error message) = fail embedded 409 message
  on_blocked other = raise other

  -- The group of the broker is added to the requested ones.
  unfoldable pub request_broker : Dict GroupMetadata → Act Disk Exception (Unit {0})
  unfolding set_requested_optional_groups on_blocked get_desired_optional_groups
  request_broker supported = do
    requested ← ask (λ (disk : Disk). ok (get_desired_optional_groups disk))
    if contains "broker" requested then done tt else do
      state ←
          attempt (set_requested_optional_groups host (requested ++ ("broker" ∷ [])) supported)
            on_blocked
      done tt

  -- `reload_mqtt_service`; `start` is what the client library does with the configuration.
  unfoldable pub reload_mqtt_service :
      (Fields → Result Exception (Unit {0})) → Act Disk Exception (Unit {0})
  unfolding get_effective_config
  reload_mqtt_service start = do config ← ask (get_effective_config false host); lift (start config)

  module _ (supported : Dict GroupMetadata) (start : Fields → Result Exception (Unit {0})) where
    unfoldable pub finish : InstallApplyRequest → Act Disk Exception InstallApplyResponse
    unfolding reload_mqtt_service ready_state update_install_session_state
    finish request = do
      reload_mqtt_service start
      state ← update_install_session_state host (ready_state request)
      done (record { ok = true; warnings = none })

    abbrev warnings_of : Option String → Option (List String)
    warnings_of none = none
    warnings_of (some reason) = if reason == "" then none else some (reason ∷ [])

    unfoldable pub finish_embedded :
        InstallApplyRequest → Bool × Option String → Act Disk Exception InstallApplyResponse
    unfolding request_broker finish
    finish_embedded request (true, reason) = do request_broker supported; finish request
    finish_embedded request (false, reason) =
        done (record { ok = false; warnings = warnings_of reason })

    -- What follows once the configuration is saved.
    unfoldable pub run : BrokerMode → InstallApplyRequest → Act Disk Exception InstallApplyResponse
    unfolding finish run_embedded finish_embedded
    run external request = finish request
    run embedded request = run_embedded request >>= finish_embedded request

    unfoldable pub apply_install : InstallApplyRequest → Act Disk Exception InstallApplyResponse
    unfolding begun_state update_install_session_state check_tested persist run
    apply_install request = do
      state ← update_install_session_state host (begun_state request)
      check_tested request
      config ← persist request
      run request.mode request

  unfoldable pub reset_install_state : Act Disk Exception (Unit {0})
  unfolding reset_install_session_state
  reset_install_state = do state ← reset_install_session_state host "external"; done tt
