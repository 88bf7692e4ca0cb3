-- ===== src/Install/Trust.antt =====
-- The guard of the application of an external broker: whatever the endpoints do, the state holds
-- the signature of a configuration that passed the test.
pub mod Runs
pub mod Guard
use mathlib.Core.Path.{subst}
use synthia_mqtt.Prelude.{
  ℕ, ◌≡◌, refl, sym, ◌∙◌, ap, inl, inr, String, Bool, true, false, not, Option, none, some, List,
  [], ◌∷◌, Dict, Option-cases, Result, ok, err, Result-cases, ok_injective, arith,
}
use synthia_mqtt.Prelude.Effects.{
  Act, Keeps, continue, done, raise, Keeps-bind, Keeps-then, Keeps-attempt, Keeps-if, Keeps-ask,
  Keeps-lift, Keeps-modify, Keeps-done, Keeps-raise,
}
use synthia_mqtt.Json.{Json, null, str, Fields, Builtins}
use synthia_mqtt.Registrations.{BrokerMode, embedded, external}
use synthia_mqtt.Config.{
  Exception, value_error, runtime_error, other_error, http_exception, Disk, Host, load,
}
use synthia_mqtt.Config.Desired.{write_blocked, update_desired}
use synthia_mqtt.Config.Settings.{save_overrides}
use synthia_mqtt.Config.Groups.{GroupMetadata, resolve_requested_optional_groups}
use synthia_mqtt.Topics.{normalize_topics}
use synthia_mqtt.Install.Status.{supported_only}
use synthia_mqtt.Config.Broker.{
  EmbeddedBrokerConfig, write_broker, write_embedded_broker_files, write_embedded_compose_override,
}
use synthia_mqtt.Config.Requests.{ExternalAccess, ExternalConnectionConfig, InstallApplyRequest}
use synthia_mqtt.Config.Store.{
  set_requested_optional_groups, set_selected_mode, selected_state, write_groups,
  apply_install_config, apply_embedded, apply_embedded_runtime,
}
use synthia_mqtt.Install.Apply.{
  set_mode, fail, failed_state, begun_state, ready_state, on_failure, on_blocked, check_signature,
  check_tested, persist, run_embedded, request_broker, reload_mqtt_service, finish, finish_embedded,
  run, apply_install,
}
use synthia_mqtt.Config.Session.{
  InstallSession, save_session, session_fields, session_from, complete_session,
  get_install_session_state, update_install_session_state,
}
use synthia_mqtt.Config.Session.Kept.{tidy, IsRead, session-IsRead, session_from-fields}

-- `T` says which signatures are trusted.
module _ ⦃python : Builtins⦄ (host : Host) (T : String → Type 0) where
  abbrev pub Trusted : InstallSession → Type 0
  Trusted s =
      s.external_test_ok ≡ true
      → (signature : String) × (s.external_test_signature ≡ str signature) × T signature

  abbrev pub IsTrusted : Disk → Type 0
  IsTrusted disk = (raw : Fields) → load disk.session ≡ ok raw → Trusted (session_from raw)

  pub get-Trusted :
      (disk : Disk) (s : InstallSession)
      → IsTrusted disk
      → get_install_session_state host disk ≡ ok s
      → Trusted s
  unfolding complete_session
  get-Trusted disk s t h =
      let r = session-IsRead host disk s h in subst Trusted (sym r.read) (t (r.raw) (r.session))

  pub save-IsTrusted :
      (s : InstallSession) (disk : Disk) → Trusted s → IsTrusted (save_session s disk)
  unfolding save_session load
  save-IsTrusted s disk t raw h =
      let same : session_fields s ≡ raw = ok_injective refl h in
      subst (λ x. Trusted (session_from x)) same (subst Trusted (sym (session_from-fields s)) t)

  updated :
      (f : InstallSession → InstallSession) (disk : Disk)
      → ((s : InstallSession) → Trusted s → Trusted (f s))
      → IsTrusted disk
      → (m : Result Exception InstallSession) → get_install_session_state host disk ≡ m
      → IsTrusted ((continue (m, disk) (λ state d. (ok (f state), save_session (f state) d))).1)
  updated f disk keep t (ok s) e = save-IsTrusted (f s) disk (keep s (get-Trusted disk s t e))
  updated f disk keep t (err x) e = t

  pub update-Keeps :
      (f : InstallSession → InstallSession)
      → ((s : InstallSession) → Trusted s → Trusted (f s))
      → Keeps IsTrusted (update_install_session_state host f)
  unfolding update_install_session_state
  update-Keeps f keep = record { kept = λ disk t. updated f disk keep t _ refl }

  desired_updated :
      (mutator : Fields → Fields) (disk : Disk)
      → IsTrusted disk
      → IsTrusted ((update_desired host mutator disk).1)
  unfolding update_desired done raise
  desired_updated mutator disk t = elim (Option-cases (write_blocked host)) [
    | inl e ↦ rw (e, update_desired) t
    | inr (reason, e) ↦ rw (e, update_desired) t
  ]

  update_desired-Keeps : (mutator : Fields → Fields) → Keeps IsTrusted (update_desired host mutator)
  update_desired-Keeps mutator = record { kept = desired_updated mutator }

  set_requested-Keeps :
      (requested : List String) (supported : Dict GroupMetadata)
      → Keeps IsTrusted (set_requested_optional_groups host requested supported)
  unfolding set_requested_optional_groups
  set_requested-Keeps requested supported =
      let resolved = resolve_requested_optional_groups (normalize_topics requested) supported in
      Keeps-then (Keeps-modify _ (λ d t. t)) (
        Keeps-bind (Keeps-ask _) (λ state.
          Keeps-bind (update_desired-Keeps (write_groups host (supported_only supported resolved)))
            (λ changed. update-Keeps _ (λ s t. t))))

  set_mode-Keeps :
      (mode : BrokerMode) (access : ExternalAccess) → Keeps IsTrusted (set_mode host mode access)
  unfolding set_mode set_selected_mode save_overrides selected_state
  set_mode-Keeps mode access =
      Keeps-bind
        (Keeps-if _ (Keeps-raise _) (
          Keeps-bind (Keeps-ask _)
            (λ overrides. Keeps-then (Keeps-modify _ (λ d t. t)) (update-Keeps _ (λ s t. t)))))
        (λ changed. Keeps-done _)

  fail-Keeps :
      {A : Type 0} (mode : BrokerMode) (code : ℕ) (reason : String)
      → Keeps {A = A} IsTrusted (fail host mode code reason)
  unfolding fail failed_state
  fail-Keeps mode code reason = Keeps-bind (update-Keeps _ (λ s t. t)) (λ s. Keeps-raise _)

  on_failure-Keeps :
      {A : Type 0} (mode : BrokerMode) (default : String) (e : Exception)
      → Keeps {A = A} IsTrusted (on_failure host mode default e)
  unfolding on_failure
  on_failure-Keeps mode default (value_error message) = fail-Keeps mode 400 message
  on_failure-Keeps mode default (runtime_error message) = fail-Keeps mode 500 default
  on_failure-Keeps mode default other_error = fail-Keeps mode 500 default
  on_failure-Keeps mode default (http_exception e) = fail-Keeps mode 500 default

  on_blocked-Keeps : (e : Exception) → Keeps IsTrusted (on_blocked host e)
  unfolding on_blocked
  on_blocked-Keeps (value_error message) = Keeps-raise _
  on_blocked-Keeps (runtime_error message) = fail-Keeps embedded 409 message
  on_blocked-Keeps other_error = Keeps-raise _
  on_blocked-Keeps (http_exception e) = Keeps-raise _

  config-Keeps :
      (request : InstallApplyRequest) → Keeps IsTrusted (apply_install_config host request)
  unfolding apply_install_config save_overrides
  config-Keeps request = Keeps-bind (Keeps-ask _) (λ overrides.
      Keeps-bind (Keeps-lift _) (λ connected.
        Keeps-then (Keeps-modify _ (λ d t. t))
          (Keeps-bind (update-Keeps _ (λ s t. t)) (λ state. Keeps-ask _))))

  broker_files_apart :
      (config : EmbeddedBrokerConfig) (disk : Disk)
      → (write_embedded_broker_files host config disk).1.session ≡ disk.session
  unfolding write_embedded_broker_files write_broker done raise
  broker_files_apart config disk = ground arith

  broker_files-Keeps :
      (config : EmbeddedBrokerConfig) → Keeps IsTrusted (write_embedded_broker_files host config)
  broker_files-Keeps config = record {
    kept = λ disk t raw h. t raw (ap load (sym (broker_files_apart config disk)) ∙ h);
  }

  runtime-Keeps :
      (mode : BrokerMode) (config : Option EmbeddedBrokerConfig)
      → Keeps IsTrusted (apply_embedded host mode config)
  unfolding apply_embedded write_embedded_compose_override
  runtime-Keeps embedded (some config) =
      Keeps-then (broker_files-Keeps config) (Keeps-then (Keeps-modify _ (λ d t. t)) (Keeps-done _))
  runtime-Keeps embedded none = Keeps-raise _
  runtime-Keeps external config = Keeps-raise _

  module _ (supported : Dict GroupMetadata) (start : Fields → Result Exception (Unit {0})) where
    finish-Keeps :
        (request : InstallApplyRequest) → Keeps IsTrusted (finish host supported start request)
    unfolding finish reload_mqtt_service ready_state
    finish-Keeps request =
        Keeps-then (Keeps-bind (Keeps-ask _) (λ config. Keeps-lift _))
          (Keeps-bind (update-Keeps _ (λ s t. t)) (λ state. Keeps-done _))

    finish_embedded-Keeps :
        (request : InstallApplyRequest) (result : Bool × Option String)
        → Keeps IsTrusted (finish_embedded host supported start request result)
    unfolding finish_embedded request_broker
    finish_embedded-Keeps request (true, reason) =
        Keeps-then
          (Keeps-bind (Keeps-ask _) (λ requested. Keeps-if _ (Keeps-done _) (
            Keeps-bind (Keeps-attempt (set_requested-Keeps _ supported) on_blocked-Keeps)
              (λ state. Keeps-done _))))
          (finish-Keeps request)
    finish_embedded-Keeps request (false, reason) = Keeps-done _

    run-Keeps :
        (mode : BrokerMode) (request : InstallApplyRequest)
        → Keeps IsTrusted (run host supported start mode request)
    unfolding run run_embedded apply_embedded_runtime
    run-Keeps external request = finish-Keeps request
    run-Keeps embedded request =
        Keeps-bind
          (Keeps-attempt (runtime-Keeps (request.mode) (request.embedded_config))
            (on_failure-Keeps embedded _))
          (finish_embedded-Keeps request)

    check_signature-Keeps :
        (c : Option ExternalConnectionConfig) (s : InstallSession)
        → Keeps IsTrusted (check_signature host c s)
    unfolding check_signature
    check_signature-Keeps none s = Keeps-raise _
    check_signature-Keeps (some c) s = Keeps-if _ (Keeps-raise _) (Keeps-done _)

    pub apply-Keeps :
        (request : InstallApplyRequest)
        → Keeps IsTrusted (apply_install host supported start request)
    unfolding apply_install begun_state check_tested persist
    apply-Keeps request = Keeps-bind (update-Keeps _ (λ s t. t)) (λ state.
        Keeps-then (Keeps-if _ (Keeps-bind (Keeps-ask _) (check_signature-Keeps _)) (Keeps-done _))
          (Keeps-bind (Keeps-attempt (config-Keeps request) (on_failure-Keeps (request.mode) _))
            (λ config. run-Keeps (request.mode) request)))
