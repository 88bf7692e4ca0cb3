-- ===== src/Install/Trust/Runs.antt =====
-- Runs of the endpoints that change the set-up, and what they keep.
use synthia_mqtt.Prelude.{◌≡◌, String, true, List, [], ◌∷◌, Dict, arith}
use synthia_mqtt.Prelude.Text.{strip}
use synthia_mqtt.Prelude.Effects.{
  Act, done, Keeps, Keeps-bind, Keeps-then, Keeps-attempt, Keeps-if, Keeps-ask, Keeps-lift,
  Keeps-modify, Keeps-done, Keeps-raise,
}
use synthia_mqtt.Json.{Builtins}
use synthia_mqtt.Config.{
  Exception, value_error, runtime_error, other_error, http_exception, Disk, Host,
}
use synthia_mqtt.Config.Settings.{AddonConfigUpdate, save_overrides}
use synthia_mqtt.Config.Session.{default_install_session_state}
use synthia_mqtt.Config.Groups.{GroupMetadata}
use synthia_mqtt.Config.Requests.{ExternalConnectionConfig}
use synthia_mqtt.Config.Store.{
  update_config, set_core_base_url, write_core_url, reset_install_session_state,
}
use synthia_mqtt.Install.{Attempt, external_signature, test_external_connection}
use synthia_mqtt.Install.Apply.{test_external, tested_state, reset_install_state}
use synthia_mqtt.Install.Choices.{set_optional_groups, on_refusal}
use synthia_mqtt.Install.Registry.{
  Registrar, CoreRegistryRequest, PostResult, Post, Addon, Office, on_disk, on_posts, on_url_error,
  post_core_base_url, register_outcome, addon_of, registered_state, register_core,
}
use synthia_mqtt.Install.Steps.{
  Step, mode, test, apply, groups, core_url, register, config, reset, Machine, after, perform,
  perform_all,
}
use synthia_mqtt.Install.Trust.{
  IsTrusted, save-IsTrusted, update-Keeps, update_desired-Keeps, set_requested-Keeps,
  set_mode-Keeps, apply-Keeps,
}

module _ ⦃python : Builtins⦄ where
  -- A run holds a test of a configuration with this signature, and it passed.
  pub data Tested : List Step → String → Type 0 where
    here :
        {attempt : Attempt} {c : ExternalConnectionConfig} {rest : List Step}
        → (test_external_connection c attempt).0 ≡ true
        → Tested (test attempt c ∷ rest) (external_signature c)
    there :
        {step : Step} {rest : List Step} {signature : String}
        → Tested rest signature
        → Tested (step ∷ rest) signature

  module _ (host : Host) (T : String → Type 0) where
    refusal-Keeps :
        (supported : Dict GroupMetadata) (e : Exception)
        → Keeps (IsTrusted host T) (on_refusal host supported e)
    unfolding on_refusal
    refusal-Keeps supported (value_error message) = Keeps-raise _
    refusal-Keeps supported (runtime_error message) = Keeps-raise _
    refusal-Keeps supported other_error = Keeps-raise _
    refusal-Keeps supported (http_exception e) = Keeps-raise _

    groups-Keeps :
        (supported : Dict GroupMetadata) (requested : List String)
        → Keeps (IsTrusted host T) (set_optional_groups host supported requested)
    unfolding set_optional_groups
    groups-Keeps supported requested =
        Keeps-bind
          (Keeps-attempt (set_requested-Keeps host T requested supported) (refusal-Keeps supported))
          (λ changed. Keeps-ask _)

    url_error-Keeps :
        {A : Type 0} (e : Exception) → Keeps {A = A} (IsTrusted host T) (on_url_error host e)
    unfolding on_url_error
    url_error-Keeps (value_error message) = Keeps-raise _
    url_error-Keeps (runtime_error message) = Keeps-raise _
    url_error-Keeps other_error = Keeps-raise _
    url_error-Keeps (http_exception e) = Keeps-raise _

    core_url-Keeps : (url : String) → Keeps (IsTrusted host T) (set_core_base_url host url)
    unfolding set_core_base_url save_overrides
    core_url-Keeps url = Keeps-if _ (Keeps-raise _) (
        Keeps-bind (Keeps-ask _) (λ overrides. Keeps-then (Keeps-modify _ (λ d t. t)) (
          Keeps-bind (update_desired-Keeps host T (write_core_url host (strip url)))
            (λ updated. Keeps-done _))))

    url-Keeps : (url : String) → Keeps (IsTrusted host T) (post_core_base_url host url)
    unfolding post_core_base_url
    url-Keeps url = Keeps-if _ (Keeps-raise _) (Keeps-attempt (core_url-Keeps _) url_error-Keeps)

    config-Keeps :
        (update : AddonConfigUpdate) → Keeps (IsTrusted host T) (update_config host update)
    unfolding update_config save_overrides
    config-Keeps update =
        Keeps-bind (Keeps-ask _) (λ overrides. Keeps-then (Keeps-modify _ (λ d t. t)) (Keeps-ask _))

    reset-Keeps : Keeps (IsTrusted host T) (reset_install_state host)
    unfolding reset_install_state reset_install_session_state default_install_session_state done
    reset-Keeps =
        Keeps-bind (record { kept = λ disk t. save-IsTrusted host T _ disk (λ e. ground arith) })
          (λ state. Keeps-done _)

    test-Keeps :
        (attempt : Attempt) (c : ExternalConnectionConfig)
        → ((test_external_connection c attempt).0 ≡ true → T (external_signature c))
        → Keeps (IsTrusted host T) (test_external host attempt c)
    unfolding test_external tested_state
    test-Keeps attempt c trusted =
        Keeps-bind (update-Keeps host T _ (λ s t e. (external_signature c, rw e, trusted e)))
          (λ state. Keeps-done _)

    abbrev IsTrustedOffice : Office → Type 0
    IsTrustedOffice office = IsTrusted host T office.disk

    disk-Keeps :
        {A : Type 0} {m : Act Disk Exception A}
        → Keeps (IsTrusted host T) m
        → Keeps IsTrustedOffice (on_disk m)
    unfolding on_disk
    disk-Keeps h = record { kept = λ office t. h.kept office.disk t }

    posts-Keeps : (f : List Post → PostResult × List Post) → Keeps IsTrustedOffice (on_posts f)
    unfolding on_posts
    posts-Keeps f = record { kept = λ office t. t }

    outcome-Keeps :
        (core : Registrar) (addon : Addon) (r : PostResult)
        → Keeps IsTrustedOffice (register_outcome host core addon r)
    unfolding register_outcome registered_state
    outcome-Keeps core addon r =
        Keeps-if _
          (Keeps-bind (posts-Keeps _) (λ verified.
            Keeps-bind (disk-Keeps (update-Keeps host T _ (λ s t. t))) (λ state. Keeps-done _)))
          (Keeps-bind (disk-Keeps (update-Keeps host T _ (λ s t. t))) (λ state. Keeps-raise _))

    register-Keeps :
        (core : Registrar) (name version : String) (request : CoreRegistryRequest)
        → Keeps IsTrustedOffice (register_core host core name version request)
    unfolding register_core
    register-Keeps core name version request = Keeps-bind (disk-Keeps (Keeps-ask _)) (λ address.
        Keeps-then (Keeps-lift _) (
          Keeps-then (Keeps-lift _) (
            Keeps-bind (posts-Keeps _)
              (λ r. outcome-Keeps core (addon_of host name version request address) r))))

  module _ (machine : Machine) (T : String → Type 0) where
    after-Trusted :
        {A : Type 0} (m : Act Disk Exception A) (office : Office)
        → Keeps (IsTrusted machine.host T) m
        → IsTrustedOffice machine.host T office
        → IsTrustedOffice machine.host T (after machine m office)
    unfolding after
    after-Trusted m office h t = (disk-Keeps machine.host T {m = m} h).kept office t

    perform-Trusted :
        (step : Step) (rest : List Step) (office : Office)
        → ((signature : String) → Tested (step ∷ rest) signature → T signature)
        → IsTrustedOffice machine.host T office
        → IsTrustedOffice machine.host T (perform machine step office)
    unfolding perform
    perform-Trusted (mode m access) rest office tested t =
        after-Trusted _ office (set_mode-Keeps machine.host T m access) t
    perform-Trusted (test attempt c) rest office tested t =
        after-Trusted _ office
          (test-Keeps machine.host T attempt c (λ passed. tested _ (here passed))) t
    perform-Trusted (apply request) rest office tested t =
        after-Trusted _ office (apply-Keeps machine.host T machine.supported machine.start request)
          t
    perform-Trusted (groups requested) rest office tested t =
        after-Trusted _ office (groups-Keeps machine.host T machine.supported requested) t
    perform-Trusted (core_url url) rest office tested t =
        after-Trusted _ office (url-Keeps machine.host T url) t
    perform-Trusted (register core request) rest office tested t =
        (register-Keeps machine.host T core machine.name machine.version request).kept office t
    perform-Trusted (config update) rest office tested t =
        after-Trusted _ office (config-Keeps machine.host T update) t
    perform-Trusted reset rest office tested t =
        after-Trusted _ office (reset-Keeps machine.host T) t

    pub perform_all-Trusted :
        (steps : List Step) (office : Office)
        → ((signature : String) → Tested steps signature → T signature)
        → IsTrustedOffice machine.host T office
        → IsTrustedOffice machine.host T (perform_all machine steps office)
    unfolding perform_all
    perform_all-Trusted [] office tested t = t
    perform_all-Trusted (step ∷ rest) office tested t =
        perform_all-Trusted rest (perform machine step office)
          (λ signature h. tested signature (there h)) (perform-Trusted step rest office tested t)
