-- ===== src/Install/Steps.antt =====
-- A run of the endpoints that change the files of the addon, in any order.
use synthia_mqtt.Prelude.{String, List, [], ◌∷◌, Dict, Result}
use synthia_mqtt.Prelude.Effects.{Act}
use synthia_mqtt.Json.{Fields, Builtins}
use synthia_mqtt.Registrations.{BrokerMode}
use synthia_mqtt.Config.{Exception, Disk, Host}
use synthia_mqtt.Config.Settings.{AddonConfigUpdate}
use synthia_mqtt.Config.Groups.{GroupMetadata}
use synthia_mqtt.Config.Requests.{ExternalAccess, ExternalConnectionConfig, InstallApplyRequest}
use synthia_mqtt.Config.Store.{update_config}
use synthia_mqtt.Install.{Attempt}
use synthia_mqtt.Install.Apply.{set_mode, test_external, apply_install, reset_install_state}
use synthia_mqtt.Install.Choices.{set_optional_groups}
use synthia_mqtt.Install.Registry.{
  Registrar, Office, CoreRegistryRequest, on_disk, post_core_base_url, register_core,
}

-- A request to an endpoint, with what the broker or the core does to it.
pub data Step : Type 0 where
  mode : BrokerMode → ExternalAccess → Step
  test : Attempt → ExternalConnectionConfig → Step
  apply : InstallApplyRequest → Step
  groups : List String → Step
  core_url : String → Step
  register : Registrar → CoreRegistryRequest → Step
  config : AddonConfigUpdate → Step
  reset : Step

-- The addon: the machine, its manifest, and what the client library does with a configuration.
pub record Machine : Type 0 where
  pub host : Host
  pub name : String
  pub version : String
  pub supported : Dict GroupMetadata
  pub start : Fields → Result Exception (Unit {0})

module _ ⦃python : Builtins⦄ (machine : Machine) where
  unfoldable pub after : {A : Type 0} → Act Disk Exception A → Office → Office
  unfolding on_disk
  after m office = (on_disk m office).1

  -- The response is dropped; what an endpoint wrote before it failed stays.
  unfoldable pub perform : Step → Office → Office
  unfolding after set_mode test_external apply_install set_optional_groups post_core_base_url
      register_core update_config reset_install_state
  perform (mode m access) = after (set_mode machine.host m access)
  perform (test attempt c) = after (test_external machine.host attempt c)
  perform (apply request) =
      after (apply_install machine.host machine.supported machine.start request)
  perform (groups requested) = after (set_optional_groups machine.host machine.supported requested)
  perform (core_url url) = after (post_core_base_url machine.host url)
  perform (register core request) =
      λ office. (register_core machine.host core machine.name machine.version request office).1
  perform (config update) = after (update_config machine.host update)
  perform reset = after (reset_install_state machine.host)

  unfoldable pub perform_all : List Step → Office → Office
  unfolding perform
  perform_all [] office = office
  perform_all (step ∷ rest) office = perform_all rest (perform step office)
