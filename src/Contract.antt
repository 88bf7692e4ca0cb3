-- ===== src/Contract.antt =====
-- app/api/addon_contract.py: what the addon tells of itself and the endpoints of its configuration.
-- (`get_health` of that file is in the module Health.)
pub mod Update
use synthia_mqtt.Prelude.{
  String, Bool, true, not, Option, none, some, List, [], ◌∷◌, Dict, insert, if◌then◌else◌, Result,
  ok, err,
}
use synthia_mqtt.Prelude.Effects.{Act, attempt, lift, ask, ◌>>=◌, ◌>>◌}
use synthia_mqtt.Json.{
  Json, str, arr, obj, Items, nil, cons, Fields, get, get?, get_or, to_text, item_texts, Builtins,
}
use synthia_mqtt.Config.{Exception, other_error, Disk, Host}
use synthia_mqtt.Config.Settings.{AddonConfigUpdate, get_effective_config}
use synthia_mqtt.Config.Groups.{GroupMetadata}
use synthia_mqtt.Config.Store.{update_config}
use synthia_mqtt.Install.Apply.{http, reload_mqtt_service}

-- `_load_manifest_metadata`
pub record ManifestMetadata : Type 0 where
  pub addon_id : String
  pub name : String
  pub version : String
  pub description : String

-- `OptionalDockerGroup.model_validate`: the id and the metadata of a valid group.
abbrev pub Validator : Type 0
Validator = Fields → Option (String × GroupMetadata)

unfoldable pub valid_groups : Validator → Items → List (String × GroupMetadata)
valid_groups validate nil = []
valid_groups validate (cons (obj raw) rest) = elim (validate raw) [
  | none ↦ valid_groups validate rest
  | some group ↦ group ∷ valid_groups validate rest
]
valid_groups validate (cons _ rest) = valid_groups validate rest

-- `_load_optional_docker_groups`
unfoldable pub load_optional_docker_groups : Validator → Fields → List (String × GroupMetadata)
unfolding valid_groups
load_optional_docker_groups validate manifest = elim (get "docker_groups" manifest) [
  | arr raw_groups ↦ valid_groups validate raw_groups
  | _ ↦ elim (get "optional_docker_groups" manifest) [
    | arr raw_groups ↦ valid_groups validate raw_groups
    | _ ↦ []
  ]
]

-- `supported_optional_group_map` of app/api/install_workflow.py: a later group of an id replaces
-- an earlier one.
unfoldable pub supported_groups :
    List (String × GroupMetadata) → Dict GroupMetadata → Dict GroupMetadata
supported_groups [] groups = groups
supported_groups ((id, metadata) ∷ rest) groups = supported_groups rest (insert id metadata groups)

module _ ⦃python : Builtins⦄ where
  -- `str(manifest[key])`
  required_text : String → Fields → Result Exception String
  unfolding to_text
  required_text key manifest = elim (get? key manifest) [
    | none ↦ err other_error
    | some value ↦ ok (to_text value)
  ]

  unfoldable pub load_manifest_metadata : Fields → Result Exception ManifestMetadata
  unfolding required_text
  load_manifest_metadata manifest = elim (required_text "id" manifest) [
    | err e ↦ err e
    | ok addon_id ↦ elim (required_text "version" manifest) [
      | err e ↦ err e
      | ok version ↦ ok (record {
        addon_id = addon_id;
        name = to_text (get_or "name" (str "Synthia MQTT") manifest);
        version = version;
        description =
            to_text
              (get_or "description" (str "Distributed MQTT and HA discovery service") manifest);
      })
    ]
  ]

  -- The endpoints of the configuration. `accepts` tells whether the types of a configuration are
  -- those of `AddonConfigEffective`, and `start` is what the client library does with it.
  module _ (host : Host) (accepts : Fields → Bool)
      (start : Fields → Result Exception (Unit {0})) where
    unfoldable pub effective_response : Fields → Result Exception Fields
    effective_response config = if accepts config then ok config else err other_error

    unfoldable pub show_config : Act Disk Exception Fields
    unfolding effective_response
    show_config = do config ← ask (get_effective_config true host); lift (effective_response config)

    unfoldable pub apply_update : AddonConfigUpdate → Act Disk Exception Fields
    unfolding show_config
    apply_update config_update = do
      config ← update_config host config_update
      reload_mqtt_service host start
      show_config

    unfoldable pub post_config : AddonConfigUpdate → Act Disk Exception Fields
    unfolding apply_update
    post_config config_update =
        attempt (apply_update config_update) (λ e. http 500 "Failed to persist config")
