-- ===== src/Config/Store.antt =====
-- The operations of app/services/config_store.py that change its files.
use synthia_mqtt.Prelude.{
  String, Bool, true, false, not, Option, none, some, List, [], ◌∷◌, ◌==◌, if◌then◌else◌, contains,
  keep, is_some, Dict, lookup, insert,
}
use synthia_mqtt.Prelude.Text.{strip}
use synthia_mqtt.Prelude.Effects.{Act, done, raise, lift, ask, modify, ◌>>=◌, ◌>>◌}
use synthia_mqtt.Json.{
  null, boolean, str, arr, obj, Fields, end, field, get, get_or, truthy, Builtins,
}
use synthia_mqtt.Json.Objects.{put, texts, object_or_empty}
use synthia_mqtt.Registrations.{BrokerMode, embedded}
use synthia_mqtt.Topics.{normalize_topics}
use synthia_mqtt.Config.{Exception, value_error, Disk, Host, load, modes, access_modes}
use synthia_mqtt.Config.Desired.{update_desired}
use synthia_mqtt.Config.Settings.{
  AddonConfigUpdate, merge_update, save_overrides, get_effective_config,
}
use synthia_mqtt.Config.Session.{
  InstallSession, default_install_session_state, save_session, get_install_session_state,
  update_install_session_state,
}
use synthia_mqtt.Config.Groups.{GroupMetadata, resolve_requested_optional_groups}
use synthia_mqtt.Config.Broker.{
  EmbeddedBrokerConfig, write_embedded_broker_files, write_embedded_compose_override,
  resolve_embedded_addon_service_name,
}
use synthia_mqtt.Config.Requests.{
  InstallApplyRequest, mode_text, connection_overrides, request_overrides, common_overrides,
}

module _ ⦃python : Builtins⦄ (host : Host) where
  -- The mutator of `set_core_base_url`.
  unfoldable pub write_core_url : String → Fields → Fields
  unfolding put
  write_core_url url payload =
      let config = object_or_empty (get "config" payload) in
      let env = object_or_empty (get "env" config) in
      put "desired_revision" (str host.revision)
        (put "config" (obj (put "env" (obj (put "CORE_URL" (str url) env)) config)) payload)

  unfoldable pub set_core_base_url : String → Act Disk Exception String
  unfolding write_core_url load save_overrides update_desired
  set_core_base_url core_base_url =
      let normalized = strip core_base_url in
      if normalized == "" then raise (value_error "core_base_url is required") else do
        overrides ← ask (λ (disk : Disk). load disk.overrides)
        modify (save_overrides (put "core_base_url" (str normalized) overrides))
        updated ← update_desired host (write_core_url normalized)
        done normalized

  unfoldable pub update_config : AddonConfigUpdate → Act Disk Exception Fields
  unfolding load save_overrides merge_update get_effective_config
  update_config config_update = do
    overrides ← ask (λ (disk : Disk). load disk.overrides)
    modify (save_overrides (merge_update config_update overrides))
    ask (get_effective_config false host)

  -- `group.json` of a requested group.
  unfoldable pub group_json : Dict GroupMetadata → String → Fields
  group_json supported group_id = elim (lookup group_id supported) [
    | none ↦ field "id" (str group_id) (
        field "name" (str group_id)
          (field "compose_file" (str "") (field "setup_required" (boolean false) end)))
    | some metadata ↦ field "id" (str group_id) (
        field "name" (str metadata.name) (
          field "compose_file" (str metadata.compose_file)
            (field "setup_required" (boolean metadata.setup_required) end)))
  ]

  write_assets : Dict GroupMetadata → List String → Dict Fields → Dict Fields
  unfolding group_json
  write_assets supported [] assets = assets
  write_assets supported (group_id ∷ rest) assets =
      write_assets supported rest (insert group_id (group_json supported group_id) assets)

  -- `_prepare_optional_group_assets`; the directories of other groups are removed.
  unfoldable pub prepare_optional_group_assets :
      List String → Dict GroupMetadata → Dict Fields → Dict Fields
  unfolding write_assets
  prepare_optional_group_assets requested supported assets =
      keep (λ (entry : String × Fields). contains entry.0 requested)
        (write_assets supported requested assets)

  -- The mutator of `_write_desired_optional_groups`.
  unfoldable pub write_groups : List String → Fields → Fields
  unfolding put
  write_groups requested payload =
      let runtime = object_or_empty (get "runtime" payload) in
      let optional_groups = object_or_empty (get "optional_docker_groups" runtime) in
      let groups = arr (texts requested) in
      put "force_rebuild" (boolean (truthy (get_or "force_rebuild" (boolean false) payload))) (
        put "desired_revision" (str host.revision) (
          put "optional_groups_requested" groups (
            put "enabled_docker_groups" groups (
              put "runtime"
                (obj (
                  put "optional_docker_groups" (obj (put "requested" groups optional_groups))
                    runtime))
                payload))))

  unfoldable pub set_requested_optional_groups :
      List String → Dict GroupMetadata → Act Disk Exception InstallSession
  unfolding prepare_optional_group_assets write_groups update_desired get_install_session_state
      update_install_session_state resolve_requested_optional_groups
  set_requested_optional_groups requested_group_ids supported =
      let resolved =
        resolve_requested_optional_groups (normalize_topics requested_group_ids) supported in
      let requested = keep (λ group_id. is_some (lookup group_id supported)) resolved in
      do
        modify (λ (disk : Disk). record disk {
          assets = prepare_optional_group_assets requested supported disk.assets;
        })
        state ← ask (get_install_session_state host)
        let active = keep (λ group_id. contains group_id requested) state.optional_groups_active
        let failed = keep (λ group_id. contains group_id requested) state.optional_groups_failed
        updated ← update_desired host (write_groups requested)
        update_install_session_state host (λ (s : InstallSession). record s {
          optional_groups_requested = requested;
          optional_groups_active = active;
          optional_groups_failed = failed;
        })

  unfoldable pub selected_overrides : String → String → Fields → Fields
  unfolding put
  selected_overrides mode access overrides =
      put "external_direct_access_mode" (str access) (put "mode" (str mode) overrides)

  unfoldable pub selected_state : String → String → InstallSession → InstallSession
  selected_state mode access s = record s {
    mode = str mode;
    external_direct_access_mode = str access;
    setup_state = str "configuring";
    configured = false;
    verified = false;
    last_error = null;
  }

  abbrev pub known_access : String → String
  known_access given = if contains given access_modes then given else "gateway_only"

  unfoldable pub set_selected_mode : String → String → Act Disk Exception InstallSession
  unfolding load save_overrides update_install_session_state selected_overrides selected_state
  set_selected_mode mode given_access =
      if not (contains mode modes) then raise (value_error "Unsupported install mode") else do
        overrides ← ask (λ (disk : Disk). load disk.overrides)
        modify (save_overrides (selected_overrides mode (known_access given_access) overrides))
        update_install_session_state host (selected_state mode (known_access given_access))

  unfoldable pub reset_install_session_state : String → Act Disk Exception InstallSession
  unfolding default_install_session_state save_session
  reset_install_session_state mode disk =
      let default = default_install_session_state in
      let state = if contains mode modes then record default { mode = str mode } else default in
      done state (save_session state disk)

  unfoldable pub configured_state : InstallApplyRequest → InstallSession → InstallSession
  unfolding mode_text
  configured_state request s = record s {
    mode = str (mode_text request.mode);
    configured = true;
    last_error = null;
  }

  -- The mode of a request is one of the two, so the test on it does not fail.
  unfoldable pub apply_install_config : InstallApplyRequest → Act Disk Exception Fields
  unfolding load save_overrides request_overrides connection_overrides common_overrides
      update_install_session_state get_effective_config configured_state
  apply_install_config request = do
    overrides ← ask (λ (disk : Disk). load disk.overrides)
    connected ← lift (
        connection_overrides host.environment request request.mode
          (request_overrides request overrides))
    modify (save_overrides (common_overrides request connected))
    state ← update_install_session_state host (configured_state request)
    ask (get_effective_config false host)

  -- The end of `apply_embedded_runtime`, which is for an embedded configuration only.
  unfoldable pub apply_embedded :
      BrokerMode → Option EmbeddedBrokerConfig → Act Disk Exception (Bool × Option String)
  unfolding write_embedded_broker_files write_embedded_compose_override
  apply_embedded embedded (some config) = do
    write_embedded_broker_files host config
    modify (
        write_embedded_compose_override host config.port (resolve_embedded_addon_service_name host))
    done (true, none)
  apply_embedded _ _ = raise (value_error "embedded config is required when mode is embedded")

  unfoldable pub apply_embedded_runtime :
      InstallApplyRequest → Act Disk Exception (Bool × Option String)
  unfolding apply_embedded
  apply_embedded_runtime request = apply_embedded request.mode request.embedded_config
