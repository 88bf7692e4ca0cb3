-- ===== src/Config/Session.antt =====
-- The state of the installation that app/services/config_store.py keeps, and how a request reads
-- and writes it.
pub mod Kept
use synthia_mqtt.Prelude.{
  String, Bool, true, false, not, ◌&&◌, ◌||◌, Option, none, some, List, [], ◌∷◌, ◌==◌,
  if◌then◌else◌, contains, Result, ok, err, ◌>>=◌,
}
use synthia_mqtt.Prelude.Effects.{Act, continue}
use synthia_mqtt.Json.{
  ℤ, pos, leb_ℤ, Json, null, boolean, int, str, arr, obj, Fields, end, field, get, get_or, or_else,
  truthy, to_int, to_text, trimmed, Builtins,
}
use synthia_mqtt.Json.Objects.{texts, is_text, object_or_empty}
use synthia_mqtt.Config.{
  Exception, JsonFile, holds, Disk, Host, load, modes, access_modes, normalize_string_list,
}
use synthia_mqtt.Config.Desired.{read_desired}
use synthia_mqtt.Config.Settings.{get_install_state}

-- The keys of the state; those that the code does not convert hold any value.
pub record InstallSession : Type 0 where
  pub mode : Json
  pub setup_state : Json
  pub configured : Bool
  pub verified : Bool
  pub registered_to_core : Bool
  pub last_error : Json
  pub external_test_ok : Bool
  pub external_test_signature : Json
  pub external_direct_access_mode : Json
  pub optional_groups_requested : List String
  pub optional_groups_active : List String
  pub optional_groups_failed : List String

unfoldable pub default_install_session_state : InstallSession
default_install_session_state = record {
  mode = str "external";
  setup_state = str "unconfigured";
  configured = false;
  verified = false;
  registered_to_core = false;
  last_error = null;
  external_test_ok = false;
  external_test_signature = null;
  external_direct_access_mode = str "gateway_only";
  optional_groups_requested = [];
  optional_groups_active = [];
  optional_groups_failed = [];
}

-- The state as the dictionary that is saved and that other services read.
unfoldable pub session_fields : InstallSession → Fields
session_fields s = field "mode" s.mode (
    field "setup_state" s.setup_state (
      field "configured" (boolean s.configured) (
        field "verified" (boolean s.verified) (
          field "registered_to_core" (boolean s.registered_to_core) (
            field "last_error" s.last_error (
              field "external_test_ok" (boolean s.external_test_ok) (
                field "external_test_signature" s.external_test_signature (
                  field "external_direct_access_mode" s.external_direct_access_mode (
                    field "optional_groups_requested" (arr (texts s.optional_groups_requested)) (
                      field "optional_groups_active" (arr (texts s.optional_groups_active)) (
                        field "optional_groups_failed" (arr (texts s.optional_groups_failed))
                          end)))))))))))

-- `_save_install_session_state`
unfoldable pub save_session : InstallSession → Disk → Disk
unfolding session_fields
save_session s disk = record disk { session = holds (obj (session_fields s)) }

-- `xs or ys`
abbrev pub first_nonempty : List String → List String → List String
first_nonempty [] ys = ys
first_nonempty (x ∷ xs) ys = x ∷ xs

module _ ⦃python : Builtins⦄ where
  -- An object that is missing counts as an empty one.
  unfoldable pub get_desired_optional_groups : Disk → List String
  unfolding normalize_string_list read_desired
  get_desired_optional_groups disk =
      let desired = read_desired disk in
      let optional_groups =
        object_or_empty (get "optional_docker_groups" (object_or_empty (get "runtime" desired))) in
      first_nonempty (normalize_string_list (get "enabled_docker_groups" desired)) (
        first_nonempty (normalize_string_list (get "requested" optional_groups))
          (normalize_string_list (get "optional_groups_requested" desired)))

  -- The state that the saved dictionary `raw` stands for.
  unfoldable pub session_from : Fields → InstallSession
  unfolding default_install_session_state normalize_string_list
  session_from raw =
      let default = default_install_session_state in
      record {
        mode = get_or "mode" default.mode raw;
        setup_state = get_or "setup_state" default.setup_state raw;
        configured = truthy (get_or "configured" (boolean default.configured) raw);
        verified = truthy (get_or "verified" (boolean default.verified) raw);
        registered_to_core =
            truthy (get_or "registered_to_core" (boolean default.registered_to_core) raw);
        last_error = get_or "last_error" default.last_error raw;
        external_test_ok =
            truthy (get_or "external_test_ok" (boolean default.external_test_ok) raw);
        external_test_signature =
            get_or "external_test_signature" default.external_test_signature raw;
        external_direct_access_mode =
            get_or "external_direct_access_mode" default.external_direct_access_mode raw;
        optional_groups_requested = normalize_string_list (get "optional_groups_requested" raw);
        optional_groups_active = normalize_string_list (get "optional_groups_active" raw);
        optional_groups_failed = normalize_string_list (get "optional_groups_failed" raw);
      }

  -- `int(value or 0)`, or 0 where it raises, is positive.
  positive : Json → Bool
  unfolding to_int
  positive v = elim (to_int (or_else v (int (pos 0)))) [ none ↦ false | some n ↦ leb_ℤ (pos 1) n ]

  text_of : String → Fields → String
  unfolding trimmed
  text_of key data' = trimmed (or_else (get key data') (str ""))

  unfoldable pub is_configured : String → Fields → Bool
  unfolding positive text_of
  is_configured mode overrides =
      let external = object_or_empty (get "external" overrides) in
      let embedded = object_or_empty (get "embedded" overrides) in
      if mode == "external"
      then (not (text_of "host" external == "") && positive (get "port" external))
        || (not (text_of "mqtt_host" overrides == "") && positive (get "mqtt_port" overrides))
      else truthy (get "allow_anonymous" embedded)
        || (not (text_of "admin_user" embedded == "") && not (text_of "admin_pass" embedded == ""))

  -- `_reconstruct_install_session_from_overrides` and the update of the defaults with its result.
  unfoldable pub reconstruct_install_session : Fields → InstallSession → InstallSession
  unfolding is_configured text_of to_text
  reconstruct_install_session overrides state =
      let mode = text_of "mode" overrides in
      let given =
        to_text (or_else (get "external_direct_access_mode" overrides) (str "gateway_only")) in
      let access = if contains given access_modes then given else "gateway_only" in
      let named = record state { mode = str mode; external_direct_access_mode = str access } in
      if not (contains mode modes)
      then state
      else if not (is_configured mode overrides)
      then named
      else record named {
        setup_state = str "ready";
        configured = true;
        verified = true;
        last_error = null;
      }

  -- The branch on `isinstance(raw, dict)`.
  unfoldable pub read_session : Json → Fields → InstallSession
  unfolding session_from reconstruct_install_session
  read_session (obj raw) overrides = session_from raw
  read_session _ overrides = reconstruct_install_session overrides default_install_session_state

  -- What the configuration and the desired state decide.
  unfoldable pub complete_session : Json → List String → InstallSession → InstallSession
  complete_session mode desired_requested s = record s {
    mode = if is_text "external" mode || is_text "embedded" mode then mode else s.mode;
    optional_groups_requested = first_nonempty s.optional_groups_requested desired_requested;
  }

  -- `_load_install_session_state` gives an object, an empty one where there is no file.
  unfoldable pub get_install_session_state : Host → Disk → Result Exception InstallSession
  unfolding load read_session complete_session get_install_state get_desired_optional_groups
  get_install_session_state host disk = do
    raw ← load disk.session
    overrides ← load disk.overrides
    install_config ← get_install_state host disk
    ok (
        complete_session (get "mode" install_config) (get_desired_optional_groups disk)
          (read_session (obj raw) overrides))

  -- `update_install_session_state`, with the assignments to the given keys as a function.
  unfoldable pub update_install_session_state :
      Host → (InstallSession → InstallSession) → Act Disk Exception InstallSession
  unfolding get_install_session_state save_session
  update_install_session_state host updates disk =
      continue (get_install_session_state host disk, disk)
        (λ state disk'. (ok (updates state), save_session (updates state) disk'))
