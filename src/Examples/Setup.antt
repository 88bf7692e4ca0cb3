-- ===== src/Examples/Setup.antt =====
-- The theorems on the set-up, the configuration and the client, at concrete inputs.
use synthia_mqtt.Prelude.{
  zero, ◌≡◌, refl, ap, ok_injective, String, true, false, none, some, List, [], ◌∷◌, Dict, lookup,
  ok, err,
}
use synthia_mqtt.Prelude.Effects.{◌>>=◌, ◌>>◌, done, ask, attempt, lift, modify}
use synthia_mqtt.Prelude.Text.{join, is_space, strip}
use synthia_mqtt.Topics.{normalize_topics}
use synthia_mqtt.Json.Objects.{is_text, object_or_empty, texts}
use synthia_mqtt.Json.{truthy, get_or, pos, int, str, obj, Fields, end, field, get}
use synthia_mqtt.Http.{http_error}
use synthia_mqtt.Registrations.{external}
use synthia_mqtt.Publish.{Site, is_setup_complete}
use synthia_mqtt.Publish.Direct.{MqttPublishRequest, publish_message}
use synthia_mqtt.Config.{missing, holds, Disk, Host, int_of, load_json_object}
use synthia_mqtt.Config.Settings.{get_install_state}
use synthia_mqtt.Config.Session.{
  InstallSession, session_fields, default_install_session_state, get_install_session_state,
  update_install_session_state,
}
use synthia_mqtt.Config.Session.Kept.{read_back, get-update, session_without_file}
use synthia_mqtt.Config.Groups.{GroupMetadata, Walk, walk, resolve_requested_optional_groups}
use synthia_mqtt.Config.Groups.Needed.{IsResolution, resolve-IsResolution}
use synthia_mqtt.Config.Requests.{gateway_only, ExternalConnectionConfig, InstallApplyRequest}
use synthia_mqtt.Install.{answered, external_signature}
use synthia_mqtt.Install.Apply.{
  InstallApplyResponse, set_mode, apply_install, test_external, begun_state,
}
use synthia_mqtt.Install.Progress.{tested_apply-Reads}
use synthia_mqtt.Config.Store.{apply_install_config}
use synthia_mqtt.Install.Steps.{Step, test, Machine, perform_all}
use synthia_mqtt.Install.Trust.Guard.{apply-Tested}
use synthia_mqtt.Install.Trust.Runs.{Tested}
use synthia_mqtt.Install.Choices.{set_optional_groups}
use synthia_mqtt.Install.Blocked.{prepared, set_optional_groups_blocked}
use synthia_mqtt.Config.Desired.{mount_missing, write_blocked}
use synthia_mqtt.Config.{http_exception}
use synthia_mqtt.Install.Ready.{Reads, IsReady, apply-Reads, chosen, unfinished_publish}
use synthia_mqtt.Examples.{sample_python, sample_site, sample_world, sample_claims}

-- Two groups that depend on each other, and one that needs the first of them.
abbrev group : String → List String → GroupMetadata
group name depends_on = record {
  name = name;
  compose_file = "docker-compose.yml";
  setup_required = true;
  depends_on = depends_on;
  default_enabled = false;
}

abbrev sample_groups : Dict GroupMetadata
sample_groups =
    ("tools", group "Tools" ("observer" ∷ []))
    ∷ ("observer", group "Observer" ("tools" ∷ "unknown" ∷ []))
    ∷ ("panel", group "Panel" ("tools" ∷ []))
    ∷ []

resolved :
    resolve_requested_optional_groups ("panel" ∷ []) sample_groups
    ≡ "observer" ∷ "tools" ∷ "panel" ∷ []
unfolding resolve_requested_optional_groups lookup normalize_topics strip is_space
resolved = refl

resolve-IsResolution_example :
    (w : Walk) × (walk sample_groups ("panel" ∷ []) ≡ some w)
    × (resolve_requested_optional_groups ("panel" ∷ []) sample_groups ≡ w.ordered)
    × IsResolution sample_groups
        ("panel" ∷ [])
        (resolve_requested_optional_groups ("panel" ∷ []) sample_groups)
resolve-IsResolution_example = resolve-IsResolution sample_groups ("panel" ∷ [])

abbrev pub sample_host : Host
sample_host = record {
  environment = λ name. none;
  in_container = false;
  state_dir = false;
  workspace_desired = false;
  workspace_runtime = false;
  desired_writable = false;
  orchestrator_compose = none;
  revision = "1";
  broker_dir = "/app/runtime/broker";
  crypt = λ password. some "hash";
}

-- A machine on which nothing was set up.
abbrev pub sample_disk : Disk
sample_disk = record {
  overrides = missing;
  session = missing;
  desired = missing;
  runtime = missing;
  assets = [];
  broker = record { mosquitto_conf = none; pwfile = none; aclfile = none };
  compose_override = none;
}

abbrev sample_broker : ExternalConnectionConfig
sample_broker = record { host = "broker"; port = 1; tls = false; username = none; password = none }

abbrev sample_apply : InstallApplyRequest
sample_apply = record {
  mode = external;
  external_config = some sample_broker;
  embedded_config = none;
  base_topic = none;
  ha_discovery_prefix = none;
  external_direct_access_mode = gateway_only;
  qos_default = none;
  allow_unvalidated = false;
}

abbrev sample_machine : Machine
sample_machine = record {
  host = sample_host;
  name = "Synthia MQTT";
  version = "1";
  supported = sample_groups;
  start = λ config. ok tt;
}

abbrev sample_steps : List Step
sample_steps = test (answered zero none) sample_broker ∷ []

apply-Tested_example :
    (c : ExternalConnectionConfig) × (some sample_broker ≡ some c)
    × Tested sample_steps (external_signature c)
unfolding apply_install perform_all get truthy int_of sample_python get_or is_text ◌>>=◌ ◌>>◌ done
    ask attempt lift modify join is_space
apply-Tested_example =
    apply-Tested sample_machine sample_steps (record { disk = sample_disk; posts = [] })
      sample_apply refl refl refl refl

-- A machine whose configuration is there while the state of the set-up is gone.
abbrev restored_disk : Disk
restored_disk = record sample_disk {
  overrides = holds (
      obj (
        field "mode" (str "external")
          (field "mqtt_host" (str "broker") (field "mqtt_port" (int (pos 1883)) end))));
}

abbrev restored_state : InstallSession
restored_state = default_install_session_state

session_without_file_example :
    (restored_state.setup_state ≡ str "unconfigured")
    × (restored_state.configured ≡ false)
    × (restored_state.external_test_ok ≡ false)
    × (is_setup_complete (session_fields restored_state) ≡ false)
unfolding get_install_session_state get truthy int_of sample_python get_or is_text load_json_object
    object_or_empty
session_without_file_example =
    session_without_file sample_host restored_disk restored_state refl refl

-- A container without the mount of the state.
abbrev unmounted_host : Host
unmounted_host = record sample_host { in_container = true }

set_optional_groups_blocked_example :
    set_optional_groups unmounted_host sample_groups ("panel" ∷ []) restored_disk ≡ (
      err (http_exception (http_error 409 mount_missing)),
      prepared unmounted_host sample_groups ("panel" ∷ []) restored_disk,
    )
unfolding int_of sample_python get_or get is_text truthy get_install_session_state load_json_object
    object_or_empty write_blocked strip
set_optional_groups_blocked_example =
    set_optional_groups_blocked unmounted_host sample_groups ("panel" ∷ []) restored_disk
      restored_state mount_missing refl refl

mark : InstallSession → InstallSession
mark s = record s { registered_to_core = true }

abbrev marked_disk : Disk
marked_disk = (update_install_session_state sample_host mark sample_disk).1

abbrev marked_state : InstallSession
marked_state = record default_install_session_state { registered_to_core = true }

get-update_example :
    (config : Fields) × (get_install_state sample_host sample_disk ≡ ok config)
    × (get_install_session_state sample_host marked_disk
        ≡ ok (read_back sample_host sample_disk config marked_state))
unfolding update_install_session_state mark get truthy int_of sample_python get_or is_text
    load_json_object object_or_empty
get-update_example = get-update sample_host mark sample_disk refl

abbrev unchecked_apply : InstallApplyRequest
unchecked_apply = record sample_apply { allow_unvalidated = true }

abbrev applied_disk : Disk
applied_disk =
    (apply_install sample_host sample_groups sample_machine.start unchecked_apply sample_disk).1

apply-Reads_example : Reads sample_host applied_disk (IsReady sample_host)
unfolding apply_install get truthy int_of sample_python get_or is_text ◌>>=◌ ◌>>◌ done ask attempt
    lift modify
apply-Reads_example =
    apply-Reads sample_host sample_groups sample_machine.start unchecked_apply sample_disk
      applied_disk refl refl

abbrev sample_publish : MqttPublishRequest
sample_publish = record {
  topic = "synthia/addons/weather/note";
  payload = str "21";
  retain = true;
  qos = 1;
}

abbrev chosen_disk : Disk
chosen_disk = (set_mode sample_host external gateway_only sample_disk).1

abbrev chosen_state : InstallSession
chosen_state = record default_install_session_state { setup_state = str "configuring" }

abbrev waiting_site : Site
waiting_site = record sample_site { install_state = some (session_fields chosen_state) }

unfinished_publish_example :
    ((publish_message waiting_site sample_publish sample_claims sample_world).0
      ≡ err (http_error 409 "Setup is not complete. Finish setup before using MQTT publish APIs."))
    × ((publish_message waiting_site sample_publish sample_claims sample_world).1.calls
        ≡ sample_world.calls)
unfolding set_mode get truthy int_of sample_python get_or is_text ◌>>=◌ ◌>>◌ done ask modify
    load_json_object object_or_empty normalize_topics texts
unfinished_publish_example =
    unfinished_publish sample_host sample_disk chosen_disk waiting_site sample_publish sample_claims
      sample_world (chosen external gateway_only refl)
      (λ s e. ap (λ t. some (session_fields t)) (ok_injective refl e))

abbrev tested_disk : Disk
tested_disk = (test_external sample_host (answered zero none) sample_broker sample_disk).1

abbrev begun_disk : Disk
begun_disk = (update_install_session_state sample_host (begun_state sample_apply) tested_disk).1

abbrev written_disk : Disk
written_disk = (apply_install_config sample_host sample_apply begun_disk).1

tested_apply-Reads_example :
    (applied : InstallApplyResponse) × (final : Disk) × (apply_install sample_host sample_groups
        sample_machine.start sample_apply tested_disk
      ≡ (ok applied, final))
    × (applied.ok ≡ true)
    × Reads sample_host final (IsReady sample_host)
unfolding test_external apply_install_config ◌>>=◌ ◌>>◌ get truthy int_of sample_python get_or
    is_text done ask attempt lift modify load_json_object object_or_empty
    synthia_mqtt.Install.diagnostic_code_from_reason begun_state
tested_apply-Reads_example =
    tested_apply-Reads sample_host sample_groups sample_machine.start (answered zero none)
      sample_broker sample_apply sample_disk tested_disk begun_disk written_disk
      (record { ok = true; diagnostic_code = "ok"; reason = none }) refl refl refl refl refl refl
      refl
