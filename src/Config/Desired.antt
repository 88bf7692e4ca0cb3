-- ===== src/Config/Desired.antt =====
-- app/services/mounted_state_store.py: the desired state that the supervisor reads, the runtime
-- state that it writes, and where both are.
use synthia_mqtt.Prelude.{String, not, ◌&&◌, Option, none, some, ◌==◌, if◌then◌else◌}
use synthia_mqtt.Prelude.Text.{strip, starts_with}
use synthia_mqtt.Prelude.Effects.{Act, done, raise}
use synthia_mqtt.Json.{obj, Fields, getenv}
use synthia_mqtt.Config.{Exception, runtime_error, holds, Disk, Host, load_json_object}

-- The path and where it comes from. Paths of the workspace stand without its directory.
unfoldable pub resolve_desired_path : Host → String × String
resolve_desired_path host =
    let configured = strip (getenv host.environment "SYNTHIA_DESIRED_STATE_PATH" "") in
    if not (configured == "")
    then (configured, "env:SYNTHIA_DESIRED_STATE_PATH")
    else if host.state_dir
    then ("/state/desired.json", "mounted:/state/desired.json")
    else if host.workspace_desired
    then (
      "SynthiaAddons/services/mqtt/desired.json",
      "workspace:SynthiaAddons/services/<addon_id>/desired.json",
    )
    else ("runtime/desired.json", "fallback:runtime/desired.json")

unfoldable pub resolve_runtime_path : Host → String × String
resolve_runtime_path host =
    let configured = strip (getenv host.environment "SYNTHIA_RUNTIME_STATE_PATH" "") in
    if not (configured == "")
    then (configured, "env:SYNTHIA_RUNTIME_STATE_PATH")
    else if host.state_dir
    then ("/state/runtime.json", "mounted:/state/runtime.json")
    else if host.workspace_runtime
    then (
      "SynthiaAddons/services/mqtt/runtime.json",
      "workspace:SynthiaAddons/services/<addon_id>/runtime.json",
    )
    else ("runtime/runtime.json", "fallback:runtime/runtime.json")

unfoldable pub read_desired : Disk → Fields
read_desired disk = load_json_object disk.desired

unfoldable pub read_runtime : Disk → Fields
read_runtime disk = load_json_object disk.runtime

abbrev pub mount_missing : String
mount_missing =
    "State mount missing: /state/desired.json is not available in container runtime. Supervisor-generated compose must mount desired/runtime state files."

abbrev pub mount_read_only : String
mount_read_only =
    "State mount is read-only: /state/desired.json is not writable in container runtime. Supervisor-generated compose must mount desired/runtime state files as read-write."

-- Whether `update_desired` refuses to write, and why.
unfoldable pub write_blocked : Host → Option String
unfolding resolve_desired_path starts_with
write_blocked host =
    let source = (resolve_desired_path host).1 in
    if starts_with source "fallback:" && host.in_container
    then some mount_missing
    else if starts_with source "mounted:" && host.in_container && not host.desired_writable
    then some mount_read_only
    else none

unfoldable pub update_desired : Host → (Fields → Fields) → Act Disk Exception Fields
unfolding write_blocked
update_desired host mutator disk = elim (write_blocked host) [
  | some reason ↦ raise (runtime_error reason) disk
  | none ↦
      let updated = mutator (load_json_object disk.desired) in
      done updated (record disk { desired = holds (obj updated) })
]
