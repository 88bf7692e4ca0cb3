-- ===== src/Config.antt =====
-- app/services/config_store.py, app/services/mounted_state_store.py and the files that the former
-- writes through app/services/broker_manager.py: the files of the addon and what raises.
pub mod Desired
pub mod Settings
pub mod Session
pub mod Groups
pub mod Broker
pub mod Requests
pub mod Store
pub mod Masking
use synthia_mqtt.Prelude.{
  String, ◌<>◌, Bool, true, false, Option, none, some, ◌==◌, if◌then◌else◌, Dict, Result, ok, err,
  contains, List, [], ◌∷◌,
}
use synthia_mqtt.Prelude.Text.{strip, split_words}
use synthia_mqtt.Json.{
  ℤ, pos, Json, null, boolean, int, float, str, arr, obj, Fields, end, get, get_or, to_int,
  Builtins, Environment, item_texts,
}
use synthia_mqtt.Http.{HttpError}
use synthia_mqtt.Topics.{normalize_topics}

-- An exception: `ValueError`, `RuntimeError`, one of another class, or `HTTPException`.
pub data Exception : Type 0 where
  value_error : String → Exception
  runtime_error : String → Exception
  other_error : Exception
  http_exception : HttpError → Exception

-- A JSON file: it may not exist, hold no JSON text (with the message of the `ValueError` that
-- `json.load` raises), or hold a value.
pub data JsonFile : Type 0 where
  missing : JsonFile
  garbled : String → JsonFile
  holds : Json → JsonFile

-- The files `mosquitto.conf`, `pwfile` and `aclfile` of the embedded broker, where they exist.
pub record BrokerFiles : Type 0 where
  pub mosquitto_conf : Option String
  pub pwfile : Option String
  pub aclfile : Option String

-- `runtime/config.json`, `runtime/install_state.json`, the desired and the runtime state at the
-- paths in use, `group.json` of each directory of `runtime/optional_groups`, and the files of
-- `runtime/broker`.
pub record Disk : Type 0 where
  pub overrides : JsonFile
  pub session : JsonFile
  pub desired : JsonFile
  pub runtime : JsonFile
  pub assets : Dict Fields
  pub broker : BrokerFiles
  pub compose_override : Option String

-- What a process finds: the environment, whether it runs in a container, whether `/state` and the
-- files of the workspace exist, whether `/state/desired.json` can be written, the lines of
-- `/orchestrator/docker-compose.yml` if it can be read, `str(time.time_ns())`, the path of
-- `runtime/broker`, and `crypt.crypt` with a fresh salt, where `none` is no hash.
pub record Host : Type 0 where
  pub environment : Environment
  pub in_container : Bool
  pub state_dir : Bool
  pub workspace_desired : Bool
  pub workspace_runtime : Bool
  pub desired_writable : Bool
  pub orchestrator_compose : Option (List String)
  pub revision : String
  pub broker_dir : String
  pub crypt : String → Option String

-- `os.getenv(name) or None`
unfoldable pub getenv_or_none : Environment → String → Json
getenv_or_none env name = elim (env name) [ none ↦ null | some v ↦ if v == "" then null else str v ]

-- `_load_json_object`: whatever is no object counts as an empty one.
unfoldable pub load_json_object : JsonFile → Fields
load_json_object missing = end
load_json_object (garbled message) = end
load_json_object (holds (obj data')) = data'
load_json_object (holds _) = end

-- `_load_overrides` and `_load_install_session_state`: a file that holds no JSON text raises.
unfoldable pub load : JsonFile → Result Exception Fields
load missing = ok end
load (garbled message) = err (value_error message)
load (holds (obj data')) = ok data'
load (holds _) = ok end

-- `data.get(key)` on a value that should be an object: others have no such method.
unfoldable pub get_of : String → Json → Result Exception Json
get_of key (obj data') = ok (get key data')
get_of key _ = err other_error

-- `value in {...}` on a set of texts: an array or an object cannot be hashed.
unfoldable pub in_set : List String → Json → Result Exception Bool
in_set texts (str s) = ok (contains s texts)
in_set texts (arr xs) = err other_error
in_set texts (obj fs) = err other_error
in_set texts _ = ok false

abbrev pub modes : List String
modes = "external" ∷ "embedded" ∷ []

abbrev pub access_modes : List String
access_modes = "gateway_only" ∷ "manual_direct_access" ∷ []

module _ ⦃python : Builtins⦄ where
  int_error : Json → Exception
  int_error (str s) =
      value_error ("invalid literal for int() with base 10: " <> python.repr (str s))
  int_error (float text) =
      if text == "nan" then value_error "cannot convert float NaN to integer" else other_error
  int_error _ = other_error

  -- `int(value)` with the exception that it raises.
  unfoldable pub int_of : Json → Result Exception ℤ
  unfolding int_error to_int
  int_of v = elim (to_int v) [ none ↦ err (int_error v) | some n ↦ ok n ]

  -- `_normalize_string_list`; its loop is the one of `normalize_topics`.
  unfoldable pub normalize_string_list : Json → List String
  unfolding item_texts
  normalize_string_list (arr xs) = normalize_topics (item_texts xs)
  normalize_string_list _ = []
