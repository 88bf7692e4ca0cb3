-- ===== src/Install/Choices.antt =====
-- The endpoints of app/api/install_workflow.py that choose the optional groups, and the feedback
-- of the supervisor (`get_runtime_optional_groups_feedback` of app/services/config_store.py).
use synthia_mqtt.Prelude.{
  String, Bool, true, not, Option, none, some, List, [], ◌==◌, keep, Dict, ok,
}
use synthia_mqtt.Prelude.Effects.{Act, attempt, raise, ask, ◌>>=◌}
use synthia_mqtt.Json.{Json, boolean, Fields, get, Builtins}
use synthia_mqtt.Json.Objects.{object_or_empty}
use synthia_mqtt.Config.{Exception, runtime_error, Disk, Host, normalize_string_list}
use synthia_mqtt.Config.Desired.{read_runtime}
use synthia_mqtt.Config.Session.{InstallSession, first_nonempty}
use synthia_mqtt.Config.Groups.{GroupMetadata}
use synthia_mqtt.Config.Store.{set_requested_optional_groups}
use synthia_mqtt.Install.{same_items}
use synthia_mqtt.Install.Apply.{http}

-- What the supervisor reports; `pending_reconcile` is `none` unless it is a Boolean.
pub record Feedback : Type 0 where
  pub requested : List String
  pub active : List String
  pub starting : List String
  pub failed : List String
  pub pending_reconcile : Option Bool

pub record OptionalGroupSelectionResponse : Type 0 where
  pub ok : Bool
  pub requested_group_ids : List String
  pub pending_reconcile : Bool

bool_of : Json → Option Bool
bool_of (boolean b) = some b
bool_of _ = none

-- `pending if isinstance(pending, bool) else sorted(requested) != sorted(active)`
unfoldable pub pending_or_differ : Option Bool → List String → List String → Bool
unfolding same_items
pending_or_differ (some pending) requested active = pending
pending_or_differ none requested active = not (same_items requested active)

-- `[group_id for group_id in groups if group_id]`
abbrev nonempty : List String → List String
nonempty = keep (λ group_id. not (group_id == ""))

module _ ⦃python : Builtins⦄ where
  -- One of the four lists: under its first key, its second, or in the nested object.
  group_list : String → String → String → Fields → Fields → List String
  unfolding normalize_string_list
  group_list first second third state nested =
      first_nonempty (normalize_string_list (get first state)) (
        first_nonempty (normalize_string_list (get second state))
          (normalize_string_list (get third nested)))

  unfoldable pub get_runtime_optional_groups_feedback : Disk → Feedback
  unfolding group_list bool_of read_runtime
  get_runtime_optional_groups_feedback disk =
      let state = read_runtime disk in
      let nested =
        object_or_empty (get "optional_docker_groups" (object_or_empty (get "runtime" state))) in
      record {
        requested =
            group_list "requested_docker_groups" "optional_groups_requested" "requested" state
              nested;
        active = group_list "active_docker_groups" "optional_groups_active" "active" state nested;
        starting =
            group_list "starting_docker_groups" "optional_groups_starting" "starting" state nested;
        failed = group_list "failed_docker_groups" "optional_groups_failed" "failed" state nested;
        pending_reconcile = bool_of (get "pending_reconcile" nested);
      }

  module _ (host : Host) (supported : Dict GroupMetadata) where
    unfoldable pub on_refusal : Exception → Act Disk Exception InstallSession
    on_refusal (runtime_error message) = http 409 message
    on_refusal other = raise other

    unfoldable pub selection : InstallSession → Disk → OptionalGroupSelectionResponse
    unfolding get_runtime_optional_groups_feedback pending_or_differ
    selection updated disk =
        let requested = nonempty updated.optional_groups_requested in
        let feedback = get_runtime_optional_groups_feedback disk in
        record {
          ok = true;
          requested_group_ids = requested;
          pending_reconcile =
              pending_or_differ feedback.pending_reconcile requested (nonempty feedback.active);
        }

    unfoldable pub set_optional_groups :
        List String → Act Disk Exception OptionalGroupSelectionResponse
    unfolding set_requested_optional_groups on_refusal selection
    set_optional_groups requested_group_ids = do
      updated ←
          attempt (set_requested_optional_groups host requested_group_ids supported) on_refusal
      ask (λ (disk : Disk). ok (selection updated disk))

    unfoldable pub reset_optional_groups : Act Disk Exception OptionalGroupSelectionResponse
    unfolding set_optional_groups
    reset_optional_groups = set_optional_groups []
