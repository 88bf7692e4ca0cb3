-- ===== src/Enrolment/Explorer.antt =====
-- `topic_explorer` of app/api/mqtt_registration.py: the topics of the registered addons, and which
-- addons use which family of topics.
use synthia_mqtt.Prelude.{
  String, ◌<>◌, not, ◌&&◌, Option, none, some, List, [], ◌∷◌, ◌++◌, map, keep, set_add, ◌==◌,
  if◌then◌else◌,
}
use synthia_mqtt.Prelude.Text.{split_on, join}
use synthia_mqtt.Prelude.Sorting.{sort_by, sort_texts}
use synthia_mqtt.Json.{Fields, Builtins, str, get_or, trimmed}
use synthia_mqtt.Registrations.{MqttRegistrationRecord, Files, list_registrations}

pub record RegistrationTopicMapping : Type 0 where
  pub addon_id : String
  pub publish_scopes : List String
  pub subscribe_scopes : List String
  pub lifecycle_topics : List String

pub record TopicFamilySummary : Type 0 where
  pub family : String
  pub kind : String
  pub registrations : List String

pub record MqttTopicExplorerResponse : Type 0 where
  pub base_topic : String
  pub reserved_namespaces : List String
  pub addon_namespaces : List String
  pub lifecycle_topics : List String
  pub registration_mappings : List RegistrationTopicMapping
  pub topic_families : List TopicFamilySummary

unfoldable pub explored_base : ⦃python : Builtins⦄ → Fields → String
explored_base effective_config =
    let given = trimmed (get_or "mqtt_base_topic" (str "synthia") effective_config) in
    if given == "" then "synthia" else given

abbrev pub reserved_namespaces_of : String → List String
reserved_namespaces_of base =
    (base <> "/system/#")
    ∷ (base <> "/core/#")
    ∷ (base <> "/supervisor/#")
    ∷ (base <> "/scheduler/#")
    ∷ (base <> "/policy/#")
    ∷ (base <> "/telemetry/#")
    ∷ []

unfoldable pub addon_root : String → String → String
addon_root base addon_id = base <> ("/addons/" <> addon_id)

unfoldable pub addon_lifecycle : String → MqttRegistrationRecord → List String
unfolding addon_root
addon_lifecycle base r =
    (addon_root base r.addon_id <> "/announce") ∷ (addon_root base r.addon_id <> "/health") ∷ []

unfoldable pub topic_mapping : String → MqttRegistrationRecord → RegistrationTopicMapping
unfolding addon_lifecycle
topic_mapping base r = record {
  addon_id = r.addon_id;
  publish_scopes = r.permissions.publish;
  subscribe_scopes = r.permissions.subscribe;
  lifecycle_topics = addon_lifecycle base r;
}

-- The topics of a registration, in the order of the inner loop.
unfoldable pub topics_of : String → MqttRegistrationRecord → List String
unfolding addon_lifecycle
topics_of base r = r.permissions.publish ++ (r.permissions.subscribe ++ addon_lifecycle base r)

-- The family of a topic and its kind, from the parts that are not empty.
family_of_parts : List String → Option (String × String)
family_of_parts [] = none
family_of_parts (a ∷ []) = none
family_of_parts (a ∷ b ∷ []) = some (join "/" (a ∷ b ∷ []) <> "/...", "reserved")
family_of_parts (a ∷ b ∷ c ∷ rest) =
    if b == "addons"
    then some (join "/" (a ∷ b ∷ c ∷ []) <> "/...", "addon")
    else some (join "/" (a ∷ b ∷ []) <> "/...", "reserved")

unfoldable pub family_of : String → Option (String × String)
unfolding family_of_parts
family_of topic = family_of_parts (keep (λ part. not (part == "")) (split_on b'/' topic))

-- `family_to_addons[key].add(addon_id)`, with the entry made where the key is new.
unfoldable pub add_to_family :
    String → String → String → List TopicFamilySummary → List TopicFamilySummary
add_to_family family kind addon_id [] =
    record { family = family; kind = kind; registrations = addon_id ∷ [] } ∷ []
add_to_family family kind addon_id (entry ∷ rest) =
    if entry.family == family && entry.kind == kind
    then record entry { registrations = set_add addon_id entry.registrations } ∷ rest
    else entry ∷ add_to_family family kind addon_id rest

-- A topic of fewer than two parts is passed over.
unfoldable pub add_known :
    String → Option (String × String) → List TopicFamilySummary → List TopicFamilySummary
unfolding add_to_family
add_known addon_id none families = families
add_known addon_id (some (family, kind)) families = add_to_family family kind addon_id families

unfoldable pub add_topic : String → String → List TopicFamilySummary → List TopicFamilySummary
unfolding add_known
add_topic addon_id topic = add_known addon_id (family_of topic)

-- The inner and the outer loop.
unfoldable pub add_topics : String → List String → List TopicFamilySummary → List TopicFamilySummary
unfolding add_topic
add_topics addon_id [] families = families
add_topics addon_id (topic ∷ rest) families =
    add_topics addon_id rest (add_topic addon_id topic families)

unfoldable pub collect_families :
    String → List MqttRegistrationRecord → List TopicFamilySummary → List TopicFamilySummary
unfolding add_topics topics_of
collect_families base [] families = families
collect_families base (r ∷ rest) families =
    collect_families base rest (add_topics r.addon_id (topics_of base r) families)

-- `sorted(set(texts))`
abbrev as_set : List String → List String
as_set [] = []
as_set (s ∷ rest) = set_add s (as_set rest)

abbrev concat : {A : Type 0} → (A → List String) → List A → List String
concat f [] = []
concat f (x ∷ xs) = f x ++ concat f xs

abbrev pub family_summary : TopicFamilySummary → TopicFamilySummary
family_summary entry = record entry { registrations = sort_texts entry.registrations }

unfoldable pub topic_explorer : ⦃python : Builtins⦄ → Fields → Files → MqttTopicExplorerResponse
unfolding explored_base topic_mapping addon_root collect_families
topic_explorer effective_config files =
    let base = explored_base effective_config in
    let records = list_registrations files in
    record {
      base_topic = base;
      reserved_namespaces = reserved_namespaces_of base;
      addon_namespaces = sort_texts (
          as_set
            (map (λ (r : MqttRegistrationRecord). addon_root base r.addon_id <> "/#") records));
      lifecycle_topics = sort_texts (as_set (concat (addon_lifecycle base) records));
      registration_mappings = map (topic_mapping base) records;
      topic_families = map family_summary (
          sort_by (λ (entry : TopicFamilySummary). entry.family)
            (collect_families base records []));
    }
