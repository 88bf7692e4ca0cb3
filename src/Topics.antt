-- ===== src/Topics.antt =====
-- app/services/topic_permissions.py: who may publish and subscribe to which topics. An exception
-- of `TopicPermissionError` is `err` with its message.
pub mod Matching
pub mod Normalize
pub mod Publish
pub mod Namespaces
pub mod Realize
use Prim.Native.String.{count}
use synthia_mqtt.Prelude.{
  String, ◌<>◌, Bool, true, false, not, ◌&&◌, ◌||◌, Option, none, some, List, [], ◌∷◌, ◌++◌, any,
  contains, ◌==◌, if◌then◌else◌, Result, ok, err, raise_if, ◌>>=◌, ◌>>◌,
}
use synthia_mqtt.Prelude.Text.{strip, has_infix, starts_with, split_on, drop_text}

abbrev pub reserved_prefixes : List String
reserved_prefixes =
    "synthia/system/" ∷ "synthia/core/" ∷ "synthia/supervisor/" ∷ "synthia/scheduler/"
    ∷ "synthia/policy/" ∷ "synthia/telemetry/" ∷ []

pub record RealizedPermissions : Type 0 where
  pub publish : List String
  pub subscribe : List String

-- The loop, with the set `seen` of the topics that were kept.
unfoldable pub normalize_topics_from : List String → List String → List String
normalize_topics_from seen [] = []
normalize_topics_from seen (raw ∷ rest) =
    let topic = strip raw in
    let skipped = normalize_topics_from seen rest in
    let kept = topic ∷ normalize_topics_from (topic ∷ seen) rest in
    if topic == "" || contains topic seen then skipped else kept

unfoldable pub normalize_topics : List String → List String
unfolding normalize_topics_from
normalize_topics topics = normalize_topics_from [] topics

unfoldable pub is_reserved_topic : String → Bool
is_reserved_topic topic = any (starts_with topic) reserved_prefixes

-- The namespace `synthia/addons/{addon_id}/`.
unfoldable pub addon_prefix : String → String
addon_prefix addon_id = "synthia/addons/" <> (addon_id <> "/")

unfoldable pub validate_nonempty_topic : String → Result String (Unit {0})
validate_nonempty_topic topic = raise_if (topic == "") "Topic must not be empty"

-- The tests that follow once the topic is known to lie in the namespace.
unfoldable pub validate_lifecycle_tail : String → String → Result String (Unit {0})
validate_lifecycle_tail topic tail =
    if tail == "announce" || tail == "health"
    then ok tt
    else raise_if (has_infix tail "/announce" || has_infix tail "/health")
        ("Lifecycle topics must be exact and not nested under addon namespace: " <> topic)

unfoldable pub validate_lifecycle_pattern : String → String → Result String (Unit {0})
unfolding validate_lifecycle_tail
validate_lifecycle_pattern topic addon_id =
    let prefix = addon_prefix addon_id in
    if not (starts_with topic prefix)
    then ok tt
    else validate_lifecycle_tail topic (drop_text (count prefix) topic)

-- The body of the loop over the publish topics.
unfoldable pub check_publish : String → String → Result String (Unit {0})
check_publish addon_id topic = do
  validate_nonempty_topic topic
  validate_lifecycle_pattern topic addon_id
  raise_if (is_reserved_topic topic) ("Reserved namespace is publish-restricted: " <> topic)
  raise_if (not (starts_with topic (addon_prefix addon_id))) (
      "Publish topic must be within addon-owned namespace "
      <> (addon_prefix addon_id <> (": " <> topic)))

-- The body of the loop over the subscribe topics.
unfoldable pub check_subscribe : String → String → Result String (Unit {0})
check_subscribe addon_id topic = do
  validate_nonempty_topic topic
  validate_lifecycle_pattern topic addon_id
  raise_if (not (starts_with topic (addon_prefix addon_id) || is_reserved_topic topic))
      ("Subscribe topic must be addon-owned or reserved namespace topic: " <> topic)

-- `for topic in topics: check(topic)`
unfoldable pub check_each :
    (String → Result String (Unit {0})) → List String → Result String (Unit {0})
check_each check [] = ok tt
check_each check (topic ∷ rest) = do check topic; check_each check rest

unfoldable pub realize_topic_permissions :
    String → List String → List String → Result String RealizedPermissions
realize_topic_permissions addon_id publish_topics subscribe_topics =
    let normalized_addon_id = strip addon_id in
    let publish = normalize_topics publish_topics in
    let subscribe = normalize_topics subscribe_topics in
    do
      raise_if (normalized_addon_id == "") "addon_id is required"
      check_each (check_publish normalized_addon_id) publish
      check_each (check_subscribe normalized_addon_id) subscribe
      ok (record { publish = publish; subscribe = subscribe })

-- The tests for a caller with an identity, `none` for the default argument.
unfoldable pub validate_owner : String → Option String → Result String (Unit {0})
validate_owner topic none = ok tt
validate_owner topic (some addon_id) =
    if addon_id == "" || strip addon_id == "" || addon_id == "anonymous" then ok tt else do
      raise_if (not (starts_with topic (addon_prefix (strip addon_id)))) (
          "Publish topic must be within addon-owned namespace "
          <> (addon_prefix (strip addon_id) <> (": " <> topic)))
      validate_lifecycle_pattern topic (strip addon_id)

unfoldable pub validate_publish_topic : String → Option String → Result String String
validate_publish_topic topic addon_id =
    let normalized = strip topic in
    do
      validate_nonempty_topic normalized
      raise_if (has_infix normalized "+" || has_infix normalized "#")
          ("Publish topic must not contain MQTT wildcards: " <> normalized)
      raise_if (is_reserved_topic normalized)
          ("Reserved namespace is publish-restricted: " <> normalized)
      validate_owner normalized addon_id
      ok normalized

unfoldable pub is_empty : List String → Bool
is_empty [] = true
is_empty (x ∷ xs) = false

-- The loop over `enumerate(filter_levels)`, on what is left of the two lists at index `idx`.
unfoldable pub match_levels : List String → List String → Bool
unfolding is_empty
match_levels [] topic = is_empty topic
match_levels (level ∷ filter) [] = if level == "#" then is_empty filter else false
match_levels (level ∷ filter) (t ∷ topic) =
    let rest = match_levels filter topic in
    if level == "#"
    then is_empty filter
    else if level == "+"
    then rest
    else if level == t
    then rest
    else false

unfoldable pub mqtt_topic_matches : String → String → Bool
mqtt_topic_matches filter topic = match_levels (split_on b'/' filter) (split_on b'/' topic)

unfoldable pub topic_allowed_by_scopes : String → List String → Bool
topic_allowed_by_scopes topic scopes = any (λ scope. mqtt_topic_matches scope topic) scopes
