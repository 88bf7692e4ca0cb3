-- ===== src/Topics/Publish.antt =====
-- The topics that `validate_publish_topic` accepts.
use Prim.Native.String.{count}
use synthia_mqtt.Prelude.{
  String, ◌≡◌, refl, ◌↔◌, Bool, true, false, not, ◌&&◌, ◌||◌, Option, none, some, arith, ◌==◌, ok,
  ◌<>◌, inl, inr, Bool-cases, if◌then◌else◌,
}
use synthia_mqtt.Prelude.Text.{strip, has_infix, starts_with, drop_text}
use synthia_mqtt.Prelude.Text.Laws.{starts_with-append, starts_with-agree, agree}
use synthia_mqtt.Topics.{
  is_reserved_topic, addon_prefix, validate_nonempty_topic, validate_lifecycle_pattern,
  validate_owner, validate_publish_topic,
}

-- A topic below a namespace is a lifecycle topic itself, or nests none.
abbrev pub lifecycle_tail_fits : String → Bool
lifecycle_tail_fits tail =
    (tail == "announce" || tail == "health")
    || not (has_infix tail "/announce" || has_infix tail "/health")

abbrev pub lifecycle_fits : String → String → Bool
lifecycle_fits topic addon_id =
    not (starts_with topic (addon_prefix addon_id))
    || lifecycle_tail_fits (drop_text (count (addon_prefix addon_id)) topic)

-- The caller that the namespace rule applies to.
abbrev pub owner_of : Option String → Option String
owner_of none = none
owner_of (some addon_id) =
    if addon_id == "" || strip addon_id == "" || addon_id == "anonymous"
    then none
    else some (strip addon_id)

abbrev pub owner_fits : String → Option String → Bool
owner_fits topic none = true
owner_fits topic (some owner) = starts_with topic (addon_prefix owner) && lifecycle_fits topic owner

-- A topic that a caller may publish to.
pub record IsPublishable (topic : String) (caller : Option String) : Type 0 where
  pub nonempty : (topic == "") ≡ false
  pub no_wildcard : (has_infix topic "+" || has_infix topic "#") ≡ false
  pub unreserved : is_reserved_topic topic ≡ false
  pub owned : owner_fits topic (owner_of caller) ≡ true

pub validate_lifecycle_pattern_iff :
    (topic addon_id : String)
    → (validate_lifecycle_pattern topic addon_id ≡ ok tt) ↔ (lifecycle_fits topic addon_id ≡ true)
unfolding validate_lifecycle_pattern
validate_lifecycle_pattern_iff topic addon_id = (λ h. ground arith, λ h. ground arith)

validate_owner_iff :
    (topic : String) (caller : Option String)
    → (validate_owner topic caller ≡ ok tt) ↔ (owner_fits topic (owner_of caller) ≡ true)
unfolding validate_owner
validate_owner_iff topic none = (λ h. refl, λ h. refl)
validate_owner_iff topic (some a) = (
  λ h. ground (arith, validate_lifecycle_pattern_iff topic (strip a)),
  λ h. ground (arith, validate_lifecycle_pattern_iff topic (strip a)),
)

-- A topic is accepted exactly when its trimmed form, which is the result, is publishable for the
-- caller.
pub validate_publish_topic_iff :
    (topic : String) (caller : Option String) (t : String)
    → (validate_publish_topic topic caller ≡ ok t)
      ↔ ((t ≡ strip topic) × IsPublishable (strip topic) caller)
unfolding validate_publish_topic validate_nonempty_topic
validate_publish_topic_iff topic caller t = (
  λ h. ground (arith, validate_owner_iff (strip topic) caller),
  λ h. ground (arith, validate_owner_iff (strip topic) caller),
)

apart :
    (topic addon_id q : String)
    → starts_with topic (addon_prefix addon_id) ≡ true
    → agree "synthia/addons/" q ≡ false
    → starts_with topic q ≡ false
unfolding addon_prefix
apart topic addon_id q h differ = elim (Bool-cases (starts_with topic q)) [
  | inl k ↦ cc (
      starts_with-agree topic "synthia/addons/" q
        (starts_with-append topic "synthia/addons/" (addon_id <> "/") h) k)
  | inr k ↦ k
]

-- The namespaces of addons and the reserved namespaces have no topic in common.
pub owned_not_reserved :
    (topic addon_id : String)
    → starts_with topic (addon_prefix addon_id) ≡ true
    → is_reserved_topic topic ≡ false
unfolding is_reserved_topic
owned_not_reserved topic addon_id h = simp (
  apart topic addon_id "synthia/system/" h refl,
  apart topic addon_id "synthia/core/" h refl,
  apart topic addon_id "synthia/supervisor/" h refl,
  apart topic addon_id "synthia/scheduler/" h refl,
  apart topic addon_id "synthia/policy/" h refl,
  apart topic addon_id "synthia/telemetry/" h refl,
)
