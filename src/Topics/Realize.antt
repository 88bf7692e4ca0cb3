-- ===== src/Topics/Realize.antt =====
-- What a registration may ask for, and what `realize_topic_permissions` grants.
use synthia_mqtt.Prelude.{
  String, ◌≡◌, refl, ◌↔◌, true, false, ◌||◌, List, [], ◌∷◌, arith, ◌==◌, Result, ok,
}
use synthia_mqtt.Prelude.Text.{strip, starts_with}
use synthia_mqtt.Topics.{
  RealizedPermissions, normalize_topics, is_reserved_topic, addon_prefix, validate_nonempty_topic,
  check_publish, check_subscribe, check_each, realize_topic_permissions,
}
use synthia_mqtt.Topics.Publish.{lifecycle_fits, validate_lifecycle_pattern_iff, owned_not_reserved}

abbrev pub All {ℓ κ} : {A : Type ℓ} → (A → Type κ) → List A → Type κ
All P [] = Unit
All P (x ∷ xs) = P x × All P xs

-- A topic that an addon may be granted for publishing.
pub record IsPublishScope (addon_id topic : String) : Type 0 where
  pub nonempty : (topic == "") ≡ false
  pub owned : starts_with topic (addon_prefix addon_id) ≡ true
  pub lifecycle : lifecycle_fits topic addon_id ≡ true

-- A topic that an addon may be granted for subscribing.
pub record IsSubscribeScope (addon_id topic : String) : Type 0 where
  pub nonempty : (topic == "") ≡ false
  pub owned_or_reserved :
      (starts_with topic (addon_prefix addon_id) || is_reserved_topic topic) ≡ true
  pub lifecycle : lifecycle_fits topic addon_id ≡ true

check_publish_iff :
    (addon_id topic : String)
    → (check_publish addon_id topic ≡ ok tt) ↔ IsPublishScope addon_id topic
unfolding check_publish validate_nonempty_topic
check_publish_iff a t = (
  λ h. ground (arith, validate_lifecycle_pattern_iff t a),
  λ h. ground (arith, validate_lifecycle_pattern_iff t a, owned_not_reserved t a),
)

check_subscribe_iff :
    (addon_id topic : String)
    → (check_subscribe addon_id topic ≡ ok tt) ↔ IsSubscribeScope addon_id topic
unfolding check_subscribe validate_nonempty_topic
check_subscribe_iff a t = (
  λ h. ground (arith, validate_lifecycle_pattern_iff t a),
  λ h. ground (arith, validate_lifecycle_pattern_iff t a),
)

module _ {P : String → Type 0} (check : String → Result String (Unit {0})) where
  check_each_iff :
      ((t : String) → (check t ≡ ok tt) ↔ P t)
      → (topics : List String) → (check_each check topics ≡ ok tt) ↔ All P topics
  unfolding check_each
  check_each_iff iff [] = (λ h. tt, λ h. refl)
  check_each_iff iff (t ∷ rest) = (
    λ h. ground (arith, iff t, check_each_iff iff rest),
    λ h. ground (arith, iff t, check_each_iff iff rest),
  )

-- A request is granted exactly when the addon id is not blank and every distinct topic asked for
-- is a scope that the addon may have; the grant is then those topics.
pub realize_topic_permissions_iff :
    (addon_id : String) (publish subscribe : List String) (granted : RealizedPermissions)
    → (realize_topic_permissions addon_id publish subscribe ≡ ok granted) ↔ (
        ((strip addon_id == "") ≡ false)
        × (granted.publish ≡ normalize_topics publish)
        × (granted.subscribe ≡ normalize_topics subscribe)
        × All (IsPublishScope (strip addon_id)) (normalize_topics publish)
        × All (IsSubscribeScope (strip addon_id)) (normalize_topics subscribe))
unfolding realize_topic_permissions
realize_topic_permissions_iff a p s g =
    let publishes =
      check_each_iff (check_publish (strip a)) (check_publish_iff (strip a)) (normalize_topics p) in
    let subscribes =
      check_each_iff (check_subscribe (strip a)) (check_subscribe_iff (strip a))
        (normalize_topics s) in
    (λ h. ground (arith, publishes, subscribes), λ h. ground (arith, publishes, subscribes))
