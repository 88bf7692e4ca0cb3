-- ===== src/Examples/Naming.antt =====
-- The theorems on topics, scopes and envelopes at concrete inputs.
use synthia_mqtt.Prelude.{String, ◌≡◌, refl, ◌↔◌, true, false, [], ◌∷◌, ok, ◌==◌}
use synthia_mqtt.Prelude.Text.{strip, starts_with, split_on}
use synthia_mqtt.Topics.{
  RealizedPermissions, normalize_topics, realize_topic_permissions, mqtt_topic_matches,
  addon_prefix,
}
use synthia_mqtt.Topics.Realize.{
  All, IsPublishScope, IsSubscribeScope, realize_topic_permissions_iff,
}
use synthia_mqtt.Topics.Matching.{Matches, mqtt_topic_matches_iff}
use synthia_mqtt.Topics.Namespaces.{namespaces_disjoint}
use synthia_mqtt.Examples.{sample_python, sample_scopes}

abbrev granted : RealizedPermissions
granted = record { publish = sample_scopes; subscribe = "synthia/system/clock" ∷ [] }

realize_topic_permissions_iff_example :
    (realize_topic_permissions "weather" sample_scopes ("synthia/system/clock" ∷ []) ≡ ok granted)
    ↔ (((strip "weather" == "") ≡ false)
        × (sample_scopes ≡ normalize_topics sample_scopes)
        × (("synthia/system/clock" ∷ []) ≡ normalize_topics ("synthia/system/clock" ∷ []))
        × All (IsPublishScope (strip "weather")) (normalize_topics sample_scopes)
        × All (IsSubscribeScope (strip "weather")) (normalize_topics ("synthia/system/clock" ∷ [])))
realize_topic_permissions_iff_example =
    realize_topic_permissions_iff "weather" sample_scopes ("synthia/system/clock" ∷ []) granted

mqtt_topic_matches_iff_example :
    (mqtt_topic_matches "synthia/+/#" "synthia/addons/weather/state" ≡ true)
    ↔ Matches (split_on b'/' "synthia/+/#") (split_on b'/' "synthia/addons/weather/state")
mqtt_topic_matches_iff_example = mqtt_topic_matches_iff "synthia/+/#" "synthia/addons/weather/state"

abbrev addon : String
addon = "weather"

namespaces_disjoint_example : addon ≡ addon
unfolding starts_with addon_prefix
namespaces_disjoint_example =
    namespaces_disjoint "synthia/addons/weather/state" addon addon
      (refl, (refl, (refl, (refl, (refl, (refl, (refl, tt)))))))
      (refl, (refl, (refl, (refl, (refl, (refl, (refl, tt))))))) refl refl
