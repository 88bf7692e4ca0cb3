-- ===== src/Enrolment/Families.antt =====
-- The families of topics that the explorer shows.
use synthia_mqtt.Prelude.{
  ◌≡◌, refl, ap, ◌∙◌, String, Bool, false, ◌&&◌, ◌||◌, Option, none, some, List, [], ◌∷◌, map, any,
  contains, set_add, contains-set_add, inl, inr, Bool-cases, ap₂, ◌==◌, eq_iff, arith,
}
use synthia_mqtt.Prelude.Sorting.{
  any-sort_by, contains-sort_texts, IsSorted, sort_by, sort_by-IsSorted, IsSorted-map,
}
use synthia_mqtt.Json.{Builtins, Fields}
use synthia_mqtt.Registrations.{MqttRegistrationRecord, Files, list_registrations}
use synthia_mqtt.Enrolment.Explorer.{
  TopicFamilySummary, topics_of, family_of, add_to_family, add_known, add_topic, add_topics,
  collect_families, family_summary, topic_explorer, explored_base,
}

-- An entry of this family and kind names the addon.
abbrev pub names : String → String → String → TopicFamilySummary → Bool
names family kind addon_id entry =
    (entry.family == family && entry.kind == kind) && contains addon_id entry.registrations

-- The topic is of this family and kind.
abbrev pub is_family : String → String → Option (String × String) → Bool
is_family family kind none = false
is_family family kind (some (f, k)) = f == family && k == kind

abbrev pub in_family : String → String → String → Bool
in_family family kind topic = is_family family kind (family_of topic)

module _ (family kind addon_id : String) where
  found_there :
      (a : String) (entry : TopicFamilySummary) (more : Bool)
      → (((entry.family == family && entry.kind == kind)
            && contains addon_id (set_add a entry.registrations))
          || more)
        ≡ (((entry.family == family && entry.kind == kind) && a == addon_id)
            || (names family kind addon_id entry || more))
  found_there a entry more =
      ground (arith, contains-set_add a addon_id entry.registrations, eq_iff a addon_id)

  or_swap : (p q r : Bool) → (p || (q || r)) ≡ (q || (p || r))
  or_swap p q r = ground arith

  or_assoc : (p q r : Bool) → (p || (q || r)) ≡ ((p || q) || r)
  or_assoc p q r = ground arith

  any-add_to_family :
      (f k a : String) (families : List TopicFamilySummary)
      → any (names family kind addon_id) (add_to_family f k a families) ≡ (
          ((f == family && k == kind) && a == addon_id)
          || any (names family kind addon_id) families)
  unfolding add_to_family
  any-add_to_family f k a [] = ground arith
  any-add_to_family f k a (entry ∷ rest) =
      elim (Bool-cases (entry.family == f && entry.kind == k)) [
        | inl here ↦
            let g : entry.family ≡ f = (eq_iff entry.family f).0 (ground (arith, here)) in
            let l : entry.kind ≡ k = (eq_iff entry.kind k).0 (ground (arith, here)) in
            rw here (
              found_there a entry (any (names family kind addon_id) rest)
              ∙ ap₂
                  (λ g k.
                    ((g == family && k == kind) && a == addon_id)
                    || any (names family kind addon_id) (entry ∷ rest))
                  g l)
        | inr other ↦ rw other (
            ap (λ (found : Bool). names family kind addon_id entry || found)
              (any-add_to_family f k a rest)
            ∙ or_swap (names family kind addon_id entry)
                ((f == family && k == kind) && a == addon_id)
                (any (names family kind addon_id) rest))
      ]

  any-add_known :
      (a : String) (known : Option (String × String)) (families : List TopicFamilySummary)
      → any (names family kind addon_id) (add_known a known families) ≡ (
          (is_family family kind known && a == addon_id)
          || any (names family kind addon_id) families)
  unfolding add_known
  any-add_known a none families = refl
  any-add_known a (some (f, k)) families = any-add_to_family f k a families

  -- A registration that is the addon's and has a topic of the family.
  abbrev pub uses : String → MqttRegistrationRecord → Bool
  uses base r = any (in_family family kind) (topics_of base r) && r.addon_id == addon_id

  any-add_topics :
      (a : String) (topics : List String) (families : List TopicFamilySummary)
      → any (names family kind addon_id) (add_topics a topics families) ≡ (
          (any (in_family family kind) topics && a == addon_id)
          || any (names family kind addon_id) families)
  unfolding add_topics add_topic
  any-add_topics a [] families = refl
  any-add_topics a (topic ∷ rest) families =
      any-add_topics a rest (add_topic a topic families)
      ∙ rw (any-add_known a (family_of topic) families) (ground arith)

  any-collect_families :
      (base : String) (records : List MqttRegistrationRecord) (families : List TopicFamilySummary)
      → any (names family kind addon_id) (collect_families base records families)
        ≡ (any (uses base) records || any (names family kind addon_id) families)
  unfolding collect_families
  any-collect_families base [] families = refl
  any-collect_families base (r ∷ rest) families =
      any-collect_families base rest (add_topics r.addon_id (topics_of base r) families)
      ∙ rw (any-add_topics r.addon_id (topics_of base r) families) (
          or_swap (any (uses base) rest) (uses base r) (any (names family kind addon_id) families)
          ∙ or_assoc (uses base r) (any (uses base) rest)
              (any (names family kind addon_id) families))

  any-summaries :
      (families : List TopicFamilySummary)
      → any (names family kind addon_id) (map family_summary families)
        ≡ any (names family kind addon_id) families
  any-summaries [] = refl
  any-summaries (entry ∷ rest) =
      rw (contains-sort_texts addon_id entry.registrations, any-summaries rest)

-- The explorer names an addon under a family and kind exactly when a registration of the addon has
-- a topic of that family and kind, and the families stand in order.
pub topic_explorer-IsExact :
    ⦃python : Builtins⦄ (effective_config : Fields) (files : Files)
    → IsSorted
        (λ (entry : TopicFamilySummary). entry.family)
        (topic_explorer effective_config files).topic_families
      × ((family kind addon_id : String)
          → any (names family kind addon_id) (topic_explorer effective_config files).topic_families
            ≡ any
                (uses family kind addon_id (explored_base effective_config))
                (list_registrations files))
unfolding topic_explorer
topic_explorer-IsExact effective_config files =
    let by_family = λ (entry : TopicFamilySummary). entry.family in
    let base = explored_base effective_config in
    let records = list_registrations files in
    let families = collect_families base records [] in
    (
      IsSorted-map by_family family_summary (sort_by by_family families)
          (sort_by-IsSorted by_family families),
      λ family kind addon_id.
          any-summaries family kind addon_id (sort_by by_family families)
          ∙ any-sort_by by_family (names family kind addon_id) families
          ∙ any-collect_families family kind addon_id base records []
          ∙ ground arith,
    )
