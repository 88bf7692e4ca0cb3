-- ===== src/Topics/Matching.antt =====
-- `mqtt_topic_matches` against the filter rules of MQTT, level by level.
use synthia_mqtt.Prelude.{
  String, ◌≡◌, ◌≢◌, refl, ◌↔◌, true, List, [], ◌∷◌, arith, ◌==◌, eq_iff, inl, inr, Bool-cases,
}
use synthia_mqtt.Prelude.Text.{split_on}
use synthia_mqtt.Topics.{is_empty, match_levels, mqtt_topic_matches}

-- The rules: `#` stands last and takes all that is left, also nothing; `+` takes one level; any
-- other level takes itself.
pub data Matches : List String → List String → Type 0 where
  both_end : Matches [] []
  multi : {f : String} {topic : List String} → f ≡ "#" → Matches (f ∷ []) topic
  single :
      {f t : String} {filter topic : List String}
      → f ≡ "+"
      → Matches filter topic
      → Matches (f ∷ filter) (t ∷ topic)
  exact :
      {f t : String} {filter topic : List String}
      → f ≢ "#"
      → f ≡ t
      → Matches filter topic
      → Matches (f ∷ filter) (t ∷ topic)

multi_level : (topic : List String) → match_levels ("#" ∷ []) topic ≡ true
unfolding match_levels
multi_level [] = refl
multi_level (t ∷ topic) = refl

match_levels_complete :
    {filter topic : List String} → Matches filter topic → match_levels filter topic ≡ true
unfolding match_levels
match_levels_complete both_end = refl
match_levels_complete (multi {f} {topic} e) = rw e (multi_level topic)
match_levels_complete (single {f} {t} {filter} {topic} e m) = rw e (match_levels_complete m)
match_levels_complete (exact {f} {t} {filter} {topic} n e m) =
    ground (arith, match_levels_complete m, eq_iff f "#", eq_iff f t)

after_hash :
    (f : String) (filter topic : List String)
    → (f == "#") ≡ true
    → is_empty filter ≡ true
    → Matches (f ∷ filter) topic
unfolding is_empty
after_hash f [] topic hash h = multi ((eq_iff f "#").0 hash)
after_hash f (g ∷ filter) topic hash h = cc

match_levels_sound :
    (filter topic : List String) → match_levels filter topic ≡ true → Matches filter topic
unfolding match_levels
match_levels_sound [] [] h = both_end
match_levels_sound [] (t ∷ topic) h = cc
match_levels_sound (f ∷ []) [] h = multi (ground (arith, eq_iff f "#"))
match_levels_sound (f ∷ g ∷ filter) [] h = absurd (ground arith)
match_levels_sound (f ∷ filter) (t ∷ topic) h = elim (Bool-cases (f == "#")) [
  | inl hash ↦ after_hash f filter (t ∷ topic) hash (ground arith)
  | inr level ↦ elim (Bool-cases (f == "+")) [
    | inl plus ↦ single ((eq_iff f "+").0 plus) (match_levels_sound filter topic (ground arith))
    | inr other ↦
        exact (λ e. cc ((eq_iff f "#").1 e)) (ground (arith, eq_iff f t))
          (match_levels_sound filter topic (ground arith))
  ]
]

-- The matcher accepts a topic exactly when the rules let the filter match it, level by level.
pub mqtt_topic_matches_iff :
    (filter topic : String)
    → (mqtt_topic_matches filter topic ≡ true)
      ↔ Matches (split_on b'/' filter) (split_on b'/' topic)
unfolding mqtt_topic_matches
mqtt_topic_matches_iff filter topic =
    (match_levels_sound (split_on b'/' filter) (split_on b'/' topic), match_levels_complete)
