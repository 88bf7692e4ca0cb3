-- ===== src/Topics/Normalize.antt =====
-- What `normalize_topics` removes.
use synthia_mqtt.Prelude.{
  String, ◌≡◌, refl, Bool, true, false, not, ◌&&◌, List, [], ◌∷◌, map, arith, contains, ◌==◌,
  eq_iff, eq_refl, inl, inr, ◌||◌, Bool-cases,
}
use synthia_mqtt.Prelude.Text.{strip}
use synthia_mqtt.Prelude.Text.Laws.{strip_idem}
use synthia_mqtt.Topics.{normalize_topics_from, normalize_topics}

-- A text without white space at its ends, and not empty.
abbrev pub IsTrimmed : String → Type 0
IsTrimmed topic = (strip topic ≡ topic) × ((topic == "") ≡ false)

-- Trimmed topics, each of which stands once.
abbrev pub IsCanonical : List String → Type 0
IsCanonical [] = Unit
IsCanonical (topic ∷ rest) = IsTrimmed topic × (contains topic rest ≡ false) × IsCanonical rest

-- The two branches of the loop, for the trimmed topic `t` and the test that skips it.
module _ (raw : String) (seen rest : List String) where
  from_skip :
      (strip raw == "" || contains (strip raw) seen) ≡ true
      → normalize_topics_from seen (raw ∷ rest) ≡ normalize_topics_from seen rest
  unfolding normalize_topics_from
  from_skip h = rw h

  from_keep :
      (strip raw == "" || contains (strip raw) seen) ≡ false
      → normalize_topics_from seen (raw ∷ rest)
        ≡ strip raw ∷ normalize_topics_from (strip raw ∷ seen) rest
  unfolding normalize_topics_from
  from_keep h = rw h

-- What the result holds, by Boolean tests on an item `s`, a topic `t` and the rest of the list.
skip_tests :
    (s t : String) (seen : List String) (later : Bool)
    → (s == "" || contains s seen) ≡ true
    → (later && not (t == "") && not (contains t seen))
      ≡ ((s == t || later) && not (t == "") && not (contains t seen))
skip_tests s t seen later h = elim (Bool-cases (s == t)) [
  | inl e ↦
      let h' : (t == "" || contains t seen) ≡ true = rw ((eq_iff s t).0 e) at h in
      rw e (ground arith)
  | inr n ↦ rw n
]

keep_tests :
    (s t : String) (seen : List String) (later : Bool)
    → (s == "" || contains s seen) ≡ false
    → (s == t || (later && not (t == "") && not (s == t || contains t seen)))
      ≡ ((s == t || later) && not (t == "") && not (contains t seen))
keep_tests s t seen later h = elim (Bool-cases (s == t)) [
  | inl e ↦
      let h' : (t == "" || contains t seen) ≡ false = rw ((eq_iff s t).0 e) at h in
      rw e (ground arith)
  | inr n ↦ rw n
]

contains-from :
    (t : String) (seen topics : List String)
    → contains t (normalize_topics_from seen topics)
      ≡ (contains t (map strip topics) && not (t == "") && not (contains t seen))
unfolding normalize_topics_from
contains-from t seen [] = refl
contains-from t seen (raw ∷ rest) =
    elim (Bool-cases (strip raw == "" || contains (strip raw) seen)) [
      | inl h ↦
          rw (from_skip raw seen rest h, contains-from t seen rest)
            (skip_tests (strip raw) t seen (contains t (map strip rest)) h)
      | inr h ↦
          rw (from_keep raw seen rest h, contains-from t (strip raw ∷ seen) rest)
            (keep_tests (strip raw) t seen (contains t (map strip rest)) h)
    ]

from-IsCanonical : (seen topics : List String) → IsCanonical (normalize_topics_from seen topics)
unfolding normalize_topics_from
from-IsCanonical seen [] = tt
from-IsCanonical seen (raw ∷ rest) =
    elim (Bool-cases (strip raw == "" || contains (strip raw) seen)) [
      | inl h ↦ rw (from_skip raw seen rest h) (from-IsCanonical seen rest)
      | inr h ↦ rw (from_keep raw seen rest h) (
        (strip_idem raw, ground arith),
        rw contains-from (simp eq_refl (ground arith)),
        from-IsCanonical (strip raw ∷ seen) rest,
      )
    ]

-- What is left after normalising: the trimmed forms of the given topics that are not empty.
contains-normalize_topics :
    (t : String) (topics : List String)
    → contains t (normalize_topics topics) ≡ (contains t (map strip topics) && not (t == ""))
unfolding normalize_topics
contains-normalize_topics t topics = ground (arith, contains-from t [] topics)

-- The normalised list is canonical.
normalize_topics-IsCanonical : (topics : List String) → IsCanonical (normalize_topics topics)
unfolding normalize_topics
normalize_topics-IsCanonical topics = from-IsCanonical [] topics

abbrev Fresh : List String → List String → Type 0
Fresh seen [] = Unit
Fresh seen (t ∷ rest) = (contains t seen ≡ false) × Fresh seen rest

Fresh-cons :
    (t : String) (seen topics : List String)
    → contains t topics ≡ false
    → Fresh seen topics
    → Fresh (t ∷ seen) topics
Fresh-cons t seen [] h f = tt
Fresh-cons t seen (u ∷ rest) h (g, f) =
    (ground (arith, eq_iff t u, eq_iff u t), Fresh-cons t seen rest (ground arith) f)

Fresh-nil : (topics : List String) → Fresh [] topics
Fresh-nil [] = tt
Fresh-nil (t ∷ topics) = (refl, Fresh-nil topics)

from_of_IsCanonical :
    (seen topics : List String)
    → IsCanonical topics
    → Fresh seen topics
    → normalize_topics_from seen topics ≡ topics
unfolding normalize_topics_from
from_of_IsCanonical seen [] c f = refl
from_of_IsCanonical seen (t ∷ rest) ((trimmed, solid), new, c) (g, f) =
    ground (arith, trimmed, from_of_IsCanonical (t ∷ seen) rest c (Fresh-cons t seen rest new f))

-- A canonical list is left as it is.
pub normalize_topics_of_IsCanonical :
    (topics : List String) → IsCanonical topics → normalize_topics topics ≡ topics
unfolding normalize_topics
normalize_topics_of_IsCanonical topics c = from_of_IsCanonical [] topics c (Fresh-nil topics)
