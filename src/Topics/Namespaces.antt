-- ===== src/Topics/Namespaces.antt =====
-- The namespaces of different addons.
use Prim.Native.String.{[], ◌∷◌}
use Prim.Native.Char.{Char}
use text.Mathlib.TextEquality.{Char-path}
use text.Mathlib.TextLemmas.{cons-append, nil-append}
use synthia_mqtt.Prelude.{String, ◌<>◌, ◌≡◌, refl, ap₂, true, false, code, arith, eqb}
use synthia_mqtt.Prelude.Text.{starts_with}
use synthia_mqtt.Topics.{addon_prefix}

-- A text without a slash.
abbrev pub NoSlash : String → Type 0
NoSlash [] = Unit
NoSlash (c ∷ s) = (eqb (code c) b'/' ≡ false) × NoSlash s

starts_nil : (c : Char) (p q : String) → starts_with [] ((c ∷ p) <> q) ≡ true → ⊥
unfolding starts_with
starts_nil c p q h = let h' : starts_with [] (c ∷ (p <> q)) ≡ true = rw cons-append at h in cc

starts_cons :
    (e : Char) (topic : String) (c : Char) (p q : String)
    → starts_with (e ∷ topic) ((c ∷ p) <> q) ≡ true
    → (code e ≡ code c) × (starts_with topic (p <> q) ≡ true)
unfolding starts_with
starts_cons e topic c p q h =
    let h' : starts_with (e ∷ topic) (c ∷ (p <> q)) ≡ true = rw cons-append at h in ground arith

starts_slash :
    (e : Char) (topic : String) → starts_with (e ∷ topic) ("" <> "/") ≡ true → code e ≡ b'/'
unfolding starts_with
starts_slash e topic h = let h' : starts_with (e ∷ topic) "/" ≡ true = h in ground arith

same_head :
    (topic a b : String)
    → NoSlash a
    → NoSlash b
    → starts_with topic (a <> "/") ≡ true
    → starts_with topic (b <> "/") ≡ true
    → a ≡ b
same_head topic [] [] na nb h k = refl
same_head [] [] (d ∷ b) na nb h k = absurd (starts_nil d b "/" k)
same_head (e ∷ topic) [] (d ∷ b) na (n, nb) h k =
    absurd (ground (arith, starts_slash e topic h, starts_cons e topic d b "/" k))
same_head [] (c ∷ a) b na nb h k = absurd (starts_nil c a "/" h)
same_head (e ∷ topic) (c ∷ a) [] (n, na) nb h k =
    absurd (ground (arith, starts_slash e topic k, starts_cons e topic c a "/" h))
same_head (e ∷ topic) (c ∷ a) (d ∷ b) (_, na) (_, nb) h k =
    let (ec, h') = starts_cons e topic c a "/" h in
    let (ed, k') = starts_cons e topic d b "/" k in
    ap₂ (λ x y. x ∷ y) (Char-path c d (cc (ec, ed))) (same_head topic a b na nb h' k')

abbrev after_prefix : String → String → String
after_prefix [] topic = topic
after_prefix (c ∷ p) [] = []
after_prefix (c ∷ p) (d ∷ topic) = after_prefix p topic

below_prefix :
    (p topic q : String)
    → starts_with topic (p <> q) ≡ true
    → starts_with (after_prefix p topic) q ≡ true
below_prefix [] topic q h = rw nil-append at h
below_prefix (c ∷ p) [] q h = absurd (starts_nil c p q h)
below_prefix (c ∷ p) (d ∷ topic) q h = below_prefix p topic q (starts_cons d topic c p q h).1

-- Two addons whose ids hold no slash own no common topic.
pub namespaces_disjoint :
    (topic a b : String)
    → NoSlash a
    → NoSlash b
    → starts_with topic (addon_prefix a) ≡ true
    → starts_with topic (addon_prefix b) ≡ true
    → a ≡ b
unfolding addon_prefix
namespaces_disjoint topic a b na nb h k =
    same_head (after_prefix "synthia/addons/" topic) a b na nb
      (below_prefix "synthia/addons/" topic (a <> "/") h)
      (below_prefix "synthia/addons/" topic (b <> "/") k)
