-- ===== src/Config/Groups/Visits.antt =====
-- `visit` and its loop over the groups: what a call with enough fuel leads to.
use mathlib.Core.Path.{subst}
use synthia_mqtt.Prelude.{
  ℕ, zero, suc, ◌<◌, ◌≡◌, refl, sym, ◌∙◌, inl, inr, String, true, false, ◌||◌, Bool-cases,
  Option-cases, is_some, Option, none, some, List, [], ◌∷◌, contains, contains-append, Dict, lookup,
  ◌==◌, eq_iff, eq_refl, arith,
}
use synthia_mqtt.Topics.{normalize_topics}
use synthia_mqtt.Config.Groups.{GroupMetadata, Walk, enter, leave, each, visit}
use synthia_mqtt.Config.Groups.Walks.{
  Edge, Depends, direct, through, Needed, implied, room, room-cons-lt, settled, IsWalk, Grows,
  Grows-refl, Grows-trans, settled-Grows, enter-IsWalk, enter-visiting, leave-Grows,
}

each-cons :
    (step : String → Walk → Option Walk) (x : String) (xs : List String) (w w1 : Walk)
    → step x w ≡ some w1
    → each step (x ∷ xs) w ≡ each step xs w1
unfolding each
each-cons step x xs w w1 e = rw (e, each)

-- The branches of `visit`.
module _ (groups : Dict GroupMetadata) (fuel : ℕ) (x : String) (w : Walk) where
  visit_seen :
      (contains x w.visited || contains x w.visiting) ≡ true → visit groups (suc fuel) x w ≡ some w
  unfolding visit
  visit_seen e = rw e

  visit_unknown :
      (contains x w.visited || contains x w.visiting) ≡ false
      → lookup x groups ≡ none
      → visit groups (suc fuel) x w ≡ some w
  unfolding visit
  visit_unknown n e = rw (n, e)

  visit_known :
      (metadata : GroupMetadata) (v : Walk)
      → (contains x w.visited || contains x w.visiting) ≡ false
      → lookup x groups ≡ some metadata
      → each (visit groups fuel) (normalize_topics metadata.depends_on) (enter x w) ≡ some v
      → visit groups (suc fuel) x w ≡ some (leave x v)
  unfolding visit
  visit_known metadata v n e h = rw (n, e, h)

some_injective : {A : Type 0} {a b : A} → some a ≡ some b → a ≡ b
some_injective e = cc

module _ (groups : Dict GroupMetadata) (requested : List String) where
  abbrev pub Above : Walk → String → Type 0
  Above w x = (y : String) → contains y w.visiting ≡ true → Depends groups y x

  -- What a call leads to, when it may call for the group `x`.
  abbrev pub Returns : (Walk → Option Walk) → String → Walk → Type 0
  Returns run x w =
      (w' : Walk) × (run w ≡ some w')
      × Grows groups requested w w'
      × (settled groups requested w' x ≡ true)

  abbrev pub IsCall : (String → Walk → Option Walk) → ℕ → Type 0
  IsCall step size =
      (x : String) (w : Walk)
      → IsWalk groups requested w
      → room groups w.visiting < size
      → Needed groups requested x
      → Above w x
      → Returns (step x) x w

  abbrev pub MayCall : List String → Walk → Type 0
  MayCall xs w = (x : String) → contains x xs ≡ true → Needed groups requested x × Above w x

  pub each-Returns :
      (step : String → Walk → Option Walk) (size : ℕ)
      → IsCall step size
      → (xs : List String) (w : Walk) → IsWalk groups requested w
      → room groups w.visiting < size
      → MayCall xs w
      → (w' : Walk) × (each step xs w ≡ some w')
        × Grows groups requested w w'
        × ((x : String) → contains x xs ≡ true → settled groups requested w' x ≡ true)
  unfolding each
  each-Returns step size call [] w h r n =
      (w, refl, Grows-refl groups requested w h, λ x e. ground arith)
  each-Returns step size call (x ∷ xs) w h r n =
      let (needed, above) = n x (rw eq_refl) in
      let (w1, e1, g1, s1) = call x w h r needed above in
      let (w2, e2, g2, s2) =
        each-Returns step size call xs w1 (g1.walk) (rw (g1.same) r)
          (λ y e. let (m, a) = n y (ground (arith, e)) in (m, λ z f. a z (rw (g1.same) at f))) in
      (
        w2,
        each-cons step x xs w w1 e1 ∙ e2,
        Grows-trans groups requested w w1 w2 g1 g2,
        λ y e. elim (Bool-cases (x == y)) [
          | inl same ↦
              settled-Grows groups requested w1 w2 y g2
                (subst (λ z. settled groups requested w1 z ≡ true) ((eq_iff x y).0 same) s1)
          | inr differ ↦ s2 y (rw differ at e)
        ],
      )

  Above-listed :
      (x d : String) (w : Walk)
      → Edge groups x d
      → Above w x
      → (y : String) → contains y (x ∷ w.visiting) ≡ true
      → Depends groups y d
  Above-listed x d w edge above y seen = elim (Bool-cases (x == y)) [
    | inl e ↦ subst (λ z. Depends groups z d) ((eq_iff x y).0 e) (direct edge)
    | inr n ↦ through (above y (rw n at seen)) edge
  ]

  listed_in :
      (x d : String) (metadata : GroupMetadata)
      → lookup x groups ≡ some metadata
      → Edge groups x d
      → contains d (normalize_topics metadata.depends_on) ≡ true
  listed_in x d metadata known edge =
      let same : edge.metadata ≡ metadata = some_injective (sym edge.known ∙ known) in
      subst (λ (g : GroupMetadata). contains d (normalize_topics g.depends_on) ≡ true) same
        edge.listed

  leave-settled : (x : String) (w : Walk) → settled groups requested (leave x w) x ≡ true
  unfolding leave
  leave-settled x w = rw (contains-append x w.ordered (x ∷ []), eq_refl) (ground arith)

  visit-new :
      (fuel : ℕ)
      → IsCall (visit groups fuel) fuel
      → (x : String) (metadata : GroupMetadata) (w : Walk) → lookup x groups ≡ some metadata
      → IsWalk groups requested w
      → room groups w.visiting < suc fuel
      → Needed groups requested x
      → Above w x
      → (contains x w.visited || contains x w.visiting) ≡ false
      → Returns (visit groups (suc fuel) x) x w
  unfolding enter
  visit-new fuel call x metadata w known h r needed above new =
      let unseen : contains x w.visited ≡ false = ground (arith, new) in
      let fresh : contains x w.visiting ≡ false = ground (arith, new) in
      let supported : is_some (lookup x groups) ≡ true = rw known in
      let inside = enter-visiting groups requested x w fresh in
      let (v, e, g, s) =
        each-Returns (visit groups fuel) fuel call (normalize_topics metadata.depends_on)
          (enter x w) (enter-IsWalk groups requested x w h unseen)
          (rw inside (omega (arith, r, room-cons-lt groups x w.visiting supported fresh)))
          (λ d listed. (
            implied needed (record { metadata = metadata; known = known; listed = listed }),
            λ y seen.
                Above-listed x d w (record { metadata = metadata; known = known; listed = listed })
                  above y (rw inside at seen),
          )) in
      (
        leave x v,
        visit_known groups fuel x w metadata v new known e,
        leave-Grows groups requested x w v (g.walk) (g.same ∙ inside) (g.grows) fresh supported
            needed above (λ d edge. s d (listed_in x d metadata known edge)),
        leave-settled x v,
      )

  pub visit-Returns : (fuel : ℕ) → IsCall (visit groups fuel) fuel
  visit-Returns zero x w h r needed above = ground arith
  visit-Returns (suc fuel) x w h r needed above =
      elim (Bool-cases (contains x w.visited || contains x w.visiting)) [
        | inl e ↦ (
          w,
          visit_seen groups fuel x w e,
          Grows-refl groups requested w h,
          ground (arith, e, h.finished x),
        )
        | inr n ↦ elim (Option-cases (lookup x groups)) [
          | inl e ↦ (
            w,
            visit_unknown groups fuel x w n e,
            Grows-refl groups requested w h,
            rw e (ground arith),
          )
          | inr (metadata, e) ↦
              visit-new fuel (visit-Returns fuel) x metadata w e h r needed above n
        ]
      ]
