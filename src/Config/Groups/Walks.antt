-- ===== src/Config/Groups/Walks.antt =====
-- What the search for the needed groups keeps, and the depth that it reaches.
use mathlib.Core.Path.{subst}
use synthia_mqtt.Prelude.{
  ℕ, suc, ◌≤◌, ◌<◌, ◌≡◌, refl, sym, ◌∙◌, ap, ◌⊎◌, inl, inr, String, Bool, true, false, not, ◌||◌,
  Bool-cases, is_some, some, List, [], ◌∷◌, ◌++◌, contains, contains-append, set_add, set_discard,
  contains-set_add, Dict, lookup, length, if◌then◌else◌, ◌==◌, eq_iff, eq_refl, arith,
}
use synthia_mqtt.Topics.{normalize_topics}
use synthia_mqtt.Config.Groups.{GroupMetadata, Walk, enter, leave}

-- The group `x` has `d` among the groups that it depends on.
pub record Edge (groups : Dict GroupMetadata) (x d : String) : Type 0 where
  pub metadata : GroupMetadata
  pub known : lookup x groups ≡ some metadata
  pub listed : contains d (normalize_topics metadata.depends_on) ≡ true

-- One group depends on another, directly or through others.
pub data Depends (groups : Dict GroupMetadata) (x : String) : String → Type 0 where
  direct : {d : String} → Edge groups x d → Depends groups x d
  through : {y d : String} → Depends groups x y → Edge groups y d → Depends groups x d

-- A group is requested, or a needed group depends on it.
pub data Needed (groups : Dict GroupMetadata) (requested : List String) : String → Type 0 where
  asked : {x : String} → contains x requested ≡ true → Needed groups requested x
  implied : {x d : String} → Needed groups requested x → Edge groups x d → Needed groups requested d

-- `d` may stand where `x` follows the groups `before`: it is one of them, it is not supported, or
-- it depends on `x` itself.
abbrev pub Precedes : Dict GroupMetadata → List String → String → String → Type 0
Precedes groups before x d =
    (contains d before ≡ true) ⊎ ((is_some (lookup d groups) ≡ false) ⊎ Depends groups d x)

-- A list built group by group: each is new, supported and needed, and comes after those that it
-- depends on, cycles aside.
pub data IsOrdered (groups : Dict GroupMetadata) (requested : List String)
    : List String → Type 0 where
  nothing : IsOrdered groups requested []
  next_group :
      {before : List String} {x : String}
      → IsOrdered groups requested before
      → contains x before ≡ false
      → is_some (lookup x groups) ≡ true
      → Needed groups requested x
      → ((d : String) → Edge groups x d → Precedes groups before x d)
      → IsOrdered groups requested (before ++ (x ∷ []))

-- The groups that are not being visited.
abbrev pub room : Dict GroupMetadata → List String → ℕ
room [] visiting = 0
room ((x, metadata) ∷ rest) visiting =
    if contains x visiting then room rest visiting else suc (room rest visiting)

pub room-nil : (groups : Dict GroupMetadata) → room groups [] ≡ length groups
room-nil [] = refl
room-nil (g ∷ rest) = ap suc (room-nil rest)

room-cons-le :
    (groups : Dict GroupMetadata) (x : String) (visiting : List String)
    → room groups (x ∷ visiting) ≤ room groups visiting
room-cons-le [] x visiting = omega arith
room-cons-le ((y, m) ∷ rest) x visiting = ground (arith, room-cons-le rest x visiting)

pub room-cons-lt :
    (groups : Dict GroupMetadata) (x : String) (visiting : List String)
    → is_some (lookup x groups) ≡ true
    → contains x visiting ≡ false
    → room groups (x ∷ visiting) < room groups visiting
unfolding lookup
room-cons-lt [] x visiting h n = ground arith
room-cons-lt ((y, m) ∷ rest) x visiting h n = elim (Bool-cases (y == x)) [
  | inl e ↦
      let same : y ≡ x = (eq_iff y x).0 e in ground (arith, room-cons-le rest x visiting, eq_refl x)
  | inr e ↦
      let less = room-cons-lt rest x visiting (rw e at h) n in
      ground (arith, less, eq_iff x y, eq_iff y x)
]

module _ (groups : Dict GroupMetadata) (requested : List String) where
  -- `d` has been dealt with: it is in the list, about to be, or not supported.
  abbrev pub settled : Walk → String → Bool
  settled w d = contains d w.ordered || contains d w.visiting || not (is_some (lookup d groups))

  pub record IsWalk (w : Walk) : Type 0 where
    pub finished : (x : String) → contains x w.visited ≡ contains x w.ordered
    pub apart : (x : String) → contains x w.ordered ≡ true → contains x w.visiting ≡ false
    pub closed : (x d : String) → contains x w.ordered ≡ true → Edge groups x d → settled w d ≡ true
    pub order : IsOrdered groups requested w.ordered

  -- What a call of `visit` leads to.
  pub record Grows (w w' : Walk) : Type 0 where
    pub same : w'.visiting ≡ w.visiting
    pub grows : (x : String) → contains x w.ordered ≡ true → contains x w'.ordered ≡ true
    pub walk : IsWalk w'

  pub Grows-refl : (w : Walk) → IsWalk w → Grows w w
  Grows-refl w h = record { same = refl; grows = λ x e. e; walk = h }

  pub Grows-trans : (u v w : Walk) → Grows u v → Grows v w → Grows u w
  Grows-trans u v w g h = record {
    same = h.same ∙ g.same;
    grows = λ x e. h.grows x (g.grows x e);
    walk = h.walk;
  }

  pub settled-Grows :
      (w w' : Walk) (d : String) → Grows w w' → settled w d ≡ true → settled w' d ≡ true
  settled-Grows w w' d g h = elim (Bool-cases (contains d w.ordered)) [
    | inl e ↦ rw (g.grows d e)
    | inr n ↦ rw (g.same) (ground (arith, h, n))
  ]

  set_discard-absent :
      (x : String) (xs : List String) → contains x xs ≡ false → set_discard x xs ≡ xs
  unfolding set_discard
  set_discard-absent x [] n = refl
  set_discard-absent x (y ∷ xs) n = ground (arith, n, set_discard-absent x xs)

  set_discard-cons :
      (x : String) (xs : List String) → contains x xs ≡ false → set_discard x (x ∷ xs) ≡ xs
  unfolding set_discard
  set_discard-cons x xs n = rw eq_refl (set_discard-absent x xs n)

  -- A group that is entered and left.
  module _ (x : String) (w : Walk) where
    pub enter-IsWalk : IsWalk w → contains x w.visited ≡ false → IsWalk (enter x w)
    unfolding enter
    enter-IsWalk h n = record {
      finished = h.finished;
      apart = λ y e.
          rw (contains-set_add x y w.visiting)
            (ground (arith, h.apart y e, h.finished x, n, e, eq_iff x y));
      closed =
          λ y d e edge. rw (contains-set_add x d w.visiting) (ground (arith, h.closed y d e edge));
      order = h.order;
    }

    pub enter-visiting : contains x w.visiting ≡ false → (enter x w).visiting ≡ x ∷ w.visiting
    unfolding enter set_add
    enter-visiting n = rw n

    -- The groups that `x` depends on have been dealt with while it was visited.
    module _ (v : Walk) (h : IsWalk v) (visiting : v.visiting ≡ x ∷ w.visiting)
        (grown : (y : String) → contains y w.ordered ≡ true → contains y v.ordered ≡ true)
        (fresh : contains x w.visiting ≡ false) (supported : is_some (lookup x groups) ≡ true)
        (needed : Needed groups requested x)
        (above : (y : String) → contains y w.visiting ≡ true → Depends groups y x)
        (done : (d : String) → Edge groups x d → settled v d ≡ true) where
      new : contains x v.ordered ≡ false
      new = elim (Bool-cases (contains x v.ordered)) [
        | inl e ↦ ground (arith, h.apart x e, ap (contains x) visiting, eq_refl x)
        | inr n ↦ n
      ]

      cyclic :
          (d : String) → Edge groups x d → contains d (x ∷ w.visiting) ≡ true → Depends groups d x
      cyclic d edge seen = elim (Bool-cases (x == d)) [
        | inl e ↦
            let same = (eq_iff x d).0 e in
            subst (λ z. Depends groups z x) same
              (direct (subst (λ z. Edge groups x z) (sym same) edge))
        | inr n ↦ above d (rw n at seen)
      ]

      precedes : (d : String) → Edge groups x d → Precedes groups v.ordered x d
      precedes d edge = elim (Bool-cases (contains d v.ordered)) [
        | inl e ↦ inl e
        | inr n ↦ elim (Bool-cases (is_some (lookup d groups))) [
          | inl s ↦
              let seen : contains d (x ∷ w.visiting) ≡ true =
                ground (arith, done d edge, ap (contains d) visiting, n, s) in
              inr (inr (cyclic d edge seen))
          | inr u ↦ inr (inl u)
        ]
      ]

      discarded : set_discard x v.visiting ≡ w.visiting
      discarded = rw visiting (set_discard-cons x w.visiting fresh)

      left_apart :
          (y : String)
          → (contains y v.ordered || contains y (x ∷ [])) ≡ true
          → contains y w.visiting ≡ false
      left_apart y e = elim (Bool-cases (contains y v.ordered)) [
        | inl o ↦ ground (arith, h.apart y o, ap (contains y) visiting)
        | inr n ↦ ground (arith, e, n, eq_iff x y, fresh)
      ]

      left_closed :
          (y d : String)
          → (contains y v.ordered || contains y (x ∷ [])) ≡ true
          → Edge groups y d
          → settled v d ≡ true
      left_closed y d e edge = elim (Bool-cases (contains y v.ordered)) [
        | inl o ↦ h.closed y d o edge
        | inr n ↦
            let same : x ≡ y = (eq_iff x y).0 (ground (arith, e, n)) in
            done d (subst (λ z. Edge groups z d) (sym same) edge)
      ]

      left_settled : (d : String) → settled v d ≡ true → settled (leave x v) d ≡ true
      unfolding leave
      left_settled d s =
          rw (contains-append d v.ordered (x ∷ []), discarded)
            (ground (arith, s, ap (contains d) visiting))

      pub leave-Grows : Grows w (leave x v)
      unfolding leave
      leave-Grows = record {
        same = discarded;
        grows = λ y e. rw (contains-append y v.ordered (x ∷ [])) (ground (arith, grown y e));
        walk = record {
          finished = λ y.
              rw (contains-set_add x y v.visited, contains-append y v.ordered (x ∷ []))
                (ground (arith, h.finished y));
          apart =
              λ y e. rw discarded (left_apart y (rw (contains-append y v.ordered (x ∷ [])) at e));
          closed = λ y d e edge.
              left_settled d
                (left_closed y d (rw (contains-append y v.ordered (x ∷ [])) at e) edge);
          order = next_group h.order new supported needed precedes;
        };
      }
