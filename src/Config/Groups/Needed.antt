-- ===== src/Config/Groups/Needed.antt =====
-- What `resolve_requested_optional_groups` finds, and that its fuel is enough.
use mathlib.Core.Path.{subst}
use synthia_mqtt.Prelude.{
  suc, ◌≡◌, ◌↔◌, refl, sym, ap, inl, inr, String, true, Bool-cases, is_some, some, List, [], ◌∷◌,
  contains, contains-append, Dict, lookup, length, eq_iff, arith,
}
use synthia_mqtt.Config.Groups.{
  GroupMetadata, Walk, visit, start, walk, resolve_requested_optional_groups,
}
use synthia_mqtt.Config.Groups.Walks.{
  Needed, asked, implied, IsOrdered, nothing, next_group, room-nil, settled, IsWalk,
}
use synthia_mqtt.Config.Groups.Visits.{each-Returns, visit-Returns}

module _ (groups : Dict GroupMetadata) (requested : List String) where
  ordered-Needed :
      (x : String) (ordered : List String)
      → IsOrdered groups requested ordered
      → contains x ordered ≡ true
      → Needed groups requested x × (is_some (lookup x groups) ≡ true)
  ordered-Needed x _ nothing e = ground arith
  ordered-Needed x _ (next_group {before = before} {x = y} order new supported needed first) e =
      elim (Bool-cases (contains x before)) [
        | inl b ↦ ordered-Needed x before order b
        | inr n ↦
            let same : y ≡ x =
              (eq_iff y x).0 (ground (arith, rw (contains-append x before (y ∷ [])) at e, n)) in
            (
              subst (λ z. Needed groups requested z) same needed,
              subst (λ z. is_some (lookup z groups) ≡ true) same supported,
            )
      ]

  Needed-ordered :
      (w : Walk)
      → IsWalk groups requested w
      → w.visiting ≡ []
      → ((x : String) → contains x requested ≡ true → settled groups requested w x ≡ true)
      → (x : String) → Needed groups requested x
      → is_some (lookup x groups) ≡ true
      → contains x w.ordered ≡ true
  Needed-ordered w h empty found x (asked e) s = ground (arith, found x e, ap (contains x) empty)
  Needed-ordered w h empty found x (implied {x = y} needed edge) s =
      let before = Needed-ordered w h empty found y needed (rw (edge.known) (ground arith)) in
      ground (arith, h.closed y x before edge, ap (contains x) empty)

-- The list is ordered, and holds exactly the needed groups that are supported.
pub record IsResolution (groups : Dict GroupMetadata) (requested ordered : List String)
    : Type 0 where
  pub order : IsOrdered groups requested ordered
  pub exact :
      (x : String)
      → (contains x ordered ≡ true)
        ↔ (Needed groups requested x × (is_some (lookup x groups) ≡ true))

start-IsWalk :
    (groups : Dict GroupMetadata) (requested : List String) → IsWalk groups requested start
start-IsWalk groups requested = record {
  finished = λ x. refl;
  apart = λ x e. ground arith;
  closed = λ x d e edge. ground arith;
  order = nothing;
}

walk-IsResolution :
    (groups : Dict GroupMetadata) (requested : List String)
    → (w : Walk) × (walk groups requested ≡ some w) × IsResolution groups requested w.ordered
unfolding walk
walk-IsResolution groups requested =
    let (w, e, g, s) =
      each-Returns groups requested (visit groups (suc (length groups))) (suc (length groups))
        (visit-Returns groups requested (suc (length groups))) requested start
        (start-IsWalk groups requested) (rw (room-nil groups) (omega arith))
        (λ x e. (asked e, λ y f. ground arith)) in
    (
      w,
      e,
      record {
        order = g.walk.order;
        exact = λ x. (
          ordered-Needed groups requested x w.ordered (g.walk.order),
          λ (needed, s'). Needed-ordered groups requested w (g.walk) (g.same) s x needed s',
        );
      },
    )

-- The search ends, whatever the groups and the request, cycles included, and gives a resolution.
pub resolve-IsResolution :
    (groups : Dict GroupMetadata) (requested : List String)
    → (w : Walk) × (walk groups requested ≡ some w)
      × (resolve_requested_optional_groups requested groups ≡ w.ordered)
      × IsResolution groups requested (resolve_requested_optional_groups requested groups)
unfolding resolve_requested_optional_groups
resolve-IsResolution groups requested =
    let (w, e, h) = walk-IsResolution groups requested in
    let found : resolve_requested_optional_groups requested groups ≡ w.ordered =
      rw (e, resolve_requested_optional_groups) in
    (w, e, found, subst (IsResolution groups requested) (sym found) h)
