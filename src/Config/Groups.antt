-- ===== src/Config/Groups.antt =====
-- `_resolve_requested_optional_groups` of app/services/config_store.py: the groups that a request
-- needs, each after those that it depends on.
pub mod Walks
pub mod Visits
pub mod Needed
use synthia_mqtt.Prelude.{
  ℕ, zero, suc, String, Bool, true, false, ◌||◌, Option, none, some, List, [], ◌∷◌, ◌++◌, contains,
  set_add, set_discard, Dict, lookup, length, if◌then◌else◌,
}
use synthia_mqtt.Topics.{normalize_topics}

-- The metadata of a supported group.
pub record GroupMetadata : Type 0 where
  pub name : String
  pub compose_file : String
  pub setup_required : Bool
  pub depends_on : List String
  pub default_enabled : Bool

-- The variables of the search.
pub record Walk : Type 0 where
  pub ordered : List String
  pub visiting : List String
  pub visited : List String

unfoldable pub enter : String → Walk → Walk
unfolding set_add
enter group_id w = record w { visiting = set_add group_id w.visiting }

unfoldable pub leave : String → Walk → Walk
unfolding set_add set_discard
leave group_id w = record {
  ordered = w.ordered ++ (group_id ∷ []);
  visiting = set_discard group_id w.visiting;
  visited = set_add group_id w.visited;
}

-- A loop of calls, each of which may run out of fuel.
unfoldable pub each : (String → Walk → Option Walk) → List String → Walk → Option Walk
each step [] w = some w
each step (x ∷ xs) w = elim (step x w) [ none ↦ none | some w' ↦ each step xs w' ]

abbrev pub left : String → Option Walk → Option Walk
left group_id none = none
left group_id (some w) = some (leave group_id w)

-- `visit`, with the depth of the recursion as fuel.
unfoldable pub visit : Dict GroupMetadata → ℕ → String → Walk → Option Walk
unfolding each enter leave
visit groups zero group_id w = none
visit groups (suc fuel) group_id w =
    if contains group_id w.visited || contains group_id w.visiting
    then some w
    else elim (lookup group_id groups) [
      | none ↦ some w
      | some metadata ↦
          left group_id
            (each (visit groups fuel) (normalize_topics metadata.depends_on) (enter group_id w))
    ]

abbrev pub start : Walk
start = record { ordered = []; visiting = []; visited = [] }

-- The whole search; its fuel allows for a visit of every group inside that of another.
unfoldable pub walk : Dict GroupMetadata → List String → Option Walk
unfolding visit
walk groups requested = each (visit groups (suc (length groups))) requested start

unfoldable pub resolve_requested_optional_groups : List String → Dict GroupMetadata → List String
unfolding walk
resolve_requested_optional_groups requested groups = elim (walk groups requested) [
  | none ↦ []
  | some w ↦ w.ordered
]
