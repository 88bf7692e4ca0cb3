-- ===== src/Json/Objects.antt =====
-- Objects that the services write: assignment to a key, lists of texts, and the tests on values
-- of any type.
use synthia_mqtt.Prelude.{
  String, ◌≡◌, refl, Bool, false, Option, none, some, List, [], ◌∷◌, arith, ◌==◌, eq_iff,
  if◌then◌else◌,
}
use synthia_mqtt.Json.{Json, null, str, obj, Items, nil, cons, Fields, end, field, get?}

-- `data[key] = value`
unfoldable pub put : String → Json → Fields → Fields
put key value end = field key value end
put key value (field k v rest) =
    if k == key then field k value rest else field k v (put key value rest)

pub get?-put :
    (key k : String) (value : Json) (data' : Fields)
    → get? k (put key value data') ≡ (if key == k then some value else get? k data')
unfolding put get?
get?-put key k value end = refl
get?-put key k value (field j v rest) =
    ground (arith, eq_iff key k, eq_iff j key, eq_iff j k, get?-put key k value rest)

-- `data.update(more)`
unfoldable pub put_all : Fields → Fields → Fields
unfolding put
put_all end data' = data'
put_all (field k v rest) data' = put_all rest (put k v data')

-- `put` for a value that may be left out (`model_dump(exclude_none=True)`).
abbrev pub put_some : String → Option Json → Fields → Fields
put_some key none data' = data'
put_some key (some value) data' = put key value data'

-- A list of texts as an array, and the texts of one that `item_texts` reads.
unfoldable pub texts : List String → Items
texts [] = nil
texts (s ∷ rest) = cons (str s) (texts rest)

abbrev pub text_or_null : Option String → Json
text_or_null none = null
text_or_null (some s) = str s

-- `value if isinstance(value, dict) else {}`
unfoldable pub object_or_empty : Json → Fields
object_or_empty (obj data') = data'
object_or_empty _ = end

-- `value in {...}` for a value that can be an item of a set.
unfoldable pub is_text : String → Json → Bool
is_text s (str t) = t == s
is_text s _ = false
