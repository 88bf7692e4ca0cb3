-- ===== src/Json.antt =====
-- JSON values as Python holds them, and the built-in functions that the services apply to them.
pub mod Objects
use synthia_mqtt.Prelude.{
  ℕ, zero, String, Bool, true, false, not, ◌&&◌, ◌||◌, Option, none, some, List, [], ◌∷◌, leb, ◌==◌,
  if◌then◌else◌,
}
use synthia_mqtt.Prelude.Text.{strip, lower, split_words}

-- `negsuc n` is -(n + 1).
pub data ℤ : Type 0 where
  pos : ℕ → ℤ
  negsuc : ℕ → ℤ

abbrev pub leb_ℤ : ℤ → ℤ → Bool
leb_ℤ (pos a) (pos b) = leb a b
leb_ℤ (pos a) (negsuc b) = false
leb_ℤ (negsuc a) (pos b) = true
leb_ℤ (negsuc a) (negsuc b) = leb b a

-- A float is held by its printed form. The keys of an object are distinct.
mutual
  pub data Json : Type 0 where
    null : Json
    boolean : Bool → Json
    int : ℤ → Json
    float : String → Json
    str : String → Json
    arr : Items → Json
    obj : Fields → Json

  pub data Items : Type 0 where
    nil : Items
    cons : Json → Items → Items

  pub data Fields : Type 0 where
    end : Fields
    field : String → Json → Fields → Fields

-- What is used of the interpreter and of `json`: the printed form of a number, an array or an
-- object, `int` of a text or a float, where `none` is an exception, `json.loads` and `json.dumps`.
pub record Builtins : Type 0 where
  pub print_number : ℤ → String
  pub repr : Json → String
  pub int_of_text : String → Option ℤ
  pub int_of_float : String → Option ℤ
  pub loads : String → Option Json
  pub dumps : Json → String

-- `data.get(key)`, `none` for a missing key.
unfoldable pub get? : String → Fields → Option Json
get? key end = none
get? key (field k v rest) = if k == key then some v else get? key rest

-- `data.get(key)`, with `None` for a missing key.
unfoldable pub get : String → Fields → Json
unfolding get?
get key data' = elim (get? key data') [ none ↦ null | some v ↦ v ]

-- `data.get(key, default)`
unfoldable pub get_or : String → Json → Fields → Json
unfolding get?
get_or key default data' = elim (get? key data') [ none ↦ default | some v ↦ v ]

-- `key in data`
unfoldable pub has_key : String → Fields → Bool
unfolding get?
has_key key data' = elim (get? key data') [ none ↦ false | some v ↦ true ]

-- `bool(value)`
unfoldable pub truthy : Json → Bool
truthy null = false
truthy (boolean b) = b
truthy (int (pos zero)) = false
truthy (int _) = true
truthy (float text) = not (text == "0.0") && not (text == "-0.0")
truthy (str s) = not (s == "")
truthy (arr nil) = false
truthy (arr (cons x xs)) = true
truthy (obj end) = false
truthy (obj (field k v rest)) = true

-- `a or b`
unfoldable pub or_else : Json → Json → Json
unfolding truthy
or_else a b = if truthy a then a else b

module _ ⦃python : Builtins⦄ where
  -- `str(value)`
  unfoldable pub to_text : Json → String
  to_text null = "None"
  to_text (boolean true) = "True"
  to_text (boolean false) = "False"
  to_text (int n) = python.print_number n
  to_text (float text) = text
  to_text (str s) = s
  to_text (arr xs) = python.repr (arr xs)
  to_text (obj fs) = python.repr (obj fs)

  -- `int(value)`; `none` is an exception.
  unfoldable pub to_int : Json → Option ℤ
  to_int null = none
  to_int (boolean true) = some (pos 1)
  to_int (boolean false) = some (pos 0)
  to_int (int n) = some n
  to_int (float text) = python.int_of_float text
  to_int (str s) = python.int_of_text s
  to_int (arr xs) = none
  to_int (obj fs) = none

  -- `str(value).strip()`
  unfoldable pub trimmed : Json → String
  unfolding to_text
  trimmed v = strip (to_text v)

-- `{part.strip() for part in parts if part.strip()}`; the order of a set is not observed.
unfoldable pub nonblank : List String → List String
nonblank [] = []
nonblank (part ∷ rest) =
    let more = nonblank rest in if strip part == "" then more else strip part ∷ more

module _ ⦃python : Builtins⦄ where
  unfoldable pub item_texts : Items → List String
  unfolding to_text
  item_texts nil = []
  item_texts (cons x xs) = to_text x ∷ item_texts xs

  -- The sets of scopes of a token or a grant, from `scp` or `scopes`
  -- (`_extract_scopes` of app/services/token_auth.py and of app/services/policy_cache.py).
  scope_set : Json → List String
  unfolding nonblank item_texts
  scope_set (str s) = nonblank (split_words s)
  scope_set (arr xs) = nonblank (item_texts xs)
  scope_set _ = []

  unfoldable pub extract_scopes : Fields → List String
  unfolding scope_set
  extract_scopes data' = scope_set (get_or "scp" (get "scopes" data') data')

-- `os.getenv(name, default)`
abbrev pub Environment : Type 0
Environment = String → Option String

abbrev pub getenv : Environment → String → String → String
getenv env name default = elim (env name) [ none ↦ default | some v ↦ v ]

-- `_to_bool`, the same in four services.
unfoldable pub to_bool : String → Bool
to_bool raw = let v = lower (strip raw) in v == "1" || v == "true" || v == "yes" || v == "on"
