-- ===== src/Prelude/Lists.antt =====
-- Lists over the native numbers, membership in a list of texts (Python's `in`), sets of texts and
-- dictionaries with text keys.
use Prim.Native.Nat.{ℕ, zero, suc, ◌+◌, ◌-◌}
use Prim.Native.String.{String}
use mathlib.Core.Path.{◌≡◌, refl, ap}
use mathlib.Core.Bool.{Bool, true, false, ◌&&◌, ◌||◌}
use mathlib.Core.Option.{Option, none, some}
use mathlib.Core.List.{List, [], ◌∷◌, ◌++◌, map}
use native.Mathlib.Omega.{arith}
use text.Mathlib.Text.{◌==◌}
use text.Mathlib.TextEquality.{eq_iff}
use synthia_mqtt.Prelude.Tests.{if◌then◌else◌}

module _ {ℓ} {A : Type ℓ} where
  abbrev pub length : List A → ℕ
  length [] = 0
  length (x ∷ xs) = suc (length xs)

  abbrev pub take : ℕ → List A → List A
  take zero xs = []
  take (suc n) [] = []
  take (suc n) (x ∷ xs) = x ∷ take n xs

  abbrev pub drop : ℕ → List A → List A
  drop zero xs = xs
  drop (suc n) [] = []
  drop (suc n) (x ∷ xs) = drop n xs

  abbrev pub any : (A → Bool) → List A → Bool
  any p [] = false
  any p (x ∷ xs) = p x || any p xs

  abbrev pub all : (A → Bool) → List A → Bool
  all p [] = true
  all p (x ∷ xs) = p x && all p xs

  -- The comprehension `[x for x in xs if p(x)]`.
  abbrev pub keep : (A → Bool) → List A → List A
  keep p [] = []
  keep p (x ∷ xs) = let rest = keep p xs in if p x then x ∷ rest else rest

  pub length-append : (xs ys : List A) → length (xs ++ ys) ≡ length xs + length ys
  length-append [] ys = omega arith
  length-append (x ∷ xs) ys = omega (arith, length-append xs ys)

  pub length-drop : (n : ℕ) (xs : List A) → length (drop n xs) ≡ length xs - n
  length-drop zero xs = omega arith
  length-drop (suc n) [] = omega arith
  length-drop (suc n) (x ∷ xs) = omega (arith, length-drop n xs)

-- `x in xs`
abbrev pub contains : String → List String → Bool
contains x [] = false
contains x (y ∷ xs) = y == x || contains x xs

pub contains-append :
    (x : String) (xs ys : List String) → contains x (xs ++ ys) ≡ (contains x xs || contains x ys)
contains-append x [] ys = refl
contains-append x (y ∷ xs) ys = ground (arith, contains-append x xs ys)

pub contains-keep :
    (p : String → Bool) (x : String) (xs : List String)
    → contains x (keep p xs) ≡ (contains x xs && p x)
contains-keep p x [] = refl
contains-keep p x (y ∷ xs) = ground (arith, contains-keep p x xs, eq_iff y x)

-- The set operations `add` and `discard`.
unfoldable pub set_add : String → List String → List String
set_add x xs = if contains x xs then xs else x ∷ xs

unfoldable pub set_discard : String → List String → List String
set_discard x [] = []
set_discard x (y ∷ xs) = let rest = set_discard x xs in if y == x then rest else y ∷ rest

pub contains-set_add :
    (x y : String) (xs : List String)
    → contains y (set_add x xs) ≡ (if x == y then true else contains y xs)
unfolding set_add
contains-set_add x y xs = ground (arith, eq_iff x y)

pub contains-set_discard :
    (x y : String) (xs : List String)
    → contains y (set_discard x xs) ≡ (if x == y then false else contains y xs)
unfolding set_discard
contains-set_discard x y [] = ground arith
contains-set_discard x y (z ∷ xs) =
    ground (arith, contains-set_discard x y xs, eq_iff x y, eq_iff z x, eq_iff z y)

pub ruleset set_laws = (contains-set_add, contains-set_discard)

-- A dictionary in insertion order.
abbrev pub Dict {ℓ} : Type ℓ → Type ℓ
Dict V = List (String × V)

module _ {ℓ} {V : Type ℓ} where
  -- `d.get(k)`
  unfoldable pub lookup : String → Dict V → Option V
  lookup k [] = none
  lookup k ((j, v) ∷ d) = if j == k then some v else lookup k d

  -- `d[k] = v`
  unfoldable pub insert : String → V → Dict V → Dict V
  insert k v [] = (k, v) ∷ []
  insert k v ((j, w) ∷ d) = if j == k then (k, v) ∷ d else (j, w) ∷ insert k v d

  -- `d.pop(k, None)`; every entry of the key goes, and a real dictionary has at most one.
  unfoldable pub erase : String → Dict V → Dict V
  erase k [] = []
  erase k ((j, w) ∷ d) = let rest = erase k d in if j == k then rest else (j, w) ∷ rest

  pub lookup-insert :
      (k j : String) (v : V) (d : Dict V)
      → lookup j (insert k v d) ≡ (if k == j then some v else lookup j d)
  unfolding lookup insert
  lookup-insert k j v [] = refl
  lookup-insert k j v ((i, w) ∷ d) =
      ground (arith, eq_iff k j, eq_iff i k, eq_iff i j, lookup-insert k j v d)

  pub lookup-erase :
      (k j : String) (d : Dict V) → lookup j (erase k d) ≡ (if k == j then none else lookup j d)
  unfolding lookup erase
  lookup-erase k j [] = ground arith
  lookup-erase k j ((i, w) ∷ d) =
      ground (arith, eq_iff k j, eq_iff i k, eq_iff i j, lookup-erase k j d)

pub ruleset dict_laws = (lookup-insert, lookup-erase)

pub length-map {ℓ κ} :
    {A : Type ℓ} {B : Type κ} (f : A → B) (xs : List A) → length (map f xs) ≡ length xs
length-map f [] = refl
length-map f (x ∷ xs) = ap suc (length-map f xs)
