-- ===== src/Prelude/Sorting.antt =====
-- Python's `sorted` at texts: the order of their code points, and a stable sort by a key.
use Prim.Native.Char.{code}
use Prim.Native.String.{String, [], ◌∷◌}
use mathlib.Core.Path.{◌≡◌, refl, sym, ◌∙◌}
use mathlib.Core.Logic.{inl, inr}
use mathlib.Core.Bool.{Bool, true, false, ◌||◌}
use mathlib.Core.Option.{some}
use mathlib.Core.List.{List, [], ◌∷◌, map}
use native.Mathlib.Omega.{arith}
use text.Mathlib.Text.{◌==◌}
use text.Mathlib.TextEquality.{eq_iff}
use synthia_mqtt.Prelude.Tests.{eqb, ltb, if◌then◌else◌, Bool-cases}
use synthia_mqtt.Prelude.Lists.{Dict, lookup, any, contains}

-- `s <= t`
unfoldable pub text_leb : String → String → Bool
text_leb [] t = true
text_leb (c ∷ s) [] = false
text_leb (c ∷ s) (d ∷ t) = if eqb (code c) (code d) then text_leb s t else ltb (code c) (code d)

pub text_leb_refl : (s : String) → text_leb s s ≡ true
unfolding text_leb
text_leb_refl [] = refl
text_leb_refl (c ∷ s) = ground (arith, text_leb_refl s)

pub text_leb_total : (s t : String) → (text_leb s t || text_leb t s) ≡ true
unfolding text_leb
text_leb_total [] t = refl
text_leb_total (c ∷ s) [] = refl
text_leb_total (c ∷ s) (d ∷ t) = ground (arith, text_leb_total s t)

module _ {ℓ} {A : Type ℓ} (key : A → String) where
  -- Before the first item with a key as large.
  unfoldable pub place : A → List A → List A
  unfolding text_leb
  place x [] = x ∷ []
  place x (y ∷ ys) = if text_leb (key x) (key y) then x ∷ y ∷ ys else y ∷ place x ys

  -- `sorted(items, key=key)`
  unfoldable pub sort_by : List A → List A
  unfolding place
  sort_by [] = []
  sort_by (x ∷ xs) = place x (sort_by xs)

  abbrev heads_above : A → List A → Bool
  heads_above x [] = true
  heads_above x (y ∷ ys) = text_leb (key x) (key y)

  -- Each key is at most the next one.
  pub data IsSorted : List A → Type ℓ where
    empty : IsSorted []
    before : {x : A} {xs : List A} → heads_above x xs ≡ true → IsSorted xs → IsSorted (x ∷ xs)

  heads_above-place :
      (x y : A) (ys : List A)
      → text_leb (key x) (key y) ≡ false
      → heads_above y ys ≡ true
      → heads_above y (place x ys) ≡ true
  unfolding place
  heads_above-place x y [] h above = ground (arith, text_leb_total (key x) (key y))
  heads_above-place x y (z ∷ ys) h above = ground (arith, text_leb_total (key x) (key y))

  place-IsSorted : (x : A) (xs : List A) → IsSorted xs → IsSorted (place x xs)
  unfolding place
  place-IsSorted x [] h = before refl empty
  place-IsSorted x (y ∷ ys) (before above h) = elim (Bool-cases (text_leb (key x) (key y))) [
    | inl least ↦ rw least (before least (before above h))
    | inr more ↦ rw more (before (heads_above-place x y ys more above) (place-IsSorted x ys h))
  ]

  pub sort_by-IsSorted : (xs : List A) → IsSorted (sort_by xs)
  unfolding sort_by
  sort_by-IsSorted [] = empty
  sort_by-IsSorted (x ∷ xs) = place-IsSorted x (sort_by xs) (sort_by-IsSorted xs)

  any-place : (p : A → Bool) (x : A) (xs : List A) → any p (place x xs) ≡ (p x || any p xs)
  unfolding place
  any-place p x [] = refl
  any-place p x (y ∷ ys) = ground (arith, any-place p x ys)

  pub any-sort_by : (p : A → Bool) (xs : List A) → any p (sort_by xs) ≡ any p xs
  unfolding sort_by
  any-sort_by p [] = refl
  any-sort_by p (x ∷ xs) = ground (arith, any-place p x (sort_by xs), any-sort_by p xs)

module _ {ℓ κ} {A : Type ℓ} {B : Type κ} (key : B → String) (f : A → B) where
  heads_above-map :
      (x : A) (xs : List A)
      → heads_above (λ y. key (f y)) x xs ≡ true
      → heads_above key (f x) (map f xs) ≡ true
  heads_above-map x [] h = refl
  heads_above-map x (y ∷ ys) h = h

  pub IsSorted-map : (xs : List A) → IsSorted (λ x. key (f x)) xs → IsSorted key (map f xs)
  IsSorted-map [] empty = empty
  IsSorted-map (x ∷ xs) (before above h) = before (heads_above-map x xs above) (IsSorted-map xs h)

-- `sorted(d.items())` of a dictionary, whose keys differ, so no two values are compared.
abbrev pub sort_items {ℓ} : {V : Type ℓ} → Dict V → Dict V
sort_items {V} = sort_by (λ (entry : String × V). entry.0)

module _ {ℓ} {V : Type ℓ} where
  lookup-place :
      (k j : String) (v : V) (d : Dict V)
      → lookup j (place (λ (entry : String × V). entry.0) (k, v) d)
        ≡ (if k == j then some v else lookup j d)
  unfolding place lookup
  lookup-place k j v [] = refl
  lookup-place k j v ((i, w) ∷ d) =
      ground (arith, eq_iff k j, eq_iff i j, eq_iff k i, text_leb_refl k, lookup-place k j v d)

  pub lookup-sort_items : (j : String) (d : Dict V) → lookup j (sort_items d) ≡ lookup j d
  unfolding sort_by lookup
  lookup-sort_items j [] = refl
  lookup-sort_items j ((k, v) ∷ d) = rw (lookup-place k j v (sort_items d), lookup-sort_items j d)

-- `sorted(texts)`
abbrev pub sort_texts : List String → List String
sort_texts = sort_by (λ (s : String). s)

contains-any : (x : String) (xs : List String) → contains x xs ≡ any (λ (y : String). y == x) xs
contains-any x [] = refl
contains-any x (y ∷ xs) = rw (contains-any x xs)

pub contains-sort_texts :
    (x : String) (xs : List String) → contains x (sort_texts xs) ≡ contains x xs
contains-sort_texts x xs =
    contains-any x (sort_texts xs)
    ∙ any-sort_by (λ (s : String). s) (λ y. y == x) xs
    ∙ sym (contains-any x xs)
