-- ===== src/Prelude/Text/Laws.antt =====
-- Laws of the text methods: `strip` twice is `strip`, what a stripped text looks like, prefixes.
use Prim.Native.String.{String, [], ◌∷◌, ◌++◌ as ◌<>◌}
use mathlib.Core.Path.{◌≡◌, refl, ap, ◌∙◌}
use mathlib.Core.Logic.{inl, inr}
use mathlib.Core.Bool.{Bool, true, false, ◌&&◌}
use mathlib.Core.List
use native.Mathlib.Omega.{arith}
use Prim.Native.Char.{code}
use text.Mathlib.Text.{◌==◌}
use text.Mathlib.TextLemmas.{cons-append}
use synthia_mqtt.Prelude.Tests.{eqb, Bool-cases}
use synthia_mqtt.Prelude.Text.{is_space, lstrip, rstrip, strip, split_on, starts_with}

-- A text that does not begin with white space.
abbrev StartsSolid : String → Type 0
StartsSolid [] = Unit
StartsSolid (c ∷ s) = is_space c ≡ false

lstrip-StartsSolid : (s : String) → StartsSolid (lstrip s)
unfolding lstrip
lstrip-StartsSolid [] = tt
lstrip-StartsSolid (c ∷ s) = elim (Bool-cases (is_space c)) [
  | inl space ↦ rw space (lstrip-StartsSolid s)
  | inr solid ↦ rw solid solid
]

rstrip-StartsSolid : (s : String) → StartsSolid s → StartsSolid (rstrip s)
unfolding rstrip
rstrip-StartsSolid [] h = tt
rstrip-StartsSolid (c ∷ s) h = rw h h

lstrip_of_StartsSolid : (s : String) → StartsSolid s → lstrip s ≡ s
unfolding lstrip
lstrip_of_StartsSolid [] h = refl
lstrip_of_StartsSolid (c ∷ s) h = rw h

rstrip_idem : (s : String) → rstrip (rstrip s) ≡ rstrip s
unfolding rstrip
rstrip_idem [] = refl
rstrip_idem (c ∷ s) = elim (Bool-cases (is_space c && rstrip s == "")) [
  | inl blank ↦ rw blank
  | inr solid ↦ rw solid (rw (rstrip_idem s, solid))
]

-- Stripping twice is stripping once.
pub strip_idem : (s : String) → strip (strip s) ≡ strip s
unfolding strip
strip_idem s =
    ap rstrip
      (lstrip_of_StartsSolid (strip s) (rstrip-StartsSolid (lstrip s) (lstrip-StartsSolid s)))
    ∙ rstrip_idem (lstrip s)

starts_with_self : (p s : String) → starts_with (p <> s) p ≡ true
unfolding starts_with
starts_with_self [] s = refl
starts_with_self (c ∷ p) s = rw cons-append (ground (arith, starts_with_self p s))

-- A text that begins with `p <> q` begins with `p`.
pub starts_with-append : (s p q : String) → starts_with s (p <> q) ≡ true → starts_with s p ≡ true
unfolding starts_with
starts_with-append s [] q h = refl
starts_with-append [] (c ∷ p) q h =
    let h' : starts_with [] ((c ∷ p) <> q) ≡ true = h in cc (rw cons-append at h')
starts_with-append (d ∷ s) (c ∷ p) q h =
    let h' : starts_with (d ∷ s) (c ∷ (p <> q)) ≡ true = rw cons-append at h in
    ground (arith, starts_with-append s p q)

-- Two texts agree as far as the shorter of them goes.
abbrev pub agree : String → String → Bool
agree [] q = true
agree (c ∷ p) [] = true
agree (c ∷ p) (d ∷ q) = eqb (code c) (code d) && agree p q

-- Two prefixes of one text agree.
pub starts_with-agree :
    (s p q : String) → starts_with s p ≡ true → starts_with s q ≡ true → agree p q ≡ true
unfolding starts_with
starts_with-agree s [] q h k = refl
starts_with-agree s (c ∷ p) [] h k = refl
starts_with-agree [] (c ∷ p) (d ∷ q) h k = cc
starts_with-agree (e ∷ s) (c ∷ p) (d ∷ q) h k = ground (arith, starts_with-agree s p q)

strip_runs : strip "  a b\t" ≡ "a b"
unfolding strip is_space
strip_runs = refl

split_runs : split_on b'/' "a//b" ≡ List.◌∷◌ "a" (List.◌∷◌ "" (List.◌∷◌ "b" List.[]))
unfolding split_on
split_runs = refl
