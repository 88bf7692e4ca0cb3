-- ===== src/Prelude/Effects.antt =====
-- Code that changes a state of type `S` and may raise an exception `E`: what it wrote before an
-- exception stays written.
use mathlib.Core.Path.{◌≡◌, refl}
use mathlib.Core.Bool.{Bool, true, false}
use synthia_mqtt.Prelude.Tests.{Result, ok, err, if◌then◌else◌}

abbrev pub Act : Type 0 → Type 0 → Type 0 → Type 0
Act S E A = S → Result E A × S

module _ {S E : Type 0} where
  abbrev pub continue : {A B : Type 0} → Result E A × S → (A → Act S E B) → Result E B × S
  continue (ok a, s) k = k a s
  continue (err e, s) k = (err e, s)

  -- `try: m` with a handler that may raise an exception of its own: on a result, and as code.
  abbrev pub recover : {A : Type 0} → Result E A × S → (E → Act S E A) → Result E A × S
  recover (ok a, s) handler = (ok a, s)
  recover (err e, s) handler = handler e s

  unfoldable pub attempt : {A : Type 0} → Act S E A → (E → Act S E A) → Act S E A
  attempt m handler s = recover (m s) handler

  unfoldable pub done : {A : Type 0} → A → Act S E A
  done a s = (ok a, s)

  unfoldable pub raise : {A : Type 0} → E → Act S E A
  raise e s = (err e, s)

  unfoldable pub lift : {A : Type 0} → Result E A → Act S E A
  lift m s = (m, s)

  unfoldable pub ask : {A : Type 0} → (S → Result E A) → Act S E A
  ask f s = (f s, s)

  unfoldable pub modify : (S → S) → Act S E (Unit {0})
  modify f s = (ok tt, f s)

infixl 5 ◌>>=◌ ◌>>◌
unfoldable pub ◌>>=◌ : {S E A B : Type 0} → Act S E A → (A → Act S E B) → Act S E B
◌>>=◌ m k s = continue (m s) k

unfoldable pub ◌>>◌ : {S E B : Type 0} → Act S E (Unit {0}) → Act S E B → Act S E B
◌>>◌ m k s = continue (m s) (λ _. k)

-- Inversion of a chain that succeeded.
pub continue-ok :
    {S E A B : Type 0} (r : Result E A × S) (k : A → Act S E B) {b : B} {t : S}
    → continue r k ≡ (ok b, t)
    → (a : A) × (s : S) × (r ≡ (ok a, s)) × (k a s ≡ (ok b, t))
continue-ok (ok a, s) k h = (a, s, refl, h)
continue-ok (err e, s) k h = cc

-- The same where the first step only reads the state.
pub read-ok :
    {S E A B : Type 0} (m : Result E A) (s : S) (k : A → Act S E B) {b : B} {t : S}
    → continue (m, s) k ≡ (ok b, t)
    → (a : A) × (m ≡ ok a) × (k a s ≡ (ok b, t))
read-ok (ok a) s k h = (a, refl, h)
read-ok (err e) s k h = cc

-- The two parts of an equation of results.
pub outcome :
    {S E A : Type 0} {a b : A} {s t : S}
    → (r : Result E A × S) → r ≡ (ok a, s)
    → r ≡ (ok b, t)
    → (b ≡ a) × (t ≡ s)
outcome r g h = (cc, cc)

-- The code keeps `P`, whether it returns or raises.
pub record Keeps {S E A : Type 0} (P : S → Type 0) (m : Act S E A) : Type 0 where
  pub kept : (s : S) → P s → P ((m s).1)

continue-Keeps :
    {S E A B : Type 0} (P : S → Type 0) (r : Result E A × S) (k : A → Act S E B)
    → ((a : A) → Keeps P (k a))
    → P (r.1)
    → P ((continue r k).1)
continue-Keeps P (ok a, s) k h p = (h a).kept s p
continue-Keeps P (err e, s) k h p = p

recover-Keeps :
    {S E A : Type 0} (P : S → Type 0) (r : Result E A × S) (k : E → Act S E A)
    → ((e : E) → Keeps P (k e))
    → P (r.1)
    → P ((recover r k).1)
recover-Keeps P (ok a, s) k h p = p
recover-Keeps P (err e, s) k h p = (h e).kept s p

module _ {S E : Type 0} {P : S → Type 0} where
  pub Keeps-bind :
      {A B : Type 0} {m : Act S E A} {k : A → Act S E B}
      → Keeps P m
      → ((a : A) → Keeps P (k a))
      → Keeps P (m >>= k)
  unfolding ◌>>=◌
  Keeps-bind {m = m} {k = k} h g = record { kept = λ s p. continue-Keeps P (m s) k g (h.kept s p) }

  pub Keeps-then :
      {B : Type 0} {m : Act S E (Unit {0})} {k : Act S E B}
      → Keeps P m
      → Keeps P k
      → Keeps P (m >> k)
  unfolding ◌>>◌
  Keeps-then {m = m} {k = k} h g = record {
    kept = λ s p. continue-Keeps P (m s) (λ _. k) (λ _. g) (h.kept s p);
  }

  pub Keeps-attempt :
      {A : Type 0} {m : Act S E A} {k : E → Act S E A}
      → Keeps P m
      → ((e : E) → Keeps P (k e))
      → Keeps P (attempt m k)
  unfolding attempt
  Keeps-attempt {m = m} {k = k} h g = record {
    kept = λ s p. recover-Keeps P (m s) k g (h.kept s p);
  }

  pub Keeps-if :
      {A : Type 0} (b : Bool) {m n : Act S E A}
      → Keeps P m
      → Keeps P n
      → Keeps P (if b then m else n)
  Keeps-if true h g = h
  Keeps-if false h g = g

  -- Code that only reads the state.
  pub Keeps-ask : {A : Type 0} (f : S → Result E A) → Keeps P (ask f)
  unfolding ask
  Keeps-ask f = record { kept = λ s p. p }

  pub Keeps-lift : {A : Type 0} (r : Result E A) → Keeps P (lift r)
  unfolding lift
  Keeps-lift r = record { kept = λ s p. p }

  pub Keeps-modify : (f : S → S) → ((s : S) → P s → P (f s)) → Keeps {E = E} P (modify f)
  unfolding modify
  Keeps-modify f h = record { kept = λ s p. h s p }

pub Keeps-done : {S E A : Type 0} {P : S → Type 0} (a : A) → Keeps {S = S} {E = E} P (done a)
unfolding done
Keeps-done a = record { kept = λ s p. p }

pub Keeps-raise : {S E A : Type 0} {P : S → Type 0} (e : E) → Keeps {S = S} {A = A} P (raise e)
unfolding raise
Keeps-raise e = record { kept = λ s p. p }
