-- ===== src/Prelude/Tests.antt =====
-- Boolean tests, conditionals, and the result of code that may raise.
use Prim.Native.Nat.{ℕ, compare, Ordering}
use mathlib.Core.Path.{◌≡◌, refl}
use mathlib.Core.Logic.{◌⊎◌, inl, inr}
use mathlib.Core.Bool.{Bool, true, false, not}
use mathlib.Core.Option.{Option, none, some}

abbrev pub ltb : ℕ → ℕ → Bool
ltb a b = elim (compare a b) [ Ordering.lt ↦ true | _ ↦ false ]

abbrev pub leb : ℕ → ℕ → Bool
leb a b = elim (compare a b) [ Ordering.gt ↦ false | _ ↦ true ]

-- The test `==` on numbers; the operator itself is that of texts.
abbrev pub eqb : ℕ → ℕ → Bool
eqb a b = elim (compare a b) [ Ordering.eq ↦ true | _ ↦ false ]

infix 1 if◌then◌else◌
abbrev pub if◌then◌else◌ {ℓ} : {A : Type ℓ} → Bool → A → A → A
if true then x else y = x
if false then x else y = y

pub Bool-cases : (b : Bool) → (b ≡ true) ⊎ (b ≡ false)
Bool-cases true = inl refl
Bool-cases false = inr refl

abbrev pub is_some {ℓ} : {A : Type ℓ} → Option A → Bool
is_some none = false
is_some (some a) = true

-- What a function returns that may raise an exception `E`.
pub data Result {ℓ κ} (E : Type ℓ) (A : Type κ) : Type (ℓ ⊔ κ) where
  ok : A → Result E A
  err : E → Result E A

infixl 5 ◌>>=◌ ◌>>◌
abbrev pub ◌>>=◌ {ℓ κ μ} :
    {E : Type ℓ} {A : Type κ} {B : Type μ} → Result E A → (A → Result E B) → Result E B
ok a >>= f = f a
err e >>= f = err e

abbrev pub ◌>>◌ {ℓ μ} : {E : Type ℓ} {B : Type μ} → Result E (Unit {0}) → Result E B → Result E B
m >> k = m >>= λ _. k

-- `if b: raise e`
abbrev pub raise_if {ℓ} : {E : Type ℓ} → Bool → E → Result E (Unit {0})
raise_if true e = err e
raise_if false e = ok tt

abbrev pub Succeeds {ℓ κ} : {E : Type ℓ} {A : Type κ} → Result E A → Type 0
Succeeds (ok a) = Unit
Succeeds (err e) = ⊥

-- Inversion of a bind, and of a test, that succeeded.
pub bind-ok {ℓ κ μ} :
    {E : Type ℓ} {A : Type κ} {B : Type μ} (m : Result E A) (f : A → Result E B) {b : B}
    → (m >>= f) ≡ ok b
    → (a : A) × (m ≡ ok a) × (f a ≡ ok b)
bind-ok (ok a) f h = (a, refl, h)
bind-ok (err e) f h = cc

pub then-ok {ℓ κ} :
    {E : Type ℓ} {A : Type κ} (m : Result E (Unit {0})) (k : Result E A) {a : A}
    → (m >> k) ≡ ok a
    → (m ≡ ok tt) × (k ≡ ok a)
then-ok (ok u) k h = (refl, h)
then-ok (err e) k h = cc

pub raise_unless-ok {ℓ} : {E : Type ℓ} (b : Bool) (e : E) → raise_if (not b) e ≡ ok tt → b ≡ true
raise_unless-ok true e h = refl
raise_unless-ok false e h = cc

pub raise_if-ok {ℓ} : {E : Type ℓ} (b : Bool) (e : E) → raise_if b e ≡ ok tt → b ≡ false
raise_if-ok true e h = cc
raise_if-ok false e h = refl

pub negation_false : (b : Bool) → not b ≡ false → b ≡ true
negation_false true h = refl
negation_false false h = cc

pub ok_injective {ℓ κ} :
    {E : Type ℓ} {A : Type κ} {m : Result E A} {a b : A} → m ≡ ok a → m ≡ ok b → a ≡ b
ok_injective g h = cc

pub Result-cases {ℓ κ} :
    {E : Type ℓ} {A : Type κ} (m : Result E A) → ((a : A) × (m ≡ ok a)) ⊎ ((e : E) × (m ≡ err e))
Result-cases (ok a) = inl (a, refl)
Result-cases (err e) = inr (e, refl)

pub Option-cases {ℓ} : {A : Type ℓ} (o : Option A) → (o ≡ none) ⊎ ((a : A) × (o ≡ some a))
Option-cases none = inl refl
Option-cases (some a) = inr (a, refl)
