-- ===== src/Publish/Handle.antt =====
-- What the end of every publish handler does: the branch that the tests choose decides the
-- response, the calls of the client, the attempt that is recorded and the usage that is reported.
use mathlib.Core.Path.{subst}
use synthia_mqtt.Prelude.{
  ℕ, zero, ◌≡◌, refl, ap, ◌⊎◌, inl, inr, Bool, true, false, Bool-cases, Option, none, some, [], ◌∷◌,
  ◌++◌, eqb, arith, Result, ok, err, raise_if, ◌>>=◌, String, ◌<>◌,
}
use synthia_mqtt.Json.{Builtins, pos}
use synthia_mqtt.Http.{HttpError, http_error}
use synthia_mqtt.Telemetry.{enqueue_usage}
use synthia_mqtt.Publish.{
  Site, World, Refusal, Delivery, log, log_if, checked, present, unexpected, publish, deliver,
  handle,
}

-- What a call of the client can end in.
pub data Answers (a : Option ℕ) : Type 0 where
  taken : a ≡ some zero → Answers a
  failed : (n : ℕ) → a ≡ some n → eqb n zero ≡ false → Answers a
  threw : a ≡ none → Answers a

pub answers : (a : Option ℕ) → Answers a
answers none = threw refl
answers (some n) = elim (Bool-cases (eqb n zero)) [
  | inl h ↦ taken (let same : n ≡ zero = ground arith in ap some same)
  | inr h ↦ failed n refl h
]

-- The tests of a handler refuse only with `P` and accept only with `Q`.
pub data Each {E A : Type 0} (P : E → Type 0) (Q : A → Type 0) : Result E A → Type 0 where
  refused : {e : E} → P e → Each P Q (err e)
  accepted : {a : A} → Q a → Each P Q (ok a)

pub present-cases {ℓ} : {A : Type ℓ} (m : Option A) → (m ≡ none) ⊎ ((a : A) × (m ≡ some a))
present-cases none = inl refl
present-cases (some a) = inr (a, refl)

-- What holds of the deliveries that the tests accept.
pub Each-ok :
    {E A : Type 0} {P : E → Type 0} {Q : A → Type 0} (m : Result E A) {a : A}
    → Each P Q m
    → m ≡ ok a
    → Q a
Each-ok {Q = Q} (ok b) {a = a} (accepted q) h = let same : b ≡ a = cc in subst Q same q
Each-ok (err e) (refused p) h = cc

module _ {A : Type 0} (P : Refusal → Type 0) (Q : A → Type 0) where
  pub Each-raise_if :
      (b : Bool) (r : Refusal) (k : Result Refusal A)
      → P r
      → (b ≡ false → Each P Q k)
      → Each P Q (raise_if b r >>= λ _. k)
  Each-raise_if true r k p q = refused p
  Each-raise_if false r k p q = q refl

  pub Each-checked :
      {B : Type 0} (m : Result String B) (refuse : String → Refusal) (k : B → Result Refusal A)
      → ((reason : String) → P (refuse reason))
      → ((b : B) → m ≡ ok b → Each P Q (k b))
      → Each P Q (checked m refuse >>= k)
  Each-checked (ok b) refuse k p q = q b refl
  Each-checked (err reason) refuse k p q = refused (p reason)

  pub Each-present :
      {B : Type 0} (m : Option B) (r : Refusal) (k : B → Result Refusal A)
      → (m ≡ none → P r)
      → ((b : B) → m ≡ some b → Each P Q (k b))
      → Each P Q (present m r >>= k)
  Each-present none r k p q = refused (p refl)
  Each-present (some b) r k p q = q b refl

module _ ⦃python : Builtins⦄ {A : Type 0} where
  pub handle_taken :
      (site : Site) (d : Delivery A) (world : World)
      → d.client world.calls d.sent ≡ some zero
      → handle site (ok d) world ≡ (
        ok d.response,
        record world {
          calls = world.calls ++ (d.sent ∷ []);
          traces = log site d.succeeded world.traces;
          queue =
              enqueue_usage site.environment site.reporter site.timestamp d.consumer d.operation 1
                world.queue;
        },
      )
  unfolding handle deliver publish
  handle_taken site d world e = rw e

  pub handle_failed :
      (site : Site) (d : Delivery A) (world : World) (rc : ℕ)
      → d.client world.calls d.sent ≡ some rc
      → eqb rc zero ≡ false
      → handle site (ok d) world ≡ (
        err (http_error 500 d.failure),
        record world {
          calls = world.calls ++ (d.sent ∷ []);
          traces = log site d.failed world.traces;
          last_error = some ("Publish failed with rc=" <> python.print_number (pos rc));
        },
      )
  unfolding handle deliver publish
  handle_failed site d world rc e nonzero = rw (e, nonzero)

  pub handle_raised :
      (site : Site) (d : Delivery A) (world : World)
      → d.client world.calls d.sent ≡ none
      → handle site (ok d) world
        ≡ (err unexpected.error, record world { calls = world.calls ++ (d.sent ∷ []) })
  unfolding handle deliver publish
  handle_raised site d world e = rw e

  pub handle_refused :
      (site : Site) (r : Refusal) (world : World)
      → handle {A = A} site (err r) world
        ≡ (err r.error, record world { traces = log_if site r.trace world.traces })
  unfolding handle
  handle_refused site r world = refl

  -- The calls of the client: none for a refusal, one for a delivery.
  pub handle_calls :
      {P : Refusal → Type 0} {Q : Delivery A → Type 0} (site : Site) (world : World)
      (checks : Result Refusal (Delivery A))
      → Each P Q checks
      → ((handle site checks world).1.calls ≡ world.calls)
        ⊎ ((d : Delivery A) × Q d
            × ((handle site checks world).1.calls ≡ world.calls ++ (d.sent ∷ [])))
  handle_calls site world (err r) h =
      inl (ap (λ (p : Result HttpError A × World). p.1.calls) (handle_refused site r world))
  handle_calls site world (ok d) (accepted q) =
      let calls = λ (p : Result HttpError A × World). p.1.calls in
      elim (answers (d.client world.calls d.sent)) [
        | taken e ↦ inr (d, q, ap calls (handle_taken site d world e))
        | failed n e f ↦ inr (d, q, ap calls (handle_failed site d world n e f))
        | threw e ↦ inr (d, q, ap calls (handle_raised site d world e))
      ]

  -- A success is that of a delivery which the client took.
  pub handle_ok :
      {P : Refusal → Type 0} {Q : Delivery A → Type 0} (site : Site) (world : World)
      (checks : Result Refusal (Delivery A)) {a : A}
      → Each P Q checks
      → (handle site checks world).0 ≡ ok a
      → (d : Delivery A) × Q d × (d.response ≡ a) × (d.client world.calls d.sent ≡ some zero)
  handle_ok site world (err r) h e =
      cc (ap (λ (p : Result HttpError A × World). p.0) (handle_refused site r world), e)
  handle_ok site world (ok d) (accepted q) h =
      let result = λ (p : Result HttpError A × World). p.0 in
      elim (answers (d.client world.calls d.sent)) [
        | taken e ↦ (d, q, cc (ap result (handle_taken site d world e), h), e)
        | failed n e f ↦ cc (ap result (handle_failed site d world n e f), h)
        | threw e ↦ cc (ap result (handle_raised site d world e), h)
      ]
