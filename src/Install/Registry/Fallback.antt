-- ===== src/Install/Registry/Fallback.antt =====
-- The requests that a registration sends to the core, and its result.
use mathlib.Core.Path.{subst}
use synthia_mqtt.Prelude.{
  Bool, ℕ, ◌≡◌, refl, sym, inl, inr, true, false, not, ◌||◌, Bool-cases, is_some, Option, none,
  some, List, [], ◌∷◌, ◌++◌, arith,
}
use synthia_mqtt.Json.{Builtins}
use synthia_mqtt.Install.Registry.{
  Post, Registrar, PostResult, Addon, preferred_post, legacy_post, result_of, post_json, is_status,
  after_legacy, after_preferred, register_addon_endpoint,
}

plain :
    ⦃python : Builtins⦄ (status : Option ℕ)
    → (is_status 404 status || is_status 422 status) ≡ true
    → (is_status 401 status || is_status 403 status || not (is_some status)) ≡ false
plain none f = ground arith
plain (some n) f = ground arith

module _ ⦃python : Builtins⦄ (core : Registrar) where
  -- Requests, each with the test of the statuses after which the next one is sent.
  abbrev pub Plan : Type 0
  Plan = List (Post × (Option ℕ → Bool))

  -- The requests of a plan are sent in order: the next one exactly when the core refused this one
  -- with a status that passes its test. The result is that of the last request that is sent.
  pub data Tries : Plan → List Post → PostResult × List Post → Type 0 where
    accepted :
        {post : Post} {falls : Option ℕ → Bool} {rest : Plan} {posts : List Post} (r : PostResult)
        → (result_of (core posts post)).ok ≡ true
        → r.ok ≡ true
        → r.status_code ≡ (result_of (core posts post)).status_code
        → Tries ((post, falls) ∷ rest) posts (r, posts ++ (post ∷ []))
    refused :
        {post : Post} {falls : Option ℕ → Bool} {rest : Plan} {posts : List Post}
        → (result_of (core posts post)).ok ≡ false
        → falls (result_of (core posts post)).status_code ≡ false
        → Tries ((post, falls) ∷ rest) posts (result_of (core posts post), posts ++ (post ∷ []))
    unknown :
        {post : Post} {falls : Option ℕ → Bool} {rest : Plan} {posts : List Post}
        {result : PostResult × List Post}
        → (result_of (core posts post)).ok ≡ false
        → falls (result_of (core posts post)).status_code ≡ true
        → Tries rest (posts ++ (post ∷ [])) result
        → Tries ((post, falls) ∷ rest) posts result

  -- After 404 or 422 the legacy route is tried, after 422 from that the legacy payload, and after
  -- that nothing.
  abbrev pub third_plan : Addon → Plan
  third_plan addon = (legacy_post "id" addon, λ status. false) ∷ []

  abbrev pub second_plan : Addon → Plan
  second_plan addon = (legacy_post "addon_id" addon, is_status 422) ∷ third_plan addon

  abbrev pub register_plan : Addon → Plan
  register_plan addon =
      (preferred_post addon, λ status. is_status 404 status || is_status 422 status)
      ∷ second_plan addon

  module _ (addon : Addon) where
    third-Tries :
        (posts : List Post)
        → Tries (third_plan addon) posts (post_json core (legacy_post "id" addon) posts)
    unfolding post_json
    third-Tries posts = elim (Bool-cases ((result_of (core posts (legacy_post "id" addon))).ok)) [
      | inl e ↦ accepted _ e e refl
      | inr e ↦ refused e refl
    ]

    -- The branches of the two steps, for a result `r`.
    module _ (r : PostResult) (posts : List Post) where
      abbrev success : PostResult
      success = record { ok = true; status_code = r.status_code; reason = none }

      legacy_accepted : r.ok ≡ true → after_legacy core addon (r, posts) ≡ (success, posts)
      unfolding after_legacy
      legacy_accepted e = rw e

      legacy_unknown :
          r.ok ≡ false
          → is_status 422 r.status_code ≡ true
          → after_legacy core addon (r, posts) ≡ post_json core (legacy_post "id" addon) posts
      unfolding after_legacy
      legacy_unknown e f = rw (e, f)

      legacy_refused :
          r.ok ≡ false
          → is_status 422 r.status_code ≡ false
          → after_legacy core addon (r, posts) ≡ (r, posts)
      unfolding after_legacy
      legacy_refused e f = rw (e, f)

      preferred_accepted : r.ok ≡ true → after_preferred core addon (r, posts) ≡ (success, posts)
      unfolding after_preferred
      preferred_accepted e = rw e

      preferred_unknown :
          r.ok ≡ false
          → (is_status 404 r.status_code || is_status 422 r.status_code) ≡ true
          → after_preferred core addon (r, posts)
            ≡ after_legacy core addon (post_json core (legacy_post "addon_id" addon) posts)
      unfolding after_preferred
      preferred_unknown e f = rw (e, plain r.status_code f, f)

      preferred_refused :
          r.ok ≡ false
          → (is_status 404 r.status_code || is_status 422 r.status_code) ≡ false
          → after_preferred core addon (r, posts) ≡ (r, posts)
      unfolding after_preferred
      preferred_refused e f =
          elim (Bool-cases (
            is_status 401 r.status_code
            || is_status 403 r.status_code
            || not (is_some r.status_code))) [ inl g ↦ rw (e, g) | inr g ↦ rw (e, g, f) ]

    second-Tries :
        (posts : List Post)
        → Tries
            (second_plan addon)
            posts
            (after_legacy core addon (post_json core (legacy_post "addon_id" addon) posts))
    unfolding post_json
    second-Tries posts =
        let post = legacy_post "addon_id" addon in
        let r = result_of (core posts post) in
        let sent = posts ++ (post ∷ []) in
        let to = λ (out : PostResult × List Post). Tries (second_plan addon) posts out in
        elim (Bool-cases (r.ok)) [
          | inl e ↦
              subst to (sym (legacy_accepted r sent e)) (accepted (success r sent) e refl refl)
          | inr e ↦ elim (Bool-cases (is_status 422 r.status_code)) [
            | inl f ↦ subst to (sym (legacy_unknown r sent e f)) (unknown e f (third-Tries sent))
            | inr f ↦ subst to (sym (legacy_refused r sent e f)) (refused e f)
          ]
        ]

  -- A registration sends the preferred request; exactly after a refusal with 404 or 422 the one to
  -- the legacy route; and exactly after a refusal of that with 422 the one with the legacy payload.
  -- It succeeds exactly when the core accepts the last one that it sends, and its status is that of
  -- that one.
  pub register-Tries :
      (addon : Addon) (posts : List Post)
      → Tries (register_plan addon) posts (register_addon_endpoint core addon posts)
  unfolding register_addon_endpoint post_json
  register-Tries addon posts =
      let post = preferred_post addon in
      let r = result_of (core posts post) in
      let sent = posts ++ (post ∷ []) in
      let to = λ (out : PostResult × List Post). Tries (register_plan addon) posts out in
      elim (Bool-cases (r.ok)) [
        | inl e ↦
            subst to (sym (preferred_accepted addon r sent e))
              (accepted (success addon r sent) e refl refl)
        | inr e ↦ elim (Bool-cases (is_status 404 r.status_code || is_status 422 r.status_code)) [
          | inl f ↦
              subst to (sym (preferred_unknown addon r sent e f))
                (unknown e f (second-Tries addon sent))
          | inr f ↦ subst to (sym (preferred_refused addon r sent e f)) (refused e f)
        ]
      ]
