-- ===== src/Policy/Ingest.antt =====
-- What messages do to the cache, for any run of them.
use synthia_mqtt.Prelude.{
  String, ◌≡◌, ◌≢◌, refl, true, false, ◌||◌, Option, none, some, List, [], ◌∷◌, arith, contains,
  is_some, lookup-insert, lookup-erase, eq_iff, contains-set_add, contains-set_discard, Dict,
  lookup, insert, erase, ◌==◌, eq_refl, ok, inl, inr, Bool-cases,
}
use synthia_mqtt.Prelude.Text.{has_infix}
use synthia_mqtt.Json.{Environment, Builtins, Fields}
use synthia_mqtt.Token.Claims.{ServiceTokenClaims}
use synthia_mqtt.Policy.{
  GrantRecord, PolicyCache, enforcement_enabled, authorize, names_other, is_closing, has_id,
  store_grant, without_grant_id, revoke_jti, revoke_grant_id, grant_of, revoke_consumer,
  apply_grant, apply_revocation, parse_payload, dispatch, Message, ingest, ingest_all, init, jti_of,
  revoked_consumer_of, consumer_of, grant_id_of,
}
use synthia_mqtt.Policy.Authorize.{authorize_iff}

-- A stored grant agrees with its key and could have been stored.
pub record IsStorable (service_name key : String) (grant : GrantRecord) : Type 0 where
  pub keyed : grant.consumer_addon_id ≡ key
  pub named : (key == "") ≡ false
  pub open_status : is_closing grant.status ≡ false
  pub service_fits : names_other grant.service service_name ≡ false

abbrev pub AllStorable : String → Dict GrantRecord → Type 0
AllStorable service_name [] = Unit
AllStorable service_name ((key, grant) ∷ rest) =
    IsStorable service_name key grant × AllStorable service_name rest

abbrev pub IsConsistent : PolicyCache → Type 0
IsConsistent cache = AllStorable cache.service_name cache.grants_by_consumer

module _ (service_name : String) where
  AllStorable-insert :
      (key : String) (grant : GrantRecord) (d : Dict GrantRecord)
      → IsStorable service_name key grant
      → AllStorable service_name d
      → AllStorable service_name (insert key grant d)
  unfolding insert
  AllStorable-insert key grant [] s a = (s, tt)
  AllStorable-insert key grant ((j, g) ∷ d) s (b, a) = elim (Bool-cases (j == key)) [
    | inl e ↦ rw e (s, a)
    | inr n ↦ rw n (b, AllStorable-insert key grant d s a)
  ]

  AllStorable-erase :
      (key : String) (d : Dict GrantRecord)
      → AllStorable service_name d
      → AllStorable service_name (erase key d)
  unfolding erase
  AllStorable-erase key [] a = tt
  AllStorable-erase key ((j, g) ∷ d) (b, a) = elim (Bool-cases (j == key)) [
    | inl e ↦ rw e (AllStorable-erase key d a)
    | inr n ↦ rw n (b, AllStorable-erase key d a)
  ]

  AllStorable-without :
      (id : String) (d : Dict GrantRecord)
      → AllStorable service_name d
      → AllStorable service_name (without_grant_id id d)
  unfolding without_grant_id
  AllStorable-without id [] a = tt
  AllStorable-without id ((j, g) ∷ d) (b, a) = elim (Bool-cases (has_id g.grant_id id)) [
    | inl e ↦ rw e (AllStorable-without id d a)
    | inr n ↦ rw n (b, AllStorable-without id d a)
  ]

-- After the grants with an id are popped, no lookup finds one.
pub lookup-without :
    (id key : String) (d : Dict GrantRecord) (grant : GrantRecord)
    → lookup key (without_grant_id id d) ≡ some grant
    → has_id grant.grant_id id ≡ false
unfolding lookup without_grant_id
lookup-without id key [] grant h = cc
lookup-without id key ((j, g) ∷ d) grant h = ground (arith, lookup-without id key d grant)

store_grant-IsConsistent :
    (cache : PolicyCache) (grant : GrantRecord)
    → (grant.consumer_addon_id == "") ≡ false
    → names_other grant.service cache.service_name ≡ false
    → IsConsistent cache
    → IsConsistent (store_grant cache grant)
unfolding store_grant
store_grant-IsConsistent cache grant named fits c = elim (Bool-cases (is_closing grant.status)) [
  | inl closing ↦
      rw closing
        (AllStorable-erase cache.service_name grant.consumer_addon_id cache.grants_by_consumer c)
  | inr open_status ↦ rw open_status (
      AllStorable-insert cache.service_name grant.consumer_addon_id grant cache.grants_by_consumer
        (record { keyed = refl; named = named; open_status = open_status; service_fits = fits }) c)
]

revoke_jti-IsConsistent :
    (jti : String) (cache : PolicyCache) → IsConsistent cache → IsConsistent (revoke_jti jti cache)
unfolding revoke_jti
revoke_jti-IsConsistent jti cache c = elim (Bool-cases (jti == "")) [
  | inl e ↦ rw e c
  | inr n ↦ rw n c
]

revoke_grant_id-IsConsistent :
    (id : String) (cache : PolicyCache)
    → IsConsistent cache
    → IsConsistent (revoke_grant_id id cache)
unfolding revoke_grant_id
revoke_grant_id-IsConsistent id cache c = elim (Bool-cases (id == "")) [
  | inl e ↦ rw e c
  | inr n ↦ rw n (AllStorable-without cache.service_name id cache.grants_by_consumer c)
]

revoke_consumer-IsConsistent :
    (consumer : String) (cache : PolicyCache)
    → IsConsistent cache
    → IsConsistent (revoke_consumer consumer cache)
unfolding revoke_consumer
revoke_consumer-IsConsistent consumer cache c = elim (Bool-cases (consumer == "")) [
  | inl e ↦ rw e c
  | inr n ↦ rw n (AllStorable-erase cache.service_name consumer cache.grants_by_consumer c)
]

module _ ⦃python : Builtins⦄ where
  apply_grant-IsConsistent :
      (cache : PolicyCache) (data' : Fields)
      → IsConsistent cache
      → IsConsistent (apply_grant cache data')
  unfolding apply_grant
  apply_grant-IsConsistent cache data' c =
      let grant : GrantRecord = grant_of data' in
      elim (Bool-cases
        (grant.consumer_addon_id == "" || names_other grant.service cache.service_name)) [
          | inl skip ↦ rw skip c
          | inr take' ↦
              rw take' (store_grant-IsConsistent cache grant (ground arith) (ground arith) c)
        ]

  apply_revocation-IsConsistent :
      (cache : PolicyCache) (data' : Fields)
      → IsConsistent cache
      → IsConsistent (apply_revocation cache data')
  unfolding apply_revocation
  apply_revocation-IsConsistent cache data' c =
      revoke_consumer-IsConsistent _ _
        (revoke_grant_id-IsConsistent _ _ (revoke_jti-IsConsistent _ cache c))

-- No consumer with a grant is among the revoked ones.
abbrev pub HoldsUnrevoked : PolicyCache → Type 0
HoldsUnrevoked cache =
    (key : String)
    → is_some (lookup key cache.grants_by_consumer) ≡ true
    → contains key cache.revoked_consumers ≡ false

some-without :
    (id key : String) (d : Dict GrantRecord)
    → is_some (lookup key (without_grant_id id d)) ≡ true
    → is_some (lookup key d) ≡ true
unfolding lookup without_grant_id
some-without id key [] h = cc
some-without id key ((j, g) ∷ d) h = ground (arith, some-without id key d)

module _ ⦃python : Builtins⦄ where
  apply_grant-HoldsUnrevoked :
      (cache : PolicyCache) (data' : Fields)
      → HoldsUnrevoked cache
      → HoldsUnrevoked (apply_grant cache data')
  unfolding apply_grant store_grant
  apply_grant-HoldsUnrevoked cache data' h key found =
      let grant : GrantRecord = grant_of data' in
      let consumer = grant.consumer_addon_id in
      ground (
        arith,
        h key,
        lookup-insert consumer key grant cache.grants_by_consumer,
        lookup-erase consumer key cache.grants_by_consumer,
        contains-set_discard consumer key cache.revoked_consumers,
        eq_iff consumer key,
      )

  apply_revocation-HoldsUnrevoked :
      (cache : PolicyCache) (data' : Fields)
      → HoldsUnrevoked cache
      → HoldsUnrevoked (apply_revocation cache data')
  unfolding apply_revocation revoke_jti revoke_grant_id revoke_consumer
  apply_revocation-HoldsUnrevoked cache data' h key found =
      let consumer = revoked_consumer_of data' in
      let id = grant_id_of data' in
      ground (
        arith,
        h key,
        some-without id key cache.grants_by_consumer,
        lookup-erase consumer key cache.grants_by_consumer,
        lookup-erase consumer key (without_grant_id id cache.grants_by_consumer),
        contains-set_add consumer key cache.revoked_consumers,
        eq_iff consumer key,
      )

HoldsUnrevoked-init : (service_name : String) → HoldsUnrevoked (init service_name)
HoldsUnrevoked-init service_name key found = refl

-- A property that grants and revocations keep holds after any messages.
module _ ⦃python : Builtins⦄ (P : PolicyCache → Type 0)
    (grants : (cache : PolicyCache) (data' : Fields) → P cache → P (apply_grant cache data'))
    (revocations : (cache : PolicyCache) (data' : Fields)
      → P cache
      → P (apply_revocation cache data')) where
  dispatch_keeps :
      (cache : PolicyCache) (topic : String) (payload : Option Fields)
      → P cache
      → P (dispatch cache topic payload)
  dispatch_keeps cache topic none c = c
  dispatch_keeps cache topic (some data') c =
      elim (Bool-cases (has_infix topic "/policy/grants/")) [
        | inl e ↦ rw e (grants cache data' c)
        | inr n ↦ rw n (elim (Bool-cases (has_infix topic "/policy/revocations/")) [
          | inl e ↦ rw e (revocations cache data' c)
          | inr m ↦ rw m c
        ])
      ]

  ingest_keeps :
      (env : Environment) (cache : PolicyCache) (topic text : String)
      → P cache
      → P (ingest env cache topic text)
  unfolding ingest
  ingest_keeps env cache topic text c = elim (Bool-cases (enforcement_enabled env)) [
    | inl on ↦ rw on (dispatch_keeps cache topic (parse_payload text) c)
    | inr off ↦ rw off c
  ]

  ingest_all_keeps :
      (messages : List Message) (cache : PolicyCache) → P cache → P (ingest_all cache messages)
  unfolding ingest_all
  ingest_all_keeps [] cache c = c
  ingest_all_keeps (m ∷ rest) cache c =
      ingest_all_keeps rest _ (ingest_keeps m.env cache m.topic m.payload_text c)

IsConsistent-init : (service_name : String) → IsConsistent (init service_name)
IsConsistent-init service_name = tt

module _ ⦃python : Builtins⦄ where
  -- Whatever messages a new cache has seen, each of its grants stands under its own consumer, which
  -- is not empty, has a status that is neither revoked nor expired, and is for this service or for
  -- none; and no consumer with a grant is among the revoked ones.
  pub ingest_all-IsConsistent :
      (service_name : String) (messages : List Message)
      → IsConsistent (ingest_all (init service_name) messages)
        × HoldsUnrevoked (ingest_all (init service_name) messages)
  ingest_all-IsConsistent service_name messages = (
    ingest_all_keeps IsConsistent apply_grant-IsConsistent apply_revocation-IsConsistent messages
        (init service_name) (IsConsistent-init service_name),
    ingest_all_keeps HoldsUnrevoked apply_grant-HoldsUnrevoked apply_revocation-HoldsUnrevoked
        messages (init service_name) (HoldsUnrevoked-init service_name),
  )

  jti-grant :
      (jti : String) (cache : PolicyCache) (data' : Fields)
      → contains jti cache.revoked_jti ≡ true
      → contains jti (apply_grant cache data').revoked_jti ≡ true
  unfolding apply_grant store_grant
  jti-grant jti cache data' h = ground arith

  jti-revocation :
      (jti : String) (cache : PolicyCache) (data' : Fields)
      → contains jti cache.revoked_jti ≡ true
      → contains jti (apply_revocation cache data').revoked_jti ≡ true
  unfolding apply_revocation revoke_jti revoke_grant_id revoke_consumer
  jti-revocation jti cache data' h =
      ground (arith, contains-set_add (jti_of data') jti cache.revoked_jti)

  revoke_jti_lem :
      (cache : PolicyCache) (data' : Fields)
      → (jti_of data' == "") ≡ false
      → contains (jti_of data') (apply_revocation cache data').revoked_jti ≡ true
  unfolding apply_revocation revoke_jti revoke_grant_id revoke_consumer
  revoke_jti_lem cache data' h = ground (
    arith,
    contains-set_add (jti_of data') (jti_of data') cache.revoked_jti,
    eq_refl (jti_of data'),
  )

  -- Once a revocation names a token, no request with that token is allowed while enforcement is
  -- on, whatever messages follow.
  pub revoked_token_denied :
      (cache : PolicyCache) (data' : Fields) (messages : List Message) (env : Environment)
      (claims : ServiceTokenClaims) (scope : String)
      → (jti_of data' == "") ≡ false
      → claims.jti ≡ jti_of data'
      → enforcement_enabled env ≡ true
      → authorize env (ingest_all (apply_revocation cache data') messages) claims scope ≢ ok tt
  revoked_token_denied cache data' messages env claims scope named same on allowed =
      let later : PolicyCache = ingest_all (apply_revocation cache data') messages in
      let revoked =
        ingest_all_keeps (λ c. contains (jti_of data') c.revoked_jti ≡ true)
          (jti-grant (jti_of data')) (jti-revocation (jti_of data')) messages
          (apply_revocation cache data') (revoke_jti_lem cache data' named) in
      let valid = ((authorize_iff env later claims scope on).0 allowed).token_valid in
      cc (rw same at valid, revoked)

  pub consumer-revocation :
      (consumer : String) (cache : PolicyCache) (data' : Fields)
      → contains consumer cache.revoked_consumers ≡ true
      → contains consumer (apply_revocation cache data').revoked_consumers ≡ true
  unfolding apply_revocation revoke_jti revoke_grant_id revoke_consumer
  consumer-revocation consumer cache data' h =
      ground (arith, contains-set_add (revoked_consumer_of data') consumer cache.revoked_consumers)

  pub consumer-grant :
      (consumer : String) (cache : PolicyCache) (data' : Fields)
      → (consumer_of data' == consumer) ≡ false
      → contains consumer cache.revoked_consumers ≡ true
      → contains consumer (apply_grant cache data').revoked_consumers ≡ true
  unfolding apply_grant store_grant grant_of
  consumer-grant consumer cache data' other h =
      ground (arith, contains-set_discard (consumer_of data') consumer cache.revoked_consumers)

  -- A grant that is revoked or expired ends no revocation.
  pub consumer-closing :
      (consumer : String) (cache : PolicyCache) (data' : Fields)
      → is_closing (grant_of data').status ≡ true
      → contains consumer cache.revoked_consumers ≡ true
      → contains consumer (apply_grant cache data').revoked_consumers ≡ true
  unfolding apply_grant store_grant
  consumer-closing consumer cache data' closing h = ground arith
