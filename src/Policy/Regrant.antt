-- ===== src/Policy/Regrant.antt =====
-- Revoked consumers and grants, and the grant that ends a revocation.
use synthia_mqtt.Prelude.{
  String, ◌≡◌, ◌≢◌, refl, Bool, true, false, not, ◌&&◌, Option, none, some, List, [], ◌∷◌, arith,
  all, contains, contains-set_add, contains-set_discard, lookup, lookup-insert, lookup-erase, ◌==◌,
  eq_iff, eq_refl, ok,
}
use synthia_mqtt.Prelude.Text.{has_infix}
use synthia_mqtt.Json.{Environment, Builtins, Fields}
use synthia_mqtt.Token.Claims.{ServiceTokenClaims}
use synthia_mqtt.Policy.{
  GrantRecord, PolicyCache, enforcement_enabled, authorize, names_one_of, names_other, is_closing,
  discard_id, without_grant_id, lacks, has_id, store_grant, revoke_jti, revoke_grant_id, grant_of,
  dispatch, revoke_consumer, apply_grant, apply_revocation, parse_payload, ingest, Message,
  ingest_all, grant_id_of, revoked_consumer_of, consumer_of,
}
use synthia_mqtt.Policy.Authorize.{IsAuthorized, authorize_iff, authorize_complete}
use synthia_mqtt.Policy.Ingest.{
  consumer-revocation, consumer-grant, consumer-closing, lookup-without,
}

discarded : (id : Option String) (ids : List String) → names_one_of id (discard_id id ids) ≡ false
discarded none ids = refl
discarded (some id) ids = ground (arith, contains-set_discard id id ids, eq_refl id)

active_not_closing : (status : String) → (status == "active") ≡ true → is_closing status ≡ false
active_not_closing status h = rw ((eq_iff status "active").0 h)

-- Storing an active grant authorizes its consumer, as far as the token and the scopes go.
module _ (cache : PolicyCache) (grant : GrantRecord) (claims : ServiceTokenClaims)
    (scope : String) where
  store_grant-IsAuthorized :
      claims.sub ≡ grant.consumer_addon_id
      → (grant.status == "active") ≡ true
      → names_other grant.service cache.service_name ≡ false
      → lacks grant.scopes scope ≡ false
      → (claims.sub == "anonymous") ≡ false
      → contains claims.jti cache.revoked_jti ≡ false
      → contains scope claims.scopes ≡ true
      → IsAuthorized (store_grant cache grant) claims scope
  unfolding store_grant
  store_grant-IsAuthorized same active fits covers known valid held =
      let consumer = grant.consumer_addon_id in
      rw (active_not_closing grant.status active) (record {
        authenticated = known;
        token_valid = valid;
        token_scope = held;
        consumer_valid = rw (
          same,
          contains-set_discard consumer consumer cache.revoked_consumers,
          eq_refl consumer,
        );
        grant = grant;
        granted = rw (
          same,
          lookup-insert consumer consumer grant cache.grants_by_consumer,
          eq_refl consumer,
        );
        permits = record {
          active = active;
          id_valid = discarded grant.grant_id cache.revoked_grant_ids;
          service_fits = fits;
          scope_fits = covers;
        };
      })

module _ ⦃python : Builtins⦄ where
  stored :
      (cache : PolicyCache) (data' : Fields)
      → (consumer_of data' == "") ≡ false
      → names_other (grant_of data').service cache.service_name ≡ false
      → apply_grant cache data' ≡ store_grant cache (grant_of data')
  unfolding apply_grant
  stored cache data' named fits =
      let named' : ((grant_of data').consumer_addon_id == "") ≡ false = unfold grant_of in named in
      rw (named', fits)

  -- A message that brings the consumer a grant, of whatever service, that is neither revoked nor
  -- expired.
  abbrev payload_grants : String → String → Option Fields → Bool
  payload_grants consumer topic none = false
  payload_grants consumer topic (some data') =
      has_infix topic "/policy/grants/"
      && (consumer_of data' == consumer && not (is_closing (grant_of data').status))

  abbrev pub spares : String → Message → Bool
  spares consumer m = not (payload_grants consumer m.topic (parse_payload m.payload_text))

  module _ (consumer : String) where
    dispatch-revoked :
        (cache : PolicyCache) (topic : String) (payload : Option Fields)
        → payload_grants consumer topic payload ≡ false
        → contains consumer cache.revoked_consumers ≡ true
        → contains consumer (dispatch cache topic payload).revoked_consumers ≡ true
    dispatch-revoked cache topic none q h = h
    dispatch-revoked cache topic (some data') q h = ground (
      arith,
      consumer-grant consumer cache data',
      consumer-closing consumer cache data',
      consumer-revocation consumer cache data',
    )

    ingest-revoked :
        (cache : PolicyCache) (m : Message)
        → spares consumer m ≡ true
        → contains consumer cache.revoked_consumers ≡ true
        → contains consumer (ingest m.env cache m.topic m.payload_text).revoked_consumers ≡ true
    unfolding ingest
    ingest-revoked cache m q h =
        ground (arith, dispatch-revoked cache m.topic (parse_payload m.payload_text))

    ingest_all-revoked :
        (messages : List Message) (cache : PolicyCache)
        → all (spares consumer) messages ≡ true
        → contains consumer cache.revoked_consumers ≡ true
        → contains consumer (ingest_all cache messages).revoked_consumers ≡ true
    unfolding ingest_all
    ingest_all-revoked [] cache q h = h
    ingest_all-revoked (m ∷ rest) cache q h =
        ingest_all-revoked rest _ (ground arith) (ingest-revoked cache m (ground arith) h)

  revoke_consumer_lem :
      (cache : PolicyCache) (data' : Fields)
      → (revoked_consumer_of data' == "") ≡ false
      → contains (revoked_consumer_of data') (apply_revocation cache data').revoked_consumers ≡ true
  unfolding apply_revocation revoke_jti revoke_grant_id revoke_consumer
  revoke_consumer_lem cache data' h =
      let consumer = revoked_consumer_of data' in
      ground (arith, contains-set_add consumer consumer cache.revoked_consumers, eq_refl consumer)

  -- Once a revocation names a consumer, and as long as no message brings it a grant, of whatever
  -- service, with a status other than revoked and expired, none of its requests is allowed while
  -- enforcement is on.
  pub revoked_consumer_denied :
      (cache : PolicyCache) (data' : Fields) (messages : List Message) (env : Environment)
      (claims : ServiceTokenClaims) (scope : String)
      → (revoked_consumer_of data' == "") ≡ false
      → all (spares (revoked_consumer_of data')) messages ≡ true
      → claims.sub ≡ revoked_consumer_of data'
      → enforcement_enabled env ≡ true
      → authorize env (ingest_all (apply_revocation cache data') messages) claims scope ≢ ok tt
  revoked_consumer_denied cache data' messages env claims scope named spared same on allowed =
      let later : PolicyCache = ingest_all (apply_revocation cache data') messages in
      let revoked =
        ingest_all-revoked (revoked_consumer_of data') messages (apply_revocation cache data')
          spared (revoke_consumer_lem cache data' named) in
      let valid = ((authorize_iff env later claims scope on).0 allowed).consumer_valid in
      cc (rw same at valid, revoked)

  lookup-revocation :
      (cache : PolicyCache) (data' : Fields) (key : String) (grant : GrantRecord)
      → (grant_id_of data' == "") ≡ false
      → lookup key (apply_revocation cache data').grants_by_consumer ≡ some grant
      → has_id grant.grant_id (grant_id_of data') ≡ false
  unfolding apply_revocation revoke_jti revoke_grant_id revoke_consumer
  lookup-revocation cache data' key grant named h =
      let id = grant_id_of data' in
      ground (
        arith,
        lookup-without id key cache.grants_by_consumer grant,
        lookup-erase (revoked_consumer_of data') key (without_grant_id id cache.grants_by_consumer),
      )

  -- After a revocation names a grant, every request that is allowed rests on another grant.
  revoked_grant_unused :
      (cache : PolicyCache) (data' : Fields) (env : Environment) (claims : ServiceTokenClaims)
      (scope : String)
      → (grant_id_of data' == "") ≡ false
      → enforcement_enabled env ≡ true
      → authorize env (apply_revocation cache data') claims scope ≡ ok tt
      → (grant : GrantRecord) × (lookup claims.sub (apply_revocation cache data').grants_by_consumer
          ≡ some grant)
        × (has_id grant.grant_id (grant_id_of data') ≡ false)
  revoked_grant_unused cache data' env claims scope named on allowed =
      let a = (authorize_iff env (apply_revocation cache data') claims scope on).0 allowed in
      (a.grant, a.granted, lookup-revocation cache data' claims.sub a.grant named a.granted)

  -- A message with an active grant for this service makes the consumer's requests allowed, whether
  -- or not it was revoked before, as far as its token and the grant's scopes go.
  grant_allows :
      (cache : PolicyCache) (data' : Fields) (env : Environment) (claims : ServiceTokenClaims)
      (scope : String)
      → (claims.sub == "") ≡ false
      → claims.sub ≡ consumer_of data'
      → names_other (grant_of data').service cache.service_name ≡ false
      → ((grant_of data').status == "active") ≡ true
      → lacks (grant_of data').scopes scope ≡ false
      → (claims.sub == "anonymous") ≡ false
      → contains claims.jti cache.revoked_jti ≡ false
      → contains scope claims.scopes ≡ true
      → enforcement_enabled env ≡ true
      → authorize env (apply_grant cache data') claims scope ≡ ok tt
  grant_allows cache data' env claims scope named same fits active covers known valid held on =
      let grant : GrantRecord = grant_of data' in
      let kept = stored cache data' (rw same at named) fits in
      rw kept (
        authorize_complete env (store_grant cache grant) claims scope on (
          store_grant-IsAuthorized cache grant claims scope (unfold grant_of in same) active fits
            covers known valid held))
