-- ===== src/Policy/Authorize.antt =====
-- What `authorize` decides.
use synthia_mqtt.Prelude.{
  String, ◌≡◌, refl, ◌↔◌, true, false, Option, none, some, arith, contains, lookup, ◌==◌, ok,
}
use synthia_mqtt.Json.{Environment}
use synthia_mqtt.Token.Claims.{ServiceTokenClaims}
use synthia_mqtt.Policy.{
  GrantRecord, PolicyCache, enforcement_enabled, check_grant, authorize, names_one_of, names_other,
  lacks,
}

-- A grant under which a scope may be used.
pub record Permits (cache : PolicyCache) (scope : String) (grant : GrantRecord) : Type 0 where
  pub active : (grant.status == "active") ≡ true
  pub id_valid : names_one_of grant.grant_id cache.revoked_grant_ids ≡ false
  pub service_fits : names_other grant.service cache.service_name ≡ false
  pub scope_fits : lacks grant.scopes scope ≡ false

-- A caller who may use a scope.
pub record IsAuthorized (cache : PolicyCache) (claims : ServiceTokenClaims) (scope : String)
    : Type 0 where
  pub authenticated : (claims.sub == "anonymous") ≡ false
  pub token_valid : contains claims.jti cache.revoked_jti ≡ false
  pub token_scope : contains scope claims.scopes ≡ true
  pub consumer_valid : contains claims.sub cache.revoked_consumers ≡ false
  pub grant : GrantRecord
  pub granted : lookup claims.sub cache.grants_by_consumer ≡ some grant
  pub permits : Permits cache scope grant

check_grant_sound :
    (cache : PolicyCache) (found : Option GrantRecord) (sub scope : String)
    → check_grant cache found sub scope ≡ ok tt
    → (grant : GrantRecord) × (found ≡ some grant) × Permits cache scope grant
unfolding check_grant
check_grant_sound cache none sub scope h = cc
check_grant_sound cache (some grant) sub scope h = (grant, refl, ground arith)

check_grant_complete :
    (cache : PolicyCache) (grant : GrantRecord) (sub scope : String)
    → Permits cache scope grant
    → check_grant cache (some grant) sub scope ≡ ok tt
unfolding check_grant
check_grant_complete cache grant sub scope p = ground arith

module _ (env : Environment) (cache : PolicyCache) (claims : ServiceTokenClaims)
    (scope : String) where
  abbrev found : Option GrantRecord
  found = lookup claims.sub cache.grants_by_consumer

  authorize_sound :
      enforcement_enabled env ≡ true
      → authorize env cache claims scope ≡ ok tt
      → IsAuthorized cache claims scope
  unfolding authorize
  authorize_sound on h =
      let (grant, granted, permits) =
        check_grant_sound cache found claims.sub scope (ground arith) in
      record {
        authenticated = ground arith;
        token_valid = ground arith;
        token_scope = ground arith;
        consumer_valid = ground arith;
        grant = grant;
        granted = granted;
        permits = permits;
      }

  pub authorize_complete :
      enforcement_enabled env ≡ true
      → IsAuthorized cache claims scope
      → authorize env cache claims scope ≡ ok tt
  unfolding authorize
  authorize_complete on a =
      ground (arith, a.granted, check_grant_complete cache a.grant claims.sub scope a.permits)

  -- With enforcement on, a request is allowed exactly when the caller is authenticated, the token
  -- is not revoked and holds the scope, the consumer is not revoked, and a stored grant for the
  -- consumer is active, not revoked, for this service and for the scope.
  pub authorize_iff :
      enforcement_enabled env ≡ true
      → (authorize env cache claims scope ≡ ok tt) ↔ IsAuthorized cache claims scope
  authorize_iff on = (authorize_sound on, authorize_complete on)
