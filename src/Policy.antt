-- ===== src/Policy.antt =====
-- app/services/policy_cache.py: grants and revocations that arrive over MQTT, and the decision on
-- a request. The lock makes each method one step.
pub mod Authorize
pub mod Ingest
pub mod Regrant
use synthia_mqtt.Prelude.{
  String, ◌<>◌, ◌≡◌, refl, Bool, true, false, not, ◌&&◌, ◌||◌, Option, none, some, List, [], ◌∷◌,
  arith, is_some, contains, set_add, set_discard, Dict, lookup, insert, erase, ◌==◌, if◌then◌else◌,
  Result, ok, err, raise_if, ◌>>=◌, ◌>>◌,
}
use synthia_mqtt.Prelude.Text.{strip, lower, has_infix}
use synthia_mqtt.Json.{
  Json, Fields, Builtins, Environment, str, obj, get, or_else, truthy, trimmed, extract_scopes,
  getenv, to_bool,
}
use synthia_mqtt.Token.Claims.{ServiceTokenClaims}

pub record GrantRecord : Type 0 where
  pub grant_id : Option String
  pub consumer_addon_id : String
  pub service : Option String
  pub status : String
  pub scopes : List String

pub record PolicyCache : Type 0 where
  pub service_name : String
  pub grants_by_consumer : Dict GrantRecord
  pub revoked_jti : List String
  pub revoked_grant_ids : List String
  pub revoked_consumers : List String

-- `PolicyCache(service_name)`
abbrev pub init : String → PolicyCache
init service_name = record {
  service_name = service_name;
  grants_by_consumer = [];
  revoked_jti = [];
  revoked_grant_ids = [];
  revoked_consumers = [];
}

unfoldable pub enforcement_enabled : Environment → Bool
enforcement_enabled env = to_bool (getenv env "SYNTHIA_POLICY_ENFORCEMENT" "false")

-- `grant.grant_id and grant.grant_id in revoked`
abbrev pub names_one_of : Option String → List String → Bool
names_one_of none revoked = false
names_one_of (some id) revoked = not (id == "") && contains id revoked

-- `grant.service and grant.service != service_name`
abbrev pub names_other : Option String → String → Bool
names_other none service_name = false
names_other (some service) service_name = not (service == "") && not (service == service_name)

abbrev shown : Option String → String
shown none = "None"
shown (some text) = text

-- `grant.scopes and required_scope not in grant.scopes`
abbrev pub lacks : List String → String → Bool
lacks [] scope = false
lacks (s ∷ scopes) scope = not (contains scope (s ∷ scopes))

-- The tests on the grant of the caller; `err` holds the reason of a denial.
unfoldable pub check_grant :
    PolicyCache → Option GrantRecord → String → String → Result String (Unit {0})
check_grant cache none sub required_scope = err ("No active grant for consumer addon: " <> sub)
check_grant cache (some grant) sub required_scope = do
  raise_if (not (grant.status == "active"))
      ("Grant is not active (status=" <> (grant.status <> ")"))
  raise_if (names_one_of grant.grant_id cache.revoked_grant_ids) "Grant has been revoked"
  raise_if (names_other grant.service cache.service_name) (
      "Grant service mismatch ("
      <> (shown grant.service <> (" != " <> (cache.service_name <> ")"))))
  raise_if (lacks grant.scopes required_scope) ("Grant missing scope: " <> required_scope)

unfoldable pub authorize :
    Environment → PolicyCache → ServiceTokenClaims → String → Result String (Unit {0})
authorize env cache claims required_scope = if not (enforcement_enabled env) then ok tt else do
  raise_if (claims.sub == "anonymous") "Policy enforcement requires authenticated service token"
  raise_if (contains claims.jti cache.revoked_jti) "Token has been revoked"
  raise_if (not (contains required_scope claims.scopes))
      ("Missing required scope: " <> required_scope)
  raise_if (contains claims.sub cache.revoked_consumers) "Consumer addon has been revoked"
  check_grant cache (lookup claims.sub cache.grants_by_consumer) claims.sub required_scope

-- `str(text).strip() or None`
abbrev pub text_or_none : String → Option String
text_or_none text = if text == "" then none else some text

module _ ⦃python : Builtins⦄ where
  unfoldable pub consumer_of : Fields → String
  consumer_of data' = trimmed (
      or_else (get "consumer_addon_id" data')
        (or_else (get "addon_id" data') (or_else (get "sub" data') (str ""))))

  -- The record that a grant message describes.
  unfoldable pub grant_of : Fields → GrantRecord
  grant_of data' = record {
    grant_id =
        if truthy (get "grant_id" data') then some (trimmed (get "grant_id" data')) else none;
    consumer_addon_id = consumer_of data';
    service = text_or_none (trimmed (or_else (get "service" data') (str "")));
    status = lower (trimmed (or_else (get "status" data') (str "active")));
    scopes = extract_scopes data';
  }

-- `if grant_id: revoked_grant_ids.add(grant_id)`, and the same with `discard`.
abbrev pub add_id : Option String → List String → List String
add_id none ids = ids
add_id (some id) ids = if id == "" then ids else set_add id ids

abbrev pub discard_id : Option String → List String → List String
discard_id none ids = ids
discard_id (some id) ids = if id == "" then ids else set_discard id ids

abbrev pub is_closing : String → Bool
is_closing status = status == "revoked" || status == "expired"

-- The last part of `_apply_grant`, under the lock.
unfoldable pub store_grant : PolicyCache → GrantRecord → PolicyCache
store_grant cache grant =
    if is_closing grant.status
    then record cache {
      grants_by_consumer = erase grant.consumer_addon_id cache.grants_by_consumer;
      revoked_grant_ids = add_id grant.grant_id cache.revoked_grant_ids;
    }
    else record cache {
      grants_by_consumer = insert grant.consumer_addon_id grant cache.grants_by_consumer;
      revoked_consumers = set_discard grant.consumer_addon_id cache.revoked_consumers;
      revoked_grant_ids = discard_id grant.grant_id cache.revoked_grant_ids;
    }

abbrev pub has_id : Option String → String → Bool
has_id none id = false
has_id (some own) id = own == id

-- The loop that pops the grants with a given id.
unfoldable pub without_grant_id : String → Dict GrantRecord → Dict GrantRecord
without_grant_id id [] = []
without_grant_id id ((k, grant) ∷ rest) =
    let more = without_grant_id id rest in
    if has_id grant.grant_id id then more else (k, grant) ∷ more

-- The three steps of `_apply_revocation`, each for a name that is not empty.
unfoldable pub revoke_jti : String → PolicyCache → PolicyCache
revoke_jti jti cache =
    if jti == "" then cache else record cache { revoked_jti = set_add jti cache.revoked_jti }

unfoldable pub revoke_grant_id : String → PolicyCache → PolicyCache
unfolding without_grant_id
revoke_grant_id id cache = if id == "" then cache else record cache {
  revoked_grant_ids = set_add id cache.revoked_grant_ids;
  grants_by_consumer = without_grant_id id cache.grants_by_consumer;
}

unfoldable pub revoke_consumer : String → PolicyCache → PolicyCache
revoke_consumer consumer cache = if consumer == "" then cache else record cache {
  revoked_consumers = set_add consumer cache.revoked_consumers;
  grants_by_consumer = erase consumer cache.grants_by_consumer;
}

module _ ⦃python : Builtins⦄ where
  unfoldable pub apply_grant : PolicyCache → Fields → PolicyCache
  apply_grant cache data' =
      let grant = grant_of data' in
      if grant.consumer_addon_id == "" || names_other grant.service cache.service_name
      then cache
      else store_grant cache grant

  -- The names that a revocation message holds, empty where it holds none.
  unfoldable pub jti_of : Fields → String
  jti_of data' = trimmed (or_else (get "jti" data') (or_else (get "token_jti" data') (str "")))

  unfoldable pub grant_id_of : Fields → String
  grant_id_of data' = trimmed (or_else (get "grant_id" data') (str ""))

  unfoldable pub revoked_consumer_of : Fields → String
  revoked_consumer_of data' =
      trimmed (or_else (get "consumer_addon_id" data') (or_else (get "addon_id" data') (str "")))

  unfoldable pub apply_revocation : PolicyCache → Fields → PolicyCache
  apply_revocation cache data' =
      revoke_consumer (revoked_consumer_of data')
        (revoke_grant_id (grant_id_of data') (revoke_jti (jti_of data') cache))

  -- `_parse_payload`
  unfoldable pub parse_payload : String → Option Fields
  parse_payload text = elim (python.loads text) [
    | none ↦ none
    | some v ↦ elim v [ obj fs ↦ some fs | _ ↦ none ]
  ]

  abbrev dispatch : PolicyCache → String → Option Fields → PolicyCache
  dispatch cache topic none = cache
  dispatch cache topic (some data') =
      if has_infix topic "/policy/grants/"
      then apply_grant cache data'
      else if has_infix topic "/policy/revocations/"
      then apply_revocation cache data'
      else cache

  unfoldable pub ingest : Environment → PolicyCache → String → String → PolicyCache
  ingest env cache topic payload_text =
      if not (enforcement_enabled env)
      then cache
      else dispatch cache topic (parse_payload payload_text)

-- A message, with the environment at its arrival.
pub record Message : Type 0 where
  pub env : Environment
  pub topic : String
  pub payload_text : String

module _ ⦃python : Builtins⦄ where
  -- The messages in the order of their arrival.
  unfoldable pub ingest_all : PolicyCache → List Message → PolicyCache
  ingest_all cache [] = cache
  ingest_all cache (m ∷ rest) = ingest_all (ingest m.env cache m.topic m.payload_text) rest
