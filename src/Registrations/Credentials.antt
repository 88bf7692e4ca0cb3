-- ===== src/Registrations/Credentials.antt =====
-- Direct credentials over repeated registrations of `upsert`.
use synthia_mqtt.Prelude.{
  refl, false, ◌==◌, Result, ℕ, ◌+◌, String, ◌<>◌, ◌≡◌, ap, sym, ◌∙◌, Bool, true, Option, some,
  arith, lookup, lookup-insert, eq_refl, if◌then◌else◌, ok,
}
use synthia_mqtt.Prelude.Text.{strip}
use synthia_mqtt.Json.{Builtins}
use synthia_mqtt.Codecs.{Bytes, Codecs}
use synthia_mqtt.Registrations.{
  BrokerMode, embedded, MqttRegistrationRequest, MqttRegistrationRecord, Stored, Files,
  CredentialMeta, Provision, DirectMqttCredentials, is_direct, meta_of, current_version,
  password_for, issue_direct_credentials, load_or_create_seed, provision, record_for, stored_for,
  save_all, Writer, UpsertError, upsert,
}
use synthia_mqtt.Registrations.Remains.{upsert-KeepsOther}
use synthia_mqtt.Registrations.Upsert.{upsert-Steps, registrations-upsert, seed-write_acl}

module _ ⦃python : Builtins⦄ (codecs : Codecs) where
  -- The credentials of an addon for a seed and a version.
  abbrev pub credentials_for : Bytes → String → ℕ → DirectMqttCredentials
  credentials_for seed addon_id version = record {
    username = "addon_" <> (addon_id <> "_mqtt");
    password = password_for codecs seed addon_id version;
  }

  -- What a provision with direct credentials is made of.
  record Issued (addon_id : String) (version : ℕ) (seed : Bytes) (given : Provision) : Type 0 where
    kept : given.files.seed ≡ some seed
    issued : given.direct ≡ some (credentials_for seed addon_id version)
    remembered : current_version given.meta ≡ version

  provision-Issued :
      (fresh : Bytes) (now : ℕ) (request : MqttRegistrationRequest) (meta : Option CredentialMeta)
      (files : Files) (given : Provision)
      → provision codecs fresh now embedded request meta files true ≡ ok given
      → Issued
          (strip request.addon_id)
          (if request.reprovision then current_version meta + 1 else current_version meta)
          (load_or_create_seed fresh files).0
          given
  unfolding provision issue_direct_credentials load_or_create_seed
  provision-Issued fresh now request meta files given h = record {
    kept = ground arith;
    issued = ground arith;
    remembered = ground arith;
  }

seed_taken :
    (fresh : Bytes) (files : Files) (seed : Bytes)
    → files.seed ≡ some seed
    → (load_or_create_seed fresh files).0 ≡ seed
unfolding load_or_create_seed
seed_taken fresh files seed e = ground arith

module _ ⦃python : Builtins⦄ (codecs : Codecs) where
  -- The version of an addon's credentials in the store, 1 if it has none.
  abbrev version_in : String → Files → ℕ
  version_in addon_id files = current_version (meta_of (lookup addon_id files.registrations))

  abbrev next_version : Bool → ℕ → ℕ
  next_version reprovision version = if reprovision then version + 1 else version

  module _ (writer : Writer) (fresh : Bytes) (now : ℕ) (request : MqttRegistrationRequest)
      (direct_access : String) (files : Files) (r : MqttRegistrationRecord) (files' : Files)
      (direct : is_direct request.access_mode ≡ true)
      (accepted : upsert codecs writer fresh now request embedded direct_access files
        ≡ (ok r, files')) where
    abbrev addon : String
    addon = strip request.addon_id

    abbrev version : ℕ
    version = next_version request.reprovision (version_in addon files)

    abbrev seed : Bytes
    seed = (load_or_create_seed fresh files).0

    -- The record holds the credentials for the seed and the version, and the store keeps both.
    upsert-direct :
        (r.direct_mqtt ≡ some (credentials_for codecs seed addon version))
        × (files'.seed ≡ some seed)
        × (version_in addon files' ≡ version)
    upsert-direct =
        let s =
          upsert-Steps codecs fresh now request embedded files writer direct_access r files'
            accepted in
        let found =
          registrations-upsert codecs fresh now request embedded files writer direct_access r files'
            s in
        let made = record_for codecs request s.prepared.realized s.given now in
        let stored : Stored = stored_for codecs embedded direct_access made s.given in
        let i =
          provision-Issued codecs fresh now request (meta_of (lookup addon files.registrations))
            files s.given (rw direct at s.prepared.provided) in
        let self = lookup-insert addon addon stored files.registrations in
        (
          ap (λ (t : MqttRegistrationRecord). t.direct_mqtt) s.prepared.recorded ∙ i.issued,
          ap (λ (w : Result UpsertError (Unit {0}) × Files). w.1.seed) (sym s.saved)
              ∙ seed-write_acl writer now r (save_all codecs embedded direct_access r s.given)
                  embedded
              ∙ i.kept,
          ap (λ d. current_version (meta_of (lookup addon d))) found
              ∙ ap (λ o. current_version (meta_of o)) self
              ∙ rw (eq_refl addon) i.remembered,
        )

  -- Requests of other addons, accepted or not, one after the other.
  pub data Others (addon_id : String) : Files → Files → Type 0 where
    nobody : (files : Files) → Others addon_id files files
    another :
        (writer : Writer) (fresh : Bytes) (now : ℕ) (request : MqttRegistrationRequest)
        (mode : BrokerMode) (direct_access : String) (files later : Files)
        → (strip request.addon_id == addon_id) ≡ false
        → Others addon_id (upsert codecs writer fresh now request mode direct_access files).1 later
        → Others addon_id files later

  Others-keep :
      (addon_id : String) (s : Bytes) (files later : Files)
      → Others addon_id files later
      → files.seed ≡ some s
      → (lookup addon_id later.registrations ≡ lookup addon_id files.registrations)
        × (later.seed ≡ some s)
  Others-keep addon_id s files later (nobody _) kept = (refl, kept)
  Others-keep addon_id s files later
        (another writer fresh now request mode direct_access _ _ other rest) kept =
      let (entry, seeded) =
        upsert-KeepsOther codecs fresh now request mode files writer direct_access addon_id s other
          kept in
      let (last_entry, last_seed) = Others-keep addon_id s _ later rest seeded in
      (last_entry ∙ entry, last_seed)

  -- Of two accepted registrations of an addon for direct access to the embedded broker, between
  -- which only other addons send requests to register, the second gives the credentials of the
  -- first, or those of the next version if it asks for new ones, whatever the moments and the topics
  -- of the requests.
  pub credentials_last :
      (writer writer' : Writer) (fresh fresh' : Bytes) (now now' : ℕ)
      (request request' : MqttRegistrationRequest) (direct_access direct_access' : String)
      (files files' between files'' : Files) (r r' : MqttRegistrationRecord)
      → is_direct request.access_mode ≡ true
      → is_direct request'.access_mode ≡ true
      → strip request'.addon_id ≡ strip request.addon_id
      → upsert codecs writer fresh now request embedded direct_access files ≡ (ok r, files')
      → Others (strip request.addon_id) files' between
      → upsert codecs writer' fresh' now' request' embedded direct_access' between
        ≡ (ok r', files'')
      → (seed : Bytes) × (version : ℕ) × (r.direct_mqtt
          ≡ some (credentials_for codecs seed r.addon_id version))
        × (r'.direct_mqtt
            ≡ some (
                credentials_for codecs seed r.addon_id
                  (if request'.reprovision then version + 1 else version)))
  credentials_last writer writer' fresh fresh' now now' request request' da da' files files' between
        files'' r r' d d' same h others h' =
      let (first, kept, remembered) =
        upsert-direct writer fresh now request da files r files' d h in
      let (second, kept', remembered') =
        upsert-direct writer' fresh' now' request' da' between r' files'' d' h' in
      let s = upsert-Steps codecs fresh now request embedded files writer da r files' h in
      let seed : Bytes = (load_or_create_seed fresh files).0 in
      let addon_id = strip request.addon_id in
      let version : ℕ = next_version request.reprovision (version_in addon_id files) in
      let (entry, seeded) = Others-keep addon_id seed files' between others kept in
      let named : r.addon_id ≡ addon_id =
        ap (λ (t : MqttRegistrationRecord). t.addon_id) s.prepared.recorded in
      let moved : strip request'.addon_id ≡ r.addon_id = same ∙ sym named in
      let kept_version : version_in r.addon_id between ≡ version =
        ap (λ a. version_in a between) named
        ∙ ap (λ o. current_version (meta_of o)) entry
        ∙ remembered in
      (
        seed,
        version,
        rw named first,
        second
            ∙ ap
                (λ (k : Bytes). some (
                  credentials_for codecs k (strip request'.addon_id) (
                    next_version request'.reprovision
                      (version_in (strip request'.addon_id) between))))
                (seed_taken fresh' between seed seeded)
            ∙ ap
                (λ (a : String). some (
                  credentials_for codecs seed a
                    (next_version request'.reprovision (version_in a between))))
                moved
            ∙ ap
                (λ (v : ℕ).
                  some
                    (credentials_for codecs seed r.addon_id (next_version request'.reprovision v)))
                kept_version,
      )
