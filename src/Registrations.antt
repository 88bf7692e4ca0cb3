-- ===== src/Registrations.antt =====
-- app/services/registration_store.py: which addon may use the broker, how, and with
-- which credentials. A moment in time is a number.
mod Models
pub mod Upsert
pub mod Remains
pub mod Credentials
use synthia_mqtt.Prelude.{
  ℕ, ◌+◌, String, ◌<>◌, Bool, true, false, not, ◌||◌, Option, none, some, List, [], ◌∷◌, ◌++◌, map,
  contains, Dict, lookup, insert, ltb, ◌==◌, if◌then◌else◌, Result, ok, err, raise_if, ◌>>=◌, ◌>>◌,
}
use synthia_mqtt.Prelude.Text.{strip, rstrip_char, take_text, join}
use synthia_mqtt.Json.{ℤ, pos, Fields, Builtins}
use synthia_mqtt.Codecs.{Bytes, Codecs}
use synthia_mqtt.Topics.{RealizedPermissions, realize_topic_permissions}
pub use Models.*

abbrev pub is_direct : AccessMode → Bool
is_direct gateway_only = false
is_direct direct_mqtt = true
is_direct both = true

unfoldable pub normalize_direct_access : String → String
normalize_direct_access mode =
    if mode == "gateway_only" || mode == "manual_direct_access" then mode else "gateway_only"

unfoldable pub load_or_create_seed : Bytes → Files → Bytes × Files
load_or_create_seed fresh files = elim files.seed [
  | some seed ↦ (seed, files)
  | none ↦ (fresh, record files { seed = some fresh })
]

abbrev pub current_version : Option CredentialMeta → ℕ
current_version none = 1
current_version (some meta) = meta.version

module _ ⦃python : Builtins⦄ (codecs : Codecs) where
  unfoldable pub password_for : Bytes → String → ℕ → String
  password_for seed addon_id version = take_text 32 (
      rstrip_char b'=' (
        codecs.urlsafe_b64encode (
          codecs.hmac_sha256 seed
            (codecs.utf8_encode (addon_id <> (":" <> python.print_number (pos version)))))))

  -- `_issue_direct_credentials`; `fresh` is what `secrets.token_bytes(32)` returns.
  unfoldable pub issue_direct_credentials :
      Bytes
      → ℕ
      → String
      → Bool
      → Option CredentialMeta
      → Files
      → DirectMqttCredentials × CredentialMeta × Files
  issue_direct_credentials fresh now addon_id reprovision existing_meta files =
      let (seed, files') = load_or_create_seed fresh files in
      let current = current_version existing_meta in
      let version = if reprovision then current + 1 else current in
      let username = "addon_" <> (addon_id <> "_mqtt") in
      let password = password_for seed addon_id version in
      (
        record { username = username; password = password },
        record {
          version = version;
          username = username;
          password_hash = codecs.sha256_hex (codecs.utf8_encode password);
          updated_at = now;
        },
        files',
      )

-- `str(manual_raw.get(key, "")).strip()`
abbrev pub manual_text : String → Option (Dict String) → String
manual_text key none = ""
manual_text key (some raw) = elim (lookup key raw) [ none ↦ "" | some text ↦ strip text ]

unfoldable pub manual_mapping : Option (Dict String) → Result UpsertError ManualMapping
manual_mapping raw =
    let username = manual_text "username" raw in
    let credential_ref = manual_text "credential_ref" raw in
    do
      raise_if (username == "") (
          value_error
            "External direct access mode requires manual_direct_mqtt.username for direct_mqtt/both registrations")
      ok (record {
        username = username;
        credential_ref = if credential_ref == "" then none else some credential_ref;
      })

-- The credentials of a registration: what it returns and what is stored.
pub record Provision : Type 0 where
  pub direct : Option DirectMqttCredentials
  pub manual : Option ManualMapping
  pub meta : Option CredentialMeta
  pub files : Files

abbrev pub meta_of : Option Stored → Option CredentialMeta
meta_of none = none
meta_of (some s) = s.credential_meta

-- What the write of a file raises, by the addon id that names it, if anything: a `ValueError` for a
-- name with a null character, an `OSError` for one in a directory that does not exist.
abbrev pub Writer : Type 0
Writer = String → Option UpsertError

-- A write that raises, or leaves the files `written`.
abbrev pub after_write : Option UpsertError → Files → Files → Result UpsertError (Unit {0}) × Files
after_write none written files = (ok tt, written)
after_write (some e) written files = (err e, files)

unfoldable pub write_embedded_acl :
    Writer → MqttRegistrationRecord → Files → Result UpsertError (Unit {0}) × Files
write_embedded_acl writer r files =
    let lines =
      (("user addon_" <> (r.addon_id <> "_mqtt")) ∷ [])
      ++ (map (λ topic. "topic write " <> topic) r.permissions.publish
          ++ map (λ topic. "topic read " <> topic) r.permissions.subscribe) in
    after_write (writer r.addon_id)
      (record files {
        acl_generated = insert r.addon_id (join "\n" lines <> "\n") files.acl_generated;
      })
      files

unfoldable pub write_external_acl_note :
    Writer → ℕ → MqttRegistrationRecord → Files → Result UpsertError (Unit {0}) × Files
write_external_acl_note writer now r files =
    after_write (writer r.addon_id)
      (record files {
        external_acl_notes =
            insert r.addon_id
              (record {
                publish = r.permissions.publish;
                subscribe = r.permissions.subscribe;
                generated_at = now;
              })
              files.external_acl_notes;
      })
      files

abbrev pub write_acl :
    Writer → BrokerMode → ℕ → MqttRegistrationRecord → Files → Result UpsertError (Unit {0}) × Files
write_acl writer embedded now r files = write_embedded_acl writer r files
write_acl writer external now r files = write_external_acl_note writer now r files

abbrev pub acl_mode_of : BrokerMode → String
acl_mode_of embedded = "embedded-generated"
acl_mode_of external = "external-manual"

abbrev pub as_topic_error {ℓ} : {A : Type ℓ} → Result String A → Result UpsertError A
as_topic_error (ok a) = ok a
as_topic_error (err message) = err (topic_permission_error message)

module _ ⦃python : Builtins⦄ (codecs : Codecs) where
  unfoldable pub provision :
      Bytes
      → ℕ
      → BrokerMode
      → MqttRegistrationRequest
      → Option CredentialMeta
      → Files
      → Bool
      → Result UpsertError Provision
  provision fresh now mode request meta files false =
      ok (record { direct = none; manual = none; meta = none; files = files })
  provision fresh now embedded request meta files true =
      let (credentials, new_meta, files') =
        issue_direct_credentials codecs fresh now (strip request.addon_id) request.reprovision meta
          files in
      ok (record { direct = some credentials; manual = none; meta = some new_meta; files = files' })
  provision fresh now external request meta files true = do
    mapping ← manual_mapping request.manual_direct_mqtt
    ok (record { direct = none; manual = some mapping; meta = none; files = files })

  abbrev pub record_for :
      MqttRegistrationRequest → RealizedPermissions → Provision → ℕ → MqttRegistrationRecord
  record_for request realized given now = record {
    addon_id = strip request.addon_id;
    access_mode = request.access_mode;
    publish_topics = realized.publish;
    subscribe_topics = realized.subscribe;
    permissions = realized;
    ha_mode = request.ha_mode;
    capabilities = request.capabilities;
    manual_direct_mqtt = given.manual;
    direct_mqtt = given.direct;
    updated_at = now;
  }

  abbrev pub stored_for : BrokerMode → String → MqttRegistrationRecord → Provision → Stored
  stored_for mode direct_access r given = record {
    record_of = some r;
    credential_meta = given.meta;
    acl_mode = some (acl_mode_of mode);
    external_direct_access_mode = some (normalize_direct_access direct_access);
  }

  -- `_save_all` with the new entry.
  abbrev pub save_all : BrokerMode → String → MqttRegistrationRecord → Provision → Files
  save_all mode direct_access r given = record (given.files) {
    registrations =
        insert r.addon_id (stored_for mode direct_access r given) given.files.registrations;
  }

  -- The end of `upsert`, by what the write of the file of the access rules left.
  abbrev pub returned :
      MqttRegistrationRecord
      → Result UpsertError (Unit {0}) × Files
      → Result UpsertError MqttRegistrationRecord × Files
  returned r (ok done, files) = (ok r, files)
  returned r (err e, files) = (err e, files)

  -- What `upsert` checks and makes before it saves anything.
  unfoldable pub prepare :
      Bytes
      → ℕ
      → MqttRegistrationRequest
      → BrokerMode
      → Files
      → Result UpsertError (MqttRegistrationRecord × Provision)
  prepare fresh now request mode files =
      let addon_id = strip request.addon_id in
      let existing_meta = meta_of (lookup addon_id files.registrations) in
      do
        realized ←
            as_topic_error
              (realize_topic_permissions addon_id request.publish_topics request.subscribe_topics)
        given ← provision fresh now mode request existing_meta files (is_direct request.access_mode)
        ok (record_for request realized given now, given)

  abbrev pub stored_by :
      Writer
      → ℕ
      → BrokerMode
      → String
      → Files
      → Result UpsertError (MqttRegistrationRecord × Provision)
      → Result UpsertError MqttRegistrationRecord × Files
  stored_by writer now mode direct_access files (err e) = (err e, files)
  stored_by writer now mode direct_access files (ok (r, given)) =
      returned r (write_acl writer mode now r (save_all mode direct_access r given))

  -- `upsert`, with the moment of the call: its result, and the files that it leaves.
  unfoldable pub upsert :
      Writer
      → Bytes
      → ℕ
      → MqttRegistrationRequest
      → BrokerMode
      → String
      → Files
      → Result UpsertError MqttRegistrationRecord × Files
  unfolding prepare
  upsert writer fresh now request mode direct_access files =
      stored_by writer now mode direct_access files (prepare fresh now request mode files)

abbrev pub record_found : Option Stored → Option MqttRegistrationRecord
record_found none = none
record_found (some stored) = stored.record_of

unfoldable pub get_registration : String → Files → Option MqttRegistrationRecord
get_registration addon_id files = record_found (lookup (strip addon_id) files.registrations)

unfoldable pub valid_records : Dict Stored → List MqttRegistrationRecord
valid_records [] = []
valid_records ((key, stored) ∷ rest) = elim stored.record_of [
  | none ↦ valid_records rest
  | some r ↦ r ∷ valid_records rest
]

-- The stable sort by `updated_at`, latest first.
unfoldable pub insert_latest :
    MqttRegistrationRecord → List MqttRegistrationRecord → List MqttRegistrationRecord
insert_latest r [] = r ∷ []
insert_latest r (x ∷ rest) =
    if ltb r.updated_at x.updated_at then x ∷ insert_latest r rest else r ∷ x ∷ rest

unfoldable pub sort_latest : List MqttRegistrationRecord → List MqttRegistrationRecord
sort_latest [] = []
sort_latest (r ∷ rest) = insert_latest r (sort_latest rest)

unfoldable pub list_registrations : Files → List MqttRegistrationRecord
unfolding valid_records sort_latest insert_latest
list_registrations files = sort_latest (valid_records files.registrations)

unfoldable pub broker_profile_for : String → Files → String
broker_profile_for addon_id files = elim (lookup (strip addon_id) files.registrations) [
  | none ↦ "unknown"
  | some stored ↦ elim stored.acl_mode [
    | none ↦ "unknown"
    | some profile ↦ if strip profile == "" then "unknown" else strip profile
  ]
]
