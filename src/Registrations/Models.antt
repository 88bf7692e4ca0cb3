-- ===== src/Registrations/Models.antt =====
-- app/models/registration_models.py: the requests and records of registrations, and what the files
-- of the store hold.
use synthia_mqtt.Prelude.{ℕ, String, Bool, Option, List, Dict}
use synthia_mqtt.Json.{Fields}
use synthia_mqtt.Codecs.{Bytes}
use synthia_mqtt.Topics.{RealizedPermissions}

pub data AccessMode : Type 0 where
  gateway_only direct_mqtt both : AccessMode

-- `no_access` is "none".
pub data HaMode : Type 0 where
  no_access gateway_managed direct_allowed : HaMode

pub data BrokerMode : Type 0 where
  external embedded : BrokerMode

pub record MqttRegistrationRequest : Type 0 where
  pub addon_id : String
  pub access_mode : AccessMode
  pub publish_topics : List String
  pub subscribe_topics : List String
  pub capabilities : Fields
  pub ha_mode : HaMode
  pub manual_direct_mqtt : Option (Dict String)
  pub reprovision : Bool

pub record DirectMqttCredentials : Type 0 where
  pub username : String
  pub password : String

pub record ManualMapping : Type 0 where
  pub username : String
  pub credential_ref : Option String

-- `status` is always "approved".
pub record MqttRegistrationRecord : Type 0 where
  pub addon_id : String
  pub access_mode : AccessMode
  pub publish_topics : List String
  pub subscribe_topics : List String
  pub permissions : RealizedPermissions
  pub ha_mode : HaMode
  pub capabilities : Fields
  pub manual_direct_mqtt : Option ManualMapping
  pub direct_mqtt : Option DirectMqttCredentials
  pub updated_at : ℕ

pub record CredentialMeta : Type 0 where
  pub version : ℕ
  pub username : String
  pub password_hash : String
  pub updated_at : ℕ

-- A stored object: a record that validates, or another object; both may hold a `credential_meta`.
pub record Stored : Type 0 where
  pub record_of : Option MqttRegistrationRecord
  pub credential_meta : Option CredentialMeta
  pub acl_mode : Option String
  pub external_direct_access_mode : Option String

-- The note for the operator of an external broker.
pub record AclNote : Type 0 where
  pub publish : List String
  pub subscribe : List String
  pub generated_at : ℕ

-- The files that the store writes: the registrations (`{}` if the file is missing or damaged),
-- the seed, the ACL files and the notes by addon.
pub record Files : Type 0 where
  pub registrations : Dict Stored
  pub seed : Option Bytes
  pub acl_generated : Dict String
  pub external_acl_notes : Dict AclNote

-- `TopicPermissionError`, which is a `ValueError`, or another `ValueError`.
pub data UpsertError : Type 0 where
  topic_permission_error value_error os_error : String → UpsertError
