-- ===== src/Token/Claims.antt =====
-- `ServiceTokenClaims` of app/services/token_auth.py
use synthia_mqtt.Prelude.{String, List}
use synthia_mqtt.Json.{Fields}

pub record ServiceTokenClaims : Type 0 where
  pub sub : String
  pub aud : String
  pub jti : String
  pub scopes : List String
  pub raw : Fields
