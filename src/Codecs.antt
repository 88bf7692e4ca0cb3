-- ===== src/Codecs.antt =====
-- `base64`, `hashlib`, `hmac` and the text codecs, which the program calls; `none` is an exception.
use synthia_mqtt.Prelude.{ℕ, String, Option, List}

abbrev pub Bytes : Type 0
Bytes = List ℕ

pub record Codecs : Type 0 where
  pub urlsafe_b64decode : String → Option Bytes
  pub urlsafe_b64encode : Bytes → String
  pub utf8_decode : Bytes → Option String
  pub utf8_encode : String → Bytes
  pub hmac_sha256 : Bytes → Bytes → Bytes
  pub sha256_hex : Bytes → String
