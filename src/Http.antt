-- ===== src/Http.antt =====
-- `HTTPException` of FastAPI: the status and the detail of an error response.
use synthia_mqtt.Prelude.{ℕ, String}

pub record HttpError : Type 0 where
  pub status_code : ℕ
  pub detail : String

abbrev pub http_error : ℕ → String → HttpError
http_error status_code detail = record { status_code = status_code; detail = detail }
