-- ===== src/Enrolment/Guard.antt =====
-- What a request to register an addon leaves behind, and what an external broker forbids.
use synthia_mqtt.Prelude.{
  ℕ, String, ◌≡◌, refl, ap, true, false, Bool-cases, inl, inr, Option, none, some, is_some, ◌==◌,
  Result, ok, err, ok_injective, ◌≢◌, Bool, ◌&&◌,
}
use synthia_mqtt.Prelude.Text.{strip}
use synthia_mqtt.Json.{Fields, Builtins}
use synthia_mqtt.Codecs.{Bytes, Codecs}
use synthia_mqtt.Http.{HttpError, http_error}
use synthia_mqtt.Token.Claims.{ServiceTokenClaims}
use synthia_mqtt.Traces.{Outcome, success, denied, append}
use synthia_mqtt.Registrations.{
  MqttRegistrationRequest, MqttRegistrationRecord, Files, UpsertError, Writer, external, is_direct,
  get_registration, upsert,
}
use synthia_mqtt.Registrations.Upsert.{upsert_credentials}
use synthia_mqtt.Enrolment.{
  Desk, broker_mode_of, direct_access_mode_of, registration_trace, guarded_upsert, detail_of,
  is_external, refused_answer, answer, upsert_registration,
}

module _ ⦃python : Builtins⦄ (codecs : Codecs) (max_entries : ℕ) (writer : Writer) (fresh : Bytes)
    (now : ℕ) (payload : MqttRegistrationRequest) (claims : ServiceTokenClaims) (desk : Desk) where
  -- The files are as they were, or the write of the access rules raised `e` after the registration
  -- was stored.
  pub data FilesKept (e : UpsertError) (files : Files) : Type 0 where
    same : files ≡ desk.files → FilesKept e files
    half :
        (r : MqttRegistrationRecord)
        → writer (strip payload.addon_id) ≡ some e
        → get_registration payload.addon_id files ≡ some r
        → FilesKept e files

  abbrev with_trace : Outcome → String → String → Files → Desk
  with_trace outcome addon_id detail files = record {
    files = files;
    traces = append max_entries now (registration_trace outcome claims addon_id detail) desk.traces;
  }

  -- The ways a request ends, with its response and what it leaves.
  pub data IsRecorded (install_state : Option Fields)
      : Result HttpError MqttRegistrationRecord × Desk → Type 0 where
    accepted :
        (r : MqttRegistrationRecord) (files : Files)
        → get_registration payload.addon_id files ≡ some r
        → IsRecorded install_state
            (ok r, with_trace success r.addon_id "Registration upserted" files)
    denied_with :
        (e : UpsertError) (detail : String) (files : Files)
        → detail_of e ≡ some detail
        → FilesKept e files
        → IsRecorded install_state
            (err (http_error 400 detail), with_trace denied (strip payload.addon_id) detail files)
    crashed :
        (e : UpsertError) (files : Files)
        → detail_of e ≡ none
        → FilesKept e files
        → IsRecorded install_state
            (err (http_error 500 "Internal Server Error"), record desk { files = files })
    unreadable :
        install_state ≡ none
        → IsRecorded install_state (err (http_error 500 "Internal Server Error"), desk)

  module _ (state : Fields) where
    abbrev is_barred : Bool
    is_barred =
        is_external (broker_mode_of state)
        && (direct_access_mode_of state == "gateway_only" && is_direct payload.access_mode)

    guarded-ok :
        (r : MqttRegistrationRecord) (files : Files)
        → guarded_upsert codecs writer fresh now state payload desk.files ≡ (ok r, files)
        → (is_barred ≡ false)
          × (upsert codecs writer fresh now payload
                (broker_mode_of state)
                (direct_access_mode_of state)
                desk.files
              ≡ (ok r, files))
    unfolding guarded_upsert
    guarded-ok r files h = elim (Bool-cases is_barred) [
      | inl barred ↦ cc (rw barred at h)
      | inr free ↦ (free, rw free at h)
    ]

  refused_answer_not_ok :
      (detail : Option String) (left : Desk) (r : MqttRegistrationRecord)
      → (refused_answer codecs max_entries now payload claims detail left).0 ≢ ok r
  refused_answer_not_ok none left r h = cc h
  refused_answer_not_ok (some detail) left r h = cc h

  answer-ok :
      (m : Result UpsertError MqttRegistrationRecord × Files) (r : MqttRegistrationRecord)
      → (answer codecs max_entries now payload claims desk m).0 ≡ ok r
      → (files : Files) × (m ≡ (ok r, files))
  answer-ok (ok r', files) r h = (
    files,
    ap (λ (x : MqttRegistrationRecord). (ok x, files)) (ok_injective {E = HttpError} refl h),
  )
  answer-ok (err e, files) r h = absurd (refused_answer_not_ok (detail_of e) _ r h)

  -- Behind an external broker in gateway_only mode, no accepted registration has credentials for
  -- direct access or a mapping to an account of the broker.
  pub upsert_registration_guarded :
      (install_state : Fields) (r : MqttRegistrationRecord)
      → broker_mode_of install_state ≡ external
      → (direct_access_mode_of install_state == "gateway_only") ≡ true
      → (upsert_registration codecs max_entries writer fresh now
          (some install_state)
          payload
          claims
          desk).0
        ≡ ok r
      → (is_some r.direct_mqtt ≡ false) × (is_some r.manual_direct_mqtt ≡ false)
  unfolding upsert_registration
  upsert_registration_guarded state r outside only h =
      let (files, same_answer) =
        answer-ok (guarded_upsert codecs writer fresh now state payload desk.files) r h in
      let (free, stored) = guarded-ok state r files same_answer in
      let through : is_direct payload.access_mode ≡ false = rw (outside, only) at free in
      let (credentials, mapping) =
        upsert_credentials codecs fresh now payload (broker_mode_of state) desk.files writer
          (direct_access_mode_of state) r files stored in
      (rw through at credentials, rw through at mapping)
