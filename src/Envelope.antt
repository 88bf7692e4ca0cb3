-- ===== src/Envelope.antt =====
-- app/services/envelope_validation.py: what a message on a platform topic must hold.
use synthia_mqtt.Prelude.{
  String, ◌≡◌, refl, ◌↔◌, ◌⊎◌, inl, inr, Bool-cases, Bool, true, false, not, ◌||◌, List, [], ◌∷◌,
  arith, any, contains, ◌==◌, if◌then◌else◌, Result, ok, err, raise_if, ◌>>◌,
}
use synthia_mqtt.Prelude.Text.{strip, lower, starts_with}
use synthia_mqtt.Json.{Json, Fields, Builtins, str, obj, get_or, has_key, trimmed}
use synthia_mqtt.Topics.{reserved_prefixes}

abbrev pub platform_message_types : List String
platform_message_types =
    "announce" ∷ "health" ∷ "event" ∷ "state" ∷ "command" ∷ "telemetry" ∷ "policy" ∷ []

unfoldable pub is_platform_topic : String → Bool
is_platform_topic topic =
    starts_with topic "synthia/addons/" || any (starts_with topic) reserved_prefixes

module _ ⦃python : Builtins⦄ where
  -- The tests on the payload of a platform topic.
  check_fields : Fields → Result String (Unit {0})
  check_fields payload =
      let message_type = lower (trimmed (get_or "type" (str "") payload)) in
      let source_addon_id = trimmed (get_or "source_addon_id" (str "") payload) in
      let timestamp = trimmed (get_or "timestamp" (str "") payload) in
      do
        raise_if (not (contains message_type platform_message_types))
            "Platform payload type must be one of: announce, health, event, state, command, telemetry, policy"
        raise_if (source_addon_id == "") "Platform payload requires source_addon_id"
        raise_if (timestamp == "") "Platform payload requires timestamp"
        raise_if (not (has_key "data" payload)) "Platform payload requires data field"

  check_payload : Json → Result String (Unit {0})
  unfolding check_fields
  check_payload (obj payload) = check_fields payload
  check_payload _ = err "Platform topic payload must be a JSON object"

  unfoldable pub validate_platform_envelope : String → Json → Result String (Unit {0})
  unfolding check_payload
  validate_platform_envelope topic payload =
      if not (is_platform_topic (strip topic)) then ok tt else check_payload payload

  -- The fields of an envelope.
  pub record IsEnvelope (payload : Fields) : Type 0 where
    pub known_type :
        contains (lower (trimmed (get_or "type" (str "") payload))) platform_message_types ≡ true
    pub has_source : (trimmed (get_or "source_addon_id" (str "") payload) == "") ≡ false
    pub has_timestamp : (trimmed (get_or "timestamp" (str "") payload) == "") ≡ false
    pub has_data : has_key "data" payload ≡ true

  check_fields_iff : (payload : Fields) → (check_fields payload ≡ ok tt) ↔ IsEnvelope payload
  unfolding check_fields
  check_fields_iff payload = (λ h. ground arith, λ h. ground arith)

  check_payload_iff :
      (payload : Json)
      → (check_payload payload ≡ ok tt) ↔ ((fs : Fields) × (payload ≡ obj fs) × IsEnvelope fs)
  unfolding check_payload
  check_payload_iff (obj fs) =
      (λ h. (fs, refl, (check_fields_iff fs).0 h), λ t. ground (arith, check_fields_iff fs))
  check_payload_iff _ = (λ h. cc, λ t. cc (t.1))

  -- A message passes exactly when its topic, trimmed, is no platform topic or its payload is an
  -- object with the fields of an envelope.
  pub validate_platform_envelope_iff :
      (topic : String) (payload : Json)
      → (validate_platform_envelope topic payload ≡ ok tt) ↔ (
          (is_platform_topic (strip topic) ≡ false)
          ⊎ ((fs : Fields) × (payload ≡ obj fs) × IsEnvelope fs))
  unfolding validate_platform_envelope
  validate_platform_envelope_iff topic payload = (
    λ h. elim (Bool-cases (is_platform_topic (strip topic))) [
      | inl on ↦ inr ((check_payload_iff payload).0 (ground arith))
      | inr off ↦ inl off
    ],
    λ h. elim h [ inl off ↦ rw off | inr t ↦ ground (arith, (check_payload_iff payload).1 t) ],
  )
