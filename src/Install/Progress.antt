-- ===== src/Install/Progress.antt =====
-- An external broker that passed the test can be applied.
use mathlib.Core.Path.{subst}
use synthia_mqtt.Prelude.{
  ◌≡◌, refl, sym, ◌∙◌, ap, String, Bool, true, false, not, ◌&&◌, Option, none, some, Dict, Result,
  ok, ok_injective, inl, inr, Bool-cases, ◌==◌, eq_refl,
}
use synthia_mqtt.Prelude.Effects.{
  modify, read-ok, continue-ok, done, ask, lift, attempt, ◌>>=◌, ◌>>◌,
}
use synthia_mqtt.Json.{str, Fields, Builtins}
use synthia_mqtt.Json.Objects.{is_text}
use synthia_mqtt.Registrations.{external}
use synthia_mqtt.Config.{Exception, Disk, Host, load}
use synthia_mqtt.Config.Settings.{save_overrides, get_effective_config}
use synthia_mqtt.Config.Session.{
  InstallSession, get_install_session_state, update_install_session_state, save_session,
  complete_session,
}
use synthia_mqtt.Config.Session.Kept.{read_back, get-update, update-ok}
use synthia_mqtt.Config.Groups.{GroupMetadata}
use synthia_mqtt.Config.Requests.{
  connection_overrides, request_overrides, common_overrides, ExternalConnectionConfig,
  InstallApplyRequest, mode_text,
}
use synthia_mqtt.Config.Store.{apply_install_config, configured_state}
use synthia_mqtt.Install.{Attempt, test_external_connection, external_signature}
use synthia_mqtt.Install.Apply.{
  InstallApplyResponse, InstallTestExternalResponse, test_external, tested_state, begun_state,
  ready_state, check_signature, check_tested, persist, reload_mqtt_service, finish, run,
  apply_install,
}
use synthia_mqtt.Install.Ready.{Reads, IsReady, apply-Reads}

module _ ⦃python : Builtins⦄ (host : Host) where
  -- An update of a state that can be read succeeds.
  update-read :
      (f : InstallSession → InstallSession) (disk : Disk) (s : InstallSession)
      → get_install_session_state host disk ≡ ok s
      → update_install_session_state host f disk ≡ (ok (f s), save_session (f s) disk)
  unfolding update_install_session_state
  update-read f disk s e = rw e refl

  -- The state trusts the configuration `c`.
  abbrev TrustsIt : ExternalConnectionConfig → InstallSession → Type 0
  TrustsIt c s =
      (s.external_test_ok ≡ true) × (s.external_test_signature ≡ str (external_signature c))

  check-passes :
      (c : ExternalConnectionConfig) (s : InstallSession) (disk : Disk)
      → TrustsIt c s
      → check_signature host (some c) s disk ≡ (ok tt, disk)
  unfolding check_signature is_text done
  check-passes c s disk (passed, signed) = rw (passed, signed, eq_refl (external_signature c)) refl

  -- What an update leaves can be read, and trusts what the updated state trusts.
  read_after :
      (c : ExternalConnectionConfig) (f : InstallSession → InstallSession) (disk after : Disk)
      {s : InstallSession}
      → update_install_session_state host f disk ≡ (ok s, after)
      → (s' : InstallSession) × (get_install_session_state host after ≡ ok s')
        × (TrustsIt c s → TrustsIt c s')
  unfolding complete_session
  read_after c f disk after {s} h =
      let (config, installed, read) = get-update host f disk h in
      (read_back host disk config s, read, λ t. t)

  config-saved :
      (request : InstallApplyRequest) (disk saved : Disk) {config : Fields}
      → apply_install_config host request disk ≡ (ok config, saved)
      → (s : InstallSession) × (get_install_session_state host saved ≡ ok s)
        × (get_effective_config false host saved ≡ ok config)
  unfolding apply_install_config ◌>>=◌ ◌>>◌ ask lift modify
  config-saved request disk saved {config} h =
      let (overrides, loaded, h1) = read-ok (load disk.overrides) disk _ h in
      let chosen =
        connection_overrides host.environment request request.mode
          (request_overrides request overrides) in
      let (connected, given, h2) = read-ok chosen disk _ h1 in
      let written = save_overrides (common_overrides request connected) disk in
      let (s, disk1, updated, h3) =
        continue-ok (update_install_session_state host (configured_state host request) written) _
          h2 in
      let (config', installed, read) =
        get-update host (configured_state host request) written updated in
      let same : disk1 ≡ saved = ap (λ p. p.1) h3 in
      let s' = read_back host written config' s in
      (
        s',
        subst (λ d. get_install_session_state host d ≡ ok s') same read,
        subst (λ d. get_effective_config false host d ≡ ok config) same (ap (λ p. p.0) h3),
      )

  tested_state-TrustsIt :
      (c : ExternalConnectionConfig) (p : Bool) (reason : Option String) (old : InstallSession)
      → p ≡ true
      → TrustsIt c (tested_state host c p reason old)
  unfolding tested_state
  tested_state-TrustsIt c p reason old good = rw good (refl, refl)

  passed_of :
      {r response : InstallTestExternalResponse} {d tested : Disk}
      → ◌≡◌ {A = Result Exception InstallTestExternalResponse × Disk}
          (ok r, d)
          (ok response, tested)
      → response.ok ≡ true
      → r.ok ≡ true
  passed_of {r} {response} h passed =
      ap (λ (x : InstallTestExternalResponse). x.ok)
        (ok_injective {E = Exception} refl (ap (λ x. x.0) h))
      ∙ passed

  begun-TrustsIt :
      (attempt : Attempt) (c : ExternalConnectionConfig) (request : InstallApplyRequest)
      (disk tested begun : Disk) (response : InstallTestExternalResponse) {s1 : InstallSession}
      → test_external host attempt c disk ≡ (ok response, tested)
      → response.ok ≡ true
      → update_install_session_state host (begun_state request) tested ≡ (ok s1, begun)
      → TrustsIt c s1
  unfolding test_external ◌>>=◌ done begun_state
  begun-TrustsIt attempt c request disk tested begun response h passed updated =
      let (p, reason) = test_external_connection c attempt in
      let f = tested_state host c p reason in
      let (s, d, changed, h2) = continue-ok (update_install_session_state host f disk) _ h in
      let (old, first, value, saved) = update-ok host f disk changed in
      let (s', read, kept) = read_after c f disk d changed in
      let (old2, second, value2, saved2) = update-ok host (begun_state request) tested updated in
      let same : d ≡ tested = ap (λ x. x.1) h2 in
      let good : p ≡ true = passed_of h2 passed in
      let trusted : TrustsIt c s =
        subst (TrustsIt c) (sym value) (tested_state-TrustsIt c p reason old good) in
      let again : s' ≡ old2 =
        ok_injective (subst (λ x. get_install_session_state host x ≡ ok s') same read) second in
      subst (TrustsIt c) (sym value2) (subst (TrustsIt c) again (kept trusted))

  module _ (supported : Dict GroupMetadata) (start : Fields → Result Exception (Unit {0})) where
    finish-ends :
        (request : InstallApplyRequest) (disk : Disk) (s : InstallSession) (config : Fields)
        → get_install_session_state host disk ≡ ok s
        → get_effective_config false host disk ≡ ok config
        → start config ≡ ok tt
        → finish host supported start request disk
          ≡ (ok (record { ok = true; warnings = none }), save_session (ready_state request s) disk)
    unfolding finish reload_mqtt_service ◌>>=◌ ◌>>◌ ask lift done
    finish-ends request disk s config read effective started =
        rw (effective, started) (rw (update-read (ready_state request) disk s read) refl)

    -- Before the application of an external broker, its test counts.
    tested_passes :
        (c : ExternalConnectionConfig) (request : InstallApplyRequest) (disk : Disk)
        (s : InstallSession)
        → request.external_config ≡ some c
        → get_install_session_state host disk ≡ ok s
        → TrustsIt c s
        → check_tested host request disk ≡ (ok tt, disk)
    unfolding check_tested ◌>>=◌ ask done
    tested_passes c request disk s given read trusted =
        elim (Bool-cases (mode_text request.mode == "external" && not request.allow_unvalidated)) [
          | inr free ↦ rw free refl
          | inl guarded ↦ rw (guarded, read, given) (check-passes c s disk trusted)
        ]

    apply_runs :
        (request : InstallApplyRequest) (disk begun saved : Disk) (config : Fields)
        (s1 : InstallSession) (r : Result Exception InstallApplyResponse × Disk)
        → update_install_session_state host (begun_state request) disk ≡ (ok s1, begun)
        → check_tested host request begun ≡ (ok tt, begun)
        → persist host request begun ≡ (ok config, saved)
        → run host supported start request.mode request saved ≡ r
        → apply_install host supported start request disk ≡ r
    unfolding apply_install ◌>>=◌ ◌>>◌
    apply_runs request disk begun saved config s1 r updated tested persisted ran =
        rw (updated, tested, persisted) ran

    persist-saved :
        (request : InstallApplyRequest) (disk saved : Disk) (config : Fields)
        → apply_install_config host request disk ≡ (ok config, saved)
        → persist host request disk ≡ (ok config, saved)
    unfolding persist attempt
    persist-saved request disk saved config written = rw written refl

    run_external :
        (request : InstallApplyRequest) (disk : Disk)
        → request.mode ≡ external
        → run host supported start request.mode request disk
          ≡ finish host supported start request disk
    unfolding run
    run_external request disk e = ap (λ m. run host supported start m request disk) e

    -- After a test of an external broker that passed, the application of its configuration succeeds
    -- and the next request reads a set-up that is ready, if the files can be read, the configuration
    -- can be saved and the client starts with it.
    pub tested_apply-Reads :
        (attempt : Attempt) (c : ExternalConnectionConfig) (request : InstallApplyRequest)
        (disk tested begun saved : Disk) (response : InstallTestExternalResponse)
        {s1 : InstallSession} {config : Fields}
        → test_external host attempt c disk ≡ (ok response, tested)
        → response.ok ≡ true
        → request.mode ≡ external
        → request.external_config ≡ some c
        → update_install_session_state host (begun_state request) tested ≡ (ok s1, begun)
        → apply_install_config host request begun ≡ (ok config, saved)
        → start config ≡ ok tt
        → (applied : InstallApplyResponse) × (final : Disk) × (apply_install host supported start
              request tested
            ≡ (ok applied, final))
          × (applied.ok ≡ true)
          × Reads host final (IsReady host)
    tested_apply-Reads attempt c request disk tested begun saved response {s1} {config} test_passed
          passed external_mode given updated written started =
        let (s2, read, kept) = read_after c (begun_state request) tested begun updated in
        let trusted =
          begun-TrustsIt attempt c request disk tested begun response test_passed passed updated in
        let (s3, readable, effective) = config-saved request begun saved written in
        let applied =
          apply_runs request tested begun saved config s1 _ updated
            (tested_passes c request begun s2 given read (kept trusted))
            (persist-saved request begun saved config written)
            (run_external request saved external_mode
              ∙ finish-ends request saved s3 config readable effective started) in
        (
          record { ok = true; warnings = none },
          save_session (ready_state request s3) saved,
          applied,
          refl,
          apply-Reads host supported start request tested _ applied refl,
        )
