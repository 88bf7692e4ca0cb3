-- ===== src/Install/Ready.antt =====
-- What the endpoints of the set-up mean for those that publish.
use mathlib.Core.Path.{subst}
use synthia_mqtt.Prelude.{
  some, ◌≡◌, refl, sym, ◌∙◌, ap, String, Bool, true, false, Option, Dict, Result, ok, err, inl, inr,
  Bool-cases, contains,
}
use synthia_mqtt.Prelude.Effects.{
  continue, continue-ok, read-ok, outcome, done, raise, ask, modify, ◌>>=◌, ◌>>◌,
}
use synthia_mqtt.Json.{str, Fields, Builtins, get, get?}
use synthia_mqtt.Registrations.{BrokerMode, embedded, external}
use synthia_mqtt.Http.{http_error}
use synthia_mqtt.Token.Claims.{ServiceTokenClaims}
use synthia_mqtt.Publish.{Site, World, is_setup_complete, handle}
use synthia_mqtt.Publish.Direct.{MqttPublishRequest, check_message, publish_message}
use synthia_mqtt.Config.{Exception, Disk, Host, load, modes}
use synthia_mqtt.Config.Settings.{save_overrides}
use synthia_mqtt.Config.Session.{
  InstallSession, session_fields, get_install_session_state, update_install_session_state,
  complete_session,
}
use synthia_mqtt.Config.Session.Kept.{read_back, get-update, update-ok}
use synthia_mqtt.Config.Groups.{GroupMetadata}
use synthia_mqtt.Config.Requests.{
  ExternalAccess, ExternalConnectionConfig, InstallApplyRequest, mode_text, access_text,
}
use synthia_mqtt.Config.Store.{set_selected_mode, selected_state, selected_overrides, known_access}
use synthia_mqtt.Install.{Attempt, test_external_connection}
use synthia_mqtt.Install.Apply.{
  InstallApplyResponse, InstallTestExternalResponse, InstallModeUpdateResponse, ready_state,
  begun_state, tested_state, check_tested, persist, reload_mqtt_service, finish, finish_embedded,
  request_broker, run, run_embedded, apply_install, test_external, set_mode,
}

module _ ⦃python : Builtins⦄ (host : Host) where
  -- The next request reads a state with the property `Q`.
  abbrev pub Reads : Disk → (InstallSession → Type 0) → Type 0
  Reads disk Q = (s : InstallSession) × (get_install_session_state host disk ≡ ok s) × Q s

  -- A property of the saved state that reading it back does not lose.
  pub Reads-update :
      (f : InstallSession → InstallSession) (Q : InstallSession → Type 0) (disk final : Disk)
      {s : InstallSession}
      → ((old : InstallSession) (config : Fields) → Q (read_back host disk config (f old)))
      → update_install_session_state host f disk ≡ (ok s, final)
      → Reads final Q
  Reads-update f Q disk final q h =
      let (old, read, value, saved) = update-ok host f disk h in
      let (config, installed, back) = get-update host f disk h in
      (
        read_back host disk config (f old),
        subst (λ x. get_install_session_state host final ≡ ok (read_back host disk config x)) value
            back,
        q old config,
      )

  -- The same for an update that is followed by a response.
  pub Reads-response :
      {A : Type 0} (f : InstallSession → InstallSession) (Q : InstallSession → Type 0)
      (disk final : Disk) (response : InstallSession → A) {a : A}
      → ((old : InstallSession) (config : Fields) → Q (read_back host disk config (f old)))
      → continue (update_install_session_state host f disk) (λ s. done (response s)) ≡ (ok a, final)
      → Reads final Q
  unfolding done
  Reads-response f Q disk final response q h =
      let (s, disk2, updated, h2) = continue-ok (update_install_session_state host f disk) _ h in
      let (same, last) = outcome _ refl h2 in
      Reads-update f Q disk final q (updated ∙ ap (λ d. (ok s, d)) (sym last))

  -- The set-up is complete, or in progress.
  abbrev pub IsReady : InstallSession → Type 0
  IsReady s =
      (s.setup_state ≡ str "ready")
      × (s.configured ≡ true)
      × (s.verified ≡ true)
      × (is_setup_complete (session_fields s) ≡ true)

  abbrev pub IsInProgress : InstallSession → Type 0
  IsInProgress s =
      (s.setup_state ≡ str "configuring") × (is_setup_complete (session_fields s) ≡ false)

  ready_state-IsReady :
      (request : InstallApplyRequest) (disk : Disk) (old : InstallSession) (config : Fields)
      → IsReady (read_back host disk config (ready_state request old))
  unfolding ready_state complete_session is_setup_complete session_fields get get?
  ready_state-IsReady request disk old config = (refl, refl, refl, refl)

  module _ (supported : Dict GroupMetadata) (start : Fields → Result Exception (Unit {0})) where
    finish-Reads :
        (request : InstallApplyRequest) (disk final : Disk) {response : InstallApplyResponse}
        → finish host supported start request disk ≡ (ok response, final)
        → Reads final IsReady
    unfolding finish ◌>>=◌ ◌>>◌
    finish-Reads request disk final h =
        let (u, disk1, reloaded, h1) = continue-ok (reload_mqtt_service host start disk) _ h in
        Reads-response (ready_state request) IsReady disk1 final _
          (ready_state-IsReady request disk1) h1

    embedded-Reads :
        (request : InstallApplyRequest) (result : Bool × Option String) (disk final : Disk)
        {response : InstallApplyResponse}
        → finish_embedded host supported start request result disk ≡ (ok response, final)
        → response.ok ≡ true
        → Reads final IsReady
    unfolding finish_embedded ◌>>◌ done
    embedded-Reads request (true, reason) disk final h ready =
        let (u, disk1, requested, h1) = continue-ok (request_broker host supported disk) _ h in
        finish-Reads request disk1 final h1
    embedded-Reads request (false, reason) disk final h ready =
        let (same, last) = outcome _ refl h in let ready' = rw same at ready in cc

    run-Reads :
        (mode : BrokerMode) (request : InstallApplyRequest) (disk final : Disk)
        {response : InstallApplyResponse}
        → run host supported start mode request disk ≡ (ok response, final)
        → response.ok ≡ true
        → Reads final IsReady
    unfolding run ◌>>=◌
    run-Reads external request disk final h ready = finish-Reads request disk final h
    run-Reads embedded request disk final h ready =
        let (result, disk1, written, h1) = continue-ok (run_embedded host request disk) _ h in
        embedded-Reads request result disk1 final h1 ready

    -- A configuration that is applied leaves the set-up complete: the next request reads that it is
    -- configured and verified, and the endpoints that publish are open.
    pub apply-Reads :
        (request : InstallApplyRequest) (disk final : Disk) {response : InstallApplyResponse}
        → apply_install host supported start request disk ≡ (ok response, final)
        → response.ok ≡ true
        → Reads final IsReady
    unfolding apply_install ◌>>=◌ ◌>>◌
    apply-Reads request disk final h ready =
        let (s, disk1, begun, h1) =
          continue-ok (update_install_session_state host (begun_state request) disk) _ h in
        let (u, disk2, tested, h2) = continue-ok (check_tested host request disk1) _ h1 in
        let (config, disk3, saved, h3) = continue-ok (persist host request disk2) _ h2 in
        run-Reads (request.mode) request disk3 final h3 ready

  test-Reads :
      (attempt : Attempt) (c : ExternalConnectionConfig) (disk final : Disk)
      {response : InstallTestExternalResponse}
      → test_external host attempt c disk ≡ (ok response, final)
      → Reads final IsInProgress
  unfolding test_external ◌>>=◌ tested_state complete_session is_setup_complete session_fields get
      get?
  test-Reads attempt c disk final h =
      let (passed, reason) = test_external_connection c attempt in
      Reads-response (tested_state host c passed reason) IsInProgress disk final _
        (λ old config. (refl, refl)) h

  selected-Reads :
      (mode access : String) (disk final : Disk) {s : InstallSession}
      → set_selected_mode host mode access disk ≡ (ok s, final)
      → Reads final IsInProgress
  unfolding set_selected_mode ◌>>=◌ ◌>>◌ ask modify raise selected_state complete_session
      is_setup_complete session_fields get get?
  selected-Reads mode access disk final h = elim (Bool-cases (contains mode modes)) [
    | inl known ↦
        let (overrides, loaded, h1) = read-ok (load disk.overrides) disk _ (rw known at h) in
        let access' = known_access host access in
        Reads-update (selected_state host mode access') IsInProgress
          (save_overrides (selected_overrides host mode access' overrides) disk) final
          (λ old config. (refl, refl)) h1
    | inr unknown ↦ let h' = rw unknown at h in cc
  ]

  mode-Reads :
      (mode : BrokerMode) (access : ExternalAccess) (disk final : Disk)
      {response : InstallModeUpdateResponse}
      → set_mode host mode access disk ≡ (ok response, final)
      → Reads final IsInProgress
  unfolding set_mode ◌>>=◌ done
  mode-Reads mode access disk final h =
      let (s, disk1, selected, h1) =
        continue-ok (set_selected_mode host (mode_text mode) (access_text access) disk) _ h in
      let (same, last) = outcome _ refl h1 in
      selected-Reads (mode_text mode) (access_text access) disk final
        (selected ∙ ap (λ d. (ok s, d)) (sym last))

  -- A request that starts the set-up again and succeeds.
  pub data Opens (disk final : Disk) : Type 0 where
    chosen :
        (mode : BrokerMode) (access : ExternalAccess) {response : InstallModeUpdateResponse}
        → set_mode host mode access disk ≡ (ok response, final)
        → Opens disk final
    tried :
        (attempt : Attempt) (c : ExternalConnectionConfig) {response : InstallTestExternalResponse}
        → test_external host attempt c disk ≡ (ok response, final)
        → Opens disk final

  Opens-Reads : (disk final : Disk) → Opens disk final → Reads final IsInProgress
  Opens-Reads disk final (chosen mode access h) = mode-Reads mode access disk final h
  Opens-Reads disk final (tried attempt c h) = test-Reads attempt c disk final h

  -- A site that reads the state of the set-up from these files.
  abbrev pub IsServed : Site → Disk → Type 0
  IsServed site disk =
      (s : InstallSession)
      → get_install_session_state host disk ≡ ok s
      → site.install_state ≡ some (session_fields s)

  closed_publish :
      (site : Site) (request : MqttPublishRequest) (claims : ServiceTokenClaims) (world : World)
      (state : Fields)
      → site.install_state ≡ some state
      → is_setup_complete state ≡ false
      → (publish_message site request claims world).0
          ≡ err
              (http_error 409 "Setup is not complete. Finish setup before using MQTT publish APIs.")
        × ((publish_message site request claims world).1.calls ≡ world.calls)
  unfolding publish_message check_message handle
  closed_publish site request claims world state found closed = rw (found, closed) (refl, refl)

  -- While the mode has been chosen or a broker tested and nothing applied since, a request to
  -- publish that finds these files is refused with 409, and the client is not called.
  pub unfinished_publish :
      (disk final : Disk) (site : Site) (request : MqttPublishRequest) (claims : ServiceTokenClaims)
      (world : World)
      → Opens disk final
      → IsServed site final
      → ((publish_message site request claims world).0
          ≡ err (
              http_error 409 "Setup is not complete. Finish setup before using MQTT publish APIs."))
        × ((publish_message site request claims world).1.calls ≡ world.calls)
  unfinished_publish disk final site request claims world opened served =
      let (s, read, (setup, closed)) = Opens-Reads disk final opened in
      closed_publish site request claims world (session_fields s) (served s read) closed
