-- ===== src/Admin/Restarted.antt =====
-- What the set-up says after a request to restart the broker.
use synthia_mqtt.Prelude.{
  ◌+◌, ◌<◌, ◌≤◌, ℕ, ◌≡◌, ◌↔◌, refl, sym, ap, ◌∙◌, true, false, none, Result-cases, ok, ok_injective,
  inl, inr, Bool-cases, arith,
}
use synthia_mqtt.Prelude.Effects.{continue-ok, lift, ◌>>=◌}
use synthia_mqtt.Json.{ℤ, null, str, Environment, getenv, Builtins}
use synthia_mqtt.Config.{Disk, Host, int_of}
use synthia_mqtt.Config.Session.{InstallSession, complete_session}
use synthia_mqtt.Install.Ready.{Reads, Reads-response}
use mathlib.Core.Path.{subst}
use synthia_mqtt.Admin.{
  ended, Docker, restart_broker, Restart, RestartResponse, lock_timeout, refused_restart, waited,
  restart_broker_flow, restarted_state, post_restart,
}
use synthia_mqtt.Admin.Wait.{Pauses, wait_for_port_iff}

module _ ⦃python : Builtins⦄ where
  -- The broker was restarted and its port answered in time.
  abbrev pub IsBack : Environment → Restart → Type 0
  IsBack env r =
      (r.lock_free ≡ true)
      × (r.docker.socket ≡ true)
      × (r.docker.import_error ≡ none)
      × (r.docker.restart_error ≡ none)
      × ((number : ℤ) × (m : ℕ) × (int_of (str (getenv env "MQTT_PORT" "1883")) ≡ ok number)
          × (r.port.clock m < r.now + 20000000)
          × (r.port.connects (getenv env "MQTT_HOST" "mosquitto") number m ≡ true))

  restarted_iff :
      (docker : Docker)
      → ((restart_broker docker).restarted ≡ true)
        ↔ ((docker.socket ≡ true) × (docker.import_error ≡ none) × (docker.restart_error ≡ none))
  unfolding restart_broker
  restarted_iff docker = (λ h. ground (arith, h), λ h. ground (arith, h))

  flow_iff :
      (env : Environment) (r : Restart) (response : RestartResponse)
      → Pauses r.port
      → r.now ≤ r.port.clock 0
      → restart_broker_flow env r ≡ ok response
      → (response.ok ≡ true) ↔ IsBack env r
  unfolding restart_broker_flow lock_timeout refused_restart waited
  flow_iff env r response pauses begun h = elim (Bool-cases r.lock_free) [
    | inr busy ↦
        let h' = rw busy at h in let e : response.ok ≡ false = cc in (λ k. cc, λ back. cc (back.0))
    | inl free ↦ elim (Bool-cases ((restart_broker r.docker).restarted)) [
      | inr refused ↦
          let h' = rw (free, refused) at h in
          let e : response.ok ≡ false = cc in
          (
            λ k. cc,
            λ (f, socket, imported, done', back).
                cc ((restarted_iff r.docker).1 (socket, imported, done')),
          )
      | inl restarted ↦ elim (Result-cases (int_of (str (getenv env "MQTT_PORT" "1883")))) [
        | inr (e, bad) ↦ let h' = rw (free, restarted, bad) at h in cc
        | inl (number, good) ↦
            let h' = rw (free, restarted, good) at h in
            let broker = getenv env "MQTT_HOST" "mosquitto" in
            let (b, ends, iff) = wait_for_port_iff r.port broker number r.now pauses begun in
            let e : b ≡ response.ok =
              sym (ap ended ends) ∙ ap (λ (x : RestartResponse). x.ok) (ok_injective refl h') in
            let (socket, imported, done') = (restarted_iff r.docker).0 restarted in
            (
              λ k.
                  (let (m, early, connected) = iff.0 (e ∙ k) in
                    (free, socket, imported, done', (number, m, good, early, connected))),
              λ (f, s, i, d, (number', m, good', early, connected)).
                  sym e
                  ∙ iff.1 (
                    m,
                    early,
                    subst (λ k. r.port.connects broker k m ≡ true) (ok_injective good' good)
                        connected,
                  ),
            )
      ]
    ]
  ]

  -- The state says that `P` holds, or that there is an error.
  abbrev pub Shows : Type 0 → InstallSession → Type 0
  Shows P s = ((s.verified ≡ true) ↔ P) × ((s.last_error ≡ null) ↔ P)

  no_error :
      (response : RestartResponse) (old : InstallSession) {P : Type 0}
      → (response.ok ≡ true) ↔ P
      → ((restarted_state response old).last_error ≡ null) ↔ P
  unfolding restarted_state
  no_error response old iff = elim (Bool-cases response.ok) [
    | inl good ↦ (λ e. iff.0 good, λ p. rw good)
    | inr bad ↦ (λ e. (let e' = rw bad at e in cc), λ p. cc (iff.1 p))
  ]

  -- After a request to restart the broker that returns, the next request reads a set-up that is
  -- verified exactly when the broker was restarted and answered within 20 seconds, and that has no
  -- error exactly then.
  pub post_restart-Reads :
      (host : Host) (r : Restart) (disk final : Disk) (response : RestartResponse)
      → Pauses r.port
      → r.now ≤ r.port.clock 0
      → post_restart host r disk ≡ (ok response, final)
      → Reads host final (Shows (IsBack host.environment r))
  unfolding post_restart ◌>>=◌ lift complete_session restarted_state
  post_restart-Reads host r disk final response pauses begun h =
      let (given, disk1, flow, h1) =
        continue-ok (restart_broker_flow host.environment r, disk) _ h in
      let back = flow_iff host.environment r given pauses begun (ap (λ p. p.0) flow) in
      Reads-response host (restarted_state given) (Shows (IsBack host.environment r)) disk1 final
        (λ s. given) (λ old config. (back, no_error given old back)) h1
