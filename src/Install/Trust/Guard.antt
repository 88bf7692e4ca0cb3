-- ===== src/Install/Trust/Guard.antt =====
-- The guard that the application of an external broker passes.
use mathlib.Core.Path.{subst}
use synthia_mqtt.Prelude.{
  ◌≡◌, refl, sym, ◌∙◌, ap, inl, inr, String, true, false, not, ◌||◌, Bool-cases, Option, none, some,
  List, ◌==◌, eq_iff, ok, ok_injective, arith,
}
use synthia_mqtt.Prelude.Effects.{continue, continue-ok, read-ok, raise, ask, ◌>>=◌, ◌>>◌}
use synthia_mqtt.Json.{end, Builtins, get_or, get?, truthy}
use synthia_mqtt.Json.Objects.{is_text}
use synthia_mqtt.Registrations.{external}
use synthia_mqtt.Config.{missing, Disk, Host, load}
use synthia_mqtt.Config.Session.{
  InstallSession, default_install_session_state, session_from, get_install_session_state,
  update_install_session_state,
}
use synthia_mqtt.Config.Requests.{ExternalConnectionConfig, InstallApplyRequest, mode_text}
use synthia_mqtt.Install.{external_signature}
use synthia_mqtt.Install.Apply.{
  begun_state, check_signature, check_tested, InstallApplyResponse, apply_install,
}
use synthia_mqtt.Install.Registry.{Office}
use synthia_mqtt.Install.Steps.{Step, Machine, perform_all}
use synthia_mqtt.Install.Trust.{Trusted, IsTrusted, get-Trusted, update-Keeps}
use synthia_mqtt.Install.Trust.Runs.{Tested, perform_all-Trusted}

module _ ⦃python : Builtins⦄ where
  -- The guard lets through only what the state trusts.
  check-Trusted :
      (host : Host) (T : String → Type 0) (given : Option ExternalConnectionConfig)
      (s : InstallSession) (disk final : Disk)
      → Trusted host T s
      → check_signature host given s disk ≡ (ok tt, final)
      → (c : ExternalConnectionConfig) × (given ≡ some c) × T (external_signature c)
  unfolding check_signature raise is_text
  check-Trusted host T none s disk final t h = cc
  check-Trusted host T (some c) s disk final t h =
      elim (Bool-cases (
        not s.external_test_ok || not (is_text (external_signature c) s.external_test_signature))) [
          | inl refused ↦ let h' = rw refused at h in cc
          | inr passed ↦
              let (signature, e, trusted) = t (ground (arith, passed)) in
              let same : (signature == external_signature c) ≡ true =
                ground (arith, passed, ap (is_text (external_signature c)) e) in
              (c, refl, subst T ((eq_iff signature (external_signature c)).0 same) trusted)
        ]

  checked :
      (host : Host) (request : InstallApplyRequest) (disk : Disk)
      → request.mode ≡ external
      → request.allow_unvalidated ≡ false
      → check_tested host request disk
        ≡ continue
            (get_install_session_state host disk, disk)
            (check_signature host request.external_config)
  unfolding check_tested mode_text ◌>>=◌ ask
  checked host request disk external_mode strict = rw (external_mode, strict)

  start-Trusted :
      (host : Host) (T : String → Type 0) (disk : Disk)
      → disk.session ≡ missing
      → IsTrusted host T disk
  unfolding load session_from get_or get? truthy default_install_session_state
  start-Trusted host T disk empty raw h =
      let blank : end ≡ raw = ok_injective refl (ap load (sym empty) ∙ h) in
      subst (λ x. Trusted host T (session_from x)) blank (λ e. ground arith)

  -- In any run that starts without a file of the state, an external broker is applied without
  -- `allow_unvalidated` only if a configuration with its signature passed the test before.
  pub apply-Tested :
      (machine : Machine) (steps : List Step) (office : Office) (request : InstallApplyRequest)
      {response : InstallApplyResponse} {final : Disk}
      → office.disk.session ≡ missing
      → request.mode ≡ external
      → request.allow_unvalidated ≡ false
      → apply_install machine.host machine.supported machine.start request
          (perform_all machine steps office).disk
        ≡ (ok response, final)
      → (c : ExternalConnectionConfig) × (request.external_config ≡ some c)
        × Tested steps (external_signature c)
  unfolding apply_install ◌>>=◌ ◌>>◌ begun_state
  apply-Tested machine steps office request blank external_mode strict h =
      let host = machine.host in
      let T = Tested steps in
      let disk = (perform_all machine steps office).disk in
      let t =
        perform_all-Trusted machine T steps office (λ signature e. e)
          (start-Trusted host T office.disk blank) in
      let (s, disk1, begun, h1) =
        continue-ok (update_install_session_state host (begun_state request) disk) _ h in
      let t1 : IsTrusted host T disk1 =
        subst (λ r. IsTrusted host T (r.1)) begun
          ((update-Keeps host T (begun_state request) (λ x e. e)).kept disk t) in
      let (u, disk2, passed, h2) = continue-ok (check_tested host request disk1) _ h1 in
      let (s1, read, guarded) =
        read-ok (get_install_session_state host disk1) disk1 _
          (sym (checked host request disk1 external_mode strict) ∙ passed) in
      check-Trusted host T request.external_config s1 disk1 disk2
        (get-Trusted host T disk1 s1 t1 read) guarded
