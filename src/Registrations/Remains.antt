-- ===== src/Registrations/Remains.antt =====
-- What a request leaves in the store where it fails, and of the other addons.
use mathlib.Core.Path.{subst}
use synthia_mqtt.Prelude.{
  ◌⊎◌, eq_refl, ℕ, String, ◌≡◌, refl, ap, sym, ◌∙◌, inl, inr, Bool, true, false, Option, some,
  arith, lookup, lookup-insert, ◌==◌, Result, ok, err,
}
use synthia_mqtt.Prelude.Text.{strip}
use synthia_mqtt.Json.{Builtins}
use synthia_mqtt.Codecs.{Bytes, Codecs}
use synthia_mqtt.Registrations.{
  BrokerMode, external, embedded, MqttRegistrationRequest, MqttRegistrationRecord, Stored, Files,
  CredentialMeta, Provision, is_direct, meta_of, issue_direct_credentials, load_or_create_seed,
  provision, prepare, returned, stored_by, Writer, UpsertError, stored_for, save_all, write_acl,
  upsert, get_registration, record_found,
}
use synthia_mqtt.Registrations.Upsert.{
  registrations-write_acl, seed-write_acl, err-write_acl, prepare-IsPrepared,
  registrations-provision,
}

-- What a request that fails leaves in the store.
module _ ⦃python : Builtins⦄ (codecs : Codecs) (fresh : Bytes) (now : ℕ)
    (request : MqttRegistrationRequest) (mode : BrokerMode) (files : Files) (writer : Writer)
    (direct_access : String) (e : UpsertError) (files' : Files) where
  -- The files are as they were, or only the last write failed, that of the access rules, and the
  -- registration is stored.
  abbrev pub IsLeft : Type 0
  IsLeft =
      (files' ≡ files)
      ⊎ ((r : MqttRegistrationRecord) × (writer (strip request.addon_id) ≡ some e)
          × (get_registration request.addon_id files' ≡ some r))

  returned-err :
      (r : MqttRegistrationRecord) (w : Result UpsertError (Unit {0}) × Files)
      → returned codecs r w ≡ (err e, files')
      → (w.0 ≡ err e) × (w.1 ≡ files')
  returned-err r (ok done, left) h = cc h
  returned-err r (err f, left) h = (cc h, ap (λ x. x.1) h)

  found_after :
      (r : MqttRegistrationRecord) (given : Provision)
      → r.addon_id ≡ strip request.addon_id
      → files'.registrations ≡ (save_all codecs mode direct_access r given).registrations
      → get_registration request.addon_id files' ≡ some r
  unfolding get_registration
  found_after r given named h =
      let stored : Stored = stored_for codecs mode direct_access r given in
      let law =
        lookup-insert r.addon_id (strip request.addon_id) stored given.files.registrations in
      ap (λ d. record_found (lookup (strip request.addon_id) d)) h
      ∙ ap record_found law
      ∙ rw (named, eq_refl (strip request.addon_id)) refl

  stored_by-err :
      (m : Result UpsertError (MqttRegistrationRecord × Provision))
      → prepare codecs fresh now request mode files ≡ m
      → stored_by codecs writer now mode direct_access files m ≡ (err e, files')
      → IsLeft
  stored_by-err (err f) prepared h = inl (sym (ap (λ x. x.1) h))
  stored_by-err (ok (r, given)) prepared h =
      let saved : Files = save_all codecs mode direct_access r given in
      let (failed, left) = returned-err r _ h in
      let made = prepare-IsPrepared codecs fresh now request mode files r given prepared in
      let named : r.addon_id ≡ strip request.addon_id = ap (λ x. x.addon_id) made.recorded in
      inr (
        r,
        subst (λ a. writer a ≡ some e) named (err-write_acl writer now r saved mode e failed),
        found_after r given named (
            ap (λ f. f.registrations) (sym left) ∙ registrations-write_acl writer now r saved mode),
      )

  pub upsert-IsLeft :
      upsert codecs writer fresh now request mode direct_access files ≡ (err e, files') → IsLeft
  unfolding upsert
  upsert-IsLeft h = stored_by-err (prepare codecs fresh now request mode files) refl h

-- What a request, accepted or not, leaves of the other addons.
module _ ⦃python : Builtins⦄ (codecs : Codecs) (fresh : Bytes) (now : ℕ)
    (request : MqttRegistrationRequest) (mode : BrokerMode) (files : Files) (writer : Writer)
    (direct_access : String) (addon_id : String) (seed : Bytes) where
  -- The entry of the addon and the seed stay.
  abbrev pub KeepsOther : Files → Type 0
  KeepsOther files' =
      (lookup addon_id files'.registrations ≡ lookup addon_id files.registrations)
      × (files'.seed ≡ some seed)

  seed-provision :
      (m : BrokerMode) (meta : Option CredentialMeta) (direct : Bool) (given : Provision)
      → files.seed ≡ some seed
      → provision codecs fresh now m request meta files direct ≡ ok given
      → given.files.seed ≡ some seed
  unfolding provision issue_direct_credentials load_or_create_seed
  seed-provision m meta false given kept h = ground arith
  seed-provision embedded meta true given kept h = ground arith
  seed-provision external meta true given kept h = ground arith

  files-returned :
      (r : MqttRegistrationRecord) (w : Result UpsertError (Unit {0}) × Files)
      → (returned codecs r w).1 ≡ w.1
  files-returned r (ok done, left) = refl
  files-returned r (err e, left) = refl

  stored_by-KeepsOther :
      (m : Result UpsertError (MqttRegistrationRecord × Provision))
      → (strip request.addon_id == addon_id) ≡ false
      → files.seed ≡ some seed
      → prepare codecs fresh now request mode files ≡ m
      → KeepsOther (stored_by codecs writer now mode direct_access files m).1
  stored_by-KeepsOther (err e) other kept prepared = (refl, kept)
  stored_by-KeepsOther (ok (r, given)) other kept prepared =
      let saved : Files = save_all codecs mode direct_access r given in
      let stored : Stored = stored_for codecs mode direct_access r given in
      let w = write_acl writer mode now r saved in
      let made = prepare-IsPrepared codecs fresh now request mode files r given prepared in
      let meta = meta_of (lookup (strip request.addon_id) files.registrations) in
      let direct = is_direct request.access_mode in
      let named : r.addon_id ≡ strip request.addon_id = ap (λ x. x.addon_id) made.recorded in
      let there =
        registrations-provision codecs fresh now request meta files given mode direct
          made.provided in
      let apart : (r.addon_id == addon_id) ≡ false = rw named other in
      (
        ap (λ f. lookup addon_id f.registrations) (files-returned r w)
            ∙ ap (lookup addon_id) (registrations-write_acl writer now r saved mode)
            ∙ lookup-insert r.addon_id addon_id stored given.files.registrations
            ∙ rw apart (ap (lookup addon_id) there),
        ap (λ f. f.seed) (files-returned r w)
            ∙ seed-write_acl writer now r saved mode
            ∙ seed-provision mode meta direct given kept made.provided,
      )

  pub upsert-KeepsOther :
      (strip request.addon_id == addon_id) ≡ false
      → files.seed ≡ some seed
      → KeepsOther (upsert codecs writer fresh now request mode direct_access files).1
  unfolding upsert
  upsert-KeepsOther other kept =
      stored_by-KeepsOther (prepare codecs fresh now request mode files) other kept refl
