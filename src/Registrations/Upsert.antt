-- ===== src/Registrations/Upsert.antt =====
-- What an accepted registration request leaves in the store.
use mathlib.Core.Path.{subst}
use synthia_mqtt.Prelude.{
  none, ℕ, String, ◌≡◌, refl, ap, sym, ◌∙◌, inl, inr, Bool-cases, Bool, true, false, not, ◌&&◌,
  Option, some, arith, is_some, lookup, insert, lookup-insert, ◌==◌, if◌then◌else◌, Result, ok, err,
  bind-ok,
}
use synthia_mqtt.Prelude.Text.{strip}
use synthia_mqtt.Prelude.Text.Laws.{strip_idem}
use synthia_mqtt.Json.{Builtins}
use synthia_mqtt.Codecs.{Bytes, Codecs}
use synthia_mqtt.Topics.{RealizedPermissions, realize_topic_permissions, normalize_topics}
use synthia_mqtt.Topics.Realize.{
  All, IsPublishScope, IsSubscribeScope, realize_topic_permissions_iff,
}
use synthia_mqtt.Registrations.{
  BrokerMode, external, embedded, MqttRegistrationRequest, MqttRegistrationRecord, Stored, Files,
  CredentialMeta, Provision, is_direct, meta_of, issue_direct_credentials, load_or_create_seed,
  provision, prepare, returned, stored_by, Writer, after_write, UpsertError, record_for, stored_for,
  save_all, write_acl, write_embedded_acl, write_external_acl_note, as_topic_error, upsert,
  get_registration, record_found,
}

abbrev pub is_embedded : BrokerMode → Bool
is_embedded embedded = true
is_embedded external = false

-- The write of a file changes nothing else.
kept-after_write :
    {A : Type 0} (g : Files → A) (o : Option UpsertError) (written files : Files)
    → g written ≡ g files
    → g (after_write o written files).1 ≡ g files
kept-after_write g none written files h = h
kept-after_write g (some e) written files h = refl

err-after_write :
    (o : Option UpsertError) (written files : Files) (e : UpsertError)
    → (after_write o written files).0 ≡ err e
    → o ≡ some e
err-after_write none written files e h = cc
err-after_write (some f) written files e h = cc

module _ (writer : Writer) (now : ℕ) (r : MqttRegistrationRecord) (files : Files) where
  pub registrations-write_acl :
      (mode : BrokerMode)
      → (write_acl writer mode now r files).1.registrations ≡ files.registrations
  unfolding write_embedded_acl write_external_acl_note
  registrations-write_acl embedded =
      kept-after_write (λ f. f.registrations) (writer r.addon_id) _ files refl
  registrations-write_acl external =
      kept-after_write (λ f. f.registrations) (writer r.addon_id) _ files refl

  pub seed-write_acl : (mode : BrokerMode) → (write_acl writer mode now r files).1.seed ≡ files.seed
  unfolding write_embedded_acl write_external_acl_note
  seed-write_acl embedded = kept-after_write (λ f. f.seed) (writer r.addon_id) _ files refl
  seed-write_acl external = kept-after_write (λ f. f.seed) (writer r.addon_id) _ files refl

  pub err-write_acl :
      (mode : BrokerMode) (e : UpsertError)
      → (write_acl writer mode now r files).0 ≡ err e
      → writer r.addon_id ≡ some e
  unfolding write_embedded_acl write_external_acl_note
  err-write_acl embedded e h = err-after_write (writer r.addon_id) _ files e h
  err-write_acl external e h = err-after_write (writer r.addon_id) _ files e h

module _ ⦃python : Builtins⦄ (codecs : Codecs) (fresh : Bytes) (now : ℕ)
    (request : MqttRegistrationRequest) (mode : BrokerMode) (files : Files) where
  abbrev key : String
  key = strip request.addon_id

  -- The parts of a preparation that succeeded.
  pub record IsPrepared (r : MqttRegistrationRecord) (given : Provision) : Type 0 where
    pub realized : RealizedPermissions
    pub granted :
        realize_topic_permissions key request.publish_topics request.subscribe_topics ≡ ok realized
    pub provided :
        provision codecs fresh now mode request
          (meta_of (lookup key files.registrations))
          files
          (is_direct request.access_mode)
        ≡ ok given
    pub recorded : r ≡ record_for codecs request realized given now

  as_topic_error-ok :
      {A : Type 0} (m : Result String A) (a : A) → as_topic_error m ≡ ok a → m ≡ ok a
  as_topic_error-ok (ok b) a h = cc
  as_topic_error-ok (err e) a h = cc

  pub prepare-IsPrepared :
      (r : MqttRegistrationRecord) (given : Provision)
      → prepare codecs fresh now request mode files ≡ ok (r, given)
      → IsPrepared r given
  unfolding prepare
  prepare-IsPrepared r given h =
      let (realized, granted, h1) =
        bind-ok
          (as_topic_error
            (realize_topic_permissions key request.publish_topics request.subscribe_topics))
          _ h in
      let (given', provided, h2) =
        bind-ok
          (provision codecs fresh now mode request (meta_of (lookup key files.registrations)) files
            (is_direct request.access_mode))
          _ h1 in
      let same : given' ≡ given = cc h2 in
      record {
        realized = realized;
        granted = as_topic_error-ok _ realized granted;
        provided = provided ∙ ap ok same;
        recorded = cc h2;
      }

  module _ (writer : Writer) (direct_access : String) where
    -- The parts of a call that succeeded.
    pub record Steps (r : MqttRegistrationRecord) (files' : Files) : Type 0 where
      pub given : Provision
      pub prepared : IsPrepared r given
      pub saved :
          write_acl writer mode now r (save_all codecs mode direct_access r given) ≡ (ok tt, files')

    returned-ok :
        (r r' : MqttRegistrationRecord) (w : Result UpsertError (Unit {0}) × Files) (files' : Files)
        → returned codecs r' w ≡ (ok r, files')
        → (r' ≡ r) × (w ≡ (ok tt, files'))
    returned-ok r r' (ok done, left) files' h = (cc h, ap (λ f. (ok tt, f)) (ap (λ x. x.1) h))
    returned-ok r r' (err e, left) files' h = cc h

    stored_by-ok :
        (m : Result UpsertError (MqttRegistrationRecord × Provision)) (r : MqttRegistrationRecord)
        (files' : Files)
        → stored_by codecs writer now mode direct_access files m ≡ (ok r, files')
        → (given : Provision) × (m ≡ ok (r, given))
          × (write_acl writer mode now r (save_all codecs mode direct_access r given)
              ≡ (ok tt, files'))
    stored_by-ok (err e) r files' h = cc h
    stored_by-ok (ok (r', given)) r files' h =
        let (same, written) = returned-ok r r' _ files' h in
        (
          given,
          ap (λ x. ok (x, given)) same,
          subst
              (λ x.
                write_acl writer mode now x (save_all codecs mode direct_access x given)
                ≡ (ok tt, files'))
              same written,
        )

    pub upsert-Steps :
        (r : MqttRegistrationRecord) (files' : Files)
        → upsert codecs writer fresh now request mode direct_access files ≡ (ok r, files')
        → Steps r files'
    unfolding upsert
    upsert-Steps r files' h =
        let (given, prepared, saved) =
          stored_by-ok (prepare codecs fresh now request mode files) r files' h in
        record { given = given; prepared = prepare-IsPrepared r given prepared; saved = saved }

module _ ⦃python : Builtins⦄ (codecs : Codecs) (fresh : Bytes) (now : ℕ)
    (request : MqttRegistrationRequest) (meta : Option CredentialMeta) (files : Files)
    (given : Provision) where
  pub registrations-provision :
      (mode : BrokerMode) (direct : Bool)
      → provision codecs fresh now mode request meta files direct ≡ ok given
      → given.files.registrations ≡ files.registrations
  unfolding provision issue_direct_credentials load_or_create_seed
  registrations-provision mode false h = ground arith
  registrations-provision embedded true h = ground arith
  registrations-provision external true h = ground arith

  provision_kinds :
      (mode : BrokerMode) (direct : Bool)
      → provision codecs fresh now mode request meta files direct ≡ ok given
      → (is_some given.direct ≡ (direct && is_embedded mode))
        × (is_some given.manual ≡ (direct && not (is_embedded mode)))
  unfolding provision issue_direct_credentials
  provision_kinds embedded false h = ground arith
  provision_kinds external false h = ground arith
  provision_kinds embedded true h = ground arith
  provision_kinds external true h = ground arith

module _ ⦃python : Builtins⦄ (codecs : Codecs) (fresh : Bytes) (now : ℕ)
    (request : MqttRegistrationRequest) (mode : BrokerMode) (files : Files) (writer : Writer)
    (direct_access : String) (r : MqttRegistrationRecord) (files' : Files) where
  pub registrations-upsert :
      (s : Steps codecs fresh now request mode files writer direct_access r files')
      → files'.registrations
        ≡ insert
            (strip request.addon_id)
            (stored_for codecs mode direct_access
              (record_for codecs request s.prepared.realized s.given now)
              s.given)
            files.registrations
  registrations-upsert s =
      let made = record_for codecs request s.prepared.realized s.given now in
      let saved = λ (x : MqttRegistrationRecord). save_all codecs mode direct_access x s.given in
      ap (λ (w : Result UpsertError (Unit {0}) × Files). w.1.registrations) (sym s.saved)
      ∙ registrations-write_acl writer now r (saved r) mode
      ∙ ap (λ (x : MqttRegistrationRecord). (saved x).registrations) s.prepared.recorded
      ∙ ap (insert (strip request.addon_id) (stored_for codecs mode direct_access made s.given)) (
          registrations-provision codecs fresh now request
            (meta_of (lookup (strip request.addon_id) files.registrations)) files s.given mode
            (is_direct request.access_mode) s.prepared.provided)

  -- After a request was accepted, its record is found under its addon id, and what is found under
  -- every other id is as before.
  pub get_registration-upsert :
      (addon_id : String)
      → upsert codecs writer fresh now request mode direct_access files ≡ (ok r, files')
      → get_registration addon_id files' ≡ (
          if strip request.addon_id == strip addon_id
          then some r
          else get_registration addon_id files)
  unfolding get_registration
  get_registration-upsert addon_id h =
      let s = upsert-Steps codecs fresh now request mode files writer direct_access r files' h in
      let made = record_for codecs request s.prepared.realized s.given now in
      let stored : Stored = stored_for codecs mode direct_access made s.given in
      let found = registrations-upsert s in
      let law =
        lookup-insert (strip request.addon_id) (strip addon_id) stored files.registrations in
      ap (λ d. record_found (lookup (strip addon_id) d)) found
      ∙ ap record_found law
      ∙ elim (Bool-cases (strip request.addon_id == strip addon_id)) [
        | inl same ↦ rw same (ap some (sym s.prepared.recorded))
        | inr other ↦ rw other
      ]

  -- An accepted request is granted the distinct topics that it asks for, all of them scopes that
  -- the addon may have.
  upsert_permissions :
      upsert codecs writer fresh now request mode direct_access files ≡ (ok r, files')
      → (r.permissions.publish ≡ normalize_topics request.publish_topics)
        × (r.permissions.subscribe ≡ normalize_topics request.subscribe_topics)
        × All (IsPublishScope r.addon_id) r.permissions.publish
        × All (IsSubscribeScope r.addon_id) r.permissions.subscribe
  upsert_permissions h =
      let s = upsert-Steps codecs fresh now request mode files writer direct_access r files' h in
      let (named, publish_eq, subscribe_eq, publishes, subscribes) =
        (realize_topic_permissions_iff (strip request.addon_id) request.publish_topics
            request.subscribe_topics s.prepared.realized).0
          s.prepared.granted in
      rw s.prepared.recorded (
        publish_eq,
        subscribe_eq,
        rw publish_eq (rw (strip_idem request.addon_id) at publishes),
        rw subscribe_eq (rw (strip_idem request.addon_id) at subscribes),
      )

  -- Credentials are issued for direct access to the embedded broker, a mapping is recorded for
  -- direct access to an external one, and neither for access through the gateway.
  pub upsert_credentials :
      upsert codecs writer fresh now request mode direct_access files ≡ (ok r, files')
      → (is_some r.direct_mqtt ≡ (is_direct request.access_mode && is_embedded mode))
        × (is_some r.manual_direct_mqtt ≡ (is_direct request.access_mode && not (is_embedded mode)))
  upsert_credentials h =
      let s = upsert-Steps codecs fresh now request mode files writer direct_access r files' h in
      rw s.prepared.recorded (
        provision_kinds codecs fresh now request
          (meta_of (lookup (strip request.addon_id) files.registrations)) files s.given mode
          (is_direct request.access_mode) s.prepared.provided)
