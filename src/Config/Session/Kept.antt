-- ===== src/Config/Session/Kept.antt =====
-- Reading the state of the installation after it was written.
use mathlib.Core.Path.{subst}
use synthia_mqtt.Prelude.{
  ◌≡◌, refl, sym, ◌∙◌, ap, String, false, List, [], ◌∷◌, ok, bind-ok, ok_injective,
}
use synthia_mqtt.Prelude.Effects.{read-ok, outcome}
use synthia_mqtt.Json.{str, arr, Fields, end, get, get?, get_or, truthy, item_texts, Builtins}
use synthia_mqtt.Json.Objects.{texts}
use synthia_mqtt.Topics.{normalize_topics}
use synthia_mqtt.Config.{missing, Disk, Host, load, normalize_string_list}
use synthia_mqtt.Config.Desired.{read_desired}
use synthia_mqtt.Config.Settings.{get_install_state}
use synthia_mqtt.Publish.{is_setup_complete}
use synthia_mqtt.Config.Session.{
  InstallSession, default_install_session_state, session_fields, save_session,
  get_desired_optional_groups, session_from, read_session, complete_session,
  get_install_session_state, update_install_session_state,
}

module _ ⦃python : Builtins⦄ where
  item_texts-texts : (xs : List String) → item_texts (texts xs) ≡ xs
  unfolding item_texts texts
  item_texts-texts [] = refl
  item_texts-texts (x ∷ xs) = ap (λ (rest : List String). x ∷ rest) (item_texts-texts xs)

  normalize_string_list-texts :
      (xs : List String) → normalize_string_list (arr (texts xs)) ≡ normalize_topics xs
  unfolding normalize_string_list
  normalize_string_list-texts xs = ap normalize_topics (item_texts-texts xs)

  -- The lists of a state as they are read back.
  abbrev pub tidy : InstallSession → InstallSession
  tidy s = record s {
    optional_groups_requested = normalize_topics s.optional_groups_requested;
    optional_groups_active = normalize_topics s.optional_groups_active;
    optional_groups_failed = normalize_topics s.optional_groups_failed;
  }

  pub session_from-fields : (s : InstallSession) → session_from (session_fields s) ≡ tidy s
  unfolding session_from session_fields get get_or get? truthy
  session_from-fields s = simp normalize_string_list-texts

module _ ⦃python : Builtins⦄ (host : Host) where
  -- What a successful read rests on.
  pub record IsRead (disk : Disk) (s : InstallSession) : Type 0 where
    pub raw : Fields
    pub overrides : Fields
    pub config : Fields
    pub session : load disk.session ≡ ok raw
    pub loaded : load disk.overrides ≡ ok overrides
    pub installed : get_install_state host disk ≡ ok config
    pub read :
        s
        ≡ complete_session (get "mode" config) (get_desired_optional_groups disk) (session_from raw)

  pub session-IsRead :
      (disk : Disk) (s : InstallSession)
      → get_install_session_state host disk ≡ ok s
      → IsRead disk s
  unfolding get_install_session_state read_session
  session-IsRead disk s h =
      let (raw, e1, h1) = bind-ok (load disk.session) _ h in
      let (overrides, e2, h2) = bind-ok (load disk.overrides) _ h1 in
      let (config, e3, h3) = bind-ok (get_install_state host disk) _ h2 in
      record {
        raw = raw;
        overrides = overrides;
        config = config;
        session = e1;
        loaded = e2;
        installed = e3;
        read = ok_injective h3 refl;
      }

  -- The state as it will be read once it is saved.
  abbrev pub read_back : Disk → Fields → InstallSession → InstallSession
  read_back disk config s =
      complete_session (get "mode" config) (get_desired_optional_groups disk) (tidy s)

  install-save :
      (disk : Disk) (s : InstallSession)
      → get_install_state host (save_session s disk) ≡ get_install_state host disk
  unfolding save_session get_install_state
  install-save disk s = refl

  desired-save :
      (disk : Disk) (s : InstallSession)
      → get_desired_optional_groups (save_session s disk) ≡ get_desired_optional_groups disk
  unfolding save_session get_desired_optional_groups read_desired
  desired-save disk s = refl

  get-parts :
      (disk : Disk) (raw overrides config : Fields)
      → load disk.session ≡ ok raw
      → load disk.overrides ≡ ok overrides
      → get_install_state host disk ≡ ok config
      → get_install_session_state host disk
        ≡ ok (
            complete_session
              (get "mode" config)
              (get_desired_optional_groups disk)
              (session_from raw))
  unfolding get_install_session_state read_session
  get-parts disk raw overrides config e f h = rw (h, e, f)

  -- Saving the state changes neither the configuration nor the desired state.
  pub get-save :
      (disk : Disk) (s : InstallSession) (overrides config : Fields)
      → load disk.overrides ≡ ok overrides
      → get_install_state host disk ≡ ok config
      → get_install_session_state host (save_session s disk) ≡ ok (read_back disk config s)
  unfolding save_session load
  get-save disk s overrides config e h =
      get-parts (save_session s disk) (session_fields s) overrides config refl e
        (install-save disk s ∙ h)
      ∙ rw (session_from-fields s, desired-save disk s)

  -- An update that succeeds saves the new state.
  pub update-ok :
      (f : InstallSession → InstallSession) (disk : Disk) {s : InstallSession} {after : Disk}
      → update_install_session_state host f disk ≡ (ok s, after)
      → (old : InstallSession) × (get_install_session_state host disk ≡ ok old)
        × (s ≡ f old)
        × (after ≡ save_session (f old) disk)
  unfolding update_install_session_state
  update-ok f disk {s} {after} h =
      let (old, e, g) = read-ok (get_install_session_state host disk) disk _ h in
      let (value, state) = outcome _ refl (sym g) in (old, e, sym value, sym state)

  -- After a successful update, the next read gives the state that was saved, with its lists tidy,
  -- the mode of the configuration, and the desired groups where it requests none.
  pub get-update :
      (f : InstallSession → InstallSession) (disk : Disk) {s : InstallSession} {after : Disk}
      → update_install_session_state host f disk ≡ (ok s, after)
      → (config : Fields) × (get_install_state host disk ≡ ok config)
        × (get_install_session_state host after ≡ ok (read_back disk config s))
  get-update f disk {s} {after} h =
      let (old, e, value, state) = update-ok f disk h in
      let r = session-IsRead disk old e in
      let saved : save_session s disk ≡ after = ap (λ x. save_session x disk) value ∙ sym state in
      (
        r.config,
        r.installed,
        subst (λ d. get_install_session_state host d ≡ ok (read_back disk (r.config) s)) saved
            (get-save disk s (r.overrides) (r.config) (r.loaded) (r.installed)),
      )

  -- Without a file of the state, the state is the default one, whatever the configuration says: it
  -- is not reconstructed, and the set-up is not complete.
  pub session_without_file :
      (disk : Disk) (s : InstallSession)
      → disk.session ≡ missing
      → get_install_session_state host disk ≡ ok s
      → (s.setup_state ≡ str "unconfigured")
        × (s.configured ≡ false)
        × (s.external_test_ok ≡ false)
        × (is_setup_complete (session_fields s) ≡ false)
  unfolding load complete_session session_from default_install_session_state session_fields get_or
      get? truthy is_setup_complete get
  session_without_file disk s none h =
      let r = session-IsRead disk s h in
      let empty : r.raw ≡ end = ok_injective (r.session) (ap load none) in
      let whole =
        r.read
        ∙ ap
            (λ raw.
              complete_session (get "mode" (r.config)) (get_desired_optional_groups disk)
                (session_from raw))
            empty in
      subst
        (λ x.
          (x.setup_state ≡ str "unconfigured")
          × (x.configured ≡ false)
          × (x.external_test_ok ≡ false)
          × (is_setup_complete (session_fields x) ≡ false))
        (sym whole) (refl, refl, refl, refl)
