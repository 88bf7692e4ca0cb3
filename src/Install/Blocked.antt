-- ===== src/Install/Blocked.antt =====
-- The choice of optional groups where the file of the desired state cannot be written
-- (`set_optional_groups` of app/api/install_workflow.py).
use synthia_mqtt.Prelude.{◌≡◌, refl, String, some, List, keep, is_some, Dict, lookup, ok, err}
use synthia_mqtt.Prelude.Effects.{raise, attempt, ask, modify, ◌>>=◌, ◌>>◌}
use synthia_mqtt.Topics.{normalize_topics}
use synthia_mqtt.Json.{Fields, Builtins}
use synthia_mqtt.Http.{http_error}
use synthia_mqtt.Config.{runtime_error, http_exception, Disk, Host}
use synthia_mqtt.Config.Desired.{write_blocked, update_desired}
use synthia_mqtt.Config.Session.{InstallSession, get_install_session_state}
use synthia_mqtt.Config.Groups.{GroupMetadata, resolve_requested_optional_groups}
use synthia_mqtt.Config.Store.{set_requested_optional_groups, prepare_optional_group_assets}
use synthia_mqtt.Install.Choices.{set_optional_groups, on_refusal}

module _ ⦃python : Builtins⦄ (host : Host) where
  -- The disk with the files of the groups of a request.
  abbrev pub prepared : Dict GroupMetadata → List String → Disk → Disk
  prepared supported requested disk = record disk {
    assets =
        prepare_optional_group_assets host
          (keep (λ group_id. is_some (lookup group_id supported))
            (resolve_requested_optional_groups (normalize_topics requested) supported))
          supported disk.assets;
  }

  session-prepared :
      (supported : Dict GroupMetadata) (requested : List String) (disk : Disk)
      → get_install_session_state host (prepared supported requested disk)
        ≡ get_install_session_state host disk
  unfolding get_install_session_state
  session-prepared supported requested disk = refl

  update_desired_blocked :
      (mutator : Fields → Fields) (disk : Disk) (reason : String)
      → write_blocked host ≡ some reason
      → update_desired host mutator disk ≡ (err (runtime_error reason), disk)
  unfolding update_desired raise
  update_desired_blocked mutator disk reason blocked = rw (blocked, update_desired)

  set_requested_blocked :
      (supported : Dict GroupMetadata) (requested : List String) (disk : Disk) (s : InstallSession)
      (reason : String)
      → get_install_session_state host disk ≡ ok s
      → write_blocked host ≡ some reason
      → set_requested_optional_groups host requested supported disk
        ≡ (err (runtime_error reason), prepared supported requested disk)
  unfolding set_requested_optional_groups ◌>>=◌ ◌>>◌ ask modify
  set_requested_blocked supported requested disk s reason e blocked =
      rw (session-prepared supported requested disk, e)
        (rw (update_desired_blocked _ (prepared supported requested disk) reason blocked) refl)

  -- Where the state can be read and the desired state cannot be written, the request is refused with
  -- 409 and the reason, and of all files only those of the groups are changed.
  pub set_optional_groups_blocked :
      (supported : Dict GroupMetadata) (requested : List String) (disk : Disk) (s : InstallSession)
      (reason : String)
      → get_install_session_state host disk ≡ ok s
      → write_blocked host ≡ some reason
      → set_optional_groups host supported requested disk
        ≡ (err (http_exception (http_error 409 reason)), prepared supported requested disk)
  unfolding set_optional_groups on_refusal ◌>>=◌ attempt raise
  set_optional_groups_blocked supported requested disk s reason e blocked =
      rw (set_requested_blocked supported requested disk s reason e blocked) refl
