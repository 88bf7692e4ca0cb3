-- ===== src/Examples/Managing.antt =====
-- The restart of the broker and the configuration at concrete inputs.
use synthia_mqtt.Prelude.{
  ℕ, ◌+◌, ◌*◌, ◌<◌, ◌↔◌, String, ◌≡◌, refl, Bool, true, false, none, some, arith, ok,
}
use synthia_mqtt.Prelude.Effects.{◌>>=◌, ◌>>◌, done, ask, attempt, lift, modify}
use synthia_mqtt.Json.{pos, str, obj, Fields, end, field, get, get_or, truthy}
use synthia_mqtt.Json.Objects.{put}
use synthia_mqtt.Config.{missing, holds, Disk, load, int_of}
use synthia_mqtt.Config.Settings.{
  AddonConfigUpdate, merge_update, save_overrides, effective_fields, get_effective_config,
}
use synthia_mqtt.Config.Masking.{inner, masked_configs}
use synthia_mqtt.Config.Store.{update_config}
use synthia_mqtt.Install.Apply.{reload_mqtt_service}
use synthia_mqtt.Contract.{post_config}
use synthia_mqtt.Contract.Update.{IsShown, post_config-IsShown}
use synthia_mqtt.Install.Ready.{Reads}
use synthia_mqtt.Admin.{
  Port, wait_for_port, Restart, RestartResponse, restart_broker, waited, post_restart,
}
use synthia_mqtt.Admin.Wait.{Pauses, wait_for_port_iff}
use synthia_mqtt.Admin.Restarted.{Shows, IsBack, post_restart-Reads}
use synthia_mqtt.Examples.{sample_python}
use synthia_mqtt.Examples.Setup.{sample_host, sample_disk}

-- A port that answers at once, with attempts a fifth of a second apart.
abbrev quick_port : Port
quick_port = record { clock = λ n. n * 200000; connects = λ host number n. true }

quick_port-Pauses : Pauses quick_port
quick_port-Pauses n = omega arith

wait_for_port_iff_example :
    (b : Bool) × (wait_for_port quick_port "mosquitto" (pos 1883) 0 ≡ some b)
    × ((b ≡ true) ↔ ((m : ℕ) × (m * 200000 < 0 + 20000000) × (◌≡◌ {A = Bool} true true)))
wait_for_port_iff_example =
    wait_for_port_iff quick_port "mosquitto" (pos 1883) 0 quick_port-Pauses (omega arith)

abbrev restart : Restart
restart = record {
  lock_free = true;
  docker = record { socket = true; import_error = none; restart_error = none };
  port = quick_port;
  now = 0;
  elapsed_ms = 3;
}

abbrev restarted : RestartResponse
restarted = waited true 3

abbrev restarted_disk : Disk
restarted_disk = (post_restart sample_host restart sample_disk).1

post_restart-Reads_example :
    Reads sample_host restarted_disk (Shows (IsBack sample_host.environment restart))
unfolding post_restart ◌>>=◌ lift restart_broker int_of sample_python get truthy get_or done
    wait_for_port
post_restart-Reads_example =
    post_restart-Reads sample_host restart sample_disk restarted_disk restarted quick_port-Pauses
      (omega arith) refl

abbrev with_password : String → Disk
with_password password = record sample_disk {
  overrides = holds (obj (field "mqtt_password" (str password) end));
}

abbrev plain_config : Fields
plain_config = effective_fields false sample_host.environment end (pos 1883) (pos 1)

masked_configs_example :
    get_effective_config true sample_host (with_password "secret")
    ≡ get_effective_config true sample_host (with_password "select")
unfolding int_of sample_python get_or put get get_effective_config
masked_configs_example =
    masked_configs sample_host (with_password "secret") (with_password "select") plain_config
      (str "secret") (str "select") (inner "s" "t" "ecre" "elec" tt) refl refl

abbrev update : AddonConfigUpdate
update = record {
  mqtt_host = some "broker";
  mqtt_port = some (pos 1);
  mqtt_username = none;
  mqtt_password = some "secret";
  mqtt_tls = none;
  mqtt_client_id = none;
  mqtt_base_topic = none;
  mqtt_qos = none;
}

abbrev updated_disk : Disk
updated_disk = save_overrides (merge_update update end) sample_disk

abbrev shown_config : Fields
shown_config =
    effective_fields true sample_host.environment (merge_update update end) (pos 1) (pos 1)

post_config-IsShown_example :
    (old : Fields) × (load missing ≡ ok old)
    × (updated_disk ≡ save_overrides (merge_update update old) sample_disk)
    × (get_effective_config true sample_host updated_disk ≡ ok shown_config)
    × IsShown update shown_config
unfolding post_config get int_of sample_python get_or attempt ◌>>=◌ update_config ask ◌>>◌ modify
    reload_mqtt_service lift
post_config-IsShown_example =
    post_config-IsShown sample_host (λ config. true) (λ config. ok tt) update sample_disk
      updated_disk refl
