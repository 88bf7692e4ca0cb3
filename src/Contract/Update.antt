-- ===== src/Contract/Update.antt =====
-- What an update of the configuration leads to.
use mathlib.Core.Path.{subst}
use synthia_mqtt.Prelude.{
  ◌≡◌, refl, sym, ap, ◌∙◌, String, Bool, true, false, Option, none, some, ◌==◌, arith,
  if◌then◌else◌, Result, ok, err, ok_injective,
}
use synthia_mqtt.Prelude.Effects.{
  continue-ok, recover, read-ok, attempt, lift, ask, modify, raise, ◌>>=◌, ◌>>◌,
}
use synthia_mqtt.Json.{
  ℤ, Json, int, str, boolean, Fields, get, get?, get_or, truthy, Environment, Builtins,
}
use synthia_mqtt.Json.Objects.{put_some, get?-put}
use synthia_mqtt.Config.{Exception, Disk, Host, load, int_of}
use synthia_mqtt.Config.Settings.{
  AddonConfigUpdate, merge_update, save_overrides, mask_secret, effective_fields,
  get_effective_config,
}
use synthia_mqtt.Config.Masking.{config-IsEffective}
use synthia_mqtt.Config.Store.{update_config}
use synthia_mqtt.Install.Apply.{reload_mqtt_service}
use synthia_mqtt.Contract.{effective_response, show_config, apply_update, post_config}

get?-put_some :
    (key k : String) (v : Option Json) (data' : Fields)
    → get? k (put_some key v data')
      ≡ (if key == k then (elim v [ none ↦ get? k data' | some x ↦ some x ]) else get? k data')
get?-put_some key k none data' = ground arith
get?-put_some key k (some x) data' = get?-put key k x data'

get_or-given :
    (key : String) (default v : Json) (data' : Fields)
    → get? key data' ≡ some v
    → get_or key default data' ≡ v
unfolding get_or
get_or-given key default v data' e = rw (e, get_or)

-- The configuration shows a value under a key where the update gives one.
abbrev Given : {A : Type 0} → Option A → (A → Json) → String → Fields → Type 0
Given {A} given as_json key shown = (a : A) → given ≡ some a → get key shown ≡ as_json a

-- The configuration shows what an update gives, the password masked.
pub record IsShown ⦃python : Builtins⦄ (u : AddonConfigUpdate) (shown : Fields) : Type 0 where
  pub host : Given u.mqtt_host str "mqtt_host" shown
  pub port : Given u.mqtt_port int "mqtt_port" shown
  pub username : Given u.mqtt_username str "mqtt_username" shown
  pub password : Given u.mqtt_password (λ p. mask_secret (str p)) "mqtt_password" shown
  pub tls : Given u.mqtt_tls boolean "mqtt_tls" shown
  pub client_id : Given u.mqtt_client_id str "mqtt_client_id" shown
  pub base_topic : Given u.mqtt_base_topic str "mqtt_base_topic" shown
  pub qos : Given u.mqtt_qos int "mqtt_qos" shown

module _ ⦃python : Builtins⦄ (u : AddonConfigUpdate) (old : Fields) where
  abbrev merged : Fields
  merged = merge_update u old

  number_read :
      (key : String) (default n m : ℤ)
      → get? key merged ≡ some (int n)
      → int_of (get_or key (int default) merged) ≡ ok m
      → int m ≡ int n
  unfolding int_of
  number_read key default n m e h =
      let h' = rw (get_or-given key (int default) (int n) merged e) at h in
      ap int (sym (ok_injective refl h'))

  merged-IsShown :
      (env : Environment) (default_port default_qos port qos : ℤ)
      → int_of (get_or "mqtt_port" (int default_port) merged) ≡ ok port
      → int_of (get_or "mqtt_qos" (int default_qos) merged) ≡ ok qos
      → IsShown u (effective_fields true env merged port qos)
  unfolding effective_fields get get? merge_update truthy
  merged-IsShown env default_port default_qos port qos e4 e5 = record {
    host = λ v e. get_or-given "mqtt_host" _ (str v) merged (simp (get?-put_some, e));
    port = λ v e. number_read "mqtt_port" default_port v port (simp (get?-put_some, e)) e4;
    username = λ v e. get_or-given "mqtt_username" _ (str v) merged (simp (get?-put_some, e));
    password = λ v e.
        ap mask_secret (get_or-given "mqtt_password" _ (str v) merged (simp (get?-put_some, e)));
    tls = λ v e.
        ap (λ t. boolean (truthy t))
          (get_or-given "mqtt_tls" _ (boolean v) merged (simp (get?-put_some, e)));
    client_id = λ v e. get_or-given "mqtt_client_id" _ (str v) merged (simp (get?-put_some, e));
    base_topic = λ v e. get_or-given "mqtt_base_topic" _ (str v) merged (simp (get?-put_some, e));
    qos = λ v e. number_read "mqtt_qos" default_qos v qos (simp (get?-put_some, e)) e5;
  }

recover-raised :
    {S E A : Type 0} (x : Result E A × S) (e : E) {a : A} {s : S}
    → recover x (λ e'. raise e) ≡ (ok a, s)
    → x ≡ (ok a, s)
unfolding raise
recover-raised (ok a, s) e h = h
recover-raised (err e', s) e h = cc

module _ ⦃python : Builtins⦄ (host : Host) where
  update_config-ok :
      (u : AddonConfigUpdate) (disk after : Disk) {config : Fields}
      → update_config host u disk ≡ (ok config, after)
      → (old : Fields) × (load disk.overrides ≡ ok old)
        × (after ≡ save_overrides (merge_update u old) disk)
        × (get_effective_config false host after ≡ ok config)
  unfolding update_config ◌>>=◌ ◌>>◌ ask modify
  update_config-ok u disk after {config} h =
      let (old, loaded, g) = read-ok (load disk.overrides) disk _ h in
      let saved : save_overrides (merge_update u old) disk ≡ after = ap (λ p. p.1) g in
      (
        old,
        loaded,
        sym saved,
        subst (λ d. get_effective_config false host d ≡ ok config) saved (ap (λ p. p.0) g),
      )

  module _ (accepts : Fields → Bool) (start : Fields → Result Exception (Unit {0})) where
    reload-same :
        (disk after : Disk) → reload_mqtt_service host start disk ≡ (ok tt, after) → after ≡ disk
    unfolding reload_mqtt_service ◌>>=◌ ask lift
    reload-same disk after h =
        let (config, read, g) = read-ok (get_effective_config false host disk) disk _ h in
        sym (ap (λ p. p.1) g)

    response-accepted :
        (config shown : Fields)
        → effective_response host accepts start config ≡ ok shown
        → config ≡ shown
    unfolding effective_response
    response-accepted config shown h = ground (arith, h)

    show_config-ok :
        (disk after : Disk) {shown : Fields}
        → show_config host accepts start disk ≡ (ok shown, after)
        → (get_effective_config true host disk ≡ ok shown) × (after ≡ disk)
    unfolding show_config ◌>>=◌ ask lift
    show_config-ok disk after {shown} h =
        let (config, read, g) = read-ok (get_effective_config true host disk) disk _ h in
        (read ∙ ap ok (response-accepted config shown (ap (λ p. p.0) g)), sym (ap (λ p. p.1) g))

    -- After an update of the configuration that succeeds, the saved one is the old one with the
    -- values of the update, and the response, which is what the next read shows, shows these
    -- values, the password masked.
    pub post_config-IsShown :
        (u : AddonConfigUpdate) (disk after : Disk) {shown : Fields}
        → post_config host accepts start u disk ≡ (ok shown, after)
        → (old : Fields) × (load disk.overrides ≡ ok old)
          × (after ≡ save_overrides (merge_update u old) disk)
          × (get_effective_config true host after ≡ ok shown)
          × IsShown u shown
    unfolding post_config apply_update attempt ◌>>=◌ ◌>>◌ save_overrides load
    post_config-IsShown u disk after {shown} h =
        let applied = recover-raised (apply_update host accepts start u disk) _ h in
        let (config, disk1, updated, h1) = continue-ok (update_config host u disk) _ applied in
        let (old, loaded, saved, read) = update_config-ok u disk disk1 updated in
        let (v, disk2, reloaded, h2) =
          continue-ok (reload_mqtt_service host start disk1) (λ v'. show_config host accepts start)
            h1 in
        let (shows, kept) = show_config-ok disk2 after h2 in
        let e : after ≡ disk1 = kept ∙ reload-same disk1 disk2 reloaded in
        let r = config-IsEffective host disk1 config read in
        let shown_there : get_effective_config true host after ≡ ok shown =
          subst (λ d. get_effective_config true host d ≡ ok shown) (sym kept) shows in
        let same : r.overrides ≡ merge_update u old =
          ok_injective (r.loaded) (ap (λ (d : Disk). load d.overrides) saved) in
        let whole : effective_fields true host.environment (r.overrides) (r.port) (r.qos) ≡ shown =
          ok_injective (r.hidden)
            (subst (λ d. get_effective_config true host d ≡ ok shown) e shown_there) in
        (
          old,
          loaded,
          e ∙ saved,
          shown_there,
          subst (IsShown u)
              (ap (λ o. effective_fields true host.environment o (r.port) (r.qos)) (sym same)
                ∙ whole)
              (merged-IsShown u old host.environment (r.default_port) (r.default_qos) (r.port)
                (r.qos)
                (subst (λ o. int_of (get_or "mqtt_port" (int (r.default_port)) o) ≡ ok (r.port))
                  same (r.port_read))
                (subst (λ o. int_of (get_or "mqtt_qos" (int (r.default_qos)) o) ≡ ok (r.qos)) same
                  (r.qos_read))),
        )
