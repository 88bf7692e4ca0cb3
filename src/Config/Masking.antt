-- ===== src/Config/Masking.antt =====
-- What the masked configuration tells of the password.
use Prim.Native.Char.{Char}
use text.Mathlib.TextLemmas.{cons-append, nil-append}
use synthia_mqtt.Prelude.{
  ◌≡◌, refl, sym, ap, ◌∙◌, String, ◌<>◌, Bool, true, false, ok, inl, inr, Bool-cases, ◌==◌, eq_iff,
  eq_refl, arith, bind-ok, ok_injective,
}
use synthia_mqtt.Prelude.Text.{mask_but_last, mask_text}
use synthia_mqtt.Json.{
  Json, str, Fields, end, field, get, get?, get_or, getenv, Environment, ℤ, int, Builtins,
}
use synthia_mqtt.Json.Objects.{put, get?-put}
use synthia_mqtt.Config.{Disk, Host, load, int_of}
use synthia_mqtt.Config.Settings.{mask_secret, effective_fields, get_effective_config}

-- Two texts of the same length.
abbrev pub AsLong : String → String → Type 0
AsLong String.[] String.[] = Unit
AsLong (String.◌∷◌ c s) (String.◌∷◌ d t) = AsLong s t
AsLong _ _ = ⊥

-- Two secrets that differ at most between their first and last characters.
pub data Alike : Json → Json → Type 0 where
  same : {v w : Json} → v ≡ w → Alike v w
  inner :
      (a b : Char) (s t : String)
      → AsLong s t
      → Alike
          (str (String.◌∷◌ a (s <> String.◌∷◌ b String.[])))
          (str (String.◌∷◌ a (t <> String.◌∷◌ b String.[])))

-- A character before more text is masked.
mask_but_last-cons :
    (c b : Char) (s : String)
    → mask_but_last (String.◌∷◌ c (s <> String.◌∷◌ b String.[]))
      ≡ "*" <> mask_but_last (s <> String.◌∷◌ b String.[])
unfolding mask_but_last
mask_but_last-cons c b String.[] = rw (nil-append (String.◌∷◌ b String.[]), mask_but_last) refl
mask_but_last-cons c b (String.◌∷◌ d s) =
    rw (cons-append d s (String.◌∷◌ b String.[]), mask_but_last) refl

mask_but_last-AsLong :
    (b : Char) (s t : String)
    → AsLong s t
    → mask_but_last (s <> String.◌∷◌ b String.[]) ≡ mask_but_last (t <> String.◌∷◌ b String.[])
mask_but_last-AsLong b String.[] String.[] h = refl
mask_but_last-AsLong b String.[] (String.◌∷◌ d t) h = absurd h
mask_but_last-AsLong b (String.◌∷◌ c s) String.[] h = absurd h
mask_but_last-AsLong b (String.◌∷◌ c s) (String.◌∷◌ d t) h =
    let last = String.◌∷◌ b String.[] in
    ap mask_but_last (cons-append c s last)
    ∙ mask_but_last-cons c b s
    ∙ ap (λ r. "*" <> r) (mask_but_last-AsLong b s t h)
    ∙ sym (mask_but_last-cons d b t)
    ∙ ap mask_but_last (sym (cons-append d t last))

-- A text of three characters or more keeps its first.
mask_text-cons :
    (a c b : Char) (s : String)
    → mask_text (String.◌∷◌ a (String.◌∷◌ c s <> String.◌∷◌ b String.[]))
      ≡ String.◌∷◌ a (mask_but_last (String.◌∷◌ c s <> String.◌∷◌ b String.[]))
unfolding mask_text
mask_text-cons a c b String.[] =
    rw (cons-append c String.[] (String.◌∷◌ b String.[]), nil-append (String.◌∷◌ b String.[])) refl
mask_text-cons a c b (String.◌∷◌ d s) =
    rw
      (
        cons-append c (String.◌∷◌ d s) (String.◌∷◌ b String.[]),
        cons-append d s (String.◌∷◌ b String.[]),
      )
      refl

mask_text-AsLong :
    (a b : Char) (s t : String)
    → AsLong s t
    → mask_text (String.◌∷◌ a (s <> String.◌∷◌ b String.[]))
      ≡ mask_text (String.◌∷◌ a (t <> String.◌∷◌ b String.[]))
mask_text-AsLong a b String.[] String.[] h = refl
mask_text-AsLong a b String.[] (String.◌∷◌ d t) h = absurd h
mask_text-AsLong a b (String.◌∷◌ c s) String.[] h = absurd h
mask_text-AsLong a b (String.◌∷◌ c s) (String.◌∷◌ d t) h =
    mask_text-cons a c b s
    ∙ ap (String.◌∷◌ a) (mask_but_last-AsLong b (String.◌∷◌ c s) (String.◌∷◌ d t) h)
    ∙ sym (mask_text-cons a d b t)

is_cons : String → Bool
is_cons String.[] = false
is_cons (String.◌∷◌ a s) = true

not-nil : (a : Char) (s : String) → String.◌∷◌ a s ≡ "" → ⊥
unfolding is_cons
not-nil a s e = let e' : true ≡ false = ap is_cons e in cc

filled : (a : Char) (s : String) → (String.◌∷◌ a s == "") ≡ false
filled a s = elim (Bool-cases (String.◌∷◌ a s == "")) [
  | inl e ↦ absurd (not-nil a s ((eq_iff (String.◌∷◌ a s) "").0 e))
  | inr e ↦ e
]

module _ ⦃python : Builtins⦄ where
  mask_secret-Alike : (v w : Json) → Alike v w → mask_secret v ≡ mask_secret w
  unfolding mask_secret
  mask_secret-Alike v w (same e) = ap mask_secret e
  mask_secret-Alike v w (inner a b s t h) =
      rw (filled a (s <> String.◌∷◌ b String.[]), filled a (t <> String.◌∷◌ b String.[]))
        (ap str (mask_text-AsLong a b s t h))

  put-put :
      (key : String) (v w : Json) (data' : Fields) → put key w (put key v data') ≡ put key w data'
  unfolding put
  put-put key v w end = rw (eq_refl key) refl
  put-put key v w (field k x rest) = ground (arith, put-put key v w rest)

  masked_put :
      (v : Json) (config : Fields)
      → put "mqtt_password"
          (mask_secret (get "mqtt_password" (put "mqtt_password" v config)))
          (put "mqtt_password" v config)
        ≡ put "mqtt_password" (mask_secret v) config
  unfolding get
  masked_put v config =
      rw (get?-put "mqtt_password" "mqtt_password" v config, get)
        (put-put "mqtt_password" v (mask_secret v) config)

  -- What a successful read of the configuration rests on.
  pub record IsEffective (host : Host) (disk : Disk) (config : Fields) : Type 0 where
    pub overrides : Fields
    pub port : ℤ
    pub qos : ℤ
    pub default_port : ℤ
    pub default_qos : ℤ
    pub loaded : load disk.overrides ≡ ok overrides
    pub port_read : int_of (get_or "mqtt_port" (int default_port) overrides) ≡ ok port
    pub qos_read : int_of (get_or "mqtt_qos" (int default_qos) overrides) ≡ ok qos
    pub shown : effective_fields false host.environment overrides port qos ≡ config
    pub hidden :
        get_effective_config true host disk
        ≡ ok (effective_fields true host.environment overrides port qos)

  effective-hidden :
      (host : Host) (disk : Disk) (port0 qos0 : ℤ) (overrides : Fields) (port qos : ℤ)
      → int_of (str (getenv host.environment "MQTT_PORT" "1883")) ≡ ok port0
      → int_of (str (getenv host.environment "MQTT_QOS" "1")) ≡ ok qos0
      → load disk.overrides ≡ ok overrides
      → int_of (get_or "mqtt_port" (int port0) overrides) ≡ ok port
      → int_of (get_or "mqtt_qos" (int qos0) overrides) ≡ ok qos
      → get_effective_config true host disk
        ≡ ok (effective_fields true host.environment overrides port qos)
  unfolding get_effective_config
  effective-hidden host disk port0 qos0 overrides port qos e1 e2 e3 e4 e5 =
      rw (e1, e2, e3, e4, e5) refl

  pub config-IsEffective :
      (host : Host) (disk : Disk) (config : Fields)
      → get_effective_config false host disk ≡ ok config
      → IsEffective host disk config
  unfolding get_effective_config
  config-IsEffective host disk config h =
      let env = host.environment in
      let (port0, e1, h1) = bind-ok (int_of (str (getenv env "MQTT_PORT" "1883"))) _ h in
      let (qos0, e2, h2) = bind-ok (int_of (str (getenv env "MQTT_QOS" "1"))) _ h1 in
      let (overrides, e3, h3) = bind-ok (load disk.overrides) _ h2 in
      let (port, e4, h4) = bind-ok (int_of (get_or "mqtt_port" (int port0) overrides)) _ h3 in
      let (qos, e5, h5) = bind-ok (int_of (get_or "mqtt_qos" (int qos0) overrides)) _ h4 in
      record {
        overrides = overrides;
        port = port;
        qos = qos;
        default_port = port0;
        default_qos = qos0;
        loaded = e3;
        port_read = e4;
        qos_read = e5;
        shown = ok_injective refl h5;
        hidden = effective-hidden host disk port0 qos0 overrides port qos e1 e2 e3 e4 e5;
      }

  masked_fields :
      (env : Environment) (overrides : Fields) (port qos : ℤ)
      → effective_fields true env overrides port qos
        ≡ put "mqtt_password"
            (mask_secret (get "mqtt_password" (effective_fields false env overrides port qos)))
            (effective_fields false env overrides port qos)
  unfolding effective_fields put get get?
  masked_fields env overrides port qos = refl

  -- The masked configuration is the plain one with the password masked.
  masked :
      (host : Host) (disk : Disk) (config : Fields)
      → get_effective_config false host disk ≡ ok config
      → get_effective_config true host disk
        ≡ ok (put "mqtt_password" (mask_secret (get "mqtt_password" config)) config)
  masked host disk config h =
      let r = config-IsEffective host disk config h in
      r.hidden
      ∙ ap ok (
          masked_fields host.environment (r.overrides) (r.port) (r.qos)
          ∙ ap (λ c. put "mqtt_password" (mask_secret (get "mqtt_password" c)) c) (r.shown))

  -- Two configurations that differ only in passwords of the same length, first and last character
  -- are masked to the same one.
  pub masked_configs :
      (host : Host) (first second : Disk) (config : Fields) (v w : Json)
      → Alike v w
      → get_effective_config false host first ≡ ok (put "mqtt_password" v config)
      → get_effective_config false host second ≡ ok (put "mqtt_password" w config)
      → get_effective_config true host first ≡ get_effective_config true host second
  masked_configs host first second config v w alike e1 e2 =
      masked host first (put "mqtt_password" v config) e1
      ∙ ap ok (
          masked_put v config
          ∙ ap (λ m. put "mqtt_password" m config) (mask_secret-Alike v w alike)
          ∙ sym (masked_put w config))
      ∙ sym (masked host second (put "mqtt_password" w config) e2)
