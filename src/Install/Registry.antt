-- ===== src/Install/Registry.antt =====
-- app/services/core_registry.py and the endpoints of app/api/install_workflow.py that set the
-- address of the core and register the addon with it.
pub mod Fallback
use synthia_mqtt.Prelude.{
  ℕ, String, ◌<>◌, Bool, true, false, not, ◌&&◌, ◌||◌, Option, none, some, List, [], ◌∷◌, ◌++◌,
  ◌==◌, leb, ltb, eqb, if◌then◌else◌, Result, ok, err, is_some, raise_if,
}
use synthia_mqtt.Prelude.Text.{strip, rstrip_char}
use synthia_mqtt.Prelude.Effects.{Act, attempt, done, raise, lift, ask, modify, ◌>>=◌, ◌>>◌}
use synthia_mqtt.Http.{HttpError, http_error}
use synthia_mqtt.Json.{Json, null, str, pos, Fields, end, field, Builtins}
use synthia_mqtt.Config.{
  Exception, value_error, runtime_error, other_error, http_exception, Disk, Host, getenv_or_none,
}
use synthia_mqtt.Config.Settings.{get_core_base_url}
use synthia_mqtt.Config.Broker.{text_of_option}
use synthia_mqtt.Config.Session.{InstallSession, update_install_session_state}
use synthia_mqtt.Config.Store.{set_core_base_url}
use synthia_mqtt.Install.{normalize_http_url}
use synthia_mqtt.Install.Apply.{http}

-- A POST request of `_post_json`; the token is sent in two headers unless it is empty.
pub record Post : Type 0 where
  pub url : String
  pub payload : Fields
  pub auth_token : Option String

-- What `urlopen` does: a response or an `HTTPError`, each with its code and the text of its body
-- (of 200 bytes at most), or another exception.
pub data Reply : Type 0 where
  response : ℕ → String → Reply
  http_failure : ℕ → String → Reply
  unreachable : String → Reply

-- What the core replies to a request, given the earlier ones.
abbrev pub Registrar : Type 0
Registrar = List Post → Post → Reply

pub record PostResult : Type 0 where
  pub ok : Bool
  pub status_code : Option ℕ
  pub reason : Option String

-- What `register_addon_endpoint` and `verify_addon_endpoint` are called with.
pub record Addon : Type 0 where
  pub core_base_url : String
  pub addon_id : String
  pub base_url : String
  pub name : String
  pub version : String
  pub auth_token : Option String

unfoldable pub registry_url : Addon → String → String
unfolding rstrip_char
registry_url addon path = rstrip_char b'/' addon.core_base_url <> path

abbrev base_fields : Addon → Fields
base_fields addon =
    field "base_url" (str addon.base_url)
      (field "name" (str addon.name) (field "version" (str addon.version) end))

unfoldable pub preferred_post : Addon → Post
unfolding registry_url
preferred_post addon = record {
  url = registry_url addon ("/api/addons/registry/" <> (addon.addon_id <> "/register"));
  payload = base_fields addon;
  auth_token = addon.auth_token;
}

-- The request to the older route, with the id under one key or the other.
unfoldable pub legacy_post : String → Addon → Post
unfolding registry_url
legacy_post key addon = record {
  url = registry_url addon "/api/admin/addons/registry";
  payload = field key (str addon.addon_id) (base_fields addon);
  auth_token = addon.auth_token;
}

unfoldable pub verify_post : Addon → Post
unfolding registry_url
verify_post addon = record {
  url = registry_url addon ("/api/addons/registry/" <> (addon.addon_id <> "/verify"));
  payload = end;
  auth_token = addon.auth_token;
}

abbrev refused : Option ℕ → String → PostResult
refused status_code reason = record { ok = false; status_code = status_code; reason = some reason }

module _ ⦃python : Builtins⦄ where
  unfoldable pub result_of : Reply → PostResult
  result_of (response code body) =
      if leb 200 code && ltb code 300
      then record { ok = true; status_code = some code; reason = none }
      else refused (some code)
          ("Core registry returned status " <> (python.print_number (pos code) <> (": " <> body)))
  result_of (http_failure code body) =
      refused (some code)
        ("Core registry HTTP error " <> (python.print_number (pos code) <> (": " <> body)))
  result_of (unreachable message) = refused none message

  -- `_post_json`, with the requests sent so far.
  unfoldable pub post_json : Registrar → Post → List Post → PostResult × List Post
  unfolding result_of
  post_json core post posts = (result_of (core posts post), posts ++ (post ∷ []))

  abbrev pub is_status : ℕ → Option ℕ → Bool
  is_status code none = false
  is_status code (some n) = eqb n code

  -- Each of the three steps goes on to the next one or ends with its own result.
  unfoldable pub after_legacy : Registrar → Addon → PostResult × List Post → PostResult × List Post
  unfolding post_json legacy_post
  after_legacy core addon (r, posts) =
      if r.ok
      then (record { ok = true; status_code = r.status_code; reason = none }, posts)
      else if is_status 422 r.status_code
      then post_json core (legacy_post "id" addon) posts
      else (r, posts)

  unfoldable pub after_preferred :
      Registrar → Addon → PostResult × List Post → PostResult × List Post
  unfolding after_legacy
  after_preferred core addon (r, posts) =
      if r.ok
      then (record { ok = true; status_code = r.status_code; reason = none }, posts)
      else if is_status 401 r.status_code
          || is_status 403 r.status_code
          || not (is_some r.status_code)
      then (r, posts)
      else if not (is_status 404 r.status_code || is_status 422 r.status_code)
      then (r, posts)
      else after_legacy core addon (post_json core (legacy_post "addon_id" addon) posts)

  unfoldable pub register_addon_endpoint : Registrar → Addon → List Post → PostResult × List Post
  unfolding after_preferred preferred_post
  register_addon_endpoint core addon posts =
      after_preferred core addon (post_json core (preferred_post addon) posts)

  unfoldable pub verify_addon_endpoint : Registrar → Addon → List Post → PostResult × List Post
  unfolding post_json verify_post
  verify_addon_endpoint core addon posts = post_json core (verify_post addon) posts

-- The files and the requests to the core.
pub record Office : Type 0 where
  pub disk : Disk
  pub posts : List Post

pub record CoreRegistryRequest : Type 0 where
  pub base_url : String
  pub core_base_url : Option String
  pub addon_id : String
  pub auth_token : Option String

unfoldable pub on_disk : {A : Type 0} → Act Disk Exception A → Act Office Exception A
on_disk m office = let (r, disk) = m office.disk in (r, record office { disk = disk })

unfoldable pub on_posts : (List Post → PostResult × List Post) → Act Office Exception PostResult
on_posts f office = let (r, posts) = f office.posts in (ok r, record office { posts = posts })

-- `a or b` on texts that may be missing.
abbrev pub or_option : Option String → Option String → Option String
or_option a b = if text_of_option a == "" then b else a

module _ ⦃python : Builtins⦄ (host : Host) where
  unfoldable pub on_url_error : {A : Type 0} → Exception → Act Disk Exception A
  on_url_error (runtime_error message) = http 409 message
  on_url_error (value_error message) = http 400 message
  on_url_error other = raise other

  -- The endpoint `POST /core-base-url`.
  unfoldable pub post_core_base_url : String → Act Disk Exception String
  unfolding set_core_base_url normalize_http_url on_url_error
  post_core_base_url given =
      let normalized = normalize_http_url given in
      if normalized == ""
      then http 400 "core_base_url is required"
      else attempt (set_core_base_url host normalized) on_url_error

  unfoldable pub registered_state : Bool → Json → InstallSession → InstallSession
  registered_state registered reason s = record s {
    registered_to_core = registered;
    last_error = reason;
  }

  unfoldable pub registration_error : Option ℕ → String → HttpError
  registration_error status_code reason =
      if is_status 401 status_code || is_status 403 status_code
      then http_error 401 "Core authentication failed"
      else if not (is_some status_code)
      then http_error 502 "Core is unreachable"
      else http_error 502 reason

  -- The end of `register_core`, by the result of the registration.
  unfoldable pub register_outcome : Registrar → Addon → PostResult → Act Office Exception (Option ℕ)
  unfolding verify_addon_endpoint update_install_session_state on_disk on_posts registered_state
      registration_error
  register_outcome core addon r =
      let reason =
        if text_of_option r.reason == ""
        then "Core registry request failed"
        else text_of_option r.reason in
      if r.ok
      then (do
        verified ← on_posts (verify_addon_endpoint core addon)
        state ← on_disk (update_install_session_state host (registered_state true null))
        done r.status_code)
      else do
        state ← on_disk (update_install_session_state host (registered_state false (str reason)))
        raise (http_exception (registration_error r.status_code reason))

  -- The address of the core that the request gives, or else the one that is set.
  unfoldable pub address_of : CoreRegistryRequest → Disk → Result Exception String
  unfolding get_core_base_url
  address_of payload disk =
      if text_of_option payload.core_base_url == ""
      then get_core_base_url host disk
      else ok (text_of_option payload.core_base_url)

  unfoldable pub addon_of : String → String → CoreRegistryRequest → String → Addon
  unfolding normalize_http_url strip
  addon_of name version payload address = record {
    core_base_url = normalize_http_url address;
    addon_id = strip payload.addon_id;
    base_url = normalize_http_url payload.base_url;
    name = name;
    version = version;
    auth_token = or_option payload.auth_token (host.environment "CORE_ADMIN_TOKEN");
  }

  unfoldable pub register_core :
      Registrar → String → String → CoreRegistryRequest → Act Office Exception (Option ℕ)
  unfolding register_addon_endpoint register_outcome address_of addon_of on_posts on_disk
  register_core core name version payload = do
    address ← on_disk (ask (address_of payload))
    let addon = addon_of name version payload address
    lift (
        raise_if (addon.core_base_url == "")
          (http_exception (http_error 400 "core_base_url is required (or set CORE_BASE_URL)")))
    lift (raise_if (addon.base_url == "") (http_exception (http_error 400 "base_url is required")))
    r ← on_posts (register_addon_endpoint core addon)
    register_outcome core addon r
