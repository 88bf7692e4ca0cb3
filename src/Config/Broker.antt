-- ===== src/Config/Broker.antt =====
-- The files of the embedded broker: `write_embedded_broker_files` and
-- `write_embedded_compose_override` of app/services/broker_manager.py, and the name of the addon's
-- service that app/services/config_store.py looks up for the latter.
use synthia_mqtt.Prelude.{
  ℕ, String, ◌<>◌, Bool, true, false, not, ◌&&◌, ◌||◌, Option, none, some, List, [], ◌∷◌, ◌++◌,
  ◌==◌, if◌then◌else◌,
}
use synthia_mqtt.Prelude.Text.{strip, lstrip, rstrip, starts_with, rstrip_char, join}
use synthia_mqtt.Prelude.Effects.{Act, done, raise}
use synthia_mqtt.Json.{pos, Builtins, getenv}
use synthia_mqtt.Config.{Exception, value_error, Disk, BrokerFiles, Host}

pub record EmbeddedBrokerConfig : Type 0 where
  pub allow_anonymous : Bool
  pub persistence : Bool
  pub log_type : String
  pub port : ℕ
  pub admin_user : Option String
  pub admin_pass : Option String

abbrev pub text_of_option : Option String → String
text_of_option none = ""
text_of_option (some s) = s

abbrev true_or_false : Bool → String
true_or_false true = "true"
true_or_false false = "false"

-- What one line of the compose file leads to: the search goes on, in the services or not, it
-- ends, or it has a name.
pub data LineStep : Type 0 where
  next : Bool → LineStep
  stop : LineStep
  found : String → LineStep

unfoldable pub service_line : Bool → String → LineStep
unfolding rstrip lstrip strip starts_with rstrip_char
service_line in_services line =
    let raw = rstrip line in
    let name = rstrip_char b':' (strip raw) in
    if raw == "" || starts_with (lstrip raw) "#"
    then next in_services
    else if strip raw == "services:"
    then next true
    else if not in_services
    then next false
    else if not (starts_with raw "  ")
    then stop
    else if not (starts_with raw "    ") && not (rstrip_char b':' raw == raw) && not (name == "")
    then found name
    else next true

unfoldable pub find_service : Bool → List String → Option String
unfolding service_line
find_service in_services [] = none
find_service in_services (line ∷ rest) = elim (service_line in_services line) [
  | next b ↦ find_service b rest
  | stop ↦ none
  | found name ↦ some name
]

-- `_resolve_embedded_addon_service_name`
unfoldable pub resolve_embedded_addon_service_name : Host → String
unfolding find_service strip
resolve_embedded_addon_service_name host =
    let env_override = strip (getenv host.environment "SYNTHIA_ADDON_SERVICE_NAME" "") in
    if not (env_override == "") then env_override else elim host.orchestrator_compose [
      | none ↦ "mqtt-addon"
      | some lines ↦ elim (find_service false lines) [ none ↦ "mqtt-addon" | some name ↦ name ]
    ]

module _ ⦃python : Builtins⦄ where
  unfoldable pub conf_lines : EmbeddedBrokerConfig → List String
  conf_lines config =
      (("listener " <> python.print_number (pos config.port))
        ∷ ("allow_anonymous " <> true_or_false config.allow_anonymous)
        ∷ ""
        ∷ ("persistence " <> true_or_false config.persistence)
        ∷ "persistence_location /mosquitto/data/"
        ∷ ("log_dest " <> config.log_type)
        ∷ [])
      ++ (if config.allow_anonymous
          then []
          else "password_file /mosquitto/config/passwordfile" ∷ "acl_file /mosquitto/config/aclfile"
            ∷ [])

  unfoldable pub write_broker : BrokerFiles → Disk → Disk
  write_broker files disk = record disk { broker = files }

  unfoldable pub write_embedded_broker_files :
      Host → EmbeddedBrokerConfig → Act Disk Exception (Unit {0})
  unfolding conf_lines write_broker
  write_embedded_broker_files host config disk =
      let conf = some (join "\n" (conf_lines config) <> "\n") in
      let user = text_of_option config.admin_user in
      let pass = text_of_option config.admin_pass in
      let begun = record disk.broker { mosquitto_conf = conf } in
      if config.allow_anonymous
      then done tt (
          write_broker
            (record {
              mosquitto_conf = conf;
              pwfile = some "";
              aclfile = some "topic readwrite #\n";
            })
            disk)
      else if user == "" || pass == ""
      then raise (value_error "embedded non-anonymous mode requires admin_user and admin_pass")
          (write_broker begun disk)
      else if text_of_option (host.crypt pass) == ""
      then raise (value_error "failed to generate embedded broker password hash")
          (write_broker begun disk)
      else done tt (
          write_broker
            (record {
              mosquitto_conf = conf;
              pwfile = some (user <> (":" <> (text_of_option (host.crypt pass) <> "\n")));
              aclfile = some ("user " <> (user <> "\ntopic readwrite #\n"));
            })
            disk)

  unfoldable pub compose_lines : String → ℕ → String → List String
  compose_lines broker_dir port addon_service_name =
      "services:"
      ∷ "  mosquitto:"
      ∷ "    image: eclipse-mosquitto:2"
      ∷ "    container_name: synthia-addon-mqtt-mosquitto"
      ∷ "    restart: unless-stopped"
      ∷ "    ports:"
      ∷ ("      - \"" <> (python.print_number (pos port) <> ":1883\""))
      ∷ "    volumes:"
      ∷ ("      - " <> (broker_dir <> "/mosquitto.conf:/mosquitto/config/mosquitto.conf:ro"))
      ∷ ("      - " <> (broker_dir <> "/pwfile:/mosquitto/config/passwordfile:ro"))
      ∷ ("      - " <> (broker_dir <> "/aclfile:/mosquitto/config/aclfile:ro"))
      ∷ "    networks:"
      ∷ "      synthia_net:"
      ∷ "        aliases:"
      ∷ "          - mosquitto"
      ∷ ""
      ∷ ("  " <> (addon_service_name <> ":"))
      ∷ "    depends_on:"
      ∷ "      - mosquitto"
      ∷ "    networks:"
      ∷ "      - synthia_net"
      ∷ ""
      ∷ "networks:"
      ∷ "  synthia_net:"
      ∷ "    name: synthia_net"
      ∷ ""
      ∷ []

  unfoldable pub write_embedded_compose_override : Host → ℕ → String → Disk → Disk
  unfolding compose_lines
  write_embedded_compose_override host port addon_service_name disk = record disk {
    compose_override = some (join "\n" (compose_lines host.broker_dir port addon_service_name));
  }
