-- ===== src/Broker.antt =====
-- What app/services/broker_manager.py asks of Docker about the container of the embedded broker.
use synthia_mqtt.Prelude.{Bool, false, Option, none, some, if◌then◌else◌, not}
use synthia_mqtt.Json.{Json, obj, Fields, end, get, or_else, truthy}

-- Whether the socket of Docker exists and its package can be imported, and the attributes of the
-- container; `none` is an exception of the Docker client.
pub record Container : Type 0 where
  pub socket : Bool
  pub importable : Bool
  pub attrs : Option Fields

-- `bool(state.get("Running"))`; a value that is no dictionary raises, which `broker_running` takes
-- for a broker that does not run.
unfoldable pub is_running : Json → Bool
is_running (obj state) = truthy (get "Running" state)
is_running _ = false

unfoldable pub docker_socket_available : Container → Bool
docker_socket_available container = container.socket

unfoldable pub broker_running : Container → Bool
unfolding is_running
broker_running container =
    if not container.socket
    then false
    else if not container.importable
    then false
    else elim container.attrs [
      | none ↦ false
      | some attrs ↦ is_running (or_else (get "State" attrs) (obj end))
    ]
