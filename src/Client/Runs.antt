-- ===== src/Client/Runs.antt =====
-- What a run of events leaves behind, whatever the client answers to the service's own messages.
use mathlib.Core.Path.{subst}
use synthia_mqtt.Prelude.{
  ℕ, zero, suc, ◌+◌, ◌≡◌, refl, ap, inl, inr, String, ◌<>◌, some, Bool, true, false, Bool-cases,
  List, [], ◌∷◌, ok, arith, if◌then◌else◌,
}
use synthia_mqtt.Json.{
  pos, int, obj, Fields, end, field, Builtins, get_or, get?, to_int, Environment,
}
use synthia_mqtt.Config.{JsonFile, holds, int_of}
use synthia_mqtt.Policy.{PolicyCache, Message, enforcement_enabled, ingest, ingest_all}
use synthia_mqtt.Health.{set_mqtt_connected, set_last_error}
use synthia_mqtt.Client.{
  Codes, Clock, MqttClientService, Link, Event, connected, disconnected, delivered, heartbeat,
  load_count, increment_reconnects, failed_publish, publish_own, subscribe_policy_topics,
  publish_announce, publish_health, on_connect, on_disconnect, on_message, react, react_all,
}

-- Whether the broker is connected after the events, by the last one that says so.
abbrev pub last_connected : List Event → Bool → Bool
last_connected [] now = now
last_connected (connected env zero ∷ rest) now = last_connected rest true
last_connected (connected env (suc rc) ∷ rest) now = last_connected rest false
last_connected (disconnected rc ∷ rest) now = last_connected rest false
last_connected (delivered env topic text ∷ rest) now = last_connected rest now
last_connected (heartbeat ∷ rest) now = last_connected rest now

-- The connections that ended with an error.
abbrev pub losses : List Event → ℕ
losses [] = 0
losses (disconnected (suc rc) ∷ rest) = suc (losses rest)
losses (e ∷ rest) = losses rest

abbrev pub messages : List Event → List Message
messages [] = []
messages (delivered env topic text ∷ rest) =
    record { env = env; topic = topic; payload_text = text } ∷ messages rest
messages (e ∷ rest) = messages rest

module _ ⦃python : Builtins⦄ (clock : Clock) (client : Codes) (service : MqttClientService) where
  -- The state `link` agrees with `now`, the cache and the count.
  pub record Shows (link : Link) (now : Bool) (cache : PolicyCache) (count : ℕ) : Type 0 where
    pub shown : link.health.mqtt_connected ≡ now
    pub learnt : link.cache ≡ cache
    pub counted : load_count link.metrics ≡ ok (pos count)

  failed-Shows :
      (rc : ℕ) (link : Link) {now : Bool} {cache : PolicyCache} {count : ℕ}
      → Shows link now cache count
      → Shows (failed_publish rc link) now cache count
  unfolding failed_publish set_last_error
  failed-Shows zero link h = h
  failed-Shows (suc rc) link h = record { shown = h.shown; learnt = h.learnt; counted = h.counted }

  own-Shows :
      (name : String) (payload : Fields) (link : Link) {now : Bool} {cache : PolicyCache}
      {count : ℕ}
      → Shows link now cache count
      → Shows (publish_own client service name payload link) now cache count
  unfolding publish_own
  own-Shows name payload link h =
      failed-Shows _ _ (record { shown = h.shown; learnt = h.learnt; counted = h.counted })

  health-Shows :
      (link : Link) {now : Bool} {cache : PolicyCache} {count : ℕ}
      → Shows link now cache count
      → Shows (publish_health clock client service link) now cache count
  unfolding publish_health
  health-Shows link h = own-Shows "health" _ link h

  if-Shows :
      (b : Bool) (up down : Link) {now : Bool} {cache : PolicyCache} {count : ℕ}
      → Shows up now cache count
      → Shows down now cache count
      → Shows (if b then up else down) now cache count
  if-Shows true up down h g = h
  if-Shows false up down h g = g

  subscribe-Shows :
      (env : Environment) (link : Link) {now : Bool} {cache : PolicyCache} {count : ℕ}
      → Shows link now cache count
      → Shows (subscribe_policy_topics env service link) now cache count
  unfolding subscribe_policy_topics
  subscribe-Shows env link h =
      if-Shows _ _ _ h (record { shown = h.shown; learnt = h.learnt; counted = h.counted })

  connect-Shows :
      (env : Environment) (link : Link) {now : Bool} {cache : PolicyCache} {count : ℕ}
      → Shows link now cache count
      → Shows (on_connect env clock client service zero link) true cache count
  unfolding on_connect publish_announce set_mqtt_connected
  connect-Shows env link h = health-Shows _ (
      own-Shows "announce" _ _
        (subscribe-Shows env _ (record { shown = refl; learnt = h.learnt; counted = h.counted })))

  refuse-Shows :
      (env : Environment) (rc : ℕ) (link : Link) {now : Bool} {cache : PolicyCache} {count : ℕ}
      → Shows link now cache count
      → Shows (on_connect env clock client service (suc rc) link) false cache count
  unfolding on_connect set_mqtt_connected set_last_error
  refuse-Shows env rc link h = record { shown = refl; learnt = h.learnt; counted = h.counted }

  message_lem :
      (env : Environment) (topic text : String) (link : Link)
      → on_message env topic text link ≡ record link { cache = ingest env link.cache topic text }
  unfolding on_message
  message_lem env topic text link = elim (Bool-cases (enforcement_enabled env)) [
    | inl e ↦ rw e
    | inr e ↦ rw e
  ]

  message-Shows :
      (env : Environment) (topic text : String) (link : Link) {now : Bool} {cache : PolicyCache}
      {count : ℕ}
      → Shows link now cache count
      → Shows (on_message env topic text link) now (ingest env cache topic text) count
  message-Shows env topic text link h = rw (message_lem env topic text link) (record {
    shown = h.shown;
    learnt = ap (λ c. ingest env c topic text) h.learnt;
    counted = h.counted;
  })

  abbrev metrics_of : ℕ → JsonFile
  metrics_of n = holds (obj (field "reconnect_count" (int (pos n)) end))

  increment_lem :
      (file : JsonFile) (n : ℕ)
      → load_count file ≡ ok (pos n)
      → increment_reconnects file ≡ (ok (pos (suc n)), metrics_of (suc n))
  unfolding increment_reconnects
  increment_lem file n h = rw h

  metrics_of_lem : (n : ℕ) → load_count (metrics_of n) ≡ ok (pos n)
  unfolding load_count int_of to_int get_or get?
  metrics_of_lem n = refl

  lost : ℕ → ℕ → Link → Link
  lost rc n link = record link {
    health = record link.health {
      mqtt_connected = false;
      last_error =
          some ("MQTT disconnected unexpectedly rc=" <> python.print_number (pos (suc rc)));
    };
    metrics = metrics_of (suc n);
  }

  lost_lem :
      (rc n : ℕ) (link : Link)
      → load_count link.metrics ≡ ok (pos n)
      → on_disconnect (suc rc) link ≡ (ok tt, lost rc n link)
  unfolding on_disconnect set_mqtt_connected set_last_error lost
  lost_lem rc n link h = rw (increment_lem link.metrics n h)

  lost-Shows :
      (rc n : ℕ) (link : Link) {now : Bool} {cache : PolicyCache}
      → Shows link now cache n
      → Shows (lost rc n link) false cache (suc n)
  unfolding lost
  lost-Shows rc n link h = record {
    shown = refl;
    learnt = h.learnt;
    counted = metrics_of_lem (suc n);
  }

  ended-Shows :
      (link : Link) {now : Bool} {cache : PolicyCache} {count : ℕ}
      → Shows link now cache count
      → Shows (record link { health = set_mqtt_connected false link.health }) false cache count
  unfolding set_mqtt_connected
  ended-Shows link h = record { shown = refl; learnt = h.learnt; counted = h.counted }

  counts :
      {link : Link} {now : Bool} {cache : PolicyCache} {m n : ℕ}
      → m ≡ n
      → Shows link now cache m
      → Shows link now cache n
  counts {link = link} {now = now} {cache = cache} e h = subst (Shows link now cache) e h

  -- After any events the service knows whether the broker is connected, the cache holds what all
  -- the messages said, in their order, and the metrics count the lost connections.
  pub react_all-Shows :
      (events : List Event) (link : Link) {now : Bool} {cache : PolicyCache} {count : ℕ}
      → Shows link now cache count
      → (after : Link) × (react_all clock client service events link ≡ (ok tt, after))
        × Shows after
            (last_connected events now)
            (ingest_all cache (messages events))
            (count + losses events)
  unfolding react_all react ingest_all on_disconnect set_mqtt_connected
  react_all-Shows [] link {count = n} h = (link, refl, counts (omega arith) h)
  react_all-Shows (connected env zero ∷ rest) link h =
      react_all-Shows rest _ (connect-Shows env link h)
  react_all-Shows (connected env (suc rc) ∷ rest) link h =
      react_all-Shows rest _ (refuse-Shows env rc link h)
  react_all-Shows (disconnected zero ∷ rest) link h =
      let (after, e, s) = react_all-Shows rest _ (ended-Shows link h) in (after, e, s)
  react_all-Shows (disconnected (suc rc) ∷ rest) link {count = n} h =
      let (after, e, s) = react_all-Shows rest _ (lost-Shows rc n link h) in
      (after, rw (lost_lem rc n link (h.counted)) e, counts (omega arith) s)
  react_all-Shows (delivered env topic text ∷ rest) link h =
      react_all-Shows rest _ (message-Shows env topic text link h)
  react_all-Shows (heartbeat ∷ rest) link h = react_all-Shows rest _ (health-Shows link h)
