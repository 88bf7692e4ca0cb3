-- ===== src/Telemetry.antt =====
-- app/services/telemetry_reporter.py: the bounded queue of usage events that waits for the core.
pub mod Delivery
pub mod QueueFile
pub mod Restart
pub mod Stop
use synthia_mqtt.Prelude.{
  ℕ, zero, suc, String, Bool, true, false, not, List, [], ◌∷◌, ◌++◌, drop, ◌==◌, if◌then◌else◌,
}
use synthia_mqtt.Prelude.Text.{strip}
use synthia_mqtt.Json.{ℤ, pos, negsuc, Environment, getenv, to_bool}
use synthia_mqtt.Traces.{newest}

-- An event; its `cost_estimate` is always 0.
pub record Usage : Type 0 where
  pub addon_id : String
  pub service : String
  pub tokens_used : ℕ
  pub timestamp : String
  pub consumer_addon_id : String
  pub service_name : String

-- The settings of a reporter; `max_queue` is `int(SYNTHIA_TELEMETRY_MAX_QUEUE)`.
pub record Reporter : Type 0 where
  pub addon_id : String
  pub service_name : String
  pub max_queue : ℤ

unfoldable pub enabled : Environment → Bool
enabled env = to_bool (getenv env "SYNTHIA_TELEMETRY_ENABLED" "true")

-- `queue[-max_queue:]` if the queue is longer than that. The slice from -0 is the whole queue,
-- and a negative setting cuts its first events.
unfoldable pub saturate : {A : Type 0} → ℤ → List A → List A
unfolding newest
saturate (pos zero) queue = queue
saturate (pos (suc n)) queue = newest (suc n) queue
saturate (negsuc n) queue = drop (suc n) queue

unfoldable pub usage_event : Reporter → String → String → String → ℕ → Usage
usage_event reporter timestamp consumer_addon_id operation count = record {
  addon_id = reporter.addon_id;
  service = operation;
  tokens_used = count;
  timestamp = timestamp;
  consumer_addon_id = consumer_addon_id;
  service_name = reporter.service_name;
}

unfoldable pub enqueue_usage :
    Environment → Reporter → String → String → String → ℕ → List Usage → List Usage
unfolding saturate
enqueue_usage env reporter timestamp consumer_addon_id operation count queue =
    if not (enabled env)
    then queue
    else saturate reporter.max_queue
        (queue ++ (usage_event reporter timestamp consumer_addon_id operation count ∷ []))

-- `_core_base_url`
unfoldable pub core_base_url : Environment → String
core_base_url env =
    let base = strip (getenv env "CORE_BASE_URL" "") in
    if base == "" then strip (getenv env "CORE_URL" "") else base

-- What the core answers to an event, given those that it has taken so far (`_post_json`).
abbrev pub Core : Type 0
Core = List Usage → Usage → Bool

-- The events that were posted, the queue, and whether a call holds the lock forever.
pub record Line : Type 0 where
  pub posted : List Usage
  pub queue : List Usage
  pub locked : Bool

-- The loop of `_flush_once`. With an empty queue the call of `_persist_queue` waits for the lock
-- that the loop holds itself, since a `threading.Lock` is not reentrant.
unfoldable pub post_all : Core → List Usage → List Usage → Line
post_all core posted [] = record { posted = posted; queue = []; locked = true }
post_all core posted (event ∷ rest) =
    let more = post_all core (posted ++ (event ∷ [])) rest in
    if core posted event
    then more
    else record { posted = posted; queue = event ∷ rest; locked = false }

unfoldable pub flush_once : Environment → Core → Line → Line
unfolding post_all
flush_once env core line =
    if not (enabled env)
    then line
    else if core_base_url env == ""
    then line
    else if line.locked
    then line
    else post_all core line.posted line.queue

-- `enqueue_usage` on the whole state: it waits for the lock.
unfoldable pub enqueue : Environment → Reporter → String → String → String → ℕ → Line → Line
unfolding enqueue_usage
enqueue env reporter timestamp consumer_addon_id operation count line =
    if line.locked then line else record line {
      queue = enqueue_usage env reporter timestamp consumer_addon_id operation count line.queue;
    }
