-- ===== src/Telemetry/QueueFile.antt =====
-- The file of the queue, `runtime/telemetry_queue.jsonl` (`_persist_queue` and `_load_queue` of
-- app/services/telemetry_reporter.py): one event on a line.
use synthia_mqtt.Prelude.{String, ◌<>◌, Option, none, some, List, [], ◌∷◌, map, ◌==◌, if◌then◌else◌}
use synthia_mqtt.Prelude.Text.{strip, join, split_lines}
use synthia_mqtt.Json.{ℤ, pos, Json, int, str, obj, Fields, end, field, Builtins, Environment}
use synthia_mqtt.Telemetry.{Usage, saturate, Core, Line, flush_once}

-- An event as the dictionary of `enqueue_usage`.
unfoldable pub usage_fields : Usage → Fields
usage_fields event = field "addon_id" (str event.addon_id) (
    field "service" (str event.service) (
      field "tokens_used" (int (pos event.tokens_used)) (
        field "cost_estimate" (int (pos 0)) (
          field "timestamp" (str event.timestamp) (
            field "consumer_addon_id" (str event.consumer_addon_id)
              (field "service_name" (str event.service_name) end))))))

-- The printer of the queue: `json.dumps(item, separators=(",", ":"))`.
abbrev pub Printer : Type 0
Printer = Json → String

-- What `_persist_queue` writes.
unfoldable pub persist_queue : Printer → List Fields → String
persist_queue compact queue =
    let lines = map (λ (item : Fields). compact (obj item)) queue in
    join "\n" lines <> elim lines [ [] ↦ "" | _ ∷ _ ↦ "\n" ]

-- `stop` after the thread has ended, with what the core answers in its flush: the file that it
-- leaves. It waits forever, `none`, where the flush keeps the lock or finds it kept.
unfoldable pub stop : Printer → Environment → Core → Line → Option String
unfolding persist_queue
stop compact env core line =
    let flushed = flush_once env core line in
    if flushed.locked then none else some (persist_queue compact (map usage_fields flushed.queue))

-- The last events that were read; none, if there was an exception.
unfoldable pub loaded : ℤ → Option (List Fields) → List Fields
unfolding saturate
loaded max_queue none = []
loaded max_queue (some items) = saturate max_queue items

module _ ⦃python : Builtins⦄ where
  -- The loop of `_load_queue`; `none` is an exception of `json.loads`.
  unfoldable pub load_items : List String → Option (List Fields)
  load_items [] = some []
  load_items (line ∷ rest) =
      let more = load_items rest in
      if strip line == "" then more else elim (python.loads (strip line)) [
        | none ↦ none
        | some (obj item) ↦ elim more [ none ↦ none | some items ↦ some (item ∷ items) ]
        | some _ ↦ more
      ]

  -- The queue that a new reporter starts with; the file may be missing.
  unfoldable pub load_queue : ℤ → Option String → List Fields
  unfolding load_items loaded
  load_queue max_queue none = []
  load_queue max_queue (some text) = loaded max_queue (load_items (split_lines text))
