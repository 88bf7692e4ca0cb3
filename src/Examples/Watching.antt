-- ===== src/Examples/Watching.antt =====
-- The metrics, the topic explorer and the queue of usage events at concrete inputs.
use synthia_mqtt.Prelude.{
  String, ◌≡◌, refl, true, false, none, some, List, [], ◌∷◌, ◌==◌, arith, any, if◌then◌else◌, keep,
  insert, lookup, map, ◌++◌,
}
use synthia_mqtt.Prelude.Text.{strip, lstrip, rstrip, is_space, lower, has_infix, is_line_end}
use synthia_mqtt.Prelude.Sorting.{IsSorted, sort_by}
use synthia_mqtt.Json.{Builtins, obj, pos, end, Environment, get, truthy, or_else, get_or, to_bool}
use synthia_mqtt.Json.Objects.{is_text}
use synthia_mqtt.Traces.{
  Outcome, success, denied, TraceRecord, TraceFile, valid, entries, list_recent, bounded_limit,
  load_all,
}
use synthia_mqtt.Registrations.{list_registrations}
use synthia_mqtt.Telemetry.{
  Core, Line, Usage, usage_event, enabled, core_base_url, flush_once, enqueue, saturate,
}
use synthia_mqtt.Telemetry.Delivery.{Operation, usage, perform_all, events_of}
use synthia_mqtt.Telemetry.QueueFile.{Printer, usage_fields, persist_queue, load_queue}
use synthia_mqtt.Telemetry.Restart.{IsPrinted}
use synthia_mqtt.Telemetry.Stop.{stop-load_queue}
use synthia_mqtt.Config.{missing, int_of}
use synthia_mqtt.Config.Session.{get_install_session_state}
use synthia_mqtt.Client.{load_count}
use synthia_mqtt.Enrolment.Explorer.{TopicFamilySummary, explored_base, topic_explorer}
use synthia_mqtt.Enrolment.Families.{names, uses, topic_explorer-IsExact}
use synthia_mqtt.Metrics.{MqttUsageMetricsResponse, is_publish, metrics, addon_of_trace}
use synthia_mqtt.Metrics.Tally.{IsTally, metrics-IsTally}
use synthia_mqtt.Examples.{sample_python, sample_reporter, sample_files, no_files}
use synthia_mqtt.Examples.Setup.{sample_host, sample_disk}

abbrev attempt_of : String → Outcome → TraceRecord
attempt_of addon_id outcome = record {
  timestamp = 1;
  request = record {
    operation = "mqtt.publish";
    outcome = outcome;
    addon_id = some addon_id;
    caller_sub = some addon_id;
    topic = none;
    detail = none;
    message_id = none;
    correlation_id = none;
  };
}

abbrev attempts : TraceFile
attempts = entries (
    valid (attempt_of "weather" success)
    ∷ valid (attempt_of "lights" denied)
    ∷ valid (attempt_of "weather" success)
    ∷ [])

abbrev counted : MqttUsageMetricsResponse
counted = record {
  publish_count = 2;
  denied_publish_count = 1;
  reconnect_count = pos 0;
  active_registrations = 0;
  per_addon_usage =
      record { addon_id = "lights"; publish_success = 0; publish_denied = 1; publish_error = 0 }
      ∷ record { addon_id = "weather"; publish_success = 2; publish_denied = 0; publish_error = 0 }
      ∷ [];
  broker_mode_summary = record {
    mode = "external";
    direct_access_model = "gateway_only";
    direct_mqtt_supported = false;
  };
}

metrics-IsTally_example : IsTally (keep is_publish (list_recent 500 (pos 1000) attempts)) counted
unfolding metrics get_install_session_state get truthy int_of sample_python get_or load_count
    list_recent list_registrations sort_by or_else bounded_limit is_text load_all has_infix strip
    insert is_space addon_of_trace lookup
metrics-IsTally_example =
    metrics-IsTally sample_host 500 attempts missing no_files sample_disk counted refl

topic_explorer-IsExact_example :
    IsSorted
      (λ (entry : TopicFamilySummary). entry.family)
      (topic_explorer end sample_files).topic_families
    × ((family kind addon_id : String)
        → any (names family kind addon_id) (topic_explorer end sample_files).topic_families
          ≡ any (uses family kind addon_id (explored_base end)) (list_registrations sample_files))
topic_explorer-IsExact_example = topic_explorer-IsExact end sample_files

-- A printer.
abbrev braces : Printer
braces value = "{}"

-- The sample's environment with the address of the core.
abbrev open_env : Environment
open_env name = if name == "CORE_URL" then some "http://core" else none

abbrev two_calls : List Operation
two_calls = usage "t1" "weather" "mqtt.publish" 1 ∷ usage "t2" "lights" "mqtt.publish" 1 ∷ []

abbrev blank_line : Line
blank_line = record { posted = []; queue = []; locked = false }

-- A core that takes one event, and a `json` that prints and reads the one that is left.
abbrev busy_core : Core
busy_core [] event = true
busy_core (_ ∷ _) event = false

abbrev left_event : Usage
left_event = usage_event sample_reporter "t2" "lights" "mqtt.publish" 1

abbrev one_event : Builtins
one_event = record sample_python { loads = λ text. some (obj (usage_fields left_event)) }

abbrev flushed_line : Line
flushed_line =
    flush_once open_env busy_core (perform_all open_env sample_reporter two_calls blank_line)

stop-load_queue_example :
    (left : List Usage) × (load_queue ⦃python = one_event⦄ (pos 500) (some "{}\n")
      ≡ map usage_fields left)
    × (flushed_line.posted ++ left ≡ events_of sample_reporter two_calls)
unfolding is_line_end strip is_space enabled to_bool lower events_of
    synthia_mqtt.Telemetry.QueueFile.stop flush_once core_base_url perform_all enqueue
    synthia_mqtt.Prelude.Text.join
stop-load_queue_example =
    let printed : IsPrinted ⦃python = one_event⦄ braces (usage_fields left_event) = record {
      one_line = (refl, (refl, tt));
      solid = refl;
      filled = refl;
      read_back = refl;
    } in
    stop-load_queue ⦃python = one_event⦄ braces open_env sample_reporter 499 two_calls blank_line
      busy_core "{}\n" refl refl (omega arith) refl (printed, tt)
