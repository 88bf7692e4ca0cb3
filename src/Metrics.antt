-- ===== src/Metrics.antt =====
-- The endpoint `metrics` of app/api/mqtt_publish.py (models of app/models/metrics_models.py): what
-- the recent attempts to publish came to, in all and for each addon.
pub mod Table
pub mod Tally
use synthia_mqtt.Prelude.{
  ℕ, suc, String, Bool, true, false, ◌&&◌, ◌||◌, Option, none, some, List, [], ◌∷◌, map, keep,
  length, ◌==◌, if◌then◌else◌, Dict, lookup, insert, Result, ok, ◌>>=◌,
}
use synthia_mqtt.Prelude.Text.{strip, has_infix}
use synthia_mqtt.Prelude.Sorting.{sort_items}
use synthia_mqtt.Json.{ℤ, pos, str, Builtins, get_or, or_else, to_text, trimmed}
use synthia_mqtt.Health.{is_given}
use synthia_mqtt.Traces.{Outcome, success, denied, error, TraceRecord, TraceFile, list_recent}
use synthia_mqtt.Registrations.{Files, list_registrations}
use synthia_mqtt.Config.{Exception, JsonFile, Disk, Host}
use synthia_mqtt.Config.Settings.{get_install_state}
use synthia_mqtt.Config.Session.{get_install_session_state}
use synthia_mqtt.Client.{load_count}

pub record AddonUsageSummary : Type 0 where
  pub addon_id : String
  pub publish_success : ℕ
  pub publish_denied : ℕ
  pub publish_error : ℕ

pub record BrokerModeSummary : Type 0 where
  pub mode : String
  pub direct_access_model : String
  pub direct_mqtt_supported : Bool

pub record MqttUsageMetricsResponse : Type 0 where
  pub publish_count : ℕ
  pub denied_publish_count : ℕ
  pub reconnect_count : ℤ
  pub active_registrations : ℕ
  pub per_addon_usage : List AddonUsageSummary
  pub broker_mode_summary : BrokerModeSummary

-- `{"success": 0, "denied": 0, "error": 0}`, as it is counted up.
pub record Counts : Type 0 where
  pub success : ℕ
  pub denied : ℕ
  pub error : ℕ

abbrev pub no_counts : Counts
no_counts = record { success = 0; denied = 0; error = 0 }

abbrev pub count_outcome : Outcome → Counts → Counts
count_outcome success c = record c { success = suc c.success }
count_outcome denied c = record c { denied = suc c.denied }
count_outcome error c = record c { error = suc c.error }

-- `"publish" in trace.operation`
abbrev pub is_publish : TraceRecord → Bool
is_publish t = has_infix t.operation "publish"

abbrev pub has_outcome : Outcome → TraceRecord → Bool
has_outcome wanted t = elim wanted [
  | success ↦ elim t.outcome [ success ↦ true | _ ↦ false ]
  | denied ↦ elim t.outcome [ denied ↦ true | _ ↦ false ]
  | error ↦ elim t.outcome [ error ↦ true | _ ↦ false ]
]

-- `a or b` for two texts that may be missing, and a default.
text_or : Option String → Option String → String
unfolding is_given
text_or first second =
    if is_given first
    then elim first [ none ↦ "unknown" | some s ↦ s ]
    else if is_given second
    then elim second [ none ↦ "unknown" | some s ↦ s ]
    else "unknown"

-- The addon that an attempt counts for.
unfoldable pub addon_of_trace : TraceRecord → String
unfolding text_or
addon_of_trace t =
    let given = strip (text_or t.addon_id t.caller_sub) in if given == "" then "unknown" else given

unfoldable pub counts_of : String → Dict Counts → Counts
counts_of addon_id per_addon = elim (lookup addon_id per_addon) [ none ↦ no_counts | some c ↦ c ]

-- The body of the loop that fills `per_addon`, and the loop.
unfoldable pub count_trace : TraceRecord → Dict Counts → Dict Counts
unfolding counts_of
count_trace t per_addon =
    let addon_id = addon_of_trace t in
    insert addon_id (count_outcome t.outcome (counts_of addon_id per_addon)) per_addon

unfoldable pub tally : Dict Counts → List TraceRecord → Dict Counts
unfolding count_trace
tally per_addon [] = per_addon
tally per_addon (t ∷ rest) = tally (count_trace t per_addon) rest

abbrev pub usage_summary : String × Counts → AddonUsageSummary
usage_summary (addon_id, counts) = record {
  addon_id = addon_id;
  publish_success = counts.success;
  publish_denied = counts.denied;
  publish_error = counts.error;
}

unfoldable pub mode_summary : String → String → BrokerModeSummary
mode_summary mode direct_access_model = record {
  mode = mode;
  direct_access_model = if mode == "external" then direct_access_model else "embedded_managed";
  direct_mqtt_supported =
      mode == "embedded" || (mode == "external" && direct_access_model == "manual_direct_access");
}

module _ ⦃python : Builtins⦄ where
  -- The endpoint, with the capacity of the log and the file of `MqttMetricsStore`.
  unfoldable pub metrics :
      Host → ℕ → TraceFile → JsonFile → Files → Disk → Result Exception MqttUsageMetricsResponse
  unfolding tally mode_summary
  metrics host max_entries traces metrics_file registrations disk =
      let publish_traces = keep is_publish (list_recent max_entries (pos 1000) traces) in
      do
        install_state ← get_install_session_state host disk
        config ← get_install_state host disk
        let given = trimmed (get_or "external_direct_access_mode" (str "gateway_only") config)
        let direct_access_model = if given == "" then "gateway_only" else given
        let mode = to_text (or_else install_state.mode (str "external"))
        reconnects ← load_count metrics_file
        ok (record {
          publish_count = length (keep (has_outcome success) publish_traces);
          denied_publish_count = length (keep (has_outcome denied) publish_traces);
          reconnect_count = reconnects;
          active_registrations = length (list_registrations registrations);
          per_addon_usage = map usage_summary (sort_items (tally [] publish_traces));
          broker_mode_summary = mode_summary mode direct_access_model;
        })
