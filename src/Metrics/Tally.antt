-- ===== src/Metrics/Tally.antt =====
-- The counts of the metrics, against the attempts that they count.
use synthia_mqtt.Prelude.{
  ℕ, suc, ◌+◌, ◌≡◌, is_some, refl, sym, ap, ap₂, ◌∙◌, String, Bool, true, Option, none, some, List,
  [], ◌∷◌, map, keep, any, length, ◌==◌, eq_iff, if◌then◌else◌, Dict, lookup, arith, ok, bind-ok,
  ok_injective,
}
use mathlib.Core.Path.{fun_ext, subst}
use synthia_mqtt.Config.Settings.{get_install_state}
use synthia_mqtt.Config.Session.{get_install_session_state}
use synthia_mqtt.Client.{load_count}
use synthia_mqtt.Prelude.Sorting.{
  IsSorted-map, sort_items, IsSorted, sort_by-IsSorted, lookup-sort_items,
}
use synthia_mqtt.Json.{Builtins, pos}
use synthia_mqtt.Traces.{success, denied, TraceRecord, TraceFile, list_recent}
use synthia_mqtt.Registrations.{Files}
use synthia_mqtt.Config.{JsonFile, Disk, Host}
use synthia_mqtt.Metrics.{
  AddonUsageSummary, MqttUsageMetricsResponse, Counts, no_counts, count_outcome, is_publish,
  has_outcome, counts_of, tally, usage_summary, metrics,
}
use synthia_mqtt.Metrics.Table.{
  concerns, expected, plus_first, counts_of-tally, some-tally, total, total-map, total-sort_by,
  total-tally,
}

-- The row of an addon.
abbrev pub row_of : String → List AddonUsageSummary → Option AddonUsageSummary
row_of addon_id [] = none
row_of addon_id (row ∷ rows) = if row.addon_id == addon_id then some row else row_of addon_id rows

row_of-map :
    (addon_id : String) (d : Dict Counts)
    → row_of addon_id (map usage_summary d) ≡ (
        if is_some (lookup addon_id d)
        then some (usage_summary (addon_id, counts_of addon_id d))
        else none)
unfolding lookup counts_of
row_of-map addon_id [] = refl
row_of-map addon_id ((k, c) ∷ d) = ground (arith, row_of-map addon_id d, eq_iff k addon_id)

counts_of-sort_items :
    (addon_id : String) (d : Dict Counts) → counts_of addon_id (sort_items d) ≡ counts_of addon_id d
unfolding counts_of
counts_of-sort_items addon_id d = rw (lookup-sort_items addon_id d, counts_of)

-- The counts of a response are those of the attempts.
pub record IsTally (ts : List TraceRecord) (r : MqttUsageMetricsResponse) : Type 0 where
  pub rows :
      (addon_id : String)
      → row_of addon_id r.per_addon_usage ≡ (
          if any (concerns addon_id) ts
          then some (usage_summary (addon_id, expected addon_id ts))
          else none)
  pub in_order : IsSorted (λ (row : AddonUsageSummary). row.addon_id) r.per_addon_usage
  pub successes :
      total (λ (row : AddonUsageSummary). row.publish_success) r.per_addon_usage ≡ r.publish_count
  pub denials :
      total (λ (row : AddonUsageSummary). row.publish_denied) r.per_addon_usage
      ≡ r.denied_publish_count
  pub attempts :
      total
        (λ (row : AddonUsageSummary). row.publish_success + row.publish_denied + row.publish_error)
        r.per_addon_usage
      ≡ length ts

total-usage :
    (field_of : Counts → ℕ) (f : AddonUsageSummary → ℕ) (d : Dict Counts)
    → ((e : String × Counts) → f (usage_summary e) ≡ field_of e.1)
    → total f (map usage_summary (sort_items d)) ≡ total (λ (e : String × Counts). field_of e.1) d
total-usage field_of f d same =
    total-map f usage_summary (sort_items d)
    ∙ total-sort_by (λ (e : String × Counts). e.0) (λ e. f (usage_summary e)) d
    ∙ ap (λ (g : String × Counts → ℕ). total g d) (fun_ext same)

counts_of-tally_all :
    (addon_id : String) (ts : List TraceRecord)
    → counts_of addon_id (tally [] ts) ≡ expected addon_id ts
unfolding counts_of lookup
counts_of-tally_all addon_id ts = counts_of-tally addon_id [] ts ∙ plus_first (expected addon_id ts)

some-tally_all :
    (addon_id : String) (ts : List TraceRecord)
    → is_some (lookup addon_id (tally [] ts)) ≡ any (concerns addon_id) ts
unfolding lookup
some-tally_all addon_id ts = some-tally addon_id [] ts

rows-IsTally :
    (ts : List TraceRecord) (addon_id : String)
    → row_of addon_id (map usage_summary (sort_items (tally [] ts))) ≡ (
        if any (concerns addon_id) ts
        then some (usage_summary (addon_id, expected addon_id ts))
        else none)
rows-IsTally ts addon_id =
    row_of-map addon_id (sort_items (tally [] ts))
    ∙ ap₂
        (λ (found : Bool) (c : Counts). if found then some (usage_summary (addon_id, c)) else none)
        (ap is_some (lookup-sort_items addon_id (tally [] ts)) ∙ some-tally_all addon_id ts)
        (counts_of-sort_items addon_id (tally [] ts) ∙ counts_of-tally_all addon_id ts)

keep_all : (ts : List TraceRecord) → length (keep (λ t. true) ts) ≡ length ts
keep_all [] = refl
keep_all (t ∷ ts) = ap suc (keep_all ts)

total-rows :
    (field_of : Counts → ℕ) (f : AddonUsageSummary → ℕ) (ts : List TraceRecord)
    (r : MqttUsageMetricsResponse)
    → r.per_addon_usage ≡ map usage_summary (sort_items (tally [] ts))
    → ((e : String × Counts) → f (usage_summary e) ≡ field_of e.1)
    → field_of no_counts ≡ 0
    → (p : TraceRecord → Bool)
    → ((t : TraceRecord) (c : Counts)
        → field_of (count_outcome t.outcome c) ≡ field_of c + (if p t then 1 else 0))
    → total f r.per_addon_usage ≡ length (keep p ts)
total-rows field_of f ts r rows same zero_there p counts_one =
    ap (total f) rows
    ∙ total-usage field_of f (tally [] ts) same
    ∙ total-tally field_of zero_there p counts_one [] ts
    ∙ omega arith

tally-IsTally :
    (ts : List TraceRecord) (r : MqttUsageMetricsResponse)
    → r.per_addon_usage ≡ map usage_summary (sort_items (tally [] ts))
    → r.publish_count ≡ length (keep (has_outcome success) ts)
    → r.denied_publish_count ≡ length (keep (has_outcome denied) ts)
    → IsTally ts r
tally-IsTally ts r rows successes denials = record {
  rows = λ addon_id. ap (row_of addon_id) rows ∙ rows-IsTally ts addon_id;
  in_order = subst (IsSorted (λ (row : AddonUsageSummary). row.addon_id)) (sym rows) (
      IsSorted-map (λ (row : AddonUsageSummary). row.addon_id) usage_summary
        (sort_items (tally [] ts)) (sort_by-IsSorted (λ (e : String × Counts). e.0) (tally [] ts)));
  successes =
      total-rows (λ c. c.success) (λ row. row.publish_success) ts r rows (λ e. refl) refl
        (has_outcome success) (λ t c. ground arith)
      ∙ sym successes;
  denials =
      total-rows (λ c. c.denied) (λ row. row.publish_denied) ts r rows (λ e. refl) refl
        (has_outcome denied) (λ t c. ground arith)
      ∙ sym denials;
  attempts =
      total-rows (λ c. c.success + c.denied + c.error)
        (λ row. row.publish_success + row.publish_denied + row.publish_error) ts r rows (λ e. refl)
        (omega arith) (λ t. true) (λ t c. ground arith)
      ∙ keep_all ts;
}

-- A response of the endpoint counts each recent attempt to publish once, for its addon.
pub metrics-IsTally :
    ⦃python : Builtins⦄ (host : Host) (max_entries : ℕ) (traces : TraceFile)
    (metrics_file : JsonFile) (registrations : Files) (disk : Disk) (r : MqttUsageMetricsResponse)
    → metrics host max_entries traces metrics_file registrations disk ≡ ok r
    → IsTally (keep is_publish (list_recent max_entries (pos 1000) traces)) r
unfolding metrics
metrics-IsTally ⦃python⦄ host max_entries traces metrics_file registrations disk r h =
    let ts = keep is_publish (list_recent max_entries (pos 1000) traces) in
    let (state, e1, h1) = bind-ok (get_install_session_state host disk) _ h in
    let (config, e2, h2) = bind-ok (get_install_state host disk) _ h1 in
    let (reconnects, e3, h3) = bind-ok (load_count metrics_file) _ h2 in
    let same = ok_injective h3 refl in
    tally-IsTally ts r (ap (λ x. x.per_addon_usage) same) (ap (λ x. x.publish_count) same)
      (ap (λ x. x.denied_publish_count) same)
