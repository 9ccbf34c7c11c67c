-- ===== src/Writer.antt =====
-- analyzer/src/analyzer/writer.py: each result of the analyzer as rows of its table. A write takes the
-- state of the client and returns it; a write of nothing makes no call.
pub mod Written
mod Samples
use distributed_tracing_plat.Prelude.{
  ℕ, ◌+◌, ◌*◌, ◌/◌, ◌%◌, Bool, true, false, String, List, [], ◌∷◌, map, vals, ltb, if◌then◌else◌,
}
use distributed_tracing_plat.Prelude.Floats.{Floats}
use distributed_tracing_plat.Reassembly.{TraceSummary, SpanClassification, ReassemblyResult}
use distributed_tracing_plat.Aggregation.{ServiceStats, ServiceEdge}
use distributed_tracing_plat.Clockskew.{ServiceOffset}
use distributed_tracing_plat.Targets.{Baseline, label}
use distributed_tracing_plat.Detectors.{Detection}
use distributed_tracing_plat.Suppression.{GroupedIncident}
use distributed_tracing_plat.Baselines.{scaled}
use distributed_tracing_plat.Storage.{
  SummaryRow, ClassificationRow, EdgeRow, OffsetRow, StatsRow, ServiceBaselineRow, EdgeBaselineRow,
  DetectionRow, IncidentRow, Insert, Client, trace_summaries, span_classifications, service_edges,
  service_clock_offsets, service_stats, service_baselines, edge_baselines, detections,
  detected_incidents,
}

-- `_to_datetime`: a datetime counts microseconds, and the nearest one is taken, of two the even one.
unfoldable pub to_datetime : ℕ → ℕ
to_datetime ns =
    let q = ns / 1_000 in
    let r = ns % 1_000 in 1_000 * (if ltb r 500 then q else if ltb 500 r then q + 1 else q + q % 2)

-- `1 if b else 0`
abbrev pub flag : Bool → ℕ
flag b = if b then 1 else 0

unfoldable pub summary_row : TraceSummary → SummaryRow
summary_row s = record {
  trace_id = s.trace_id;
  window_start = to_datetime s.window_start;
  depth = s.depth;
  span_count = s.span_count;
  root_service = s.root_service;
  complete = flag s.complete;
  incompleteness_reason = s.incompleteness_reason;
  orphan_count = s.orphan_count;
}

unfoldable pub classification_row : SpanClassification → ClassificationRow
classification_row c = record {
  trace_id = c.trace_id;
  span_id = c.span_id;
  window_start = to_datetime c.window_start;
  classification = c.classification;
}

pub offset_row : ℕ → ServiceOffset → OffsetRow
offset_row window_start o = record {
  window_start = to_datetime window_start;
  service_name = o.service_name;
  offset_ns = o.offset_ns;
  confidence = o.confidence;
}

module _ {F : Type 0} where
  pub service_baseline_row : ℕ → Baseline F → ServiceBaselineRow F
  service_baseline_row as_of b = record {
    as_of = to_datetime as_of;
    service_name = b.target.callee;
    call_count_observed = b.call_count_observed;
    latency_median_ms = b.latency_median_ms;
    latency_mad_ms = b.latency_mad_ms;
    error_rate = b.error_rate;
    call_rate_median = b.call_rate_median;
    call_rate_mad = b.call_rate_mad;
    ready = flag b.ready;
  }

  pub edge_baseline_row : ℕ → Baseline F → EdgeBaselineRow F
  edge_baseline_row as_of b = record {
    as_of = to_datetime as_of;
    caller_service = b.target.caller;
    callee_service = b.target.callee;
    call_count_observed = b.call_count_observed;
    latency_median_ms = b.latency_median_ms;
    latency_mad_ms = b.latency_mad_ms;
    error_rate = b.error_rate;
    call_rate_median = b.call_rate_median;
    call_rate_mad = b.call_rate_mad;
    ready = flag b.ready;
  }

  unfoldable pub detection_row : Detection F → DetectionRow F
  detection_row d = record {
    window_start = to_datetime d.window_start;
    target_type = d.target.kind;
    target = label d.target;
    detector = d.detector;
    severity = d.severity;
    observed_value = d.observed_value;
    baseline_value = d.baseline_value;
    deviation = d.deviation;
  }

  pub incident_row : GroupedIncident F → IncidentRow F
  incident_row i = record {
    incident_id = i.incident_id;
    target_type = i.target.kind;
    target = label i.target;
    detector = i.detector;
    start_window = to_datetime i.start_window;
    end_window = to_datetime i.end_window;
    window_count = i.window_count;
    peak_severity = i.peak_severity;
    peak_deviation = i.peak_deviation;
    derived = flag i.derived;
    root_cause_incident_id = i.root_cause_incident_id;
  }

-- The exact percentiles become milliseconds.
module _ {F : Type 0} ⦃f : Floats F⦄ where
  pub stats_row : ServiceStats → StatsRow F
  stats_row s = record {
    window_start = to_datetime s.window_start;
    service_name = s.service_name;
    call_count = s.call_count;
    error_count = s.error_count;
    latency_p50_ms = scaled s.latency_p50 100_000_000;
    latency_p95_ms = scaled s.latency_p95 100_000_000;
    latency_p99_ms = scaled s.latency_p99 100_000_000;
  }

  unfoldable pub edge_row : ServiceEdge → EdgeRow F
  edge_row e = record {
    window_start = to_datetime e.window_start;
    caller_service = e.caller_service;
    callee_service = e.callee_service;
    call_count = e.call_count;
    error_count = e.error_count;
    latency_p50_ms = scaled e.latency_p50 100_000_000;
    latency_p95_ms = scaled e.latency_p95 100_000_000;
    latency_p99_ms = scaled e.latency_p99 100_000_000;
  }

module _ {F : Type 0} (c : Client F) where
  -- `if not rows: return`, and then the insert.
  unfoldable pub insert_rows : {R : Type 0} → (List R → Insert F) → List R → c.State → c.State
  insert_rows table [] s = s
  insert_rows table (r ∷ rs) s = c.insert (table (r ∷ rs)) s

  unfoldable pub write_result : ReassemblyResult → c.State → c.State
  write_result result s =
      insert_rows span_classifications (map classification_row result.classifications)
        (insert_rows trace_summaries (map summary_row result.summaries) s)

  unfoldable pub write_clock_offsets : ℕ → List (String × ServiceOffset) → c.State → c.State
  write_clock_offsets window_start offsets =
      insert_rows service_clock_offsets (map (offset_row window_start) (vals offsets))

  unfoldable pub write_service_baselines : ℕ → List (Baseline F) → c.State → c.State
  write_service_baselines as_of baselines =
      insert_rows service_baselines (map (service_baseline_row as_of) baselines)

  unfoldable pub write_edge_baselines : ℕ → List (Baseline F) → c.State → c.State
  write_edge_baselines as_of baselines =
      insert_rows edge_baselines (map (edge_baseline_row as_of) baselines)

  unfoldable pub write_detections : List (Detection F) → c.State → c.State
  write_detections found = insert_rows detections (map detection_row found)

  unfoldable pub write_detected_incidents : List (GroupedIncident F) → c.State → c.State
  write_detected_incidents incidents = insert_rows detected_incidents (map incident_row incidents)

module _ {F : Type 0} ⦃f : Floats F⦄ (c : Client F) where
  unfoldable pub write_service_edges : List ServiceEdge → c.State → c.State
  write_service_edges edges = insert_rows c service_edges (map edge_row edges)

  unfoldable pub write_service_stats : List ServiceStats → c.State → c.State
  write_service_stats stats = insert_rows c service_stats (map stats_row stats)
