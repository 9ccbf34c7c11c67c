-- ===== src/Pipeline.antt =====
-- analyzer/src/analyzer/main.py, `process_window`, `run_detection` and `run_suppression`.
-- Here what reader.py returns is an argument, and what is written and counted is a result; `recent` and
-- `topology` are the tables as they are read after the window's detections and edges were written.
-- Pipeline/Stored has the calls of the reader and of the writer between them.
pub mod Totality
pub mod Incidents
pub mod Stored
mod Samples
use distributed_tracing_plat.Prelude.{
  ℕ, ◌*◌, Bool, true, false, not, String, string_eq, pair_eq, Option, none, some, List, [], ◌∷◌,
  ◌++◌, map, length, filter, eqb, contains, insert_all, ◌>>=◌,
}
use distributed_tracing_plat.Prelude.Int.{ℤ}
use distributed_tracing_plat.Prelude.Floats.{Floats}
use distributed_tracing_plat.Reassembly.{SpanRow, ReassemblyResult, reassemble}
use distributed_tracing_plat.Aggregation.{
  ServiceStats, ServiceEdge, aggregate_services, aggregate_edges,
}
use distributed_tracing_plat.Targets.{kind_eq, TargetKey, target_eq, Baseline}
use distributed_tracing_plat.Detectors.{
  WindowStats, Detection, detect_percentile_deviation, detect_error_rate_change,
  detect_call_rate_drop,
}
use distributed_tracing_plat.Windowing.{DueWindow, second}
use distributed_tracing_plat.Clockskew.{
  ClockViolation, ServiceOffset, detect_violations, estimate_offsets,
}
use distributed_tracing_plat.Baselines.{scaled, service_target, edge_target, refresh_baselines}
use distributed_tracing_plat.Suppression.{
  Key, GroupedIncident, detection_key, incident_key, group_detections, suppress_propagated,
}

-- The fields of the configuration that the loop and the processing of a window read; the interval is in
-- nanoseconds.
pub record Config (F : Type 0) : Type 0 where
  pub window_seconds : ℕ
  pub root_service : String
  pub baseline_min_samples : ℕ
  pub percentile_deviation_threshold : F
  pub error_rate_min_sample_size : ℕ
  pub error_rate_threshold : F
  pub call_rate_threshold : F
  pub baseline_lookback_seconds : ℕ
  pub grouping_lookback_seconds : ℕ
  pub late_check_interval : ℕ

-- The results of `run_suppression`: the incidents written, the number of those open, and the number of
-- new detections suppressed.
pub record SuppressionResult (F : Type 0) : Type 0 where
  pub incidents : List (GroupedIncident F)
  pub open_count : ℕ
  pub suppressed_count : ℕ

-- The results of `process_window`.
pub record WindowOutput (F : Type 0) : Type 0 where
  pub result : ReassemblyResult
  pub edges : List ServiceEdge
  pub services : List ServiceStats
  pub violations : List ClockViolation
  pub offsets : List (String × ServiceOffset)
  pub detections : List (Detection F)
  pub suppression : SuppressionResult F

module _ {F : Type 0} ⦃f : Floats F⦄ where
  -- A percentile, in hundredths of a nanosecond, in milliseconds.
  abbrev pub milliseconds : ℤ → F
  milliseconds n = scaled n 100_000_000

  pub service_entry : ServiceStats → TargetKey × WindowStats F
  service_entry s = (
    service_target s.service_name,
    record {
      target = service_target s.service_name;
      call_count = s.call_count;
      error_count = s.error_count;
      latency_p50_ms = milliseconds s.latency_p50;
      latency_p95_ms = milliseconds s.latency_p95;
      latency_p99_ms = milliseconds s.latency_p99;
    },
  )

  pub edge_entry_of : ServiceEdge → TargetKey × WindowStats F
  edge_entry_of e = (
    edge_target (e.caller_service, e.callee_service),
    record {
      target = edge_target (e.caller_service, e.callee_service);
      call_count = e.call_count;
      error_count = e.error_count;
      latency_p50_ms = milliseconds e.latency_p50;
      latency_p95_ms = milliseconds e.latency_p95;
      latency_p99_ms = milliseconds e.latency_p99;
    },
  )

  -- `current_service_stats` and `current_edge_stats`
  pub current_service_stats : List ServiceStats → List (TargetKey × WindowStats F)
  current_service_stats services = insert_all [] (map service_entry services)

  pub current_edge_stats : List ServiceEdge → List (TargetKey × WindowStats F)
  current_edge_stats edges = insert_all [] (map edge_entry_of edges)

  -- The body of the loop over the two kinds of targets.
  pub run_detectors :
      Config F
      → ℕ
      → List (TargetKey × WindowStats F)
      → List (TargetKey × Baseline F)
      → Option (List (Detection F))
  run_detectors cfg window_start current baselines = do
    slow ←
        detect_percentile_deviation current baselines window_start
          cfg.percentile_deviation_threshold
    failing ←
        detect_error_rate_change current baselines window_start cfg.error_rate_min_sample_size
          cfg.error_rate_threshold
    fewer ← detect_call_rate_drop current baselines window_start cfg.call_rate_threshold
    some (slow ++ (failing ++ fewer))

  -- `cold`
  pub cold_count : List (TargetKey × Baseline F) → ℕ
  cold_count baselines = length (filter (λ e. not e.1.ready) baselines)

  -- `run_detection`, for the rows and the histories of the lookback.
  pub run_detection :
      Config F
      → ℕ
      → List SpanRow
      → (String → List ℕ)
      → (String × String → List ℕ)
      → List ServiceStats
      → List ServiceEdge
      → Option (List (Detection F))
  run_detection cfg window_start lookback_rows service_history edge_history services edges = do
    let baselines =
        refresh_baselines lookback_rows service_history edge_history cfg.baseline_min_samples
    of_services ← run_detectors cfg window_start (current_service_stats services) baselines.0
    of_edges ← run_detectors cfg window_start (current_edge_stats edges) baselines.1
    some (of_services ++ of_edges)

  abbrev pub derived_keys : List (GroupedIncident F) → List Key
  derived_keys incidents = map incident_key (filter (λ i. i.derived) incidents)

  -- `run_suppression`, for the detections of the lookback and the edges of the topology.
  pub run_suppression :
      ℕ → ℕ → List (Detection F) → List (String × String) → List (Detection F) → SuppressionResult F
  run_suppression window_start window_length recent edges new_detections =
      let incidents = suppress_propagated (group_detections recent window_length) edges in
      record {
        incidents = incidents;
        open_count = length (filter (λ i. eqb i.end_window window_start) incidents);
        suppressed_count =
            length
              (filter (λ d. contains (derived_keys incidents) (detection_key d)) new_detections);
      }

  -- `process_window`; the window's rows and those of the lookback are the two lists of spans.
  pub process_window :
      Config F
      → DueWindow
      → List SpanRow
      → List SpanRow
      → (String → List ℕ)
      → (String × String → List ℕ)
      → (List (Detection F) → List (Detection F))
      → (List ServiceEdge → List (String × String))
      → Option (WindowOutput F)
  process_window cfg window rows lookback_rows service_history edge_history recent topology = do
    let edges = aggregate_edges rows window.start
    let services = aggregate_services rows window.start
    detections ←
        run_detection cfg window.start lookback_rows service_history edge_history services edges
    some record {
      result = reassemble rows window.start;
      edges = edges;
      services = services;
      violations = detect_violations rows;
      offsets = estimate_offsets rows cfg.root_service;
      detections = detections;
      suppression =
          run_suppression window.start (cfg.window_seconds * second) (recent detections)
            (topology edges) detections;
    }
