-- ===== src/Pipeline/Stored.antt =====
-- main.py with the calls of reader.py and writer.py in their order: each function takes the state of the
-- client and returns it. None is an exception, which ends the loop. A start of a lookback before the epoch
-- is the epoch; no stored time is earlier.
pub mod Keeps
pub mod Labels
pub mod Total
pub mod Loop
use distributed_tracing_plat.Prelude.{
  ℕ, ◌+◌, ◌-◌, ◌*◌, Bool, ◌&&◌, String, Option, none, some, List, [], ◌∷◌, ◌++◌, map, length, leb,
  vals, if◌then◌else◌, ◌>>=◌,
}
use distributed_tracing_plat.Prelude.Floats.{Floats}
use distributed_tracing_plat.Reassembly.{SpanRow, ReassemblyResult, reassemble}
use distributed_tracing_plat.Aggregation.{
  ServiceStats, ServiceEdge, aggregate_services, aggregate_edges,
}
use distributed_tracing_plat.Targets.{TargetKey, Baseline}
use distributed_tracing_plat.Detectors.{Detection}
use distributed_tracing_plat.Windowing.{
  DueWindow, WindowTracker, second, due_windows, mark_all, late_check_boundary,
}
use distributed_tracing_plat.Clockskew.{detect_violations, estimate_offsets}
use distributed_tracing_plat.Baselines.{refresh_baselines}
use distributed_tracing_plat.Storage.{Client}
use distributed_tracing_plat.Reader.{
  fetch_window, fetch_lookback_spans, fetch_service_call_count_history,
  fetch_edge_call_count_history, fetch_recent_detections, fetch_topology_edges, fetch_late_spans,
}
use distributed_tracing_plat.Writer.{
  write_result, write_service_edges, write_service_stats, write_clock_offsets,
  write_service_baselines, write_edge_baselines, write_detections, write_detected_incidents,
}
use distributed_tracing_plat.Pipeline.{
  Config, SuppressionResult, WindowOutput, run_detectors, current_service_stats, current_edge_stats,
  run_suppression,
}

module _ {F : Type 0} ⦃f : Floats F⦄ (c : Client F) where
  -- The call of `refresh_baselines`, with the reads that it makes.
  pub read_baselines :
      Config F
      → DueWindow
      → c.State
      → Option (List (TargetKey × Baseline F) × List (TargetKey × Baseline F))
  read_baselines cfg window s = do
    let low = window.start - cfg.baseline_lookback_seconds * second
    rows ← fetch_lookback_spans c s low window.start
    some (
        refresh_baselines rows (λ name. fetch_service_call_count_history c s name low window.start)
          (λ (e : String × String). fetch_edge_call_count_history c s e.0 e.1 low window.start)
          cfg.baseline_min_samples)

  -- `run_detection`
  pub detect_stored :
      Config F
      → DueWindow
      → List ServiceStats
      → List ServiceEdge
      → c.State
      → Option (List (Detection F) × c.State)
  detect_stored cfg window services edges s = do
    baselines ← read_baselines cfg window s
    of_services ← run_detectors cfg window.start (current_service_stats services) baselines.0
    of_edges ← run_detectors cfg window.start (current_edge_stats edges) baselines.1
    some (
      of_services ++ of_edges,
      write_detections c (of_services ++ of_edges) (
          write_edge_baselines c window.start (vals baselines.1)
            (write_service_baselines c window.start (vals baselines.0) s)),
    )

  -- `run_suppression`
  pub suppress_stored :
      Config F → DueWindow → List (Detection F) → c.State → Option (SuppressionResult F × c.State)
  suppress_stored cfg window new_detections s = do
    recent ←
        fetch_recent_detections c s (window.start - cfg.grouping_lookback_seconds * second)
          window.end
    let result =
        run_suppression window.start (cfg.window_seconds * second) recent (fetch_topology_edges c s)
          new_detections
    some (result, write_detected_incidents c result.incidents s)

  -- The writes of `process_window` before the detection.
  pub write_rows : DueWindow → String → List SpanRow → c.State → c.State
  write_rows window root_service rows s =
      write_clock_offsets c window.start (estimate_offsets rows root_service) (
        write_service_stats c (aggregate_services rows window.start) (
          write_service_edges c (aggregate_edges rows window.start)
            (write_result c (reassemble rows window.start) s)))

  -- `process_window`
  pub process_stored : Config F → DueWindow → c.State → Option (WindowOutput F × c.State)
  process_stored cfg window s = do
    rows ← fetch_window c s window.start window.end
    let edges = aggregate_edges rows window.start
    let services = aggregate_services rows window.start
    found ← detect_stored cfg window services edges (write_rows window cfg.root_service rows s)
    suppressed ← suppress_stored cfg window found.0 found.1
    some (
      record {
        result = reassemble rows window.start;
        edges = edges;
        services = services;
        violations = detect_violations rows;
        offsets = estimate_offsets rows cfg.root_service;
        detections = found.0;
        suppression = suppressed.0;
      },
      suppressed.1,
    )

  -- `check_late_spans`: by how much `late_spans_total` grows.
  pub check_late_spans : ℕ → ℕ → c.State → Option ℕ
  check_late_spans boundary since s = do
    late ← fetch_late_spans c s boundary since
    some (length late)

  -- `for due_window in tracker.due_windows(now)`
  pub process_all : Config F → List DueWindow → c.State → Option c.State
  process_all cfg [] s = some s
  process_all cfg (window ∷ windows) s = do
    done ← process_stored cfg window s
    process_all cfg windows done.1

-- The variables of `run` and the state of the client.
pub record LoopState (S : Type 0) : Type 0 where
  pub tracker : WindowTracker
  pub last_late_check : ℕ
  pub last_late_check_monotonic : ℕ
  pub db : S

-- The readings of the clocks in one round: `now`, the monotonic clock, and both clocks after a late check.
pub record Readings : Type 0 where
  pub now : ℕ
  pub monotonic : ℕ
  pub checked_at : ℕ
  pub checked_monotonic : ℕ

module _ {F : Type 0} ⦃f : Floats F⦄ (c : Client F) where
  -- The late check of a round: none for the boundary is the code's None.
  pub late_check : Config F → Readings → Option ℕ → LoopState c.State → Option (LoopState c.State)
  late_check cfg clock none st = some st
  late_check cfg clock (some boundary) st =
      if leb cfg.late_check_interval (clock.monotonic - st.last_late_check_monotonic)
      then (do
        late ← check_late_spans c boundary st.last_late_check st.db
        some record st {
          last_late_check = clock.checked_at;
          last_late_check_monotonic = clock.checked_monotonic;
        })
      else some st

  -- The body of the loop of `run`.
  pub round : Config F → LoopState c.State → Readings → Option (LoopState c.State)
  round cfg st clock = do
    let asked = due_windows st.tracker clock.now
    s ← process_all c cfg asked.1 st.db
    let tracker = mark_all asked.0 asked.1
    late_check cfg clock (late_check_boundary tracker) record st { tracker = tracker; db = s }

  -- `run`, until it is stopped.
  pub run : Config F → LoopState c.State → List Readings → Option (LoopState c.State)
  run cfg st [] = some st
  run cfg st (clock ∷ clocks) = do st' ← round cfg st clock; run cfg st' clocks
