-- ===== src/Pipeline/Totality.antt =====
-- main.py, `process_window`: processing a window raises nothing.
use distributed_tracing_plat.Prelude.{ℕ, ◌≤◌, refl, String, List}
use distributed_tracing_plat.Prelude.Floats.{Floats, Lawful}
use distributed_tracing_plat.Windowing.{DueWindow}
use distributed_tracing_plat.Reassembly.{SpanRow}
use distributed_tracing_plat.Aggregation.{ServiceStats, ServiceEdge}
use distributed_tracing_plat.Targets.{TargetKey, Baseline}
use distributed_tracing_plat.Detectors.{WindowStats, Detection}
use distributed_tracing_plat.Detectors.Loops.{Returns, Returns->>=}
use distributed_tracing_plat.Detectors.Safety.{
  detect_percentile_deviation-Returns, detect_error_rate_change-Returns,
  detect_call_rate_drop-Returns,
}
use distributed_tracing_plat.Baselines.Lookback.{Called, refresh_baselines-Called}
use distributed_tracing_plat.Pipeline.{Config, run_detectors, run_detection, process_window}

module _ {F : Type 0} ⦃f : Floats F⦄ (laws : Lawful f) where
  pub run_detectors-Returns :
      (cfg : Config F) (window_start : ℕ) (current : List (TargetKey × WindowStats F))
      (baselines : List (TargetKey × Baseline F))
      → 1 ≤ cfg.error_rate_min_sample_size
      → Called baselines
      → Returns (run_detectors cfg window_start current baselines)
  unfolding run_detectors
  run_detectors-Returns cfg window_start current baselines h called =
      Returns->>= _ _
        (detect_percentile_deviation-Returns laws current baselines window_start
          cfg.percentile_deviation_threshold)
        (λ slow.
          Returns->>= _ _
            (detect_error_rate_change-Returns laws current baselines window_start
              cfg.error_rate_min_sample_size cfg.error_rate_threshold h called)
            (λ failing.
              Returns->>= _ _
                (detect_call_rate_drop-Returns laws current baselines window_start
                  cfg.call_rate_threshold)
                (λ fewer. (_, refl))))

  run_detection-Returns :
      (cfg : Config F) (window_start : ℕ) (lookback_rows : List SpanRow)
      (service_history : String → List ℕ) (edge_history : String × String → List ℕ)
      (services : List ServiceStats) (edges : List ServiceEdge)
      → 1 ≤ cfg.baseline_min_samples
      → 1 ≤ cfg.error_rate_min_sample_size
      → Returns
          (run_detection cfg window_start lookback_rows service_history edge_history services edges)
  unfolding run_detection
  run_detection-Returns cfg window_start lookback_rows service_history edge_history services edges h
        k =
      let (of_services, of_edges) =
        refresh_baselines-Called lookback_rows service_history edge_history cfg.baseline_min_samples
          h in
      Returns->>= _ _ (run_detectors-Returns cfg window_start _ _ k of_services) (λ xs.
        Returns->>= _ _ (run_detectors-Returns cfg window_start _ _ k of_edges) (λ ys. (_, refl)))

  -- Under the laws of the arithmetic, processing a window raises nothing and returns, whatever the spans, the
  -- histories and the tables are, if the configuration asks for one call or more both for a baseline and for an error rate.
  pub process_window-Returns :
      (cfg : Config F) (window : DueWindow) (rows lookback_rows : List SpanRow)
      (service_history : String → List ℕ) (edge_history : String × String → List ℕ)
      (recent : List (Detection F) → List (Detection F))
      (topology : List ServiceEdge → List (String × String))
      → 1 ≤ cfg.baseline_min_samples
      → 1 ≤ cfg.error_rate_min_sample_size
      → Returns (
          process_window cfg window rows lookback_rows service_history edge_history recent topology)
  unfolding process_window
  process_window-Returns cfg window rows lookback_rows service_history edge_history recent topology
        h k =
      Returns->>= _ _
        (run_detection-Returns cfg window.start lookback_rows service_history edge_history _ _ h k)
        (λ detections. (_, refl))
