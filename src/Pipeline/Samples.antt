-- ===== src/Pipeline/Samples.antt =====
-- main.py on a small window, and the theorems about it at that window.
use distributed_tracing_plat.Prelude.{
  ℕ, none, some, subst, refl, ⊎_elim, Elem, ◌≤◌, ◌≡◌, inl, inr, String, List, [], ◌∷◌, group,
  group_from, push, arith, ◌∙◌, sym,
}
use distributed_tracing_plat.Prelude.Int.{ℤ, pos}
use distributed_tracing_plat.Prelude.Fixed.{fixed, fixed-Lawful}
use distributed_tracing_plat.Targets.{service, target_key}
use distributed_tracing_plat.Detectors.{Detection, warning}
use distributed_tracing_plat.Detectors.Loops.{Returns}
use distributed_tracing_plat.Windowing.{DueWindow, window_index, window_bounds}
use distributed_tracing_plat.Windowing.Schedule.{IsDueSome}
use distributed_tracing_plat.Storage.{StoredSpan, Tables}
use distributed_tracing_plat.Storage.FixedStrings.{pad}
use distributed_tracing_plat.Storage.Memory.{memory, memory-IsLawful}
use distributed_tracing_plat.Reader.{span_row}
use distributed_tracing_plat.Reader.Ranges.{IsStored}
use distributed_tracing_plat.Pipeline.Stored.{LoopState, Readings, run}
use distributed_tracing_plat.Pipeline.Stored.Labels.{IsProcessed}
use distributed_tracing_plat.Pipeline.Stored.Total.{Leaves}
use distributed_tracing_plat.Pipeline.Stored.Loop.{run_processes}
use distributed_tracing_plat.Reassembly.{SpanRow}
use distributed_tracing_plat.Suppression.{
  group_detections, incidents_of, build_incidents, runs, runs_from, sort_by_start, insert_by_start,
}
use distributed_tracing_plat.Suppression.Runs.{counts}
use distributed_tracing_plat.Suppression.Outcomes.{IdsApart}
use distributed_tracing_plat.Pipeline.{Config, process_window, run_suppression}
use distributed_tracing_plat.Pipeline.Totality.{process_window-Returns}
use distributed_tracing_plat.Pipeline.Incidents.{counts-run_suppression}

abbrev config : Config ℤ
config = record {
  window_seconds = 30;
  root_service = "frontend";
  baseline_min_samples = 2;
  percentile_deviation_threshold = pos 3500;
  error_rate_min_sample_size = 10;
  error_rate_threshold = pos 3000;
  call_rate_threshold = pos 3000;
  baseline_lookback_seconds = 900;
  grouping_lookback_seconds = 300;
  late_check_interval = 30_000_000_000;
}

abbrev span : String → String → ℕ → ℕ → SpanRow
span span_id service_name start end = record {
  trace_id = "t";
  span_id = span_id;
  parent_span_id = "";
  service_name = service_name;
  start_time_unix_nano = start;
  end_time_unix_nano = end;
  status_code = 1;
}

abbrev lookback : List SpanRow
lookback = span "a" "frontend" 0 50 ∷ span "b" "checkout" 10 20 ∷ span "c" "checkout" 25 45 ∷ []

abbrev history : {K : Type 0} → K → List ℕ
history k = 2 ∷ 4 ∷ []

abbrev window : DueWindow
window = record { index = 2; start = 60; end = 90 }

process_window-Returns_example :
    Returns
      (process_window config window lookback lookback history history (λ new. new) (λ edges. []))
process_window-Returns_example =
    process_window-Returns fixed-Lawful config window lookback lookback history history (λ new. new)
      (λ edges. []) (omega arith) (omega arith)

abbrev slow : String → ℕ → Detection ℤ
slow name start = record {
  window_start = start;
  target = target_key service "" name;
  detector = "call_rate";
  severity = warning;
  observed_value = pos 0;
  baseline_value = pos 0;
  deviation = pos 0;
}

abbrev recent : List (Detection ℤ)
recent = slow "checkout" 30 ∷ slow "checkout" 60 ∷ []

-- Both detections are of one incident.
recent-IdsApart : IdsApart (group_detections recent 30) []
unfolding group_detections incidents_of build_incidents runs runs_from sort_by_start insert_by_start
    group group_from push
recent-IdsApart i j (inl p) (inl r) q = sym p ∙ r
recent-IdsApart i j (inr m) n q = absurd m
recent-IdsApart i j (inl p) (inr n) q = absurd n

counts-run_suppression_example :
    let result = run_suppression 60 30 recent [] (slow "checkout" 60 ∷ []) in
    (counts result.incidents ≡ 2) × (result.suppressed_count ≤ 1)
counts-run_suppression_example =
    counts-run_suppression 60 30 recent [] (slow "checkout" 60 ∷ []) recent-IdsApart

abbrev stored : StoredSpan
stored = record {
  trace_id = pad "4bf9" 32;
  span_id = pad "a1" 16;
  parent_span_id = pad "" 16;
  service_name = "frontend";
  span_name = "GET /";
  start_time_unix_nano = 61_000_000_000;
  end_time_unix_nano = 61_500_000_000;
  status_code = 1;
  attributes = [];
  ingested_at = 62_000_000_000;
}

abbrev tables : Tables ℤ
tables = record {
  spans = stored ∷ [];
  trace_summaries = [];
  span_classifications = [];
  service_edges = [];
  service_clock_offsets = [];
  service_stats = [];
  service_baselines = [];
  edge_baselines = [];
  detections = [];
  detected_incidents = [];
}

abbrev fresh : LoopState (Tables ℤ)
fresh = record {
  tracker = record { window_seconds = 30; watermark_seconds = 5; next_index = none };
  last_late_check = 0;
  last_late_check_monotonic = 0;
  db = tables;
}

abbrev reading : ℕ → Readings
reading now = record { now = now; monotonic = now; checked_at = now; checked_monotonic = now }

-- The span starts at 61 s, in the window from 60 s to 90 s, which is due at 100 s.
run_processes_example :
    Leaves (run memory config fresh (reading 65_000_000_000 ∷ reading 100_000_000_000 ∷ [])) (λ st'.
      (r : StoredSpan)
      → Elem r (stored ∷ [])
      → let index = window_index r.start_time_unix_nano 30 in
        window_index 65_000_000_000 30 ≤ index
        → IsDueSome fresh.tracker (65_000_000_000 ∷ 100_000_000_000 ∷ []) index
        → (row : SpanRow) × (span_row r ≡ some row)
          × IsProcessed memory (window_bounds index 30).0 row st'.db)
run_processes_example =
    run_processes fixed-Lawful memory memory-IsLawful config (omega arith) (reading 65_000_000_000)
      (reading 100_000_000_000 ∷ []) fresh refl refl
      (
        λ r m.
            ⊎_elim
              (λ e.
                subst IsStored e
                  (("4bf9", omega arith, refl), ("a1", omega arith, refl), ("", omega arith, refl)))
              (λ n. absurd n) m,
        λ r m. absurd m,
      )
