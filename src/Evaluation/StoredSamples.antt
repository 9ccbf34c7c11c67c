-- ===== src/Evaluation/StoredSamples.antt =====
-- eval.py, the queries and the depths, at concrete tables, and the theorems about them there.
use distributed_tracing_plat.Prelude.{
  ℕ, ◌*◌, ◌≡◌, ◌↔◌, ◌⊎◌, inr, ⊎_elim, refl, sym, subst, String, string_eq, pair_eq, List, [], ◌∷◌,
  filter, contains, lookup, some, none, ◌>>=◌, Elem, insert, insert_all, add_keys, group, get_group,
  group_from, push, firsts, sort, insert_sorted, arith,
}
use distributed_tracing_plat.Prelude.Int.{ℤ, pos, ◌+ℤ◌, ◌-ℤ◌}
use distributed_tracing_plat.Prelude.Fixed.{fixed}
use distributed_tracing_plat.Prelude.Floats.{one_F}
use distributed_tracing_plat.Targets.{edge}
use distributed_tracing_plat.Windowing.{second}
use distributed_tracing_plat.Storage.{Tables, EdgeRow, EdgeBaselineRow, OffsetRow}
use distributed_tracing_plat.Reader.{each, endpoints, split_arrow}
use distributed_tracing_plat.Storage.FixedStrings.{decode_fixed_string, rstrip, is_ascii}
use distributed_tracing_plat.Evaluation.{
  EvalResult, ClockError, compute_metrics, tally_spans, tally_span, clock_errors,
}
use distributed_tracing_plat.Evaluation.Incidents.{
  edge_disappearance, TrueIncident, IncidentEvalResult, compute_incident_metrics,
}
use distributed_tracing_plat.Evaluation.Magnitudes.{
  Reading, latest, edge_reading, readings, baseline_readings, latest_baseline, call_rate_if_any,
  fetch_call_rate_baseline_at_or_before, fetch_stat_at_or_before, midpoint,
  fetch_observed_magnitude,
}
use distributed_tracing_plat.Evaluation.Magnitudes.Bounded.{
  IsRecent, IsStat, fetch_stat_at_or_before_exact, fetch_observed_magnitude_silent,
}
use distributed_tracing_plat.Evaluation.Queries.{
  GroundTruth, best_offsets, fetch_detected_offsets, fetch_ground_truth_spans,
  fetch_landed_span_ids, fetch_classifications, fetch_ground_truth_edges,
  fetch_ground_truth_offsets, fetch_ground_truth_incidents, fetch_run_time_range, span_of_times,
  fetch_found_edges,
}
use distributed_tracing_plat.Evaluation.Queries.BestOffsets.{
  IsNear, IsDetected, fetch_detected_offsets_exact,
}
use distributed_tracing_plat.Evaluation.Run.{evaluate, evaluate_incidents}
use distributed_tracing_plat.Evaluation.Depths.{
  Edges, compute_depths, depths_below, search_depths, depths_loop, roots_of, set_defaults,
  visit_nodes, visit_children,
}
use distributed_tracing_plat.Evaluation.Depths.Shortest.{Shortest, compute_depths_exact}

-- A diamond below the front end, with one way that is longer.
abbrev topology : Edges
topology =
    ("frontend", "checkout")
    ∷ ("checkout", "payments")
    ∷ ("payments", "ledger")
    ∷ ("frontend", "ledger")
    ∷ []

compute_depths_test :
    compute_depths topology
    ≡ ("frontend", 0) ∷ ("checkout", 1) ∷ ("ledger", 1) ∷ ("payments", 2) ∷ []
unfolding compute_depths depths_below search_depths depths_loop roots_of set_defaults visit_nodes
    visit_children group get_group group_from push lookup insert contains filter add_keys firsts
compute_depths_test = refl

-- A cycle without a way in has no root.
cycle_test : compute_depths (("a", "b") ∷ ("b", "a") ∷ []) ≡ []
unfolding compute_depths depths_below roots_of contains filter add_keys firsts
cycle_test = refl

compute_depths_exact_example :
    (lookup "ledger" (compute_depths topology) ≡ some 1) ↔ Shortest topology "ledger" 1
compute_depths_exact_example = compute_depths_exact topology "ledger" 1

-- An edge that was called in its last window before the incident, and not since.
abbrev lost : TrueIncident ℤ
lost = record {
  incident_id = "l";
  type = edge_disappearance;
  target_type = edge;
  target = "frontend->checkout";
  start_time = 100 * second;
  end_time = 160 * second;
  magnitude = pos 1000;
}

abbrev old_call : EdgeRow ℤ
old_call = record {
  window_start = 60 * second;
  caller_service = "frontend";
  callee_service = "checkout";
  call_count = 9;
  error_count = 0;
  latency_p50_ms = pos 1;
  latency_p95_ms = pos 1;
  latency_p99_ms = pos 1;
}

abbrev usual_calls : EdgeBaselineRow ℤ
usual_calls = record {
  as_of = 60 * second;
  caller_service = "frontend";
  callee_service = "checkout";
  call_count_observed = 90;
  latency_median_ms = pos 1000;
  latency_mad_ms = pos 0;
  error_rate = pos 0;
  call_rate_median = pos 9000;
  call_rate_mad = pos 0;
  ready = 1;
}

abbrev stored : Tables ℤ
stored = record {
  spans = [];
  trace_summaries = [];
  span_classifications = [];
  service_edges = old_call ∷ [];
  service_clock_offsets = [];
  service_stats = [];
  service_baselines = [];
  edge_baselines = usual_calls ∷ [];
  detections = [];
  detected_incidents = [];
}

abbrev minute : ℕ
minute = 60 * second

readings_test : readings stored edge "frontend->checkout" ≡ some (edge_reading old_call ∷ [])
unfolding readings endpoints split_arrow filter
readings_test = refl

silent : (r : Reading ℤ) → Elem r (edge_reading old_call ∷ []) → ¬ IsRecent (midpoint lost) minute r
silent r m i =
    ⊎_elim
      (λ e.
        absurd
          (omega (arith, subst (λ (z : Reading ℤ). IsRecent (midpoint lost) minute z) (sym e) i)))
      (λ no. no) m

call_rate_test :
    fetch_call_rate_baseline_at_or_before stored edge "frontend->checkout" (100 * second)
    ≡ some (some (pos 9000))
unfolding fetch_call_rate_baseline_at_or_before latest_baseline baseline_readings latest
    call_rate_if_any endpoints split_arrow filter sort insert_sorted
call_rate_test = refl

fetch_stat_at_or_before_exact_example :
    (stat : ℕ × ℕ × ℤ) × (fetch_stat_at_or_before stored edge "frontend->checkout" minute minute
      ≡ some stat)
    × IsStat (edge_reading old_call ∷ []) minute minute stat
fetch_stat_at_or_before_exact_example =
    fetch_stat_at_or_before_exact stored edge "frontend->checkout" minute minute
      (edge_reading old_call ∷ []) readings_test

fetch_observed_magnitude_silent_example :
    fetch_observed_magnitude stored lost minute
    ≡ some (some (fixed.sub one_F (fixed.div (fixed.of_ℕ 0) (pos 9000))))
fetch_observed_magnitude_silent_example =
    fetch_observed_magnitude_silent stored lost minute (edge_reading old_call ∷ []) (pos 9000)
      (inr refl) readings_test silent call_rate_test refl

-- Two estimates of one service.
abbrev estimate : ℕ → ℕ → OffsetRow
estimate window_start confidence = record {
  window_start = window_start;
  service_name = "checkout";
  offset_ns = pos confidence;
  confidence = confidence;
}

abbrev estimates : List OffsetRow
estimates = estimate 0 3 ∷ estimate minute 5 ∷ estimate (100 * minute) 9 ∷ []

offsets_test : fetch_detected_offsets estimates (0, minute) ≡ ("checkout", pos 5) ∷ []
unfolding fetch_detected_offsets best_offsets lookup insert filter sort insert_sorted
offsets_test = refl

fetch_detected_offsets_exact_example :
    ((offset_ns : ℤ) × (lookup "checkout" (fetch_detected_offsets estimates (0, minute))
        ≡ some offset_ns)
      × IsDetected estimates (0, minute) "checkout" offset_ns)
    ⊎ ((lookup "checkout" (fetch_detected_offsets estimates (0, minute)) ≡ none)
        × ((r : OffsetRow)
            → Elem r estimates
            → IsNear (0, minute) r.window_start
            → ¬ (r.service_name ≡ "checkout")))
fetch_detected_offsets_exact_example = fetch_detected_offsets_exact estimates (0, minute) "checkout"

-- A run of two spans whose call the analyzer stored.
abbrev ground : GroundTruth ℤ
ground = record {
  ground_truth_spans =
      record {
        run_id = "run";
        trace_id = "t";
        span_id = "a";
        parent_span_id = "";
        generated_at = minute;
      }
      ∷ record {
        run_id = "run";
        trace_id = "t";
        span_id = "b";
        parent_span_id = "a";
        generated_at = 2 * minute;
      }
      ∷ [];
  ground_truth_edges =
      record { run_id = "run"; caller_service = "frontend"; callee_service = "checkout" } ∷ [];
  ground_truth_clock_offsets =
      record { run_id = "run"; service_name = "checkout"; offset_ns = pos 4 } ∷ [];
  ground_truth_incidents = [];
}

abbrev summary : EvalResult ℤ × IncidentEvalResult ℤ → ℕ × ℕ × ℕ × List (String × ClockError)
summary (r, i) = (
  r.ground_truth_span_count, r.edge_true_positive_count, i.true_incident_count,
  r.clock_offset_errors,
)

evaluate_test :
    (do r ← evaluate ground stored estimates "run" minute; some (summary r))
    ≡ some (
      2,
      1,
      0,
      ("checkout", record { true_ns = pos 4; detected_ns = pos 5; error_ns = pos 1 }) ∷ [],
    )
unfolding evaluate evaluate_incidents fetch_ground_truth_spans fetch_landed_span_ids
    fetch_classifications fetch_ground_truth_edges fetch_ground_truth_offsets
    fetch_ground_truth_incidents fetch_run_time_range span_of_times fetch_found_edges
    fetch_detected_offsets best_offsets compute_metrics compute_incident_metrics tally_spans
    tally_span clock_errors each decode_fixed_string rstrip is_ascii lookup insert insert_all filter
    sort insert_sorted contains firsts add_keys ◌+ℤ◌ ◌-ℤ◌
evaluate_test = refl
