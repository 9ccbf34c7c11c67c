-- ===== src/Reader/Samples.antt =====
-- reader.py over a client in memory, at concrete rows.
use distributed_tracing_plat.Prelude.{
  ◌≡◌, ◌↔◌, ◌⊎◌, refl, subst, String, string_eq, pair_eq, true, false, some, List, [], ◌∷◌, map,
  contains, filter, Elem, arith, ⊎_elim,
}
use distributed_tracing_plat.Prelude.Int.{ℤ, pos}
use distributed_tracing_plat.Prelude.Fixed.{fixed}
use distributed_tracing_plat.Targets.{service, edge, kind_eq, target_key}
use distributed_tracing_plat.Detectors.{Detection, warning}
use distributed_tracing_plat.Aggregation.{ServiceEdge}
use distributed_tracing_plat.Windowing.{window_bounds, window_index}
use distributed_tracing_plat.Reassembly.{SpanRow}
use distributed_tracing_plat.Storage.{StoredSpan, Tables}
use distributed_tracing_plat.Storage.FixedStrings.{pad}
use distributed_tracing_plat.Storage.Laws.{nat_eq}
use distributed_tracing_plat.Storage.Memory.{memory, memory-IsLawful}
use distributed_tracing_plat.Writer.{to_datetime, write_detections, write_service_edges}
use distributed_tracing_plat.Reader.{
  each, in_closed_range, split_arrow, span_row, fetch_window, fetch_recent_detections,
  fetch_topology_edges,
}
use distributed_tracing_plat.Reader.Ranges.{IsStored, fetch_window-window_index}
use distributed_tracing_plat.Reader.RoundTrip.{
  stored_key, fetch_recent_detections-write_detections, fetch_topology_edges-write_service_edges,
}

-- The first arrow is the one that counts: the edge of a caller `a->b` is not read as it was written.
split_arrow_test : split_arrow "a->b->c" ≡ some ("a", "b->c")
unfolding split_arrow
split_arrow_test = refl

abbrev span : StoredSpan
span = record {
  trace_id = pad "4bf9" 32;
  span_id = pad "a1" 16;
  parent_span_id = pad "" 16;
  service_name = "frontend";
  span_name = "GET /";
  start_time_unix_nano = 61_000_000_000;
  end_time_unix_nano = 61_500_000_000;
  status_code = 1;
  attributes = [];
  ingested_at = 62_000_000_000;
}

abbrev tables : Tables ℤ
tables = record {
  spans = span ∷ [];
  trace_summaries = [];
  span_classifications = [];
  service_edges = [];
  service_clock_offsets = [];
  service_stats = [];
  service_baselines = [];
  edge_baselines = [];
  detections = [];
  detected_incidents = [];
}

fetch_window-window_index_example :
    (rows : List SpanRow) × (fetch_window memory tables 60_000_000_000 120_000_000_000 ≡ some rows)
    × ((row : SpanRow)
        → Elem row rows ↔ (
            (r : StoredSpan) × Elem r (span ∷ [])
            × (window_index r.start_time_unix_nano 60 ≡ 1)
            × (span_row r ≡ some row)))
unfolding window_bounds
fetch_window-window_index_example =
    fetch_window-window_index memory tables 60 1 (omega arith) (λ r m.
      ⊎_elim
        (λ e.
          subst IsStored e
            (("4bf9", omega arith, refl), ("a1", omega arith, refl), ("", omega arith, refl)))
        (λ n. absurd n) m)

abbrev slow_edge : Detection ℤ
slow_edge = record {
  window_start = 60_000_000_000;
  target = target_key edge "frontend" "checkout";
  detector = "percentile_deviation";
  severity = warning;
  observed_value = pos 9_000;
  baseline_value = pos 2_000;
  deviation = pos 4_000;
}

abbrev slow_service : Detection ℤ
slow_service = record slow_edge { target = target_key service "" "checkout" }

fetch_recent_detections-write_detections_example :
    (found : List (Detection ℤ)) × (fetch_recent_detections memory
        (write_detections memory (slow_edge ∷ slow_service ∷ []) tables)
        0
        60_000_000_000
      ≡ some found)
    × ((d : Detection ℤ)
        → Elem d found ↔ (
            (Elem d (slow_edge ∷ slow_service ∷ [])
              × (in_closed_range 0 60_000_000_000 d.window_start ≡ true))
            ⊎ (Elem d []
                × (contains (map stored_key (slow_edge ∷ slow_service ∷ [])) (stored_key d)
                    ≡ false))))
unfolding contains split_arrow to_datetime each fetch_recent_detections filter
fetch_recent_detections-write_detections_example =
    fetch_recent_detections-write_detections memory memory-IsLawful tables
      (slow_edge ∷ slow_service ∷ []) ((refl, refl), ((refl, refl), tt)) (refl, (refl, tt)) 0
      60_000_000_000 [] refl

abbrev call : ServiceEdge
call = record {
  window_start = 60_000_000_000;
  caller_service = "frontend";
  callee_service = "checkout";
  call_count = 2;
  error_count = 0;
  latency_p50 = pos 10;
  latency_p95 = pos 20;
  latency_p99 = pos 20;
}

abbrev pair : String × String
pair = ("frontend", "checkout")

fetch_topology_edges-write_service_edges_example :
    Elem pair (fetch_topology_edges memory (write_service_edges memory (call ∷ []) tables))
    ↔ (Elem pair (pair ∷ []) ⊎ Elem pair (fetch_topology_edges memory tables))
fetch_topology_edges-write_service_edges_example =
    fetch_topology_edges-write_service_edges memory memory-IsLawful tables (call ∷ []) pair
