-- ===== src/Aggregation/Samples.antt =====
-- service_agg.py and topology_agg.py on a small window, and the theorems about them at it.
use distributed_tracing_plat.Prelude.{
  ℕ, ◌≡◌, refl, inl, inr, String, string_eq, pair_eq, List, [], ◌∷◌, map, filter, sort,
  insert_sorted, push, group, group_from, values, firsts, lookup, insert, insert_all, Elem,
}
use distributed_tracing_plat.Prelude.Int.{pos, ◌+ℤ◌, ◌-ℤ◌, ◌*ℤ◌}
use distributed_tracing_plat.Statutil.{percentile, interpolate}
use distributed_tracing_plat.Reassembly.{
  SpanRow, resolved_parent_child_pairs, pairs_in_trace, pairs_of_traces,
}
use distributed_tracing_plat.Aggregation.{
  durations, error_count, ServiceStats, service_stats, aggregate_services, ServiceEdge, edge_stats,
  aggregate_edges,
}
use distributed_tracing_plat.Aggregation.Rollups.{
  handled_by, called_between, service_summary, edge_summary, rows_of, calls_of,
  aggregate_services_exact, aggregate_edges_exact,
}

abbrev span : String → String → String → ℕ → ℕ → ℕ → SpanRow
span span_id parent_span_id service_name start end status = record {
  trace_id = "t";
  span_id = span_id;
  parent_span_id = parent_span_id;
  service_name = service_name;
  start_time_unix_nano = start;
  end_time_unix_nano = end;
  status_code = status;
}

-- Two calls of checkout, of which one fails.
abbrev window : List SpanRow
window =
    span "a" "" "frontend" 0 50 1
    ∷ span "b" "a" "checkout" 10 20 1
    ∷ span "c" "a" "checkout" 25 45 2
    ∷ []

checkout_stats : ServiceStats
unfolding service_stats
checkout_stats = service_stats 0 ("checkout", rows_of "checkout" window)

checkout_stats_test :
    (checkout_stats.call_count ≡ 2)
    × (checkout_stats.error_count ≡ 1)
    × (checkout_stats.latency_p50 ≡ pos 1500)
unfolding checkout_stats service_stats values durations error_count filter sort insert_sorted
    percentile interpolate ◌+ℤ◌ ◌-ℤ◌ ◌*ℤ◌
checkout_stats_test = (refl, refl, refl)

checkout_stats-Elem : Elem checkout_stats (aggregate_services window 0)
unfolding checkout_stats aggregate_services group group_from push values
checkout_stats-Elem = inr (inl refl)

aggregate_services_exact_example :
    aggregate_services window 0
    ≡ map
        (λ s. service_summary 0 s (handled_by s window))
        (firsts (map (λ (r : SpanRow). r.service_name) window))
aggregate_services_exact_example = aggregate_services_exact window 0

aggregate_edges_exact_example :
    aggregate_edges window 0
    ≡ map
        (λ edge. edge_summary 0 edge (called_between edge window))
        (firsts
          (map (λ p. (p.0.service_name, p.1.service_name)) (resolved_parent_child_pairs window)))
aggregate_edges_exact_example = aggregate_edges_exact window 0

checkout_edge : ServiceEdge
checkout_edge = edge_stats 0 (("frontend", "checkout"), calls_of ("frontend", "checkout") window)

checkout_edge-Elem : Elem checkout_edge (aggregate_edges window 0)
unfolding checkout_edge aggregate_edges group group_from push values resolved_parent_child_pairs
    pairs_of_traces pairs_in_trace lookup insert insert_all
checkout_edge-Elem = inl refl
