-- ===== src/Baselines/Samples.antt =====
-- baseline.py on a small lookback, and the theorems about it at that lookback.
use distributed_tracing_plat.Prelude.{
  ℕ, ◌≡◌, refl, String, string_eq, pair_eq, true, some, List, [], ◌∷◌, map, filter, lookup, insert,
  insert_all, push, group, group_from, values,
}
use distributed_tracing_plat.Prelude.Int.{ℤ, pos}
use distributed_tracing_plat.Prelude.Fixed.{fixed}
use distributed_tracing_plat.Reassembly.{
  SpanRow, resolved_parent_child_pairs, pairs_in_trace, pairs_of_traces,
}
use distributed_tracing_plat.Aggregation.{duration, error_count}
use distributed_tracing_plat.Aggregation.Rollups.{handled_by, rows_of, calls_of}
use distributed_tracing_plat.Targets.{Baseline, target_eq}
use distributed_tracing_plat.Baselines.{
  compute_baseline, baseline_entry, service_target, edge_target, service_baselines, edge_baselines,
}
use distributed_tracing_plat.Baselines.Lookback.{baseline_of, service_baselines_exact}

abbrev span : String → String → String → ℕ → ℕ → SpanRow
span span_id parent_span_id service_name start end = record {
  trace_id = "t";
  span_id = span_id;
  parent_span_id = parent_span_id;
  service_name = service_name;
  start_time_unix_nano = start;
  end_time_unix_nano = end;
  status_code = 2;
}

abbrev lookback : List SpanRow
lookback =
    span "a" "" "frontend" 0 50 ∷ span "b" "a" "checkout" 10 20 ∷ span "c" "a" "checkout" 25 45 ∷ []

abbrev history : List ℕ
history = 2 ∷ 4 ∷ []

of_service : Baseline ℤ
of_service =
    compute_baseline (service_target "checkout") (map duration (rows_of "checkout" lookback))
      (error_count (rows_of "checkout" lookback)) history 2

of_edge : Baseline ℤ
of_edge =
    compute_baseline (edge_target ("frontend", "checkout"))
      (map duration (calls_of ("frontend", "checkout") lookback))
      (error_count (calls_of ("frontend", "checkout") lookback)) history 2

service_test :
    lookup (service_target "checkout") (service_baselines lookback (λ _. history) 2)
    ≡ some of_service
unfolding of_service service_baselines baseline_entry lookup group group_from push values
service_test = refl

edge_test :
    lookup (edge_target ("frontend", "checkout")) (edge_baselines lookback (λ _. history) 2)
    ≡ some of_edge
unfolding of_edge edge_baselines baseline_entry lookup group group_from push values
    resolved_parent_child_pairs pairs_of_traces pairs_in_trace insert insert_all
edge_test = refl

ready_test :
    (of_service.ready ≡ true)
    × (of_service.call_count_observed ≡ 2)
    × (of_service.error_rate ≡ pos 1000)
unfolding of_service compute_baseline values error_count filter
ready_test = (refl, refl, refl)

service_baselines_exact_example :
    of_service ≡ baseline_of (service_target "checkout") (handled_by "checkout" lookback) history 2
service_baselines_exact_example =
    service_baselines_exact lookback (λ _. history) 2 "checkout" of_service service_test
