-- ===== src/Aggregation.antt =====
-- analyzer/src/analyzer/service_agg.py and topology_agg.py: a window's spans rolled up by service, and
-- its resolved calls rolled up by caller and callee. A duration is in nanoseconds, so a latency
-- percentile, in milliseconds in the source, is a number of hundredths of a nanosecond.
pub mod Rollups
pub mod Totals
mod Samples
use distributed_tracing_plat.Prelude.{
  ℕ, suc, ◌+◌, ◌-◌, ◌*◌, Bool, String, string_eq, pair_eq, List, [], ◌∷◌, map, length, filter, sort,
  eqb, group,
}
use distributed_tracing_plat.Prelude.Int.{ℤ, sub_ℕ, leb_ℤ}
use distributed_tracing_plat.Statutil.{percentile}
use distributed_tracing_plat.Reassembly.{SpanRow, resolved_parent_child_pairs}

-- OTLP Status.StatusCode.STATUS_CODE_ERROR
abbrev pub error_status_code : ℕ
error_status_code = 2

abbrev pub is_error : SpanRow → Bool
is_error r = eqb r.status_code error_status_code

-- `r.end_time_unix_nano - r.start_time_unix_nano`, which a broken clock makes negative.
abbrev pub duration : SpanRow → ℤ
duration r = sub_ℕ r.end_time_unix_nano r.start_time_unix_nano

-- The durations of a group, sorted.
pub durations : List SpanRow → List ℤ
durations rows = sort leb_ℤ (map duration rows)

unfoldable pub error_count : List SpanRow → ℕ
error_count rows = length (filter is_error rows)

pub record ServiceStats : Type 0 where
  pub window_start : ℕ
  pub service_name : String
  pub call_count : ℕ
  pub error_count : ℕ
  pub latency_p50 : ℤ
  pub latency_p95 : ℤ
  pub latency_p99 : ℤ

-- The body of the loop of `aggregate_services`.
pub service_stats : ℕ → String × List SpanRow → ServiceStats
service_stats window_start (service, rows) = record {
  window_start = window_start;
  service_name = service;
  call_count = length rows;
  error_count = error_count rows;
  latency_p50 = percentile (durations rows) 50;
  latency_p95 = percentile (durations rows) 95;
  latency_p99 = percentile (durations rows) 99;
}

pub aggregate_services : List SpanRow → ℕ → List ServiceStats
aggregate_services rows window_start =
    map (service_stats window_start) (group (map (λ r. (r.service_name, r)) rows))

pub record ServiceEdge : Type 0 where
  pub window_start : ℕ
  pub caller_service : String
  pub callee_service : String
  pub call_count : ℕ
  pub error_count : ℕ
  pub latency_p50 : ℤ
  pub latency_p95 : ℤ
  pub latency_p99 : ℤ

-- The body of the second loop of `aggregate_edges`.
pub edge_stats : ℕ → (String × String) × List SpanRow → ServiceEdge
edge_stats window_start ((caller, callee), children) = record {
  window_start = window_start;
  caller_service = caller;
  callee_service = callee;
  call_count = length children;
  error_count = error_count children;
  latency_p50 = percentile (durations children) 50;
  latency_p95 = percentile (durations children) 95;
  latency_p99 = percentile (durations children) 99;
}

-- The key of a call, and the row that is counted for it.
abbrev pub edge_entry : SpanRow × SpanRow → (String × String) × SpanRow
edge_entry (parent, child) = ((parent.service_name, child.service_name), child)

pub aggregate_edges : List SpanRow → ℕ → List ServiceEdge
aggregate_edges rows window_start =
    map (edge_stats window_start) (group (map edge_entry (resolved_parent_child_pairs rows)))
