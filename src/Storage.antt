-- ===== src/Storage.antt =====
-- analyzer/src/analyzer/chclient.py, and the tables of deploy/clickhouse/init.sql that the analyzer reads
-- and writes. The client of ClickHouse is an interface: a state, `insert`, and the tables as a query with
-- FINAL reads them. A DateTime64 is a number of nanoseconds since the epoch, and a FixedString is a
-- text of bytes. Rows have the columns that the code inserts or selects.
pub mod FixedStrings
pub mod Keys
pub mod Laws
pub mod Memory
mod Samples
use distributed_tracing_plat.Prelude.{ℕ, String, Bool, List}
use distributed_tracing_plat.Prelude.Int.{ℤ}
use distributed_tracing_plat.Targets.{TargetKind}
use distributed_tracing_plat.Detectors.{Severity}
use distributed_tracing_plat.Reassembly.{Classification, Reason}

-- A row of `spans`, as the collector's writer inserts it.
pub record StoredSpan : Type 0 where
  pub trace_id : String
  pub span_id : String
  pub parent_span_id : String
  pub service_name : String
  pub span_name : String
  pub start_time_unix_nano : ℕ
  pub end_time_unix_nano : ℕ
  pub status_code : ℕ
  pub attributes : List (String × String)
  pub ingested_at : ℕ

pub record SummaryRow : Type 0 where
  pub trace_id : String
  pub window_start : ℕ
  pub depth : ℕ
  pub span_count : ℕ
  pub root_service : String
  pub complete : ℕ
  pub incompleteness_reason : Reason
  pub orphan_count : ℕ

pub record ClassificationRow : Type 0 where
  pub trace_id : String
  pub span_id : String
  pub window_start : ℕ
  pub classification : Classification

pub record OffsetRow : Type 0 where
  pub window_start : ℕ
  pub service_name : String
  pub offset_ns : ℤ
  pub confidence : ℕ

pub record EdgeRow (F : Type 0) : Type 0 where
  pub window_start : ℕ
  pub caller_service : String
  pub callee_service : String
  pub call_count : ℕ
  pub error_count : ℕ
  pub latency_p50_ms : F
  pub latency_p95_ms : F
  pub latency_p99_ms : F

pub record StatsRow (F : Type 0) : Type 0 where
  pub window_start : ℕ
  pub service_name : String
  pub call_count : ℕ
  pub error_count : ℕ
  pub latency_p50_ms : F
  pub latency_p95_ms : F
  pub latency_p99_ms : F

pub record ServiceBaselineRow (F : Type 0) : Type 0 where
  pub as_of : ℕ
  pub service_name : String
  pub call_count_observed : ℕ
  pub latency_median_ms : F
  pub latency_mad_ms : F
  pub error_rate : F
  pub call_rate_median : F
  pub call_rate_mad : F
  pub ready : ℕ

pub record EdgeBaselineRow (F : Type 0) : Type 0 where
  pub as_of : ℕ
  pub caller_service : String
  pub callee_service : String
  pub call_count_observed : ℕ
  pub latency_median_ms : F
  pub latency_mad_ms : F
  pub error_rate : F
  pub call_rate_median : F
  pub call_rate_mad : F
  pub ready : ℕ

-- The columns `target_type` and `severity` hold one of two texts each.
pub record DetectionRow (F : Type 0) : Type 0 where
  pub window_start : ℕ
  pub target_type : TargetKind
  pub target : String
  pub detector : String
  pub severity : Severity
  pub observed_value : F
  pub baseline_value : F
  pub deviation : F

pub record IncidentRow (F : Type 0) : Type 0 where
  pub incident_id : String
  pub target_type : TargetKind
  pub target : String
  pub detector : String
  pub start_window : ℕ
  pub end_window : ℕ
  pub window_count : ℕ
  pub peak_severity : Severity
  pub peak_deviation : F
  pub derived : ℕ
  pub root_cause_incident_id : String

-- The tables, each in the order in which a query without ORDER BY reads it.
pub record Tables (F : Type 0) : Type 0 where
  pub spans : List StoredSpan
  pub trace_summaries : List SummaryRow
  pub span_classifications : List ClassificationRow
  pub service_edges : List (EdgeRow F)
  pub service_clock_offsets : List OffsetRow
  pub service_stats : List (StatsRow F)
  pub service_baselines : List (ServiceBaselineRow F)
  pub edge_baselines : List (EdgeBaselineRow F)
  pub detections : List (DetectionRow F)
  pub detected_incidents : List (IncidentRow F)

-- One call of `client.insert`: a table and its rows.
pub data Insert (F : Type 0) : Type 0 where
  trace_summaries : List SummaryRow → Insert F
  span_classifications : List ClassificationRow → Insert F
  service_edges : List (EdgeRow F) → Insert F
  service_clock_offsets : List OffsetRow → Insert F
  service_stats : List (StatsRow F) → Insert F
  service_baselines : List (ServiceBaselineRow F) → Insert F
  edge_baselines : List (EdgeBaselineRow F) → Insert F
  detections : List (DetectionRow F) → Insert F
  detected_incidents : List (IncidentRow F) → Insert F

-- The client, of which nothing is known but its operations.
pub record Client (F : Type 0) : Type 1 where
  pub State : Type 0
  pub insert : Insert F → State → State
  pub tables : State → Tables F
