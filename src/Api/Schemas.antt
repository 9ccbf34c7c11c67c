-- ===== src/Api/Schemas.antt =====
-- schemas.py: the bodies of the answers.
use distributed_tracing_plat.Prelude.{ℕ, Bool, String, Option, List}
use distributed_tracing_plat.Prelude.Int.{ℤ}
use distributed_tracing_plat.Targets.{TargetKind}
use distributed_tracing_plat.Detectors.{Severity}
use distributed_tracing_plat.Reassembly.{Reason, Classification}

pub record TraceSummary (F : Type 0) : Type 0 where
  pub trace_id : String
  pub window_start : ℕ
  pub depth : ℕ
  pub span_count : ℕ
  pub root_service : String
  pub complete : Bool
  pub incompleteness_reason : Reason
  pub orphan_count : ℕ
  pub duration_ms : Option F

pub record TraceListResponse (F : Type 0) : Type 0 where
  pub traces : List (TraceSummary F)
  pub limit : ℕ
  pub offset : ℕ
  pub has_more : Bool
  pub duration_filter_truncated : Bool

pub record Span : Type 0 where
  pub span_id : String
  pub parent_span_id : String
  pub service_name : String
  pub span_name : String
  pub start_time_unix_nano : ℕ
  pub end_time_unix_nano : ℕ
  pub status_code : ℕ
  pub attributes : List (String × String)
  pub classification : Option Classification

pub record TraceClockOffset : Type 0 where
  pub service_name : String
  pub offset_ns : ℤ
  pub confidence : ℕ

pub record TraceDetailResponse : Type 0 where
  pub trace_id : String
  pub spans : List Span
  pub clock_offsets : List TraceClockOffset

pub record ServiceEdge (F : Type 0) : Type 0 where
  pub caller_service : String
  pub callee_service : String
  pub call_count : ℕ
  pub error_count : ℕ
  pub error_rate : F
  pub latency_p50_ms : F
  pub latency_p95_ms : F
  pub latency_p99_ms : F
  pub latest_window_start : ℕ

pub record TopologyResponse (F : Type 0) : Type 0 where
  pub edges : List (ServiceEdge F)
  pub range_start : ℕ
  pub range_end : ℕ

pub record Incident (F : Type 0) : Type 0 where
  pub incident_id : String
  pub target_type : TargetKind
  pub target : String
  pub detector : String
  pub severity : Severity
  pub start_window : ℕ
  pub end_window : ℕ
  pub window_count : ℕ
  pub peak_deviation : F
  pub derived : Bool
  pub root_cause_incident_id : Option String
  pub root_cause_target : Option String

pub record DetectionsResponse (F : Type 0) : Type 0 where
  pub incidents : List (Incident F)

pub record ClockOffset : Type 0 where
  pub service_name : String
  pub offset_ns : ℤ
  pub confidence : ℕ
  pub window_start : ℕ

pub record ClockOffsetsResponse : Type 0 where
  pub offsets : List ClockOffset
