-- ===== src/Storage/Keys.antt =====
-- deploy/clickhouse/init.sql: the sorting key of each table, by which ReplacingMergeTree keeps one row.
use distributed_tracing_plat.Prelude.{ℕ, String}
use distributed_tracing_plat.Targets.{TargetKind}
use distributed_tracing_plat.Storage.{
  SummaryRow, ClassificationRow, EdgeRow, OffsetRow, StatsRow, ServiceBaselineRow, EdgeBaselineRow,
  DetectionRow,
}

abbrev pub summary_key : SummaryRow → String × ℕ
summary_key r = (r.trace_id, r.window_start)

abbrev pub classification_key : ClassificationRow → String × String
classification_key r = (r.trace_id, r.span_id)

abbrev pub offset_key : OffsetRow → String × ℕ
offset_key r = (r.service_name, r.window_start)

module _ {F : Type 0} where
  abbrev pub edge_key : EdgeRow F → (String × String) × ℕ
  edge_key r = ((r.caller_service, r.callee_service), r.window_start)

  abbrev pub stats_key : StatsRow F → String × ℕ
  stats_key r = (r.service_name, r.window_start)

  abbrev pub service_baseline_key : ServiceBaselineRow F → String × ℕ
  service_baseline_key r = (r.service_name, r.as_of)

  abbrev pub edge_baseline_key : EdgeBaselineRow F → (String × String) × ℕ
  edge_baseline_key r = ((r.caller_service, r.callee_service), r.as_of)

  abbrev pub detection_row_key : DetectionRow F → (TargetKind × (String × String)) × ℕ
  detection_row_key r = ((r.target_type, (r.target, r.detector)), r.window_start)
