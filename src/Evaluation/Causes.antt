-- ===== src/Evaluation/Causes.antt =====
-- eval.py, `compute_incident_metrics`: its counts.
use distributed_tracing_plat.Prelude.{
  ℕ, ◌≤◌, ◌≡◌, String, List, Option, length, map, length-filter-le, length-map, arith,
}
use distributed_tracing_plat.Prelude.Floats.{Floats}
use distributed_tracing_plat.Evaluation.Incidents.{
  TrueIncident, AnalyzerIncident, IncidentDetectionDetail, detail, compute_incident_metrics,
}

module _ {F : Type 0} ⦃f : Floats F⦄ where
  -- Each true incident has one detail, and no more of them are true positives; and no more root causes
  -- are right than there are derived incidents that overlap a true one.
  pub compute_incident_metrics-counts :
      (run_id : String) (true_incidents : List (TrueIncident F))
      (analyzer_incidents : List AnalyzerIncident) (total : ℕ) (duration : Option F)
      (observed : List (String × Option F)) (depths : List (String × ℕ)) (window : ℕ)
      → let r =
          compute_incident_metrics run_id true_incidents analyzer_incidents total duration observed
            depths window in
        (length r.detections ≡ r.true_incident_count)
        × (r.true_positive_count ≤ r.true_incident_count)
        × (r.root_cause_correct ≤ r.root_cause_total)
  unfolding compute_incident_metrics
  compute_incident_metrics-counts run_id true_incidents analyzer_incidents total duration observed
        depths window =
      let details = map (detail analyzer_incidents observed depths window) true_incidents in
      let same = length-map (detail analyzer_incidents observed depths window) true_incidents in
      (
        same,
        omega
            (arith, same, length-filter-le (λ (d : IncidentDetectionDetail F). d.detected) details),
        length-filter-le _ _,
      )
