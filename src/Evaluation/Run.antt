-- ===== src/Evaluation/Run.antt =====
-- eval.py, `evaluate_incidents` and `evaluate`: what is fetched, and the metrics of it. A window is in
-- nanoseconds. None is an exception.
use distributed_tracing_plat.Prelude.{
  ℕ, ◌-◌, String, string_eq, Option, none, some, List, [], ◌>>=◌, insert_all,
}
use distributed_tracing_plat.Prelude.Floats.{Floats}
use distributed_tracing_plat.Windowing.{second}
use distributed_tracing_plat.Storage.{OffsetRow, Tables}
use distributed_tracing_plat.Reader.{each}
use distributed_tracing_plat.Evaluation.{EvalResult, compute_metrics}
use distributed_tracing_plat.Evaluation.Incidents.{
  TrueIncident, IncidentEvalResult, compute_incident_metrics,
}
use distributed_tracing_plat.Evaluation.Depths.{compute_depths}
use distributed_tracing_plat.Evaluation.Magnitudes.{fetch_observed_magnitude}
use distributed_tracing_plat.Evaluation.Queries.{
  GroundTruth, fetch_ground_truth_spans, fetch_ground_truth_edges, fetch_ground_truth_offsets,
  fetch_ground_truth_incidents, fetch_run_time_range, fetch_landed_span_ids, fetch_classifications,
  fetch_found_edges, fetch_full_topology_edges, fetch_analyzer_incidents,
  fetch_total_detection_count, fetch_detected_offsets,
}

-- A query in the range of a run's times, and the value without one.
abbrev pub in_run_range : {A : Type 0} → Option (ℕ × ℕ) → A → (ℕ × ℕ → A) → A
in_run_range none default query = default
in_run_range (some range) default query = query range

module _ {F : Type 0} ⦃f : Floats F⦄ where
  -- `run_duration_seconds`
  abbrev pub duration_of : Option (ℕ × ℕ) → Option F
  duration_of none = none
  duration_of (some (lo, hi)) = some (f.div (f.of_ℕ (hi - lo)) (f.of_ℕ second))

  unfoldable pub magnitude_entry : Tables F → ℕ → TrueIncident F → Option (String × Option F)
  magnitude_entry t window incident = do
    magnitude ← fetch_observed_magnitude t incident window
    some (incident.incident_id, magnitude)

  unfoldable pub evaluate_incidents :
      GroundTruth F → Tables F → String → Option (ℕ × ℕ) → ℕ → Option (IncidentEvalResult F)
  evaluate_incidents g t run_id time_range window = do
    let true_incidents = fetch_ground_truth_incidents g run_id
    let analyzer_incidents = in_run_range time_range [] (fetch_analyzer_incidents t)
    let total = in_run_range time_range 0 (fetch_total_detection_count t)
    magnitudes ← each (magnitude_entry t window) true_incidents
    some (
        compute_incident_metrics run_id true_incidents analyzer_incidents total
          (duration_of time_range) (insert_all [] magnitudes)
          (compute_depths (fetch_full_topology_edges t)) window)

  -- `evaluate`, of the rows of `service_clock_offsets` as they are read; the second result is the field
  -- `incident_result` of the first in the source.
  unfoldable pub evaluate :
      GroundTruth F
      → Tables F
      → List OffsetRow
      → String
      → ℕ
      → Option (EvalResult F × IncidentEvalResult F)
  evaluate g t offset_rows run_id window = do
    let time_range = fetch_run_time_range g run_id
    gt_spans ← fetch_ground_truth_spans g run_id
    landed ← fetch_landed_span_ids g run_id t
    classifications ← fetch_classifications g run_id t
    incidents ← evaluate_incidents g t run_id time_range window
    some (
      compute_metrics run_id gt_spans landed classifications (fetch_ground_truth_edges g run_id)
          (in_run_range time_range [] (fetch_found_edges t)) (fetch_ground_truth_offsets g run_id)
          (in_run_range time_range [] (fetch_detected_offsets offset_rows)),
      incidents,
    )
