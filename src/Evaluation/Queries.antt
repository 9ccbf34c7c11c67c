-- ===== src/Evaluation/Queries.antt =====
-- eval.py, the `_fetch_` functions: the ground truth of a run, which the load generator writes, and what the
-- analyzer wrote. A query is the filter of its WHERE clause; a set is a list whose repetitions are dropped.
-- Times are in nanoseconds. None is an exception of the decoding.
pub mod Entries
pub mod BestOffsets
use Prim.Native.Nat.{max, min}
use distributed_tracing_plat.Prelude.{
  ℕ, ◌+◌, ◌*◌, Bool, true, ◌&&◌, ◌||◌, not, String, string_eq, pair_eq, Option, none, some, List,
  [], ◌∷◌, map, filter, length, leb, ltb, eqb, ◌==◌, if◌then◌else◌, ◌>>=◌, contains, lookup, insert,
  insert_all, firsts, sort,
}
use distributed_tracing_plat.Prelude.Int.{ℤ}
use distributed_tracing_plat.Targets.{TargetKind, service, edge}
use distributed_tracing_plat.Windowing.{second}
use distributed_tracing_plat.Reassembly.{Classification, ok, orphan_missing_parent, cycle_rejected}
use distributed_tracing_plat.Storage.{
  StoredSpan, ClassificationRow, OffsetRow, EdgeRow, IncidentRow, DetectionRow, Tables,
}
use distributed_tracing_plat.Storage.FixedStrings.{decode_fixed_string}
use distributed_tracing_plat.Reader.{each}
use distributed_tracing_plat.Evaluation.{TruthSpan, SpanId}
use distributed_tracing_plat.Evaluation.Incidents.{IncidentType, TrueIncident, AnalyzerIncident}

pub record TruthSpanRow : Type 0 where
  pub run_id : String
  pub trace_id : String
  pub span_id : String
  pub parent_span_id : String
  pub generated_at : ℕ

pub record TruthEdgeRow : Type 0 where
  pub run_id : String
  pub caller_service : String
  pub callee_service : String

pub record TruthOffsetRow : Type 0 where
  pub run_id : String
  pub service_name : String
  pub offset_ns : ℤ

-- The column `type` holds one of five texts.
pub record TruthIncidentRow (F : Type 0) : Type 0 where
  pub run_id : String
  pub incident_id : String
  pub type : IncidentType
  pub target_service : String
  pub target_edge : String
  pub start_time : ℕ
  pub end_time : ℕ
  pub magnitude : F

-- The tables of the ground truth.
pub record GroundTruth (F : Type 0) : Type 0 where
  pub ground_truth_spans : List TruthSpanRow
  pub ground_truth_edges : List TruthEdgeRow
  pub ground_truth_clock_offsets : List TruthOffsetRow
  pub ground_truth_incidents : List (TruthIncidentRow F)

-- `_TIME_MARGIN`
abbrev pub time_margin : ℕ
time_margin = 30 * second

-- The times from `lo - _TIME_MARGIN` to `hi + _TIME_MARGIN`.
abbrev pub near : ℕ × ℕ → ℕ → Bool
near (lo, hi) t = leb lo (t + time_margin) && leb t (hi + time_margin)

abbrev pub classification_text : Classification → String
classification_text ok = "ok"
classification_text orphan_missing_parent = "orphan_missing_parent"
classification_text cycle_rejected = "cycle_rejected"

abbrev pub truth_span : TruthSpanRow → Option TruthSpan
truth_span r = do
  trace_id ← decode_fixed_string r.trace_id
  span_id ← decode_fixed_string r.span_id
  parent_span_id ← decode_fixed_string r.parent_span_id
  some record { trace_id = trace_id; span_id = span_id; parent_span_id = parent_span_id }

abbrev pub landed_id : StoredSpan → Option SpanId
landed_id r = do
  trace_id ← decode_fixed_string r.trace_id
  span_id ← decode_fixed_string r.span_id
  some (trace_id, span_id)

abbrev pub classification_entry : ClassificationRow → Option (SpanId × String)
classification_entry r = do
  trace_id ← decode_fixed_string r.trace_id
  span_id ← decode_fixed_string r.span_id
  some ((trace_id, span_id), classification_text r.classification)

-- `min(generated_at)` and `max(generated_at)`, which the code expects to be NULL where there is no row.
unfoldable pub span_of_times : List ℕ → Option (ℕ × ℕ) → Option (ℕ × ℕ)
span_of_times [] range = range
span_of_times (t ∷ ts) none = span_of_times ts (some (t, t))
span_of_times (t ∷ ts) (some (lo, hi)) = span_of_times ts (some (min lo t, max hi t))

-- The loop over the rows of `_fetch_detected_offsets`; `out` and `best_confidence`, which have the same keys,
-- are one dictionary of an offset and its confidence.
abbrev pub is_surer : Option (ℤ × ℕ) → ℕ → Bool
is_surer none confidence = true
is_surer (some (offset_ns, best)) confidence = ltb best confidence

unfoldable pub best_offsets : List (String × (ℤ × ℕ)) → List OffsetRow → List (String × (ℤ × ℕ))
best_offsets out [] = out
best_offsets out (r ∷ rs) =
    let kept = best_offsets out rs in
    let taken = best_offsets (insert r.service_name (r.offset_ns, r.confidence) out) rs in
    if is_surer (lookup r.service_name out) r.confidence then taken else kept

-- `_fetch_detected_offsets` of the rows of `service_clock_offsets`, which are read without FINAL.
unfoldable pub fetch_detected_offsets : List OffsetRow → ℕ × ℕ → List (String × ℤ)
fetch_detected_offsets rows range =
    map (λ (e : String × (ℤ × ℕ)). (e.0, e.1.0))
      (best_offsets [] (
        sort (λ (a b : OffsetRow). leb b.confidence a.confidence)
          (filter (λ (r : OffsetRow). near range r.window_start) rows)))

module _ {F : Type 0} where
  -- The targets of a row; a row with an edge is about the edge.
  abbrev pub true_incident : TruthIncidentRow F → TrueIncident F
  true_incident r = record {
    incident_id = r.incident_id;
    type = r.type;
    target_type = if r.target_edge == "" then service else edge;
    target = if r.target_edge == "" then r.target_service else r.target_edge;
    start_time = r.start_time;
    end_time = r.end_time;
    magnitude = r.magnitude;
  }

  abbrev pub analyzer_incident : IncidentRow F → AnalyzerIncident
  analyzer_incident r = record {
    incident_id = r.incident_id;
    target_type = r.target_type;
    target = r.target;
    detector = r.detector;
    start_window = r.start_window;
    end_window = r.end_window;
    derived = not (eqb r.derived 0);
    root_cause_incident_id = r.root_cause_incident_id;
  }

  module _ (g : GroundTruth F) (run_id : String) where
    unfoldable pub fetch_ground_truth_spans : Option (List TruthSpan)
    fetch_ground_truth_spans =
        each truth_span (filter (λ r. r.run_id == run_id) g.ground_truth_spans)

    unfoldable pub fetch_ground_truth_edges : List (String × String)
    fetch_ground_truth_edges = firsts (
        map (λ (r : TruthEdgeRow). (r.caller_service, r.callee_service))
          (filter (λ r. r.run_id == run_id) g.ground_truth_edges))

    unfoldable pub fetch_ground_truth_offsets : List (String × ℤ)
    fetch_ground_truth_offsets = insert_all [] (
        map (λ (r : TruthOffsetRow). (r.service_name, r.offset_ns))
          (filter (λ r. r.run_id == run_id) g.ground_truth_clock_offsets))

    unfoldable pub fetch_ground_truth_incidents : List (TrueIncident F)
    fetch_ground_truth_incidents =
        map true_incident (filter (λ r. r.run_id == run_id) g.ground_truth_incidents)

    unfoldable pub fetch_run_time_range : Option (ℕ × ℕ)
    fetch_run_time_range =
        span_of_times
          (map (λ (r : TruthSpanRow). r.generated_at)
            (filter (λ r. r.run_id == run_id) g.ground_truth_spans))
          none

    -- `trace_id IN (SELECT DISTINCT trace_id ...)`
    abbrev pub in_run : String → Bool
    in_run trace_id =
        contains
          (map (λ (r : TruthSpanRow). r.trace_id)
            (filter (λ r. r.run_id == run_id) g.ground_truth_spans))
          trace_id

    unfoldable pub fetch_landed_span_ids : Tables F → Option (List SpanId)
    fetch_landed_span_ids t = do
      ids ← each landed_id (filter (λ r. in_run r.trace_id) t.spans)
      some (firsts ids)

    unfoldable pub fetch_classifications : Tables F → Option (List (SpanId × String))
    fetch_classifications t = do
      entries ← each classification_entry (filter (λ r. in_run r.trace_id) t.span_classifications)
      some (insert_all [] entries)

  -- Without FINAL; the pairs are distinct, so the rows that FINAL leaves out make no difference.
  unfoldable pub fetch_found_edges : Tables F → ℕ × ℕ → List (String × String)
  fetch_found_edges t range = firsts (
      map (λ (r : EdgeRow F). (r.caller_service, r.callee_service))
        (filter (λ (r : EdgeRow F). near range r.window_start) t.service_edges))

  unfoldable pub fetch_full_topology_edges : Tables F → List (String × String)
  fetch_full_topology_edges t =
      firsts (map (λ (r : EdgeRow F). (r.caller_service, r.callee_service)) t.service_edges)

  unfoldable pub fetch_analyzer_incidents : Tables F → ℕ × ℕ → List AnalyzerIncident
  fetch_analyzer_incidents t range =
      map analyzer_incident
        (filter (λ (r : IncidentRow F). near range r.start_window) t.detected_incidents)

  unfoldable pub fetch_total_detection_count : Tables F → ℕ × ℕ → ℕ
  fetch_total_detection_count t range =
      length (filter (λ (r : DetectionRow F). near range r.window_start) t.detections)
