-- ===== src/Evaluation/Incidents.antt =====
-- eval.py, `compute_incident_metrics`: incidents against those of the ground truth. Times are in
-- nanoseconds, and the target of an incident is its label.
use distributed_tracing_plat.Prelude.{
  ℕ, ◌+◌, ◌-◌, Bool, false, not, ◌&&◌, ◌||◌, String, string_eq, pair_eq, ◌==◌, Option, none, some,
  List, [], ◌∷◌, length, filter, map, leb, ltb, if◌then◌else◌, contains, lookup, insert_all, firsts,
}
use distributed_tracing_plat.Prelude.Floats.{Floats, zero_F}
use distributed_tracing_plat.Targets.{TargetKind, kind_eq}
use distributed_tracing_plat.Evaluation.{ratio_if_any, is_empty}

pub data IncidentType : Type 0 where
  latency_spike latency_tail error_burst throughput_drop edge_disappearance : IncidentType

-- `_TYPE_TO_DETECTOR`
abbrev pub detector_of : IncidentType → String
detector_of latency_spike = "percentile_deviation"
detector_of latency_tail = "percentile_deviation"
detector_of error_burst = "error_rate"
detector_of throughput_drop = "call_rate"
detector_of edge_disappearance = "call_rate"

pub record TrueIncident (F : Type 0) : Type 0 where
  pub incident_id : String
  pub type : IncidentType
  pub target_type : TargetKind
  pub target : String
  pub start_time : ℕ
  pub end_time : ℕ
  pub magnitude : F

pub record AnalyzerIncident : Type 0 where
  pub incident_id : String
  pub target_type : TargetKind
  pub target : String
  pub detector : String
  pub start_window : ℕ
  pub end_window : ℕ
  pub derived : Bool
  pub root_cause_incident_id : String

pub record IncidentDetectionDetail (F : Type 0) : Type 0 where
  pub incident_id : String
  pub type : IncidentType
  pub target_type : TargetKind
  pub target : String
  pub target_depth : Option ℕ
  pub magnitude : F
  pub detected : Bool
  pub detection_latency : Option ℕ
  pub observed_magnitude : Option F

pub record IncidentEvalResult (F : Type 0) : Type 0 where
  pub run_id : String
  pub true_incident_count : ℕ
  pub found_incident_count : ℕ
  pub true_positive_count : ℕ
  pub precision : Option F
  pub recall : Option F
  pub f1 : Option F
  pub root_cause_total : ℕ
  pub root_cause_correct : ℕ
  pub root_cause_accuracy : Option F
  pub total_detection_count : ℕ
  pub healthy_control_detections_per_hour : Option F
  pub detections : List (IncidentDetectionDetail F)

-- `overlaps` of an analyzer's incident and a true one.
abbrev pub overlaps_true : {F : Type 0} → AnalyzerIncident → TrueIncident F → Bool
overlaps_true ai ti = leb ai.start_window ti.end_time && leb ti.start_time ai.end_window

unfoldable pub matches :
    {F : Type 0} → List AnalyzerIncident → TrueIncident F → List AnalyzerIncident
matches analyzer_incidents ti =
    filter
      (λ ai.
        (ai.detector == detector_of ti.type)
        && (ai.target_type == ti.target_type)
        && (ai.target == ti.target)
        && overlaps_true ai ti)
      analyzer_incidents

-- `min(matches, key=lambda a: a.start_window)`
unfoldable pub first_match : AnalyzerIncident → List AnalyzerIncident → AnalyzerIncident
first_match best [] = best
first_match best (a ∷ later) =
    first_match (if ltb a.start_window best.start_window then a else best) later

-- `latency`, where a difference below zero is zero.
unfoldable pub detection_latency_of :
    {F : Type 0} → ℕ → TrueIncident F → List AnalyzerIncident → Option ℕ
detection_latency_of window ti [] = none
detection_latency_of window ti (a ∷ later) =
    some ((first_match a later).start_window + window - ti.start_time)

unfoldable pub detail :
    {F : Type 0}
    → List AnalyzerIncident
    → List (String × Option F)
    → List (String × ℕ)
    → ℕ
    → TrueIncident F
    → IncidentDetectionDetail F
detail analyzer_incidents observed_magnitudes depths window ti =
    let found = matches analyzer_incidents ti in
    record {
      incident_id = ti.incident_id;
      type = ti.type;
      target_type = ti.target_type;
      target = ti.target;
      target_depth = lookup ti.target depths;
      magnitude = ti.magnitude;
      detected = not (is_empty found);
      detection_latency = detection_latency_of window ti found;
      observed_magnitude = elim (lookup ti.incident_id observed_magnitudes) [
        | none ↦ none
        | some o ↦ o
      ];
    }

-- `overlapping_true_targets`
unfoldable pub overlapping_targets :
    {F : Type 0} → List (TrueIncident F) → AnalyzerIncident → List String
overlapping_targets true_incidents ai =
    map (λ ti. ti.target) (filter (overlaps_true ai) true_incidents)

-- A derived incident about which suppression had an opinion, and whether the opinion is right.
abbrev pub has_opinion : {F : Type 0} → List (TrueIncident F) → AnalyzerIncident → Bool
has_opinion true_incidents ai = ai.derived && not (is_empty (overlapping_targets true_incidents ai))

abbrev pub resolves_to : List String → Option String → Bool
resolves_to targets none = false
resolves_to targets (some target) = contains targets target

abbrev pub is_right :
    {F : Type 0} → List (TrueIncident F) → List (String × String) → AnalyzerIncident → Bool
is_right true_incidents id_to_target ai =
    resolves_to (overlapping_targets true_incidents ai)
      (lookup ai.root_cause_incident_id id_to_target)

abbrev pub id_to_target_of : List AnalyzerIncident → List (String × String)
id_to_target_of analyzer_incidents =
    insert_all [] (map (λ (ai : AnalyzerIncident). (ai.incident_id, ai.target)) analyzer_incidents)

-- `found`: the different targets and detectors of the independent incidents that count.
unfoldable pub found_incidents : {F : Type 0} → List (TrueIncident F) → List AnalyzerIncident → ℕ
found_incidents true_incidents analyzer_incidents =
    let counts : AnalyzerIncident → Bool = λ ai.
      not ai.derived
      && (is_empty true_incidents || not (is_empty (overlapping_targets true_incidents ai))) in
    let keys : List (TargetKind × (String × String)) =
      map (λ ai. (ai.target_type, (ai.target, ai.detector))) (filter counts analyzer_incidents) in
    let different : List (TargetKind × (String × String)) = firsts keys in length different

module _ {F : Type 0} ⦃f : Floats F⦄ where
  pub f1_if_any : Option F → Option F → Option F
  f1_if_any none recall = none
  f1_if_any (some p) none = none
  f1_if_any (some p) (some r) =
      if f.is_zero (f.add p r)
      then some zero_F
      else some (f.div (f.mul (f.mul (f.of_ℕ 2) p) r) (f.add p r))

  -- `healthy_rate`, of a run's duration, which is none or zero if it is not known.
  pub healthy_rate : List (TrueIncident F) → ℕ → Option F → Option F
  healthy_rate true_incidents total_detection_count none = none
  healthy_rate true_incidents total_detection_count (some duration) =
      if is_empty true_incidents && not (f.is_zero duration)
      then some (f.div (f.of_ℕ total_detection_count) (f.div duration (f.of_ℕ 3600)))
      else none

  unfoldable pub compute_incident_metrics :
      String
      → List (TrueIncident F)
      → List AnalyzerIncident
      → ℕ
      → Option F
      → List (String × Option F)
      → List (String × ℕ)
      → ℕ
      → IncidentEvalResult F
  compute_incident_metrics run_id true_incidents analyzer_incidents total duration observed depths
        window =
      let details = map (detail analyzer_incidents observed depths window) true_incidents in
      let true_positive = length (filter (λ (d : IncidentDetectionDetail F). d.detected) details) in
      let opinions = filter (has_opinion true_incidents) analyzer_incidents in
      let correct =
        length (filter (is_right true_incidents (id_to_target_of analyzer_incidents)) opinions) in
      let found = found_incidents true_incidents analyzer_incidents in
      let precision = ratio_if_any true_positive found in
      let recall = ratio_if_any true_positive (length true_incidents) in
      record {
        run_id = run_id;
        true_incident_count = length true_incidents;
        found_incident_count = found;
        true_positive_count = true_positive;
        precision = precision;
        recall = recall;
        f1 = f1_if_any precision recall;
        root_cause_total = length opinions;
        root_cause_correct = correct;
        root_cause_accuracy = ratio_if_any correct (length opinions);
        total_detection_count = total;
        healthy_control_detections_per_hour = healthy_rate true_incidents total duration;
        detections = details;
      }
