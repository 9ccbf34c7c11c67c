-- ===== src/Evaluation/Samples.antt =====
-- eval.py on a run of four spans, and the theorem about it at that run.
use distributed_tracing_plat.Prelude.{
  ◌≡◌, refl, String, string_eq, pair_eq, List, [], ◌∷◌, filter, contains, lookup, some, none, Bool,
  true, false, insert, insert_all, add_keys,
}
use distributed_tracing_plat.Prelude.Int.{ℤ, pos, ◌+ℤ◌}
use distributed_tracing_plat.Prelude.Fixed.{fixed}
use distributed_tracing_plat.Evaluation.{
  TruthSpan, SpanId, tally_span, tally_spans, EvalResult, f1_of, compute_metrics,
}
use distributed_tracing_plat.Targets.{service}
use distributed_tracing_plat.Evaluation.Incidents.{
  error_burst, TrueIncident, AnalyzerIncident, IncidentEvalResult, matches, first_match,
  detection_latency_of, detail, overlapping_targets, found_incidents, compute_incident_metrics,
}

abbrev truth : String → String → TruthSpan
truth span_id parent_span_id = record {
  trace_id = "t";
  span_id = span_id;
  parent_span_id = parent_span_id;
}

-- A root, a child, and two spans below a span that was dropped; one of them is misclassified.
abbrev spans : List TruthSpan
spans = truth "a" "" ∷ truth "b" "a" ∷ truth "c" "x" ∷ truth "d" "x" ∷ []

abbrev landed : List SpanId
landed = ("t", "a") ∷ ("t", "b") ∷ ("t", "c") ∷ ("t", "d") ∷ []

abbrev labels : List (SpanId × String)
labels = (("t", "b"), "ok") ∷ (("t", "c"), "orphan_missing_parent") ∷ (("t", "d"), "ok") ∷ []

abbrev edges : List (String × String)
edges = ("frontend", "checkout") ∷ []

run : EvalResult ℤ
unfolding compute_metrics
run =
    compute_metrics "run" spans landed labels edges edges (("checkout", pos 5) ∷ [])
      (("checkout", pos 4) ∷ [])

run_test :
    (run.attachment_denominator ≡ 1)
    × (run.attachment_correct ≡ 1)
    × (run.orphan_denominator ≡ 2)
    × (run.orphan_correct ≡ 1)
    × (run.edge_f1 ≡ some (pos 1000))
unfolding run compute_metrics tally_spans tally_span contains lookup filter f1_of ◌+ℤ◌
run_test = (refl, refl, refl, refl, refl)

abbrev burst : TrueIncident ℤ
burst = record {
  incident_id = "i";
  type = error_burst;
  target_type = service;
  target = "payments";
  start_time = 40;
  end_time = 80;
  magnitude = pos 500;
}

abbrev reported : String → String → Bool → String → AnalyzerIncident
reported incident_id target derived root = record {
  incident_id = incident_id;
  target_type = service;
  target = target;
  detector = "error_rate";
  start_window = 30;
  end_window = 60;
  derived = derived;
  root_cause_incident_id = root;
}

abbrev incidents : List AnalyzerIncident
incidents = reported "p" "payments" false "" ∷ reported "c" "checkout" true "p" ∷ []

abbrev evaluated : IncidentEvalResult ℤ
evaluated = compute_incident_metrics "run" (burst ∷ []) incidents 4 none [] [] 30

evaluated_test :
    (evaluated.true_positive_count ≡ 1)
    × (evaluated.found_incident_count ≡ 1)
    × (evaluated.root_cause_total ≡ 1)
    × (evaluated.root_cause_correct ≡ 1)
unfolding compute_incident_metrics detail matches first_match detection_latency_of
    overlapping_targets found_incidents filter contains lookup insert insert_all add_keys
evaluated_test = (refl, refl, refl, refl)
