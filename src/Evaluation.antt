-- ===== src/Evaluation.antt =====
-- analyzer/src/analyzer/eval.py, `compute_metrics`: a run's results against the ground truth. A set is a
-- list without repetitions.
pub mod Scores
pub mod Incidents
pub mod Depths
pub mod Queries
pub mod Magnitudes
pub mod Run
pub mod Causes
mod Samples
mod StoredSamples
use distributed_tracing_plat.Prelude.{
  ℕ, suc, ◌+◌, Bool, true, false, not, ◌&&◌, ◌||◌, String, string_eq, pair_eq, ◌==◌, Option, none,
  some, List, [], ◌∷◌, length, filter, map, eqb, if◌then◌else◌, contains, lookup,
}
use distributed_tracing_plat.Prelude.Int.{ℤ, ◌-ℤ◌}
use distributed_tracing_plat.Prelude.Floats.{Floats, zero_F}

-- A span of the ground truth.
pub record TruthSpan : Type 0 where
  pub trace_id : String
  pub span_id : String
  pub parent_span_id : String

abbrev pub SpanId : Type 0
SpanId = String × String

pub record Tally : Type 0 where
  pub attachment_total : ℕ
  pub attachment_correct : ℕ
  pub orphan_total : ℕ
  pub orphan_correct : ℕ

abbrev pub own_id : TruthSpan → SpanId
own_id s = (s.trace_id, s.span_id)

abbrev pub parent_id : TruthSpan → SpanId
parent_id s = (s.trace_id, s.parent_span_id)

-- `classification == label`, where there may be none.
abbrev pub is_label : String → Option String → Bool
is_label label none = false
is_label label (some c) = c == label

abbrev pub bump : Bool → ℕ → ℕ
bump true n = n + 1
bump false n = n

abbrev pub skipped : List SpanId → TruthSpan → Bool
skipped landed s = (s.parent_span_id == "") || not (contains landed (own_id s))

-- The body of the loop over the spans of the ground truth.
pub tally_span : List SpanId → List (SpanId × String) → Tally → TruthSpan → Tally
tally_span landed classifications t s =
    let classification = lookup (own_id s) classifications in
    if skipped landed s
    then t
    else if contains landed (parent_id s)
    then record t {
      attachment_total = t.attachment_total + 1;
      attachment_correct = bump (is_label "ok" classification) t.attachment_correct;
    }
    else record t {
      orphan_total = t.orphan_total + 1;
      orphan_correct = bump (is_label "orphan_missing_parent" classification) t.orphan_correct;
    }

pub tally_spans : List SpanId → List (SpanId × String) → Tally → List TruthSpan → Tally
tally_spans landed classifications t [] = t
tally_spans landed classifications t (s ∷ ss) =
    tally_spans landed classifications (tally_span landed classifications t s) ss

abbrev pub no_tally : Tally
no_tally = record {
  attachment_total = 0;
  attachment_correct = 0;
  orphan_total = 0;
  orphan_correct = 0;
}

pub record ClockError : Type 0 where
  pub true_ns : ℤ
  pub detected_ns : ℤ
  pub error_ns : ℤ

abbrev pub add_error :
    String → ℤ → Option ℤ → List (String × ClockError) → List (String × ClockError)
add_error service true_ns none rest = rest
add_error service true_ns (some detected_ns) rest =
    (
      service,
      record { true_ns = true_ns; detected_ns = detected_ns; error_ns = detected_ns -ℤ true_ns },
    )
    ∷ rest

-- `clock_errors`; the keys of `true_offsets` are different.
pub clock_errors : List (String × ℤ) → List (String × ℤ) → List (String × ClockError)
clock_errors [] detected_offsets = []
clock_errors ((service, true_ns) ∷ rest) detected_offsets =
    add_error service true_ns (lookup service detected_offsets) (clock_errors rest detected_offsets)

-- `len(found_edges & true_edges)`
abbrev pub common_edges : List (String × String) → List (String × String) → ℕ
common_edges found true_edges = length (filter (contains true_edges) found)

abbrev pub is_empty : {A : Type 0} → List A → Bool
is_empty [] = true
is_empty (x ∷ xs) = false

pub record EvalResult (F : Type 0) : Type 0 where
  pub run_id : String
  pub ground_truth_span_count : ℕ
  pub landed_span_count : ℕ
  pub true_edge_count : ℕ
  pub found_edge_count : ℕ
  pub edge_true_positive_count : ℕ
  pub edge_precision : Option F
  pub edge_recall : Option F
  pub edge_f1 : Option F
  pub attachment_denominator : ℕ
  pub attachment_correct : ℕ
  pub attachment_accuracy : Option F
  pub orphan_denominator : ℕ
  pub orphan_correct : ℕ
  pub orphan_accuracy : Option F
  pub clock_offset_errors : List (String × ClockError)

module _ {F : Type 0} ⦃f : Floats F⦄ where
  -- `n / d if d else 0.0`
  abbrev pub ratio : ℕ → ℕ → F
  ratio n d = if eqb d 0 then zero_F else f.div (f.of_ℕ n) (f.of_ℕ d)

  -- `n / d if d else None`
  abbrev pub ratio_if_any : ℕ → ℕ → Option F
  ratio_if_any n d = if eqb d 0 then none else some (f.div (f.of_ℕ n) (f.of_ℕ d))

  pub f1_of : F → F → F
  f1_of precision recall =
      if f.lt zero_F (f.add precision recall)
      then f.div (f.mul (f.mul (f.of_ℕ 2) precision) recall) (f.add precision recall)
      else zero_F

  pub compute_metrics :
      String
      → List TruthSpan
      → List SpanId
      → List (SpanId × String)
      → List (String × String)
      → List (String × String)
      → List (String × ℤ)
      → List (String × ℤ)
      → EvalResult F
  compute_metrics run_id gt_spans landed classifications true_edges found_edges true_offsets
        detected_offsets =
      let t = tally_spans landed classifications no_tally gt_spans in
      let true_positive = common_edges found_edges true_edges in
      let no_edges = is_empty found_edges && is_empty true_edges in
      let precision = ratio true_positive (length found_edges) in
      let recall = ratio true_positive (length true_edges) in
      record {
        run_id = run_id;
        ground_truth_span_count = length gt_spans;
        landed_span_count = length landed;
        true_edge_count = length true_edges;
        found_edge_count = length found_edges;
        edge_true_positive_count = true_positive;
        edge_precision = if no_edges then none else some precision;
        edge_recall = if no_edges then none else some recall;
        edge_f1 = if no_edges then none else some (f1_of precision recall);
        attachment_denominator = t.attachment_total;
        attachment_correct = t.attachment_correct;
        attachment_accuracy = ratio_if_any t.attachment_correct t.attachment_total;
        orphan_denominator = t.orphan_total;
        orphan_correct = t.orphan_correct;
        orphan_accuracy = ratio_if_any t.orphan_correct t.orphan_total;
        clock_offset_errors = clock_errors true_offsets detected_offsets;
      }
