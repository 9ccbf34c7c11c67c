-- ===== src/Suppression/Samples.antt =====
-- suppression.py on a small call graph, and the theorems about it at that graph.
use distributed_tracing_plat.Prelude.{
  ℕ, ◌*◌, ◌≡◌, refl, sym, ap, ◌∙◌, inl, inr, String, string_eq, pair_eq, false, List, [], ◌∷◌, map,
  Elem, insert, insert_all, lookup, get_group, push, group_from, group, contains, vals, arith,
}
use text.Mathlib.TextEquality.{eq_iff}
use distributed_tracing_plat.Prelude.Int.{ℤ, pos}
use distributed_tracing_plat.Prelude.Fixed.{fixed}
use distributed_tracing_plat.Targets.{service, edge, kind_eq, TargetKey, target_key}
use distributed_tracing_plat.Detectors.{Detection, Severity, warning, critical}
use distributed_tracing_plat.Suppression.{
  insert_by_start, sort_by_start, runs_from, runs, decimal_from, whole_seconds, higher, peak,
  build_incident, build_incidents, incidents_of, GroupedIncident, group_detections, by_target_of,
  overlaps, least_label, affected, choose, resolve_root, root_of, resolve_service, resolve_edge,
  derive_edge, resolve_all, resolved_incidents, replace_resolved, suppress_propagated,
}
use distributed_tracing_plat.Suppression.Runs.{concat, Apart, runs_exact}
use distributed_tracing_plat.Suppression.Endings.{root_of-fuel}
use distributed_tracing_plat.Suppression.Outcomes.{
  Pairwise, IdsApart, Outcome, suppress_propagated_sound,
}

program : Unit {0}
unfolding insert_by_start sort_by_start runs_from runs decimal_from whole_seconds higher peak
    build_incident build_incidents incidents_of group_detections overlaps least_label affected
    choose resolve_root resolve_service resolve_edge derive_edge resolve_all resolved_incidents
    replace_resolved suppress_propagated insert insert_all lookup get_group push group_from group
    contains
program = tt

abbrev seconds : ℕ → ℕ
seconds n = n * 1_000_000_000

abbrev slow : TargetKey → ℕ → Severity → Detection ℤ
slow target start severity = record {
  window_start = seconds start;
  target = target;
  detector = "call_rate";
  severity = severity;
  observed_value = pos 0;
  baseline_value = pos 0;
  deviation = pos start;
}

abbrev checkout : TargetKey
checkout = target_key service "" "checkout"

abbrev payments : TargetKey
payments = target_key service "" "payments"

abbrev call : TargetKey
call = target_key edge "checkout" "payments"

-- Checkout at 60, 30 and 120 seconds, payments at 60, and the edge between them at 60.
abbrev detections : List (Detection ℤ)
detections =
    slow checkout 60 critical
    ∷ slow payments 60 warning
    ∷ slow checkout 30 warning
    ∷ slow call 60 warning
    ∷ slow checkout 120 warning
    ∷ []

ids_test :
    map (λ (i : GroupedIncident ℤ). i.incident_id) (group_detections detections (seconds 30))
    ≡ "service:checkout:call_rate:30" ∷ "service:checkout:call_rate:120"
      ∷ "service:payments:call_rate:60" ∷ "edge:checkout->payments:call_rate:60" ∷ []
unfolding program
ids_test = refl

abbrev calls : List (String × String)
calls = ("checkout", "payments") ∷ []

abbrev roots : List (GroupedIncident ℤ) → List (String × String)
roots is = map (λ (i : GroupedIncident ℤ). (i.incident_id, i.root_cause_incident_id)) is

-- The incident of checkout that overlaps the one of payments stays without a root, since a later one has its
-- key; the edge's incident has one.
roots_test :
    roots (suppress_propagated (group_detections detections (seconds 30)) calls)
    ≡ ("service:checkout:call_rate:30", "")
      ∷ ("service:checkout:call_rate:120", "")
      ∷ ("service:payments:call_rate:60", "")
      ∷ ("edge:checkout->payments:call_rate:60", "service:payments:call_rate:60")
      ∷ []
unfolding program
roots_test = refl

abbrev incident : String → TargetKey → ℕ → ℕ → GroupedIncident ℤ
incident incident_id target start end = record {
  incident_id = incident_id;
  target = target;
  detector = "latency";
  start_window = start;
  end_window = end;
  window_count = 2;
  peak_severity = warning;
  peak_deviation = pos 0;
  derived = false;
  root_cause_incident_id = "";
}

abbrev upper : GroupedIncident ℤ
upper = incident "upper" checkout 30 60

abbrev lower : GroupedIncident ℤ
lower = incident "lower" payments 60 90

abbrev pair : List (GroupedIncident ℤ)
pair = upper ∷ lower ∷ []

pair_test : roots (suppress_propagated pair calls) ≡ ("upper", "lower") ∷ ("lower", "") ∷ []
unfolding program
pair_test = refl

-- Frontend overlaps checkout only, but its root is payments: the windows of the two do not overlap.
far_root_test :
    roots (
      suppress_propagated
        (incident "front" (target_key service "" "frontend") 0 30 ∷ pair)
        (("frontend", "checkout") ∷ calls))
    ≡ ("front", "lower") ∷ ("upper", "lower") ∷ ("lower", "") ∷ []
unfolding program
far_root_test = refl

runs_exact_example :
    (concat (runs 30 (slow checkout 1 warning ∷ slow checkout 2 warning ∷ []))
      ≡ slow checkout 1 warning ∷ slow checkout 2 warning ∷ [])
    × Apart 30 (runs 30 (slow checkout 1 warning ∷ slow checkout 2 warning ∷ []))
runs_exact_example = runs_exact 30 (slow checkout 1 warning ∷ slow checkout 2 warning ∷ [])

upper-Elem : Elem upper (vals (by_target_of pair))
unfolding insert insert_all
upper-Elem = inl refl

root_of-fuel_example :
    resolve_root (by_target_of pair) (group calls) 9 upper []
    ≡ root_of (by_target_of pair) (group calls) upper
unfolding insert insert_all
root_of-fuel_example =
    root_of-fuel (by_target_of pair) (group calls) 9 upper upper-Elem (omega arith)

abbrev id_of : GroupedIncident ℤ → String
id_of i = i.incident_id

upper-ne-lower : ¬ (id_of upper ≡ id_of lower)
upper-ne-lower h = ground (arith, h, eq_iff "upper" "lower")

pair-IdsApart : IdsApart pair calls
pair-IdsApart i j (inl p) (inl r) q = sym p ∙ r
pair-IdsApart i j (inr (inl p)) (inr (inl r)) q = sym p ∙ r
pair-IdsApart i j (inl p) (inr (inl r)) q =
    absurd (upper-ne-lower (ap id_of p ∙ q ∙ ap id_of (sym r)))
pair-IdsApart i j (inr (inl p)) (inl r) q =
    absurd (upper-ne-lower (ap id_of r ∙ sym q ∙ ap id_of (sym p)))
pair-IdsApart i j (inr (inr m)) n q = absurd m
pair-IdsApart i j (inl p) (inr (inr n)) q = absurd n
pair-IdsApart i j (inr (inl p)) (inr (inr n)) q = absurd n

suppress_propagated_sound_example :
    Pairwise (Outcome pair calls) pair (suppress_propagated pair calls)
suppress_propagated_sound_example = suppress_propagated_sound pair calls pair-IdsApart
