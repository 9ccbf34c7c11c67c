-- ===== src/Clockskew/Samples.antt =====
-- clockskew.py on a window with one slow clock, and the theorems about it at that window.
use distributed_tracing_plat.Prelude.{
  ℕ, ◌≡◌, ◌↔◌, refl, String, string_eq, pair_eq, List, [], ◌∷◌, map, Elem, sort, insert_sorted,
  contains, lookup, insert, insert_all, push, group, group_from, get_group,
}
use distributed_tracing_plat.Prelude.Int.{ℤ, pos, negsuc, ◌+ℤ◌, ◌-ℤ◌, ◌*ℤ◌}
use distributed_tracing_plat.Statutil.{median, middle}
use distributed_tracing_plat.Reassembly.{
  SpanRow, resolved_parent_child_pairs, pairs_in_trace, pairs_of_traces,
}
use distributed_tracing_plat.Clockskew.{
  starts_before_parent, ClockViolation, violation, add_violation, violations_of, detect_violations,
  smallest, busiest, primary_caller, round_half, offset_of, is_primary, reaches, visit_edge,
  visit_edges, visit_frontier, search_loop, search, offsets_from, gaps_by_edge, estimate_offsets,
  ServiceOffset,
}
use distributed_tracing_plat.Clockskew.Violations.{Violates, detect_violations_exact}
use distributed_tracing_plat.Clockskew.Rounds.{search-drains}

program : Unit {0}
unfolding resolved_parent_child_pairs pairs_of_traces pairs_in_trace lookup insert insert_all push
    group group_from get_group contains sort insert_sorted median middle ◌+ℤ◌ ◌-ℤ◌ ◌*ℤ◌ violation
    add_violation violations_of detect_violations smallest busiest primary_caller round_half
    offset_of is_primary reaches visit_edge visit_edges visit_frontier search_loop search
    offsets_from estimate_offsets
program = tt

abbrev span : String → String → String → ℕ → ℕ → SpanRow
span span_id parent_span_id service_name start end = record {
  trace_id = "t";
  span_id = span_id;
  parent_span_id = parent_span_id;
  service_name = service_name;
  start_time_unix_nano = start;
  end_time_unix_nano = end;
  status_code = 1;
}

-- Each call starts 2 ns after its parent, but the clock of payments is 50 ns behind.
abbrev front : SpanRow
front = span "a" "" "frontend" 100 200

abbrev checkout : SpanRow
checkout = span "b" "a" "checkout" 102 180

abbrev payments : SpanRow
payments = span "c" "b" "payments" 54 90

abbrev window : List SpanRow
window = front ∷ checkout ∷ payments ∷ []

early : ClockViolation
early = record { parent = checkout; child = payments; kind = starts_before_parent }

violations_test : detect_violations window ≡ early ∷ []
unfolding program early
violations_test = refl

abbrev named_offset : String × ServiceOffset → String × ℤ
named_offset (name, offset) = (name, offset.offset_ns)

offsets_test :
    map named_offset (estimate_offsets window "frontend")
    ≡ ("frontend", pos 0) ∷ ("checkout", pos 0) ∷ ("payments", negsuc 49) ∷ []
unfolding program
offsets_test = refl

detect_violations_exact_example : Elem early (detect_violations window) ↔ (
    Elem (early.parent, early.child) (resolved_parent_child_pairs window)
    × Violates early.kind early.parent early.child)
detect_violations_exact_example = detect_violations_exact window early

search-drains_example :
    (search (gaps_by_edge (resolved_parent_child_pairs window)) (pos 4) "frontend").0 ≡ []
search-drains_example =
    search-drains (gaps_by_edge (resolved_parent_child_pairs window)) (pos 4) "frontend"
