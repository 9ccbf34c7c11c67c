-- ===== src/Reassembly/Samples.antt =====
-- reassembly.py on small traces, and the theorems about it at such traces.
use distributed_tracing_plat.Prelude.{
  ℕ, ◌+◌, ◌≤◌, String, ◌≡◌, ◌↔◌, refl, List, [], ◌∷◌, map, true, false, string_eq, Elem, contains,
  filter, get_group, push, group, group_from, lookup, insert, insert_all, total, arith,
}
use text.Mathlib.TextEquality.{eq_iff}
use distributed_tracing_plat.Reassembly.{
  SpanRow, Classification, ok, orphan_missing_parent, cycle_rejected, Reason, Children, links,
  link_rows, bfs_loop, bfs_mark, mark_seeds, queue_children, depth_loop, subtree_depth, earlier,
  earliest, visited_ids, cycle_rows, ok_rows, classify, trace_classifications, canonical_root,
  incompleteness, is_nothing, trace_summary, reassemble, pairs_in_trace, pairs_of_traces,
  resolved_parent_child_pairs,
}
use distributed_tracing_plat.Reassembly.Marking.{Reached}
use distributed_tracing_plat.Reassembly.Verdicts.{Verdict, classifications_exact}
use distributed_tracing_plat.Reassembly.Order.{SameRows, classifications-SameRows}
use distributed_tracing_plat.Reassembly.Summaries.{OneRoot, complete_iff, RootsApart}
use distributed_tracing_plat.Reassembly.Depth.Loop.{Level, subtree_depth_exact}
use distributed_tracing_plat.Reassembly.Pairs.{Linked, SpansApart, resolved_pairs_exact}

program : Unit {0}
unfolding links link_rows bfs_loop bfs_mark mark_seeds queue_children depth_loop subtree_depth
    earlier earliest visited_ids cycle_rows ok_rows trace_classifications canonical_root
    incompleteness is_nothing trace_summary reassemble pairs_in_trace pairs_of_traces
    resolved_parent_child_pairs contains filter push group group_from get_group lookup insert
    insert_all
program = tt

abbrev span : String → String → String → ℕ → SpanRow
span span_id parent_span_id service_name start = record {
  trace_id = "t";
  span_id = span_id;
  parent_span_id = parent_span_id;
  service_name = service_name;
  start_time_unix_nano = start;
  end_time_unix_nano = start + 10;
  status_code = 1;
}

abbrev front : SpanRow
front = span "a" "" "frontend" 5

abbrev checkout : SpanRow
checkout = span "b" "a" "checkout" 6

abbrev stray : SpanRow
stray = span "c" "x" "payments" 7

abbrev below_stray : SpanRow
below_stray = span "d" "c" "inventory" 8

-- A root with a child, an orphan with a child, and two spans that name each other.
abbrev tangled : List SpanRow
tangled =
    checkout ∷ front ∷ below_stray ∷ stray ∷ span "e" "f" "left" 9 ∷ span "f" "e" "right" 9 ∷ []

labels : List SpanRow → List (String × Classification)
labels rows = map (λ c. (c.span_id, c.classification)) (trace_classifications "t" rows 0)

labels_test :
    labels tangled
    ≡ ("c", orphan_missing_parent)
      ∷ ("e", cycle_rejected)
      ∷ ("f", cycle_rejected)
      ∷ ("b", ok)
      ∷ ("a", ok)
      ∷ ("d", ok)
      ∷ []
unfolding program labels
labels_test = refl

summary_test :
    (trace_summary "t" tangled 0 ≡ record {
      trace_id = "t";
      window_start = 0;
      depth = 2;
      span_count = 6;
      root_service = "frontend";
      complete = false;
      incompleteness_reason = Reason.orphan_missing_parent;
      orphan_count = 1;
    })
    × ((trace_summary "t" (front ∷ checkout ∷ []) 0).complete ≡ true)
unfolding program
summary_test = (refl, refl)

pairs_test : resolved_parent_child_pairs (checkout ∷ stray ∷ front ∷ []) ≡ (front, checkout) ∷ []
unfolding program
pairs_test = refl

classifications_exact_example :
    Elem (classify "t" 0 ok checkout) (trace_classifications "t" tangled 0) ↔ (
      (r : SpanRow) × Elem r tangled
      × Verdict tangled r ok
      × (classify "t" 0 ok r ≡ classify "t" 0 ok checkout))
classifications_exact_example = classifications_exact "t" tangled 0 (classify "t" 0 ok checkout)

swapped : SameRows (checkout ∷ front ∷ []) (front ∷ checkout ∷ [])
swapped r = ground arith

classifications-SameRows_example :
    Elem (classify "t" 0 ok front) (trace_classifications "t" (checkout ∷ front ∷ []) 0)
    ↔ Elem (classify "t" 0 ok front) (trace_classifications "t" (front ∷ checkout ∷ []) 0)
classifications-SameRows_example =
    classifications-SameRows "t" (checkout ∷ front ∷ []) (front ∷ checkout ∷ []) 0
      (classify "t" 0 ok front) swapped

complete_iff_example :
    ((trace_summary "t" tangled 0).complete ≡ true)
    ↔ (OneRoot tangled × ((r : SpanRow) → Elem r tangled → Verdict tangled r ok))
complete_iff_example = complete_iff "t" tangled 0

roots_apart : RootsApart (checkout ∷ front ∷ [])
roots_apart a b m n e = ground arith

abbrev tree : Children
tree = ("a", "b" ∷ "c" ∷ []) ∷ ("c", "d" ∷ []) ∷ []

subtree_depth_exact_example :
    ((a : String) × Level tree "a" a (subtree_depth "a" tree))
    × ((a : String)
        → Reached tree ("a" ∷ []) a
        → (k : ℕ) × Level tree "a" a k × (k ≤ subtree_depth "a" tree))
    × (1 ≤ subtree_depth "a" tree)
    × (subtree_depth "a" tree ≤ total tree + 1)
subtree_depth_exact_example = subtree_depth_exact tree "a"

spans_apart : SpansApart (checkout ∷ front ∷ [])
spans_apart a b m n e q = ground (arith, eq_iff "a" "b")

resolved_pairs_exact_example :
    Elem (front, checkout) (resolved_parent_child_pairs (checkout ∷ front ∷ [])) ↔ (
      Elem front (checkout ∷ front ∷ [])
      × Elem checkout (checkout ∷ front ∷ [])
      × Linked front checkout)
resolved_pairs_exact_example =
    resolved_pairs_exact (checkout ∷ front ∷ []) front checkout spans_apart
