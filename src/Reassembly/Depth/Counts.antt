-- ===== src/Reassembly/Depth/Counts.antt =====
-- reassembly.py: the depth of a trace against the number of its spans.
use distributed_tracing_plat.Prelude.{
  ℕ, ◌≤◌, ◌<◌, String, ◌≡◌, refl, Option, none, some, List, [], ◌∷◌, Bool, false, string_eq, filter,
  Elem, length, length-filter-le, arith, total,
}
use text.Mathlib.TextEquality.{eq_iff}
use distributed_tracing_plat.Reassembly.{
  SpanRow, links, span_ids, canonical_root, subtree_depth, trace_summary,
}
use distributed_tracing_plat.Reassembly.Links.{IsRoot, is_linked, total-children}
use distributed_tracing_plat.Reassembly.Depth.Loop.{subtree_depth_exact}
use distributed_tracing_plat.Reassembly.Summaries.{canonical_root_lem}

length-filter-lt :
    (p : SpanRow → Bool) (rows : List SpanRow) (r : SpanRow)
    → Elem r rows
    → p r ≡ false
    → length (filter p rows) < length rows
unfolding filter
length-filter-lt p [] r m h = absurd m
length-filter-lt p (x ∷ rows) r m h =
    ground (arith, length-filter-le p rows, length-filter-lt p rows r)

total-children-lt :
    (rows : List SpanRow) (r : SpanRow)
    → Elem r rows
    → IsRoot r
    → total (links rows).children < length rows
total-children-lt rows r m h = omega (
  arith,
  total-children rows,
  length-filter-lt (is_linked (span_ids rows)) rows r m
      (ground (arith, eq_iff r.parent_span_id "")),
)

depth_of-le :
    (rows : List SpanRow) (o : Option SpanRow)
    → canonical_root (links rows).roots ≡ o
    → elim o [ none ↦ 0 | some r ↦ subtree_depth r.span_id (links rows).children ] ≤ length rows
depth_of-le rows none h = omega arith
depth_of-le rows (some c) h =
    let (m, root, _) = canonical_root_lem rows c h in
    omega (
      arith,
      (subtree_depth_exact (links rows).children c.span_id).3,
      total-children-lt rows c m root,
    )

-- No trace is reported deeper than it has spans.
pub depth-le-span_count :
    (trace_id : String) (rows : List SpanRow) (window_start : ℕ)
    → (trace_summary trace_id rows window_start).depth
      ≤ (trace_summary trace_id rows window_start).span_count
unfolding trace_summary
depth-le-span_count trace_id rows window_start =
    depth_of-le rows (canonical_root (links rows).roots) refl
