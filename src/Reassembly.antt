-- ===== src/Reassembly.antt =====
-- analyzer/src/analyzer/reassembly.py: a window's spans grouped by trace, linked into trees and
-- classified. A list of span identifiers stands for a set, and an association list for a dictionary.
pub mod Links
pub mod Marking
pub mod Anchors
pub mod Verdicts
pub mod Order
pub mod Depth
pub mod Pairs
pub mod Summaries
pub mod Coverage
mod Samples
use distributed_tracing_plat.Prelude.{
  ℕ, zero, suc, ◌+◌, String, Option, none, some, List, [], ◌∷◌, ◌++◌, map, Bool, true, false, not,
  ◌&&◌, ltb, leb, ◌==◌, string_eq, if◌then◌else◌, filter, length, contains, push, group, get_group,
  vals, lookup, insert_all, total,
}
use Prim.Native.Nat.{max}

pub record SpanRow : Type 0 where
  pub trace_id : String
  pub span_id : String
  pub parent_span_id : String
  pub service_name : String
  pub start_time_unix_nano : ℕ
  pub end_time_unix_nano : ℕ
  pub status_code : ℕ

pub data Classification : Type 0 where
  ok orphan_missing_parent cycle_rejected : Classification

pub data Reason : Type 0 where
  nothing missing_root multiple_roots orphan_missing_parent cycle_rejected : Reason

pub record TraceSummary : Type 0 where
  pub trace_id : String
  pub window_start : ℕ
  pub depth : ℕ
  pub span_count : ℕ
  pub root_service : String
  pub complete : Bool
  pub incompleteness_reason : Reason
  pub orphan_count : ℕ

pub record SpanClassification : Type 0 where
  pub trace_id : String
  pub span_id : String
  pub window_start : ℕ
  pub classification : Classification

pub record ReassemblyResult : Type 0 where
  pub summaries : List TraceSummary
  pub classifications : List SpanClassification

abbrev pub Children : Type 0
Children = List (String × List String)

abbrev pub span_ids : List SpanRow → List String
span_ids rows = map (λ r. r.span_id) rows

-- What the first loop of `_reassemble_trace` builds.
pub record TraceLinks : Type 0 where
  pub children : Children
  pub roots : List SpanRow
  pub orphans : List SpanRow

abbrev pub is_root : SpanRow → Bool
is_root r = r.parent_span_id == ""

link_row : List String → TraceLinks → SpanRow → TraceLinks
link_row ids l r =
    if is_root r
    then record l { roots = l.roots ++ r ∷ [] }
    else if not (contains ids r.parent_span_id)
    then record l { orphans = l.orphans ++ r ∷ [] }
    else record l { children = push r.parent_span_id r.span_id l.children }

link_rows : List String → TraceLinks → List SpanRow → TraceLinks
unfolding link_row
link_rows ids l [] = l
link_rows ids l (r ∷ rows) = link_rows ids (link_row ids l r) rows

pub links : List SpanRow → TraceLinks
unfolding link_rows
links rows = link_rows (span_ids rows) (record { children = []; roots = []; orphans = [] }) rows

-- The loop of `_bfs_mark`, with fuel: what is left of the queue, and the visited spans.
pub bfs_loop : ℕ → Children → List String → List String → List String × List String
bfs_loop zero children queue visited = (queue, visited)
bfs_loop (suc fuel) children [] visited = ([], visited)
bfs_loop (suc fuel) children (span_id ∷ queue) visited =
    let skipped = bfs_loop fuel children queue visited in
    let marked = bfs_loop fuel children (queue ++ get_group span_id children) (span_id ∷ visited) in
    if contains visited span_id then skipped else marked

-- A span is expanded at most once, so the queue receives the seed and each child at most once.
pub bfs_mark : Children → List String → String → List String
bfs_mark children visited seed = (bfs_loop (total children + 1) children (seed ∷ []) visited).1

pub mark_seeds : Children → List String → List SpanRow → List String
mark_seeds children visited [] = visited
mark_seeds children visited (seed ∷ seeds) =
    mark_seeds children (bfs_mark children visited seed.span_id) seeds

-- The children of a span in `_subtree_depth`: those not seen are queued one level deeper.
pub queue_children :
    ℕ → List String → List (String × ℕ) → List String → List (String × ℕ) × List String
queue_children depth [] queue seen = (queue, seen)
queue_children depth (child_id ∷ rest) queue seen =
    if contains seen child_id
    then queue_children depth rest queue seen
    else queue_children depth rest (queue ++ (child_id, depth + 1) ∷ []) (child_id ∷ seen)

-- The loop of `_subtree_depth`, with fuel: what is left of the queue, and the depth.
pub depth_loop : ℕ → Children → List (String × ℕ) → List String → ℕ → List (String × ℕ) × ℕ
depth_loop zero children queue seen max_depth = (queue, max_depth)
depth_loop (suc fuel) children [] seen max_depth = ([], max_depth)
depth_loop (suc fuel) children ((span_id, depth) ∷ queue) seen max_depth =
    let (queue', seen') = queue_children depth (get_group span_id children) queue seen in
    depth_loop fuel children queue' seen' (max max_depth depth)

pub subtree_depth : String → Children → ℕ
subtree_depth root_span_id children =
    (depth_loop (total children + 1) children ((root_span_id, 1) ∷ []) (root_span_id ∷ []) 1).1

-- `min(roots, key=lambda r: r.start_time_unix_nano)`: the first of the earliest.
pub earlier : SpanRow → SpanRow → SpanRow
earlier best r = if ltb r.start_time_unix_nano best.start_time_unix_nano then r else best

pub earliest : SpanRow → List SpanRow → SpanRow
earliest best [] = best
earliest best (r ∷ rows) = earliest (earlier best r) rows

-- `visited` after the loop over the roots and the orphans.
pub visited_ids : List SpanRow → List String
visited_ids rows = let l = links rows in mark_seeds l.children [] (l.roots ++ l.orphans)

-- The spans that no seed reaches and that are no orphans.
pub cycle_rows : List SpanRow → List SpanRow
cycle_rows rows =
    let visited = visited_ids rows in
    let orphan_ids = span_ids (links rows).orphans in
    filter (λ r. not (contains visited r.span_id) && not (contains orphan_ids r.span_id)) rows

pub ok_rows : List SpanRow → List SpanRow
ok_rows rows =
    let orphan_ids = span_ids (links rows).orphans in
    let cycle_ids = span_ids (cycle_rows rows) in
    filter (λ r. not (contains orphan_ids r.span_id) && not (contains cycle_ids r.span_id)) rows

abbrev pub classify : String → ℕ → Classification → SpanRow → SpanClassification
classify trace_id window_start c r = record {
  trace_id = trace_id;
  span_id = r.span_id;
  window_start = window_start;
  classification = c;
}

-- The second result of `_reassemble_trace`.
pub trace_classifications : String → List SpanRow → ℕ → List SpanClassification
trace_classifications trace_id rows window_start =
    map (classify trace_id window_start Classification.orphan_missing_parent) (links rows).orphans
    ++ (map (classify trace_id window_start Classification.cycle_rejected) (cycle_rows rows)
        ++ map (classify trace_id window_start ok) (ok_rows rows))

-- The root that counts, if there is one.
pub canonical_root : List SpanRow → Option SpanRow
canonical_root [] = none
canonical_root (r ∷ roots) = some (earliest r roots)

pub incompleteness : List SpanRow → List SpanRow → List SpanRow → Reason
incompleteness [] orphans cycles = missing_root
incompleteness (r ∷ s ∷ roots) orphans cycles = multiple_roots
incompleteness (r ∷ []) (o ∷ orphans) cycles = Reason.orphan_missing_parent
incompleteness (r ∷ []) [] (c ∷ cycles) = Reason.cycle_rejected
incompleteness (r ∷ []) [] [] = nothing

pub is_nothing : Reason → Bool
is_nothing nothing = true
is_nothing _ = false

-- The first result of `_reassemble_trace`.
pub trace_summary : String → List SpanRow → ℕ → TraceSummary
trace_summary trace_id rows window_start =
    let l = links rows in
    let reason = incompleteness l.roots l.orphans (cycle_rows rows) in
    record {
      trace_id = trace_id;
      window_start = window_start;
      depth = elim (canonical_root l.roots) [
        | none ↦ 0
        | some r ↦ subtree_depth r.span_id l.children
      ];
      span_count = length rows;
      root_service = elim (canonical_root l.roots) [ none ↦ "" | some r ↦ r.service_name ];
      complete = is_nothing reason;
      incompleteness_reason = reason;
      orphan_count = length l.orphans;
    }

abbrev pub by_trace : List SpanRow → List (String × List SpanRow)
by_trace rows = group (map (λ r. (r.trace_id, r)) rows)

reassemble_traces : List (String × List SpanRow) → ℕ → ReassemblyResult
reassemble_traces [] window_start = record { summaries = []; classifications = [] }
reassemble_traces ((trace_id, rows) ∷ traces) window_start =
    let rest = reassemble_traces traces window_start in
    record {
      summaries = trace_summary trace_id rows window_start ∷ rest.summaries;
      classifications = trace_classifications trace_id rows window_start ++ rest.classifications;
    }

pub reassemble : List SpanRow → ℕ → ReassemblyResult
unfolding reassemble_traces
reassemble rows window_start = reassemble_traces (by_trace rows) window_start

-- The inner loop of `resolved_parent_child_pairs`.
unfoldable pub pairs_in_trace : List (String × SpanRow) → List SpanRow → List (SpanRow × SpanRow)
pairs_in_trace by_id [] = []
pairs_in_trace by_id (r ∷ rows) =
    let rest = pairs_in_trace by_id rows in
    if is_root r
    then rest
    else elim (lookup r.parent_span_id by_id) [ none ↦ rest | some parent ↦ (parent, r) ∷ rest ]

-- `{r.span_id: r for r in trace_rows}`
abbrev pub by_span_id : List SpanRow → List (String × SpanRow)
by_span_id rows = insert_all [] (map (λ r. (r.span_id, r)) rows)

unfoldable pub pairs_of_traces : List (List SpanRow) → List (SpanRow × SpanRow)
pairs_of_traces [] = []
pairs_of_traces (rows ∷ traces) = pairs_in_trace (by_span_id rows) rows ++ pairs_of_traces traces

unfoldable pub resolved_parent_child_pairs : List SpanRow → List (SpanRow × SpanRow)
resolved_parent_child_pairs rows = pairs_of_traces (vals (by_trace rows))
