-- ===== src/Clockskew.antt =====
-- analyzer/src/analyzer/clockskew.py: causality violations, and the offset of each service's clock from
-- the root service's. A median is kept in halves of a nanosecond, so it is exact.
pub mod Violations
pub mod Rounds
pub mod Offsets
mod Samples
use distributed_tracing_plat.Prelude.{
  ℕ, zero, suc, ◌+◌, ◌*◌, ◌/◌, ◌%◌, Bool, true, false, not, ◌&&◌, ◌||◌, String, string_eq, pair_eq,
  ◌==◌, Option, none, some, List, [], ◌∷◌, ◌++◌, map, length, ltb, eqb, if◌then◌else◌, contains,
  lookup, insert, group, get_group, keys,
}
use distributed_tracing_plat.Prelude.Int.{
  ℤ, pos, negsuc, ◌+ℤ◌, ◌-ℤ◌, ◌*ℤ◌, abs, ltb_ℤ, pos_part, neg_part, sub_ℕ,
}
use distributed_tracing_plat.Statutil.{median}
use distributed_tracing_plat.Reassembly.{SpanRow, resolved_parent_child_pairs}

pub data ViolationKind : Type 0 where
  starts_before_parent ends_after_parent : ViolationKind

pub record ClockViolation : Type 0 where
  pub parent : SpanRow
  pub child : SpanRow
  pub kind : ViolationKind

-- The body of the loop of `detect_violations`.
pub violation : SpanRow → SpanRow → Option ViolationKind
violation parent child =
    if ltb child.start_time_unix_nano parent.start_time_unix_nano
    then some starts_before_parent
    else if ltb parent.end_time_unix_nano child.end_time_unix_nano
    then some ends_after_parent
    else none

pub add_violation :
    SpanRow → SpanRow → Option ViolationKind → List ClockViolation → List ClockViolation
add_violation parent child none rest = rest
add_violation parent child (some k) rest =
    record { parent = parent; child = child; kind = k } ∷ rest

pub violations_of : List (SpanRow × SpanRow) → List ClockViolation
violations_of [] = []
violations_of ((parent, child) ∷ pairs) =
    add_violation parent child (violation parent child) (violations_of pairs)

pub detect_violations : List SpanRow → List ClockViolation
detect_violations rows = violations_of (resolved_parent_child_pairs rows)

pub record ServiceOffset : Type 0 where
  pub service_name : String
  pub offset_ns : ℤ
  pub confidence : ℕ

abbrev pub Edge : Type 0
Edge = String × String

-- An edge of `gaps_by_edge` and the gap of a call.
abbrev pub gap_entry : SpanRow × SpanRow → Edge × ℤ
gap_entry (parent, child) = (
  (parent.service_name, child.service_name),
  sub_ℕ child.start_time_unix_nano parent.start_time_unix_nano,
)

abbrev pub gaps_by_edge : List (SpanRow × SpanRow) → List (Edge × List ℤ)
gaps_by_edge pairs = group (map gap_entry pairs)

-- `min(edge_median.values(), key=abs)`, in halves: the first of the smallest.
pub smallest : ℤ → List ℤ → ℤ
smallest best [] = best
smallest best (m ∷ ms) = smallest (if ltb_ℤ (abs m) (abs best) then m else best) ms

abbrev pub edge_medians : List (Edge × List ℤ) → List ℤ
edge_medians gaps = map (λ e. median e.1) gaps

-- `incoming`: the callers of each service, with the number of their calls.
abbrev pub incoming : List (Edge × List ℤ) → List (String × List (String × ℕ))
incoming gaps = group (map (λ e. (e.0.1, (e.0.0, length e.1))) gaps)

-- `max(incoming[callee], key=lambda c: c[1])[0]`: the first of the most frequent.
pub busiest : String × ℕ → List (String × ℕ) → String × ℕ
busiest best [] = best
busiest best (c ∷ cs) = busiest (if ltb best.1 c.1 then c else best) cs

pub primary_caller : List (String × ℕ) → Option String
primary_caller [] = none
primary_caller (c ∷ cs) = some (busiest c cs).0

-- `round(n / 2)`, which rounds a half to the even number.
abbrev pub round_half_ℕ : ℕ → ℕ
round_half_ℕ n = let q = n / 2 in if eqb (n % 2) 0 then q else q + q % 2

pub round_half : ℤ → ℤ
round_half n = sub_ℕ (round_half_ℕ (pos_part n)) (round_half_ℕ (neg_part n))

-- The state of the search: `offsets`, whose keys are `visited`, and `next_frontier`.
pub record OffsetSearch : Type 0 where
  pub offsets : List (String × ServiceOffset)
  pub visited : List String
  pub next_frontier : List String

-- `offsets[caller].offset_ns`; a caller of the frontier has an entry.
pub offset_of : List (String × ServiceOffset) → String → ℤ
offset_of offsets name = elim (lookup name offsets) [ none ↦ pos 0 | some o ↦ o.offset_ns ]

pub is_primary : Option String → String → Bool
is_primary none caller = false
is_primary (some primary) caller = primary == caller

module _ (gaps : List (Edge × List ℤ)) (typical_gap : ℤ) where
  -- The guards of the innermost loop: the edge starts at the caller, its callee is new, and the caller is
  -- the callee's primary one.
  pub reaches : String → List String → Edge → Bool
  reaches caller visited (edge_caller, callee) =
      (edge_caller == caller)
      && not (contains visited callee)
      && is_primary (primary_caller (get_group callee (incoming gaps))) caller

  -- The body of the innermost loop.
  pub visit_edge : String → OffsetSearch → Edge × List ℤ → OffsetSearch
  visit_edge caller s (edge, edge_gaps) =
      if reaches caller s.visited edge
      then record {
        offsets =
            insert edge.1
              record {
                service_name = edge.1;
                offset_ns =
                    round_half
                      (2 *ℤ offset_of s.offsets caller +ℤ (median edge_gaps -ℤ typical_gap));
                confidence = length edge_gaps;
              }
              s.offsets;
        visited = edge.1 ∷ s.visited;
        next_frontier = s.next_frontier ++ edge.1 ∷ [];
      }
      else s

  pub visit_edges : String → OffsetSearch → List (Edge × List ℤ) → OffsetSearch
  visit_edges caller s [] = s
  visit_edges caller s (e ∷ es) = visit_edges caller (visit_edge caller s e) es

  pub visit_frontier : OffsetSearch → List String → OffsetSearch
  visit_frontier s [] = s
  visit_frontier s (caller ∷ callers) = visit_frontier (visit_edges caller s gaps) callers

  -- The loop `while frontier`, with fuel: what is left of the frontier, and the state.
  pub search_loop : ℕ → List String → OffsetSearch → List String × OffsetSearch
  search_loop zero frontier s = (frontier, s)
  search_loop (suc fuel) [] s = ([], s)
  search_loop (suc fuel) (c ∷ cs) s =
      let next = visit_frontier (record s { next_frontier = [] }) (c ∷ cs) in
      search_loop fuel next.next_frontier next

abbrev pub root_offset : String → ServiceOffset
root_offset root_service = record { service_name = root_service; offset_ns = pos 0; confidence = 0 }

abbrev pub start : String → OffsetSearch
start root_service = record {
  offsets = (root_service, root_offset root_service) ∷ [];
  visited = root_service ∷ [];
  next_frontier = [];
}

-- A round that goes on has reached the callee of another edge, so this is enough fuel.
pub search : List (Edge × List ℤ) → ℤ → String → List String × OffsetSearch
search gaps typical_gap root_service =
    search_loop gaps typical_gap (length gaps + 2) (root_service ∷ []) (start root_service)

pub offsets_from : List (Edge × List ℤ) → String → List (String × ServiceOffset)
offsets_from [] root_service = []
offsets_from (e ∷ es) root_service =
    (search (e ∷ es) (smallest (median e.1) (edge_medians es)) root_service).1.offsets

-- There are gaps if there are pairs.
pub estimate_offsets : List SpanRow → String → List (String × ServiceOffset)
estimate_offsets rows root_service =
    offsets_from (gaps_by_edge (resolved_parent_child_pairs rows)) root_service
