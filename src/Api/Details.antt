-- ===== src/Api/Details.antt =====
-- queries.py, one trace: its spans with their labels, and the clock offsets known at its start.
use distributed_tracing_plat.Prelude.{
  ℕ, true, false, ◌&&◌, String, string_eq, Option, none, some, List, [], ◌∷◌, map, filter, sort,
  leb, ltb, ◌==◌, if◌then◌else◌, ◌>>=◌, contains, lookup, insert_all, group, firsts,
}
use distributed_tracing_plat.Prelude.Int.{ℤ}
use distributed_tracing_plat.Reassembly.{Classification}
use distributed_tracing_plat.Suppression.{string_ltb}
use distributed_tracing_plat.Storage.{StoredSpan, ClassificationRow, OffsetRow, Client}
use distributed_tracing_plat.Storage.FixedStrings.{rstrip, decode_fixed_string}
use distributed_tracing_plat.Writer.{to_datetime}
use distributed_tracing_plat.Reader.{each}
use distributed_tracing_plat.Api.Traces.{of_trace, earliest_start}

pub record SpanRow : Type 0 where
  pub span_id : String
  pub parent_span_id : String
  pub service_name : String
  pub span_name : String
  pub start_time_unix_nano : ℕ
  pub end_time_unix_nano : ℕ
  pub status_code : ℕ
  pub attributes : List (String × String)
  pub classification : Option Classification

pub record TraceClockOffset : Type 0 where
  pub service_name : String
  pub offset_ns : ℤ
  pub confidence : ℕ

pub record TraceDetail : Type 0 where
  pub trace_id : String
  pub spans : List SpanRow
  pub clock_offsets : List TraceClockOffset

abbrev pub label_entry : ClassificationRow → Option (String × Classification)
label_entry r = do span_id ← decode_fixed_string r.span_id; some (span_id, r.classification)

unfoldable pub detail_row : List (String × Classification) → StoredSpan → Option SpanRow
detail_row classifications r = do
  span_id ← decode_fixed_string r.span_id
  parent_span_id ← decode_fixed_string r.parent_span_id
  some record {
    span_id = span_id;
    parent_span_id = parent_span_id;
    service_name = r.service_name;
    span_name = r.span_name;
    start_time_unix_nano = r.start_time_unix_nano;
    end_time_unix_nano = r.end_time_unix_nano;
    status_code = r.status_code;
    attributes = insert_all [] r.attributes;
    classification = lookup span_id classifications;
  }

-- The row that `argMax(..., window_start)` takes: the first of the latest.
unfoldable pub latest_row : OffsetRow → List OffsetRow → OffsetRow
latest_row best [] = best
latest_row best (r ∷ rs) = latest_row (if ltb best.window_start r.window_start then r else best) rs

unfoldable pub offsets_of_groups : List (String × List OffsetRow) → List TraceClockOffset
offsets_of_groups [] = []
offsets_of_groups ((name, []) ∷ groups) = offsets_of_groups groups
offsets_of_groups ((name, r ∷ rs) ∷ groups) =
    let best = latest_row r rs in
    record { service_name = name; offset_ns = best.offset_ns; confidence = best.confidence }
    ∷ offsets_of_groups groups

-- `_fetch_clock_offsets_for_services`
unfoldable pub fetch_clock_offsets_for_services :
    List OffsetRow → List String → ℕ → List TraceClockOffset
fetch_clock_offsets_for_services rows [] at_time = []
fetch_clock_offsets_for_services rows (name ∷ names) at_time = offsets_of_groups (
    group (
      map (λ (r : OffsetRow). (r.service_name, r))
        (filter (λ r. contains (name ∷ names) r.service_name && leb r.window_start at_time) rows)))

-- `min(s.start_time_unix_nano for s in spans)`
abbrev pub trace_start : StoredSpan → List StoredSpan → ℕ
trace_start r rs = earliest_start rs r.start_time_unix_nano

module _ {F : Type 0} (c : Client F) where
  -- The spans of a trace, by their start.
  unfoldable pub trace_rows : c.State → String → List StoredSpan
  trace_rows s trace_id =
      sort (λ (a b : StoredSpan). leb a.start_time_unix_nano b.start_time_unix_nano)
        (filter (of_trace trace_id) (c.tables s).spans)

  unfoldable pub detail_of : c.State → String → StoredSpan → List StoredSpan → Option TraceDetail
  detail_of s trace_id r rs = do
    labels ← each label_entry (
        filter (λ (l : ClassificationRow). rstrip l.trace_id == trace_id)
          (c.tables s).span_classifications)
    spans ← each (detail_row (insert_all [] labels)) (r ∷ rs)
    let services =
        sort (λ (a b : String). if string_ltb b a then false else true)
          (firsts (map (λ (x : StoredSpan). x.service_name) (r ∷ rs)))
    some record {
      trace_id = trace_id;
      spans = spans;
      clock_offsets =
          fetch_clock_offsets_for_services (c.tables s).service_clock_offsets services
            (to_datetime (trace_start r rs));
    }

  abbrev pub detail_if_any : c.State → String → List StoredSpan → Option (Option TraceDetail)
  detail_if_any s trace_id [] = some none
  detail_if_any s trace_id (r ∷ rs) = do detail ← detail_of s trace_id r rs; some (some detail)

  -- `fetch_trace_detail`: an inner none is the code's None.
  unfoldable pub fetch_trace_detail : c.State → String → Option (Option TraceDetail)
  fetch_trace_detail s trace_id = detail_if_any s trace_id (trace_rows s trace_id)
