-- ===== src/Reader.antt =====
-- analyzer/src/analyzer/reader.py: the queries of the analyzer, over the tables as the client reads them.
-- A query is the filter of its WHERE clause and the columns that it selects. None is an exception: an
-- identifier that is not ASCII, or the label of an edge without an arrow.
pub mod Labels
pub mod Ranges
pub mod RoundTrip
mod Samples
use Prim.Native.Char.{Char, code}
use Prim.Native.String
use Prim.Native.String.{◌∷◌}
use distributed_tracing_plat.Prelude.{
  ℕ, Bool, ◌&&◌, String, string_eq, pair_eq, Option, none, some, List, [], ◌∷◌, map, filter, ltb,
  leb, eqb, ◌==◌, if◌then◌else◌, ◌>>=◌, firsts,
}
use distributed_tracing_plat.Targets.{TargetKind, service, edge, target_key}
use distributed_tracing_plat.Detectors.{Detection}
use distributed_tracing_plat.Reassembly.{SpanRow}
use distributed_tracing_plat.Storage.{StoredSpan, EdgeRow, StatsRow, DetectionRow, Client}
use distributed_tracing_plat.Storage.FixedStrings.{decode_fixed_string}

-- A loop over the rows of a result, of which each step may raise.
unfoldable pub each : {A B : Type 0} → (A → Option B) → List A → Option (List B)
each f [] = some []
each f (x ∷ xs) = do y ← f x; ys ← each f xs; some (y ∷ ys)

-- `t >= start AND t < end`
abbrev pub in_range : ℕ → ℕ → ℕ → Bool
in_range start end t = leb start t && ltb t end

-- `t >= start AND t <= end`
abbrev pub in_closed_range : ℕ → ℕ → ℕ → Bool
in_closed_range start end t = leb start t && leb t end

unfoldable pub span_row : StoredSpan → Option SpanRow
span_row r = do
  trace_id ← decode_fixed_string r.trace_id
  span_id ← decode_fixed_string r.span_id
  parent_span_id ← decode_fixed_string r.parent_span_id
  some record {
    trace_id = trace_id;
    span_id = span_id;
    parent_span_id = parent_span_id;
    service_name = r.service_name;
    start_time_unix_nano = r.start_time_unix_nano;
    end_time_unix_nano = r.end_time_unix_nano;
    status_code = r.status_code;
  }

-- What follows an arrow that begins with the character.
abbrev pub after_arrow : Char → String → Option String
after_arrow c String.[] = none
after_arrow c (d ∷ s) = if eqb (code c) b'-' && eqb (code d) b'>' then some s else none

abbrev pub split_step : Char → Option String → Option (String × String) → Option (String × String)
split_step c (some callee) rest = some ("", callee)
split_step c none none = none
split_step c none (some (caller, callee)) = some (c ∷ caller, callee)

-- `target.split("->", 1)`, unpacked into two; without an arrow that is a ValueError.
unfoldable pub split_arrow : String → Option (String × String)
split_arrow String.[] = none
split_arrow (c ∷ s) = split_step c (after_arrow c s) (split_arrow s)

unfoldable pub endpoints : TargetKind → String → Option (String × String)
endpoints edge target = split_arrow target
endpoints service target = some ("", target)

module _ {F : Type 0} where
  unfoldable pub detection_of : DetectionRow F → Option (Detection F)
  detection_of r = do
    ends ← endpoints r.target_type r.target
    some record {
      window_start = r.window_start;
      target = target_key r.target_type ends.0 ends.1;
      detector = r.detector;
      severity = r.severity;
      observed_value = r.observed_value;
      baseline_value = r.baseline_value;
      deviation = r.deviation;
    }

pub record LateSpan : Type 0 where
  pub trace_id : String
  pub span_id : String
  pub service_name : String
  pub start_time_unix_nano : ℕ
  pub ingested_at : ℕ

pub late_span : StoredSpan → Option LateSpan
late_span r = do
  trace_id ← decode_fixed_string r.trace_id
  span_id ← decode_fixed_string r.span_id
  some record {
    trace_id = trace_id;
    span_id = span_id;
    service_name = r.service_name;
    start_time_unix_nano = r.start_time_unix_nano;
    ingested_at = r.ingested_at;
  }

module _ {F : Type 0} (c : Client F) where
  unfoldable pub fetch_window : c.State → ℕ → ℕ → Option (List SpanRow)
  fetch_window s start end =
      each span_row (filter (λ r. in_range start end r.start_time_unix_nano) (c.tables s).spans)

  unfoldable pub fetch_lookback_spans : c.State → ℕ → ℕ → Option (List SpanRow)
  fetch_lookback_spans s start end = fetch_window s start end

  pub fetch_service_call_count_history : c.State → String → ℕ → ℕ → List ℕ
  fetch_service_call_count_history s name start end =
      map (λ (r : StatsRow F). r.call_count)
        (filter (λ r. (r.service_name == name) && in_range start end r.window_start)
          (c.tables s).service_stats)

  pub fetch_edge_call_count_history : c.State → String → String → ℕ → ℕ → List ℕ
  fetch_edge_call_count_history s caller callee start end =
      map (λ (r : EdgeRow F). r.call_count)
        (filter
          (λ r.
            (r.caller_service == caller)
            && (r.callee_service == callee)
            && in_range start end r.window_start)
          (c.tables s).service_edges)

  unfoldable pub fetch_recent_detections : c.State → ℕ → ℕ → Option (List (Detection F))
  fetch_recent_detections s start end =
      each detection_of
        (filter (λ r. in_closed_range start end r.window_start) (c.tables s).detections)

  -- The pairs are distinct, so the rows that FINAL leaves out make no difference.
  unfoldable pub fetch_topology_edges : c.State → List (String × String)
  fetch_topology_edges s =
      firsts
        (map (λ (r : EdgeRow F). (r.caller_service, r.callee_service)) (c.tables s).service_edges)

  pub fetch_late_spans : c.State → ℕ → ℕ → Option (List LateSpan)
  fetch_late_spans s boundary since = each late_span (
      filter (λ r. ltb since r.ingested_at && ltb r.start_time_unix_nano boundary)
        (c.tables s).spans)
