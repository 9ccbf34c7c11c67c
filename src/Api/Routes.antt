-- ===== src/Api/Routes.antt =====
-- routes.py: the handlers. The framework has parsed the parameters before: a limit is at least one, and an
-- offset and a least duration are not negative. A time is in nanoseconds.
use Prim.Native.Char.{Char, char, code}
use Prim.Native.String.{◌∷◌, count}
use Prim.Native.Nat.{min}
use distributed_tracing_plat.Prelude.{
  ℕ, ◌-◌, ◌*◌, Bool, true, ◌&&◌, ◌||◌, String, string_eq, Option, none, some, map, ltb, leb, eqb,
  ◌==◌, if◌then◌else◌,
}
use distributed_tracing_plat.Prelude.Floats.{Floats, zero_F}
use distributed_tracing_plat.Windowing.{second}
use distributed_tracing_plat.Storage.{Client}
use distributed_tracing_plat.Api.Traces as Traces
use distributed_tracing_plat.Api.Traces.{TraceFilter, TracePage, fetch_traces}
use distributed_tracing_plat.Api.Details as Details
use distributed_tracing_plat.Api.Details.{TraceDetail, fetch_trace_detail}
use distributed_tracing_plat.Api.Listings as Listings
use distributed_tracing_plat.Api.Listings.{fetch_topology, fetch_detections, fetch_clock_offsets}
use distributed_tracing_plat.Api.Schemas.{
  TraceSummary, TraceListResponse, Span, TraceClockOffset, TraceDetailResponse, ServiceEdge,
  TopologyResponse, Incident, DetectionsResponse, ClockOffset, ClockOffsetsResponse,
}

-- The fields of the configuration that the handlers read.
pub record ApiConfig : Type 0 where
  pub api_max_rows : ℕ
  pub api_max_time_range_seconds : ℕ

-- What a handler raises. `server_error` is an exception that it does not handle.
pub data HttpError : Type 0 where
  end_not_after_start : HttpError
  range_too_long : ℕ → HttpError
  bad_trace_id : HttpError
  no_spans : String → HttpError
  server_error : HttpError

unfoldable pub status : HttpError → ℕ
status end_not_after_start = 400
status (range_too_long most) = 400
status bad_trace_id = 400
status (no_spans trace_id) = 404
status server_error = 500

pub data Response (A : Type 0) : Type 0 where
  ok : A → Response A
  raise : HttpError → Response A

infixl 5 ◌>>=◌ ◌>>◌
abbrev pub ◌>>=◌ : {A B : Type 0} → Response A → (A → Response B) → Response B
ok a >>= next = next a
raise e >>= next = raise e

abbrev pub ◌>>◌ : {B : Type 0} → Response (Unit {0}) → Response B → Response B
m >> k = m >>= λ _. k

-- `_validate_range`
unfoldable pub validate_range : ℕ → ℕ → ApiConfig → Response (Unit {0})
validate_range start end cfg =
    if leb end start
    then raise end_not_after_start
    else if ltb (cfg.api_max_time_range_seconds * second) (end - start)
    then raise (range_too_long cfg.api_max_time_range_seconds)
    else ok tt

-- `_clamp_limit`
abbrev pub clamp_limit : ℕ → ApiConfig → ℕ
clamp_limit limit cfg = min limit cfg.api_max_rows

-- `c in "0123456789abcdefABCDEF"`
abbrev pub is_hex : Char → Bool
is_hex c =
    (leb b'0' (code c) && leb (code c) b'9')
    || (leb b'a' (code c) && leb (code c) b'f')
    || (leb b'A' (code c) && leb (code c) b'F')

unfoldable pub all_hex : String → Bool
all_hex String.[] = true
all_hex (c ∷ s) = is_hex c && all_hex s

-- `str.lower` on a hexadecimal digit.
unfoldable pub lower_char : Char → Char
lower_char c =
    if eqb (code c) b'A'
    then char 97 tt
    else if eqb (code c) b'B'
    then char 98 tt
    else if eqb (code c) b'C'
    then char 99 tt
    else if eqb (code c) b'D'
    then char 100 tt
    else if eqb (code c) b'E'
    then char 101 tt
    else if eqb (code c) b'F'
    then char 102 tt
    else c

unfoldable pub lower : String → String
lower String.[] = String.[]
lower (c ∷ s) = lower_char c ∷ lower s

abbrev pub span_of : Details.SpanRow → Span
span_of r = record {
  span_id = r.span_id;
  parent_span_id = r.parent_span_id;
  service_name = r.service_name;
  span_name = r.span_name;
  start_time_unix_nano = r.start_time_unix_nano;
  end_time_unix_nano = r.end_time_unix_nano;
  status_code = r.status_code;
  attributes = r.attributes;
  classification = r.classification;
}

abbrev pub offset_of : Details.TraceClockOffset → TraceClockOffset
offset_of o = record {
  service_name = o.service_name;
  offset_ns = o.offset_ns;
  confidence = o.confidence;
}

abbrev pub clock_offset_of : Listings.ClockOffsetRow → ClockOffset
clock_offset_of r = record {
  service_name = r.service_name;
  offset_ns = r.offset_ns;
  confidence = r.confidence;
  window_start = r.window_start;
}

-- A result of a query: an exception is answered by the framework.
abbrev pub or_server_error : {A B : Type 0} → Option A → (A → Response B) → Response B
or_server_error none next = raise server_error
or_server_error (some a) next = next a

-- `detail is None` and the body.
abbrev pub found_detail : String → Option TraceDetail → Response TraceDetailResponse
found_detail trace_id none = raise (no_spans trace_id)
found_detail trace_id (some detail) = ok (record {
  trace_id = detail.trace_id;
  spans = map span_of detail.spans;
  clock_offsets = map offset_of detail.clock_offsets;
})

module _ {F : Type 0} where
  abbrev pub summary_of : Traces.TraceSummaryRow F → TraceSummary F
  summary_of r = record {
    trace_id = r.trace_id;
    window_start = r.window_start;
    depth = r.depth;
    span_count = r.span_count;
    root_service = r.root_service;
    complete = r.complete;
    incompleteness_reason = r.incompleteness_reason;
    orphan_count = r.orphan_count;
    duration_ms = r.duration_ms;
  }

  abbrev pub page_of : ℕ → ℕ → TracePage F → Response (TraceListResponse F)
  page_of limit offset p = ok (record {
    traces = map summary_of p.page;
    limit = limit;
    offset = offset;
    has_more = p.has_more;
    duration_filter_truncated = p.duration_filter_truncated;
  })

  -- The root's identifier, or None where the column is empty.
  abbrev pub incident_of : Listings.IncidentRow F → Incident F
  incident_of r = record {
    incident_id = r.incident_id;
    target_type = r.target_type;
    target = r.target;
    detector = r.detector;
    severity = r.peak_severity;
    start_window = r.start_window;
    end_window = r.end_window;
    window_count = r.window_count;
    peak_deviation = r.peak_deviation;
    derived = r.derived;
    root_cause_incident_id =
        if r.root_cause_incident_id == "" then none else some r.root_cause_incident_id;
    root_cause_target = r.root_cause_target;
  }

module _ {F : Type 0} ⦃f : Floats F⦄ where
  -- An edge without a call has no error rate to divide for.
  unfoldable pub edge_of : Listings.EdgeRow F → ServiceEdge F
  edge_of r = record {
    caller_service = r.caller_service;
    callee_service = r.callee_service;
    call_count = r.call_count;
    error_count = r.error_count;
    error_rate =
        if eqb r.call_count 0 then zero_F else f.div (f.of_ℕ r.error_count) (f.of_ℕ r.call_count);
    latency_p50_ms = r.latency_p50_ms;
    latency_p95_ms = r.latency_p95_ms;
    latency_p99_ms = r.latency_p99_ms;
    latest_window_start = r.latest_window_start;
  }

module _ {F : Type 0} ⦃f : Floats F⦄ (c : Client F) where
  unfoldable pub list_traces :
      c.State → ApiConfig → TraceFilter F → ℕ → ℕ → Response (TraceListResponse F)
  list_traces s cfg q limit offset = do
    validate_range q.start q.end cfg
    or_server_error (fetch_traces c s q (clamp_limit limit cfg) offset cfg.api_max_rows)
        (page_of (clamp_limit limit cfg) offset)

  unfoldable pub get_topology :
      c.State → ApiConfig → ℕ → ℕ → Option String → Response (TopologyResponse F)
  get_topology s cfg start end service = do
    validate_range start end cfg
    ok (record {
      edges = map edge_of (fetch_topology c s start end service cfg.api_max_rows);
      range_start = start;
      range_end = end;
    })

module _ {F : Type 0} (c : Client F) where
  unfoldable pub get_trace : c.State → String → Response TraceDetailResponse
  get_trace s trace_id =
      if eqb (count trace_id) 32 && all_hex trace_id
      then or_server_error (fetch_trace_detail c s (lower trace_id)) (found_detail trace_id)
      else raise bad_trace_id

  unfoldable pub get_detections :
      c.State → ApiConfig → ℕ → ℕ → Option String → Response (DetectionsResponse F)
  get_detections s cfg start end target = do
    validate_range start end cfg
    ok (record {
      incidents = map incident_of (fetch_detections c s start end target cfg.api_max_rows);
    })

  unfoldable pub get_clock_offsets : c.State → ApiConfig → ℕ → ℕ → Response ClockOffsetsResponse
  get_clock_offsets s cfg start end = do
    validate_range start end cfg
    ok (record { offsets = map clock_offset_of (fetch_clock_offsets c s start end) })
