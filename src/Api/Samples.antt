-- ===== src/Api/Samples.antt =====
-- The API over tables in memory.
use distributed_tracing_plat.Prelude.{
  ◌⊎◌, ℕ, ◌≤◌, ◌<◌, ◌≡◌, refl, subst, ⊎_elim, Bool, true, false, String, string_eq, pair_eq, Option,
  none, some, List, [], ◌∷◌, filter, sort, contains, Elem, length, arith, group, group_from, push,
  lookup, insert_all,
}
use distributed_tracing_plat.Prelude.Int.{ℤ, pos}
use distributed_tracing_plat.Prelude.Fixed.{fixed}
use distributed_tracing_plat.Targets.{service}
use distributed_tracing_plat.Detectors.{warning}
use distributed_tracing_plat.Reassembly.{nothing}
use distributed_tracing_plat.Storage.{Tables, StoredSpan, SummaryRow, OffsetRow}
use distributed_tracing_plat.Storage as Storage
use distributed_tracing_plat.Storage.FixedStrings.{pad, decode_fixed_string, rstrip}
use distributed_tracing_plat.Storage.Memory.{memory}
use distributed_tracing_plat.Reader.{each}
use distributed_tracing_plat.Reader.Ranges.{IsStored, IsEncoded}
use distributed_tracing_plat.Api.Traces.{
  TraceFilter, TraceSummaryRow, TracePage, candidate, with_duration, keep_long, is_truncated,
  listing, candidates, fetch_traces, fetch_trace_durations,
}
use distributed_tracing_plat.Api.Routes.{
  ApiConfig, raise, bad_trace_id, no_spans, list_traces, get_trace, get_topology, get_detections,
  get_clock_offsets,
}
use distributed_tracing_plat.Api.Pages.{read_pages, pages_exact}
use distributed_tracing_plat.Api.Matches.{Matches, Listed, IsLong, listing_exact}
use distributed_tracing_plat.Api.Answers.{
  Answers, Refuses, handlers-Refuse, handlers-Answer, list_traces-Answers,
}
use distributed_tracing_plat.Api.OneTrace.{IsTrace, Answered, get_trace_exact}
use distributed_tracing_plat.Api.Spans.{IsTraceId, IsLowered}

abbrev pub span : StoredSpan
span = record {
  trace_id = pad "4bf92f3577b34da6a3ce929d0e0e4736" 32;
  span_id = pad "a1" 16;
  parent_span_id = pad "" 16;
  service_name = "frontend";
  span_name = "GET /";
  start_time_unix_nano = 61_000_000_000;
  end_time_unix_nano = 61_500_000_000;
  status_code = 1;
  attributes = [];
  ingested_at = 62_000_000_000;
}

abbrev pub summary : String → ℕ → SummaryRow
summary trace_id window_start = record {
  trace_id = pad trace_id 32;
  window_start = window_start;
  depth = 1;
  span_count = 1;
  root_service = "frontend";
  complete = 1;
  incompleteness_reason = nothing;
  orphan_count = 0;
}

abbrev pub offset : String → ℕ → ℕ → OffsetRow
offset name confidence window_start = record {
  window_start = window_start;
  service_name = name;
  offset_ns = pos 5;
  confidence = confidence;
}

abbrev pub call : ℕ → Storage.EdgeRow ℤ
call window_start = record {
  window_start = window_start;
  caller_service = "frontend";
  callee_service = "checkout";
  call_count = 2;
  error_count = 1;
  latency_p50_ms = pos 10;
  latency_p95_ms = pos 20;
  latency_p99_ms = pos 20;
}

abbrev pub incident : String → String → Storage.IncidentRow ℤ
incident id root = record {
  incident_id = id;
  target_type = service;
  target = "checkout";
  detector = "call_rate";
  start_window = 60_000_000_000;
  end_window = 60_000_000_000;
  window_count = 1;
  peak_severity = warning;
  peak_deviation = pos 4_000;
  derived = 0;
  root_cause_incident_id = root;
}

abbrev pub tables : Tables ℤ
tables = record {
  spans = span ∷ [];
  trace_summaries = summary "a" 60_000_000_000 ∷ summary "b" 90_000_000_000 ∷ [];
  span_classifications = [];
  service_edges = call 60_000_000_000 ∷ call 90_000_000_000 ∷ [];
  service_clock_offsets =
      offset "checkout" 3 60_000_000_000
      ∷ offset "checkout" 7 90_000_000_000
      ∷ offset "cart" 1 90_000_000_000
      ∷ [];
  service_stats = [];
  service_baselines = [];
  edge_baselines = [];
  detections = [];
  detected_incidents = incident "i" "" ∷ incident "j" "i" ∷ [];
}

abbrev pub hour : TraceFilter ℤ
hour = record {
  start = 0;
  end = 3_600_000_000_000;
  service = none;
  complete = none;
  min_duration_ms = none;
}

abbrev pub small : ApiConfig
small = record { api_max_rows = 1; api_max_time_range_seconds = 3_600 }

abbrev row : String → ℕ → TraceSummaryRow ℤ
row trace_id window_start = record {
  trace_id = trace_id;
  window_start = window_start;
  depth = 1;
  span_count = 1;
  root_service = "frontend";
  complete = true;
  incompleteness_reason = nothing;
  orphan_count = 0;
  duration_ms = none;
}

abbrev rows : List (TraceSummaryRow ℤ)
rows = row "b" 90_000_000_000 ∷ row "a" 60_000_000_000 ∷ []

listing_test : listing memory tables hour 500 ≡ some (rows, 2)
unfolding listing candidates candidate each decode_fixed_string pad filter sort
    fetch_trace_durations with_duration keep_long lookup insert_all group group_from push contains
    rstrip
listing_test = refl

pages_exact_example : read_pages memory tables hour 1 500 3 0 ≡ some rows
pages_exact_example = pages_exact memory tables hour 1 500 rows 2 (omega arith) listing_test

-- With a cap of one row the listing ends after the newest trace, and `has_more` is false, although another
-- trace matches.
abbrev page_flags : Option (TracePage ℤ) → Option (ℕ × Bool × Bool)
page_flags none = none
page_flags (some p) = some (length p.page, p.has_more, p.duration_filter_truncated)

capped_listing_test : page_flags (fetch_traces memory tables hour 50 0 1) ≡ some (1, false, false)
unfolding fetch_traces listing candidates candidate each decode_fixed_string pad filter sort
    fetch_trace_durations with_duration keep_long lookup insert_all group group_from push contains
    rstrip is_truncated
capped_listing_test = refl

listing_exact_example :
    ((row : TraceSummaryRow ℤ)
      → Elem row rows
      → (r : SummaryRow) × Elem r tables.trace_summaries
        × Matches hour r
        × Listed memory tables hour 500 r row
        × IsLong none row.duration_ms)
    × (2 < 500
        → (r : SummaryRow) → Elem r tables.trace_summaries
        → Matches hour r
        → (row : TraceSummaryRow ℤ) × Listed memory tables hour 500 r row
          × (IsLong none row.duration_ms → Elem row rows))
listing_exact_example = listing_exact memory tables hour 500 rows 2 listing_test

handlers-Refuse_example :
    Refuses (list_traces memory tables small (record hour { end = 0 }) 50 0) 400
    × Refuses (get_topology memory tables small 0 0 none) 400
    × Refuses (get_detections memory tables small 0 0 none) 400
    × Refuses (get_clock_offsets memory tables small 0 0) 400
handlers-Refuse_example =
    handlers-Refuse memory tables small (record hour { end = 0 }) 50 0 none
      (λ (lt, _). absurd (omega arith))

handlers-Answer_example :
    Answers
      (get_topology memory tables small 0 3_600_000_000_000 none)
      (λ body. length body.edges ≤ 1)
    × Answers
        (get_detections memory tables small 0 3_600_000_000_000 none)
        (λ body. length body.incidents ≤ 1)
    × Answers (get_clock_offsets memory tables small 0 3_600_000_000_000) (λ body. Unit {0})
handlers-Answer_example = handlers-Answer memory tables small 0 3_600_000_000_000 none (omega arith)

spans-IsStored : (r : StoredSpan) → Elem r (span ∷ []) → IsStored r
spans-IsStored r m =
    ⊎_elim
      (λ e. subst IsStored e (
        ("4bf92f3577b34da6a3ce929d0e0e4736", omega arith, refl),
        ("a1", omega arith, refl),
        ("", omega arith, refl),
      ))
      (λ n. absurd n) m

summaries-IsEncoded :
    (r : SummaryRow)
    → Elem r (summary "a" 60_000_000_000 ∷ summary "b" 90_000_000_000 ∷ [])
    → IsEncoded 32 r.trace_id
summaries-IsEncoded r m =
    ⊎_elim (λ e. subst (λ (x : SummaryRow). IsEncoded 32 x.trace_id) e ("a", omega arith, refl))
      (⊎_elim (λ e. subst (λ (x : SummaryRow). IsEncoded 32 x.trace_id) e ("b", omega arith, refl))
        (λ n. absurd n))
      m

list_traces-Answers_example :
    Answers
      (list_traces memory tables small hour 50 0)
      (λ body. (length body.traces ≤ 50) × (length body.traces ≤ 1))
list_traces-Answers_example =
    list_traces-Answers memory tables small hour 50 0 (spans-IsStored, summaries-IsEncoded)
      (omega arith)

abbrev id : String
id = "4BF92F3577B34DA6A3CE929D0E0E4736"

get_trace_exact_example :
    ((¬ IsTraceId id) × (get_trace memory tables id ≡ raise bad_trace_id))
    ⊎ (IsTraceId id
        × ((low : String) × IsLowered id low
            × ((((r : StoredSpan) → Elem r (span ∷ []) → ¬ (rstrip r.trace_id ≡ low))
                  × (get_trace memory tables id ≡ raise (no_spans id)))
                ⊎ ((stored : List StoredSpan) × IsTrace memory tables low stored
                    × Answered memory tables id low stored))))
get_trace_exact_example = get_trace_exact memory tables id (spans-IsStored, λ l m. absurd m)
