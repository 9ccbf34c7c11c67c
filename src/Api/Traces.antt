-- ===== src/Api/Traces.antt =====
-- queries.py, the listing of traces. A query is the filter of its WHERE clause, its ORDER BY, which keeps
-- the order of the table between equals, and its LIMIT. None is an exception of the decoding.
use Prim.Native.Nat.{max, min}
use distributed_tracing_plat.Prelude.{
  ℕ, ◌+◌, Bool, true, false, not, ◌&&◌, String, string_eq, Option, none, some, List, [], ◌∷◌, map,
  filter, sort, take, drop, length, ltb, leb, eqb, ◌==◌, if◌then◌else◌, ◌>>=◌, contains, lookup,
  insert_all, group,
}
use distributed_tracing_plat.Prelude.Int.{ℤ, sub_ℕ}
use distributed_tracing_plat.Prelude.Floats.{Floats, zero_F}
use distributed_tracing_plat.Reassembly.{Reason}
use distributed_tracing_plat.Storage.{StoredSpan, SummaryRow, Client}
use distributed_tracing_plat.Storage.FixedStrings.{rstrip, decode_fixed_string}
use distributed_tracing_plat.Reader.{in_closed_range, each}

pub record TraceSummaryRow (F : Type 0) : Type 0 where
  pub trace_id : String
  pub window_start : ℕ
  pub depth : ℕ
  pub span_count : ℕ
  pub root_service : String
  pub complete : Bool
  pub incompleteness_reason : Reason
  pub orphan_count : ℕ
  pub duration_ms : Option F

-- The filters of a request. A service that is the empty text is no filter.
pub record TraceFilter (F : Type 0) : Type 0 where
  pub start : ℕ
  pub end : ℕ
  pub service : Option String
  pub complete : Option Bool
  pub min_duration_ms : Option F

-- `if name: conditions.append(...)`
abbrev pub matches_name : Option String → (String → Bool) → Bool
matches_name none test = true
matches_name (some name) test = if name == "" then true else test name

-- `bool(flag)`
abbrev pub truth : ℕ → Bool
truth flag = not (eqb flag 0)

abbrev pub matches_complete : Option Bool → ℕ → Bool
matches_complete none flag = true
matches_complete (some complete) flag = eqb flag (if complete then 1 else 0)

module _ {F : Type 0} where
  -- The WHERE clause of the listing.
  abbrev pub is_match : TraceFilter F → SummaryRow → Bool
  is_match q r =
      in_closed_range q.start q.end r.window_start
      && matches_name q.service (λ name. r.root_service == name)
      && matches_complete q.complete r.complete

  unfoldable pub candidate : SummaryRow → Option (TraceSummaryRow F)
  candidate r = do
    trace_id ← decode_fixed_string r.trace_id
    some record {
      trace_id = trace_id;
      window_start = r.window_start;
      depth = r.depth;
      span_count = r.span_count;
      root_service = r.root_service;
      complete = truth r.complete;
      incompleteness_reason = r.incompleteness_reason;
      orphan_count = r.orphan_count;
      duration_ms = none;
    }

  -- `_with_duration`, and a row without an entry in the dictionary.
  abbrev pub set_duration : TraceSummaryRow F → Option F → TraceSummaryRow F
  set_duration row none = row
  set_duration row (some d) = record row { duration_ms = some d }

  unfoldable pub with_duration : List (String × F) → TraceSummaryRow F → TraceSummaryRow F
  with_duration durations row = set_duration row (lookup row.trace_id durations)

-- `max(end_time_unix_nano) - min(start_time_unix_nano)` over the rows of a group, which is not empty.
unfoldable pub latest_end : List StoredSpan → ℕ → ℕ
latest_end [] t = t
latest_end (r ∷ rs) t = latest_end rs (max t r.end_time_unix_nano)

unfoldable pub earliest_start : List StoredSpan → ℕ → ℕ
earliest_start [] t = t
earliest_start (r ∷ rs) t = earliest_start rs (min t r.start_time_unix_nano)

unfoldable pub extent : List StoredSpan → ℤ
extent [] = sub_ℕ 0 0
extent (r ∷ rs) =
    sub_ℕ (latest_end rs r.end_time_unix_nano) (earliest_start rs r.start_time_unix_nano)

-- `WHERE trace_id = %(trace_id)s`: a fixed-width column is compared without its padding.
abbrev pub of_trace : String → StoredSpan → Bool
of_trace trace_id r = rstrip r.trace_id == trace_id

module _ {F : Type 0} ⦃f : Floats F⦄ where
  unfoldable pub duration_entry : String × List StoredSpan → Option (String × F)
  duration_entry (raw, rows) = do
    trace_id ← decode_fixed_string raw
    some (trace_id, f.div (f.of_ℤ (extent rows)) (f.of_ℕ 1_000_000))

  -- `_fetch_trace_durations`
  unfoldable pub fetch_trace_durations : List StoredSpan → List String → Option (List (String × F))
  fetch_trace_durations spans [] = some []
  fetch_trace_durations spans (t ∷ ts) = do
    entries ← each duration_entry (
        group (
          map (λ (r : StoredSpan). (r.trace_id, r))
            (filter (λ r. contains (t ∷ ts) (rstrip r.trace_id)) spans)))
    some (insert_all [] entries)

  -- `(c.duration_ms or 0.0) >= min_duration_ms`
  abbrev pub long_enough : F → Option F → Bool
  long_enough least none = f.le least zero_F
  long_enough least (some d) = f.le least d

  unfoldable pub is_long : F → TraceSummaryRow F → Bool
  is_long least row = long_enough least row.duration_ms

  unfoldable pub keep_long : Option F → List (TraceSummaryRow F) → List (TraceSummaryRow F)
  keep_long none rows = rows
  keep_long (some least) rows = filter (is_long least) rows

  -- `duration_filter_truncated`, for the number of candidates.
  unfoldable pub is_truncated : Option F → ℕ → ℕ → Bool
  is_truncated none candidates cap = false
  is_truncated (some least) candidates cap = leb cap candidates

pub record TracePage (F : Type 0) : Type 0 where
  pub page : List (TraceSummaryRow F)
  pub has_more : Bool
  pub duration_filter_truncated : Bool

module _ {F : Type 0} ⦃f : Floats F⦄ (c : Client F) where
  -- The rows that match, newest window first, up to the cap.
  unfoldable pub candidates : c.State → TraceFilter F → ℕ → Option (List (TraceSummaryRow F))
  candidates s q cap = each candidate (
      take cap (
        sort (λ (a b : SummaryRow). leb b.window_start a.window_start)
          (filter (is_match q) (c.tables s).trace_summaries)))

  -- What the pages are cut from, and the number of candidates.
  unfoldable pub listing : c.State → TraceFilter F → ℕ → Option (List (TraceSummaryRow F) × ℕ)
  listing s q cap = do
    found ← candidates s q cap
    durations ← fetch_trace_durations (c.tables s).spans (map (λ t. t.trace_id) found)
    some (keep_long q.min_duration_ms (map (with_duration durations) found), length found)

  -- `fetch_traces`
  unfoldable pub fetch_traces : c.State → TraceFilter F → ℕ → ℕ → ℕ → Option (TracePage F)
  fetch_traces s q limit offset cap = do
    rows ← listing s q cap
    some record {
      page = take limit (drop offset rows.0);
      has_more = ltb (offset + limit) (length rows.0);
      duration_filter_truncated = is_truncated q.min_duration_ms rows.1 cap;
    }
