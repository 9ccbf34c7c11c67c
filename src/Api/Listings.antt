-- ===== src/Api/Listings.antt =====
-- queries.py, the listings of edges, of incidents and of clock offsets.
use distributed_tracing_plat.Prelude.{
  ℕ, Bool, ◌&&◌, ◌||◌, String, string_eq, pair_eq, Option, none, List, [], ◌∷◌, map, filter, sort,
  take, leb, ltb, ◌==◌, if◌then◌else◌, contains, lookup, insert_all, group, sum_of,
}
use distributed_tracing_plat.Prelude.Int.{ℤ}
use distributed_tracing_plat.Targets.{TargetKind}
use distributed_tracing_plat.Detectors.{Severity}
use distributed_tracing_plat.Storage.{OffsetRow, Client}
use distributed_tracing_plat.Storage as Storage
use distributed_tracing_plat.Reader.{in_closed_range}
use distributed_tracing_plat.Api.Traces.{matches_name, truth}

pub record EdgeRow (F : Type 0) : Type 0 where
  pub caller_service : String
  pub callee_service : String
  pub call_count : ℕ
  pub error_count : ℕ
  pub latency_p50_ms : F
  pub latency_p95_ms : F
  pub latency_p99_ms : F
  pub latest_window_start : ℕ

-- A row of `detected_incidents` in the answer, with the target of its root.
pub record IncidentRow (F : Type 0) : Type 0 where
  pub incident_id : String
  pub target_type : TargetKind
  pub target : String
  pub detector : String
  pub start_window : ℕ
  pub end_window : ℕ
  pub window_count : ℕ
  pub peak_severity : Severity
  pub peak_deviation : F
  pub derived : Bool
  pub root_cause_incident_id : String
  pub root_cause_target : Option String

pub record ClockOffsetRow : Type 0 where
  pub service_name : String
  pub offset_ns : ℤ
  pub confidence : ℕ
  pub window_start : ℕ

-- `id_to_target.get(root) if root else None`
unfoldable pub root_target : List (String × String) → String → Option String
root_target targets root = if root == "" then none else lookup root targets

module _ {F : Type 0} where
  -- The row that `argMax(..., window_start)` takes: the first of the latest.
  unfoldable pub latest_edge : Storage.EdgeRow F → List (Storage.EdgeRow F) → Storage.EdgeRow F
  latest_edge best [] = best
  latest_edge best (r ∷ rs) =
      latest_edge (if ltb best.window_start r.window_start then r else best) rs

  -- A group of the query of `fetch_topology`; none is empty.
  unfoldable pub edge_groups :
      List ((String × String) × List (Storage.EdgeRow F)) → List (EdgeRow F)
  edge_groups [] = []
  edge_groups ((ends, []) ∷ groups) = edge_groups groups
  edge_groups ((ends, r ∷ rs) ∷ groups) =
      let last = latest_edge r rs in
      record {
        caller_service = ends.0;
        callee_service = ends.1;
        call_count = sum_of (λ (x : Storage.EdgeRow F). x.call_count) (r ∷ rs);
        error_count = sum_of (λ (x : Storage.EdgeRow F). x.error_count) (r ∷ rs);
        latency_p50_ms = last.latency_p50_ms;
        latency_p95_ms = last.latency_p95_ms;
        latency_p99_ms = last.latency_p99_ms;
        latest_window_start = last.window_start;
      }
      ∷ edge_groups groups

  abbrev pub edge_match : ℕ → ℕ → Option String → Storage.EdgeRow F → Bool
  edge_match start end name r =
      in_closed_range start end r.window_start
      && matches_name name (λ n. r.caller_service == n || r.callee_service == n)

  abbrev pub incident_match : ℕ → ℕ → Option String → Storage.IncidentRow F → Bool
  incident_match start end target r =
      leb start r.end_window && leb r.start_window end && matches_name target (λ t. r.target == t)

  unfoldable pub incident_answer : List (String × String) → Storage.IncidentRow F → IncidentRow F
  incident_answer targets r = record {
    incident_id = r.incident_id;
    target_type = r.target_type;
    target = r.target;
    detector = r.detector;
    start_window = r.start_window;
    end_window = r.end_window;
    window_count = r.window_count;
    peak_severity = r.peak_severity;
    peak_deviation = r.peak_deviation;
    derived = truth r.derived;
    root_cause_incident_id = r.root_cause_incident_id;
    root_cause_target = root_target targets r.root_cause_incident_id;
  }

  -- `id_to_target`
  unfoldable pub id_to_target : List (Storage.IncidentRow F) → List (String × String)
  id_to_target rows =
      insert_all [] (map (λ (r : Storage.IncidentRow F). (r.incident_id, r.target)) rows)

abbrev pub clock_offset : OffsetRow → ClockOffsetRow
clock_offset r = record {
  service_name = r.service_name;
  offset_ns = r.offset_ns;
  confidence = r.confidence;
  window_start = r.window_start;
}

-- `if service_name not in best: best[service_name] = ...`, and the values at the end.
unfoldable pub first_offsets : List String → List OffsetRow → List ClockOffsetRow
first_offsets seen [] = []
first_offsets seen (r ∷ rs) =
    let rest = first_offsets (r.service_name ∷ seen) rs in
    let skipped = first_offsets seen rs in
    if contains seen r.service_name then skipped else clock_offset r ∷ rest

module _ {F : Type 0} (c : Client F) where
  unfoldable pub fetch_topology : c.State → ℕ → ℕ → Option String → ℕ → List (EdgeRow F)
  fetch_topology s start end name max_rows = take max_rows (
      edge_groups (
        group (
          map (λ (r : Storage.EdgeRow F). ((r.caller_service, r.callee_service), r))
            (filter (edge_match start end name) (c.tables s).service_edges))))

  unfoldable pub incident_rows : c.State → ℕ → ℕ → Option String → ℕ → List (Storage.IncidentRow F)
  incident_rows s start end target max_rows = take max_rows (
      sort (λ (a b : Storage.IncidentRow F). leb b.start_window a.start_window)
        (filter (incident_match start end target) (c.tables s).detected_incidents))

  unfoldable pub fetch_detections : c.State → ℕ → ℕ → Option String → ℕ → List (IncidentRow F)
  fetch_detections s start end target max_rows =
      let rows = incident_rows s start end target max_rows in
      map (incident_answer (id_to_target rows)) rows

  unfoldable pub fetch_clock_offsets : c.State → ℕ → ℕ → List ClockOffsetRow
  fetch_clock_offsets s start end = first_offsets [] (
      sort (λ (a b : OffsetRow). leb b.confidence a.confidence)
        (filter (λ (r : OffsetRow). in_closed_range start end r.window_start)
          (c.tables s).service_clock_offsets))
