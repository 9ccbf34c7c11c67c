-- ===== src/Api/ListingSamples.antt =====
-- The listings of edges, incidents and clock offsets over the tables in memory.
use distributed_tracing_plat.Prelude.{
  ◌≡◌, ◌≢◌, refl, sym, subst, inl, inr, false, String, string_eq, pair_eq, ◌==◌, Option, none, some,
  [], ◌∷◌, map, filter, sort, contains, Elem, Distinct, length, group, group_from, push, lookup,
  insert_all, insert, sum_of,
}
use distributed_tracing_plat.Prelude.Int.{ℤ, pos}
use distributed_tracing_plat.Prelude.Fixed.{fixed}
use distributed_tracing_plat.Targets.{service}
use distributed_tracing_plat.Detectors.{warning}
use distributed_tracing_plat.Storage.{Tables, StoredSpan, SummaryRow, OffsetRow}
use distributed_tracing_plat.Storage as Storage
use distributed_tracing_plat.Storage.Memory.{memory}
use distributed_tracing_plat.Reader.{in_closed_range}
use distributed_tracing_plat.Api.Listings.{
  EdgeRow, IncidentRow, ClockOffsetRow, edge_match, edge_groups, latest_edge, incident_answer,
  id_to_target, root_target, fetch_clock_offsets, first_offsets, fetch_detections, incident_rows,
  fetch_topology,
}
use distributed_tracing_plat.Api.Best.{IsBest, fetch_clock_offsets_exact}
use distributed_tracing_plat.Api.Sums.{SumsUp, ends_of, fetch_topology-SumsUp}
use distributed_tracing_plat.Api.Roots.{Shows, root_cause_target_exact}
use distributed_tracing_plat.Api.Samples.{tables}

-- The offsets of two services are answered, with a limit of one row in the configuration.
offsets_uncapped_test : length (fetch_clock_offsets memory tables 0 3_600_000_000_000) ≡ 2
unfolding fetch_clock_offsets first_offsets filter sort contains
offsets_uncapped_test = refl

fetch_clock_offsets_exact_example :
    let found = fetch_clock_offsets memory tables 0 3_600_000_000_000 in
    let in_time =
      filter
        (λ (r : OffsetRow). in_closed_range 0 3_600_000_000_000 r.window_start)
        tables.service_clock_offsets in
    Distinct (map (λ (o : ClockOffsetRow). o.service_name) found)
    × ((o : ClockOffsetRow) → Elem o found → IsBest in_time o)
    × ((r : OffsetRow)
        → Elem r in_time
        → Elem r.service_name (map (λ (o : ClockOffsetRow). o.service_name) found))
fetch_clock_offsets_exact_example = fetch_clock_offsets_exact memory tables 0 3_600_000_000_000

abbrev edge : EdgeRow ℤ
edge = record {
  caller_service = "frontend";
  callee_service = "checkout";
  call_count = 4;
  error_count = 2;
  latency_p50_ms = pos 10;
  latency_p95_ms = pos 20;
  latency_p99_ms = pos 20;
  latest_window_start = 90_000_000_000;
}

edge_test : fetch_topology memory tables 0 3_600_000_000_000 none 10 ≡ edge ∷ []
unfolding fetch_topology edge_groups latest_edge filter group group_from push sum_of
edge_test = refl

fetch_topology-SumsUp_example :
    SumsUp
      (filter
        (λ r. ends_of r == ("frontend", "checkout"))
        (filter (edge_match 0 3_600_000_000_000 none) tables.service_edges))
      edge
fetch_topology-SumsUp_example =
    fetch_topology-SumsUp memory tables 0 3_600_000_000_000 none 10 edge
      (subst (Elem edge) (sym edge_test) (inl refl))

abbrev answer : IncidentRow ℤ
answer = record {
  incident_id = "j";
  target_type = service;
  target = "checkout";
  detector = "call_rate";
  start_window = 60_000_000_000;
  end_window = 60_000_000_000;
  window_count = 1;
  peak_severity = warning;
  peak_deviation = pos 4_000;
  derived = false;
  root_cause_incident_id = "i";
  root_cause_target = some "checkout";
}

answer-Elem : Elem answer (fetch_detections memory tables 0 3_600_000_000_000 none 10)
unfolding fetch_detections incident_rows incident_answer id_to_target root_target filter sort lookup
    insert_all insert
answer-Elem = inr (inl refl)

root_cause_target_exact_example :
    let rows = incident_rows memory tables 0 3_600_000_000_000 none 10 in
    ((r : Storage.IncidentRow ℤ) × Elem r rows × Shows r answer)
    × ((t : String)
        → ◌≡◌ {A = Option String} (some "checkout") (some t)
        → (r : Storage.IncidentRow ℤ) × Elem r rows × (r.incident_id ≡ "i") × (r.target ≡ t))
    × ((r : Storage.IncidentRow ℤ)
        → Elem r rows
        → r.incident_id ≡ "i"
        → ◌≢◌ {A = String} "i" ""
        → ◌≢◌ {A = Option String} (some "checkout") none)
root_cause_target_exact_example =
    root_cause_target_exact memory tables 0 3_600_000_000_000 none 10 answer answer-Elem
