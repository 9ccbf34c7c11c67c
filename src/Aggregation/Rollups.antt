-- ===== src/Aggregation/Rollups.antt =====
-- service_agg.py and topology_agg.py: one row for each service or edge, over exactly its calls, with
-- ordered percentiles.
use distributed_tracing_plat.Prelude.{
  ℕ, ◌≤◌, String, string_eq, pair_eq, ◌≡◌, ap, ◌∙◌, Eq, List, map, length, length-filter-le,
  IsSorted, IsSorted-sort, group, group-eq-entries, values, firsts, keys, Elem, Elem-map_inv, subst,
  arith, refl, inl, inr, filter, sort, eqb, ◌==◌, ◌&&◌, Bool-cases, [], ◌∷◌,
}
use mathlib.Core.List.{map-map}
use distributed_tracing_plat.Prelude.Int.{ℤ, ◌≤ℤ◌, leb_ℤ, sub_ℕ}
use distributed_tracing_plat.Statutil.{percentile}
use distributed_tracing_plat.Statutil.Percentiles.{percentile-mono, leb_ℤ_total, leb_ℤ_trans}
use distributed_tracing_plat.Reassembly.{SpanRow, resolved_parent_child_pairs}
use distributed_tracing_plat.Aggregation.{
  durations, error_count, ServiceStats, service_stats, aggregate_services, ServiceEdge, edge_stats,
  edge_entry, aggregate_edges,
}

durations-IsSorted : (rows : List SpanRow) → IsSorted leb_ℤ (durations rows)
unfolding durations
durations-IsSorted rows = IsSorted-sort leb_ℤ leb_ℤ_total leb_ℤ_trans _

-- The rows of a service, in their order.
abbrev pub rows_of : String → List SpanRow → List SpanRow
rows_of service rows = values service (map (λ r. (r.service_name, r)) rows)

-- One entry for each key, in the order of first occurrence.
map-group :
    {K V A : Type 0} ⦃e : Eq K⦄ (f : K × List V → A) (ps : List (K × V))
    → map f (group ps) ≡ map (λ k. f (k, values k ps)) (firsts (keys ps))
map-group f ps =
    ap (map f) (group-eq-entries ps) ∙ map-map f (λ k. (k, values k ps)) (firsts (keys ps))

-- The rows of a service are those that name it.
values-map :
    {K V A : Type 0} ⦃e : Eq K⦄ (key : A → K) (value : A → V) (k : K) (xs : List A)
    → values k (map (λ x. (key x, value x)) xs) ≡ map value (filter (λ x. key x == k) xs)
unfolding values filter
values-map key value k [] = refl
values-map key value k (x ∷ xs) = elim (Bool-cases (key x == k)) [
  | inl same ↦ rw same (ap (λ vs. value x ∷ vs) (values-map key value k xs))
  | inr other ↦ rw other (values-map key value k xs)
]

map_id : {A : Type 0} (xs : List A) → map (λ x. x) xs ≡ xs
map_id [] = refl
map_id (x ∷ xs) = ap (λ ys. x ∷ ys) (map_id xs)

-- The rows of the window that a service handled, and the callees' rows of the calls between two services.
abbrev pub handled_by : String → List SpanRow → List SpanRow
handled_by service rows = filter (λ r. r.service_name == service) rows

abbrev pub called_between : String × String → List SpanRow → List SpanRow
called_between edge rows =
    map (λ (p : SpanRow × SpanRow). p.1)
      (filter (λ p. (p.0.service_name == edge.0) && (p.1.service_name == edge.1))
        (resolved_parent_child_pairs rows))

pub rows_of-eq :
    (service : String) (rows : List SpanRow) → rows_of service rows ≡ handled_by service rows
rows_of-eq service rows =
    values-map (λ (r : SpanRow). r.service_name) (λ r. r) service rows ∙ map_id _

-- The called rows of an edge.
abbrev pub calls_of : String × String → List SpanRow → List SpanRow
calls_of edge rows = values edge (map edge_entry (resolved_parent_child_pairs rows))

calls-filter :
    (caller callee : String) (ps : List (SpanRow × SpanRow))
    → values (caller, callee) (map edge_entry ps)
      ≡ map
          (λ (p : SpanRow × SpanRow). p.1)
          (filter (λ p. (p.0.service_name == caller) && (p.1.service_name == callee)) ps)
unfolding values filter
calls-filter caller callee [] = refl
calls-filter caller callee ((parent, child) ∷ ps) = ground (arith, calls-filter caller callee ps)

pub calls_of-eq :
    (edge : String × String) (rows : List SpanRow) → calls_of edge rows ≡ called_between edge rows
calls_of-eq (caller, callee) rows = calls-filter caller callee (resolved_parent_child_pairs rows)

-- The latencies of rows, end less start, from the smallest to the largest.
abbrev pub latencies : List SpanRow → List ℤ
latencies rows =
    sort leb_ℤ (map (λ (r : SpanRow). sub_ℕ r.end_time_unix_nano r.start_time_unix_nano) rows)

-- The rows with the status of an error, which is 2.
abbrev pub failed : List SpanRow → ℕ
failed rows = length (filter (λ (r : SpanRow). eqb r.status_code 2) rows)

-- The numbers of a service and of an edge, written out.
abbrev pub service_summary : ℕ → String → List SpanRow → ServiceStats
service_summary window_start service rows = record {
  window_start = window_start;
  service_name = service;
  call_count = length rows;
  error_count = failed rows;
  latency_p50 = percentile (latencies rows) 50;
  latency_p95 = percentile (latencies rows) 95;
  latency_p99 = percentile (latencies rows) 99;
}

abbrev pub edge_summary : ℕ → String × String → List SpanRow → ServiceEdge
edge_summary window_start edge rows = record {
  window_start = window_start;
  caller_service = edge.0;
  callee_service = edge.1;
  call_count = length rows;
  error_count = failed rows;
  latency_p50 = percentile (latencies rows) 50;
  latency_p95 = percentile (latencies rows) 95;
  latency_p99 = percentile (latencies rows) 99;
}

service_stats-eq :
    (window_start : ℕ) (rows : List SpanRow) (service : String)
    → service_stats window_start (service, rows_of service rows)
      ≡ service_summary window_start service (handled_by service rows)
unfolding service_stats durations error_count
service_stats-eq window_start rows service =
    ap (service_summary window_start service) (rows_of-eq service rows)

edge_stats-eq :
    (window_start : ℕ) (rows : List SpanRow) (edge : String × String)
    → edge_stats window_start (edge, calls_of edge rows)
      ≡ edge_summary window_start edge (called_between edge rows)
unfolding edge_stats durations error_count
edge_stats-eq window_start rows edge = ap (edge_summary window_start edge) (calls_of-eq edge rows)

map-ext : {A B : Type 0} (g h : A → B) → ((a : A) → g a ≡ h a) → (xs : List A) → map g xs ≡ map h xs
map-ext g h e [] = refl
map-ext g h e (x ∷ xs) = λ i. e x i ∷ map-ext g h e xs i

-- There is one entry for each service of the window, in the order of first occurrence. Of the rows that name
-- the service it has their number, the number of those with the status 2, and the percentiles 50, 95 and 99
-- of their durations, end less start.
pub aggregate_services_exact :
    (rows : List SpanRow) (window_start : ℕ)
    → aggregate_services rows window_start
      ≡ map
          (λ s. service_summary window_start s (handled_by s rows))
          (firsts (map (λ r. r.service_name) rows))
unfolding aggregate_services
aggregate_services_exact rows window_start =
    map-group (service_stats window_start) (map (λ r. (r.service_name, r)) rows)
    ∙ ap (λ ks. map (λ s. service_stats window_start (s, rows_of s rows)) (firsts ks))
        (map-map (λ p. p.0) (λ r. (r.service_name, r)) rows)
    ∙ map-ext _ _ (service_stats-eq window_start rows) _

-- There is one edge for each pair of a caller and a callee with a resolved call, in the order of first
-- occurrence. Of the children of the resolved calls between the two it has their number, the number of those
-- with the status 2, and the percentiles 50, 95 and 99 of their durations, end less start.
pub aggregate_edges_exact :
    (rows : List SpanRow) (window_start : ℕ)
    → aggregate_edges rows window_start
      ≡ map
          (λ edge. edge_summary window_start edge (called_between edge rows))
          (firsts
            (map (λ p. (p.0.service_name, p.1.service_name)) (resolved_parent_child_pairs rows)))
unfolding aggregate_edges
aggregate_edges_exact rows window_start =
    map-group (edge_stats window_start) (map edge_entry (resolved_parent_child_pairs rows))
    ∙ ap (λ ks. map (λ edge. edge_stats window_start (edge, calls_of edge rows)) (firsts ks))
        (map-map (λ p. p.0) edge_entry (resolved_parent_child_pairs rows))
    ∙ map-ext _ _ (edge_stats-eq window_start rows) _

-- No more errors than calls, and the latency percentiles in order.
abbrev pub Ordered : ℕ → ℕ → ℤ → ℤ → ℤ → Type 0
Ordered calls errors p50 p95 p99 = (errors ≤ calls) × (p50 ≤ℤ p95) × (p95 ≤ℤ p99)

Ordered-rows :
    (rows : List SpanRow)
    → Ordered
        (length rows)
        (error_count rows)
        (percentile (durations rows) 50)
        (percentile (durations rows) 95)
        (percentile (durations rows) 99)
unfolding error_count
Ordered-rows rows = (
  length-filter-le _ rows,
  percentile-mono (durations rows) 50 95 (durations-IsSorted rows) (omega arith) (omega arith),
  percentile-mono (durations rows) 95 99 (durations-IsSorted rows) (omega arith) (omega arith),
)

-- The numbers of a service's entry are in order: no more errors than calls, and p50 ≤ p95 ≤ p99.
pub ServiceStats-Ordered :
    (rows : List SpanRow) (window_start : ℕ) (stats : ServiceStats)
    → Elem stats (aggregate_services rows window_start)
    → Ordered stats.call_count stats.error_count stats.latency_p50 stats.latency_p95
        stats.latency_p99
unfolding aggregate_services service_stats
ServiceStats-Ordered rows window_start stats m =
    let (entry, n, q) = Elem-map_inv (service_stats window_start) stats _ m in
    subst
      (λ (s : ServiceStats).
        Ordered s.call_count s.error_count s.latency_p50 s.latency_p95 s.latency_p99)
      q (Ordered-rows entry.1)

-- The numbers of an edge are in order: no more errors than calls, and p50 ≤ p95 ≤ p99.
pub ServiceEdge-Ordered :
    (rows : List SpanRow) (window_start : ℕ) (edge : ServiceEdge)
    → Elem edge (aggregate_edges rows window_start)
    → Ordered edge.call_count edge.error_count edge.latency_p50 edge.latency_p95 edge.latency_p99
unfolding aggregate_edges edge_stats
ServiceEdge-Ordered rows window_start edge m =
    let (entry, n, q) = Elem-map_inv (edge_stats window_start) edge _ m in
    subst
      (λ (s : ServiceEdge).
        Ordered s.call_count s.error_count s.latency_p50 s.latency_p95 s.latency_p99)
      q (Ordered-rows entry.1)
