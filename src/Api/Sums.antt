-- ===== src/Api/Sums.antt =====
-- queries.py, `fetch_topology`: an edge's calls are summed over the windows of the range, and its latencies
-- are those of the latest.
use native.Mathlib.Nat.{le_trans}
use distributed_tracing_plat.Prelude.{
  ℕ, ◌≤◌, ◌≡◌, refl, ap, subst, ◌∙◌, inl, inr, ⊎_elim, String, string_eq, pair_eq, ◌==◌, Option,
  List, [], ◌∷◌, map, filter, group, values, values_of_group, ltb, sum_of, Elem, Elem-if,
  Bool-cases, if◌then◌else◌, Eq, arith,
}
use distributed_tracing_plat.Storage as Storage
use distributed_tracing_plat.Storage.{Client}
use distributed_tracing_plat.Api.Listings.{
  EdgeRow, latest_edge, edge_groups, edge_match, fetch_topology,
}
use distributed_tracing_plat.Api.Matches.{Elem-take}

values-map :
    {K R : Type 0} ⦃e : Eq K⦄ (g : R → K) (k : K) (rows : List R)
    → values k (map (λ r. (g r, r)) rows) ≡ filter (λ r. g r == k) rows
unfolding values filter
values-map g k [] = refl
values-map g k (r ∷ rows) = ground (arith, values-map g k rows)

abbrev pub ends_of : {F : Type 0} → Storage.EdgeRow F → String × String
ends_of r = (r.caller_service, r.callee_service)

module _ {F : Type 0} where
  later_of : Storage.EdgeRow F → Storage.EdgeRow F → Storage.EdgeRow F
  later_of best r = if ltb best.window_start r.window_start then r else best

  later_of-le :
      (best r : Storage.EdgeRow F)
      → (best.window_start ≤ (later_of best r).window_start)
        × (r.window_start ≤ (later_of best r).window_start)
  unfolding later_of
  later_of-le best r = elim (Bool-cases (ltb best.window_start r.window_start)) [
    | inl lt ↦ rw lt (ground arith, omega arith)
    | inr ge ↦ rw ge (omega arith, ground arith)
  ]

  latest_edge-ge :
      (rs : List (Storage.EdgeRow F)) (best : Storage.EdgeRow F)
      → best.window_start ≤ (latest_edge best rs).window_start
  unfolding latest_edge later_of
  latest_edge-ge [] best = omega arith
  latest_edge-ge (r ∷ rs) best =
      le_trans (later_of-le best r).0 (latest_edge-ge rs (later_of best r))

  latest_edge-le :
      (rs : List (Storage.EdgeRow F)) (best x : Storage.EdgeRow F)
      → Elem x (best ∷ rs)
      → x.window_start ≤ (latest_edge best rs).window_start
  unfolding latest_edge later_of
  latest_edge-le [] best x m =
      ⊎_elim
        (λ e. subst (λ (y : Storage.EdgeRow F). y.window_start ≤ best.window_start) e (omega arith))
        (λ n. absurd n) m
  latest_edge-le (r ∷ rs) best x m =
      let top = latest_edge-ge rs (later_of best r) in
      ⊎_elim
        (λ e.
          subst
            (λ (y : Storage.EdgeRow F).
              y.window_start ≤ (latest_edge (later_of best r) rs).window_start)
            e (le_trans (later_of-le best r).0 top))
        (λ i.
          ⊎_elim
            (λ e.
              subst
                (λ (y : Storage.EdgeRow F).
                  y.window_start ≤ (latest_edge (later_of best r) rs).window_start)
                e (le_trans (later_of-le best r).1 top))
            (λ j. latest_edge-le rs (later_of best r) x (inr j)) i)
        m

  Elem-latest_edge :
      (rs : List (Storage.EdgeRow F)) (best : Storage.EdgeRow F)
      → Elem (latest_edge best rs) (best ∷ rs)
  unfolding latest_edge later_of
  Elem-latest_edge [] best = inl refl
  Elem-latest_edge (r ∷ rs) best =
      Elem-if (ltb best.window_start r.window_start) _ best r rs
        (Elem-latest_edge rs (later_of best r))

  -- What an edge of an answer says of its rows: the sums of the calls and of the errors, and a row with the
  -- latest window and the edge's latencies.
  pub record SumsUp (rows : List (Storage.EdgeRow F)) (e : EdgeRow F) : Type 0 where
    pub calls : e.call_count ≡ sum_of (λ (x : Storage.EdgeRow F). x.call_count) rows
    pub errors : e.error_count ≡ sum_of (λ (x : Storage.EdgeRow F). x.error_count) rows
    pub last : Storage.EdgeRow F
    pub last_row : Elem last rows
    pub window : last.window_start ≡ e.latest_window_start
    pub p50 : last.latency_p50_ms ≡ e.latency_p50_ms
    pub p95 : last.latency_p95_ms ≡ e.latency_p95_ms
    pub p99 : last.latency_p99_ms ≡ e.latency_p99_ms
    pub no_later : (x : Storage.EdgeRow F) → Elem x rows → x.window_start ≤ e.latest_window_start

  edge_groups-SumsUp :
      (groups : List ((String × String) × List (Storage.EdgeRow F))) (e : EdgeRow F)
      → Elem e (edge_groups groups)
      → (rows : List (Storage.EdgeRow F)) × Elem ((e.caller_service, e.callee_service), rows) groups
        × SumsUp rows e
  unfolding edge_groups
  edge_groups-SumsUp [] e m = absurd m
  edge_groups-SumsUp ((ends, []) ∷ groups) e m =
      let (rows, i, u) = edge_groups-SumsUp groups e m in (rows, inr i, u)
  edge_groups-SumsUp ((ends, r ∷ rs) ∷ groups) e m =
      ⊎_elim
        (λ q. (
          r ∷ rs,
          inl (ap (λ (x : EdgeRow F). ((x.caller_service, x.callee_service), r ∷ rs)) q),
          subst (SumsUp (r ∷ rs)) q (record {
            calls = refl;
            errors = refl;
            last = latest_edge r rs;
            last_row = Elem-latest_edge rs r;
            window = refl;
            p50 = refl;
            p95 = refl;
            p99 = refl;
            no_later = λ x i. latest_edge-le rs r x i;
          }),
        ))
        (λ i. let (rows, j, u) = edge_groups-SumsUp groups e i in (rows, inr j, u)) m

module _ {F : Type 0} (c : Client F) where
  -- An edge of an answer sums up the rows of its caller and callee in the range and with the name asked for:
  -- its calls and errors are the sums of theirs, and its latencies are those of a row with the latest window.
  pub fetch_topology-SumsUp :
      (s : c.State) (start end : ℕ) (name : Option String) (max_rows : ℕ) (e : EdgeRow F)
      → Elem e (fetch_topology c s start end name max_rows)
      → SumsUp
          (filter
            (λ r. ends_of r == (e.caller_service, e.callee_service))
            (filter (edge_match start end name) (c.tables s).service_edges))
          e
  unfolding fetch_topology
  fetch_topology-SumsUp s start end name max_rows e m =
      let in_range = filter (edge_match start end name) (c.tables s).service_edges in
      let ps = map (λ (r : Storage.EdgeRow F). (ends_of r, r)) in_range in
      let (rows, i, u) =
        edge_groups-SumsUp (group ps) e (Elem-take max_rows (edge_groups (group ps)) e m) in
      let own : rows ≡ values (e.caller_service, e.callee_service) ps =
        values_of_group ps (e.caller_service, e.callee_service) rows i in
      subst (λ xs. SumsUp xs e)
        (own ∙ values-map ends_of (e.caller_service, e.callee_service) in_range) u
