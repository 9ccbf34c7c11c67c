-- ===== src/Baselines/Lookback.antt =====
-- baseline.py: the baseline of a target is made of exactly the target's calls in the lookback.
use distributed_tracing_plat.Prelude.{
  ℕ, ◌≤◌, true, ◌≡◌, refl, ap, sym, subst, ◌∙◌, inl, inr, String, string_eq, pair_eq, Eq, ◌==◌,
  Bool-cases, Option, none, some, Option-cases, List, [], ◌∷◌, map, leb→le, Elem-map_inv,
  Elem-of_lookup, lookup, group, values, get_group-group, get_group_of_lookup, arith, length,
  length-map, leb, eqb, filter, if◌then◌else◌,
}
use distributed_tracing_plat.Prelude.Floats.{Floats}
use distributed_tracing_plat.Reassembly.{SpanRow}
use distributed_tracing_plat.Aggregation.{duration, error_count}
use distributed_tracing_plat.Aggregation.Rollups.{
  rows_of, calls_of, handled_by, called_between, rows_of-eq, calls_of-eq,
}
use distributed_tracing_plat.Statutil.{median, mad}
use distributed_tracing_plat.Prelude.Int.{ℤ, sub_ℕ, pos}
use distributed_tracing_plat.Detectors.Loops.{some_inj}
use distributed_tracing_plat.Targets.{TargetKey, target_eq, Baseline}
use distributed_tracing_plat.Baselines.{
  compute_baseline, baseline_entry, service_target, edge_target, service_baselines, edge_baselines,
  refresh_baselines,
}

-- `none` for `none`.
abbrev map_some : {A B : Type 0} → (A → B) → Option A → Option B
map_some g none = none
map_some g (some a) = some (g a)

module _ {K A B : Type 0} ⦃e : Eq K⦄ (target : K → TargetKey) (g : K → A → B) where
  -- A dictionary with an entry for each group, under keys that differ for different groups.
  lookup-map_group :
      (d : List (K × A)) (k : K)
      → ((j : K) → target j ≡ target k → j ≡ k)
      → lookup (target k) (map (λ x. (target x.0, g x.0 x.1)) d) ≡ map_some (g k) (lookup k d)
  unfolding lookup
  lookup-map_group [] k inj = refl
  lookup-map_group ((j, a) ∷ d) k inj = elim (Bool-cases (j == k)) [
    | inl same ↦
        let q : j ≡ k = (e.beq_iff j k).0 same in
        rw (same, (target_eq.beq_iff (target j) (target k)).1 (ap target q))
          (ap (λ i. some (g i a)) q)
    | inr other ↦ elim (Bool-cases (target j == target k)) [
      | inl clash ↦
          absurd (
            ground
              (arith, e.beq_iff j k, inj j ((target_eq.beq_iff (target j) (target k)).0 clash)))
      | inr apart ↦ rw (other, apart) (lookup-map_group d k inj)
    ]
  ]

-- What `lookup` finds among groups are the values of the key.
lookup-group :
    {K V : Type 0} ⦃e : Eq K⦄ (ps : List (K × V)) (k : K) (vs : List V)
    → lookup k (group ps) ≡ some vs
    → values k ps ≡ vs
lookup-group ps k vs h = sym (get_group-group k ps) ∙ get_group_of_lookup k (group ps) vs h

edge_target_inj : (a b : String × String) → edge_target a ≡ edge_target b → a ≡ b
edge_target_inj (a, b) (c, d) h =
    ap (λ x. (x, b)) (ap (λ (k : TargetKey). k.caller) h)
    ∙ ap (λ y. (c, y)) (ap (λ (k : TargetKey). k.callee) h)

-- An entry that is found was made from the values of its key.
entry_of_found :
    {K V B : Type 0} ⦃e : Eq K⦄ (target : K → TargetKey) (g : K → List V → B) (ps : List (K × V))
    (k : K) (b : B)
    → ((j : K) → target j ≡ target k → j ≡ k)
    → lookup (target k) (map (λ x. (target x.0, g x.0 x.1)) (group ps)) ≡ some b
    → b ≡ g k (values k ps)
entry_of_found target g ps k b inj h =
    let found = sym (lookup-map_group target g (group ps) k inj) ∙ h in
    elim (Option-cases (lookup k (group ps))) [
      | inl e ↦ absurd (ground (arith, ap (map_some (g k)) e, found))
      | inr (vs, e) ↦
          some_inj b _ (sym found ∙ ap (map_some (g k)) e) ∙ ap (g k) (sym (lookup-group ps k vs e))
    ]

module _ {F : Type 0} ⦃f : Floats F⦄ where
  -- What a baseline of a target says of its spans in the lookback and of the history of its calls, of which
  -- each number is the calls of a window. Latencies are end less start.
  abbrev pub baseline_of : TargetKey → List SpanRow → List ℕ → ℕ → Baseline F
  baseline_of target spans history min_samples =
      let latencies : List ℤ =
        map (λ (r : SpanRow). sub_ℕ r.end_time_unix_nano r.start_time_unix_nano) spans in
      record {
        target = target;
        call_count_observed = length spans;
        latency_median_ms = f.div (f.of_ℤ (median latencies)) (f.of_ℕ 2_000_000);
        latency_mad_ms = f.div (f.of_ℤ (mad latencies)) (f.of_ℕ 4_000_000);
        error_rate =
            if eqb (length spans) 0
            then f.of_ℕ 0
            else f.div (f.of_ℕ (length (filter (λ (r : SpanRow). eqb r.status_code 2) spans)))
                (f.of_ℕ (length spans));
        call_rate_median = f.div (f.of_ℤ (median (map pos history))) (f.of_ℕ 2);
        call_rate_mad = f.div (f.of_ℤ (mad (map pos history))) (f.of_ℕ 4);
        window_count_observed = length history;
        ready = leb min_samples (length spans);
      }

  compute_baseline-eq :
      (target : TargetKey) (spans : List SpanRow) (history : List ℕ) (min_samples : ℕ)
      → compute_baseline target (map duration spans) (error_count spans) history min_samples
        ≡ baseline_of target spans history min_samples
  unfolding compute_baseline error_count
  compute_baseline-eq target spans history min_samples = rw (length-map duration spans) refl

  -- A baseline that is found under a service is that of the spans in the lookback that name the service, and
  -- of the history of its calls: their number, and if it is at least `min_samples`; the medians and the median
  -- deviations of their durations in milliseconds and of the calls by window; and the rate of the status 2.
  pub service_baselines_exact :
      (lookback_rows : List SpanRow) (history : String → List ℕ) (min_samples : ℕ) (name : String)
      (b : Baseline F)
      → lookup (service_target name) (service_baselines lookback_rows history min_samples) ≡ some b
      → b
        ≡ baseline_of
            (service_target name)
            (handled_by name lookback_rows)
            (history name)
            min_samples
  unfolding service_baselines baseline_entry
  service_baselines_exact lookback_rows history min_samples name b h =
      entry_of_found service_target
        (λ n rows. (baseline_entry (service_target n) (history n) min_samples rows).1) _ name b
        (λ j q. ap (λ (k : TargetKey). k.callee) q) h
      ∙ compute_baseline-eq (service_target name) (rows_of name lookback_rows) (history name)
          min_samples
      ∙ ap (λ rows. baseline_of (service_target name) rows (history name) min_samples)
          (rows_of-eq name lookback_rows)

  -- A baseline that is found under an edge is that of the children of the resolved calls of the edge in the
  -- lookback, and of the history of its calls.
  pub edge_baselines_exact :
      (lookback_rows : List SpanRow) (history : String × String → List ℕ) (min_samples : ℕ)
      (calls : String × String) (b : Baseline F)
      → lookup (edge_target calls) (edge_baselines lookback_rows history min_samples) ≡ some b
      → b
        ≡ baseline_of
            (edge_target calls)
            (called_between calls lookback_rows)
            (history calls)
            min_samples
  unfolding edge_baselines baseline_entry
  edge_baselines_exact lookback_rows history min_samples calls b h =
      entry_of_found edge_target
        (λ n rows. (baseline_entry (edge_target n) (history n) min_samples rows).1) _ calls b
        (λ j q. edge_target_inj j calls q) h
      ∙ compute_baseline-eq (edge_target calls) (calls_of calls lookback_rows) (history calls)
          min_samples
      ∙ ap (λ rows. baseline_of (edge_target calls) rows (history calls) min_samples)
          (calls_of-eq calls lookback_rows)

  -- Every ready baseline has seen a call.
  abbrev pub Called : List (TargetKey × Baseline F) → Type 0
  Called baselines =
      (key : TargetKey) (b : Baseline F)
      → lookup key baselines ≡ some b
      → b.ready ≡ true
      → 1 ≤ b.call_count_observed

  Called-map :
      {K : Type 0} (target : K → TargetKey) (history : K → List ℕ) (min_samples : ℕ)
      (d : List (K × List SpanRow))
      → 1 ≤ min_samples
      → Called (map (λ x. baseline_entry (target x.0) (history x.0) min_samples x.1) d)
  unfolding baseline_entry compute_baseline
  Called-map target history min_samples d h key b q ready =
      let m = Elem-of_lookup key b _ q in
      let (x, n, r) =
        Elem-map_inv (λ x. baseline_entry (target x.0) (history x.0) min_samples x.1) (key, b) d
          m in
      let same : (baseline_entry {F = F} (target x.0) (history x.0) min_samples x.1).1 ≡ b =
        ap (λ (p : TargetKey × Baseline F). p.1) r in
      subst (λ (b : Baseline F). b.ready ≡ true → 1 ≤ b.call_count_observed) same
        (λ enough. omega (arith, leb→le _ _ enough)) ready

  -- With a sample of one call or more, every ready baseline that `refresh_baselines` returns has seen a
  -- call.
  pub refresh_baselines-Called :
      (lookback_rows : List SpanRow) (service_history : String → List ℕ)
      (edge_history : String × String → List ℕ) (min_samples : ℕ)
      → 1 ≤ min_samples
      → Called (refresh_baselines lookback_rows service_history edge_history min_samples).0
        × Called (refresh_baselines lookback_rows service_history edge_history min_samples).1
  unfolding refresh_baselines service_baselines edge_baselines
  refresh_baselines-Called lookback_rows service_history edge_history min_samples h = (
    Called-map service_target service_history min_samples _ h,
    Called-map edge_target edge_history min_samples _ h,
  )
