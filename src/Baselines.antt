-- ===== src/Baselines.antt =====
-- analyzer/src/analyzer/baseline.py: what is normal for a target, from the spans and the windows of the
-- lookback. The rows and the histories of call counts are what reader.py returns. Medians are computed
-- exactly on integers (nanoseconds, calls) and then become floating-point numbers.
pub mod Lookback
mod Samples
use distributed_tracing_plat.Prelude.{
  ℕ, Bool, String, string_eq, pair_eq, List, [], ◌∷◌, map, length, leb, eqb, if◌then◌else◌, group,
}
use distributed_tracing_plat.Prelude.Int.{ℤ, pos}
use distributed_tracing_plat.Prelude.Floats.{Floats, zero_F}
use distributed_tracing_plat.Statutil.{median, mad}
use distributed_tracing_plat.Reassembly.{SpanRow, resolved_parent_child_pairs}
use distributed_tracing_plat.Aggregation.{duration, error_count, edge_entry}
use distributed_tracing_plat.Targets.{service, edge, TargetKey, target_key, Baseline}

abbrev pub service_target : String → TargetKey
service_target name = target_key service "" name

abbrev pub edge_target : String × String → TargetKey
edge_target (caller, callee) = target_key edge caller callee

module _ {F : Type 0} ⦃f : Floats F⦄ where
  -- A median in halves, or a deviation in quarters, of numbers of which `unit` make one.
  abbrev pub scaled : ℤ → ℕ → F
  scaled n unit = f.div (f.of_ℤ n) (f.of_ℕ unit)

  -- `compute_baseline`, on latencies in nanoseconds.
  pub compute_baseline : TargetKey → List ℤ → ℕ → List ℕ → ℕ → Baseline F
  compute_baseline target latencies errors per_window_call_counts min_samples =
      let call_count = length latencies in
      let call_rates = map pos per_window_call_counts in
      record {
        target = target;
        call_count_observed = call_count;
        latency_median_ms = scaled (median latencies) 2_000_000;
        latency_mad_ms = scaled (mad latencies) 4_000_000;
        error_rate = if eqb call_count 0 then zero_F else f.div (f.of_ℕ errors) (f.of_ℕ call_count);
        call_rate_median = scaled (median call_rates) 2;
        call_rate_mad = scaled (mad call_rates) 4;
        window_count_observed = length per_window_call_counts;
        ready = leb min_samples call_count;
      }

  -- The body of the loop over a dictionary of rows, for a target and its history.
  pub baseline_entry : TargetKey → List ℕ → ℕ → List SpanRow → TargetKey × Baseline F
  baseline_entry target history min_samples rows =
      (target, compute_baseline target (map duration rows) (error_count rows) history min_samples)

  -- The two dictionaries of `refresh_baselines`: a group has its own target, so each entry is new.
  pub service_baselines : List SpanRow → (String → List ℕ) → ℕ → List (TargetKey × Baseline F)
  service_baselines lookback_rows history min_samples =
      map (λ g. baseline_entry (service_target g.0) (history g.0) min_samples g.1)
        (group (map (λ (r : SpanRow). (r.service_name, r)) lookback_rows))

  pub edge_baselines : List SpanRow → (String × String → List ℕ) → ℕ → List (TargetKey × Baseline F)
  edge_baselines lookback_rows history min_samples =
      map (λ g. baseline_entry (edge_target g.0) (history g.0) min_samples g.1)
        (group (map edge_entry (resolved_parent_child_pairs lookback_rows)))

  pub refresh_baselines :
      List SpanRow
      → (String → List ℕ)
      → (String × String → List ℕ)
      → ℕ
      → List (TargetKey × Baseline F) × List (TargetKey × Baseline F)
  refresh_baselines lookback_rows service_history edge_history min_samples = (
    service_baselines lookback_rows service_history min_samples,
    edge_baselines lookback_rows edge_history min_samples,
  )
