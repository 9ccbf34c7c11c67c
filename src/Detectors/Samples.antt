-- ===== src/Detectors/Samples.antt =====
-- detectors.py on a slow, failing and half silent window, and the theorems about it at that window.
use distributed_tracing_plat.Prelude.{
  ◌≤◌, ◌≡◌, inl, inr, refl, true, some, List, [], ◌∷◌, Elem, lookup, arith, Bool-cases, ◌==◌, subst,
}
use distributed_tracing_plat.Prelude.Int.{ℤ, pos, negsuc, ◌+ℤ◌, ◌-ℤ◌, ◌*ℤ◌}
use distributed_tracing_plat.Prelude.Fixed.{fixed}
use distributed_tracing_plat.Targets.{service, TargetKey, target_key, target_eq, Baseline}
use distributed_tracing_plat.Detectors.{
  WindowStats, Detection, Severity, observed_calls, robust_z, severity_of, best_candidate,
  best_detection, percentile_deviation, error_rate, call_rate_verdict, call_rate_drop, collect,
  detect_percentile_deviation, detect_error_rate_change, detect_call_rate_drop,
}
use distributed_tracing_plat.Detectors.Loops.{some_inj}
use distributed_tracing_plat.Detectors.Firing.{
  Deviates, ErrsMore, detect_percentile_deviation_sound, detect_error_rate_change_sound,
}
use distributed_tracing_plat.Detectors.Drops.{Fell, detect_call_rate_drop_sound}

program : Unit {0}
unfolding robust_z severity_of best_candidate best_detection percentile_deviation error_rate
    call_rate_verdict call_rate_drop collect detect_percentile_deviation detect_error_rate_change
    detect_call_rate_drop lookup ◌+ℤ◌ ◌-ℤ◌ ◌*ℤ◌
program = tt

abbrev payments : TargetKey
payments = target_key service "" "payments"

-- Twenty calls of which ten failed, at 100 ms for the p95 and 200 ms for the p99.
abbrev stats : WindowStats ℤ
stats = record {
  target = payments;
  call_count = 20;
  error_count = 10;
  latency_p50_ms = pos 20000;
  latency_p95_ms = pos 100000;
  latency_p99_ms = pos 200000;
}

-- A hundred calls, 20 ms, one error in a hundred, and forty calls in each window.
abbrev baseline : Baseline ℤ
baseline = record {
  target = payments;
  call_count_observed = 100;
  latency_median_ms = pos 20000;
  latency_mad_ms = pos 2000;
  error_rate = pos 10;
  call_rate_median = pos 41000;
  call_rate_mad = pos 0;
  window_count_observed = 3;
  ready = true;
}

abbrev current : List (TargetKey × WindowStats ℤ)
current = (payments, stats) ∷ []

abbrev baselines : List (TargetKey × Baseline ℤ)
baselines = (payments, baseline) ∷ []

abbrev slow : Detection ℤ
slow = record {
  window_start = 60;
  target = payments;
  detector = "percentile_deviation";
  severity = Severity.critical;
  observed_value = pos 200000;
  baseline_value = pos 20000;
  deviation = pos 60728;
}

slow_test : detect_percentile_deviation current baselines 60 (pos 3500) ≡ some (slow ∷ [])
unfolding program
slow_test = refl

abbrev failing : Detection ℤ
failing = record {
  window_start = 60;
  target = payments;
  detector = "error_rate";
  severity = Severity.critical;
  observed_value = pos 500;
  baseline_value = pos 10;
  deviation = pos 7777;
}

failing_test : detect_error_rate_change current baselines 60 10 (pos 3000) ≡ some (failing ∷ [])
unfolding program
failing_test = refl

abbrev fewer : Detection ℤ
fewer = record {
  window_start = 60;
  target = payments;
  detector = "call_rate";
  severity = Severity.critical;
  observed_value = pos 20000;
  baseline_value = pos 41000;
  deviation = negsuc 511;
}

fewer_test : detect_call_rate_drop current baselines 60 (pos 3000) ≡ some (fewer ∷ [])
unfolding program
fewer_test = refl

baselines_called :
    (key : TargetKey) (b : Baseline ℤ)
    → lookup key baselines ≡ some b
    → b.ready ≡ true
    → 1 ≤ b.call_count_observed
unfolding lookup
baselines_called key b h r = elim (Bool-cases (payments == key)) [
  | inl e ↦
      subst (λ (b : Baseline ℤ). 1 ≤ b.call_count_observed) (some_inj _ _ (rw e at h)) (omega arith)
  | inr e ↦ absurd (ground (arith, rw e at h))
]

detect_percentile_deviation_sound_example :
    (s : WindowStats ℤ) × (b : Baseline ℤ) × Elem (payments, s) current
    × (lookup payments baselines ≡ some b)
    × (b.ready ≡ true)
    × Deviates (pos 3500) s b slow
detect_percentile_deviation_sound_example =
    detect_percentile_deviation_sound current baselines 60 (pos 3500) (slow ∷ []) slow slow_test
      (inl refl)

detect_error_rate_change_sound_example :
    (s : WindowStats ℤ) × (b : Baseline ℤ) × Elem (payments, s) current
    × (lookup payments baselines ≡ some b)
    × (b.ready ≡ true)
    × ErrsMore 10 (pos 3000) s b failing
detect_error_rate_change_sound_example =
    detect_error_rate_change_sound current baselines 60 10 (pos 3000) (failing ∷ []) failing
      failing_test (inl refl)

detect_call_rate_drop_sound_example :
    (b : Baseline ℤ) × Elem (payments, b) baselines
    × (b.ready ≡ true)
    × (pos 20000 ≡ observed_calls (lookup payments current))
    × Fell (pos 3000) (pos 20000) b (negsuc 511) Severity.critical
detect_call_rate_drop_sound_example =
    detect_call_rate_drop_sound current baselines 60 (pos 3000) (fewer ∷ []) fewer fewer_test
      (inl refl)
