-- ===== src/Detectors.antt =====
-- analyzer/src/analyzer/detectors.py: the three detectors. A detector returns none where the source
-- raises ZeroDivisionError or ValueError. A dictionary is the list of its items, in their order.
pub mod Loops
pub mod Safety
pub mod Firing
pub mod Drops
mod Samples
use distributed_tracing_plat.Prelude.{
  ℕ, ◌+◌, Bool, true, false, ◌&&◌, ◌||◌, not, String, Option, none, some, List, [], ◌∷◌, ltb,
  if◌then◌else◌, ◌>>=◌, lookup,
}
use distributed_tracing_plat.Prelude.Floats.{Floats, zero_F, one_F, divide, root}
use distributed_tracing_plat.Targets.{TargetKey, target_eq, Baseline}

pub record WindowStats (F : Type 0) : Type 0 where
  pub target : TargetKey
  pub call_count : ℕ
  pub error_count : ℕ
  pub latency_p50_ms : F
  pub latency_p95_ms : F
  pub latency_p99_ms : F

pub data Severity : Type 0 where
  warning : Severity
  critical : Severity

pub record Detection (F : Type 0) : Type 0 where
  pub window_start : ℕ
  pub target : TargetKey
  pub detector : String
  pub severity : Severity
  pub observed_value : F
  pub baseline_value : F
  pub deviation : F

module _ {F : Type 0} ⦃f : Floats F⦄ where
  abbrev pub mad_scale : F
  mad_scale = f.decimal 14826 4

  -- `_robust_z`: an inner none is the code's None.
  pub robust_z : F → F → F → Option (Option F)
  robust_z value center spread_mad =
      if f.le spread_mad zero_F
      then some none
      else (divide (f.sub value center) (f.mul mad_scale spread_mad) >>= λ z. some (some z))

  pub severity_of : F → F → Severity
  severity_of magnitude threshold =
      if f.lt (f.mul (f.of_ℕ 2) threshold) magnitude then Severity.critical else Severity.warning

  abbrev pub add_candidate : Option F → F → List (F × F) → List (F × F)
  add_candidate none observed candidates = candidates
  add_candidate (some z) observed candidates = (z, observed) ∷ candidates

  -- `max(candidates, key=lambda c: c[0])`: the first of the largest.
  pub best_candidate : F × F → List (F × F) → F × F
  best_candidate c [] = c
  best_candidate c (d ∷ ds) = best_candidate (if f.lt c.0 d.0 then d else c) ds

  -- `if fires: detections.append(d)`
  abbrev pub append_if : Bool → Detection F → Option (Detection F)
  append_if fires d = if fires then some d else none

  -- What `detect_percentile_deviation` makes of its candidates.
  pub best_detection : ℕ → F → TargetKey → F → List (F × F) → Option (Detection F)
  best_detection window_start threshold key median [] = none
  best_detection window_start threshold key median (c ∷ cs) =
      let (z, observed) = best_candidate c cs in
      append_if (f.lt threshold z) record {
        window_start = window_start;
        target = key;
        detector = "percentile_deviation";
        severity = severity_of z threshold;
        observed_value = observed;
        baseline_value = median;
        deviation = z;
      }

  -- The body of the loop of `detect_percentile_deviation` after the guard on the baseline.
  pub percentile_deviation :
      ℕ → F → TargetKey → WindowStats F → Baseline F → Option (Option (Detection F))
  percentile_deviation window_start threshold key stats baseline = do
    let median = baseline.latency_median_ms
    z99 ← robust_z stats.latency_p99_ms median baseline.latency_mad_ms
    z95 ← robust_z stats.latency_p95_ms median baseline.latency_mad_ms
    let candidates =
        add_candidate z99 stats.latency_p99_ms (add_candidate z95 stats.latency_p95_ms [])
    some (best_detection window_start threshold key median candidates)

  -- The body of the loop of `detect_error_rate_change` after the guard on the baseline.
  pub error_rate :
      ℕ → ℕ → F → TargetKey → WindowStats F → Baseline F → Option (Option (Detection F))
  error_rate window_start min_sample_size threshold key stats baseline =
      if ltb stats.call_count min_sample_size then some none else do
        let n1 = stats.call_count
        let n2 = baseline.call_count_observed
        let p2 = baseline.error_rate
        p1 ← divide (f.of_ℕ stats.error_count) (f.of_ℕ n1)
        pooled ← divide (f.add (f.of_ℕ stats.error_count) (f.mul p2 (f.of_ℕ n2))) (f.of_ℕ (n1 + n2))
        if not (f.lt zero_F pooled && f.lt pooled one_F) then some none else do
          inv1 ← divide one_F (f.of_ℕ n1)
          inv2 ← divide one_F (f.of_ℕ n2)
          denom ← root (f.mul (f.mul pooled (f.sub one_F pooled)) (f.add inv1 inv2))
          if f.le denom zero_F then some none else do
            z ← divide (f.sub p1 p2) denom
            some (
                append_if (f.lt threshold z) record {
                  window_start = window_start;
                  target = key;
                  detector = "error_rate";
                  severity = severity_of z threshold;
                  observed_value = p1;
                  baseline_value = p2;
                  deviation = z;
                })

  abbrev pub observed_calls : Option (WindowStats F) → F
  observed_calls none = zero_F
  observed_calls (some stats) = f.of_ℕ stats.call_count

  -- `fires` and `deviation` of `detect_call_rate_drop`.
  pub call_rate_verdict : F → F → F → Option F → Option (Bool × F)
  call_rate_verdict threshold observed median none = do
    let low = f.lt zero_F median
    deviation ← if low then divide (f.sub observed median) median else some zero_F
    some (low && f.lt observed (f.mul median (f.decimal 5 1)), deviation)
  call_rate_verdict threshold observed median (some z) = some (f.lt z (f.neg threshold), z)

  abbrev pub call_rate_severity : F → Option F → Severity
  call_rate_severity threshold none = Severity.critical
  call_rate_severity threshold (some z) = severity_of (f.neg z) threshold

  -- The body of the loop of `detect_call_rate_drop` after the guard on the baseline.
  pub call_rate_drop :
      ℕ → F → TargetKey → Option (WindowStats F) → Baseline F → Option (Option (Detection F))
  call_rate_drop window_start threshold key stats baseline = do
    let observed = observed_calls stats
    z ← robust_z observed baseline.call_rate_median baseline.call_rate_mad
    verdict ← call_rate_verdict threshold observed baseline.call_rate_median z
    some (
        append_if verdict.0 record {
          window_start = window_start;
          target = key;
          detector = "call_rate";
          severity = call_rate_severity threshold z;
          observed_value = observed;
          baseline_value = baseline.call_rate_median;
          deviation = verdict.1;
        })

  abbrev pub append_found : Option (Detection F) → List (Detection F) → List (Detection F)
  append_found none found = found
  append_found (some d) found = d ∷ found

  -- A loop that appends what its body finds, and stops where the body raises.
  pub collect :
      {A : Type 0} → (A → Option (Option (Detection F))) → List A → Option (List (Detection F))
  collect body [] = some []
  collect body (x ∷ xs) = do found ← body x; rest ← collect body xs; some (append_found found rest)

  -- `if baseline is None or not baseline.ready: continue`
  abbrev pub if_ready :
      Option (Baseline F)
      → (Baseline F → Option (Option (Detection F)))
      → Option (Option (Detection F))
  if_ready none body = some none
  if_ready (some baseline) body = if baseline.ready then body baseline else some none

  pub detect_percentile_deviation :
      List (TargetKey × WindowStats F)
      → List (TargetKey × Baseline F)
      → ℕ
      → F
      → Option (List (Detection F))
  detect_percentile_deviation current baselines window_start threshold =
      collect
        (λ item.
          if_ready (lookup item.0 baselines)
            (percentile_deviation window_start threshold item.0 item.1))
        current

  pub detect_error_rate_change :
      List (TargetKey × WindowStats F)
      → List (TargetKey × Baseline F)
      → ℕ
      → ℕ
      → F
      → Option (List (Detection F))
  detect_error_rate_change current baselines window_start min_sample_size threshold =
      collect
        (λ item.
          if_ready (lookup item.0 baselines)
            (error_rate window_start min_sample_size threshold item.0 item.1))
        current

  pub detect_call_rate_drop :
      List (TargetKey × WindowStats F)
      → List (TargetKey × Baseline F)
      → ℕ
      → F
      → Option (List (Detection F))
  detect_call_rate_drop current baselines window_start threshold =
      collect
        (λ item.
          if_ready (some item.1)
            (call_rate_drop window_start threshold item.0 (lookup item.0 current)))
        baselines
