-- ===== src/Evaluation/Magnitudes.antt =====
-- eval.py, `_fetch_observed_magnitude` and what it reads. None is the ValueError of a label of an edge
-- without an arrow.
pub mod Bounded
use distributed_tracing_plat.Prelude.{
  ℕ, ◌+◌, ◌*◌, ◌/◌, Bool, ◌&&◌, String, string_eq, Option, none, some, List, [], ◌∷◌, map, filter,
  leb, ltb, eqb, ◌==◌, if◌then◌else◌, ◌>>=◌, sort,
}
use distributed_tracing_plat.Prelude.Floats.{Floats, zero_F, one_F}
use distributed_tracing_plat.Targets.{TargetKind, service, edge}
use distributed_tracing_plat.Storage.{
  StatsRow, EdgeRow, ServiceBaselineRow, EdgeBaselineRow, Tables,
}
use distributed_tracing_plat.Reader.{endpoints}
use distributed_tracing_plat.Evaluation.{ratio_if_any}
use distributed_tracing_plat.Evaluation.Incidents.{
  latency_spike, latency_tail, error_burst, throughput_drop, edge_disappearance, IncidentType,
  TrueIncident,
}

-- The columns of `service_stats` and of `service_edges` that are read here.
pub record Reading (F : Type 0) : Type 0 where
  pub window_start : ℕ
  pub call_count : ℕ
  pub error_count : ℕ
  pub latency_p99_ms : F

-- The columns of the two tables of baselines that are read here.
pub record BaselineReading (F : Type 0) : Type 0 where
  pub as_of : ℕ
  pub latency_median_ms : F
  pub call_rate_median : F
  pub ready : ℕ

-- `ORDER BY ... DESC LIMIT 1`
abbrev pub first_of : {A : Type 0} → List A → Option A
first_of [] = none
first_of (x ∷ xs) = some x

unfoldable pub latest : {A : Type 0} → (A → ℕ) → List A → Option A
latest time rows = first_of (sort (λ a b. leb (time b) (time a)) rows)

module _ {F : Type 0} where
  abbrev pub stats_reading : StatsRow F → Reading F
  stats_reading r = record {
    window_start = r.window_start;
    call_count = r.call_count;
    error_count = r.error_count;
    latency_p99_ms = r.latency_p99_ms;
  }

  abbrev pub edge_reading : EdgeRow F → Reading F
  edge_reading r = record {
    window_start = r.window_start;
    call_count = r.call_count;
    error_count = r.error_count;
    latency_p99_ms = r.latency_p99_ms;
  }

  abbrev pub service_baseline_reading : ServiceBaselineRow F → BaselineReading F
  service_baseline_reading r = record {
    as_of = r.as_of;
    latency_median_ms = r.latency_median_ms;
    call_rate_median = r.call_rate_median;
    ready = r.ready;
  }

  abbrev pub edge_baseline_reading : EdgeBaselineRow F → BaselineReading F
  edge_baseline_reading r = record {
    as_of = r.as_of;
    latency_median_ms = r.latency_median_ms;
    call_rate_median = r.call_rate_median;
    ready = r.ready;
  }

  -- The rows of the target, from the table of its kind.
  unfoldable pub readings : Tables F → TargetKind → String → Option (List (Reading F))
  readings t service target =
      some (map stats_reading (filter (λ r. r.service_name == target) t.service_stats))
  readings t edge target = do
    ends ← endpoints edge target
    some (
        map edge_reading (
          filter (λ r. (r.caller_service == ends.0) && (r.callee_service == ends.1))
            t.service_edges))

  unfoldable pub baseline_readings :
      Tables F → TargetKind → String → Option (List (BaselineReading F))
  baseline_readings t service target =
      some
        (map service_baseline_reading (filter (λ r. r.service_name == target) t.service_baselines))
  baseline_readings t edge target = do
    ends ← endpoints edge target
    some (
        map edge_baseline_reading (
          filter (λ r. (r.caller_service == ends.0) && (r.callee_service == ends.1))
            t.edge_baselines))

  -- `window_start <= at AND window_start > at - window`
  abbrev pub is_recent : ℕ → ℕ → Reading F → Bool
  is_recent at window r = leb r.window_start at && ltb at (r.window_start + window)

  -- `latency_median_ms` and `call_rate_median` of the latest baseline that is ready.
  unfoldable pub latest_baseline :
      Tables F → TargetKind → String → ℕ → Option (Option (BaselineReading F))
  latest_baseline t kind target at = do
    rows ← baseline_readings t kind target
    some (
        latest (λ (r : BaselineReading F). r.as_of)
          (filter (λ (r : BaselineReading F). leb r.as_of at && eqb r.ready 1) rows))

  unfoldable pub median_if_any : Option (BaselineReading F) → Option F
  median_if_any none = none
  median_if_any (some r) = some r.latency_median_ms

  unfoldable pub call_rate_if_any : Option (BaselineReading F) → Option F
  call_rate_if_any none = none
  call_rate_if_any (some r) = some r.call_rate_median

  unfoldable pub fetch_baseline_at_or_before :
      Tables F → TargetKind → String → ℕ → Option (Option F)
  fetch_baseline_at_or_before t kind target at = do
    found ← latest_baseline t kind target at
    some (median_if_any found)

  unfoldable pub fetch_call_rate_baseline_at_or_before :
      Tables F → TargetKind → String → ℕ → Option (Option F)
  fetch_call_rate_baseline_at_or_before t kind target at = do
    found ← latest_baseline t kind target at
    some (call_rate_if_any found)

module _ {F : Type 0} ⦃f : Floats F⦄ where
  -- The row that is found, or the zeros of a silent window.
  unfoldable pub stat_or_silent : Option (Reading F) → ℕ × ℕ × F
  stat_or_silent none = (0, 0, zero_F)
  stat_or_silent (some r) = (r.call_count, r.error_count, r.latency_p99_ms)

  unfoldable pub fetch_stat_at_or_before :
      Tables F → TargetKind → String → ℕ → ℕ → Option (ℕ × ℕ × F)
  fetch_stat_at_or_before t kind target at window = do
    rows ← readings t kind target
    some (
        stat_or_silent
          (latest (λ (r : Reading F). r.window_start) (filter (is_recent at window) rows)))

  -- `None` without a baseline above zero, and else what is measured against it.
  abbrev pub against : Option F → (F → F) → Option F
  against none measure = none
  against (some base) measure = if f.le base zero_F then none else some (measure base)

  unfoldable pub observed_latency : Tables F → TrueIncident F → ℕ × ℕ × F → Option (Option F)
  observed_latency t incident (calls, errors, p99_ms) = if eqb calls 0 then some none else (do
    base ← fetch_baseline_at_or_before t incident.target_type incident.target incident.start_time
    some (against base (λ b. f.div p99_ms b)))

  unfoldable pub observed_drop : Tables F → TrueIncident F → ℕ × ℕ × F → Option (Option F)
  observed_drop t incident (calls, errors, p99_ms) = do
    base ←
        fetch_call_rate_baseline_at_or_before t incident.target_type incident.target
          incident.start_time
    some (against base (λ b. f.sub one_F (f.div (f.of_ℕ calls) b)))

  unfoldable pub observed : IncidentType → Tables F → TrueIncident F → ℕ × ℕ × F → Option (Option F)
  observed latency_spike t incident stat = observed_latency t incident stat
  observed latency_tail t incident stat = observed_latency t incident stat
  observed error_burst t incident (calls, errors, p99_ms) = some (ratio_if_any errors calls)
  observed throughput_drop t incident stat = observed_drop t incident stat
  observed edge_disappearance t incident stat = observed_drop t incident stat

  -- `midpoint`; no window starts between it and the half that is dropped.
  abbrev pub midpoint : TrueIncident F → ℕ
  midpoint incident = (incident.start_time + incident.end_time) / 2

  -- `_fetch_observed_magnitude`, of a window in nanoseconds.
  unfoldable pub fetch_observed_magnitude : Tables F → TrueIncident F → ℕ → Option (Option F)
  fetch_observed_magnitude t incident window = do
    stat ← fetch_stat_at_or_before t incident.target_type incident.target (midpoint incident) window
    observed incident.type t incident stat
