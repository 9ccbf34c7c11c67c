-- ===== src/Detectors/Firing.antt =====
-- detectors.py: what a detection stands for.
use distributed_tracing_plat.Prelude.{
  Elem-if, ℕ, ◌+◌, ◌≤◌, true, false, not, ◌&&◌, ◌≡◌, ◌⊎◌, inl, inr, refl, sym, ap, subst, ◌∙◌,
  ⊎_elim, Option, none, some, Bool-cases, List, [], ◌∷◌, Elem, lookup, if◌then◌else◌, ltb,
  string_eq, arith,
}
use distributed_tracing_plat.Prelude.Floats.{Floats, zero_F, one_F, divide, root}
use distributed_tracing_plat.Targets.{TargetKey, target_eq, Baseline}
use distributed_tracing_plat.Detectors.{
  WindowStats, severity_of, Detection, robust_z, mad_scale, percentile_deviation, error_rate,
  if_ready, detect_percentile_deviation, detect_error_rate_change, best_detection, best_candidate,
  add_candidate,
}
use distributed_tracing_plat.Detectors.Loops.{
  Elem-collect, >>=-eq-some, some_inj, guard-eq-some, skip-eq-some, append_if-eq-some,
}

module _ {F : Type 0} ⦃f : Floats F⦄ where
  pub if_ready-eq-some :
      (o : Option (Baseline F)) (body : Baseline F → Option (Option (Detection F)))
      (d : Detection F)
      → if_ready o body ≡ some (some d)
      → (b : Baseline F) × (o ≡ some b) × (b.ready ≡ true) × (body b ≡ some (some d))
  if_ready-eq-some none body d h = absurd (ground arith)
  if_ready-eq-some (some b) body d h =
      let (ready, found) = guard-eq-some b.ready (body b) d h in (b, refl, ready, found)

  -- The score of an observation under a baseline that has a spread.
  abbrev pub Scored : F → Baseline F → F → Type 0
  Scored value baseline z =
      (f.le baseline.latency_mad_ms zero_F ≡ false)
      × (divide (f.sub value baseline.latency_median_ms) (f.mul mad_scale baseline.latency_mad_ms)
          ≡ some z)

  -- What `detect_percentile_deviation` reports of a window's numbers and a baseline: the score of the p99 or
  -- of the p95, above the threshold, with the severity of that score.
  abbrev pub Deviates : F → WindowStats F → Baseline F → Detection F → Type 0
  Deviates threshold stats baseline d =
      (Scored d.observed_value baseline d.deviation)
      × ((d.observed_value ≡ stats.latency_p99_ms) ⊎ (d.observed_value ≡ stats.latency_p95_ms))
      × (f.lt threshold d.deviation ≡ true)
      × (d.severity ≡ severity_of d.deviation threshold)

  robust_z-eq-some :
      (value center spread z : F)
      → robust_z value center spread ≡ some (some z)
      → (f.le spread zero_F ≡ false)
        × (divide (f.sub value center) (f.mul mad_scale spread) ≡ some z)
  unfolding robust_z
  robust_z-eq-some value center spread z h = elim (Bool-cases (f.le spread zero_F)) [
    | inl e ↦ absurd (ground (arith, e, h))
    | inr e ↦
        let step = λ (z : F). some (some z) in
        let (y, q, r) =
          >>=-eq-some (divide (f.sub value center) (f.mul mad_scale spread)) step (some z)
            (rw e at h) in
        (e, q ∙ some_inj _ _ r)
  ]

  -- The best candidate is one of the candidates.
  best_candidate-Elem : (c : F × F) (cs : List (F × F)) → Elem (best_candidate c cs) (c ∷ cs)
  unfolding best_candidate
  best_candidate-Elem c [] = inl refl
  best_candidate-Elem c (e ∷ es) =
      Elem-if (f.lt c.0 e.0) _ c e es (best_candidate-Elem (if f.lt c.0 e.0 then e else c) es)

  best_detection-eq-some :
      (window_start : ℕ) (threshold : F) (key : TargetKey) (median : F) (cs : List (F × F))
      (d : Detection F)
      → best_detection window_start threshold key median cs ≡ some d
      → (d.target ≡ key)
        × Elem (d.deviation, d.observed_value) cs
        × (f.lt threshold d.deviation ≡ true)
        × (d.severity ≡ severity_of d.deviation threshold)
  unfolding best_detection
  best_detection-eq-some window_start threshold key median [] d h = absurd (ground arith)
  best_detection-eq-some window_start threshold key median (c ∷ cs) d h =
      let (above, same) = append_if-eq-some (f.lt threshold (best_candidate c cs).0) _ d h in
      subst
        (λ (d : Detection F).
          (d.target ≡ key)
          × Elem (d.deviation, d.observed_value) (c ∷ cs)
          × (f.lt threshold d.deviation ≡ true)
          × (d.severity ≡ severity_of d.deviation threshold))
        same (refl, best_candidate-Elem c cs, above, refl)

  -- A candidate is a score that the robust z-score gave.
  Elem-add_candidate :
      (o : Option F) (value z observed : F) (cs : List (F × F))
      → Elem (z, observed) (add_candidate o value cs)
      → ((o ≡ some z) × (observed ≡ value)) ⊎ Elem (z, observed) cs
  Elem-add_candidate none value z observed cs m = inr m
  Elem-add_candidate (some y) value z observed cs m =
      ⊎_elim (λ q. inl (ap (λ (p : F × F). some p.0) q, sym (ap (λ (p : F × F). p.1) q))) inr m

  percentile_deviation-eq-some :
      (window_start : ℕ) (threshold : F) (key : TargetKey) (stats : WindowStats F) (b : Baseline F)
      (d : Detection F)
      → percentile_deviation window_start threshold key stats b ≡ some (some d)
      → (d.target ≡ key) × Deviates threshold stats b d
  unfolding percentile_deviation
  percentile_deviation-eq-some window_start threshold key stats b d h =
      let (z99, e99, h1) =
        >>=-eq-some (robust_z stats.latency_p99_ms b.latency_median_ms b.latency_mad_ms) _ (some d)
          h in
      let (z95, e95, h2) =
        >>=-eq-some (robust_z stats.latency_p95_ms b.latency_median_ms b.latency_mad_ms) _ (some d)
          h1 in
      let (target, m, above, severity) =
        best_detection-eq-some window_start threshold key _ _ d (some_inj _ _ h2) in
      let scored : (Scored d.observed_value b d.deviation)
          × ((d.observed_value ≡ stats.latency_p99_ms)
              ⊎ (d.observed_value ≡ stats.latency_p95_ms)) =
        ⊎_elim
          (λ (q, r). (
            subst (λ v. Scored v b d.deviation) (sym r)
                (robust_z-eq-some _ _ _ _ (e99 ∙ ap some q)),
            inl r,
          ))
          (λ n.
            ⊎_elim
              (λ (q, r). (
                subst (λ v. Scored v b d.deviation) (sym r)
                    (robust_z-eq-some _ _ _ _ (e95 ∙ ap some q)),
                inr r,
              ))
              (λ no. absurd no)
              (Elem-add_candidate z95 stats.latency_p95_ms d.deviation d.observed_value [] n))
          (Elem-add_candidate z99 stats.latency_p99_ms d.deviation d.observed_value _ m) in
      (target, (scored.0, scored.1, above, severity))

  -- Every detection of `detect_percentile_deviation` is about a target of the window whose baseline is ready
  -- and has a spread: its deviation is the robust z-score of the target's p99 or p95, it is above the
  -- threshold, and it gives the severity.
  pub detect_percentile_deviation_sound :
      (current : List (TargetKey × WindowStats F)) (baselines : List (TargetKey × Baseline F))
      (window_start : ℕ) (threshold : F) (ds : List (Detection F)) (d : Detection F)
      → detect_percentile_deviation current baselines window_start threshold ≡ some ds
      → Elem d ds
      → (stats : WindowStats F) × (b : Baseline F) × Elem (d.target, stats) current
        × (lookup d.target baselines ≡ some b)
        × (b.ready ≡ true)
        × Deviates threshold stats b d
  unfolding detect_percentile_deviation
  detect_percentile_deviation_sound current baselines window_start threshold ds d h m =
      let ((key, stats), n, q) = (Elem-collect _ current ds d h).0 m in
      let (b, found, ready, q') = if_ready-eq-some (lookup key baselines) _ d q in
      let (target, deviates) =
        percentile_deviation-eq-some window_start threshold key stats b d q' in
      (
        stats,
        b,
        subst (λ k. Elem (k, stats) current) (sym target) n,
        subst (λ k. lookup k baselines ≡ some b) (sym target) found,
        ready,
        deviates,
      )

  -- The two-proportion z-score of an observed rate p1 in n1 calls over a rate p2 in n2 calls: p1 less p2, over
  -- the standard error of the pooled rate, which lies strictly between zero and one.
  abbrev pub ZScore : F → ℕ → F → ℕ → ℕ → F → Type 0
  ZScore p1 n1 p2 n2 errors z =
      (pooled : F) × (inv1 : F) × (inv2 : F) × (denom : F) × (divide
          (f.add (f.of_ℕ errors) (f.mul p2 (f.of_ℕ n2))) (f.of_ℕ (n1 + n2))
        ≡ some pooled)
      × (f.lt zero_F pooled ≡ true)
      × (f.lt pooled one_F ≡ true)
      × (divide one_F (f.of_ℕ n1) ≡ some inv1)
      × (divide one_F (f.of_ℕ n2) ≡ some inv2)
      × (root (f.mul (f.mul pooled (f.sub one_F pooled)) (f.add inv1 inv2)) ≡ some denom)
      × (f.le denom zero_F ≡ false)
      × (divide (f.sub p1 p2) denom ≡ some z)

  -- What `detect_error_rate_change` reports: an error rate of a large enough sample whose z-score over the
  -- baseline's error rate is above the threshold.
  abbrev pub ErrsMore : ℕ → F → WindowStats F → Baseline F → Detection F → Type 0
  ErrsMore min_sample_size threshold stats baseline d =
      (min_sample_size ≤ stats.call_count)
      × (divide (f.of_ℕ stats.error_count) (f.of_ℕ stats.call_count) ≡ some d.observed_value)
      × (d.baseline_value ≡ baseline.error_rate)
      × ZScore d.observed_value stats.call_count baseline.error_rate baseline.call_count_observed
          stats.error_count d.deviation
      × (f.lt threshold d.deviation ≡ true)
      × (d.severity ≡ severity_of d.deviation threshold)

  inside :
      (pooled : F)
      → not (f.lt zero_F pooled && f.lt pooled one_F) ≡ false
      → (f.lt zero_F pooled ≡ true) × (f.lt pooled one_F ≡ true)
  inside pooled h = (ground arith, ground arith)

  error_rate-eq-some :
      (window_start min_sample_size : ℕ) (threshold : F) (key : TargetKey) (stats : WindowStats F)
      (b : Baseline F) (d : Detection F)
      → error_rate window_start min_sample_size threshold key stats b ≡ some (some d)
      → (d.target ≡ key) × ErrsMore min_sample_size threshold stats b d
  unfolding error_rate
  error_rate-eq-some window_start min_sample_size threshold key stats b d h =
      let (enough, h1) = skip-eq-some (ltb stats.call_count min_sample_size) _ d h in
      let (p1, e1, h2) =
        >>=-eq-some (divide (f.of_ℕ stats.error_count) (f.of_ℕ stats.call_count)) _ (some d) h1 in
      let (pooled, e2, h3) =
        >>=-eq-some
          (divide
            (f.add (f.of_ℕ stats.error_count) (f.mul b.error_rate (f.of_ℕ b.call_count_observed)))
            (f.of_ℕ (stats.call_count + b.call_count_observed)))
          _ (some d) h2 in
      let (between, h4) = skip-eq-some (not (f.lt zero_F pooled && f.lt pooled one_F)) _ d h3 in
      let (inv1, e5, h5) = >>=-eq-some (divide one_F (f.of_ℕ stats.call_count)) _ (some d) h4 in
      let (inv2, e6, h6) =
        >>=-eq-some (divide one_F (f.of_ℕ b.call_count_observed)) _ (some d) h5 in
      let (denom, e7, h7) =
        >>=-eq-some (root (f.mul (f.mul pooled (f.sub one_F pooled)) (f.add inv1 inv2))) _ (some d)
          h6 in
      let (spread, h8) = skip-eq-some (f.le denom zero_F) _ d h7 in
      let (z, e9, h9) = >>=-eq-some (divide (f.sub p1 b.error_rate) denom) _ (some d) h8 in
      let (above, same) = append_if-eq-some (f.lt threshold z) _ d (some_inj _ _ h9) in
      subst (λ (d : Detection F). (d.target ≡ key) × ErrsMore min_sample_size threshold stats b d)
        same
        (
          refl,
          (
            ground arith,
            e1,
            refl,
            (
              pooled,
              inv1,
              inv2,
              denom,
              e2,
              (inside pooled between).0,
              (inside pooled between).1,
              e5,
              e6,
              e7,
              spread,
              e9,
            ),
            above,
            refl,
          ),
        )

  -- Every detection of `detect_error_rate_change` is about a target of the window whose baseline is
  -- ready and that was called at least `min_sample_size` times: it observes the target's error rate
  -- against the baseline's; its deviation is the two-proportion z-score, the observed rate less the
  -- baseline's over the standard error of the pooled rate; it is above the threshold, and gives the severity.
  pub detect_error_rate_change_sound :
      (current : List (TargetKey × WindowStats F)) (baselines : List (TargetKey × Baseline F))
      (window_start min_sample_size : ℕ) (threshold : F) (ds : List (Detection F)) (d : Detection F)
      → detect_error_rate_change current baselines window_start min_sample_size threshold ≡ some ds
      → Elem d ds
      → (stats : WindowStats F) × (b : Baseline F) × Elem (d.target, stats) current
        × (lookup d.target baselines ≡ some b)
        × (b.ready ≡ true)
        × ErrsMore min_sample_size threshold stats b d
  unfolding detect_error_rate_change
  detect_error_rate_change_sound current baselines window_start min_sample_size threshold ds d h m =
      let ((key, stats), n, q) = (Elem-collect _ current ds d h).0 m in
      let (b, found, ready, q') = if_ready-eq-some (lookup key baselines) _ d q in
      let (target, errs) =
        error_rate-eq-some window_start min_sample_size threshold key stats b d q' in
      (
        stats,
        b,
        subst (λ k. Elem (k, stats) current) (sym target) n,
        subst (λ k. lookup k baselines ≡ some b) (sym target) found,
        ready,
        errs,
      )
