-- ===== src/Detectors/Drops.antt =====
-- detectors.py: what a detection of a fall in the call rate stands for.
use distributed_tracing_plat.Prelude.{
  ℕ, Bool, true, false, ◌&&◌, ◌≡◌, ◌⊎◌, inl, inr, refl, sym, ap, subst, ◌∙◌, ⊎_elim, Option, none,
  some, Bool-cases, List, Elem, lookup, if◌then◌else◌, arith,
}
use distributed_tracing_plat.Prelude.Floats.{Floats, zero_F, divide}
use distributed_tracing_plat.Targets.{TargetKey, target_eq, Baseline}
use distributed_tracing_plat.Detectors.{
  WindowStats, Severity, severity_of, Detection, robust_z, call_rate_verdict, call_rate_severity,
  call_rate_drop, observed_calls, detect_call_rate_drop, mad_scale,
}
use distributed_tracing_plat.Detectors.Loops.{
  Elem-collect, >>=-eq-some, some_inj, append_if-eq-some,
}
use distributed_tracing_plat.Detectors.Firing.{if_ready-eq-some}

both : (a b : Bool) → (a && b) ≡ true → (a ≡ true) × (b ≡ true)
both true true h = (refl, refl)
both true false h = absurd (ground arith)
both false b h = absurd (ground arith)

module _ {F : Type 0} ⦃f : Floats F⦄ where
  -- A fall from a baseline: the robust z-score of the count is below minus the threshold or, under a baseline
  -- without a spread, the count is below half of a median above zero, and the deviation is relative to it.
  abbrev pub Fell : F → F → Baseline F → F → Severity → Type 0
  Fell threshold observed baseline deviation severity =
      ((f.le baseline.call_rate_mad zero_F ≡ false)
        × (divide (f.sub observed baseline.call_rate_median)
              (f.mul mad_scale baseline.call_rate_mad)
            ≡ some deviation)
        × (f.lt deviation (f.neg threshold) ≡ true)
        × (severity ≡ severity_of (f.neg deviation) threshold))
      ⊎ ((f.le baseline.call_rate_mad zero_F ≡ true)
          × (f.lt zero_F baseline.call_rate_median ≡ true)
          × (f.lt observed (f.mul baseline.call_rate_median (f.decimal 5 1)) ≡ true)
          × (divide (f.sub observed baseline.call_rate_median) baseline.call_rate_median
              ≡ some deviation)
          × (severity ≡ Severity.critical))

  -- What the robust z-score is: none without a spread, and else the scaled distance from the center.
  abbrev IsScore : F → F → F → Option F → Type 0
  IsScore value center spread z =
      ((z ≡ none) × (f.le spread zero_F ≡ true))
      ⊎ ((y : F) × (z ≡ some y)
          × (f.le spread zero_F ≡ false)
          × (divide (f.sub value center) (f.mul mad_scale spread) ≡ some y))

  robust_z-IsScore :
      (value center spread : F) (z : Option F)
      → robust_z value center spread ≡ some z
      → IsScore value center spread z
  unfolding robust_z
  robust_z-IsScore value center spread none h = elim (Bool-cases (f.le spread zero_F)) [
    | inl e ↦ inl (refl, e)
    | inr e ↦
        let (y, q, r) = >>=-eq-some (divide (f.sub value center) _) _ none (rw e at h) in
        absurd (ground (arith, r))
  ]
  robust_z-IsScore value center spread (some z) h = elim (Bool-cases (f.le spread zero_F)) [
    | inl e ↦ absurd (ground (arith, e, h))
    | inr e ↦
        let (y, q, r) =
          >>=-eq-some (divide (f.sub value center) (f.mul mad_scale spread)) _ (some z)
            (rw e at h) in
        inr (z, refl, e, q ∙ some_inj _ _ r)
  ]

  score_of :
      (value center spread z : F)
      → IsScore value center spread (some z)
      → (f.le spread zero_F ≡ false)
        × (divide (f.sub value center) (f.mul mad_scale spread) ≡ some z)
  score_of value center spread z h =
      ⊎_elim (λ q. absurd (ground (arith, q.0)))
        (λ q. (q.2, q.3 ∙ sym (ap some (some_inj _ _ q.1)))) h

  verdict-Fell :
      (threshold observed : F) (b : Baseline F) (z : Option F) (verdict : Bool × F)
      → IsScore observed b.call_rate_median b.call_rate_mad z
      → call_rate_verdict threshold observed b.call_rate_median z ≡ some verdict
      → verdict.0 ≡ true
      → Fell threshold observed b verdict.1 (call_rate_severity threshold z)
  unfolding call_rate_verdict
  verdict-Fell threshold observed b none verdict spread h fires =
      let low : Bool = f.lt zero_F b.call_rate_median in
      let below : Bool = f.lt observed (f.mul b.call_rate_median (f.decimal 5 1)) in
      let (deviation, e, r) =
        >>=-eq-some
          (if low
            then divide (f.sub observed b.call_rate_median) b.call_rate_median
            else some zero_F)
          _ verdict h in
      let (is_low, is_below) =
        both low below (ap (λ (v : Bool × F). v.0) (some_inj _ _ r) ∙ fires) in
      let same : deviation ≡ verdict.1 = ap (λ (v : Bool × F). v.1) (some_inj _ _ r) in
      inr (
        ⊎_elim (λ q. q.1) (λ q. absurd (ground (arith, q.1))) spread,
        is_low,
        is_below,
        (rw is_low at e) ∙ ap some same,
        refl,
      )
  verdict-Fell threshold observed b (some z) verdict spread h fires =
      let same : (f.lt z (f.neg threshold), z) ≡ verdict = some_inj _ _ h in
      let (flat, score) = score_of observed b.call_rate_median b.call_rate_mad z spread in
      subst
        (λ (v : Bool × F).
          (v.0 ≡ true) → Fell threshold observed b v.1 (severity_of (f.neg z) threshold))
        same (λ below. inl (flat, score, below, refl)) fires

  call_rate_drop-eq-some :
      (window_start : ℕ) (threshold : F) (key : TargetKey) (stats : Option (WindowStats F))
      (b : Baseline F) (d : Detection F)
      → call_rate_drop window_start threshold key stats b ≡ some (some d)
      → (d.target ≡ key)
        × (d.observed_value ≡ observed_calls stats)
        × Fell threshold d.observed_value b d.deviation d.severity
  unfolding call_rate_drop
  call_rate_drop-eq-some window_start threshold key stats b d h =
      let (z, e1, h1) =
        >>=-eq-some (robust_z (observed_calls stats) b.call_rate_median b.call_rate_mad) _ (some d)
          h in
      let (verdict, e2, h2) =
        >>=-eq-some (call_rate_verdict threshold (observed_calls stats) b.call_rate_median z) _
          (some d) h1 in
      let (fires, same) = append_if-eq-some verdict.0 _ d (some_inj _ _ h2) in
      let fell =
        verdict-Fell threshold (observed_calls stats) b z verdict (robust_z-IsScore _ _ _ z e1) e2
          fires in
      subst
        (λ (d : Detection F).
          (d.target ≡ key)
          × (d.observed_value ≡ observed_calls stats)
          × Fell threshold d.observed_value b d.deviation d.severity)
        same (refl, refl, fell)

  -- Every detection of `detect_call_rate_drop` is about a target with a ready baseline. It observes the
  -- target's calls in the window, zero if the window has none. Either the baseline has a spread, and the
  -- deviation is the robust z-score of that count, is below minus the threshold and gives the severity; or it
  -- has none, the count is below half of a median above zero, the deviation is the count less the median over
  -- the median, and the severity is critical.
  pub detect_call_rate_drop_sound :
      (current : List (TargetKey × WindowStats F)) (baselines : List (TargetKey × Baseline F))
      (window_start : ℕ) (threshold : F) (ds : List (Detection F)) (d : Detection F)
      → detect_call_rate_drop current baselines window_start threshold ≡ some ds
      → Elem d ds
      → (b : Baseline F) × Elem (d.target, b) baselines
        × (b.ready ≡ true)
        × (d.observed_value ≡ observed_calls (lookup d.target current))
        × Fell threshold d.observed_value b d.deviation d.severity
  unfolding detect_call_rate_drop
  detect_call_rate_drop_sound current baselines window_start threshold ds d h m =
      let ((key, baseline), n, q) = (Elem-collect _ baselines ds d h).0 m in
      let (b, same, ready, q') =
        if_ready-eq-some (some baseline)
          (call_rate_drop window_start threshold key (lookup key current)) d q in
      let (target, observed, fell) =
        call_rate_drop-eq-some window_start threshold key (lookup key current) b d q' in
      (
        b,
        subst (λ k. Elem (k, b) baselines) (sym target)
            (subst (λ c. Elem (key, c) baselines) (some_inj _ _ same) n),
        ready,
        subst (λ k. d.observed_value ≡ observed_calls (lookup k current)) (sym target) observed,
        fell,
      )
