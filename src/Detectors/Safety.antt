-- ===== src/Detectors/Safety.antt =====
-- detectors.py raises nothing: no division by zero, and no root of a negative number.
use distributed_tracing_plat.Prelude.{
  ℕ, zero, suc, ◌+◌, ◌≤◌, true, false, ◌≡◌, inl, inr, refl, Option, none, some, Bool-cases, List,
  All-intro, lookup, ◌>>=◌, ltb, arith,
}
use distributed_tracing_plat.Prelude.Floats.{Floats, Lawful, zero_F, one_F, divide, root}
use distributed_tracing_plat.Targets.{TargetKey, target_eq, Baseline}
use distributed_tracing_plat.Detectors.{
  WindowStats, Detection, robust_z, percentile_deviation, error_rate, call_rate_verdict,
  call_rate_drop, if_ready, detect_percentile_deviation, detect_error_rate_change,
  detect_call_rate_drop,
}
use distributed_tracing_plat.Detectors.Loops.{Returns, Returns->>=, Returns-guard, Returns-collect}

module _ {F : Type 0} ⦃f : Floats F⦄ (laws : Lawful f) where
  Returns-divide : (a b : F) → f.is_zero b ≡ false → Returns (divide a b)
  Returns-divide a b h = (f.div a b, ground (arith, h))

  Returns-root : (a : F) → f.lt a zero_F ≡ false → Returns (root a)
  Returns-root a h = (f.sqrt a, ground (arith, h))

  Returns-divide->>= :
      {B : Type 0} (a b : F) (next : F → Option B)
      → f.is_zero b ≡ false
      → Returns (next (f.div a b))
      → Returns (divide a b >>= next)
  Returns-divide->>= a b next h r = rw h r

  of_ℕ_nonzero : (n : ℕ) → 1 ≤ n → f.is_zero (f.of_ℕ n) ≡ false
  of_ℕ_nonzero zero h = absurd (omega arith)
  of_ℕ_nonzero (suc n) h = laws.of_ℕ_suc n

  -- 1 / n
  inverse_nonneg : (n : ℕ) → 1 ≤ n → f.lt (f.div one_F (f.of_ℕ n)) zero_F ≡ false
  inverse_nonneg n h =
      laws.div_nonneg _ _ (of_ℕ_nonzero n h) (laws.of_ℕ_nonneg 1) (laws.of_ℕ_nonneg n)

  -- The variance of the difference of two proportions.
  abbrev variance : F → ℕ → ℕ → F
  variance p n m =
      f.mul (f.mul p (f.sub one_F p)) (f.add (f.div one_F (f.of_ℕ n)) (f.div one_F (f.of_ℕ m)))

  variance_nonneg :
      (p : F) (n m : ℕ)
      → f.lt zero_F p ≡ true
      → f.lt p one_F ≡ true
      → 1 ≤ n
      → 1 ≤ m
      → f.lt (variance p n m) zero_F ≡ false
  variance_nonneg p n m h k hn hm =
      laws.mul_nonneg _ _ (laws.mul_nonneg _ _ (laws.lt_nonneg p h) (laws.one_sub p k))
        (laws.add_nonneg _ _ (inverse_nonneg n hn) (inverse_nonneg m hm))

  Returns-robust_z : (value center spread : F) → Returns (robust_z value center spread)
  unfolding robust_z
  Returns-robust_z value center spread = elim (Bool-cases (f.le spread zero_F)) [
    | inl e ↦ rw e (none, refl)
    | inr e ↦
        rw e (Returns->>= _ _ (Returns-divide _ _ (laws.mul_scale spread e)) (λ z. (some z, refl)))
  ]

  Returns-percentile_deviation :
      (window_start : ℕ) (threshold : F) (key : TargetKey) (stats : WindowStats F) (b : Baseline F)
      → Returns (percentile_deviation window_start threshold key stats b)
  unfolding percentile_deviation
  Returns-percentile_deviation window_start threshold key stats b =
      Returns->>= _ _ (Returns-robust_z _ _ _)
        (λ z99. Returns->>= _ _ (Returns-robust_z _ _ _) (λ z95. (_, refl)))

  Returns-error_rate :
      (window_start min_sample_size : ℕ) (threshold : F) (key : TargetKey) (stats : WindowStats F)
      (b : Baseline F)
      → 1 ≤ min_sample_size
      → 1 ≤ b.call_count_observed
      → Returns (error_rate window_start min_sample_size threshold key stats b)
  unfolding error_rate
  Returns-error_rate window_start min_sample_size threshold key stats b h k =
      elim (Bool-cases (ltb stats.call_count min_sample_size)) [
        | inl e ↦ rw e (none, refl)
        | inr e ↦
            let hn : 1 ≤ stats.call_count = ground arith in
            let p =
              f.div
                (f.add (f.of_ℕ stats.error_count)
                  (f.mul b.error_rate (f.of_ℕ b.call_count_observed)))
                (f.of_ℕ (stats.call_count + b.call_count_observed)) in
            rw e (
              Returns-divide->>= _ _ _ (of_ℕ_nonzero _ hn) (
                Returns-divide->>= _ _ _ (of_ℕ_nonzero _ (omega arith))
                  (elim (Bool-cases (f.lt zero_F p)) [
                    | inr low ↦ rw low (none, refl)
                    | inl low ↦ elim (Bool-cases (f.lt p one_F)) [
                      | inr high ↦ rw low (rw high (none, refl))
                      | inl high ↦ rw low (
                          rw high (
                            Returns-divide->>= _ _ _ (of_ℕ_nonzero _ hn) (
                              Returns-divide->>= _ _ _ (of_ℕ_nonzero _ k) (
                                rw (variance_nonneg p _ _ low high hn k)
                                  (elim (Bool-cases (
                                    f.le
                                      (f.sqrt (variance p stats.call_count b.call_count_observed))
                                      zero_F)) [
                                        | inl tiny ↦ rw tiny (none, refl)
                                        | inr some_spread ↦ rw some_spread (
                                            Returns-divide->>= _ _ _
                                              (laws.not_le_nonzero _ some_spread) (_, refl))
                                      ])))))
                    ]
                  ])))
      ]

  Returns-verdict :
      (threshold observed median : F) (z : Option F)
      → Returns (call_rate_verdict threshold observed median z)
  unfolding call_rate_verdict
  Returns-verdict threshold observed median none = elim (Bool-cases (f.lt zero_F median)) [
    | inl e ↦
        rw e (Returns->>= _ _ (Returns-divide _ _ (laws.lt_nonzero median e)) (λ d. (_, refl)))
    | inr e ↦ rw e (_, refl)
  ]
  Returns-verdict threshold observed median (some z) = (_, refl)

  Returns-call_rate_drop :
      (window_start : ℕ) (threshold : F) (key : TargetKey) (stats : Option (WindowStats F))
      (b : Baseline F)
      → Returns (call_rate_drop window_start threshold key stats b)
  unfolding call_rate_drop
  Returns-call_rate_drop window_start threshold key stats b =
      Returns->>= _ _ (Returns-robust_z _ _ _)
        (λ z. Returns->>= _ _ (Returns-verdict threshold _ _ z) (λ v. (_, refl)))

  Returns-if_ready :
      (o : Option (Baseline F)) (body : Baseline F → Option (Option (Detection F)))
      → ((b : Baseline F) → o ≡ some b → b.ready ≡ true → Returns (body b))
      → Returns (if_ready o body)
  Returns-if_ready none body h = (none, refl)
  Returns-if_ready (some b) body h = Returns-guard b.ready (body b) (h b refl)

  -- Under the laws of the arithmetic, `detect_percentile_deviation` raises nothing and returns, whatever
  -- the window and the baselines are.
  pub detect_percentile_deviation-Returns :
      (current : List (TargetKey × WindowStats F)) (baselines : List (TargetKey × Baseline F))
      (window_start : ℕ) (threshold : F)
      → Returns (detect_percentile_deviation current baselines window_start threshold)
  unfolding detect_percentile_deviation
  detect_percentile_deviation-Returns current baselines window_start threshold =
      Returns-collect _ current (
        All-intro current (λ item.
          Returns-if_ready _ _
            (λ b q r. Returns-percentile_deviation window_start threshold item.0 item.1 b)))

  -- Under the laws of the arithmetic, `detect_error_rate_change` raises nothing and returns, if the smallest
  -- sample is of one call or more and every ready baseline has seen a call.
  pub detect_error_rate_change-Returns :
      (current : List (TargetKey × WindowStats F)) (baselines : List (TargetKey × Baseline F))
      (window_start min_sample_size : ℕ) (threshold : F)
      → 1 ≤ min_sample_size
      → ((key : TargetKey) (b : Baseline F)
          → lookup key baselines ≡ some b
          → b.ready ≡ true
          → 1 ≤ b.call_count_observed)
      → Returns (detect_error_rate_change current baselines window_start min_sample_size threshold)
  unfolding detect_error_rate_change
  detect_error_rate_change-Returns current baselines window_start min_sample_size threshold h k =
      Returns-collect _ current (
        All-intro current (λ item. Returns-if_ready _ _ (λ b q r.
          Returns-error_rate window_start min_sample_size threshold item.0 item.1 b h
            (k item.0 b q r))))

  -- Under the laws of the arithmetic, `detect_call_rate_drop` raises nothing and returns, whatever the
  -- window and the baselines are.
  pub detect_call_rate_drop-Returns :
      (current : List (TargetKey × WindowStats F)) (baselines : List (TargetKey × Baseline F))
      (window_start : ℕ) (threshold : F)
      → Returns (detect_call_rate_drop current baselines window_start threshold)
  unfolding detect_call_rate_drop
  detect_call_rate_drop-Returns current baselines window_start threshold =
      Returns-collect _ baselines (
        All-intro baselines (λ item. Returns-if_ready (some item.1) _ (λ b q r.
          Returns-call_rate_drop window_start threshold item.0 (lookup item.0 current) b)))
