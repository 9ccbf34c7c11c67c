-- ===== src/Configuration/Accepted.antt =====
-- config.py, `load`: which environments it accepts.
use distributed_tracing_plat.Prelude.{
  ◌≡◌, ◌↔◌, ◌⊎◌, inl, inr, ⊎_elim, refl, sym, subst, ◌∙◌, false, String, string_eq, Option, none,
  some, List, [], ◌∷◌, All, lookup, ◌==◌, Bool-cases,
}
use text.Mathlib.TextEquality.{eq_iff}
use distributed_tracing_plat.Prelude.Floats.{Floats}
use distributed_tracing_plat.Prelude.Int.{ℤ}
use distributed_tracing_plat.Detectors.Loops.{Returns, Returns->>=, >>=-eq-some, some_inj}
use distributed_tracing_plat.Configuration.{
  Config, Environment, int_of, parse_or, env_int, env_float, load,
}

-- A text that is not empty is one that the parser takes.
abbrev IsTaken : {A : Type 0} → (String → Option A) → Option String → Type 0
IsTaken parse found = (raw : String) → found ≡ some raw → (raw ≡ "") ⊎ Returns (parse raw)

-- The setting is missing, empty, or a text that the parser takes.
abbrev pub IsReadable : {A : Type 0} → (String → Option A) → Environment → String → Type 0
IsReadable parse env key = IsTaken parse (lookup key env)

-- The settings that are integers, and those that are floating-point numbers.
abbrev pub int_keys : List String
int_keys =
    "ANALYZER_HTTP_PORT" ∷ "CLICKHOUSE_HTTP_PORT" ∷ "ANALYZER_WINDOW_SECONDS"
    ∷ "ANALYZER_WATERMARK_SECONDS" ∷ "ANALYZER_BASELINE_LOOKBACK_SECONDS"
    ∷ "ANALYZER_BASELINE_MIN_SAMPLES" ∷ "ANALYZER_ERROR_RATE_MIN_SAMPLE_SIZE"
    ∷ "ANALYZER_GROUPING_LOOKBACK_SECONDS" ∷ "API_HTTP_PORT" ∷ "API_MAX_ROWS"
    ∷ "API_MAX_TIME_RANGE_SECONDS" ∷ []

abbrev pub float_keys : List String
float_keys =
    "ANALYZER_POLL_INTERVAL_SECONDS" ∷ "ANALYZER_LATE_CHECK_INTERVAL_SECONDS"
    ∷ "ANALYZER_PERCENTILE_DEVIATION_THRESHOLD" ∷ "ANALYZER_ERROR_RATE_THRESHOLD"
    ∷ "ANALYZER_CALL_RATE_THRESHOLD" ∷ []

module _ {A : Type 0} (parse : String → Option A) (default : A) where
  taken :
      (raw : String) → (raw == "") ≡ false → (raw ≡ "") ⊎ Returns (parse raw) → Returns (parse raw)
  taken raw ne h = ⊎_elim (λ e. cc ((eq_iff raw "").1 e, ne)) (λ r. r) h

  parse_or-Returns : (o : Option String) → IsTaken parse o → Returns (parse_or parse default o)
  parse_or-Returns none h = (default, refl)
  parse_or-Returns (some raw) h = elim (Bool-cases (raw == "")) [
    | inl e ↦ rw e (default, refl)
    | inr ne ↦ rw ne (taken raw ne (h raw refl))
  ]

  parse_or-IsTaken : (o : Option String) → Returns (parse_or parse default o) → IsTaken parse o
  parse_or-IsTaken none h raw e = cc
  parse_or-IsTaken (some text) h raw e = elim (Bool-cases (text == "")) [
    | inl empty ↦ inl (sym (some_inj text raw e) ∙ (eq_iff text "").0 empty)
    | inr ne ↦ inr (subst (λ r. Returns (parse r)) (some_inj text raw e) (rw ne at h))
  ]

module _ {F : Type 0} ⦃f : Floats F⦄ (float_of : String → Option F) (env : Environment) where
  -- What each step of `load` needs of its setting, and what it shows of it.
  int_step :
      (key : String) (default : ℤ) → IsReadable int_of env key → Returns (env_int env key default)
  unfolding env_int
  int_step key default h = parse_or-Returns int_of default (lookup key env) h

  float_step :
      (key : String) (default : F)
      → IsReadable float_of env key
      → Returns (env_float float_of env key default)
  unfolding env_float
  float_step key default h = parse_or-Returns float_of default (lookup key env) h

  int_shown :
      (key : String) (default a : ℤ) → env_int env key default ≡ some a → IsReadable int_of env key
  unfolding env_int
  int_shown key default a e = parse_or-IsTaken int_of default (lookup key env) (a, e)

  float_shown :
      (key : String) (default a : F)
      → env_float float_of env key default ≡ some a
      → IsReadable float_of env key
  unfolding env_float
  float_shown key default a e = parse_or-IsTaken float_of default (lookup key env) (a, e)

  load-Returns :
      All (IsReadable int_of env) int_keys
      → All (IsReadable float_of env) float_keys
      → Returns (load float_of env)
  unfolding load
  load-Returns is fs = Returns->>= _ _ (int_step _ _ is.0) (λ _.
      Returns->>= _ _ (int_step _ _ is.1.0) (λ _. Returns->>= _ _ (int_step _ _ is.1.1.0) (λ _.
        Returns->>= _ _ (int_step _ _ is.1.1.1.0) (λ _. Returns->>= _ _ (float_step _ _ fs.0) (λ _.
          Returns->>= _ _ (float_step _ _ fs.1.0) (λ _.
            Returns->>= _ _ (int_step _ _ is.1.1.1.1.0) (λ _.
              Returns->>= _ _ (int_step _ _ is.1.1.1.1.1.0) (λ _.
                Returns->>= _ _ (float_step _ _ fs.1.1.0) (λ _.
                  Returns->>= _ _ (float_step _ _ fs.1.1.1.0) (λ _.
                    Returns->>= _ _ (int_step _ _ is.1.1.1.1.1.1.0) (λ _.
                      Returns->>= _ _ (float_step _ _ fs.1.1.1.1.0) (λ _.
                        Returns->>= _ _ (int_step _ _ is.1.1.1.1.1.1.1.0) (λ _.
                          Returns->>= _ _ (int_step _ _ is.1.1.1.1.1.1.1.1.0) (λ _.
                            Returns->>= _ _ (int_step _ _ is.1.1.1.1.1.1.1.1.1.0) (λ _.
                              Returns->>= _ _ (int_step _ _ is.1.1.1.1.1.1.1.1.1.1.0)
                                (λ _. (_, refl)))))))))))))))))

  load-AllReadable :
      (c : Config F)
      → load float_of env ≡ some c
      → All (IsReadable int_of env) int_keys × All (IsReadable float_of env) float_keys
  unfolding load
  load-AllReadable c e =
      let (a0, i0, r0) = >>=-eq-some _ _ c e in
      let (a1, i1, r1) = >>=-eq-some _ _ c r0 in
      let (a2, i2, r2) = >>=-eq-some _ _ c r1 in
      let (a3, i3, r3) = >>=-eq-some _ _ c r2 in
      let (a4, f0, r4) = >>=-eq-some _ _ c r3 in
      let (a5, f1, r5) = >>=-eq-some _ _ c r4 in
      let (a6, i4, r6) = >>=-eq-some _ _ c r5 in
      let (a7, i5, r7) = >>=-eq-some _ _ c r6 in
      let (a8, f2, r8) = >>=-eq-some _ _ c r7 in
      let (a9, f3, r9) = >>=-eq-some _ _ c r8 in
      let (a10, i6, r10) = >>=-eq-some _ _ c r9 in
      let (a11, f4, r11) = >>=-eq-some _ _ c r10 in
      let (a12, i7, r12) = >>=-eq-some _ _ c r11 in
      let (a13, i8, r13) = >>=-eq-some _ _ c r12 in
      let (a14, i9, r14) = >>=-eq-some _ _ c r13 in
      let (a15, i10, r15) = >>=-eq-some _ _ c r14 in
      (
        (
          int_shown _ _ a0 i0,
          (
            int_shown _ _ a1 i1,
            (
              int_shown _ _ a2 i2,
              (
                int_shown _ _ a3 i3,
                (
                  int_shown _ _ a6 i4,
                  (
                    int_shown _ _ a7 i5,
                    (
                      int_shown _ _ a10 i6,
                      (
                        int_shown _ _ a12 i7,
                        (int_shown _ _ a13 i8, (int_shown _ _ a14 i9, (int_shown _ _ a15 i10, tt))),
                      ),
                    ),
                  ),
                ),
              ),
            ),
          ),
        ),
        (
          float_shown _ _ a4 f0,
          (
            float_shown _ _ a5 f1,
            (float_shown _ _ a8 f2, (float_shown _ _ a9 f3, (float_shown _ _ a11 f4, tt))),
          ),
        ),
      )

  -- The settings are loaded just when each setting of an integer is missing, empty or a text that `int` takes,
  -- and each of a floating-point number is missing, empty or a text that `float` takes.
  pub load_iff :
      Returns (load float_of env)
      ↔ (All (IsReadable int_of env) int_keys × All (IsReadable float_of env) float_keys)
  load_iff = (λ (c, e). load-AllReadable c e, λ (i, f). load-Returns i f)
