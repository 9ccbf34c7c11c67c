-- ===== src/Evaluation/Magnitudes/Bounded.antt =====
-- eval.py, `_fetch_stat_at_or_before` and `_fetch_observed_magnitude`: the search for a row is bounded by a
-- window, so a silent window reads as zero.
use distributed_tracing_plat.Prelude.{
  ℕ, ◌+◌, ◌≤◌, ◌<◌, Bool, true, false, String, ◌≡◌, ◌⊎◌, ◌↔◌, inl, inr, ⊎_elim, refl, sym, subst,
  Option, none, some, List, [], ◌∷◌, filter, sort, IsSorted, IsSorted-sort, Elem, Elem-sort,
  Elem-filter, All-Elem, leb, leb→le, arith,
}
use distributed_tracing_plat.Prelude.Floats.{Floats, zero_F, one_F}
use distributed_tracing_plat.Targets.{TargetKind}
use distributed_tracing_plat.Storage.{Tables}
use distributed_tracing_plat.Evaluation.Incidents.{
  IncidentType, throughput_drop, edge_disappearance, TrueIncident,
}
use distributed_tracing_plat.Evaluation.Magnitudes.{
  Reading, first_of, latest, readings, is_recent, stat_or_silent, fetch_stat_at_or_before,
  fetch_call_rate_baseline_at_or_before, observed, observed_drop, midpoint,
  fetch_observed_magnitude,
}

module _ {A : Type 0} (time : A → ℕ) where
  -- The element of the list with the latest time, or none of an empty list.
  abbrev IsLatest : List A → Option A → Type 0
  IsLatest rows none = (a : A) → ¬ Elem a rows
  IsLatest rows (some a) = Elem a rows × ((b : A) → Elem b rows → time b ≤ time a)

  abbrev later : A → A → Bool
  later a b = leb (time b) (time a)

  first_of-IsLatest : (xs : List A) → IsSorted later xs → IsLatest xs (first_of xs)
  first_of-IsLatest [] s = λ a m. m
  first_of-IsLatest (x ∷ xs) s = (
    inl refl,
    λ b.
        ⊎_elim (λ e. subst (λ y. time y ≤ time x) e (omega arith))
          (λ m. leb→le (time b) (time x) (All-Elem (λ y. later x y ≡ true) b xs s.0 m)),
  )

  of_sorted : (rows : List A) (o : Option A) → IsLatest (sort later rows) o → IsLatest rows o
  of_sorted rows none h = λ a m. h a ((Elem-sort later a rows).1 m)
  of_sorted rows (some a) h =
      ((Elem-sort later a rows).0 h.0, λ b m. h.1 b ((Elem-sort later b rows).1 m))

  latest-IsLatest : (rows : List A) → IsLatest rows (latest time rows)
  unfolding latest
  latest-IsLatest rows = of_sorted rows (first_of (sort later rows)) (
      first_of-IsLatest (sort later rows)
        (IsSorted-sort later (λ a b h. ground arith) (λ a b c h k. ground arith) rows))

module _ {F : Type 0} where
  -- The reading is of a window that starts at the time or before it, by less than a window.
  abbrev pub IsRecent : ℕ → ℕ → Reading F → Type 0
  IsRecent at window r = (r.window_start ≤ at) × (at < r.window_start + window)

  is_recent_iff :
      (at window : ℕ) (r : Reading F) → (is_recent at window r ≡ true) ↔ IsRecent at window r
  is_recent_iff at window r = ground arith

module _ {F : Type 0} ⦃f : Floats F⦄ where
  -- The stat is of the latest recent reading, or zeros where no reading is recent.
  abbrev pub IsStat : List (Reading F) → ℕ → ℕ → ℕ × ℕ × F → Type 0
  IsStat rows at window stat =
      ((r : Reading F) × Elem r rows
        × IsRecent at window r
        × ((s : Reading F) → Elem s rows → IsRecent at window s → s.window_start ≤ r.window_start)
        × (stat ≡ (r.call_count, r.error_count, r.latency_p99_ms)))
      ⊎ (((r : Reading F) → Elem r rows → ¬ IsRecent at window r) × (stat ≡ (0, 0, zero_F)))

  stat_lem :
      (rows : List (Reading F)) (at window : ℕ) (o : Option (Reading F))
      → IsLatest (λ (r : Reading F). r.window_start) (filter (is_recent at window) rows) o
      → IsStat rows at window (stat_or_silent o)
  unfolding stat_or_silent
  stat_lem rows at window none h = inr (
    λ r m i.
        h r ((Elem-filter (is_recent at window) r rows).1 (m, (is_recent_iff at window r).1 i)),
    refl,
  )
  stat_lem rows at window (some r) h =
      let (m, i) = (Elem-filter (is_recent at window) r rows).0 h.0 in
      inl (
        r,
        m,
        (is_recent_iff at window r).0 i,
        λ s n j.
            h.1 s
              ((Elem-filter (is_recent at window) s rows).1 (n, (is_recent_iff at window s).1 j)),
        refl,
      )

  -- Of a target whose rows are readable, the call returns. Either it returns the stat of a row that starts at
  -- the time or less than a window before it, such that no such row starts later; or there is no such row and
  -- it returns zeros.
  pub fetch_stat_at_or_before_exact :
      (t : Tables F) (kind : TargetKind) (target : String) (at window : ℕ) (rows : List (Reading F))
      → readings t kind target ≡ some rows
      → (stat : ℕ × ℕ × F) × (fetch_stat_at_or_before t kind target at window ≡ some stat)
        × IsStat rows at window stat
  unfolding fetch_stat_at_or_before
  fetch_stat_at_or_before_exact t kind target at window rows h = rw h (
      let found : Option (Reading F) =
        latest (λ (r : Reading F). r.window_start) (filter (is_recent at window) rows) in
      (
        stat_or_silent found,
        refl,
        stat_lem rows at window found (
            latest-IsLatest (λ (r : Reading F). r.window_start)
              (filter (is_recent at window) rows)),
      ))

  silent_stat :
      (rows : List (Reading F)) (at window : ℕ) (stat : ℕ × ℕ × F)
      → IsStat rows at window stat
      → ((r : Reading F) → Elem r rows → ¬ IsRecent at window r)
      → stat ≡ (0, 0, zero_F)
  silent_stat rows at window stat (inl found) none_is = absurd (none_is found.0 found.1 found.2)
  silent_stat rows at window stat (inr silent) none_is = silent.1

  observed_drop_silent :
      (t : Tables F) (incident : TrueIncident F) (base : F)
      → fetch_call_rate_baseline_at_or_before t incident.target_type incident.target
          incident.start_time
        ≡ some (some base)
      → f.le base zero_F ≡ false
      → observed_drop t incident (0, 0, zero_F) ≡ some (some (f.sub one_F (f.div (f.of_ℕ 0) base)))
  unfolding observed_drop
  observed_drop_silent t incident base e pos = rw (e, pos) refl

  observed_silent :
      (kind : IncidentType) (t : Tables F) (incident : TrueIncident F) (o : Option (Option F))
      → (kind ≡ throughput_drop) ⊎ (kind ≡ edge_disappearance)
      → observed_drop t incident (0, 0, zero_F) ≡ o
      → observed kind t incident (0, 0, zero_F) ≡ o
  unfolding observed
  observed_silent kind t incident o h e =
      let on : IncidentType → Type 0 = λ k. observed k t incident (0, 0, zero_F) ≡ o in
      ⊎_elim (λ q. subst on (sym q) e) (λ q. subst on (sym q) e) h

  -- A fault that takes all calls away is measured as a full drop, one less zero calls over the usual rate:
  -- the target's rows are readable, none starts in the window that ends in the middle of the incident, and
  -- the latest baseline before it that is ready has a call rate above zero. Rows from before that window do
  -- not matter.
  pub fetch_observed_magnitude_silent :
      (t : Tables F) (incident : TrueIncident F) (window : ℕ) (rows : List (Reading F)) (base : F)
      → (incident.type ≡ throughput_drop) ⊎ (incident.type ≡ edge_disappearance)
      → readings t incident.target_type incident.target ≡ some rows
      → ((r : Reading F) → Elem r rows → ¬ IsRecent (midpoint incident) window r)
      → fetch_call_rate_baseline_at_or_before t incident.target_type incident.target
          incident.start_time
        ≡ some (some base)
      → f.le base zero_F ≡ false
      → fetch_observed_magnitude t incident window
        ≡ some (some (f.sub one_F (f.div (f.of_ℕ 0) base)))
  unfolding fetch_observed_magnitude
  fetch_observed_magnitude_silent t incident window rows base kind readable none_is usual pos =
      let (stat, e, s) =
        fetch_stat_at_or_before_exact t incident.target_type incident.target (midpoint incident)
          window rows readable in
      rw (e, silent_stat rows (midpoint incident) window stat s none_is)
        (observed_silent incident.type t incident
          (some (some (f.sub one_F (f.div (f.of_ℕ 0) base)))) kind
          (observed_drop_silent t incident base usual pos))
