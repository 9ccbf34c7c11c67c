-- ===== src/Suppression/Runs.antt =====
-- suppression.py, `group_detections`: the runs that a sorted group is cut into, and their counts.
use distributed_tracing_plat.Prelude.{
  sum_of, ℕ, ◌+◌, ◌-◌, ◌≤◌, ◌<◌, ◌≡◌, refl, ap, ◌∙◌, sym, inl, inr, subst, String, leb→le,
  Bool-cases, List, [], ◌∷◌, ◌++◌, map, length, length-append, length-map, append_assoc, leb, group,
  total, total-group, pair_eq, string_eq, arith,
}
use distributed_tracing_plat.Prelude.Floats.{Floats}
use distributed_tracing_plat.Targets.{kind_eq}
use distributed_tracing_plat.Detectors.{Detection}
use distributed_tracing_plat.Suppression.{
  Key, detection_key, insert_by_start, sort_by_start, runs_from, runs, last_of, GroupedIncident,
  build_incident, build_incidents, incidents_of, group_detections,
}

abbrev pub concat : {A : Type 0} → List (List A) → List A
concat [] = []
concat (xs ∷ xss) = xs ++ concat xss

module _ {F : Type 0} where
  -- Each detection starts at most a window after the one before it.
  abbrev pub Close : ℕ → List (Detection F) → Type 0
  Close window [] = Unit {0}
  Close window (d ∷ []) = Unit {0}
  Close window (d ∷ e ∷ ds) = (e.window_start - d.window_start ≤ window) × Close window (e ∷ ds)

  -- A run that is not empty and that starts more than a window after `last`.
  abbrev pub StartsAfter : ℕ → Detection F → List (Detection F) → Type 0
  StartsAfter window last [] = ⊥
  StartsAfter window last (d ∷ ds) = window < d.window_start - last.window_start

  -- Runs that are close inside and apart from each other, the first of them after `last`.
  abbrev pub ApartAfter : ℕ → Detection F → List (List (Detection F)) → Type 0
  ApartAfter window last [] = Unit {0}
  ApartAfter window last ([] ∷ rs) = ⊥
  ApartAfter window last ((d ∷ ds) ∷ rs) =
      (window < d.window_start - last.window_start)
      × Close window (d ∷ ds)
      × ApartAfter window (last_of d ds) rs

  abbrev pub Apart : ℕ → List (List (Detection F)) → Type 0
  Apart window [] = Unit {0}
  Apart window ([] ∷ rs) = ⊥
  Apart window ((d ∷ ds) ∷ rs) = Close window (d ∷ ds) × ApartAfter window (last_of d ds) rs

  concat-runs_from :
      (window : ℕ) (run : List (Detection F)) (last : Detection F) (ds : List (Detection F))
      → concat (runs_from window run last ds) ≡ run ++ ds
  unfolding runs_from
  concat-runs_from window run last [] = refl
  concat-runs_from window run last (d ∷ ds) =
      elim (Bool-cases (leb (d.window_start - last.window_start) window)) [
        | inl e ↦ rw e (concat-runs_from window (run ++ d ∷ []) d ds ∙ append_assoc run (d ∷ []) ds)
        | inr e ↦ rw e (ap (λ rest. run ++ rest) (concat-runs_from window (d ∷ []) d ds))
      ]

  Close-snoc :
      (window : ℕ) (first : Detection F) (run : List (Detection F)) (d : Detection F)
      → Close window (first ∷ run)
      → d.window_start - (last_of first run).window_start ≤ window
      → Close window (first ∷ run ++ d ∷ [])
  Close-snoc window first [] d c h = (h, tt)
  Close-snoc window first (e ∷ es) d c h = (c.0, Close-snoc window e es d c.1 h)

  last_of-snoc :
      (first : Detection F) (run : List (Detection F)) (d : Detection F)
      → last_of first (run ++ d ∷ []) ≡ d
  last_of-snoc first [] d = refl
  last_of-snoc first (e ∷ es) d = last_of-snoc e es d

  ApartAfter-runs_from :
      (window : ℕ) (prev first : Detection F) (run : List (Detection F)) (last : Detection F)
      (ds : List (Detection F))
      → last_of first run ≡ last
      → Close window (first ∷ run)
      → window < first.window_start - prev.window_start
      → ApartAfter window prev (runs_from window (first ∷ run) last ds)
  unfolding runs_from
  ApartAfter-runs_from window prev first run last [] q c gap = (gap, c, tt)
  ApartAfter-runs_from window prev first run last (d ∷ ds) q c gap =
      elim (Bool-cases (leb (d.window_start - last.window_start) window)) [
        | inl e ↦ rw e (
            ApartAfter-runs_from window prev first (run ++ d ∷ []) d ds (last_of-snoc first run d)
              (Close-snoc window first run d c
                (subst (λ l. d.window_start - l.window_start ≤ window) (sym q) (leb→le _ _ e)))
              gap)
        | inr e ↦ rw e (
          gap,
          c,
          subst (λ l. ApartAfter window l (runs_from window (d ∷ []) d ds)) (sym q)
              (ApartAfter-runs_from window last d [] d ds refl tt (ground (arith, e))),
        )
      ]

  Apart-runs_from :
      (window : ℕ) (first : Detection F) (run : List (Detection F)) (last : Detection F)
      (ds : List (Detection F))
      → last_of first run ≡ last
      → Close window (first ∷ run)
      → Apart window (runs_from window (first ∷ run) last ds)
  unfolding runs_from
  Apart-runs_from window first run last [] q c = (c, tt)
  Apart-runs_from window first run last (d ∷ ds) q c =
      elim (Bool-cases (leb (d.window_start - last.window_start) window)) [
        | inl e ↦ rw e (
            Apart-runs_from window first (run ++ d ∷ []) d ds (last_of-snoc first run d) (
              Close-snoc window first run d c
                (subst (λ l. d.window_start - l.window_start ≤ window) (sym q) (leb→le _ _ e))))
        | inr e ↦ rw e (
          c,
          subst (λ l. ApartAfter window l (runs_from window (d ∷ []) d ds)) (sym q)
              (ApartAfter-runs_from window last d [] d ds refl tt (ground (arith, e))),
        )
      ]

  -- The runs of a list of detections are the list, cut exactly where two neighbours start more than a
  -- window apart: put together they are the list, no run is empty, inside a run each detection starts
  -- at most a window after the one before it, and a run starts more than a window after the run before
  -- it ends.
  pub runs_exact :
      (window : ℕ) (ds : List (Detection F))
      → (concat (runs window ds) ≡ ds) × Apart window (runs window ds)
  unfolding runs
  runs_exact window [] = (refl, tt)
  runs_exact window (d ∷ ds) =
      (concat-runs_from window (d ∷ []) d ds, Apart-runs_from window d [] d ds refl tt)

  length-insert_by_start :
      (d : Detection F) (ds : List (Detection F)) → length (insert_by_start d ds) ≡ 1 + length ds
  unfolding insert_by_start
  length-insert_by_start d [] = refl
  length-insert_by_start d (c ∷ cs) = ground (arith, length-insert_by_start d cs)

  length-sort_by_start : (ds : List (Detection F)) → length (sort_by_start ds) ≡ length ds
  unfolding sort_by_start
  length-sort_by_start [] = refl
  length-sort_by_start (d ∷ ds) =
      omega (arith, length-insert_by_start d (sort_by_start ds), length-sort_by_start ds)

module _ {F : Type 0} ⦃f : Floats F⦄ where
  abbrev pub counts : List (GroupedIncident F) → ℕ
  counts incidents = sum_of (λ (i : GroupedIncident F). i.window_count) incidents

  counts-append : (xs ys : List (GroupedIncident F)) → counts (xs ++ ys) ≡ counts xs + counts ys
  unfolding sum_of
  counts-append [] ys = omega arith
  counts-append (x ∷ xs) ys = omega (arith, counts-append xs ys)

  counts-build_incidents :
      (detector : String) (rs : List (List (Detection F)))
      → counts (build_incidents detector rs) ≡ length (concat rs)
  unfolding build_incidents build_incident sum_of
  counts-build_incidents detector [] = refl
  counts-build_incidents detector ([] ∷ rs) = counts-build_incidents detector rs
  counts-build_incidents detector ((d ∷ ds) ∷ rs) =
      omega (arith, counts-build_incidents detector rs, length-append ds (concat rs))

  counts-incidents_of :
      (window : ℕ) (groups : List (Key × List (Detection F)))
      → counts (incidents_of window groups) ≡ total groups
  unfolding incidents_of sum_of
  counts-incidents_of window [] = refl
  counts-incidents_of window ((key, ds) ∷ groups) =
      let rs = runs window (sort_by_start ds) in
      omega (
        arith,
        counts-append (build_incidents key.1.1 rs) (incidents_of window groups),
        counts-build_incidents key.1.1 rs,
        ap length (runs_exact window (sort_by_start ds)).0,
        length-sort_by_start ds,
        counts-incidents_of window groups,
      )

  -- The window counts of the incidents add up to the number of detections.
  pub counts-group_detections :
      (detections : List (Detection F)) (window : ℕ)
      → counts (group_detections detections window) ≡ length detections
  unfolding group_detections
  counts-group_detections detections window =
      let ps = map (λ (d : Detection F). (detection_key d, d)) detections in
      counts-incidents_of window (group ps)
      ∙ total-group ps
      ∙ length-map (λ d. (detection_key d, d)) detections
