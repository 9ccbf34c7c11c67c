-- ===== src/Pipeline/Stored/Loop.antt =====
-- main.py, `run`, with the tables: the loop goes on, and every span whose window is due is processed.
use distributed_tracing_plat.Prelude.{
  ℕ, ◌≤◌, ◌<◌, ◌-◌, ◌≡◌, refl, sym, subst, ap, ◌∙◌, inl, inr, ⊎_elim, leb, Bool-cases, Option, none,
  some, List, [], ◌∷◌, map, map-append, Elem, Elem-append, length, arith,
}
use distributed_tracing_plat.Prelude.Floats.{Floats, Lawful}
use distributed_tracing_plat.Reassembly.{SpanRow}
use distributed_tracing_plat.Windowing.{
  WindowTracker, DueWindow, window_at, window_bounds, window_index, cursor, due_windows, poll,
  run_polls,
}
use distributed_tracing_plat.Windowing.Due.{indices, range_from, due_windows_exact}
use distributed_tracing_plat.Windowing.Schedule.{
  IsDueSome, Elem-range_from, indices-windows, run_polls_exact, window_seconds-poll,
}
use distributed_tracing_plat.Storage.{StoredSpan, Client}
use distributed_tracing_plat.Storage.Laws.{IsLawful}
use distributed_tracing_plat.Reader.{span_row}
use distributed_tracing_plat.Reader.Ranges.{fetch_late_spans-Returns}
use distributed_tracing_plat.Pipeline.{Config}
use distributed_tracing_plat.Pipeline.Stored.{
  process_all, check_late_spans, late_check, LoopState, Readings, round, run,
}
use distributed_tracing_plat.Pipeline.Stored.Keeps.{Grows, Grows-refl, Grows-trans}
use distributed_tracing_plat.Pipeline.Stored.Labels.{IsProcessed, IsProcessed-Grows}
use distributed_tracing_plat.Pipeline.Stored.Total.{
  Leaves, >>=-Leaves, Leaves-impl, IsUsable, WellStored, WellStored-Grows, IsCovered,
  process_stored_total,
}

module _ {F : Type 0} (c : Client F) where
  -- What was covered stays covered.
  IsCovered-later :
      (cfg : Config F) (index : ℕ) (s s' s'' : c.State)
      → Grows (c.tables s') (c.tables s'')
      → IsCovered c cfg index s s'
      → IsCovered c cfg index s s''
  IsCovered-later cfg index s s' s'' g covered r m i =
      let (row, e, p) = covered r m i in
      (row, e, IsProcessed-Grows c (window_bounds index cfg.window_seconds).0 row s' s'' g p)

  -- The spans are those of an earlier state.
  IsCovered-earlier :
      (cfg : Config F) (index : ℕ) (s s' s'' : c.State)
      → Grows (c.tables s) (c.tables s')
      → IsCovered c cfg index s' s''
      → IsCovered c cfg index s s''
  IsCovered-earlier cfg index s s' s'' g covered r m i = covered r ((g.spans r).1 m) i

module _ {F : Type 0} ⦃f : Floats F⦄ (laws : Lawful f) (c : Client F) (lawful : IsLawful c)
    (cfg : Config F) (usable : IsUsable cfg) where
  process_all_total :
      (js : List ℕ) (s : c.State)
      → WellStored c s
      → Leaves (process_all c cfg (map (window_at cfg.window_seconds) js) s) (λ s'.
        Grows (c.tables s) (c.tables s')
        × ((index : ℕ) → Elem index js → IsCovered c cfg index s s'))
  unfolding process_all
  process_all_total [] s w = (s, refl, (Grows-refl (c.tables s), λ index m. absurd m))
  process_all_total (j ∷ js) s w =
      >>=-Leaves _ _ (process_stored_total laws c lawful cfg j s usable w) (λ done p.
        let s1 = done.1 in
        let (s2, e, (g, rest)) = process_all_total js s1 (WellStored-Grows c s s1 p.0 w) in
        (
          s2,
          e,
          (
            Grows-trans (c.tables s) (c.tables s1) (c.tables s2) p.0 g,
            λ index m.
                ⊎_elim
                  (λ q.
                    subst (λ i. IsCovered c cfg i s s2) q (IsCovered-later c cfg j s s1 s2 g p.1))
                  (λ k. IsCovered-earlier c cfg index s s1 s2 p.0 (rest index k)) m,
          ),
        ))

  late_check_total :
      (clock : Readings) (boundary : Option ℕ) (st : LoopState c.State)
      → WellStored c st.db
      → Leaves
          (late_check c cfg clock boundary st)
          (λ st'. (st'.db ≡ st.db) × (st'.tracker ≡ st.tracker))
  unfolding late_check check_late_spans
  late_check_total clock none st w = (st, refl, (refl, refl))
  late_check_total clock (some boundary) st w =
      elim (Bool-cases
        (leb cfg.late_check_interval (clock.monotonic - st.last_late_check_monotonic))) [
          | inl due ↦
              let (late, e) = fetch_late_spans-Returns c st.db boundary st.last_late_check w.0 in
              rw (due, e) (_, refl, (refl, refl))
          | inr early ↦ rw early (st, refl, (refl, refl))
        ]

  round_total :
      (st : LoopState c.State) (clock : Readings)
      → st.tracker.window_seconds ≡ cfg.window_seconds
      → WellStored c st.db
      → Leaves (round c cfg st clock) (λ st'.
        Grows (c.tables st.db) (c.tables st'.db)
        × (st'.tracker ≡ (poll st.tracker clock.now).0)
        × ((index : ℕ)
            → Elem index (indices (poll st.tracker clock.now).1)
            → IsCovered c cfg index st.db st'.db))
  unfolding round poll
  round_total st clock same w =
      let t = st.tracker in
      let js = range_from (cursor t clock.now) (length (due_windows t clock.now).1) in
      let pos : 0 < t.window_seconds = rw same usable.window in
      let shape = (due_windows_exact t clock.now pos).0 in
      let due = shape ∙ ap (λ n. map (window_at n) js) same in
      let at_js = ap indices shape ∙ indices-windows t js in
      >>=-Leaves _ _
        (subst
          (λ ws. Leaves (process_all c cfg ws st.db) (λ s'.
            Grows (c.tables st.db) (c.tables s')
            × ((index : ℕ) → Elem index js → IsCovered c cfg index st.db s')))
          (sym due) (process_all_total js st.db w))
        (λ s' p.
          Leaves-impl
            (late_check_total clock _ (record st { tracker = (poll t clock.now).0; db = s' })
              (WellStored-Grows c st.db s' p.0 w))
            (λ st' q. (
              subst (λ x. Grows (c.tables st.db) (c.tables x)) (sym q.0) p.0,
              q.1,
              λ index m.
                  subst (λ x. IsCovered c cfg index st.db x) (sym q.0)
                    (p.1 index (subst (Elem index) at_js m)),
            )))

  -- The loop at all its readings of the clocks.
  run_total :
      (clocks : List Readings) (st : LoopState c.State)
      → st.tracker.window_seconds ≡ cfg.window_seconds
      → WellStored c st.db
      → Leaves (run c cfg st clocks) (λ st'.
        Grows (c.tables st.db) (c.tables st'.db)
        × ((index : ℕ)
            → Elem index (indices (run_polls st.tracker (map (λ k. k.now) clocks)).1)
            → IsCovered c cfg index st.db st'.db))
  unfolding run run_polls
  run_total [] st same w = (st, refl, (Grows-refl (c.tables st.db), λ index m. absurd m))
  run_total (clock ∷ clocks) st same w = >>=-Leaves _ _ (round_total st clock same w) (λ st1 p.
      let same1 =
        ap (λ t. t.window_seconds) p.1 ∙ window_seconds-poll st.tracker clock.now ∙ same in
      let (st2, e, (g, rest)) =
        run_total clocks st1 same1 (WellStored-Grows c st.db st1.db p.0 w) in
      let t1 = (poll st.tracker clock.now).0 in
      let nows = map (λ (k : Readings). k.now) clocks in
      let here = indices (poll st.tracker clock.now).1 in
      let later = indices (run_polls t1 nows).1 in
      (
        st2,
        e,
        (
          Grows-trans (c.tables st.db) (c.tables st1.db) (c.tables st2.db) p.0 g,
          λ index m.
              ⊎_elim (λ i. IsCovered-later c cfg index st.db st1.db st2.db g (p.2 index i))
                (λ i.
                  IsCovered-earlier c cfg index st.db st1.db st2.db p.0 (
                    rest index
                      (subst (λ t. Elem index (indices (run_polls t nows).1)) (sym p.1) i)))
                ((Elem-append index here later).0 (
                  subst (Elem index)
                    (map-append (λ w. w.index) (poll st.tracker clock.now).1 (run_polls t1 nows).1)
                    m)),
        ),
      ))

  -- With a lawful client and arithmetic, a usable configuration and well-stored tables, the loop raises
  -- nothing at any readings of the clocks. A span that stands in the table from the start is read, and has a
  -- label, and its trace a summary of its window, if its window is not before that of the first reading and
  -- is due at one of the readings.
  pub run_processes :
      (clock : Readings) (clocks : List Readings) (st : LoopState c.State)
      → st.tracker.window_seconds ≡ cfg.window_seconds
      → st.tracker.next_index ≡ none
      → WellStored c st.db
      → Leaves (run c cfg st (clock ∷ clocks)) (λ st'.
        (r : StoredSpan)
        → Elem r (c.tables st.db).spans
        → let index = window_index r.start_time_unix_nano cfg.window_seconds in
          window_index clock.now cfg.window_seconds ≤ index
          → IsDueSome st.tracker (map (λ k. k.now) (clock ∷ clocks)) index
          → (row : SpanRow) × (span_row r ≡ some row)
            × IsProcessed c (window_bounds index cfg.window_seconds).0 row st'.db)
  run_processes clock clocks st same fresh w =
      let t = st.tracker in
      let nows = map (λ (k : Readings). k.now) clocks in
      let pos : 0 < t.window_seconds = omega (arith, same, usable.window) in
      let (k, shape, due) = run_polls_exact t clock.now nows pos fresh in
      let start = window_index clock.now t.window_seconds in
      let listed =
        ap (λ (p : WindowTracker × List DueWindow). indices p.1) shape
        ∙ indices-windows t (range_from start k) in
      Leaves-impl (run_total (clock ∷ clocks) st same w) (λ st' p r m low is_due.
        let index = window_index r.start_time_unix_nano cfg.window_seconds in
        let low' = subst (λ n. window_index clock.now n ≤ index) (sym same) low in
        p.1 index
          (subst (Elem index) (sym listed)
            ((Elem-range_from start k index).1 (low', (due index low').1 is_due)))
          r m refl)
