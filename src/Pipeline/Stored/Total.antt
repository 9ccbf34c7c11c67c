-- ===== src/Pipeline/Stored/Total.antt =====
-- main.py, `process_window` with its reads and writes: it raises nothing, takes nothing away, and leaves
-- no span of the window without a label.
use distributed_tracing_plat.Prelude.{
  ℕ, ◌≤◌, ◌<◌, ◌-◌, ◌*◌, ◌++◌, ◌≡◌, ◌↔◌, refl, sym, subst, Option, none, some, List, Elem, vals,
  ◌>>=◌, arith,
}
use distributed_tracing_plat.Prelude.Floats.{Floats, Lawful}
use distributed_tracing_plat.Reassembly.{SpanRow}
use distributed_tracing_plat.Aggregation.{
  ServiceStats, ServiceEdge, aggregate_services, aggregate_edges,
}
use distributed_tracing_plat.Detectors.{Detection}
use distributed_tracing_plat.Detectors.Loops.{Returns, some_inj}
use distributed_tracing_plat.Windowing.{DueWindow, second, window_at, window_bounds, window_index}
use distributed_tracing_plat.Baselines.Lookback.{Called, refresh_baselines-Called}
use distributed_tracing_plat.Storage.{StoredSpan, Client}
use distributed_tracing_plat.Storage.Laws.{IsLawful}
use distributed_tracing_plat.Reader.{span_row, fetch_window, fetch_lookback_spans}
use distributed_tracing_plat.Reader.Ranges.{
  IsStored, fetch_window-Returns, fetch_window-window_index, fetch_recent_detections-Returns,
  span_row-Returns,
}
use distributed_tracing_plat.Pipeline.{Config, current_service_stats, current_edge_stats}
use distributed_tracing_plat.Pipeline.Totality.{run_detectors-Returns}
use distributed_tracing_plat.Pipeline.Stored.{
  read_baselines, detect_stored, suppress_stored, write_rows, process_stored,
}
use distributed_tracing_plat.Pipeline.Stored.Keeps.{ReadableRows, Grows, Grows-trans}
use distributed_tracing_plat.Pipeline.Stored.Labels.{
  IsProcessed, IsProcessed-Grows, Grows-write_rows, IsProcessed-write_rows, Grows-write_detections,
  Grows-write_detected_incidents,
}

-- The step returns, and its result satisfies P.
abbrev pub Leaves {ℓ} : {A : Type 0} → Option A → (A → Type ℓ) → Type ℓ
Leaves {A} o P = (a : A) × (o ≡ some a) × P a

pub >>=-Leaves {ℓ κ} :
    {A B : Type 0} {P : A → Type ℓ} {Q : B → Type κ} (o : Option A) (next : A → Option B)
    → Leaves o P
    → ((a : A) → P a → Leaves (next a) Q)
    → Leaves (o >>= next) Q
>>=-Leaves none next (a, h, p) k = absurd (ground arith)
>>=-Leaves {P = P} (some b) next (a, h, p) k = k b (subst P (sym (some_inj b a h)) p)

pub Leaves-Returns : {A : Type 0} {o : Option A} → Returns o → Leaves o (λ a. Unit {0})
Leaves-Returns (a, h) = (a, h, tt)

pub Leaves-impl {ℓ κ} :
    {A : Type 0} {P : A → Type ℓ} {Q : A → Type κ} {o : Option A}
    → Leaves o P
    → ((a : A) → P a → Q a)
    → Leaves o Q
Leaves-impl (a, e, p) k = (a, e, k a p)

-- What the configuration has to satisfy.
pub record IsUsable {F : Type 0} (cfg : Config F) : Type 0 where
  pub window : 0 < cfg.window_seconds
  pub samples : 1 ≤ cfg.baseline_min_samples
  pub sample_size : 1 ≤ cfg.error_rate_min_sample_size

module _ {F : Type 0} (c : Client F) where
  -- The identifiers of the spans are padded ASCII texts, and the detections can be read.
  abbrev pub WellStored : c.State → Type 0
  WellStored s =
      ((r : StoredSpan) → Elem r (c.tables s).spans → IsStored r)
      × ReadableRows (c.tables s).detections

  pub WellStored-Grows :
      (s s' : c.State) → Grows (c.tables s) (c.tables s') → WellStored s → WellStored s'
  WellStored-Grows s s' g w = (λ r m. w.0 r ((g.spans r).0 m), g.readable w.1)

  -- The rows are the spans of the window of the index.
  abbrev IsRead : Config F → ℕ → c.State → List SpanRow → Type 0
  IsRead cfg index s rows =
      (row : SpanRow)
      → Elem row rows ↔ (
          (r : StoredSpan) × Elem r (c.tables s).spans
          × (window_index r.start_time_unix_nano cfg.window_seconds ≡ index)
          × (span_row r ≡ some row))

  -- The spans of the state `s` whose start is in the window of the index are processed in the state `s'`.
  abbrev pub IsCovered : Config F → ℕ → c.State → c.State → Type 0
  IsCovered cfg index s s' =
      (r : StoredSpan)
      → Elem r (c.tables s).spans
      → window_index r.start_time_unix_nano cfg.window_seconds ≡ index
      → (row : SpanRow) × (span_row r ≡ some row)
        × IsProcessed c (window_bounds index cfg.window_seconds).0 row s'

module _ {F : Type 0} ⦃f : Floats F⦄ (laws : Lawful f) (c : Client F) (lawful : IsLawful c) where
  read_baselines-Called :
      (cfg : Config F) (window : DueWindow) (s : c.State)
      → IsUsable cfg
      → WellStored c s
      → Leaves (read_baselines c cfg window s) (λ b. Called b.0 × Called b.1)
  unfolding read_baselines fetch_lookback_spans
  read_baselines-Called cfg window s usable w =
      >>=-Leaves _ _
        (Leaves-Returns (
          fetch_window-Returns c s (window.start - cfg.baseline_lookback_seconds * second)
            window.start w.0))
        (λ rows _.
          (_, refl, refresh_baselines-Called rows _ _ cfg.baseline_min_samples usable.samples))

  detect_stored-Grows :
      (cfg : Config F) (window : DueWindow) (services : List ServiceStats)
      (edges : List ServiceEdge) (s : c.State)
      → IsUsable cfg
      → WellStored c s
      → Leaves
          (detect_stored c cfg window services edges s)
          (λ p. Grows (c.tables s) (c.tables p.1))
  unfolding detect_stored
  detect_stored-Grows cfg window services edges s usable w =
      >>=-Leaves _ _ (read_baselines-Called cfg window s usable w) (λ b called.
        >>=-Leaves _ _
          (Leaves-Returns (
            run_detectors-Returns laws cfg window.start (current_service_stats services) b.0
              usable.sample_size called.0))
          (λ of_services _.
            >>=-Leaves _ _
              (Leaves-Returns (
                run_detectors-Returns laws cfg window.start (current_edge_stats edges) b.1
                  usable.sample_size called.1))
              (λ of_edges _. (
                _,
                refl,
                Grows-write_detections c lawful window (vals b.0) (vals b.1)
                    (of_services ++ of_edges) s,
              ))))

  suppress_stored-Grows :
      (cfg : Config F) (window : DueWindow) (found : List (Detection F)) (s : c.State)
      → WellStored c s
      → Leaves (suppress_stored c cfg window found s) (λ p. Grows (c.tables s) (c.tables p.1))
  unfolding suppress_stored
  suppress_stored-Grows cfg window found s w =
      >>=-Leaves _ _ (Leaves-Returns (fetch_recent_detections-Returns c s _ window.end w.1))
        (λ recent _. (_, refl, Grows-write_detected_incidents c lawful _ s))

  -- With a lawful client and arithmetic, a usable configuration and well-stored tables, processing a window
  -- returns; the spans of the tables stay, no label and no summary is taken away, the detections can still
  -- be read; and each span whose start is in the window has a label, and its trace a summary of the window.
  pub process_stored_total :
      (cfg : Config F) (index : ℕ) (s : c.State)
      → IsUsable cfg
      → WellStored c s
      → Leaves
          (process_stored c cfg (window_at cfg.window_seconds index) s)
          (λ p. Grows (c.tables s) (c.tables p.1) × IsCovered c cfg index s p.1)
  unfolding process_stored
  process_stored_total cfg index s usable w =
      let bounds = window_bounds index cfg.window_seconds in
      let window = window_at cfg.window_seconds index in
      >>=-Leaves {P = IsRead c cfg index s} (fetch_window c s bounds.0 bounds.1) _
        (fetch_window-window_index c s cfg.window_seconds index usable.window w.0)
        (λ rows exact.
          let s1 = write_rows c window cfg.root_service rows s in
          let g1 = Grows-write_rows c lawful window cfg.root_service rows s in
          let w1 = WellStored-Grows c s s1 g1 w in
          >>=-Leaves _ _
            (detect_stored-Grows cfg window (aggregate_services rows bounds.0)
              (aggregate_edges rows bounds.0) s1 usable w1)
            (λ found g2.
              >>=-Leaves _ _
                (suppress_stored-Grows cfg window found.0 found.1
                  (WellStored-Grows c s1 found.1 g2 w1))
                (λ suppressed g3.
                  let later =
                    Grows-trans (c.tables s1) (c.tables found.1) (c.tables suppressed.1) g2 g3 in
                  (
                    _,
                    refl,
                    (
                      Grows-trans (c.tables s) (c.tables s1) (c.tables suppressed.1) g1 later,
                      λ r m i.
                          let (row, e) = span_row-Returns r (w.0 r m) in
                          (
                            row,
                            e,
                            IsProcessed-Grows c bounds.0 row s1 suppressed.1 later (
                                IsProcessed-write_rows c lawful window cfg.root_service rows row s
                                  ((exact row).1 (r, m, i, e))),
                          ),
                    ),
                  ))))
