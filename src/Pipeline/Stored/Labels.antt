-- ===== src/Pipeline/Stored/Labels.antt =====
-- main.py, the writes of `process_window`: each keeps what the tables hold, and the first stores a label
-- for each span of the window and a summary of its trace.
use distributed_tracing_plat.Prelude.{
  ℕ, sym, subst, String, List, map, Elem, Elem-map, Elem-map_inv,
}
use distributed_tracing_plat.Prelude.Floats.{Floats}
use distributed_tracing_plat.Detectors.{Detection}
use distributed_tracing_plat.Detectors.Loops.{Returns}
use distributed_tracing_plat.Reassembly.{SpanRow, reassemble}
use distributed_tracing_plat.Reassembly.Coverage.{reassemble_covers}
use distributed_tracing_plat.Windowing.{DueWindow}
use distributed_tracing_plat.Suppression.{GroupedIncident}
use distributed_tracing_plat.Storage.{
  Client, detections, span_classifications, trace_summaries, service_edges, service_stats,
  service_clock_offsets, edge_baselines, service_baselines, detected_incidents,
}
use distributed_tracing_plat.Storage.Keys.{summary_key, classification_key}
use distributed_tracing_plat.Storage.Laws.{IsLawful}
use distributed_tracing_plat.Writer.{
  to_datetime, summary_row, classification_row, detection_row, insert_rows, write_result,
  write_service_edges, write_service_stats, write_clock_offsets, write_service_baselines,
  write_edge_baselines, write_detections, write_detected_incidents,
}
use distributed_tracing_plat.Reader.{detection_of}
use distributed_tracing_plat.Reader.Labels.{detection_row-Returns}
use distributed_tracing_plat.Targets.{Baseline}
use distributed_tracing_plat.Pipeline.Stored.{write_rows}
use distributed_tracing_plat.Pipeline.Stored.Keeps.{
  Labelled, Summed, Grows, Grows-refl, and_write, Labelled-insert_rows, Summed-insert_rows,
}

module _ {F : Type 0} (c : Client F) where
  -- The span has a label and its trace a summary of the window.
  abbrev pub IsProcessed : ℕ → SpanRow → c.State → Type 0
  IsProcessed window_start r s =
      Labelled (r.trace_id, r.span_id) (c.tables s)
      × Summed (r.trace_id, to_datetime window_start) (c.tables s)

  pub IsProcessed-Grows :
      (window_start : ℕ) (r : SpanRow) (s s' : c.State)
      → Grows (c.tables s) (c.tables s')
      → IsProcessed window_start r s
      → IsProcessed window_start r s'
  IsProcessed-Grows window_start r s s' g p = (g.labelled _ p.0, g.summed _ p.1)

module _ {F : Type 0} ⦃f : Floats F⦄ (c : Client F) (lawful : IsLawful c) where
  pub Grows-write_rows :
      (window : DueWindow) (root_service : String) (rows : List SpanRow) (s : c.State)
      → Grows (c.tables s) (c.tables (write_rows c window root_service rows s))
  unfolding write_rows write_result write_service_edges write_service_stats write_clock_offsets
  Grows-write_rows window root_service rows s =
      and_write c lawful service_clock_offsets _ (c.tables s) _ (λ r rs e. tt)
        (and_write c lawful service_stats _ (c.tables s) _ (λ r rs e. tt)
          (and_write c lawful service_edges _ (c.tables s) _ (λ r rs e. tt)
            (and_write c lawful span_classifications _ (c.tables s) _ (λ r rs e. tt)
              (and_write c lawful trace_summaries _ (c.tables s) s (λ r rs e. tt)
                (Grows-refl (c.tables s))))))

  -- The writes of `run_detection`.
  pub Grows-write_detections :
      (window : DueWindow) (services edges : List (Baseline F)) (found : List (Detection F))
      (s : c.State)
      → Grows (c.tables s) (
          c.tables (
            write_detections c found (
              write_edge_baselines c window.start edges
                (write_service_baselines c window.start services s))))
  unfolding write_detections write_edge_baselines write_service_baselines
  Grows-write_detections window services edges found s =
      and_write c lawful detections (map detection_row found) (c.tables s) _
        (λ r rs e x m.
          let (d, _, q) = Elem-map_inv detection_row x found (subst (Elem x) (sym e) m) in
          subst (λ y. Returns (detection_of y)) q (detection_row-Returns d))
        (and_write c lawful edge_baselines _ (c.tables s) _ (λ r rs e. tt)
          (and_write c lawful service_baselines _ (c.tables s) s (λ r rs e. tt)
            (Grows-refl (c.tables s))))

  pub Grows-write_detected_incidents :
      (incidents : List (GroupedIncident F)) (s : c.State)
      → Grows (c.tables s) (c.tables (write_detected_incidents c incidents s))
  unfolding write_detected_incidents
  Grows-write_detected_incidents incidents s =
      and_write c lawful detected_incidents _ (c.tables s) s (λ r rs e. tt)
        (Grows-refl (c.tables s))

  IsProcessed-write_result :
      (window_start : ℕ) (rows : List SpanRow) (r : SpanRow) (s : c.State)
      → Elem r rows
      → IsProcessed c window_start r (write_result c (reassemble rows window_start) s)
  unfolding write_result summary_row classification_row
  IsProcessed-write_result window_start rows r s m =
      let result = reassemble rows window_start in
      let s1 = insert_rows c trace_summaries (map summary_row result.summaries) s in
      let ((sum, i, t, w), (cl, j, t', id, w')) = reassemble_covers rows window_start r m in
      (
        Labelled-insert_rows c lawful (map classification_row result.classifications) s1 _ (
            subst
              (λ k. Elem k (map classification_key (map classification_row result.classifications)))
              (λ n. (t' n, id n))
              (Elem-map classification_key (classification_row cl) _
                (Elem-map classification_row cl result.classifications j))),
        (and_write c lawful span_classifications (map classification_row result.classifications)
              (c.tables s1) s1 (λ r rs e. tt) (Grows-refl (c.tables s1))).summed
            _
            (Summed-insert_rows c lawful (map summary_row result.summaries) s _ (
              subst (λ k. Elem k (map summary_key (map summary_row result.summaries)))
                (λ n. (t n, to_datetime (w n)))
                (Elem-map summary_key (summary_row sum) _
                  (Elem-map summary_row sum result.summaries i)))),
      )

  pub IsProcessed-write_rows :
      (window : DueWindow) (root_service : String) (rows : List SpanRow) (r : SpanRow) (s : c.State)
      → Elem r rows
      → IsProcessed c window.start r (write_rows c window root_service rows s)
  unfolding write_rows write_service_edges write_service_stats write_clock_offsets
  IsProcessed-write_rows window root_service rows r s m =
      let s1 = write_result c (reassemble rows window.start) s in
      IsProcessed-Grows c window.start r s1 (write_rows c window root_service rows s)
        (and_write c lawful service_clock_offsets _ (c.tables s1) _ (λ r rs e. tt)
          (and_write c lawful service_stats _ (c.tables s1) _ (λ r rs e. tt)
            (and_write c lawful service_edges _ (c.tables s1) s1 (λ r rs e. tt)
              (Grows-refl (c.tables s1)))))
        (IsProcessed-write_result window.start rows r s m)
