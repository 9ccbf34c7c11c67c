-- ===== src/Reassembly/Coverage.antt =====
-- reassembly.py, `reassemble`: no span and no trace of the window is left out.
use distributed_tracing_plat.Prelude.{
  ℕ, true, false, ◌≡◌, inl, inr, refl, sym, subst, ap, ◌∙◌, ⊎_elim, String, string_eq, List, [],
  ◌∷◌, ◌++◌, map, contains, contains_iff, Elem, Elem-append, Elem-filter, Elem-map, Elem-map_inv,
  Elem-values, values, keys, group-eq-entries, firsts, Elem-add_keys, Bool-cases,
}
use distributed_tracing_plat.Reassembly.{
  SpanRow, TraceSummary, SpanClassification, Classification, ok, orphan_missing_parent,
  cycle_rejected, span_ids, links, cycle_rows, ok_rows, classify, trace_classifications,
  trace_summary, by_trace, reassemble_traces, reassemble,
}

-- The classifications have one of this identifier and window.
abbrev Labels : String → String → ℕ → List SpanClassification → Type 0
Labels trace_id span_id window_start cs =
    (c : SpanClassification) × Elem c cs
    × (c.trace_id ≡ trace_id)
    × (c.span_id ≡ span_id)
    × (c.window_start ≡ window_start)

Labels-mono :
    {trace_id span_id : String} {window_start : ℕ} (cs ds : List SpanClassification)
    → ((c : SpanClassification) → Elem c cs → Elem c ds)
    → Labels trace_id span_id window_start cs
    → Labels trace_id span_id window_start ds
Labels-mono cs ds h (c, i, t, s, w) = (c, h c i, t, s, w)

module _ (trace_id : String) (rows : List SpanRow) (window_start : ℕ) where
  -- A span with the identifier of a labelled one is labelled.
  Labels-classify :
      (v : Classification) (part : List SpanRow) (span_id : String)
      → contains (span_ids part) span_id ≡ true
      → Labels trace_id span_id window_start (map (classify trace_id window_start v) part)
  Labels-classify v part span_id h =
      let (r, m, q) =
        Elem-map_inv (λ r. r.span_id) span_id part ((contains_iff (span_ids part) span_id).0 h) in
      (
        classify trace_id window_start v r,
        Elem-map (classify trace_id window_start v) r part m,
        refl,
        q,
        refl,
      )

  Labels-ok_rows :
      (r : SpanRow)
      → Elem r rows
      → contains (span_ids (links rows).orphans) r.span_id ≡ false
      → contains (span_ids (cycle_rows rows)) r.span_id ≡ false
      → contains (span_ids (ok_rows rows)) r.span_id ≡ true
  unfolding ok_rows
  Labels-ok_rows r m h k =
      (contains_iff (span_ids (ok_rows rows)) r.span_id).1
        (Elem-map (λ r. r.span_id) r (ok_rows rows) ((Elem-filter _ r rows).1 (m, rw (h, k))))

  -- Each span of the trace has a label, though perhaps by another row of its identifier.
  trace_classifications-Labels :
      (r : SpanRow)
      → Elem r rows
      → Labels trace_id r.span_id window_start (trace_classifications trace_id rows window_start)
  unfolding trace_classifications
  trace_classifications-Labels r m =
      let label = λ (v : Classification). map (classify trace_id window_start v) in
      let orphans = label orphan_missing_parent (links rows).orphans in
      let cycles = label cycle_rejected (cycle_rows rows) in
      let oks = label ok (ok_rows rows) in
      elim (Bool-cases (contains (span_ids (links rows).orphans) r.span_id)) [
        | inl h ↦
            Labels-mono orphans _ (λ c i. (Elem-append c orphans (cycles ++ oks)).1 (inl i))
              (Labels-classify orphan_missing_parent (links rows).orphans r.span_id h)
        | inr h ↦
            Labels-mono (cycles ++ oks) _ (λ c i. (Elem-append c orphans (cycles ++ oks)).1 (inr i))
              (elim (Bool-cases (contains (span_ids (cycle_rows rows)) r.span_id)) [
                | inl k ↦
                    Labels-mono cycles _ (λ c i. (Elem-append c cycles oks).1 (inl i))
                      (Labels-classify cycle_rejected (cycle_rows rows) r.span_id k)
                | inr k ↦
                    Labels-mono oks _ (λ c i. (Elem-append c cycles oks).1 (inr i))
                      (Labels-classify ok (ok_rows rows) r.span_id (Labels-ok_rows r m h k))
              ])
      ]

abbrev Summarized : String → ℕ → List TraceSummary → Type 0
Summarized trace_id window_start ss =
    (s : TraceSummary) × Elem s ss × (s.trace_id ≡ trace_id) × (s.window_start ≡ window_start)

-- A trace of the window has its results among those of all traces.
reassemble_traces_covers :
    (traces : List (String × List SpanRow)) (window_start : ℕ) (trace_id : String)
    (rows : List SpanRow) (r : SpanRow)
    → Elem (trace_id, rows) traces
    → Elem r rows
    → Summarized trace_id window_start (reassemble_traces traces window_start).summaries
      × Labels trace_id r.span_id window_start
          (reassemble_traces traces window_start).classifications
unfolding reassemble_traces trace_summary
reassemble_traces_covers [] window_start trace_id rows r m n = absurd m
reassemble_traces_covers ((t, rs) ∷ traces) window_start trace_id rows r m n =
    let here = trace_classifications t rs window_start in
    let rest = (reassemble_traces traces window_start).classifications in
    ⊎_elim
      (λ q.
        let (c, i, own, e, w) =
          trace_classifications-Labels t rs window_start r
            (subst (Elem r) (sym (ap (λ (x : String × List SpanRow). x.1) q)) n) in
        let id = ap (λ (x : String × List SpanRow). x.0) q in
        (
          (trace_summary t rs window_start, inl refl, id, refl),
          (c, (Elem-append c here rest).1 (inl i), own ∙ id, e, w),
        ))
      (λ k.
        let ((s, i, p, w), labels) =
          reassemble_traces_covers traces window_start trace_id rows r k n in
        ((s, inr i, p, w), Labels-mono rest _ (λ c j. (Elem-append c here rest).1 (inr j)) labels))
      m

-- The spans of a trace are one of the groups.
Elem-by_trace :
    (rows : List SpanRow) (r : SpanRow)
    → Elem r rows
    → let of_trace = values r.trace_id (map (λ r. (r.trace_id, r)) rows) in
      Elem (r.trace_id, of_trace) (by_trace rows) × Elem r of_trace
Elem-by_trace rows r m =
    let ps = map (λ (r : SpanRow). (r.trace_id, r)) rows in
    let own : Elem (r.trace_id, r) ps = Elem-map (λ (r : SpanRow). (r.trace_id, r)) r rows m in
    (
      subst (Elem (r.trace_id, values r.trace_id ps)) (sym (group-eq-entries ps)) (
          Elem-map (λ k. (k, values k ps)) r.trace_id (firsts (keys ps))
            ((Elem-add_keys [] (keys ps) r.trace_id).1
              (inr (Elem-map (λ (x : String × SpanRow). x.0) (r.trace_id, r) ps own)))),
      (Elem-values r.trace_id r ps).1 own,
    )

-- For each span of the window, its trace has a summary, and the span's identifier has a label.
pub reassemble_covers :
    (rows : List SpanRow) (window_start : ℕ) (r : SpanRow)
    → Elem r rows
    → Summarized r.trace_id window_start (reassemble rows window_start).summaries
      × Labels r.trace_id r.span_id window_start (reassemble rows window_start).classifications
unfolding reassemble
reassemble_covers rows window_start r m =
    let (i, j) = Elem-by_trace rows r m in
    reassemble_traces_covers (by_trace rows) window_start r.trace_id _ r i j
