-- ===== src/Api/OneTrace.antt =====
-- routes.py, `get_trace`: each of its answers.
use Prim.Native.String.{count}
use distributed_tracing_plat.Prelude.{
  Bool, true, false, ◌&&◌, ◌≡◌, refl, String, string_eq, ◌==◌, List, [], ◌∷◌, map, filter, IsSorted,
  IsSorted-sort, leb, eqb, Elem, Elem-filter, Elem-sort, insert_all, arith, ◌↔◌, ◌⊎◌, inl, inr,
  ⊎_elim, subst, length, length-sort, Bool-cases, ◌≤◌,
}
use distributed_tracing_plat.Detectors.Loops.{Returns, Returns->>=}
use distributed_tracing_plat.Reassembly.{Classification}
use distributed_tracing_plat.Storage.{StoredSpan, ClassificationRow, Client}
use distributed_tracing_plat.Storage.FixedStrings.{rstrip}
use distributed_tracing_plat.Reader.Ranges.{
  IsEncoded, IsStored, decode_fixed_string-Returns, each-Returns,
}
use distributed_tracing_plat.Pipeline.Stored.Total.{Leaves}
use distributed_tracing_plat.Api.Traces.{of_trace}
use distributed_tracing_plat.Api.Details.{
  label_entry, detail_row, trace_rows, detail_of, fetch_trace_detail,
}
use distributed_tracing_plat.Api.Routes.{
  raise, bad_trace_id, no_spans, all_hex, lower, span_of, get_trace,
}
use distributed_tracing_plat.Api.Answers.{Answers}
use text.Mathlib.TextEquality.{eq_iff}
use distributed_tracing_plat.Api.Spans.{
  IsTraceId, IsTraceId-iff, IsLowered, lower-IsLowered, Shown, each-Shown,
}

detail_row-Returns :
    (labels : List (String × Classification)) (r : StoredSpan)
    → IsStored r
    → Returns (detail_row labels r)
unfolding detail_row
detail_row-Returns labels r (t, s, p) =
    Returns->>= _ _ (decode_fixed_string-Returns 16 r.span_id s)
      (λ a. Returns->>= _ _ (decode_fixed_string-Returns 16 r.parent_span_id p) (λ b. (_, refl)))

abbrev pub by_start : StoredSpan → StoredSpan → Bool
by_start a b = leb a.start_time_unix_nano b.start_time_unix_nano

module _ {F : Type 0} (c : Client F) (s : c.State) where
  abbrev pub IsReadableTrace : Type 0
  IsReadableTrace =
      ((r : StoredSpan) → Elem r (c.tables s).spans → IsStored r)
      × ((l : ClassificationRow)
          → Elem l (c.tables s).span_classifications
          → IsEncoded 16 l.span_id)

  -- The rows of the trace with this identifier: a column of fixed width is compared without its padding.
  abbrev pub labels_of : String → List ClassificationRow
  labels_of id = filter (λ l. rstrip l.trace_id == id) (c.tables s).span_classifications

  abbrev pub spans_of : String → List StoredSpan
  spans_of id = filter (λ r. rstrip r.trace_id == id) (c.tables s).spans

  -- The rows are the spans of the trace, from the earliest start to the latest.
  abbrev pub IsTrace : String → List StoredSpan → Type 0
  IsTrace id rows =
      ((r : StoredSpan) → Elem r rows ↔ (Elem r (c.tables s).spans × (rstrip r.trace_id ≡ id)))
      × (length rows ≡ length (spans_of id))
      × IsSorted by_start rows

  trace_rows-IsTrace : (id : String) → IsTrace id (trace_rows c s id)
  unfolding trace_rows
  trace_rows-IsTrace id = (
    λ r.
        let sorted = Elem-sort by_start r (spans_of id) in
        let kept = Elem-filter (of_trace id) r (c.tables s).spans in
        (
          λ m. let (i, e) = kept.0 (sorted.0 m) in (i, (eq_iff (rstrip r.trace_id) id).0 e),
          λ (i, e). sorted.1 (kept.1 (i, (eq_iff (rstrip r.trace_id) id).1 e)),
        ),
    length-sort by_start (spans_of id),
    IsSorted-sort by_start (λ a b h. ground arith) (λ a b d h k. ground arith) (spans_of id),
  )

  detail_of-Leaves :
      (trace_id : String) (r : StoredSpan) (rs : List StoredSpan)
      → IsReadableTrace
      → ((x : StoredSpan) → Elem x (r ∷ rs) → Elem x (c.tables s).spans)
      → Leaves
          (detail_of c s trace_id r rs)
          (λ d. (d.trace_id ≡ trace_id) × Shown (labels_of trace_id) (r ∷ rs) (map span_of d.spans))
  unfolding detail_of
  detail_of-Leaves trace_id r rs readable within =
      let (labels, p) = each-Returns label_entry (labels_of trace_id) (λ l m.
        Returns->>= _ _
          (decode_fixed_string-Returns 16 l.span_id
            (readable.1 l ((Elem-filter _ l (c.tables s).span_classifications).0 m).0))
          (λ span_id. (_, refl))) in
      let dict = insert_all [] labels in
      let (spans, q) =
        each-Returns (detail_row dict) (r ∷ rs)
          (λ x m. detail_row-Returns dict x (readable.0 x (within x m))) in
      rw (p, q) (_, refl, (refl, each-Shown (labels_of trace_id) labels p (r ∷ rs) spans q))

  -- What `get_trace` answers of a trace with rows.
  abbrev pub Answered : String → String → List StoredSpan → Type 0
  Answered trace_id id rows =
      (1 ≤ length rows)
      × Answers (get_trace c s trace_id)
          (λ body. (body.trace_id ≡ id) × Shown (labels_of id) rows body.spans)

  by_rows :
      (trace_id : String) (rows : List StoredSpan)
      → IsReadableTrace
      → ((x : StoredSpan) → Elem x rows → Elem x (c.tables s).spans)
      → (eqb (count trace_id) 32 && all_hex trace_id) ≡ true
      → trace_rows c s (lower trace_id) ≡ rows
      → ((rows ≡ []) × (get_trace c s trace_id ≡ raise (no_spans trace_id)))
        ⊎ Answered trace_id (lower trace_id) rows
  unfolding get_trace fetch_trace_detail
  by_rows trace_id [] readable within good e = inl (refl, rw (good, e))
  by_rows trace_id (x ∷ xs) readable within good e =
      let (d, p, (q, shown)) = detail_of-Leaves (lower trace_id) x xs readable within in
      inr (omega arith, rw (good, e, p) (_, refl, (q, shown)))

  refused :
      (trace_id : String)
      → (eqb (count trace_id) 32 && all_hex trace_id) ≡ false
      → get_trace c s trace_id ≡ raise bad_trace_id
  unfolding get_trace
  refused trace_id bad = rw bad

  -- With the stored identifiers decodable, one of three holds. The identifier is not 32 hexadecimal digits and
  -- is refused with `bad_trace_id`. Or it is, and no span is of the trace of its lower-case text, and it is
  -- refused with `no_spans`. Or it is, and the answer is for that text and shows, one for one and from the
  -- earliest start to the latest, all the spans of the trace, of which there is one, each with its columns and
  -- with a label of it in the table, or none if there is no label of it.
  pub get_trace_exact :
      (trace_id : String)
      → IsReadableTrace
      → ((¬ IsTraceId trace_id) × (get_trace c s trace_id ≡ raise bad_trace_id))
        ⊎ (IsTraceId trace_id
            × ((id : String) × IsLowered trace_id id
                × ((((r : StoredSpan) → Elem r (c.tables s).spans → ¬ (rstrip r.trace_id ≡ id))
                      × (get_trace c s trace_id ≡ raise (no_spans trace_id)))
                    ⊎ ((rows : List StoredSpan) × IsTrace id rows × Answered trace_id id rows))))
  get_trace_exact trace_id readable =
      let id = lower trace_id in
      let trace = trace_rows-IsTrace id in
      elim (Bool-cases (eqb (count trace_id) 32 && all_hex trace_id)) [
        | inl good ↦ inr (
          (IsTraceId-iff trace_id).0 good,
          (
            id,
            lower-IsLowered trace_id,
            ⊎_elim
                (λ nothing.
                  inl (λ r m e. subst (Elem r) nothing.0 ((trace.0 r).1 (m, e)), nothing.1))
                (λ answered. inr (trace_rows c s id, trace, answered))
                (by_rows trace_id (trace_rows c s id) readable (λ x m. ((trace.0 x).0 m).0) good
                  refl),
          ),
        )
        | inr bad ↦ inl ((λ is. cc ((IsTraceId-iff trace_id).1 is, bad)), refused trace_id bad)
      ]
