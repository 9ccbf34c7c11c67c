-- ===== src/Reassembly/Order.antt =====
-- reassembly.py: the order in which a trace's rows arrive plays no part in the classification.
use distributed_tracing_plat.Prelude.{ℕ, String, ◌↔◌, subst, List, Elem, Elem-map, Elem-map_inv}
use distributed_tracing_plat.Reassembly.{
  SpanRow, Classification, ok, orphan_missing_parent, cycle_rejected, SpanClassification, span_ids,
  trace_classifications,
}
use distributed_tracing_plat.Reassembly.Links.{IsOrphan}
use distributed_tracing_plat.Reassembly.Anchors.{Anchored, root, orphan, child}
use distributed_tracing_plat.Reassembly.Verdicts.{OrphanId, Verdict, classifications_exact}

-- Two lists hold the same rows, in any order.
abbrev pub SameRows : List SpanRow → List SpanRow → Type 0
SameRows xs ys = (r : SpanRow) → Elem r xs ↔ Elem r ys

SameRows-symm : (xs ys : List SpanRow) → SameRows xs ys → SameRows ys xs
SameRows-symm xs ys h r = ((h r).1, (h r).0)

Elem-span_ids :
    (xs ys : List SpanRow)
    → SameRows xs ys
    → (a : String) → Elem a (span_ids xs)
    → Elem a (span_ids ys)
Elem-span_ids xs ys h a m =
    let (r, n, e) = Elem-map_inv (λ r. r.span_id) a xs m in
    subst (λ x. Elem x (span_ids ys)) e (Elem-map (λ r. r.span_id) r ys ((h r).0 n))

IsOrphan-same :
    (xs ys : List SpanRow) (r : SpanRow) → SameRows xs ys → IsOrphan xs r → IsOrphan ys r
IsOrphan-same xs ys r h (set, absent) =
    (set, λ m. absent (Elem-span_ids ys xs (SameRows-symm xs ys h) r.parent_span_id m))

Anchored-same : (xs ys : List SpanRow) {a : String} → SameRows xs ys → Anchored xs a → Anchored ys a
Anchored-same xs ys h (root r m p e) = root r ((h r).0 m) p e
Anchored-same xs ys h (orphan r m p e) = orphan r ((h r).0 m) (IsOrphan-same xs ys r h p) e
Anchored-same xs ys h (child r m (set, here) q e e') =
    child r ((h r).0 m) (set, Elem-span_ids xs ys h r.parent_span_id here) (Anchored-same xs ys h q)
      e e'

OrphanId-same : (xs ys : List SpanRow) (a : String) → SameRows xs ys → OrphanId xs a → OrphanId ys a
OrphanId-same xs ys a h (o, m, p, e) = (o, (h o).0 m, IsOrphan-same xs ys o h p, e)

Verdict-same :
    (xs ys : List SpanRow) (r : SpanRow) (v : Classification)
    → SameRows xs ys
    → Verdict xs r v
    → Verdict ys r v
Verdict-same xs ys r ok h (p, alone) =
    (Anchored-same xs ys h p, λ o. alone (OrphanId-same ys xs r.span_id (SameRows-symm xs ys h) o))
Verdict-same xs ys r orphan_missing_parent h p = IsOrphan-same xs ys r h p
Verdict-same xs ys r cycle_rejected h p = λ q. p (Anchored-same ys xs (SameRows-symm xs ys h) q)

classifications-same :
    (trace_id : String) (xs ys : List SpanRow) (window_start : ℕ) (c : SpanClassification)
    → SameRows xs ys
    → Elem c (trace_classifications trace_id xs window_start)
    → Elem c (trace_classifications trace_id ys window_start)
classifications-same trace_id xs ys window_start c h m =
    let (r, here, verdict, e) = (classifications_exact trace_id xs window_start c).0 m in
    (classifications_exact trace_id ys window_start c).1
      (r, (h r).0 here, Verdict-same xs ys r c.classification h verdict, e)

-- Whatever the order of the rows, the same spans get the same labels.
pub classifications-SameRows :
    (trace_id : String) (xs ys : List SpanRow) (window_start : ℕ) (c : SpanClassification)
    → SameRows xs ys
    → Elem c (trace_classifications trace_id xs window_start)
      ↔ Elem c (trace_classifications trace_id ys window_start)
classifications-SameRows trace_id xs ys window_start c h = (
  classifications-same trace_id xs ys window_start c h,
  classifications-same trace_id ys xs window_start c (SameRows-symm xs ys h),
)
