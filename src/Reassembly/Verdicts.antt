-- ===== src/Reassembly/Verdicts.antt =====
-- reassembly.py: what `_reassemble_trace` says of each span, against an independent description.
use distributed_tracing_plat.Prelude.{
  ℕ, ◌+◌, String, ◌≡◌, ◌↔◌, ◌⊎◌, inl, inr, ⊎_elim, refl, ap, subst, List, ◌++◌, map, Bool, true,
  false, not, ◌&&◌, string_eq, Bool-cases, All, All-of_Elem, Elem, Elem-append, Elem-map,
  Elem-map_inv, Elem-filter, contains, contains_iff, contains-map-filter, Distinct, length,
  length-append, length-map, one_of, length-split, arith,
}
use distributed_tracing_plat.Reassembly.{
  SpanRow, Classification, ok, orphan_missing_parent, cycle_rejected, SpanClassification, span_ids,
  links, visited_ids, cycle_rows, ok_rows, classify, trace_classifications,
}
use distributed_tracing_plat.Reassembly.Links.{IsOrphan, is_orphan, Elem-orphans, links-eq-filters}
use distributed_tracing_plat.Reassembly.Anchors.{Anchored, orphan, visited_ids_iff}

-- Some orphan has this span identifier.
abbrev pub OrphanId : List SpanRow → String → Type 0
OrphanId rows a = (o : SpanRow) × Elem o rows × IsOrphan rows o × (o.span_id ≡ a)

-- What each label says of a row.
abbrev pub Verdict : List SpanRow → SpanRow → Classification → Type 0
Verdict rows r ok = Anchored rows r.span_id × ¬ OrphanId rows r.span_id
Verdict rows r orphan_missing_parent = IsOrphan rows r
Verdict rows r cycle_rejected = ¬ Anchored rows r.span_id

module _ (rows : List SpanRow) where
  orphan_ids_iff :
      (a : String) → (contains (span_ids (links rows).orphans) a ≡ true) ↔ OrphanId rows a
  orphan_ids_iff a = (
    λ h.
        let (o, m, e) =
          Elem-map_inv (λ r. r.span_id) a (links rows).orphans
            ((contains_iff (span_ids (links rows).orphans) a).0 h) in
        let (here, is_orphan) = (Elem-orphans rows o).0 m in (o, here, is_orphan, e),
    λ (o, here, is_orphan, e). (contains_iff (span_ids (links rows).orphans) a).1 (
        subst (λ x. Elem x (span_ids (links rows).orphans)) e
          (Elem-map (λ r. r.span_id) o (links rows).orphans
            ((Elem-orphans rows o).1 (here, is_orphan)))),
  )

  Anchored_of_OrphanId : (a : String) → OrphanId rows a → Anchored rows a
  Anchored_of_OrphanId a (o, here, is_orphan, e) = orphan o here is_orphan e

  abbrev cycle_test : SpanRow → Bool
  cycle_test r =
      not (contains (visited_ids rows) r.span_id)
      && not (contains (span_ids (links rows).orphans) r.span_id)

  pub Elem-cycle_rows :
      (r : SpanRow) → Elem r (cycle_rows rows) ↔ (Elem r rows × ¬ Anchored rows r.span_id)
  unfolding cycle_rows
  Elem-cycle_rows r = ground (
    arith,
    Elem-filter cycle_test r rows,
    visited_ids_iff rows r.span_id,
    orphan_ids_iff r.span_id,
    Anchored_of_OrphanId r.span_id,
  )

  cycle_ids_iff :
      (r : SpanRow)
      → Elem r rows
      → (contains (span_ids (cycle_rows rows)) r.span_id ≡ true) ↔ (¬ Anchored rows r.span_id)
  cycle_ids_iff r m = (
    λ h anchored.
        let (q, n, e) =
          Elem-map_inv (λ r. r.span_id) r.span_id (cycle_rows rows)
            ((contains_iff (span_ids (cycle_rows rows)) r.span_id).0 h) in
        ((Elem-cycle_rows q).0 n).1 (rw e anchored),
    λ h.
        (contains_iff (span_ids (cycle_rows rows)) r.span_id).1
          (Elem-map (λ r. r.span_id) r (cycle_rows rows) ((Elem-cycle_rows r).1 (m, h))),
  )

  abbrev ok_test : SpanRow → Bool
  ok_test r =
      not (contains (span_ids (links rows).orphans) r.span_id)
      && not (contains (span_ids (cycle_rows rows)) r.span_id)

  pub not-Anchored_of_unvisited :
      (a : String) → contains (visited_ids rows) a ≡ false → ¬ Anchored rows a
  not-Anchored_of_unvisited a h anchored = ground (arith, (visited_ids_iff rows a).1 anchored)

  ok_test_of_Verdict : (r : SpanRow) → Elem r rows → Verdict rows r ok → ok_test r ≡ true
  ok_test_of_Verdict r m (anchored, alone) = ground (
    arith,
    (orphan_ids_iff r.span_id).0,
    λ (h : contains (span_ids (cycle_rows rows)) r.span_id ≡ true).
        (cycle_ids_iff r m).0 h anchored,
  )

  pub Elem-ok_rows : (r : SpanRow) → Elem r (ok_rows rows) ↔ (Elem r rows × Verdict rows r ok)
  unfolding ok_rows
  Elem-ok_rows r = (
    λ m.
        let (here, test) = (Elem-filter ok_test r rows).0 m in
        elim (Bool-cases (contains (visited_ids rows) r.span_id)) [
          | inl v ↦ (
            here,
            (
              (visited_ids_iff rows r.span_id).0 v,
              λ o. ground (arith, (orphan_ids_iff r.span_id).1 o),
            ),
          )
          | inr v ↦
              absurd
                (ground (arith, (cycle_ids_iff r here).1 (not-Anchored_of_unvisited r.span_id v)))
        ],
    λ (here, verdict). (Elem-filter ok_test r rows).1 (here, ok_test_of_Verdict r here verdict),
  )

-- A row of the trace fits the label v, and c says so.
abbrev pub Fits : String → List SpanRow → ℕ → SpanClassification → Classification → Type 0
Fits trace_id rows window_start c v =
    (r : SpanRow) × Elem r rows × Verdict rows r v × (classify trace_id window_start v r ≡ c)

module _ (trace_id : String) (rows : List SpanRow) (window_start : ℕ) (c : SpanClassification) where
  Elem-labelled :
      (v : Classification) (xs : List SpanRow)
      → ((r : SpanRow) → Elem r xs ↔ (Elem r rows × Verdict rows r v))
      → Elem c (map (classify trace_id window_start v) xs) ↔ Fits trace_id rows window_start c v
  Elem-labelled v xs h = (
    λ m.
        let (r, n, e) = Elem-map_inv (classify trace_id window_start v) c xs m in
        let (here, verdict) = (h r).0 n in (r, here, verdict, e),
    λ (r, here, verdict, e).
        subst (λ x. Elem x (map (classify trace_id window_start v) xs)) e
          (Elem-map (classify trace_id window_start v) r xs ((h r).1 (here, verdict))),
  )

  Elem-classifications : Elem c (trace_classifications trace_id rows window_start) ↔ (
      Fits trace_id rows window_start c orphan_missing_parent
      ⊎ (Fits trace_id rows window_start c cycle_rejected ⊎ Fits trace_id rows window_start c ok))
  unfolding trace_classifications
  Elem-classifications =
      let label = λ (v : Classification). map (classify trace_id window_start v) in
      ground (
        arith,
        Elem-append c (label orphan_missing_parent (links rows).orphans)
            (label cycle_rejected (cycle_rows rows) ++ label ok (ok_rows rows)),
        Elem-append c (label cycle_rejected (cycle_rows rows)) (label ok (ok_rows rows)),
        Elem-labelled orphan_missing_parent (links rows).orphans (Elem-orphans rows),
        Elem-labelled cycle_rejected (cycle_rows rows) (Elem-cycle_rows rows),
        Elem-labelled ok (ok_rows rows) (Elem-ok_rows rows),
      )

  Fits-own :
      (v : Classification)
      → Fits trace_id rows window_start c v
      → Fits trace_id rows window_start c c.classification
  Fits-own v (r, here, verdict, e) =
      let same : v ≡ c.classification = ap (λ x. x.classification) e in
      subst (Fits trace_id rows window_start c) same (r, here, verdict, e)

  Elem-of_Fits :
      (v : Classification)
      → Fits trace_id rows window_start c v
      → Elem c (trace_classifications trace_id rows window_start)
  Elem-of_Fits orphan_missing_parent f = Elem-classifications.1 (inl f)
  Elem-of_Fits cycle_rejected f = Elem-classifications.1 (inr (inl f))
  Elem-of_Fits ok f = Elem-classifications.1 (inr (inr f))

-- The labelled list holds, for each row of the trace, exactly the labels that fit the row: the
-- orphan label if its parent is set and stands in no row; the cycle label if the span hangs on no
-- root and no orphan; the ok label if it hangs on one and no orphan has its identifier.
pub classifications_exact :
    (trace_id : String) (rows : List SpanRow) (window_start : ℕ) (c : SpanClassification)
    → Elem c (trace_classifications trace_id rows window_start) ↔ (
        (r : SpanRow) × Elem r rows
        × Verdict rows r c.classification
        × (classify trace_id window_start c.classification r ≡ c))
classifications_exact trace_id rows window_start c = (
  λ m.
      let own = Fits-own trace_id rows window_start c in
      ⊎_elim (own orphan_missing_parent) (⊎_elim (own cycle_rejected) (own ok))
        ((Elem-classifications trace_id rows window_start c).0 m),
  Elem-of_Fits trace_id rows window_start c c.classification,
)

-- No row fits two labels.
pub Verdict-unique :
    (rows : List SpanRow) (r : SpanRow) (v w : Classification)
    → Elem r rows
    → Verdict rows r v
    → Verdict rows r w
    → v ≡ w
Verdict-unique rows r ok ok m p q = refl
Verdict-unique rows r ok orphan_missing_parent m p q = absurd (p.1 (r, m, q, refl))
Verdict-unique rows r ok cycle_rejected m p q = absurd (q p.0)
Verdict-unique rows r orphan_missing_parent ok m p q = absurd (q.1 (r, m, p, refl))
Verdict-unique rows r orphan_missing_parent orphan_missing_parent m p q = refl
Verdict-unique rows r orphan_missing_parent cycle_rejected m p q = absurd (q (orphan r m p refl))
Verdict-unique rows r cycle_rejected ok m p q = absurd (p q.0)
Verdict-unique rows r cycle_rejected orphan_missing_parent m p q = absurd (p (orphan r m q refl))
Verdict-unique rows r cycle_rejected cycle_rejected m p q = refl

one_label_of_tests :
    (orphaned orphan_id visited cycle_id : Bool)
    → orphan_id ≡ orphaned
    → cycle_id ≡ (not visited && not orphan_id)
    → one_of orphaned (not visited && not orphan_id) (not orphan_id && not cycle_id) ≡ true
one_label_of_tests orphaned orphan_id visited cycle_id p q = ground arith

module _ (rows : List SpanRow) (d : Distinct (span_ids rows)) where
  orphan_id_test :
      (r : SpanRow)
      → Elem r rows
      → contains (span_ids (links rows).orphans) r.span_id ≡ is_orphan (span_ids rows) r
  orphan_id_test r m =
      rw (links-eq-filters rows)
        (contains-map-filter (λ r. r.span_id) (is_orphan (span_ids rows)) rows r d m)

  cycle_id_test :
      (r : SpanRow)
      → Elem r rows
      → contains (span_ids (cycle_rows rows)) r.span_id ≡ cycle_test rows r
  unfolding cycle_rows
  cycle_id_test r m = contains-map-filter (λ r. r.span_id) (cycle_test rows) rows r d m

  one_label :
      All
        (λ r. one_of (is_orphan (span_ids rows) r) (cycle_test rows r) (ok_test rows r) ≡ true)
        rows
  one_label =
      All-of_Elem
        (λ r. one_of (is_orphan (span_ids rows) r) (cycle_test rows r) (ok_test rows r) ≡ true) rows
        (λ r m. one_label_of_tests _ _ _ _ (orphan_id_test r m) (cycle_id_test r m))

  length-labelled :
      length (links rows).orphans + length (cycle_rows rows) + length (ok_rows rows) ≡ length rows
  unfolding cycle_rows ok_rows
  length-labelled = omega (
    arith,
    ap (λ l. length l.orphans) (links-eq-filters rows),
    length-split (is_orphan (span_ids rows)) (cycle_test rows) (ok_test rows) rows one_label,
  )

-- If no span identifier stands twice in the trace, exactly one label is given for each row.
pub length-classifications :
    (trace_id : String) (rows : List SpanRow) (window_start : ℕ)
    → Distinct (span_ids rows)
    → length (trace_classifications trace_id rows window_start) ≡ length rows
unfolding trace_classifications
length-classifications trace_id rows window_start d =
    let label = λ (v : Classification). map (classify trace_id window_start v) in
    omega (
      arith,
      length-append (label orphan_missing_parent (links rows).orphans)
          (label cycle_rejected (cycle_rows rows) ++ label ok (ok_rows rows)),
      length-append (label cycle_rejected (cycle_rows rows)) (label ok (ok_rows rows)),
      length-map (classify trace_id window_start orphan_missing_parent) (links rows).orphans,
      length-map (classify trace_id window_start cycle_rejected) (cycle_rows rows),
      length-map (classify trace_id window_start ok) (ok_rows rows),
      length-labelled rows d,
    )
