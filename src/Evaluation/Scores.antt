-- ===== src/Evaluation/Scores.antt =====
-- eval.py, `compute_metrics`: what is scored, and that no score is above its total.
use distributed_tracing_plat.Prelude.{
  ℕ, ◌+◌, ◌≤◌, Bool, true, false, not, ◌≡◌, refl, inl, inr, String, List, [], ◌∷◌, length, filter,
  length-filter-le, filter-append, length-append, ap, ◌∙◌, contains, string_eq, pair_eq, Bool-cases,
  if_elim, arith,
}
use distributed_tracing_plat.Prelude.Int.{ℤ}
use distributed_tracing_plat.Prelude.Floats.{Floats}
use distributed_tracing_plat.Evaluation.{
  TruthSpan, SpanId, Tally, skipped, parent_id, bump, tally_span, tally_spans, no_tally, EvalResult,
  compute_metrics,
}

abbrev Sane : Tally → Type 0
Sane t = (t.attachment_correct ≤ t.attachment_total) × (t.orphan_correct ≤ t.orphan_total)

bump-le : (b : Bool) (n m : ℕ) → n ≤ m → bump b n ≤ m + 1
bump-le true n m h = omega arith
bump-le false n m h = omega arith

length-filter-nil : {A : Type 0} (p : A → Bool) → length (filter p []) ≡ 0
unfolding filter
length-filter-nil p = refl

length-filter-cons :
    {A : Type 0} (p : A → Bool) (x : A) (xs : List A)
    → length (filter p (x ∷ xs)) ≡ length (filter p (x ∷ [])) + length (filter p xs)
length-filter-cons p x xs =
    ap length (filter-append p (x ∷ []) xs) ∙ length-append (filter p (x ∷ [])) (filter p xs)

module _ (landed : List SpanId) (classifications : List (SpanId × String)) where
  Sane-tally_span :
      (t : Tally) (s : TruthSpan) → Sane t → Sane (tally_span landed classifications t s)
  unfolding tally_span
  Sane-tally_span t s h =
      if_elim Sane (skipped landed s) _ _ (λ _. h)
        (λ _.
          if_elim Sane (contains landed (parent_id s)) _ _ (λ _. (bump-le _ _ _ h.0, h.1))
            (λ _. (h.0, bump-le _ _ _ h.1)))

  Sane-tally_spans :
      (t : Tally) (ss : List TruthSpan) → Sane t → Sane (tally_spans landed classifications t ss)
  unfolding tally_spans
  Sane-tally_spans t [] h = h
  Sane-tally_spans t (s ∷ ss) h =
      Sane-tally_spans (tally_span landed classifications t s) ss (Sane-tally_span t s h)

  abbrev scored : Tally → ℕ
  scored t = t.attachment_total + t.orphan_total

  scored-tally_span :
      (t : Tally) (s : TruthSpan)
      → scored (tally_span landed classifications t s)
        ≡ scored t + length (filter (λ x. not (skipped landed x)) (s ∷ []))
  unfolding tally_span filter
  scored-tally_span t s = elim (Bool-cases (skipped landed s)) [
    | inl e ↦ rw e (omega arith)
    | inr e ↦ elim (Bool-cases (contains landed (parent_id s))) [
      | inl p ↦ rw (e, p) (omega arith)
      | inr p ↦ rw (e, p) (omega arith)
    ]
  ]

  scored-tally_spans :
      (t : Tally) (ss : List TruthSpan)
      → scored (tally_spans landed classifications t ss)
        ≡ scored t + length (filter (λ x. not (skipped landed x)) ss)
  unfolding tally_spans
  scored-tally_spans t [] = omega (arith, length-filter-nil (λ x. not (skipped landed x)))
  scored-tally_spans t (s ∷ ss) = omega (
    arith,
    scored-tally_spans (tally_span landed classifications t s) ss,
    scored-tally_span t s,
    length-filter-cons (λ x. not (skipped landed x)) s ss,
  )

module _ (F : Type 0) ⦃f : Floats F⦄ where
  -- As many spans are scored, as attachments or as orphans, as landed spans of the ground truth have a
  -- parent; of neither are there more correct ones than there are in all, and no more edges are true
  -- positives than were found.
  pub compute_metrics-scores :
      (run_id : String) (gt_spans : List TruthSpan) (landed : List SpanId)
      (classifications : List (SpanId × String)) (true_edges found_edges : List (String × String))
      (true_offsets detected_offsets : List (String × ℤ))
      → let r : EvalResult F =
          compute_metrics run_id gt_spans landed classifications true_edges found_edges true_offsets
            detected_offsets in
        (r.attachment_denominator + r.orphan_denominator
          ≡ length (filter (λ s. not (skipped landed s)) gt_spans))
        × (r.attachment_correct ≤ r.attachment_denominator)
        × (r.orphan_correct ≤ r.orphan_denominator)
        × (r.edge_true_positive_count ≤ r.found_edge_count)
  unfolding compute_metrics
  compute_metrics-scores run_id gt_spans landed classifications true_edges found_edges true_offsets
        detected_offsets =
      let sane =
        Sane-tally_spans landed classifications no_tally gt_spans (omega arith, omega arith) in
      (
        omega (arith, scored-tally_spans landed classifications no_tally gt_spans),
        sane.0,
        sane.1,
        length-filter-le _ found_edges,
      )
