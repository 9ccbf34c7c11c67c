-- ===== src/Pipeline/Incidents.antt =====
-- main.py, `run_suppression`: the incidents that are written account for the detections of the lookback.
use distributed_tracing_plat.Prelude.{
  ℕ, ◌≤◌, ◌≡◌, ◌∙◌, refl, ap, ⊎_elim, String, List, [], ◌∷◌, sum_of, length, length-filter-le,
  arith,
}
use distributed_tracing_plat.Prelude.Floats.{Floats}
use distributed_tracing_plat.Detectors.{Detection}
use distributed_tracing_plat.Suppression.{GroupedIncident, group_detections, suppress_propagated}
use distributed_tracing_plat.Suppression.Runs.{counts, counts-group_detections}
use distributed_tracing_plat.Suppression.Outcomes.{
  Pairwise, IdsApart, Outcome, suppress_propagated_sound,
}
use distributed_tracing_plat.Pipeline.{run_suppression}

module _ {F : Type 0} ⦃f : Floats F⦄ where
  counts-Pairwise :
      (R : GroupedIncident F → GroupedIncident F → Type 0) (is outs : List (GroupedIncident F))
      → ((i out : GroupedIncident F) → R i out → out.window_count ≡ i.window_count)
      → Pairwise R is outs
      → counts outs ≡ counts is
  unfolding sum_of
  counts-Pairwise R [] [] h p = refl
  counts-Pairwise R [] (out ∷ outs) h p = absurd p
  counts-Pairwise R (i ∷ is) [] h p = absurd p
  counts-Pairwise R (i ∷ is) (out ∷ outs) h p =
      omega (arith, h i out p.0, counts-Pairwise R is outs h p.1)

  -- If the incidents of the lookback have different identifiers, the window counts of the incidents
  -- that `run_suppression` writes, derived ones included, add up to the number of detections of the
  -- lookback; and no more detections are suppressed than there are new ones.
  pub counts-run_suppression :
      (window_start window_length : ℕ) (recent : List (Detection F))
      (edges : List (String × String)) (new_detections : List (Detection F))
      → IdsApart (group_detections recent window_length) edges
      → let result = run_suppression window_start window_length recent edges new_detections in
        (counts result.incidents ≡ length recent)
        × (result.suppressed_count ≤ length new_detections)
  unfolding run_suppression
  counts-run_suppression window_start window_length recent edges new_detections apart =
      let grouped = group_detections recent window_length in
      (
        counts-Pairwise (Outcome grouped edges) grouped (suppress_propagated grouped edges)
              (λ i out o.
                ⊎_elim (λ q. ap (λ (x : GroupedIncident F). x.window_count) q)
                  (λ (r, m, q, x). ap (λ (x : GroupedIncident F). x.window_count) q) o)
              (suppress_propagated_sound grouped edges apart)
            ∙ counts-group_detections recent window_length,
        length-filter-le _ new_detections,
      )
