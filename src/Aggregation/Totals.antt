-- ===== src/Aggregation/Totals.antt =====
-- service_agg.py and topology_agg.py: the roll-ups count every call and every error once.
use distributed_tracing_plat.Prelude.{
  sum_of, ℕ, ◌+◌, string_eq, pair_eq, Eq, ◌≡◌, refl, ap, ◌∙◌, List, [], ◌∷◌, map, length, filter,
  group, group_from, push, String, Bool-cases, ◌==◌, inl, inr, ◌++◌, filter-append, length-append,
  length-map, arith,
}
use mathlib.Core.List.{map-map}
use distributed_tracing_plat.Reassembly.{SpanRow, resolved_parent_child_pairs}
use distributed_tracing_plat.Aggregation.{
  is_error, error_count, ServiceStats, service_stats, aggregate_services, ServiceEdge, edge_stats,
  edge_entry, aggregate_edges,
}

sum_of-map :
    {A B : Type 0} (f : B → ℕ) (g : A → B) (xs : List A)
    → sum_of f (map g xs) ≡ sum_of (λ x. f (g x)) xs
unfolding sum_of
sum_of-map f g [] = refl
sum_of-map f g (x ∷ xs) = omega (arith, sum_of-map f g xs)

error_count-append :
    (xs ys : List SpanRow) → error_count (xs ++ ys) ≡ error_count xs + error_count ys
unfolding error_count
error_count-append xs ys =
    ap length (filter-append is_error xs ys)
    ∙ length-append (filter is_error xs) (filter is_error ys)

map-snd-row :
    (rows : List SpanRow)
    → map (λ (p : String × SpanRow). p.1) (map (λ r. (r.service_name, r)) rows) ≡ rows
map-snd-row [] = refl
map-snd-row (r ∷ rows) = ap (λ rs. r ∷ rs) (map-snd-row rows)

-- A measure of lists that adds up over `++`.
module _ {K : Type 0} ⦃e : Eq K⦄ (f : List SpanRow → ℕ)
    (f-append : (xs ys : List SpanRow) → f (xs ++ ys) ≡ f xs + f ys) where
  sum_of-push :
      (k : K) (r : SpanRow) (d : List (K × List SpanRow))
      → sum_of (λ x. f x.1) (push k r d) ≡ sum_of (λ x. f x.1) d + f (r ∷ [])
  unfolding sum_of push
  sum_of-push k r [] = omega arith
  sum_of-push k r ((j, rs) ∷ d) = elim (Bool-cases (j == k)) [
    | inl same ↦ rw same (omega (arith, f-append rs (r ∷ [])))
    | inr other ↦ rw other (omega (arith, sum_of-push k r d))
  ]

  sum_of-group_from :
      (d : List (K × List SpanRow)) (ps : List (K × SpanRow))
      → f [] ≡ 0
      → sum_of (λ x. f x.1) (group_from d ps) ≡ sum_of (λ x. f x.1) d + f (map (λ p. p.1) ps)
  unfolding group_from
  sum_of-group_from d [] z = omega (arith, z)
  sum_of-group_from d ((k, r) ∷ ps) z = omega (
    arith,
    sum_of-group_from (push k r d) ps z,
    sum_of-push k r d,
    f-append (r ∷ []) (map (λ p. p.1) ps),
  )

  sum_of-group :
      (ps : List (K × SpanRow)) → f [] ≡ 0 → sum_of (λ x. f x.1) (group ps) ≡ f (map (λ p. p.1) ps)
  unfolding group sum_of
  sum_of-group ps z = omega (arith, sum_of-group_from [] ps z)

-- The call counts of the services of a window add up to the number of its spans, and their error
-- counts to the number of the spans whose status is an error.
pub service_totals :
    (rows : List SpanRow) (window_start : ℕ)
    → (sum_of (λ (s : ServiceStats). s.call_count) (aggregate_services rows window_start)
        ≡ length rows)
      × (sum_of (λ (s : ServiceStats). s.error_count) (aggregate_services rows window_start)
          ≡ length (filter is_error rows))
unfolding aggregate_services service_stats error_count filter
service_totals rows window_start =
    let ps = map (λ (r : SpanRow). (r.service_name, r)) rows in
    let same : map (λ (p : String × SpanRow). p.1) ps ≡ rows = map-snd-row rows in
    (
      sum_of-map (λ (s : ServiceStats). s.call_count) (service_stats window_start) (group ps)
          ∙ sum_of-group length length-append ps refl
          ∙ ap length same,
      sum_of-map (λ (s : ServiceStats). s.error_count) (service_stats window_start) (group ps)
          ∙ sum_of-group error_count error_count-append ps refl
          ∙ ap error_count same,
    )

-- The call counts of the edges of a window add up to the number of its resolved calls, and their error
-- counts to the number of those whose child ended in an error.
pub edge_totals :
    (rows : List SpanRow) (window_start : ℕ)
    → let pairs = resolved_parent_child_pairs rows in
      (sum_of (λ (s : ServiceEdge). s.call_count) (aggregate_edges rows window_start)
        ≡ length pairs)
      × (sum_of (λ (s : ServiceEdge). s.error_count) (aggregate_edges rows window_start)
          ≡ length (filter is_error (map (λ p. p.1) pairs)))
unfolding aggregate_edges edge_stats error_count filter
edge_totals rows window_start =
    let pairs = resolved_parent_child_pairs rows in
    let ps = map edge_entry pairs in
    let same : map (λ (p : (String × String) × SpanRow). p.1) ps ≡ map (λ p. p.1) pairs =
      map-map (λ (p : (String × String) × SpanRow). p.1) edge_entry pairs in
    (
      sum_of-map (λ (s : ServiceEdge). s.call_count) (edge_stats window_start) (group ps)
          ∙ sum_of-group length length-append ps refl
          ∙ ap length same
          ∙ length-map (λ p. p.1) pairs,
      sum_of-map (λ (s : ServiceEdge). s.error_count) (edge_stats window_start) (group ps)
          ∙ sum_of-group error_count error_count-append ps refl
          ∙ ap error_count same,
    )
