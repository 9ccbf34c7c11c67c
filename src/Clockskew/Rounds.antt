-- ===== src/Clockskew/Rounds.antt =====
-- clockskew.py, `estimate_offsets`: the search from the root service ends, and it reaches a service once.
use distributed_tracing_plat.Prelude.{
  ℕ, zero, suc, ◌+◌, ◌≤◌, ◌<◌, true, false, not, ◌≡◌, ◌⊎◌, refl, ap, sym, subst, ◌∙◌, inl, inr,
  ⊎_elim, if_elim, String, string_eq, pair_eq, List, [], ◌∷◌, length, filter, length-filter-le,
  contains, Elem, arith,
}
use text.Mathlib.TextEquality.{eq_iff}
use distributed_tracing_plat.Prelude.Int.{ℤ}
use distributed_tracing_plat.Clockskew.{
  Edge, OffsetSearch, reaches, visit_edge, visit_edges, visit_frontier, search_loop, search, start,
}

-- The edges to services that are not reached.
abbrev unreached : List (Edge × List ℤ) → List String → ℕ
unreached gaps visited = length (filter (λ e. not (contains visited e.0.1)) gaps)

unreached-cons :
    (gaps : List (Edge × List ℤ)) (name : String) (visited : List String)
    → unreached gaps (name ∷ visited) ≤ unreached gaps visited
unfolding filter contains
unreached-cons [] name visited = omega arith
unreached-cons (e ∷ es) name visited = ground (arith, unreached-cons es name visited)

unreached-lt :
    (gaps : List (Edge × List ℤ)) (e : Edge × List ℤ) (visited : List String)
    → Elem e gaps
    → contains visited e.0.1 ≡ false
    → unreached gaps (e.0.1 ∷ visited) < unreached gaps visited
unfolding filter contains
unreached-lt [] e visited m h = absurd m
unreached-lt (g ∷ gs) e visited (inl q) h = ground (
  arith,
  unreached-cons gs e.0.1 visited,
  ap (λ (x : Edge × List ℤ). x.0.1) q,
  eq_iff e.0.1 g.0.1,
)
unreached-lt (g ∷ gs) e visited (inr m) h = ground (arith, unreached-lt gs e visited m h)

module _ (gaps : List (Edge × List ℤ)) (typical_gap : ℤ) where
  -- Progress: nothing was queued and nothing changed, or fewer edges lead to services not reached.
  abbrev Progress : OffsetSearch → OffsetSearch → Type 0
  Progress s t =
      ((t.next_frontier ≡ s.next_frontier) × (t.visited ≡ s.visited))
      ⊎ (unreached gaps t.visited < unreached gaps s.visited)

  Progress-trans : (s t u : OffsetSearch) → Progress s t → Progress t u → Progress s u
  Progress-trans s t u (inl p) (inl q) = inl (q.0 ∙ p.0, q.1 ∙ p.1)
  Progress-trans s t u (inl p) (inr q) =
      inr (subst (λ v. unreached gaps u.visited < unreached gaps v) p.1 q)
  Progress-trans s t u (inr p) (inl q) =
      inr (subst (λ v. unreached gaps v < unreached gaps s.visited) (sym q.1) p)
  Progress-trans s t u (inr p) (inr q) = inr (omega (arith, p, q))

  pub reaches-new :
      (caller : String) (visited : List String) (edge : Edge)
      → reaches gaps typical_gap caller visited edge ≡ true
      → contains visited edge.1 ≡ false
  unfolding reaches
  reaches-new caller visited (a, b) h = ground (arith, h)

  Progress-visit_edge :
      (caller : String) (s : OffsetSearch) (e : Edge × List ℤ)
      → Elem e gaps
      → Progress s (visit_edge gaps typical_gap caller s e)
  unfolding visit_edge
  Progress-visit_edge caller s (edge, edge_gaps) m =
      if_elim (Progress s) (reaches gaps typical_gap caller s.visited edge) _ _
        (λ yes.
          inr (
            unreached-lt gaps (edge, edge_gaps) s.visited m
              (reaches-new caller s.visited edge yes)))
        (λ no. inl (refl, refl))

  Progress-visit_edges :
      (caller : String) (s : OffsetSearch) (es : List (Edge × List ℤ))
      → ((e : Edge × List ℤ) → Elem e es → Elem e gaps)
      → Progress s (visit_edges gaps typical_gap caller s es)
  unfolding visit_edges
  Progress-visit_edges caller s [] h = inl (refl, refl)
  Progress-visit_edges caller s (e ∷ es) h =
      let t : OffsetSearch = visit_edge gaps typical_gap caller s e in
      Progress-trans s t (visit_edges gaps typical_gap caller t es)
        (Progress-visit_edge caller s e (h e (inl refl)))
        (Progress-visit_edges caller (visit_edge gaps typical_gap caller s e) es
          (λ x m. h x (inr m)))

  Progress-visit_frontier :
      (s : OffsetSearch) (callers : List String)
      → Progress s (visit_frontier gaps typical_gap s callers)
  unfolding visit_frontier
  Progress-visit_frontier s [] = inl (refl, refl)
  Progress-visit_frontier s (c ∷ cs) =
      let t : OffsetSearch = visit_edges gaps typical_gap c s gaps in
      Progress-trans s t (visit_frontier gaps typical_gap t cs)
        (Progress-visit_edges c s gaps (λ e m. m))
        (Progress-visit_frontier (visit_edges gaps typical_gap c s gaps) cs)

  search_loop-nil : (fuel : ℕ) (s : OffsetSearch) → (search_loop gaps typical_gap fuel [] s).0 ≡ []
  unfolding search_loop
  search_loop-nil zero s = refl
  search_loop-nil (suc fuel) s = refl

  search_loop-drains :
      (fuel : ℕ) (frontier : List String) (s : OffsetSearch)
      → unreached gaps s.visited + 1 < fuel
      → (search_loop gaps typical_gap fuel frontier s).0 ≡ []
  unfolding search_loop
  search_loop-drains zero frontier s h = absurd (omega arith)
  search_loop-drains (suc fuel) [] s h = refl
  search_loop-drains (suc fuel) (c ∷ cs) s h =
      let before : OffsetSearch = record s { next_frontier = [] } in
      let next : OffsetSearch = visit_frontier gaps typical_gap before (c ∷ cs) in
      ⊎_elim
        (λ q.
          subst (λ frontier. (search_loop gaps typical_gap fuel frontier next).0 ≡ []) (sym q.0)
            (search_loop-nil fuel next))
        (λ q. search_loop-drains fuel next.next_frontier next (omega (arith, q)))
        (Progress-visit_frontier before (c ∷ cs))

  -- The search from the root service ends: its rounds are enough to leave no frontier.
  pub search-drains : (root_service : String) → (search gaps typical_gap root_service).0 ≡ []
  unfolding search
  search-drains root_service =
      search_loop-drains (length gaps + 2) (root_service ∷ []) (start root_service) (
        omega (
          arith,
          length-filter-le (λ (e : Edge × List ℤ). not (contains (root_service ∷ []) e.0.1)) gaps,
        ))
