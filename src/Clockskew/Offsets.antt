-- ===== src/Clockskew/Offsets.antt =====
-- clockskew.py, `estimate_offsets`: the root service keeps the offset zero.
use distributed_tracing_plat.Prelude.{
  ℕ, zero, suc, ◌+◌, true, false, ◌≡◌, ◌≢◌, refl, ap, sym, ◌∙◌, inl, inr, Bool-cases, if_elim,
  String, string_eq, pair_eq, ◌==◌, some, List, [], ◌∷◌, length, contains, lookup, lookup-insert,
  beq_refl, subst, map, length-map, total, total-group, arith,
}
use text.Mathlib.TextEquality.{eq_iff}
use distributed_tracing_plat.Prelude.Int.{ℤ, pos}
use distributed_tracing_plat.Reassembly.{SpanRow, resolved_parent_child_pairs}
use distributed_tracing_plat.Clockskew.{
  Edge, OffsetSearch, reaches, visit_edge, visit_edges, visit_frontier, search_loop, search, start,
  root_offset, offsets_from, gaps_by_edge, gap_entry, estimate_offsets,
}
use distributed_tracing_plat.Clockskew.Rounds.{reaches-new}

module _ (gaps : List (Edge × List ℤ)) (typical_gap : ℤ) (root_service : String) where
  -- The root service is visited, with the offset that it was given.
  abbrev Rooted : OffsetSearch → Type 0
  Rooted s =
      (contains s.visited root_service ≡ true)
      × (lookup root_service s.offsets ≡ some (root_offset root_service))

  -- A new service is not the root.
  other :
      (name : String) (visited : List String)
      → contains visited name ≡ false
      → contains visited root_service ≡ true
      → (name == root_service) ≡ false
  other name visited new old = elim (Bool-cases (name == root_service)) [
    | inl e ↦ absurd (
        ground (
          arith,
          old,
          subst (λ n. contains visited n ≡ false) ((eq_iff name root_service).0 e) new,
        ))
    | inr e ↦ e
  ]

  Rooted-visit_edge :
      (caller : String) (s : OffsetSearch) (e : Edge × List ℤ)
      → Rooted s
      → Rooted (visit_edge gaps typical_gap caller s e)
  unfolding visit_edge contains
  Rooted-visit_edge caller s ((a, callee), edge_gaps) r =
      if_elim Rooted (reaches gaps typical_gap caller s.visited (a, callee)) _ _
        (λ yes.
          let apart =
            other callee s.visited (reaches-new gaps typical_gap caller s.visited (a, callee) yes)
              r.0 in
          (ground (arith, r.0), lookup-insert callee root_service _ s.offsets ∙ rw apart r.1))
        (λ no. r)

  Rooted-visit_edges :
      (caller : String) (s : OffsetSearch) (es : List (Edge × List ℤ))
      → Rooted s
      → Rooted (visit_edges gaps typical_gap caller s es)
  unfolding visit_edges
  Rooted-visit_edges caller s [] r = r
  Rooted-visit_edges caller s (e ∷ es) r =
      Rooted-visit_edges caller (visit_edge gaps typical_gap caller s e) es
        (Rooted-visit_edge caller s e r)

  Rooted-visit_frontier :
      (s : OffsetSearch) (callers : List String)
      → Rooted s
      → Rooted (visit_frontier gaps typical_gap s callers)
  unfolding visit_frontier
  Rooted-visit_frontier s [] r = r
  Rooted-visit_frontier s (c ∷ cs) r =
      Rooted-visit_frontier (visit_edges gaps typical_gap c s gaps) cs
        (Rooted-visit_edges c s gaps r)

  Rooted-search_loop :
      (fuel : ℕ) (frontier : List String) (s : OffsetSearch)
      → Rooted s
      → Rooted (search_loop gaps typical_gap fuel frontier s).1
  unfolding search_loop
  Rooted-search_loop zero frontier s r = r
  Rooted-search_loop (suc fuel) [] s r = r
  Rooted-search_loop (suc fuel) (c ∷ cs) s r =
      Rooted-search_loop fuel _ _
        (Rooted-visit_frontier (record s { next_frontier = [] }) (c ∷ cs) r)

  Rooted-search : Rooted (search gaps typical_gap root_service).1
  unfolding search contains lookup
  Rooted-search =
      Rooted-search_loop (length gaps + 2) (root_service ∷ []) (start root_service)
        (rw (beq_refl root_service) refl, rw (beq_refl root_service) refl)

offsets_from_lem :
    (gaps : List (Edge × List ℤ)) (root_service : String)
    → gaps ≢ []
    → lookup root_service (offsets_from gaps root_service) ≡ some (root_offset root_service)
unfolding offsets_from
offsets_from_lem [] root_service h = absurd (h refl)
offsets_from_lem (e ∷ es) root_service h = (Rooted-search (e ∷ es) _ root_service).1

nil_of_length : {A : Type 0} (xs : List A) → length xs ≡ 0 → xs ≡ []
nil_of_length [] h = refl
nil_of_length (x ∷ xs) h = absurd (omega (arith, h))

-- If a window has a resolved call, the root service has the offset zero with the confidence zero.
pub estimate_offsets-root :
    (rows : List SpanRow) (root_service : String)
    → resolved_parent_child_pairs rows ≢ []
    → lookup root_service (estimate_offsets rows root_service)
      ≡ some (record { service_name = root_service; offset_ns = pos 0; confidence = 0 })
unfolding estimate_offsets
estimate_offsets-root rows root_service h =
    let pairs = resolved_parent_child_pairs rows in
    offsets_from_lem (gaps_by_edge pairs) root_service (λ q. h (
      nil_of_length pairs
        (sym (length-map gap_entry pairs) ∙ sym (total-group (map gap_entry pairs)) ∙ ap total q)))
