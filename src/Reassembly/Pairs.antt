-- ===== src/Reassembly/Pairs.antt =====
-- reassembly.py: which pairs `resolved_parent_child_pairs` returns.
use distributed_tracing_plat.Prelude.{
  String, ◌≡◌, ◌≢◌, ◌↔◌, ◌∙◌, inl, inr, ⊎_elim, refl, ap, sym, subst, none, some, Option-cases,
  List, [], ◌∷◌, map, string_eq, Elem, Elem-append, Elem-map, Elem-map_inv, lookup,
  lookup-insert_all, lookup-insert_all_mem, values, Elem-values, vals, group_of_Elem,
  Elem-vals-group, arith,
}
use text.Mathlib.TextEquality.{eq_iff}
use distributed_tracing_plat.Reassembly.{
  SpanRow, by_trace, pairs_in_trace, by_span_id, pairs_of_traces, resolved_parent_child_pairs,
}

-- The second row names the first, a row of its trace, as its parent.
abbrev pub Linked : SpanRow → SpanRow → Type 0
Linked p c = (p.trace_id ≡ c.trace_id) × (c.parent_span_id ≢ "") × (p.span_id ≡ c.parent_span_id)

pairs_in_trace_sound :
    (by_id : List (String × SpanRow)) (rows : List SpanRow) (p c : SpanRow)
    → Elem (p, c) (pairs_in_trace by_id rows)
    → Elem c rows × (c.parent_span_id ≢ "") × (lookup c.parent_span_id by_id ≡ some p)
unfolding pairs_in_trace
pairs_in_trace_sound by_id [] p c m = absurd m
pairs_in_trace_sound by_id (r ∷ rows) p c m =
    ground (arith, pairs_in_trace_sound by_id rows p c, eq_iff r.parent_span_id "")

pairs_in_trace_complete :
    (by_id : List (String × SpanRow)) (rows : List SpanRow) (p c : SpanRow)
    → Elem c rows
    → c.parent_span_id ≢ ""
    → lookup c.parent_span_id by_id ≡ some p
    → Elem (p, c) (pairs_in_trace by_id rows)
unfolding pairs_in_trace
pairs_in_trace_complete by_id [] p c m set found = absurd m
pairs_in_trace_complete by_id (r ∷ rows) p c m set found =
    ground (arith, pairs_in_trace_complete by_id rows p c, eq_iff r.parent_span_id "")

module _ (rows : List SpanRow) where
  abbrev id_entry : SpanRow → String × SpanRow
  id_entry r = (r.span_id, r)

  lookup-by_span_id_sound :
      (a : String) (p : SpanRow)
      → lookup a (by_span_id rows) ≡ some p
      → Elem p rows × (p.span_id ≡ a)
  unfolding lookup
  lookup-by_span_id_sound a p h =
      ⊎_elim
        (λ m.
          let (r, n, e) = Elem-map_inv id_entry (a, p) rows m in
          let same : r ≡ p = ap (λ x. x.1) e in
          (subst (λ x. Elem x rows) same n, ap (λ x. x.span_id) (sym same) ∙ ap (λ x. x.0) e))
        (λ q. cc) (lookup-insert_all a p [] (map id_entry rows) h)

  lookup-by_span_id_found : (q : SpanRow) → Elem q rows → lookup q.span_id (by_span_id rows) ≢ none
  lookup-by_span_id_found q m =
      lookup-insert_all_mem q.span_id [] (map id_entry rows)
        (inl (Elem-map (λ x. x.0) (id_entry q) (map id_entry rows) (Elem-map id_entry q rows m)))

  -- The rows of one trace of the window.
  abbrev trace_entries : List (String × SpanRow)
  trace_entries = map (λ r. (r.trace_id, r)) rows

  trace_of_Elem :
      (k : String) (r : SpanRow) → Elem r (values k trace_entries) → Elem r rows × (r.trace_id ≡ k)
  trace_of_Elem k r m =
      let (q, n, e) =
        Elem-map_inv (λ r. (r.trace_id, r)) (k, r) rows ((Elem-values k r trace_entries).0 m) in
      let same : q ≡ r = ap (λ x. x.1) e in
      (subst (λ x. Elem x rows) same n, ap (λ x. x.trace_id) (sym same) ∙ ap (λ x. x.0) e)

  Elem-of_trace : (r : SpanRow) → Elem r rows → Elem r (values r.trace_id trace_entries)
  Elem-of_trace r m =
      (Elem-values r.trace_id r trace_entries).1 (Elem-map (λ r. (r.trace_id, r)) r rows m)

Elem-pairs_of_traces :
    (traces : List (List SpanRow)) (x : SpanRow × SpanRow)
    → Elem x (pairs_of_traces traces)
      ↔ ((t : List SpanRow) × Elem t traces × Elem x (pairs_in_trace (by_span_id t) t))
unfolding pairs_of_traces
Elem-pairs_of_traces [] x = (λ m. absurd m, λ (t, i, m). absurd i)
Elem-pairs_of_traces (t ∷ traces) x = (
  λ m.
      ⊎_elim (λ i. (t, inl refl, i))
        (λ i. let (u, j, n) = (Elem-pairs_of_traces traces x).0 i in (u, inr j, n))
        ((Elem-append x (pairs_in_trace (by_span_id t) t) (pairs_of_traces traces)).0 m),
  λ (u, j, n). (Elem-append x (pairs_in_trace (by_span_id t) t) (pairs_of_traces traces)).1 (
      ⊎_elim (λ e. inl (subst (λ v. Elem x (pairs_in_trace (by_span_id v) v)) (sym e) n))
        (λ i. inr ((Elem-pairs_of_traces traces x).1 (u, i, n))) j),
)

-- Both rows of a pair are in the window and in one trace, and the second names the first.
pub resolved_pairs_sound :
    (rows : List SpanRow) (p c : SpanRow)
    → Elem (p, c) (resolved_parent_child_pairs rows)
    → Elem p rows × Elem c rows × Linked p c
unfolding resolved_parent_child_pairs
resolved_pairs_sound rows p c m =
    let (t, i, n) = (Elem-pairs_of_traces (vals (by_trace rows)) (p, c)).0 m in
    let (k, _, e) = group_of_Elem (trace_entries rows) t i in
    let (child, set, found) = pairs_in_trace_sound (by_span_id t) t p c n in
    let (parent, named) = lookup-by_span_id_sound t c.parent_span_id p found in
    let (c_here, c_trace) = trace_of_Elem rows k c (subst (Elem c) (sym e) child) in
    let (p_here, p_trace) = trace_of_Elem rows k p (subst (Elem p) (sym e) parent) in
    (p_here, c_here, (p_trace ∙ sym c_trace, set, named))

-- No two rows of the window share their trace and their span identifier.
abbrev pub SpansApart : List SpanRow → Type 0
SpansApart rows =
    (a b : SpanRow)
    → Elem a rows
    → Elem b rows
    → a.trace_id ≡ b.trace_id
    → a.span_id ≡ b.span_id
    → a ≡ b

parent_found :
    (rows t : List SpanRow) (k : String) (p c : SpanRow)
    → SpansApart rows
    → values k (trace_entries rows) ≡ t
    → Elem p t
    → p.span_id ≡ c.parent_span_id
    → lookup c.parent_span_id (by_span_id t) ≡ some p
parent_found rows t k p c apart e m named =
    elim (Option-cases (lookup c.parent_span_id (by_span_id t))) [
      | inl missing ↦ absurd (lookup-by_span_id_found t p m (rw named missing))
      | inr (q, found) ↦
          let (n, named') = lookup-by_span_id_sound t c.parent_span_id q found in
          let (p_here, p_trace) = trace_of_Elem rows k p (subst (Elem p) (sym e) m) in
          let (q_here, q_trace) = trace_of_Elem rows k q (subst (Elem q) (sym e) n) in
          let same = apart q p q_here p_here (q_trace ∙ sym p_trace) (named' ∙ sym named) in
          found ∙ ap some same
    ]

resolved_pairs_complete :
    (rows : List SpanRow) (p c : SpanRow)
    → SpansApart rows
    → Elem p rows
    → Elem c rows
    → Linked p c
    → Elem (p, c) (resolved_parent_child_pairs rows)
unfolding resolved_parent_child_pairs
resolved_pairs_complete rows p c apart p_here c_here (same_trace, set, named) =
    let t : List SpanRow = values c.trace_id (trace_entries rows) in
    let child = Elem-of_trace rows c c_here in
    let parent =
      subst (λ k. Elem p (values k (trace_entries rows))) same_trace
        (Elem-of_trace rows p p_here) in
    let found = parent_found rows t c.trace_id p c apart refl parent named in
    let trace = Elem-vals-group (trace_entries rows) c.trace_id (
      Elem-map (λ x. x.0) (c.trace_id, c) (trace_entries rows)
        (Elem-map (λ r. (r.trace_id, r)) c rows c_here)) in
    (Elem-pairs_of_traces (vals (by_trace rows)) (p, c)).1
      (t, trace, pairs_in_trace_complete (by_span_id t) t p c child set found)

-- If no two rows of the window share their trace and their span identifier, the pairs are exactly
-- those of rows of one trace of which the second names the first as its parent.
pub resolved_pairs_exact :
    (rows : List SpanRow) (p c : SpanRow)
    → SpansApart rows
    → Elem (p, c) (resolved_parent_child_pairs rows) ↔ (Elem p rows × Elem c rows × Linked p c)
resolved_pairs_exact rows p c apart = (
  resolved_pairs_sound rows p c,
  λ (p_here, c_here, linked). resolved_pairs_complete rows p c apart p_here c_here linked,
)
