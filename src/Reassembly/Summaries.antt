-- ===== src/Reassembly/Summaries.antt =====
-- reassembly.py: when a trace is complete, and which root its summary names.
use distributed_tracing_plat.Prelude.{
  ℕ, ◌≤◌, String, ◌≡◌, ◌↔◌, ◌∙◌, ◌⊎◌, inl, inr, ⊎_elim, refl, ap, sym, subst, Option, none, some,
  List, [], ◌∷◌, true, Bool-cases, filter, Elem, All, All-Elem, Option-cases, contains,
  nil_of_no_Elem, string_eq, arith,
}
use distributed_tracing_plat.Reassembly.{
  SpanRow, ok, links, is_root, visited_ids, cycle_rows, earlier, earliest, canonical_root,
  incompleteness, is_nothing, trace_summary,
}
use distributed_tracing_plat.Reassembly.Links.{IsRoot, Elem-roots, Elem-orphans, links-eq-filters}
use distributed_tracing_plat.Reassembly.Anchors.{Anchored, visited_ids_iff}
use distributed_tracing_plat.Reassembly.Order.{SameRows}
use text.Mathlib.TextEquality.{eq_iff}
use mathlib.Core.Option.{some-injective}
use distributed_tracing_plat.Reassembly.Verdicts.{
  Verdict, Elem-cycle_rows, not-Anchored_of_unvisited,
}

-- One row of the trace has no parent link.
abbrev pub OneRoot : List SpanRow → Type 0
OneRoot rows = (r : SpanRow) × (filter is_root rows ≡ r ∷ [])

AllOk : List SpanRow → Type 0
AllOk rows = (r : SpanRow) → Elem r rows → Verdict rows r ok

incompleteness-nothing :
    (roots orphans cycles : List SpanRow)
    → is_nothing (incompleteness roots orphans cycles) ≡ true
    → ((r : SpanRow) × (roots ≡ r ∷ [])) × (orphans ≡ []) × (cycles ≡ [])
unfolding incompleteness is_nothing
incompleteness-nothing [] o c h = cc
incompleteness-nothing (r ∷ s ∷ roots) o c h = cc
incompleteness-nothing (r ∷ []) (x ∷ o) c h = cc
incompleteness-nothing (r ∷ []) [] (x ∷ c) h = cc
incompleteness-nothing (r ∷ []) [] [] h = ((r, refl), refl, refl)

nothing_lem : (r : SpanRow) → is_nothing (incompleteness (r ∷ []) [] []) ≡ true
unfolding incompleteness is_nothing
nothing_lem r = refl

module _ (rows : List SpanRow) where
  AllOk-of_nil : (links rows).orphans ≡ [] → cycle_rows rows ≡ [] → AllOk rows
  unfolding AllOk
  AllOk-of_nil no_orphans no_cycles r m =
      (anchored, λ (o, here, p, e). subst (Elem o) no_orphans ((Elem-orphans rows o).1 (here, p)))
    where
      anchored : Anchored rows r.span_id
      anchored = elim (Bool-cases (contains (visited_ids rows) r.span_id)) [
        | inl v ↦ (visited_ids_iff rows r.span_id).0 v
        | inr v ↦ absurd (
            subst (Elem r) no_cycles
              ((Elem-cycle_rows rows r).1 (m, not-Anchored_of_unvisited rows r.span_id v)))
      ]

  nil_of_AllOk : AllOk rows → ((links rows).orphans ≡ []) × (cycle_rows rows ≡ [])
  unfolding AllOk
  nil_of_AllOk all = (
    nil_of_no_Elem (links rows).orphans
        (λ o m. let (here, p) = (Elem-orphans rows o).0 m in (all o here).1 (o, here, p, refl)),
    nil_of_no_Elem (cycle_rows rows)
        (λ r m. let (here, p) = (Elem-cycle_rows rows r).0 m in p (all r here).0),
  )

roots-eq-filter : (rows : List SpanRow) → (links rows).roots ≡ filter is_root rows
roots-eq-filter rows = ap (λ l. l.roots) (links-eq-filters rows)

-- A trace is reported complete exactly when one row is a root and every row fits the label ok: it
-- hangs on a root or an orphan, and no orphan has its identifier.
pub complete_iff :
    (trace_id : String) (rows : List SpanRow) (window_start : ℕ)
    → ((trace_summary trace_id rows window_start).complete ≡ true)
      ↔ (OneRoot rows × ((r : SpanRow) → Elem r rows → Verdict rows r ok))
unfolding trace_summary AllOk
complete_iff trace_id rows window_start = (
  λ h.
      let ((r, one), no_orphans, no_cycles) =
        incompleteness-nothing (links rows).roots (links rows).orphans (cycle_rows rows) h in
      ((r, rw (← roots-eq-filter rows) one), AllOk-of_nil rows no_orphans no_cycles),
  λ h.
      let (no_orphans, no_cycles) = nil_of_AllOk rows h.1 in
      let one : (links rows).roots ≡ h.0.0 ∷ [] = roots-eq-filter rows ∙ h.0.1 in
      rw (one, no_orphans, no_cycles) (nothing_lem h.0.0),
)

earlier-le :
    (a b : SpanRow)
    → ((earlier a b).start_time_unix_nano ≤ a.start_time_unix_nano)
      × ((earlier a b).start_time_unix_nano ≤ b.start_time_unix_nano)
unfolding earlier
earlier-le a b = ground arith

earlier-eq : (a b : SpanRow) → (a ≡ earlier a b) ⊎ (b ≡ earlier a b)
unfolding earlier
earlier-eq a b = ground arith

earliest-le :
    (best : SpanRow) (rows : List SpanRow)
    → All (λ r. (earliest best rows).start_time_unix_nano ≤ r.start_time_unix_nano) (best ∷ rows)
unfolding earliest
earliest-le best [] = (omega arith, tt)
earliest-le best (r ∷ rows) =
    let (le, rest) = earliest-le (earlier best r) rows in
    let (le_best, le_r) = earlier-le best r in (omega arith, (omega arith, rest))

Elem-earliest : (best : SpanRow) (rows : List SpanRow) → Elem (earliest best rows) (best ∷ rows)
unfolding earliest
Elem-earliest best [] = inl refl
Elem-earliest best (r ∷ rows) =
    ⊎_elim (λ e. ⊎_elim (λ q. inl (q ∙ e)) (λ q. inr (inl (q ∙ e))) (earlier-eq best r))
      (λ i. inr (inr i)) (Elem-earliest (earlier best r) rows)

-- A root of the trace that starts no later than any other.
abbrev pub IsEarliestRoot : List SpanRow → SpanRow → Type 0
IsEarliestRoot rows c =
    Elem c rows
    × IsRoot c
    × ((r : SpanRow) → Elem r rows → IsRoot r → c.start_time_unix_nano ≤ r.start_time_unix_nano)

canonical_root_of_roots :
    (roots : List SpanRow) (c : SpanRow)
    → canonical_root roots ≡ some c
    → Elem c roots × All (λ r. c.start_time_unix_nano ≤ r.start_time_unix_nano) roots
unfolding canonical_root
canonical_root_of_roots [] c h = cc
canonical_root_of_roots (r ∷ roots) c h =
    subst
      (λ x.
        Elem x (r ∷ roots) × All (λ y. x.start_time_unix_nano ≤ y.start_time_unix_nano) (r ∷ roots))
      (some-injective (earliest r roots) c h) (Elem-earliest r roots, earliest-le r roots)

-- The root that a summary names is a root of the trace that starts no later than any other.
pub canonical_root_lem :
    (rows : List SpanRow) (c : SpanRow)
    → canonical_root (links rows).roots ≡ some c
    → IsEarliestRoot rows c
canonical_root_lem rows c h =
    let (m, least) = canonical_root_of_roots (links rows).roots c h in
    let (here, p) = (Elem-roots rows c).0 m in
    (
      here,
      p,
      λ r n q.
          All-Elem (λ y. c.start_time_unix_nano ≤ y.start_time_unix_nano) r (links rows).roots least
            ((Elem-roots rows r).1 (n, q)),
    )

nil_of_canonical_root : (roots : List SpanRow) → canonical_root roots ≡ none → roots ≡ []
unfolding canonical_root
nil_of_canonical_root [] h = refl
nil_of_canonical_root (r ∷ roots) h = cc

canonical_root-none :
    (rows : List SpanRow)
    → canonical_root (links rows).roots ≡ none
    → (r : SpanRow) → Elem r rows
    → ¬ IsRoot r
canonical_root-none rows h r m p =
    subst (Elem r) (nil_of_canonical_root (links rows).roots h) ((Elem-roots rows r).1 (m, p))

-- No two roots of the trace start at the same time.
abbrev pub RootsApart : List SpanRow → Type 0
RootsApart rows =
    (a b : SpanRow)
    → Elem a rows × IsRoot a
    → Elem b rows × IsRoot b
    → a.start_time_unix_nano ≡ b.start_time_unix_nano
    → a ≡ b

canonical_root-SameRows :
    (xs ys : List SpanRow)
    → SameRows xs ys
    → RootsApart xs
    → canonical_root (links xs).roots ≡ canonical_root (links ys).roots
canonical_root-SameRows xs ys same apart = elim (Option-cases (canonical_root (links xs).roots)) [
  | inl p ↦ elim (Option-cases (canonical_root (links ys).roots)) [
    | inl q ↦ cc
    | inr (d, q) ↦
        let (m, r, _) = canonical_root_lem ys d q in
        absurd (canonical_root-none xs p d ((same d).1 m) r)
  ]
  | inr (c, p) ↦ elim (Option-cases (canonical_root (links ys).roots)) [
    | inl q ↦
        let (m, r, _) = canonical_root_lem xs c p in
        absurd (canonical_root-none ys q c ((same c).0 m) r)
    | inr (d, q) ↦
        let (m, r, least) = canonical_root_lem xs c p in
        let (n, s, least') = canonical_root_lem ys d q in
        let n' = (same d).1 n in
        let m' = (same c).0 m in
        let e = apart c d (m, r) (n', s) (omega (arith, least d n' s, least' c m' r)) in cc
  ]
]

root_service_of : Option SpanRow → String
root_service_of o = elim o [ none ↦ "" | some r ↦ r.service_name ]

two_roots : (a b : SpanRow) → IsRoot a → IsRoot b → (links (a ∷ b ∷ [])).roots ≡ a ∷ b ∷ []
unfolding filter
two_roots a b p q =
    roots-eq-filter (a ∷ b ∷ [])
    ∙ ground (arith, eq_iff a.parent_span_id "", eq_iff b.parent_span_id "")

tie :
    (a b : SpanRow)
    → IsRoot a
    → IsRoot b
    → a.start_time_unix_nano ≡ b.start_time_unix_nano
    → canonical_root (links (a ∷ b ∷ [])).roots ≡ some a
unfolding canonical_root earliest earlier
tie a b p q e = rw (two_roots a b p q) (ground arith)

-- If no two roots start at the same time, the order of the rows plays no part in the root service.
pub root_service-SameRows :
    (trace_id : String) (xs ys : List SpanRow) (window_start : ℕ)
    → SameRows xs ys
    → RootsApart xs
    → (trace_summary trace_id xs window_start).root_service
      ≡ (trace_summary trace_id ys window_start).root_service
unfolding trace_summary root_service_of
root_service-SameRows trace_id xs ys window_start same apart =
    ap (λ (o : Option SpanRow). root_service_of o) (canonical_root-SameRows xs ys same apart)

-- Of two roots that start at the same time, the summary names the service of the one whose row
-- arrives first: the order of the rows decides.
pub root_service_tie :
    (trace_id : String) (a b : SpanRow) (window_start : ℕ)
    → IsRoot a
    → IsRoot b
    → a.start_time_unix_nano ≡ b.start_time_unix_nano
    → ((trace_summary trace_id (a ∷ b ∷ []) window_start).root_service ≡ a.service_name)
      × ((trace_summary trace_id (b ∷ a ∷ []) window_start).root_service ≡ b.service_name)
unfolding trace_summary root_service_of
root_service_tie trace_id a b window_start p q e =
    (ap root_service_of (tie a b p q e), ap root_service_of (tie b a q p (sym e)))
