-- ===== src/Reassembly/Links.antt =====
-- reassembly.py: what the first loop of `_reassemble_trace` builds, as three filters.
use distributed_tracing_plat.Prelude.{
  String, ◌≡◌, ◌≢◌, ◌↔◌, ap, subst, ◌∙◌, List, [], ◌∷◌, ◌++◌, map, append-nil, append_assoc, Bool,
  true, not, ◌&&◌, string_eq, filter, Elem, Elem-filter, Elem-map, Elem-map_inv, contains,
  contains_iff, group, group_from, get_group, get_group-group, values, Elem-values, arith, length,
  total, total-group, length-map,
}
use text.Mathlib.TextEquality.{eq_iff}
use distributed_tracing_plat.Reassembly.{
  SpanRow, span_ids, TraceLinks, is_root, link_row, link_rows, links,
}

-- The parent of the span is not among the given spans.
abbrev pub is_orphan : List String → SpanRow → Bool
is_orphan ids r = not (is_root r) && not (contains ids r.parent_span_id)

abbrev pub is_linked : List String → SpanRow → Bool
is_linked ids r = not (is_root r) && contains ids r.parent_span_id

abbrev pub link : SpanRow → String × String
link r = (r.parent_span_id, r.span_id)

link_rows_lem :
    (ids : List String) (l : TraceLinks) (rows : List SpanRow)
    → link_rows ids l rows ≡ record {
      children = group_from l.children (map link (filter (is_linked ids) rows));
      roots = l.roots ++ filter is_root rows;
      orphans = l.orphans ++ filter (is_orphan ids) rows;
    }
unfolding link_rows filter group_from
link_rows_lem ids l [] = simp append-nil
link_rows_lem ids l (r ∷ rows) = ground (
  arith,
  link_rows_lem ids (link_row ids l r) rows,
  append_assoc l.roots (r ∷ []) (filter is_root rows),
  append_assoc l.orphans (r ∷ []) (filter (is_orphan ids) rows),
)

pub links-eq-filters :
    (rows : List SpanRow)
    → links rows ≡ record {
      children = group (map link (filter (is_linked (span_ids rows)) rows));
      roots = filter is_root rows;
      orphans = filter (is_orphan (span_ids rows)) rows;
    }
unfolding links group
links-eq-filters rows =
    link_rows_lem (span_ids rows) (record { children = []; roots = []; orphans = [] }) rows

-- The parent link of a row: none, dangling, or to another row.
abbrev pub IsRoot : SpanRow → Type 0
IsRoot r = r.parent_span_id ≡ ""

abbrev pub IsOrphan : List SpanRow → SpanRow → Type 0
IsOrphan rows r = (r.parent_span_id ≢ "") × ¬ Elem r.parent_span_id (span_ids rows)

abbrev pub IsLinked : List SpanRow → SpanRow → Type 0
IsLinked rows r = (r.parent_span_id ≢ "") × Elem r.parent_span_id (span_ids rows)

pub Elem-roots :
    (rows : List SpanRow) (r : SpanRow) → Elem r (links rows).roots ↔ (Elem r rows × IsRoot r)
Elem-roots rows r =
    rw (links-eq-filters rows)
      (ground (arith, Elem-filter is_root r rows, eq_iff r.parent_span_id ""))

pub Elem-orphans :
    (rows : List SpanRow) (r : SpanRow)
    → Elem r (links rows).orphans ↔ (Elem r rows × IsOrphan rows r)
Elem-orphans rows r = rw (links-eq-filters rows) (
    ground (
      arith,
      Elem-filter (is_orphan (span_ids rows)) r rows,
      eq_iff r.parent_span_id "",
      contains_iff (span_ids rows) r.parent_span_id,
    ))

-- A child of span a is a row that names it as its parent, and a is a row's span.
abbrev pub ChildOf : List SpanRow → String → String → Type 0
ChildOf rows a b =
    (r : SpanRow) × Elem r rows × IsLinked rows r × (r.parent_span_id ≡ a) × (r.span_id ≡ b)

is_linked_iff :
    (rows : List SpanRow) (r : SpanRow) → (is_linked (span_ids rows) r ≡ true) ↔ IsLinked rows r
is_linked_iff rows r =
    ground (arith, eq_iff r.parent_span_id "", contains_iff (span_ids rows) r.parent_span_id)

linked_rows : List SpanRow → List SpanRow
linked_rows rows = filter (is_linked (span_ids rows)) rows

ChildOf-of_Elem :
    (rows : List SpanRow) (a b : String)
    → Elem (a, b) (map link (linked_rows rows))
    → ChildOf rows a b
unfolding linked_rows
ChildOf-of_Elem rows a b m =
    let (r, m', e) = Elem-map_inv link (a, b) (linked_rows rows) m in
    let (here, linked) = (Elem-filter (is_linked (span_ids rows)) r rows).0 m' in
    (r, here, (is_linked_iff rows r).0 linked, ap (λ p. p.0) e, ap (λ p. p.1) e)

Elem-of_ChildOf :
    (rows : List SpanRow) (a b : String)
    → ChildOf rows a b
    → Elem (a, b) (map link (linked_rows rows))
unfolding linked_rows
Elem-of_ChildOf rows a b (r, here, linked, p, q) =
    let m =
      (Elem-filter (is_linked (span_ids rows)) r rows).1 (here, (is_linked_iff rows r).1 linked) in
    let e : link r ≡ (a, b) = cc in
    subst (λ x. Elem x (map link (linked_rows rows))) e (Elem-map link r (linked_rows rows) m)

get_group-children :
    (rows : List SpanRow) (a : String)
    → get_group a (links rows).children ≡ values a (map link (linked_rows rows))
unfolding linked_rows
get_group-children rows a =
    rw (links-eq-filters rows)
      (get_group-group a (map link (filter (is_linked (span_ids rows)) rows)))

pub Elem-children :
    (rows : List SpanRow) (a b : String)
    → Elem b (get_group a (links rows).children) ↔ ChildOf rows a b
Elem-children rows a b = rw (get_group-children rows a) (
  λ m. ChildOf-of_Elem rows a b ((Elem-values a b (map link (linked_rows rows))).0 m),
  λ c. (Elem-values a b (map link (linked_rows rows))).1 (Elem-of_ChildOf rows a b c),
)

-- There are as many child links as linked rows.
pub total-children :
    (rows : List SpanRow)
    → total (links rows).children ≡ length (filter (is_linked (span_ids rows)) rows)
total-children rows = rw (links-eq-filters rows) (
    total-group (map link (filter (is_linked (span_ids rows)) rows))
    ∙ length-map link (filter (is_linked (span_ids rows)) rows))
