-- ===== src/Reassembly/Anchors.antt =====
-- reassembly.py: the spans that hang on a root or an orphan, and that these are the visited ones.
use distributed_tracing_plat.Prelude.{
  String, ◌≡◌, ◌↔◌, inl, inr, ⊎_elim, List, ◌++◌, true, string_eq, Elem, Elem-append, Elem-map,
  Elem-map_inv, contains,
}
use distributed_tracing_plat.Reassembly.{SpanRow, span_ids, links, visited_ids}
use distributed_tracing_plat.Reassembly.Links.{
  IsRoot, IsOrphan, IsLinked, Elem-roots, Elem-orphans, Elem-children,
}
use distributed_tracing_plat.Reassembly.Marking.{Reached, start, step, mark_seeds_exact}

-- A span hangs on a root or on an orphan by a chain of parent links.
pub data Anchored (rows : List SpanRow) : String → Type 0 where
  root : {a : String} (r : SpanRow) → Elem r rows → IsRoot r → r.span_id ≡ a → Anchored rows a
  orphan :
      {a : String} (r : SpanRow) → Elem r rows → IsOrphan rows r → r.span_id ≡ a → Anchored rows a
  child :
      {p a : String} (r : SpanRow)
      → Elem r rows
      → IsLinked rows r
      → Anchored rows p
      → r.parent_span_id ≡ p
      → r.span_id ≡ a
      → Anchored rows a

module _ (rows : List SpanRow) where
  abbrev seeds : List SpanRow
  seeds = (links rows).roots ++ (links rows).orphans

  Anchored_of_seed : (a : String) → Elem a (span_ids seeds) → Anchored rows a
  Anchored_of_seed a m =
      let (r, m', e) = Elem-map_inv (λ r. r.span_id) a seeds m in
      ⊎_elim (λ i. let (here, is_root) = (Elem-roots rows r).0 i in root r here is_root e)
        (λ i. let (here, is_orphan) = (Elem-orphans rows r).0 i in orphan r here is_orphan e)
        ((Elem-append r (links rows).roots (links rows).orphans).0 m')

  seed_of_root : (r : SpanRow) → Elem r rows → IsRoot r → Elem r.span_id (span_ids seeds)
  seed_of_root r m h =
      Elem-map (λ r. r.span_id) r seeds
        ((Elem-append r (links rows).roots (links rows).orphans).1
          (inl ((Elem-roots rows r).1 (m, h))))

  seed_of_orphan : (r : SpanRow) → Elem r rows → IsOrphan rows r → Elem r.span_id (span_ids seeds)
  seed_of_orphan r m h =
      Elem-map (λ r. r.span_id) r seeds
        ((Elem-append r (links rows).roots (links rows).orphans).1
          (inr ((Elem-orphans rows r).1 (m, h))))

  Anchored_of_Reached :
      {a : String} → Reached (links rows).children (span_ids seeds) a → Anchored rows a
  Anchored_of_Reached (start {a} m) = Anchored_of_seed a m
  Anchored_of_Reached (step {a} {b} r c) =
      let (row, here, linked, p, q) = (Elem-children rows a b).0 c in
      child row here linked (Anchored_of_Reached r) p q

  Reached-of_Anchored :
      {a : String} → Anchored rows a → Reached (links rows).children (span_ids seeds) a
  Reached-of_Anchored (root r m h e) = start (rw (← e) (seed_of_root r m h))
  Reached-of_Anchored (orphan r m h e) = start (rw (← e) (seed_of_orphan r m h))
  Reached-of_Anchored (child {p} {a} r m h anchored e e') =
      step (Reached-of_Anchored anchored) ((Elem-children rows p a).1 (r, m, h, e, e'))

  -- The visited spans are those that hang on a root or an orphan.
  pub visited_ids_iff : (a : String) → (contains (visited_ids rows) a ≡ true) ↔ Anchored rows a
  unfolding visited_ids
  visited_ids_iff a =
      let exact = mark_seeds_exact (links rows).children seeds a in
      (λ h. Anchored_of_Reached (exact.0 h), λ h. exact.1 (Reached-of_Anchored h))
