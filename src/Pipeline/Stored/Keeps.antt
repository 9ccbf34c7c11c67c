-- ===== src/Pipeline/Stored/Keeps.antt =====
-- writer.py over a lawful client: a write takes no span, no label and no summary away, and after it the
-- detections can be read if they could be read before.
use distributed_tracing_plat.Prelude.{
  ℕ, ◌≡◌, inl, inr, refl, subst, ⊎_elim, String, string_eq, pair_eq, List, [], ◌∷◌, map, Elem,
  Elem-map, Elem-map_inv,
}
use distributed_tracing_plat.Targets.{kind_eq}
use distributed_tracing_plat.Detectors.Loops.{Returns}
use distributed_tracing_plat.Storage.{
  SummaryRow, ClassificationRow, DetectionRow, Insert, Tables, Client, trace_summaries,
  span_classifications, service_edges, service_clock_offsets, service_stats, service_baselines,
  edge_baselines, detections, detected_incidents,
}
use distributed_tracing_plat.Storage.Keys.{summary_key, classification_key, detection_row_key}
use distributed_tracing_plat.Storage.Laws.{
  IsLawful, SameRows, nat_eq, apply_insert, replace_rows-sub,
}
use distributed_tracing_plat.Writer.{insert_rows}
use distributed_tracing_plat.Writer.Written.{keys-replace_rows}
use distributed_tracing_plat.Reader.{detection_of}

abbrev pub Labelled : {F : Type 0} → String × String → Tables F → Type 0
Labelled k t = Elem k (map classification_key t.span_classifications)

abbrev pub Summed : {F : Type 0} → String × ℕ → Tables F → Type 0
Summed k t = Elem k (map summary_key t.trace_summaries)

-- The rows that the inserts of an `Insert` add to the detections can be read.
abbrev pub ReadableRows : {F : Type 0} → List (DetectionRow F) → Type 0
ReadableRows {F} rows = (r : DetectionRow F) → Elem r rows → Returns (detection_of r)

abbrev Readable : {F : Type 0} → Insert F → Type 0
Readable (detections rows) = ReadableRows rows
Readable _ = Unit

-- From the tables `t` to the tables `u` nothing of this is lost.
pub record Grows {F : Type 0} (t u : Tables F) : Type 0 where
  pub spans : SameRows u.spans t.spans
  pub labelled : (k : String × String) → Labelled k t → Labelled k u
  pub summed : (k : String × ℕ) → Summed k t → Summed k u
  pub readable : ReadableRows t.detections → ReadableRows u.detections

pub Grows-refl : {F : Type 0} (t : Tables F) → Grows t t
Grows-refl t = record {
  spans = λ r. (λ m. m, λ m. m);
  labelled = λ k m. m;
  summed = λ k m. m;
  readable = λ h. h;
}

pub Grows-trans : {F : Type 0} (t u v : Tables F) → Grows t u → Grows u v → Grows t v
Grows-trans t u v g h = record {
  spans = λ r. (λ m. (g.spans r).0 ((h.spans r).0 m), λ m. (h.spans r).1 ((g.spans r).1 m));
  labelled = λ k m. h.labelled k (g.labelled k m);
  summed = λ k m. h.summed k (g.summed k m);
  readable = λ p. h.readable (g.readable p);
}

module _ {F : Type 0} where
  spans-apply_insert : (i : Insert F) (t : Tables F) → (apply_insert i t).spans ≡ t.spans
  unfolding apply_insert
  spans-apply_insert (trace_summaries rows) t = refl
  spans-apply_insert (span_classifications rows) t = refl
  spans-apply_insert (service_edges rows) t = refl
  spans-apply_insert (service_clock_offsets rows) t = refl
  spans-apply_insert (service_stats rows) t = refl
  spans-apply_insert (service_baselines rows) t = refl
  spans-apply_insert (edge_baselines rows) t = refl
  spans-apply_insert (detections rows) t = refl
  spans-apply_insert (detected_incidents rows) t = refl

  Labelled-apply_insert :
      (i : Insert F) (t : Tables F) (k : String × String)
      → Labelled k t
      → Labelled k (apply_insert i t)
  unfolding apply_insert
  Labelled-apply_insert (span_classifications rows) t k m =
      (keys-replace_rows classification_key rows t.span_classifications k).1 (inr m)
  Labelled-apply_insert (trace_summaries rows) t k m = m
  Labelled-apply_insert (service_edges rows) t k m = m
  Labelled-apply_insert (service_clock_offsets rows) t k m = m
  Labelled-apply_insert (service_stats rows) t k m = m
  Labelled-apply_insert (service_baselines rows) t k m = m
  Labelled-apply_insert (edge_baselines rows) t k m = m
  Labelled-apply_insert (detections rows) t k m = m
  Labelled-apply_insert (detected_incidents rows) t k m = m

  Summed-apply_insert :
      (i : Insert F) (t : Tables F) (k : String × ℕ) → Summed k t → Summed k (apply_insert i t)
  unfolding apply_insert
  Summed-apply_insert (trace_summaries rows) t k m =
      (keys-replace_rows summary_key rows t.trace_summaries k).1 (inr m)
  Summed-apply_insert (span_classifications rows) t k m = m
  Summed-apply_insert (service_edges rows) t k m = m
  Summed-apply_insert (service_clock_offsets rows) t k m = m
  Summed-apply_insert (service_stats rows) t k m = m
  Summed-apply_insert (service_baselines rows) t k m = m
  Summed-apply_insert (edge_baselines rows) t k m = m
  Summed-apply_insert (detections rows) t k m = m
  Summed-apply_insert (detected_incidents rows) t k m = m

  Readable-apply_insert :
      (i : Insert F) (t : Tables F)
      → Readable i
      → ReadableRows t.detections
      → ReadableRows (apply_insert i t).detections
  unfolding apply_insert
  Readable-apply_insert (detections rows) t new old r m =
      ⊎_elim (new r) (old r) (replace_rows-sub detection_row_key rows t.detections r m)
  Readable-apply_insert (trace_summaries rows) t new old r m = old r m
  Readable-apply_insert (span_classifications rows) t new old r m = old r m
  Readable-apply_insert (service_edges rows) t new old r m = old r m
  Readable-apply_insert (service_clock_offsets rows) t new old r m = old r m
  Readable-apply_insert (service_stats rows) t new old r m = old r m
  Readable-apply_insert (service_baselines rows) t new old r m = old r m
  Readable-apply_insert (edge_baselines rows) t new old r m = old r m
  Readable-apply_insert (detected_incidents rows) t new old r m = old r m

-- The keys of a table with the same rows.
keys-SameRows :
    {R K : Type 0} (key : R → K) (xs ys : List R)
    → SameRows xs ys
    → (k : K) → Elem k (map key ys)
    → Elem k (map key xs)
keys-SameRows key xs ys same k m =
    let (r, i, q) = Elem-map_inv key k ys m in
    subst (λ x. Elem x (map key xs)) q (Elem-map key r xs ((same r).1 i))

module _ {F : Type 0} (c : Client F) (lawful : IsLawful c) where
  Grows-insert :
      (i : Insert F) (s : c.State) → Readable i → Grows (c.tables s) (c.tables (c.insert i s))
  Grows-insert i s new =
      let same = lawful.tables-insert i s in
      let t = c.tables s in
      record {
        spans =
            subst (λ xs. SameRows (c.tables (c.insert i s)).spans xs) (spans-apply_insert i t)
              same.spans;
        labelled = λ k m.
            keys-SameRows classification_key _ _ same.span_classifications k
              (Labelled-apply_insert i t k m);
        summed = λ k m.
            keys-SameRows summary_key _ _ same.trace_summaries k (Summed-apply_insert i t k m);
        readable = λ old r m. Readable-apply_insert i t new old r ((same.detections r).0 m);
      }

  -- So does a write that makes no call when there is nothing to write.
  Grows-insert_rows :
      {R : Type 0} (table : List R → Insert F) (rows : List R) (s : c.State)
      → ((r : R) (rs : List R) → rows ≡ r ∷ rs → Readable (table (r ∷ rs)))
      → Grows (c.tables s) (c.tables (insert_rows c table rows s))
  unfolding insert_rows
  Grows-insert_rows table [] s new = Grows-refl (c.tables s)
  Grows-insert_rows table (r ∷ rs) s new = Grows-insert (table (r ∷ rs)) s (new r rs refl)

  -- The tables after one more write.
  pub and_write :
      {R : Type 0} (table : List R → Insert F) (rows : List R) (t : Tables F) (s : c.State)
      → ((r : R) (rs : List R) → rows ≡ r ∷ rs → Readable (table (r ∷ rs)))
      → Grows t (c.tables s)
      → Grows t (c.tables (insert_rows c table rows s))
  and_write table rows t s new g =
      Grows-trans t (c.tables s) (c.tables (insert_rows c table rows s)) g
        (Grows-insert_rows table rows s new)

  pub Labelled-insert_rows :
      (rows : List ClassificationRow) (s : c.State) (k : String × String)
      → Elem k (map classification_key rows)
      → Labelled k (c.tables (insert_rows c span_classifications rows s))
  unfolding insert_rows apply_insert
  Labelled-insert_rows [] s k m = absurd m
  Labelled-insert_rows (r ∷ rs) s k m =
      keys-SameRows classification_key _ _
        (lawful.tables-insert (span_classifications (r ∷ rs)) s).span_classifications k
        ((keys-replace_rows classification_key (r ∷ rs) _ k).1 (inl m))

  pub Summed-insert_rows :
      (rows : List SummaryRow) (s : c.State) (k : String × ℕ)
      → Elem k (map summary_key rows)
      → Summed k (c.tables (insert_rows c trace_summaries rows s))
  unfolding insert_rows apply_insert
  Summed-insert_rows [] s k m = absurd m
  Summed-insert_rows (r ∷ rs) s k m =
      keys-SameRows summary_key _ _
        (lawful.tables-insert (trace_summaries (r ∷ rs)) s).trace_summaries k
        ((keys-replace_rows summary_key (r ∷ rs) _ k).1 (inl m))
