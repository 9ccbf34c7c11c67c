-- ===== src/Storage/Laws.antt =====
-- What is assumed of the client: an insert replaces the rows of its table that have the key of a new row
-- (ReplacingMergeTree, read with FINAL), and leaves the other tables alone. Of two new rows with one key the
-- later one stays. Nothing is assumed of the order of a table's rows.
use distributed_tracing_plat.Prelude.{
  ℕ, false, not, ◌≡◌, ◌↔◌, ◌⊎◌, inl, inr, refl, List, [], ◌∷◌, ◌++◌, map, filter, contains,
  if◌then◌else◌, Eq, string_eq, pair_eq, eqb, eqb_iff, Elem, Elem-append, Elem-filter, ⊎_elim,
  arith, Bool-cases, Distinct,
}
use distributed_tracing_plat.Targets.{kind_eq}
use distributed_tracing_plat.Storage.{
  Insert, Tables, Client, trace_summaries, span_classifications, service_edges,
  service_clock_offsets, service_stats, service_baselines, edge_baselines, detections,
  detected_incidents,
}
use distributed_tracing_plat.Storage.Keys.{
  summary_key, classification_key, offset_key, edge_key, stats_key, service_baseline_key,
  edge_baseline_key, detection_row_key,
}

instance abbrev pub nat_eq : Eq ℕ
nat_eq = record { beq = eqb; beq_iff = eqb_iff }

module _ {R K : Type 0} ⦃e : Eq K⦄ (key : R → K) where
  -- The last row of each key.
  unfoldable pub last_rows : List R → List R
  last_rows [] = []
  last_rows (r ∷ rs) =
      let rest = last_rows rs in if contains (map key rs) (key r) then rest else r ∷ rest

  unfoldable pub replace_rows : List R → List R → List R
  replace_rows rows old = filter (λ r. not (contains (map key rows) (key r))) old ++ last_rows rows

  last_rows-Distinct : (rows : List R) → Distinct (map key rows) → last_rows rows ≡ rows
  unfolding last_rows
  last_rows-Distinct [] h = refl
  last_rows-Distinct (r ∷ rs) h = rw (h.0, last_rows-Distinct rs h.1)

  last_rows-sub : (rows : List R) (r : R) → Elem r (last_rows rows) → Elem r rows
  unfolding last_rows
  last_rows-sub [] r m = m
  last_rows-sub (x ∷ rs) r m = elim (Bool-cases (contains (map key rs) (key x))) [
    | inl later ↦ inr (last_rows-sub rs r (rw later at m))
    | inr last ↦ ⊎_elim inl (λ i. inr (last_rows-sub rs r i)) (rw last at m)
  ]

  -- No other row comes in.
  pub replace_rows-sub :
      (rows old : List R) (r : R) → Elem r (replace_rows rows old) → Elem r rows ⊎ Elem r old
  unfolding replace_rows
  replace_rows-sub rows old r m =
      ⊎_elim (λ i. inr ((Elem-filter _ r old).0 i).0) (λ i. inl (last_rows-sub rows r i))
        ((Elem-append r _ (last_rows rows)).0 m)

  -- After an insert of rows with different keys the table holds them, and what it held under other keys.
  pub Elem-replace_rows :
      (rows old : List R) (r : R)
      → Distinct (map key rows)
      → Elem r (replace_rows rows old)
        ↔ (Elem r rows ⊎ (Elem r old × (contains (map key rows) (key r) ≡ false)))
  unfolding replace_rows
  Elem-replace_rows rows old r h = rw (last_rows-Distinct rows h) (
    λ m.
        ⊎_elim (λ i. let j = (Elem-filter _ r old).0 i in inr (j.0, ground arith)) inl
          ((Elem-append r _ rows).0 m),
    λ m.
        (Elem-append r _ rows).1
          (⊎_elim inr (λ i. inl ((Elem-filter _ r old).1 (i.0, ground arith))) m),
  )

-- What an insert does to the tables.
module _ {F : Type 0} where
  unfoldable pub apply_insert : Insert F → Tables F → Tables F
  apply_insert (trace_summaries rows) t = record t {
    trace_summaries = replace_rows summary_key rows t.trace_summaries;
  }
  apply_insert (span_classifications rows) t = record t {
    span_classifications = replace_rows classification_key rows t.span_classifications;
  }
  apply_insert (service_edges rows) t = record t {
    service_edges = replace_rows edge_key rows t.service_edges;
  }
  apply_insert (service_clock_offsets rows) t = record t {
    service_clock_offsets = replace_rows offset_key rows t.service_clock_offsets;
  }
  apply_insert (service_stats rows) t = record t {
    service_stats = replace_rows stats_key rows t.service_stats;
  }
  apply_insert (service_baselines rows) t = record t {
    service_baselines = replace_rows service_baseline_key rows t.service_baselines;
  }
  apply_insert (edge_baselines rows) t = record t {
    edge_baselines = replace_rows edge_baseline_key rows t.edge_baselines;
  }
  apply_insert (detections rows) t = record t {
    detections = replace_rows detection_row_key rows t.detections;
  }
  apply_insert (detected_incidents rows) t = record t {
    detected_incidents = replace_rows (λ r. r.incident_id) rows t.detected_incidents;
  }

-- Two lists hold the same rows.
abbrev pub SameRows : {R : Type 0} → List R → List R → Type 0
SameRows {R} xs ys = (r : R) → Elem r xs ↔ Elem r ys

-- The same tables, up to the order of their rows.
pub record SameTables {F : Type 0} (t u : Tables F) : Type 0 where
  pub spans : SameRows t.spans u.spans
  pub trace_summaries : SameRows t.trace_summaries u.trace_summaries
  pub span_classifications : SameRows t.span_classifications u.span_classifications
  pub service_edges : SameRows t.service_edges u.service_edges
  pub service_clock_offsets : SameRows t.service_clock_offsets u.service_clock_offsets
  pub service_stats : SameRows t.service_stats u.service_stats
  pub service_baselines : SameRows t.service_baselines u.service_baselines
  pub edge_baselines : SameRows t.edge_baselines u.edge_baselines
  pub detections : SameRows t.detections u.detections
  pub detected_incidents : SameRows t.detected_incidents u.detected_incidents

pub record IsLawful {F : Type 0} (c : Client F) : Type 0 where
  pub tables-insert :
      (i : Insert F) (s : c.State)
      → SameTables (c.tables (c.insert i s)) (apply_insert i (c.tables s))
