-- ===== src/Writer/Written.antt =====
-- writer.py over a lawful client: what the tables hold after a write.
use distributed_tracing_plat.Prelude.{
  ℕ, false, not, ◌≡◌, ◌↔◌, ◌⊎◌, inl, inr, refl, ⊎_elim, String, string_eq, pair_eq, List, [], ◌∷◌,
  map, map-append, filter, contains, contains_iff, Eq, Elem, Elem-append, Elem-filter, Elem-map,
  Elem-map_inv, Distinct, Bool-cases,
}
use distributed_tracing_plat.Targets.{kind_eq}
use distributed_tracing_plat.Storage.{Client, DetectionRow, EdgeRow, detections, service_edges}
use distributed_tracing_plat.Storage.Keys.{detection_row_key, edge_key}
use distributed_tracing_plat.Storage.Laws.{
  IsLawful, nat_eq, last_rows, replace_rows, apply_insert, Elem-replace_rows,
}
use distributed_tracing_plat.Writer.{insert_rows}

module _ {R K : Type 0} ⦃e : Eq K⦄ (key : R → K) where
  keys-last_rows :
      (rows : List R) (k : K) → Elem k (map key rows) ↔ Elem k (map key (last_rows key rows))
  unfolding last_rows
  keys-last_rows [] k = (λ m. m, λ m. m)
  keys-last_rows (r ∷ rs) k = elim (Bool-cases (contains (map key rs) (key r))) [
    | inl later ↦ rw later (
      ⊎_elim (λ q. (keys-last_rows rs k).0 (rw q at ((contains_iff (map key rs) (key r)).0 later)))
          (keys-last_rows rs k).0,
      λ m. inr ((keys-last_rows rs k).1 m),
    )
    | inr last ↦ rw last (
      ⊎_elim inl (λ m. inr ((keys-last_rows rs k).0 m)),
      ⊎_elim inl (λ m. inr ((keys-last_rows rs k).1 m)),
    )
  ]

  -- A row that stood there is kept, or a new one has its key.
  kept_or_new :
      (rows old : List R) (k : K)
      → Elem k (map key old)
      → Elem k (map key (filter (λ r. not (contains (map key rows) (key r))) old))
        ⊎ Elem k (map key (last_rows key rows))
  kept_or_new rows old k i =
      let (r, j, q) = Elem-map_inv key k old i in
      elim (Bool-cases (contains (map key rows) (key r))) [
        | inl new ↦
            inr ((keys-last_rows rows k).0 (rw q at ((contains_iff (map key rows) (key r)).0 new)))
        | inr kept ↦
            let still =
              (Elem-filter (λ x. not (contains (map key rows) (key x))) r old).1 (j, rw kept) in
            inl (rw q at (Elem-map key r _ still))
      ]

  -- An insert adds the keys of its rows and takes none away.
  pub keys-replace_rows :
      (rows old : List R) (k : K)
      → Elem k (map key (replace_rows key rows old))
        ↔ (Elem k (map key rows) ⊎ Elem k (map key old))
  unfolding replace_rows
  keys-replace_rows rows old k =
      let kept = filter (λ r. not (contains (map key rows) (key r))) old in
      rw map-append (
        λ m.
            ⊎_elim
              (λ i.
                let (r, j, q) = Elem-map_inv key k kept i in
                inr (rw q at (Elem-map key r old ((Elem-filter _ r old).0 j).0)))
              (λ i. inl ((keys-last_rows rows k).1 i)) ((Elem-append k (map key kept) _).0 m),
        λ m.
            (Elem-append k (map key kept) _).1
              (⊎_elim (λ i. inr ((keys-last_rows rows k).0 i)) (kept_or_new rows old k) m),
      )

Elem-map_same :
    {R K : Type 0} (key : R → K) (xs ys : List R)
    → ((r : R) → Elem r xs → Elem r ys)
    → (k : K) → Elem k (map key xs)
    → Elem k (map key ys)
Elem-map_same key xs ys h k m =
    let (r, j, q) = Elem-map_inv key k xs m in rw q at (Elem-map key r ys (h r j))

module _ {F : Type 0} (c : Client F) (lawful : IsLawful c) where
  pub Elem-insert_detections :
      (rows : List (DetectionRow F)) (s : c.State) (r : DetectionRow F)
      → Distinct (map detection_row_key rows)
      → Elem r (c.tables (insert_rows c detections rows s)).detections ↔ (
          Elem r rows
          ⊎ (Elem r (c.tables s).detections
              × (contains (map detection_row_key rows) (detection_row_key r) ≡ false)))
  unfolding insert_rows apply_insert contains
  Elem-insert_detections [] s r h = (λ m. inr (m, refl), ⊎_elim (λ m. absurd m) (λ m. m.0))
  Elem-insert_detections (x ∷ rows) s r h =
      let same = (lawful.tables-insert (detections (x ∷ rows)) s).detections r in
      let law = Elem-replace_rows detection_row_key (x ∷ rows) (c.tables s).detections r h in
      (λ m. law.0 (same.0 m), λ m. same.1 (law.1 m))

  pub keys-insert_edges :
      (rows : List (EdgeRow F)) (s : c.State) (k : (String × String) × ℕ)
      → Elem k (map edge_key (c.tables (insert_rows c service_edges rows s)).service_edges)
        ↔ (Elem k (map edge_key rows) ⊎ Elem k (map edge_key (c.tables s).service_edges))
  unfolding insert_rows apply_insert
  keys-insert_edges [] s k = (inr, ⊎_elim (λ m. absurd m) (λ m. m))
  keys-insert_edges (x ∷ rows) s k =
      let same = (lawful.tables-insert (service_edges (x ∷ rows)) s).service_edges in
      let law = keys-replace_rows edge_key (x ∷ rows) (c.tables s).service_edges k in
      (
        λ m. law.0 (Elem-map_same edge_key _ _ (λ r. (same r).0) k m),
        λ m. Elem-map_same edge_key _ _ (λ r. (same r).1) k (law.1 m),
      )
