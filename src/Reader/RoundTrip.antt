-- ===== src/Reader/RoundTrip.antt =====
-- writer.py and reader.py together: detections and edges that are written are read again.
use distributed_tracing_plat.Prelude.{
  ℕ, true, false, ◌≡◌, ◌↔◌, ◌⊎◌, inl, inr, refl, sym, ap, subst, ◌∙◌, ⊎_elim, String, string_eq,
  pair_eq, some, List, [], ◌∷◌, map, filter, contains, Elem, Elem-filter, Elem-map, Elem-map_inv,
  Elem-add_keys, Distinct, All, All-Elem,
}
use distributed_tracing_plat.Prelude.Floats.{Floats}
use distributed_tracing_plat.Targets.{kind_eq}
use distributed_tracing_plat.Detectors.{Detection}
use distributed_tracing_plat.Detectors.Loops.{Returns, >>=-eq-some, some_inj}
use distributed_tracing_plat.Aggregation.{ServiceEdge}
use distributed_tracing_plat.Suppression.{Key, detection_key}
use distributed_tracing_plat.Storage.{DetectionRow, EdgeRow, Client, service_edges}
use distributed_tracing_plat.Storage.Keys.{detection_row_key, edge_key}
use distributed_tracing_plat.Storage.Laws.{IsLawful, nat_eq}
use distributed_tracing_plat.Writer.{
  detection_row, edge_row, insert_rows, write_detections, write_service_edges,
}
use distributed_tracing_plat.Writer.Written.{Elem-insert_detections, keys-insert_edges}
use distributed_tracing_plat.Reader.{
  endpoints, in_closed_range, detection_of, fetch_recent_detections, fetch_topology_edges,
}
use distributed_tracing_plat.Reader.Labels.{
  IsReadable, detection_of-detection_row, label_of-endpoints,
}
use distributed_tracing_plat.Reader.Ranges.{Elem-each, each-Returns, Returns-of_each}

-- What the table of detections is sorted by.
abbrev pub stored_key : {F : Type 0} → Detection F → Key × ℕ
stored_key d = (detection_key d, d.window_start)

module _ {F : Type 0} where
  detection_row_key-detection_row :
      (d : Detection F) → IsReadable d → detection_row_key (detection_row d) ≡ stored_key d
  unfolding detection_row
  detection_row_key-detection_row d h = ap (λ t. (detection_key d, t)) h.1

  detection_of_inv :
      (r : DetectionRow F) (d : Detection F)
      → detection_of r ≡ some d
      → (detection_row_key r ≡ stored_key d) × (r.window_start ≡ d.window_start)
  unfolding detection_of
  detection_of_inv r d h =
      let (ends, p, q) = >>=-eq-some (endpoints r.target_type r.target) _ d h in
      let e = some_inj _ _ q in
      let l = label_of-endpoints r.target_type r.target ends p in
      rw (← e) (ap (λ t. ((r.target_type, (t, r.detector)), r.window_start)) (sym l), refl)

  map-stored_key :
      (ds : List (Detection F))
      → All IsReadable ds
      → map detection_row_key (map detection_row ds) ≡ map stored_key ds
  map-stored_key [] h = refl
  map-stored_key (d ∷ ds) h = rw (detection_row_key-detection_row d h.0, map-stored_key ds h.1)

module _ {F : Type 0} (c : Client F) where
  -- The detections that are read are the rows of the range that decode to them.
  fetch_recent_detections_exact :
      (s : c.State) (start end : ℕ) (found : List (Detection F)) (d : Detection F)
      → fetch_recent_detections c s start end ≡ some found
      → Elem d found ↔ (
          (r : DetectionRow F) × Elem r (c.tables s).detections
          × (in_closed_range start end d.window_start ≡ true)
          × (detection_of r ≡ some d))
  unfolding fetch_recent_detections
  fetch_recent_detections_exact s start end found d h =
      let rows = (c.tables s).detections in
      let keep = λ (r : DetectionRow F). in_closed_range start end r.window_start in
      let law = Elem-each detection_of (filter keep rows) found d h in
      (
        λ m.
            let (r, i, e) = law.0 m in
            let j = (Elem-filter keep r rows).0 i in
            (r, j.0, rw (detection_of_inv r d e).1 at (j.1), e),
        λ (r, i, b, e).
            law.1 (r, (Elem-filter keep r rows).1 (i, rw (detection_of_inv r d e).1 b), e),
      )

module _ {F : Type 0} where
  Elem-detection_row :
      (r : DetectionRow F) (ds : List (Detection F))
      → All IsReadable ds
      → Elem r (map detection_row ds)
      → (d : Detection F) × Elem d ds × (detection_of r ≡ some d)
  Elem-detection_row r ds readable m =
      let (d, i, q) = Elem-map_inv detection_row r ds m in
      (d, i, ap detection_of (sym q) ∙ detection_of-detection_row d (All-Elem _ d ds readable i))

module _ {F : Type 0} (c : Client F) (lawful : IsLawful c) where
  module _ (s : c.State) (ds : List (Detection F)) (readable : All IsReadable ds)
      (apart : Distinct (map stored_key ds)) where
    Elem-write_detections :
        (r : DetectionRow F)
        → Elem r (c.tables (write_detections c ds s)).detections ↔ (
            Elem r (map detection_row ds)
            ⊎ (Elem r (c.tables s).detections
                × (contains (map stored_key ds) (detection_row_key r) ≡ false)))
    unfolding write_detections
    Elem-write_detections r =
        let e = map-stored_key ds readable in
        rw e at (Elem-insert_detections c lawful (map detection_row ds) s r (rw e apart))

    -- A row of the table after the write can be read if those before it could.
    fetch_recent_detections-Returns :
        (start end : ℕ) (old : List (Detection F))
        → fetch_recent_detections c s start end ≡ some old
        → Returns (fetch_recent_detections c (write_detections c ds s) start end)
    unfolding fetch_recent_detections
    fetch_recent_detections-Returns start end old before =
        let keep = λ (r : DetectionRow F). in_closed_range start end r.window_start in
        each-Returns detection_of _ (λ r m.
          let i = (Elem-filter keep r _).0 m in
          ⊎_elim (λ j. let (d, _, e) = Elem-detection_row r ds readable j in (d, e))
            (λ j. Returns-of_each detection_of _ old r before ((Elem-filter keep r _).1 (j.0, i.1)))
            ((Elem-write_detections r).0 i.0))

    -- If the table could be read before, the detections can be taken from their labels, their times are
    -- whole microseconds and no two of them have one target, detector and window, then reading it after
    -- the write returns, and returns exactly those of the written detections whose window is in the range,
    -- and those read before that no written detection replaces.
    pub fetch_recent_detections-write_detections :
        (start end : ℕ) (old : List (Detection F))
        → fetch_recent_detections c s start end ≡ some old
        → (found : List (Detection F)) × (fetch_recent_detections c
              (write_detections c ds s)
              start
              end
            ≡ some found)
          × ((d : Detection F)
              → Elem d found ↔ (
                  (Elem d ds × (in_closed_range start end d.window_start ≡ true))
                  ⊎ (Elem d old × (contains (map stored_key ds) (stored_key d) ≡ false))))
    fetch_recent_detections-write_detections start end old before =
        let (found, read) = fetch_recent_detections-Returns start end old before in
        (
          found,
          read,
          λ d.
              let after =
                fetch_recent_detections_exact c (write_detections c ds s) start end found d read in
              let prior = fetch_recent_detections_exact c s start end old d before in
              (
                λ m.
                    let (r, i, b, e) = after.0 m in
                    ⊎_elim
                      (λ j.
                        let (d', k, q) = Elem-detection_row r ds readable j in
                        inl (rw (some_inj _ _ (sym q ∙ e)) at k, b))
                      (λ j. inr (prior.1 (r, j.0, b, e), rw (detection_of_inv r d e).0 at (j.1)))
                      ((Elem-write_detections r).0 i),
                ⊎_elim
                    (λ w. after.1 (
                      detection_row d,
                      (Elem-write_detections (detection_row d)).1
                          (inl (Elem-map detection_row d ds w.0)),
                      w.1,
                      detection_of-detection_row d (All-Elem _ d ds readable w.0),
                    ))
                    (λ w.
                      let (r, i, b, e) = prior.0 w.0 in
                      after.1 (
                        r,
                        (Elem-write_detections r).1 (inr (i, rw (detection_of_inv r d e).0 (w.1))),
                        b,
                        e,
                      )),
              ),
        )

abbrev pair_of : {F : Type 0} → EdgeRow F → String × String
pair_of r = (r.caller_service, r.callee_service)

abbrev edge_pair : ServiceEdge → String × String
edge_pair e = (e.caller_service, e.callee_service)

module _ {F : Type 0} where
  Elem-pair_of :
      (rows : List (EdgeRow F)) (p : String × String)
      → Elem p (map pair_of rows)
        ↔ ((k : (String × String) × ℕ) × Elem k (map edge_key rows) × (k.0 ≡ p))
  Elem-pair_of rows p = (
    λ m.
        let (r, i, q) = Elem-map_inv pair_of p rows m in
        (edge_key r, Elem-map edge_key r rows i, q),
    λ (k, m, q).
        let (r, i, e) = Elem-map_inv edge_key k rows m in
        rw (ap (λ (x : (String × String) × ℕ). x.0) e ∙ q) at (Elem-map pair_of r rows i),
  )

  Elem-fetch_topology_edges :
      (c : Client F) (s : c.State) (p : String × String)
      → Elem p (fetch_topology_edges c s) ↔ Elem p (map pair_of (c.tables s).service_edges)
  unfolding fetch_topology_edges
  Elem-fetch_topology_edges c s p =
      let law = Elem-add_keys [] (map pair_of (c.tables s).service_edges) p in
      (λ m. ⊎_elim (λ n. absurd n) (λ i. i) (law.0 m), λ m. law.1 (inr m))

map-edge_row :
    (F : Type 0) ⦃f : Floats F⦄ (edges : List ServiceEdge)
    → map pair_of (map (edge_row {F = F}) edges) ≡ map edge_pair edges
unfolding edge_row
map-edge_row F [] = refl
map-edge_row F (e ∷ es) = ap (λ ps. edge_pair e ∷ ps) (map-edge_row F es)

module _ {F : Type 0} ⦃f : Floats F⦄ (c : Client F) (lawful : IsLawful c) where
  -- After the edges of a window are written, the topology is what it was and the pairs of those edges.
  pub fetch_topology_edges-write_service_edges :
      (s : c.State) (edges : List ServiceEdge) (p : String × String)
      → Elem p (fetch_topology_edges c (write_service_edges c edges s)) ↔ (
          Elem p (map (λ (e : ServiceEdge). (e.caller_service, e.callee_service)) edges)
          ⊎ Elem p (fetch_topology_edges c s))
  unfolding write_service_edges
  fetch_topology_edges-write_service_edges s edges p =
      let rows = map (edge_row {F = F}) edges in
      let after = insert_rows c service_edges rows s in
      let seen = Elem-fetch_topology_edges c after p in
      let seen_before = Elem-fetch_topology_edges c s p in
      let of_edges = map-edge_row F edges in
      (
        λ m.
            let (k, i, q) = (Elem-pair_of (c.tables after).service_edges p).0 (seen.0 m) in
            ⊎_elim (λ j. inl (subst (Elem p) of_edges ((Elem-pair_of rows p).1 (k, j, q))))
              (λ j. inr (seen_before.1 ((Elem-pair_of (c.tables s).service_edges p).1 (k, j, q))))
              ((keys-insert_edges c lawful rows s k).0 i),
        λ m.
            let w : (k : (String × String) × ℕ) × (Elem k (map edge_key rows)
                  ⊎ Elem k (map edge_key (c.tables s).service_edges))
                × (k.0 ≡ p) =
              ⊎_elim
                (λ j.
                  let (k, i, q) = (Elem-pair_of rows p).0 (subst (Elem p) (sym of_edges) j) in
                  (k, inl i, q))
                (λ j.
                  let (k, i, q) = (Elem-pair_of (c.tables s).service_edges p).0 (seen_before.0 j) in
                  (k, inr i, q))
                m in
            seen.1 (
              (Elem-pair_of (c.tables after).service_edges p).1
                (w.0, (keys-insert_edges c lawful rows s w.0).1 w.1, w.2)),
      )
