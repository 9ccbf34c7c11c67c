-- ===== src/Suppression/Echoes.antt =====
-- suppression.py, `suppress_propagated`: which incidents become derived, and from which root.
use distributed_tracing_plat.Prelude.{
  Bool, true, false, not, ◌||◌, ◌≡◌, ◌≢◌, refl, ◌∙◌, sym, inl, inr, Option, none, some, List, [],
  ◌∷◌, String, string_eq, pair_eq, ◌==◌, ne_of_beq, if_elim, Elem, Elem-map, Elem-of_lookup, lookup,
  insert, lookup-insert, vals, arith,
}
use text.Mathlib.TextEquality.{eq_iff}
use distributed_tracing_plat.Detectors.Loops.{some_inj}
use distributed_tracing_plat.Targets.{TargetKind, service, edge, kind_eq, kind_beq_iff}
use distributed_tracing_plat.Suppression.{
  Key, GroupedIncident, overlaps, mark_derived, root_of, resolve_service, resolve_edge, derive_edge,
  resolve_all, resolved_incidents,
}
use distributed_tracing_plat.Suppression.Chains.{Echoes, own, hop, resolve_root-Echoes}

neither : (a b : Bool) → (a || b) ≡ false → (a ≡ false) × (b ≡ false)
neither false b h = (refl, h)
neither true b h = absurd (ground arith)

kind_of_not : (a b : TargetKind) → not (a == b) ≡ false → a ≡ b
kind_of_not a b h = ground (arith, kind_beq_iff a b)

module _ {F : Type 0} (by_target : List (Key × GroupedIncident F))
    (outgoing : List (String × List String)) where
  -- The reason for which `i` is derived from `r`: a service's incident leads to another incident by a chain,
  -- or an edge's incident overlaps the incident of its callee, of the same detector, and that leads to it.
  pub data Explains : GroupedIncident F → GroupedIncident F → Type 0 where
    by_service :
        (i r : GroupedIncident F)
        → i.target.kind ≡ service
        → Echoes by_target outgoing i r
        → r.incident_id ≢ i.incident_id
        → Explains i r
    by_edge :
        (i c r : GroupedIncident F)
        → i.target.kind ≡ edge
        → lookup (service, (i.target.callee, i.detector)) by_target ≡ some c
        → overlaps i c ≡ true
        → Echoes by_target outgoing c r
        → Explains i r

  -- `resolved` holds incidents of `by_target` under their identifiers, derived for a reason.
  abbrev Explained : List (String × GroupedIncident F) → Type 0
  Explained resolved =
      (id : String) (o : GroupedIncident F)
      → lookup id resolved ≡ some o
      → (i : GroupedIncident F) × (r : GroupedIncident F) × Elem i (vals by_target)
        × (i.incident_id ≡ id)
        × (o ≡ mark_derived by_target outgoing i r)
        × Explains i r

  Explained-insert :
      (resolved : List (String × GroupedIncident F)) (i r : GroupedIncident F)
      → Explained resolved
      → Elem i (vals by_target)
      → Explains i r
      → Explained (insert i.incident_id (mark_derived by_target outgoing i r) resolved)
  Explained-insert resolved i r h m x id o q =
      if_elim
        (λ found.
          found ≡ some o
          → (i : GroupedIncident F) × (r : GroupedIncident F) × Elem i (vals by_target)
            × (i.incident_id ≡ id)
            × (o ≡ mark_derived by_target outgoing i r)
            × Explains i r)
        (i.incident_id == id) (some (mark_derived by_target outgoing i r)) (lookup id resolved)
        (λ e s. (i, r, m, (eq_iff i.incident_id id).0 e, sym (some_inj _ _ s), x)) (λ e s. h id o s)
        (sym (lookup-insert i.incident_id id (mark_derived by_target outgoing i r) resolved) ∙ q)

  Explained-service :
      (resolved : List (String × GroupedIncident F)) (i : GroupedIncident F)
      → Explained resolved
      → Elem i (vals by_target)
      → Explained (resolve_service by_target outgoing resolved i)
  unfolding resolve_service
  Explained-service resolved i h m =
      let root = root_of by_target outgoing i in
      if_elim Explained (not (i.target.kind == service) || (root.incident_id == i.incident_id)) _ _
        (λ _. h)
        (λ go.
          let (is_service, other) = neither _ _ go in
          Explained-insert resolved i root h m (
            by_service i root (kind_of_not _ _ is_service)
              (resolve_root-Echoes by_target outgoing _ i [])
              (ne_of_beq root.incident_id i.incident_id other)))

  Explained-derive_edge :
      (resolved : List (String × GroupedIncident F)) (i : GroupedIncident F)
      (o : Option (GroupedIncident F))
      → Explained resolved
      → Elem i (vals by_target)
      → i.target.kind ≡ edge
      → lookup (service, (i.target.callee, i.detector)) by_target ≡ o
      → Explained (derive_edge by_target outgoing resolved i o)
  unfolding derive_edge
  Explained-derive_edge resolved i none h m k q = h
  Explained-derive_edge resolved i (some c) h m k q =
      if_elim Explained (not (overlaps i c)) _ _ (λ _. h)
        (λ go.
          Explained-insert resolved i (root_of by_target outgoing c) h m (
            by_edge i c _ k q (ground (arith, go)) (resolve_root-Echoes by_target outgoing _ c [])))

  Explained-edge :
      (resolved : List (String × GroupedIncident F)) (i : GroupedIncident F)
      → Explained resolved
      → Elem i (vals by_target)
      → Explained (resolve_edge by_target outgoing resolved i)
  unfolding resolve_edge
  Explained-edge resolved i h m =
      if_elim Explained (not (i.target.kind == edge)) _ _ (λ _. h)
        (λ go. Explained-derive_edge resolved i _ h m (kind_of_not _ _ go) refl)

  Explained-resolve_all :
      (step : List (String × GroupedIncident F)
        → GroupedIncident F
        → List (String × GroupedIncident F))
      (resolved : List (String × GroupedIncident F)) (is : List (GroupedIncident F))
      → ((resolved : List (String × GroupedIncident F)) (i : GroupedIncident F)
          → Explained resolved
          → Elem i (vals by_target)
          → Explained (step resolved i))
      → Explained resolved
      → ((i : GroupedIncident F) → Elem i is → Elem i (vals by_target))
      → Explained (resolve_all by_target outgoing step resolved is)
  unfolding resolve_all
  Explained-resolve_all step resolved [] k h m = h
  Explained-resolve_all step resolved (i ∷ is) k h m =
      Explained-resolve_all step (step resolved i) is k (k resolved i h (m i (inl refl)))
        (λ j n. m j (inr n))

  pub Explained-resolved : Explained (resolved_incidents by_target outgoing)
  unfolding resolved_incidents lookup
  Explained-resolved =
      Explained-resolve_all (resolve_edge by_target outgoing) _ (vals by_target) Explained-edge
        (Explained-resolve_all (resolve_service by_target outgoing) [] (vals by_target)
          Explained-service (λ id o q. absurd (ground (arith, q))) (λ i m. m))
        (λ i m. m)

  -- The end of a chain is its start or an incident of `by_target`.
  Elem-Echoes :
      (i r : GroupedIncident F)
      → Echoes by_target outgoing i r
      → Elem i (vals by_target)
      → Elem r (vals by_target)
  Elem-Echoes i _ (own _) m = m
  Elem-Echoes i r (hop _ d _ (callee, c, q, o) e) m =
      Elem-Echoes d r e (Elem-map (λ x. x.1) _ by_target (Elem-of_lookup _ d by_target q))

  pub Elem-Explains :
      (i r : GroupedIncident F) → Explains i r → Elem i (vals by_target) → Elem r (vals by_target)
  Elem-Explains i r (by_service _ _ k e ne) m = Elem-Echoes i r e m
  Elem-Explains i r (by_edge _ c _ k q o e) m =
      Elem-Echoes c r e (Elem-map (λ x. x.1) _ by_target (Elem-of_lookup _ c by_target q))
