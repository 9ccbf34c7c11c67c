-- ===== src/Suppression/Outcomes.antt =====
-- suppression.py, `suppress_propagated`: what becomes of each incident.
use distributed_tracing_plat.Prelude.{
  ◌≡◌, ◌⊎◌, refl, ap, sym, subst, inl, inr, ⊎_elim, Option-cases, List, [], ◌∷◌, map, String,
  string_eq, pair_eq, Eq, Elem, lookup, insert, insert_all, vals, group, Bool-cases, ◌==◌,
}
use distributed_tracing_plat.Targets.{kind_eq}
use distributed_tracing_plat.Suppression.{
  GroupedIncident, by_target_of, incident_key, mark_derived, resolved_incidents, replace_resolved,
  or_else, suppress_propagated,
}
use distributed_tracing_plat.Suppression.Echoes.{Explains, Explained-resolved, Elem-Explains}

-- A relation between the elements of two lists at the same places.
abbrev pub Pairwise : {A B : Type 0} → (A → B → Type 0) → List A → List B → Type 0
Pairwise R [] [] = Unit {0}
Pairwise R [] (y ∷ ys) = ⊥
Pairwise R (x ∷ xs) [] = ⊥
Pairwise R (x ∷ xs) (y ∷ ys) = R x y × Pairwise R xs ys

Pairwise-map :
    {A B : Type 0} (R : A → B → Type 0) (f : A → B) (xs : List A)
    → ((x : A) → Elem x xs → R x (f x))
    → Pairwise R xs (map f xs)
Pairwise-map R f [] h = tt
Pairwise-map R f (x ∷ xs) h = (h x (inl refl), Pairwise-map R f xs (λ y m. h y (inr m)))

module _ {K V : Type 0} ⦃e : Eq K⦄ where
  Elem-vals-insert :
      (k : K) (w v : V) (d : List (K × V))
      → Elem v (vals (insert k w d))
      → (w ≡ v) ⊎ Elem v (vals d)
  unfolding insert
  Elem-vals-insert k w v [] m = ⊎_elim inl (λ n. absurd n) m
  Elem-vals-insert k w v ((j, u) ∷ d) m = elim (Bool-cases (j == k)) [
    | inl q ↦ ⊎_elim inl (λ n. inr (inr n)) (rw q at m)
    | inr q ↦
        ⊎_elim (λ s. inr (inl s)) (λ n. ⊎_elim inl (λ i. inr (inr i)) (Elem-vals-insert k w v d n))
          (rw q at m)
  ]

  Elem-vals-insert_all :
      (v : V) (d ps : List (K × V))
      → Elem v (vals (insert_all d ps))
      → Elem v (vals d) ⊎ Elem v (vals ps)
  unfolding insert_all
  Elem-vals-insert_all v d [] m = inl m
  Elem-vals-insert_all v d ((k, w) ∷ ps) m =
      ⊎_elim (λ n. ⊎_elim (λ q. inr (inl q)) inl (Elem-vals-insert k w v d n)) (λ n. inr (inr n))
        (Elem-vals-insert_all v (insert k w d) ps m)

vals_keyed :
    {F : Type 0} (incidents : List (GroupedIncident F))
    → vals (map (λ (i : GroupedIncident F). (incident_key i, i)) incidents) ≡ incidents
vals_keyed [] = refl
vals_keyed (i ∷ is) = ap (λ rest. i ∷ rest) (vals_keyed is)

module _ {F : Type 0} (incidents : List (GroupedIncident F)) (edges : List (String × String)) where
  Elem-by_target :
      (i : GroupedIncident F) → Elem i (vals (by_target_of incidents)) → Elem i incidents
  Elem-by_target i m =
      ⊎_elim (λ n. absurd n) (λ n. subst (Elem i) (vals_keyed incidents) n)
        (Elem-vals-insert_all i [] _ m)

  -- An identifier belongs to one incident.
  abbrev pub IdsApart : Type 0
  IdsApart =
      (i j : GroupedIncident F)
      → Elem i incidents
      → Elem j incidents
      → i.incident_id ≡ j.incident_id
      → i ≡ j

  -- An incident is kept, or it is marked as derived from an incident that explains it.
  abbrev pub Outcome : GroupedIncident F → GroupedIncident F → Type 0
  Outcome i out =
      (out ≡ i)
      ⊎ ((r : GroupedIncident F) × Elem r incidents
          × (out ≡ mark_derived (by_target_of incidents) (group edges) i r)
          × Explains (by_target_of incidents) (group edges) i r)

  replace_resolved-Outcome :
      (i : GroupedIncident F)
      → IdsApart
      → Elem i incidents
      → Outcome i (replace_resolved (resolved_incidents (by_target_of incidents) (group edges)) i)
  unfolding replace_resolved
  replace_resolved-Outcome i apart m =
      let resolved = resolved_incidents (by_target_of incidents) (group edges) in
      elim (Option-cases (lookup i.incident_id resolved)) [
        | inl e ↦ subst (λ o. Outcome i (or_else i o)) (sym e) (inl refl)
        | inr (o, e) ↦
            let (j, r, n, id, q, x) =
              Explained-resolved (by_target_of incidents) (group edges) i.incident_id o e in
            let same : j ≡ i = apart j i (Elem-by_target j n) m id in
            let found = Elem-by_target r (Elem-Explains _ _ j r x n) in
            let outcome : Outcome i o = subst (λ k. Outcome k o) same (inr (r, found, q, x)) in
            subst (λ o. Outcome i (or_else i o)) (sym e) outcome
      ]

  -- If no two incidents share an identifier, `suppress_propagated` returns the incidents in their order,
  -- each of them as it was or marked as derived from another incident of the list; and then a service's
  -- incident leads to that one, which is not itself, by a chain of overlapping incidents of called services, and an
  -- edge's incident overlaps the incident of its callee, of the same detector, which leads to it.
  pub suppress_propagated_sound :
      IdsApart → Pairwise Outcome incidents (suppress_propagated incidents edges)
  unfolding suppress_propagated
  suppress_propagated_sound apart =
      Pairwise-map Outcome _ incidents (λ i m. replace_resolved-Outcome i apart m)
