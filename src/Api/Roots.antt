-- ===== src/Api/Roots.antt =====
-- queries.py, `fetch_detections`: the target of the root of an incident.
use distributed_tracing_plat.Prelude.{
  ℕ, ◌≤◌, ◌≡◌, ◌≢◌, ◌↔◌, refl, true, arith, ap, sym, subst, ◌∙◌, inl, inr, ⊎_elim, String,
  string_eq, ◌==◌, Option, none, some, List, [], map, lookup, insert_all, keys, lookup-insert_all,
  lookup-insert_all_mem, Elem, Elem-map, Elem-map_inv, Bool-cases,
}
use text.Mathlib.TextEquality.{eq_iff}
use distributed_tracing_plat.Storage as Storage
use distributed_tracing_plat.Storage.{Client}
use distributed_tracing_plat.Api.Traces.{truth}
use distributed_tracing_plat.Api.Listings.{
  IncidentRow, root_target, incident_answer, id_to_target, incident_rows, fetch_detections,
}

none-ne-some : (t : String) → ◌≡◌ {A = Option String} none (some t) → ⊥
none-ne-some t h = cc

root_target-eq-some :
    (targets : List (String × String)) (root t : String)
    → root_target targets root ≡ some t
    → lookup root targets ≡ some t
unfolding root_target
root_target-eq-some targets root t h = elim (Bool-cases (root == "")) [
  | inl empty ↦ absurd (none-ne-some t (rw empty at h))
  | inr other ↦ rw other at h
]

root_target-eq_lookup :
    (targets : List (String × String)) (root : String)
    → root ≢ ""
    → root_target targets root ≡ lookup root targets
unfolding root_target
root_target-eq_lookup targets root h = elim (Bool-cases (root == "")) [
  | inl empty ↦ absurd (h ((eq_iff root "").0 empty))
  | inr other ↦ rw other
]

lookup_nil : (k t : String) → lookup k [] ≡ some t → ⊥
unfolding lookup
lookup_nil k t h = cc

-- The answer has the columns of the row; a flag that is not zero is true.
abbrev pub Shows : {F : Type 0} → Storage.IncidentRow F → IncidentRow F → Type 0
Shows r i =
    (i.incident_id ≡ r.incident_id)
    × (i.target_type ≡ r.target_type)
    × (i.target ≡ r.target)
    × (i.detector ≡ r.detector)
    × (i.start_window ≡ r.start_window)
    × (i.end_window ≡ r.end_window)
    × (i.window_count ≡ r.window_count)
    × (i.peak_severity ≡ r.peak_severity)
    × (i.peak_deviation ≡ r.peak_deviation)
    × ((i.derived ≡ true) ↔ (1 ≤ r.derived))
    × (i.root_cause_incident_id ≡ r.root_cause_incident_id)

flag-Shows : {F : Type 0} (r : Storage.IncidentRow F) → (truth r.derived ≡ true) ↔ (1 ≤ r.derived)
flag-Shows r = ground arith

module _ {F : Type 0} (c : Client F) where
  -- Each incident of an answer shows one of the rows read. Its root's target is given only if a row read has
  -- the root's identifier and that target; and it is given if the identifier is not empty and a row read has
  -- it.
  pub root_cause_target_exact :
      (s : c.State) (start end : ℕ) (target : Option String) (max_rows : ℕ) (i : IncidentRow F)
      → Elem i (fetch_detections c s start end target max_rows)
      → let rows = incident_rows c s start end target max_rows in
        ((r : Storage.IncidentRow F) × Elem r rows × Shows r i)
        × ((t : String)
            → i.root_cause_target ≡ some t
            → (r : Storage.IncidentRow F) × Elem r rows
              × (r.incident_id ≡ i.root_cause_incident_id)
              × (r.target ≡ t))
        × ((r : Storage.IncidentRow F)
            → Elem r rows
            → r.incident_id ≡ i.root_cause_incident_id
            → i.root_cause_incident_id ≢ ""
            → i.root_cause_target ≢ none)
  unfolding fetch_detections incident_answer id_to_target root_target
  root_cause_target_exact s start end target max_rows i m =
      let rows = incident_rows c s start end target max_rows in
      let pairs = map (λ (r : Storage.IncidentRow F). (r.incident_id, r.target)) rows in
      let (x, n, e) = Elem-map_inv (incident_answer (id_to_target rows)) i rows m in
      let root = x.root_cause_incident_id in
      let answer : root_target (insert_all [] pairs) root ≡ i.root_cause_target =
        ap (λ (y : IncidentRow F). y.root_cause_target) e in
      let same : root ≡ i.root_cause_incident_id =
        ap (λ (y : IncidentRow F). y.root_cause_incident_id) e in
      (
        (
          x,
          n,
          subst (Shows x) e
              (refl, refl, refl, refl, refl, refl, refl, refl, refl, flag-Shows x, refl),
        ),
        λ t h.
            let found = root_target-eq-some (insert_all [] pairs) root t (answer ∙ h) in
            let entry : Elem (root, t) pairs =
              ⊎_elim (λ k. k) (λ k. absurd (lookup_nil root t k))
                (lookup-insert_all root t [] pairs found) in
            let (r, k, q) =
              Elem-map_inv (λ (r : Storage.IncidentRow F). (r.incident_id, r.target)) (root, t) rows
                entry in
            (r, k, ap (λ (p : String × String). p.0) q ∙ same, ap (λ (p : String × String). p.1) q),
        λ r k own some_root missing.
            let keyed =
              Elem-map (λ (p : String × String). p.0) (r.incident_id, r.target) pairs
                (Elem-map (λ (r : Storage.IncidentRow F). (r.incident_id, r.target)) r rows k) in
            lookup-insert_all_mem root [] pairs
              (inl (subst (λ id. Elem id (keys pairs)) (own ∙ sym same) keyed))
              (sym (
                  root_target-eq_lookup (insert_all [] pairs) root
                    (subst (λ id. id ≢ "") (sym same) some_root))
                ∙ answer
                ∙ missing),
      )
