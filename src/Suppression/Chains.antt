-- ===== src/Suppression/Chains.antt =====
-- suppression.py, `resolve_root`: the chain of incidents from an incident to its root, and the end of the
-- recursion.
use distributed_tracing_plat.Prelude.{
  ℕ, zero, suc, Bool, true, false, not, ◌||◌, ◌≡◌, ◌⊎◌, refl, ap, ◌∙◌, sym, subst, inl, inr, ⊎_elim,
  Option, none, some, List, [], ◌∷◌, map, String, string_eq, pair_eq, ◌==◌, if◌then◌else◌, contains,
  Elem, Elem-if, if_elim, Elem-map_inv, lookup, get_group,
}
use distributed_tracing_plat.Targets.{service, kind_eq, label}
use distributed_tracing_plat.Suppression.{
  Key, GroupedIncident, overlaps, least_label, string_ltb, affected, keep_affected, downstream_of,
  choose, resolve_root, incident_key,
}

least_label-Elem :
    {F : Type 0} (best : GroupedIncident F) (cs : List (GroupedIncident F))
    → Elem (least_label best cs) (best ∷ cs)
unfolding least_label
least_label-Elem best [] = inl refl
least_label-Elem best (c ∷ cs) =
    let less = string_ltb (label c.target) (label best.target) in
    Elem-if less _ best c cs (least_label-Elem (if less then c else best) cs)

Elem-if_cons :
    {A : Type 0} (c : Bool) (d x : A) (rest : List A)
    → Elem d (if c then x ∷ rest else rest)
    → ((c ≡ true) × (x ≡ d)) ⊎ Elem d rest
Elem-if_cons true d x rest m = ⊎_elim (λ q. inl (refl, q)) inr m
Elem-if_cons false d x rest m = inr m

Elem-keep_affected :
    {F : Type 0} (i d : GroupedIncident F) (o : Option (GroupedIncident F))
    (rest : List (GroupedIncident F))
    → Elem d (keep_affected i o rest)
    → ((o ≡ some d) × (overlaps i d ≡ true)) ⊎ Elem d rest
Elem-keep_affected i d none rest m = inr m
Elem-keep_affected i d (some x) rest m =
    ⊎_elim (λ (o, q). inl (ap some q, subst (λ x. overlaps i x ≡ true) q o)) inr
      (Elem-if_cons (overlaps i x) d x rest m)

module _ {F : Type 0} (by_target : List (Key × GroupedIncident F))
    (outgoing : List (String × List String)) where
  -- One hop: the incident of a service that the incident's target calls, of the same detector, with an
  -- overlapping window.
  abbrev pub Hop : GroupedIncident F → GroupedIncident F → Type 0
  Hop i d =
      (callee : String) × Elem callee (get_group i.target.callee outgoing)
      × (lookup (service, (callee, i.detector)) by_target ≡ some d)
      × (overlaps i d ≡ true)

  -- A hop to an incident among some of the called services.
  abbrev Source : GroupedIncident F → GroupedIncident F → List String → Type 0
  Source i d callees =
      (callee : String) × Elem callee callees
      × (lookup (service, (callee, i.detector)) by_target ≡ some d)
      × (overlaps i d ≡ true)

  -- A chain of hops.
  pub data Echoes : GroupedIncident F → GroupedIncident F → Type 0 where
    own : (i : GroupedIncident F) → Echoes i i
    hop : (i d r : GroupedIncident F) → Hop i d → Echoes d r → Echoes i r

  pub Elem-affected :
      (i d : GroupedIncident F) (callees : List String)
      → Elem d (affected by_target outgoing i callees)
      → Source i d callees
  unfolding affected
  Elem-affected i d [] m = absurd m
  Elem-affected i d (callee ∷ callees) m =
      ⊎_elim (λ (q, o). (callee, inl refl, q, o))
        (λ n. let (x, j, q, o) = Elem-affected i d callees n in (x, inr j, q, o))
        (Elem-keep_affected i d (lookup (service, (callee, i.detector)) by_target) _ m)

  choose-cases :
      (i : GroupedIncident F) (cs : List (GroupedIncident F))
      → (choose by_target outgoing i cs ≡ i) ⊎ Elem (choose by_target outgoing i cs) cs
  unfolding choose
  choose-cases i [] = inl refl
  choose-cases i (c ∷ cs) = inr (least_label-Elem c cs)

  choose-Echoes :
      (i : GroupedIncident F) (resolve : GroupedIncident F → GroupedIncident F)
      → ((d : GroupedIncident F) → Echoes d (resolve d))
      → Echoes i (choose by_target outgoing i (map resolve (downstream_of by_target outgoing i)))
  choose-Echoes i resolve h =
      let cs = map resolve (downstream_of by_target outgoing i) in
      ⊎_elim (λ q. subst (Echoes i) (sym q) (own i))
        (λ m.
          let (d, n, q) =
            Elem-map_inv resolve (choose by_target outgoing i cs)
              (downstream_of by_target outgoing i) m in
          subst (Echoes i) q (hop i d (resolve d) (Elem-affected i d _ n) (h d)))
        (choose-cases i cs)

  -- `resolve_root` ends on a chain from the incident, whatever the fuel is.
  pub resolve_root-Echoes :
      (fuel : ℕ) (i : GroupedIncident F) (visiting : List String)
      → Echoes i (resolve_root by_target outgoing fuel i visiting)
  unfolding resolve_root
  resolve_root-Echoes zero i visiting = own i
  resolve_root-Echoes (suc fuel) i visiting =
      if_elim (Echoes i) (not (i.target.kind == service) || contains visiting i.incident_id) _ _
        (λ stop. own i)
        (λ go. choose-Echoes i _ (λ d. resolve_root-Echoes fuel d (i.incident_id ∷ visiting)))

  -- A chain is about one detector, and the key of a hop's end is the key it stands under.
  Echoes-detector :
      ((key : Key) (d : GroupedIncident F) → lookup key by_target ≡ some d → incident_key d ≡ key)
      → (i r : GroupedIncident F) → Echoes i r
      → r.detector ≡ i.detector
  Echoes-detector keyed i _ (own _) = refl
  Echoes-detector keyed i r (hop _ d _ (callee, m, q, o) e) =
      Echoes-detector keyed d r e ∙ ap (λ (k : Key). k.1.1) (keyed _ d q)
