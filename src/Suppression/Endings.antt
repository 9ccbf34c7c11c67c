-- ===== src/Suppression/Endings.antt =====
-- suppression.py, `resolve_root`: the recursion ends, since `visiting` grows by an incident at each step.
use distributed_tracing_plat.Prelude.{
  ℕ, zero, suc, ◌+◌, ◌≤◌, ◌<◌, Bool, true, false, not, ◌||◌, ◌≡◌, refl, ap, ◌∙◌, inl, inr, List, [],
  ◌∷◌, map, length, filter, length-filter-le, String, string_eq, pair_eq, ◌==◌, if◌then◌else◌,
  contains, Elem, Elem-map, Elem-of_lookup, vals, arith,
}
use text.Mathlib.TextEquality.{eq_iff}
use distributed_tracing_plat.Targets.{service, kind_eq}
use distributed_tracing_plat.Suppression.{
  Key, GroupedIncident, downstream_of, choose, resolve_root, root_of,
}
use distributed_tracing_plat.Suppression.Chains.{Elem-affected}

map_ext :
    {A B : Type 0} (f g : A → B) (xs : List A)
    → ((x : A) → Elem x xs → f x ≡ g x)
    → map f xs ≡ map g xs
map_ext f g [] h = refl
map_ext f g (x ∷ xs) h =
    ap (λ y. y ∷ map f xs) (h x (inl refl))
    ∙ ap (λ ys. g x ∷ ys) (map_ext f g xs (λ y m. h y (inr m)))

if_same :
    {A : Type 0} (c : Bool) (x y z : A)
    → (c ≡ false → y ≡ z)
    → (if c then x else y) ≡ (if c then x else z)
if_same true x y z h = refl
if_same false x y z h = h refl

neither : (a b : Bool) → (a || b) ≡ false → b ≡ false
neither false b h = h
neither true b h = absurd (ground arith)

module _ {F : Type 0} where
  -- The incidents that are not being visited.
  abbrev unvisited : List (Key × GroupedIncident F) → List String → ℕ
  unvisited by_target visiting =
      length (filter (λ e. not (contains visiting e.1.incident_id)) by_target)

  unvisited-cons :
      (by_target : List (Key × GroupedIncident F)) (id : String) (visiting : List String)
      → unvisited by_target (id ∷ visiting) ≤ unvisited by_target visiting
  unfolding filter contains
  unvisited-cons [] id visiting = omega arith
  unvisited-cons ((k, j) ∷ bt) id visiting = ground (arith, unvisited-cons bt id visiting)

  unvisited-lt :
      (by_target : List (Key × GroupedIncident F)) (i : GroupedIncident F) (visiting : List String)
      → Elem i (vals by_target)
      → contains visiting i.incident_id ≡ false
      → unvisited by_target (i.incident_id ∷ visiting) < unvisited by_target visiting
  unfolding filter contains
  unvisited-lt [] i visiting m h = absurd m
  unvisited-lt ((k, j) ∷ bt) i visiting (inl q) h = ground (
    arith,
    unvisited-cons bt i.incident_id visiting,
    ap (λ (i : GroupedIncident F). i.incident_id) q,
    eq_iff i.incident_id j.incident_id,
  )
  unvisited-lt ((k, j) ∷ bt) i visiting (inr m) h = ground (arith, unvisited-lt bt i visiting m h)

module _ {F : Type 0} (by_target : List (Key × GroupedIncident F))
    (outgoing : List (String × List String)) where
  resolve_root-fuel :
      (n m : ℕ) (i : GroupedIncident F) (visiting : List String)
      → Elem i (vals by_target)
      → unvisited by_target visiting < n
      → unvisited by_target visiting < m
      → resolve_root by_target outgoing n i visiting ≡ resolve_root by_target outgoing m i visiting
  unfolding resolve_root
  resolve_root-fuel zero m i visiting e h k = absurd (omega arith)
  resolve_root-fuel (suc n) zero i visiting e h k = absurd (omega arith)
  resolve_root-fuel (suc n) (suc m) i visiting e h k =
      if_same (not (i.target.kind == service) || contains visiting i.incident_id) i _ _ (λ go.
        let new : contains visiting i.incident_id ≡ false = neither _ _ go in
        let fewer = unvisited-lt by_target i visiting e new in
        ap (choose by_target outgoing i) (
          map_ext _ _ (downstream_of by_target outgoing i) (λ d n'.
            let (callee, c, q, o) = Elem-affected by_target outgoing i d _ n' in
            resolve_root-fuel n m d (i.incident_id ∷ visiting)
              (Elem-map (λ x. x.1) _ by_target (Elem-of_lookup _ d by_target q)) (omega arith)
              (omega arith))))

  -- The fuel of `root_of` is enough: with any fuel above the number of incidents of `by_target`,
  -- `resolve_root` gives the same root for an incident of `by_target`.
  pub root_of-fuel :
      (fuel : ℕ) (i : GroupedIncident F)
      → Elem i (vals by_target)
      → length by_target < fuel
      → resolve_root by_target outgoing fuel i [] ≡ root_of by_target outgoing i
  root_of-fuel fuel i e h =
      let few =
        length-filter-le (λ (x : Key × GroupedIncident F). not (contains [] x.1.incident_id))
          by_target in
      resolve_root-fuel fuel (length by_target + 1) i [] e (omega arith) (omega arith)
