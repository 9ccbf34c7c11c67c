-- ===== src/Prelude/Grouping.antt =====
-- What a grouping amounts to: each key once, in the order of first occurrence, with the values
-- that stood under it, in their order.
use Prim.Native.Nat.{ℕ, ◌+◌}
use distributed_tracing_plat.Prelude.Tests.{Eq, ◌==◌, if◌then◌else◌, Bool-cases, beq_refl}
use distributed_tracing_plat.Prelude.Lists.{
  contains, Elem, Distinct, length, length-append, contains-append, contains_iff, Elem-map,
  Elem-map_inv,
}
use distributed_tracing_plat.Prelude.Dict.{lookup, keys, vals}
use distributed_tracing_plat.Prelude.Groups.{
  push, group_from, group, get_group, values, values-append, add_key, add_keys, firsts,
  Distinct-add_key, Elem-add_keys,
}
use mathlib.Core.Path.{◌≡◌, refl, sym, ap, subst, ◌∙◌}
use mathlib.Core.Logic.{inl, inr, ⊎_elim}
use mathlib.Core.Bool.{false}
use mathlib.Core.Option.{none, some}
use mathlib.Core.List.{List, [], ◌∷◌, ◌++◌, map, append_assoc, append-nil}
use native.Mathlib.Omega.{arith}

module _ {K V : Type 0} where
  -- The number of values in all groups.
  abbrev pub total : List (K × List V) → ℕ
  total [] = 0
  total ((k, vs) ∷ d) = length vs + total d

module _ {K V : Type 0} ⦃e : Eq K⦄ where
  abbrev pub entries : List (K × V) → List K → List (K × List V)
  entries ps ks = map (λ k. (k, values k ps)) ks

  entries_unchanged :
      (ps : List (K × V)) (ks : List K) (k : K) (v : V)
      → contains ks k ≡ false
      → entries (ps ++ (k, v) ∷ []) ks ≡ entries ps ks
  unfolding contains values
  entries_unchanged ps [] k v h = refl
  entries_unchanged ps (j ∷ ks) k v h = ground (
    arith,
    entries_unchanged ps ks k v,
    values-append j ps ((k, v) ∷ []),
    append-nil (values j ps),
    e.beq_iff j k,
    e.beq_iff k j,
  )

  push-entries :
      (ps : List (K × V)) (ks : List K) (k : K) (v : V)
      → Distinct ks
      → (contains ks k ≡ false → values k ps ≡ [])
      → push k v (entries ps ks) ≡ entries (ps ++ (k, v) ∷ []) (add_key ks k)
  unfolding contains values push
  push-entries ps [] k v d h = ground (arith, values-append k ps ((k, v) ∷ []), beq_refl k, h refl)
  push-entries ps (j ∷ ks) k v d h = elim (Bool-cases (j == k)) [
    | inl same ↦ ground (
      arith,
      values-append j ps ((k, v) ∷ []),
      e.beq_iff j k,
      e.beq_iff k j,
      entries_unchanged ps ks k v,
    )
    | inr other ↦ ground (
      arith,
      push-entries ps ks k v d.1 (λ q. h (rw other q)),
      values-append j ps ((k, v) ∷ []),
      append-nil (values j ps),
      e.beq_iff j k,
      e.beq_iff k j,
    )
  ]

  values-nil_of_absent :
      (ps : List (K × V)) (k : K) → contains (keys ps) k ≡ false → values k ps ≡ []
  unfolding contains values
  values-nil_of_absent [] k h = refl
  values-nil_of_absent ((j, v) ∷ ps) k h = ground (arith, values-nil_of_absent ps k)

  absent_snoc :
      (ps : List (K × V)) (ks : List K) (k : K) (v : V)
      → ((j : K) → contains ks j ≡ false → values j ps ≡ [])
      → (j : K) → contains (add_key ks k) j ≡ false
      → values j (ps ++ (k, v) ∷ []) ≡ []
  unfolding contains values
  absent_snoc ps ks k v h j q =
      ground
        (arith, values-append j ps ((k, v) ∷ []), h j, contains-append ks (k ∷ []) j, e.beq_iff k j)

  -- The keys collected so far are those of `ps`.
  group_from-entries :
      (ps qs : List (K × V)) (ks : List K)
      → Distinct ks
      → ((k : K) → contains ks k ≡ false → values k ps ≡ [])
      → group_from (entries ps ks) qs ≡ entries (ps ++ qs) (add_keys ks (keys qs))
  unfolding group_from add_keys
  group_from-entries ps [] ks d h = rw append-nil
  group_from-entries ps ((k, v) ∷ qs) ks d h = rw (push-entries ps ks k v d (h k)) (
      rw
        (group_from-entries (ps ++ (k, v) ∷ []) qs (add_key ks k) (Distinct-add_key ks k d)
          (absent_snoc ps ks k v h))
        (rw append_assoc))

  pub group-eq-entries : (ps : List (K × V)) → group ps ≡ entries ps (firsts (keys ps))
  unfolding group values
  group-eq-entries ps = group_from-entries [] ps [] tt (λ k h. refl)

  lookup-entries :
      (ps : List (K × V)) (ks : List K) (k : K)
      → lookup k (entries ps ks) ≡ (if contains ks k then some (values k ps) else none)
  unfolding lookup contains
  lookup-entries ps [] k = refl
  lookup-entries ps (j ∷ ks) k = ground (arith, lookup-entries ps ks k, e.beq_iff j k)

  -- Under each key stand the values of that key.
  pub get_group-group : (k : K) (ps : List (K × V)) → get_group k (group ps) ≡ values k ps
  unfolding get_group
  get_group-group k ps = rw (group-eq-entries ps) (
      ground (
        arith,
        lookup-entries ps (firsts (keys ps)) k,
        values-nil_of_absent ps k,
        Elem-add_keys [] (keys ps) k,
        contains_iff (keys ps) k,
        contains_iff (firsts (keys ps)) k,
      ))

  total-push : (k : K) (v : V) (d : List (K × List V)) → total (push k v d) ≡ total d + 1
  unfolding push
  total-push k v [] = refl
  total-push k v ((j, vs) ∷ d) = ground (arith, total-push k v d, length-append vs (v ∷ []))

  total-group_from :
      (d : List (K × List V)) (ps : List (K × V)) → total (group_from d ps) ≡ total d + length ps
  unfolding group_from
  total-group_from d [] = omega arith
  total-group_from d ((k, v) ∷ ps) =
      omega (arith, total-group_from (push k v d) ps, total-push k v d)

  -- Grouping loses no value and repeats none.
  pub total-group : (ps : List (K × V)) → total (group ps) ≡ length ps
  unfolding group
  total-group ps = omega (arith, total-group_from [] ps)

  -- A group holds all values of one key.
  pub group_of_Elem :
      (ps : List (K × V)) (vs : List V)
      → Elem vs (vals (group ps))
      → (k : K) × Elem k (keys ps) × (values k ps ≡ vs)
  group_of_Elem ps vs m =
      let (entry, n, q) = Elem-map_inv (λ x. x.1) vs (group ps) m in
      let (k, i, r) =
        Elem-map_inv (λ k. (k, values k ps)) entry (firsts (keys ps))
          (subst (Elem entry) (group-eq-entries ps) n) in
      (k, ⊎_elim (λ h. absurd h) (λ h. h) ((Elem-add_keys [] (keys ps) k).0 i), ap (λ x. x.1) r ∙ q)

  pub Elem-vals-group :
      (ps : List (K × V)) (k : K) → Elem k (keys ps) → Elem (values k ps) (vals (group ps))
  Elem-vals-group ps k m =
      Elem-map (λ x. x.1) (k, values k ps) (group ps)
        (rw (group-eq-entries ps) (
          Elem-map (λ k. (k, values k ps)) k (firsts (keys ps))
            ((Elem-add_keys [] (keys ps) k).1 (inr m))))

  -- A group stands under a key of a pair.
  pub Elem-group_key :
      (ps : List (K × V)) (k : K) (vs : List V) → Elem (k, vs) (group ps) → Elem k (keys ps)
  Elem-group_key ps k vs m =
      let (j, i, q) =
        Elem-map_inv (λ k. (k, values k ps)) (k, vs) (firsts (keys ps))
          (subst (Elem (k, vs)) (group-eq-entries ps) m) in
      subst (λ x. Elem x (keys ps)) (ap (λ x. x.0) q)
        (⊎_elim (λ h. absurd h) (λ h. h) ((Elem-add_keys [] (keys ps) j).0 i))

  -- A group holds the values of its key.
  pub values_of_group :
      (ps : List (K × V)) (k : K) (vs : List V) → Elem (k, vs) (group ps) → vs ≡ values k ps
  values_of_group ps k vs m =
      let (j, i, q) =
        Elem-map_inv (λ k. (k, values k ps)) (k, vs) (firsts (keys ps))
          (subst (Elem (k, vs)) (group-eq-entries ps) m) in
      sym (ap (λ x. x.1) q) ∙ ap (λ x. values x ps) (ap (λ x. x.0) q)
