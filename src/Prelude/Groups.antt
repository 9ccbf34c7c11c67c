-- ===== src/Prelude/Groups.antt =====
-- Grouping by `groups[k].append(v)` on a `defaultdict(list)`, and what it amounts to: each key
-- once, in the order of first occurrence, with the values that stood under it, in their order.
use distributed_tracing_plat.Prelude.Tests.{Eq, ◌==◌, if◌then◌else◌, Bool-cases}
use distributed_tracing_plat.Prelude.Lists.{contains, Elem, Distinct, contains-append, contains_iff}
use distributed_tracing_plat.Prelude.Dict.{lookup}
use mathlib.Core.Path.{◌≡◌, refl}
use mathlib.Core.Logic.{◌↔◌, ◌⊎◌, inl, inr}
use mathlib.Core.Bool.{true, false}
use mathlib.Core.Option.{none, some}
use mathlib.Core.List.{List, [], ◌∷◌, ◌++◌}
use native.Mathlib.Omega.{arith}

module _ {K V : Type 0} ⦃e : Eq K⦄ where
  -- `groups[k].append(v)`
  unfoldable pub push : K → V → List (K × List V) → List (K × List V)
  push k v [] = (k, v ∷ []) ∷ []
  push k v ((j, vs) ∷ d) = if j == k then (j, vs ++ v ∷ []) ∷ d else (j, vs) ∷ push k v d

  unfoldable pub group_from : List (K × List V) → List (K × V) → List (K × List V)
  group_from d [] = d
  group_from d ((k, v) ∷ ps) = group_from (push k v d) ps

  unfoldable pub group : List (K × V) → List (K × List V)
  unfolding group_from
  group ps = group_from [] ps

  -- `groups.get(k, ())`
  unfoldable pub get_group : K → List (K × List V) → List V
  unfolding lookup
  get_group k d = elim (lookup k d) [ none ↦ [] | some vs ↦ vs ]

  pub get_group_of_lookup :
      (k : K) (d : List (K × List V)) (vs : List V) → lookup k d ≡ some vs → get_group k d ≡ vs
  unfolding get_group
  get_group_of_lookup k d vs h = ground (arith, h)

  -- The values under a key.
  unfoldable pub values : K → List (K × V) → List V
  values k [] = []
  values k ((j, v) ∷ ps) = let rest = values k ps in if j == k then v ∷ rest else rest

  pub values-append :
      (k : K) (ps qs : List (K × V)) → values k (ps ++ qs) ≡ values k ps ++ values k qs
  unfolding values
  values-append k [] qs = refl
  values-append k ((j, v) ∷ ps) qs = ground (arith, values-append k ps qs)

  pub Elem-values : (k : K) (v : V) (ps : List (K × V)) → Elem v (values k ps) ↔ Elem (k, v) ps
  unfolding values
  Elem-values k v [] = (λ h. h, λ h. h)
  Elem-values k v ((j, w) ∷ ps) = (
    λ h. ground (arith, Elem-values k v ps, e.beq_iff j k),
    λ h. ground (arith, Elem-values k v ps, e.beq_iff j k),
  )

module _ {K : Type 0} ⦃e : Eq K⦄ where
  abbrev pub add_key : List K → K → List K
  add_key ks k = if contains ks k then ks else ks ++ k ∷ []

  -- The keys of a dictionary with the keys `ks` after assignments to each of the second list.
  unfoldable pub add_keys : List K → List K → List K
  add_keys ks [] = ks
  add_keys ks (j ∷ js) = add_keys (add_key ks j) js

  -- Each key once, in the order of first occurrence.
  abbrev pub firsts : List K → List K
  firsts js = add_keys [] js

  Distinct-snoc :
      (ks : List K) (k : K) → Distinct ks → contains ks k ≡ false → Distinct (ks ++ k ∷ [])
  unfolding contains
  Distinct-snoc [] k d h = (refl, tt)
  Distinct-snoc (j ∷ ks) k d h = (
    ground (arith, contains-append ks (k ∷ []) j, e.beq_iff k j, e.beq_iff j k),
    Distinct-snoc ks k d.1 (ground arith),
  )

  pub Distinct-add_key : (ks : List K) (k : K) → Distinct ks → Distinct (add_key ks k)
  Distinct-add_key ks k d = elim (Bool-cases (contains ks k)) [
    | inl old ↦ rw old d
    | inr new ↦ rw new (Distinct-snoc ks k d new)
  ]

  pub Distinct-add_keys : (ks js : List K) → Distinct ks → Distinct (add_keys ks js)
  unfolding add_keys
  Distinct-add_keys ks [] d = d
  Distinct-add_keys ks (j ∷ js) d = Distinct-add_keys (add_key ks j) js (Distinct-add_key ks j d)

  contains-add_key :
      (ks : List K) (j k : K)
      → (contains (add_key ks j) k ≡ true) ↔ ((contains ks k ≡ true) ⊎ (j ≡ k))
  unfolding contains
  contains-add_key ks j k = ground (arith, contains-append ks (j ∷ []) k, e.beq_iff j k)

  pub Elem-add_keys : (ks js : List K) (k : K) → Elem k (add_keys ks js) ↔ (Elem k ks ⊎ Elem k js)
  unfolding add_keys
  Elem-add_keys ks [] k = ground arith
  Elem-add_keys ks (j ∷ js) k = ground (
    arith,
    Elem-add_keys (add_key ks j) js k,
    contains-add_key ks j k,
    contains_iff ks k,
    contains_iff (add_key ks j) k,
  )
