-- ===== src/Prelude/Dict.antt =====
-- Python dictionaries as association lists in insertion order.
use distributed_tracing_plat.Prelude.Tests.{Eq, ◌==◌, if◌then◌else◌}
use distributed_tracing_plat.Prelude.Lists.{contains, Elem}
use mathlib.Core.Path.{◌≡◌, refl}
use mathlib.Core.Logic.{◌↔◌, ◌≢◌, ◌⊎◌, inr, ⊎_elim}
use mathlib.Core.Bool.{false}
use mathlib.Core.Option.{Option, none, some}
use mathlib.Core.List.{List, [], ◌∷◌, map}
use native.Mathlib.Omega.{arith}

module _ {K V : Type 0} where
  abbrev pub keys : List (K × V) → List K
  keys d = map (λ e. e.0) d

  abbrev pub vals : List (K × V) → List V
  vals d = map (λ e. e.1) d

module _ {K V : Type 0} ⦃e : Eq K⦄ where
  -- `d.get(k)`
  unfoldable pub lookup : K → List (K × V) → Option V
  lookup k [] = none
  lookup k ((j, v) ∷ d) = if j == k then some v else lookup k d

  -- `d[k] = v`: an existing key keeps its place, a new one goes to the end.
  unfoldable pub insert : K → V → List (K × V) → List (K × V)
  insert k v [] = (k, v) ∷ []
  insert k v ((j, w) ∷ d) = if j == k then (j, v) ∷ d else (j, w) ∷ insert k v d

  -- `{k: v for k, v in ps}`: a later pair overwrites an earlier one.
  unfoldable pub insert_all : List (K × V) → List (K × V) → List (K × V)
  insert_all d [] = d
  insert_all d ((k, v) ∷ ps) = insert_all (insert k v d) ps

  pub lookup-insert :
      (k j : K) (v : V) (d : List (K × V))
      → lookup j (insert k v d) ≡ (if k == j then some v else lookup j d)
  unfolding lookup insert
  lookup-insert k j v [] = refl
  lookup-insert k j v ((i, w) ∷ d) =
      ground (arith, e.beq_iff k j, e.beq_iff i k, e.beq_iff i j, lookup-insert k j v d)

  -- A value that a lookup finds stands in the dictionary under that key.
  pub Elem-of_lookup : (k : K) (v : V) (d : List (K × V)) → lookup k d ≡ some v → Elem (k, v) d
  unfolding lookup
  Elem-of_lookup k v [] h = cc
  Elem-of_lookup k v ((j, w) ∷ d) h = ground (arith, e.beq_iff j k, Elem-of_lookup k v d)

  pub lookup-eq-none_iff :
      (k : K) (d : List (K × V)) → (lookup k d ≡ none) ↔ (contains (keys d) k ≡ false)
  unfolding lookup contains
  lookup-eq-none_iff k [] = (λ _. refl, λ _. refl)
  lookup-eq-none_iff k ((j, w) ∷ d) = ground (arith, lookup-eq-none_iff k d)

  -- What a lookup finds after assignments came from one of them, or stood there before.
  pub lookup-insert_all :
      (k : K) (v : V) (d ps : List (K × V))
      → lookup k (insert_all d ps) ≡ some v
      → Elem (k, v) ps ⊎ (lookup k d ≡ some v)
  unfolding insert_all
  lookup-insert_all k v d [] h = inr h
  lookup-insert_all k v d ((j, w) ∷ ps) h =
      ground (arith, lookup-insert_all k v (insert j w d) ps, lookup-insert j k w d, e.beq_iff j k)

  -- An assigned key is found.
  pub lookup-insert_all_mem :
      (k : K) (d ps : List (K × V))
      → Elem k (keys ps) ⊎ (lookup k d ≢ none)
      → lookup k (insert_all d ps) ≢ none
  unfolding insert_all
  lookup-insert_all_mem k d [] h = ⊎_elim (λ m. absurd m) (λ n. n) h
  lookup-insert_all_mem k d ((j, w) ∷ ps) h =
      ground
        (arith, lookup-insert_all_mem k (insert j w d) ps, lookup-insert j k w d, e.beq_iff j k)
