-- ===== src/Prelude/Keyed.antt =====
-- Lists whose elements are told apart by a key, and lists split by tests.
use Prim.Native.Nat.{◌+◌}
use mathlib.Core.Path.{◌≡◌, ap}
use mathlib.Core.Logic.{inl, inr, ⊎_elim}
use mathlib.Core.Bool.{Bool, true, false, not, ◌&&◌}
use mathlib.Core.List.{List, [], ◌∷◌, map}
use native.Mathlib.Omega.{arith}
use distributed_tracing_plat.Prelude.Tests.{Eq, Bool-cases}
use distributed_tracing_plat.Prelude.Lists.{
  length, filter, All, Elem, Elem-filter, Elem-map, Elem-map_inv, contains, contains_iff, Distinct,
}

module _ {A K : Type 0} ⦃e : Eq K⦄ (f : A → K) where
  not-Elem_of_contains : (a : A) (xs : List A) → contains (map f xs) (f a) ≡ false → ¬ Elem a xs
  not-Elem_of_contains a xs h m = ground (arith, contains_iff (map f xs) (f a), Elem-map f a xs m)

  -- Of two elements with one key there is only one.
  pub eq_of_key :
      (xs : List A) (a b : A) → Distinct (map f xs) → Elem a xs → Elem b xs → f a ≡ f b → a ≡ b
  eq_of_key [] a b d m n e = absurd m
  eq_of_key (x ∷ xs) a b d m n e =
      ⊎_elim
        (λ p. ⊎_elim (λ q. cc) (λ j. absurd (not-Elem_of_contains b xs (rw (← e, ← p) d.0) j)) n)
        (λ i.
          ⊎_elim (λ q. absurd (not-Elem_of_contains a xs (rw (e, ← q) d.0) i))
            (λ j. eq_of_key xs a b d.1 i j e) n)
        m

  -- A key is among those of the elements that pass a test exactly when its element passes.
  pub contains-map-filter :
      (p : A → Bool) (xs : List A) (a : A)
      → Distinct (map f xs)
      → Elem a xs
      → contains (map f (filter p xs)) (f a) ≡ p a
  contains-map-filter p xs a d m = elim (Bool-cases (p a)) [
    | inl t ↦ rw t (
        (contains_iff (map f (filter p xs)) (f a)).1
          (Elem-map f a (filter p xs) ((Elem-filter p a xs).1 (m, t))))
    | inr t ↦ elim (Bool-cases (contains (map f (filter p xs)) (f a))) [
      | inl c ↦
          let (b, n, e) =
            Elem-map_inv f (f a) (filter p xs) ((contains_iff (map f (filter p xs)) (f a)).0 c) in
          let (n', u) = (Elem-filter p b xs).0 n in
          let same = eq_of_key xs b a d n' m e in cc (ap p same)
      | inr c ↦ rw (c, t)
    ]
  ]

-- Exactly one of three tests passes.
abbrev pub one_of : Bool → Bool → Bool → Bool
one_of true b c = not b && not c
one_of false true c = not c
one_of false false c = c

pub length-split {ℓ} :
    {A : Type ℓ} (p q r : A → Bool) (xs : List A)
    → All (λ a. one_of (p a) (q a) (r a) ≡ true) xs
    → length (filter p xs) + length (filter q xs) + length (filter r xs) ≡ length xs
unfolding filter
length-split p q r [] h = omega arith
length-split p q r (x ∷ xs) h = ground (arith, length-split p q r xs h.1)
