-- ===== src/Prelude/Sorting.antt =====
-- `sorted`: insertion by a Boolean order, stable.
use Prim.Native.Nat.{ℕ, zero, suc, ◌≤◌, ◌<◌}
use mathlib.Core.Path.{◌≡◌, refl, ap, ◌∙◌}
use mathlib.Core.Logic.{◌↔◌, ◌⊎◌, inl, inr}
use mathlib.Core.Bool.{Bool, true, false}
use mathlib.Core.List.{List, [], ◌∷◌}
use native.Mathlib.Omega.{arith}
use distributed_tracing_plat.Prelude.Tests.{if◌then◌else◌, Bool-cases}
use distributed_tracing_plat.Prelude.Lists.{length, All, All-impl, Elem}

module _ {A : Type 0} where
  -- An index out of range gives the default.
  abbrev pub get_or : List A → ℕ → A → A
  get_or [] i d = d
  get_or (x ∷ xs) zero d = x
  get_or (x ∷ xs) (suc i) d = get_or xs i d

module _ {A : Type 0} (le : A → A → Bool) where
  unfoldable pub insert_sorted : A → List A → List A
  insert_sorted a [] = a ∷ []
  insert_sorted a (x ∷ xs) =
      let rest = insert_sorted a xs in if le a x then a ∷ x ∷ xs else x ∷ rest

  unfoldable pub sort : List A → List A
  unfolding insert_sorted
  sort [] = []
  sort (x ∷ xs) = insert_sorted x (sort xs)

  -- Each element comes before those that stand behind it.
  abbrev pub IsSorted : List A → Type 0
  IsSorted [] = Unit
  IsSorted (x ∷ xs) = All (λ y. le x y ≡ true) xs × IsSorted xs

  length-insert_sorted : (a : A) (xs : List A) → length (insert_sorted a xs) ≡ suc (length xs)
  unfolding insert_sorted
  length-insert_sorted a [] = refl
  length-insert_sorted a (x ∷ xs) = ground (arith, length-insert_sorted a xs)

  pub length-sort : (xs : List A) → length (sort xs) ≡ length xs
  unfolding sort
  length-sort [] = refl
  length-sort (x ∷ xs) = length-insert_sorted x (sort xs) ∙ ap suc (length-sort xs)

  Elem-insert_sorted : (a b : A) (xs : List A) → Elem b (insert_sorted a xs) ↔ ((a ≡ b) ⊎ Elem b xs)
  unfolding insert_sorted
  Elem-insert_sorted a b [] = (λ m. m, λ m. m)
  Elem-insert_sorted a b (x ∷ xs) = ground (arith, Elem-insert_sorted a b xs)

  pub Elem-sort : (b : A) (xs : List A) → Elem b (sort xs) ↔ Elem b xs
  unfolding sort
  Elem-sort b [] = (λ m. m, λ m. m)
  Elem-sort b (x ∷ xs) = ground (arith, Elem-insert_sorted x b (sort xs), Elem-sort b xs)

  -- The order is total and transitive.
  module _ (total : (a b : A) → le a b ≡ false → le b a ≡ true)
      (trans : (a b c : A) → le a b ≡ true → le b c ≡ true → le a c ≡ true) where
    All-insert_sorted :
        (x a : A) (xs : List A)
        → le x a ≡ true
        → All (λ y. le x y ≡ true) xs
        → All (λ y. le x y ≡ true) (insert_sorted a xs)
    unfolding insert_sorted
    All-insert_sorted x a [] h all = (h, tt)
    All-insert_sorted x a (y ∷ ys) h all = elim (Bool-cases (le a y)) [
      | inl e ↦ rw e (h, all)
      | inr e ↦ rw e (all.0, All-insert_sorted x a ys h all.1)
    ]

    IsSorted-insert_sorted : (a : A) (xs : List A) → IsSorted xs → IsSorted (insert_sorted a xs)
    unfolding insert_sorted
    IsSorted-insert_sorted a [] s = (tt, tt)
    IsSorted-insert_sorted a (x ∷ xs) s = elim (Bool-cases (le a x)) [
      | inl e ↦
          rw e
            ((e, All-impl (λ y. le x y ≡ true) (λ y. le a y ≡ true) (λ y. trans a x y e) xs s.0), s)
      | inr e ↦ rw e (All-insert_sorted x a xs (total a x e) s.0, IsSorted-insert_sorted a xs s.1)
    ]

    pub IsSorted-sort : (xs : List A) → IsSorted (sort xs)
    unfolding sort
    IsSorted-sort [] = tt
    IsSorted-sort (x ∷ xs) = IsSorted-insert_sorted x (sort xs) (IsSorted-sort xs)

  -- In a sorted list an earlier element comes before a later one.
  pub get_or-le :
      (refl_le : (a : A) → le a a ≡ true) (xs : List A) (i j : ℕ) (d : A)
      → IsSorted xs
      → i ≤ j
      → j < length xs
      → le (get_or xs i d) (get_or xs j d) ≡ true
  get_or-le refl_le [] i j d s h lt = absurd (omega arith)
  get_or-le refl_le (x ∷ xs) zero zero d s h lt = refl_le x
  get_or-le refl_le (x ∷ xs) zero (suc j) d s h lt = get_or_All xs j s.0 (omega arith)
    where
      get_or_All :
          (ys : List A) (j : ℕ)
          → All (λ y. le x y ≡ true) ys
          → j < length ys
          → le x (get_or ys j d) ≡ true
      get_or_All [] j all lt = absurd (omega arith)
      get_or_All (y ∷ ys) zero all lt = all.0
      get_or_All (y ∷ ys) (suc j) all lt = get_or_All ys j all.1 (omega arith)
  get_or-le refl_le (x ∷ xs) (suc i) zero d s h lt = absurd (omega arith)
  get_or-le refl_le (x ∷ xs) (suc i) (suc j) d s h lt =
      get_or-le refl_le xs i j d s.1 (omega arith) (omega arith)
