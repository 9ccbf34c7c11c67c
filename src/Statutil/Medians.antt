-- ===== src/Statutil/Medians.antt =====
-- statutil.py: half of the values lie on either side of the median.
use distributed_tracing_plat.Prelude.{
  ℕ, zero, suc, ◌+◌, ◌-◌, ◌*◌, ◌/◌, ◌%◌, ◌≤◌, ◌<◌, ◌≡◌, refl, ap, sym, subst, List, [], ◌∷◌, length,
  get_or, get_or-le, leb→le, le→leb, IsSorted, IsSorted-sort, sort, insert_sorted, length-sort,
  true, Bool, arith, eqb, if◌then◌else◌, filter,
}
use distributed_tracing_plat.Prelude.Int.{ℤ, pos, ◌+ℤ◌, ◌*ℤ◌, ◌≤ℤ◌, leb_ℤ, +ℤ_parts, *ℤ_parts}
use distributed_tracing_plat.Statutil.{middle, median}
use distributed_tracing_plat.Statutil.Percentiles.{leb_ℤ_refl, leb_ℤ_total, leb_ℤ_trans}

-- How many values pass a test.
abbrev pub count : (ℤ → Bool) → List ℤ → ℕ
count p xs = length (filter p xs)

count-insert_sorted :
    (p : ℤ → Bool) (a : ℤ) (xs : List ℤ) → count p (insert_sorted leb_ℤ a xs) ≡ count p (a ∷ xs)
unfolding insert_sorted filter
count-insert_sorted p a [] = refl
count-insert_sorted p a (x ∷ xs) = ground (arith, count-insert_sorted p a xs)

count-sort : (p : ℤ → Bool) (xs : List ℤ) → count p (sort leb_ℤ xs) ≡ count p xs
unfolding sort filter
count-sort p [] = refl
count-sort p (x ∷ xs) = ground (arith, count-insert_sorted p x (sort leb_ℤ xs), count-sort p xs)

count-prefix :
    (p : ℤ → Bool) (xs : List ℤ) (k : ℕ)
    → k ≤ length xs
    → ((j : ℕ) → j < k → p (get_or xs j (pos 0)) ≡ true)
    → k ≤ count p xs
unfolding filter
count-prefix p xs zero le h = omega arith
count-prefix p [] (suc k) le h = absurd (omega arith)
count-prefix p (x ∷ xs) (suc k) le h =
    ground (
      arith,
      h 0 (omega arith),
      count-prefix p xs k (omega arith) (λ j lt. h (suc j) (omega arith)),
    )

count-suffix :
    (p : ℤ → Bool) (xs : List ℤ) (k : ℕ)
    → ((j : ℕ) → k ≤ j → j < length xs → p (get_or xs j (pos 0)) ≡ true)
    → length xs ≤ k + count p xs
unfolding filter
count-suffix p [] k h = omega arith
count-suffix p (x ∷ xs) zero h =
    ground (arith, h 0, count-suffix p xs zero (λ j le lt. h (suc j) (omega arith) (omega arith)))
count-suffix p (x ∷ xs) (suc k) h =
    ground (arith, count-suffix p xs k (λ j le lt. h (suc j) (omega arith) (omega arith)))

-- The positions of the two middle elements.
lower_at : ℕ → ℕ
lower_at n = if eqb (n % 2) 1 then n / 2 else n / 2 - 1

middle-eq :
    (xs : List ℤ)
    → middle xs ≡ (get_or xs (lower_at (length xs)) (pos 0), get_or xs (length xs / 2) (pos 0))
unfolding middle lower_at
middle-eq xs = ground arith

lower_at_bounds :
    (n : ℕ)
    → 0 < n
    → (lower_at n ≤ n / 2) × (n ≤ 2 * (lower_at n + 1)) × (n / 2 < n) × (2 * (n / 2) ≤ n)
unfolding lower_at
lower_at_bounds n h = ground arith

module _ (xs : List ℤ) (sorted : IsSorted leb_ℤ xs) (some_value : 0 < length xs) where
  ordered : (i j : ℕ) → i ≤ j → j < length xs → get_or xs i (pos 0) ≤ℤ get_or xs j (pos 0)
  ordered i j le lt = leb→le _ _ (get_or-le leb_ℤ leb_ℤ_refl xs i j (pos 0) sorted le lt)

  abbrev twice_median : ℤ
  twice_median = get_or xs (lower_at (length xs)) (pos 0) +ℤ get_or xs (length xs / 2) (pos 0)

  below_lower :
      (j : ℕ) → j < lower_at (length xs) + 1 → leb_ℤ (2 *ℤ get_or xs j (pos 0)) twice_median ≡ true
  below_lower j lt =
      let (b₁, b₂, b₃, b₄) = lower_at_bounds (length xs) some_value in
      le→leb _ _ (
        omega (
          arith,
          ordered j (lower_at (length xs)) (omega arith) (omega arith),
          ordered (lower_at (length xs)) (length xs / 2) b₁ b₃,
          *ℤ_parts 2 (get_or xs j (pos 0)),
          +ℤ_parts (get_or xs (lower_at (length xs)) (pos 0)) (get_or xs (length xs / 2) (pos 0)),
        ))

  above_upper :
      (j : ℕ)
      → length xs / 2 ≤ j
      → j < length xs
      → leb_ℤ twice_median (2 *ℤ get_or xs j (pos 0)) ≡ true
  above_upper j le lt =
      let (b₁, b₂, b₃, b₄) = lower_at_bounds (length xs) some_value in
      le→leb _ _ (
        omega (
          arith,
          ordered (length xs / 2) j le lt,
          ordered (lower_at (length xs)) (length xs / 2) b₁ b₃,
          *ℤ_parts 2 (get_or xs j (pos 0)),
          +ℤ_parts (get_or xs (lower_at (length xs)) (pos 0)) (get_or xs (length xs / 2) (pos 0)),
        ))

  halves :
      (length xs ≤ 2 * count (λ v. leb_ℤ (2 *ℤ v) twice_median) xs)
      × (length xs ≤ 2 * count (λ v. leb_ℤ twice_median (2 *ℤ v)) xs)
  halves =
      let (b₁, b₂, b₃, b₄) = lower_at_bounds (length xs) some_value in
      (
        omega (
          arith,
          count-prefix (λ v. leb_ℤ (2 *ℤ v) twice_median) xs (lower_at (length xs) + 1)
              (omega arith) below_lower,
        ),
        omega
            (arith, count-suffix (λ v. leb_ℤ twice_median (2 *ℤ v)) xs (length xs / 2) above_upper),
      )

median-eq :
    (x : ℤ) (xs : List ℤ)
    → median (x ∷ xs)
      ≡ get_or (sort leb_ℤ (x ∷ xs)) (lower_at (length (sort leb_ℤ (x ∷ xs)))) (pos 0)
        +ℤ get_or (sort leb_ℤ (x ∷ xs)) (length (sort leb_ℤ (x ∷ xs)) / 2) (pos 0)
unfolding median
median-eq x xs = ap (λ (p : ℤ × ℤ). p.0 +ℤ p.1) (middle-eq (sort leb_ℤ (x ∷ xs)))

-- At least half of the values are no greater than m / 2, and at least half are no smaller.
abbrev pub Halves : ℤ → List ℤ → Type 0
Halves m values =
    (length values ≤ 2 * count (λ v. leb_ℤ (2 *ℤ v) m) values)
    × (length values ≤ 2 * count (λ v. leb_ℤ m (2 *ℤ v)) values)

Halves-sort : (m : ℤ) (xs : List ℤ) → Halves m (sort leb_ℤ xs) → Halves m xs
Halves-sort m xs (lower, upper) = (
  omega (arith, length-sort leb_ℤ xs, count-sort (λ v. leb_ℤ (2 *ℤ v) m) xs),
  omega (arith, length-sort leb_ℤ xs, count-sort (λ v. leb_ℤ m (2 *ℤ v)) xs),
)

sort-pos : (x : ℤ) (xs : List ℤ) → 0 < length (sort leb_ℤ (x ∷ xs))
sort-pos x xs = omega (arith, length-sort leb_ℤ (x ∷ xs))

-- At least half of the values are no greater than the median, and at least half are no smaller.
pub median-Halves : (values : List ℤ) → Halves (median values) values
median-Halves [] = (omega arith, omega arith)
median-Halves (x ∷ xs) =
    subst (λ m. Halves m (x ∷ xs)) (sym (median-eq x xs))
      (Halves-sort _ (x ∷ xs) (
        halves (sort leb_ℤ (x ∷ xs)) (IsSorted-sort leb_ℤ leb_ℤ_total leb_ℤ_trans (x ∷ xs))
          (sort-pos x xs)))
