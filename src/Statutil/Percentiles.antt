-- ===== src/Statutil/Percentiles.antt =====
-- statutil.py: `percentile` lies between the extremes and grows with the percentage.
use Prim.Native.Nat.{min}
use distributed_tracing_plat.Prelude.{
  ℕ, ◌+◌, ◌-◌, ◌*◌, ◌/◌, ◌%◌, ◌≤◌, ◌<◌, ◌≡◌, refl, List, [], ◌∷◌, length, get_or, get_or-le, leb→le,
  le→leb, IsSorted, true, false, arith,
}
use native.Mathlib.Decide.{dec_le}
use distributed_tracing_plat.Prelude.Int.{
  ℤ, pos, pos_part, neg_part, ◌-ℤ◌, ◌*ℤ◌, ◌≤ℤ◌, leb_ℤ, int_laws, *ℤ_parts,
}
use distributed_tracing_plat.Statutil.{interpolate, percentile}

pub leb_ℤ_refl : (a : ℤ) → leb_ℤ a a ≡ true
leb_ℤ_refl a = ground arith

pub leb_ℤ_total : (a b : ℤ) → leb_ℤ a b ≡ false → leb_ℤ b a ≡ true
leb_ℤ_total a b h = ground arith

pub leb_ℤ_trans : (a b c : ℤ) → leb_ℤ a b ≡ true → leb_ℤ b c ≡ true → leb_ℤ a c ≡ true
leb_ℤ_trans a b c h k = le→leb _ _ (omega (arith, leb→le _ _ h, leb→le _ _ k))

-- The distance of two ordered integers.
gap : ℤ → ℤ → ℕ
gap a b = pos_part (b -ℤ a)

gap_lem : (a b : ℤ) → a ≤ℤ b → b -ℤ a ≡ pos (gap a b)
unfolding gap ◌-ℤ◌
gap_lem a b h = ground arith

gap_parts : (a b : ℤ) → a ≤ℤ b → gap a b + pos_part a + neg_part b ≡ pos_part b + neg_part a
unfolding gap ◌-ℤ◌
gap_parts a b h = ground arith

interpolate_parts :
    (f : ℕ) (a b : ℤ)
    → a ≤ℤ b
    → pos_part (interpolate f a b) + 100 * neg_part a
      ≡ neg_part (interpolate f a b) + 100 * pos_part a + f * gap a b
unfolding interpolate
interpolate_parts f a b h = rw (gap_lem a b h) (omega int_laws)

mul_mono : (f g c : ℕ) → f ≤ g → f * c ≤ g * c
mul_mono f g c h = grind arith

pub interpolate-mono : (f g : ℕ) (a b : ℤ) → a ≤ℤ b → f ≤ g → interpolate f a b ≤ℤ interpolate g a b
interpolate-mono f g a b h le =
    omega (arith, interpolate_parts f a b h, interpolate_parts g a b h, mul_mono f g (gap a b) le)

interpolate-ge : (f : ℕ) (a b : ℤ) → a ≤ℤ b → 100 *ℤ a ≤ℤ interpolate f a b
interpolate-ge f a b h = omega (arith, interpolate_parts f a b h, *ℤ_parts 100 a)

interpolate-le : (f : ℕ) (a b : ℤ) → a ≤ℤ b → f ≤ 100 → interpolate f a b ≤ℤ 100 *ℤ b
interpolate-le f a b h le =
    omega (
      arith,
      interpolate_parts f a b h,
      gap_parts a b h,
      mul_mono f 100 (gap a b) le,
      *ℤ_parts 100 b,
    )

-- The value at a rank, in hundredths.
at_rank : List ℤ → ℕ → ℤ
at_rank xs r =
    interpolate (r % 100) (get_or xs (r / 100) (pos 0))
      (get_or xs (min (r / 100 + 1) (length xs - 1)) (pos 0))

module _ (xs : List ℤ) (sorted : IsSorted leb_ℤ xs) where
  get_or-mono : (i j : ℕ) → i ≤ j → j < length xs → get_or xs i (pos 0) ≤ℤ get_or xs j (pos 0)
  get_or-mono i j le lt = leb→le _ _ (get_or-le leb_ℤ leb_ℤ_refl xs i j (pos 0) sorted le lt)

  ordered_ends :
      (r : ℕ)
      → r / 100 < length xs
      → get_or xs (r / 100) (pos 0) ≤ℤ get_or xs (min (r / 100 + 1) (length xs - 1)) (pos 0)
  ordered_ends r h =
      get_or-mono (r / 100) (min (r / 100 + 1) (length xs - 1)) (omega arith) (omega arith)

  at_rank-ge :
      (r i : ℕ) → r / 100 < length xs → i ≤ r / 100 → 100 *ℤ get_or xs i (pos 0) ≤ℤ at_rank xs r
  unfolding at_rank
  at_rank-ge r i h le = omega (
    arith,
    interpolate-ge (r % 100) (get_or xs (r / 100) (pos 0)) _ (ordered_ends r h),
    get_or-mono i (r / 100) le h,
    *ℤ_parts 100 (get_or xs i (pos 0)),
    *ℤ_parts 100 (get_or xs (r / 100) (pos 0)),
  )

  at_rank-le :
      (r j : ℕ)
      → r / 100 < length xs
      → j < length xs
      → min (r / 100 + 1) (length xs - 1) ≤ j
      → at_rank xs r ≤ℤ 100 *ℤ get_or xs j (pos 0)
  unfolding at_rank
  at_rank-le r j h lt le =
      let hi = min (r / 100 + 1) (length xs - 1) in
      omega (
        arith,
        interpolate-le (r % 100) (get_or xs (r / 100) (pos 0)) (get_or xs hi (pos 0))
            (ordered_ends r h) (omega arith),
        get_or-mono hi j le lt,
        *ℤ_parts 100 (get_or xs j (pos 0)),
        *ℤ_parts 100 (get_or xs hi (pos 0)),
      )

  at_rank_same :
      (r s : ℕ) → r / 100 ≡ s / 100 → r ≤ s → s / 100 < length xs → at_rank xs r ≤ℤ at_rank xs s
  unfolding at_rank
  at_rank_same r s e le h = rw e (
      interpolate-mono (r % 100) (s % 100) (get_or xs (s / 100) (pos 0)) _ (ordered_ends s h)
        (omega arith))

  at_rank-mono : (r s : ℕ) → r ≤ s → s / 100 < length xs → at_rank xs r ≤ℤ at_rank xs s
  at_rank-mono r s le h = elim (dec_le (s / 100) (r / 100)) [
    | yes same ↦ at_rank_same r s (omega arith) le h
    | no apart ↦ omega (
      arith,
      at_rank-le r (s / 100) (omega arith) h (omega arith),
      at_rank-ge s (s / 100) h (omega arith),
    )
  ]

rank_in_range : (pct last : ℕ) → pct ≤ 100 → pct * last / 100 ≤ last
rank_in_range pct last h = let le : pct * last ≤ 100 * last = grind arith in omega arith

percentile-eq-at_rank :
    (x y : ℤ) (rest : List ℤ) (pct : ℕ)
    → percentile (x ∷ y ∷ rest) pct ≡ at_rank (x ∷ y ∷ rest) (pct * (length (x ∷ y ∷ rest) - 1))
unfolding percentile at_rank
percentile-eq-at_rank x y rest pct = refl

-- On a sorted list, a percentile up to the 100th lies between the first and the last element.
pub percentile-bounds :
    (xs : List ℤ) (pct : ℕ)
    → IsSorted leb_ℤ xs
    → pct ≤ 100
    → (100 *ℤ get_or xs 0 (pos 0) ≤ℤ percentile xs pct)
      × (percentile xs pct ≤ℤ 100 *ℤ get_or xs (length xs - 1) (pos 0))
unfolding percentile
percentile-bounds [] pct s h =
    (omega (arith, *ℤ_parts 100 (pos 0)), omega (arith, *ℤ_parts 100 (pos 0)))
percentile-bounds (x ∷ []) pct s h = (omega arith, omega arith)
percentile-bounds (x ∷ y ∷ rest) pct s h =
    let xs = x ∷ y ∷ rest in
    let last : ℕ = length xs - 1 in
    let r : ℕ = pct * last in
    rw (percentile-eq-at_rank x y rest pct) (
      at_rank-ge xs s r 0 (omega (arith, rank_in_range pct last h)) (omega arith),
      at_rank-le xs s r last (omega (arith, rank_in_range pct last h)) (omega arith) (omega arith),
    )

-- On a sorted list, a higher percentile, up to the 100th, is no smaller.
pub percentile-mono :
    (xs : List ℤ) (p q : ℕ)
    → IsSorted leb_ℤ xs
    → p ≤ q
    → q ≤ 100
    → percentile xs p ≤ℤ percentile xs q
unfolding percentile at_rank
percentile-mono [] p q s le h = omega arith
percentile-mono (x ∷ []) p q s le h = omega arith
percentile-mono (x ∷ y ∷ rest) p q s le h =
    let last : ℕ = length (x ∷ y ∷ rest) - 1 in
    at_rank-mono (x ∷ y ∷ rest) s (p * last) (q * last) (mul_mono p q last le)
      (omega (arith, rank_in_range q last h))
