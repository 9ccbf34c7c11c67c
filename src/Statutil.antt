-- ===== src/Statutil.antt =====
-- analyzer/src/analyzer/statutil.py: percentiles, medians and the median absolute deviation.
-- The arithmetic is exact: a percentile of integers is returned in hundredths and a median in halves,
-- so no value is rounded.
pub mod Percentiles
pub mod Medians
mod Samples
use Prim.Native.Nat.{min}
use distributed_tracing_plat.Prelude.{
  ℕ, suc, ◌+◌, ◌-◌, ◌*◌, ◌/◌, ◌%◌, List, [], ◌∷◌, map, Option, none, some, length, get_or, sort,
  eqb, if◌then◌else◌,
}
use distributed_tracing_plat.Prelude.Int.{ℤ, pos, ◌+ℤ◌, ◌-ℤ◌, ◌*ℤ◌, abs, leb_ℤ}

-- 100 * (a + (b - a) * (f / 100))
unfoldable pub interpolate : ℕ → ℤ → ℤ → ℤ
interpolate f a b = 100 *ℤ a +ℤ f *ℤ (b -ℤ a)

-- `percentile`, in hundredths: `rank` is in hundredths too, so `lo` and `frac` are its quotient and
-- its remainder by 100.
unfoldable pub percentile : List ℤ → ℕ → ℤ
percentile [] pct = pos 0
percentile (x ∷ []) pct = 100 *ℤ x
percentile (x ∷ y ∷ rest) pct =
    let sorted_values = x ∷ y ∷ rest in
    let last = length sorted_values - 1 in
    let rank = pct * last in
    let lo = rank / 100 in
    let hi = min (lo + 1) last in
    interpolate (rank % 100) (get_or sorted_values lo (pos 0)) (get_or sorted_values hi (pos 0))

-- The two middle elements of a sorted list, which are one if the length is odd.
unfoldable pub middle : List ℤ → ℤ × ℤ
middle xs =
    let n = length xs in
    let upper = get_or xs (n / 2) (pos 0) in
    if eqb (n % 2) 1 then (upper, upper) else (get_or xs (n / 2 - 1) (pos 0), upper)

-- `median`, in halves.
unfoldable pub median : List ℤ → ℤ
median [] = pos 0
median (x ∷ xs) = let (lower, upper) = middle (sort leb_ℤ (x ∷ xs)) in lower +ℤ upper

-- `mad`, in quarters: a deviation from the median is in halves.
pub mad : List ℤ → ℤ
mad values = let m = median values in median (map (λ v. abs (2 *ℤ v -ℤ m)) values)
