-- ===== src/Statutil/Samples.antt =====
-- statutil.py on small samples, and the theorems about it at such samples.
use distributed_tracing_plat.Prelude.{
  ◌≡◌, refl, List, [], ◌∷◌, sort, insert_sorted, IsSorted, arith,
}
use distributed_tracing_plat.Prelude.Int.{ℤ, pos, ◌≤ℤ◌, ◌*ℤ◌, leb_ℤ, ◌+ℤ◌, ◌-ℤ◌, abs}
use distributed_tracing_plat.Statutil.{interpolate, percentile, middle, median, mad}
use distributed_tracing_plat.Statutil.Percentiles.{percentile-mono}

abbrev sample : List ℤ
sample = pos 10 ∷ pos 20 ∷ pos 40 ∷ []

-- The 95th percentile of 10, 20 and 40 is 38; their median is 20, and the distances from it are 10, 0
-- and 20.
sample_test : (percentile sample 95 ≡ pos 3800) × (median sample ≡ pos 40) × (mad sample ≡ pos 40)
unfolding percentile interpolate median middle mad sort insert_sorted ◌+ℤ◌ ◌-ℤ◌ ◌*ℤ◌ abs
sample_test = (refl, refl, refl)

sample-IsSorted : IsSorted leb_ℤ sample
sample-IsSorted = ((refl, (refl, tt)), ((refl, tt), (tt, tt)))

percentile-mono_example : percentile sample 50 ≤ℤ percentile sample 95
percentile-mono_example = percentile-mono sample 50 95 sample-IsSorted (omega arith) (omega arith)
