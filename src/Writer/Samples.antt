-- ===== src/Writer/Samples.antt =====
-- writer.py at concrete values.
use distributed_tracing_plat.Prelude.{◌≡◌, refl}
use distributed_tracing_plat.Writer.{to_datetime}

-- A half of a microsecond goes to the even one.
even_test : to_datetime 2_500 ≡ 2_000
unfolding to_datetime
even_test = refl

odd_test : to_datetime 3_500 ≡ 4_000
unfolding to_datetime
odd_test = refl
