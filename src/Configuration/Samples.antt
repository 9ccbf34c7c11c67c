-- ===== src/Configuration/Samples.antt =====
-- config.py at concrete environments.
use Prim.Native.Char.{char}
use Prim.Native.String.{◌∷◌}
use distributed_tracing_plat.Prelude.{
  ◌≡◌, refl, ◌↔◌, String, All, Option, none, some, [], ◌∷◌, lookup,
}
use distributed_tracing_plat.Prelude.Int.{ℤ, pos, sub_ℕ}
use distributed_tracing_plat.Prelude.Fixed.{fixed}
use distributed_tracing_plat.Configuration.{
  Config, digits_of, count_digits, strip_start, strip_end, int_of, env_str, env_int, env_float,
  load,
}
use distributed_tracing_plat.Detectors.Loops.{Returns}
use distributed_tracing_plat.Configuration.Accepted.{IsReadable, int_keys, float_keys, load_iff}

int_test :
    (int_of " 1_000 " ≡ some (pos 1000))
    × (int_of "-7" ≡ some (sub_ℕ 0 7))
    × (int_of "1__0" ≡ none)
    × (int_of "12 a" ≡ none)
    × (int_of (char 28 tt ∷ "5") ≡ none)
unfolding int_of strip_start strip_end digits_of count_digits
int_test = (refl, refl, refl, refl, refl)

abbrev rows_and_port : Option (Config ℤ) → Option (ℤ × ℤ)
rows_and_port none = none
rows_and_port (some c) = some (c.api_max_rows, c.api_http_port)

abbrev no_float : String → Option ℤ
no_float text = none

-- A setting that is the empty text is the default, and one that is no number ends the program.
load_test :
    (rows_and_port (load no_float (("API_MAX_ROWS", "") ∷ ("API_HTTP_PORT", "80") ∷ []))
      ≡ some (pos 500, pos 80))
    × (load no_float (("API_MAX_ROWS", "many") ∷ []) ≡ none)
unfolding load env_str env_int env_float int_of strip_start strip_end digits_of count_digits lookup
load_test = (refl, refl)

load_iff_example : Returns (load no_float (("API_MAX_ROWS", "many") ∷ [])) ↔ (
    All (IsReadable int_of (("API_MAX_ROWS", "many") ∷ [])) int_keys
    × All (IsReadable no_float (("API_MAX_ROWS", "many") ∷ [])) float_keys)
load_iff_example = load_iff no_float (("API_MAX_ROWS", "many") ∷ [])
