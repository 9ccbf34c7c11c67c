-- ===== src/Configuration.antt =====
-- analyzer/src/analyzer/config.py: the settings, read from the environment. `int` is on texts of ASCII, and
-- `float` is an argument, as floating-point numbers are. None is the ValueError of either.
pub mod Accepted
mod Samples
use Prim.Native.Char.{Char, code}
use Prim.Native.String.{◌∷◌}
use distributed_tracing_plat.Prelude.{
  ℕ, ◌+◌, ◌-◌, ◌*◌, Bool, true, false, ◌&&◌, ◌||◌, String, string_eq, Option, none, some, List, leb,
  eqb, ◌==◌, if◌then◌else◌, ◌>>=◌, lookup,
}
use distributed_tracing_plat.Prelude.Int.{ℤ, pos, sub_ℕ}
use distributed_tracing_plat.Prelude.Floats.{Floats}

pub record Config (F : Type 0) : Type 0 where
  pub http_addr_host : String
  pub http_addr_port : ℤ
  pub clickhouse_host : String
  pub clickhouse_port : ℤ
  pub clickhouse_db : String
  pub clickhouse_user : String
  pub clickhouse_password : String
  pub window_seconds : ℤ
  pub watermark_seconds : ℤ
  pub poll_interval_seconds : F
  pub late_check_interval_seconds : F
  pub root_service : String
  pub baseline_lookback_seconds : ℤ
  pub baseline_min_samples : ℤ
  pub percentile_deviation_threshold : F
  pub error_rate_threshold : F
  pub error_rate_min_sample_size : ℤ
  pub call_rate_threshold : F
  pub grouping_lookback_seconds : ℤ
  pub api_http_host : String
  pub api_http_port : ℤ
  pub api_max_rows : ℤ
  pub api_max_time_range_seconds : ℤ

-- `os.environ`
abbrev pub Environment : Type 0
Environment = List (String × String)

-- `int(text)` of a text of ASCII: white space, a sign, and digits, with single underscores between them.
abbrev pub is_space : Char → Bool
is_space c = eqb (code c) 32 || (leb 9 (code c) && leb (code c) 13)

abbrev pub is_digit : Char → Bool
is_digit c = leb b'0' (code c) && leb (code c) b'9'

unfoldable pub strip_end : String → String
strip_end String.[] = String.[]
strip_end (c ∷ s) =
    let rest = strip_end s in if is_space c && rest == "" then String.[] else c ∷ rest

unfoldable pub strip_start : String → String
strip_start String.[] = String.[]
strip_start (c ∷ s) = let rest = strip_start s in if is_space c then rest else c ∷ s

-- The number so far, and whether a digit comes before.
unfoldable pub digits_of : ℕ → Bool → String → Option ℕ
digits_of n after_digit String.[] = if after_digit then some n else none
digits_of n after_digit (c ∷ s) =
    let digit = digits_of (n * 10 + (code c - b'0')) true s in
    let underscore = digits_of n false s in
    if is_digit c then digit else if eqb (code c) b'_' && after_digit then underscore else none

abbrev pub signed : String → Option ℤ
signed String.[] = none
signed (c ∷ s) =
    if eqb (code c) b'-'
    then (do n ← digits_of 0 false s; some (sub_ℕ 0 n))
    else if eqb (code c) b'+'
    then (do n ← digits_of 0 false s; some (pos n))
    else (do n ← digits_of 0 false (c ∷ s); some (pos n))

unfoldable pub count_digits : String → ℕ
count_digits String.[] = 0
count_digits (c ∷ s) = let rest = count_digits s in if is_digit c then rest + 1 else rest

-- By default `int` refuses a text of more than 4300 digits.
unfoldable pub int_of : String → Option ℤ
int_of text = if leb (count_digits text) 4300 then signed (strip_start (strip_end text)) else none

-- `parse(raw) if raw else default`
abbrev pub parse_or : {A : Type 0} → (String → Option A) → A → Option String → Option A
parse_or parse default none = some default
parse_or parse default (some raw) = if raw == "" then some default else parse raw

abbrev pub given_or : String → Option String → String
given_or default none = default
given_or default (some raw) = raw

unfoldable pub env_str : Environment → String → String → String
env_str env key default = given_or default (lookup key env)

unfoldable pub env_int : Environment → String → ℤ → Option ℤ
env_int env key default = parse_or int_of default (lookup key env)

module _ {F : Type 0} (float_of : String → Option F) where
  unfoldable pub env_float : Environment → String → F → Option F
  env_float env key default = parse_or float_of default (lookup key env)

module _ {F : Type 0} ⦃f : Floats F⦄ (float_of : String → Option F) where
  unfoldable pub load : Environment → Option (Config F)
  load env = do
    http_port ← env_int env "ANALYZER_HTTP_PORT" (pos 9464)
    clickhouse_port ← env_int env "CLICKHOUSE_HTTP_PORT" (pos 8123)
    window ← env_int env "ANALYZER_WINDOW_SECONDS" (pos 60)
    watermark ← env_int env "ANALYZER_WATERMARK_SECONDS" (pos 30)
    poll ← env_float float_of env "ANALYZER_POLL_INTERVAL_SECONDS" (f.of_ℕ 10)
    late_check ← env_float float_of env "ANALYZER_LATE_CHECK_INTERVAL_SECONDS" (f.of_ℕ 30)
    lookback ← env_int env "ANALYZER_BASELINE_LOOKBACK_SECONDS" (pos 900)
    min_samples ← env_int env "ANALYZER_BASELINE_MIN_SAMPLES" (pos 30)
    percentile ← env_float float_of env "ANALYZER_PERCENTILE_DEVIATION_THRESHOLD" (f.decimal 35 1)
    error_rate ← env_float float_of env "ANALYZER_ERROR_RATE_THRESHOLD" (f.of_ℕ 3)
    sample_size ← env_int env "ANALYZER_ERROR_RATE_MIN_SAMPLE_SIZE" (pos 10)
    call_rate ← env_float float_of env "ANALYZER_CALL_RATE_THRESHOLD" (f.of_ℕ 3)
    grouping ← env_int env "ANALYZER_GROUPING_LOOKBACK_SECONDS" (pos 300)
    api_port ← env_int env "API_HTTP_PORT" (pos 8000)
    max_rows ← env_int env "API_MAX_ROWS" (pos 500)
    max_range ← env_int env "API_MAX_TIME_RANGE_SECONDS" (pos 86400)
    some record {
      http_addr_host = env_str env "ANALYZER_HTTP_HOST" "0.0.0.0";
      http_addr_port = http_port;
      clickhouse_host = env_str env "CLICKHOUSE_HTTP_HOST" "clickhouse";
      clickhouse_port = clickhouse_port;
      clickhouse_db = env_str env "CLICKHOUSE_DB" "tracing";
      clickhouse_user = env_str env "CLICKHOUSE_USER" "default";
      clickhouse_password = env_str env "CLICKHOUSE_PASSWORD" "";
      window_seconds = window;
      watermark_seconds = watermark;
      poll_interval_seconds = poll;
      late_check_interval_seconds = late_check;
      root_service = env_str env "ANALYZER_ROOT_SERVICE" "frontend";
      baseline_lookback_seconds = lookback;
      baseline_min_samples = min_samples;
      percentile_deviation_threshold = percentile;
      error_rate_threshold = error_rate;
      error_rate_min_sample_size = sample_size;
      call_rate_threshold = call_rate;
      grouping_lookback_seconds = grouping;
      api_http_host = env_str env "API_HTTP_HOST" "0.0.0.0";
      api_http_port = api_port;
      api_max_rows = max_rows;
      api_max_time_range_seconds = max_range;
    }
