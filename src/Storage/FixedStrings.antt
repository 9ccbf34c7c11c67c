-- ===== src/Storage/FixedStrings.antt =====
-- analyzer/src/analyzer/chclient.py, `decode_fixed_string` and `connect`. A value of bytes is a text whose
-- characters are the bytes.
use Prim.Native.Char.{Char, code, nul}
use Prim.Native.String.{◌∷◌}
use distributed_tracing_plat.Prelude.{
  ℕ, zero, suc, ◌<◌, Bool, true, ◌&&◌, ◌≡◌, ◌≢◌, refl, String, Option, none, some, ltb, eqb,
  if◌then◌else◌, arith, eqb_iff,
}

-- `raw.rstrip(b"\x00")`
abbrev pub rstrip_char : Char → String → String
rstrip_char c String.[] = if eqb (code c) 0 then String.[] else c ∷ String.[]
rstrip_char c (d ∷ s) = c ∷ d ∷ s

unfoldable pub rstrip : String → String
rstrip String.[] = String.[]
rstrip (c ∷ s) = rstrip_char c (rstrip s)

-- The bytes that `decode("ascii")` accepts.
unfoldable pub is_ascii : String → Bool
is_ascii String.[] = true
is_ascii (c ∷ s) = ltb (code c) 128 && is_ascii s

-- None is a UnicodeDecodeError.
unfoldable pub decode_fixed_string : String → Option String
unfolding rstrip is_ascii
decode_fixed_string raw = let text = rstrip raw in if is_ascii text then some text else none

-- `connect`: the client, once it has answered a ping; none is the ConnectionError.
pub connect {ℓ} : {Client : Type ℓ} → (Client → Bool) → Client → Option Client
connect ping client = if ping client then some client else none

-- How the database pads a value to the width of its column.
unfoldable pub pad : String → ℕ → String
pad String.[] zero = String.[]
pad String.[] (suc n) = nul ∷ pad String.[] n
pad (c ∷ s) zero = c ∷ s
pad (c ∷ s) (suc n) = c ∷ pad s n

-- A value without a NUL, in ASCII.
abbrev pub IsHex : String → Type 0
IsHex String.[] = Unit
IsHex (c ∷ s) = (code c ≢ 0) × (code c < 128) × IsHex s

rstrip-zeros : (n : ℕ) → rstrip (pad String.[] n) ≡ String.[]
unfolding rstrip pad
rstrip-zeros zero = refl
rstrip-zeros (suc n) = rw (rstrip-zeros n)

rstrip_char_lem : (c : Char) (s : String) → code c ≢ 0 → rstrip_char c s ≡ c ∷ s
rstrip_char_lem c String.[] h = ground (arith, eqb_iff (code c) 0)
rstrip_char_lem c (d ∷ s) h = refl

rstrip-IsHex : (s : String) → IsHex s → rstrip s ≡ s
unfolding rstrip
rstrip-IsHex String.[] h = refl
rstrip-IsHex (c ∷ s) h = rw (rstrip-IsHex s h.2) (rstrip_char_lem c s h.0)

rstrip-pad : (s : String) (n : ℕ) → IsHex s → rstrip (pad s n) ≡ s
unfolding rstrip pad
rstrip-pad String.[] n h = rstrip-zeros n
rstrip-pad (c ∷ s) zero h = rstrip-IsHex (c ∷ s) h
rstrip-pad (c ∷ s) (suc n) h = rw (rstrip-pad s n h.2) (rstrip_char_lem c s h.0)

is_ascii-IsHex : (s : String) → IsHex s → is_ascii s ≡ true
unfolding is_ascii
is_ascii-IsHex String.[] h = refl
is_ascii-IsHex (c ∷ s) h = ground (arith, is_ascii-IsHex s h.2)

-- A value in ASCII without a NUL byte is decoded exactly from the column that pads it, at any width of the
-- column.
pub decode_fixed_string-pad :
    (s : String) (n : ℕ) → IsHex s → decode_fixed_string (pad s n) ≡ some s
unfolding decode_fixed_string
decode_fixed_string-pad s n h = rw (rstrip-pad s n h, is_ascii-IsHex s h)
