-- ===== src/Api/Spans.antt =====
-- routes.py and queries.py: what identifier `get_trace` takes, and what a span of its answer shows.
use Prim.Native.Char.{Char, char, code}
use Prim.Native.String.{◌∷◌, count}
use distributed_tracing_plat.Prelude.{
  ℕ, ◌+◌, ◌≤◌, true, Bool, ◌&&◌, ◌≡◌, ◌↔◌, ◌⊎◌, refl, ap, sym, subst, ◌∙◌, inl, inr, ⊎_elim, String,
  string_eq, Option, none, some, List, [], ◌∷◌, map, eqb, eqb_iff, Elem, Elem-map, lookup,
  insert_all, lookup-insert_all, lookup-insert_all_mem, keys, Bool-cases, arith, if◌then◌else◌,
}
use distributed_tracing_plat.Detectors.Loops.{>>=-eq-some, some_inj}
use distributed_tracing_plat.Reassembly.{Classification}
use distributed_tracing_plat.Storage.{StoredSpan, ClassificationRow}
use distributed_tracing_plat.Storage.FixedStrings.{decode_fixed_string}
use distributed_tracing_plat.Reader.{each}
use distributed_tracing_plat.Reader.Ranges.{Elem-each, Returns-of_each}
use distributed_tracing_plat.Api.Durations.{no_path}
use distributed_tracing_plat.Api.Details.{SpanRow, label_entry, detail_row}
use distributed_tracing_plat.Api.Schemas.{Span}
use distributed_tracing_plat.Api.Routes.{is_hex, all_hex, lower_char, lower, span_of}

-- A digit, or a letter from a to f or from A to F.
abbrev pub IsHexDigit : Char → Type 0
IsHexDigit c =
    ((48 ≤ code c) × (code c ≤ 57))
    ⊎ ((97 ≤ code c) × (code c ≤ 102))
    ⊎ ((65 ≤ code c) × (code c ≤ 70))

abbrev pub IsHexText : String → Type 0
IsHexText String.[] = Unit
IsHexText (c ∷ s) = IsHexDigit c × IsHexText s

-- An identifier of a trace: 32 hexadecimal digits.
abbrev pub IsTraceId : String → Type 0
IsTraceId text = (count text ≡ 32) × IsHexText text

and_iff : (a b : Bool) → ((a && b) ≡ true) ↔ ((a ≡ true) × (b ≡ true))
and_iff a b = ground arith

is_hex_iff : (c : Char) → (is_hex c ≡ true) ↔ IsHexDigit c
is_hex_iff c = ground arith

all_hex_iff : (text : String) → (all_hex text ≡ true) ↔ IsHexText text
unfolding all_hex
all_hex_iff String.[] = (λ h. tt, λ h. refl)
all_hex_iff (c ∷ s) =
    let both = and_iff (is_hex c) (all_hex s) in
    let first = is_hex_iff c in
    let rest = all_hex_iff s in
    (λ h. let (i, j) = both.0 h in (first.0 i, rest.0 j), λ (i, j). both.1 (first.1 i, rest.1 j))

pub IsTraceId-iff :
    (text : String) → ((eqb (count text) 32 && all_hex text) ≡ true) ↔ IsTraceId text
IsTraceId-iff text =
    let both = and_iff (eqb (count text) 32) (all_hex text) in
    let width = eqb_iff (count text) 32 in
    let hex = all_hex_iff text in
    (λ h. let (i, j) = both.0 h in (width.0 i, hex.0 j), λ (i, j). both.1 (width.1 i, hex.1 j))

-- The second text is the first with the letters from A to F in lower case.
abbrev pub IsLowered : String → String → Type 0
IsLowered String.[] String.[] = Unit
IsLowered String.[] (d ∷ t) = ⊥
IsLowered (c ∷ s) String.[] = ⊥
IsLowered (c ∷ s) (d ∷ t) =
    (((65 ≤ code c) × (code c ≤ 70) × (code d ≡ code c + 32))
      ⊎ ((¬ ((65 ≤ code c) × (code c ≤ 70))) × (d ≡ c)))
    × IsLowered s t

abbrev IsLow : Char → Char → Type 0
IsLow c d =
    ((65 ≤ code c) × (code c ≤ 70) × (code d ≡ code c + 32))
    ⊎ ((¬ ((65 ≤ code c) × (code c ≤ 70))) × (d ≡ c))

-- One test of the chain.
letter :
    (c : Char) (k : ℕ) (d rest : Char)
    → (65 ≤ k) × (k ≤ 70) × (code d ≡ k + 32)
    → ((code c ≡ k → ⊥) → IsLow c rest)
    → IsLow c (if eqb (code c) k then d else rest)
letter c k d rest (low, high, at) h = elim (Bool-cases (eqb (code c) k)) [
  | inl is ↦ rw is (
      let same : code c ≡ k = (eqb_iff (code c) k).0 is in
      inl (omega (arith, low, same), omega (arith, high, same), omega (arith, at, same)))
  | inr isnt ↦ rw isnt (h (λ e. cc ((eqb_iff (code c) k).1 e, isnt)))
]

no_letter :
    (n : ℕ)
    → ¬ (n ≡ 65)
    → ¬ (n ≡ 66)
    → ¬ (n ≡ 67)
    → ¬ (n ≡ 68)
    → ¬ (n ≡ 69)
    → ¬ (n ≡ 70)
    → ¬ ((65 ≤ n) × (n ≤ 70))
no_letter n a b c d e f h = ground arith

lower_char_lem : (c : Char) → IsLow c (lower_char c)
unfolding lower_char
lower_char_lem c =
    letter c 65 (char 97 tt) _ (omega arith, omega arith, refl)
      (λ a.
        letter c 66 (char 98 tt) _ (omega arith, omega arith, refl)
          (λ b.
            letter c 67 (char 99 tt) _ (omega arith, omega arith, refl)
              (λ d.
                letter c 68 (char 100 tt) _ (omega arith, omega arith, refl)
                  (λ e.
                    letter c 69 (char 101 tt) _ (omega arith, omega arith, refl)
                      (λ f.
                        letter c 70 (char 102 tt) _ (omega arith, omega arith, refl)
                          (λ g. inr (no_letter (code c) a b d e f g, refl)))))))

pub lower-IsLowered : (text : String) → IsLowered text (lower text)
unfolding lower
lower-IsLowered String.[] = tt
lower-IsLowered (c ∷ s) = (lower_char_lem c, lower-IsLowered s)

-- The label of a span in the rows of a trace's labels: that of a row of the span, none just without one.
abbrev pub IsLabel : List ClassificationRow → String → Option Classification → Type 0
IsLabel labels span_id none =
    (l : ClassificationRow) → Elem l labels → ¬ (decode_fixed_string l.span_id ≡ some span_id)
IsLabel labels span_id (some label) =
    (l : ClassificationRow) × Elem l labels
    × (decode_fixed_string l.span_id ≡ some span_id)
    × (l.classification ≡ label)

-- The span of an answer shows the stored one: its identifiers decoded, its columns, and its label.
abbrev pub ShowsSpan : List ClassificationRow → StoredSpan → Span → Type 0
ShowsSpan labels r x =
    (decode_fixed_string r.span_id ≡ some x.span_id)
    × (decode_fixed_string r.parent_span_id ≡ some x.parent_span_id)
    × (x.service_name ≡ r.service_name)
    × (x.span_name ≡ r.span_name)
    × (x.start_time_unix_nano ≡ r.start_time_unix_nano)
    × (x.end_time_unix_nano ≡ r.end_time_unix_nano)
    × (x.status_code ≡ r.status_code)
    × (x.attributes ≡ insert_all [] r.attributes)
    × IsLabel labels x.span_id x.classification

-- The spans of an answer show the rows, one for one.
abbrev pub Shown : List ClassificationRow → List StoredSpan → List Span → Type 0
Shown labels [] [] = Unit
Shown labels [] (x ∷ xs) = ⊥
Shown labels (r ∷ rs) [] = ⊥
Shown labels (r ∷ rs) (x ∷ xs) = ShowsSpan labels r x × Shown labels rs xs

module _ (labels : List ClassificationRow) (entries : List (String × Classification))
    (read : each label_entry labels ≡ some entries) where
  label_entry_lem :
      (l : ClassificationRow) (y : String × Classification)
      → label_entry l ≡ some y
      → (decode_fixed_string l.span_id ≡ some y.0) × (l.classification ≡ y.1)
  label_entry_lem l y h =
      let (span_id, p, e) = >>=-eq-some (decode_fixed_string l.span_id) _ y h in
      let same = some_inj _ _ e in
      (
        p ∙ ap (λ (z : String × Classification). some z.0) same,
        ap (λ (z : String × Classification). z.1) same,
      )

  lookup-IsLabel :
      (span_id : String) (o : Option Classification)
      → lookup span_id (insert_all [] entries) ≡ o
      → IsLabel labels span_id o
  unfolding lookup
  lookup-IsLabel span_id none h = λ l m decoded.
      let (y, e) = Returns-of_each label_entry labels entries l read m in
      let n = (Elem-each label_entry labels entries y read).1 (l, m, e) in
      let same : y.0 ≡ span_id = some_inj _ _ (sym (label_entry_lem l y e).0 ∙ decoded) in
      lookup-insert_all_mem span_id [] entries
        (inl (
          subst (λ k. Elem k (keys entries)) same
            (Elem-map (λ (z : String × Classification). z.0) y entries n)))
        h
  lookup-IsLabel span_id (some label) h =
      let n : Elem (span_id, label) entries =
        ⊎_elim (λ k. k) (λ no. absurd (no_path label no))
          (lookup-insert_all span_id label [] entries h) in
      let (l, m, e) = (Elem-each label_entry labels entries (span_id, label) read).0 n in
      let shown = label_entry_lem l (span_id, label) e in (l, m, shown.0, shown.1)

  detail_row-ShowsSpan :
      (r : StoredSpan) (row : SpanRow)
      → detail_row (insert_all [] entries) r ≡ some row
      → ShowsSpan labels r (span_of row)
  unfolding detail_row
  detail_row-ShowsSpan r row h =
      let (a, p, k) = >>=-eq-some (decode_fixed_string r.span_id) _ row h in
      let (b, q, e) = >>=-eq-some (decode_fixed_string r.parent_span_id) _ row k in
      subst (λ (row : SpanRow). ShowsSpan labels r (span_of row)) (some_inj _ row e)
        (
          p,
          q,
          refl,
          refl,
          refl,
          refl,
          refl,
          refl,
          lookup-IsLabel a (lookup a (insert_all [] entries)) refl,
        )

  pub each-Shown :
      (rs : List StoredSpan) (rows : List SpanRow)
      → each (detail_row (insert_all [] entries)) rs ≡ some rows
      → Shown labels rs (map span_of rows)
  unfolding each
  each-Shown [] rows h = subst (λ rows. Shown labels [] (map span_of rows)) (some_inj [] rows h) tt
  each-Shown (r ∷ rs) rows h =
      let (x, p, k) = >>=-eq-some (detail_row (insert_all [] entries) r) _ rows h in
      let (xs, q, e) = >>=-eq-some (each (detail_row (insert_all [] entries)) rs) _ rows k in
      subst (λ rows. Shown labels (r ∷ rs) (map span_of rows)) (some_inj (x ∷ xs) rows e)
        (detail_row-ShowsSpan r x p, each-Shown rs xs q)
