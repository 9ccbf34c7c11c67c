-- ===== src/Reader/Ranges.antt =====
-- reader.py, `fetch_window`: a span is read for the window of its start, and for no other.
use native.Mathlib.Nat.{le-div_iff_mul-le, div-lt_iff_lt-mul}
use distributed_tracing_plat.Prelude.{
  ℕ, ◌*◌, ◌/◌, ◌+◌, ◌<◌, ◌≤◌, true, ◌&&◌, ◌≡◌, ◌↔◌, inl, inr, refl, sym, ap, ◌∙◌, ⊎_elim, String,
  Option, some, List, [], ◌∷◌, filter, Elem, Elem-filter, ltb, arith,
}
use distributed_tracing_plat.Detectors.Loops.{Returns, Returns->>=, >>=-eq-some, some_inj}
use distributed_tracing_plat.Windowing.{second, window_bounds, window_index}
use distributed_tracing_plat.Reassembly.{SpanRow}
use distributed_tracing_plat.Storage.{StoredSpan, DetectionRow, Client}
use distributed_tracing_plat.Storage.FixedStrings.{
  IsHex, pad, decode_fixed_string, decode_fixed_string-pad,
}
use distributed_tracing_plat.Reader.{
  each, in_range, in_closed_range, span_row, detection_of, late_span, fetch_window,
  fetch_recent_detections, fetch_late_spans,
}

module _ {A B : Type 0} (f : A → Option B) where
  -- What a loop returns is what its steps return.
  pub Elem-each :
      (xs : List A) (ys : List B) (y : B)
      → each f xs ≡ some ys
      → Elem y ys ↔ ((x : A) × Elem x xs × (f x ≡ some y))
  unfolding each
  Elem-each [] ys y h = rw (← some_inj _ _ h) (λ m. absurd m, λ m. absurd m.1)
  Elem-each (x ∷ xs) ys y h =
      let (b, p, k) = >>=-eq-some (f x) _ ys h in
      let (bs, q, e) = >>=-eq-some (each f xs) _ ys k in
      let ih = Elem-each xs bs y q in
      rw (← some_inj _ _ e) (
        ⊎_elim (λ u. (x, inl refl, rw u at p)) (λ m. let w = ih.0 m in (w.0, inr w.1, w.2)),
        λ (z, i, r).
            ⊎_elim (λ u. inl (some_inj _ _ (sym p ∙ ap f u ∙ r))) (λ j. inr (ih.1 (z, j, r))) i,
      )

  -- A loop raises only where a step does.
  pub each-Returns : (xs : List A) → ((x : A) → Elem x xs → Returns (f x)) → Returns (each f xs)
  unfolding each
  each-Returns [] h = ([], refl)
  each-Returns (x ∷ xs) h =
      Returns->>= (f x) _ (h x (inl refl)) (λ y.
        Returns->>= (each f xs) _ (each-Returns xs (λ z m. h z (inr m))) (λ ys. (y ∷ ys, refl)))

  pub Returns-of_each :
      (xs : List A) (ys : List B) (x : A) → each f xs ≡ some ys → Elem x xs → Returns (f x)
  unfolding each
  Returns-of_each [] ys x h m = absurd m
  Returns-of_each (z ∷ xs) ys x h m =
      let (b, p, k) = >>=-eq-some (f z) _ ys h in
      let (bs, q, e) = >>=-eq-some (each f xs) _ ys k in
      ⊎_elim (λ u. (b, rw u at p)) (Returns-of_each xs bs x q) m

-- The identifiers of a span as the database pads them.
abbrev pub IsEncoded : ℕ → String → Type 0
IsEncoded width raw = (s : String) × IsHex s × (raw ≡ pad s width)

abbrev pub IsStored : StoredSpan → Type 0
IsStored r = IsEncoded 32 r.trace_id × IsEncoded 16 r.span_id × IsEncoded 16 r.parent_span_id

pub decode_fixed_string-Returns :
    (width : ℕ) (raw : String) → IsEncoded width raw → Returns (decode_fixed_string raw)
decode_fixed_string-Returns width raw (s, hex, e) =
    (s, ap decode_fixed_string e ∙ decode_fixed_string-pad s width hex)

pub span_row-Returns : (r : StoredSpan) → IsStored r → Returns (span_row r)
unfolding span_row
span_row-Returns r (t, s, p) = Returns->>= _ _ (decode_fixed_string-Returns 32 r.trace_id t) (λ a.
    Returns->>= _ _ (decode_fixed_string-Returns 16 r.span_id s)
      (λ b. Returns->>= _ _ (decode_fixed_string-Returns 16 r.parent_span_id p) (λ q. (_, refl))))

late_span-Returns : (r : StoredSpan) → IsStored r → Returns (late_span r)
unfolding late_span
late_span-Returns r (t, s, p) =
    Returns->>= _ _ (decode_fixed_string-Returns 32 r.trace_id t)
      (λ a. Returns->>= _ _ (decode_fixed_string-Returns 16 r.span_id s) (λ b. (_, refl)))

quotient_iff : (t w i : ℕ) → 0 < w → ((i * w ≤ t) × (t < i * w + w)) ↔ (t / w ≡ i)
quotient_iff t w i pos =
    let low = le-div_iff_mul-le {k = w} {x = i} {y = t} pos in
    let high = div-lt_iff_lt-mul {k = w} {x = t} {y = i + 1} pos in
    let e : (i + 1) * w ≡ i * w + w = grind arith in
    (
      λ h. omega (arith, low.1 h.0, high.1 (omega arith)),
      λ h. (low.0 (omega arith), omega (arith, high.0 (omega arith))),
    )

-- The range of a window holds the times of its index.
in_range-window_bounds :
    (t window_seconds index : ℕ)
    → 0 < window_seconds
    → (let bounds = window_bounds index window_seconds in in_range bounds.0 bounds.1 t ≡ true)
      ↔ (window_index t window_seconds ≡ index)
unfolding window_bounds window_index
in_range-window_bounds t window_seconds index pos =
    let law = quotient_iff t (window_seconds * second) index (omega arith) in
    (λ h. law.0 (ground arith), λ h. let b = law.1 h in ground arith)

module _ {F : Type 0} (c : Client F) where
  pub fetch_window-Returns :
      (s : c.State) (start end : ℕ)
      → ((r : StoredSpan) → Elem r (c.tables s).spans → IsStored r)
      → Returns (fetch_window c s start end)
  unfolding fetch_window
  fetch_window-Returns s start end stored = each-Returns span_row _ (λ r m.
      span_row-Returns r
        (stored r ((Elem-filter (λ r. in_range start end r.start_time_unix_nano) r _).0 m).0))

  pub fetch_window_exact :
      (s : c.State) (start end : ℕ) (rows : List SpanRow) (row : SpanRow)
      → fetch_window c s start end ≡ some rows
      → Elem row rows ↔ (
          (r : StoredSpan) × Elem r (c.tables s).spans
          × (in_range start end r.start_time_unix_nano ≡ true)
          × (span_row r ≡ some row))
  unfolding fetch_window
  fetch_window_exact s start end rows row h =
      let spans = (c.tables s).spans in
      let law =
        Elem-each span_row (filter (λ r. in_range start end r.start_time_unix_nano) spans) rows row
          h in
      (
        λ m.
            let (r, i, e) = law.0 m in
            let j = (Elem-filter (λ r. in_range start end r.start_time_unix_nano) r spans).0 i in
            (r, j.0, j.1, e),
        λ (r, i, b, e).
            law.1 (
              r,
              (Elem-filter (λ r. in_range start end r.start_time_unix_nano) r spans).1 (i, b),
              e,
            ),
      )

  -- If every stored identifier is an ASCII text without NUL padded to its column, reading a window of
  -- positive length returns, and it returns exactly the decoded spans whose start lies in the window of
  -- that index.
  pub fetch_window-window_index :
      (s : c.State) (window_seconds index : ℕ)
      → 0 < window_seconds
      → ((r : StoredSpan) → Elem r (c.tables s).spans → IsStored r)
      → (rows : List SpanRow) × (let bounds = window_bounds index window_seconds in
          fetch_window c s bounds.0 bounds.1 ≡ some rows)
        × ((row : SpanRow)
            → Elem row rows ↔ (
                (r : StoredSpan) × Elem r (c.tables s).spans
                × (window_index r.start_time_unix_nano window_seconds ≡ index)
                × (span_row r ≡ some row)))
  fetch_window-window_index s window_seconds index pos stored =
      let bounds = window_bounds index window_seconds in
      let (rows, read) = fetch_window-Returns s bounds.0 bounds.1 stored in
      (
        rows,
        read,
        λ row.
            let law = fetch_window_exact s bounds.0 bounds.1 rows row read in
            let at_index = λ (r : StoredSpan).
              in_range-window_bounds r.start_time_unix_nano window_seconds index pos in
            (
              λ m. let (r, i, b, e) = law.0 m in (r, i, (at_index r).0 b, e),
              λ (r, i, b, e). law.1 (r, i, (at_index r).1 b, e),
            ),
      )

  -- Reading the detections returns if each row of the table can be read.
  pub fetch_recent_detections-Returns :
      (s : c.State) (start end : ℕ)
      → ((r : DetectionRow F) → Elem r (c.tables s).detections → Returns (detection_of r))
      → Returns (fetch_recent_detections c s start end)
  unfolding fetch_recent_detections
  fetch_recent_detections-Returns s start end readable =
      each-Returns detection_of _ (λ r m.
        readable r ((Elem-filter (λ r. in_closed_range start end r.window_start) r _).0 m).0)

  -- So does the check for late spans.
  pub fetch_late_spans-Returns :
      (s : c.State) (boundary since : ℕ)
      → ((r : StoredSpan) → Elem r (c.tables s).spans → IsStored r)
      → Returns (fetch_late_spans c s boundary since)
  unfolding fetch_late_spans
  fetch_late_spans-Returns s boundary since stored = each-Returns late_span _ (λ r m.
      late_span-Returns r (
        stored r
          ((Elem-filter (λ r. ltb since r.ingested_at && ltb r.start_time_unix_nano boundary) r _).0
            m).0))
