-- ===== src/Api/Durations.antt =====
-- queries.py, `_fetch_trace_durations`: the duration of a trace, of its spans in the table.
use Prim.Native.Nat.{max, min}
use native.Mathlib.Decide.{dec_le}
use distributed_tracing_plat.Prelude.{
  ℕ, ◌≤◌, true, ◌≡◌, ◌≢◌, ◌↔◌, refl, ap, sym, subst, ◌∙◌, inl, inr, ⊎_elim, String, string_eq,
  Option, none, some, List, [], ◌∷◌, map, filter, Elem, Elem-filter, Elem-map, Elem-map_inv,
  Elem-values, values, values_of_group, Elem-group_key, group, group-eq-entries, Elem-add_keys,
  firsts, keys, contains, contains_iff, lookup, insert_all, lookup-insert_all,
  lookup-insert_all_mem, arith, Bool-cases,
}
use distributed_tracing_plat.Prelude.Int.{ℤ, sub_ℕ}
use distributed_tracing_plat.Prelude.Floats.{Floats}
use distributed_tracing_plat.Detectors.Loops.{>>=-eq-some, some_inj}
use distributed_tracing_plat.Storage.{StoredSpan}
use distributed_tracing_plat.Storage.FixedStrings.{rstrip, is_ascii, decode_fixed_string}
use distributed_tracing_plat.Reader.{each}
use distributed_tracing_plat.Reader.Ranges.{Elem-each, Returns-of_each}
use distributed_tracing_plat.Api.Traces.{
  latest_end, earliest_start, extent, duration_entry, fetch_trace_durations,
}

pub no_path : {A : Type 0} (a : A) → none ≡ some a → ⊥
no_path a e = cc

-- A span of the table with this column.
abbrev pub IsOf : String → List StoredSpan → StoredSpan → Type 0
IsOf raw spans r = Elem r spans × (r.trace_id ≡ raw)

-- What the code decodes is the text without its padding.
pub rstrip_of_decode : (raw id : String) → decode_fixed_string raw ≡ some id → rstrip raw ≡ id
unfolding decode_fixed_string
rstrip_of_decode raw id h = elim (Bool-cases (is_ascii (rstrip raw))) [
  | inl ascii ↦ some_inj (rstrip raw) id (rw ascii at h)
  | inr other ↦ absurd (ground (arith, other, h))
]

at_most : {A : Type 0} (t : A → ℕ) (b r : A) → b ≡ r → t r ≤ t b
at_most t b r e = subst (λ z. t z ≤ t b) e (omega arith)

at_least : {A : Type 0} (t : A → ℕ) (b r : A) → b ≡ r → t b ≤ t r
at_least t b r e = subst (λ z. t b ≤ t z) e (omega arith)

-- The latest end is that of one of the spans, and so is the earliest start.
latest_end_lem :
    (b : StoredSpan) (rs : List StoredSpan)
    → (last : StoredSpan) × Elem last (b ∷ rs)
      × (latest_end rs b.end_time_unix_nano ≡ last.end_time_unix_nano)
      × ((r : StoredSpan) → Elem r (b ∷ rs) → r.end_time_unix_nano ≤ last.end_time_unix_nano)
unfolding latest_end
latest_end_lem b [] = (
  b,
  inl refl,
  refl,
  λ r m.
      at_most (λ (z : StoredSpan). z.end_time_unix_nano) b r (⊎_elim (λ e. e) (λ no. absurd no) m),
)
latest_end_lem b (x ∷ rs) = elim (dec_le b.end_time_unix_nano x.end_time_unix_nano) [
  | yes le ↦
      let (last, m, e, all) = latest_end_lem x rs in
      let top : max b.end_time_unix_nano x.end_time_unix_nano ≡ x.end_time_unix_nano =
        omega (arith, le) in
      (
        last,
        inr m,
        ap (latest_end rs) top ∙ e,
        λ r.
            ⊎_elim
              (λ q.
                subst (λ (z : StoredSpan). z.end_time_unix_nano ≤ last.end_time_unix_nano) q
                  (omega (arith, le, all x (inl refl))))
              (all r),
      )
  | no gt ↦
      let (last, m, e, all) = latest_end_lem b rs in
      let top : max b.end_time_unix_nano x.end_time_unix_nano ≡ b.end_time_unix_nano =
        omega (arith, gt) in
      (
        last,
        ⊎_elim inl (λ i. inr (inr i)) m,
        ap (latest_end rs) top ∙ e,
        λ r.
            ⊎_elim (λ q. all r (inl q))
              (⊎_elim
                (λ q.
                  subst (λ (z : StoredSpan). z.end_time_unix_nano ≤ last.end_time_unix_nano) q
                    (omega (arith, gt, all b (inl refl))))
                (λ i. all r (inr i))),
      )
]

earliest_start_lem :
    (b : StoredSpan) (rs : List StoredSpan)
    → (first : StoredSpan) × Elem first (b ∷ rs)
      × (earliest_start rs b.start_time_unix_nano ≡ first.start_time_unix_nano)
      × ((r : StoredSpan) → Elem r (b ∷ rs) → first.start_time_unix_nano ≤ r.start_time_unix_nano)
unfolding earliest_start
earliest_start_lem b [] = (
  b,
  inl refl,
  refl,
  λ r m.
      at_least (λ (z : StoredSpan). z.start_time_unix_nano) b r
        (⊎_elim (λ e. e) (λ no. absurd no) m),
)
earliest_start_lem b (x ∷ rs) = elim (dec_le x.start_time_unix_nano b.start_time_unix_nano) [
  | yes le ↦
      let (first, m, e, all) = earliest_start_lem x rs in
      let top : min b.start_time_unix_nano x.start_time_unix_nano ≡ x.start_time_unix_nano =
        omega (arith, le) in
      (
        first,
        inr m,
        ap (earliest_start rs) top ∙ e,
        λ r.
            ⊎_elim
              (λ q.
                subst (λ (z : StoredSpan). first.start_time_unix_nano ≤ z.start_time_unix_nano) q
                  (omega (arith, le, all x (inl refl))))
              (all r),
      )
  | no gt ↦
      let (first, m, e, all) = earliest_start_lem b rs in
      let top : min b.start_time_unix_nano x.start_time_unix_nano ≡ b.start_time_unix_nano =
        omega (arith, gt) in
      (
        first,
        ⊎_elim inl (λ i. inr (inr i)) m,
        ap (earliest_start rs) top ∙ e,
        λ r.
            ⊎_elim (λ q. all r (inl q))
              (⊎_elim
                (λ q.
                  subst (λ (z : StoredSpan). first.start_time_unix_nano ≤ z.start_time_unix_nano) q
                    (omega (arith, gt, all b (inl refl))))
                (λ i. all r (inr i))),
      )
]

-- The extent goes from the earliest start of a list of spans to their latest end.
abbrev IsExtent : List StoredSpan → ℤ → Type 0
IsExtent rows n =
    (first : StoredSpan) × (last : StoredSpan) × Elem first rows
    × Elem last rows
    × ((r : StoredSpan)
        → Elem r rows
        → (first.start_time_unix_nano ≤ r.start_time_unix_nano)
          × (r.end_time_unix_nano ≤ last.end_time_unix_nano))
    × (n ≡ sub_ℕ last.end_time_unix_nano first.start_time_unix_nano)

extent-IsExtent : (r : StoredSpan) (rs : List StoredSpan) → IsExtent (r ∷ rs) (extent (r ∷ rs))
unfolding extent
extent-IsExtent r rs =
    let (last, m, e, all) = latest_end_lem r rs in
    let (first, n, q, low) = earliest_start_lem r rs in
    (first, last, n, m, λ x i. (low x i, all x i), λ j. sub_ℕ (e j) (q j))

-- The rows that are queried, each under its column.
module _ (spans : List StoredSpan) (ids : List String) where
  abbrev queried : List (String × StoredSpan)
  queried =
      map (λ (r : StoredSpan). (r.trace_id, r))
        (filter (λ r. contains ids (rstrip r.trace_id)) spans)

  Elem-queried :
      (raw id : String) (r : StoredSpan)
      → decode_fixed_string raw ≡ some id
      → Elem id ids
      → Elem (raw, r) queried ↔ IsOf raw spans r
  Elem-queried raw id r decoded m = (
    λ i.
        let (x, j, e) =
          Elem-map_inv (λ (r : StoredSpan). (r.trace_id, r)) (raw, r)
            (filter (λ r. contains ids (rstrip r.trace_id)) spans) i in
        let kept =
          (Elem-filter (λ (r : StoredSpan). contains ids (rstrip r.trace_id)) x spans).0 j in
        let same : x ≡ r = ap (λ (p : String × StoredSpan). p.1) e in
        (
          subst (λ y. Elem y spans) same kept.0,
          subst (λ (y : StoredSpan). y.trace_id ≡ raw) same
              (ap (λ (p : String × StoredSpan). p.0) e),
        ),
    λ (i, e).
        subst (λ k. Elem (k, r) queried) e
          (Elem-map (λ (r : StoredSpan). (r.trace_id, r)) r
            (filter (λ r. contains ids (rstrip r.trace_id)) spans)
            ((Elem-filter (λ (r : StoredSpan). contains ids (rstrip r.trace_id)) r spans).1 (
              i,
              subst (λ k. contains ids k ≡ true)
                  (sym (ap rstrip e ∙ rstrip_of_decode raw id decoded)) ((contains_iff ids id).1 m),
            ))),
  )

module _ (spans : List StoredSpan) (ids : List String) where
  -- A span of the column stands in the group of the column.
  Elem-rows :
      (raw id : String) (rows : List StoredSpan)
      → decode_fixed_string raw ≡ some id
      → Elem id ids
      → Elem (raw, rows) (group (queried spans ids))
      → (r : StoredSpan) → Elem r rows ↔ IsOf raw spans r
  Elem-rows raw id rows decoded m i r =
      let same = values_of_group (queried spans ids) raw rows i in
      let of_group = Elem-values raw r (queried spans ids) in
      let of_table = Elem-queried spans ids raw id r decoded m in
      (
        λ j. of_table.0 (of_group.0 (subst (Elem r) same j)),
        λ j. subst (Elem r) (sym same) (of_group.1 (of_table.1 j)),
      )

module _ {F : Type 0} ⦃f : Floats F⦄ where
  -- The duration of a trace in milliseconds, from the earliest start of its spans to their latest end; none
  -- just when it has no span. The spans share the column that decodes to the trace's identifier.
  abbrev pub IsDuration : List StoredSpan → String → Option F → Type 0
  IsDuration spans id none =
      (r : StoredSpan) → Elem r spans → ¬ (decode_fixed_string r.trace_id ≡ some id)
  IsDuration spans id (some d) =
      (raw : String) × (first : StoredSpan) × (last : StoredSpan) × (decode_fixed_string raw
        ≡ some id)
      × IsOf raw spans first
      × IsOf raw spans last
      × ((r : StoredSpan)
          → IsOf raw spans r
          → (first.start_time_unix_nano ≤ r.start_time_unix_nano)
            × (r.end_time_unix_nano ≤ last.end_time_unix_nano))
      × (d
          ≡ f.div (f.of_ℤ (sub_ℕ last.end_time_unix_nano first.start_time_unix_nano))
              (f.of_ℕ 1_000_000))

  module _ (spans : List StoredSpan) (ids : List String) where
    extent_lem :
        (raw id : String) (rows : List StoredSpan) (d : F)
        → Elem id ids
        → Elem (raw, rows) (group (queried spans ids))
        → decode_fixed_string raw ≡ some id
        → f.div (f.of_ℤ (extent rows)) (f.of_ℕ 1_000_000) ≡ d
        → IsDuration spans id (some d)
    extent_lem raw id [] d m i decoded at =
        let (p, j, q) =
          Elem-map_inv (λ (p : String × StoredSpan). p.0) raw (queried spans ids)
            (Elem-group_key (queried spans ids) raw [] i) in
        absurd (
          (Elem-rows spans ids raw id [] decoded m i p.1).1 (
            (Elem-queried spans ids raw id p.1 decoded m).0
              (subst (λ k. Elem (k, p.1) (queried spans ids)) q j)))
    extent_lem raw id (x ∷ xs) d m i decoded at =
        let (first, last, n, k, all, e) = extent-IsExtent x xs in
        let own = Elem-rows spans ids raw id (x ∷ xs) decoded m i in
        (
          raw,
          first,
          last,
          decoded,
          (own first).0 n,
          (own last).0 k,
          λ r j. all r ((own r).1 j),
          sym at ∙ ap (λ z. f.div (f.of_ℤ z) (f.of_ℕ 1_000_000)) e,
        )

    entry_lem :
        (raw id : String) (rows : List StoredSpan) (d : F)
        → Elem id ids
        → Elem (raw, rows) (group (queried spans ids))
        → duration_entry (raw, rows) ≡ some (id, d)
        → IsDuration spans id (some d)
    unfolding duration_entry
    entry_lem raw id rows d m i e =
        let (name, decoded, h) = >>=-eq-some (decode_fixed_string raw) _ (id, d) e in
        let same = some_inj _ _ h in
        extent_lem raw id rows d m i (decoded ∙ ap (λ (p : String × F). some p.0) same)
          (ap (λ (p : String × F). p.1) same)

    entry_name :
        (e : String × List StoredSpan) (y : String × F) (id : String)
        → duration_entry e ≡ some y
        → decode_fixed_string e.0 ≡ some id
        → y.0 ≡ id
    unfolding duration_entry
    entry_name (raw, rows) y id h decoded =
        let (name, p, q) = >>=-eq-some (decode_fixed_string raw) _ y h in
        ap (λ (p : String × F). p.0) (sym (some_inj _ _ q)) ∙ some_inj _ _ (sym p ∙ decoded)

    no_entry :
        (out : List (String × F)) (r : StoredSpan) (id : String)
        → each duration_entry (group (queried spans ids)) ≡ some out
        → Elem id ids
        → Elem r spans
        → decode_fixed_string r.trace_id ≡ some id
        → lookup id (insert_all [] out) ≢ none
    no_entry out r id h m i e =
        let ps = queried spans ids in
        let group_of : Elem (r.trace_id, values r.trace_id ps) (group ps) =
          subst (Elem (r.trace_id, values r.trace_id ps)) (sym (group-eq-entries ps)) (
            Elem-map (λ k. (k, values k ps)) r.trace_id (firsts (keys ps))
              ((Elem-add_keys [] (keys ps) r.trace_id).1 (
                inr (
                  Elem-map (λ (p : String × StoredSpan). p.0) (r.trace_id, r) ps
                    ((Elem-queried spans ids r.trace_id id r e m).1 (i, refl)))))) in
        let (y, q) = Returns-of_each duration_entry (group ps) out _ h group_of in
        let n = (Elem-each duration_entry (group ps) out y h).1 (_, group_of, q) in
        lookup-insert_all_mem id [] out (
          inl (
            subst (λ k. Elem k (keys out)) (entry_name _ y id q e)
              (Elem-map (λ (p : String × F). p.0) y out n)))

    found_lem :
        (out : List (String × F)) (id : String) (o : Option F)
        → each duration_entry (group (queried spans ids)) ≡ some out
        → Elem id ids
        → lookup id (insert_all [] out) ≡ o
        → IsDuration spans id o
    unfolding lookup
    found_lem out id none h m e = λ r i decoded. no_entry out r id h m i decoded e
    found_lem out id (some d) h m e =
        let n : Elem (id, d) out =
          ⊎_elim (λ k. k) (λ no. absurd (no_path d no)) (lookup-insert_all id d [] out e) in
        let ((raw, rows), i, q) =
          (Elem-each duration_entry (group (queried spans ids)) out (id, d) h).0 n in
        entry_lem raw id rows d m i q

  -- For each identifier that was asked, the dictionary has the duration of its trace.
  pub fetch_trace_durations-IsDuration :
      (spans : List StoredSpan) (ids : List String) (out : List (String × F)) (id : String)
      → fetch_trace_durations spans ids ≡ some out
      → Elem id ids
      → IsDuration spans id (lookup id out)
  unfolding fetch_trace_durations
  fetch_trace_durations-IsDuration spans [] out id h m = absurd m
  fetch_trace_durations-IsDuration spans (t ∷ ts) out id h m =
      let (entries, p, q) =
        >>=-eq-some (each duration_entry (group (queried spans (t ∷ ts)))) _ out h in
      found_lem spans (t ∷ ts) entries id (lookup id out) p m
        (ap (lookup id) (some_inj (insert_all [] entries) out q))
