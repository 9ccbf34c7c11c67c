-- ===== src/Evaluation/Queries/BestOffsets.antt =====
-- eval.py, `_fetch_detected_offsets`: the most confident offset of each service.
use distributed_tracing_plat.Prelude.{
  ℕ, ◌+◌, ◌≤◌, Bool, true, String, string_eq, ◌==◌, ◌≡◌, ◌↔◌, ◌⊎◌, inl, inr, ⊎_elim, refl, sym,
  subst, ap, Option, none, some, List, [], ◌∷◌, map, filter, sort, Elem, Elem-sort, Elem-filter,
  lookup, leb, Bool-cases, arith,
}
use distributed_tracing_plat.Prelude.Int.{ℤ}
use distributed_tracing_plat.Storage.{OffsetRow}
use distributed_tracing_plat.Evaluation.Queries.{
  time_margin, near, best_offsets, fetch_detected_offsets,
}
use distributed_tracing_plat.Evaluation.Queries.Entries.{none-ne-some, IsBest, best_offsets-IsBest}

-- The time is within the margin of the range.
abbrev pub IsNear : ℕ × ℕ → ℕ → Type 0
IsNear (lo, hi) t = (lo ≤ t + time_margin) × (t ≤ hi + time_margin)

near_iff : (range : ℕ × ℕ) (t : ℕ) → (near range t ≡ true) ↔ IsNear range t
near_iff (lo, hi) t = ground arith

abbrev entry_offset : Option (ℤ × ℕ) → Option ℤ
entry_offset none = none
entry_offset (some p) = some p.0

lookup-map :
    (name : String) (d : List (String × (ℤ × ℕ)))
    → lookup name (map (λ (e : String × (ℤ × ℕ)). (e.0, e.1.0)) d) ≡ entry_offset (lookup name d)
unfolding lookup
lookup-map name [] = refl
lookup-map name ((j, p) ∷ d) = elim (Bool-cases (j == name)) [
  | inl e ↦ rw e refl
  | inr ne ↦ rw ne (lookup-map name d)
]

-- The offset is of a row of the service that is near the range, and no such row has a greater confidence.
abbrev pub IsDetected : List OffsetRow → ℕ × ℕ → String → ℤ → Type 0
IsDetected rows range name offset_ns =
    (r : OffsetRow) × Elem r rows
    × IsNear range r.window_start
    × (r.service_name ≡ name)
    × (r.offset_ns ≡ offset_ns)
    × ((s : OffsetRow)
        → Elem s rows
        → IsNear range s.window_start
        → s.service_name ≡ name
        → s.confidence ≤ r.confidence)

module _ (rows : List OffsetRow) (range : ℕ × ℕ) (name : String) where
  abbrev is_close : OffsetRow → Bool
  is_close r = near range r.window_start

  abbrev queried : List OffsetRow
  queried = sort (λ a b. leb b.confidence a.confidence) (filter is_close rows)

  Elem-queried : (r : OffsetRow) → Elem r queried ↔ (Elem r rows × IsNear range r.window_start)
  Elem-queried r =
      let sorted =
        Elem-sort (λ (a b : OffsetRow). leb b.confidence a.confidence) r (filter is_close rows) in
      let kept = Elem-filter is_close r rows in
      (
        λ m. let (i, e) = kept.0 (sorted.0 m) in (i, (near_iff range r.window_start).0 e),
        λ (m, h). sorted.1 (kept.1 (m, (near_iff range r.window_start).1 h)),
      )

  detected :
      (o : Option (ℤ × ℕ))
      → IsBest name queried none o
      → ((offset_ns : ℤ) × (entry_offset o ≡ some offset_ns) × IsDetected rows range name offset_ns)
        ⊎ ((entry_offset o ≡ none)
            × ((r : OffsetRow)
                → Elem r rows
                → IsNear range r.window_start
                → ¬ (r.service_name ≡ name)))
  detected none h = inr (refl, λ r m close. h.1 r ((Elem-queried r).1 (m, close)))
  detected (some p) h = inl (
    p.0,
    refl,
    ⊎_elim (λ no. absurd (none-ne-some no))
        (λ (r, m, same, at).
          let (i, near_by) = (Elem-queried r).0 m in
          (
            r,
            i,
            near_by,
            same,
            ap (λ (z : ℤ × ℕ). z.0) at,
            λ s j close of_name.
                subst (λ (z : ℤ × ℕ). s.confidence ≤ z.1) (sym at)
                  (h.1 s ((Elem-queried s).1 (j, close)) of_name),
          ))
        h.0,
  )

  -- A service has the offset of a row of the service in the range, with the margin, such that no row of the
  -- service there has a greater confidence; it has no offset just when it has no row there.
  pub fetch_detected_offsets_exact :
      ((offset_ns : ℤ) × (lookup name (fetch_detected_offsets rows range) ≡ some offset_ns)
        × IsDetected rows range name offset_ns)
      ⊎ ((lookup name (fetch_detected_offsets rows range) ≡ none)
          × ((r : OffsetRow)
              → Elem r rows
              → IsNear range r.window_start
              → ¬ (r.service_name ≡ name)))
  unfolding fetch_detected_offsets lookup
  fetch_detected_offsets_exact =
      rw (lookup-map name (best_offsets [] queried))
        (detected (lookup name (best_offsets [] queried)) (best_offsets-IsBest name queried []))
