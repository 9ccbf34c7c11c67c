-- ===== src/Api/Best.antt =====
-- queries.py, `fetch_clock_offsets`: the most confident offset of each service, once.
use distributed_tracing_plat.Prelude.{
  ℕ, ◌≤◌, Bool, true, false, ◌||◌, ◌≡◌, refl, ap, sym, subst, ◌∙◌, inl, inr, ⊎_elim, String,
  string_eq, ◌==◌, List, [], ◌∷◌, map, filter, sort, IsSorted, IsSorted-sort, leb, leb→le, contains,
  contains_iff, Elem, Elem-sort, Elem-map_inv, All-Elem, Distinct, Bool-cases, arith,
}
use text.Mathlib.TextEquality.{eq_iff}
use distributed_tracing_plat.Storage.{OffsetRow, Client}
use distributed_tracing_plat.Reader.{in_closed_range}
use distributed_tracing_plat.Api.Listings.{
  ClockOffsetRow, clock_offset, first_offsets, fetch_clock_offsets,
}

abbrev surer : OffsetRow → OffsetRow → Bool
surer a b = leb b.confidence a.confidence

-- The offset is of a row of the list, of which no other of its service is surer.
abbrev pub IsBest : List OffsetRow → ClockOffsetRow → Type 0
IsBest rows o =
    ((r : OffsetRow) × Elem r rows × (clock_offset r ≡ o))
    × ((r : OffsetRow)
        → Elem r rows
        → r.service_name ≡ o.service_name
        → r.confidence ≤ o.confidence)

not-of_or : (a b : Bool) → (a || b) ≡ false → b ≡ false
not-of_or a b h = ground arith

true-ne-false : true ≡ false → ⊥
true-ne-false h = cc

head-ne :
    (name : String) (seen : List String) (other : String)
    → contains (name ∷ seen) other ≡ false
    → ¬ (name ≡ other)
unfolding contains
head-ne name seen other h e = ground (arith, eq_iff name other)

contains_cons :
    (name : String) (seen : List String) (other : String)
    → (name == other) ≡ false
    → contains seen other ≡ false
    → contains (name ∷ seen) other ≡ false
unfolding contains
contains_cons name seen other h k = ground arith

-- A service that was seen is skipped.
first_offsets-unseen :
    (rows : List OffsetRow) (seen : List String) (o : ClockOffsetRow)
    → Elem o (first_offsets seen rows)
    → contains seen o.service_name ≡ false
unfolding first_offsets contains
first_offsets-unseen [] seen o m = absurd m
first_offsets-unseen (x ∷ rows) seen o m = elim (Bool-cases (contains seen x.service_name)) [
  | inl old ↦ first_offsets-unseen rows seen o (rw old at m)
  | inr fresh ↦
      ⊎_elim (λ q. subst (λ (z : ClockOffsetRow). contains seen z.service_name ≡ false) q fresh)
        (λ i. not-of_or _ _ (first_offsets-unseen rows (x.service_name ∷ seen) o i)) (rw fresh at m)
]

first_offsets-from :
    (rows : List OffsetRow) (seen : List String) (o : ClockOffsetRow)
    → Elem o (first_offsets seen rows)
    → (r : OffsetRow) × Elem r rows × (clock_offset r ≡ o)
unfolding first_offsets
first_offsets-from [] seen o m = absurd m
first_offsets-from (x ∷ rows) seen o m = elim (Bool-cases (contains seen x.service_name)) [
  | inl old ↦ let (r, i, e) = first_offsets-from rows seen o (rw old at m) in (r, inr i, e)
  | inr fresh ↦
      ⊎_elim (λ q. (x, inl refl, q))
        (λ i. let (r, j, e) = first_offsets-from rows (x.service_name ∷ seen) o i in (r, inr j, e))
        (rw fresh at m)
]

first_offsets-most :
    (rows : List OffsetRow) (seen : List String) (o : ClockOffsetRow)
    → IsSorted surer rows
    → Elem o (first_offsets seen rows)
    → (r : OffsetRow) → Elem r rows
    → r.service_name ≡ o.service_name
    → r.confidence ≤ o.confidence
unfolding first_offsets
first_offsets-most [] seen o sorted m r i same = absurd m
first_offsets-most (x ∷ rows) seen o sorted m r i same =
    elim (Bool-cases (contains seen x.service_name)) [
      | inl old ↦
          let later = rw old at m in
          let unseen = first_offsets-unseen rows seen o later in
          ⊎_elim
            (λ q. absurd (
              true-ne-false (
                sym (subst (λ (z : OffsetRow). contains seen z.service_name ≡ true) q old)
                ∙ ap (contains seen) same
                ∙ unseen)))
            (λ j. first_offsets-most rows seen o sorted.1 later r j same) i
      | inr fresh ↦
          ⊎_elim
            (λ q.
              subst (λ (z : ClockOffsetRow). r.confidence ≤ z.confidence) q
                (⊎_elim
                  (λ e. subst (λ (z : OffsetRow). z.confidence ≤ x.confidence) e (omega arith))
                  (λ j.
                    leb→le r.confidence x.confidence
                      (All-Elem (λ y. surer x y ≡ true) r rows sorted.0 j))
                  i))
            (λ k.
              let apart = first_offsets-unseen rows (x.service_name ∷ seen) o k in
              ⊎_elim
                (λ e. absurd (
                  head-ne x.service_name seen o.service_name apart
                    (ap (λ (z : OffsetRow). z.service_name) e ∙ same)))
                (λ j. first_offsets-most rows (x.service_name ∷ seen) o sorted.1 k r j same) i)
            (rw fresh at m)
    ]

-- Each service of the rows that was not seen has its offset.
first_offsets-covers :
    (rows : List OffsetRow) (seen : List String) (r : OffsetRow)
    → Elem r rows
    → contains seen r.service_name ≡ false
    → Elem r.service_name (map (λ (o : ClockOffsetRow). o.service_name) (first_offsets seen rows))
unfolding first_offsets
first_offsets-covers [] seen r m h = absurd m
first_offsets-covers (x ∷ rows) seen r m h = elim (Bool-cases (contains seen x.service_name)) [
  | inl old ↦ rw old (
      ⊎_elim
        (λ q. absurd (
          true-ne-false
            (sym (subst (λ (z : OffsetRow). contains seen z.service_name ≡ true) q old) ∙ h)))
        (λ i. first_offsets-covers rows seen r i h) m)
  | inr fresh ↦ rw fresh (
      ⊎_elim (λ q. inl (ap (λ (z : OffsetRow). z.service_name) q))
        (λ i. elim (Bool-cases (x.service_name == r.service_name)) [
          | inl same ↦ inl ((eq_iff x.service_name r.service_name).0 same)
          | inr other ↦ inr (
              first_offsets-covers rows (x.service_name ∷ seen) r i
                (contains_cons x.service_name seen r.service_name other h))
        ])
        m)
]

later_absent :
    (rows : List OffsetRow) (name : String) (seen : List String)
    → contains
        (map (λ (o : ClockOffsetRow). o.service_name) (first_offsets (name ∷ seen) rows))
        name
      ≡ false
later_absent rows name seen =
    let names = map (λ (o : ClockOffsetRow). o.service_name) (first_offsets (name ∷ seen) rows) in
    elim (Bool-cases (contains names name)) [
      | inl twice ↦
          let (o, i, e) =
            Elem-map_inv (λ (o : ClockOffsetRow). o.service_name) name
              (first_offsets (name ∷ seen) rows) ((contains_iff names name).0 twice) in
          absurd
            (head-ne name seen o.service_name (first_offsets-unseen rows (name ∷ seen) o i) (sym e))
      | inr once ↦ once
    ]

first_offsets-Distinct :
    (rows : List OffsetRow) (seen : List String)
    → Distinct (map (λ (o : ClockOffsetRow). o.service_name) (first_offsets seen rows))
unfolding first_offsets
first_offsets-Distinct [] seen = tt
first_offsets-Distinct (x ∷ rows) seen = elim (Bool-cases (contains seen x.service_name)) [
  | inl old ↦ rw old (first_offsets-Distinct rows seen)
  | inr fresh ↦
      rw fresh
        (later_absent rows x.service_name seen, first_offsets-Distinct rows (x.service_name ∷ seen))
]

module _ {F : Type 0} (c : Client F) where
  -- The offsets have different services; each is of a row of the range than which no row of its service in
  -- the range is more confident; and each service with a row in the range has one.
  pub fetch_clock_offsets_exact :
      (s : c.State) (start end : ℕ)
      → let in_time =
          filter
            (λ (r : OffsetRow). in_closed_range start end r.window_start)
            (c.tables s).service_clock_offsets in
        let found = fetch_clock_offsets c s start end in
        Distinct (map (λ (o : ClockOffsetRow). o.service_name) found)
        × ((o : ClockOffsetRow) → Elem o found → IsBest in_time o)
        × ((r : OffsetRow)
            → Elem r in_time
            → Elem r.service_name (map (λ (o : ClockOffsetRow). o.service_name) found))
  unfolding fetch_clock_offsets contains
  fetch_clock_offsets_exact s start end =
      let in_time =
        filter (λ (r : OffsetRow). in_closed_range start end r.window_start)
          (c.tables s).service_clock_offsets in
      let rows = sort surer in_time in
      let sorted =
        IsSorted-sort surer (λ a b h. ground arith) (λ a b d h k. ground arith) in_time in
      (
        first_offsets-Distinct rows [],
        λ o m.
            let (r, i, e) = first_offsets-from rows [] o m in
            (
              (r, (Elem-sort surer r in_time).0 i, e),
              λ x j same.
                  first_offsets-most rows [] o sorted m x ((Elem-sort surer x in_time).1 j) same,
            ),
        λ r m. first_offsets-covers rows [] r ((Elem-sort surer r in_time).1 m) refl,
      )
