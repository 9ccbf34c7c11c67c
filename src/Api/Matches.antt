-- ===== src/Api/Matches.antt =====
-- queries.py, `fetch_traces`: the rows of the listing are those of the table that match the filters.
use distributed_tracing_plat.Prelude.{
  ℕ, zero, suc, ◌<◌, true, ◌≡◌, ◌↔◌, refl, ap, sym, subst, inl, inr, ⊎_elim, String, string_eq,
  Option, none, some, List, [], ◌∷◌, map, filter, sort, take, length, leb, Elem, Elem-filter,
  Elem-sort, Elem-map, Elem-map_inv, lookup, arith, Bool, false, ◌&&◌, ◌⊎◌, ◌≤◌, ◌==◌, Bool-cases,
  eqb_iff,
}
use distributed_tracing_plat.Prelude.Floats.{Floats}
use distributed_tracing_plat.Detectors.Loops.{>>=-eq-some, some_inj}
use distributed_tracing_plat.Storage.{SummaryRow, Client}
use distributed_tracing_plat.Storage.FixedStrings.{decode_fixed_string}
use distributed_tracing_plat.Reader.{each}
use distributed_tracing_plat.Reader.Ranges.{Elem-each, Returns-of_each}
use distributed_tracing_plat.Api.Traces.{
  TraceSummaryRow, TraceFilter, is_match, candidate, set_duration, with_duration, is_long,
  keep_long, candidates, fetch_trace_durations, listing, matches_name, matches_complete, truth,
  long_enough,
}
use text.Mathlib.TextEquality.{eq_iff}
use distributed_tracing_plat.Reader.{in_closed_range}
use distributed_tracing_plat.Api.Durations.{IsDuration, fetch_trace_durations-IsDuration}

module _ {A : Type 0} where
  pub Elem-take : (n : ℕ) (xs : List A) (x : A) → Elem x (take n xs) → Elem x xs
  Elem-take zero xs x m = absurd m
  Elem-take (suc n) [] x m = m
  Elem-take (suc n) (y ∷ xs) x m = ⊎_elim inl (λ i. inr (Elem-take n xs x i)) m

  -- A cut that does not reach its length cuts nothing off.
  take_short : (n : ℕ) (xs : List A) → length (take n xs) < n → take n xs ≡ xs
  take_short zero xs h = absurd (omega arith)
  take_short (suc n) [] h = refl
  take_short (suc n) (x ∷ xs) h = ap (λ ys. x ∷ ys) (take_short n xs (omega arith))

pub length-each :
    {A B : Type 0} (f : A → Option B) (xs : List A) (ys : List B)
    → each f xs ≡ some ys
    → length ys ≡ length xs
unfolding each
length-each f [] ys h = rw (← some_inj _ _ h)
length-each f (x ∷ xs) ys h =
    let (b, p, k) = >>=-eq-some (f x) _ ys h in
    let (bs, q, e) = >>=-eq-some (each f xs) _ ys k in
    rw (← some_inj _ _ e) (ap suc (length-each f xs bs q))

-- The row shows the columns of the table's row, its identifier decoded; a flag that is not zero is true.
abbrev pub Shows : {F : Type 0} → SummaryRow → TraceSummaryRow F → Type 0
Shows r row =
    (decode_fixed_string r.trace_id ≡ some row.trace_id)
    × (row.window_start ≡ r.window_start)
    × (row.depth ≡ r.depth)
    × (row.span_count ≡ r.span_count)
    × (row.root_service ≡ r.root_service)
    × ((row.complete ≡ true) ↔ (1 ≤ r.complete))
    × (row.incompleteness_reason ≡ r.incompleteness_reason)
    × (row.orphan_count ≡ r.orphan_count)

-- What a filter by a service asks of the service of a root; the empty text asks nothing.
abbrev pub IsNamed : Option String → String → Type 0
IsNamed none root = Unit
IsNamed (some name) root = (name ≡ "") ⊎ (root ≡ name)

-- What a filter by completeness asks of a flag.
abbrev pub HasFlag : Option Bool → ℕ → Type 0
HasFlag none flag = Unit
HasFlag (some true) flag = flag ≡ 1
HasFlag (some false) flag = flag ≡ 0

-- The filters that the query applies.
abbrev pub Matches : {F : Type 0} → TraceFilter F → SummaryRow → Type 0
Matches q r =
    (q.start ≤ r.window_start)
    × (r.window_start ≤ q.end)
    × IsNamed q.service r.root_service
    × HasFlag q.complete r.complete

IsNamed-iff :
    (service : Option String) (root : String)
    → (matches_name service (λ name. root == name) ≡ true) ↔ IsNamed service root
IsNamed-iff none root = (λ h. tt, λ h. refl)
IsNamed-iff (some name) root = elim (Bool-cases (name == "")) [
  | inl empty ↦ rw empty (λ h. inl ((eq_iff name "").0 empty), λ h. refl)
  | inr given ↦ rw given (
    λ h. inr ((eq_iff root name).0 h),
    ⊎_elim (λ e. cc ((eq_iff name "").1 e, given)) (eq_iff root name).1,
  )
]

HasFlag-iff :
    (complete : Option Bool) (flag : ℕ)
    → (matches_complete complete flag ≡ true) ↔ HasFlag complete flag
HasFlag-iff none flag = (λ h. tt, λ h. refl)
HasFlag-iff (some true) flag = eqb_iff flag 1
HasFlag-iff (some false) flag = eqb_iff flag 0

and_iff : (a b : Bool) → ((a && b) ≡ true) ↔ ((a ≡ true) × (b ≡ true))
and_iff a b = ground arith

module _ {F : Type 0} where
  is_match_iff : (q : TraceFilter F) (r : SummaryRow) → (is_match q r ≡ true) ↔ Matches q r
  is_match_iff q r =
      let named = IsNamed-iff q.service r.root_service in
      let flagged = HasFlag-iff q.complete r.complete in
      let named_b = matches_name q.service (λ name. r.root_service == name) in
      let flag_b = matches_complete q.complete r.complete in
      let range_b = in_closed_range q.start q.end r.window_start in
      let whole = and_iff (range_b && named_b) flag_b in
      let left = and_iff range_b named_b in
      let times : (range_b ≡ true) ↔ ((q.start ≤ r.window_start) × (r.window_start ≤ q.end)) =
        ground arith in
      (
        λ h.
            let (i, c) = whole.0 h in
            let (j, n) = left.0 i in ((times.0 j).0, (times.0 j).1, named.0 n, flagged.0 c),
        λ (lo, hi, n, c). whole.1 (left.1 (times.1 (lo, hi), named.1 n), flagged.1 c),
      )

  -- A candidate shows its row, and has no duration yet.
  candidate-Shows :
      (r : SummaryRow) (t : TraceSummaryRow F)
      → candidate r ≡ some t
      → Shows r t × (t.duration_ms ≡ none)
  unfolding candidate
  candidate-Shows r t h =
      let (trace_id, p, e) = >>=-eq-some (decode_fixed_string r.trace_id) _ t h in
      let flag : (truth r.complete ≡ true) ↔ (1 ≤ r.complete) = ground arith in
      subst (λ (t : TraceSummaryRow F). Shows r t × (t.duration_ms ≡ none)) (some_inj _ t e)
        ((p, refl, refl, refl, refl, flag, refl, refl), refl)

  set_duration_lem :
      (t : TraceSummaryRow F) (r : SummaryRow) (o : Option F)
      → Shows r t
      → t.duration_ms ≡ none
      → Shows r (set_duration t o)
        × ((set_duration t o).duration_ms ≡ o)
        × ((set_duration t o).trace_id ≡ t.trace_id)
  set_duration_lem t r none shows h = (shows, h, refl)
  set_duration_lem t r (some d) shows h = (shows, refl, refl)

module _ {F : Type 0} ⦃f : Floats F⦄ where
  -- The trace is as long as asked; one without a duration counts as zero milliseconds.
  abbrev pub IsLong : Option F → Option F → Type 0
  IsLong none duration = Unit
  IsLong (some least) none = f.le least (f.of_ℕ 0) ≡ true
  IsLong (some least) (some d) = f.le least d ≡ true

  IsLong-iff :
      (least : F) (duration : Option F)
      → (long_enough least duration ≡ true) ↔ IsLong (some least) duration
  IsLong-iff least none = (λ h. h, λ h. h)
  IsLong-iff least (some d) = (λ h. h, λ h. h)

  Elem-keep_long :
      (least : Option F) (rows : List (TraceSummaryRow F)) (row : TraceSummaryRow F)
      → Elem row (keep_long least rows) ↔ (Elem row rows × IsLong least row.duration_ms)
  unfolding keep_long is_long
  Elem-keep_long none rows row = (λ m. (m, tt), λ m. m.0)
  Elem-keep_long (some least) rows row =
      let kept = Elem-filter (is_long least) row rows in
      let long = IsLong-iff least row.duration_ms in
      (λ m. let (i, h) = kept.0 m in (i, long.0 h), λ (i, h). kept.1 (i, long.1 h))

module _ {F : Type 0} ⦃f : Floats F⦄ (c : Client F) (s : c.State) (q : TraceFilter F)
    (cap : ℕ) where
  -- The row shows the table's row, with the duration of its trace.
  abbrev pub Listed : SummaryRow → TraceSummaryRow F → Type 0
  Listed r row = Shows r row × IsDuration (c.tables s).spans row.trace_id row.duration_ms

  abbrev matching : List SummaryRow
  matching = filter (is_match q) (c.tables s).trace_summaries

  abbrev newest : List SummaryRow
  newest = sort (λ (a b : SummaryRow). leb b.window_start a.window_start) matching

  Elem-newest :
      (r : SummaryRow) → Elem r newest ↔ (Elem r (c.tables s).trace_summaries × Matches q r)
  Elem-newest r =
      let sorted = Elem-sort (λ (a b : SummaryRow). leb b.window_start a.window_start) r matching in
      let kept = Elem-filter (is_match q) r (c.tables s).trace_summaries in
      (
        λ m. let (i, h) = kept.0 (sorted.0 m) in (i, (is_match_iff q r).0 h),
        λ (i, h). sorted.1 (kept.1 (i, (is_match_iff q r).1 h)),
      )

  Listed-with_duration :
      (durations : List (String × F)) (shown : List (TraceSummaryRow F)) (r : SummaryRow)
      (t : TraceSummaryRow F)
      → fetch_trace_durations (c.tables s).spans (map (λ t. t.trace_id) shown) ≡ some durations
      → Elem t shown
      → candidate r ≡ some t
      → Listed r (with_duration durations t)
  unfolding with_duration
  Listed-with_duration durations shown r t p m h =
      let (shows, unset) = candidate-Shows r t h in
      let found = lookup t.trace_id durations in
      let (shows', at, id) = set_duration_lem t r found shows unset in
      (
        shows',
        subst (λ o. IsDuration (c.tables s).spans (set_duration t found).trace_id o) (sym at)
            (subst (λ i. IsDuration (c.tables s).spans i found) (sym id)
              (fetch_trace_durations-IsDuration (c.tables s).spans
                (map (λ (t : TraceSummaryRow F). t.trace_id) shown) durations t.trace_id p
                (Elem-map (λ (t : TraceSummaryRow F). t.trace_id) t shown m))),
      )

  -- Every row of the listing shows a row of the table that matches the filters, with the duration of the
  -- trace of that identifier, and is as long as asked. If fewer rows than the cap were candidates, each row of
  -- the table that matches is shown by such a row, which is in the listing if it is as long as asked.
  pub listing_exact :
      (rows : List (TraceSummaryRow F)) (found : ℕ)
      → listing c s q cap ≡ some (rows, found)
      → ((row : TraceSummaryRow F)
          → Elem row rows
          → (r : SummaryRow) × Elem r (c.tables s).trace_summaries
            × Matches q r
            × Listed r row
            × IsLong q.min_duration_ms row.duration_ms)
        × (found < cap
            → (r : SummaryRow) → Elem r (c.tables s).trace_summaries
            → Matches q r
            → (row : TraceSummaryRow F) × Listed r row
              × (IsLong q.min_duration_ms row.duration_ms → Elem row rows))
  unfolding listing candidates
  listing_exact rows found h =
      let (shown, p, k) = >>=-eq-some (candidates c s q cap) _ (rows, found) h in
      let (durations, d, e) =
        >>=-eq-some
          (fetch_trace_durations (c.tables s).spans
            (map (λ (t : TraceSummaryRow F). t.trace_id) shown))
          _ (rows, found) k in
      let both = some_inj _ _ e in
      let rows_are : keep_long q.min_duration_ms (map (with_duration durations) shown) ≡ rows =
        ap (λ (x : List (TraceSummaryRow F) × ℕ). x.0) both in
      let found_is : length shown ≡ found = ap (λ (x : List (TraceSummaryRow F) × ℕ). x.1) both in
      let of_shown = λ (row : TraceSummaryRow F).
        Elem-keep_long q.min_duration_ms (map (with_duration durations) shown) row in
      let of_table = λ (t : TraceSummaryRow F). Elem-each candidate (take cap newest) shown t p in
      (
        λ row m.
            let (i, long) = (of_shown row).0 (subst (Elem row) (sym rows_are) m) in
            let (t, j, e') = Elem-map_inv (with_duration durations) row shown i in
            let (r, k', cand) = (of_table t).0 j in
            let (n, matches) = (Elem-newest r).0 (Elem-take cap newest r k') in
            (
              r,
              n,
              matches,
              subst (Listed r) e' (Listed-with_duration durations shown r t d j cand),
              long,
            ),
        λ few r m matches.
            let whole =
              take_short cap newest
                (omega (arith, length-each candidate (take cap newest) shown p, found_is)) in
            let k' = subst (Elem r) (sym whole) ((Elem-newest r).1 (m, matches)) in
            let (t, cand) = Returns-of_each candidate (take cap newest) shown r p k' in
            let j = (of_table t).1 (r, k', cand) in
            (
              with_duration durations t,
              Listed-with_duration durations shown r t d j cand,
              λ long. subst (Elem (with_duration durations t)) rows_are (
                  (of_shown (with_duration durations t)).1
                    (Elem-map (with_duration durations) t shown j, long)),
            ),
      )
