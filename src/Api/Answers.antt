-- ===== src/Api/Answers.antt =====
-- routes.py: when a request is answered, when it is refused and with which status, and how many rows an
-- answer has at most.
use distributed_tracing_plat.Prelude.{
  ℕ, zero, suc, ◌+◌, ◌-◌, ◌*◌, ◌≤◌, ◌<◌, ◌≡◌, refl, ap, subst, ◌∙◌, inl, inr, String, string_eq,
  Option, List, [], ◌∷◌, map, filter, take, drop, length, length-map, leb, ltb, contains, Elem,
  Elem-filter, Elem-sort, Elem-map_inv, Elem-group_key, Bool-cases, group, arith,
}
use distributed_tracing_plat.Prelude.Floats.{Floats}
use distributed_tracing_plat.Detectors.Loops.{Returns, Returns->>=}
use distributed_tracing_plat.Windowing.{second}
use distributed_tracing_plat.Storage.{StoredSpan, SummaryRow, Client}
use distributed_tracing_plat.Storage.FixedStrings.{rstrip}
use distributed_tracing_plat.Reader.Ranges.{
  IsEncoded, IsStored, decode_fixed_string-Returns, each-Returns,
}
use distributed_tracing_plat.Pipeline.Stored.Total.{Leaves, >>=-Leaves, Leaves-Returns}
use distributed_tracing_plat.Api.Traces.{
  TraceFilter, candidate, duration_entry, fetch_trace_durations, candidates, listing, fetch_traces,
}
use distributed_tracing_plat.Api.Listings.{fetch_topology, fetch_detections, incident_rows}
use distributed_tracing_plat.Api.Routes.{
  ApiConfig, HttpError, status, Response, ok, raise, validate_range, clamp_limit, summary_of,
  list_traces, get_topology, get_detections, get_clock_offsets,
}
use distributed_tracing_plat.Api.Matches.{Elem-take}

-- The range that is served: not empty, and not longer than configured.
abbrev pub IsServed : ApiConfig → ℕ → ℕ → Type 0
IsServed cfg start end = (start < end) × (end ≤ start + cfg.api_max_time_range_seconds * second)

abbrev pub Answers {ℓ} : {A : Type 0} → Response A → (A → Type ℓ) → Type ℓ
Answers {A} r P = (a : A) × (r ≡ ok a) × P a

abbrev pub Refuses : {A : Type 0} → Response A → ℕ → Type 0
Refuses r code = (e : HttpError) × (r ≡ raise e) × (status e ≡ code)

validate_range-IsServed :
    (cfg : ApiConfig) (start end : ℕ)
    → IsServed cfg start end
    → validate_range start end cfg ≡ ok tt
unfolding validate_range
validate_range-IsServed cfg start end h = ground arith

validate_range_else :
    (cfg : ApiConfig) (start end : ℕ)
    → ¬ IsServed cfg start end
    → Refuses (validate_range start end cfg) 400
unfolding validate_range status
validate_range_else cfg start end h = elim (Bool-cases (leb end start)) [
  | inl empty ↦ rw empty (_, refl, refl)
  | inr some_time ↦
      elim (Bool-cases (ltb (cfg.api_max_time_range_seconds * second) (end - start))) [
        | inl long ↦ rw (some_time, long) (_, refl, refl)
        | inr short ↦ absurd (h (ground arith))
      ]
]

module _ {A : Type 0} where
  length-take : (n : ℕ) (xs : List A) → length (take n xs) ≤ n
  length-take zero xs = omega arith
  length-take (suc n) [] = omega arith
  length-take (suc n) (x ∷ xs) = omega (arith, length-take n xs)

length-map_le :
    {A B : Type 0} (g : A → B) (xs : List A) (n : ℕ) → length xs ≤ n → length (map g xs) ≤ n
length-map_le g xs n h = omega (arith, length-map g xs)

module _ {F : Type 0} ⦃f : Floats F⦄ (c : Client F) (s : c.State) (cfg : ApiConfig) where
  -- A request for a range that is empty, reversed or longer than configured is refused with status 400 by
  -- each of the four handlers that take one, whatever the tables hold.
  pub handlers-Refuse :
      (q : TraceFilter F) (limit offset : ℕ) (name : Option String)
      → ¬ IsServed cfg q.start q.end
      → Refuses (list_traces c s cfg q limit offset) 400
        × Refuses (get_topology c s cfg q.start q.end name) 400
        × Refuses (get_detections c s cfg q.start q.end name) 400
        × Refuses (get_clock_offsets c s cfg q.start q.end) 400
  unfolding list_traces get_topology get_detections get_clock_offsets
  handlers-Refuse q limit offset name h =
      let (e, p, code) = validate_range_else cfg q.start q.end h in
      rw p ((e, refl, code), (e, refl, code), (e, refl, code), (e, refl, code))

  -- A request for a range that is served is answered by the handlers of edges, of incidents and of clock
  -- offsets, the first two with no more rows than configured.
  pub handlers-Answer :
      (start end : ℕ) (name : Option String)
      → IsServed cfg start end
      → Answers (get_topology c s cfg start end name) (λ body. length body.edges ≤ cfg.api_max_rows)
        × Answers
            (get_detections c s cfg start end name)
            (λ body. length body.incidents ≤ cfg.api_max_rows)
        × Answers (get_clock_offsets c s cfg start end) (λ body. Unit {0})
  unfolding get_topology get_detections get_clock_offsets fetch_topology fetch_detections
      incident_rows
  handlers-Answer start end name h = rw (validate_range-IsServed cfg start end h) (
    (_, refl, length-map_le _ _ cfg.api_max_rows (length-take cfg.api_max_rows _)),
    (
      _,
      refl,
      length-map_le _ _ cfg.api_max_rows
          (length-map_le _ _ cfg.api_max_rows (length-take cfg.api_max_rows _)),
    ),
    (_, refl, tt),
  )

  -- Identifiers of spans and of summaries that can be decoded.
  abbrev pub IsDecodable : Type 0
  IsDecodable =
      ((r : StoredSpan) → Elem r (c.tables s).spans → IsStored r)
      × ((r : SummaryRow) → Elem r (c.tables s).trace_summaries → IsEncoded 32 r.trace_id)

  candidates-Returns : (q : TraceFilter F) (cap : ℕ) → IsDecodable → Returns (candidates c s q cap)
  unfolding candidates candidate
  candidates-Returns q cap h = each-Returns candidate _ (λ r m.
      Returns->>= _ _
        (decode_fixed_string-Returns 32 r.trace_id (
          h.1 r
            ((Elem-filter _ r (c.tables s).trace_summaries).0
              ((Elem-sort _ r _).0 (Elem-take cap _ r m))).0))
        (λ t. (_, refl)))

  fetch_trace_durations-Returns :
      (ids : List String)
      → IsDecodable
      → Returns (fetch_trace_durations {F = F} (c.tables s).spans ids)
  unfolding fetch_trace_durations duration_entry
  fetch_trace_durations-Returns [] h = ([], refl)
  fetch_trace_durations-Returns (t ∷ ts) h =
      let spans =
        filter (λ (r : StoredSpan). contains (t ∷ ts) (rstrip r.trace_id)) (c.tables s).spans in
      Returns->>= _ _
        (each-Returns (duration_entry {F = F})
          (group (map (λ (r : StoredSpan). (r.trace_id, r)) spans))
          (λ e m.
            let (p, i, q) =
              Elem-map_inv (λ (p : String × StoredSpan). p.0) e.0
                (map (λ (r : StoredSpan). (r.trace_id, r)) spans)
                (Elem-group_key (map (λ (r : StoredSpan). (r.trace_id, r)) spans) e.0 e.1 m) in
            let (r, j, q') = Elem-map_inv (λ (r : StoredSpan). (r.trace_id, r)) p spans i in
            let id = ap (λ (x : String × StoredSpan). x.0) q' ∙ q in
            Returns->>= _ _
              (decode_fixed_string-Returns 32 e.0
                (subst (IsEncoded 32) id (h.0 r ((Elem-filter _ r (c.tables s).spans).0 j).0).0))
              (λ d. (_, refl))))
        (λ entries. (_, refl))

  fetch_traces-Returns :
      (q : TraceFilter F) (limit offset cap : ℕ)
      → IsDecodable
      → Leaves (fetch_traces c s q limit offset cap) (λ p. length p.page ≤ limit)
  unfolding fetch_traces listing
  fetch_traces-Returns q limit offset cap h =
      >>=-Leaves _ _
        (Leaves-Returns (
          Returns->>= _ _ (candidates-Returns q cap h) (λ found.
            Returns->>= _ _ (fetch_trace_durations-Returns (map (λ t. t.trace_id) found) h)
              (λ d. (_, refl)))))
        (λ rows _. (_, refl, length-take limit (drop offset rows.0)))

  -- With decodable identifiers, a request for a range that is served is answered with one page of traces,
  -- which is no longer than the limit asked for and than the configuration allows.
  pub list_traces-Answers :
      (q : TraceFilter F) (limit offset : ℕ)
      → IsDecodable
      → IsServed cfg q.start q.end
      → Answers
          (list_traces c s cfg q limit offset)
          (λ body. (length body.traces ≤ limit) × (length body.traces ≤ cfg.api_max_rows))
  unfolding list_traces
  list_traces-Answers q limit offset decodable h =
      let most = clamp_limit limit cfg in
      let (p, e, few) = fetch_traces-Returns q most offset cfg.api_max_rows decodable in
      let short = length-map_le summary_of p.page most few in
      rw (validate_range-IsServed cfg q.start q.end h, e)
        (_, refl, (omega (arith, short), omega (arith, short)))
