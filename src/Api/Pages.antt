-- ===== src/Api/Pages.antt =====
-- queries.py, `fetch_traces`: a client that follows `has_more` reads the listing once, in its order.
use distributed_tracing_plat.Prelude.{
  ℕ, zero, suc, ◌+◌, ◌-◌, ◌≤◌, ◌<◌, false, ◌≡◌, refl, ap, ◌∙◌, sym, Option, none, some, List, [],
  ◌∷◌, ◌++◌, append-nil, take, drop, length, ltb, ltb→lt, if◌then◌else◌, Bool-cases, inl, inr,
  ◌>>=◌, arith,
}
use distributed_tracing_plat.Prelude.Floats.{Floats}
use distributed_tracing_plat.Storage.{Client}
use distributed_tracing_plat.Api.Traces.{TraceSummaryRow, TraceFilter, listing, fetch_traces}

module _ {A : Type 0} where
  drop_nil : (n : ℕ) → drop {A = A} n [] ≡ []
  drop_nil zero = refl
  drop_nil (suc n) = refl

  drop-drop : (n m k : ℕ) (xs : List A) → n + m ≡ k → drop m (drop n xs) ≡ drop k xs
  drop-drop zero m k xs h = ap (λ j. drop j xs) (omega arith)
  drop-drop (suc n) m zero xs h = absurd (omega arith)
  drop-drop (suc n) m (suc k) [] h = drop_nil m
  drop-drop (suc n) m (suc k) (x ∷ xs) h = drop-drop n m k xs (omega arith)

  take-append-drop : (n : ℕ) (xs : List A) → take n xs ++ drop n xs ≡ xs
  take-append-drop zero xs = refl
  take-append-drop (suc n) [] = refl
  take-append-drop (suc n) (x ∷ xs) = ap (λ ys. x ∷ ys) (take-append-drop n xs)

  take_all : (n : ℕ) (xs : List A) → length xs ≤ n → take n xs ≡ xs
  take_all zero [] h = refl
  take_all zero (x ∷ xs) h = absurd (omega arith)
  take_all (suc n) [] h = refl
  take_all (suc n) (x ∷ xs) h = ap (λ ys. x ∷ ys) (take_all n xs (omega arith))

  length-drop : (n : ℕ) (xs : List A) → length (drop n xs) ≡ length xs - n
  length-drop zero xs = omega arith
  length-drop (suc n) [] = omega arith
  length-drop (suc n) (x ∷ xs) = omega (arith, length-drop n xs)

not-ltb : (a b : ℕ) → ltb a b ≡ false → b ≤ a
not-ltb a b h = ground arith

module _ {F : Type 0} ⦃f : Floats F⦄ (c : Client F) (s : c.State) (q : TraceFilter F)
    (limit cap : ℕ) where
  -- The pages from an offset on, as long as there are more.
  pub read_pages : ℕ → ℕ → Option (List (TraceSummaryRow F))
  read_pages zero offset = none
  read_pages (suc fuel) offset = do
    p ← fetch_traces c s q limit offset cap
    let later = read_pages fuel (offset + limit)
    rest ← if p.has_more then later else some []
    some (p.page ++ rest)

  read_pages_exact :
      (rows : List (TraceSummaryRow F)) (found fuel offset : ℕ)
      → 0 < limit
      → listing c s q cap ≡ some (rows, found)
      → length rows < offset + fuel
      → 0 < fuel
      → read_pages fuel offset ≡ some (drop offset rows)
  unfolding read_pages fetch_traces
  read_pages_exact rows found zero offset pos read enough some_fuel = absurd (omega arith)
  read_pages_exact rows found (suc fuel) offset pos read enough some_fuel =
      rw read (elim (Bool-cases (ltb (offset + limit) (length rows))) [
        | inl more ↦
            let lt = ltb→lt (offset + limit) (length rows) more in
            rw
              (
                more,
                read_pages_exact rows found fuel (offset + limit) pos read (omega arith)
                    (omega arith),
              )
              (ap some (
                ap (λ ys. take limit (drop offset rows) ++ ys)
                  (sym (drop-drop offset limit (offset + limit) rows refl))
                ∙ take-append-drop limit (drop offset rows)))
        | inr last ↦ rw last (
            ap some (
              append-nil (take limit (drop offset rows))
              ∙ take_all limit (drop offset rows) (
                  omega
                    (arith, length-drop offset rows, not-ltb (offset + limit) (length rows) last))))
      ])

  -- If the query returns and the page size is positive, a client that starts at offset zero and goes on by
  -- the page size while there is more reads, in at most one page more than there are rows, exactly the
  -- rows of the listing, each once and in their order.
  pub pages_exact :
      (rows : List (TraceSummaryRow F)) (found : ℕ)
      → 0 < limit
      → listing c s q cap ≡ some (rows, found)
      → read_pages (length rows + 1) 0 ≡ some rows
  pages_exact rows found pos read =
      read_pages_exact rows found (length rows + 1) 0 pos read (omega arith) (omega arith)
