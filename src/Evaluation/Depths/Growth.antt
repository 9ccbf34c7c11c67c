-- ===== src/Evaluation/Depths/Growth.antt =====
-- eval.py, `compute_depths`: walks from a root, and what a part of a level does to `depths` and
-- `next_frontier`.
use distributed_tracing_plat.Prelude.{
  ℕ, ◌+◌, ◌<◌, ◌≤◌, true, false, not, String, string_eq, pair_eq, Option, none, some, ◌≡◌, ◌⊎◌, inl,
  inr, ⊎_elim, refl, sym, subst, ap, ◌∙◌, [], ◌∷◌, filter, length, Elem, lookup, insert,
  lookup-insert, arith,
}
use text.Mathlib.TextEquality.{eq_iff}
use distributed_tracing_plat.Evaluation.Depths.{Edges, Depths, is_found, has_depth}

-- The service is called by no one, but calls.
abbrev pub IsRoot : Edges → String → Type 0
IsRoot edges v =
    ((callee : String) × Elem (v, callee) edges) × ((caller : String) → ¬ Elem (caller, v) edges)

-- A walk of n edges from a root to the service.
pub data Walk (edges : Edges) : ℕ → String → Type 0 where
  here : {n : ℕ} {v : String} → IsRoot edges v → n ≡ 0 → Walk edges n v
  there : {n k : ℕ} {a v : String} → Walk edges k a → Elem (a, v) edges → n ≡ k + 1 → Walk edges n v

pub some_depth : (o : Option ℕ) → is_found o ≡ true → (j : ℕ) × (o ≡ some j)
some_depth none h = cc
some_depth (some j) h = (j, refl)

pub no_depth : (o : Option ℕ) → is_found o ≡ false → o ≡ none
no_depth none h = refl
no_depth (some j) h = cc

-- The edges to services without a depth.
abbrev pub unreached : Edges → Depths → ℕ
unreached edges depths = length (filter (λ e. not (has_depth e.1 depths)) edges)

unreached-insert :
    (edges : Edges) (name : String) (depth : ℕ) (depths : Depths)
    → unreached edges (insert name depth depths) ≤ unreached edges depths
unfolding filter
unreached-insert [] name depth depths = omega arith
unreached-insert (e ∷ edges) name depth depths =
    ground (arith, unreached-insert edges name depth depths, lookup-insert name e.1 depth depths)

pub unreached-lt :
    (edges : Edges) (caller name : String) (depth : ℕ) (depths : Depths)
    → Elem (caller, name) edges
    → lookup name depths ≡ none
    → unreached edges (insert name depth depths) < unreached edges depths
unfolding filter
unreached-lt [] caller name depth depths m h = absurd m
unreached-lt (e ∷ edges) caller name depth depths (inl q) h = ground (
  arith,
  unreached-insert edges name depth depths,
  lookup-insert name e.1 depth depths,
  ap (λ (x : String × String). x.1) q,
  eq_iff name e.1,
  h,
)
unreached-lt (e ∷ edges) caller name depth depths (inr m) h =
    ground
      (arith, unreached-lt edges caller name depth depths m h, lookup-insert name e.1 depth depths)

-- What a part of a level does: it keeps what is there, and enters services at the next depth.
pub record Grows (edges : Edges) (d : ℕ) (s t : Depths × Depths) : Type 0 where
  pub keeps : (w : String) (j : ℕ) → lookup w s.0 ≡ some j → lookup w t.0 ≡ some j
  pub keeps_next : (x : String × ℕ) → Elem x s.1 → Elem x t.1
  pub source :
      (w : String) (j : ℕ)
      → lookup w t.0 ≡ some j
      → (lookup w s.0 ≡ some j) ⊎ ((j ≡ d + 1) × Walk edges j w × Elem (w, j) t.1)
  pub next_source :
      (x : String × ℕ) → Elem x t.1 → Elem x s.1 ⊎ ((x.1 ≡ d + 1) × Walk edges x.1 x.0)
  pub progress : (t ≡ s) ⊎ (unreached edges t.0 < unreached edges s.0)

module _ (edges : Edges) (d : ℕ) where
  pub Grows-refl : (s : Depths × Depths) → Grows edges d s s
  Grows-refl s = record {
    keeps = λ w j h. h;
    keeps_next = λ x m. m;
    source = λ w j h. inl h;
    next_source = λ x m. inl m;
    progress = inl refl;
  }

  -- A service with a depth keeps it.
  pub Grows-has_depth :
      (s t : Depths × Depths)
      → Grows edges d s t
      → (c : String) → has_depth c s.0 ≡ true
      → has_depth c t.0 ≡ true
  Grows-has_depth s t g c h =
      let (j, e) = some_depth (lookup c s.0) h in ap is_found (g.keeps c j e)

  pub Grows-trans :
      (s t u : Depths × Depths) → Grows edges d s t → Grows edges d t u → Grows edges d s u
  Grows-trans s t u p q = record {
    keeps = λ w j h. q.keeps w j (p.keeps w j h);
    keeps_next = λ x m. q.keeps_next x (p.keeps_next x m);
    source = λ w j h.
        ⊎_elim
          (λ old.
            ⊎_elim inl (λ new. inr (new.0, new.1, q.keeps_next (w, j) new.2)) (p.source w j old))
          inr (q.source w j h);
    next_source = λ x m. ⊎_elim (p.next_source x) inr (q.next_source x m);
    progress =
        ⊎_elim
          (λ same.
            ⊎_elim (λ e. inl (same ∙ e))
              (λ lt. inr (subst (λ z. unreached edges z.0 < unreached edges s.0) (sym same) lt))
              p.progress)
          (λ lt. inr (
            ⊎_elim (λ e. subst (λ z. unreached edges u.0 < unreached edges z.0) e lt)
              (λ lt'. omega (arith, lt, lt')) p.progress))
          q.progress;
  }
