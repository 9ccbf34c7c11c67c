-- ===== src/Reassembly/Marking.antt =====
-- reassembly.py: `_bfs_mark` ends, and marks exactly what its seeds reach.
use distributed_tracing_plat.Prelude.{
  ℕ, zero, suc, ◌+◌, ◌≤◌, String, ◌≡◌, ◌↔◌, ◌⊎◌, inl, inr, ⊎_elim, refl, List, [], ◌∷◌, ◌++◌, true,
  false, string_eq, if◌then◌else◌, Bool-cases, Elem, Elem-append, contains, lookup, get_group,
  arith, length, length-append, total,
}
use text.Mathlib.TextEquality.{eq_iff}
use distributed_tracing_plat.Reassembly.{
  SpanRow, Children, span_ids, bfs_loop, bfs_mark, mark_seeds,
}

-- The children still to be queued: those of spans that are not visited.
pub pending : Children → List String → ℕ
pending [] visited = 0
pending ((k, vs) ∷ d) visited =
    let rest = pending d visited in if contains visited k then rest else length vs + rest

pending-le : (d : Children) (visited : List String) → pending d visited ≤ total d
unfolding pending
pending-le [] visited = omega arith
pending-le ((k, vs) ∷ d) visited = ground (arith, pending-le d visited)

pending_mono :
    (d : Children) (visited : List String) (s : String)
    → pending d (s ∷ visited) ≤ pending d visited
unfolding pending contains
pending_mono [] visited s = omega arith
pending_mono ((k, vs) ∷ d) visited s = ground (arith, pending_mono d visited s)

-- Expanding a span that is not visited uses up its children.
pending-expand :
    (d : Children) (visited : List String) (s : String)
    → contains visited s ≡ false
    → pending d (s ∷ visited) + length (get_group s d) ≤ pending d visited
unfolding pending contains get_group lookup
pending-expand [] visited s h = omega arith
pending-expand ((k, vs) ∷ d) visited s h =
    ground (arith, pending-expand d visited s, pending_mono d visited s, eq_iff k s, eq_iff s k)

abbrev pub Child : Children → String → String → Type 0
Child d a b = Elem b (get_group a d)

abbrev Visited : List String → String → Type 0
Visited visited a = contains visited a ≡ true

Visited-head : (s a : String) (visited : List String) → s ≡ a → Visited (s ∷ visited) a
unfolding contains
Visited-head s a visited e = ground (arith, eq_iff s a)

Visited-cons :
    (s a : String) (visited : List String) → Visited (s ∷ visited) a → (s ≡ a) ⊎ Visited visited a
unfolding contains
Visited-cons s a visited h = ground (arith, eq_iff s a)

Visited-tail : (s a : String) (visited : List String) → Visited visited a → Visited (s ∷ visited) a
unfolding contains
Visited-tail s a visited h = ground (arith, eq_iff s a)

module _ (d : Children) where
  -- The queue is emptied.
  bfs_loop-drains :
      (fuel : ℕ) (queue visited : List String)
      → pending d visited + length queue ≤ fuel
      → (bfs_loop fuel d queue visited).0 ≡ []
  unfolding bfs_loop
  bfs_loop-drains zero [] visited h = refl
  bfs_loop-drains zero (s ∷ queue) visited h = absurd (omega arith)
  bfs_loop-drains (suc fuel) [] visited h = refl
  bfs_loop-drains (suc fuel) (s ∷ queue) visited h = elim (Bool-cases (contains visited s)) [
    | inl old ↦ rw old (bfs_loop-drains fuel queue visited (omega arith))
    | inr new ↦ rw new (
        bfs_loop-drains fuel (queue ++ get_group s d) (s ∷ visited)
          (omega (arith, pending-expand d visited s new, length-append queue (get_group s d))))
  ]

  -- What was visited stays visited.
  bfs_loop-keeps :
      (fuel : ℕ) (queue visited : List String) (a : String)
      → Visited visited a
      → Visited (bfs_loop fuel d queue visited).1 a
  unfolding bfs_loop contains
  bfs_loop-keeps zero queue visited a h = h
  bfs_loop-keeps (suc fuel) [] visited a h = h
  bfs_loop-keeps (suc fuel) (s ∷ queue) visited a h = ground (
    arith,
    bfs_loop-keeps fuel queue visited a h,
    bfs_loop-keeps fuel (queue ++ get_group s d) (s ∷ visited) a,
  )

  -- Every queued span gets visited, if the fuel suffices.
  bfs_loop-covers :
      (fuel : ℕ) (queue visited : List String) (a : String)
      → pending d visited + length queue ≤ fuel
      → Elem a queue
      → Visited (bfs_loop fuel d queue visited).1 a
  unfolding bfs_loop
  bfs_loop-covers zero [] visited a h m = absurd m
  bfs_loop-covers zero (s ∷ queue) visited a h m = absurd (omega arith)
  bfs_loop-covers (suc fuel) [] visited a h m = absurd m
  bfs_loop-covers (suc fuel) (s ∷ queue) visited a h m = elim (Bool-cases (contains visited s)) [
    | inl old ↦ rw old (
        ⊎_elim (λ e. bfs_loop-keeps fuel queue visited a (rw e at old))
          (bfs_loop-covers fuel queue visited a (omega arith)) m)
    | inr new ↦
        let rest = queue ++ get_group s d in
        rw new (
          ⊎_elim (λ e. bfs_loop-keeps fuel rest (s ∷ visited) a (Visited-head s a visited e))
            (λ i.
              bfs_loop-covers fuel rest (s ∷ visited) a
                (omega (arith, pending-expand d visited s new, length-append queue (get_group s d)))
                ((Elem-append a queue (get_group s d)).1 (inl i)))
            m)
  ]

  -- A property that passes to children holds of every visited span, if it holds of the queue and
  -- of the spans visited before.
  bfs_loop-sound :
      (P : String → Type 0)
      → ((a b : String) → P a → Child d a b → P b)
      → (fuel : ℕ) (queue visited : List String) → ((a : String) → Elem a queue → P a)
      → ((a : String) → Visited visited a → P a)
      → (a : String) → Visited (bfs_loop fuel d queue visited).1 a
      → P a
  unfolding bfs_loop
  bfs_loop-sound P pass zero queue visited q v a h = v a h
  bfs_loop-sound P pass (suc fuel) [] visited q v a h = v a h
  bfs_loop-sound P pass (suc fuel) (s ∷ queue) visited q v a h =
      elim (Bool-cases (contains visited s)) [
        | inl old ↦
            bfs_loop-sound P pass fuel queue visited (λ b m. q b (inr m)) v a
              (rw (old, bfs_loop) at h)
        | inr new ↦
            bfs_loop-sound P pass fuel (queue ++ get_group s d) (s ∷ visited)
              (λ b m.
                ⊎_elim (λ i. q b (inr i)) (pass s b (q s (inl refl)))
                  ((Elem-append b queue (get_group s d)).0 m))
              (λ b w. ⊎_elim (λ e. q b (inl e)) (v b) (Visited-cons s b visited w)) a
              (rw (new, bfs_loop) at h)
      ]

  -- The visited spans are closed under children, but for children that wait in the queue.
  abbrev IsClosed : List String → List String → Type 0
  IsClosed queue visited =
      (a b : String) → Visited visited a → Child d a b → Visited visited b ⊎ Elem b queue

  IsClosed-expand :
      (queue visited : List String) (s : String)
      → IsClosed (s ∷ queue) visited
      → IsClosed (queue ++ get_group s d) (s ∷ visited)
  IsClosed-expand queue visited s c a b w child =
      ⊎_elim (λ e. inr ((Elem-append b queue (get_group s d)).1 (inr (rw (← e) at child))))
        (λ old.
          ⊎_elim (λ v. inl (Visited-tail s b visited v))
            (⊎_elim (λ e. inl (Visited-head s b visited e))
              (λ i. inr ((Elem-append b queue (get_group s d)).1 (inl i))))
            (c a b old child))
        (Visited-cons s a visited w)

  bfs_loop-IsClosed :
      (fuel : ℕ) (queue visited : List String)
      → pending d visited + length queue ≤ fuel
      → IsClosed queue visited
      → IsClosed [] (bfs_loop fuel d queue visited).1
  unfolding bfs_loop
  bfs_loop-IsClosed zero [] visited h c = c
  bfs_loop-IsClosed zero (s ∷ queue) visited h c = absurd (omega arith)
  bfs_loop-IsClosed (suc fuel) [] visited h c = c
  bfs_loop-IsClosed (suc fuel) (s ∷ queue) visited h c = elim (Bool-cases (contains visited s)) [
    | inl old ↦ rw old (
        bfs_loop-IsClosed fuel queue visited (omega arith)
          (λ a b w child. ⊎_elim inl (⊎_elim (λ e. inl (rw e at old)) inr) (c a b w child)))
    | inr new ↦ rw new (
        bfs_loop-IsClosed fuel (queue ++ get_group s d) (s ∷ visited)
          (omega (arith, pending-expand d visited s new, length-append queue (get_group s d)))
          (IsClosed-expand queue visited s c))
  ]

  enough :
      (visited : List String) (seed : String) → pending d visited + length (seed ∷ []) ≤ total d + 1
  enough visited seed = omega (arith, pending-le d visited)

  -- The loop of `_bfs_mark` ends: nothing is left in its queue.
  pub bfs_mark-drains :
      (visited : List String) (seed : String)
      → (bfs_loop (total d + 1) d (seed ∷ []) visited).0 ≡ []
  bfs_mark-drains visited seed =
      bfs_loop-drains (total d + 1) (seed ∷ []) visited (enough visited seed)

  seeds-keep :
      (visited : List String) (seeds : List SpanRow) (a : String)
      → Visited visited a
      → Visited (mark_seeds d visited seeds) a
  unfolding mark_seeds bfs_mark
  seeds-keep visited [] a h = h
  seeds-keep visited (s ∷ seeds) a h =
      seeds-keep (bfs_mark d visited s.span_id) seeds a
        (bfs_loop-keeps (total d + 1) (s.span_id ∷ []) visited a h)

  seeds-cover :
      (visited : List String) (seeds : List SpanRow) (a : String)
      → Elem a (span_ids seeds)
      → Visited (mark_seeds d visited seeds) a
  unfolding mark_seeds bfs_mark
  seeds-cover visited [] a m = absurd m
  seeds-cover visited (s ∷ seeds) a m =
      ⊎_elim
        (λ e. seeds-keep (bfs_mark d visited s.span_id) seeds a (
          bfs_loop-covers (total d + 1) (s.span_id ∷ []) visited a (enough visited s.span_id)
            (inl e)))
        (seeds-cover (bfs_mark d visited s.span_id) seeds a) m

  seeds-IsClosed :
      (visited : List String) (seeds : List SpanRow)
      → IsClosed [] visited
      → IsClosed [] (mark_seeds d visited seeds)
  unfolding mark_seeds bfs_mark
  seeds-IsClosed visited [] c = c
  seeds-IsClosed visited (s ∷ seeds) c = seeds-IsClosed (bfs_mark d visited s.span_id) seeds (
      bfs_loop-IsClosed (total d + 1) (s.span_id ∷ []) visited (enough visited s.span_id)
        (λ a b w child. ⊎_elim inl (λ m. absurd m) (c a b w child)))

  seeds-sound :
      (P : String → Type 0)
      → ((a b : String) → P a → Child d a b → P b)
      → (visited : List String) (seeds : List SpanRow)
      → ((a : String) → Elem a (span_ids seeds) → P a)
      → ((a : String) → Visited visited a → P a)
      → (a : String) → Visited (mark_seeds d visited seeds) a
      → P a
  unfolding mark_seeds bfs_mark
  seeds-sound P pass visited [] q v a h = v a h
  seeds-sound P pass visited (s ∷ seeds) q v a h =
      seeds-sound P pass (bfs_mark d visited s.span_id) seeds (λ b m. q b (inr m))
        (bfs_loop-sound P pass (total d + 1) (s.span_id ∷ []) visited
          (λ b m. ⊎_elim (λ e. q b (inl e)) (λ n. absurd n) m) v)
        a h

-- The spans that a seed leads to by child links.
pub data Reached (d : Children) (seeds : List String) : String → Type 0 where
  start : {a : String} → Elem a seeds → Reached d seeds a
  step : {a b : String} → Reached d seeds a → Child d a b → Reached d seeds b

Visited-of_Reached :
    (d : Children) (seeds : List SpanRow) {a : String}
    → Reached d (span_ids seeds) a
    → Visited (mark_seeds d [] seeds) a
unfolding contains
Visited-of_Reached d seeds (start {a} m) = seeds-cover d [] seeds a m
Visited-of_Reached d seeds (step {a} {b} r child) =
    ⊎_elim (λ v. v) (λ n. absurd n)
      (seeds-IsClosed d [] seeds (λ x y w c. cc) a b (Visited-of_Reached d seeds r) child)

-- `_bfs_mark` from each seed in turn marks exactly the spans that a seed leads to.
pub mark_seeds_exact :
    (d : Children) (seeds : List SpanRow) (a : String)
    → (contains (mark_seeds d [] seeds) a ≡ true) ↔ Reached d (span_ids seeds) a
unfolding contains
mark_seeds_exact d seeds a = (
  seeds-sound d (Reached d (span_ids seeds)) (λ x y. step) [] seeds (λ x. start) (λ x w. cc) a,
  Visited-of_Reached d seeds,
)
