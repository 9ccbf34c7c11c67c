-- ===== src/Evaluation/Depths/Shortest.antt =====
-- eval.py, `compute_depths`: the outer loop, and the depths that the search returns.
use distributed_tracing_plat.Prelude.{
  ℕ, zero, suc, ◌+◌, ◌<◌, ◌≤◌, true, not, String, string_eq, pair_eq, some, ◌≡◌, ◌↔◌, ◌⊎◌, inl, inr,
  ⊎_elim, refl, sym, subst, ap, ◌∙◌, List, [], ◌∷◌, length, length-filter-le, Elem, Elem-map,
  Elem-map_inv, lookup, group, arith,
}
use distributed_tracing_plat.Evaluation.Depths.{
  Edges, Depths, has_depth, roots_of, set_defaults, visit_nodes, depths_loop, search_depths,
  depths_below, compute_depths,
}
use distributed_tracing_plat.Evaluation.Depths.Growth.{
  IsRoot, Walk, here, there, Grows, some_depth, unreached,
}
use distributed_tracing_plat.Evaluation.Depths.Levels.{visit_nodes_lem}
use distributed_tracing_plat.Evaluation.Depths.Roots.{
  at_zero, set_defaults-source, set_defaults-has_depth, roots_of_iff, no_walk,
}

-- The service is n edges from a root, and no root is closer.
abbrev pub Shortest : Edges → String → ℕ → Type 0
Shortest edges v n = Walk edges n v × ((k : ℕ) → Walk edges k v → n ≤ k)

-- Every callee of the service at depth k is at most one deeper.
abbrev Closed : Edges → Depths → String → ℕ → Type 0
Closed edges depths v k =
    (w : String) → Elem (v, w) edges → (j : ℕ) × (lookup w depths ≡ some j) × (j ≤ k + 1)

record Inv (edges : Edges) (d : ℕ) (frontier depths : Depths) : Type 0 where
  sound : (v : String) (k : ℕ) → lookup v depths ≡ some k → Walk edges k v × (k ≤ d)
  front : (x : String × ℕ) → Elem x frontier → (x.1 ≡ d) × Walk edges d x.0
  handled :
      (v : String) (k : ℕ)
      → lookup v depths ≡ some k
      → Elem (v, k) frontier ⊎ Closed edges depths v k
  root : (v : String) → IsRoot edges v → lookup v depths ≡ some 0

module _ (edges : Edges) where
  -- A level of the search.
  module _ (d : ℕ) (frontier depths : Depths) where
    abbrev level : Depths × Depths
    level = visit_nodes (group edges) frontier depths []

    sound_after :
        Inv edges d frontier depths
        → Grows edges d (depths, []) level
        → (v : String) (k : ℕ) → lookup v level.0 ≡ some k
        → Walk edges k v × (k ≤ d + 1)
    sound_after i g v k h =
        ⊎_elim (λ old. let (w, le) = i.sound v k old in (w, omega (arith, le)))
          (λ new. (new.1, omega (arith, new.0))) (g.source v k h)

    Inv-level :
        Inv edges d frontier depths
        → Grows edges d (depths, []) level
        → ((x : String × ℕ) (c : String)
            → Elem x frontier
            → Elem (x.0, c) edges
            → has_depth c level.0 ≡ true)
        → Inv edges (d + 1) level.1 level.0
    Inv-level i g sees = record {
      sound = sound_after i g;
      front = λ x m.
          ⊎_elim (λ no. absurd no) (λ new. (new.0, subst (λ k. Walk edges k x.0) new.0 new.1))
            (g.next_source x m);
      handled = λ v k h.
          ⊎_elim
            (λ old. inr (
              ⊎_elim
                (λ m w e.
                  let (j, at) = some_depth (lookup w level.0) (sees (v, k) w m e) in
                  (j, at, omega (arith, (i.front (v, k) m).0, (sound_after i g w j at).1)))
                (λ closed w e. let (j, at, le) = closed w e in (j, g.keeps w j at, le))
                (i.handled v k old)))
            (λ new. inl new.2) (g.source v k h);
      root = λ v r. g.keeps v 0 (i.root v r);
    }

  abbrev Ends : Depths × Depths → Type 0
  Ends out = (out.0 ≡ []) × ((d : ℕ) × Inv edges d [] out.1)

  depths_loop-nil :
      (fuel d : ℕ) (depths : Depths)
      → Inv edges d [] depths
      → Ends (depths_loop fuel (group edges) [] depths)
  unfolding depths_loop
  depths_loop-nil zero d depths i = (refl, (d, i))
  depths_loop-nil (suc fuel) d depths i = (refl, (d, i))

  -- With enough fuel the loop ends without a frontier, and with the invariant.
  depths_loop_lem :
      (fuel d : ℕ) (frontier depths : Depths)
      → Inv edges d frontier depths
      → unreached edges depths + 1 < fuel
      → Ends (depths_loop fuel (group edges) frontier depths)
  unfolding depths_loop
  depths_loop_lem zero d frontier depths i h = absurd (omega arith)
  depths_loop_lem (suc fuel) d [] depths i h = (refl, (d, i))
  depths_loop_lem (suc fuel) d (n ∷ frontier) depths i h =
      let (g, sees) = visit_nodes_lem edges d (n ∷ frontier) depths [] i.front in
      let seen : Depths × Depths = level d (n ∷ frontier) depths in
      let j : Inv edges (d + 1) seen.1 seen.0 = Inv-level d (n ∷ frontier) depths i g sees in
      ⊎_elim
        (λ (same : seen ≡ (depths, [])).
          subst (λ f. Ends (depths_loop fuel (group edges) f seen.0)) (sym (ap (λ z. z.1) same))
            (depths_loop-nil fuel (d + 1) seen.0
              (subst (λ f. Inv edges (d + 1) f seen.0) (ap (λ z. z.1) same) j)))
        (λ lt. depths_loop_lem fuel (d + 1) seen.1 seen.0 j (omega (arith, lt, h))) g.progress

  -- What the invariant says at the end.
  module _ (d : ℕ) (depths : Depths) (i : Inv edges d [] depths) where
    reached : (n : ℕ) (v : String) → Walk edges n v → (j : ℕ) × (lookup v depths ≡ some j) × (j ≤ n)
    reached n v (here r at) = (0, i.root v r, omega arith)
    reached n v (there {k} {a} w m at) =
        let (j, found, le) = reached k a w in
        ⊎_elim (λ no. absurd no)
          (λ (closed : Closed edges depths a j).
            let (l, found', le') = closed v m in (l, found', omega (arith, le, le', at)))
          (i.handled a j found)

    shortest : (v : String) (n : ℕ) → (lookup v depths ≡ some n) ↔ Shortest edges v n
    shortest v n = (
      λ h. (
        (i.sound v n h).0,
        λ k w. let (j, found, le) = reached k v w in ground (arith, h, found, le),
      ),
      λ (w, least).
          let (j, found, le) = reached n v w in
          let le' : n ≤ j = least j (i.sound v j found).0 in
          let same : j ≡ n = omega (arith, le, le') in found ∙ ap some same,
    )

module _ (edges : Edges) where
  Inv-start :
      (names : List String)
      → ((v : String) → Elem v names ↔ IsRoot edges v)
      → Inv edges 0 (at_zero names) (set_defaults [] (at_zero names))
  unfolding lookup
  Inv-start names h =
      let source : (v : String) (k : ℕ)
          → lookup v (set_defaults [] (at_zero names)) ≡ some k
          → (k ≡ 0) × Elem v names =
        λ v k e. ⊎_elim (λ no. absurd cc) (λ s. s) (set_defaults-source names [] v k e) in
      record {
        sound = λ v k e. let (at, m) = source v k e in (here ((h v).0 m) at, omega (arith, at));
        front = λ x m.
            let (n, i, q) = Elem-map_inv (λ name. (name, 0)) x names m in
            (
              sym (ap (λ (y : String × ℕ). y.1) q),
              here ((h x.0).0 (subst (λ s. Elem s names) (ap (λ (y : String × ℕ). y.0) q) i)) refl,
            );
        handled = λ v k e.
            let (at, m) = source v k e in
            inl (
              subst (λ j. Elem (v, j) (at_zero names)) (sym at)
                (Elem-map (λ name. (name, 0)) v names m));
        root = λ v r.
            let (j, e) =
              some_depth (lookup v (set_defaults [] (at_zero names)))
                (set_defaults-has_depth names [] v (inr ((h v).1 r))) in
            e ∙ ap some (source v j e).0;
      }

  -- The search from all roots.
  search_depths_lem :
      (names : List String)
      → ((v : String) → Elem v names ↔ IsRoot edges v)
      → Ends edges (search_depths edges (at_zero names))
  unfolding search_depths
  search_depths_lem names h =
      let depths : Depths = set_defaults [] (at_zero names) in
      depths_loop_lem edges (length edges + 2) 0 (at_zero names) depths (Inv-start names h) (
        omega (arith, length-filter-le (λ (e : String × String). not (has_depth e.1 depths)) edges))

  depths_below_lem :
      (names : List String)
      → ((v : String) → Elem v names ↔ IsRoot edges v)
      → (v : String) (n : ℕ) → (lookup v (depths_below edges names) ≡ some n) ↔ Shortest edges v n
  unfolding depths_below lookup
  depths_below_lem [] h v n =
      (λ e. absurd cc, λ (w, least). absurd (no_walk edges (λ u r. (h u).1 r) n v w))
  depths_below_lem (r ∷ rs) h v n =
      let (drained, (d, i)) = search_depths_lem (r ∷ rs) h in
      shortest edges d (search_depths edges (at_zero (r ∷ rs))).1 i v n

-- A service has the depth n just when a walk of n calls leads to it from a service that calls but is never
-- called, and no walk from such a service is shorter; a service without such a walk has no depth. The edges
-- are any set, with cycles or without a root too.
pub compute_depths_exact :
    (edges : Edges) (v : String) (n : ℕ)
    → (lookup v (compute_depths edges) ≡ some n) ↔ Shortest edges v n
unfolding compute_depths lookup
compute_depths_exact [] v n =
    (λ e. absurd cc, λ (w, least). absurd (no_walk [] (λ u r. r.0.1) n v w))
compute_depths_exact (e ∷ edges) v n =
    depths_below_lem (e ∷ edges) (roots_of (e ∷ edges)) (roots_of_iff (e ∷ edges)) v n
