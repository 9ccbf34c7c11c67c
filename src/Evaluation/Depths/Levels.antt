-- ===== src/Evaluation/Depths/Levels.antt =====
-- eval.py, `compute_depths`: what one level of the search does to `depths` and `next_frontier`.
use distributed_tracing_plat.Prelude.{
  ℕ, ◌+◌, true, String, string_eq, pair_eq, none, ◌≡◌, inl, inr, ⊎_elim, refl, sym, subst, ap, ◌∙◌,
  ◌==◌, List, [], ◌∷◌, ◌++◌, Elem, Elem-append, lookup, insert, lookup-insert, group, get_group,
  get_group-group, Elem-values, values, arith, Bool-cases,
}
use text.Mathlib.TextEquality.{eq_iff}
use distributed_tracing_plat.Evaluation.Depths.{
  Edges, Depths, has_depth, visit_children, visit_nodes,
}
use distributed_tracing_plat.Evaluation.Depths.Growth.{
  Walk, there, no_depth, unreached-lt, Grows, Grows-refl, Grows-has_depth, Grows-trans,
}

module _ (edges : Edges) (d : ℕ) where
  -- The step of the inner loop on a service without a depth.
  module _ (caller child : String) (depths next : Depths) where
    abbrev after : Depths
    after = next ++ (child, d + 1) ∷ []

    entered :
        Walk edges d caller
        → Elem (caller, child) edges
        → (v : String) (j : ℕ) → child ≡ v
        → j ≡ d + 1
        → Walk edges j v × Elem (v, j) after
    entered w m v j same at = (
      there w (subst (λ c. Elem (caller, c) edges) same m) at,
      (Elem-append (v, j) next ((child, d + 1) ∷ [])).1
          (inr (inl (ap (λ c. (c, d + 1)) same ∙ ap (λ k. (v, k)) (sym at)))),
    )

    Grows-insert :
        Walk edges d caller
        → Elem (caller, child) edges
        → lookup child depths ≡ none
        → Grows edges d (depths, next) (insert child (d + 1) depths, after)
    Grows-insert w m h = record {
      keeps = λ v j e. ground (arith, lookup-insert child v (d + 1) depths, eq_iff child v, h, e);
      keeps_next = λ x i. (Elem-append x next ((child, d + 1) ∷ [])).1 (inl i);
      source = λ v j e. elim (Bool-cases (child == v)) [
        | inl same ↦
            let at : j ≡ d + 1 = ground (arith, lookup-insert child v (d + 1) depths, same, e) in
            let new : Walk edges j v × Elem (v, j) after =
              entered w m v j ((eq_iff child v).0 same) at in
            inr (at, new.0, new.1)
        | inr other ↦ inl (ground (arith, lookup-insert child v (d + 1) depths, other, e))
      ];
      next_source = λ x i.
          ⊎_elim inl
            (⊎_elim
              (λ q.
                let at : x.1 ≡ d + 1 = sym (ap (λ (y : String × ℕ). y.1) q) in
                inr (at, (entered w m x.0 x.1 (ap (λ (y : String × ℕ). y.0) q) at).0))
              (λ no. absurd no))
            ((Elem-append x next ((child, d + 1) ∷ [])).0 i);
      progress = inr (unreached-lt edges caller child (d + 1) depths m h);
    }

  -- A walk to the caller, whose edges lead to the children: all of them have a depth afterwards.
  visit_children_lem :
      (caller : String) (children : List String) (depths next : Depths)
      → Walk edges d caller
      → ((c : String) → Elem c children → Elem (caller, c) edges)
      → Grows edges d (depths, next) (visit_children d children depths next)
        × ((c : String)
            → Elem c children
            → has_depth c (visit_children d children depths next).0 ≡ true)
  unfolding visit_children
  visit_children_lem caller [] depths next w m =
      (Grows-refl edges d (depths, next), λ c i. absurd i)
  visit_children_lem caller (child ∷ children) depths next w m =
      elim (Bool-cases (has_depth child depths)) [
        | inl old ↦ rw old (
            let (g, sees) = visit_children_lem caller children depths next w (λ c i. m c (inr i)) in
            (
              g,
              λ c.
                  ⊎_elim
                    (λ q.
                      Grows-has_depth edges d (depths, next) (visit_children d children depths next)
                        g c (subst (λ x. has_depth x depths ≡ true) q old))
                    (sees c),
            ))
        | inr new ↦ rw new (
            let depths' : Depths = insert child (d + 1) depths in
            let next' : Depths = next ++ (child, d + 1) ∷ [] in
            let (g, sees) =
              visit_children_lem caller children (insert child (d + 1) depths)
                (next ++ (child, d + 1) ∷ []) w (λ c i. m c (inr i)) in
            let g' : Grows edges d (depths, next) (depths', next') =
              Grows-insert caller child depths next w (m child (inl refl))
                (no_depth (lookup child depths) new) in
            (
              Grows-trans edges d (depths, next) (depths', next')
                  (visit_children d children depths' next') g' g,
              λ c.
                  ⊎_elim
                    (λ q.
                      Grows-has_depth edges d (depths', next')
                        (visit_children d children depths' next') g c
                        (ground (arith, lookup-insert child c (d + 1) depths, eq_iff child c, q)))
                    (sees c),
            ))
      ]

  -- A node of the level: afterwards each of its callees has a depth.
  visit_node_lem :
      (node : String) (depth : ℕ) (depths next : Depths)
      → depth ≡ d
      → Walk edges d node
      → Grows edges d
          (depths, next)
          (visit_children depth (get_group node (group edges)) depths next)
        × ((c : String)
            → Elem (node, c) edges
            → has_depth c (visit_children depth (get_group node (group edges)) depths next).0
              ≡ true)
  visit_node_lem node depth depths next at w =
      rw (at, get_group-group node edges)
        (let (g, sees) =
            visit_children_lem node (values node edges) depths next w
              (λ c. (Elem-values node c edges).0) in
          (g, λ c i. sees c ((Elem-values node c edges).1 i)))

  -- All nodes of a level.
  pub visit_nodes_lem :
      (frontier depths next : Depths)
      → ((x : String × ℕ) → Elem x frontier → (x.1 ≡ d) × Walk edges d x.0)
      → Grows edges d (depths, next) (visit_nodes (group edges) frontier depths next)
        × ((x : String × ℕ) (c : String)
            → Elem x frontier
            → Elem (x.0, c) edges
            → has_depth c (visit_nodes (group edges) frontier depths next).0 ≡ true)
  unfolding visit_nodes
  visit_nodes_lem [] depths next h = (Grows-refl edges d (depths, next), λ x c i. absurd i)
  visit_nodes_lem ((node, depth) ∷ frontier) depths next h =
      let (at, w) = h (node, depth) (inl refl) in
      let seen : Depths × Depths =
        visit_children depth (get_group node (group edges)) depths next in
      let all : Depths × Depths = visit_nodes (group edges) frontier seen.0 seen.1 in
      let (g, sees) = visit_node_lem node depth depths next at w in
      let (g', sees') =
        visit_nodes_lem frontier (visit_children depth (get_group node (group edges)) depths next).0
          (visit_children depth (get_group node (group edges)) depths next).1
          (λ x i. h x (inr i)) in
      (
        Grows-trans edges d (depths, next) seen all g g',
        λ x c.
            ⊎_elim
              (λ q e.
                Grows-has_depth edges d seen all g' c (
                  sees c (subst (λ n. Elem (n, c) edges) (sym (ap (λ (y : String × ℕ). y.0) q)) e)))
              (sees' x c),
      )
