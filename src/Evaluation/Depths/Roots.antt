-- ===== src/Evaluation/Depths/Roots.antt =====
-- eval.py, `compute_depths`: the roots, and the depths that the search begins with.
use distributed_tracing_plat.Prelude.{
  ℕ, true, not, String, string_eq, pair_eq, some, ◌≡◌, ◌↔◌, ◌⊎◌, inl, inr, ⊎_elim, sym, subst, ap,
  List, [], ◌∷◌, map, Elem, Elem-map, Elem-map_inv, Elem-filter, contains, contains_iff, lookup,
  insert, lookup-insert, firsts, Elem-add_keys, arith, Bool-cases, if◌then◌else◌,
}
use text.Mathlib.TextEquality.{eq_iff}
use distributed_tracing_plat.Evaluation.Depths.{Edges, Depths, has_depth, roots_of, set_defaults}
use distributed_tracing_plat.Evaluation.Depths.Growth.{IsRoot, Walk, here, there}

-- The frontier of the roots.
abbrev pub at_zero : List String → Depths
at_zero names = map (λ name. (name, 0)) names

-- A depth after `setdefault` was there before, or is the zero of one of the names.
pub set_defaults-source :
    (names : List String) (depths : Depths) (v : String) (k : ℕ)
    → lookup v (set_defaults depths (at_zero names)) ≡ some k
    → (lookup v depths ≡ some k) ⊎ ((k ≡ 0) × Elem v names)
unfolding set_defaults
set_defaults-source [] depths v k h = inl h
set_defaults-source (n ∷ names) depths v k h = elim (Bool-cases (has_depth n depths)) [
  | inl old ↦
      ⊎_elim inl (λ new. inr (new.0, inr new.1))
        (set_defaults-source names depths v k (
          subst
            (λ b.
              lookup v (set_defaults (if b then depths else insert n 0 depths) (at_zero names))
              ≡ some k)
            old h))
  | inr new ↦ ground (
    arith,
    set_defaults-source names (insert n 0 depths) v k (
        subst
          (λ b.
            lookup v (set_defaults (if b then depths else insert n 0 depths) (at_zero names))
            ≡ some k)
          new h),
    lookup-insert n v 0 depths,
    eq_iff n v,
  )
]

pub set_defaults-has_depth :
    (names : List String) (depths : Depths) (v : String)
    → (has_depth v depths ≡ true) ⊎ Elem v names
    → has_depth v (set_defaults depths (at_zero names)) ≡ true
unfolding set_defaults
set_defaults-has_depth [] depths v h = ⊎_elim (λ old. old) (λ no. absurd no) h
set_defaults-has_depth (n ∷ names) depths v h = elim (Bool-cases (has_depth n depths)) [
  | inl old ↦
      subst
        (λ b.
          has_depth v (set_defaults (if b then depths else insert n 0 depths) (at_zero names))
          ≡ true)
        (sym old)
        (set_defaults-has_depth names depths v
          (⊎_elim inl (⊎_elim (λ q. inl (subst (λ x. has_depth x depths ≡ true) q old)) inr) h))
  | inr new ↦
      subst
        (λ b.
          has_depth v (set_defaults (if b then depths else insert n 0 depths) (at_zero names))
          ≡ true)
        (sym new)
        (set_defaults-has_depth names (insert n 0 depths) v
          (ground (arith, lookup-insert n v 0 depths, eq_iff n v, h)))
]

-- `callers - callees` are the roots.
pub roots_of_iff : (edges : Edges) (v : String) → Elem v (roots_of edges) ↔ IsRoot edges v
unfolding roots_of firsts
roots_of_iff edges v =
    let callers : List String = map (λ (e : String × String). e.0) edges in
    let callees : List String = map (λ (e : String × String). e.1) edges in
    (
      λ m.
          let (i, free) =
            (Elem-filter (λ name. not (contains callees name)) v (firsts callers)).0 m in
          let called : Elem v callers =
            ⊎_elim (λ no. absurd no) (λ j. j) ((Elem-add_keys [] callers v).0 i) in
          let (e, j, q) = Elem-map_inv (λ (e : String × String). e.0) v edges called in
          (
            (e.1, subst (λ n. Elem (n, e.1) edges) q j),
            λ caller k. ground (
              arith,
              (contains_iff callees v).1
                  (Elem-map (λ (e : String × String). e.1) (caller, v) edges k),
              free,
            ),
          ),
      λ ((callee, j), free).
          (Elem-filter (λ name. not (contains callees name)) v (firsts callers)).1 (
            (Elem-add_keys [] callers v).1
                (inr (Elem-map (λ (e : String × String). e.0) (v, callee) edges j)),
            elim (Bool-cases (contains callees v)) [
              | inl taken ↦
                  let (e, k, q) =
                    Elem-map_inv (λ (e : String × String). e.1) v edges
                      ((contains_iff callees v).0 taken) in
                  absurd (free e.0 (subst (λ n. Elem (e.0, n) edges) q k))
              | inr untaken ↦ ap not untaken
            ],
          ),
    )

module _ (edges : Edges) where
  pub no_walk : ((v : String) → ¬ IsRoot edges v) → (n : ℕ) (v : String) → ¬ Walk edges n v
  no_walk none_is n v (here r at) = none_is v r
  no_walk none_is n v (there {k} {a} w m at) = no_walk none_is k a w
