-- ===== src/Evaluation/Depths.antt =====
-- eval.py, `compute_depths`: how deep each service stands below the roots of the topology. A set of edges is
-- a list, with any repetition. The loop `while frontier` has fuel.
pub mod Growth
pub mod Levels
pub mod Roots
pub mod Shortest
use distributed_tracing_plat.Prelude.{
  ℕ, zero, suc, ◌+◌, Bool, true, false, not, String, string_eq, Option, none, some, List, [], ◌∷◌,
  ◌++◌, map, filter, length, if◌then◌else◌, contains, lookup, insert, group, get_group, firsts,
}

abbrev pub Edges : Type 0
Edges = List (String × String)

-- `depths`, and a frontier of services with their depths.
abbrev pub Depths : Type 0
Depths = List (String × ℕ)

-- `name in depths`
abbrev pub is_found : Option ℕ → Bool
is_found none = false
is_found (some depth) = true

abbrev pub has_depth : String → Depths → Bool
has_depth name depths = is_found (lookup name depths)

-- `callers - callees`
unfoldable pub roots_of : Edges → List String
roots_of edges =
    filter (λ name. not (contains (map (λ (e : String × String). e.1) edges) name))
      (firsts (map (λ (e : String × String). e.0) edges))

-- `for r, d in frontier: depths.setdefault(r, d)`
unfoldable pub set_defaults : Depths → Depths → Depths
set_defaults depths [] = depths
set_defaults depths ((name, depth) ∷ frontier) =
    set_defaults (if has_depth name depths then depths else insert name depth depths) frontier

-- `for child in outgoing.get(node, [])`, of a node at the depth: `depths` and `next_frontier`.
unfoldable pub visit_children : ℕ → List String → Depths → Depths → Depths × Depths
visit_children depth [] depths next = (depths, next)
visit_children depth (child ∷ children) depths next =
    let skipped = visit_children depth children depths next in
    let entered =
      visit_children depth children (insert child (depth + 1) depths)
        (next ++ (child, depth + 1) ∷ []) in
    if has_depth child depths then skipped else entered

-- `for node, depth in frontier`
unfoldable pub visit_nodes :
    List (String × List String) → Depths → Depths → Depths → Depths × Depths
visit_nodes outgoing [] depths next = (depths, next)
visit_nodes outgoing ((node, depth) ∷ frontier) depths next =
    let seen = visit_children depth (get_group node outgoing) depths next in
    visit_nodes outgoing frontier seen.0 seen.1

-- `while frontier`: what is left of the frontier, and `depths`.
unfoldable pub depths_loop : ℕ → List (String × List String) → Depths → Depths → Depths × Depths
depths_loop zero outgoing frontier depths = (frontier, depths)
depths_loop (suc fuel) outgoing [] depths = ([], depths)
depths_loop (suc fuel) outgoing (n ∷ frontier) depths =
    let seen = visit_nodes outgoing (n ∷ frontier) depths [] in
    depths_loop fuel outgoing seen.1 seen.0

-- The search from the roots; a level that goes on has entered the callee of another edge, so the number of
-- edges and two is enough fuel.
unfoldable pub search_depths : Edges → Depths → Depths × Depths
search_depths edges frontier =
    depths_loop (length edges + 2) (group edges) frontier (set_defaults [] frontier)

-- From the roots; without one there is nothing to compute.
unfoldable pub depths_below : Edges → List String → Depths
depths_below edges [] = []
depths_below edges (r ∷ rs) = (search_depths edges (map (λ name. (name, 0)) (r ∷ rs))).1

-- `compute_depths`
unfoldable pub compute_depths : Edges → Depths
compute_depths [] = []
compute_depths (e ∷ edges) = depths_below (e ∷ edges) (roots_of (e ∷ edges))
