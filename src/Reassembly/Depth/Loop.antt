-- ===== src/Reassembly/Depth/Loop.antt =====
-- reassembly.py: the outer loop of `_subtree_depth` over the levels below a span.
use Prim.Native.Nat.{max}
use native.Mathlib.Decide.{dec_le}
use distributed_tracing_plat.Prelude.{
  ℕ, zero, suc, ◌+◌, ◌≤◌, String, ◌≡◌, ◌⊎◌, inl, inr, ⊎_elim, refl, subst, List, [], ◌∷◌, string_eq,
  All, Elem, contains, get_group, arith, length, total, ap,
}
use text.Mathlib.TextEquality.{eq_iff}
use distributed_tracing_plat.Reassembly.{Children, queue_children, depth_loop, subtree_depth}
use distributed_tracing_plat.Reassembly.Marking.{Child, Reached, start, step}
use distributed_tracing_plat.Reassembly.Depth.Queueing.{
  Seen, unseen, unseen-le, Queue, Queued, queue_children_lem, Occurs-of_Child,
}

-- The span stands n levels deep below the root, which is at level 1.
pub data Level (d : Children) (root : String) : String → ℕ → Type 0 where
  top : {n : ℕ} → n ≡ 1 → Level d root root n
  down : {a b : String} {k n : ℕ} → Level d root a k → Child d a b → n ≡ k + 1 → Level d root b n

-- The span stands at a level no deeper than m, and its children are seen.
Done : Children → String → List String → ℕ → String → Type 0
Done d root seen m a =
    ((k : ℕ) × Level d root a k × (k ≤ m)) × ((b : String) → Child d a b → Seen seen b)

record Inv (d : Children) (root : String) (n : ℕ) (queue : Queue) (seen : List String) (m : ℕ)
    : Type 0 where
  levels : (x : String × ℕ) → Elem x queue → Level d root x.0 x.1
  attained : (a : String) × Level d root a m
  handled : (a : String) → Seen seen a → ((k : ℕ) × Elem (a, k) queue) ⊎ Done d root seen m a
  root_seen : Seen seen root
  room : All (λ x. x.1 + unseen d seen ≤ n) queue
  at_least : 1 ≤ m
  at_most : m ≤ n

module _ (d : Children) (root : String) (n : ℕ) where
  module _ (s : String) (k : ℕ) (queue : Queue) (seen : List String) (m : ℕ) where
    abbrev out : Queue × List String
    out = queue_children k (get_group s d) queue seen

    queued : Queued d k (get_group s d) queue seen out
    queued = queue_children_lem d k (get_group s d) queue seen (Occurs-of_Child d s)

    popped : Inv d root n ((s, k) ∷ queue) seen m → Done d root out.1 (max m k) s
    unfolding Done
    popped i = ((k, i.levels (s, k) (inl refl), omega arith), queued.sees_children)

    Inv-step : Inv d root n ((s, k) ∷ queue) seen m → Inv d root n out.0 out.1 (max m k)
    unfolding Done
    Inv-step i = record {
      levels = λ x e.
          ⊎_elim (λ old. i.levels x (inr old))
            (λ new. down (i.levels (s, k) (inl refl)) new.0 new.1) (queued.queue_source x e);
      attained = elim (dec_le k m) [
        | yes le ↦
            let same : m ≡ max m k = omega arith in
            subst (λ j. (a : String) × Level d root a j) same i.attained
        | no gt ↦
            let same : k ≡ max m k = omega arith in
            (s, subst (Level d root s) same (i.levels (s, k) (inl refl)))
      ];
      handled = λ a h.
          ⊎_elim
            (λ old.
              ⊎_elim
                (λ waiting.
                  ⊎_elim
                    (λ e. inr (subst (Done d root out.1 (max m k)) (ap (λ p. p.0) e) (popped i)))
                    (λ e. inl (waiting.0, queued.keeps_queue (a, waiting.0) e)) waiting.1)
                (λ done. inr (
                  (done.0.0, done.0.1, omega (arith, done.0.2)),
                  λ b c. queued.keeps_seen b (done.1 b c),
                ))
                (i.handled a old))
            (λ new. inl (k + 1, new)) (queued.seen_source a h);
      root_seen = queued.keeps_seen root i.root_seen;
      room = queued.level n i.room.1 i.room.0;
      at_least = omega (arith, i.at_least);
      at_most = omega (arith, i.at_most, i.room.0);
    }

  -- With enough fuel the loop empties its queue, and the invariant holds of the depth it returns.
  depth_loop_lem :
      (fuel : ℕ) (queue : Queue) (seen : List String) (m : ℕ)
      → Inv d root n queue seen m
      → length queue + unseen d seen ≤ fuel
      → ((depth_loop fuel d queue seen m).0 ≡ [])
        × ((seen' : List String) × Inv d root n [] seen' (depth_loop fuel d queue seen m).1)
  unfolding depth_loop
  depth_loop_lem zero [] seen m i h = (refl, (seen, i))
  depth_loop_lem zero (x ∷ queue) seen m i h = absurd (omega arith)
  depth_loop_lem (suc fuel) [] seen m i h = (refl, (seen, i))
  depth_loop_lem (suc fuel) ((s, k) ∷ queue) seen m i h =
      let q = queued s k queue seen m in
      depth_loop_lem fuel (out s k queue seen m).0 (out s k queue seen m).1 (max m k)
        (Inv-step s k queue seen m i) (omega (arith, q.work))

module _ (d : Children) (root : String) where
  Inv-start : Inv d root (total d + 1) ((root, 1) ∷ []) (root ∷ []) 1
  unfolding Done contains
  Inv-start = record {
    levels = λ x m. ⊎_elim (λ e. subst (λ p. Level d root p.0 p.1) e (top refl)) (λ h. absurd h) m;
    attained = (root, top refl);
    handled = λ a h. inl (1, inl (ap (λ (b : String). (b, 1)) (ground (arith, eq_iff root a))));
    root_seen = ground (arith, eq_iff root root);
    room = (omega (arith, unseen-le d (root ∷ [])), tt);
    at_least = omega arith;
    at_most = omega arith;
  }

  finish :
      ((depth_loop (total d + 1) d ((root, 1) ∷ []) (root ∷ []) 1).0 ≡ [])
      × ((seen : List String) × Inv d root
            (total d + 1)
            []
            seen
            (depth_loop (total d + 1) d ((root, 1) ∷ []) (root ∷ []) 1).1)
  finish =
      depth_loop_lem d root (total d + 1) (total d + 1) ((root, 1) ∷ []) (root ∷ []) 1 Inv-start
        (omega (arith, unseen-le d (root ∷ [])))

  -- The loop of `_subtree_depth` ends: nothing is left in its queue.
  pub subtree_depth-drains : (depth_loop (total d + 1) d ((root, 1) ∷ []) (root ∷ []) 1).0 ≡ []
  subtree_depth-drains = finish.0

  module _ (seen : List String) (m n : ℕ) (i : Inv d root n [] seen m) where
    Done-of_Seen : (a : String) → Seen seen a → Done d root seen m a
    Done-of_Seen a h = ⊎_elim (λ waiting. absurd waiting.1) (λ x. x) (i.handled a h)

    Done-of_Reached : {a : String} → Reached d (root ∷ []) a → Done d root seen m a
    unfolding Done
    Done-of_Reached (start {a} e) =
        Done-of_Seen a (⊎_elim (λ q. subst (Seen seen) q i.root_seen) (λ h. absurd h) e)
    Done-of_Reached (step {a} {b} r c) = Done-of_Seen b ((Done-of_Reached r).1 b c)

  -- `_subtree_depth` is the depth below the root: some span stands at that level, every span that
  -- the root leads to stands at that level or higher up, and it is between 1 and one more than the
  -- number of child links.
  pub subtree_depth_exact :
      ((a : String) × Level d root a (subtree_depth root d))
      × ((a : String)
          → Reached d (root ∷ []) a
          → (k : ℕ) × Level d root a k × (k ≤ subtree_depth root d))
      × (1 ≤ subtree_depth root d)
      × (subtree_depth root d ≤ total d + 1)
  unfolding subtree_depth Done
  subtree_depth_exact =
      let (seen, i) = finish.1 in
      (i.attained, λ a r. (Done-of_Reached seen _ _ i r).0, i.at_least, i.at_most)
