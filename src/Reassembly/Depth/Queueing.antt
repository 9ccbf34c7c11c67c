-- ===== src/Reassembly/Depth/Queueing.antt =====
-- reassembly.py: the inner loop of `_subtree_depth`, which queues the children not seen before.
use distributed_tracing_plat.Prelude.{
  ℕ, suc, ◌+◌, ◌≤◌, String, ◌≡◌, ◌⊎◌, inl, inr, ⊎_elim, refl, List, [], ◌∷◌, ◌++◌, true, false,
  ◌==◌, string_eq, if◌then◌else◌, Bool-cases, All, Any, Elem, Elem-append, contains, lookup,
  get_group, arith, length, length-append, total, All-append, All-impl, ap, sym,
}
use text.Mathlib.TextEquality.{eq_iff}
use distributed_tracing_plat.Reassembly.{Children, queue_children}
use distributed_tracing_plat.Reassembly.Marking.{Child}

abbrev pub Seen : List String → String → Type 0
Seen seen a = contains seen a ≡ true

unseen_in : List String → List String → ℕ
unseen_in [] seen = 0
unseen_in (v ∷ vs) seen = let rest = unseen_in vs seen in if contains seen v then rest else suc rest

-- The child links to spans not seen yet.
pub unseen : Children → List String → ℕ
unseen [] seen = 0
unseen ((k, vs) ∷ d) seen = unseen_in vs seen + unseen d seen

-- The span is some span's child.
abbrev pub Occurs : Children → String → Type 0
Occurs d c = Any (λ e. Elem c e.1) d

unseen_in-le : (vs seen : List String) → unseen_in vs seen ≤ length vs
unfolding unseen_in
unseen_in-le [] seen = omega arith
unseen_in-le (v ∷ vs) seen = ground (arith, unseen_in-le vs seen)

pub unseen-le : (d : Children) (seen : List String) → unseen d seen ≤ total d
unfolding unseen
unseen-le [] seen = omega arith
unseen-le ((k, vs) ∷ d) seen = omega (arith, unseen-le d seen, unseen_in-le vs seen)

unseen_in_mono : (vs seen : List String) (c : String) → unseen_in vs (c ∷ seen) ≤ unseen_in vs seen
unfolding unseen_in contains
unseen_in_mono [] seen c = omega arith
unseen_in_mono (v ∷ vs) seen c = ground (arith, unseen_in_mono vs seen c)

unseen_mono : (d : Children) (seen : List String) (c : String) → unseen d (c ∷ seen) ≤ unseen d seen
unfolding unseen
unseen_mono [] seen c = omega arith
unseen_mono ((k, vs) ∷ d) seen c = omega (arith, unseen_mono d seen c, unseen_in_mono vs seen c)

unseen_in-lt :
    (vs seen : List String) (c : String)
    → contains seen c ≡ false
    → Elem c vs
    → suc (unseen_in vs (c ∷ seen)) ≤ unseen_in vs seen
unfolding unseen_in contains
unseen_in-lt [] seen c h m = absurd m
unseen_in-lt (v ∷ vs) seen c h m =
    ground (arith, unseen_in-lt vs seen c h, unseen_in_mono vs seen c, eq_iff c v)

-- Seeing a child uses up a link.
pub unseen-lt :
    (d : Children) (seen : List String) (c : String)
    → contains seen c ≡ false
    → Occurs d c
    → suc (unseen d (c ∷ seen)) ≤ unseen d seen
unfolding unseen
unseen-lt [] seen c h m = absurd m
unseen-lt ((k, vs) ∷ d) seen c h m =
    ⊎_elim (λ i. omega (arith, unseen_in-lt vs seen c h i, unseen_mono d seen c))
      (λ i. omega (arith, unseen-lt d seen c h i, unseen_in_mono vs seen c)) m

pub Occurs-of_Child : (d : Children) (a b : String) → Child d a b → Occurs d b
unfolding get_group lookup
Occurs-of_Child [] a b m = absurd m
Occurs-of_Child ((k, vs) ∷ d) a b m = elim (Bool-cases (k == a)) [
  | inl e ↦ inl (rw (e, get_group, lookup) at m)
  | inr e ↦ inr (Occurs-of_Child d a b (rw (e, get_group, lookup) at m))
]

abbrev pub Queue : Type 0
Queue = List (String × ℕ)

-- What one pass over the children of a span at level k does to the queue and the seen spans.
pub record Queued (d : Children) (k : ℕ) (cs : List String) (queue : Queue) (seen : List String)
    (out : Queue × List String) : Type 0 where
  pub keeps_queue : (x : String × ℕ) → Elem x queue → Elem x out.0
  pub keeps_seen : (a : String) → Seen seen a → Seen out.1 a
  pub sees_children : (a : String) → Elem a cs → Seen out.1 a
  pub queue_source : (x : String × ℕ) → Elem x out.0 → Elem x queue ⊎ Elem x.0 cs × (x.1 ≡ k + 1)
  pub seen_source : (a : String) → Seen out.1 a → Seen seen a ⊎ Elem (a, k + 1) out.0
  pub work : length out.0 + unseen d out.1 ≤ length queue + unseen d seen
  pub level :
      (n : ℕ)
      → All (λ x. x.1 + unseen d seen ≤ n) queue
      → k + unseen d seen ≤ n
      → All (λ x. x.1 + unseen d out.1 ≤ n) out.0

module _ (d : Children) (k : ℕ) (c : String) (cs : List String) (queue : Queue) (seen : List String)
    (out : Queue × List String) where
  Queued-skip : Seen seen c → Queued d k cs queue seen out → Queued d k (c ∷ cs) queue seen out
  Queued-skip old q = record {
    keeps_queue = q.keeps_queue;
    keeps_seen = q.keeps_seen;
    sees_children = λ a m. ⊎_elim (λ e. q.keeps_seen a (rw e at old)) (q.sees_children a) m;
    queue_source = λ x m. ⊎_elim inl (λ i. inr (inr i.0, i.1)) (q.queue_source x m);
    seen_source = q.seen_source;
    work = q.work;
    level = q.level;
  }

  Seen-cons : (a : String) → Seen (c ∷ seen) a → (c ≡ a) ⊎ Seen seen a
  unfolding contains
  Seen-cons a h = ground (arith, eq_iff c a)

  Seen-tail : (a : String) → Seen seen a → Seen (c ∷ seen) a
  unfolding contains
  Seen-tail a h = ground (arith, eq_iff c a)

  Seen-head : Seen (c ∷ seen) c
  unfolding contains
  Seen-head = ground (arith, eq_iff c c)

  pushed : Queue
  pushed = queue ++ (c, k + 1) ∷ []

  level_pushed :
      (n : ℕ)
      → suc (unseen d (c ∷ seen)) ≤ unseen d seen
      → All (λ x. x.1 + unseen d seen ≤ n) queue
      → k + unseen d seen ≤ n
      → All (λ x. x.1 + unseen d (c ∷ seen) ≤ n) pushed
  unfolding pushed
  level_pushed n lt h le =
      All-append (λ x. x.1 + unseen d (c ∷ seen) ≤ n) queue ((c, k + 1) ∷ [])
        (All-impl (λ x. x.1 + unseen d seen ≤ n) (λ x. x.1 + unseen d (c ∷ seen) ≤ n)
          (λ x i. omega arith) queue h)
        (omega arith, tt)

  Queued-push :
      suc (unseen d (c ∷ seen)) ≤ unseen d seen
      → Queued d k cs pushed (c ∷ seen) out
      → Queued d k (c ∷ cs) queue seen out
  unfolding pushed
  Queued-push lt q =
      let at_end = λ (x : String × ℕ). Elem-append x queue ((c, k + 1) ∷ []) in
      record {
        keeps_queue = λ x m. q.keeps_queue x ((at_end x).1 (inl m));
        keeps_seen = λ a h. q.keeps_seen a (Seen-tail a h);
        sees_children =
            λ a m. ⊎_elim (λ e. rw e at (q.keeps_seen c Seen-head)) (q.sees_children a) m;
        queue_source = λ x m.
            ⊎_elim
              (λ i.
                ⊎_elim inl
                  (⊎_elim (λ e. inr (inl (ap (λ p. p.0) e), sym (ap (λ p. p.1) e))) (λ n. absurd n))
                  ((at_end x).0 i))
              (λ i. inr (inr i.0, i.1)) (q.queue_source x m);
        seen_source = λ a h.
            ⊎_elim
              (λ s.
                ⊎_elim
                  (λ e. inr (
                    q.keeps_queue (a, k + 1)
                      ((at_end (a, k + 1)).1 (inr (inl (ap (λ (b : String). (b, k + 1)) e))))))
                  inl (Seen-cons a s))
              inr (q.seen_source a h);
        work = omega (arith, q.work, length-append queue ((c, k + 1) ∷ []));
        level = λ n h le. q.level n (level_pushed n lt h le) (omega arith);
      }

pub queue_children_lem :
    (d : Children) (k : ℕ) (cs : List String) (queue : Queue) (seen : List String)
    → ((a : String) → Elem a cs → Occurs d a)
    → Queued d k cs queue seen (queue_children k cs queue seen)
unfolding queue_children pushed
queue_children_lem d k [] queue seen occurs = record {
  keeps_queue = λ x m. m;
  keeps_seen = λ a h. h;
  sees_children = λ a m. absurd m;
  queue_source = λ x m. inl m;
  seen_source = λ a h. inl h;
  work = omega arith;
  level = λ n h le. h;
}
queue_children_lem d k (c ∷ cs) queue seen occurs = elim (Bool-cases (contains seen c)) [
  | inl old ↦ rw old (
      Queued-skip d k c cs queue seen (queue_children k cs queue seen) old
        (queue_children_lem d k cs queue seen (λ a m. occurs a (inr m))))
  | inr new ↦ rw new (
      Queued-push d k c cs queue seen (queue_children k cs (queue ++ (c, k + 1) ∷ []) (c ∷ seen))
        (unseen-lt d seen c new (occurs c (inl refl)))
        (queue_children_lem d k cs (queue ++ (c, k + 1) ∷ []) (c ∷ seen) (λ a m. occurs a (inr m))))
]
