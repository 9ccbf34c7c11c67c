-- ===== src/Clockskew/Violations.antt =====
-- clockskew.py, `detect_violations`: exactly the calls whose times are impossible.
use distributed_tracing_plat.Prelude.{
  ◌≤◌, ◌<◌, ◌≡◌, ◌↔◌, ◌⊎◌, ap, sym, ◌∙◌, inl, inr, ⊎_elim, Option, none, some, List, [], ◌∷◌, Elem,
  arith,
}
use distributed_tracing_plat.Detectors.Loops.{some_inj}
use distributed_tracing_plat.Reassembly.{SpanRow, resolved_parent_child_pairs}
use distributed_tracing_plat.Clockskew.{
  ViolationKind, starts_before_parent, ends_after_parent, ClockViolation, violation, add_violation,
  violations_of, detect_violations,
}

abbrev violation_at : SpanRow → SpanRow → ViolationKind → ClockViolation
violation_at parent child kind = record { parent = parent; child = child; kind = kind }

-- A child that starts before its parent, or one that does not and that ends after its parent.
abbrev pub Violates : ViolationKind → SpanRow → SpanRow → Type 0
Violates starts_before_parent parent child =
    child.start_time_unix_nano < parent.start_time_unix_nano
Violates ends_after_parent parent child =
    (parent.start_time_unix_nano ≤ child.start_time_unix_nano)
    × (parent.end_time_unix_nano < child.end_time_unix_nano)

violation_iff :
    (parent child : SpanRow) (k : ViolationKind)
    → (violation parent child ≡ some k) ↔ Violates k parent child
unfolding violation
violation_iff parent child starts_before_parent = ground arith
violation_iff parent child ends_after_parent = ground arith

violation_ext :
    (parent child : SpanRow) (k : ViolationKind) (v : ClockViolation)
    → parent ≡ v.parent
    → child ≡ v.child
    → k ≡ v.kind
    → violation_at parent child k ≡ v
violation_ext parent child k v p q r =
    ap (λ a. violation_at a child k) p
    ∙ ap (λ c. violation_at v.parent c k) q
    ∙ ap (λ j. violation_at v.parent v.child j) r

Elem-add_violation :
    (parent child : SpanRow) (o : Option ViolationKind) (rest : List ClockViolation)
    (v : ClockViolation)
    → Elem v (add_violation parent child o rest)
      ↔ (((parent ≡ v.parent) × (child ≡ v.child) × (o ≡ some v.kind)) ⊎ Elem v rest)
unfolding add_violation
Elem-add_violation parent child none rest v =
    (λ m. inr m, λ h. ⊎_elim (λ q. absurd (ground (arith, q.2))) (λ m. m) h)
Elem-add_violation parent child (some k) rest v = (
  λ m.
      ⊎_elim
        (λ q. inl (
          ap (λ (w : ClockViolation). w.parent) q,
          ap (λ (w : ClockViolation). w.child) q,
          ap (λ (w : ClockViolation). some w.kind) q,
        ))
        inr m,
  λ h. ⊎_elim (λ (p, q, r). inl (violation_ext parent child k v p q (some_inj _ _ r))) inr h,
)

Elem-violations_of :
    (pairs : List (SpanRow × SpanRow)) (v : ClockViolation)
    → Elem v (violations_of pairs)
      ↔ (Elem (v.parent, v.child) pairs × (violation v.parent v.child ≡ some v.kind))
unfolding violations_of
Elem-violations_of [] v = (λ m. absurd m, λ h. absurd h.0)
Elem-violations_of ((parent, child) ∷ pairs) v =
    let here = Elem-add_violation parent child (violation parent child) (violations_of pairs) v in
    let there = Elem-violations_of pairs v in
    (
      λ m.
          ⊎_elim
            (λ (p, q, r). (
              inl (ap (λ a. (a, child)) p ∙ ap (λ c. (v.parent, c)) q),
              ap (λ c. violation v.parent c) (sym q) ∙ ap (λ a. violation a child) (sym p) ∙ r,
            ))
            (λ n. let (i, r) = there.0 n in (inr i, r)) (here.0 m),
      λ (m, r). here.1 (
          ⊎_elim
            (λ e.
              let p : parent ≡ v.parent = ap (λ (x : SpanRow × SpanRow). x.0) e in
              let q : child ≡ v.child = ap (λ (x : SpanRow × SpanRow). x.1) e in
              inl (p, q, ap (λ a. violation a child) p ∙ ap (λ c. violation v.parent c) q ∙ r))
            (λ n. inr (there.1 (n, r))) m),
    )

-- The violations are exactly the resolved calls whose child starts before its parent, and those whose
-- child does not and ends after its parent, each with the kind that fits.
pub detect_violations_exact :
    (rows : List SpanRow) (v : ClockViolation)
    → Elem v (detect_violations rows) ↔ (
        Elem (v.parent, v.child) (resolved_parent_child_pairs rows)
        × Violates v.kind v.parent v.child)
unfolding detect_violations
detect_violations_exact rows v =
    let found = Elem-violations_of (resolved_parent_child_pairs rows) v in
    let kind = violation_iff v.parent v.child v.kind in
    (λ m. ((found.0 m).0, kind.0 (found.0 m).1), λ h. found.1 (h.0, kind.1 h.1))
