-- ===== src/Evaluation/Queries/Entries.antt =====
-- eval.py, `_fetch_detected_offsets`: what the loop over the rows keeps of a service.
use distributed_tracing_plat.Prelude.{
  ℕ, ◌≤◌, true, false, String, string_eq, ◌==◌, ◌≡◌, ◌⊎◌, inl, inr, ⊎_elim, refl, sym, subst, ap,
  ◌∙◌, Option, none, some, List, [], ◌∷◌, Elem, lookup, insert, lookup-insert, ltb, Bool-cases,
  if◌then◌else◌, arith,
}
use text.Mathlib.TextEquality.{eq_iff}
use distributed_tracing_plat.Prelude.Int.{ℤ}
use distributed_tracing_plat.Detectors.Loops.{some_inj}
use distributed_tracing_plat.Storage.{OffsetRow}
use distributed_tracing_plat.Evaluation.Queries.{is_surer, best_offsets}

pub none-ne-some : {A : Type 0} {a : A} → none ≡ some a → ⊥
none-ne-some e = cc

ltb-false : (a b : ℕ) → ltb a b ≡ false → b ≤ a
ltb-false a b h = ground arith

ltb-true : (a b : ℕ) → ltb a b ≡ true → a ≤ b
ltb-true a b h = ground arith

module _ (name : String) where
  -- What the rows make of the entry of a service: its most confident offset, of the rows and of the one
  -- before.
  abbrev pub IsBest : List OffsetRow → Option (ℤ × ℕ) → Option (ℤ × ℕ) → Type 0
  IsBest rows before none =
      (before ≡ none) × ((s : OffsetRow) → Elem s rows → ¬ (s.service_name ≡ name))
  IsBest rows before (some p) =
      ((before ≡ some p)
        ⊎ ((r : OffsetRow) × Elem r rows
            × (r.service_name ≡ name)
            × ((r.offset_ns, r.confidence) ≡ p)))
      × ((s : OffsetRow) → Elem s rows → s.service_name ≡ name → s.confidence ≤ p.1)
      × ((q : ℤ × ℕ) → before ≡ some q → q.1 ≤ p.1)

  IsBest-nil : (before : Option (ℤ × ℕ)) → IsBest [] before before
  IsBest-nil none = (refl, λ s m. absurd m)
  IsBest-nil (some p) = (
    inl refl,
    λ s m. absurd m,
    λ q e. subst (λ (z : ℤ × ℕ). z.1 ≤ p.1) (some_inj p q e) (omega arith),
  )

  of_one :
      (x : OffsetRow) (rows : List OffsetRow) (b c : ℤ × ℕ)
      → ((r : OffsetRow) × Elem r (x ∷ [])
          × (r.service_name ≡ name)
          × ((r.offset_ns, r.confidence) ≡ b))
      → b ≡ c
      → (r : OffsetRow) × Elem r (x ∷ rows)
        × (r.service_name ≡ name)
        × ((r.offset_ns, r.confidence) ≡ c)
  of_one x rows b c (r, m, same, at) e = (r, ⊎_elim inl (λ no. absurd no) m, same, at ∙ e)

  IsBest-cons :
      (x : OffsetRow) (rows : List OffsetRow) (a b c : Option (ℤ × ℕ))
      → IsBest (x ∷ []) a b
      → IsBest rows b c
      → IsBest (x ∷ rows) a c
  IsBest-cons x rows a none none p q = (p.0, λ s. ⊎_elim (λ e. p.1 s (inl e)) (q.1 s))
  IsBest-cons x rows a (some b) none p q = absurd (none-ne-some (sym q.0))
  IsBest-cons x rows a none (some c) p q = (
    ⊎_elim (λ e. absurd (none-ne-some e)) (λ r. inr (r.0, inr r.1, r.2, r.3)) q.0,
    λ s. ⊎_elim (λ e same. absurd (p.1 s (inl e) same)) (q.1 s),
    λ z e. absurd (none-ne-some (sym p.0 ∙ e)),
  )
  IsBest-cons x rows a (some b) (some c) p q =
      let up : b.1 ≤ c.1 = q.2 b refl in
      (
        ⊎_elim
            (λ e. ⊎_elim (λ d. inl (d ∙ e)) (λ r. inr (of_one x rows b c r (some_inj b c e))) p.0)
            (λ r. inr (r.0, inr r.1, r.2, r.3)) q.0,
        λ s. ⊎_elim (λ e same. omega (arith, up, p.1 s (inl e) same)) (q.1 s),
        λ z e. omega (arith, up, p.2 z e),
      )

  IsBest-kept :
      (x : OffsetRow) (before : Option (ℤ × ℕ))
      → (x.service_name ≡ name → is_surer before x.confidence ≡ false)
      → IsBest (x ∷ []) before before
  IsBest-kept x none h = (
    refl,
    λ s.
        ⊎_elim (λ e same. cc (h (ap (λ (z : OffsetRow). z.service_name) e ∙ same)))
          (λ no. absurd no),
  )
  IsBest-kept x (some p) h = (
    inl refl,
    λ s.
        ⊎_elim
          (λ e same.
            subst (λ (z : OffsetRow). z.confidence ≤ p.1) e
              (ltb-false p.1 x.confidence (h (ap (λ (z : OffsetRow). z.service_name) e ∙ same))))
          (λ no. absurd no),
    (IsBest-nil (some p)).2,
  )

  of_self :
      (x s : OffsetRow) → Elem s (x ∷ []) → s.service_name ≡ name → s.confidence ≤ x.confidence
  of_self x s m same =
      ⊎_elim (λ e. subst (λ (z : OffsetRow). z.confidence ≤ x.confidence) e (omega arith))
        (λ no. absurd no) m

  IsBest-taken :
      (x : OffsetRow) (before : Option (ℤ × ℕ))
      → x.service_name ≡ name
      → is_surer before x.confidence ≡ true
      → IsBest (x ∷ []) before (some (x.offset_ns, x.confidence))
  IsBest-taken x none e h = (inr (x, inl refl, e, refl), of_self x, λ q d. absurd (none-ne-some d))
  IsBest-taken x (some p) e h = (
    inr (x, inl refl, e, refl),
    of_self x,
    λ q d. subst (λ (z : ℤ × ℕ). z.1 ≤ x.confidence) (some_inj p q d) (ltb-true p.1 x.confidence h),
  )

  step :
      (x : OffsetRow) (out : List (String × (ℤ × ℕ)))
      → is_surer (lookup x.service_name out) x.confidence ≡ true
      → IsBest
          (x ∷ [])
          (lookup name out)
          (if x.service_name == name then some (x.offset_ns, x.confidence) else lookup name out)
  step x out surer = elim (Bool-cases (x.service_name == name)) [
    | inl e ↦ rw e (
        let same : x.service_name ≡ name = (eq_iff x.service_name name).0 e in
        IsBest-taken x (lookup name out) same
          (subst (λ n. is_surer (lookup n out) x.confidence ≡ true) same surer))
    | inr ne ↦
        rw ne (IsBest-kept x (lookup name out) (λ e. cc ((eq_iff x.service_name name).1 e, ne)))
  ]

  pub best_offsets-IsBest :
      (rows : List OffsetRow) (out : List (String × (ℤ × ℕ)))
      → IsBest rows (lookup name out) (lookup name (best_offsets out rows))
  unfolding best_offsets
  best_offsets-IsBest [] out = IsBest-nil (lookup name out)
  best_offsets-IsBest (x ∷ rows) out =
      elim (Bool-cases (is_surer (lookup x.service_name out) x.confidence)) [
        | inl surer ↦ rw surer (
            let taken : List (String × (ℤ × ℕ)) =
              insert x.service_name (x.offset_ns, x.confidence) out in
            IsBest-cons x rows (lookup name out) (lookup name taken)
              (lookup name (best_offsets taken rows))
              (rw (lookup-insert x.service_name name (x.offset_ns, x.confidence) out)
                (step x out surer))
              (best_offsets-IsBest rows (insert x.service_name (x.offset_ns, x.confidence) out)))
        | inr weaker ↦ rw weaker (
            IsBest-cons x rows (lookup name out) (lookup name out)
              (lookup name (best_offsets out rows))
              (IsBest-kept x (lookup name out)
                (λ e. subst (λ n. is_surer (lookup n out) x.confidence ≡ false) e weaker))
              (best_offsets-IsBest rows out))
      ]
