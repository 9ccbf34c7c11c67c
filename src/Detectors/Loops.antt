-- ===== src/Detectors/Loops.antt =====
-- The loops of detectors.py: a loop returns if no step of it raises, and what it finds is what its
-- steps find.
use distributed_tracing_plat.Prelude.{
  Bool, true, false, ◌≡◌, ◌↔◌, ◌⊎◌, inl, inr, refl, sym, ap, subst, ◌∙◌, ⊎_elim, Option, none, some,
  List, [], ◌∷◌, Elem, All, ◌>>=◌, if◌then◌else◌, arith,
}
use distributed_tracing_plat.Prelude.Floats.{Floats}
use distributed_tracing_plat.Detectors.{Detection, append_found, append_if, collect}

-- A step or a loop that does not raise.
abbrev pub Returns : {A : Type 0} → Option A → Type 0
Returns {A} o = (a : A) × (o ≡ some a)

pub Returns->>= :
    {A B : Type 0} (o : Option A) (next : A → Option B)
    → Returns o
    → ((a : A) → Returns (next a))
    → Returns (o >>= next)
Returns->>= none next (a, h) k = absurd (ground arith)
Returns->>= (some b) next h k = k b

-- Inversion of a step that returns.
pub >>=-eq-some :
    {A B : Type 0} (o : Option A) (next : A → Option B) (b : B)
    → (o >>= next) ≡ some b
    → (a : A) × (o ≡ some a) × (next a ≡ some b)
>>=-eq-some none next b h = absurd (ground arith)
>>=-eq-some (some a) next b h = (a, refl, h)

pub some_inj : {A : Type 0} (a b : A) → some a ≡ some b → a ≡ b
some_inj a b h = cc

-- A guard that leaves nothing found.
pub guard-eq-some :
    {A : Type 0} (c : Bool) (x : Option (Option A)) (d : A)
    → (if c then x else some none) ≡ some (some d)
    → (c ≡ true) × (x ≡ some (some d))
guard-eq-some true x d h = (refl, h)
guard-eq-some false x d h = absurd (ground arith)

pub skip-eq-some :
    {A : Type 0} (c : Bool) (x : Option (Option A)) (d : A)
    → (if c then some none else x) ≡ some (some d)
    → (c ≡ false) × (x ≡ some (some d))
skip-eq-some false x d h = (refl, h)
skip-eq-some true x d h = absurd (ground arith)

pub Returns-guard :
    {A : Type 0} (c : Bool) (x : Option (Option A))
    → (c ≡ true → Returns x)
    → Returns (if c then x else some none)
Returns-guard true x h = h refl
Returns-guard false x h = (none, refl)

pub append_if-eq-some :
    {F : Type 0} ⦃f : Floats F⦄ (c : Bool) (a d : Detection F)
    → append_if c a ≡ some d
    → (c ≡ true) × (a ≡ d)
append_if-eq-some true a d h = (refl, some_inj a d h)
append_if-eq-some false a d h = absurd (ground arith)

Elem-append_found :
    {F : Type 0} ⦃f : Floats F⦄ (found : Option (Detection F)) (rest : List (Detection F))
    (d : Detection F)
    → Elem d (append_found found rest) ↔ ((found ≡ some d) ⊎ Elem d rest)
Elem-append_found none rest d = ground arith
Elem-append_found (some c) rest d =
    (λ m. ⊎_elim (λ q. inl (ap some q)) inr m, λ m. ⊎_elim (λ q. inl (some_inj c d q)) inr m)

module _ {F A : Type 0} ⦃f : Floats F⦄ (body : A → Option (Option (Detection F))) where
  pub Returns-collect : (xs : List A) → All (λ x. Returns (body x)) xs → Returns (collect body xs)
  unfolding collect
  Returns-collect [] h = ([], refl)
  Returns-collect (x ∷ xs) h = Returns->>= (body x) _ h.0 (λ found.
      Returns->>= (collect body xs) _ (Returns-collect xs h.1)
        (λ rest. (append_found found rest, refl)))

  pub Elem-collect :
      (xs : List A) (ds : List (Detection F)) (d : Detection F)
      → collect body xs ≡ some ds
      → Elem d ds ↔ ((x : A) × Elem x xs × (body x ≡ some (some d)))
  unfolding collect
  Elem-collect [] ds d h =
      (λ m. absurd (subst (Elem d) (sym (some_inj [] ds h)) m), λ m. absurd m.1)
  Elem-collect (x ∷ xs) ds d h =
      let (found, e, h1) = >>=-eq-some (body x) _ ds h in
      let (rest, e', h2) = >>=-eq-some (collect body xs) _ ds h1 in
      let same : append_found found rest ≡ ds = some_inj _ ds h2 in
      let later = Elem-collect xs rest d e' in
      (
        λ m.
            ⊎_elim (λ q. (x, inl refl, e ∙ ap some q))
              (λ i. let (y, j, r) = later.0 i in (y, inr j, r))
              ((Elem-append_found found rest d).0 (subst (Elem d) (sym same) m)),
        λ (y, m, r). subst (Elem d) same (
            (Elem-append_found found rest d).1 (
              ⊎_elim (λ p. inl (some_inj found (some d) (sym e ∙ ap body p ∙ r)))
                (λ j. inr (later.1 (y, j, r))) m)),
      )
