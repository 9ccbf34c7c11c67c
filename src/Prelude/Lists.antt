-- ===== src/Prelude/Lists.antt =====
-- Lists measured by native numbers, filtered by Boolean tests, and searched by `==`.
use Prim.Native.Nat.{ℕ, zero, suc, ◌+◌, ◌≤◌}
use mathlib.Core.Path.{◌≡◌, refl, ap}
use mathlib.Core.Logic.{◌↔◌, ◌⊎◌, inl, inr, ⊎_elim}
use mathlib.Core.Bool.{Bool, true, false, ◌||◌}
use mathlib.Core.List.{List, [], ◌∷◌, ◌++◌, map}
use native.Mathlib.Omega.{arith}
use distributed_tracing_plat.Prelude.Tests.{Eq, ◌==◌, if◌then◌else◌, Bool-cases}

module _ {ℓ} {A : Type ℓ} where
  abbrev pub length : List A → ℕ
  length [] = 0
  length (x ∷ xs) = suc (length xs)

  -- `[x for x in xs if p x]`
  unfoldable pub filter : (A → Bool) → List A → List A
  filter p [] = []
  filter p (x ∷ xs) = let rest = filter p xs in if p x then x ∷ rest else rest

  -- Every element satisfies P; a proof is a tuple of the proofs.
  abbrev pub All {κ} : (A → Type κ) → List A → Type κ
  All P [] = Unit
  All P (x ∷ xs) = P x × All P xs

  -- Some element satisfies P.
  abbrev pub Any : (A → Type 0) → List A → Type 0
  Any P [] = ⊥
  Any P (x ∷ xs) = P x ⊎ Any P xs

  -- `xs[:n]`
  abbrev pub take : ℕ → List A → List A
  take zero xs = []
  take (suc n) [] = []
  take (suc n) (x ∷ xs) = x ∷ take n xs

  -- `xs[n:]`
  abbrev pub drop : ℕ → List A → List A
  drop zero xs = xs
  drop (suc n) [] = []
  drop (suc n) (x ∷ xs) = drop n xs

  pub length-append : (xs ys : List A) → length (xs ++ ys) ≡ length xs + length ys
  length-append [] ys = omega arith
  length-append (x ∷ xs) ys = omega (arith, length-append xs ys)

  -- The sum of a number over a list.
  unfoldable pub sum_of : (A → ℕ) → List A → ℕ
  sum_of f [] = 0
  sum_of f (x ∷ xs) = f x + sum_of f xs

  pub filter-append :
      (p : A → Bool) (xs ys : List A) → filter p (xs ++ ys) ≡ filter p xs ++ filter p ys
  unfolding filter
  filter-append p [] ys = refl
  filter-append p (x ∷ xs) ys = ground (arith, filter-append p xs ys)

  pub length-filter-le : (p : A → Bool) (xs : List A) → length (filter p xs) ≤ length xs
  unfolding filter
  length-filter-le p [] = omega arith
  length-filter-le p (x ∷ xs) = ground (arith, length-filter-le p xs)

  pub All-append {κ} : (P : A → Type κ) (xs ys : List A) → All P xs → All P ys → All P (xs ++ ys)
  All-append P [] ys hx hy = hy
  All-append P (x ∷ xs) ys hx hy = (hx.0, All-append P xs ys hx.1 hy)

  pub All-impl {κ μ} :
      (P : A → Type κ) (Q : A → Type μ)
      → ((a : A) → P a → Q a)
      → (xs : List A) → All P xs
      → All Q xs
  All-impl P Q f [] h = tt
  All-impl P Q f (x ∷ xs) h = (f x h.0, All-impl P Q f xs h.1)

  pub All-intro {κ} : {P : A → Type κ} (xs : List A) → ((x : A) → P x) → All P xs
  All-intro [] h = tt
  All-intro (x ∷ xs) h = (h x, All-intro xs h)

  pub All-filter {κ} :
      (P : A → Type κ) (p : A → Bool) (xs : List A) → All P xs → All P (filter p xs)
  unfolding filter
  All-filter P p [] h = tt
  All-filter P p (x ∷ xs) h = elim (Bool-cases (p x)) [
    | inl e ↦ rw e (h.0, All-filter P p xs h.1)
    | inr e ↦ rw e (All-filter P p xs h.1)
  ]

module _ {A : Type 0} where
  -- Membership by recursion.
  abbrev pub Elem : A → List A → Type 0
  Elem a xs = Any (λ x. x ≡ a) xs

  pub Elem-append : (a : A) (xs ys : List A) → Elem a (xs ++ ys) ↔ (Elem a xs ⊎ Elem a ys)
  Elem-append a [] ys = (inr, ⊎_elim (λ h. absurd h) (λ h. h))
  Elem-append a (x ∷ xs) ys = ground (arith, Elem-append a xs ys)

  pub Elem-if :
      (h : Bool) (x a b : A) (rest : List A)
      → Elem x ((if h then b else a) ∷ rest)
      → Elem x (a ∷ b ∷ rest)
  Elem-if true x a b rest m = inr m
  Elem-if false x a b rest m = ⊎_elim inl (λ i. inr (inr i)) m

  pub Elem-filter :
      (p : A → Bool) (a : A) (xs : List A) → Elem a (filter p xs) ↔ (Elem a xs × (p a ≡ true))
  unfolding filter
  Elem-filter p a [] = (λ h. absurd h, λ h. absurd h.0)
  Elem-filter p a (x ∷ xs) = elim (Bool-cases (p x)) [
    | inl e ↦ rw e (
      ⊎_elim (λ q. (inl q, rw q at e)) (λ h. let i = (Elem-filter p a xs).0 h in (inr i.0, i.1)),
      λ h. ⊎_elim inl (λ i. inr ((Elem-filter p a xs).1 (i, h.1))) h.0,
    )
    | inr e ↦ rw e (
      λ h. let i = (Elem-filter p a xs).0 h in (inr i.0, i.1),
      λ h. ⊎_elim (λ q. cc (ap p q)) (λ i. (Elem-filter p a xs).1 (i, h.1)) h.0,
    )
  ]

  pub All-Elem {κ} : (P : A → Type κ) (a : A) (xs : List A) → All P xs → Elem a xs → P a
  All-Elem P a [] h m = absurd m
  All-Elem P a (x ∷ xs) h m = elim m [ inl e ↦ rw e at (h.0) | inr i ↦ All-Elem P a xs h.1 i ]

  pub All-of_Elem {κ} : (P : A → Type κ) (xs : List A) → ((a : A) → Elem a xs → P a) → All P xs
  All-of_Elem P [] h = tt
  All-of_Elem P (x ∷ xs) h = (h x (inl refl), All-of_Elem P xs (λ a m. h a (inr m)))

module _ {A B : Type 0} where
  pub length-map : (f : A → B) (xs : List A) → length (map f xs) ≡ length xs
  length-map f [] = refl
  length-map f (x ∷ xs) = ap suc (length-map f xs)

  pub Elem-map : (f : A → B) (a : A) (xs : List A) → Elem a xs → Elem (f a) (map f xs)
  Elem-map f a [] m = absurd m
  Elem-map f a (x ∷ xs) m = ⊎_elim (λ e. inl (ap f e)) (λ i. inr (Elem-map f a xs i)) m

  pub Elem-map_inv :
      (f : A → B) (b : B) (xs : List A) → Elem b (map f xs) → (a : A) × Elem a xs × (f a ≡ b)
  Elem-map_inv f b [] m = absurd m
  Elem-map_inv f b (x ∷ xs) m = elim m [
    | inl e ↦ (x, inl refl, e)
    | inr i ↦ let (a, j, e) = Elem-map_inv f b xs i in (a, inr j, e)
  ]

module _ {A : Type 0} ⦃e : Eq A⦄ where
  -- `a in xs`
  unfoldable pub contains : List A → A → Bool
  contains [] a = false
  contains (x ∷ xs) a = x == a || contains xs a

  pub contains_iff : (xs : List A) (a : A) → (contains xs a ≡ true) ↔ Elem a xs
  unfolding contains
  contains_iff [] a = (λ h. cc, λ h. absurd h)
  contains_iff (x ∷ xs) a = ground (arith, contains_iff xs a, e.beq_iff x a)

  pub contains-append :
      (xs ys : List A) (a : A) → contains (xs ++ ys) a ≡ (contains xs a || contains ys a)
  unfolding contains
  contains-append [] ys a = refl
  contains-append (x ∷ xs) ys a = ground (arith, contains-append xs ys a)

  -- No element stands twice.
  abbrev pub Distinct : List A → Type 0
  Distinct [] = Unit
  Distinct (x ∷ xs) = (contains xs x ≡ false) × Distinct xs

module _ {A : Type 0} where
  pub nil_of_no_Elem : (xs : List A) → ((a : A) → ¬ Elem a xs) → xs ≡ []
  nil_of_no_Elem [] h = refl
  nil_of_no_Elem (x ∷ xs) h = absurd (h x (inl refl))
