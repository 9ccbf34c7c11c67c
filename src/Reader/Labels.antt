-- ===== src/Reader/Labels.antt =====
-- reader.py, `target.split("->", 1)`: the label that targets.py prints is taken apart again.
use Prim.Native.Char.{Char, code}
use Prim.Native.String.{◌∷◌, ◌++◌ as str_append}
use text.Mathlib.TextEquality.{Char-path}
use text.Mathlib.TextLemmas.{nil-append, cons-append}
use distributed_tracing_plat.Prelude.{
  ◌≡◌, refl, sym, ap, ◌⊎◌, inl, inr, String, Option, none, some, arith,
}
use distributed_tracing_plat.Targets.{TargetKind, service, edge, target_key, label}
use distributed_tracing_plat.Detectors.{Detection}
use distributed_tracing_plat.Detectors.Loops.{Returns, Returns->>=, some_inj}
use distributed_tracing_plat.Writer.{to_datetime, detection_row}
use distributed_tracing_plat.Reader.{after_arrow, split_step, split_arrow, endpoints, detection_of}

abbrev dash : Char
dash = Prim.Native.Char.char 45 tt

abbrev greater : Char
greater = Prim.Native.Char.char 62 tt

-- The rest of a label, behind the caller.
abbrev pub arrow : String → String
arrow callee = str_append "->" callee

arrow_lem : (callee : String) → arrow callee ≡ dash ∷ greater ∷ callee
arrow_lem callee = rw (cons-append, cons-append, nil-append)

split_step-eq-none :
    (c : Char) (a : Option String) (rest : Option (String × String))
    → split_step c a rest ≡ none
    → (a ≡ none) × (rest ≡ none)
split_step-eq-none c (some callee) rest h = absurd (ground arith)
split_step-eq-none c none none h = (refl, refl)
split_step-eq-none c none (some (a, b)) h = absurd (ground arith)

-- No arrow begins with the character where a text without one is continued by an arrow.
after_arrow-append :
    (c : Char) (s callee : String)
    → after_arrow c s ≡ none
    → after_arrow c (str_append s (arrow callee)) ≡ none
after_arrow-append c String.[] callee h = rw (nil-append, arrow_lem) (ground arith)
after_arrow-append c (d ∷ s) callee h = rw cons-append (ground arith)

-- A caller without an arrow is taken from the label, and so is the callee.
pub split_arrow-append :
    (caller callee : String)
    → split_arrow caller ≡ none
    → split_arrow (str_append caller (arrow callee)) ≡ some (caller, callee)
unfolding split_arrow
split_arrow-append String.[] callee h = rw (nil-append, arrow_lem)
split_arrow-append (c ∷ s) callee h =
    let (a, r) = split_step-eq-none c (after_arrow c s) (split_arrow s) h in
    rw cons-append (rw (after_arrow-append c s callee a, split_arrow-append s callee r))

after_arrow_inv :
    (c : Char) (s callee : String) → after_arrow c s ≡ some callee → c ∷ s ≡ dash ∷ greater ∷ callee
after_arrow_inv c String.[] callee h = absurd (ground arith)
after_arrow_inv c (d ∷ s) callee h =
    let p : (code c ≡ 45) × (code d ≡ 62) × (s ≡ callee) = ground arith in
    let e = Char-path c dash p.0 in let g = Char-path d greater p.1 in let q = p.2 in cc

split_step-eq-some :
    (c : Char) (a : Option String) (rest : Option (String × String)) (caller callee : String)
    → split_step c a rest ≡ some (caller, callee)
    → ((a ≡ some callee) × (caller ≡ ""))
      ⊎ ((s : String) × (rest ≡ some (s, callee)) × (caller ≡ c ∷ s))
split_step-eq-some c (some b) rest caller callee h = inl (cc, cc)
split_step-eq-some c none none caller callee h = absurd (ground arith)
split_step-eq-some c none (some (s, b)) caller callee h = inr (s, cc, cc)

-- What is split is put together again.
pub append-split_arrow :
    (target caller callee : String)
    → split_arrow target ≡ some (caller, callee)
    → str_append caller (arrow callee) ≡ target
unfolding split_arrow
append-split_arrow String.[] caller callee h = absurd (ground arith)
append-split_arrow (c ∷ s) caller callee h =
    elim (split_step-eq-some c (after_arrow c s) (split_arrow s) caller callee h) [
      | inl (a, q) ↦ rw (q, nil-append, arrow_lem) (sym (after_arrow_inv c s callee a))
      | inr (t, r, q) ↦ rw (q, cons-append) (ap (λ x. c ∷ x) (append-split_arrow s t callee r))
    ]

-- A target whose label can be taken apart: a service without a caller, or an edge whose caller's name
-- has no arrow.
abbrev pub Apart : TargetKind → String → Type 0
Apart service caller = caller ≡ ""
Apart edge caller = split_arrow caller ≡ none

abbrev pub IsReadable : {F : Type 0} → Detection F → Type 0
IsReadable d = Apart d.target.kind d.target.caller × (to_datetime d.window_start ≡ d.window_start)

abbrev pub label_of : TargetKind → String × String → String
label_of kind ends = label (target_key kind ends.0 ends.1)

endpoints-label_of :
    (kind : TargetKind) (caller callee : String)
    → Apart kind caller
    → endpoints kind (label_of kind (caller, callee)) ≡ some (caller, callee)
unfolding endpoints
endpoints-label_of service caller callee h = rw h
endpoints-label_of edge caller callee h = split_arrow-append caller callee h

pub label_of-endpoints :
    (kind : TargetKind) (target : String) (ends : String × String)
    → endpoints kind target ≡ some ends
    → label_of kind ends ≡ target
unfolding endpoints
label_of-endpoints service target ends h = sym (ap (λ (e : String × String). e.1) (some_inj _ _ h))
label_of-endpoints edge target ends h = append-split_arrow target ends.0 ends.1 h

module _ {F : Type 0} where
  pub detection_of-detection_row :
      (d : Detection F) → IsReadable d → detection_of (detection_row d) ≡ some d
  unfolding detection_of detection_row
  detection_of-detection_row d h =
      rw (endpoints-label_of d.target.kind d.target.caller d.target.callee h.0, h.1)

split_step-Returns :
    (c : Char) (a : Option String) (rest : Option (String × String))
    → Returns rest
    → Returns (split_step c a rest)
split_step-Returns c (some callee) rest h = (("", callee), refl)
split_step-Returns c none none h = absurd (ground arith)
split_step-Returns c none (some (caller, callee)) h = ((c ∷ caller, callee), refl)

-- The label of an edge has an arrow.
split_arrow-Returns :
    (caller callee : String) → Returns (split_arrow (str_append caller (arrow callee)))
unfolding split_arrow
split_arrow-Returns String.[] callee = rw (nil-append, arrow_lem) (("", callee), refl)
split_arrow-Returns (c ∷ s) callee = rw cons-append (
    split_step-Returns c (after_arrow c (str_append s (arrow callee)))
      (split_arrow (str_append s (arrow callee))) (split_arrow-Returns s callee))

endpoints-Returns :
    (kind : TargetKind) (ends : String × String) → Returns (endpoints kind (label_of kind ends))
unfolding endpoints
endpoints-Returns service ends = (_, refl)
endpoints-Returns edge ends = split_arrow-Returns ends.0 ends.1

-- Every row that the writer makes of a detection can be read.
pub detection_row-Returns :
    {F : Type 0} (d : Detection F) → Returns (detection_of (detection_row d))
unfolding detection_of detection_row
detection_row-Returns d =
    Returns->>= _ _ (endpoints-Returns d.target.kind (d.target.caller, d.target.callee))
      (λ ends. (_, refl))
