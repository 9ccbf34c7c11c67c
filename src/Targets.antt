-- ===== src/Targets.antt =====
-- analyzer/src/analyzer/targets.py: what is measured, and what is normal for it. A number that the
-- source keeps as a float is of the type `F` of `Prelude.Floats`.
use Prim.Native.String.{◌++◌ as str_append}
use distributed_tracing_plat.Prelude.{
  ℕ, String, Bool, true, false, ◌&&◌, ◌≡◌, ◌↔◌, refl, subst, Eq, ◌==◌, string_eq, arith,
}
use text.Mathlib.TextEquality.{eq_iff}

pub data TargetKind : Type 0 where
  service : TargetKind
  edge : TargetKind

-- The text that the source compares.
abbrev pub kind_text : TargetKind → String
kind_text service = "service"
kind_text edge = "edge"

abbrev pub kind_beq : TargetKind → TargetKind → Bool
kind_beq service service = true
kind_beq edge edge = true
kind_beq service edge = false
kind_beq edge service = false

pub kind_beq_iff : (a b : TargetKind) → (kind_beq a b ≡ true) ↔ (a ≡ b)
kind_beq_iff service service = (λ h. refl, λ h. refl)
kind_beq_iff edge edge = (λ h. refl, λ h. refl)
kind_beq_iff service edge = ground arith
kind_beq_iff edge service = ground arith

instance abbrev pub kind_eq : Eq TargetKind
kind_eq = record { beq = kind_beq; beq_iff = kind_beq_iff }

pub record TargetKey : Type 0 where
  pub kind : TargetKind
  pub caller : String
  pub callee : String

abbrev pub target_key : TargetKind → String → String → TargetKey
target_key kind caller callee = record { kind = kind; caller = caller; callee = callee }

-- The key of a dictionary, field by field.
abbrev pub key_beq : TargetKey → TargetKey → Bool
key_beq a b = (a.kind == b.kind) && (a.caller == b.caller) && (a.callee == b.callee)

pub key_beq_iff : (a b : TargetKey) → (key_beq a b ≡ true) ↔ (a ≡ b)
key_beq_iff a b = (
  λ h.
      ground
        (arith, kind_beq_iff a.kind b.kind, eq_iff a.caller b.caller, eq_iff a.callee b.callee),
  λ h.
      subst (λ k. key_beq a k ≡ true) h
        (ground
          (arith, kind_beq_iff a.kind a.kind, eq_iff a.caller a.caller, eq_iff a.callee a.callee)),
)

instance abbrev pub target_eq : Eq TargetKey
target_eq = record { beq = key_beq; beq_iff = key_beq_iff }

abbrev pub label : TargetKey → String
label key = elim key.kind [
  | service ↦ key.callee
  | edge ↦ str_append key.caller (str_append "->" key.callee)
]

pub record Baseline (F : Type 0) : Type 0 where
  pub target : TargetKey
  pub call_count_observed : ℕ
  pub latency_median_ms : F
  pub latency_mad_ms : F
  pub error_rate : F
  pub call_rate_median : F
  pub call_rate_mad : F
  pub window_count_observed : ℕ
  pub ready : Bool
