-- ===== src/Semantic/Operands.antt =====
-- The operands of `type_usual_arithmetic` of src/semantic/semantic.c, read through their pointers.
use cc.Base.{ℕ, ◌≡◌, ◌≢◌, refl, arith}
use cc.Base.{Bool, true, false, inl, inr}
use cc.Base.{Option, none, some, List, Option-cases}
use cc.Semantic.Kind.{TypeKind, void_type, is_integer_kind}
use cc.Semantic.Kind.{same_kind, basic_layout, is_record_kind}
use cc.Semantic.Store.{CType}
use cc.Semantic.Predicates.{type_is_signed, integer_rank}
use cc.Semantic.Predicates.{compatible_records, compatible_switch}
use cc.Semantic.Arithmetic.{operand}
use cc.Semantic.Valid.{IsType}
use cc.Semantic.Promotion.{is_promoted}
use cc.Semantic.Rule.{bytes_of, operand_of}

pub switch_integer :
    (test : ℕ → ℕ → Option Bool) (store : List CType) (p q : ℕ) (l r : CType) (k : TypeKind)
    → is_integer_kind k ≡ true
    → compatible_switch test store p q l r k ≡ some true
unfolding compatible_switch is_integer_kind
switch_integer test store p q l r void_type h = cc
switch_integer test store p q l r _ h = ground arith

-- On two records of promoted kinds the test for compatible types compares the kinds.
pub compatible_promoted :
    (test : ℕ → ℕ → Option Bool) (store : List CType) (p q : ℕ) (l r : CType)
    → is_promoted l.kind ≡ true
    → is_promoted r.kind ≡ true
    → compatible_records test store p q (some l) (some r) ≡ some (same_kind l.kind r.kind)
unfolding compatible_records
compatible_promoted test store p q l r hl hr =
    ground (arith, switch_integer test store p q l r l.kind)

pub bytes_found : (k : TypeKind) (s a : ℕ) → basic_layout k ≡ some (s, a) → bytes_of k ≡ s
unfolding bytes_of
bytes_found k s a h = rw (h, bytes_of) refl

pub integer_plain : (k : TypeKind) → is_integer_kind k ≡ true → is_record_kind k ≡ false
unfolding is_integer_kind is_record_kind
integer_plain void_type h = cc
integer_plain _ h = ground arith

pub integer_has_layout : (k : TypeKind) → is_integer_kind k ≡ true → basic_layout k ≢ none
unfolding is_integer_kind basic_layout
integer_has_layout void_type h = λ e. cc
integer_has_layout _ h = λ e. cc

pub integer_layout :
    (k : TypeKind)
    → is_integer_kind k ≡ true
    → (s : ℕ) × (a : ℕ) × (basic_layout k ≡ some (s, a)) × (is_record_kind k ≡ false)
integer_layout k h = elim (Option-cases (basic_layout k)) [
  | inl e ↦ absurd (integer_has_layout k h e)
  | inr ((s, a), e) ↦ (s, a, e, integer_plain k h)
]

pub operand_found :
    (p : ℕ) (t : CType)
    → IsType p t
    → is_integer_kind t.kind ≡ true
    → operand p (some t) ≡ some (operand_of t.kind p)
unfolding operand operand_of type_is_signed integer_rank
operand_found p t v h =
    let (s, a, layout, plain) = integer_layout t.kind h in
    ground (arith, v.sized s a plain layout, bytes_found t.kind s a layout)
