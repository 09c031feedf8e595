-- ===== src/Semantic/Rule.antt =====
-- The choice of `type_usual_arithmetic` of src/semantic/semantic.c, on kinds, against the standard.
use cc.Base.{ℕ, ◌≡◌, refl, arith}
use cc.Base.{Bool, true, false, not, ◌&&◌, ◌||◌, if◌then◌else◌, ◌==◌}
use cc.Base.{none, some}
use cc.Semantic.Kind.{TypeKind, float, double, is_integer_kind, rank_of_kind}
use cc.Semantic.Kind.{same_kind, basic_layout, signed_switch}
use cc.Semantic.Kind.{all_kinds, all_kinds_sound}
use cc.Semantic.Predicates.{is_floating_kind}
use cc.Semantic.Arithmetic.{Operand, pick}
use cc.Semantic.Standard.{promoted, is_unsigned, value_bits, unsigned_of, mixed, standard_integers}
use cc.Semantic.Standard.{standard_usual, is_exception}
use cc.Semantic.Promotion.{is_promoted}

unfoldable pub bytes_of : TypeKind → ℕ
bytes_of k = elim (basic_layout k) [ none ↦ 0 | some (size, alignment) ↦ size ]

-- An operand by its kind.
unfoldable pub operand_of : TypeKind → ℕ → Operand
operand_of k p = record {
  at = p;
  is_unsigned = not (is_integer_kind k && signed_switch k);
  rank = rank_of_kind k;
  bytes = bytes_of k;
}

-- The kind that `pick` chooses.
unfoldable pub picked : TypeKind → TypeKind → TypeKind
unfolding operand_of bytes_of pick
picked l r = if pick (operand_of l 1) (operand_of r 0) == 1 then l else r

-- The code's rule and the standard's on promoted kinds.
unfoldable pub rule_holds : TypeKind → TypeKind → Bool
rule_holds l r =
    not (is_promoted l && is_promoted r)
    || (if is_exception l r
        then not (same_kind (if same_kind l r then l else picked l r) (standard_integers l r))
        else same_kind (if same_kind l r then l else picked l r) (standard_integers l r))

pub rule_table : all_kinds (λ l. all_kinds (λ r. rule_holds l r)) ≡ true
unfolding all_kinds rule_holds picked same_kind is_exception standard_integers mixed unsigned_of
    value_bits is_unsigned rank_of_kind is_integer_kind signed_switch basic_layout
rule_table = refl

pub rule : (l r : TypeKind) → rule_holds l r ≡ true
rule l r =
    all_kinds_sound (rule_holds l) (all_kinds_sound (λ k. all_kinds (rule_holds k)) rule_table l) r

pub pick_at :
    (a b : Operand)
    → pick a b ≡ (if pick (record a { at = 1 }) (record b { at = 0 }) == 1 then a.at else b.at)
unfolding pick
pick_at a b = ground arith

-- With a floating operand the standard's rule gives that type, and there is no exception.
pub floating_rule : TypeKind → TypeKind → Bool
floating_rule l r =
    if same_kind l double || same_kind r double
    then same_kind double (standard_usual l r) && not (is_exception (promoted l) (promoted r))
    else if same_kind l float || same_kind r float
    then same_kind float (standard_usual l r) && not (is_exception (promoted l) (promoted r))
    else not (is_integer_kind l || is_floating_kind l)
      || not (is_integer_kind r || is_floating_kind r)
      || (is_integer_kind l && is_integer_kind r)

pub floating_table : all_kinds (λ l. all_kinds (λ r. floating_rule l r)) ≡ true
unfolding all_kinds floating_rule standard_usual same_kind is_exception standard_integers mixed
    unsigned_of value_bits is_unsigned rank_of_kind is_integer_kind is_floating_kind
floating_table = refl

pub floating : (l r : TypeKind) → floating_rule l r ≡ true
floating l r =
    all_kinds_sound (floating_rule l)
      (all_kinds_sound (λ k. all_kinds (floating_rule k)) floating_table l) r

module _ (l r : TypeKind) where
  pub floating_double :
      (same_kind l double || same_kind r double) ≡ true
      → (same_kind double (standard_usual l r) ≡ true)
        × (is_exception (promoted l) (promoted r) ≡ false)
  unfolding floating_rule
  floating_double h = ground (arith, floating l r)

  pub floating_float :
      (same_kind l double || same_kind r double) ≡ false
      → (same_kind l float || same_kind r float) ≡ true
      → (same_kind float (standard_usual l r) ≡ true)
        × (is_exception (promoted l) (promoted r) ≡ false)
  unfolding floating_rule
  floating_float h h' = ground (arith, floating l r)

  pub both_integers :
      (same_kind l double || same_kind r double) ≡ false
      → (same_kind l float || same_kind r float) ≡ false
      → (is_integer_kind l || is_floating_kind l) ≡ true
      → (is_integer_kind r || is_floating_kind r) ≡ true
      → (is_integer_kind l ≡ true) × (is_integer_kind r ≡ true)
  unfolding floating_rule
  both_integers h h' hl hr = ground (arith, floating l r)
