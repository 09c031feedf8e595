-- ===== src/Semantic/Usual.antt =====
-- `type_usual_arithmetic` of src/semantic/semantic.c against the rule of the standard.
use cc.Base.{ℕ, ◌+◌, ◌≤◌, ◌≡◌, refl, arith}
use cc.Base.{true, false, not, ◌||◌, inl, inr, Bool-cases, if◌then◌else◌, ◌==◌}
use cc.Base.{Option, none, some}
use cc.Semantic.Kind.{TypeKind, float, double, void_type, is_integer_kind}
use cc.Semantic.Kind.{same_kind, basic_layout, is_record_kind}
use cc.Semantic.Store.{CType, Types, deref}
use cc.Semantic.Predicates.{type_is_arithmetic}
use cc.Semantic.Predicates.{type_compatible}
use cc.Semantic.Arithmetic.{pick, has_kind, type_integer_promote}
use cc.Semantic.Arithmetic.{usual_promoted, usual_integers, type_usual_arithmetic}
use cc.Semantic.Valid.{IsTypes, Keeps}
use cc.Semantic.Basic.{GivesBasic, type_basic-GivesBasic}
use cc.Semantic.Standard.{promoted, standard_integers}
use cc.Semantic.Standard.{standard_usual, is_exception}
use cc.Semantic.Promotion.{GivesKind, promote-GivesKind, is_promoted, promoted-is_promoted}
use cc.Semantic.Rule.{operand_of, picked, pick_at, rule_holds, rule, floating_double}
use cc.Semantic.Rule.{floating_float, both_integers}
use cc.Semantic.Operands.{compatible_promoted, operand_found}

-- The result is a type of the kind that the standard gives, but for the exceptions.
abbrev pub Chooses : Types → TypeKind → TypeKind → Option (ℕ × Types) → Type 0
Chooses st l r none = ⊥
Chooses st l r (some (p, st')) =
    (t : CType) × (deref st'.store p ≡ some t)
    × (same_kind t.kind (standard_usual l r) ≡ not (is_exception (promoted l) (promoted r)))
    × Keeps st.store st'.store
    × IsTypes st'

-- What `usual_promoted` gives for promoted operands: one of the two types.
abbrev PicksOne : Types → TypeKind → TypeKind → Option (ℕ × Types) → Type 0
PicksOne st l r none = ⊥
PicksOne st l r (some (p, st')) =
    (t : CType) × (deref st.store p ≡ some t)
    × (st' ≡ st)
    × (t.kind ≡ (if same_kind l r then l else picked l r))

integer_of : (k : TypeKind) → is_promoted k ≡ true → is_integer_kind k ≡ true
integer_of k h = ground arith

picked_record :
    (st : Types) (p q : ℕ) (tp tq : CType)
    → deref st.store p ≡ some tp
    → deref st.store q ≡ some tq
    → (t : CType) × (deref st.store (pick (operand_of tp.kind p) (operand_of tq.kind q)) ≡ some t)
      × (t.kind ≡ picked tp.kind tq.kind)
unfolding picked operand_of
picked_record st p q tp tq ep eq =
    rw (pick_at (operand_of tp.kind p) (operand_of tq.kind q))
      (elim (Bool-cases (pick (operand_of tp.kind 1) (operand_of tq.kind 0) == 1)) [
        | inl left ↦ (tp, rw left ep, rw left refl)
        | inr right ↦ (tq, rw right eq, rw right refl)
      ])

usual_promoted-PicksOne :
    (st : Types) (p q : ℕ) (tp tq : CType)
    → deref st.store p ≡ some tp
    → deref st.store q ≡ some tq
    → IsTypes st
    → is_promoted tp.kind ≡ true
    → is_promoted tq.kind ≡ true
    → PicksOne st tp.kind tq.kind (usual_promoted p q st)
unfolding usual_promoted type_compatible
usual_promoted-PicksOne st p q tp tq ep eq v hp hq =
    rw (ep, eq, compatible_promoted (type_compatible 0 st.store) st.store p q tp tq hp hq)
      (elim (Bool-cases (same_kind tp.kind tq.kind)) [
        | inl same ↦ rw same (tp, ep, refl, rw same refl)
        | inr other ↦
            rw
              (
                other,
                operand_found p tp (v.types p tp ep) (integer_of tp.kind hp),
                operand_found q tq (v.types q tq eq) (integer_of tq.kind hq),
              )
              (let (t, e, k) = picked_record st p q tp tq ep eq in (t, e, refl, rw other k))
      ])

subst2 :
    (st : Types) (a b k l : TypeKind) (o : Option (ℕ × Types))
    → a ≡ k
    → b ≡ l
    → PicksOne st a b o
    → PicksOne st k l o
subst2 st a b k l o e f h = rw (← e, ← f) h

integer_not_floating :
    (k : TypeKind)
    → is_integer_kind k ≡ true
    → (same_kind k double ≡ false) × (same_kind k float ≡ false)
unfolding is_integer_kind same_kind
integer_not_floating void_type h = cc
integer_not_floating _ h = ground arith

-- On integers the standard's rule is the one for promoted kinds.
standard_of_integers :
    (l r : TypeKind)
    → is_integer_kind l ≡ true
    → is_integer_kind r ≡ true
    → standard_usual l r ≡ standard_integers (promoted l) (promoted r)
unfolding standard_usual
standard_of_integers l r hl hr =
    ground (arith, integer_not_floating l hl, integer_not_floating r hr)

rule_used :
    (l r k : TypeKind)
    → is_promoted l ≡ true
    → is_promoted r ≡ true
    → k ≡ (if same_kind l r then l else picked l r)
    → same_kind k (standard_integers l r) ≡ not (is_exception l r)
unfolding rule_holds
rule_used l r k hl hr e = rw e (ground (arith, rule l r))

chosen :
    (st : Types) (tp tq : CType) (st' : Types) (o : Option (ℕ × Types))
    → is_integer_kind tp.kind ≡ true
    → is_integer_kind tq.kind ≡ true
    → Keeps st.store st'.store
    → IsTypes st'
    → PicksOne st' (promoted tp.kind) (promoted tq.kind) o
    → Chooses st tp.kind tq.kind o
chosen st tp tq st' none hp hq keeps v h = absurd h
chosen st tp tq st' (some (p, st'')) hp hq keeps v (t, e, same, k) = (
  t,
  rw same e,
  rw (standard_of_integers tp.kind tq.kind hp hq) (
      rule_used (promoted tp.kind) (promoted tq.kind) t.kind (promoted-is_promoted tp.kind hp)
        (promoted-is_promoted tq.kind hq) k),
  rw same keeps,
  rw same v,
)

-- Integers: two promotions, then the choice.
usual_integers-Chooses :
    (st : Types) (p q : ℕ) (tp tq : CType)
    → deref st.store p ≡ some tp
    → deref st.store q ≡ some tq
    → is_integer_kind tp.kind ≡ true
    → is_integer_kind tq.kind ≡ true
    → IsTypes st
    → st.arena.total + 224 ≤ st.arena.limit
    → Chooses st tp.kind tq.kind (usual_integers p q st)
unfolding usual_integers
usual_integers-Chooses st p q tp tq ep eq hp hq v room =
    let l = type_integer_promote p st in
    let gl : GivesKind st (promoted tp.kind) 112 l = promote-GivesKind st p tp ep v (omega arith) in
    let r = type_integer_promote q l.1 in
    let gr : GivesKind l.1 (promoted tq.kind) 112 r =
      promote-GivesKind l.1 q tq (gl.keeps q tq eq) gl.valid (omega (arith, gl.total, gl.limit)) in
    chosen st tp tq r.1 (usual_promoted l.0 r.0 r.1) hp hq (λ x t e. gr.keeps x t (gl.keeps x t e))
      gr.valid
      (subst2 r.1 gl.t.kind gr.t.kind (promoted tp.kind) (promoted tq.kind) _ gl.kind gr.kind (
        usual_promoted-PicksOne r.1 l.0 r.0 gl.t gr.t (gr.keeps l.0 gl.t gl.found) gr.found gr.valid
          (rw gl.kind (promoted-is_promoted tp.kind hp))
          (rw gr.kind (promoted-is_promoted tq.kind hq))))

basic-Chooses :
    (st : Types) (l r k : TypeKind) (o : ℕ × Types)
    → GivesBasic st k o
    → same_kind k (standard_usual l r) ≡ true
    → is_exception (promoted l) (promoted r) ≡ false
    → Chooses st l r (some o)
basic-Chooses st l r k o g same plain =
    (g.basic.t, g.basic.found, rw (g.basic.kind, same, plain) refl, g.keeps, g.valid)

-- For two arithmetic types, with 224 bytes left in the arena, the conversions return a type. Its
-- kind is the one of the C standard, 6.3.1.8, exactly when the promoted kinds are none of the three exceptions;
-- stored types stay and the invariant holds again.
pub type_usual_arithmetic-Chooses :
    (st : Types) (p q : ℕ) (tp tq : CType)
    → deref st.store p ≡ some tp
    → deref st.store q ≡ some tq
    → type_is_arithmetic (some tp) ≡ true
    → type_is_arithmetic (some tq) ≡ true
    → IsTypes st
    → st.arena.total + 224 ≤ st.arena.limit
    → Chooses st tp.kind tq.kind (type_usual_arithmetic p q st)
unfolding type_usual_arithmetic has_kind type_is_arithmetic basic_layout is_record_kind
type_usual_arithmetic-Chooses st p q tp tq ep eq hp hq v room =
    rw (ep, eq, hp, hq)
      (elim (Bool-cases (same_kind tp.kind double || same_kind tq.kind double)) [
        | inl dbl ↦ rw dbl (
            basic-Chooses st tp.kind tq.kind double _
              (type_basic-GivesBasic double 8 8 st refl refl v (omega arith))
              (floating_double tp.kind tq.kind dbl).0 (floating_double tp.kind tq.kind dbl).1)
        | inr nd ↦ rw nd (elim (Bool-cases (same_kind tp.kind float || same_kind tq.kind float)) [
          | inl flt ↦ rw flt (
              basic-Chooses st tp.kind tq.kind float _
                (type_basic-GivesBasic float 4 4 st refl refl v (omega arith))
                (floating_float tp.kind tq.kind nd flt).0 (floating_float tp.kind tq.kind nd flt).1)
          | inr nf ↦ rw nf (
              usual_integers-Chooses st p q tp tq ep eq
                (both_integers tp.kind tq.kind nd nf hp hq).0
                (both_integers tp.kind tq.kind nd nf hp hq).1 v room)
        ])
      ])
