-- ===== src/Abi/Flat/Classes.antt =====
-- The classes that `abi_aggregate_pieces` of src/backend/abi.c gives to a structure of scalars.
use cc.Base.{ℕ, zero, suc, ◌+◌, ◌/◌, ◌≤◌, ◌<◌, ◌≡◌, refl, arith, sym, ap, subst, ◌∙◌}
use cc.Base.{Bool, true, false, not, ◌&&◌, ◌||◌, if◌then◌else◌, Bool-cases, inl, inr, ◌==◌, ltb}
use cc.Base.{Option, none, some, List, [], ◌∷◌, All, length, get_or, length-set}
use cc.Semantic.Kind.{is_record_kind}
use cc.Semantic.Store.{CType, Member, deref}
use cc.Abi.Classify.{AggClass, general_class, sse_class, Marks, Walk, walked, crosses, stuck}
use cc.Abi.Classify.{Aggregate, fill_padding, after_walk, classify_complete, classify_typed}
use cc.Abi.Classify.{abi_aggregate_pieces, walk_members, walk_type, walk_list}
use cc.Abi.Assign.{no_pieces}
use cc.Abi.Flat.{IsFlat, reached, all_vector, seen_at, class_at, set_at, Walked, WalkedSome}
use cc.Abi.Flat.{walk_list-Walked, later_class}

-- A piece has the vector class exactly when a member reaches it and all that do are `float` or `double`.
abbrev pub flat_class : List CType → List Member → ℕ → AggClass
flat_class store ms i = if reached i ms && all_vector store i ms then sse_class else general_class

later_class-flat :
    (reaches vectors : Bool)
    → later_class false reaches vectors general_class
      ≡ (if reaches && vectors then sse_class else general_class)
later_class-flat true true = refl
later_class-flat true false = refl
later_class-flat false vectors = refl

unseen_general :
    (reaches vectors : Bool)
    → reaches ≡ false
    → (if reaches && vectors then sse_class else general_class) ≡ general_class
unseen_general true vectors h = cc
unseen_general false vectors h = refl

fill_padding-length : (n : ℕ) (marks : Marks) → length (fill_padding n marks) ≡ length marks.pieces
unfolding fill_padding
fill_padding-length zero marks = refl
fill_padding-length (suc n) marks = elim (Bool-cases (get_or marks.seen n false)) [
  | inl seen ↦ rw seen (fill_padding-length n marks)
  | inr fresh ↦
      rw fresh (length-set (fill_padding n marks) n general_class ∙ fill_padding-length n marks)
]

-- Padding is general already where no member changed it.
fill_padding-class :
    (n : ℕ) (marks : Marks) (i : ℕ)
    → i < length marks.pieces
    → ((j : ℕ)
        → j < length marks.pieces
        → seen_at marks j ≡ false
        → class_at marks j ≡ general_class)
    → get_or (fill_padding n marks) i general_class ≡ class_at marks i
unfolding fill_padding
fill_padding-class zero marks i h g = refl
fill_padding-class (suc n) marks i h g = elim (Bool-cases (get_or marks.seen n false)) [
  | inl seen ↦ rw seen (fill_padding-class n marks i h g)
  | inr fresh ↦ elim (Bool-cases (n == i)) [
    | inl here ↦ rw fresh (
        set_at (fill_padding n marks) n i general_class general_class
          (omega (arith, fill_padding-length n marks))
        ∙ rw here (sym (g i h (ap (seen_at marks) (ground (arith, here)) ∙ fresh))))
    | inr other ↦ rw fresh (
        set_at (fill_padding n marks) n i general_class general_class
          (omega (arith, fill_padding-length n marks))
        ∙ rw other (fill_padding-class n marks i h g))
  ]
]

pub record Classifies (store : List CType) (t : CType) (a : Aggregate) : Type 0 where
  pub count : a.count ≡ (t.size + 7) / 8
  pub in_registers : a.memory ≡ false
  pub class_of : (i : ℕ) → i < 2 → get_or a.pieces i general_class ≡ flat_class store t.members i

abbrev pub ClassifiesSome : List CType → CType → Option Aggregate → Type 0
ClassifiesSome store t none = ⊥
ClassifiesSome store t (some a) = Classifies store t a

abbrev first_marks : Marks
first_marks = record { pieces = no_pieces; seen = false ∷ false ∷ [] }

no_pieces-class : (i : ℕ) → i < 2 → class_at first_marks i ≡ general_class
no_pieces-class zero h = refl
no_pieces-class (suc zero) h = refl
no_pieces-class (suc (suc i)) h = absurd (omega arith)

no_pieces-seen : (i : ℕ) → i < 2 → seen_at first_marks i ≡ false
no_pieces-seen zero h = refl
no_pieces-seen (suc zero) h = refl
no_pieces-seen (suc (suc i)) h = absurd (omega arith)

-- The classes behind the walk.
Walked-class :
    (store : List CType) (ms : List Member) (marks : Marks) (i : ℕ)
    → Walked store ms first_marks marks
    → i < 2
    → class_at marks i ≡ flat_class store ms i
Walked-class store ms marks i w h =
    w.class_walk i h
    ∙ ap (λ b. later_class b (reached i ms) (all_vector store i ms) (class_at first_marks i))
        (no_pieces-seen i h)
    ∙ ap (later_class false (reached i ms) (all_vector store i ms)) (no_pieces-class i h)
    ∙ later_class-flat (reached i ms) (all_vector store i ms)

unseen-class :
    (store : List CType) (ms : List Member) (marks : Marks) (i : ℕ)
    → Walked store ms first_marks marks
    → i < 2
    → seen_at marks i ≡ false
    → class_at marks i ≡ general_class
unseen-class store ms marks i w h fresh =
    Walked-class store ms marks i w h
    ∙ unseen_general (reached i ms) (all_vector store i ms)
        (ap (λ b. b || reached i ms) (sym (no_pieces-seen i h)) ∙ sym (w.seen_walk i h) ∙ fresh)

after_walk-Classifies :
    (store : List CType) (t : CType) (w : Walk)
    → WalkedSome store t.members first_marks w
    → ClassifiesSome store t (after_walk t.size no_pieces w)
unfolding after_walk
after_walk-Classifies store t (crosses marks) h = absurd h
after_walk-Classifies store t stuck h = absurd h
after_walk-Classifies store t (walked marks) h = record {
  count = refl;
  in_registers = refl;
  class_of = λ i k.
      fill_padding-class ((t.size + 7) / 8) marks i (omega (arith, h.two_pieces))
        (λ j below. unseen-class store t.members marks j h (omega (arith, h.two_pieces)))
      ∙ Walked-class store t.members marks i h k;
}

members_of :
    (fuel type : ℕ) (store : List CType) (t : CType) (marks : Marks)
    → deref store type ≡ some t
    → walk_list (walk_members fuel store) store t.members 0 marks
      ≡ walk_members (suc fuel) store type 0 marks
unfolding walk_members walk_type
members_of fuel type store t marks found = rw found refl

-- A complete structure or union of 1 to 16 bytes whose members are scalars, each with bytes and inside
-- one of the two pieces, goes to registers in one piece for each eight bytes begun; a piece has the
-- vector class exactly when a member begins in it and all that do are `float` or `double`, so
-- that padding is general, whatever the order of the members.
pub abi_aggregate_pieces-Classifies :
    (fuel type : ℕ) (store : List CType) (t : CType)
    → deref store type ≡ some t
    → is_record_kind t.kind ≡ true
    → t.incomplete ≡ false
    → 0 < t.size
    → t.size ≤ 16
    → All (IsFlat store) t.members
    → ClassifiesSome store t (abi_aggregate_pieces (suc fuel) store type no_pieces)
unfolding abi_aggregate_pieces classify_typed classify_complete
abi_aggregate_pieces-Classifies fuel type store t found kind whole pos small flat =
    let sized : (t.size == 0) ≡ false = ground arith in
    let fits : ltb 16 t.size ≡ false = ground arith in
    let known : (not (is_record_kind t.kind) || t.incomplete) ≡ false =
      ground (arith, kind, whole) in
    rw (found, known, sized, fits)
      (subst (λ w. ClassifiesSome store t (after_walk t.size no_pieces w))
        (members_of fuel type store t first_marks found)
        (after_walk-Classifies store t _
          (walk_list-Walked (walk_members fuel store) store t.members first_marks flat refl refl)))
