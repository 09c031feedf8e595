-- ===== src/Abi/Flat.antt =====
-- The walk of src/backend/abi.c over a structure of scalars, by what its members are.
pub mod Classes
use cc.Base.{
  ℕ, zero, suc, ◌+◌, ◌*◌, ◌/◌, ◌%◌, ◌^◌, ◌≤◌, ◌<◌, ◌≡◌, ◌≢◌, refl, arith, sym, ap, ◌∙◌, subst,
}
use cc.Base.{
  Bool, true, false, not, ◌&&◌, ◌||◌, if◌then◌else◌, Bool-cases, inl, inr, ◌==◌, ltb, leb,
}
use cc.Base.{Option, none, some, List, [], ◌∷◌, All, u64, length, get_or, set, length-set}
use cc.Base.{get_or-set_self, get_or-set_ne}
use cc.Semantic.Kind.{array, same_kind, is_record_kind}
use cc.Semantic.Store.{CType, Member, deref}
use cc.Abi.Classify.{
  AggClass, general_class, sse_class, Marks, Walk, walked, crosses, stuck, mark_piece, walk_scalar,
}
use cc.Abi.Classify.{walk_field, walk_list, is_vector_type}

-- A member that is a scalar with bytes and lies in one of the two pieces.
abbrev pub IsFlat : List CType → Member → Type 0
IsFlat store m =
    (f : CType) × (deref store m.field ≡ some f)
    × (is_record_kind f.kind ≡ false)
    × (same_kind f.kind array ≡ false)
    × ((f.size == 0) ≡ false)
    × (m.offset % 8 + f.size ≤ 8)
    × (m.offset < 16)

-- Does a member reach the piece, and are all that do of a vector type?
abbrev pub reached : ℕ → List Member → Bool
reached i [] = false
reached i (m ∷ ms) = m.offset / 8 == i || reached i ms

abbrev pub all_vector : List CType → ℕ → List Member → Bool
all_vector store i [] = true
all_vector store i (m ∷ ms) =
    (not (m.offset / 8 == i) || is_vector_type (deref store m.field)) && all_vector store i ms

abbrev pub seen_at : Marks → ℕ → Bool
seen_at marks i = get_or marks.seen i false

abbrev pub class_at : Marks → ℕ → AggClass
class_at marks i = get_or marks.pieces i general_class

-- The marks behind one field.
record Marked (vector : Bool) (piece : ℕ) (marks marks' : Marks) : Type 0 where
  pieces_length : length marks'.pieces ≡ 2
  seen_length : length marks'.seen ≡ 2
  seen_here : (i : ℕ) → i < 2 → seen_at marks' i ≡ (piece == i || seen_at marks i)
  class_here :
      (i : ℕ)
      → i < 2
      → class_at marks' i ≡ (
          if piece == i
          then (if vector
              then (if seen_at marks i then class_at marks i else sse_class)
              else general_class)
          else class_at marks i)

pub set_at {ℓ} :
    {A : Type ℓ} (xs : List A) (at i : ℕ) (v d : A)
    → i < length xs
    → get_or (set xs at v) i d ≡ (if at == i then v else get_or xs i d)
set_at xs at i v d h = elim (Bool-cases (at == i)) [
  | inl here ↦ rw here (
      ap (λ (n : ℕ). get_or (set xs n v) i d) {y = i} (ground (arith, here))
      ∙ get_or-set_self xs i v d h)
  | inr other ↦ rw other (get_or-set_ne xs at i v d (λ e. ground (arith, e, other)))
]

either_seen : (b c : Bool) → (if b then true else c) ≡ (b || c)
either_seen true c = refl
either_seen false c = refl

seen_where :
    (marks : Marks) (piece i : ℕ) → (piece == i) ≡ true → seen_at marks piece ≡ seen_at marks i
seen_where marks piece i h = ap (seen_at marks) (ground (arith, h))

mark_piece-Marked :
    (t : Option CType) (offset : ℕ) (marks : Marks)
    → offset < 16
    → length marks.pieces ≡ 2
    → length marks.seen ≡ 2
    → Marked (is_vector_type t) (offset / 8) marks (mark_piece t offset marks)
unfolding mark_piece
mark_piece-Marked t offset marks small p s =
    let inside : leb 2 (offset / 8) ≡ false = ground arith in
    let same_seen = seen_where marks (offset / 8) in
    elim (Bool-cases (not (is_vector_type t) || not (get_or marks.seen (offset / 8) false))) [
      | inl marks_it ↦
          rw (inside, marks_it)
            (record {
              pieces_length = length-set marks.pieces (offset / 8) _ ∙ p;
              seen_length = length-set marks.seen (offset / 8) true ∙ s;
              seen_here = λ i h.
                  set_at marks.seen (offset / 8) i true false (omega arith)
                  ∙ either_seen (offset / 8 == i) (seen_at marks i);
              class_here = λ i h.
                  set_at marks.pieces (offset / 8) i _ general_class (omega arith)
                  ∙ ground (arith, marks_it, same_seen i);
            })
      | inr leaves ↦
          rw (inside, leaves)
            (record {
              pieces_length = p;
              seen_length = s;
              seen_here = λ i h. ground (arith, leaves, same_seen i);
              class_here = λ i h. ground (arith, leaves, same_seen i);
            })
    ]

-- What the rest of a walk makes of the class of a piece.
abbrev pub later_class : Bool → Bool → Bool → AggClass → AggClass
later_class seen reaches vectors class =
    if seen
    then (if vectors then class else general_class)
    else if reaches
    then (if vectors then sse_class else general_class)
    else class

pub record Walked (store : List CType) (ms : List Member) (marks marks' : Marks) : Type 0 where
  pub two_pieces : length marks'.pieces ≡ 2
  pub seen_walk : (i : ℕ) → i < 2 → seen_at marks' i ≡ (seen_at marks i || reached i ms)
  pub class_walk :
      (i : ℕ)
      → i < 2
      → class_at marks' i
        ≡ later_class (seen_at marks i) (reached i ms) (all_vector store i ms) (class_at marks i)

abbrev pub WalkedSome : List CType → List Member → Marks → Walk → Type 0
WalkedSome store ms marks (walked marks') = Walked store ms marks marks'
WalkedSome store ms marks w = ⊥

-- One member in front of the others.
class_cons :
    (here vector seen reaches vectors : Bool) (class : AggClass)
    → later_class (here || seen) reaches vectors (
        if here
        then (if vector then (if seen then class else sse_class) else general_class)
        else class)
      ≡ later_class seen (here || reaches) ((not here || vector) && vectors) class
class_cons false vector seen reaches vectors class = refl
class_cons true true false reaches vectors class = refl
class_cons true true true reaches vectors class = refl
class_cons true false false reaches true class = refl
class_cons true false false reaches false class = refl
class_cons true false true reaches true class = refl
class_cons true false true reaches false class = refl

seen_cons : (here seen reaches : Bool) → ((here || seen) || reaches) ≡ (seen || (here || reaches))
seen_cons true true reaches = refl
seen_cons true false reaches = refl
seen_cons false seen reaches = refl

later_class-nil : (seen : Bool) (class : AggClass) → class ≡ later_class seen false true class
later_class-nil true class = refl
later_class-nil false class = refl

seen_nil : (b : Bool) → b ≡ (b || false)
seen_nil true = refl
seen_nil false = refl

walked_cons :
    (store : List CType) (m : Member) (ms : List Member) (marks marks' : Marks) (w : Walk)
    → Marked (is_vector_type (deref store m.field)) (m.offset / 8) marks marks'
    → WalkedSome store ms marks' w
    → WalkedSome store (m ∷ ms) marks w
walked_cons store m ms marks marks' (crosses seen) one rest = rest
walked_cons store m ms marks marks' stuck one rest = rest
walked_cons store m ms marks marks' (walked last) one rest = record {
  two_pieces = rest.two_pieces;
  seen_walk = λ i h.
      rest.seen_walk i h
      ∙ ap (λ b. b || reached i ms) (one.seen_here i h)
      ∙ seen_cons (m.offset / 8 == i) (seen_at marks i) (reached i ms);
  class_walk = λ i h.
      rest.class_walk i h
      ∙ ap (λ b. later_class b (reached i ms) (all_vector store i ms) (class_at marks' i))
          (one.seen_here i h)
      ∙ ap
          (later_class (m.offset / 8 == i || seen_at marks i) (reached i ms)
            (all_vector store i ms))
          (one.class_here i h)
      ∙ class_cons (m.offset / 8 == i) (is_vector_type (deref store m.field)) (seen_at marks i)
          (reached i ms) (all_vector store i ms) (class_at marks i);
}

flat_field :
    (walk : ℕ → ℕ → Marks → Walk) (store : List CType) (m : Member) (f : CType) (marks : Marks)
    → is_record_kind f.kind ≡ false
    → same_kind f.kind array ≡ false
    → (f.size == 0) ≡ false
    → m.offset % 8 + f.size ≤ 8
    → walk_field walk store m.field m.offset marks (some f)
      ≡ walked (mark_piece (some f) m.offset marks)
unfolding walk_field walk_scalar
flat_field walk store m f marks r a z h =
    let fits : ltb 8 (u64 (m.offset % 8 + f.size)) ≡ false = ground arith in rw (r, a, z, fits) refl

pub walk_list-Walked :
    (walk : ℕ → ℕ → Marks → Walk) (store : List CType) (ms : List Member) (marks : Marks)
    → All (IsFlat store) ms
    → length marks.pieces ≡ 2
    → length marks.seen ≡ 2
    → WalkedSome store ms marks (walk_list walk store ms 0 marks)
unfolding walk_list
walk_list-Walked walk store [] marks flat p s = record {
  two_pieces = p;
  seen_walk = λ i h. seen_nil (seen_at marks i);
  class_walk = λ i h. later_class-nil (seen_at marks i) (class_at marks i);
}
walk_list-Walked walk store (m ∷ ms) marks ((f, found, r, a, z, fits, small), flat) p s =
    let at : u64 (0 + m.offset) ≡ m.offset = omega arith in
    let marks' = mark_piece (some f) m.offset marks in
    let one = mark_piece-Marked (some f) m.offset marks small p s in
    rw (at, found, flat_field walk store m f marks r a z fits)
      (walked_cons store m ms marks marks' _
        (subst (λ o. Marked (is_vector_type o) (m.offset / 8) marks marks') (sym found) one)
        (walk_list-Walked walk store ms marks' flat one.pieces_length one.seen_length))
