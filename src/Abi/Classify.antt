-- ===== src/Abi/Classify.antt =====
-- The classification of structures and unions of src/backend/abi.c, on the store of types. The walk
-- over members calls itself on nested types, so it takes fuel; `stuck` is a walk that ran out of it or
-- read through NULL.
use cc.Base.{ℕ, zero, suc, ◌+◌, ◌*◌, ◌/◌, ◌%◌, Bool, true, false, not, ◌||◌, ◌==◌, ltb, leb}
use cc.Base.{Option, none, some, List, [], ◌∷◌, get_or, set, if◌then◌else◌, u64}
use cc.Semantic.Kind.{array, same_kind, is_record_kind}
use cc.Semantic.Store.{CType, Member, deref}
use cc.Semantic.Predicates.{is_floating_kind, type_size}

pub data AggClass : Type 0 where
  general_class sse_class : AggClass

-- The arrays `pieces` and `seen`, of two elements each.
pub record Marks : Type 0 where
  pub pieces : List AggClass
  pub seen : List Bool

pub data Walk : Type 0 where
  walked : Marks → Walk
  crosses : Marks → Walk
  stuck : Walk

unfoldable pub is_vector_type : Option CType → Bool
is_vector_type none = false
is_vector_type (some t) = is_floating_kind t.kind

-- `wanted == AGG_INTEGER || !seen[index]`
unfoldable pub mark_piece : Option CType → ℕ → Marks → Marks
mark_piece type offset marks =
    let index = offset / 8 in
    if leb 2 index
    then marks
    else let vector = is_vector_type type in
      if not vector || not (get_or marks.seen index false)
      then (record {
        pieces = set marks.pieces index (if vector then sse_class else general_class);
        seen = set marks.seen index true;
      })
      else marks

-- The walk after a part that was walked.
abbrev pub and_then : Walk → (Marks → Walk) → Walk
and_then (walked marks) more = more marks
and_then (crosses marks) more = crosses marks
and_then stuck more = stuck

-- The loop over the elements of an array, with `left` elements to go.
unfoldable pub walk_elements : (ℕ → ℕ → Marks → Walk) → ℕ → ℕ → ℕ → ℕ → ℕ → Marks → Walk
walk_elements walk element_type offset element zero index marks = walked marks
walk_elements walk element_type offset element (suc left) index marks =
    and_then (walk element_type (u64 (offset + u64 (index * element))) marks)
      λ marks'. walk_elements walk element_type offset element left (suc index) marks'

-- A field that is no aggregate.
unfoldable pub walk_scalar : CType → ℕ → Marks → Walk
walk_scalar field offset marks =
    if field.size == 0
    then walked marks
    else if ltb 8 (u64 (offset % 8 + field.size))
    then crosses marks
    else walked (mark_piece (some field) offset marks)

-- A field that is an array, with the size of its elements.
unfoldable pub walk_array : (ℕ → ℕ → Marks → Walk) → CType → ℕ → ℕ → Marks → Walk
walk_array walk field element offset marks =
    if element == 0
    then walked marks
    else walk_elements walk field.base offset element field.array_count 0 marks

-- One field at its offset, by the walk over the members of a type.
unfoldable pub walk_field :
    (ℕ → ℕ → Marks → Walk) → List CType → ℕ → ℕ → Marks → Option CType → Walk
walk_field walk store field_at offset marks none = crosses marks
walk_field walk store field_at offset marks (some field) =
    if is_record_kind field.kind
    then walk field_at offset marks
    else if same_kind field.kind array
    then walk_array walk field (type_size (deref store field.base)) offset marks
    else walk_scalar field offset marks

unfoldable pub walk_list : (ℕ → ℕ → Marks → Walk) → List CType → List Member → ℕ → Marks → Walk
walk_list walk store [] base marks = walked marks
walk_list walk store (m ∷ ms) base marks =
    and_then (walk_field walk store m.field (u64 (base + m.offset)) marks (deref store m.field))
      λ marks'. walk_list walk store ms base marks'

-- `type->members`
unfoldable pub walk_type : (List Member → ℕ → Marks → Walk) → Option CType → ℕ → Marks → Walk
walk_type walk none base marks = stuck
walk_type walk (some t) base marks = walk t.members base marks

unfoldable pub walk_members : ℕ → List CType → ℕ → ℕ → Marks → Walk
walk_members zero store type base marks = stuck
walk_members (suc fuel) store type base marks =
    walk_type (walk_list (walk_members fuel store) store) (deref store type) base marks

-- The number of pieces, their classes, and whether the object goes to memory.
pub record Aggregate : Type 0 where
  pub count : ℕ
  pub pieces : List AggClass
  pub memory : Bool

-- Pieces that no member reached are padding.
unfoldable pub fill_padding : ℕ → Marks → List AggClass
fill_padding zero marks = marks.pieces
fill_padding (suc piece) marks =
    let pieces = fill_padding piece marks in
    if get_or marks.seen piece false then pieces else set pieces piece general_class

unfoldable pub after_walk : ℕ → List AggClass → Walk → Option Aggregate
after_walk size pieces (walked marks) = some (record {
  count = (size + 7) / 8;
  pieces = fill_padding ((size + 7) / 8) marks;
  memory = false;
})
after_walk size pieces (crosses marks) =
    some (record { count = 0; pieces = marks.pieces; memory = true })
after_walk size pieces stuck = none

unfoldable pub classify_complete : ℕ → List CType → ℕ → ℕ → List AggClass → Option Aggregate
classify_complete fuel store type size pieces =
    if size == 0
    then some (record { count = 0; pieces = pieces; memory = false })
    else if ltb 16 size
    then some (record { count = 0; pieces = pieces; memory = true })
    else after_walk size pieces
        (walk_members fuel store type 0 (record { pieces = pieces; seen = false ∷ false ∷ [] }))

unfoldable pub classify_typed : ℕ → List CType → ℕ → List AggClass → Option CType → Option Aggregate
classify_typed fuel store type pieces none =
    some (record { count = 0; pieces = pieces; memory = false })
classify_typed fuel store type pieces (some t) =
    if not (is_record_kind t.kind) || t.incomplete
    then some (record { count = 0; pieces = pieces; memory = false })
    else classify_complete fuel store type t.size pieces

-- `none` is a walk that is stuck.
unfoldable pub abi_aggregate_pieces : ℕ → List CType → ℕ → List AggClass → Option Aggregate
abi_aggregate_pieces fuel store type pieces =
    classify_typed fuel store type pieces (deref store type)
