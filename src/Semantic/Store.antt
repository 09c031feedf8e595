-- ===== src/Semantic/Store.antt =====
-- `struct Type` of src/semantic/semantic.h on an explicit store, the table of shared types, and
-- `type_alloc` of src/semantic/semantic.c. A pointer to a type is a number, and NULL is 0.
use cc.Base.{ℕ, zero, suc, Bool, false, not, ◌&&◌, ◌==◌}
use cc.Base.{Option, none, some, List, [], ◌∷◌, ◌++◌, length, get_elem?, replicate}
use cc.Base.{if◌then◌else◌}
use cc.Arena.{Arena, arena_alloc}
use cc.Semantic.Kind.{TypeKind}

pub record Member : Type 0 where
  pub name : List ℕ
  pub field : ℕ
  pub offset : ℕ

-- `members` and `parameters` are the linked lists, the second one as the types of the symbols; `tag`
-- is a string or NULL.
pub record CType : Type 0 where
  pub kind : TypeKind
  pub qualifiers : ℕ
  pub size : ℕ
  pub alignment : ℕ
  pub base : ℕ
  pub array_count : ℕ
  pub incomplete : Bool
  pub tag : Option (List ℕ)
  pub members : List Member
  pub return_type : ℕ
  pub parameters : List ℕ
  pub parameter_count : ℕ
  pub variadic : Bool
  pub next : ℕ
  pub origin : ℕ

-- The record at a pointer; `none` for NULL.
abbrev pub deref : List CType → ℕ → Option CType
deref store zero = none
deref store (suc i) = get_elem? store i

abbrev pub type_table_slots : ℕ
type_table_slots = 32

-- `arena` is the address of the arena that the table was filled for.
pub record TypeTable : Type 0 where
  pub arena : ℕ
  pub generation : ℕ
  pub basics : List ℕ
  pub pointers : List ℕ

-- The arena that the caller hands over, at its address, with the store and the static table.
pub record Types : Type 0 where
  pub address : ℕ
  pub arena : Arena
  pub store : List CType
  pub table : TypeTable

-- `sizeof(Type)`.
abbrev pub type_bytes : ℕ
type_bytes = 112

abbrev pub fresh_type : TypeKind → ℕ → ℕ → ℕ → CType
fresh_type kind size alignment at = record {
  kind = kind;
  qualifiers = 0;
  size = size;
  alignment = alignment;
  base = 0;
  array_count = 0;
  incomplete = false;
  tag = none;
  members = [];
  return_type = 0;
  parameters = [];
  parameter_count = 0;
  variadic = false;
  next = 0;
  origin = at;
}

-- A record is put at the next pointer of the store, if the arena has the bytes.
unfoldable pub store_new : Types → (ℕ → CType) → ℕ × Types
store_new st make = elim (arena_alloc st.arena type_bytes) [
  | none ↦ (0, st)
  | some (p, arena') ↦
      let at = suc (length st.store) in
      (at, record st { arena = arena'; store = st.store ++ (make at ∷ []) })
]

unfoldable pub type_alloc : Types → TypeKind → ℕ → ℕ → ℕ × Types
type_alloc st kind size alignment = store_new st (fresh_type kind size alignment)

unfoldable pub type_table_uses : Types → Bool
type_table_uses st =
    not (st.address == 0)
    && st.table.arena == st.address
    && st.table.generation == st.arena.generation

unfoldable pub type_table_select : Types → Types
type_table_select st = if type_table_uses st then st else (record st {
  table = record {
    arena = st.address;
    generation = st.arena.generation;
    basics = replicate type_table_slots 0;
    pointers = replicate type_table_slots 0;
  };
})
